-- ===== src/Ports/Toml/Current.antt =====
-- The current table of a document (tools/port-deps.cjs: `current` of `parseToml`).
use ebnf.Base.{
  ℕ, ◌≡◌, refl, true, false, Option, none, some, List, [], ◌∷◌, Text, text_eq_refl, arith,
}
use ebnf.Ports.Fault.{Read}
use ebnf.Ports.Toml.{
  Node, table, tables, array, string, bool, other, Keys, nothing, key, Rows, last, row, node_at,
  put, push_row,
}
use ebnf.Ports.Toml.Tables.{
  in_last, in_node, in_table, pass_table, own_table, add_item, define, current_table, in_current,
  within_table,
}
use ebnf.Ports.Toml.Ends.{Ends, Ends->>=, Ends-le, Any}

-- A table whose keys satisfy `P`.
abbrev pub Holds : (Keys → Type 0) → Node → Type 0
Holds P (table _ _ _ ks) = P ks
Holds P _ = ⊥

-- A node, or the last of an array of tables, satisfies `R`.
abbrev pub AtLast : (Node → Type 0) → Rows → Type 0
AtLast R (last x) = R x
AtLast R (row x xs) = AtLast R xs

abbrev pub AtNode : (Node → Type 0) → Node → Type 0
AtNode R (tables _ rows) = AtLast R rows
AtNode R node = R node

abbrev pub HasTable : (Keys → Type 0) → Option Node → Type 0
HasTable P none = ⊥
HasTable P (some node) = AtNode (Holds P) node

-- The names lead to a table of the document.
abbrev pub IsTable : List Text → Keys → Type 0
IsTable [] ks = Unit
IsTable (name ∷ names) ks = HasTable (IsTable names) (node_at name ks)

pub node_at-put :
    (name : Text) (node : Node) (ks : Keys) → node_at name (put name node ks) ≡ some node
unfolding node_at put
node_at-put name node nothing = rw (text_eq_refl name) refl
node_at-put name node (key k old ks) = ground (arith, node_at-put name node ks, text_eq_refl name)

IsTable-put :
    (name : Text) (names : List Text) (node : Node) (ks : Keys)
    → AtNode (Holds (IsTable names)) node
    → IsTable (name ∷ names) (put name node ks)
IsTable-put name names node ks h = rw (node_at-put name node ks) h

Holds-AtNode : (P : Keys → Type 0) (x : Node) → Holds P x → AtNode (Holds P) x
Holds-AtNode P (table _ _ _ ks) h = h
Holds-AtNode P (tables _ _) h = absurd h
Holds-AtNode P (array _ _) h = h
Holds-AtNode P (string _ _) h = h
Holds-AtNode P (bool _ _) h = h
Holds-AtNode P (other _ _) h = h

-- What is changed in a node, or in the last of an array of tables.
module _ (R : Node → Type 0) (P : Keys → Type 0) (into : Node → Read Node)
    (into-Ends : (x : Node) → R x → Ends (Holds P) (into x)) where
  in_last-Ends : (rows : Rows) → AtLast R rows → Ends (AtLast (Holds P)) (in_last into rows)
  unfolding in_last
  in_last-Ends (last x) h =
      Ends->>= (Holds P) (AtLast (Holds P)) (into x) _ (into-Ends x h) (λ _ l. l)
  in_last-Ends (row x xs) h =
      Ends->>= (AtLast (Holds P)) (AtLast (Holds P)) (in_last into xs) _ (in_last-Ends xs h)
        (λ _ l. l)

  changed-Ends : (x : Node) → R x → Ends (AtNode (Holds P)) (into x)
  changed-Ends x h = Ends-le (Holds P) _ (into x) (into-Ends x h) (Holds-AtNode P)

  in_node-Ends : (node : Node) → AtNode R node → Ends (AtNode (Holds P)) (in_node into node)
  unfolding in_node
  in_node-Ends (tables at rows) h =
      Ends->>= (AtLast (Holds P)) (AtNode (Holds P)) (in_last into rows) _ (in_last-Ends rows h)
        (λ _ l. l)
  in_node-Ends (table l d i ks) h = changed-Ends (table l d i ks) h
  in_node-Ends (array l xs) h = changed-Ends (array l xs) h
  in_node-Ends (string l v) h = changed-Ends (string l v) h
  in_node-Ends (bool l v) h = changed-Ends (bool l v) h
  in_node-Ends (other l v) h = changed-Ends (other l v) h

Any-AtLast : (rows : Rows) → AtLast (λ _. Unit {0}) rows
Any-AtLast (last x) = tt
Any-AtLast (row x xs) = Any-AtLast xs

Any-AtNode : (node : Node) → AtNode (λ _. Unit {0}) node
Any-AtNode (tables _ rows) = Any-AtLast rows
Any-AtNode (table _ _ _ ks) = tt
Any-AtNode (array _ _) = tt
Any-AtNode (string _ _) = tt
Any-AtNode (bool _ _) = tt
Any-AtNode (other _ _) = tt

module _ (file : Text) (line : ℕ) (P Q : Keys → Type 0) (deeper : Keys → Read Keys) where
  in_table-Ends :
      ((ks : Keys) → Ends P (deeper ks)) → (x : Node) → Ends (Holds P) (in_table file line deeper x)
  unfolding in_table
  in_table-Ends h (table at d false ks) = Ends->>= P (Holds P) (deeper ks) _ (h ks) (λ _ l. l)
  in_table-Ends h (table at d true ks) = refl
  in_table-Ends h (tables _ _) = refl
  in_table-Ends h (array _ _) = refl
  in_table-Ends h (string _ _) = refl
  in_table-Ends h (bool _ _) = refl
  in_table-Ends h (other _ _) = refl

  pass_table-Ends :
      ((ks : Keys) → Ends P (deeper ks))
      → (o : Option Node) → Ends (AtNode (Holds P)) (pass_table file line deeper o)
  unfolding pass_table
  pass_table-Ends h none = Ends->>= P _ (deeper nothing) _ (h nothing) (λ _ l. l)
  pass_table-Ends h (some node) =
      in_node-Ends (λ _. Unit {0}) P (in_table file line deeper) (λ x _. in_table-Ends h x) node
        (Any-AtNode node)

  current_table-Ends :
      ((ks : Keys) → Q ks → Ends P (deeper ks))
      → (x : Node) → Holds Q x
      → Ends (Holds P) (current_table file line deeper x)
  unfolding current_table
  current_table-Ends h (table at d i ks) q = Ends->>= P (Holds P) (deeper ks) _ (h ks q) (λ _ l. l)
  current_table-Ends h (tables _ _) q = absurd q
  current_table-Ends h (array _ _) q = absurd q
  current_table-Ends h (string _ _) q = absurd q
  current_table-Ends h (bool _ _) q = absurd q
  current_table-Ends h (other _ _) q = absurd q

  in_current-Ends :
      ((ks : Keys) → Q ks → Ends P (deeper ks))
      → (o : Option Node) → HasTable Q o
      → Ends (AtNode (Holds P)) (in_current file line deeper o)
  unfolding in_current
  in_current-Ends h none q = absurd q
  in_current-Ends h (some node) q =
      in_node-Ends (Holds Q) P (current_table file line deeper) (current_table-Ends h) node q

-- What is set in the current table leaves it in the document.
pub within_table-IsTable :
    (file : Text) (line : ℕ) (change : Keys → Read Keys)
    → ((ks : Keys) → Ends Any (change ks))
    → (names : List Text) (ks : Keys) → IsTable names ks
    → Ends (IsTable names) (within_table file line change names ks)
unfolding within_table
within_table-IsTable file line change h [] ks t = h ks
within_table-IsTable file line change h (name ∷ names) ks t =
    let deeper = within_table file line change names in
    Ends->>= (AtNode (Holds (IsTable names))) _ (in_current file line deeper (node_at name ks)) _
      (in_current-Ends file line (IsTable names) (IsTable names) deeper
        (within_table-IsTable file line change h names) (node_at name ks) t)
      (λ node l. IsTable-put name names node ks l)

-- A header's table is in the document.
pub define-IsTable :
    (file : Text) (line : ℕ) (make : Option Node → Read Node)
    → ((o : Option Node) → Ends (AtNode (Holds (λ _. Unit {0}))) (make o))
    → (names : List Text) (ks : Keys) → Ends (IsTable names) (define file line make names ks)
unfolding define
define-IsTable file line make h [] ks = tt
define-IsTable file line make h (name ∷ []) ks =
    Ends->>= (AtNode (Holds (λ _. Unit {0}))) _ (make (node_at name ks)) _ (h (node_at name ks))
      (λ node l. IsTable-put name [] node ks l)
define-IsTable file line make h (name ∷ next ∷ names) ks =
    let deeper = define file line make (next ∷ names) in
    Ends->>= (AtNode (Holds (IsTable (next ∷ names)))) _
      (pass_table file line deeper (node_at name ks)) _
      (pass_table-Ends file line (IsTable (next ∷ names)) (λ _. Unit {0}) deeper
        (define-IsTable file line make h (next ∷ names)) (node_at name ks))
      (λ node l. IsTable-put name (next ∷ names) node ks l)

push_row-AtLast :
    (rows : Rows) (line : ℕ)
    → AtLast (Holds (λ _. Unit {0})) (push_row rows (table line true false nothing))
unfolding push_row
push_row-AtLast (last x) line = tt
push_row-AtLast (row x xs) line = push_row-AtLast xs line

pub own_table-Ends :
    (file : Text) (line : ℕ) (o : Option Node)
    → Ends (AtNode (Holds (λ _. Unit {0}))) (own_table file line o)
unfolding own_table
own_table-Ends file line none = tt
own_table-Ends file line (some (table at false i ks)) = tt
own_table-Ends file line (some (table at true i ks)) = refl
own_table-Ends file line (some (tables _ _)) = refl
own_table-Ends file line (some (array _ _)) = refl
own_table-Ends file line (some (string _ _)) = refl
own_table-Ends file line (some (bool _ _)) = refl
own_table-Ends file line (some (other _ _)) = refl

pub add_item-Ends :
    (file : Text) (line : ℕ) (o : Option Node)
    → Ends (AtNode (Holds (λ _. Unit {0}))) (add_item file line o)
unfolding add_item
add_item-Ends file line none = tt
add_item-Ends file line (some (tables at rows)) = push_row-AtLast rows line
add_item-Ends file line (some (table _ _ _ _)) = refl
add_item-Ends file line (some (array _ _)) = refl
add_item-Ends file line (some (string _ _)) = refl
add_item-Ends file line (some (bool _ _)) = refl
add_item-Ends file line (some (other _ _)) = refl
