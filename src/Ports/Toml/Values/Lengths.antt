-- ===== src/Ports/Toml/Values/Lengths.antt =====
-- Reading a value takes a unit at least (tools/port-deps.cjs: `value` of `parseToml`).
use ebnf.Base.{
  ℕ, zero, suc, ◌+◌, ◌*◌, ◌<◌, ◌≤◌, refl, Bool, true, false, ◌||◌, Option, none, some, List, [],
  ◌∷◌, ◌++◌, ◌==◌, if◌then◌else◌, length, take, drop, starts_with, Text, arith,
}
use ebnf.Ports.Fault.{Read}
use ebnf.Ports.Strings.Lengths.{length-drop-le}
use ebnf.Ports.Toml.{
  Node, table, tables, array, string, bool, other, Keys, nothing, Nodes, end, push_node, Cursor,
  gap_from, run_of, line_of, node_at,
}
use ebnf.Ports.Toml.Strings.{toml_string}
use ebnf.Ports.Toml.Strings.Lengths.{toml_string-Ends}
use ebnf.Ports.Toml.Paths.{toml_key}
use ebnf.Ports.Toml.Tables.{assign, hold, set_once}
use ebnf.Ports.Toml.Ends.{Ends, Ends->>=, Ends-if, Ends-le, Left, Less, Any}
use ebnf.Ports.Toml.Lengths.{length-blank, length-gap_from, toml_key-Ends}
use ebnf.Ports.Toml.Values.{
  is_scalar, with_time, is_date, time_at, scalar, Task, value, items, members, Loop, value_at,
  separated, items_at, equals, members_at, round, values, toml_value,
}

hold-Ends :
    (file : Text) (line : ℕ) (deeper : Keys → Read Keys) (o : Option Node)
    → ((ks : Keys) → Ends Any (deeper ks))
    → Ends Any (hold file line deeper o)
unfolding hold
hold-Ends file line deeper none h = Ends->>= Any Any (deeper nothing) _ (h nothing) (λ _ _. tt)
hold-Ends file line deeper (some (table at d false ks)) h =
    Ends->>= Any Any (deeper ks) _ (h ks) (λ _ _. tt)
hold-Ends file line deeper (some (table at d true ks)) h = refl
hold-Ends file line deeper (some (tables at rows)) h = refl
hold-Ends file line deeper (some (array at xs)) h = refl
hold-Ends file line deeper (some (string at v)) h = refl
hold-Ends file line deeper (some (bool at v)) h = refl
hold-Ends file line deeper (some (other at v)) h = refl

set_once-Ends :
    (file name : Text) (node : Node) (ks : Keys) (o : Option Node)
    → Ends Any (set_once file name node ks o)
unfolding set_once
set_once-Ends file name node ks none = tt
set_once-Ends file name node ks (some old) = refl

pub assign-Ends :
    (file : Text) (node : Node) (names : List Text) (ks : Keys)
    → Ends Any (assign file node names ks)
unfolding assign
assign-Ends file node [] ks = tt
assign-Ends file node (name ∷ []) ks = set_once-Ends file name node ks (node_at name ks)
assign-Ends file node (name ∷ next ∷ names) ks =
    Ends->>= Any Any (hold file (line_of node) (assign file node (next ∷ names)) (node_at name ks))
      _
      (hold-Ends file (line_of node) (assign file node (next ∷ names)) (node_at name ks)
        (assign-Ends file node (next ∷ names)))
      (λ _ _. tt)

pub equals-Ends :
    (file : Text) (p : Cursor) → Ends (λ q. length q.rest ≤ length p.rest) (equals file p)
unfolding equals
equals-Ends file p =
    let behind : Cursor = record p { rest = drop 1 p.rest } in
    Ends-if _ (starts_with b'=' p.rest) _ _
      (λ _. omega (arith, length-blank behind, length-drop-le 1 p.rest)) (λ _. refl)

taken-lt :
    (b : Bool) (c d : ℕ) (cs w time : Text)
    → length (drop (length (if b then (d ∷ w) ++ time else d ∷ w)) (c ∷ cs)) < suc (length cs)
taken-lt true c d cs w time = omega (arith, length-drop-le (length (w ++ time)) cs)
taken-lt false c d cs w time = omega (arith, length-drop-le (length w) cs)

scalar-Ends :
    (file : Text) (line c : ℕ) (cs w : Text)
    → Ends (Less (suc (length cs))) (scalar file line (c ∷ cs) w)
unfolding scalar with_time
scalar-Ends file line c cs [] = refl
scalar-Ends file line c cs (d ∷ w) =
    taken-lt (is_date (d ∷ w)) c d cs w (time_at (drop (length w) cs))

-- The fuel that a task wants where `n` units are left.
abbrev need : Task → ℕ → ℕ
need value n = suc (2 * n)
need (items _ _) n = 2 * n + 2
need (members _ _) n = 2 * n + 2

module _ (file : Text) (loop : Loop) (f : ℕ)
    (loop-Ends : (task : Task) (p : Cursor)
      → need task (length p.rest) ≤ f
      → Ends (Less (length p.rest)) (loop task p)) where
  value_at-Ends :
      (line : ℕ) (s : Text)
      → suc (2 * length s) ≤ suc f
      → Ends (Less (length s)) (value_at file loop line s)
  unfolding value_at
  value_at-Ends line [] h = refl
  value_at-Ends line (c ∷ cs) h =
      Ends-if _ (c == b'"' || c == b'\'') _ _
        (λ _.
          Ends->>= (Left (length cs)) _ (toml_string file c line cs) _
            (toml_string-Ends file c line cs) (λ x l. omega (arith, l)))
        (λ _.
          Ends-if _ (c == b'[') _ _
            (λ _.
              Ends-le (Less (length cs)) _ _
                (loop-Ends (items line end) (record { rest = cs; line = line }) (omega (arith, h)))
                (λ x l. omega (arith, l)))
            (λ _.
              Ends-if _ (c == b'{') _ _
                (λ _.
                  Ends-le (Less (length cs)) _ _
                    (loop-Ends (members line nothing) (record { rest = cs; line = line })
                      (omega (arith, h)))
                    (λ x l. omega (arith, l)))
                (λ _. scalar-Ends file line c cs (run_of is_scalar (take 256 (c ∷ cs))))))

  separated-Ends :
      (close : ℕ) (again : Cursor → Read (Node × Cursor)) (line n : ℕ) (s : Text)
      → length s < n
      → ((q : Cursor) → length q.rest < n → Ends (Less (length q.rest)) (again q))
      → Ends (Less n) (separated file close again line s)
  unfolding separated
  separated-Ends close again line n [] h k =
      Ends-le (Less 0) _ _ (k (record { rest = []; line = line }) h) (λ x l. omega (arith, l))
  separated-Ends close again line n (c ∷ cs) h k =
      Ends-if _ (c == b',') _ _
        (λ _.
          Ends-le (Less (length cs)) _ _ (k (record { rest = cs; line = line }) (omega (arith, h)))
            (λ x l. omega (arith, l, h)))
        (λ _.
          Ends-if _ (c == close) _ _
            (λ _.
              Ends-le (Less (length (c ∷ cs))) _ _ (k (record { rest = c ∷ cs; line = line }) h)
                (λ x l. omega (arith, l, h)))
            (λ _. refl))

  behind-Ends :
      (close : ℕ) (again : Cursor → Read (Node × Cursor)) (p : Cursor) (n : ℕ)
      → length p.rest < n
      → ((q : Cursor) → length q.rest < n → Ends (Less (length q.rest)) (again q))
      → (let q = gap_from false p.line p.rest in
          Ends (Less n) (separated file close again q.line q.rest))
  behind-Ends close again p n h k =
      let q = gap_from false p.line p.rest in
      separated-Ends close again q.line n q.rest
        (omega (arith, h, length-gap_from false p.line p.rest)) k

  items_at-Ends :
      (start : ℕ) (xs : Nodes) (line : ℕ) (s : Text)
      → 2 * length s + 2 ≤ suc f
      → Ends (Less (length s)) (items_at file loop start xs line s)
  unfolding items_at
  items_at-Ends start xs line [] h = refl
  items_at-Ends start xs line (c ∷ cs) h =
      Ends-if _ (c == b']') _ _ (λ _. omega arith)
        (λ _.
          Ends->>= (Less (length (c ∷ cs))) _ (loop value (record { rest = c ∷ cs; line = line })) _
            (loop-Ends value (record { rest = c ∷ cs; line = line }) (omega (arith, h)))
            (λ x less.
              behind-Ends b']' (loop (items start (push_node xs x.0))) x.1 (length (c ∷ cs)) less
                (λ q l. loop-Ends (items start (push_node xs x.0)) q (omega (arith, l, h)))))

  members_at-Ends :
      (start : ℕ) (ks : Keys) (line : ℕ) (s : Text)
      → 2 * length s + 2 ≤ suc f
      → Ends (Less (length s)) (members_at file loop start ks line s)
  unfolding members_at
  members_at-Ends start ks line [] h = refl
  members_at-Ends start ks line (c ∷ cs) h =
      let p : Cursor = record { rest = c ∷ cs; line = line } in
      Ends-if _ (c == b'}') _ _ (λ _. omega arith)
        (λ _.
          Ends->>= (Less (length p.rest)) _ (toml_key file p) _ (toml_key-Ends file p) (λ x less.
            Ends->>= (λ q. length q.rest ≤ length x.1.rest) _ (equals file x.1) _
              (equals-Ends file x.1)
              (λ q le.
                Ends->>= (Less (length q.rest)) _ (loop value q) _
                  (loop-Ends value q (omega (arith, h, less, le)))
                  (λ y l.
                    Ends->>= Any _ (assign file y.0 x.0 ks) _ (assign-Ends file y.0 x.0 ks)
                      (λ ks' _.
                        behind-Ends b'}' (loop (members start ks')) y.1 (length (c ∷ cs))
                          (omega (arith, l, le, less))
                          (λ r shorter.
                            loop-Ends (members start ks') r (omega (arith, shorter, h))))))))

  round-Ends :
      (task : Task) (p : Cursor)
      → need task (length p.rest) ≤ suc f
      → Ends (Less (length p.rest)) (round file loop task p)
  unfolding round
  round-Ends value p h = value_at-Ends p.line p.rest h
  round-Ends (items start xs) p h =
      let q = gap_from false p.line p.rest in
      Ends-le (Less (length q.rest)) _ _
        (items_at-Ends start xs q.line q.rest
          (omega (arith, h, length-gap_from false p.line p.rest)))
        (λ x l. omega (arith, l, length-gap_from false p.line p.rest))
  round-Ends (members start ks) p h =
      let q = gap_from false p.line p.rest in
      Ends-le (Less (length q.rest)) _ _
        (members_at-Ends start ks q.line q.rest
          (omega (arith, h, length-gap_from false p.line p.rest)))
        (λ x l. omega (arith, l, length-gap_from false p.line p.rest))

values-Ends :
    (f : ℕ) (file : Text) (task : Task) (p : Cursor)
    → need task (length p.rest) ≤ f
    → Ends (Less (length p.rest)) (values f file task p)
unfolding values
values-Ends zero file value p h = absurd (omega (arith, h))
values-Ends zero file (items start xs) p h = absurd (omega (arith, h))
values-Ends zero file (members start ks) p h = absurd (omega (arith, h))
values-Ends (suc f) file task p h = round-Ends file (values f file) f (values-Ends f file) task p h

pub toml_value-Ends : (file : Text) (p : Cursor) → Ends (Less (length p.rest)) (toml_value file p)
unfolding toml_value
toml_value-Ends file p = values-Ends (suc (2 * length p.rest)) file value p (omega arith)
