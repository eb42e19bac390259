-- ===== src/Ports/Toml/Document/Total.antt =====
-- The loop over the statements of a document (tools/port-deps.cjs: `parseToml`).
use ebnf.Base.{
  ℕ, zero, suc, ◌<◌, ◌≤◌, ◌≡◌, ◌≢◌, refl, ap, subst, Bool, true, false, Option, [], ◌∷◌, ◌==◌,
  if◌then◌else◌, length, drop, starts_with, Text, arith,
}
use ebnf.Ports.Fault.{Fault, Unreadable, Read, unreadable, lost_table, out_of_fuel}
use ebnf.Ports.Strings.{has_prefix}
use ebnf.Ports.Strings.Lengths.{length-drop-le}
use ebnf.Ports.Toml.{Node, Keys, nothing, with_line, Cursor, gap_from, end_of_line}
use ebnf.Ports.Toml.Paths.{toml_key}
use ebnf.Ports.Toml.Tables.{assign, define, within_table}
use ebnf.Ports.Toml.Values.{equals, toml_value}
use ebnf.Ports.Toml.Ends.{is_ours, IsTheirs, Ends, Ends->>=, Ends-if, Ends-le, Less, Any}
use ebnf.Ports.Toml.Lengths.{length-gap_from, end_of_line-Ends, toml_key-Ends}
use ebnf.Ports.Toml.Values.Lengths.{assign-Ends, equals-Ends, toml_value-Ends}
use ebnf.Ports.Toml.Current.{
  Holds, AtNode, IsTable, within_table-IsTable, define-IsTable, own_table-Ends, add_item-Ends,
}
use ebnf.Ports.Toml.Document.{
  Document, header_end, header_node, table_header, key_value, statement, statement_at, statements,
  parse_toml,
}

-- The current table is in the document, and less than `n` units are left.
abbrev GoesOn : ℕ → Document × Cursor → Type 0
GoesOn n x = IsTable x.0.current x.0.root × (length x.1.rest < n)

header_end-Ends :
    (file : Text) (double : Bool) (p : Cursor)
    → Ends (λ q. length q.rest ≤ length p.rest) (header_end file double p)
unfolding header_end
header_end-Ends file double p =
    let n : ℕ = if double then 2 else 1 in
    let behind : Cursor = record p { rest = drop n p.rest } in
    Ends-if _ (has_prefix (if double then b']' ∷ b']' ∷ [] else b']' ∷ []) p.rest) _ _
      (λ _.
        Ends-le (λ q. length q.rest ≤ length behind.rest) _ _ (end_of_line-Ends file behind)
          (λ q l. omega (arith, l, length-drop-le n p.rest)))
      (λ _. refl)

header_node-Ends :
    (file : Text) (start : ℕ) (double : Bool) (o : Option Node)
    → Ends (AtNode (Holds (λ _. Unit {0}))) (header_node file start double o)
unfolding header_node
header_node-Ends file start true o = add_item-Ends file start o
header_node-Ends file start false o = own_table-Ends file start o

behind_bracket : (double : Bool) (cs : Text) → length (if double then drop 1 cs else cs) ≤ length cs
behind_bracket true cs = length-drop-le 1 cs
behind_bracket false cs = omega arith

table_header-GoesOn :
    (file : Text) (start : ℕ) (cs : Text) (root : Keys)
    → Ends (GoesOn (suc (length cs))) (table_header file start cs root)
unfolding table_header
table_header-GoesOn file start cs root =
    let double = starts_with b'[' cs in
    let p : Cursor = record { rest = if double then drop 1 cs else cs; line = start } in
    Ends->>= (Less (length p.rest)) _ (toml_key file p) _ (toml_key-Ends file p) (λ x less.
      Ends->>= (λ q. length q.rest ≤ length x.1.rest) _ (header_end file double x.1) _
        (header_end-Ends file double x.1)
        (λ q le.
          Ends->>= (IsTable x.0) _ (define file start (header_node file start double) x.0 root) _
            (define-IsTable file start (header_node file start double)
              (header_node-Ends file start double) x.0 root)
            (λ root' t. (t, omega (arith, less, le, behind_bracket double cs)))))

key_value-GoesOn :
    (file : Text) (start : ℕ) (text : Text) (doc : Document)
    → IsTable doc.current doc.root
    → Ends (GoesOn (length text)) (key_value file start text doc)
unfolding key_value
key_value-GoesOn file start text doc t =
    let p : Cursor = record { rest = text; line = start } in
    Ends->>= (Less (length text)) _ (toml_key file p) _ (toml_key-Ends file p) (λ x less.
      Ends->>= (λ q. length q.rest ≤ length x.1.rest) _ (equals file x.1) _ (equals-Ends file x.1)
        (λ q le.
          Ends->>= (Less (length q.rest)) _ (toml_value file q) _ (toml_value-Ends file q)
            (λ y less'.
              let change = assign file (with_line start y.0) x.0 in
              Ends->>= (IsTable doc.current) _ (within_table file start change doc.current doc.root)
                _
                (within_table-IsTable file start change (assign-Ends file (with_line start y.0) x.0)
                  doc.current doc.root t)
                (λ root t'.
                  Ends->>= (λ r. length r.rest ≤ length y.1.rest) _ (end_of_line file y.1) _
                    (end_of_line-Ends file y.1)
                    (λ r le'. (t', omega (arith, less, le, less', le')))))))

statement-GoesOn :
    (file : Text) (start c : ℕ) (cs : Text) (doc : Document)
    → IsTable doc.current doc.root
    → Ends (GoesOn (suc (length cs))) (statement file start c cs doc)
unfolding statement
statement-GoesOn file start c cs doc t =
    Ends-if _ (c == b'[') _ _ (λ _. table_header-GoesOn file start cs doc.root)
      (λ _. key_value-GoesOn file start (c ∷ cs) doc t)

statement_at-Ends :
    (file : Text) (loop : Document → Cursor → Read Keys) (line : ℕ) (s : Text) (doc : Document)
    → IsTable doc.current doc.root
    → ((doc' : Document) (p : Cursor)
        → IsTable doc'.current doc'.root
        → length p.rest < length s
        → Ends Any (loop doc' p))
    → Ends Any (statement_at file loop line s doc)
unfolding statement_at
statement_at-Ends file loop line [] doc t h = tt
statement_at-Ends file loop line (c ∷ cs) doc t h =
    Ends->>= (GoesOn (suc (length cs))) Any (statement file line c cs doc) _
      (statement-GoesOn file line c cs doc t) (λ x g. h x.0 x.1 g.0 g.1)

statements-Ends :
    (f : ℕ) (file : Text) (doc : Document) (p : Cursor)
    → IsTable doc.current doc.root
    → length p.rest < f
    → Ends Any (statements f file doc p)
unfolding statements
statements-Ends zero file doc p t h = absurd (omega (arith, h))
statements-Ends (suc f) file doc p t h =
    let q = gap_from false p.line p.rest in
    statement_at-Ends file (statements f file) q.line q.rest doc t (λ doc' r t' less.
      statements-Ends f file doc' r t'
        (omega (arith, less, h, length-gap_from false p.line p.rest)))

theirs-apart : (why ours : Fault) → IsTheirs why → is_ours ours ≡ true → why ≢ ours
theirs-apart why ours t o e = cc (ap is_ours e)

-- Reading a document ends, whatever the text is, and the current table is in the document whenever a
-- key is set in it: no fuel runs out, and no table is lost.
pub parse_toml-total :
    (text file : Text) (u : Unreadable)
    → parse_toml text file ≡ unreadable u
    → (u.why ≢ out_of_fuel) × (u.why ≢ lost_table)
unfolding parse_toml
parse_toml-total text file u e =
    let theirs : IsTheirs u.why = subst (Ends Any) e (
      statements-Ends (suc (length text)) file (record { root = nothing; current = [] })
        (record { rest = text; line = 1 }) tt (omega arith)) in
    (
      λ f. theirs-apart u.why out_of_fuel theirs refl f,
      λ f. theirs-apart u.why lost_table theirs refl f,
    )
