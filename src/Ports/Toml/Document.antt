-- ===== src/Ports/Toml/Document.antt =====
-- The statements of a document (tools/port-deps.cjs: `header` and the last loop of `parseToml`).
pub mod Total
use ebnf.Base.{
  ℕ, zero, suc, Bool, true, false, Option, List, [], ◌∷◌, ◌==◌, if◌then◌else◌, length, drop,
  starts_with, Text,
}
use ebnf.Ports.Fault.{Read, read, ◌>>=◌, fail, open_header, out_of_fuel}
use ebnf.Ports.Strings.{has_prefix}
use ebnf.Ports.Toml.{Node, Keys, nothing, with_line, Cursor, blank, gap_from, end_of_line}
use ebnf.Ports.Toml.Paths.{toml_key}
use ebnf.Ports.Toml.Tables.{assign, own_table, add_item, define, within_table}
use ebnf.Ports.Toml.Values.{equals, toml_value}

-- The document so far, and the keys that lead to the current table.
pub record Document : Type 0 where
  pub root : Keys
  pub current : List Text

-- The end of a header's line, behind its brackets.
unfoldable pub header_end : Text → Bool → Cursor → Read Cursor
unfolding end_of_line has_prefix
header_end file double p =
    let last = record p { rest = drop (if double then 2 else 1) p.rest } in
    if has_prefix (if double then b']' ∷ b']' ∷ [] else b']' ∷ []) p.rest
    then end_of_line file last
    else fail file p.line open_header

unfoldable pub header_node : Text → ℕ → Bool → Option Node → Read Node
unfolding own_table add_item
header_node file start true = add_item file start
header_node file start false = own_table file start

-- A header, at the text behind its first bracket.
unfoldable pub table_header : Text → ℕ → Text → Keys → Read (Document × Cursor)
unfolding toml_key header_end header_node define
table_header file start cs root = do
  let double = starts_with b'[' cs
  (names, p) ← toml_key file (record { rest = if double then drop 1 cs else cs; line = start })
  q ← header_end file double p
  root' ← define file start (header_node file start double) names root
  read (record { root = root'; current = names }, q)

-- A key with its value, set in the current table.
unfoldable pub key_value : Text → ℕ → Text → Document → Read (Document × Cursor)
unfolding toml_key equals toml_value within_table assign with_line end_of_line
key_value file start text doc = do
  (names, p) ← toml_key file (record { rest = text; line = start })
  q ← equals file p
  (x, r) ← toml_value file q
  root ← within_table file start (assign file (with_line start x) names) doc.current doc.root
  s ← end_of_line file r
  read (record doc { root = root }, s)

unfoldable pub statement : Text → ℕ → ℕ → Text → Document → Read (Document × Cursor)
unfolding table_header key_value
statement file start c cs doc =
    if c == b'[' then table_header file start cs doc.root else key_value file start (c ∷ cs) doc

-- A round of the loop, behind the gap.
unfoldable pub statement_at :
    Text → (Document → Cursor → Read Keys) → ℕ → Text → Document → Read Keys
unfolding statement
statement_at file loop line [] doc = read doc.root
statement_at file loop line (c ∷ cs) doc = do (doc', p) ← statement file line c cs doc; loop doc' p

unfoldable pub statements : ℕ → Text → Document → Cursor → Read Keys
unfolding statement_at gap_from
statements zero file doc p = fail file p.line out_of_fuel
statements (suc f) file doc p =
    let q = gap_from false p.line p.rest in statement_at file (statements f file) q.line q.rest doc

-- `parseToml`, for a fuel above the number of units.
unfoldable pub parse_toml : Text → Text → Read Keys
unfolding statements
parse_toml text file =
    statements (suc (length text)) file (record { root = nothing; current = [] })
      (record { rest = text; line = 1 })
