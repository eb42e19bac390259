-- ===== src/Ports/Toml.antt =====
-- The reader of TOML (tools/port-deps.cjs: `parseToml`): the nodes that it makes, and the places that
-- its parts share.
pub mod Strings
pub mod Paths
pub mod Tables
pub mod Values
pub mod Document
pub mod Ends
pub mod Lengths
pub mod Current
pub mod RoundTrip
use ebnf.Base.{
  ℕ, zero, suc, Bool, true, false, not, ◌&&◌, ◌||◌, Option, none, some, List, [], ◌∷◌, ◌==◌,
  if◌then◌else◌, Text, text_eq,
}
use ebnf.Ports.Fault.{Read, read, fail, after_statement}
use ebnf.Ports.Strings.{trim_start}

-- The nodes of a document, each with its line; a table with its flags `defined` and `inline`.
mutual
  pub data Node : Type 0 where
    table : ℕ → Bool → Bool → Keys → Node
    tables : ℕ → Rows → Node
    array : ℕ → Nodes → Node
    string : ℕ → Text → Node
    bool : ℕ → Bool → Node
    other : ℕ → Text → Node

  -- A `Map`, in the order of its insertions.
  pub data Keys : Type 0 where
    nothing : Keys
    key : Text → Node → Keys → Keys

  pub data Nodes : Type 0 where
    end : Nodes
    item : Node → Nodes → Nodes

  -- The items of an array of tables, of which there is always one.
  pub data Rows : Type 0 where
    last : Node → Rows
    row : Node → Rows → Rows

unfoldable pub line_of : Node → ℕ
line_of (table line _ _ _) = line
line_of (tables line _) = line
line_of (array line _) = line
line_of (string line _) = line
line_of (bool line _) = line
line_of (other line _) = line

-- `val.line = line`
unfoldable pub with_line : ℕ → Node → Node
with_line line (table _ defined inline ks) = table line defined inline ks
with_line line (tables _ items) = tables line items
with_line line (array _ items) = array line items
with_line line (string _ v) = string line v
with_line line (bool _ v) = bool line v
with_line line (other _ v) = other line v

-- `map.get(name)`
unfoldable pub node_at : Text → Keys → Option Node
unfolding text_eq
node_at name nothing = none
node_at name (key k node ks) = if text_eq name k then some node else node_at name ks

-- `map.set(name, node)`
unfoldable pub put : Text → Node → Keys → Keys
unfolding text_eq
put name node nothing = key name node nothing
put name node (key k old ks) =
    if text_eq name k then key k node ks else key k old (put name node ks)

-- `items.push(node)`
unfoldable pub push_node : Nodes → Node → Nodes
push_node end node = item node end
push_node (item x xs) node = item x (push_node xs node)

unfoldable pub push_row : Rows → Node → Rows
push_row (last x) node = row x (last node)
push_row (row x xs) node = row x (push_row xs node)

-- `i` and `line`: what is left of the text, and the number of its first line.
pub record Cursor : Type 0 where
  pub rest : Text
  pub line : ℕ

abbrev pub line_behind : ℕ → ℕ → ℕ
line_behind c line = if c == b'\n' then suc line else line

abbrev pub is_indent : ℕ → Bool
is_indent c = c == b' ' || c == b'\t'

-- `blank`
unfoldable pub blank : Cursor → Cursor
unfolding trim_start
blank p = record p { rest = trim_start is_indent p.rest }

-- `comment`
unfoldable pub to_line_end : Text → Text
to_line_end [] = []
to_line_end (c ∷ cs) = let rest = to_line_end cs in if c == b'\n' then c ∷ cs else rest

unfoldable pub comment : Text → Text
unfolding to_line_end
comment [] = []
comment (c ∷ cs) = if c == b'#' then to_line_end (c ∷ cs) else c ∷ cs

-- `gap`, in a comment or not.
unfoldable pub gap_from : Bool → ℕ → Text → Cursor
gap_from in_comment line [] = record { rest = []; line = line }
gap_from in_comment line (c ∷ cs) =
    let further =
      gap_from (not (c == b'\n') && (in_comment || c == b'#')) (line_behind c line) cs in
    if in_comment || c == b'#' || is_indent c || c == b'\n'
    then further
    else record { rest = c ∷ cs; line = line }

abbrev pub gap : Cursor → Cursor
gap p = gap_from false p.line p.rest

-- `endOfLine`, behind the blanks and the comment.
unfoldable pub line_end : Text → ℕ → Text → Read Cursor
line_end file line [] = read (record { rest = []; line = line })
line_end file line (c ∷ cs) =
    if c == b'\n'
    then read (record { rest = cs; line = suc line })
    else fail file line after_statement

unfoldable pub end_of_line : Text → Cursor → Read Cursor
unfolding line_end comment blank
end_of_line file p = line_end file p.line (comment (blank p).rest)

-- The units in front of a text that a test accepts.
unfoldable pub run_of : (ℕ → Bool) → Text → Text
run_of test [] = []
run_of test (c ∷ cs) = let more = c ∷ run_of test cs in if test c then more else []
