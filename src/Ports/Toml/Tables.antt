-- ===== src/Ports/Toml/Tables.antt =====
-- The tables of a document and the keys that are set in them (tools/port-deps.cjs: `assign`, and the
-- part of `header` behind its line, of `parseToml`). A table that the source changes in place is put
-- into the document again; one that it keeps in `current` is known by the keys that lead to it, of which
-- a key of an array of tables leads to the last of them.
use ebnf.Base.{ℕ, true, false, Option, none, some, List, [], ◌∷◌, Text}
use ebnf.Ports.Fault.{
  Read, read, ◌>>=◌, fail, cannot_hold, set_twice, already_value, array_defined, table_defined,
  lost_table,
}
use ebnf.Ports.Toml.{
  Node, table, tables, Keys, nothing, Rows, last, row, line_of, node_at, put, push_row,
}

-- A part of a key on the way to the last: a table that may still be added to, or a new one.
unfoldable pub hold : Text → ℕ → (Keys → Read Keys) → Option Node → Read Node
hold file line deeper none = do ks ← deeper nothing; read (table line true false ks)
hold file line deeper (some (table at defined false ks)) = do
  more ← deeper ks
  read (table at defined false more)
hold file line deeper (some node) = fail file line cannot_hold

unfoldable pub set_once : Text → Text → Node → Keys → Option Node → Read Keys
unfolding put
set_once file name node ks none = read (put name node ks)
set_once file name node ks (some old) = fail file (line_of node) set_twice

-- `assign`; a key has a part.
unfoldable pub assign : Text → Node → List Text → Keys → Read Keys
unfolding hold set_once node_at put line_of
assign file node [] ks = read ks
assign file node (name ∷ []) ks = set_once file name node ks (node_at name ks)
assign file node (name ∷ next ∷ names) ks = do
  held ← hold file (line_of node) (assign file node (next ∷ names)) (node_at name ks)
  read (put name held ks)

-- A change of a table, or of the last one in an array of tables.
unfoldable pub in_last : (Node → Read Node) → Rows → Read Rows
in_last into (last x) = do node ← into x; read (last node)
in_last into (row x xs) = do more ← in_last into xs; read (row x more)

unfoldable pub in_node : (Node → Read Node) → Node → Read Node
unfolding in_last
in_node into (tables at rows) = do more ← in_last into rows; read (tables at more)
in_node into node = into node

-- A part of a header on the way to the last.
unfoldable pub in_table : Text → ℕ → (Keys → Read Keys) → Node → Read Node
in_table file line deeper (table at defined false ks) = do
  more ← deeper ks
  read (table at defined false more)
in_table file line deeper node = fail file line already_value

unfoldable pub pass_table : Text → ℕ → (Keys → Read Keys) → Option Node → Read Node
unfolding in_node in_table
pass_table file line deeper none = do ks ← deeper nothing; read (table line false false ks)
pass_table file line deeper (some node) = in_node (in_table file line deeper) node

-- The table of a header, and an item of an array of tables.
unfoldable pub own_table : Text → ℕ → Option Node → Read Node
own_table file line none = read (table line true false nothing)
own_table file line (some (table at false inline ks)) = read (table at true inline ks)
own_table file line (some node) = fail file line table_defined

unfoldable pub add_item : Text → ℕ → Option Node → Read Node
unfolding push_row
add_item file line none = read (tables line (last (table line true false nothing)))
add_item file line (some (tables at rows)) =
    read (tables at (push_row rows (table line true false nothing)))
add_item file line (some node) = fail file line array_defined

-- The tables down to that of a header, whose node `make` makes of what is there.
unfoldable pub define : Text → ℕ → (Option Node → Read Node) → List Text → Keys → Read Keys
unfolding pass_table node_at put
define file line make [] ks = read ks
define file line make (name ∷ []) ks = do node ← make (node_at name ks); read (put name node ks)
define file line make (name ∷ next ∷ names) ks = do
  node ← pass_table file line (define file line make (next ∷ names)) (node_at name ks)
  read (put name node ks)

-- A change of the table that some keys lead to.
unfoldable pub current_table : Text → ℕ → (Keys → Read Keys) → Node → Read Node
current_table file line deeper (table at defined inline ks) = do
  more ← deeper ks
  read (table at defined inline more)
current_table file line deeper node = fail file line lost_table

unfoldable pub in_current : Text → ℕ → (Keys → Read Keys) → Option Node → Read Node
unfolding in_node current_table
in_current file line deeper none = fail file line lost_table
in_current file line deeper (some node) = in_node (current_table file line deeper) node

unfoldable pub within_table : Text → ℕ → (Keys → Read Keys) → List Text → Keys → Read Keys
unfolding in_current node_at put
within_table file line change [] ks = change ks
within_table file line change (name ∷ names) ks = do
  node ← in_current file line (within_table file line change names) (node_at name ks)
  read (put name node ks)
