-- ===== src/Ports/Cargo.antt =====
-- The dependencies of the Rust port (tools/port-deps.cjs: `readRs`).
pub mod Spellings
use ebnf.Base.{
  ℕ, Bool, true, false, not, Option, none, some, List, [], ◌∷◌, ◌++◌, if◌then◌else◌, Text, codes,
  text_eq,
}
use ebnf.Ports.{Port, Declared}
use ebnf.Ports.Fault.{
  Read, read, ◌>>=◌, fail, no_name, no_package_table, not_table, inherited, package_not_string,
  optional_not_boolean, not_version_nor_table, old_spelling,
}
use ebnf.Ports.Order.{text_lt}
use ebnf.Ports.Fold.{fold}
use ebnf.Ports.Names.{crate_id}
use ebnf.Ports.Strings.{read_text}
use ebnf.Ports.Toml.{
  Node, table, tables, array, string, bool, other, Keys, nothing, key, line_of, node_at,
}
use ebnf.Ports.Toml.Document.{parse_toml}

abbrev pub cargo : Text
cargo = codes "rs/Cargo.toml"

-- `runtime` and `dev`
pub record Crates : Type 0 where
  pub runtime : List Declared
  pub dev : List Text

-- What a table says of one dependency.
unfoldable pub no_inheritance : Option Node → Read (Unit {0})
unfolding line_of
no_inheritance none = read tt
no_inheritance (some node) = fail cargo (line_of node) inherited

unfoldable pub crate_name : Text → Option Node → Read Text
unfolding line_of
crate_name name none = read name
crate_name name (some (string line v)) = read v
crate_name name (some node) = fail cargo (line_of node) package_not_string

unfoldable pub optional_flag : Option Node → Read Bool
unfolding line_of
optional_flag none = read false
optional_flag (some (bool line v)) = read v
optional_flag (some node) = fail cargo (line_of node) optional_not_boolean

unfoldable pub dependency : Text → Node → Read Declared
unfolding line_of node_at no_inheritance crate_name optional_flag
dependency name (table line _ _ ks) = do
  _ ← no_inheritance (node_at (codes "workspace") ks)
  crate ← crate_name name (node_at (codes "package") ks)
  optional ← optional_flag (node_at (codes "optional") ks)
  read (record { name = crate; optional = optional })
dependency name (string line v) = read (record { name = name; optional = false })
dependency name node = fail cargo (line_of node) not_version_nor_table

unfoldable pub push : Bool → Declared → Crates → Crates
push true d crates = record crates { dev = crates.dev ++ d.name ∷ [] }
push false d crates = record crates { runtime = crates.runtime ++ d ∷ [] }

-- `entries`
unfoldable pub entries : Bool → Keys → Crates → Read Crates
unfolding dependency push
entries is_dev nothing crates = read crates
entries is_dev (key name node ks) crates = do
  d ← dependency name node
  entries is_dev ks (push is_dev d crates)

unfoldable pub table_entries : Bool → Option Node → Crates → Read Crates
unfolding line_of entries
table_entries is_dev none crates = read crates
table_entries is_dev (some (table line _ _ ks)) crates = entries is_dev ks crates
table_entries is_dev (some node) crates = fail cargo (line_of node) not_table

-- A row of `CARGO_TABLES`.
pub record CargoTable : Type 0 where
  pub key : Text
  pub old : Option Text
  pub dev : Bool

abbrev pub cargo_tables : List CargoTable
cargo_tables =
    record { key = codes "dependencies"; old = none; dev = false }
    ∷ record {
      key = codes "build-dependencies";
      old = some (codes "build_dependencies");
      dev = false;
    }
    ∷ record { key = codes "dev-dependencies"; old = some (codes "dev_dependencies"); dev = true }
    ∷ []

unfoldable pub old_node : Option Text → Keys → Option Node
unfolding node_at
old_node none ks = none
old_node (some old) ks = node_at old ks

-- The old spelling of a table is refused from the 2024 edition on.
unfoldable pub refuse_old : Bool → Option Node → Read (Unit {0})
unfolding line_of
refuse_old modern none = read tt
refuse_old modern (some node) = if modern then fail cargo (line_of node) old_spelling else read tt

-- `node.map.has(key) ? key : old && node.map.has(old) ? old : null`
unfoldable pub in_use : Option Node → Option Node → Option Node
in_use none old = old
in_use (some node) old = some node

unfoldable pub sections : Bool → List CargoTable → Keys → Crates → Read Crates
unfolding node_at old_node refuse_old in_use table_entries
sections modern [] ks crates = read crates
sections modern (t ∷ ts) ks crates = do
  _ ← refuse_old modern (old_node t.old ks)
  more ← table_entries t.dev (in_use (node_at t.key ks) (old_node t.old ks)) crates
  sections modern ts ks more

unfoldable pub targets : Bool → Keys → Crates → Read Crates
unfolding line_of sections
targets modern nothing crates = read crates
targets modern (key cfg (table line _ _ ks) rest) crates = do
  more ← sections modern cargo_tables ks crates
  targets modern rest more
targets modern (key cfg node rest) crates = fail cargo (line_of node) not_table

unfoldable pub target_table : Bool → Option Node → Crates → Read Crates
unfolding line_of targets
target_table modern none crates = read crates
target_table modern (some (table line _ _ ks)) crates = targets modern ks crates
target_table modern (some node) crates = fail cargo (line_of node) not_table

-- `edition && 'string' === edition.t && edition.v >= '2024'`
unfoldable pub is_modern : Option Node → Bool
unfolding text_lt
is_modern (some (string line v)) = not (text_lt v (codes "2024"))
is_modern _ = false

-- The `[package]` table, and its name.
unfoldable pub package_table : Option Node → Read (ℕ × Keys)
package_table (some (table line _ _ ks)) = read (line, ks)
package_table _ = fail cargo 1 no_package_table

unfoldable pub package_name : ℕ → Option Node → Read Text
unfolding line_of
package_name line none = fail cargo line no_name
package_name line (some (string at (c ∷ cs))) = read (c ∷ cs)
package_name line (some node) = fail cargo (line_of node) no_name

unfoldable pub crate_port : Text → Crates → Port
unfolding fold crate_id
crate_port name crates = fold crate_id cargo name (crate_id name) crates.runtime crates.dev

unfoldable pub cargo_port : Keys → Read Port
unfolding node_at package_table package_name is_modern sections target_table crate_port
cargo_port doc = do
  (line, pkg) ← package_table (node_at (codes "package") doc)
  name ← package_name line (node_at (codes "name") pkg)
  let modern = is_modern (node_at (codes "edition") pkg)
  crates ← sections modern cargo_tables doc (record { runtime = []; dev = [] })
  all ← target_table modern (node_at (codes "target") doc) crates
  read (crate_port name all)

unfoldable pub read_rs : (Text → Read Text) → Read Port
unfolding read_text parse_toml cargo_port
read_rs contents = do text ← contents cargo; doc ← parse_toml (read_text text) cargo; cargo_port doc
