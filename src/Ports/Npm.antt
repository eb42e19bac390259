-- ===== src/Ports/Npm.antt =====
-- The dependencies of the TypeScript port (tools/port-deps.cjs: `readTs`, `jsonLine`, `keyLine`,
-- `npmName`). What `JSON.parse` makes of a text, a value or the message of its error, is a parameter.
use ebnf.Base.{
  ℕ, suc, ◌+◌, ◌*◌, ◌-◌, Bool, false, not, ◌&&◌, ◌||◌, Option, none, some, List, [], ◌∷◌, ◌++◌,
  if◌then◌else◌, ◌==◌, take, map, starts_with, Text, codes, text_eq, has, within, strip_prefix,
  is_space,
}
use ebnf.Ports.{Port, Declared}
use ebnf.Ports.Fault.{
  Read, read, ◌>>=◌, fail, not_json, not_object, no_name, not_dependencies, not_version,
  not_peer_meta, not_optional_flag,
}
use ebnf.Ports.Fold.{fold}
use ebnf.Ports.Names.{npm_id}
use ebnf.Ports.Strings.{read_text, trim_start}
use ebnf.Ports.Json.{Json, boolean, string, object, Members, nothing, member, lookup}

-- What `JSON.parse` does: it returns a value, or throws an error with a message.
pub data JsonParse : Type 0 where
  parsed : Json → JsonParse
  broken : Text → JsonParse

-- The decimal digits in front of a text as a number, and what stands behind them; a number that is too
-- large to be exact in a double does not stand in a message.
unfoldable pub number_from : ℕ → Text → ℕ × Text
number_from n [] = (n, [])
number_from n (c ∷ cs) =
    let more = number_from (10 * n + (c - b'0')) cs in
    if within b'0' b'9' c then more else (n, c ∷ cs)

unfoldable pub number_at : Option Text → Option (ℕ × Text)
unfolding number_from
number_at none = none
number_at (some []) = none
number_at (some (c ∷ cs)) =
    let n = number_from 0 (c ∷ cs) in if within b'0' b'9' c then some n else none

-- `/\(line (\d+) column \d+\)/` at a place.
unfoldable pub is_close : Option (ℕ × Text) → Bool
is_close none = false
is_close (some (_, rest)) = starts_with b')' rest

unfoldable pub before_column : Option (ℕ × Text) → Option ℕ
unfolding is_close number_at strip_prefix
before_column none = none
before_column (some (n, rest)) =
    if is_close (number_at (strip_prefix (codes " column ") rest)) then some n else none

unfoldable pub line_at : Text → Option ℕ
unfolding before_column number_at strip_prefix
line_at s = before_column (number_at (strip_prefix (codes "(line ") s))

-- `/position (\d+)/` at a place.
unfoldable pub position_number : Option (ℕ × Text) → Option ℕ
position_number none = none
position_number (some (n, _)) = some n

unfoldable pub position_at : Text → Option ℕ
unfolding position_number number_at strip_prefix
position_at s = position_number (number_at (strip_prefix (codes "position ") s))

-- The first place where a pattern finds something.
unfoldable pub search : (Text → Option ℕ) → Text → Option ℕ
search found_at [] = found_at []
search found_at (c ∷ cs) =
    let later = search found_at cs in elim (found_at (c ∷ cs)) [ none ↦ later | some n ↦ some n ]

-- `text.split('\n').length`
unfoldable pub line_count : Text → ℕ
line_count [] = 1
line_count (c ∷ cs) = let rest = line_count cs in if c == b'\n' then suc rest else rest

unfoldable pub line_of_position : Text → Option ℕ → ℕ
unfolding line_count
line_of_position text none = 1
line_of_position text (some n) = line_count (take n text)

unfoldable pub json_line : Text → Text → ℕ
unfolding search line_at position_at line_of_position
json_line text message = elim (search line_at message) [
  | some n ↦ n
  | none ↦ line_of_position text (search position_at message)
]

-- Whether `"key"\s*:` stands at a place, for a key that is a word.
unfoldable pub is_colon : Option Text → Bool
unfolding trim_start
is_colon none = false
is_colon (some rest) = starts_with b':' (trim_start is_space rest)

unfoldable pub is_key_at : Text → Text → Bool
unfolding is_colon strip_prefix
is_key_at key s = is_colon (strip_prefix (codes "\"" ++ (key ++ codes "\"")) s)

-- How many lines end before the first place where a test holds.
unfoldable pub next_line : ℕ → Option ℕ → Option ℕ
next_line c none = none
next_line c (some n) = some (if c == b'\n' then suc n else n)

unfoldable pub line_before : (Text → Bool) → Text → Option ℕ
unfolding next_line
line_before test [] = if test [] then some 1 else none
line_before test (c ∷ cs) =
    let later = next_line c (line_before test cs) in if test (c ∷ cs) then some 1 else later

unfoldable pub key_line : Text → Text → ℕ
unfolding line_before is_key_at
key_line text key = elim (line_before (is_key_at key) text) [ none ↦ 1 | some n ↦ n ]

-- The text before the last place of a unit: `rest.slice(0, rest.lastIndexOf('@'))`.
unfoldable pub before_last : ℕ → Text → Option Text
before_last q [] = none
before_last q (c ∷ cs) = elim (before_last q cs) [
  | some v ↦ some (c ∷ v)
  | none ↦ if c == q then some [] else none
]

unfoldable pub real_name : Text → Option Text → Text
real_name rest (some (c ∷ v)) = c ∷ v
real_name rest _ = rest

unfoldable pub npm_name : Text → Text → Text
unfolding strip_prefix real_name before_last
npm_name key spec = elim (strip_prefix (codes "npm:") spec) [
  | none ↦ key
  | some rest ↦ real_name rest (before_last b'@' rest)
]

-- A section's names with their versions.
abbrev pub Section : Type 0
Section = List (Text × Text)

abbrev pub npm_manifest : Text
npm_manifest = codes "ts/package.json"

module _ (text : Text) where
  unfoldable pub versions : Text → Members → Read Section
  unfolding key_line
  versions key nothing = read []
  versions key (member name (string v) ms) = do rest ← versions key ms; read ((name, v) ∷ rest)
  versions key (member name value ms) = fail npm_manifest (key_line text key) (not_version key name)

  -- `section`
  unfoldable pub section_of : Text → Option Json → Read Section
  unfolding key_line versions
  section_of key none = read []
  section_of key (some (object ms)) = versions key ms
  section_of key (some value) = fail npm_manifest (key_line text key) (not_dependencies key)

  abbrev peer_meta : Text
  peer_meta = codes "peerDependenciesMeta"

  -- `peerDependenciesMeta`, by name; `optional` is kept where it is there.
  unfoldable pub metas : Members → Read (List (Text × Option Json))
  unfolding key_line lookup
  metas nothing = read []
  metas (member name (object ms) rest) = do
    more ← metas rest
    read ((name, lookup (codes "optional") ms) ∷ more)
  metas (member name value rest) = fail npm_manifest (key_line text peer_meta) not_peer_meta

  unfoldable pub meta_of : Option Json → Read (List (Text × Option Json))
  unfolding key_line metas
  meta_of none = read []
  meta_of (some (object ms)) = metas ms
  meta_of (some value) = fail npm_manifest (key_line text peer_meta) not_peer_meta

  -- Each `optional` is true or false.
  unfoldable pub peer_flags : List (Text × Option Json) → Read (List (Text × Bool))
  unfolding key_line
  peer_flags [] = read []
  peer_flags ((name, none) ∷ ms) = do rest ← peer_flags ms; read ((name, false) ∷ rest)
  peer_flags ((name, some (boolean b)) ∷ ms) = do rest ← peer_flags ms; read ((name, b) ∷ rest)
  peer_flags ((name, some value) ∷ ms) =
      fail npm_manifest (key_line text peer_meta) (not_optional_flag name)

-- `own(section, name)`
unfoldable pub declares_name : Section → Text → Bool
unfolding has
declares_name section name = has name (map (λ (p : Text × Text). p.0) section)

-- `true === meta[name]?.optional`
unfoldable pub is_flagged : Text → List (Text × Bool) → Bool
unfolding text_eq
is_flagged name [] = false
is_flagged name ((n, b) ∷ ms) = if text_eq name n then b else is_flagged name ms

-- The sections of a manifest, with the flags of the peers.
pub record Sections : Type 0 where
  pub deps : Section
  pub peer : Section
  pub opt : Section
  pub dev : Section
  pub meta : List (Text × Bool)

unfoldable pub is_optional : Sections → Text → Bool
unfolding declares_name is_flagged
is_optional s name =
    declares_name s.opt name
    || (declares_name s.peer name && (is_flagged name s.meta && not (declares_name s.deps name)))

unfoldable pub declared : Sections → Section → List Declared
unfolding npm_name is_optional
declared s [] = []
declared s ((name, spec) ∷ rest) =
    record { name = npm_name name spec; optional = is_optional s name } ∷ declared s rest

unfoldable pub real_names : Section → List Text
unfolding npm_name
real_names [] = []
real_names ((name, spec) ∷ rest) = npm_name name spec ∷ real_names rest

unfoldable pub sections_of : Text → Members → Read Sections
unfolding section_of meta_of peer_flags lookup
sections_of text pkg = do
  deps ← section_of text (codes "dependencies") (lookup (codes "dependencies") pkg)
  peer ← section_of text (codes "peerDependencies") (lookup (codes "peerDependencies") pkg)
  opt ← section_of text (codes "optionalDependencies") (lookup (codes "optionalDependencies") pkg)
  dev ← section_of text (codes "devDependencies") (lookup (codes "devDependencies") pkg)
  metas ← meta_of text (lookup (codes "peerDependenciesMeta") pkg)
  meta ← peer_flags text metas
  read (record { deps = deps; peer = peer; opt = opt; dev = dev; meta = meta })

unfoldable pub npm_port : Text → Sections → Port
unfolding fold npm_id declared real_names
npm_port name s =
    fold npm_id npm_manifest name (npm_id name)
      (declared s s.deps ++ (declared s s.peer ++ declared s s.opt)) (real_names s.dev)

-- The name of the package, and its sections.
unfoldable pub named_package : Text → Members → Option Json → Read Port
unfolding key_line sections_of npm_port
named_package text pkg (some (string (c ∷ cs))) = do
  s ← sections_of text pkg
  read (npm_port (c ∷ cs) s)
named_package text pkg _ = fail npm_manifest (key_line text (codes "name")) no_name

unfoldable pub package_port : Text → JsonParse → Read Port
unfolding json_line named_package lookup
package_port text (broken message) = fail npm_manifest (json_line text message) (not_json message)
package_port text (parsed (object pkg)) = named_package text pkg (lookup (codes "name") pkg)
package_port text (parsed _) = fail npm_manifest 1 not_object

unfoldable pub read_ts : (Text → JsonParse) → (Text → Read Text) → Read Port
unfolding read_text package_port
read_ts parse contents = do
  text ← contents npm_manifest
  package_port (read_text text) (parse (read_text text))
