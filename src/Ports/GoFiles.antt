-- ===== src/Ports/GoFiles.antt =====
-- The Go files of a module (tools/port-deps.cjs: `goFiles`). What `readdirSync` returns, here and below,
-- is a tree; whether a file exists is a parameter.
pub mod Laws
use ebnf.Base.{
  Bool, true, false, not, ◌&&◌, ◌||◌, Option, none, some, List, [], ◌∷◌, ◌++◌, if◌then◌else◌,
  flat_map, starts_with, Text, codes, text_eq, has, length, drop, ◌-◌, leb,
}
use ebnf.Ports.Order.{text_lt}

mutual
  pub data Entry : Type 0 where
    link file other : Entry
    directory : Entries → Entry

  pub data Entries : Type 0 where
    nothing : Entries
    entry : Text → Entry → Entries → Entries

-- What the entries of a directory come to, each with its name, in the order of the names.
abbrev pub Named : Type 0
Named = List (Text × List Text)

-- `sort((a, b) => (a.name < b.name ? -1 : a.name > b.name ? 1 : 0))`, one entry at a time.
unfoldable pub insert_by_name : Text → List Text → Named → Named
unfolding text_lt
insert_by_name name files [] = (name, files) ∷ []
insert_by_name name files ((n, fs) ∷ rest) =
    if text_lt n name
    then (n, fs) ∷ insert_by_name name files rest
    else (name, files) ∷ (n, fs) ∷ rest

-- `s.endsWith(suffix)`
unfoldable pub has_suffix : Text → Text → Bool
unfolding text_eq
has_suffix suffix s =
    leb (length suffix) (length s) && text_eq (drop (length s - length suffix) s) suffix

-- `name.startsWith('.') || name.startsWith('_')`
abbrev pub is_hidden : Text → Bool
is_hidden name = starts_with b'.' name || starts_with b'_' name

-- `GO_SKIP_DIRS`
unfoldable pub is_skipped : Text → Bool
unfolding has
is_skipped name = has name (codes "vendor" ∷ codes "node_modules" ∷ codes "testdata" ∷ [])

abbrev pub child_of : Text → Text → Text
child_of rel name = rel ++ (codes "/" ++ name)

module _ (exists : Text → Bool) where
  unfoldable mutual
    unfolding is_skipped has_suffix insert_by_name

    -- The files that one entry comes to.
    pub entry_files : Text → Text → Entry → List Text
    entry_files rel name link = []
    entry_files rel name other = []
    entry_files rel name file =
        if is_hidden name
        then []
        else if has_suffix (codes ".go") name
        then child_of rel name ∷ []
        else []
    entry_files rel name (directory entries) =
        let below =
          flat_map (λ (x : Text × List Text). x.1) (named_files (child_of rel name) entries) in
        if is_hidden name
        then []
        else if is_skipped name
        then []
        else if exists (child_of (child_of rel name) (codes "go.mod"))
        then []
        else below

    pub named_files : Text → Entries → Named
    named_files rel nothing = []
    named_files rel (entry name e es) =
        insert_by_name name (entry_files rel name e) (named_files rel es)

  unfoldable pub go_files : Text → Entries → List Text
  unfolding named_files
  go_files rel entries = flat_map (λ (x : Text × List Text). x.1) (named_files rel entries)
