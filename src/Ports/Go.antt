-- ===== src/Ports/Go.antt =====
-- The dependencies of the Go port (tools/port-deps.cjs: `readGo`). The file system, and which code
-- points are letters and digits, are parameters.
pub mod Best
use ebnf.Base.{
  ℕ, Bool, true, false, not, ◌&&◌, ◌||◌, Option, none, some, List, [], ◌∷◌, ◌++◌, if◌then◌else◌,
  ltb, ◌==◌, length, filter, any, Text, codes, text_eq, has,
}
use ebnf.Ports.{Port}
use ebnf.Ports.Fault.{Read, read, ◌>>=◌, fail, foreign_org_import}
use ebnf.Ports.Order.{add, uniq}
use ebnf.Ports.Names.{go_module_id, go_import_id}
use ebnf.Ports.Strings.{read_text, has_prefix}
use ebnf.Ports.GoImports.{Import, go_imports}
use ebnf.Ports.GoIgnored.{go_ignored}
use ebnf.Ports.GoMod.{Require, GoModule, parse_go_mod}
use ebnf.Ports.GoFiles.{Entries, go_files, has_suffix}

-- The lists that the loops over the files and their imports fill.
pub record Found : Type 0 where
  pub runtime : List Text
  pub tests : List Text
  pub external : List Text

-- `path === top || path.startsWith(top + '/')`
unfoldable pub is_under : Text → Text → Bool
unfolding text_eq has_prefix
is_under top path = text_eq path top || has_prefix (top ++ codes "/") path

-- The requirement with the longest path that an import is under, the first of such.
unfoldable pub longer : Require → Option Require → Bool
longer req none = true
longer req (some best) = ltb (length best.path) (length req.path)

unfoldable pub best_from : Text → Option Require → List Require → Option Require
unfolding is_under longer
best_from path best [] = best
best_from path best (req ∷ reqs) =
    best_from path (if is_under req.path path && longer req best then some req else best) reqs

unfoldable pub direct : Option Require → List Text
direct none = []
direct (some req) = if req.indirect then [] else req.path ∷ []

-- `path.split('/')[0].includes('.')`
unfoldable pub has_dot : Text → Bool
has_dot [] = false
has_dot (c ∷ cs) = let rest = has_dot cs in if c == b'/' then false else c == b'.' || rest

unfoldable pub add_id : Bool → Text → Found → Found
unfolding add
add_id is_test id found =
    if is_test
    then record found { tests = add found.tests id }
    else record found { runtime = add found.runtime id }

-- An import that is not the module's own, where its path names a repository of the organization.
unfoldable pub org_import : Text → Bool → Import → Found → Option Text → Read Found
unfolding add_id
org_import rel is_test imp found none = fail rel imp.line (foreign_org_import imp.path)
org_import rel is_test imp found (some id) = read (add_id is_test id found)

-- One import of a file.
unfoldable pub one_import : GoModule → Text → Bool → Import → Found → Read Found
unfolding is_under has_prefix org_import go_import_id has_dot best_from direct
one_import m rel is_test imp found =
    if is_under m.path imp.path
    then read found
    else if has_prefix (codes "github.com/tabnas/") imp.path
    then org_import rel is_test imp found (go_import_id imp.path)
    else if is_test || not (has_dot imp.path)
    then read found
    else read
        (record found { external = found.external ++ direct (best_from imp.path none m.requires) })

unfoldable pub all_imports : GoModule → Text → Bool → List Import → Found → Read Found
unfolding one_import
all_imports m rel is_test [] found = read found
all_imports m rel is_test (imp ∷ imps) found =
    one_import m rel is_test imp found >>= all_imports m rel is_test imps

module _ (letter decimal : ℕ → Bool) where
  -- One file, of which `goIgnored` has been asked.
  unfoldable pub file_imports : GoModule → Text → Text → Found → Bool → Read Found
  unfolding has_suffix go_imports all_imports
  file_imports m rel text found ignored = if ignored then read found else (do
    imps ← go_imports letter decimal rel text
    all_imports m rel (has_suffix (codes "_test.go") rel) imps found)

  module _ (contents : Text → Read Text) where
    unfoldable pub one_file : GoModule → Text → Found → Read Found
    unfolding read_text go_ignored file_imports
    one_file m rel found = do
      text ← contents rel
      ignored ← go_ignored rel (read_text text)
      file_imports m rel (read_text text) found ignored

    unfoldable pub all_files : GoModule → List Text → Found → Read Found
    unfolding one_file
    all_files m [] found = read found
    all_files m (rel ∷ rels) found = one_file m rel found >>= all_files m rels

    unfoldable pub module_port : GoModule → Found → Port
    unfolding go_module_id uniq has
    module_port m found = record {
      manifest = codes "go/go.mod";
      name = m.path;
      id = go_module_id m.path;
      runtime = uniq found.runtime;
      optional = [];
      dev = filter (λ id. not (has id found.runtime)) (uniq found.tests);
      external = uniq found.external;
    }

    unfoldable pub read_go : (Text → Bool) → Entries → Read Port
    unfolding read_text parse_go_mod go_files all_files module_port
    read_go exists entries = do
      text ← contents (codes "go/go.mod")
      m ← parse_go_mod (codes "go/go.mod") (read_text text)
      found ←
          all_files m (go_files exists (codes "go") entries)
            (record { runtime = []; tests = []; external = [] })
      read (module_port m found)
