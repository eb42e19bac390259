-- ===== src/Tests/Checker.antt =====
-- The port checker on a small repository.
use ebnf.Base.{
  ◌⊎◌, Option, Text, List, ◌≡◌, ◌≢◌, ◌↔◌, refl, true, false, not, ◌&&◌, if◌then◌else◌, [], ◌∷◌,
  codes, List, any, all, has, none, some, text_eq,
}
use ebnf.Ports.{go, Port, Declared}
use ebnf.Ports.Fault.{
  Unreadable, read, unreadable, fail, no_such_file, out_of_fuel, no_module, no_package_clause,
}
use ebnf.Ports.Order.{IsAscending}
use ebnf.Ports.Names.{id_of, naming, npm_id}
use ebnf.Ports.Names.Laws.{IsId, id_of_iff}
use ebnf.Ports.Fold.{is_own, fold}
use ebnf.Ports.Fold.Laws.{is_id, is_none, declares, optional_if_declares, fold_lem}
use ebnf.Ports.Json.{Json, object, string, array, item, member, end, nothing}
use ebnf.Ports.Compare.{Repo, compare, differ_of}
use ebnf.Ports.Compare.Spec.{Passes}
use ebnf.Ports.Compare.Laws.{compare_iff}
use ebnf.Ports.GoImports.{go_imports}
use ebnf.Ports.GoImports.Total.{go_imports-total}
use ebnf.Ports.Strings.{split_lines}
use ebnf.Ports.Go.{best_from}
use ebnf.Ports.Go.Best.{Best, best_from_lem}
use ebnf.Ports.GoMod.{Require, stuck, scan_tokens, parse_go_mod}
use ebnf.Ports.GoMod.Scan.{scan_tokens-stuck}
use ebnf.Ports.GoMod.Total.{PlainLines, parse_go_mod-total}
use ebnf.Ports.GoFiles.{go_files}
use ebnf.Ports.GoFiles.Laws.{KeptIn, go_files_iff}
use ebnf.Ports.Npm.{parsed}
use ebnf.Ports.Run.Arguments.{Names, AsksHelp}
use ebnf.Ports.Run.Laws.{IsFine, main-0_iff}
use ebnf.Ports.Run.{Outside, main}
use ebnf.Tests.Ports.{ascii_letter, ascii_digit, module_entries, nowhere}

id_of_iff_example :
    (id_of go (codes "github.com/tabnas/bnf/go") ≡ some (codes "bnf"))
    ↔ ((codes "github.com/tabnas/bnf/go" ≡ naming go (codes "bnf")) × IsId (codes "bnf"))
id_of_iff_example = id_of_iff go (codes "github.com/tabnas/bnf/go") (codes "bnf")

abbrev no_clause_at : Unreadable
no_clause_at = record { file = codes "go/f.go"; line = 1; why = no_package_clause }

no_clause :
    go_imports ascii_letter ascii_digit (codes "go/f.go") (codes "func f() {}")
    ≡ unreadable no_clause_at
unfolding go_imports
no_clause = refl

go_imports-total_example : no_package_clause ≢ out_of_fuel
go_imports-total_example =
    go_imports-total ascii_letter ascii_digit (codes "go/f.go") (codes "func f() {}") no_clause_at
      no_clause

scan_tokens-stuck_example : scan_tokens 9 (12 ∷ codes "go 1.24") ≡ stuck out_of_fuel
scan_tokens-stuck_example = scan_tokens-stuck 9 12 (codes "go 1.24") refl

abbrev no_module_at : Unreadable
no_module_at = record { file = codes "go/go.mod"; line = 1; why = no_module }

no_directive : parse_go_mod (codes "go/go.mod") (codes "go 1.24\n") ≡ unreadable no_module_at
unfolding parse_go_mod
no_directive = refl

plain_lines : PlainLines (split_lines (codes "go 1.24\n"))
unfolding split_lines
plain_lines = (refl, (refl, tt))

parse_go_mod-total_example : no_module ≢ out_of_fuel
parse_go_mod-total_example =
    parse_go_mod-total (codes "go/go.mod") (codes "go 1.24\n") no_module_at plain_lines no_directive

go_files_iff_example :
    (has (codes "go/b.go") (go_files (λ _. false) (codes "go") module_entries) ≡ true)
    ↔ KeptIn (λ _. false) (codes "go") module_entries (codes "go/b.go")
go_files_iff_example = go_files_iff (λ _. false) (codes "go") module_entries (codes "go/b.go")

-- A package that needs `parser` and, optionally, `bnf`.
abbrev ts_declared : List Declared
ts_declared =
    record { name = codes "@tabnas/parser"; optional = false }
    ∷ record { name = codes "@tabnas/bnf"; optional = true }
    ∷ record { name = codes "left-pad"; optional = false }
    ∷ []

abbrev ts_port : Port
ts_port =
    fold npm_id (codes "ts/package.json") (codes "@tabnas/ebnf") (some (codes "ebnf")) ts_declared
      (codes "@tabnas/debug" ∷ [])

ts_run : ts_port ≡ record {
  manifest = codes "ts/package.json";
  name = codes "@tabnas/ebnf";
  id = some (codes "ebnf");
  runtime = codes "bnf" ∷ codes "parser" ∷ [];
  optional = codes "bnf" ∷ [];
  dev = codes "debug" ∷ [];
  external = codes "left-pad" ∷ [];
}
unfolding fold npm_id
ts_run = refl

fold_lem_example :
    let id = codes "bnf" in
    let own = some (codes "ebnf") in
    (has id ts_port.runtime ≡ (not (is_own own id) && any (declares own id npm_id) ts_declared))
    × (has id ts_port.optional
        ≡ (has id ts_port.runtime && all (optional_if_declares own id npm_id) ts_declared))
    × (has id ts_port.dev ≡ (
        any (λ n. is_id id (npm_id n)) (codes "@tabnas/debug" ∷ [])
        && (not (is_own own id) && not (has id ts_port.runtime))))
    × (has id ts_port.external
        ≡ any (λ (d : Declared). text_eq id d.name && is_none (npm_id d.name)) ts_declared)
    × IsAscending ts_port.runtime
    × IsAscending ts_port.dev
fold_lem_example =
    fold_lem npm_id (codes "ts/package.json") (codes "@tabnas/ebnf") (some (codes "ebnf"))
      ts_declared (codes "@tabnas/debug" ∷ []) (codes "bnf")

abbrev go_port : Port
go_port = record ts_port { runtime = codes "bnf" ∷ codes "parser" ∷ codes "yaml" ∷ [] }

abbrev small_repo : Repo
small_repo = record { ts_port = some ts_port; go_port = some go_port; rs_port = none }

-- `yaml` is recorded as a dependency of the Go port alone.
abbrev small_register : Json
small_register = object (
    member (codes "differ")
      (object (
        member (codes "yaml")
          (object (
            member (codes "ports") (array (item (string (codes "go")) end)) (
              member (codes "reason") (string (codes "r"))
                (member (codes "repair") (string (codes "ts")) nothing))))
          nothing))
      nothing)

small_passes : (compare small_repo small_register).problems ≡ []
unfolding compare fold npm_id
small_passes = refl

compare_iff_example :
    ((compare small_repo small_register).problems ≡ [])
    ↔ Passes small_repo small_register (differ_of small_register)
compare_iff_example = compare_iff small_repo small_register

-- A repository with a TypeScript port alone.
abbrev manifest_json : Json
manifest_json = object (
    member (codes "name") (string (codes "@tabnas/ebnf")) (
      member (codes "peerDependencies")
        (object (member (codes "@tabnas/parser") (string (codes "^1")) nothing)) nothing))

abbrev disk : Outside
disk = record {
  exists = λ path. text_eq path (codes "ts/package.json");
  contents = λ path.
      if text_eq path (codes "ts/package.json")
      then read (codes "{}")
      else fail path 0 no_such_file;
  go_entries = nowhere;
  letter = ascii_letter;
  decimal = ascii_digit;
  parse_json = λ _. parsed manifest_json;
}

disk_run :
    ((main (codes "/here") (λ _. true) (λ _. disk) (codes "--json" ∷ [])).code ≡ 0)
    × ((main (codes "/here") (λ _. false) (λ _. disk) []).code ≡ 2)
    × ((main (codes "/here") (λ _. true) (λ _. disk) (codes "a" ∷ codes "b" ∷ [])).code ≡ 2)
unfolding main
disk_run = (refl, refl, refl)

main-0_iff_example :
    ((main (codes "/here") (λ _. true) (λ _. disk) (codes "--json" ∷ codes "there" ∷ [])).code ≡ 0)
    ↔ (AsksHelp (codes "--json" ∷ codes "there" ∷ [])
        ⊎ ((named : Option Text) × Names (codes "--json" ∷ codes "there" ∷ []) named
            × IsFine (codes "/here") (λ _. true) (λ _. disk) named))
main-0_iff_example =
    main-0_iff (codes "/here") (λ _. true) (λ _. disk) (codes "--json" ∷ codes "there" ∷ [])

abbrev two_requires : List Require
two_requires =
    record { path = codes "a.b/c"; indirect = false }
    ∷ record { path = codes "a.b/c/d"; indirect = true }
    ∷ []

best_from_lem_example :
    Best (codes "a.b/c/d/e") two_requires (best_from (codes "a.b/c/d/e") none two_requires)
best_from_lem_example = best_from_lem (codes "a.b/c/d/e") two_requires
