-- ===== src/Tests/Ports.antt =====
-- Runs of the port checker.
use ebnf.Base.{ℕ, ◌≡◌, refl, Bool, true, false, ◌||◌, within, [], ◌∷◌, codes, Text}
use ebnf.Ports.Fault.{read}
use ebnf.Ports.GoImports.{go_imports}
use ebnf.Ports.GoIgnored.{go_ignored}
use ebnf.Ports.GoMod.{parse_go_mod, GoModule}
use ebnf.Ports.GoFiles.{file, link, directory, Entries, nothing, entry, go_files}
use ebnf.Ports.Npm.{json_line, key_line, npm_name}

-- The letters and digits of ASCII.
abbrev pub ascii_letter : ℕ → Bool
ascii_letter c = within b'A' b'Z' c || within b'a' b'z' c

abbrev pub ascii_digit : ℕ → Bool
ascii_digit c = within b'0' b'9' c

abbrev go_file : Text
go_file =
    codes
      "// doc\npackage p\n\nimport \"fmt\"\nimport (\n\tx \"a/b\" // c\n\t. `d`; _ \"e\"\n)\n/* \n */ func f() { \"\\\" }"

go_run :
    go_imports ascii_letter ascii_digit (codes "go/f.go") go_file
    ≡ read (
        record { path = codes "fmt"; line = 4 }
        ∷ record { path = codes "a/b"; line = 6 }
        ∷ record { path = codes "d"; line = 7 }
        ∷ record { path = codes "e"; line = 7 }
        ∷ [])
unfolding go_imports
go_run = refl

ignored_runs :
    (go_ignored (codes "a.go") (codes "// x\n//go:build ignore\n\npackage p") ≡ read true)
    × (go_ignored (codes "a.go") (codes "/* \n//go:build ignore */\npackage p") ≡ read false)
    × (go_ignored (codes "a.go") (codes "// +build ignore\n\npackage p") ≡ read true)
    × (go_ignored (codes "a.go") (codes "// +build ignore\npackage p") ≡ read false)
unfolding go_ignored
ignored_runs = (refl, refl, refl, refl)

abbrev mod_text : Text
mod_text =
    codes
      "module github.com/tabnas/ebnf/go\n\ngo 1.24\nrequire (\n\ta.b/c v1 // indirect\n\tx.y/z v2\n)\n"

abbrev ebnf_module : GoModule
ebnf_module = record {
  path = codes "github.com/tabnas/ebnf/go";
  requires =
      record { path = codes "a.b/c"; indirect = true }
      ∷ record { path = codes "x.y/z"; indirect = false }
      ∷ [];
}

mod_run : parse_go_mod (codes "go/go.mod") mod_text ≡ read ebnf_module
unfolding parse_go_mod
mod_run = refl

json_lines :
    (json_line (codes "a\nb\nc") (codes "Unexpected token at position 4") ≡ 3)
    × (json_line (codes "a") (codes "Unexpected (line 7 column 2)") ≡ 7)
    × (key_line (codes "{\n \"name\" : 1") (codes "name") ≡ 2)
    × (npm_name (codes "k") (codes "npm:@s/r@^1") ≡ codes "@s/r")
    × (npm_name (codes "k") (codes "npm:@s") ≡ codes "@s")
    × (npm_name (codes "k") (codes "^1") ≡ codes "k")
unfolding json_line key_line npm_name
json_lines = (refl, refl, refl, refl, refl, refl)

abbrev pub nowhere : Entries
nowhere = nothing

abbrev pub module_entries : Entries
module_entries = entry (codes "b.go") file (
    entry (codes "vendor") (directory (entry (codes "v.go") file nothing)) (
      entry (codes "a") (directory (entry (codes "x_test.go") file nothing))
        (entry (codes "l.go") link nothing)))

files_run :
    go_files (λ _. false) (codes "go") module_entries
    ≡ codes "go/a/x_test.go" ∷ codes "go/b.go" ∷ []
unfolding go_files
files_run = refl
