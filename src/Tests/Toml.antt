-- ===== src/Tests/Toml.antt =====
-- Runs of the reader of TOML, and of the Cargo manifests that it reads.
use ebnf.Base.{◌≢◌, ◌++◌, inl, inr, arith, ◌≡◌, refl, true, false, some, [], ◌∷◌, codes, Text}
use ebnf.Ports.Fault.{read, fail, set_twice, cannot_hold, table_defined, open_array}
use ebnf.Ports.Toml.{table, tables, array, string, bool, other, nothing, key, item, end, last}
use ebnf.Ports.Toml.Document.{parse_toml}
use ebnf.Ports.Fault.{◌>>=◌, out_of_fuel, lost_table}
use ebnf.Ports.Cargo.{read_rs, cargo, cargo_port, crate_port}
use ebnf.Ports.Cargo.Spellings.{as_dotted_key, manifest}
use ebnf.Ports.Cargo.Spellings.Agree.{spellings_agree}
use ebnf.Ports.Toml.Paths.{is_bare, toml_key}
use ebnf.Ports.Toml.Document.Total.{parse_toml-total}
use ebnf.Ports.Toml.RoundTrip.Keys.{IsPart, ends_key, toml_key-IsKey}
use ebnf.Ports.Toml.RoundTrip.{written}

abbrev file : Text
file = codes "t"

toml_runs :
    (parse_toml (codes "a.b = \"x\\ty\" # c\n[t]\nk = [1, 'l',\n]\n[[u]]\nm={n=true}\n") file
      ≡ read (
          key (codes "a") (table 1 true false (key (codes "b") (string 1 (codes "x\ty")) nothing)) (
            key
              (codes "t")
              (table 2 true false (
                key
                  (codes "k")
                  (array 3 (item (other 3 (codes "1")) (item (string 3 (codes "l")) end)))
                  nothing))
              (key
                (codes "u")
                (tables 5 (
                  last (
                    table 5 true false (
                      key
                        (codes "m")
                        (table 6 true true (key (codes "n") (bool 6 true) nothing))
                        nothing))))
                nothing))))
    × (parse_toml (codes "d = 1979-05-27 07:32:00\ns = \"\"\"\na\\\n  b\"\"\"\"") file
        ≡ read (
            key
              (codes "d")
              (other 1 (codes "1979-05-27 07:32:00"))
              (key (codes "s") (string 2 (codes "ab\"")) nothing)))
    × (parse_toml (codes "a = 1\n a = 2") file ≡ fail file 2 set_twice)
    × (parse_toml (codes "a = {}\n a.b = 2") file ≡ fail file 2 cannot_hold)
    × (parse_toml (codes "[a]\n[a]") file ≡ fail file 2 table_defined)
    × (parse_toml (codes "a = [\n\n1, ") file ≡ fail file 1 open_array)
    × (parse_toml (codes "[a.b]\n[a]\nc = 1\n[[a.d]]\n[a.d.e]") file
        ≡ read (
            key
              (codes "a")
              (table 1 true false (
                key (codes "b") (table 1 true false nothing) (
                  key (codes "c") (other 3 (codes "1")) (
                    key
                      (codes "d")
                      (tables 4 (
                        last (
                          table 4 true false
                            (key (codes "e") (table 5 true false nothing) nothing))))
                      nothing))))
              nothing))
unfolding parse_toml
toml_runs = (refl, refl, refl, refl, refl, refl, refl)

abbrev crate_manifest : Text
crate_manifest =
    codes
      "[package]\nname = \"tabnas-ebnf\"\n[dependencies]\ntabnas-bnf = \"1\"\nserde = {version = \"1\"}\nx = { package = \"tabnas-parser\", optional = true }\n[target.'cfg(unix)'.build-dependencies.tabnas-json]\nversion='1'\n[dev-dependencies]\ntabnas-debug.path = \"..\"\n"

cargo_run :
    read_rs (λ _. read crate_manifest)
    ≡ read (record {
      manifest = codes "rs/Cargo.toml";
      name = codes "tabnas-ebnf";
      id = some (codes "ebnf");
      runtime = codes "bnf" ∷ codes "json" ∷ codes "parser" ∷ [];
      optional = codes "parser" ∷ [];
      dev = codes "debug" ∷ [];
      external = codes "serde" ∷ [];
    })
unfolding read_rs
cargo_run = refl

parse_toml-total_example : (open_array ≢ out_of_fuel) × (open_array ≢ lost_table)
unfolding parse_toml
parse_toml-total_example =
    parse_toml-total (codes "a = [") file (record { file = file; line = 1; why = open_array }) refl

abbrev dotted_name : Text
dotted_name = codes "dependencies.\"tabnas.bnf\""

first_IsPart : IsPart (codes "dependencies") (codes "dependencies")
unfolding is_bare
first_IsPart = inr (refl, ((λ e. cc e), (refl, omega arith)))

second_IsPart : IsPart (codes "\"tabnas.bnf\"") (codes "tabnas.bnf")
unfolding written
second_IsPart = inl refl

ends_at_equals : ends_key b'=' ≡ true
unfolding is_bare
ends_at_equals = refl

toml_key-IsKey_example :
    toml_key file (record { rest = dotted_name ++ b'=' ∷ codes " 1"; line = 1 })
    ≡ read (
      codes "dependencies" ∷ codes "tabnas.bnf" ∷ [],
      record { rest = b'=' ∷ codes " 1"; line = 1 },
    )
toml_key-IsKey_example =
    toml_key-IsKey file 1 dotted_name (codes "dependencies" ∷ codes "tabnas.bnf" ∷ []) b'='
      (codes " 1") (codes "dependencies", codes "\"tabnas.bnf\"", refl, first_IsPart, second_IsPart)
      ends_at_equals

spellings_agree_example :
    (parse_toml
        (manifest as_dotted_key (codes "tabnas-ebnf") (codes "\"tabnas.bnf\"") (codes "1"))
        cargo
      >>= cargo_port)
    ≡ read (
        crate_port (codes "tabnas-ebnf") (record {
          runtime = record { name = codes "tabnas.bnf"; optional = false } ∷ [];
          dev = [];
        }))
spellings_agree_example =
    spellings_agree b't' (codes "abnas-ebnf") (codes "\"tabnas.bnf\"") (codes "tabnas.bnf")
      (codes "1") second_IsPart as_dotted_key
