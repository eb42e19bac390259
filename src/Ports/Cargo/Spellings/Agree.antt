-- ===== src/Ports/Cargo/Spellings/Agree.antt =====
-- The port of a manifest is the same for each spelling (tools/port-deps.cjs: `readRs`).
use ebnf.Base.{ℕ, suc, ◌≡◌, refl, ◌∙◌, true, false, [], ◌∷◌, ◌++◌, length, Text, codes}
use ebnf.Ports.Fault.{read, ◌>>=◌}
use ebnf.Ports.Toml.{table, string, Keys, nothing, key}
use ebnf.Ports.Toml.RoundTrip.{written}
use ebnf.Ports.Toml.RoundTrip.Keys.{IsPart}
use ebnf.Ports.Toml.Document.{statements, parse_toml}
use ebnf.Ports.Cargo.{cargo, cargo_port, crate_port}
use ebnf.Ports.Cargo.Spellings.{
  named, document, with_dependencies, version, quoted, Spelling, as_version, as_inline_table,
  as_dotted_key, as_header, spelled, manifest,
}
use ebnf.Ports.Cargo.Spellings.Package.{nine, dependencies_header, parse_toml-package}
use ebnf.Ports.Cargo.Spellings.Statements.{
  string_statement, dotted_statement, inline_statement, dependency_header, version_statement,
}

module _ (c : ℕ) (cs s n v : Text) (is : IsPart s n) where
  abbrev the_tables : Spelling → Keys
  the_tables as_version = with_dependencies (c ∷ cs) (key n (string 4 v) nothing)
  the_tables as_inline_table =
      with_dependencies (c ∷ cs) (key n (table 4 true true (version v)) nothing)
  the_tables as_dotted_key =
      with_dependencies (c ∷ cs) (key n (table 4 true false (version v)) nothing)
  the_tables as_header = document (c ∷ cs) (
      key (codes "dependencies")
        (table 3 false false (key n (table 3 true false (version v)) nothing)) nothing)

  cargo_port-the_tables :
      (spelling : Spelling)
      → cargo_port (the_tables spelling)
        ≡ read (
            crate_port
              (c ∷ cs)
              (record { runtime = record { name = n; optional = false } ∷ []; dev = [] }))
  unfolding cargo_port
  cargo_port-the_tables as_version = refl
  cargo_port-the_tables as_inline_table = refl
  cargo_port-the_tables as_dotted_key = refl
  cargo_port-the_tables as_header = refl

  module _ (f : ℕ) where
    abbrev Reading : Text → Keys → Type 0
    Reading text root =
        statements (suc (suc (suc f))) cargo
          (record { root = named (c ∷ cs); current = codes "package" ∷ [] })
          (record { rest = text; line = 3 })
        ≡ read root

    statements-spelled :
        (spelling : Spelling) → Reading (spelled spelling s v) (the_tables spelling)
    unfolding spelled statements
    statements-spelled as_version =
        dependencies_header (suc (suc f)) (c ∷ cs) (s ++ b'=' ∷ quoted v (codes "\n"))
        ∙ string_statement (suc f) (c ∷ cs) s n v is
    statements-spelled as_inline_table =
        dependencies_header (suc (suc f)) (c ∷ cs)
          (s ++ b'=' ∷ (codes "{version=" ++ quoted v (codes "}\n")))
        ∙ inline_statement (suc f) (c ∷ cs) s n v is
    statements-spelled as_dotted_key =
        dependencies_header (suc (suc f)) (c ∷ cs)
          (s ++ b'.' ∷ (codes "version=" ++ quoted v (codes "\n")))
        ∙ dotted_statement (suc f) (c ∷ cs) s n v is
    statements-spelled as_header =
        dependency_header (suc (suc f)) (c ∷ cs) s n v is
          (codes "version=" ++ quoted v (codes "\n"))
        ∙ version_statement (suc f) (c ∷ cs) s n v is

  parse_toml-manifest :
      (spelling : Spelling)
      → parse_toml (manifest spelling (c ∷ cs) s v) cargo ≡ read (the_tables spelling)
  unfolding manifest
  parse_toml-manifest spelling =
      parse_toml-package (c ∷ cs) (spelled spelling s v)
      ∙ statements-spelled
          (suc
            (suc (suc (nine (length (written (c ∷ cs) ++ b'"' ∷ b'\n' ∷ spelled spelling s v))))))
          spelling

  -- A dependency gives the same port, whether it is written as a version, as an inline table, with a
  -- dotted key or under a header of its own, and whether its key is bare or a basic string; behind a
  -- package's table with a name. A bare key has at most 256 units.
  pub spellings_agree :
      (spelling : Spelling)
      → (parse_toml (manifest spelling (c ∷ cs) s v) cargo >>= cargo_port)
        ≡ read (
            crate_port
              (c ∷ cs)
              (record { runtime = record { name = n; optional = false } ∷ []; dev = [] }))
  spellings_agree spelling = rw (parse_toml-manifest spelling) (cargo_port-the_tables spelling)
