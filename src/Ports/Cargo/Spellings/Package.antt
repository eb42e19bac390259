-- ===== src/Ports/Cargo/Spellings/Package.antt =====
-- The package's table and the header of its dependencies (tools/port-deps.cjs: `parseToml`).
use ebnf.Base.{ℕ, suc, ◌≡◌, refl, ◌∙◌, [], ◌∷◌, ◌++◌, length, Text, codes}
use ebnf.Ports.Toml.{string, nothing, key}
use ebnf.Ports.Toml.RoundTrip.{written, toml_string-written}
use ebnf.Ports.Toml.Document.{statements, parse_toml}
use ebnf.Ports.Cargo.{cargo}
use ebnf.Ports.Cargo.Spellings.{package_of, named, with_dependencies, package_line}

abbrev pub nine : ℕ → ℕ
nine n = suc (suc (suc (suc (suc (suc (suc (suc (suc n))))))))

module _ (f : ℕ) (rest : Text) where
  package_header :
      statements
        (suc f)
        cargo
        (record { root = nothing; current = [] })
        (record { rest = codes "[package]\n" ++ rest; line = 1 })
      ≡ statements f cargo
          (record { root = package_of nothing; current = codes "package" ∷ [] })
          (record { rest = rest; line = 2 })
  unfolding statements
  package_header = refl

  package_name :
      (p : Text)
      → statements
          (suc f)
          cargo
          (record { root = package_of nothing; current = codes "package" ∷ [] })
          (record { rest = codes "name=\"" ++ (written p ++ b'"' ∷ b'\n' ∷ rest); line = 2 })
        ≡ statements f cargo
            (record {
              root = package_of (key (codes "name") (string 2 p) nothing);
              current = codes "package" ∷ [];
            })
            (record { rest = rest; line = 3 })
  unfolding statements
  package_name p = rw (toml_string-written cargo 2 p (b'\n' ∷ rest) refl) refl

module _ (f : ℕ) (p : Text) (rest : Text) where
  pub dependencies_header :
      statements
        (suc f)
        cargo
        (record { root = named p; current = codes "package" ∷ [] })
        (record { rest = codes "[dependencies]\n" ++ rest; line = 3 })
      ≡ statements f cargo
          (record { root = with_dependencies p nothing; current = codes "dependencies" ∷ [] })
          (record { rest = rest; line = 4 })
  unfolding statements
  dependencies_header = refl

pub parse_toml-package :
    (p rest : Text)
    → parse_toml (package_line p rest) cargo
      ≡ statements
          (suc (suc (suc (suc (suc (suc (nine (length (written p ++ b'"' ∷ b'\n' ∷ rest)))))))))
          cargo
          (record { root = named p; current = codes "package" ∷ [] })
          (record { rest = rest; line = 3 })
unfolding parse_toml
parse_toml-package p rest =
    let f = suc (suc (suc (suc (suc (suc (nine (length (written p ++ b'"' ∷ b'\n' ∷ rest)))))))) in
    package_header (suc f) (codes "name=\"" ++ (written p ++ b'"' ∷ b'\n' ∷ rest))
    ∙ package_name f rest p
