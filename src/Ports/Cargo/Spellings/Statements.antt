-- ===== src/Ports/Cargo/Spellings/Statements.antt =====
-- The statements that name a dependency (tools/port-deps.cjs: `parseToml`).
use ebnf.Base.{
  ℕ, suc, ◌*◌, ◌≡◌, refl, sym, ap, ◌∙◌, Bool, true, false, [], not, ◌&&◌, ◌==◌, inl, inr, ◌∷◌, ◌++◌,
  append_assoc, length, Text, codes, text_eq_refl, arith,
}
use ebnf.Ports.Fault.{read, ◌>>=◌}
use ebnf.Ports.Toml.{table, string, nothing, key, gap_from}
use ebnf.Ports.Toml.RoundTrip.{written, toml_string-written}
use ebnf.Ports.Toml.RoundTrip.Keys.{ends_key, IsBare, IsPart, IsKey, toml_key-IsKey}
use ebnf.Ports.Toml.Document.{Document, key_value, statement, statements}
use ebnf.Ports.Toml.Values.{toml_value}
use ebnf.Ports.Toml.Paths.{is_bare}
use ebnf.Ports.Cargo.{cargo}
use ebnf.Ports.Cargo.Spellings.{named, document, with_dependencies, version, quoted}
use ebnf.Ports.Cargo.Spellings.Package.{nine}

twice_suc : (n : ℕ) → 2 * suc n ≡ suc (suc (2 * n))
twice_suc n = omega arith

ends_equals : ends_key b'=' ≡ true
unfolding is_bare
ends_equals = refl

-- What may stand first in a part of a key.
abbrev opens_part : ℕ → Bool
opens_part d =
    not (d == b'#')
    && (not (d == b' ')
        && (not (d == b'\t') && (not (d == b'\n') && (not (d == b'[') && not (d == b'}')))))

bare_opens : (d : ℕ) → is_bare d ≡ true → opens_part d ≡ true
unfolding is_bare
bare_opens d h = ground (arith, h)

abbrev Opening : Text → Type 0
Opening s = (d : ℕ) × (t : Text) × (s ≡ d ∷ t) × (opens_part d ≡ true)

IsBare-Opening : (n : Text) → IsBare n → Opening n
IsBare-Opening [] b = absurd (b.0 refl)
IsBare-Opening (d ∷ t) b = (d, t, refl, bare_opens d (ground (arith, b.1.0)))

IsPart-Opening : (s n : Text) → IsPart s n → Opening s
IsPart-Opening s n h = elim h [
  | inl quoted ↦ (b'"', written n ++ b'"' ∷ [], quoted, refl)
  | inr bare ↦ rw bare.0 (IsBare-Opening n bare.1)
]

gap_opens :
    (line d : ℕ) (t : Text)
    → opens_part d ≡ true
    → gap_from false line (d ∷ t) ≡ record { rest = d ∷ t; line = line }
unfolding gap_from
gap_opens line d t h = ground (arith, h)

module _ (line : ℕ) (doc : Document) where
  statement_opens :
      (d : ℕ) (t : Text)
      → opens_part d ≡ true
      → statement cargo line d t doc ≡ key_value cargo line (d ∷ t) doc
  unfolding statement
  statement_opens d t h = ground (arith, h)

  key_statement_at :
      (f d : ℕ) (t : Text)
      → opens_part d ≡ true
      → statements (suc f) cargo doc (record { rest = d ∷ t; line = line })
        ≡ (key_value cargo line (d ∷ t) doc >>= λ r. statements f cargo r.0 r.1)
  unfolding statements
  key_statement_at f d t h =
      rw (gap_opens line d t h)
        (ap (λ m. m >>= λ r. statements f cargo r.0 r.1) (statement_opens d t h))

  key_statement :
      (f : ℕ) (s n t : Text)
      → IsPart s n
      → statements (suc f) cargo doc (record { rest = s ++ t; line = line })
        ≡ (key_value cargo line (s ++ t) doc >>= λ r. statements f cargo r.0 r.1)
  key_statement f s n t is =
      let (d, t', same, opens) = IsPart-Opening s n is in
      rw same (key_statement_at f d (t' ++ t) opens)

dependencies_IsPart : IsPart (codes "dependencies") (codes "dependencies")
unfolding is_bare
dependencies_IsPart = inr (refl, ((λ e. cc e), (refl, omega arith)))

ends_bracket : ends_key b']' ≡ true
unfolding is_bare
ends_bracket = refl

module _ (f : ℕ) (p s n v : Text) (is : IsPart s n) where
  pub string_statement :
      statements
        (suc f)
        cargo
        (record { root = with_dependencies p nothing; current = codes "dependencies" ∷ [] })
        (record { rest = s ++ b'=' ∷ quoted v (codes "\n"); line = 4 })
      ≡ statements f cargo
          (record {
            root = with_dependencies p (key n (string 4 v) nothing);
            current = codes "dependencies" ∷ [];
          })
          (record { rest = []; line = 5 })
  unfolding key_value
  string_statement =
      key_statement 4 _ f s n (b'=' ∷ quoted v (codes "\n")) is
      ∙ rw (toml_key-IsKey cargo 4 s (n ∷ []) b'=' (quoted v (codes "\n")) is ends_equals)
          (rw (toml_string-written cargo 4 v (codes "\n") refl) refl)

version_IsKey : IsKey (codes "version") (codes "version" ∷ [])
unfolding is_bare
version_IsKey = inr (refl, ((λ e. cc e), (refl, omega arith)))

module _ (f : ℕ) (p s n v : Text) (is : IsPart s n) where
  pub dotted_statement :
      statements
        (suc f)
        cargo
        (record { root = with_dependencies p nothing; current = codes "dependencies" ∷ [] })
        (record { rest = s ++ b'.' ∷ (codes "version=" ++ quoted v (codes "\n")); line = 4 })
      ≡ statements f cargo
          (record {
            root = with_dependencies p (key n (table 4 true false (version v)) nothing);
            current = codes "dependencies" ∷ [];
          })
          (record { rest = []; line = 5 })
  unfolding key_value
  dotted_statement =
      key_statement 4 _ f s n (b'.' ∷ (codes "version=" ++ quoted v (codes "\n"))) is
      ∙ rw (sym (append_assoc s (b'.' ∷ codes "version") (b'=' ∷ quoted v (codes "\n")))) (
          rw
            (toml_key-IsKey cargo 4 (s ++ b'.' ∷ codes "version") (n ∷ codes "version" ∷ []) b'='
              (quoted v (codes "\n")) (s, codes "version", refl, is, version_IsKey) ends_equals)
            (rw (toml_string-written cargo 4 v (codes "\n") refl) refl))

  pub dependency_header :
      (rest : Text)
      → statements
          (suc f)
          cargo
          (record { root = named p; current = codes "package" ∷ [] })
          (record { rest = codes "[dependencies." ++ (s ++ b']' ∷ b'\n' ∷ rest); line = 3 })
        ≡ statements f cargo
            (record {
              root = document p (
                  key
                    (codes "dependencies")
                    (table 3 false false (key n (table 3 true false nothing) nothing))
                    nothing);
              current = codes "dependencies" ∷ n ∷ [];
            })
            (record { rest = rest; line = 4 })
  unfolding statements
  dependency_header rest =
      rw
        (toml_key-IsKey cargo 3 (codes "dependencies." ++ s) (codes "dependencies" ∷ n ∷ []) b']'
          (b'\n' ∷ rest) (codes "dependencies", s, refl, dependencies_IsPart, is) ends_bracket)
        refl

  pub version_statement :
      statements
        (suc f)
        cargo
        (record {
          root = document p (
              key
                (codes "dependencies")
                (table 3 false false (key n (table 3 true false nothing) nothing))
                nothing);
          current = codes "dependencies" ∷ n ∷ [];
        })
        (record { rest = codes "version=" ++ quoted v (codes "\n"); line = 4 })
      ≡ statements f cargo
          (record {
            root = document p (
                key
                  (codes "dependencies")
                  (table 3 false false (key n (table 3 true false (version v)) nothing))
                  nothing);
            current = codes "dependencies" ∷ n ∷ [];
          })
          (record { rest = []; line = 5 })
  unfolding statements
  version_statement =
      rw (toml_string-written cargo 4 v (codes "\n") refl) (rw (text_eq_refl n) refl)

  inline_value :
      toml_value cargo (record { rest = codes "{version=" ++ quoted v (codes "}\n"); line = 4 })
      ≡ read (table 4 true true (version v), record { rest = codes "\n"; line = 4 })
  unfolding toml_value
  inline_value =
      rw (twice_suc (nine (length (written v ++ b'"' ∷ codes "}\n"))))
        (rw (toml_string-written cargo 4 v (codes "}\n") refl) refl)

  pub inline_statement :
      statements
        (suc f)
        cargo
        (record { root = with_dependencies p nothing; current = codes "dependencies" ∷ [] })
        (record { rest = s ++ b'=' ∷ (codes "{version=" ++ quoted v (codes "}\n")); line = 4 })
      ≡ statements f cargo
          (record {
            root = with_dependencies p (key n (table 4 true true (version v)) nothing);
            current = codes "dependencies" ∷ [];
          })
          (record { rest = []; line = 5 })
  unfolding key_value
  inline_statement =
      let line = codes "{version=" ++ quoted v (codes "}\n") in
      key_statement 4 _ f s n (b'=' ∷ line) is
      ∙ rw (toml_key-IsKey cargo 4 s (n ∷ []) b'=' line is ends_equals) (rw inline_value refl)
