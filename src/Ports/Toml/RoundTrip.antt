-- ===== src/Ports/Toml/RoundTrip.antt =====
-- Strings and keys as TOML writes them (tools/port-deps.cjs: `string` and `key` of `parseToml`).
pub mod Keys
use ebnf.Base.{
  ℕ, zero, suc, ◌+◌, ◌<◌, ◌≤◌, ◌≡◌, refl, sym, ap, ◌∙◌, Bool, true, false, ◌&&◌, ◌||◌, Bool-cases,
  inl, inr, Option, none, some, List, [], ◌∷◌, ◌++◌, append_assoc, all, ◌==◌, if◌then◌else◌, length,
  take, drop, starts_with, Text, codes, arith, strip_prefix, ◌≢◌, ◌⊎◌, not, drop-length_append,
  length-append,
}
use ebnf.Ports.Fault.{Read, read, ◌>>=◌}
use ebnf.Ports.Strings.{has_prefix, trim_start}
use ebnf.Ports.Toml.{Cursor, blank, is_indent, run_of}
use ebnf.Ports.Toml.Strings.{
  Phase, skip, part, after_bit, line_bit, line_unit, string_from, escaped, escape, simple,
  toml_string,
}
use ebnf.Ports.Toml.Paths.{is_bare, bare_part, key_part, after_part, key_parts, toml_key}

-- A text as a basic string writes it: the quote and the backslash behind a backslash, and a line feed as
-- `\n`.
unfoldable pub written : Text → Text
written [] = []
written (c ∷ cs) =
    let rest = written cs in
    if c == b'"' || c == b'\\'
    then b'\\' ∷ c ∷ rest
    else if c == b'\n'
    then b'\\' ∷ b'n' ∷ rest
    else c ∷ rest

simple_special : (c : ℕ) → (c == b'"' || c == b'\\') ≡ true → simple c ≡ some c
unfolding simple
simple_special c h = ground (arith, h)

module _ (file : Text) (start line : ℕ) (at_end : Read (Text × Cursor)) (rest : Text) where
  abbrev loop : Phase → Text → Read (Text × Cursor)
  loop phase s = string_from (line_bit file start b'"') at_end phase line s

  escape_part :
      (e v : ℕ) (s : Text)
      → simple e ≡ some v
      → escaped file line (e ∷ s) ≡ read (part (v ∷ []) (skip 1))
  unfolding escaped escape
  escape_part e v s h = ground (arith, h)

  escaped_step :
      (e v : ℕ) (s w : Text) (p : Cursor)
      → (e == b'\n') ≡ false
      → simple e ≡ some v
      → loop (skip 0) s ≡ read (w, p)
      → loop (skip 0) (b'\\' ∷ e ∷ s) ≡ read (v ∷ w, p)
  unfolding string_from after_bit line_bit line_unit
  escaped_step e v s w p n h ih = rw (escape_part e v s h) (rw n (rw ih refl))

  unit_part :
      (c : ℕ) (s : Text)
      → (c == b'"' || c == b'\\' || c == b'\n') ≡ false
      → line_unit file start b'"' line c s ≡ read (part (c ∷ []) (skip 0))
  unfolding line_unit
  unit_part c s n = ground (arith, n)

  plain_step :
      (c : ℕ) (s w : Text) (p : Cursor)
      → (c == b'"' || c == b'\\' || c == b'\n') ≡ false
      → loop (skip 0) s ≡ read (w, p)
      → loop (skip 0) (c ∷ s) ≡ read (c ∷ w, p)
  unfolding string_from after_bit line_bit
  plain_step c s w p n ih =
      let same : (c == b'\n') ≡ false = ground (arith, n) in
      rw (unit_part c s n) (rw same (rw ih refl))

  pub string_from-written :
      (s : Text)
      → loop (skip 0) (written s ++ b'"' ∷ rest) ≡ read (s, record { rest = rest; line = line })
  unfolding written simple
  string_from-written [] = unfold string_from after_bit line_bit line_unit in refl
  string_from-written (c ∷ cs) =
      let ih = string_from-written cs in
      let p : Cursor = record { rest = rest; line = line } in
      let s = written cs ++ b'"' ∷ rest in
      elim (Bool-cases (c == b'"' || c == b'\\')) [
        | inl special ↦
            rw special
              (escaped_step c c s cs p (ground (arith, special)) (simple_special c special) ih)
        | inr other ↦ elim (Bool-cases (c == b'\n')) [
          | inl feed ↦ rw other (
              rw feed (
                let same : b'\n' ≡ c = ground (arith, feed) in
                rw same at (escaped_step b'n' b'\n' s cs p refl refl ih)))
          | inr plain ↦ rw other (rw plain (plain_step c s cs p (ground (arith, other, plain)) ih))
        ]
      ]

quote_apart :
    (d : ℕ) (s : Text) → (d == b'"') ≡ false → has_prefix (b'"' ∷ b'"' ∷ []) (d ∷ s) ≡ false
unfolding has_prefix strip_prefix
quote_apart d s h = ground (arith, h)

-- Where no third quote follows, it is no string on several lines.
pub not_block :
    (s rest : Text)
    → starts_with b'"' rest ≡ false
    → has_prefix (b'"' ∷ b'"' ∷ []) (written s ++ b'"' ∷ rest) ≡ false
unfolding written has_prefix strip_prefix
not_block [] [] h = refl
not_block [] (d ∷ rest) h = ground (arith, h)
not_block (c ∷ cs) rest h = elim (Bool-cases (c == b'"' || c == b'\\')) [
  | inl special ↦ rw special (quote_apart b'\\' (c ∷ (written cs ++ b'"' ∷ rest)) refl)
  | inr other ↦ elim (Bool-cases (c == b'\n')) [
    | inl feed ↦ rw other (rw feed (quote_apart b'\\' (b'n' ∷ (written cs ++ b'"' ∷ rest)) refl))
    | inr plain ↦
        rw other (rw plain (quote_apart c (written cs ++ b'"' ∷ rest) (ground (arith, other))))
  ]
]

-- Every text, written as a basic string, is read back, and what stands behind the string is left; where
-- that does not begin with a quote.
pub toml_string-written :
    (file : Text) (line : ℕ) (s rest : Text)
    → starts_with b'"' rest ≡ false
    → toml_string file b'"' line (written s ++ b'"' ∷ rest)
      ≡ read (s, record { rest = rest; line = line })
unfolding toml_string
toml_string-written file line s rest h =
    rw (not_block s rest h) (string_from-written file line line _ rest s)
