-- ===== src/CharClass/CodePoints.antt =====
-- Code points as JavaScript text, and the standalone `#xNN` form.
use ebnf.Base.{
  ℕ, ◌+◌, ◌-◌, ◌*◌, ◌/◌, ◌%◌, ◌<◌, ◌≤◌, ◌≡◌, true, Bool-cases, inl, inr, some, [], ◌∷◌, ◌++◌, arith,
  ltb, ltb→lt, ltb-false, lt→ltb, within, if◌then◌else◌, Text, codes,
}
use ebnf.Ir.{term}
use ebnf.Error.{ok, throw, not_code_point}
use ebnf.Token.{Token, token_loc, span_of}
use ebnf.Hex.{code_point, max_code_point, to_hex}
use ebnf.Hex.RoundTrip.{parse_int16-to_hex}
use ebnf.CharClass.{from_code_point, code_point_at, hex_term}
use ebnf.CharClass.Ranges.{code_point-to_hex}

-- The code point at the front of a text.
abbrev pub first_code_point : Text → ℕ
first_code_point [] = 0
first_code_point (c ∷ cs) = code_point_at c cs

within-true : (lo hi c : ℕ) → lo ≤ c → c ≤ hi → within lo hi c ≡ true
within-true lo hi c p q = ground arith

pair_value-split :
    (n : ℕ)
    → 0x10000 ≤ n
    → 0x10000
        + (0xD800 + (n - 0x10000) / 0x400 - 0xD800) * 0x400
        + (0xDC00 + (n - 0x10000) % 0x400 - 0xDC00)
      ≡ n
pair_value-split n h = omega arith

-- Every code point up to U+10FFFF, written as text, is read back from it.
pub code_point_at-from_code_point :
    (n : ℕ) → n ≤ max_code_point → first_code_point (from_code_point n) ≡ n
unfolding from_code_point code_point_at
code_point_at-from_code_point n h = elim (Bool-cases (ltb 0xFFFF n)) [
  | inl astral ↦
      let big : 0x10000 ≤ n = ltb→lt 0xFFFF n astral in
      rw astral (
        rw (within-true 0xD800 0xDBFF (0xD800 + (n - 0x10000) / 0x400) (omega arith) (omega arith))
          (rw
            (within-true 0xDC00 0xDFFF (0xDC00 + (n - 0x10000) % 0x400) (omega arith) (omega arith))
            (pair_value-split n big)))
  | inr plain ↦ rw plain
]

code_point-too_large :
    (n : ℕ) (src : Text) (tkn : Token)
    → max_code_point < n
    → code_point (to_hex n) src (some tkn) ≡ throw (not_code_point src) (token_loc (some tkn))
unfolding code_point
code_point-too_large n src tkn h = rw (parse_int16-to_hex n) (rw (lt→ltb max_code_point n h))

-- `#x` and the digits of a number are the terminal of that code point, and are rejected with the
-- token's location where the number is past U+10FFFF.
pub hex_term-to_hex :
    (n : ℕ) (tkn : Token)
    → let src = codes "#x" ++ to_hex n in
      hex_term src tkn ≡ (
        if ltb max_code_point n
        then throw (not_code_point src) (token_loc (some tkn))
        else ok (term (from_code_point n) true (span_of (some tkn))))
unfolding hex_term
hex_term-to_hex n tkn = elim (Bool-cases (ltb max_code_point n)) [
  | inl large ↦ rw large (rw (code_point-too_large n _ tkn (ltb→lt max_code_point n large)))
  | inr small ↦ rw small (rw (code_point-to_hex n _ (some tkn) (ltb-false max_code_point n small)))
]
