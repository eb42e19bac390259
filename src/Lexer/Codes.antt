-- ===== src/Lexer/Codes.antt =====
-- What the rule table makes of a `#HX` token (ts/src/converter.ts: the pattern of `#HX`, and `hexTerm`).
use ebnf.Base.{
  ℕ, ◌≤◌, ◌<◌, ◌≡◌, ◌≢◌, refl, &&-eq-true, ◌⊎◌, inl, inr, Bool, true, false, ◌&&◌, not, Bool-cases,
  none, some, [], if◌then◌else◌, ◌∷◌, length, drop, starts_with, ◌==◌, ltb, ltb→lt, ltb-false, Text,
  arith,
}
use ebnf.Ir.{term}
use ebnf.Error.{ok, throw, not_code_point}
use ebnf.Token.{Token, token_loc, span_of}
use ebnf.Hex.{is_hex, read_hex, parse_int16, code_point, max_code_point, to_hex}
use ebnf.CharClass.{hex_run, from_code_point, hex_term}
use ebnf.Hex.RoundTrip.{to_hex-IsHex, length-to_hex_pos}
use ebnf.CharClass.Pattern.Escapes.{hex_head, hex_run-append}
use ebnf.CharClass.Ranges.{write_cp}
use ebnf.Lexer.{match_hex}

hex_run-cases :
    (s : Text)
    → (hex_run s ≡ []) ⊎ ((d : ℕ) × (ds : Text) × (hex_run s ≡ d ∷ ds) × (is_hex d ≡ true))
unfolding hex_run
hex_run-cases [] = inl refl
hex_run-cases (c ∷ cs) = elim (Bool-cases (is_hex c)) [
  | inl digit ↦ inr (c, hex_run cs, rw digit refl, digit)
  | inr other ↦ inl (rw other refl)
]

if-some : (b : Bool) (s t : Text) → (if b then some s else none) ≡ some t → (b ≡ true) × (s ≡ t)
if-some true s t e = (refl, cc)
if-some false s t e = cc

no_digits : (s : Text) → not (length s == 0) ≡ true → s ≢ []
no_digits [] h e = cc
no_digits (c ∷ cs) h e = cc

-- What the pattern takes is `#x` and at least one digit.
match_hex-digits :
    (s t : Text)
    → match_hex s ≡ some t
    → (d : ℕ) × (ds : Text) × (t ≡ b'#' ∷ b'x' ∷ d ∷ ds) × (is_hex d ≡ true)
unfolding match_hex
match_hex-digits s t e =
    let (tests, same) = if-some _ (b'#' ∷ b'x' ∷ hex_run (drop 2 s)) t e in
    let digits = (&&-eq-true (starts_with b'#' s && starts_with b'x' (drop 1 s)) _).0 tests in
    elim (hex_run-cases (drop 2 s)) [
      | inl empty ↦ absurd (no_digits _ digits.1 empty)
      | inr (d, ds, run, digit) ↦ (d, ds, cc, digit)
    ]

code_point-value :
    (hex src : Text) (n : ℕ) (tkn : Token)
    → parse_int16 hex ≡ some n
    → ((n ≤ max_code_point) × (code_point hex src (some tkn) ≡ ok n))
      ⊎ ((max_code_point < n)
          × (code_point hex src (some tkn) ≡ throw (not_code_point src) (token_loc (some tkn))))
unfolding code_point
code_point-value hex src n tkn e = elim (Bool-cases (ltb max_code_point n)) [
  | inl large ↦ inr (ltb→lt max_code_point n large, rw e (rw large refl))
  | inr small ↦ inl (ltb-false max_code_point n small, rw e (rw small refl))
]

-- A text that the pattern of `#HX` takes is never read as no number: the action makes it the terminal
-- of its code point, or rejects it at the token's location where that is past U+10FFFF.
pub match_hex-hex_term :
    (s t : Text) (tkn : Token)
    → match_hex s ≡ some t
    → (n : ℕ) × (parse_int16 (drop 2 t) ≡ some n)
      × (((n ≤ max_code_point)
            × (hex_term t tkn ≡ ok (term (from_code_point n) true (span_of (some tkn)))))
          ⊎ ((max_code_point < n)
              × (hex_term t tkn ≡ throw (not_code_point t) (token_loc (some tkn)))))
unfolding hex_term parse_int16
match_hex-hex_term s t tkn e =
    let (d, ds, same, digit) = match_hex-digits s t e in
    let n : ℕ = read_hex 0 (d ∷ ds) in
    let value : parse_int16 (drop 2 t) ≡ some n = rw same (rw digit refl) in
    (
      n,
      value,
      elim (code_point-value (drop 2 t) t n tkn value) [
        | inl (small, read) ↦ inl (small, rw read refl)
        | inr (large, thrown) ↦ inr (large, rw thrown refl)
      ],
    )

pos-not-zero : (n : ℕ) → 0 < n → (n == 0) ≡ false
pos-not-zero n h = ground arith

-- Where a number is written as `#x` and its digits, and no further digit follows, the pattern of `#HX`
-- takes the `#x` and all the digits, and nothing else.
pub match_hex-write_cp :
    (n : ℕ) (rest : Text)
    → hex_head rest ≡ false
    → match_hex (write_cp n rest) ≡ some (b'#' ∷ b'x' ∷ to_hex n)
unfolding match_hex
match_hex-write_cp n rest h =
    rw (hex_run-append (to_hex n) rest (to_hex-IsHex n) h)
      (rw (pos-not-zero (length (to_hex n)) (length-to_hex_pos n)) refl)
