-- ===== src/Hex.antt =====
-- Hexadecimal text (ts/src/converter.ts: `codePoint`, and the JavaScript it calls: `parseInt`,
-- `toString(16)` and `padStart`).
pub mod RoundTrip
use ebnf.Base.{
  ℕ, zero, suc, ◌+◌, ◌-◌, ◌*◌, ◌/◌, ◌%◌, Bool, ◌||◌, Option, none, some, List, [], ◌∷◌, ◌++◌, ltb,
  if◌then◌else◌, within, Text, length,
}
use ebnf.Error.{Result, ok, throw, not_code_point}
use ebnf.Token.{Token, token_loc}

-- `/[0-9a-fA-F]/`
unfoldable pub is_hex : ℕ → Bool
is_hex c = within b'0' b'9' c || within b'a' b'f' c || within b'A' b'F' c

-- The value of a digit for which `is_hex` holds.
unfoldable pub hex_value : ℕ → ℕ
hex_value c =
    if within b'0' b'9' c
    then c - b'0'
    else if within b'a' b'f' c
    then c - b'a' + 10
    else c - b'A' + 10

-- `parseInt` reads digits as far as they go.
unfoldable pub read_hex : ℕ → Text → ℕ
unfolding is_hex hex_value
read_hex acc [] = acc
read_hex acc (c ∷ cs) =
    let rest = read_hex (acc * 16 + hex_value c) cs in if is_hex c then rest else acc

-- `parseInt(hex, 16)` on a text with no sign, space or `0x` in front; `none` is NaN.
unfoldable pub parse_int16 : Text → Option ℕ
unfolding is_hex hex_value read_hex
parse_int16 [] = none
parse_int16 (c ∷ cs) = if is_hex c then some (read_hex 0 (c ∷ cs)) else none

abbrev pub max_code_point : ℕ
max_code_point = 0x10FFFF

-- The checks on what `parseInt` returned.
unfoldable pub in_unicode : Text → Option Token → Option ℕ → Result ℕ
unfolding token_loc
in_unicode src tkn none = throw (not_code_point src) (token_loc tkn)
in_unicode src tkn (some n) =
    if ltb max_code_point n then throw (not_code_point src) (token_loc tkn) else ok n

unfoldable pub code_point : Text → Text → Option Token → Result ℕ
unfolding parse_int16 in_unicode
code_point hex src tkn = in_unicode src tkn (parse_int16 hex)

-- A digit as `toString(16)` writes it.
unfoldable pub hex_digit : ℕ → ℕ
hex_digit d = if ltb d 10 then b'0' + d else b'a' + (d - 10)

-- The digits of `n`, most significant first, for fuel above `n`.
unfoldable pub hex_digits : ℕ → ℕ → Text
unfolding hex_digit
hex_digits zero n = []
hex_digits (suc f) n =
    let more = hex_digits f (n / 16) ++ hex_digit (n % 16) ∷ [] in
    if ltb n 16 then hex_digit n ∷ [] else more

-- `n.toString(16)`
unfoldable pub to_hex : ℕ → Text
unfolding hex_digits
to_hex n = hex_digits (suc n) n

unfoldable pub zeros : ℕ → Text
zeros zero = []
zeros (suc n) = b'0' ∷ zeros n

-- `s.padStart(4, '0')`
unfoldable pub pad_start4 : Text → Text
unfolding zeros
pad_start4 s = zeros (4 - length s) ++ s
