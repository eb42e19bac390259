-- ===== src/CharClass/Pattern.antt =====
-- A reader of regular expression classes as JavaScript reads them, for the text that
-- `parseCharClass` writes: `\uXXXX` escapes, `\u{…}` escapes under the `u` flag, and ranges. Under
-- that flag two `\uXXXX` escapes that name a surrogate pair are one code point.
pub mod Escapes
pub mod Printed
pub mod Surrogates
use ebnf.Base.{
  ℕ, zero, suc, ◌+◌, ◌-◌, ◌*◌, Bool, true, false, ◌&&◌, Option, none, some, List, [], ◌∷◌, ◌==◌,
  if◌then◌else◌, within, Text, length, drop, take, all, starts_with,
}
use ebnf.Hex.{is_hex, read_hex}
use ebnf.CharClass.{Part, hex_run}

infixl 5 ◌>>=◌
abbrev ◌>>=◌ {ℓ κ} : {A : Type ℓ} {B : Type κ} → Option A → (A → Option B) → Option B
none >>= f = none
some a >>= f = f a

-- `\uXXXX`
pub read_escape4 : Text → Option (ℕ × Text)
unfolding is_hex read_hex
read_escape4 s =
    if starts_with b'\\' s
      && starts_with b'u' (drop 1 s)
      && length (take 4 (drop 2 s)) == 4
      && all is_hex (take 4 (drop 2 s))
    then some (read_hex 0 (take 4 (drop 2 s)), drop 6 s)
    else none

-- `\u{…}`
pub read_braced : Text → Option (ℕ × Text)
unfolding hex_run read_hex
read_braced s =
    let digits = hex_run (drop 3 s) in
    let rest = drop (length digits) (drop 3 s) in
    if starts_with b'\\' s
      && starts_with b'u' (drop 1 s)
      && starts_with b'{' (drop 2 s)
      && starts_with b'}' rest
    then some (read_hex 0 digits, drop 1 rest)
    else none

abbrev pub is_lead : ℕ → Bool
is_lead n = within 0xD800 0xDBFF n

abbrev pub is_trail : ℕ → Bool
is_trail n = within 0xDC00 0xDFFF n

abbrev pub pair_value : ℕ → ℕ → ℕ
pair_value h l = 0x10000 + (h - 0xD800) * 0x400 + (l - 0xDC00)

abbrev pub join_trail : ℕ → Text → Option (ℕ × Text) → Option (ℕ × Text)
join_trail h rest none = some (h, rest)
join_trail h rest (some (l, rest')) =
    if is_trail l then some (pair_value h l, rest') else some (h, rest)

abbrev pub join_lead : Text → ℕ → Text → Option (ℕ × Text)
join_lead s h rest = if is_lead h then join_trail h rest (read_escape4 rest) else some (h, rest)

-- One class atom; the flag says whether the `u` flag is set.
pub read_atom : Bool → Text → Option (ℕ × Text)
unfolding read_escape4 read_braced
read_atom false s = read_escape4 s
read_atom true s =
    if starts_with b'{' (drop 2 s)
    then read_braced s
    else (read_escape4 s >>= λ (h, rest). join_lead s h rest)

-- The ranges up to the closing bracket, for fuel above the length of the text.
pub read_parts : ℕ → Bool → Text → Option (List Part)
unfolding read_atom
read_parts zero u s = none
read_parts (suc f) u s =
    let more = read_atom u s >>= λ (lo, r).
    (if starts_with b'-' r
      then (read_atom u (drop 1 r) >>= λ (hi, r').
          read_parts f u r' >>= λ parts. some (record { lo = lo; hi = hi } ∷ parts))
      else (read_parts f u r >>= λ parts. some (record { lo = lo; hi = lo } ∷ parts))) in
    if starts_with b']' s && length s == 1 then some [] else more

-- A whole class with its flags: is it negated, and its ranges.
pub read_class : Text → Text → Option (Bool × List Part)
unfolding read_parts
read_class pattern flags =
    let negated = starts_with b'^' (drop 1 pattern) in
    let body = drop (if negated then 2 else 1) pattern in
    if starts_with b'[' pattern
    then (read_parts (length body) (starts_with b'u' flags) body >>= λ parts. some (negated, parts))
    else none

-- Does the code point lie in one of the ranges?
abbrev pub member : List Part → ℕ → Bool
member [] c = false
member (p ∷ parts) c = if within p.lo p.hi c then true else member parts c
