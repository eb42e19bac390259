-- ===== src/Hex/RoundTrip.antt =====
-- Hexadecimal digits as they are written read back as the number.
use ebnf.Base.{
  ℕ, zero, suc, ◌+◌, ◌-◌, ◌*◌, ◌/◌, ◌%◌, ◌^◌, ◌<◌, ◌≤◌, ◌≡◌, refl, ap, ◌∙◌, true, Bool-cases, inl,
  inr, some, [], ◌∷◌, ◌++◌, ltb, arith, ltb→lt, lt→ltb, ltb-false, Text, All, All-append, length,
  length-append,
}
use native.Mathlib.Nat.{pow-suc}
use ebnf.Hex.{
  is_hex, hex_value, read_hex, parse_int16, hex_digit, hex_digits, to_hex, zeros, pad_start4,
}

length-append_text : (s t : Text) → length (s ++ t) ≡ length s + length t
length-append_text = length-append

pow_step : (k : ℕ) → 16 ^ suc (suc k) ≡ 16 * 16 ^ suc k
pow_step k = rw (pow-suc 16 (suc k)) (omega arith)

pub is_hex-hex_digit : (d : ℕ) → d < 16 → is_hex (hex_digit d) ≡ true
unfolding is_hex hex_digit
is_hex-hex_digit d h = ground arith

pub hex_value-hex_digit : (d : ℕ) → d < 16 → hex_value (hex_digit d) ≡ d
unfolding hex_value hex_digit
hex_value-hex_digit d h = ground arith

abbrev pub IsHex : Text → Type 0
IsHex s = All (λ c. is_hex c ≡ true) s

-- Reading goes through digits and on to what follows them.
pub read_hex-append :
    (s t : Text) (acc : ℕ) → IsHex s → read_hex acc (s ++ t) ≡ read_hex (read_hex acc s) t
unfolding read_hex
read_hex-append [] t acc h = refl
read_hex-append (c ∷ s) t acc h = rw h.0 (read_hex-append s t _ h.1)

read_hex-hex_digit : (d acc : ℕ) → d < 16 → read_hex acc (hex_digit d ∷ []) ≡ acc * 16 + d
unfolding read_hex
read_hex-hex_digit d acc h = rw (is_hex-hex_digit d h) (rw (hex_value-hex_digit d h))

hex_digits-IsHex : (f n : ℕ) → IsHex (hex_digits f n)
unfolding hex_digits
hex_digits-IsHex zero n = tt
hex_digits-IsHex (suc f) n = elim (Bool-cases (ltb n 16)) [
  | inl small ↦ rw small (is_hex-hex_digit n (ltb→lt n 16 small), tt)
  | inr large ↦ rw large (
      All-append (λ c. is_hex c ≡ true) (hex_digits f (n / 16)) _ (hex_digits-IsHex f (n / 16))
        (is_hex-hex_digit (n % 16) (omega arith), tt))
]

read_hex-hex_digits : (f n : ℕ) → n < f → read_hex 0 (hex_digits f n) ≡ n
unfolding hex_digits
read_hex-hex_digits zero n h = absurd (omega arith)
read_hex-hex_digits (suc f) n h = elim (Bool-cases (ltb n 16)) [
  | inl small ↦ rw small (read_hex-hex_digit n 0 (ltb→lt n 16 small) ∙ omega arith)
  | inr large ↦
      let big : 16 ≤ n = ltb-false n 16 large in
      rw large (
        read_hex-append (hex_digits f (n / 16)) _ 0 (hex_digits-IsHex f (n / 16))
        ∙ read_hex-hex_digit (n % 16) _ (omega arith)
        ∙ omega (arith, read_hex-hex_digits f (n / 16) (omega arith)))
]

-- A number has a digit.
hex_digits-cons : (f n : ℕ) → 0 < length (hex_digits (suc f) n)
unfolding hex_digits
hex_digits-cons f n =
    ground (arith, length-append_text (hex_digits f (n / 16)) (hex_digit (n % 16) ∷ []))

pub to_hex-IsHex : (n : ℕ) → IsHex (to_hex n)
unfolding to_hex
to_hex-IsHex n = hex_digits-IsHex (suc n) n

pub length-to_hex_pos : (n : ℕ) → 0 < length (to_hex n)
unfolding to_hex
length-to_hex_pos n = hex_digits-cons n n

pub read_hex-to_hex : (n : ℕ) → read_hex 0 (to_hex n) ≡ n
unfolding to_hex
read_hex-to_hex n = read_hex-hex_digits (suc n) n (omega arith)

-- Any text of digits is read whole.
pub parse_int16-IsHex : (s : Text) → IsHex s → 0 < length s → parse_int16 s ≡ some (read_hex 0 s)
unfolding parse_int16
parse_int16-IsHex [] h p = absurd (omega arith)
parse_int16-IsHex (c ∷ s) h p = rw h.0

-- A number written in hexadecimal is read back as that number.
pub parse_int16-to_hex : (n : ℕ) → parse_int16 (to_hex n) ≡ some n
parse_int16-to_hex n =
    parse_int16-IsHex (to_hex n) (to_hex-IsHex n) (length-to_hex_pos n)
    ∙ ap some (read_hex-to_hex n)

zeros-IsHex : (n : ℕ) → IsHex (zeros n)
unfolding zeros is_hex
zeros-IsHex zero = tt
zeros-IsHex (suc n) = (refl, zeros-IsHex n)

read_hex-zeros : (n : ℕ) → read_hex 0 (zeros n) ≡ 0
unfolding read_hex zeros
read_hex-zeros zero = refl
read_hex-zeros (suc n) = read_hex-zeros n

length-zeros : (n : ℕ) → length (zeros n) ≡ n
unfolding zeros
length-zeros zero = refl
length-zeros (suc n) = omega (arith, length-zeros n)

pub pad_start4-IsHex : (n : ℕ) → IsHex (pad_start4 (to_hex n))
unfolding pad_start4
pad_start4-IsHex n =
    All-append (λ c. is_hex c ≡ true) (zeros (4 - length (to_hex n))) (to_hex n) (zeros-IsHex _)
      (to_hex-IsHex n)

pub read_hex-pad_start4 : (n : ℕ) → read_hex 0 (pad_start4 (to_hex n)) ≡ n
unfolding pad_start4
read_hex-pad_start4 n =
    read_hex-append (zeros (4 - length (to_hex n))) (to_hex n) 0 (zeros-IsHex _)
    ∙ rw read_hex-zeros (read_hex-to_hex n)

-- At most `k` digits below 16^k.
length-hex_digits-le : (k f n : ℕ) → n < f → n < 16 ^ suc k → length (hex_digits f n) ≤ suc k
unfolding hex_digits
length-hex_digits-le k zero n h p = absurd (omega arith)
length-hex_digits-le zero (suc f) n h p = rw (lt→ltb n 16 (omega arith)) (omega arith)
length-hex_digits-le (suc k) (suc f) n h p = elim (Bool-cases (ltb n 16)) [
  | inl small ↦ rw small (omega arith)
  | inr large ↦
      let big : 16 ≤ n = ltb-false n 16 large in
      rw large (
        omega (
          arith,
          length-append_text (hex_digits f (n / 16)) (hex_digit (n % 16) ∷ []),
          length-hex_digits-le k f (n / 16) (omega arith) (omega (arith, pow_step k)),
        ))
]

-- A code unit is padded to four digits exactly.
pub length-pad_start4 : (n : ℕ) → n < 0x10000 → length (pad_start4 (to_hex n)) ≡ 4
unfolding pad_start4 to_hex
length-pad_start4 n h = omega (
  arith,
  length-append_text (zeros (4 - length (to_hex n))) (to_hex n),
  length-zeros (4 - length (to_hex n)),
  length-hex_digits-le 3 (suc n) n (omega arith) (omega arith),
)
