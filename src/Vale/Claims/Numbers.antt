-- ===== src/Vale/Claims/Numbers.antt =====
-- Numbers as they are written and read (ts/scripts/vale-counts.cjs: `String` and `Number`).
use ebnf.Base.{
  ℕ, zero, suc, ◌+◌, ◌-◌, ◌*◌, ◌/◌, ◌%◌, ◌<◌, ◌≡◌, ◌∙◌, [], ◌∷◌, ◌++◌, ltb, Text, Bool-cases, inl,
  inr, arith,
}
use ebnf.Vale.Claims.{number_of, decimal}

number_of-append :
    (n : ℕ) (s : Text) (d : ℕ) → number_of n (s ++ (b'0' + d) ∷ []) ≡ 10 * number_of n s + d
unfolding number_of
number_of-append n [] d = omega arith
number_of-append n (c ∷ s) d = number_of-append (10 * n + (c - b'0')) s d

-- A number is read back from its digits, where the fuel is above it.
pub number_of-decimal : (f n : ℕ) → n < f → number_of 0 (decimal f n) ≡ n
unfolding decimal number_of
number_of-decimal zero n l = absurd (omega (arith, l))
number_of-decimal (suc f) n l = elim (Bool-cases (ltb n 10)) [
  | inl one ↦
      let small : n < 10 = ground (arith, one) in
      rw one (number_of-append 0 [] (n % 10) ∙ omega (arith, small))
  | inr more ↦
      let large : 9 < n = ground (arith, more) in
      let ih = number_of-decimal f (n / 10) (omega (arith, l, large)) in
      rw more (number_of-append 0 (decimal f (n / 10)) (n % 10) ∙ omega (arith, ih))
]
