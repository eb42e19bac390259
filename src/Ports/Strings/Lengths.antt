-- ===== src/Ports/Strings/Lengths.antt =====
-- How long a text is after a part of it has been taken off.
use ebnf.Base.{ℕ, zero, suc, ◌≤◌, Bool, [], ◌∷◌, length, drop, Text, arith}
use ebnf.Ports.Strings.{trim_start, trim_end}

pub length-trim_start : (test : ℕ → Bool) (s : Text) → length (trim_start test s) ≤ length s
unfolding trim_start
length-trim_start test [] = omega arith
length-trim_start test (c ∷ cs) = ground (arith, length-trim_start test cs)

pub length-trim_end : (test : ℕ → Bool) (s : Text) → length (trim_end test s) ≤ length s
unfolding trim_end
length-trim_end test [] = omega arith
length-trim_end test (c ∷ cs) = ground (arith, length-trim_end test cs)

pub length-drop-le : (n : ℕ) (s : Text) → length (drop n s) ≤ length s
length-drop-le zero s = omega arith
length-drop-le (suc n) [] = omega arith
length-drop-le (suc n) (c ∷ s) = omega (arith, length-drop-le n s)
