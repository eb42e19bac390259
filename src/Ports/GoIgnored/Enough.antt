-- ===== src/Ports/GoIgnored/Enough.antt =====
-- The fuel for the rest of a header line (tools/port-deps.cjs: the inner loop of `goIgnored`).
use ebnf.Base.{
  ℕ, zero, suc, ◌<◌, ◌≤◌, ◌≡◌, refl, ap, Bool, true, false, Option, none, some, [], ◌∷◌,
  if◌then◌else◌, length, length-append, drop, Text, codes, strip_prefix, strip_prefix-eq-some,
  arith,
}
use ebnf.Ports.Strings.{trim, trim_start, is_empty, has_prefix, after_first}
use ebnf.Ports.Strings.Lengths.{length-trim_start, length-trim_end}
use ebnf.Ports.GoIgnored.{is_blank, trim_line, scan_line}

length-trim_line : (s : Text) → length (trim_line s) ≤ length s
unfolding trim
length-trim_line s =
    omega (arith, length-trim_end is_blank (trim_start is_blank s), length-trim_start is_blank s)

-- What stands behind a part that is not empty is shorter.
abbrev Shorter : ℕ → Option Text → Type 0
Shorter n none = Unit
Shorter n (some rest) = length rest < n

strip_prefix-Shorter :
    (c : ℕ) (part s : Text) (o : Option Text) → strip_prefix (c ∷ part) s ≡ o → Shorter (length s) o
strip_prefix-Shorter c part s none e = tt
strip_prefix-Shorter c part s (some rest) e = omega (
  arith,
  ap (λ (t : Text). length t) (strip_prefix-eq-some (c ∷ part) s rest e),
  length-append (c ∷ part) rest,
)

Shorter-le : (n m : ℕ) (o : Option Text) → n ≤ m → Shorter n o → Shorter m o
Shorter-le n m none le h = tt
Shorter-le n m (some rest) le h = omega (arith, le, h)

either-Shorter :
    (n : ℕ) (o later : Option Text)
    → Shorter n o
    → Shorter n later
    → Shorter n (elim o [ none ↦ later | some rest ↦ some rest ])
either-Shorter n none later h k = k
either-Shorter n (some rest) later h k = h

after_first-Shorter : (c : ℕ) (part s : Text) → Shorter (length s) (after_first (c ∷ part) s)
unfolding after_first
after_first-Shorter c part [] = strip_prefix-Shorter c part [] _ refl
after_first-Shorter c part (d ∷ cs) =
    either-Shorter _ (strip_prefix (c ∷ part) (d ∷ cs)) _
      (strip_prefix-Shorter c part (d ∷ cs) _ refl)
      (Shorter-le (length cs) _ (after_first (c ∷ part) cs) (omega arith)
        (after_first-Shorter c part cs))

if-else {ℓ} :
    {A : Type ℓ} (b : Bool) (x y z : A)
    → (b ≡ false → y ≡ z)
    → (if b then x else y) ≡ (if b then x else z)
if-else true x y z h = refl
if-else false x y z h = h refl

if-then {ℓ} :
    {A : Type ℓ} (b : Bool) (x y z : A) → x ≡ y → (if b then x else z) ≡ (if b then y else z)
if-then true x y z h = h
if-then false x y z h = refl

length-drop2 : (s : Text) → is_empty s ≡ false → length (drop 2 s) < length s
unfolding is_empty
length-drop2 [] e = absurd cc
length-drop2 (c ∷ []) e = omega arith
length-drop2 (c ∷ d ∷ s) e = omega arith

behind-enough :
    (n : ℕ) (x y : Text → Option Bool) (o : Option Text)
    → Shorter n o
    → ((rest : Text) → length rest < n → x rest ≡ y rest)
    → (elim o as (λ _. Option Bool) [ none ↦ some true | some rest ↦ x rest ])
      ≡ (elim o as (λ _. Option Bool) [ none ↦ some true | some rest ↦ y rest ])
behind-enough n x y none h same = refl
behind-enough n x y (some rest) h same = same rest h

-- The loop over the rest of a header line gives the same with any fuel above the length of the line.
pub scan_line-enough :
    (f g : ℕ) (in_star : Bool) (line : Text)
    → length line < f
    → length line < g
    → scan_line f in_star line ≡ scan_line g in_star line
unfolding scan_line
scan_line-enough zero g in_star line h k = absurd (omega (arith, h))
scan_line-enough (suc f) zero in_star line h k = absurd (omega (arith, k))
scan_line-enough (suc f) (suc g) true line h k = if-else (is_empty line) _ _ _ (λ _.
    behind-enough (length line) (λ rest. scan_line f false (trim_line rest))
      (λ rest. scan_line g false (trim_line rest)) (after_first (codes "*/") line)
      (after_first-Shorter b'*' (codes "/") line)
      (λ rest s.
        scan_line-enough f g false (trim_line rest) (omega (arith, h, s, length-trim_line rest))
          (omega (arith, k, s, length-trim_line rest))))
scan_line-enough (suc f) (suc g) false line h k = if-else (is_empty line) _ _ _ (λ full.
    let shorter = length-drop2 line full in
    let trimmed = length-trim_line (drop 2 line) in
    if-else (has_prefix (codes "//") line) _ _ _ (λ _.
      if-then (has_prefix (codes "/*") line) _ _ _ (
        scan_line-enough f g true (trim_line (drop 2 line)) (omega (arith, h, shorter, trimmed))
          (omega (arith, k, shorter, trimmed)))))
