-- ===== src/Vale/Claims/Covered.antt =====
-- The units that a match of a count covers, in which no other begins (ts/scripts/vale-counts.cjs: `HITS`).
use ebnf.Base.{
  ℕ, zero, suc, ◌+◌, ◌-◌, ◌≡◌, refl, sym, ap, ◌∙◌, subst, Bool, true, false, not, ◌&&◌, Option,
  none, some, [], ◌∷◌, ◌++◌, append_assoc, length, length-append, drop, starts_with, all, is_space,
  Text, codes, strip_prefix, strip_prefix-eq-some, Bool-cases, inl, inr, ◌⊎◌, arith,
}
use ebnf.Ports.Toml.{run_of}
use ebnf.Vale.Claims.{is_decimal, is_word_unit, is_apart, hit_end, hit_behind, hit_at}

pub space_is_no_digit : (c : ℕ) → is_space c ≡ true → is_decimal c ≡ false
space_is_no_digit c h = ground (arith, h)

digit_is_word : (c : ℕ) → is_decimal c ≡ true → is_word_unit c ≡ true
unfolding is_word_unit
digit_is_word c h = ground (arith, h)

-- In the next units no match begins: each is no digit, or is behind a unit of a word.
abbrev pub Clean : Bool → ℕ → Text → Type 0
Clean in_word zero text = Unit {0}
Clean in_word (suc k) [] = Unit {0}
Clean in_word (suc k) (c ∷ cs) =
    ((in_word ≡ true) ⊎ (is_decimal c ≡ false)) × Clean (is_word_unit c) k cs

abbrev CleanText : Bool → Text → Type 0
CleanText in_word [] = Unit {0}
CleanText in_word (c ∷ cs) =
    ((in_word ≡ true) ⊎ (is_decimal c ≡ false)) × CleanText (is_word_unit c) cs

CleanText-Clean :
    (in_word : Bool) (front back : Text)
    → CleanText in_word front
    → Clean in_word (length front) (front ++ back)
CleanText-Clean in_word [] back h = tt
CleanText-Clean in_word (c ∷ front) back h = (h.0, CleanText-Clean (is_word_unit c) front back h.1)

others-CleanText :
    (in_word : Bool) (others : Text)
    → all (λ c. not (is_decimal c)) others ≡ true
    → CleanText in_word others
others-CleanText in_word [] h = tt
others-CleanText in_word (c ∷ others) h =
    (inr (ground (arith, h)), others-CleanText (is_word_unit c) others (ground (arith, h)))

digits-CleanText :
    (in_word : Bool) (digits others : Text)
    → all is_decimal digits ≡ true
    → all (λ c. not (is_decimal c)) others ≡ true
    → in_word ≡ true
    → CleanText in_word (digits ++ others)
digits-CleanText in_word [] others h o w = others-CleanText in_word others o
digits-CleanText in_word (c ∷ digits) others h o w = (
  inl w,
  digits-CleanText (is_word_unit c) digits others (ground (arith, h)) o
      (digit_is_word c (ground (arith, h))),
)

pub covers_run :
    (d : ℕ) (ds others back : Text) (len : ℕ)
    → all is_decimal (d ∷ ds) ≡ true
    → all (λ c. not (is_decimal c)) others ≡ true
    → len ≡ suc (length ds + length others)
    → Clean (is_word_unit d) (len - 1) (ds ++ (others ++ back))
covers_run d ds others back len h o l =
    let clean : CleanText (is_word_unit d) (ds ++ others) =
      digits-CleanText (is_word_unit d) ds others (ground (arith, h)) o
        (digit_is_word d (ground (arith, h))) in
    let long : length (ds ++ others) ≡ len - 1 = omega (arith, l, length-append ds others) in
    subst (λ t. Clean (is_word_unit d) (len - 1) t) (append_assoc ds others back)
      (subst (λ k. Clean (is_word_unit d) k ((ds ++ others) ++ back)) long
        (CleanText-Clean (is_word_unit d) (ds ++ others) back clean))

pub all-append :
    (test : ℕ → Bool) (xs ys : Text)
    → all test xs ≡ true
    → all test ys ≡ true
    → all test (xs ++ ys) ≡ true
all-append test [] ys h k = k
all-append test (x ∷ xs) ys h k = ground (arith, h, all-append test xs ys (ground (arith, h)) k)

all-other :
    (p q : ℕ → Bool) (xs : Text)
    → ((c : ℕ) → p c ≡ true → q c ≡ true)
    → all p xs ≡ true
    → all q xs ≡ true
all-other p q [] f h = refl
all-other p q (c ∷ xs) f h =
    let here : q c ≡ true = f c (ground (arith, h)) in
    let more : all q xs ≡ true = all-other p q xs f (ground (arith, h)) in
    ground (arith, here, more)

not_digit : (c : ℕ) → is_space c ≡ true → not (is_decimal c) ≡ true
not_digit c h = ap not (space_is_no_digit c h)

spaces_are_no_digits :
    (ss : Text) → all is_space ss ≡ true → all (λ c. not (is_decimal c)) ss ≡ true
spaces_are_no_digits ss h = all-other is_space (λ c. not (is_decimal c)) ss not_digit h

run_of-split :
    (test : ℕ → Bool) (text : Text)
    → (all test (run_of test text) ≡ true)
      × (text ≡ run_of test text ++ drop (length (run_of test text)) text)
unfolding run_of
run_of-split test [] = (refl, refl)
run_of-split test (c ∷ cs) = elim (Bool-cases (test c)) [
  | inr other ↦ rw other (refl, refl)
  | inl here ↦
      let more = run_of-split test cs in rw here (ground (arith, here, more.0), ap (◌∷◌ c) more.1)
]

-- A match covers its digits, and then units that are none.
abbrev pub IsCovered : Text → Option (Text × ℕ) → Type 0
IsCovered text none = Unit {0}
IsCovered text (some (digits, len)) =
    (d : ℕ) × (ds : Text) × (others : Text) × (back : Text) × (text ≡ d ∷ ds ++ (others ++ back))
    × (all is_decimal (d ∷ ds) ≡ true)
    × (all (λ c. not (is_decimal c)) others ≡ true)
    × (len ≡ suc (length ds + length others))

abbrev others_than : Text → Bool
others_than text = all (λ c. not (is_decimal c)) text

ending-IsCovered :
    (text : Text) (d : ℕ) (ds ss ending back : Text) (n : ℕ)
    → text ≡ d ∷ ds ++ (ss ++ (ending ++ back))
    → all is_decimal (d ∷ ds) ≡ true
    → all is_space ss ≡ true
    → others_than ending ≡ true
    → length ending ≡ n
    → IsCovered text (some (d ∷ ds, length (d ∷ ds) + length ss + n))
ending-IsCovered text d ds ss ending back n is h g o l = (
  d,
  ds,
  ss ++ ending,
  back,
  is ∙ ap (λ t. d ∷ ds ++ t) (sym (append_assoc ss ending back)),
  h,
  all-append (λ c. not (is_decimal c)) ss ending (spaces_are_no_digits ss g) o,
  omega (arith, l, length-append ss ending),
)

starts-cons : (c : ℕ) (text : Text) → starts_with c text ≡ true → text ≡ c ∷ drop 1 text
starts-cons c [] e = absurd cc
starts-cons c (d ∷ text) e = ap (λ k. k ∷ text) (ground (arith, e))

hit_end-IsCovered :
    (text : Text) (d : ℕ) (ds ss rest : Text)
    → text ≡ d ∷ ds ++ (ss ++ (codes "hit" ++ rest))
    → all is_decimal (d ∷ ds) ≡ true
    → all is_space ss ≡ true
    → IsCovered text (hit_end (d ∷ ds) (length (d ∷ ds) + length ss) rest)
unfolding hit_end
hit_end-IsCovered text d ds ss rest is h g =
    elim (Bool-cases (starts_with b's' rest && is_apart (drop 1 rest))) [
      | inl many ↦ rw many (
          ending-IsCovered text d ds ss (codes "hits") (drop 1 rest) 4
            (is
              ∙ ap (λ t. d ∷ ds ++ (ss ++ (codes "hit" ++ t)))
                  (starts-cons b's' rest (ground (arith, many))))
            h g refl refl)
      | inr one ↦ elim (Bool-cases (is_apart rest)) [
        | inl apart ↦
            rw one (rw apart (ending-IsCovered text d ds ss (codes "hit") rest 3 is h g refl refl))
        | inr joined ↦ rw one (rw joined tt)
      ]
    ]

hit_behind-IsCovered :
    (text digits spaces : Text) (rest : Option Text)
    → ((r : Text) → rest ≡ some r → text ≡ digits ++ (spaces ++ (codes "hit" ++ r)))
    → all is_decimal digits ≡ true
    → all is_space spaces ≡ true
    → IsCovered text (hit_behind digits spaces rest)
unfolding hit_behind
hit_behind-IsCovered text [] spaces rest is h g = tt
hit_behind-IsCovered text (d ∷ ds) [] rest is h g = tt
hit_behind-IsCovered text (d ∷ ds) (s ∷ ss) none is h g = tt
hit_behind-IsCovered text (d ∷ ds) (s ∷ ss) (some r) is h g =
    hit_end-IsCovered text d ds (s ∷ ss) r (is r refl) h g

pub hit_at-IsCovered : (text : Text) → IsCovered text (hit_at text)
unfolding hit_at
hit_at-IsCovered text =
    let digits = run_of is_decimal text in
    let rest = drop (length digits) text in
    let spaces = run_of is_space rest in
    let one = run_of-split is_decimal text in
    let two = run_of-split is_space rest in
    hit_behind-IsCovered text digits spaces (strip_prefix (codes "hit") (drop (length spaces) rest))
      (λ r e.
        one.1
        ∙ ap (λ t. digits ++ t)
            (two.1 ∙ ap (λ t. spaces ++ t) (strip_prefix-eq-some (codes "hit") _ r e)))
      one.0 two.0
