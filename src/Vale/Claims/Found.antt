-- ===== src/Vale/Claims/Found.antt =====
-- Every count that the comments claim is found (ts/scripts/vale-counts.cjs: `HITS`, `matchAll`).
use ebnf.Base.{
  ℕ, zero, suc, ◌+◌, ◌-◌, ◌≡◌, ◌≢◌, refl, ap, ◌∙◌, subst, Bool, true, false, ◌&&◌, Option, none,
  some, List, [], ◌∷◌, ◌++◌, length, drop, drop-length_append, starts_with, all, is_space, Text,
  codes, strip_prefix, strip_prefix-append, Bool-cases, inl, inr, ◌⊎◌, arith,
}
use ebnf.Ports.Toml.{run_of}
use ebnf.Vale.Claims.{
  is_decimal, is_word_unit, is_apart, hit_end, hit_behind, hit_at, Claim, with_hit, hits_from,
}
use ebnf.Vale.Claims.Covered.{space_is_no_digit, Clean, covers_run, IsCovered, hit_at-IsCovered}

abbrev pub IsIn : {A : Type 0} → A → List A → Type 0
IsIn x [] = ⊥
IsIn x (y ∷ ys) = (x ≡ y) ⊎ IsIn x ys

-- The text before a match ends with no unit of a word.
abbrev pub EndsApart : Bool → Text → Type 0
EndsApart in_word [] = in_word ≡ false
EndsApart in_word (c ∷ front) = EndsApart (is_word_unit c) front

-- A count as it is written: digits, white space, and `hit` or `hits`, behind which no word goes on.
pub record IsCount (digits spaces ending back : Text) : Type 0 where
  pub some_digit : digits ≢ []
  pub are_digits : all is_decimal digits ≡ true
  pub some_space : spaces ≢ []
  pub are_spaces : all is_space spaces ≡ true
  pub hit_or_hits : (ending ≡ codes "hit") ⊎ (ending ≡ codes "hits")
  pub ends : is_apart back ≡ true

run_of-append :
    (test : ℕ → Bool) (run : Text) (d : ℕ) (rest : Text)
    → all test run ≡ true
    → test d ≡ false
    → run_of test (run ++ d ∷ rest) ≡ run
unfolding run_of
run_of-append test [] d rest h e = rw e refl
run_of-append test (c ∷ run) d rest h e =
    let here : test c ≡ true = ground (arith, h) in
    rw here (ap (◌∷◌ c) (run_of-append test run d rest (ground (arith, h)) e))

-- A count is matched where it begins.
hit_end-apart :
    (digits : Text) (len : ℕ) (back : Text)
    → is_apart back ≡ true
    → (n : ℕ) × (hit_end digits len back ≡ some (digits, n))
unfolding hit_end
hit_end-apart digits len back apart =
    elim (Bool-cases (starts_with b's' back && is_apart (drop 1 back))) [
      | inl many ↦ (len + 4, rw many refl)
      | inr one ↦ (len + 3, rw one (rw apart refl))
    ]

hit_end-s :
    (digits : Text) (len : ℕ) (back : Text)
    → is_apart back ≡ true
    → (n : ℕ) × (hit_end digits len (b's' ∷ back) ≡ some (digits, n))
unfolding hit_end
hit_end-s digits len back apart = (len + 4, rw apart refl)

hit_behind-hit :
    (d : ℕ) (ds : Text) (s : ℕ) (ss ending back : Text)
    → (ending ≡ codes "hit") ⊎ (ending ≡ codes "hits")
    → is_apart back ≡ true
    → (n : ℕ) × (hit_behind (d ∷ ds) (s ∷ ss) (strip_prefix (codes "hit") (ending ++ back))
        ≡ some (d ∷ ds, n))
unfolding hit_behind
hit_behind-hit d ds s ss ending back (inl e) apart =
    let (n, is) = hit_end-apart (d ∷ ds) (length (d ∷ ds) + length (s ∷ ss)) back apart in
    (n, rw e (rw (strip_prefix-append (codes "hit") back) is))
hit_behind-hit d ds s ss ending back (inr e) apart =
    let (n, is) = hit_end-s (d ∷ ds) (length (d ∷ ds) + length (s ∷ ss)) back apart in
    (n, rw e (rw (strip_prefix-append (codes "hit") (b's' ∷ back)) is))

no_space_in_front :
    (ss ending back : Text)
    → (ending ≡ codes "hit") ⊎ (ending ≡ codes "hits")
    → all is_space ss ≡ true
    → run_of is_space (ss ++ (ending ++ back)) ≡ ss
no_space_in_front ss ending back (inl e) h =
    rw e (run_of-append is_space ss b'h' (codes "it" ++ back) h refl)
no_space_in_front ss ending back (inr e) h =
    rw e (run_of-append is_space ss b'h' (codes "its" ++ back) h refl)

IsCount-hit_at :
    (digits spaces ending back : Text)
    → IsCount digits spaces ending back
    → (n : ℕ) × (hit_at (digits ++ (spaces ++ (ending ++ back))) ≡ some (digits, n))
unfolding hit_at
IsCount-hit_at [] spaces ending back h = absurd (h.some_digit refl)
IsCount-hit_at (d ∷ ds) [] ending back h = absurd (h.some_space refl)
IsCount-hit_at (d ∷ ds) (s ∷ ss) ending back h =
    let space : is_space s ≡ true = ground (arith, h.are_spaces) in
    let (n, is) = hit_behind-hit d ds s ss ending back h.hit_or_hits h.ends in
    (
      n,
      rw
          (run_of-append is_decimal (d ∷ ds) s (ss ++ (ending ++ back)) h.are_digits
            (space_is_no_digit s space))
          (rw (drop-length_append (d ∷ ds) (s ∷ ss ++ (ending ++ back))) (
            rw (no_space_in_front (s ∷ ss) ending back h.hit_or_hits h.are_spaces)
              (rw (drop-length_append (s ∷ ss) (ending ++ back)) is))),
    )

with_hit-IsIn :
    (w : Claim) (c : ℕ) (cs : Text) (hit : Option (Text × ℕ)) (index : ℕ) (further : ℕ → List Claim)
    → IsCovered (c ∷ cs) hit
    → ((k : ℕ) → Clean (is_word_unit c) k cs → IsIn w (further k))
    → IsIn w (with_hit hit index further)
unfolding with_hit
with_hit-IsIn w c cs none index further h more = more 0 tt
with_hit-IsIn w c cs (some (digits, len)) index further (d, ds, others, back, is, g, o, l) more =
    let same : c ≡ d = cc is in
    let rest : cs ≡ ds ++ (others ++ back) = ap (drop 1) is in
    inr (more (len - 1) (rw same (rw rest (covers_run d ds others back len g o l))))

first_digit :
    (digits more : Text)
    → digits ≢ []
    → all is_decimal digits ≡ true
    → (d : ℕ) × (rest : Text) × (digits ++ more ≡ d ∷ rest) × (is_decimal d ≡ true)
first_digit [] more some_digit h = absurd (some_digit refl)
first_digit (d ∷ digits) more some_digit h = (d, digits ++ more, refl, ground (arith, h))

module _ (digits spaces ending back : Text) (count : IsCount digits spaces ending back) where
  -- The digits and what is behind them.
  abbrev counted : Text
  counted = digits ++ (spaces ++ (ending ++ back))

  found_here :
      (text : Text) (skip index : ℕ)
      → text ≡ counted
      → Clean false skip text
      → IsIn (record { index = index; digits = digits }) (hits_from skip false index text)
  unfolding hits_from with_hit
  found_here [] skip index e clean =
      let (d, rest, begins, digit) =
        first_digit digits (spaces ++ (ending ++ back)) count.some_digit count.are_digits in
      cc (e ∙ begins)
  found_here (c ∷ cs) zero index e clean =
      let (n, is) = IsCount-hit_at digits spaces ending back count in
      rw (ap hit_at e ∙ is) (inl refl)
  found_here (c ∷ cs) (suc k) index e clean =
      let (d, rest, begins, digit) =
        first_digit digits (spaces ++ (ending ++ back)) count.some_digit count.are_digits in
      let same : c ≡ d = cc (e ∙ begins) in
      elim clean.0 [
        | inl within ↦ absurd (cc within)
        | inr other ↦ absurd (cc (other, digit, same))
      ]

  pub hits_from-IsIn :
      (front : Text) (skip : ℕ) (in_word : Bool) (index : ℕ)
      → Clean in_word skip (front ++ counted)
      → EndsApart in_word front
      → IsIn
          (record { index = index + length front; digits = digits })
          (hits_from skip in_word index (front ++ counted))
  unfolding hits_from
  hits_from-IsIn [] skip in_word index clean apart =
      let at : index ≡ index + 0 = omega arith in
      subst
        (λ n. IsIn (record { index = n; digits = digits }) (hits_from skip in_word index counted))
        at (rw apart (found_here counted skip index refl (rw apart at clean)))
  hits_from-IsIn (c ∷ front) (suc k) in_word index clean apart =
      let at : suc index + length front ≡ index + suc (length front) = omega arith in
      subst
        (λ n.
          IsIn (record { index = n; digits = digits })
            (hits_from k (is_word_unit c) (suc index) (front ++ counted)))
        at (hits_from-IsIn front k (is_word_unit c) (suc index) clean.1 apart)
  hits_from-IsIn (c ∷ front) zero in_word index clean apart =
      let w : Claim = record { index = index + suc (length front); digits = digits } in
      let at : suc index + length front ≡ index + suc (length front) = omega arith in
      let further : ℕ → List Claim =
        λ k. hits_from k (is_word_unit c) (suc index) (front ++ counted) in
      let more : (k : ℕ) → Clean (is_word_unit c) k (front ++ counted) → IsIn w (further k) =
        λ k clean.
          subst (λ n. IsIn (record { index = n; digits = digits }) (further k)) at
            (hits_from-IsIn front k (is_word_unit c) (suc index) clean apart) in
      elim (Bool-cases in_word) [
        | inl within ↦ rw within (with_hit-IsIn w c (front ++ counted) none index further tt more)
        | inr outside ↦ rw outside (
            with_hit-IsIn w c (front ++ counted) (hit_at (c ∷ (front ++ counted))) index further
              (hit_at-IsCovered (c ∷ (front ++ counted))) more)
      ]
