-- ===== src/Check/Duplicates.antt =====
-- `checkDuplicates` accepts a grammar exactly when its rules have distinct names.
use ebnf.Base.{
  has, has-append, has-concat_self, ◌≡◌, ◌≢◌, refl, ap, ◌↔◌, inl, inr, false, Bool-cases, List, [],
  ◌∷◌, ◌++◌, map, All, Text, text_eq_iff, arith,
}
use ebnf.Ir.{Production}
use ebnf.Error.{ok}
use ebnf.Check.{check_seen, check_duplicates}

-- No name stands twice in the list.
abbrev pub Distinct : List Text → Type 0
Distinct [] = Unit
Distinct (n ∷ ns) = All (λ m. n ≢ m) ns × Distinct ns

abbrev names : List Production → List Text
names prods = map (λ p. p.name) prods

-- None of the names is in the set.
abbrev Fresh : List Text → List Text → Type 0
Fresh seen ns = All (λ n. has n seen ≡ false) ns

Fresh-nil : (ns : List Text) → Fresh [] ns
unfolding has
Fresh-nil [] = tt
Fresh-nil (n ∷ ns) = (refl, Fresh-nil ns)

has-single : (n m : Text) → n ≢ m → has m (n ∷ []) ≡ false
unfolding has
has-single n m ne = ground (arith, text_eq_iff m n)

Fresh-concat :
    (seen : List Text) (n : Text) (ns : List Text)
    → Fresh seen ns
    → All (λ m. n ≢ m) ns
    → Fresh (seen ++ n ∷ []) ns
Fresh-concat seen n [] f d = tt
Fresh-concat seen n (m ∷ ns) f d =
    (rw (has-append m seen (n ∷ [])) (rw f.0 (has-single n m d.0)), Fresh-concat seen n ns f.1 d.1)

Fresh-concat_inv :
    (seen : List Text) (n : Text) (ns : List Text)
    → Fresh (seen ++ n ∷ []) ns
    → Fresh seen ns × All (λ m. n ≢ m) ns
Fresh-concat_inv seen n [] f = (tt, tt)
Fresh-concat_inv seen n (m ∷ ns) f =
    let (g, d) = Fresh-concat_inv seen n ns f.1 in
    (
      (ground (arith, has-append m seen (n ∷ []), f.0), g),
      (λ e. cc (f.0, ap (λ (k : Text). has k (seen ++ n ∷ [])) e, has-concat_self n seen), d),
    )

check_seen_iff :
    (seen : List Text) (prods : List Production)
    → (check_seen seen prods ≡ ok tt) ↔ (Fresh seen (names prods) × Distinct (names prods))
unfolding check_seen
check_seen_iff seen [] = (λ e. (tt, tt), λ h. refl)
check_seen_iff seen (p ∷ prods) = elim (Bool-cases (has p.name seen)) [
  | inl old ↦ (λ e. absurd (cc (rw old at e)), λ h. cc (old, h.0.0))
  | inr new ↦ (
    λ e.
        let (f, d) = (check_seen_iff (seen ++ p.name ∷ []) prods).0 (rw new at e) in
        let (g, ne) = Fresh-concat_inv seen p.name (names prods) f in ((new, g), (ne, d)),
    λ h. rw new (
        (check_seen_iff (seen ++ p.name ∷ []) prods).1
          (Fresh-concat seen p.name (names prods) h.0.1 h.1.0, h.1.1)),
  )
]

-- The check passes exactly when no two rules have one name.
pub check_duplicates_iff :
    (prods : List Production)
    → (check_duplicates prods ≡ ok tt) ↔ Distinct (map (λ p. p.name) prods)
unfolding check_duplicates
check_duplicates_iff prods = (
  λ e. ((check_seen_iff [] prods).0 e).1,
  λ d. (check_seen_iff [] prods).1 (Fresh-nil (names prods), d),
)
