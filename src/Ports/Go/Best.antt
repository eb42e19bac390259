-- ===== src/Ports/Go/Best.antt =====
-- Which requirement of a go.mod file an import belongs to.
use ebnf.Base.{
  ℕ, ◌≤◌, ◌≡◌, ◌↔◌, refl, sym, ap, ◌∙◌, true, ◌++◌, append_assoc, text_eq, text_eq_iff,
  Option-cases, strip_prefix, strip_prefix-append, strip_prefix-eq-some, All-map, false, Bool-cases,
  inl, inr, ◌⊎◌, Option, none, some, List, [], ◌∷◌, ltb, length, Text, All, arith,
}
use ebnf.Ports.Strings.{has_prefix}
use ebnf.Ports.GoMod.{Require}
use ebnf.Ports.Go.{is_under, longer, best_from}

none-some {ℓ} : {A : Type ℓ} {x : A} → none ≡ some x → ⊥
none-some e = cc

abbrev pub Among : Require → List Require → Type 0
Among r [] = ⊥
Among r (x ∷ xs) = (r ≡ x) ⊎ Among r xs

-- The path is that of the module, or one below it.
abbrev pub IsUnder : Text → Text → Type 0
IsUnder top path = (path ≡ top) ⊎ ((rest : Text) × (path ≡ top ++ b'/' ∷ rest))

has_prefix_iff : (p path : Text) → (has_prefix p path ≡ true) ↔ ((rest : Text) × (path ≡ p ++ rest))
unfolding has_prefix
has_prefix_iff p path = elim (Option-cases (strip_prefix p path)) [
  | inl lost ↦
      rw (lost, has_prefix)
        (
          λ e. cc,
          λ h. absurd (none-some (sym lost ∙ ap (strip_prefix p) h.1 ∙ strip_prefix-append p h.0)),
        )
  | inr (rest, is) ↦
      rw (is, has_prefix) (λ _. (rest, strip_prefix-eq-some p path rest is), λ _. refl)
]

is_under_iff : (top path : Text) → (is_under top path ≡ true) ↔ IsUnder top path
unfolding is_under
is_under_iff top path =
    let slash = has_prefix_iff (top ++ b'/' ∷ []) path in
    elim (Bool-cases (text_eq path top)) [
      | inl same ↦ rw same (λ _. inl ((text_eq_iff path top).0 same), λ _. refl)
      | inr other ↦ rw other (
        λ e. let (rest, is) = slash.0 e in inr (rest, is ∙ append_assoc top (b'/' ∷ []) rest),
        λ h. elim h [
          | inl same ↦ absurd (cc (sym other ∙ (text_eq_iff path top).1 same))
          | inr (rest, is) ↦ slash.1 (rest, is ∙ sym (append_assoc top (b'/' ∷ []) rest))
        ],
      )
    ]

-- Every requirement of a list that the path is under has at most `n` units.
abbrev pub NoLonger : Text → ℕ → List Require → Type 0
NoLonger path n reqs = All (λ (r : Require). IsUnder r.path path → length r.path ≤ n) reqs

-- The path is under none of the requirements; or under one of them, and under no longer one.
abbrev pub Best : Text → List Require → Option Require → Type 0
Best path reqs none = All (λ (r : Require). ¬ IsUnder r.path path) reqs
Best path reqs (some best) =
    IsUnder best.path path × (Among best reqs × NoLonger path (length best.path) reqs)

-- The same for the test that the code makes.
abbrev TestedLonger : Text → ℕ → List Require → Type 0
TestedLonger path n reqs =
    All (λ (r : Require). is_under r.path path ≡ true → length r.path ≤ n) reqs

abbrev TestedBest : Text → List Require → Option Require → Type 0
TestedBest path reqs none = All (λ (r : Require). is_under r.path path ≡ false) reqs
TestedBest path reqs (some best) =
    (is_under best.path path ≡ true) × (Among best reqs × TestedLonger path (length best.path) reqs)

TestedBest-Best :
    (path : Text) (reqs : List Require) (o : Option Require)
    → TestedBest path reqs o
    → Best path reqs o
TestedBest-Best path reqs none h =
    All-map (λ (r : Require). is_under r.path path ≡ false) _ reqs
      (λ r away under. cc (sym away ∙ (is_under_iff r.path path).1 under)) h
TestedBest-Best path reqs (some best) h = (
  (is_under_iff best.path path).0 h.0,
  (
    h.1.0,
    All-map (λ (r : Require). is_under r.path path ≡ true → length r.path ≤ length best.path) _ reqs
        (λ r small under. small ((is_under_iff r.path path).1 under)) h.1.1,
  ),
)

-- The same, where one was found before.
abbrev After : Text → Require → List Require → Option Require → Type 0
After path found reqs none = ⊥
After path found reqs (some best) =
    (is_under best.path path ≡ true)
    × (((best ≡ found) ⊎ Among best reqs)
        × ((length found.path ≤ length best.path) × TestedLonger path (length best.path) reqs))

After-le :
    (path : Text) (old new : Require) (reqs : List Require) (o : Option Require)
    → length old.path ≤ length new.path
    → After path new reqs o
    → After path old (new ∷ reqs) o
After-le path old new reqs none le x = x
After-le path old new reqs (some best) le x =
    (x.0, (inr x.1.0, (omega (arith, le, x.1.1.0), (λ _. x.1.1.0, x.1.1.1))))

After-skip :
    (path : Text) (old new : Require) (reqs : List Require) (o : Option Require)
    → (is_under new.path path ≡ true → length new.path ≤ length old.path)
    → After path old reqs o
    → After path old (new ∷ reqs) o
After-skip path old new reqs none h x = x
After-skip path old new reqs (some best) h x = (
  x.0,
  (
    elim x.1.0 [ inl e ↦ inl e | inr m ↦ inr (inr m) ],
    (x.1.1.0, (λ u. omega (arith, h u, x.1.1.0), x.1.1.1)),
  ),
)

best_from-After :
    (path : Text) (found : Require) (reqs : List Require)
    → is_under found.path path ≡ true
    → After path found reqs (best_from path (some found) reqs)
unfolding best_from longer
best_from-After path found [] u = (u, (inl refl, (omega arith, tt)))
best_from-After path found (req ∷ reqs) u = elim (Bool-cases (is_under req.path path)) [
  | inr away ↦ rw away (
      After-skip path found req reqs _ (λ e. absurd (ground (arith, e, away)))
        (best_from-After path found reqs u))
  | inl under ↦ elim (Bool-cases (ltb (length found.path) (length req.path))) [
    | inl more ↦ rw under (
        rw more (
          After-le path found req reqs _ (ground (arith, more))
            (best_from-After path req reqs under)))
    | inr less ↦ rw under (
        rw less (
          After-skip path found req reqs _ (λ _. ground (arith, less))
            (best_from-After path found reqs u)))
  ]
]

After-TestedBest :
    (path : Text) (req : Require) (reqs : List Require) (o : Option Require)
    → After path req reqs o
    → TestedBest path (req ∷ reqs) o
After-TestedBest path req reqs none x = absurd x
After-TestedBest path req reqs (some best) x = (x.0, (x.1.0, (λ _. x.1.1.0, x.1.1.1)))

TestedBest-skip :
    (path : Text) (req : Require) (reqs : List Require) (o : Option Require)
    → is_under req.path path ≡ false
    → TestedBest path reqs o
    → TestedBest path (req ∷ reqs) o
TestedBest-skip path req reqs none away x = (away, x)
TestedBest-skip path req reqs (some best) away x =
    (x.0, (inr x.1.0, (λ e. absurd (ground (arith, e, away)), x.1.1)))

best_from-TestedBest :
    (path : Text) (reqs : List Require) → TestedBest path reqs (best_from path none reqs)
unfolding best_from longer
best_from-TestedBest path [] = tt
best_from-TestedBest path (req ∷ reqs) = elim (Bool-cases (is_under req.path path)) [
  | inl under ↦ rw under (After-TestedBest path req reqs _ (best_from-After path req reqs under))
  | inr away ↦ rw away (TestedBest-skip path req reqs _ away (best_from-TestedBest path reqs))
]

-- The requirement that an import is put to is one that its path is under, and the path is under no
-- requirement of the list that is longer; an import that is put to none is under none. A path is under that of a
-- module that it is, or that it continues behind a `/`.
pub best_from_lem : (path : Text) (reqs : List Require) → Best path reqs (best_from path none reqs)
best_from_lem path reqs =
    TestedBest-Best path reqs (best_from path none reqs) (best_from-TestedBest path reqs)
