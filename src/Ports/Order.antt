-- ===== src/Ports/Order.antt =====
-- The order of texts by UTF-16 code unit, and `uniq`: `[...new Set(list)].sort()`.
use ebnf.Base.{
  ◌≡◌, refl, Bool, true, false, ◌&&◌, ◌||◌, inl, inr, Bool-cases, List, [], ◌∷◌, ◌++◌, ltb, ◌==◌,
  if◌then◌else◌, Text, text_eq, text_eq_iff, has, has-append, All, arith, ◌∙◌,
}

unfoldable pub text_lt : Text → Text → Bool
text_lt s [] = false
text_lt [] (_ ∷ _) = true
text_lt (a ∷ s) (b ∷ t) = ltb a b || (a == b && text_lt s t)

pub text_lt_irrefl : (s : Text) → text_lt s s ≡ false
unfolding text_lt
text_lt_irrefl [] = refl
text_lt_irrefl (a ∷ s) = ground (arith, text_lt_irrefl s)

pub text_lt_trans : (s t u : Text) → text_lt s t ≡ true → text_lt t u ≡ true → text_lt s u ≡ true
unfolding text_lt
text_lt_trans s [] u p q = cc
text_lt_trans s (b ∷ t) [] p q = cc
text_lt_trans [] (b ∷ t) (c ∷ u) p q = refl
text_lt_trans (a ∷ s) (b ∷ t) (c ∷ u) p q = ground (arith, text_lt_trans s t u)

pub text_lt-total : (s t : Text) → text_lt s t ≡ false → text_eq s t ≡ false → text_lt t s ≡ true
unfolding text_lt text_eq
text_lt-total [] [] p q = cc
text_lt-total [] (b ∷ t) p q = cc
text_lt-total (a ∷ s) [] p q = refl
text_lt-total (a ∷ s) (b ∷ t) p q = ground (arith, text_lt-total s t)

-- Each member is below all that follow it.
abbrev pub IsAscending : List Text → Type 0
IsAscending [] = Unit
IsAscending (x ∷ xs) = All (λ y. text_lt x y ≡ true) xs × IsAscending xs

-- A member of a `Set` is added once.
unfoldable pub add : List Text → Text → List Text
unfolding has
add set x = if has x set then set else set ++ x ∷ []

unfoldable pub add_all : List Text → List Text → List Text
unfolding add
add_all set [] = set
add_all set (x ∷ xs) = add_all (add set x) xs

-- `sort()`, by insertion.
unfoldable pub insert : Text → List Text → List Text
unfolding text_lt
insert x [] = x ∷ []
insert x (y ∷ ys) = if text_lt y x then y ∷ insert x ys else x ∷ y ∷ ys

unfoldable pub sort : List Text → List Text
unfolding insert
sort [] = []
sort (x ∷ xs) = insert x (sort xs)

unfoldable pub uniq : List Text → List Text
unfolding sort add_all
uniq list = sort (add_all [] list)

has-insert : (n x : Text) (ys : List Text) → has n (insert x ys) ≡ (text_eq n x || has n ys)
unfolding insert has
has-insert n x [] = refl
has-insert n x (y ∷ ys) = ground (arith, has-insert n x ys)

pub has-sort : (n : Text) (xs : List Text) → has n (sort xs) ≡ has n xs
unfolding sort has
has-sort n [] = refl
has-sort n (x ∷ xs) = ground (arith, has-insert n x (sort xs), has-sort n xs)

has-add : (n x : Text) (set : List Text) → has n (add set x) ≡ (has n set || text_eq n x)
unfolding add has
has-add n x set = ground (arith, has-append n set (x ∷ []), text_eq_iff n x)

pub has-add_all : (n : Text) (set xs : List Text) → has n (add_all set xs) ≡ (has n set || has n xs)
unfolding add_all has
has-add_all n set [] = ground arith
has-add_all n set (x ∷ xs) = ground (arith, has-add_all n (add set x) xs, has-add n x set)

-- `uniq` has the members of its list.
pub has-uniq : (n : Text) (xs : List Text) → has n (uniq xs) ≡ has n xs
unfolding uniq has
has-uniq n xs = ground (arith, has-sort n (add_all [] xs), has-add_all n [] xs)

abbrev pub NoRepeats : List Text → Type 0
NoRepeats [] = Unit
NoRepeats (x ∷ xs) = (has x xs ≡ false) × NoRepeats xs

has-sym : (n x : Text) → has n (x ∷ []) ≡ has x (n ∷ [])
unfolding has
has-sym n x = ground (arith, text_eq_iff n x, text_eq_iff x n)

NoRepeats-concat :
    (set : List Text) (x : Text) → NoRepeats set → has x set ≡ false → NoRepeats (set ++ x ∷ [])
unfolding has
NoRepeats-concat [] x h e = (refl, tt)
NoRepeats-concat (y ∷ set) x h e = (
  ground (arith, has-append y set (x ∷ []), h.0, text_eq_iff x y, text_eq_iff y x),
  NoRepeats-concat set x h.1 (ground arith),
)

add-NoRepeats : (set : List Text) (x : Text) → NoRepeats set → NoRepeats (add set x)
unfolding add
add-NoRepeats set x h = elim (Bool-cases (has x set)) [
  | inl old ↦ rw old h
  | inr new ↦ rw new (NoRepeats-concat set x h new)
]

pub add_all-NoRepeats : (set xs : List Text) → NoRepeats set → NoRepeats (add_all set xs)
unfolding add_all
add_all-NoRepeats set [] h = h
add_all-NoRepeats set (x ∷ xs) h = add_all-NoRepeats (add set x) xs (add-NoRepeats set x h)

All-insert :
    (y x : Text) (ys : List Text)
    → text_lt y x ≡ true
    → All (λ z. text_lt y z ≡ true) ys
    → All (λ z. text_lt y z ≡ true) (insert x ys)
unfolding insert
All-insert y x [] p h = (p, tt)
All-insert y x (z ∷ ys) p h = elim (Bool-cases (text_lt z x)) [
  | inl below ↦ rw below (h.0, All-insert y x ys p h.1)
  | inr above ↦ rw above (p, h)
]

All-below :
    (x y : Text) (ys : List Text)
    → text_lt x y ≡ true
    → All (λ z. text_lt y z ≡ true) ys
    → All (λ z. text_lt x z ≡ true) ys
All-below x y [] p h = tt
All-below x y (z ∷ ys) p h = (text_lt_trans x y z p h.0, All-below x y ys p h.1)

insert-IsAscending :
    (x : Text) (ys : List Text) → has x ys ≡ false → IsAscending ys → IsAscending (insert x ys)
unfolding insert has
insert-IsAscending x [] e h = (tt, tt)
insert-IsAscending x (y ∷ ys) e h = elim (Bool-cases (text_lt y x)) [
  | inl below ↦ rw below (All-insert y x ys below h.0, insert-IsAscending x ys (ground arith) h.1)
  | inr above ↦
      let less : text_lt x y ≡ true =
        text_lt-total y x above (ground (arith, text_eq_iff x y, text_eq_iff y x)) in
      rw above ((less, All-below x y ys less h.0), h)
]

sort-IsAscending : (xs : List Text) → NoRepeats xs → IsAscending (sort xs)
unfolding sort
sort-IsAscending [] h = tt
sort-IsAscending (x ∷ xs) h =
    insert-IsAscending x (sort xs) (has-sort x xs ∙ h.0) (sort-IsAscending xs h.1)

-- `uniq` is in strictly ascending order, so it names nothing twice.
pub uniq-IsAscending : (xs : List Text) → IsAscending (uniq xs)
unfolding uniq
uniq-IsAscending xs = sort-IsAscending (add_all [] xs) (add_all-NoRepeats [] xs tt)
