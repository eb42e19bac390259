-- ===== src/Base/Sets.antt =====
-- A JavaScript `Set<string>` as the list of its members, in the order they were added.
use mathlib.Core.Path.{◌≡◌, refl, sym, ap}
use mathlib.Core.Bool.{Bool, true, false, ◌&&◌, ◌||◌}
use mathlib.Core.List.{List, [], ◌∷◌, ◌++◌}
use native.Mathlib.Omega.{arith}
use ebnf.Base.Lists.{Text, text_eq, text_eq_iff, filter}
use mathlib.Core.Logic.{inl, inr}
use ebnf.Base.Tests.{Bool-cases}

-- `set.has(name)`
unfoldable pub has : Text → List Text → Bool
unfolding text_eq
has name [] = false
has name (m ∷ ms) = text_eq name m || has name ms

pub has-append :
    (name : Text) (ms ns : List Text) → has name (ms ++ ns) ≡ (has name ms || has name ns)
unfolding has
has-append name [] ns = refl
has-append name (m ∷ ms) ns = ground (arith, has-append name ms ns)

pub text_eq_refl : (name : Text) → text_eq name name ≡ true
text_eq_refl name = (text_eq_iff name name).1 refl

pub has-concat_self : (name : Text) (ms : List Text) → has name (ms ++ name ∷ []) ≡ true
unfolding has
has-concat_self name ms = ground (arith, has-append name ms (name ∷ []), text_eq_refl name)

pub has-concat_inv :
    (name n : Text) (ms : List Text)
    → has name (ms ++ n ∷ []) ≡ true
    → has name ms ≡ false
    → n ≡ name
unfolding has
has-concat_inv name n ms e new =
    sym ((text_eq_iff name n).0 (ground (arith, has-append name ms (n ∷ []))))

pub has-filter :
    (name : Text) (p : Text → Bool) (ms : List Text)
    → has name (filter p ms) ≡ (has name ms && p name)
unfolding has
has-filter name p [] = refl
has-filter name p (m ∷ ms) = elim (Bool-cases (text_eq name m)) [
  | inl same ↦
      let e : name ≡ m = (text_eq_iff name m).0 same in
      ground (arith, ap p e, same, has-filter name p ms)
  | inr other ↦ ground (arith, other, has-filter name p ms)
]
