-- ===== src/Rules/Dispatch.antt =====
-- Which alternate is taken at each lookahead. The engine chooses; of it only this is used, that it
-- takes the first alternate of the list whose places fit the tokens ahead and whose guard holds.
use ebnf.Base.{
  ℕ, ◌≡◌, refl, Bool, true, false, ◌&&◌, ◌||◌, not, Option, none, some, List, [], ◌∷◌, ◌==◌,
  if◌then◌else◌,
}
use ebnf.Rules.{
  Tin, def, defe, bar, lp, rp, star, plus, qm, ca, sc, os, cs, ob, cb, cc_, hx, sub, tx, st, zz,
  other, Place, one, defop, RuleName, seq, elem, Guard, always, Action, nothing, reject_empty,
  reject_comma, reject_special, reject_subtraction, reject_repetition, reject_bracket,
  reject_dangling, reject_unclosed, Alternate, seq_alts, open_alternates, close_alternates,
}

-- Which alternates of the table `first` keeps apart.
abbrev tin_code : Tin → ℕ
tin_code def = 0
tin_code defe = 1
tin_code bar = 2
tin_code lp = 3
tin_code rp = 4
tin_code star = 5
tin_code plus = 6
tin_code qm = 7
tin_code ca = 8
tin_code sc = 9
tin_code os = 10
tin_code cs = 11
tin_code ob = 12
tin_code cb = 13
tin_code cc_ = 14
tin_code hx = 15
tin_code sub = 16
tin_code tx = 17
tin_code st = 18
tin_code zz = 19
tin_code other = 20

abbrev pub fits_place : Place → Tin → Bool
fits_place (one k) t = tin_code k == tin_code t
fits_place defop def = true
fits_place defop defe = true
fits_place defop _ = false

abbrev pub fits : List Place → List Tin → Bool
fits [] ahead = true
fits (k ∷ places) [] = false
fits (k ∷ places) (t ∷ ahead) = fits_place k t && fits places ahead

-- The reading of a list of alternates that the engine promises.
abbrev pub first_match : (Guard → Bool) → List Alternate → List Tin → Option Alternate
first_match holds [] ahead = none
first_match holds (x ∷ xs) ahead =
    if fits x.s ahead && holds x.c then some x else first_match holds xs ahead

abbrev pub FirstMatch : ((Guard → Bool) → List Alternate → List Tin → Option Alternate) → Type 0
FirstMatch select =
    (holds : Guard → Bool) (xs : List Alternate) (ahead : List Tin)
    → select holds xs ahead ≡ first_match holds xs ahead

-- The alternate pushes this rule; it does nothing but end the rule.
abbrev is_elem : Option RuleName → Bool
is_elem (some elem) = true
is_elem _ = false

abbrev pub pushes_elem : Option Alternate → Bool
pushes_elem none = false
pushes_elem (some x) = is_elem x.p

abbrev no_action : Action → Bool
no_action nothing = true
no_action _ = false

abbrev no_rule : Option RuleName → Bool
no_rule none = true
no_rule (some _) = false

abbrev pub ends_rule : Option Alternate → Bool
ends_rule none = false
ends_rule (some x) = no_action x.a && no_rule x.p && no_rule x.r

-- The alternate's action throws one of the named errors.
abbrev is_reject : Action → Bool
is_reject reject_empty = true
is_reject reject_comma = true
is_reject reject_special = true
is_reject reject_subtraction = true
is_reject reject_repetition = true
is_reject reject_bracket = true
is_reject reject_dangling = true
is_reject reject_unclosed = true
is_reject _ = false

abbrev pub rejects : Option Alternate → Bool
rejects none = false
rejects (some x) = is_reject x.a

-- The named error that the alternate's action throws, if any.
abbrev pub rejection : Option Alternate → Option Action
rejection none = none
rejection (some x) = if is_reject x.a then some x.a else none

-- The error that names what stands where a sequence should open: its end, a comma, a construct of another
-- notation, a bracket that opens no class, or an operator without an operand.
abbrev pub opening_error : Tin → Tin → Option Action
opening_error tx def = some reject_empty
opening_error tx defe = some reject_empty
opening_error bar _ = some reject_empty
opening_error rp _ = some reject_empty
opening_error sc _ = some reject_empty
opening_error zz _ = some reject_empty
opening_error ca _ = some reject_comma
opening_error qm _ = some reject_special
opening_error sub _ = some reject_subtraction
opening_error ob _ = some reject_repetition
opening_error cb _ = some reject_repetition
opening_error os _ = some reject_bracket
opening_error cs _ = some reject_bracket
opening_error star _ = some reject_dangling
opening_error plus _ = some reject_dangling
opening_error _ _ = none

-- A token that begins an element: a terminal, a group, or a name that is not the head of the next
-- production.
abbrev pub starts_element : Tin → Tin → Bool
starts_element tx def = false
starts_element tx defe = false
starts_element tx _ = true
starts_element st _ = true
starts_element cc_ _ = true
starts_element hx _ = true
starts_element lp _ = true
starts_element _ _ = false

-- A token at which a sequence ends: `|`, `)`, `;`, the end of the source, the head of the next
-- production, or one that no alternate names.
abbrev pub ends_sequence : Tin → Tin → Bool
ends_sequence tx def = true
ends_sequence tx defe = true
ends_sequence bar _ = true
ends_sequence rp _ = true
ends_sequence sc _ = true
ends_sequence zz _ = true
ends_sequence def _ = true
ends_sequence defe _ = true
ends_sequence other _ = true
ends_sequence _ _ = false

abbrev pub is_comma : Tin → Bool
is_comma ca = true
is_comma _ = false

abbrev pub unnamed : Tin → Bool
unnamed def = true
unnamed defe = true
unnamed other = true
unnamed _ = false

module _ (holds : Guard → Bool) (always_holds : holds always ≡ true) where
  first_match-open :
      (t u : Tin) (ahead : List Tin)
      → let taken = first_match holds (seq_alts true) (t ∷ u ∷ ahead) in
        (pushes_elem taken ≡ starts_element t u)
        × (ends_rule taken ≡ unnamed t)
        × (rejection taken ≡ opening_error t u)
  unfolding seq_alts
  first_match-open tx def ahead = rw always_holds (refl, refl, refl)
  first_match-open tx defe ahead = rw always_holds (refl, refl, refl)
  first_match-open tx _ ahead = rw always_holds (refl, refl, refl)
  first_match-open _ u ahead = rw always_holds (refl, refl, refl)

  first_match-close :
      (t u : Tin) (ahead : List Tin)
      → let taken = first_match holds (seq_alts false) (t ∷ u ∷ ahead) in
        (pushes_elem taken ≡ (starts_element t u || is_comma t))
        × (ends_rule taken ≡ ends_sequence t u)
        × (rejects taken ≡ not (starts_element t u || is_comma t || ends_sequence t u))
  unfolding seq_alts
  first_match-close tx def ahead = rw always_holds (refl, refl, refl)
  first_match-close tx defe ahead = rw always_holds (refl, refl, refl)
  first_match-close tx _ ahead = rw always_holds (refl, refl, refl)
  first_match-close _ u ahead = rw always_holds (refl, refl, refl)

module _ (select : (Guard → Bool) → List Alternate → List Tin → Option Alternate) where
  -- Where a sequence opens, an element is read exactly at a terminal, a `(`, or a name that is not the
  -- head of a production; and the sequence ends with nothing in it only at a token that no alternate
  -- names. At the end of the alternative, a comma, a construct of another notation, a bracket that opens
  -- no class, or an operator without an operand, just the error with that name is thrown. The engine takes
  -- the first alternate that fits.
  pub seq_open-dispatch :
      FirstMatch select
      → (holds : Guard → Bool) → holds always ≡ true
      → (t u : Tin) (ahead : List Tin)
      → let taken = select holds (open_alternates seq) (t ∷ u ∷ ahead) in
        (pushes_elem taken ≡ starts_element t u)
        × (ends_rule taken ≡ unnamed t)
        × (rejection taken ≡ opening_error t u)
  unfolding open_alternates
  seq_open-dispatch first holds h t u ahead =
      rw (first holds (seq_alts true) (t ∷ u ∷ ahead)) (first_match-open holds h t u ahead)

  -- After an element a sequence goes on exactly at a comma or where an element can begin, and ends
  -- exactly at `|`, `)`, `;`, the end of the source, the head of the next production, or a token that
  -- no alternate names. At any other token it is rejected by name. The engine takes the first
  -- alternate that fits.
  pub seq_close-dispatch :
      FirstMatch select
      → (holds : Guard → Bool) → holds always ≡ true
      → (t u : Tin) (ahead : List Tin)
      → let taken = select holds (close_alternates seq) (t ∷ u ∷ ahead) in
        (pushes_elem taken ≡ (starts_element t u || is_comma t))
        × (ends_rule taken ≡ ends_sequence t u)
        × (rejects taken ≡ not (starts_element t u || is_comma t || ends_sequence t u))
  unfolding close_alternates
  seq_close-dispatch first holds h t u ahead =
      rw (first holds (seq_alts false) (t ∷ u ∷ ahead)) (first_match-close holds h t u ahead)
