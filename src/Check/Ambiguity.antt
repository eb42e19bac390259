-- ===== src/Check/Ambiguity.antt =====
-- `checkNullableAlts` accepts a grammar exactly when no choice has two alternatives that derive the
-- empty text.
use ebnf.Base.{
  ℕ, suc, ◌<◌, ◌≤◌, ◌≡◌, refl, ◌↔◌, ◌⊎◌, inl, inr, true, false, Bool-cases, List, [], ◌∷◌, All,
  Text, arith,
}
use native.Mathlib.Decide.{dec_lt}
use ebnf.Ir.{
  Element, term, regex, ref, group, opt, star, plus, rep, token, prose, Sequence, nil, cons, Alts,
  no_alts, alt, Production,
}
use ebnf.Error.{Reason, Result, ok, err, ◌>>◌, ambiguous_rule, ambiguous_group}
use ebnf.Nullable.{alt_derives_empty, nullable_rules}
use ebnf.Nullable.Complete.{NoRep, NoRepSequence, NoRepAlts, alt_derives_empty_iff}
use ebnf.Nullable.Language.{IsTerminal, YieldsSequence}
use ebnf.Check.{
  count_nullable, complain_if_many, check_groups, check_sequence, check_alts, check_rules,
  check_nullable_alts,
}

-- Some alternative satisfies `E`; no two do.
abbrev pub SomeAlt : (Sequence → Type 0) → Alts → Type 0
SomeAlt E no_alts = ⊥
SomeAlt E (alt a alts) = E a ⊎ SomeAlt E alts

abbrev pub AtMostOne : (Sequence → Type 0) → Alts → Type 0
AtMostOne E no_alts = Unit
AtMostOne E (alt a alts) = ¬ (E a × SomeAlt E alts) × AtMostOne E alts

-- The same of every group inside.
abbrev mutual
  pub Clear : (Sequence → Type 0) → Element → Type 0
  Clear E (group alts _) = AtMostOne E alts × ClearAlts E alts
  Clear E (opt inner) = Clear E inner
  Clear E (star inner) = Clear E inner
  Clear E (plus inner) = Clear E inner
  Clear E (rep _ inner) = Clear E inner
  Clear E (term _ _ _) = Unit
  Clear E (regex _ _ _) = Unit
  Clear E (ref _ _) = Unit
  Clear E token = Unit
  Clear E prose = Unit

  pub ClearSequence : (Sequence → Type 0) → Sequence → Type 0
  ClearSequence E nil = Unit
  ClearSequence E (cons el els) = Clear E el × ClearSequence E els

  pub ClearAlts : (Sequence → Type 0) → Alts → Type 0
  ClearAlts E no_alts = Unit
  ClearAlts E (alt a alts) = ClearSequence E a × ClearAlts E alts

-- A sequence of two checks passes exactly when both do.
>>-eq-ok_iff : (m k : Result (Unit {0})) → ((m >> k) ≡ ok tt) ↔ ((m ≡ ok tt) × (k ≡ ok tt))
>>-eq-ok_iff (ok tt) k = (λ e. (refl, e), λ h. h.1)
>>-eq-ok_iff (err e) k = (λ h. cc, λ h. cc (h.0))

complain_iff : (subject : ℕ → Reason) (n : ℕ) → (complain_if_many subject n ≡ ok tt) ↔ (n ≤ 1)
unfolding complain_if_many
complain_iff subject n = ground arith

both : {A B C D : Type 0} → A ↔ C → B ↔ D → (A × B) ↔ (C × D)
both f g = (λ h. (f.0 h.0, g.0 h.1), λ h. (f.1 h.0, g.1 h.1))

same_iff : {A : Type 0} → A ↔ A
same_iff = (λ a. a, λ a. a)

regroup : {A B C : Type 0} → (A × (B × C)) ↔ ((A × B) × C)
regroup = (λ h. ((h.0, h.1.0), h.1.1), λ h. (h.0.0, (h.0.1, h.1)))

then_iff : {A B C : Type 0} → A ↔ B → B ↔ C → A ↔ C
then_iff f g = (λ a. g.0 (f.0 a), λ c. f.1 (g.1 c))

count_none : (ms : List Text) → count_nullable no_alts ms ≡ 0
unfolding count_nullable
count_none ms = refl

count_empty :
    (a : Sequence) (alts : Alts) (ms : List Text)
    → alt_derives_empty a ms ≡ true
    → count_nullable (alt a alts) ms ≡ suc (count_nullable alts ms)
unfolding count_nullable
count_empty a alts ms e = rw e (omega arith)

count_solid :
    (a : Sequence) (alts : Alts) (ms : List Text)
    → alt_derives_empty a ms ≡ false
    → count_nullable (alt a alts) ms ≡ count_nullable alts ms
unfolding count_nullable
count_solid a alts ms e = rw e (omega arith)

module _ (E : Sequence → Type 0) (ms : List Text)
    (exact : (a : Sequence) → NoRepSequence a → (alt_derives_empty a ms ≡ true) ↔ E a) where
  count_pos : (alts : Alts) → NoRepAlts alts → (0 < count_nullable alts ms) ↔ SomeAlt E alts
  count_pos no_alts h = (λ p. absurd (omega (arith, count_none ms)), λ x. absurd x)
  count_pos (alt a alts) h = elim (Bool-cases (alt_derives_empty a ms)) [
    | inl empty ↦
        (λ p. inl ((exact a h.0).0 empty), λ x. omega (arith, count_empty a alts ms empty))
    | inr solid ↦
        let same = count_solid a alts ms solid in
        (
          λ p. inr ((count_pos alts h.1).0 (omega (arith, same))),
          elim [
            | inl y ↦ cc (solid, (exact a h.0).1 y)
            | inr y ↦ omega (arith, same, (count_pos alts h.1).1 y)
          ],
        )
  ]

  none_left : (alts : Alts) → NoRepAlts alts → ¬ SomeAlt E alts → count_nullable alts ms ≤ 0
  none_left alts h n = elim (dec_lt 0 (count_nullable alts ms)) [
    | yes p ↦ absurd (n ((count_pos alts h).0 p))
    | no p ↦ omega arith
  ]

  count_le_one : (alts : Alts) → NoRepAlts alts → (count_nullable alts ms ≤ 1) ↔ AtMostOne E alts
  count_le_one no_alts h = (λ p. tt, λ x. omega (arith, count_none ms))
  count_le_one (alt a alts) h = elim (Bool-cases (alt_derives_empty a ms)) [
    | inl empty ↦
        let one = count_empty a alts ms empty in
        (
          λ p. (
            λ (y, z). absurd (omega (arith, one, (count_pos alts h.1).1 z)),
            (count_le_one alts h.1).0 (omega (arith, one)),
          ),
          λ q. omega (arith, one, none_left alts h.1 (λ z. q.0 ((exact a h.0).0 empty, z))),
        )
    | inr solid ↦
        let same = count_solid a alts ms solid in
        (
          λ p. (
            λ (y, z). cc (solid, (exact a h.0).1 y),
            (count_le_one alts h.1).0 (omega (arith, same)),
          ),
          λ q. omega (arith, same, (count_le_one alts h.1).1 q.1),
        )
  ]

  check_choice :
      (subject : ℕ → Reason) (alts : Alts)
      → NoRepAlts alts
      → (complain_if_many subject (count_nullable alts ms) ≡ ok tt) ↔ AtMostOne E alts
  check_choice subject alts h =
      then_iff (complain_iff subject (count_nullable alts ms)) (count_le_one alts h)

  mutual
    unfolding check_groups

    check_groups_iff :
        (el : Element) (rule : Text) → NoRep el → (check_groups el rule ms ≡ ok tt) ↔ Clear E el
    check_groups_iff (group alts sp) rule h =
        then_iff (>>-eq-ok_iff _ (check_alts alts rule ms))
          (both (check_choice (ambiguous_group rule) alts h) (check_alts_iff alts rule h))
    check_groups_iff (opt inner) rule h = check_groups_iff inner rule h
    check_groups_iff (star inner) rule h = check_groups_iff inner rule h
    check_groups_iff (plus inner) rule h = check_groups_iff inner rule h
    check_groups_iff (rep _ inner) rule h = absurd h
    check_groups_iff (term _ _ _) rule h = (λ _. tt, λ _. refl)
    check_groups_iff (regex _ _ _) rule h = (λ _. tt, λ _. refl)
    check_groups_iff (ref _ _) rule h = (λ _. tt, λ _. refl)
    check_groups_iff token rule h = (λ _. tt, λ _. refl)
    check_groups_iff prose rule h = (λ _. tt, λ _. refl)

    check_sequence_iff :
        (a : Sequence) (rule : Text)
        → NoRepSequence a
        → (check_sequence a rule ms ≡ ok tt) ↔ ClearSequence E a
    check_sequence_iff nil rule h = (λ _. tt, λ _. refl)
    check_sequence_iff (cons el els) rule h =
        then_iff (>>-eq-ok_iff (check_groups el rule ms) (check_sequence els rule ms))
          (both (check_groups_iff el rule h.0) (check_sequence_iff els rule h.1))

    check_alts_iff :
        (alts : Alts) (rule : Text)
        → NoRepAlts alts
        → (check_alts alts rule ms ≡ ok tt) ↔ ClearAlts E alts
    check_alts_iff no_alts rule h = (λ _. tt, λ _. refl)
    check_alts_iff (alt a alts) rule h =
        then_iff (>>-eq-ok_iff (check_sequence a rule ms) (check_alts alts rule ms))
          (both (check_sequence_iff a rule h.0) (check_alts_iff alts rule h.1))

  check_rules_iff :
      (prods : List Production)
      → All (λ p. NoRepAlts p.alts) prods
      → (check_rules ms prods ≡ ok tt) ↔ All (λ p. AtMostOne E p.alts × ClearAlts E p.alts) prods
  unfolding check_rules
  check_rules_iff [] h = (λ _. tt, λ _. refl)
  check_rules_iff (p ∷ prods) h =
      let own =
        both (check_choice (ambiguous_rule p.name) p.alts h.0) (check_alts_iff p.alts p.name h.0) in
      let choice = complain_if_many (ambiguous_rule p.name) (count_nullable p.alts ms) in
      let groups = check_alts p.alts p.name ms in
      then_iff (>>-eq-ok_iff choice (groups >> check_rules ms prods)) (
        then_iff (both same_iff (>>-eq-ok_iff groups (check_rules ms prods)))
          (then_iff regroup (both own (check_rules_iff prods h.1))))

-- The check passes exactly when no choice, be it a rule's alternatives or a group's at any depth, has
-- two alternatives that both derive the empty text; in a grammar without bounded repetitions, where
-- no terminal matches the empty text.
pub check_nullable_alts_iff :
    (Accepts : Element → Text → Type 0) (prods : List Production)
    → ((el : Element) → IsTerminal el → ¬ Accepts el [])
    → All (λ p. NoRepAlts p.alts) prods
    → (check_nullable_alts prods ≡ ok tt)
      ↔ All
          (λ p.
            AtMostOne (λ a. YieldsSequence Accepts prods a []) p.alts
            × ClearAlts (λ a. YieldsSequence Accepts prods a []) p.alts)
          prods
unfolding check_nullable_alts
check_nullable_alts_iff Accepts prods consumes no_rep =
    check_rules_iff (λ a. YieldsSequence Accepts prods a []) (nullable_rules prods)
      (alt_derives_empty_iff Accepts consumes prods no_rep) prods no_rep
