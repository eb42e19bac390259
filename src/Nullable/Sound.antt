-- ===== src/Nullable/Sound.antt =====
-- What the analysis reports does derive the empty text.
use ebnf.Base.{
  has, has-concat_inv, ℕ, zero, suc, ◌≡◌, refl, sym, subst, true, false, ==_iff, Bool-cases, inl,
  inr, List, All, [], ◌∷◌, ◌++◌, arith, Text, length,
}
use ebnf.Ir.{
  Element, term, regex, ref, group, opt, star, plus, rep, token, prose, Sequence, nil, cons, Alts,
  no_alts, alt, Production,
}
use ebnf.Nullable.{
  el_derives_empty, alt_derives_empty, some_alt, Pass, pass, nullable_loop, nullable_rules,
}
use ebnf.Nullable.Fixpoint.{state, visit-old, visit-empty, visit-solid}
use ebnf.Nullable.Language.{
  Member, Yields, YieldsSequence, YieldsAlts, YieldsRule, opt_none, star_none, plus_one, rep_none,
  in_group, by_name, no_elements, elements, here, there,
}

module _ (Accepts : Element → Text → Type 0) (prods : List Production) where
  -- Every rule of the set derives the empty text.
  abbrev pub IsSound : List Text → Type 0
  IsSound ms = (name : Text) → has name ms ≡ true → YieldsRule Accepts prods name []

  mutual
    unfolding el_derives_empty

    pub el_sound :
        (el : Element) (ms : List Text)
        → IsSound ms
        → el_derives_empty el ms ≡ true
        → Yields Accepts prods el []
    el_sound (opt inner) ms s e = opt_none refl
    el_sound (star inner) ms s e = star_none refl
    el_sound (plus inner) ms s e = plus_one (el_sound inner ms s e)
    el_sound (rep least inner) ms s e = rep_none ((==_iff least 0).0 e) refl
    el_sound (group alts sp) ms s e = in_group (alts_sound alts ms s e)
    el_sound (ref name sp) ms s e =
        let y = s name e in by_name y.rule y.is_member y.has_name y.yields
    el_sound (term _ _ _) ms s e = cc
    el_sound (regex _ _ _) ms s e = cc
    el_sound token ms s e = cc
    el_sound prose ms s e = cc

    pub alt_sound :
        (a : Sequence) (ms : List Text)
        → IsSound ms
        → alt_derives_empty a ms ≡ true
        → YieldsSequence Accepts prods a []
    alt_sound nil ms s e = no_elements refl
    alt_sound (cons el els) ms s e =
        elements (el_sound el ms s (ground arith)) (alt_sound els ms s (ground arith)) refl

    pub alts_sound :
        (alts : Alts) (ms : List Text)
        → IsSound ms
        → some_alt alts ms ≡ true
        → YieldsAlts Accepts prods alts []
    alts_sound no_alts ms s e = cc
    alts_sound (alt a alts) ms s e = elim (Bool-cases (alt_derives_empty a ms)) [
      | inl empty ↦ here (alt_sound a ms s empty)
      | inr solid ↦ there (alts_sound alts ms s (rw solid at e))
    ]

  IsSound-concat :
      (ms : List Text) (p : Production)
      → IsSound ms
      → YieldsRule Accepts prods p.name []
      → IsSound (ms ++ p.name ∷ [])
  IsSound-concat ms p s y name e = elim (Bool-cases (has name ms)) [
    | inl old ↦ s name old
    | inr new ↦ subst (λ n. YieldsRule Accepts prods n []) (has-concat_inv name p.name ms e new) y
  ]

  pass-IsSound :
      (qs : List Production) (t : Pass)
      → All (λ q. Member q prods) qs
      → IsSound t.nullable
      → IsSound (pass t qs).nullable
  unfolding pass
  pass-IsSound [] t m s = s
  pass-IsSound (q ∷ qs) t m s = elim (Bool-cases (has q.name t.nullable)) [
    | inl old ↦
        subst (λ v. IsSound (pass v qs).nullable) (sym (visit-old t q old))
          (pass-IsSound qs t m.1 s)
    | inr new ↦ elim (Bool-cases (some_alt q.alts t.nullable)) [
      | inl empty ↦
          subst (λ v. IsSound (pass v qs).nullable) (sym (visit-empty t q new empty))
            (pass-IsSound qs (state (t.nullable ++ q.name ∷ []) true) m.1 (
              IsSound-concat t.nullable q s (record {
                rule = q;
                is_member = m.0;
                has_name = refl;
                yields = alts_sound q.alts t.nullable s empty;
              })))
      | inr solid ↦
          subst (λ v. IsSound (pass v qs).nullable) (sym (visit-solid t q solid))
            (pass-IsSound qs t m.1 s)
    ]
  ]

  nullable_loop-IsSound :
      (f : ℕ) (ms : List Text)
      → All (λ q. Member q prods) prods
      → IsSound ms
      → IsSound (nullable_loop f prods ms)
  unfolding nullable_loop
  nullable_loop-IsSound zero ms m s = s
  nullable_loop-IsSound (suc f) ms m s =
      let kept = pass-IsSound prods (state ms false) m s in
      elim (Bool-cases (pass (state ms false) prods).changed) [
        | inl again ↦
            rw again (nullable_loop-IsSound f (pass (state ms false) prods).nullable m kept)
        | inr done ↦ rw done kept
      ]

All-Member-cons :
    (p : Production) (qs ps : List Production)
    → All (λ q. Member q ps) qs
    → All (λ q. Member q (p ∷ ps)) qs
All-Member-cons p [] ps h = tt
All-Member-cons p (q ∷ qs) ps h = (inr h.0, All-Member-cons p qs ps h.1)

pub All-Member : (ps : List Production) → All (λ q. Member q ps) ps
All-Member [] = tt
All-Member (p ∷ ps) = (inl refl, All-Member-cons p ps ps (All-Member ps))

-- Every rule that the analysis reports derives the empty text.
pub nullable_rules-IsSound :
    (Accepts : Element → Text → Type 0) (prods : List Production)
    → IsSound Accepts prods (nullable_rules prods)
unfolding nullable_rules has
nullable_rules-IsSound Accepts prods =
    nullable_loop-IsSound Accepts prods (suc (length prods)) [] (All-Member prods) λ name e. cc
