-- ===== src/Nullable/Complete.antt =====
-- What derives the empty text is reported, so the analysis is exact.
use ebnf.Base.{
  has, ◌≡◌, refl, sym, ◌∙◌, subst, true, ◌↔◌, inl, inr, List, All, [], ◌∷◌, ◌++◌, arith, Text,
}
use ebnf.Ir.{
  Element, term, regex, ref, group, opt, star, plus, rep, token, prose, Sequence, nil, cons, Alts,
  no_alts, alt, Production,
}
use ebnf.Nullable.{el_derives_empty, alt_derives_empty, some_alt, nullable_rules}
use ebnf.Nullable.Fixpoint.{IsClosed, nullable_rules-IsClosed}
use ebnf.Nullable.Sound.{el_sound, alt_sound, alts_sound, nullable_rules-IsSound}
use ebnf.Nullable.Language.{
  IsTerminal, Member, Yields, YieldsSequence, YieldsAlts, YieldsRule, terminal, opt_none, opt_some,
  star_none, star_more, plus_one, plus_more, rep_none, rep_more, in_group, by_name, no_elements,
  elements, here, there,
}

-- No bounded repetition stands in the element: the notation has none.
abbrev mutual
  pub NoRep : Element → Type 0
  NoRep (opt inner) = NoRep inner
  NoRep (star inner) = NoRep inner
  NoRep (plus inner) = NoRep inner
  NoRep (rep _ _) = ⊥
  NoRep (group alts _) = NoRepAlts alts
  NoRep (ref _ _) = Unit
  NoRep (term _ _ _) = Unit
  NoRep (regex _ _ _) = Unit
  NoRep token = Unit
  NoRep prose = Unit

  pub NoRepSequence : Sequence → Type 0
  NoRepSequence nil = Unit
  NoRepSequence (cons el els) = NoRep el × NoRepSequence els

  pub NoRepAlts : Alts → Type 0
  NoRepAlts no_alts = Unit
  NoRepAlts (alt a alts) = NoRepSequence a × NoRepAlts alts

append-eq-nil : (v w : Text) → v ++ w ≡ [] → (v ≡ []) × (w ≡ [])
append-eq-nil [] w e = (refl, e)
append-eq-nil (c ∷ v) w e = cc

nil-eq-append : {u : Text} (v w : Text) → u ≡ v ++ w → u ≡ [] → (v ≡ []) × (w ≡ [])
nil-eq-append v w e n = append-eq-nil v w (sym e ∙ n)

of_IsClosed :
    (ms : List Text) (p : Production) (ps : List Production)
    → IsClosed ms ps
    → Member p ps
    → some_alt p.alts ms ≡ true
    → has p.name ms ≡ true
of_IsClosed ms p [] c m e = absurd m
of_IsClosed ms p (q ∷ ps) c (inl same) e =
    subst (λ r. some_alt r.alts ms ≡ true → has r.name ms ≡ true) (sym same) c.0 e
of_IsClosed ms p (q ∷ ps) c (inr later) e = of_IsClosed ms p ps c.1 later e

of_NoRep :
    (p : Production) (ps : List Production)
    → All (λ q. NoRepAlts q.alts) ps
    → Member p ps
    → NoRepAlts p.alts
of_NoRep p [] h m = absurd m
of_NoRep p (q ∷ ps) h (inl same) = subst (λ r. NoRepAlts r.alts) (sym same) h.0
of_NoRep p (q ∷ ps) h (inr later) = of_NoRep p ps h.1 later

module _ (Accepts : Element → Text → Type 0)
    (consumes : (el : Element) → IsTerminal el → ¬ Accepts el []) (prods : List Production)
    (no_rep : All (λ q. NoRepAlts q.alts) prods) (ms : List Text) (closed : IsClosed ms prods) where
  mutual
    unfolding el_derives_empty

    pub el_complete :
        {el : Element} {w : Text}
        → Yields Accepts prods el w
        → w ≡ []
        → NoRep el
        → el_derives_empty el ms ≡ true
    el_complete (terminal {el} is_terminal a) n h =
        absurd (consumes el is_terminal (subst (Accepts el) n a))
    el_complete (opt_none e) n h = refl
    el_complete (opt_some y) n h = refl
    el_complete (star_none e) n h = refl
    el_complete (star_more y z e) n h = refl
    el_complete (plus_one y) n h = el_complete y n h
    el_complete (plus_more {v = v} {w = w} y z e) n h = el_complete y (nil-eq-append v w e n).0 h
    el_complete (rep_none l e) n h = absurd h
    el_complete (rep_more y z e) n h = absurd h
    el_complete (in_group y) n h = alts_complete y n h
    el_complete (by_name p m e y) n h =
        subst (λ name. has name ms ≡ true) e
          (of_IsClosed ms p prods closed m (alts_complete y n (of_NoRep p prods no_rep m)))

    pub alt_complete :
        {a : Sequence} {w : Text}
        → YieldsSequence Accepts prods a w
        → w ≡ []
        → NoRepSequence a
        → alt_derives_empty a ms ≡ true
    alt_complete (no_elements e) n h = refl
    alt_complete (elements {v = v} {w = w} y z e) n h =
        let (e₁, e₂) = nil-eq-append v w e n in rw (el_complete y e₁ h.0) (alt_complete z e₂ h.1)

    pub alts_complete :
        {alts : Alts} {w : Text}
        → YieldsAlts Accepts prods alts w
        → w ≡ []
        → NoRepAlts alts
        → some_alt alts ms ≡ true
    alts_complete (here y) n h = rw (alt_complete y n h.0)
    alts_complete (there {a = a} y) n h = let rest = alts_complete y n h.1 in ground arith

module _ (Accepts : Element → Text → Type 0)
    (consumes : (el : Element) → IsTerminal el → ¬ Accepts el []) (prods : List Production)
    (no_rep : All (λ q. NoRepAlts q.alts) prods) where
  -- An element is reported empty exactly when it derives the empty text, in a grammar without bounded
  -- repetitions, where no terminal matches the empty text.
  pub el_derives_empty_iff :
      (el : Element)
      → NoRep el
      → (el_derives_empty el (nullable_rules prods) ≡ true) ↔ Yields Accepts prods el []
  el_derives_empty_iff el h = (
    el_sound Accepts prods el (nullable_rules prods) (nullable_rules-IsSound Accepts prods),
    λ y.
        el_complete Accepts consumes prods no_rep (nullable_rules prods)
          (nullable_rules-IsClosed prods) y refl h,
  )

  pub alt_derives_empty_iff :
      (a : Sequence)
      → NoRepSequence a
      → (alt_derives_empty a (nullable_rules prods) ≡ true) ↔ YieldsSequence Accepts prods a []
  alt_derives_empty_iff a h = (
    alt_sound Accepts prods a (nullable_rules prods) (nullable_rules-IsSound Accepts prods),
    λ y.
        alt_complete Accepts consumes prods no_rep (nullable_rules prods)
          (nullable_rules-IsClosed prods) y refl h,
  )

  pub some_alt_iff :
      (alts : Alts)
      → NoRepAlts alts
      → (some_alt alts (nullable_rules prods) ≡ true) ↔ YieldsAlts Accepts prods alts []
  some_alt_iff alts h = (
    alts_sound Accepts prods alts (nullable_rules prods) (nullable_rules-IsSound Accepts prods),
    λ y.
        alts_complete Accepts consumes prods no_rep (nullable_rules prods)
          (nullable_rules-IsClosed prods) y refl h,
  )

  -- The analysis reports exactly the names of the rules that derive the empty text, in a grammar
  -- without bounded repetitions, where no terminal matches the empty text.
  pub nullable_rules_iff :
      (name : Text) → (has name (nullable_rules prods) ≡ true) ↔ YieldsRule Accepts prods name []
  nullable_rules_iff name = (
    nullable_rules-IsSound Accepts prods name,
    λ y.
        subst (λ n. has n (nullable_rules prods) ≡ true) y.has_name
          (of_IsClosed (nullable_rules prods) y.rule prods (nullable_rules-IsClosed prods)
            y.is_member
            ((some_alt_iff y.rule.alts (of_NoRep y.rule prods no_rep y.is_member)).1 y.yields)),
  )
