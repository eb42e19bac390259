-- ===== src/Convert/Accepts.antt =====
-- Which sources `parseEbnf` accepts, and what it returns for them.
use ebnf.Base.{◌≡◌, ◌≢◌, refl, sym, ap, subst, ◌↔◌, List, [], ◌∷◌, map, All, Text}
use ebnf.Ir.{Element, Production, Grammar}
use ebnf.Error.{ok, >>=-eq-ok, ok-injective}
use ebnf.Nullable.Language.{IsTerminal, YieldsSequence}
use ebnf.Nullable.Complete.{NoRepAlts}
use ebnf.Check.{check_duplicates, check_nullable_alts}
use ebnf.Check.Duplicates.{Distinct, check_duplicates_iff}
use ebnf.Check.Ambiguity.{AtMostOne, ClearAlts, check_nullable_alts_iff}
use ebnf.Rules.Trees.{ReadProductions}
use ebnf.Rules.Valid.{ReadProductions-NoRep}
use ebnf.Convert.{
  Parsed, returned, nullish, not_array, rejected, failed, checked, of_parsed, parse_ebnf,
}

-- The rules have distinct names, and no choice has two alternatives that derive the empty text.
pub record IsGrammar (Accepts : Element → Text → Type 0) (prods : List Production) : Type 0 where
  pub has_rule : prods ≢ []
  pub distinct : Distinct (map (λ p. p.name) prods)
  pub unambiguous :
      All
        (λ p.
          AtMostOne (λ a. YieldsSequence Accepts prods a []) p.alts
          × ClearAlts (λ a. YieldsSequence Accepts prods a []) p.alts)
        prods

module _ (Accepts : Element → Text → Type 0)
    (consumes : (el : Element) → IsTerminal el → ¬ Accepts el []) where
  checked_sound :
      (prods : List Production) (g : Grammar)
      → All (λ p. NoRepAlts p.alts) prods
      → checked prods ≡ ok g
      → (g.productions ≡ prods) × IsGrammar Accepts prods
  unfolding checked
  checked_sound [] g h e = cc
  checked_sound (p ∷ prods) g h e =
      let (_, d, e₁) = >>=-eq-ok (check_duplicates (p ∷ prods)) _ e in
      let (_, n, e₂) = >>=-eq-ok (check_nullable_alts (p ∷ prods)) _ e₁ in
      (
        sym (ap (λ (x : Grammar). x.productions) (ok-injective e₂)),
        record {
          has_rule = λ x. cc;
          distinct = (check_duplicates_iff (p ∷ prods)).0 d;
          unambiguous = (check_nullable_alts_iff Accepts (p ∷ prods) consumes h).0 n;
        },
      )

  checked_complete :
      (prods : List Production)
      → All (λ p. NoRepAlts p.alts) prods
      → IsGrammar Accepts prods
      → checked prods ≡ ok (record { productions = prods })
  unfolding checked
  checked_complete [] h w = absurd (w.has_rule refl)
  checked_complete (p ∷ prods) h w =
      rw ((check_duplicates_iff (p ∷ prods)).1 w.distinct)
        (rw ((check_nullable_alts_iff Accepts (p ∷ prods) consumes h).1 w.unambiguous))

  of_parsed_iff :
      (o : Parsed) (g : Grammar)
      → ((ps : List Production) → o ≡ returned ps → All (λ p. NoRepAlts p.alts) ps)
      → (of_parsed o ≡ ok g) ↔ ((o ≡ returned g.productions) × IsGrammar Accepts g.productions)
  unfolding of_parsed
  of_parsed_iff (returned ps) g h = (
    λ e.
        let (same, w) = checked_sound ps g (h ps refl) e in
        (ap returned (sym same), subst (IsGrammar Accepts) (sym same) w),
    λ x.
        let same : ps ≡ g.productions = cc (x.0) in
        rw same (
          checked_complete g.productions (subst (All (λ p. NoRepAlts p.alts)) same (h ps refl))
            x.1),
  )
  of_parsed_iff nullish g h = (λ e. cc, λ x. cc (x.0))
  of_parsed_iff not_array g h = (λ e. cc, λ x. cc (x.0))
  of_parsed_iff (rejected _) g h = (λ e. cc, λ x. cc (x.0))
  of_parsed_iff (failed _) g h = (λ e. cc, λ x. cc (x.0))

-- A grammar is returned exactly when it is what the parser returned, has a rule, its rules have
-- distinct names, and no choice in it has two alternatives that derive the empty text; where no
-- terminal matches the empty text, and the parser returns only what the actions and hooks of the rule
-- table build.
pub parse_ebnf_iff :
    (Accepts : Element → Text → Type 0) (parser : Text → Parsed) (src : Text) (g : Grammar)
    → ((el : Element) → IsTerminal el → ¬ Accepts el [])
    → ((ps : List Production) → parser src ≡ returned ps → ReadProductions ps)
    → (parse_ebnf parser src ≡ ok g)
      ↔ ((parser src ≡ returned g.productions) × IsGrammar Accepts g.productions)
unfolding parse_ebnf
parse_ebnf_iff Accepts parser src g consumes reads =
    of_parsed_iff Accepts consumes (parser src) g (λ ps e. ReadProductions-NoRep (reads ps e))
