-- ===== src/Tests/Grammars.antt =====
-- Grammars: `A ::= B "x"? | "a"`, `B ::= A? C*`, `C ::= "c"+`, and two that are refused.
use ebnf.Base.{
  has, ◌≡◌, ◌≢◌, refl, ◌↔◌, true, false, none, List, [], ◌∷◌, map, All, Text, codes, text_eq, arith,
}
use ebnf.Ir.{
  Element, term, ref, group, opt, star, plus, Sequence, nil, cons, Alts, no_alts, alt, Production,
}
use ebnf.Error.{ok, throw, nowhere, duplicate_rule, ambiguous_rule, ambiguous_group}
use ebnf.Nullable.{pass, nullable_rules}
use ebnf.Nullable.Language.{IsTerminal, YieldsRule, YieldsSequence}
use ebnf.Nullable.Fixpoint.{state, nullable_rules-fixed}
use ebnf.Nullable.Complete.{nullable_rules_iff}
use ebnf.Check.{check_duplicates, check_nullable_alts}
use ebnf.Check.Duplicates.{Distinct, check_duplicates_iff}
use ebnf.Check.Ambiguity.{AtMostOne, ClearAlts, check_nullable_alts_iff}

abbrev lit : Text → Element
lit s = term s true none

abbrev name : Text → Element
name s = ref s none

abbrev one_alt : Sequence → Alts
one_alt s = alt s no_alts

abbrev rule : Text → Alts → Production
rule n alts = record { name = n; alts = alts; sp = none }

abbrev sample : List Production
sample =
    rule (codes "A") (
      alt (cons (name (codes "B")) (cons (opt (lit (codes "x"))) nil))
        (one_alt (cons (lit (codes "a")) nil)))
    ∷ rule (codes "B")
        (one_alt (cons (opt (name (codes "A"))) (cons (star (name (codes "C"))) nil)))
    ∷ rule (codes "C") (one_alt (cons (plus (lit (codes "c"))) nil))
    ∷ []

-- A concrete language of terminals: any text but the empty one.
abbrev Nonempty : Element → Text → Type 0
Nonempty el w = w ≢ []

Nonempty-consumes : (el : Element) → IsTerminal el → ¬ Nonempty el []
Nonempty-consumes el t a = a refl

nullable_run : nullable_rules sample ≡ codes "B" ∷ codes "A" ∷ []
unfolding nullable_rules text_eq
nullable_run = refl

duplicate_run :
    check_duplicates (rule (codes "A") no_alts ∷ rule (codes "A") no_alts ∷ [])
    ≡ throw (duplicate_rule (codes "A")) nowhere
unfolding check_duplicates text_eq
duplicate_run = refl

-- `A ::= "x"? | "y"*`
ambiguous_run :
    check_nullable_alts (
      rule
        (codes "A")
        (alt (cons (opt (lit (codes "x"))) nil) (one_alt (cons (star (lit (codes "y"))) nil)))
      ∷ [])
    ≡ throw (ambiguous_rule (codes "A") 2) nowhere
unfolding check_nullable_alts text_eq
ambiguous_run = refl

-- `A ::= ("x"? | "y"?) "y"`
ambiguous_group_run :
    check_nullable_alts (
      rule (codes "A") (
        one_alt (
          cons
            (group
              (alt (cons (opt (lit (codes "x"))) nil) (one_alt (cons (opt (lit (codes "y"))) nil)))
              none)
            (cons (lit (codes "y")) nil)))
      ∷ [])
    ≡ throw (ambiguous_group (codes "A") 2) nowhere
unfolding check_nullable_alts text_eq
ambiguous_group_run = refl

nullable_rules_iff_example :
    (has (codes "A") (nullable_rules sample) ≡ true) ↔ YieldsRule Nonempty sample (codes "A") []
nullable_rules_iff_example =
    nullable_rules_iff Nonempty Nonempty-consumes sample (omega arith) (codes "A")

nullable_rules-fixed_example : (pass (state (nullable_rules sample) false) sample).changed ≡ false
nullable_rules-fixed_example = nullable_rules-fixed sample

check_duplicates_iff_example :
    (check_duplicates sample ≡ ok tt) ↔ Distinct (map (λ p. p.name) sample)
check_duplicates_iff_example = check_duplicates_iff sample

check_nullable_alts_iff_example :
    (check_nullable_alts sample ≡ ok tt)
    ↔ All
        (λ p.
          AtMostOne (λ a. YieldsSequence Nonempty sample a []) p.alts
          × ClearAlts (λ a. YieldsSequence Nonempty sample a []) p.alts)
        sample
check_nullable_alts_iff_example =
    check_nullable_alts_iff Nonempty sample Nonempty-consumes (omega arith)
