-- ===== src/Plugin/Installs.antt =====
-- When a grammar is installed (ts/src/ebnf.ts: `ebnf`; ts/src/converter.ts: `ebnf`, `parseEbnf`).
use ebnf.Base.{◌≡◌, ◌↔◌, refl, ap, sym, Option, none, some, List, [], Text, codes}
use ebnf.Ir.{Element, Production, Grammar}
use ebnf.Nullable.Language.{IsTerminal}
use ebnf.Rules.Trees.{ReadProductions}
use ebnf.Convert.{
  or_else, Parsed, returned, ConvertOptions, with_tag, Emitted, emitted, Converted, spec,
  parse_failed, compile_failed, ebnf_convert,
}
use ebnf.Convert.Accepts.{IsGrammar, parse_ebnf_iff}
use ebnf.Convert.Restamp.{ebnf_convert-spec_iff}
use ebnf.Plugin.{Outcome, gave, behind_grammar, installed, install}

-- The tag that the caller names, or `ebnf`; and the caller's other settings.
abbrev pub IsTag : Option Text → Option Text → Type 0
IsTag none tag = tag ≡ some (codes "ebnf")
IsTag (some own) tag = tag ≡ some own

abbrev pub IsTagged :
    {Settings : Type 0} → Option (ConvertOptions Settings) → ConvertOptions Settings → Type 0
IsTagged none o = (o.tag ≡ some (codes "ebnf")) × (o.settings ≡ none)
IsTagged (some own) o = IsTag own.tag o.tag × (o.settings ≡ own.settings)

or_else-IsTag : (tag : Option Text) → IsTag tag (or_else tag (some (codes "ebnf")))
unfolding or_else
or_else-IsTag none = refl
or_else-IsTag (some own) = refl

IsTag-or_else : (own tag : Option Text) → IsTag own tag → tag ≡ or_else own (some (codes "ebnf"))
unfolding or_else
IsTag-or_else none tag h = h
IsTag-or_else (some t) tag h = h

same_options :
    {Settings : Type 0} (a b : ConvertOptions Settings)
    → a.tag ≡ b.tag
    → a.settings ≡ b.settings
    → a ≡ b
same_options a b p q = λ i. record { tag = p i; settings = q i }

module _ {Settings : Type 0} where
  with_tag-IsTagged : (opts : Option (ConvertOptions Settings)) → IsTagged opts (with_tag opts)
  unfolding with_tag
  with_tag-IsTagged none = (refl, refl)
  with_tag-IsTagged (some own) = (or_else-IsTag own.tag, refl)

  IsTagged-with_tag :
      (opts : Option (ConvertOptions Settings)) (o : ConvertOptions Settings)
      → IsTagged opts o
      → o ≡ with_tag opts
  unfolding with_tag
  IsTagged-with_tag none o h = same_options o (with_tag none) h.0 h.1
  IsTagged-with_tag (some own) o h =
      same_options o (with_tag (some own)) (IsTag-or_else own.tag o.tag h.0) h.1

-- What an outcome gave.
abbrev given : {Spec Thrown : Type 0} → Outcome Spec Thrown → Option Spec
given (gave s) = some s
given _ = none

module _ {Spec Thrown Engine : Type 0} where
  behind_grammar-gave_iff :
      (s t : Spec) (r : Engine × Option Thrown) (tn : Engine)
      → (behind_grammar s r ≡ (gave t, tn)) ↔ ((s ≡ t) × (r ≡ (tn, none)))
  unfolding behind_grammar
  behind_grammar-gave_iff s t (tn', none) tn =
      (λ e. (cc (ap (λ x. given x.0) e), ap (λ x. (x.1, none)) e), λ h i. (gave (h.0 i), (h.1 i).0))
  behind_grammar-gave_iff s t (tn', some x) tn =
      (λ e. absurd (cc (ap (λ y. given y.0) e)), λ h. absurd (cc (ap (λ y. y.1) h.1)))

  installed-gave_iff :
      (grammar : Engine → Spec → Engine × Option Thrown) (tn : Engine) (c : Converted Spec)
      (s : Spec) (tn' : Engine)
      → (installed grammar tn c ≡ (gave s, tn')) ↔ ((c ≡ spec s) × (grammar tn s ≡ (tn', none)))
  unfolding installed
  installed-gave_iff grammar tn (spec t) s tn' = (
    λ e.
        let (same, there) = (behind_grammar-gave_iff t s (grammar tn t) tn').0 e in
        (ap spec same, rw (sym same) there),
    λ h.
        let same : t ≡ s = cc (h.0) in
        (behind_grammar-gave_iff t s (grammar tn t) tn').1 (same, rw same (h.1)),
  )
  installed-gave_iff grammar tn (parse_failed x) s tn' =
      (λ e. absurd (cc (ap (λ y. given y.0) e)), λ h. absurd (cc h.0))
  installed-gave_iff grammar tn (compile_failed x) s tn' =
      (λ e. absurd (cc (ap (λ y. given y.0) e)), λ h. absurd (cc h.0))

module _ {Settings Spec Engine Thrown : Type 0} (Accepts : Element → Text → Type 0)
    (parser : Text → Parsed) (emit : Grammar → ConvertOptions Settings → Emitted Spec)
    (grammar : Engine → Spec → Engine × Option Thrown) where
  -- The plugin returns a spec and leaves an instance exactly when the parser returned a grammar that has a
  -- rule, rules with distinct names and no choice with two alternatives that derive the empty text; the
  -- compiler emits that spec for it, under the caller's settings and the tag that the caller names, or
  -- `ebnf` where it names none; and `grammar` puts the spec on the instance without an error and leaves
  -- that one; where no terminal matches the empty text, and the parser returns only what the actions and
  -- hooks of the rule table build.
  pub install_iff :
      (tn tn' : Engine) (src : Text) (opts : Option (ConvertOptions Settings)) (s : Spec)
      → ((el : Element) → IsTerminal el → ¬ Accepts el [])
      → ((ps : List Production) → parser src ≡ returned ps → ReadProductions ps)
      → (install parser emit grammar tn src opts ≡ (gave s, tn')) ↔ (
          (g : Grammar) × (o : ConvertOptions Settings) × (parser src ≡ returned g.productions)
          × IsGrammar Accepts g.productions
          × IsTagged opts o
          × (emit g o ≡ emitted s)
          × (grammar tn s ≡ (tn', none)))
  unfolding install
  install_iff tn tn' src opts s consumes reads =
      let outcome = installed-gave_iff grammar tn (ebnf_convert parser emit src opts) s tn' in
      let made = ebnf_convert-spec_iff parser emit opts src s in
      (
        λ e.
            let (converted, put) = outcome.0 e in
            let (g, read, compiled) = made.0 converted in
            let (returns, is) = (parse_ebnf_iff Accepts parser src g consumes reads).0 read in
            (g, with_tag opts, returns, is, with_tag-IsTagged opts, compiled, put),
        λ (g, o, returns, is, tagged, compiled, put).
            let same = IsTagged-with_tag opts o tagged in
            outcome.1 (
              made.1 (
                g,
                (parse_ebnf_iff Accepts parser src g consumes reads).1 (returns, is),
                rw (sym same) compiled,
              ),
              put,
            ),
      )
