-- ===== src/Tests/Conversion.antt =====
-- Conversions, with a parser and a compiler that stand for the engine's.
use ebnf.Base.{
  ltb, if◌then◌else◌, Option, some, ℕ, ◌≡◌, ◌≢◌, refl, subst, ◌↔◌, true, false, none, List, [], ◌∷◌,
  All, Text, codes, length, text_eq,
}
use ebnf.Ir.{Element, term, nil, cons, no_alts, alt, Production, Grammar}
use ebnf.Error.{ok, throw, nowhere, no_productions}
use ebnf.Token.{Token, string_term}
use ebnf.Rules.Actions.{Notes, read_name, prod_bc, alts_bc, take_atom, elem_bc}
use ebnf.Rules.Trees.{
  string_atom, bo_seq, elem_closed, bo_alts, seq_closed, ReadProductions, start, prod_closed,
}
use ebnf.Rules.Valid.{ValidProduction, ReadProductions-Valid}
use ebnf.Convert.{
  Parsed, returned, nullish, parse_ebnf, ConvertOptions, Emitted, emitted, threw, spec,
  compile_failed, ebnf_convert,
}
use ebnf.Convert.Accepts.{IsGrammar, parse_ebnf_iff}
use ebnf.Plugin.{gave, not_installed, install, to_spec}
use ebnf.Plugin.Installs.{IsTagged, install_iff}

abbrev one_rule : List Production
one_rule =
    record {
      name = codes "A";
      alts = alt (cons (term (codes "a") true none) nil) no_alts;
      sp = none;
    }
    ∷ []

-- A parser that reads one source, and fails on any other.
abbrev parser : Text → Parsed
parser [] = nullish
parser (c ∷ src) = returned one_rule

abbrev Options : Type 0
Options = ConvertOptions Text

-- A compiler whose spec is the number of rules.
abbrev emit : Grammar → Options → Emitted ℕ
emit g opts = emitted (length g.productions)

abbrev emit_nothing : Grammar → Options → Emitted ℕ
emit_nothing g opts = threw (codes "bnf: rule A is unknown")

no_productions_run : parse_ebnf parser [] ≡ throw no_productions nowhere
unfolding parse_ebnf
no_productions_run = refl

convert_run : ebnf_convert parser emit (codes "A ::= 'a'") none ≡ spec 1
unfolding ebnf_convert text_eq
convert_run = refl

compile_failed_run :
    ebnf_convert parser emit_nothing (codes "A ::= 'a'") none
    ≡ compile_failed (codes "ebnf: rule A is unknown")
unfolding ebnf_convert text_eq
compile_failed_run = refl

abbrev Nonempty : Element → Text → Type 0
Nonempty el w = w ≢ []

abbrev fresh : Notes
fresh = record { name = []; name_tkn = none; got = false; atom = none; group = false; lp = none }

-- A token with no location.
abbrev unlocated : Text → Token
unlocated text = record { val = text; src = text; s_i = none; r_i = none; c_i = none; len = none }

-- The actions and hooks that build the rule.
one_rule-Read : ReadProductions one_rule
unfolding read_name prod_bc alts_bc elem_bc take_atom string_term
one_rule-Read =
    prod_closed fresh (unlocated (codes "A")) (start refl) refl
      (seq_closed (bo_alts refl)
        (elem_closed fresh none (bo_seq refl) (string_atom (unlocated (codes "a")) refl) refl) refl)
      refl

parser-Read : (src : Text) (ps : List Production) → parser src ≡ returned ps → ReadProductions ps
parser-Read [] ps e = cc
parser-Read (c ∷ src) ps e =
    let same : one_rule ≡ ps = cc e in subst ReadProductions same one_rule-Read

parse_ebnf_iff_example :
    (parse_ebnf parser (codes "A ::= 'a'") ≡ ok (record { productions = one_rule }))
    ↔ ((parser (codes "A ::= 'a'") ≡ returned one_rule) × IsGrammar Nonempty one_rule)
parse_ebnf_iff_example =
    parse_ebnf_iff Nonempty parser (codes "A ::= 'a'") (record { productions = one_rule })
      (λ el t a. a refl) (parser-Read (codes "A ::= 'a'"))

ReadProductions-Valid_example : All ValidProduction one_rule
ReadProductions-Valid_example = ReadProductions-Valid one_rule-Read

-- An instance that lists the specs installed on it, and takes no spec above 9.
abbrev install_spec : List ℕ → ℕ → List ℕ × Option Text
install_spec tn s = if ltb 9 s then (tn, some (codes "too large")) else (s ∷ tn, none)

abbrev emit_ten : Grammar → Options → Emitted ℕ
emit_ten g o = emitted 10

install_runs :
    (install parser emit_ten install_spec [] (codes "A ::= 'a'") none
      ≡ (not_installed (codes "too large"), []))
    × (to_spec parser emit_ten (codes "A ::= 'a'") none ≡ spec 10)
unfolding install to_spec ebnf_convert text_eq
install_runs = (refl, refl)

install_iff_example :
    (install parser emit install_spec [] (codes "A ::= 'a'") none ≡ (gave 1, 1 ∷ [])) ↔ (
      (g : Grammar) × (o : Options) × (parser (codes "A ::= 'a'") ≡ returned g.productions)
      × IsGrammar Nonempty g.productions
      × IsTagged none o
      × (emit g o ≡ emitted 1)
      × (install_spec [] 1 ≡ (1 ∷ [], none)))
install_iff_example =
    install_iff Nonempty parser emit install_spec [] (1 ∷ []) (codes "A ::= 'a'") none 1
      (λ el t a. a refl) (parser-Read (codes "A ::= 'a'"))
