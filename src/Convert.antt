-- ===== src/Convert.antt =====
-- From source text to a grammar spec (ts/src/converter.ts: `parseEbnf` and `ebnf`). The engine's parser
-- and the compiler of the IR are parameters: what they return or throw is data.
pub mod Accepts
pub mod Restamp
use ebnf.Base.{
  strip_prefix, ℕ, Bool, true, false, Option, none, some, List, [], ◌∷◌, ◌++◌, ◌==◌, if◌then◌else◌,
  Text, codes,
}
use ebnf.Ir.{Production, Grammar}
use ebnf.Error.{
  EbnfParseError, Location, Result, ok, err, ◌>>=◌, ◌>>◌, throw, nowhere, parse_error,
  no_productions,
}
use ebnf.Check.{check_duplicates, check_nullable_alts}

-- An error that the engine threw; a field is `none` where it may be undefined.
pub record EngineError : Type 0 where
  pub line_number : Option ℕ
  pub row : Option ℕ
  pub column_number : Option ℕ
  pub col : Option ℕ
  pub message : Text
  pub as_string : Text

-- What `parser(src)` does: it returns an array, nothing, or another value, or it throws.
pub data Parsed : Type 0 where
  returned : List Production → Parsed
  nullish : Parsed
  not_array : Parsed
  rejected : EbnfParseError → Parsed
  failed : EngineError → Parsed

-- `a ?? b`
unfoldable pub or_else {ℓ} : {A : Type ℓ} → Option A → Option A → Option A
or_else none b = b
or_else (some a) b = some a

-- `s.split('\n')[0]`
unfoldable pub first_line : Text → Text
first_line [] = []
first_line (c ∷ cs) = let more = c ∷ first_line cs in if c == b'\n' then [] else more

-- The first line of the message, or the whole error as a text if it has no message.
unfoldable pub raw_message : Text → Text → Text
unfolding first_line
raw_message [] as_string = as_string
raw_message (c ∷ cs) as_string = first_line (c ∷ cs)

unfoldable pub engine_failure : EngineError → EbnfParseError
unfolding or_else raw_message
engine_failure e = record {
  reason = parse_error (raw_message e.message e.as_string);
  location = record { line = or_else e.line_number e.row; column = or_else e.column_number e.col };
}

-- The checks on the productions that were read.
unfoldable pub checked : List Production → Result Grammar
unfolding check_duplicates check_nullable_alts
checked [] = throw no_productions nowhere
checked (p ∷ prods) = do
  check_duplicates (p ∷ prods)
  check_nullable_alts (p ∷ prods)
  ok (record { productions = p ∷ prods })

unfoldable pub of_parsed : Parsed → Result Grammar
unfolding checked engine_failure
of_parsed (returned prods) = checked prods
of_parsed nullish = checked []
of_parsed not_array = throw no_productions nowhere
of_parsed (rejected e) = err e
of_parsed (failed e) = err (engine_failure e)

unfoldable pub parse_ebnf : (Text → Parsed) → Text → Result Grammar
unfolding of_parsed
parse_ebnf parser src = of_parsed (parser src)

-- `EbnfConvertOptions`: the tag, and the settings that are passed on.
pub record ConvertOptions (Settings : Type 0) : Type 0 where
  pub tag : Option Text
  pub settings : Option Settings

-- `{ ...opts, tag: opts?.tag ?? 'ebnf' }`
unfoldable pub with_tag :
    {Settings : Type 0} → Option (ConvertOptions Settings) → ConvertOptions Settings
unfolding or_else
with_tag none = record { tag = some (codes "ebnf"); settings = none }
with_tag (some opts) = record opts { tag = or_else opts.tag (some (codes "ebnf")) }

-- What the compiler of the IR does: it returns a spec or throws.
pub data Emitted (Spec : Type 0) : Type 0 where
  emitted : Spec → Emitted Spec
  refused : EbnfParseError → Emitted Spec
  threw : Text → Emitted Spec

-- The result of a conversion: a spec, an `EbnfParseError`, or an `EbnfCompileError` with its message.
pub data Converted (Spec : Type 0) : Type 0 where
  spec : Spec → Converted Spec
  parse_failed : EbnfParseError → Converted Spec
  compile_failed : Text → Converted Spec

unfoldable pub stamp : Text → Option Text → Text
stamp msg none = msg
stamp msg (some rest) = codes "ebnf: " ++ rest

-- `msg.replace(/^a?bnf: /, 'ebnf: ')`
unfoldable pub restamp : Text → Text
unfolding stamp strip_prefix or_else
restamp msg =
    stamp msg (or_else (strip_prefix (codes "abnf: ") msg) (strip_prefix (codes "bnf: ") msg))

unfoldable pub of_emitted : {Spec : Type 0} → Emitted Spec → Converted Spec
unfolding restamp
of_emitted (emitted s) = spec s
of_emitted (refused e) = parse_failed e
of_emitted (threw msg) = compile_failed (restamp msg)

module _ {Settings Spec : Type 0} (parser : Text → Parsed)
    (emit_grammar_spec : Grammar → ConvertOptions Settings → Emitted Spec) where
  unfoldable pub convert_parsed : Option (ConvertOptions Settings) → Result Grammar → Converted Spec
  unfolding of_emitted with_tag
  convert_parsed opts (ok grammar) = of_emitted (emit_grammar_spec grammar (with_tag opts))
  convert_parsed opts (err e) = parse_failed e

  -- The source's `ebnf`.
  unfoldable pub ebnf_convert : Text → Option (ConvertOptions Settings) → Converted Spec
  unfolding parse_ebnf convert_parsed
  ebnf_convert src opts = convert_parsed opts (parse_ebnf parser src)
