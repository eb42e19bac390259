-- ===== src/Plugin.antt =====
-- The plugin (ts/src/ebnf.ts). An engine instance is a state on which `grammar` installs a spec, which may
-- throw; the plugin's `ebnf` member converts and installs, its `toSpec` only converts.
pub mod Installs
use ebnf.Base.{Option, none, some, Text}
use ebnf.Ir.{Grammar}
use ebnf.Error.{EbnfParseError}
use ebnf.Convert.{
  Parsed, ConvertOptions, Emitted, Converted, spec, parse_failed, compile_failed, ebnf_convert,
}

-- What `tn.ebnf` returns or throws: a spec, what `ebnfConvert` throws, or what `tn.grammar` throws.
pub data Outcome (Spec Thrown : Type 0) : Type 0 where
  gave : Spec → Outcome Spec Thrown
  not_parsed : EbnfParseError → Outcome Spec Thrown
  not_compiled : Text → Outcome Spec Thrown
  not_installed : Thrown → Outcome Spec Thrown

module _ {Spec Engine Thrown : Type 0} where
  -- `tn.grammar(spec)` leaves an instance, and returns or throws.
  unfoldable pub behind_grammar : Spec → Engine × Option Thrown → Outcome Spec Thrown × Engine
  behind_grammar s (tn, none) = (gave s, tn)
  behind_grammar s (tn, some t) = (not_installed t, tn)

  -- What `fn` does once `ebnfConvert` has returned or thrown.
  unfoldable pub installed :
      (Engine → Spec → Engine × Option Thrown)
      → Engine
      → Converted Spec
      → Outcome Spec Thrown × Engine
  unfolding behind_grammar
  installed grammar tn (spec s) = behind_grammar s (grammar tn s)
  installed grammar tn (parse_failed e) = (not_parsed e, tn)
  installed grammar tn (compile_failed msg) = (not_compiled msg, tn)

module _ {Settings Spec Engine Thrown : Type 0} (parser : Text → Parsed)
    (emit_grammar_spec : Grammar → ConvertOptions Settings → Emitted Spec)
    (grammar : Engine → Spec → Engine × Option Thrown) where
  -- `tn.ebnf(src, opts)`, with the instance after it.
  unfoldable pub install :
      Engine → Text → Option (ConvertOptions Settings) → Outcome Spec Thrown × Engine
  unfolding installed
  install tn src opts = installed grammar tn (ebnf_convert parser emit_grammar_spec src opts)

module _ {Settings Spec : Type 0} (parser : Text → Parsed)
    (emit_grammar_spec : Grammar → ConvertOptions Settings → Emitted Spec) where
  -- `tn.ebnf.toSpec(src, opts)`, and the bare export of that name.
  unfoldable pub to_spec : Text → Option (ConvertOptions Settings) → Converted Spec
  to_spec src opts = ebnf_convert parser emit_grammar_spec src opts
