-- ===== src/Convert/Restamp.antt =====
-- The prefix of a compiler's message, and the outcomes of a conversion.
use ebnf.Base.{
  strip_prefix, ◌≡◌, refl, ap, ◌↔◌, Option-cases, inl, inr, Option, none, some, ◌++◌, Text, codes,
}
use ebnf.Ir.{Grammar}
use ebnf.Error.{Result, ok, err}
use ebnf.Convert.{
  or_else, stamp, restamp, Parsed, parse_ebnf, ConvertOptions, with_tag, Emitted, emitted, refused,
  threw, spec, of_emitted, convert_parsed, ebnf_convert,
}

restamp-ebnf : (rest : Text) → restamp (codes "ebnf: " ++ rest) ≡ codes "ebnf: " ++ rest
unfolding restamp
restamp-ebnf rest = refl

-- The message of the compiler behind its prefix, where it has one of the two.
abbrev pub message_of : Text → Option Text
message_of msg = or_else (strip_prefix (codes "abnf: ") msg) (strip_prefix (codes "bnf: ") msg)

restamp-none : (msg : Text) → message_of msg ≡ none → restamp msg ≡ msg
unfolding restamp
restamp-none msg e = rw (e, stamp)

restamp-some : (msg rest : Text) → message_of msg ≡ some rest → restamp msg ≡ codes "ebnf: " ++ rest
unfolding restamp
restamp-some msg rest e = rw (e, stamp)

-- Restamping a message twice is restamping it once.
pub restamp-restamp : (msg : Text) → restamp (restamp msg) ≡ restamp msg
restamp-restamp msg = elim (Option-cases (message_of msg)) [
  | inl other ↦ ap restamp (restamp-none msg other)
  | inr (rest, own) ↦ rw (restamp-some msg rest own) (restamp-ebnf rest)
]

of_emitted-spec :
    {Spec : Type 0} (o : Emitted Spec) (s : Spec) → of_emitted o ≡ spec s → o ≡ emitted s
unfolding of_emitted
of_emitted-spec (emitted t) s e = cc
of_emitted-spec (refused x) s e = cc
of_emitted-spec (threw msg) s e = cc

module _ {Settings Spec : Type 0} (parser : Text → Parsed)
    (emit : Grammar → ConvertOptions Settings → Emitted Spec)
    (opts : Option (ConvertOptions Settings)) where
  convert_parsed-spec :
      (r : Result Grammar) (s : Spec)
      → convert_parsed parser emit opts r ≡ spec s
      → (g : Grammar) × (r ≡ ok g) × (emit g (with_tag opts) ≡ emitted s)
  unfolding convert_parsed
  convert_parsed-spec (ok g) s e = (g, refl, of_emitted-spec (emit g (with_tag opts)) s e)
  convert_parsed-spec (err x) s e = cc

  pub ebnf_convert-spec_iff :
      (src : Text) (s : Spec)
      → (ebnf_convert parser emit src opts ≡ spec s)
        ↔ ((g : Grammar) × (parse_ebnf parser src ≡ ok g) × (emit g (with_tag opts) ≡ emitted s))
  unfolding ebnf_convert
  ebnf_convert-spec_iff src s = (
    convert_parsed-spec (parse_ebnf parser src) s,
    λ (g, read, made). rw read (rw (made, of_emitted)),
  )
