-- ===== src/Nullable.antt =====
-- Which rules derive the empty text (ts/src/converter.ts: `elDerivesEmpty` to `nullableRules`).
-- A `Set<string>` is the list of its members in the order they were added.
pub mod Language
pub mod Fixpoint
pub mod Sound
pub mod Complete
use ebnf.Base.{
  has, ℕ, zero, suc, Bool, true, false, ◌&&◌, ◌||◌, List, [], ◌∷◌, ◌++◌, ◌==◌, if◌then◌else◌, Text,
  text_eq, length,
}
use ebnf.Ir.{
  Element, term, regex, ref, group, opt, star, plus, rep, token, prose, Sequence, nil, cons, Alts,
  no_alts, alt, Production,
}

-- `alt_derives_empty` is `every` over a sequence, and `some_alt` is `some` over the alternatives.
unfoldable mutual
  unfolding has

  pub el_derives_empty : Element → List Text → Bool
  el_derives_empty (opt inner) nullable = true
  el_derives_empty (star inner) nullable = true
  el_derives_empty (plus inner) nullable = el_derives_empty inner nullable
  el_derives_empty (rep least inner) nullable = least == 0
  el_derives_empty (group alts sp) nullable = some_alt alts nullable
  el_derives_empty (ref name sp) nullable = has name nullable
  el_derives_empty (term literal case_sensitive sp) nullable = false
  el_derives_empty (regex pattern flags sp) nullable = false
  el_derives_empty token nullable = false
  el_derives_empty prose nullable = false

  pub alt_derives_empty : Sequence → List Text → Bool
  alt_derives_empty nil nullable = true
  alt_derives_empty (cons el els) nullable =
      el_derives_empty el nullable && alt_derives_empty els nullable

  pub some_alt : Alts → List Text → Bool
  some_alt no_alts nullable = false
  some_alt (alt a alts) nullable = alt_derives_empty a nullable || some_alt alts nullable

-- The two variables of the loop.
pub record Pass : Type 0 where
  pub nullable : List Text
  pub changed : Bool

-- The body of the inner loop.
unfoldable pub visit : Pass → Production → Pass
unfolding has some_alt
visit s p =
    if has p.name s.nullable
    then s
    else if some_alt p.alts s.nullable
    then record { nullable = s.nullable ++ p.name ∷ []; changed = true }
    else s

-- `for (const p of prods)`
unfoldable pub pass : Pass → List Production → Pass
unfolding visit
pass s [] = s
pass s (p ∷ ps) = pass (visit s p) ps

-- `while (changed)`, for as many rounds as the fuel allows.
unfoldable pub nullable_loop : ℕ → List Production → List Text → List Text
unfolding pass
nullable_loop zero prods nullable = nullable
nullable_loop (suc f) prods nullable =
    let s : Pass = pass (record { nullable = nullable; changed = false }) prods in
    let rest = nullable_loop f prods s.nullable in if s.changed then rest else s.nullable

-- Each round but the last adds a rule, so one more round than there are rules is enough.
unfoldable pub nullable_rules : List Production → List Text
unfolding nullable_loop
nullable_rules prods = nullable_loop (suc (length prods)) prods []
