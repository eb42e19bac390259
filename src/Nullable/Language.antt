-- ===== src/Nullable/Language.antt =====
-- The texts that an element, a sequence or a choice derives, as a specification independent of the
-- analysis. What a terminal matches is a parameter: the compiler of the IR decides it.
use ebnf.Base.{ℕ, ◌-◌, ◌≡◌, ◌⊎◌, List, [], ◌∷◌, ◌++◌, Option, Text}
use ebnf.Ir.{
  SrcSpan, Element, term, regex, ref, group, opt, star, plus, rep, token, prose, Sequence, nil,
  cons, Alts, alt, Production,
}

abbrev pub IsTerminal : Element → Type 0
IsTerminal (term _ _ _) = Unit
IsTerminal (regex _ _ _) = Unit
IsTerminal token = Unit
IsTerminal prose = Unit
IsTerminal _ = ⊥

abbrev pub Member : Production → List Production → Type 0
Member p [] = ⊥
Member p (q ∷ qs) = (p ≡ q) ⊎ Member p qs

mutual
  pub data Yields (Accepts : Element → Text → Type 0) (prods : List Production)
      : Element → Text → Type 0 where
    terminal : {el : Element} {w : Text} → IsTerminal el → Accepts el w → Yields Accepts prods el w
    opt_none : {el : Element} {w : Text} → w ≡ [] → Yields Accepts prods (opt el) w
    opt_some :
        {el : Element} {w : Text} → Yields Accepts prods el w → Yields Accepts prods (opt el) w
    star_none : {el : Element} {w : Text} → w ≡ [] → Yields Accepts prods (star el) w
    star_more :
        {el : Element} {u v w : Text}
        → Yields Accepts prods el v
        → Yields Accepts prods (star el) w
        → u ≡ v ++ w
        → Yields Accepts prods (star el) u
    plus_one :
        {el : Element} {w : Text} → Yields Accepts prods el w → Yields Accepts prods (plus el) w
    plus_more :
        {el : Element} {u v w : Text}
        → Yields Accepts prods el v
        → Yields Accepts prods (plus el) w
        → u ≡ v ++ w
        → Yields Accepts prods (plus el) u
    rep_none :
        {least : ℕ} {el : Element} {w : Text}
        → least ≡ 0
        → w ≡ []
        → Yields Accepts prods (rep least el) w
    rep_more :
        {least : ℕ} {el : Element} {u v w : Text}
        → Yields Accepts prods el v
        → Yields Accepts prods (rep (least - 1) el) w
        → u ≡ v ++ w
        → Yields Accepts prods (rep least el) u
    in_group :
        {alts : Alts} {sp : Option SrcSpan} {w : Text}
        → YieldsAlts Accepts prods alts w
        → Yields Accepts prods (group alts sp) w
    by_name :
        {name : Text} {sp : Option SrcSpan} {w : Text} (p : Production)
        → Member p prods
        → p.name ≡ name
        → YieldsAlts Accepts prods p.alts w
        → Yields Accepts prods (ref name sp) w

  pub data YieldsSequence (Accepts : Element → Text → Type 0) (prods : List Production)
      : Sequence → Text → Type 0 where
    no_elements : {w : Text} → w ≡ [] → YieldsSequence Accepts prods nil w
    elements :
        {el : Element} {els : Sequence} {u v w : Text}
        → Yields Accepts prods el v
        → YieldsSequence Accepts prods els w
        → u ≡ v ++ w
        → YieldsSequence Accepts prods (cons el els) u

  pub data YieldsAlts (Accepts : Element → Text → Type 0) (prods : List Production)
      : Alts → Text → Type 0 where
    here :
        {a : Sequence} {alts : Alts} {w : Text}
        → YieldsSequence Accepts prods a w
        → YieldsAlts Accepts prods (alt a alts) w
    there :
        {a : Sequence} {alts : Alts} {w : Text}
        → YieldsAlts Accepts prods alts w
        → YieldsAlts Accepts prods (alt a alts) w

-- Some rule of that name derives the text.
pub record YieldsRule (Accepts : Element → Text → Type 0) (prods : List Production) (name w : Text)
    : Type 0 where
  pub rule : Production
  pub is_member : Member rule prods
  pub has_name : rule.name ≡ name
  pub yields : YieldsAlts Accepts prods rule.alts w
