-- ===== src/Rules/Valid.antt =====
-- What every tree of the rule table is like: the invariant of its actions and hooks.
use ebnf.Base.{
  drop, ℕ, ◌≡◌, refl, sym, subst, ◌∙◌, ◌≢◌, ◌⊎◌, inl, inr, Bool, true, false, Bool-cases, Option,
  none, some, List, [], ◌∷◌, All, All-append, Text, ltb,
}
use ebnf.Ir.{
  PostOp, Element, term, regex, ref, group, opt, star, plus, rep, token, prose, Sequence, nil, cons,
  Alts, no_alts, alt, Production,
}
use ebnf.Error.{ok, >>=-eq-ok, ok-injective}
use ebnf.Token.{span_of, Token, string_term, literal_term}
use ebnf.Hex.{code_point}
use ebnf.CharClass.{
  class_parts, is_negated, is_astral, from_code_point, hex_term, parse_char_class, class_flags,
}
use ebnf.Nullable.Complete.{NoRep, NoRepSequence, NoRepAlts}
use ebnf.Rules.Actions.{
  Notes, push_alt, push_element, read_name, prod_bc, alts_bc, wrap, wrap_all, ops_of, push_atom,
  take_atom, elem_bc, read_ref, close_group,
}
use ebnf.Rules.Names.{IsName, read_name-read_ref}
use ebnf.Rules.Trees.{
  ReadAtom, string_atom, class_atom, hex_atom, ref_atom, group_atom, ReadSequence, bo_seq,
  elem_closed, ReadAlts, bo_alts, seq_closed, ReadProductions, start, prod_closed,
}

-- A literal is not empty and is matched by case, a class has no flag but `u`, a reference is to a
-- name, and no element is a bounded repetition, an engine token or prose.
abbrev mutual
  pub Valid : Element → Type 0
  Valid (term literal case_sensitive _) = (literal ≢ []) × (case_sensitive ≡ true)
  Valid (regex _ flags _) = (flags ≡ []) ⊎ (flags ≡ b'u' ∷ [])
  Valid (ref name _) = IsName name
  Valid (group alts _) = ValidAlts alts
  Valid (opt inner) = Valid inner
  Valid (star inner) = Valid inner
  Valid (plus inner) = Valid inner
  Valid (rep _ _) = ⊥
  Valid token = ⊥
  Valid prose = ⊥

  pub ValidSequence : Sequence → Type 0
  ValidSequence nil = Unit
  ValidSequence (cons el els) = Valid el × ValidSequence els

  pub ValidAlts : Alts → Type 0
  ValidAlts no_alts = Unit
  ValidAlts (alt a alts) = ValidSequence a × ValidAlts alts

abbrev pub ValidProduction : Production → Type 0
ValidProduction p = IsName p.name × ValidAlts p.alts

-- Notes with nothing on them.
abbrev any_notes : Notes
any_notes = record {
  name = [];
  name_tkn = none;
  got = false;
  atom = none;
  group = false;
  lp = none;
}

literal_term-Valid :
    (tkn : Token) (val : Text) {el : Element} → literal_term tkn val ≡ ok el → Valid el
unfolding literal_term
literal_term-Valid tkn [] e = cc
literal_term-Valid tkn (c ∷ cs) e = subst Valid (ok-injective e) (λ x. cc, refl)

from_code_point-nonempty : (n : ℕ) → from_code_point n ≢ []
unfolding from_code_point
from_code_point-nonempty n e = elim (Bool-cases (ltb 0xFFFF n)) [
  | inl astral ↦ cc (rw astral at e)
  | inr plain ↦ cc (rw plain at e)
]

hex_term-Valid : (src : Text) (tkn : Token) {el : Element} → hex_term src tkn ≡ ok el → Valid el
unfolding hex_term
hex_term-Valid src tkn e =
    let (n, _, same) = >>=-eq-ok (code_point (drop 2 src) src (some tkn)) _ e in
    let valid : Valid (term (from_code_point n) true (span_of (some tkn))) =
      (from_code_point-nonempty n, refl) in
    subst Valid (ok-injective same) valid

class_flags-cases :
    (negated astral : Bool)
    → (class_flags negated astral ≡ []) ⊎ (class_flags negated astral ≡ b'u' ∷ [])
unfolding class_flags
class_flags-cases true astral = inr refl
class_flags-cases false true = inr refl
class_flags-cases false false = inl refl

parse_char_class-Valid :
    (src : Text) (tkn : Token) {el : Element} → parse_char_class src tkn ≡ ok el → Valid el
unfolding parse_char_class
parse_char_class-Valid src tkn e =
    let (parts, _, same) = >>=-eq-ok (class_parts src (some tkn)) _ e in
    subst Valid (ok-injective same) (class_flags-cases (is_negated src) (is_astral parts))

read_ref-Valid : (tkn : Token) {el : Element} → read_ref tkn ≡ ok el → Valid el
read_ref-Valid tkn e = elim (read_name-read_ref any_notes tkn) [
  | inl (is_name, _, read) ↦ subst Valid (ok-injective (sym read ∙ e)) is_name
  | inr (_, _, thrown) ↦ cc
]

read_name-IsName : (u₀ : Notes) (tkn : Token) {u : Notes} → read_name u₀ tkn ≡ ok u → IsName u.name
read_name-IsName u₀ tkn e = elim (read_name-read_ref u₀ tkn) [
  | inl (is_name, read, _) ↦
      subst (λ (v : Notes). IsName v.name) (ok-injective (sym read ∙ e)) is_name
  | inr (_, thrown, _) ↦ cc
]

wrap-Valid : (el : Element) (op : PostOp) → Valid el → Valid (wrap el op)
unfolding wrap
wrap-Valid el PostOp.opt h = h
wrap-Valid el PostOp.star h = h
wrap-Valid el PostOp.plus h = h

wrap_all-Valid : (el : Element) (ops : List PostOp) → Valid el → Valid (wrap_all el ops)
unfolding wrap_all
wrap_all-Valid el [] h = h
wrap_all-Valid el (op ∷ ops) h = wrap_all-Valid (wrap el op) ops (wrap-Valid el op h)

push_element-Valid :
    (s : Sequence) (el : Element) → ValidSequence s → Valid el → ValidSequence (push_element s el)
unfolding push_element
push_element-Valid nil el h k = (k, tt)
push_element-Valid (cons e s) el h k = (h.0, push_element-Valid s el h.1 k)

push_alt-Valid :
    (alts : Alts) (s : Sequence) → ValidAlts alts → ValidSequence s → ValidAlts (push_alt alts s)
unfolding push_alt
push_alt-Valid no_alts s h k = (k, tt)
push_alt-Valid (alt a alts) s h k = (h.0, push_alt-Valid alts s h.1 k)

elem_bc-Valid :
    (node : Sequence) (u : Notes) (el : Element) (ops : Option (List PostOp))
    → ValidSequence node
    → Valid el
    → ValidSequence (elem_bc node (take_atom u (some el)) ops)
unfolding elem_bc take_atom push_atom
elem_bc-Valid node u el ops h k =
    push_element-Valid node (wrap_all el (ops_of ops)) h (wrap_all-Valid el (ops_of ops) k)

mutual
  unfolding string_term close_group alts_bc

  ReadAtom-Valid : {el : Element} → ReadAtom el → Valid el
  ReadAtom-Valid (string_atom tkn e) = literal_term-Valid tkn tkn.val e
  ReadAtom-Valid (class_atom tkn e) = parse_char_class-Valid tkn.src tkn e
  ReadAtom-Valid (hex_atom tkn e) = hex_term-Valid tkn.src tkn e
  ReadAtom-Valid (ref_atom tkn e) = read_ref-Valid tkn e
  ReadAtom-Valid (group_atom u c0 alts e) = subst Valid (sym e) (ReadAlts-Valid alts)

  ReadSequence-Valid : {s : Sequence} → ReadSequence s → ValidSequence s
  ReadSequence-Valid (bo_seq e) = subst ValidSequence (sym e) tt
  ReadSequence-Valid (elem_closed u ops s el e) =
      subst ValidSequence (sym e)
        (elem_bc-Valid _ u _ ops (ReadSequence-Valid s) (ReadAtom-Valid el))

  ReadAlts-Valid : {alts : Alts} → ReadAlts alts → ValidAlts alts
  ReadAlts-Valid (bo_alts e) = subst ValidAlts (sym e) tt
  ReadAlts-Valid (seq_closed alts s e) =
      subst ValidAlts (sym e) (push_alt-Valid _ _ (ReadAlts-Valid alts) (ReadSequence-Valid s))

-- Every production that the table's actions and hooks build, in whichever order they run, has a valid
-- name, and its elements, at any depth, are nonempty literals matched by case, classes with no flag
-- but `u`, references to valid names, and groups and the three repetitions of those.
pub ReadProductions-Valid :
    {prods : List Production} → ReadProductions prods → All ValidProduction prods
unfolding prod_bc
ReadProductions-Valid (start e) = subst (All ValidProduction) (sym e) tt
ReadProductions-Valid (prod_closed u₀ tkn prods e alts same) =
    subst (All ValidProduction) (sym same) (
      All-append ValidProduction _ _ (ReadProductions-Valid prods)
        ((read_name-IsName u₀ tkn e, ReadAlts-Valid alts), tt))

mutual
  Valid-NoRep : (el : Element) → Valid el → NoRep el
  Valid-NoRep (term _ _ _) h = tt
  Valid-NoRep (regex _ _ _) h = tt
  Valid-NoRep (ref _ _) h = tt
  Valid-NoRep (group alts _) h = Valid-NoRepAlts alts h
  Valid-NoRep (opt inner) h = Valid-NoRep inner h
  Valid-NoRep (star inner) h = Valid-NoRep inner h
  Valid-NoRep (plus inner) h = Valid-NoRep inner h
  Valid-NoRep (rep _ _) h = absurd h
  Valid-NoRep token h = absurd h
  Valid-NoRep prose h = absurd h

  Valid-NoRepSequence : (s : Sequence) → ValidSequence s → NoRepSequence s
  Valid-NoRepSequence nil h = tt
  Valid-NoRepSequence (cons el s) h = (Valid-NoRep el h.0, Valid-NoRepSequence s h.1)

  Valid-NoRepAlts : (alts : Alts) → ValidAlts alts → NoRepAlts alts
  Valid-NoRepAlts no_alts h = tt
  Valid-NoRepAlts (alt a alts) h = (Valid-NoRepSequence a h.0, Valid-NoRepAlts alts h.1)

All-Valid-NoRep :
    (prods : List Production) → All ValidProduction prods → All (λ p. NoRepAlts p.alts) prods
All-Valid-NoRep [] h = tt
All-Valid-NoRep (p ∷ prods) h = (Valid-NoRepAlts p.alts h.0.1, All-Valid-NoRep prods h.1)

-- The trees of the table hold no bounded repetition.
pub ReadProductions-NoRep :
    {prods : List Production} → ReadProductions prods → All (λ p. NoRepAlts p.alts) prods
ReadProductions-NoRep r = All-Valid-NoRep _ (ReadProductions-Valid r)
