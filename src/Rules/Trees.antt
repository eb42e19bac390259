-- ===== src/Rules/Trees.antt =====
-- The trees that the actions and hooks of the rule table build (ts/src/converter.ts: `ebnfRules`), in
-- whichever order an engine runs the rules: each constructor is one use of an action or hook.
use ebnf.Base.{◌≡◌, Option, some, List, []}
use ebnf.Ir.{PostOp, Element, Sequence, nil, Alts, no_alts, Production}
use ebnf.Error.{ok}
use ebnf.Token.{Token, string_term}
use ebnf.CharClass.{hex_term, parse_char_class}
use ebnf.Rules.Actions.{
  Notes, read_name, prod_bc, alts_bc, take_atom, elem_bc, read_ref, close_group,
}

mutual
  -- The node of a rule `atom` that has closed.
  pub data ReadAtom : Element → Type 0 where
    string_atom : {el : Element} (tkn : Token) → string_term tkn ≡ ok el → ReadAtom el
    class_atom : {el : Element} (tkn : Token) → parse_char_class tkn.src tkn ≡ ok el → ReadAtom el
    hex_atom : {el : Element} (tkn : Token) → hex_term tkn.src tkn ≡ ok el → ReadAtom el
    ref_atom : {el : Element} (tkn : Token) → read_ref tkn ≡ ok el → ReadAtom el
    group_atom :
        {el : Element} {alts : Alts} (u : Notes) (c0 : Token)
        → ReadAlts alts
        → el ≡ close_group u alts c0
        → ReadAtom el

  -- The node of a rule `seq`, to which the rules `elem` below it add.
  pub data ReadSequence : Sequence → Type 0 where
    bo_seq : {s : Sequence} → s ≡ nil → ReadSequence s
    elem_closed :
        {s t : Sequence} {el : Element} (u : Notes) (ops : Option (List PostOp))
        → ReadSequence s
        → ReadAtom el
        → t ≡ elem_bc s (take_atom u (some el)) ops
        → ReadSequence t

  -- The node of a rule `alts`.
  pub data ReadAlts : Alts → Type 0 where
    bo_alts : {alts : Alts} → alts ≡ no_alts → ReadAlts alts
    seq_closed :
        {alts more : Alts} {s : Sequence}
        → ReadAlts alts
        → ReadSequence s
        → more ≡ alts_bc alts (some s)
        → ReadAlts more

-- The node of the rule `ebnf`, to which the rules `prod` below it add.
pub data ReadProductions : List Production → Type 0 where
  start : {prods : List Production} → prods ≡ [] → ReadProductions prods
  prod_closed :
      {prods more : List Production} {u : Notes} {alts : Alts} (u₀ : Notes) (tkn : Token)
      → ReadProductions prods
      → read_name u₀ tkn ≡ ok u
      → ReadAlts alts
      → more ≡ prod_bc prods u (some alts)
      → ReadProductions more
