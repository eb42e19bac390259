-- ===== src/Rules/Actions.antt =====
-- The guards, actions and hooks of the rule table, each over the fields of the rule that it reads:
-- `r.node`, `r.u`, `r.o[0]`, `r.c0` and `r.child.node`. A value is `none` where it may be undefined.
use ebnf.Base.{Bool, true, Option, none, some, List, [], ◌∷◌, ◌++◌, if◌then◌else◌, Text}
use ebnf.Ir.{PostOp, Element, ref, group, Sequence, nil, cons, Alts, no_alts, alt, Production}
use ebnf.Error.{Result, ok, ◌>>=◌}
use ebnf.Token.{Token, span_of, span_to, check_name}

-- What a rule keeps on `r.u`.
pub record Notes : Type 0 where
  pub name : Text
  pub name_tkn : Option Token
  pub got : Bool
  pub atom : Option Element
  pub group : Bool
  pub lp : Option Token

-- `r.node.push(x)` on an array of alternatives, and on one of elements.
unfoldable pub push_alt : Alts → Sequence → Alts
push_alt no_alts s = alt s no_alts
push_alt (alt a alts) s = alt a (push_alt alts s)

unfoldable pub push_element : Sequence → Element → Sequence
push_element nil el = cons el nil
push_element (cons e els) el = cons e (push_element els el)

-- `prod`, open: the name is checked as it is read.
unfoldable pub read_name : Notes → Token → Result Notes
unfolding check_name
read_name u tkn = do
  name ← check_name tkn.val (some tkn)
  ok (record u { name = name; name_tkn = some tkn })

-- `prod`, before it closes.
unfoldable pub prod_bc : List Production → Notes → Option Alts → List Production
unfolding span_of
prod_bc node u none = node
prod_bc node u (some alts) =
    node ++ (record { name = u.name; alts = alts; sp = span_of u.name_tkn } ∷ [])

-- `alts`, before it closes.
unfoldable pub alts_bc : Alts → Option Sequence → Alts
unfolding push_alt
alts_bc node none = node
alts_bc node (some s) = push_alt node s

-- `elem`, close: the atom is taken once.
unfoldable pub take_atom : Notes → Option Element → Notes
take_atom u child = record u { got = true; atom = child }

-- `el = { kind: op, inner: el }`
unfoldable pub wrap : Element → PostOp → Element
wrap el PostOp.opt = Element.opt el
wrap el PostOp.star = Element.star el
wrap el PostOp.plus = Element.plus el

-- The loop over the operators: the first one stands innermost.
unfoldable pub wrap_all : Element → List PostOp → Element
unfolding wrap
wrap_all el [] = el
wrap_all el (op ∷ ops) = wrap_all (wrap el op) ops

unfoldable pub ops_of : Option (List PostOp) → List PostOp
ops_of none = []
ops_of (some ops) = ops

unfoldable pub push_atom : Sequence → Option Element → Option (List PostOp) → Sequence
unfolding wrap_all ops_of push_element
push_atom node none child = node
push_atom node (some el) child = push_element node (wrap_all el (ops_of child))

-- `elem`, before it closes.
unfoldable pub elem_bc : Sequence → Notes → Option (List PostOp) → Sequence
unfolding push_atom
elem_bc node u child = if u.got then push_atom node u.atom child else node

-- `post`, before it closes: its own operator, then those behind it.
unfoldable pub post_bc : List PostOp → Option (List PostOp) → List PostOp
unfolding ops_of
post_bc node child = node ++ ops_of child

unfoldable pub read_ref : Token → Result Element
unfolding check_name span_of
read_ref tkn = do name ← check_name tkn.val (some tkn); ok (ref name (span_of (some tkn)))

-- `atom`, open, at `(`.
unfoldable pub open_group : Notes → Token → Notes
open_group u tkn = record u { group = true; lp = some tkn }

-- `atom`, close, at `)`: the group runs from its `(` to its `)`.
unfoldable pub close_group : Notes → Alts → Token → Element
unfolding span_to
close_group u alts c0 = group alts (span_to u.lp (some c0))
