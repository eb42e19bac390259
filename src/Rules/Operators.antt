-- ===== src/Rules/Operators.antt =====
-- The hooks keep the operators of an element in order.
use ebnf.Base.{◌≡◌, refl, sym, ap, append-nil, append_assoc, ◌∙◌, some, List, [], ◌∷◌, ◌++◌}
use ebnf.Ir.{PostOp, Element, Sequence, nil, cons}
use ebnf.Rules.Actions.{
  Notes, push_element, wrap, wrap_all, ops_of, push_atom, take_atom, elem_bc, post_bc,
}

-- The elements of a sequence, as a list.
abbrev pub to_list : Sequence → List Element
to_list nil = []
to_list (cons el els) = el ∷ to_list els

to_list-push_element :
    (s : Sequence) (el : Element) → to_list (push_element s el) ≡ to_list s ++ el ∷ []
unfolding push_element
to_list-push_element nil el = refl
to_list-push_element (cons e s) el = ap (◌∷◌ e) (to_list-push_element s el)

wrap_all-append :
    (el : Element) (ops more : List PostOp)
    → wrap_all el (ops ++ more) ≡ wrap_all (wrap_all el ops) more
unfolding wrap_all
wrap_all-append el [] more = refl
wrap_all-append el (op ∷ ops) more = wrap_all-append (wrap el op) ops more

push_atom-last :
    (node : Sequence) (el : Element) (ops more : List PostOp)
    → to_list (push_atom node (some el) (some (ops ++ more)))
      ≡ to_list node ++ wrap_all (wrap_all el ops) more ∷ []
unfolding push_atom ops_of
push_atom-last node el ops more =
    to_list-push_element node (wrap_all el (ops ++ more))
    ∙ ap (λ (x : Element). to_list node ++ x ∷ []) (wrap_all-append el ops more)

-- An element that is no operator applied to another.
abbrev pub IsAtom : Element → Type 0
IsAtom (Element.opt el) = ⊥
IsAtom (Element.star el) = ⊥
IsAtom (Element.plus el) = ⊥
IsAtom _ = Unit {0}

-- The operators of an element, the innermost first, and what they stand on.
abbrev pub operators : Element → List PostOp
operators (Element.opt el) = operators el ++ PostOp.opt ∷ []
operators (Element.star el) = operators el ++ PostOp.star ∷ []
operators (Element.plus el) = operators el ++ PostOp.plus ∷ []
operators _ = []

abbrev pub operand : Element → Element
operand (Element.opt el) = operand el
operand (Element.star el) = operand el
operand (Element.plus el) = operand el
operand el = el

operators-wrap : (el : Element) (op : PostOp) → operators (wrap el op) ≡ operators el ++ op ∷ []
unfolding wrap
operators-wrap el PostOp.opt = refl
operators-wrap el PostOp.star = refl
operators-wrap el PostOp.plus = refl

operand-wrap : (el : Element) (op : PostOp) → operand (wrap el op) ≡ operand el
unfolding wrap
operand-wrap el PostOp.opt = refl
operand-wrap el PostOp.star = refl
operand-wrap el PostOp.plus = refl

operators-wrap_all :
    (el : Element) (ops : List PostOp) → operators (wrap_all el ops) ≡ operators el ++ ops
unfolding wrap_all
operators-wrap_all el [] = sym (append-nil (operators el))
operators-wrap_all el (op ∷ ops) =
    operators-wrap_all (wrap el op) ops
    ∙ ap (λ xs. xs ++ ops) (operators-wrap el op)
    ∙ append_assoc (operators el) (op ∷ []) ops

operand-wrap_all : (el : Element) (ops : List PostOp) → operand (wrap_all el ops) ≡ operand el
unfolding wrap_all
operand-wrap_all el [] = refl
operand-wrap_all el (op ∷ ops) = operand-wrap_all (wrap el op) ops ∙ operand-wrap el op

IsAtom-operators : (el : Element) → IsAtom el → (operators el ≡ []) × (operand el ≡ el)
IsAtom-operators (Element.opt el) h = absurd h
IsAtom-operators (Element.star el) h = absurd h
IsAtom-operators (Element.plus el) h = absurd h
IsAtom-operators (Element.term _ _ _) h = (refl, refl)
IsAtom-operators (Element.regex _ _ _) h = (refl, refl)
IsAtom-operators (Element.ref _ _) h = (refl, refl)
IsAtom-operators (Element.group _ _) h = (refl, refl)
IsAtom-operators (Element.rep _ _) h = (refl, refl)
IsAtom-operators Element.token h = (refl, refl)
IsAtom-operators Element.prose h = (refl, refl)

-- An atom followed by operators, of which `post` read some and its child the rest, is added behind the
-- elements that the sequence holds as one element: the atom under just those operators in the order
-- they were read, the first one innermost.
pub elem_bc-post_bc :
    (node : Sequence) (u : Notes) (el : Element) (ops more : List PostOp)
    → IsAtom el
    → (x : Element) × (to_list
          (elem_bc node (take_atom u (some el)) (some (post_bc ops (some more))))
        ≡ to_list node ++ x ∷ [])
      × (operators x ≡ ops ++ more)
      × (operand x ≡ el)
unfolding elem_bc take_atom post_bc ops_of
elem_bc-post_bc node u el ops more h =
    let bare = IsAtom-operators el h in
    (
      wrap_all (wrap_all el ops) more,
      push_atom-last node el ops more,
      ap operators (sym (wrap_all-append el ops more))
          ∙ operators-wrap_all el (ops ++ more)
          ∙ ap (λ xs. xs ++ (ops ++ more)) bare.0,
      operand-wrap_all (wrap_all el ops) more ∙ operand-wrap_all el ops ∙ bare.1,
    )
