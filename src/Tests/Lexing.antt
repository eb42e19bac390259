-- ===== src/Tests/Lexing.antt =====
-- Matchers and the rule table.
use ebnf.Base.{◌≡◌, refl, ◌↔◌, Bool, true, false, not, ◌||◌, none, some, [], ◌∷◌, ◌++◌, Text, codes}
use ebnf.Ir.{PostOp, Element, ref, Sequence, nil, cons}
use ebnf.Lexer.{match_def, match_class, match_hex, Point, iso_comment_matcher}
use ebnf.Lexer.Classes.{BeginsWithClass, match_class_iff}
use ebnf.Lexer.Comments.{
  BeginsWithComment, comment_text, point_after, iso_comment_matcher-comment,
  iso_comment_matcher-BeginsWithComment,
}
use ebnf.Rules.{Guard, always, tx, def, seq, open_alternates, close_alternates}
use ebnf.Parser.{Pattern, match_token}
use ebnf.Parser.Tokens.{match_token-exclusive}
use ebnf.Rules.{ca}
use ebnf.Rules.Dispatch.{
  rejection, opening_error, first_match, pushes_elem, ends_rule, rejects, starts_element,
  ends_sequence, is_comma, unnamed, seq_open-dispatch, seq_close-dispatch,
}
use ebnf.Rules.Actions.{Notes, take_atom, elem_bc, post_bc}
use ebnf.Rules.Operators.{to_list, operators, operand, elem_bc-post_bc}

matcher_runs :
    (match_def (codes "::= x") ≡ some (codes "::="))
    × (match_class (codes "[a-z]+") ≡ some (codes "[a-z]"))
    × (match_class (codes "[a\n]") ≡ none)
    × (match_hex (codes "#xD7FF;") ≡ some (codes "#xD7FF"))
    × (match_hex (codes "#X41") ≡ none)
unfolding match_def match_class match_hex
matcher_runs = (refl, refl, refl, refl, refl)

abbrev source : Text
source = codes "A (* one\ntwo *) ::= x"

abbrev second_point : Point
second_point = record { s_i = 2; r_i = 1; c_i = 3 }

-- A token is its text here.
abbrev text_token : Text → Text → Point → Text
text_token val src pnt = src

comment_run :
    iso_comment_matcher text_token source second_point
    ≡ some (codes "(* one\ntwo *)", record { s_i = 15; r_i = 2; c_i = 7 })
unfolding iso_comment_matcher
comment_run = refl

-- `(*)` opens a comment and does not close it.
unclosed_run :
    iso_comment_matcher text_token (codes "(*)") (record { s_i = 0; r_i = 1; c_i = 1 }) ≡ none
unfolding iso_comment_matcher
unclosed_run = refl

abbrev source_comment : BeginsWithComment source second_point
source_comment = record {
  body = codes " one\ntwo ";
  rest = codes " ::= x";
  splits = refl;
  is_first = (refl, (refl, (refl, (refl, (refl, (refl, (refl, (refl, (refl, tt)))))))));
}

iso_comment_matcher-comment_example :
    iso_comment_matcher text_token source second_point
    ≡ some (
      comment_text (codes " one\ntwo "),
      point_after second_point (comment_text (codes " one\ntwo ")),
    )
iso_comment_matcher-comment_example =
    iso_comment_matcher-comment text_token source second_point source_comment

iso_comment_matcher-BeginsWithComment_example : BeginsWithComment source second_point
iso_comment_matcher-BeginsWithComment_example =
    iso_comment_matcher-BeginsWithComment text_token source second_point comment_run

match_class_iff_example :
    (match_class (codes "[^<&]*") ≡ some (codes "[^<&]"))
    ↔ BeginsWithClass (codes "[^<&]*") (codes "[^<&]")
match_class_iff_example = match_class_iff (codes "[^<&]*") (codes "[^<&]")

-- An engine that takes the first alternate that fits, outside a group.
abbrev guards : Guard → Bool
guards always = true
guards _ = false

seq_open-dispatch_example :
    (pushes_elem (first_match guards (open_alternates seq) (ca ∷ tx ∷ [])) ≡ starts_element ca tx)
    × (ends_rule (first_match guards (open_alternates seq) (ca ∷ tx ∷ [])) ≡ unnamed ca)
    × (rejection (first_match guards (open_alternates seq) (ca ∷ tx ∷ [])) ≡ opening_error ca tx)
seq_open-dispatch_example =
    seq_open-dispatch first_match (λ holds xs ahead. refl) guards refl ca tx []

seq_close-dispatch_example :
    (pushes_elem (first_match guards (close_alternates seq) (tx ∷ def ∷ []))
      ≡ (starts_element tx def || is_comma tx))
    × (ends_rule (first_match guards (close_alternates seq) (tx ∷ def ∷ [])) ≡ ends_sequence tx def)
    × (rejects (first_match guards (close_alternates seq) (tx ∷ def ∷ []))
        ≡ not (starts_element tx def || is_comma tx || ends_sequence tx def))
seq_close-dispatch_example =
    seq_close-dispatch first_match (λ holds xs ahead. refl) guards refl tx def []

abbrev fresh : Notes
fresh = record {
  name = codes "A";
  name_tkn = none;
  got = false;
  atom = none;
  group = false;
  lp = none;
}

abbrev one_ref : Sequence
one_ref = cons (ref (codes "B") none) nil

-- `B C*?` after `B`: the element is the option of the repetition.
elem_run :
    elem_bc one_ref
      (take_atom fresh (some (ref (codes "C") none)))
      (some (post_bc (PostOp.star ∷ []) (some (PostOp.opt ∷ []))))
    ≡ cons (ref (codes "B") none) (cons (Element.opt (Element.star (ref (codes "C") none))) nil)
unfolding elem_bc take_atom post_bc
elem_run = refl

elem_bc-post_bc_example :
    (x : Element) × (to_list (
        elem_bc one_ref
          (take_atom fresh (some (ref (codes "C") none)))
          (some (post_bc (PostOp.star ∷ []) (some (PostOp.opt ∷ [])))))
      ≡ to_list one_ref ++ x ∷ [])
    × (operators x ≡ PostOp.star ∷ PostOp.opt ∷ [])
    × (operand x ≡ ref (codes "C") none)
elem_bc-post_bc_example =
    elem_bc-post_bc one_ref fresh (ref (codes "C") none) (PostOp.star ∷ []) (PostOp.opt ∷ []) tt

-- `::=` is no `=`.
match_token-exclusive_example : Pattern.def ≡ Pattern.def
match_token-exclusive_example =
    match_token-exclusive Pattern.def Pattern.def (codes "::= x") (codes "::=") (codes "::=")
      (unfold match_token in refl) (unfold match_token in refl)
