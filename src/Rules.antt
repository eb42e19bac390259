-- ===== src/Rules.antt =====
-- The rule table that reads EBNF (ts/src/converter.ts: `ebnfRules` and `seqAlts`): the alternates of
-- each rule as data, in the order they stand in, with their guards and actions by name. `Actions` says
-- what the guards, actions and hooks do.
pub mod Actions
pub mod Dispatch
pub mod Operators
pub mod Names
pub mod Trees
pub mod Valid
use ebnf.Base.{ℕ, Bool, true, false, Option, none, some, List, [], ◌∷◌, ◌++◌}

-- The token kinds; `other` is any that no alternate names.
pub data Tin : Type 0 where
  def defe bar lp rp star plus qm ca sc os cs ob cb cc_ hx sub tx st zz other : Tin

-- A place in an alternate's `s`: one kind, or the token set `#DEFOP`.
pub data Place : Type 0 where
  one : Tin → Place
  defop : Place

-- `ebnf_rule` is the rule `ebnf`.
pub data RuleName : Type 0 where
  ebnf_rule prod alts seq elem post atom : RuleName

-- The condition in an alternate's `c`.
pub data Guard : Type 0 where
  always not_got in_group : Guard

-- The action in an alternate's `a`.
pub data Action : Type 0 where
  nothing read_name take_atom push_opt push_star push_plus : Action
  read_string read_class read_hex read_ref open_group close_group : Action
  reject_empty reject_comma reject_special reject_subtraction reject_repetition : Action
  reject_bracket reject_dangling reject_unclosed : Action

pub record Alternate : Type 0 where
  pub s : List Place
  pub b : ℕ
  pub c : Guard
  pub a : Action
  pub p : Option RuleName
  pub r : Option RuleName

-- Alternates with one or two of the fields set.
abbrev on : List Place → ℕ → Action → Alternate
on s b a = record { s = s; b = b; c = always; a = a; p = none; r = none }

abbrev push_on : List Place → ℕ → Action → RuleName → Alternate
push_on s b a rule = record { s = s; b = b; c = always; a = a; p = some rule; r = none }

abbrev replace_on : List Place → ℕ → RuleName → Alternate
replace_on s b rule = record { s = s; b = b; c = always; a = nothing; p = none; r = some rule }

abbrev header : List Place
header = one tx ∷ defop ∷ []

-- The alternates that `first` chooses.
unfoldable pub lead : Bool → List Alternate
lead true =
    on header 2 reject_empty
    ∷ on (one bar ∷ []) 0 reject_empty
    ∷ on (one rp ∷ []) 0 reject_empty
    ∷ on (one sc ∷ []) 0 reject_empty
    ∷ on (one zz ∷ []) 0 reject_empty
    ∷ on (one ca ∷ []) 0 reject_comma
    ∷ []
lead false =
    on header 2 nothing
    ∷ on (one bar ∷ []) 1 nothing
    ∷ on (one rp ∷ []) 1 nothing
    ∷ on (one sc ∷ []) 1 nothing
    ∷ on (one zz ∷ []) 1 nothing
    ∷ push_on (one ca ∷ []) 0 nothing elem
    ∷ []

unfoldable pub seq_alts : Bool → List Alternate
unfolding lead
seq_alts first =
    lead first
    ++ push_on (one st ∷ []) 1 nothing elem
      ∷ push_on (one cc_ ∷ []) 1 nothing elem
      ∷ push_on (one hx ∷ []) 1 nothing elem
      ∷ push_on (one tx ∷ []) 1 nothing elem
      ∷ push_on (one lp ∷ []) 1 nothing elem
      ∷ on (one qm ∷ []) 0 reject_special
      ∷ on (one sub ∷ []) 0 reject_subtraction
      ∷ on (one ob ∷ []) 0 reject_repetition
      ∷ on (one cb ∷ []) 0 reject_repetition
      ∷ on (one os ∷ []) 0 reject_bracket
      ∷ on (one cs ∷ []) 0 reject_bracket
      ∷ on (one star ∷ []) 0 reject_dangling
      ∷ on (one plus ∷ []) 0 reject_dangling
      ∷ on [] 1 nothing
      ∷ []

unfoldable pub open_alternates : RuleName → List Alternate
unfolding seq_alts
open_alternates ebnf_rule = on (one zz ∷ []) 0 nothing ∷ push_on [] 0 nothing prod ∷ []
open_alternates prod = push_on header 0 read_name alts ∷ []
open_alternates alts = push_on [] 0 nothing seq ∷ []
open_alternates seq = seq_alts true
open_alternates elem = push_on [] 0 nothing atom ∷ []
open_alternates post =
    push_on (one qm ∷ []) 0 push_opt post
    ∷ push_on (one star ∷ []) 0 push_star post
    ∷ push_on (one plus ∷ []) 0 push_plus post
    ∷ on [] 1 nothing
    ∷ []
open_alternates atom =
    on (one st ∷ []) 0 read_string
    ∷ on (one cc_ ∷ []) 0 read_class
    ∷ on (one hx ∷ []) 0 read_hex
    ∷ on (one tx ∷ []) 0 read_ref
    ∷ push_on (one lp ∷ []) 0 open_group alts
    ∷ on (one qm ∷ []) 0 reject_special
    ∷ on (one sub ∷ []) 0 reject_subtraction
    ∷ on (one ob ∷ []) 0 reject_repetition
    ∷ on (one cb ∷ []) 0 reject_repetition
    ∷ on (one os ∷ []) 0 reject_bracket
    ∷ []

unfoldable pub close_alternates : RuleName → List Alternate
unfolding seq_alts
close_alternates ebnf_rule = on (one zz ∷ []) 0 nothing ∷ []
close_alternates prod =
    replace_on (one sc ∷ header) 2 prod
    ∷ on (one sc ∷ []) 0 nothing
    ∷ replace_on header 2 prod
    ∷ on [] 1 nothing
    ∷ []
close_alternates alts = push_on (one bar ∷ []) 0 nothing seq ∷ on [] 1 nothing ∷ []
close_alternates seq = seq_alts false
close_alternates elem =
    record { s = []; b = 0; c = not_got; a = take_atom; p = some post; r = none }
    ∷ on [] 1 nothing
    ∷ []
close_alternates post = on [] 1 nothing ∷ []
close_alternates atom =
    record { s = one rp ∷ []; b = 0; c = in_group; a = close_group; p = none; r = none }
    ∷ record { s = []; b = 0; c = in_group; a = reject_unclosed; p = none; r = none }
    ∷ on [] 1 nothing
    ∷ []
