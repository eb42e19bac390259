-- ===== src/Lexer.antt =====
-- The match-token matchers of `getEbnfParser` and `isoCommentMatcher` (ts/src/converter.ts). A matcher
-- returns the text that it takes from the front of its input.
pub mod Classes
pub mod Codes
pub mod Comments
use ebnf.Base.{
  ℕ, suc, ◌+◌, ◌-◌, Bool, true, false, not, ◌&&◌, ◌||◌, Option, none, some, List, [], ◌∷◌, ◌++◌,
  ◌==◌, if◌then◌else◌, Text, codes, length, drop, take, starts_with,
}
use ebnf.CharClass.{hex_run}

-- `/^::=/`
unfoldable pub match_def : Text → Option Text
match_def s =
    if starts_with b':' s && starts_with b':' (drop 1 s) && starts_with b'=' (drop 2 s)
    then some (codes "::=")
    else none

-- `/^=/`
unfoldable pub match_defe : Text → Option Text
match_defe s = if starts_with b'=' s then some (codes "=") else none

-- `/^-/`
unfoldable pub match_sub : Text → Option Text
match_sub s = if starts_with b'-' s then some (codes "-") else none

-- `[^\]\n]*`
unfoldable pub class_run : Text → Text
class_run [] = []
class_run (c ∷ cs) = let more = c ∷ class_run cs in if c == b']' || c == b'\n' then [] else more

-- `/^\[\^?[^\]\n]*\]/`: the optional `^` is a unit that the run takes as well.
unfoldable pub match_class : Text → Option Text
unfolding class_run
match_class [] = none
match_class (c ∷ cs) =
    let body = class_run cs in
    if c == b'[' && starts_with b']' (drop (length body) cs)
    then some (b'[' ∷ (body ++ b']' ∷ []))
    else none

-- `/^#x[0-9a-fA-F]+/`
unfoldable pub match_hex : Text → Option Text
unfolding hex_run
match_hex s =
    let digits = hex_run (drop 2 s) in
    if starts_with b'#' s && starts_with b'x' (drop 1 s) && not (length digits == 0)
    then some (b'#' ∷ b'x' ∷ digits)
    else none

-- A position of the engine's lexer.
pub record Point : Type 0 where
  pub s_i : ℕ
  pub r_i : ℕ
  pub c_i : ℕ

unfoldable pub one_further : Option ℕ → Option ℕ
one_further none = none
one_further (some n) = some (suc n)

-- The index of the first `*)` in a text.
unfoldable pub index_of_close : Text → Option ℕ
unfolding one_further
index_of_close [] = none
index_of_close (c ∷ cs) =
    let later = one_further (index_of_close cs) in
    if c == b'*' && starts_with b')' cs then some 0 else later

-- One round of the position loop.
unfoldable pub step_point : Point → ℕ → Point
step_point pnt c =
    if c == b'\n'
    then record pnt { r_i = pnt.r_i + 1; c_i = 1 }
    else record pnt { c_i = pnt.c_i + 1 }

unfoldable pub advance : Point → Text → Point
unfolding step_point
advance pnt [] = pnt
advance pnt (c ∷ cs) = advance (step_point pnt c) cs

-- `lex.token`, which makes a token of the engine from its value, its source text and its position.
module _ {ℓ} {T : Type ℓ} (token : Text → Text → Point → T) where
  -- The comment found, `end` units after its opening, or nothing.
  unfoldable pub close_comment : Text → Point → Option ℕ → Option (T × Point)
  unfolding advance
  close_comment src pnt none = none
  close_comment src pnt (some n) =
      let stop = pnt.s_i + 2 + n + 2 in
      let text = take (stop - pnt.s_i) (drop pnt.s_i src) in
      some (token text text pnt, record (advance pnt text) { s_i = stop })

  -- The token, and the lexer's position after it; `none` is `undefined`, the position left alone.
  unfoldable pub iso_comment_matcher : Text → Point → Option (T × Point)
  unfolding close_comment index_of_close
  iso_comment_matcher src pnt =
      if starts_with b'(' (drop pnt.s_i src) && starts_with b'*' (drop (pnt.s_i + 1) src)
      then close_comment src pnt (index_of_close (drop (pnt.s_i + 2) src))
      else none
