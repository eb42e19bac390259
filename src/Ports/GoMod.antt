-- ===== src/Ports/GoMod.antt =====
-- A go.mod file (tools/port-deps.cjs: `parseGoMod`).
pub mod Scan
pub mod Total
use ebnf.Base.{
  ℕ, zero, suc, ◌+◌, Bool, true, false, not, ◌&&◌, ◌||◌, Option, none, some, List, [], ◌∷◌, ◌++◌,
  ◌==◌, if◌then◌else◌, length, drop, any, all, starts_with, Text, text_eq, codes, strip_prefix,
  is_space,
}
use ebnf.Ports.Fault.{
  Fault, Read, read, ◌>>=◌, fail, open_quote, escaped_string, text_after_close, text_after_open,
  bad_module, second_module, bad_require, open_block, no_module, out_of_fuel,
}
use ebnf.Ports.Strings.{split_lines, trim, trim_start, is_line_end}

-- What stands at a place of a line: a blank, a comment, a token, or what cannot be read.
pub data Lexeme : Type 0 where
  blank : Text → Lexeme
  note : Text → Lexeme
  token : Text → Text → Lexeme
  bad : Fault → Lexeme

-- The text up to a quote, and what stands behind it.
unfoldable pub with_unit : ℕ → Option (Text × Text) → Option (Text × Text)
with_unit c none = none
with_unit c (some (v, rest)) = some (c ∷ v, rest)

unfoldable pub up_to : ℕ → Text → Option (Text × Text)
unfolding with_unit
up_to q [] = none
up_to q (c ∷ cs) = let later = with_unit c (up_to q cs) in if c == q then some ([], cs) else later

unfoldable pub quoted_token : ℕ → Option (Text × Text) → Lexeme
quoted_token q none = bad open_quote
quoted_token q (some (v, rest)) =
    if q == b'"' && any (λ c. c == b'\\') v then bad escaped_string else token v rest

-- `!/[\s()]/.test(src[j]) && !src.startsWith('//', j)`
abbrev pub ends_word : ℕ → Text → Bool
ends_word c cs = is_space c || c == b'(' || c == b')' || (c == b'/' && starts_with b'/' cs)

unfoldable pub mod_word : Text → Text
mod_word [] = []
mod_word (c ∷ cs) = let more = c ∷ mod_word cs in if ends_word c cs then [] else more

unfoldable pub lexeme : ℕ → Text → Lexeme
unfolding up_to quoted_token mod_word trim
lexeme c cs =
    if c == b' ' || c == b'\t' || c == b'\r'
    then blank cs
    else if c == b'/' && starts_with b'/' cs
    then note (trim is_space (drop 1 cs))
    else if c == b'(' || c == b')'
    then token (c ∷ []) cs
    else if c == b'"' || c == b'`'
    then quoted_token c (up_to c cs)
    else token (mod_word (c ∷ cs)) (drop (length (mod_word (c ∷ cs))) (c ∷ cs))

-- A line as its tokens and its comment.
pub record Line : Type 0 where
  pub tokens : List Text
  pub note : Text

pub data Scanned : Type 0 where
  scanned : Line → Scanned
  stuck : Fault → Scanned

unfoldable pub with_token : Text → Scanned → Scanned
with_token t (scanned line) = scanned (record line { tokens = t ∷ line.tokens })
with_token t (stuck why) = stuck why

unfoldable pub scan_rest : (Text → Scanned) → Lexeme → Scanned
unfolding with_token
scan_rest loop (blank rest) = loop rest
scan_rest loop (note text) = scanned (record { tokens = []; note = text })
scan_rest loop (token t rest) = with_token t (loop rest)
scan_rest loop (bad why) = stuck why

-- The loop over a line, for as many rounds as the fuel allows.
unfoldable pub scan_tokens : ℕ → Text → Scanned
unfolding lexeme scan_rest
scan_tokens f [] = scanned (record { tokens = []; note = [] })
scan_tokens zero (c ∷ cs) = stuck out_of_fuel
scan_tokens (suc f) (c ∷ cs) = scan_rest (scan_tokens f) (lexeme c cs)

pub record Require : Type 0 where
  pub path : Text
  pub indirect : Bool

-- The variables of the loop over the lines.
pub record GoMod : Type 0 where
  pub module_path : Option Text
  pub block : Option Text
  pub opened : ℕ
  pub requires : List Require

-- `/^indirect(\s*;.*)?$/`
unfoldable pub is_remark : Text → Bool
is_remark [] = false
is_remark (c ∷ cs) = c == b';' && not (any is_line_end cs)

unfoldable pub is_indirect : Text → Bool
unfolding text_eq strip_prefix trim_start is_remark
is_indirect text = text_eq text (codes "indirect") || elim (strip_prefix (codes "indirect") text) [
  | none ↦ false
  | some rest ↦ is_remark (trim_start is_space rest)
]

unfoldable pub module_line : Text → ℕ → List Text → GoMod → Option Text → Read GoMod
module_line file at (path ∷ []) st none = read (record st { module_path = some path })
module_line file at (path ∷ []) st (some _) = fail file at second_module
module_line file at args st _ = fail file at bad_module

unfoldable pub require_line : Text → ℕ → List Text → Text → GoMod → Read GoMod
unfolding is_indirect
require_line file at (path ∷ version ∷ []) text st = read (record st {
  requires = st.requires ++ record { path = path; indirect = is_indirect text } ∷ [];
})
require_line file at args text st = fail file at bad_require

-- A directive; those but `module` and `require` are not read.
unfoldable pub directive : Text → ℕ → Text → List Text → Text → GoMod → Read GoMod
unfolding text_eq module_line require_line
directive file at verb args text st =
    if text_eq verb (codes "module")
    then module_line file at args st st.module_path
    else if text_eq verb (codes "require")
    then require_line file at args text st
    else read st

abbrev is_one : List Text → Bool
is_one (_ ∷ []) = true
is_one _ = false

unfoldable pub opens : List Text → Bool
unfolding text_eq
opens [] = false
opens (t ∷ _) = text_eq t (codes "(")

-- A line that is not blank, outside a block and in one.
unfoldable pub mod_line : Text → ℕ → Text → List Text → Text → GoMod → Option Text → Read GoMod
unfolding opens directive text_eq
mod_line file at t ts text st none =
    if opens ts
    then if is_one ts
      then read (record st { block = some t; opened = at })
      else fail file at text_after_open
    else directive file at t ts text st
mod_line file at t ts text st (some verb) =
    if text_eq t (codes ")")
    then if is_one (t ∷ ts)
      then read (record st { block = none })
      else fail file at text_after_close
    else directive file at verb (t ∷ ts) text st

unfoldable pub scanned_line : Text → ℕ → GoMod → Scanned → Read GoMod
unfolding mod_line
scanned_line file at st (stuck why) = fail file at why
scanned_line file at st (scanned line) = elim line.tokens [
  | [] ↦ read st
  | t ∷ ts ↦ mod_line file at t ts line.note st st.block
]

unfoldable pub mod_lines : Text → ℕ → List Text → GoMod → Read GoMod
unfolding scanned_line scan_tokens
mod_lines file at [] st = read st
mod_lines file at (src ∷ lines) st = do
  st' ← scanned_line file at st (scan_tokens (length src) src)
  mod_lines file (suc at) lines st'

-- The name of the module, and what it requires.
pub record GoModule : Type 0 where
  pub path : Text
  pub requires : List Require

unfoldable pub finish : Text → GoMod → Option Text → Option Text → Read GoModule
finish file st (some verb) _ = fail file st.opened open_block
finish file st none none = fail file 1 no_module
finish file st none (some path) = read (record { path = path; requires = st.requires })

unfoldable pub parse_go_mod : Text → Text → Read GoModule
unfolding split_lines mod_lines finish
parse_go_mod file text = do
  st ←
      mod_lines file 1 (split_lines text)
        (record { module_path = none; block = none; opened = 0; requires = [] })
  finish file st st.block st.module_path
