-- ===== src/CharClass.antt =====
-- W3C character classes (ts/src/converter.ts: `hexTerm` and `parseCharClass`).
-- The source's scan advances an index by the length of each member. Here it walks the body one code
-- unit at a time and carries how many more units the member at hand takes.
pub mod Pattern
pub mod Bounds
pub mod Ranges
pub mod CodePoints
use ebnf.Base.{
  ℕ, zero, suc, ◌+◌, ◌-◌, ◌*◌, ◌/◌, ◌%◌, Bool, true, false, ◌&&◌, ◌||◌, Option, some, List, [], ◌∷◌,
  ◌++◌, ltb, ◌==◌, if◌then◌else◌, within, Text, codes, length, drop, drop_last, any,
}
use ebnf.Ir.{Element, term, regex}
use ebnf.Error.{Result, ok, throw, ◌>>=◌, ◌>>◌, empty_class, hex_without_digits, reversed_range}
use ebnf.Token.{Token, token_loc, span_of}
use ebnf.Hex.{is_hex, code_point, to_hex, pad_start4}

-- `String.fromCodePoint(cp)`: one code unit, or the surrogate pair past U+FFFF.
unfoldable pub from_code_point : ℕ → Text
from_code_point cp =
    if ltb 0xFFFF cp
    then (0xD800 + (cp - 0x10000) / 0x400) ∷ (0xDC00 + (cp - 0x10000) % 0x400) ∷ []
    else cp ∷ []

-- `s.codePointAt(0)` on the text `c ∷ cs`.
unfoldable pub code_point_at : ℕ → Text → ℕ
code_point_at c [] = c
code_point_at c (d ∷ _) =
    if within 0xD800 0xDBFF c && within 0xDC00 0xDFFF d
    then 0x10000 + (c - 0xD800) * 0x400 + (d - 0xDC00)
    else c

unfoldable pub hex_term : Text → Token → Result Element
unfolding code_point from_code_point span_of
hex_term src tkn = do
  cp ← code_point (drop 2 src) src (some tkn)
  ok (term (from_code_point cp) true (span_of (some tkn)))

-- A member of a class: a code point, or the `-` that may make a range.
pub data Item : Type 0 where
  cp : ℕ → Item
  hyphen : Item

-- The digits at the front of a text, and what follows them.
unfoldable pub hex_run : Text → Text
unfolding is_hex
hex_run [] = []
hex_run (c ∷ cs) = let more = c ∷ hex_run cs in if is_hex c then more else []

unfoldable pub starts_x : Text → Bool
starts_x [] = false
starts_x (c ∷ _) = c == b'x'

-- A `#xNN` member whose digits are `digits`, with the number of units it takes.
unfoldable pub hex_item : Text → Text → Option Token → Result (Item × ℕ)
unfolding code_point token_loc
hex_item src [] tkn = throw (hex_without_digits src) (token_loc tkn)
hex_item src (d ∷ ds) tkn = do
  n ← code_point (d ∷ ds) (b'#' ∷ b'x' ∷ d ∷ ds) tkn
  ok (cp n, 2 + length (d ∷ ds))

-- One round of the loop at the text `c ∷ cs`: the member there, and the number of units it takes.
unfoldable pub next_item : Text → Option Token → ℕ → Text → Result (Item × ℕ)
unfolding hex_item hex_run starts_x code_point_at from_code_point
next_item src tkn c cs =
    if c == b'#' && starts_x cs
    then hex_item src (hex_run (drop 1 cs)) tkn
    else if c == b'-'
    then ok (hyphen, 1)
    else ok (cp (code_point_at c cs), length (from_code_point (code_point_at c cs)))

-- The loop, with the number of units still to be passed over.
unfoldable pub scan : Text → Option Token → ℕ → Text → Result (List Item)
unfolding next_item
scan src tkn k [] = ok []
scan src tkn (suc k) (c ∷ cs) = scan src tkn k cs
scan src tkn zero (c ∷ cs) = do
  (item, n) ← next_item src tkn c cs
  items ← scan src tkn (n - 1) cs
  ok (item ∷ items)

pub record Part : Type 0 where
  pub lo : ℕ
  pub hi : ℕ

-- `lo - hi` triples become ranges; any other `-` is the hyphen itself.
unfoldable pub fold_parts : Text → Option Token → List Item → Result (List Part)
unfolding token_loc
fold_parts src tkn [] = ok []
fold_parts src tkn (hyphen ∷ items) = do
  parts ← fold_parts src tkn items
  ok (record { lo = 0x2D; hi = 0x2D } ∷ parts)
fold_parts src tkn (cp it ∷ hyphen ∷ cp h ∷ items) =
    let rest = do parts ← fold_parts src tkn items; ok (record { lo = it; hi = h } ∷ parts)
    in if ltb h it then throw (reversed_range src) (token_loc tkn) else rest
fold_parts src tkn (cp it ∷ items) = do
  parts ← fold_parts src tkn items
  ok (record { lo = it; hi = it } ∷ parts)

abbrev pub is_astral_part : Part → Bool
is_astral_part p = ltb 0xFFFF p.lo || ltb 0xFFFF p.hi

unfoldable pub is_astral : List Part → Bool
is_astral parts = any is_astral_part parts

unfoldable pub esc : Bool → ℕ → Text
unfolding to_hex pad_start4
esc true n = codes "\\u{" ++ (to_hex n ++ b'}' ∷ [])
esc false n = codes "\\u" ++ pad_start4 (to_hex n)

unfoldable pub print_part : Bool → Part → Text
unfolding esc
print_part astral p =
    if p.lo == p.hi then esc astral p.lo else esc astral p.lo ++ b'-' ∷ esc astral p.hi

unfoldable pub print_parts : Bool → List Part → Text
unfolding print_part
print_parts astral [] = []
print_parts astral (p ∷ parts) = print_part astral p ++ print_parts astral parts

unfoldable pub print_class : Bool → List Part → Text
unfolding print_parts is_astral
print_class negated parts =
    b'['
    ∷ ((if negated then b'^' ∷ [] else []) ++ (print_parts (is_astral parts) parts ++ b']' ∷ []))

unfoldable pub class_flags : Bool → Bool → Text
class_flags negated astral = if negated || astral then b'u' ∷ [] else []

-- `'^' === src[1]`
unfoldable pub is_negated : Text → Bool
is_negated (_ ∷ c ∷ _) = c == b'^'
is_negated _ = false

-- `src.slice(negated ? 2 : 1, -1)`
unfoldable pub class_body : Text → Text
unfolding is_negated
class_body src = drop (if is_negated src then 2 else 1) (drop_last src)

unfoldable pub nonempty_body : Text → Option Token → Text → Result (Unit {0})
unfolding token_loc
nonempty_body src tkn [] = throw (empty_class src) (token_loc tkn)
nonempty_body src tkn (_ ∷ _) = ok tt

-- The parts of a class, before they are written out.
unfoldable pub class_parts : Text → Option Token → Result (List Part)
unfolding nonempty_body scan fold_parts class_body
class_parts src tkn = do
  nonempty_body src tkn (class_body src)
  items ← scan src tkn 0 (class_body src)
  fold_parts src tkn items

unfoldable pub parse_char_class : Text → Token → Result Element
unfolding class_parts print_class class_flags is_negated span_of is_astral
parse_char_class src tkn = do
  parts ← class_parts src (some tkn)
  let negated = is_negated src
  ok (
      regex (print_class negated parts) (class_flags negated (is_astral parts))
        (span_of (some tkn)))
