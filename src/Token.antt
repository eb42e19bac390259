-- ===== src/Token.antt =====
-- Tokens of the engine as the front-end reads them: their locations and spans, symbol names, and
-- the named rejections (ts/src/converter.ts: `NAME_RE`, `tokenLoc` to `stringTerm`).
pub mod Laws
use ebnf.Base.{
  ℕ, ◌+◌, Bool, true, ◌&&◌, ◌||◌, Option, none, some, List, [], ◌∷◌, ◌==◌, if◌then◌else◌, within,
  Text, codes, length, all,
}
use ebnf.Ir.{SrcSpan, Element, term}
use ebnf.Error.{
  Location, Reason, Result, ok, throw, empty_alternative, leading_comma, subtraction,
  special_sequence, iso_repetition, stray_bracket, dangling_postfix, unclosed_group, invalid_name,
  empty_literal,
}

-- The fields of an engine token that the front-end reads. A missing `src` is the empty text.
pub record Token : Type 0 where
  pub val : Text
  pub src : Text
  pub s_i : Option ℕ
  pub r_i : Option ℕ
  pub c_i : Option ℕ
  pub len : Option ℕ

-- `tkn` is `none` where the source's is null or undefined.
unfoldable pub token_loc : Option Token → Location
token_loc none = record { line = none; column = none }
token_loc (some tkn) = record { line = tkn.r_i; column = tkn.c_i }

-- The token's own length where it has one, and otherwise that of its source text.
unfoldable pub token_len : Option ℕ → Text → ℕ
token_len (some n) src = n
token_len none src = length src

unfoldable pub span_from : Option ℕ → Token → Option SrcSpan
unfolding token_len
span_from none tkn = none
span_from (some s_i) tkn =
    some (record { s = s_i; e = s_i + token_len tkn.len tkn.src; r = tkn.r_i; c = tkn.c_i })

unfoldable pub span_of : Option Token → Option SrcSpan
unfolding span_from
span_of none = none
span_of (some tkn) = span_from tkn.s_i tkn

-- From the start of the first span to the end of the second, or the one that is there.
unfoldable pub join_spans : Option SrcSpan → Option SrcSpan → Option SrcSpan
join_spans none b = b
join_spans (some a) none = some a
join_spans (some a) (some b) = some (record { s = a.s; e = b.e; r = a.r; c = a.c })

unfoldable pub span_to : Option Token → Option Token → Option SrcSpan
unfolding join_spans span_of
span_to from to = join_spans (span_of from) (span_of to)

-- `${tkn?.src}`
unfoldable pub src_of : Option Token → Text
src_of none = codes "undefined"
src_of (some tkn) = tkn.src

module _ {ℓ} {A : Type ℓ} (tkn : Option Token) where
  unfoldable pub fail_empty_alternative : Result A
  unfolding token_loc
  fail_empty_alternative = throw empty_alternative (token_loc tkn)

  unfoldable pub fail_leading_comma : Result A
  unfolding token_loc
  fail_leading_comma = throw leading_comma (token_loc tkn)

  unfoldable pub fail_subtraction : Result A
  unfolding token_loc
  fail_subtraction = throw subtraction (token_loc tkn)

  unfoldable pub fail_special_sequence : Result A
  unfolding token_loc
  fail_special_sequence = throw special_sequence (token_loc tkn)

  unfoldable pub fail_iso_repetition : Result A
  unfolding token_loc
  fail_iso_repetition = throw iso_repetition (token_loc tkn)

  unfoldable pub fail_char_class : Result A
  unfolding token_loc src_of
  fail_char_class = throw (stray_bracket (src_of tkn)) (token_loc tkn)

  unfoldable pub fail_dangling_postfix : Result A
  unfolding token_loc src_of
  fail_dangling_postfix = throw (dangling_postfix (src_of tkn)) (token_loc tkn)

  unfoldable pub fail_unclosed_group : Result A
  unfolding token_loc
  fail_unclosed_group = throw unclosed_group (token_loc tkn)

-- `[A-Za-z_]`
unfoldable pub is_name_start : ℕ → Bool
is_name_start c = within b'A' b'Z' c || within b'a' b'z' c || c == b'_'

-- `[A-Za-z0-9_.-]`
unfoldable pub is_name_part : ℕ → Bool
is_name_part c =
    within b'A' b'Z' c
    || within b'a' b'z' c
    || within b'0' b'9' c
    || c == b'_'
    || c == b'.'
    || c == b'-'

-- `NAME_RE.test(name)`
unfoldable pub name_re : Text → Bool
unfolding is_name_start is_name_part
name_re [] = Bool.false
name_re (c ∷ cs) = is_name_start c && all is_name_part cs

unfoldable pub check_name : Text → Option Token → Result Text
unfolding name_re token_loc
check_name name tkn = if name_re name then ok name else throw (invalid_name name) (token_loc tkn)

unfoldable pub literal_term : Token → Text → Result Element
unfolding token_loc span_of
literal_term tkn [] = throw empty_literal (token_loc (some tkn))
literal_term tkn (c ∷ cs) = ok (term (c ∷ cs) true (span_of (some tkn)))

unfoldable pub string_term : Token → Result Element
unfolding literal_term
string_term tkn = literal_term tkn tkn.val
