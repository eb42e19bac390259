-- ===== src/Parser.antt =====
-- The engine instance that reads EBNF (ts/src/converter.ts: `getEbnfParser`): its tokens, its settings,
-- its rules, and the cache. The engine itself, `new Tabnas(…)` and its `parse`, is a parameter.
pub mod Tokens
use ebnf.Base.{
  ℕ, Bool, true, false, Option, none, some, List, [], ◌∷◌, ◌==◌, if◌then◌else◌, Text, codes,
}
use ebnf.Lexer.{match_def, match_defe, match_sub, match_class, match_hex}
use ebnf.Rules.{
  Tin, bar, lp, rp, star, plus, qm, ca, sc, os, cs, ob, cb, RuleName, ebnf_rule, Alternate,
  open_alternates, close_alternates,
}

-- `fixed.token`: the kind of a character that is a token by itself. `:` is none.
unfoldable pub fixed_token : ℕ → Option Tin
fixed_token c =
    if c == b'['
    then some os
    else if c == b']'
    then some cs
    else if c == b'{'
    then some ob
    else if c == b'}'
    then some cb
    else if c == b','
    then some ca
    else if c == b';'
    then some sc
    else if c == b'|'
    then some bar
    else if c == b'*'
    then some star
    else if c == b'+'
    then some plus
    else if c == b'?'
    then some qm
    else if c == b'('
    then some lp
    else if c == b')'
    then some rp
    else none

-- The patterns of `match.token`; the matcher of comments is apart.
pub data Pattern : Type 0 where
  def defe cc_ hx sub : Pattern

unfoldable pub pattern_tin : Pattern → Tin
pattern_tin Pattern.def = Tin.def
pattern_tin Pattern.defe = Tin.defe
pattern_tin Pattern.cc_ = Tin.cc_
pattern_tin Pattern.hx = Tin.hx
pattern_tin Pattern.sub = Tin.sub

-- Every pattern is eager: it is tried wherever its text may begin.
unfoldable pub match_token : Pattern → Text → Option Text
unfolding match_def match_defe match_class match_hex match_sub
match_token Pattern.def s = match_def s
match_token Pattern.defe s = match_defe s
match_token Pattern.cc_ s = match_class s
match_token Pattern.hx s = match_hex s
match_token Pattern.sub s = match_sub s

-- `tokenSet.DEFOP`
abbrev pub def_op : List Tin
def_op = Tin.def ∷ Tin.defe ∷ []

-- The other settings that differ from the engine's own.
pub record ParserOptions : Type 0 where
  pub start : RuleName
  pub value_lex : Bool
  pub number_lex : Bool
  pub string_chars : Text
  pub string_multi_chars : Text
  pub string_escape_char : ℕ
  pub comment_hash : Bool
  pub comment_slash : Bool
  pub comment_start : Text
  pub comment_end : Text
  pub comment_eat_line : Bool

abbrev pub parser_options : ParserOptions
parser_options = record {
  start = ebnf_rule;
  value_lex = false;
  number_lex = false;
  string_chars = b'\'' ∷ b'"' ∷ [];
  string_multi_chars = [];
  string_escape_char = 0x7F;
  comment_hash = false;
  comment_slash = false;
  comment_start = codes "/*";
  comment_end = codes "*/";
  comment_eat_line = false;
}

pub record RuleSpec : Type 0 where
  pub open_ : List Alternate
  pub close : List Alternate

unfoldable pub ebnf_rules : RuleName → RuleSpec
unfolding open_alternates close_alternates
ebnf_rules name = record { open_ = open_alternates name; close = close_alternates name }

-- `_ebnfParser`, and the parser: built on the first call, and kept.
module _ {ℓ} {P : Type ℓ} (build : ParserOptions → (RuleName → RuleSpec) → P) where
  unfoldable pub get_ebnf_parser : Option P → P × Option P
  unfolding ebnf_rules
  get_ebnf_parser (some parser) = (parser, some parser)
  get_ebnf_parser none = let parser = build parser_options ebnf_rules in (parser, some parser)
