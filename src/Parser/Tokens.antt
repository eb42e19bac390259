-- ===== src/Parser/Tokens.antt =====
-- Why the patterns may be tried anywhere: each begins with a character of its own.
use ebnf.Base.{ℕ, ◌≡◌, true, some, [], ◌∷◌, Text, starts_with, arith}
use ebnf.Lexer.Classes.{match_class-starts}
use ebnf.Parser.{Pattern, def, defe, cc_, hx, sub, match_token}

-- The character that a pattern begins with.
abbrev pub first_unit : Pattern → ℕ
first_unit def = b':'
first_unit defe = b'='
first_unit cc_ = b'['
first_unit hx = b'#'
first_unit sub = b'-'

first_unit-injective : (k j : Pattern) → first_unit k ≡ first_unit j → k ≡ j
first_unit-injective k j e = ground arith

match_token-starts :
    (k : Pattern) (s m : Text) → match_token k s ≡ some m → starts_with (first_unit k) s ≡ true
unfolding match_token
match_token-starts def s m e = ground arith
match_token-starts defe s m e = ground arith
match_token-starts cc_ s m e = match_class-starts s m e
match_token-starts hx s m e = ground arith
match_token-starts sub s m e = ground arith

starts_with_unique : (c d : ℕ) (s : Text) → starts_with c s ≡ true → starts_with d s ≡ true → c ≡ d
starts_with_unique c d [] p q = cc
starts_with_unique c d (x ∷ s) p q = ground arith

-- At most one pattern matches at any place of the source.
pub match_token-exclusive :
    (k j : Pattern) (s m n : Text) → match_token k s ≡ some m → match_token j s ≡ some n → k ≡ j
match_token-exclusive k j s m n p q = first_unit-injective k j (
    starts_with_unique (first_unit k) (first_unit j) s (match_token-starts k s m p)
      (match_token-starts j s n q))
