-- ===== src/Tests/Names.antt =====
-- Names and code points as the rule table reads them.
use ebnf.Base.{◌≡◌, refl, ◌≤◌, ◌<◌, ◌⊎◌, true, false, some, none, drop, codes, ℕ, Text}
use ebnf.Ir.{ref, term}
use ebnf.Error.{ok, throw, invalid_name, not_code_point}
use ebnf.Token.{Token, token_loc, span_of, check_name}
use ebnf.Hex.{parse_int16, max_code_point}
use ebnf.CharClass.{from_code_point, hex_term}
use ebnf.Lexer.{match_hex}
use ebnf.Lexer.Codes.{match_hex-hex_term}
use ebnf.Rules.Actions.{Notes, read_name, read_ref}
use ebnf.Rules.Names.{IsName, read_name-read_ref}

abbrev bare : Notes
bare = record {
  name = codes "";
  name_tkn = none;
  got = false;
  atom = none;
  group = false;
  lp = none;
}

abbrev token_of : Text → Token
token_of text = record {
  val = text;
  src = text;
  s_i = some 4;
  r_i = some 1;
  c_i = some 5;
  len = none;
}

name_runs :
    (check_name (codes "xs:Name-2") none
      ≡ throw (invalid_name (codes "xs:Name-2")) (token_loc none))
    × (check_name (codes "_x.y-2") none ≡ ok (codes "_x.y-2"))
    × (check_name (codes "2x") none ≡ throw (invalid_name (codes "2x")) (token_loc none))
unfolding check_name
name_runs = (refl, refl, refl)

read_name-read_ref_example :
    let tkn = token_of (codes "Name") in
    (IsName (codes "Name")
      × (read_name bare tkn ≡ ok (record bare { name = codes "Name"; name_tkn = some tkn }))
      × (read_ref tkn ≡ ok (ref (codes "Name") (span_of (some tkn)))))
    ⊎ (¬ IsName (codes "Name")
        × (read_name bare tkn ≡ throw (invalid_name (codes "Name")) (token_loc (some tkn)))
        × (read_ref tkn ≡ throw (invalid_name (codes "Name")) (token_loc (some tkn))))
read_name-read_ref_example = read_name-read_ref bare (token_of (codes "Name"))

hex_taken : match_hex (codes "#x110000 B") ≡ some (codes "#x110000")
unfolding match_hex
hex_taken = refl

match_hex-hex_term_example :
    let tkn = token_of (codes "#x110000") in
    (n : ℕ) × (parse_int16 (drop 2 tkn.src) ≡ some n)
    × (((n ≤ max_code_point)
          × (hex_term tkn.src tkn ≡ ok (term (from_code_point n) true (span_of (some tkn)))))
        ⊎ ((max_code_point < n)
            × (hex_term tkn.src tkn ≡ throw (not_code_point tkn.src) (token_loc (some tkn)))))
match_hex-hex_term_example =
    match_hex-hex_term (codes "#x110000 B") (codes "#x110000") (token_of (codes "#x110000"))
      hex_taken
