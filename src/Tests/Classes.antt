-- ===== src/Tests/Classes.antt =====
-- Character classes and code points.
use ebnf.Base.{
  ◌≡◌, refl, true, none, some, List, [], ◌∷◌, ◌++◌, Text, codes, arith, if◌then◌else◌, ltb,
}
use ebnf.Ir.{term, regex}
use ebnf.Error.{ok, throw, empty_class, reversed_range, not_code_point, hex_without_digits}
use ebnf.Token.{Token, token_loc, span_of}
use ebnf.Hex.{max_code_point, to_hex}
use ebnf.CharClass.{
  Part, parse_char_class, print_class, class_flags, is_astral, from_code_point, hex_term,
}
use ebnf.CharClass.Pattern.{read_class, pair_value}
use ebnf.CharClass.Pattern.Printed.{read_class-print_class}
use ebnf.CharClass.Pattern.Surrogates.{read_class-surrogates}
use ebnf.CharClass.Ranges.{write_class, parse_char_class-write_class}
use ebnf.CharClass.CodePoints.{hex_term-to_hex}

-- A token at the start of line 1.
abbrev at_start : Text → Token
at_start s = record { val = s; src = s; s_i = some 0; r_i = some 1; c_i = some 1; len = none }

-- The same text at index 9.
abbrev at_nine : Text → Token
at_nine s = record { val = s; src = s; s_i = some 9; r_i = some 1; c_i = some 10; len = none }

class_run :
    parse_char_class (codes "[a-z#x5F]") (at_start (codes "[a-z#x5F]"))
    ≡ ok (
        regex
          (codes "[\\u0061-\\u007a\\u005f]")
          []
          (some (record { s = 0; e = 9; r = some 1; c = some 1 })))
unfolding parse_char_class
class_run = refl

negated_run :
    parse_char_class (codes "[^<&]") (at_start (codes "[^<&]"))
    ≡ ok (
        regex
          (codes "[^\\u003c\\u0026]")
          (codes "u")
          (some (record { s = 0; e = 5; r = some 1; c = some 1 })))
unfolding parse_char_class
negated_run = refl

hyphen_run :
    parse_char_class (codes "[-+]") (at_start (codes "[-+]"))
    ≡ ok (
        regex
          (codes "[\\u002d\\u002b]")
          []
          (some (record { s = 0; e = 4; r = some 1; c = some 1 })))
unfolding parse_char_class
hyphen_run = refl

astral_run :
    parse_char_class (codes "[#x41-#x1F600]") (at_start (codes "[#x41-#x1F600]"))
    ≡ ok (
        regex
          (codes "[\\u{41}-\\u{1f600}]")
          (codes "u")
          (some (record { s = 0; e = 14; r = some 1; c = some 1 })))
unfolding parse_char_class
astral_run = refl

refused_runs :
    (parse_char_class (codes "[]") (at_start (codes "[]"))
      ≡ throw (empty_class (codes "[]")) (token_loc (some (at_start (codes "[]")))))
    × (parse_char_class (codes "[z-a]") (at_start (codes "[z-a]"))
        ≡ throw (reversed_range (codes "[z-a]")) (token_loc (some (at_start (codes "[z-a]")))))
    × (parse_char_class (codes "[#x]") (at_start (codes "[#x]"))
        ≡ throw (hex_without_digits (codes "[#x]")) (token_loc (some (at_start (codes "[#x]")))))
    × (parse_char_class (codes "[#x110000]") (at_start (codes "[#x110000]"))
        ≡ throw
            (not_code_point (codes "#x110000"))
            (token_loc (some (at_start (codes "[#x110000]")))))
unfolding parse_char_class
refused_runs = (refl, refl, refl, refl)

abbrev letters : List Part
letters = record { lo = 97; hi = 122 } ∷ record { lo = 0x1F600; hi = 0x1F64F } ∷ []

hex_term-to_hex_example : hex_term (codes "#x" ++ to_hex 0x41) (at_start (codes "#x41")) ≡ (
    if ltb max_code_point 0x41
    then throw
        (not_code_point (codes "#x" ++ to_hex 0x41))
        (token_loc (some (at_start (codes "#x41"))))
    else ok (term (from_code_point 0x41) true (span_of (some (at_start (codes "#x41"))))))
hex_term-to_hex_example = hex_term-to_hex 0x41 (at_start (codes "#x41"))

read_class-print_class_example :
    read_class (print_class true letters) (class_flags true (is_astral letters))
    ≡ some (true, letters)
read_class-print_class_example =
    read_class-print_class true letters (λ n a. (unfold is_astral in cc a))

read_class-surrogates_example :
    read_class
      (print_class true
        (record { lo = 0xD83D; hi = 0xD83D } ∷ record { lo = 0xDE00; hi = 0xDE00 } ∷ []))
      (class_flags true (
        is_astral (record { lo = 0xD83D; hi = 0xD83D } ∷ record { lo = 0xDE00; hi = 0xDE00 } ∷ [])))
    ≡ some (true, record { lo = pair_value 0xD83D 0xDE00; hi = pair_value 0xD83D 0xDE00 } ∷ [])
read_class-surrogates_example = read_class-surrogates 0xD83D 0xDE00 refl refl

parse_char_class-write_class_example :
    parse_char_class (write_class true letters) (at_start (write_class true letters))
    ≡ ok (
        regex
          (print_class true letters)
          (class_flags true (is_astral letters))
          (span_of (some (at_start (write_class true letters)))))
parse_char_class-write_class_example =
    parse_char_class-write_class true letters (at_start (write_class true letters)) (λ e. cc)
      (omega arith)
