-- ===== src/CharClass/Ranges.antt =====
-- Any list of ranges can be written as a W3C class of code points, and is read back as it stands.
use ebnf.Base.{
  ℕ, suc, ◌+◌, ◌-◌, ◌<◌, ◌≤◌, ◌≡◌, ◌≢◌, refl, ap, Bool, true, false, List, [], ◌∷◌, ◌++◌, Text,
  arith, All, Option, some, drop, length, if◌then◌else◌, drop_last-concat, ge→ltb,
}
use ebnf.Ir.{regex}
use ebnf.Error.{ok, ◌>>=◌}
use ebnf.Token.{Token, span_of}
use ebnf.Hex.{is_hex, code_point, max_code_point, to_hex}
use ebnf.Hex.RoundTrip.{parse_int16-to_hex, to_hex-IsHex, length-to_hex_pos}
use ebnf.CharClass.{
  Item, cp, hyphen, Part, starts_x, hex_item, next_item, scan, fold_parts, is_negated, class_body,
  class_parts, nonempty_body, print_class, class_flags, is_astral, parse_char_class,
}
use ebnf.CharClass.Bounds.{IsValidPart}
use ebnf.CharClass.Pattern.Escapes.{hex_head, hex_run-append}

-- `#xLO-#xHI` for each range.
abbrev pub write_cp : ℕ → Text → Text
write_cp n rest = b'#' ∷ b'x' ∷ (to_hex n ++ rest)

abbrev pub write_parts : List Part → Text
write_parts [] = []
write_parts (p ∷ parts) = write_cp p.lo (b'-' ∷ write_cp p.hi (write_parts parts))

abbrev pub write_class : Bool → List Part → Text
write_class negated parts =
    b'[' ∷ ((if negated then b'^' ∷ write_parts parts else write_parts parts) ++ b']' ∷ [])

abbrev items_of : List Part → List Item
items_of [] = []
items_of (p ∷ parts) = cp p.lo ∷ hyphen ∷ cp p.hi ∷ items_of parts

pub code_point-to_hex :
    (n : ℕ) (src : Text) (tkn : Option Token)
    → n ≤ max_code_point
    → code_point (to_hex n) src tkn ≡ ok n
unfolding code_point
code_point-to_hex n src tkn h = rw (parse_int16-to_hex n) (ground arith)

-- `hex_item` at the digits of a code point, whatever the digits are.
hex_item-digits :
    (src s : Text) (tkn : Option Token) (n : ℕ)
    → 0 < length s
    → ((t : Text) → code_point s t tkn ≡ ok n)
    → hex_item src s tkn ≡ ok (cp n, 2 + length s)
unfolding hex_item
hex_item-digits src [] tkn n h k = absurd (omega arith)
hex_item-digits src (d ∷ ds) tkn n h k = rw (k (b'#' ∷ b'x' ∷ d ∷ ds))

module _ (src : Text) (tkn : Option Token) where
  scan-skip : (s rest : Text) → scan src tkn (length s) (s ++ rest) ≡ scan src tkn 0 rest
  unfolding scan
  scan-skip [] rest = refl
  scan-skip (c ∷ s) rest = scan-skip s rest

  scan-write_cp :
      (n : ℕ) (rest : Text)
      → n ≤ max_code_point
      → hex_head rest ≡ false
      → scan src tkn 0 (write_cp n rest) ≡ (scan src tkn 0 rest >>= λ items. ok (cp n ∷ items))
  unfolding scan next_item starts_x
  scan-write_cp n rest h e = rw (hex_run-append (to_hex n) rest (to_hex-IsHex n) e) (
      rw
        (hex_item-digits src (to_hex n) tkn n (length-to_hex_pos n)
          (λ t. code_point-to_hex n t tkn h))
        (let one : 2 + length (to_hex n) - 1 ≡ suc (length (to_hex n)) = omega arith in
          rw one (rw (scan-skip (to_hex n) rest))))

  hex_head-write_parts : (parts : List Part) → hex_head (write_parts parts) ≡ false
  unfolding is_hex
  hex_head-write_parts [] = refl
  hex_head-write_parts (p ∷ parts) = refl

  hex_head-dash : (rest : Text) → hex_head (b'-' ∷ rest) ≡ false
  unfolding is_hex
  hex_head-dash rest = refl

  scan-dash :
      (rest : Text)
      → scan src tkn 0 (b'-' ∷ rest) ≡ (scan src tkn 0 rest >>= λ items. ok (hyphen ∷ items))
  unfolding scan next_item
  scan-dash rest = refl

  scan-write_parts :
      (parts : List Part)
      → All IsValidPart parts
      → scan src tkn 0 (write_parts parts) ≡ ok (items_of parts)
  scan-write_parts [] h = unfold scan in refl
  scan-write_parts (p ∷ parts) h =
      rw
        (scan-write_cp p.lo (b'-' ∷ write_cp p.hi (write_parts parts)) (omega (arith, h.0))
          (hex_head-dash (write_cp p.hi (write_parts parts))))
        (rw (scan-dash (write_cp p.hi (write_parts parts))) (
          rw
            (scan-write_cp p.hi (write_parts parts) (omega (arith, h.0))
              (hex_head-write_parts parts))
            (rw (scan-write_parts parts h.1))))

  fold_parts-items_of :
      (parts : List Part) → All IsValidPart parts → fold_parts src tkn (items_of parts) ≡ ok parts
  unfolding fold_parts
  fold_parts-items_of [] h = refl
  fold_parts-items_of (p ∷ parts) h =
      rw (ge→ltb p.lo p.hi h.0.ordered) (rw (fold_parts-items_of parts h.1))

class_body-write_class :
    (negated : Bool) (p : Part) (parts : List Part)
    → class_body (write_class negated (p ∷ parts)) ≡ write_parts (p ∷ parts)
unfolding class_body is_negated
class_body-write_class true p parts =
    ap (drop 2) (drop_last-concat (b'[' ∷ b'^' ∷ write_parts (p ∷ parts)) b']')
class_body-write_class false p parts =
    ap (drop 1) (drop_last-concat (b'[' ∷ write_parts (p ∷ parts)) b']')

is_negated-write_class :
    (negated : Bool) (p : Part) (parts : List Part)
    → is_negated (write_class negated (p ∷ parts)) ≡ negated
unfolding is_negated
is_negated-write_class true p parts = refl
is_negated-write_class false p parts = refl

pub class_parts-write_class :
    (negated : Bool) (parts : List Part) (tkn : Option Token)
    → parts ≢ []
    → All IsValidPart parts
    → class_parts (write_class negated parts) tkn ≡ ok parts
class_parts-write_class negated [] tkn ne h = absurd (ne refl)
class_parts-write_class negated (p ∷ parts) tkn ne h =
    unfold class_parts nonempty_body in
    rw (class_body-write_class negated p parts)
      (rw (scan-write_parts _ tkn (p ∷ parts) h) (fold_parts-items_of _ tkn (p ∷ parts) h))

-- A class written as `[#xLO-#xHI…]` or `[^#xLO-#xHI…]` from any ranges, at least one, each in order
-- and within Unicode, is compiled to the pattern and flags of exactly those ranges.
pub parse_char_class-write_class :
    (negated : Bool) (parts : List Part) (tkn : Token)
    → parts ≢ []
    → All IsValidPart parts
    → parse_char_class (write_class negated parts) tkn
      ≡ ok (
          regex
            (print_class negated parts)
            (class_flags negated (is_astral parts))
            (span_of (some tkn)))
unfolding parse_char_class
parse_char_class-write_class negated [] tkn ne h = absurd (ne refl)
parse_char_class-write_class negated (p ∷ parts) tkn ne h =
    rw (class_parts-write_class negated (p ∷ parts) (some tkn) ne h)
      (rw (is_negated-write_class negated p parts))
