-- ===== src/CharClass/Pattern/Surrogates.antt =====
-- Where a class names both halves of a surrogate pair as code points of their own.
use ebnf.Base.{
  ℕ, zero, suc, length, ◌<◌, ◌≡◌, refl, true, false, ==_iff, some, List, [], ◌∷◌, ◌++◌,
  append_assoc, append-nil, arith,
}
use ebnf.CharClass.{Part, is_astral, esc, print_part, print_parts, print_class, class_flags}
use ebnf.CharClass.Pattern.{read_atom, read_parts, read_class, is_lead, is_trail, pair_value}
use ebnf.CharClass.Pattern.Escapes.{read_escape4-esc, no_brace-esc}
use ebnf.CharClass.Pattern.Printed.{no_bracket}

abbrev single : ℕ → Part
single n = record { lo = n; hi = n }

module _ (h l : ℕ) (p : is_lead h ≡ true) (q : is_trail l ≡ true) where
  abbrev both : List Part
  both = single h ∷ single l ∷ []

  is_astral-both : is_astral both ≡ false
  unfolding is_astral
  is_astral-both = ground arith

  print_part-single : (n : ℕ) → print_part false (single n) ≡ esc false n
  unfolding print_part
  print_part-single n = rw ((==_iff n n).1 refl)

  print_class-both :
      print_class true both ≡ b'[' ∷ b'^' ∷ (esc false h ++ (esc false l ++ b']' ∷ []))
  unfolding print_class print_parts
  print_class-both = rw is_astral-both (
      rw (print_part-single h) (
        rw (print_part-single l) (
          rw (append-nil (esc false l))
            (rw (append_assoc (esc false h) (esc false l) (b']' ∷ []))))))

  read_atom-pair :
      read_atom true (esc false h ++ (esc false l ++ b']' ∷ [])) ≡ some (pair_value h l, b']' ∷ [])
  unfolding read_atom
  read_atom-pair = rw (no_brace-esc h (esc false l ++ b']' ∷ []) (ground arith)) (
      rw (read_escape4-esc h (esc false l ++ b']' ∷ []) (ground arith))
        (rw p (rw (read_escape4-esc l (b']' ∷ []) (ground arith)) (rw q))))

  read_parts-pair :
      (f : ℕ)
      → 1 < f
      → read_parts f true (esc false h ++ (esc false l ++ b']' ∷ []))
        ≡ some (single (pair_value h l) ∷ [])
  unfolding read_parts
  read_parts-pair zero k = absurd (omega arith)
  read_parts-pair (suc zero) k = absurd (omega arith)
  read_parts-pair (suc (suc f)) k =
      rw (no_bracket false h (esc false l ++ b']' ∷ [])) (rw read_atom-pair)

  length-both : 1 < length (esc false h ++ (esc false l ++ b']' ∷ []))
  unfolding esc
  length-both = omega arith

-- A negated class of a lead surrogate and a trail surrogate is compiled to two escapes under the `u`
-- flag, and JavaScript reads these as the negated class of the one code point that the pair encodes,
-- whatever the two are.
pub read_class-surrogates :
    (h l : ℕ)
    → is_lead h ≡ true
    → is_trail l ≡ true
    → let parts : List Part = record { lo = h; hi = h } ∷ record { lo = l; hi = l } ∷ [] in
      read_class (print_class true parts) (class_flags true (is_astral parts))
      ≡ some (true, record { lo = pair_value h l; hi = pair_value h l } ∷ [])
unfolding read_class class_flags
read_class-surrogates h l p q =
    rw (print_class-both h l p q) (rw (read_parts-pair h l p q _ (length-both h l p q)))
