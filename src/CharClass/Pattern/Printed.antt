-- ===== src/CharClass/Pattern/Printed.antt =====
-- A whole class as `print_class` writes it reads back as its ranges.
use ebnf.Base.{
  starts_with, ℕ, zero, suc, ◌<◌, ◌≡◌, refl, ap, Bool, true, false, Bool-cases, inl, inr, ◌||◌,
  some, List, [], ◌∷◌, ◌++◌, append_assoc, arith, ◌==◌, ==_iff, Text, length, length-append, All,
  any,
}
use ebnf.CharClass.{
  Part, is_astral, is_astral_part, esc, print_part, print_parts, print_class, class_flags,
}
use ebnf.CharClass.Pattern.{read_parts, read_class, is_lead}
use ebnf.CharClass.Pattern.Escapes.{IsReadable, read_atom-esc}

abbrev IsReadablePart : Bool → Bool → Part → Type 0
IsReadablePart astral u p = IsReadable astral u p.lo × IsReadable astral u p.hi

-- What follows a part is the next one or the closing bracket, and neither begins with `-`.
no_hyphen :
    (astral : Bool) (parts : List Part)
    → starts_with b'-' (print_parts astral parts ++ b']' ∷ []) ≡ false
unfolding print_parts print_part esc
no_hyphen astral [] = refl
no_hyphen true (p ∷ parts) = ground arith
no_hyphen false (p ∷ parts) = ground arith

pub no_bracket :
    (astral : Bool) (n : ℕ) (rest : Text) → starts_with b']' (esc astral n ++ rest) ≡ false
unfolding esc
no_bracket true n rest = refl
no_bracket false n rest = refl

no_caret :
    (astral : Bool) (parts : List Part)
    → starts_with b'^' (print_parts astral parts ++ b']' ∷ []) ≡ false
unfolding print_parts print_part esc
no_caret astral [] = refl
no_caret true (p ∷ parts) = ground arith
no_caret false (p ∷ parts) = ground arith

print_part_pos : (astral : Bool) (p : Part) → 0 < length (print_part astral p)
unfolding print_part esc
print_part_pos true p = ground arith
print_part_pos false p = ground arith

module _ (astral u : Bool) where
  -- One round of the reader at a single code point.
  read_parts_single :
      (f : ℕ) (n : ℕ) (rest : Text) (parts : List Part)
      → IsReadable astral u n
      → starts_with b'-' rest ≡ false
      → read_parts f u rest ≡ some parts
      → read_parts (suc f) u (esc astral n ++ rest) ≡ some (record { lo = n; hi = n } ∷ parts)
  unfolding read_parts
  read_parts_single f n rest parts h e r =
      rw (no_bracket astral n rest) (rw (read_atom-esc astral u n rest h) (rw e (rw r)))

  read_parts_range :
      (f : ℕ) (lo hi : ℕ) (rest : Text) (parts : List Part)
      → IsReadable astral u lo
      → IsReadable astral u hi
      → read_parts f u rest ≡ some parts
      → read_parts (suc f) u (esc astral lo ++ (b'-' ∷ (esc astral hi ++ rest)))
        ≡ some (record { lo = lo; hi = hi } ∷ parts)
  unfolding read_parts
  read_parts_range f lo hi rest parts h k r =
      rw (no_bracket astral lo (b'-' ∷ (esc astral hi ++ rest))) (
        rw (read_atom-esc astral u lo (b'-' ∷ (esc astral hi ++ rest)) h)
          (rw (read_atom-esc astral u hi rest k) (rw r)))

-- A part written whole, whichever of the two forms it takes.
read_parts-print_part :
    (astral u : Bool) (f : ℕ) (p : Part) (rest : Text) (parts : List Part)
    → IsReadablePart astral u p
    → starts_with b'-' rest ≡ false
    → read_parts f u rest ≡ some parts
    → read_parts (suc f) u (print_part astral p ++ rest) ≡ some (p ∷ parts)
unfolding print_part
read_parts-print_part astral u f p rest parts h e r = elim (Bool-cases (p.lo == p.hi)) [
  | inl same ↦
      let read = read_parts_single astral u f p.lo rest parts h.0 e r in
      rw same (
        rw read (ap (λ (k : ℕ). some (record { lo = p.lo; hi = k } ∷ parts)) ((==_iff _ _).0 same)))
  | inr other ↦ rw other (
      rw (append_assoc (esc astral p.lo) (b'-' ∷ esc astral p.hi) rest)
        (read_parts_range astral u f p.lo p.hi rest parts h.0 h.1 r))
]

read_parts-print_parts :
    (astral u : Bool) (f : ℕ) (parts : List Part)
    → All (IsReadablePart astral u) parts
    → length parts < f
    → read_parts f u (print_parts astral parts ++ b']' ∷ []) ≡ some parts
unfolding print_parts
read_parts-print_parts astral u zero parts h k = absurd (omega arith)
read_parts-print_parts astral u (suc f) [] h k = unfold read_parts in refl
read_parts-print_parts astral u (suc f) (p ∷ parts) h k =
    rw (append_assoc (print_part astral p) (print_parts astral parts) (b']' ∷ [])) (
      read_parts-print_part astral u f p _ parts h.0 (no_hyphen astral parts)
        (read_parts-print_parts astral u f parts h.1 (omega arith)))

length-print_parts-lt :
    (astral : Bool) (parts : List Part)
    → length parts < length (print_parts astral parts ++ b']' ∷ [])
unfolding print_parts
length-print_parts-lt astral [] = omega arith
length-print_parts-lt astral (p ∷ parts) =
    rw (append_assoc (print_part astral p) (print_parts astral parts) (b']' ∷ [])) (
      omega (
        arith,
        length-append {0} (print_part astral p) (print_parts astral parts ++ b']' ∷ []),
        print_part_pos astral p,
        length-print_parts-lt astral parts,
      ))

class_flags-u :
    (negated astral : Bool) → starts_with b'u' (class_flags negated astral) ≡ (negated || astral)
unfolding class_flags
class_flags-u true astral = refl
class_flags-u false true = refl
class_flags-u false false = refl

-- Read under the flags that go with it.
read_class-readable :
    (negated : Bool) (parts : List Part)
    → All (IsReadablePart (is_astral parts) (negated || is_astral parts)) parts
    → read_class (print_class negated parts) (class_flags negated (is_astral parts))
      ≡ some (negated, parts)
unfolding read_class print_class
read_class-readable true parts h = rw (class_flags-u true (is_astral parts)) (
    rw (
      read_parts-print_parts (is_astral parts) true _ parts h
        (length-print_parts-lt (is_astral parts) parts)))
read_class-readable false parts h = rw (no_caret (is_astral parts) parts) (
    rw (class_flags-u false (is_astral parts)) (
      rw (
        read_parts-print_parts (is_astral parts) (is_astral parts) _ parts h
          (length-print_parts-lt (is_astral parts) parts))))

-- Neither end is the first half of a surrogate pair.
abbrev pub NoLead : Part → Type 0
NoLead p = (is_lead p.lo ≡ false) × (is_lead p.hi ≡ false)

IsReadable-unbraced :
    (u : Bool) (parts : List Part)
    → any is_astral_part parts ≡ false
    → (u ≡ true → All NoLead parts)
    → All (IsReadablePart false u) parts
IsReadable-unbraced u [] a h = tt
IsReadable-unbraced u (p ∷ parts) a h = (
  ((ground arith, λ e. (h e).0.0), (ground arith, λ e. (h e).0.1)),
  IsReadable-unbraced u parts (ground arith) (λ e. (h e).1),
)

IsReadable-braced : (parts : List Part) → All (IsReadablePart true true) parts
IsReadable-braced [] = tt
IsReadable-braced (p ∷ parts) = ((refl, refl), IsReadable-braced parts)

IsReadable-parts :
    (negated astral : Bool) (parts : List Part)
    → any is_astral_part parts ≡ astral
    → (negated ≡ true → astral ≡ false → All NoLead parts)
    → All (IsReadablePart astral (negated || astral)) parts
IsReadable-parts true true parts e h = IsReadable-braced parts
IsReadable-parts false true parts e h = IsReadable-braced parts
IsReadable-parts true false parts e h = IsReadable-unbraced true parts e (λ u. h refl refl)
IsReadable-parts false false parts e h = IsReadable-unbraced false parts e (λ u. cc)

-- The pattern and flags that a class is compiled to read back, as JavaScript reads them, as that
-- class: negated or not, with the same ranges in the same order. The condition: where the class is
-- negated and holds no code point past U+FFFF, no range begins or ends at a lead surrogate.
pub read_class-print_class :
    (negated : Bool) (parts : List Part)
    → (negated ≡ true → is_astral parts ≡ false → All NoLead parts)
    → read_class (print_class negated parts) (class_flags negated (is_astral parts))
      ≡ some (negated, parts)
unfolding is_astral
read_class-print_class negated parts h =
    read_class-readable negated parts (IsReadable-parts negated (is_astral parts) parts refl h)
