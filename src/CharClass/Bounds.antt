-- ===== src/CharClass/Bounds.antt =====
-- The ranges of an accepted class are ordered and hold code points only.
use ebnf.Base.{
  ℕ, zero, suc, ◌-◌, ◌<◌, ◌≤◌, ◌==◌, ◌&&◌, Bool-cases, inl, inr, List, [], ◌∷◌, Text, arith, ltb,
  All, Option, drop, drop_last, ltb-false,
}
use ebnf.Error.{Result, ok, err, ◌>>=◌, Ensures}
use ebnf.Token.{Token}
use ebnf.Hex.{code_point, max_code_point}
use ebnf.CharClass.{
  Item, cp, hyphen, Part, code_point_at, hex_run, starts_x, hex_item, next_item, scan, fold_parts,
  class_body, nonempty_body, class_parts,
}

abbrev pub IsCodePoint : ℕ → Type 0
IsCodePoint n = n ≤ max_code_point

abbrev pub IsUnits : Text → Type 0
IsUnits s = All (λ c. c < 0x10000) s

-- `lo ≤ hi`, both within Unicode.
pub record IsValidPart (p : Part) : Type 0 where
  pub ordered : p.lo ≤ p.hi
  pub bounded : p.hi ≤ max_code_point

abbrev IsValidItem : Item → Type 0
IsValidItem (cp n) = IsCodePoint n
IsValidItem hyphen = Unit

pub code_point-IsCodePoint :
    (hex src : Text) (tkn : Option Token) → Ensures IsCodePoint (code_point hex src tkn)
unfolding code_point
code_point-IsCodePoint hex src tkn = ground arith

code_point_at-IsCodePoint : (c : ℕ) (cs : Text) → c < 0x10000 → IsCodePoint (code_point_at c cs)
unfolding code_point_at
code_point_at-IsCodePoint c [] h = omega arith
code_point_at-IsCodePoint c (d ∷ cs) h = ground arith

-- A step that ensures `P`, and a continuation that ensures `Q` of any value with `P`.
Ensures->>= {ℓ κ} :
    {A : Type ℓ} {B : Type κ} (P : A → Type 0) (Q : B → Type 0) (step : Result A)
    (next : A → Result B)
    → Ensures P step
    → ((value : A) → P value → Ensures Q (next value))
    → Ensures Q (step >>= next)
Ensures->>= P Q (err thrown) next h keep = tt
Ensures->>= P Q (ok value) next h keep = keep value h

hex_item-Ensures :
    (src ds : Text) (tkn : Option Token)
    → Ensures (λ (item, n). IsValidItem item) (hex_item src ds tkn)
unfolding hex_item
hex_item-Ensures src [] tkn = tt
hex_item-Ensures src (d ∷ ds) tkn =
    Ensures->>= IsCodePoint _ (code_point (d ∷ ds) (b'#' ∷ b'x' ∷ d ∷ ds) tkn) _
      (code_point-IsCodePoint (d ∷ ds) _ tkn) (λ a h. h)

next_item-Ensures :
    (src : Text) (tkn : Option Token) (c : ℕ) (cs : Text)
    → c < 0x10000
    → Ensures (λ (item, n). IsValidItem item) (next_item src tkn c cs)
unfolding next_item
next_item-Ensures src tkn c cs h = elim (Bool-cases (c == b'#' && starts_x cs)) [
  | inl hex ↦ rw hex (hex_item-Ensures src (hex_run (drop 1 cs)) tkn)
  | inr other ↦ rw other (elim (Bool-cases (c == b'-')) [
    | inl dash ↦ rw dash tt
    | inr plain ↦ rw plain (code_point_at-IsCodePoint c cs h)
  ])
]

scan-Ensures :
    (src : Text) (tkn : Option Token) (k : ℕ) (s : Text)
    → IsUnits s
    → Ensures (All IsValidItem) (scan src tkn k s)
unfolding scan
scan-Ensures src tkn zero [] h = tt
scan-Ensures src tkn (suc k) [] h = tt
scan-Ensures src tkn (suc k) (c ∷ cs) h = scan-Ensures src tkn k cs h.1
scan-Ensures src tkn zero (c ∷ cs) h =
    Ensures->>= _ _ (next_item src tkn c cs) _ (next_item-Ensures src tkn c cs h.0) λ (item, n) v.
      Ensures->>= _ _ (scan src tkn (n - 1) cs) _ (scan-Ensures src tkn (n - 1) cs h.1)
        λ items vs. (v, vs)

Ensures-cons :
    (r : Result (List Part)) (p : Part)
    → IsValidPart p
    → Ensures (All IsValidPart) r
    → Ensures (All IsValidPart) (r >>= λ parts. ok (p ∷ parts))
Ensures-cons (ok parts) p v h = (v, h)
Ensures-cons (err e) p v h = tt

fold_parts-Ensures :
    (src : Text) (tkn : Option Token) (items : List Item)
    → All IsValidItem items
    → Ensures (All IsValidPart) (fold_parts src tkn items)
unfolding fold_parts
fold_parts-Ensures src tkn [] h = tt
fold_parts-Ensures src tkn (hyphen ∷ items) h =
    Ensures-cons (fold_parts src tkn items) _ (omega arith) (fold_parts-Ensures src tkn items h.1)
fold_parts-Ensures src tkn (cp it ∷ hyphen ∷ cp e ∷ items) h = elim (Bool-cases (ltb e it)) [
  | inl reversed ↦ rw reversed tt
  | inr fine ↦ rw fine (
      Ensures-cons (fold_parts src tkn items) _
        (record { ordered = ltb-false e it fine; bounded = h.1.1.0 })
        (fold_parts-Ensures src tkn items h.1.1.1))
]
fold_parts-Ensures src tkn (cp it ∷ items) h =
    Ensures-cons (fold_parts src tkn items) _ (record { ordered = omega arith; bounded = h.0 })
      (fold_parts-Ensures src tkn items h.1)

IsUnits-drop : (n : ℕ) (s : Text) → IsUnits s → IsUnits (drop n s)
IsUnits-drop zero s h = h
IsUnits-drop (suc n) [] h = tt
IsUnits-drop (suc n) (c ∷ s) h = IsUnits-drop n s h.1

IsUnits-drop_last : (s : Text) → IsUnits s → IsUnits (drop_last s)
IsUnits-drop_last [] h = tt
IsUnits-drop_last (c ∷ []) h = tt
IsUnits-drop_last (c ∷ d ∷ s) h = (h.0, IsUnits-drop_last (d ∷ s) h.1)

class_body-IsUnits : (src : Text) → IsUnits src → IsUnits (class_body src)
unfolding class_body
class_body-IsUnits src h = IsUnits-drop _ (drop_last src) (IsUnits-drop_last src h)

nonempty_body-Ensures :
    (src : Text) (tkn : Option Token) (body : Text)
    → Ensures (λ _. Unit {0}) (nonempty_body src tkn body)
unfolding nonempty_body
nonempty_body-Ensures src tkn [] = tt
nonempty_body-Ensures src tkn (_ ∷ _) = tt

-- Every range that a class of code units yields is ordered and within Unicode.
pub class_parts-IsValidPart :
    (src : Text) (tkn : Option Token)
    → IsUnits src
    → Ensures (All IsValidPart) (class_parts src tkn)
unfolding class_parts
class_parts-IsValidPart src tkn h =
    Ensures->>= (λ _. Unit {0}) (All IsValidPart) (nonempty_body src tkn (class_body src)) _
      (nonempty_body-Ensures src tkn (class_body src))
      λ _ _.
        Ensures->>= (All IsValidItem) (All IsValidPart) (scan src tkn 0 (class_body src)) _
          (scan-Ensures src tkn 0 (class_body src) (class_body-IsUnits src h))
          λ items v. fold_parts-Ensures src tkn items v
