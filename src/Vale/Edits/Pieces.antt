-- ===== src/Vale/Edits/Pieces.antt =====
-- Edits on one line (ts/scripts/vale-counts.cjs: `edit`).
use ebnf.Base.{
  ℕ, ◌+◌, ◌<◌, ◌≤◌, ◌≡◌, ◌≢◌, refl, sym, ◌∙◌, true, Option, none, ◌⊎◌, inl, inr, some, List, [],
  ◌∷◌, ◌++◌, append_assoc, length, length-append, drop-length_append, take-length_append, Text, All,
  All-append, arith, ltb, ◌==◌,
}
use ebnf.Vale.Edits.{Edit, is_before, insert_edit, sort_edits, edited, edit_at, edit_all, edit}

-- A part of a line that stays, the part behind it that goes, and what takes its place.
pub record Piece : Type 0 where
  pub stays : Text
  pub was : Text
  pub text : Text

-- The line, the line that is meant, and the edits from a column on.
abbrev pub before : List Piece → Text → Text
before [] tail = tail
before (p ∷ ps) tail = p.stays ++ (p.was ++ before ps tail)

abbrev pub after : List Piece → Text → Text
after [] tail = tail
after (p ∷ ps) tail = p.stays ++ (p.text ++ after ps tail)

abbrev pub edits_of : ℕ → ℕ → List Piece → List Edit
edits_of line col [] = []
edits_of line col (p ∷ ps) =
    record { line = line; col = col + length p.stays; was = p.was; text = p.text }
    ∷ edits_of line (col + length p.stays + length p.was) ps

-- The last first.
abbrev backwards : List Edit → List Edit
backwards [] = []
backwards (e ∷ es) = backwards es ++ e ∷ []

edited-front :
    (line col : ℕ) (front was text rest : Text)
    → length front ≡ col
    → edited (record { line = line; col = col; was = was; text = text }) (front ++ (was ++ rest))
      ≡ front ++ (text ++ rest)
unfolding edited
edited-front line col front was text rest at = rw (sym at) (
    rw (take-length_append front (was ++ rest)) (
      rw (sym (length-append front was)) (
        rw (sym (append_assoc front was rest)) (rw (drop-length_append (front ++ was) rest) refl))))

edit_at-length :
    (e : Edit) (above : List Text) (line : Text) (below : List Text)
    → edit_at e (length above) (above ++ line ∷ below) ≡ some (above ++ edited e line ∷ below)
unfolding edit_at
edit_at-length e [] line below = refl
edit_at-length e (a ∷ above) line below = rw (edit_at-length e above line below) refl

Option-cases {ℓ} : {A : Type ℓ} (o : Option A) → (o ≡ none) ⊎ ((x : A) × (o ≡ some x))
Option-cases none = inl refl
Option-cases (some x) = inr (x, refl)

none-some {ℓ} : {A : Type ℓ} {x : A} → none ≡ some x → ⊥
none-some e = cc

edit_all-append :
    (es fs : List Edit) (lines next : List Text)
    → edit_all es lines ≡ some next
    → edit_all (es ++ fs) lines ≡ edit_all fs next
unfolding edit_all
edit_all-append [] fs lines next h = let same : lines ≡ next = cc in rw same refl
edit_all-append (e ∷ es) fs lines next h = elim (Option-cases (edit_at e e.line lines)) [
  | inl lost ↦ absurd (none-some (rw lost at h))
  | inr (step, is) ↦ rw is (edit_all-append es fs step next (rw is at h))
]

module _ (above below : List Text) where
  abbrev file : Text → List Text
  file line = above ++ line ∷ below

  edit_all-front :
      (col : ℕ) (front was text rest : Text)
      → length front ≡ col
      → edit_all
          (record { line = length above; col = col; was = was; text = text } ∷ [])
          (file (front ++ (was ++ rest)))
        ≡ some (file (front ++ (text ++ rest)))
  unfolding edit_all
  edit_all-front col front was text rest at =
      let e : Edit = record { line = length above; col = col; was = was; text = text } in
      rw (edit_at-length e above (front ++ (was ++ rest)) below)
        (rw (edited-front (length above) col front was text rest at) refl)

  edit_all-pieces :
      (pre : Text) (col : ℕ) (ps : List Piece) (tail : Text)
      → length pre ≡ col
      → edit_all (backwards (edits_of (length above) col ps)) (file (pre ++ before ps tail))
        ≡ some (file (pre ++ after ps tail))
  edit_all-pieces pre col [] tail at = unfold edit_all in refl
  edit_all-pieces pre col (p ∷ ps) tail at =
      let front = pre ++ p.stays in
      let passed = front ++ p.was in
      let e : Edit = record {
        line = length above;
        col = col + length p.stays;
        was = p.was;
        text = p.text;
      } in
      let here : length front ≡ col + length p.stays =
        omega (arith, at, length-append pre p.stays) in
      let there : length passed ≡ col + length p.stays + length p.was =
        omega (arith, here, length-append front p.was) in
      let later = backwards (edits_of (length above) (col + length p.stays + length p.was) ps) in
      let rest = edit_all-pieces passed (col + length p.stays + length p.was) ps tail there in
      rw (sym (append_assoc pre p.stays (p.was ++ before ps tail))) (
        rw (sym (append_assoc front p.was (before ps tail))) (
          rw (sym (append_assoc pre p.stays (p.text ++ after ps tail))) (
            edit_all-append later (e ∷ []) (file (passed ++ before ps tail))
              (file (passed ++ after ps tail)) rest
            ∙ rw (append_assoc front p.was (after ps tail))
                (edit_all-front (col + length p.stays) front p.was p.text (after ps tail) here))))

-- Edits of one line, from a column on.
abbrev IsFrom : ℕ → ℕ → Edit → Type 0
IsFrom line col e = (e.line ≡ line) × (col ≤ e.col)

All-IsFrom :
    (line col col' : ℕ) (es : List Edit)
    → col ≤ col'
    → All (IsFrom line col') es
    → All (IsFrom line col) es
All-IsFrom line col col' [] le h = tt
All-IsFrom line col col' (e ∷ es) le h =
    ((h.0.0, omega (arith, le, h.0.1)), All-IsFrom line col col' es le h.1)

edits_of-IsFrom : (line col : ℕ) (ps : List Piece) → All (IsFrom line col) (edits_of line col ps)
edits_of-IsFrom line col [] = tt
edits_of-IsFrom line col (p ∷ ps) =
    let next = col + length p.stays + length p.was in
    ((refl, omega arith), All-IsFrom line col next _ (omega arith) (edits_of-IsFrom line next ps))

All-backwards {ℓ} : (P : Edit → Type ℓ) (es : List Edit) → All P es → All P (backwards es)
All-backwards P [] h = tt
All-backwards P (e ∷ es) h = All-append P (backwards es) (e ∷ []) (All-backwards P es h.1) (h.0, tt)

-- An edit goes behind those that are further on in the line.
insert_edit-last :
    (e : Edit) (next : ℕ) (fs : List Edit)
    → e.col < next
    → All (IsFrom e.line next) fs
    → insert_edit e fs ≡ fs ++ e ∷ []
unfolding insert_edit is_before
insert_edit-last e next [] l h = refl
insert_edit-last e next (f ∷ fs) l h =
    let same : (f.line == e.line) ≡ true = ground (arith, h.0.0) in
    let less : ltb e.col f.col ≡ true = ground (arith, l, h.0.1) in
    let first : is_before f e ≡ true = ground (arith, same, less) in
    rw first (rw (insert_edit-last e next fs l h.1) refl)

positive : (w : Text) → w ≢ [] → 0 < length w
positive [] h = absurd (h refl)
positive (c ∷ w) h = omega arith

sort_edits-edits_of :
    (line col : ℕ) (ps : List Piece)
    → All (λ p. p.was ≢ []) ps
    → sort_edits (edits_of line col ps) ≡ backwards (edits_of line col ps)
unfolding sort_edits
sort_edits-edits_of line col [] h = refl
sort_edits-edits_of line col (p ∷ ps) h =
    let from = col + length p.stays in
    let next = from + length p.was in
    let e : Edit = record { line = line; col = from; was = p.was; text = p.text } in
    rw (sort_edits-edits_of line next ps h.1) (
      insert_edit-last e next (backwards (edits_of line next ps))
        (omega (arith, positive p.was h.0))
        (All-backwards (IsFrom line next) _ (edits_of-IsFrom line next ps)))

-- The edits of a line, each given with the text that it finds, leave what is between them as it is and
-- put each new text in the place of the old one, whatever the lengths of the texts; no other line is
-- changed, and no edit is lost; where they are given from left to right and none finds an empty text.
pub edit-pieces :
    (above below : List Text) (tail : Text) (ps : List Piece)
    → All (λ p. p.was ≢ []) ps
    → edit (above ++ before ps tail ∷ below) (edits_of (length above) 0 ps)
      ≡ some (above ++ after ps tail ∷ below)
unfolding edit
edit-pieces above below tail ps h =
    rw (sort_edits-edits_of (length above) 0 ps h) (edit_all-pieces above below [] 0 ps tail refl)
