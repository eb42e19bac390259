-- ===== src/Vale/Notes/Woven.antt =====
-- The lines that are inserted, all in one go over the file (ts/scripts/vale-counts.cjs: `report`).
use ebnf.Base.{
  ℕ, zero, suc, ◌+◌, ◌≡◌, refl, sym, ap, ◌∙◌, true, false, Bool-cases, inl, inr, List, [], ◌∷◌,
  ◌++◌, append_assoc, append-nil, ◌==◌, ltb, if◌then◌else◌, length, Text, All, arith,
}
use ebnf.Vale.Notes.{Note, splice, insert_note, sort_notes, splice_all, with_notes}

abbrev only_at : ℕ → Note → List Text
only_at i n = if n.at == i then n.text ∷ [] else []

-- The texts of the notes for a line.
abbrev pub texts_at : ℕ → List Note → List Text
texts_at i [] = []
texts_at i (n ∷ ns) = texts_at i ns ++ only_at i n

-- Every line, with the texts for it right above it.
abbrev pub woven : ℕ → List Note → List Text → List Text
woven i ns [] = []
woven i ns (line ∷ lines) = texts_at i ns ++ line ∷ woven (suc i) ns lines

abbrev NotBehind : ℕ → List Note → Type 0
NotBehind k ns = All (λ n. ltb k n.at ≡ false) ns

none_at : (k i : ℕ) (ns : List Note) → NotBehind k ns → ltb k i ≡ true → texts_at i ns ≡ []
none_at k i [] h l = refl
none_at k i (n ∷ ns) h l =
    let other : (n.at == i) ≡ false = ground (arith, h.0, l) in
    rw other (rw (none_at k i ns h.1 l) refl)

woven-none :
    (k i : ℕ) (ns : List Note) (lines : List Text)
    → NotBehind k ns
    → ltb k i ≡ true
    → woven i ns lines ≡ lines
woven-none k i ns [] h l = refl
woven-none k i ns (line ∷ lines) h l =
    rw (none_at k i ns h l) (ap (◌∷◌ line) (woven-none k (suc i) ns lines h (ground (arith, l))))

woven-splice :
    (n : Note) (ns : List Note) (i k : ℕ) (lines : List Text)
    → n.at ≡ i + k
    → ltb k (length lines) ≡ true
    → NotBehind n.at ns
    → woven i ns (splice k n.text lines) ≡ woven i (n ∷ ns) lines
unfolding splice
woven-splice n ns i k [] e l h = absurd (ground (arith, l))
woven-splice n ns i zero (line ∷ lines) e l h =
    let here : (n.at == i) ≡ true = ground (arith, e) in
    let next : ltb n.at (suc i) ≡ true = ground (arith, e) in
    let last : NotBehind n.at (n ∷ ns) = (ground arith, h) in
    rw here (
      ap (λ t. texts_at i ns ++ n.text ∷ t) (woven-none n.at (suc i) ns (line ∷ lines) h next)
      ∙ (ap (λ t. texts_at i ns ++ n.text ∷ line ∷ t)
            (sym (woven-none n.at (suc i) (n ∷ ns) lines last next))
          ∙ sym (append_assoc (texts_at i ns) (n.text ∷ []) (line ∷ woven (suc i) (n ∷ ns) lines))))
woven-splice n ns i (suc k) (line ∷ lines) e l h =
    let other : (n.at == i) ≡ false = ground (arith, e) in
    rw other (
      ap (λ t. texts_at i ns ++ line ∷ t)
        (woven-splice n ns (suc i) k lines (omega (arith, e)) (ground (arith, l)) h)
      ∙ sym (append_assoc (texts_at i ns) [] (line ∷ woven (suc i) (n ∷ ns) lines)))

length-splice :
    (k : ℕ) (text : Text) (lines : List Text) → length (splice k text lines) ≡ suc (length lines)
unfolding splice
length-splice zero text lines = refl
length-splice (suc k) text [] = refl
length-splice (suc k) text (line ∷ lines) = ap suc (length-splice k text lines)

-- From the last line to the first.
abbrev Descending : List Note → Type 0
Descending [] = Unit {0}
Descending (n ∷ ns) = NotBehind n.at ns × Descending ns

woven-nil : (i : ℕ) (lines : List Text) → woven i [] lines ≡ lines
woven-nil i [] = refl
woven-nil i (line ∷ lines) = ap (◌∷◌ line) (woven-nil (suc i) lines)

splice_all-woven :
    (size : ℕ) (ns : List Note) (lines : List Text)
    → Descending ns
    → All (λ n. ltb n.at size ≡ true) ns
    → ltb (length lines) size ≡ false
    → splice_all ns lines ≡ woven 0 ns lines
unfolding splice_all
splice_all-woven size [] lines d r l = sym (woven-nil 0 lines)
splice_all-woven size (n ∷ ns) lines d r l =
    let longer = length-splice n.at n.text lines in
    splice_all-woven size ns (splice n.at n.text lines) d.1 r.1 (ground (arith, l, longer))
    ∙ woven-splice n ns 0 n.at lines (omega arith) (ground (arith, r.0, l)) d.0

insert_note-NotBehind :
    (k : ℕ) (n : Note) (ns : List Note)
    → ltb k n.at ≡ false
    → NotBehind k ns
    → NotBehind k (insert_note n ns)
unfolding insert_note
insert_note-NotBehind k n [] h hs = (h, tt)
insert_note-NotBehind k n (m ∷ ms) h hs = elim (Bool-cases (ltb n.at m.at)) [
  | inl less ↦ rw less (hs.0, insert_note-NotBehind k n ms h hs.1)
  | inr not_less ↦ rw not_less (h, hs)
]

NotBehind-more : (a b : ℕ) (ns : List Note) → NotBehind a ns → ltb b a ≡ false → NotBehind b ns
NotBehind-more a b [] h l = tt
NotBehind-more a b (n ∷ ns) h l = (ground (arith, h.0, l), NotBehind-more a b ns h.1 l)

insert_note-Descending : (n : Note) (ns : List Note) → Descending ns → Descending (insert_note n ns)
unfolding insert_note
insert_note-Descending n [] d = (tt, tt)
insert_note-Descending n (m ∷ ms) d = elim (Bool-cases (ltb n.at m.at)) [
  | inl less ↦
      rw less (
        insert_note-NotBehind m.at n ms (ground (arith, less)) d.0,
        insert_note-Descending n ms d.1,
      )
  | inr not_less ↦ rw not_less ((not_less, NotBehind-more m.at n.at ms d.0 not_less), d)
]

texts_at-insert_note :
    (i : ℕ) (n : Note) (ns : List Note) → texts_at i (insert_note n ns) ≡ texts_at i (n ∷ ns)
unfolding insert_note
texts_at-insert_note i n [] = refl
texts_at-insert_note i n (m ∷ ms) = elim (Bool-cases (ltb n.at m.at)) [
  | inr not_less ↦ rw not_less refl
  | inl less ↦ elim (Bool-cases (n.at == i)) [
    | inl here ↦
        let other : (m.at == i) ≡ false = ground (arith, less, here) in
        rw less (
          rw (texts_at-insert_note i n ms) (
            rw here (
              rw other (
                append_assoc (texts_at i ms) (n.text ∷ []) []
                ∙ sym (append_assoc (texts_at i ms) [] (n.text ∷ []))))))
    | inr other ↦ rw less (
        rw (texts_at-insert_note i n ms) (
          rw other (
            append_assoc (texts_at i ms) [] (only_at i m)
            ∙ sym (append-nil (texts_at i ms ++ only_at i m)))))
  ]
]

texts_at-sort_notes : (i : ℕ) (ns : List Note) → texts_at i (sort_notes ns) ≡ texts_at i ns
unfolding sort_notes
texts_at-sort_notes i [] = refl
texts_at-sort_notes i (n ∷ ns) =
    texts_at-insert_note i n (sort_notes ns)
    ∙ ap (λ ts. ts ++ only_at i n) (texts_at-sort_notes i ns)

woven-sort_notes :
    (i : ℕ) (ns : List Note) (lines : List Text) → woven i (sort_notes ns) lines ≡ woven i ns lines
woven-sort_notes i ns [] = refl
woven-sort_notes i ns (line ∷ lines) =
    rw (texts_at-sort_notes i ns)
      (ap (λ more. texts_at i ns ++ line ∷ more) (woven-sort_notes (suc i) ns lines))

sort_notes-Descending : (ns : List Note) → Descending (sort_notes ns)
unfolding sort_notes
sort_notes-Descending [] = tt
sort_notes-Descending (n ∷ ns) = insert_note-Descending n (sort_notes ns) (sort_notes-Descending ns)

module _ (size : ℕ) where
  abbrev pub Within : List Note → Type 0
  Within ns = All (λ n. ltb n.at size ≡ true) ns

  insert_note-Within :
      (n : Note) (ns : List Note) → ltb n.at size ≡ true → Within ns → Within (insert_note n ns)
  unfolding insert_note
  insert_note-Within n [] h hs = (h, tt)
  insert_note-Within n (m ∷ ms) h hs = elim (Bool-cases (ltb n.at m.at)) [
    | inl less ↦ rw less (hs.0, insert_note-Within n ms h hs.1)
    | inr not_less ↦ rw not_less (h, hs)
  ]

  sort_notes-Within : (ns : List Note) → Within ns → Within (sort_notes ns)
  unfolding sort_notes
  sort_notes-Within [] h = tt
  sort_notes-Within (n ∷ ns) h = insert_note-Within n (sort_notes ns) h.0 (sort_notes-Within ns h.1)

-- All the texts stand right above their lines, and the lines are as they were.
pub with_notes-woven :
    (ns : List Note) (lines : List Text)
    → Within (length lines) ns
    → with_notes ns lines ≡ woven 0 ns lines
unfolding with_notes
with_notes-woven ns lines h =
    splice_all-woven (length lines) (sort_notes ns) lines (sort_notes-Descending ns)
      (sort_notes-Within (length lines) ns h) (ground arith)
    ∙ woven-sort_notes 0 ns lines
