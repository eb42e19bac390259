-- ===== src/Vale/Lands.antt =====
-- The places that the joined comments keep (ts/scripts/vale-counts.cjs: `join` and `blocks`).
use ebnf.Base.{
  ℕ, zero, suc, ◌-◌, ◌≡◌, ◌⊎◌, refl, ap, true, Option, none, some, List, [], ◌∷◌, ◌++◌,
  append_assoc, ◌==◌, ltb, length, drop, starts_with, Text, get_elem?, length-append,
  drop-length_append, ◌||◌, All, All-append, Bool-cases, inl, inr, arith,
}
use ebnf.Vale.{
  Comment, At, Joined, without_blank, without_mark, places, padded, join_one, join_from, join,
  rule_of, is_setting, Block, comment_block, block_at, blocks_from,
}

-- The unit at a place of the file; a blank stands at none.
abbrev pub IsUnit : List Text → At → ℕ → Type 0
IsUnit src none c = c ≡ b' '
IsUnit src (some (l, k)) c =
    (line : Text) × (get_elem? src l ≡ some line) × (get_elem? line k ≡ some c)

-- Behind a place there is the next one on its line, or none.
abbrev pub IsNext : At → List At → Type 0
IsNext (some (l, k)) (some next ∷ _) = next ≡ (l, suc k)
IsNext _ _ = Unit {0}

abbrev pub Lands : List Text → List At → Text → Type 0
Lands src [] [] = Unit {0}
Lands src [] (_ ∷ _) = ⊥
Lands src (_ ∷ _) [] = ⊥
Lands src (p ∷ ps) (c ∷ cs) = IsUnit src p c × (IsNext p ps × Lands src ps cs)

pub drop-cons {ℓ} :
    {A : Type ℓ} (line : List A) (k : ℕ) (c : A) (cs : List A)
    → drop k line ≡ c ∷ cs
    → (get_elem? line k ≡ some c) × (drop (suc k) line ≡ cs)
drop-cons [] zero c cs e = cc
drop-cons [] (suc k) c cs e = cc
drop-cons (d ∷ line) zero c cs e = (cc, cc)
drop-cons (d ∷ line) (suc k) c cs e = drop-cons line k c cs e

module _ (src : List Text) where
  Lands-blank :
      (ps qs : List At) (t u : Text)
      → Lands src ps t
      → Lands src qs u
      → Lands src (ps ++ none ∷ qs) (t ++ b' ' ∷ u)
  Lands-blank [] qs [] u h k = (refl, (tt, k))
  Lands-blank [] qs (c ∷ t) u h k = absurd h
  Lands-blank (p ∷ ps) qs [] u h k = absurd h
  Lands-blank (none ∷ ps) qs (c ∷ t) u h k = (h.0, (tt, Lands-blank ps qs t u h.1.1 k))
  Lands-blank (some p ∷ []) qs (c ∷ t) u h k = (h.0, (tt, Lands-blank [] qs t u h.1.1 k))
  Lands-blank (some p ∷ none ∷ ps) qs (c ∷ t) u h k =
      (h.0, (tt, Lands-blank (none ∷ ps) qs t u h.1.1 k))
  Lands-blank (some p ∷ some q ∷ ps) qs (c ∷ t) u h k =
      (h.0, (h.1.0, Lands-blank (some q ∷ ps) qs t u h.1.1 k))

  module _ (l : ℕ) (line : Text) (is : get_elem? src l ≡ some line) where
    Lands-places : (k : ℕ) (body : Text) → drop k line ≡ body → Lands src (places l k body) body
    unfolding places
    Lands-places k [] e = tt
    Lands-places k (c ∷ []) e = ((line, is, (drop-cons line k c [] e).0), (tt, tt))
    Lands-places k (c ∷ d ∷ cs) e =
        let step = drop-cons line k c (d ∷ cs) e in
        ((line, is, step.0), (refl, Lands-places (suc k) (d ∷ cs) step.1))

-- A line is what the mark takes away and the body.
abbrev IsBehind : Text → Text → Type 0
IsBehind line body = (front : Text) × (line ≡ front ++ body)

without_blank-IsBehind : (c : ℕ) (cs : Text) → IsBehind (c ∷ cs) (without_blank cs)
unfolding without_blank
without_blank-IsBehind c [] = (c ∷ [], refl)
without_blank-IsBehind c (d ∷ cs) = elim (Bool-cases (d == b' ' || d == b'\t')) [
  | inl blank ↦ (c ∷ d ∷ [], rw blank refl)
  | inr other ↦ (c ∷ [], rw other refl)
]

without_mark-IsBehind : (line : Text) → IsBehind line (without_mark line)
unfolding without_mark
without_mark-IsBehind [] = ([], refl)
without_mark-IsBehind (c ∷ cs) = elim (Bool-cases (c == b'#')) [
  | inl mark ↦ rw mark (without_blank-IsBehind c cs)
  | inr other ↦ ([], rw other refl)
]

drop-IsBehind :
    (line body : Text) → IsBehind line body → drop (length line - length body) line ≡ body
drop-IsBehind line body (front, is) =
    let fits : length line - length body ≡ length front =
      omega (arith, ap (λ (t : Text). length t) is, length-append front body) in
    rw fits (rw is (drop-length_append front body))

-- The lines of a comment stand where their indices say.
abbrev pub StandIn : List Text → List Comment → Type 0
StandIn src = All (λ e. get_elem? src e.index ≡ some e.line)

module _ (src : List Text) where
  Lands-cases :
      (ps : List At) (t : Text)
      → Lands src ps t
      → ((t ≡ []) × (ps ≡ [])) ⊎ (ltb 0 (length t) ≡ true)
  Lands-cases [] [] h = inl (refl, refl)
  Lands-cases [] (c ∷ t) h = absurd h
  Lands-cases (p ∷ ps) [] h = absurd h
  Lands-cases (p ∷ ps) (c ∷ t) h = inr (ground arith)

  join_one-Lands :
      (j : Joined) (e : Comment)
      → Lands src j.at j.text
      → get_elem? src e.index ≡ some e.line
      → Lands src (join_one j e).at (join_one j e).text
  unfolding join_one padded
  join_one-Lands j e h is =
      let body = without_mark e.line in
      let placed =
        Lands-places src e.index e.line is (length e.line - length body) body
          (drop-IsBehind e.line body (without_mark-IsBehind e.line)) in
      elim (Lands-cases j.at j.text h) [
        | inl bare ↦ rw bare.0 (rw bare.1 placed)
        | inr more ↦ rw more (
            rw (append_assoc j.at (none ∷ []) (places e.index (length e.line - length body) body)) (
              rw (append_assoc j.text (b' ' ∷ []) body)
                (Lands-blank src j.at _ j.text body h placed)))
      ]

  join_from-Lands :
      (j : Joined) (es : List Comment)
      → Lands src j.at j.text
      → StandIn src es
      → Lands src (join_from j es).at (join_from j es).text
  unfolding join_from
  join_from-Lands j [] h k = h
  join_from-Lands j (e ∷ es) h k = join_from-Lands (join_one j e) es (join_one-Lands j e h k.0) k.1

  join-Lands : (es : List Comment) → StandIn src es → Lands src (join es).at (join es).text
  unfolding join
  join-Lands es h = join_from-Lands (record { text = []; at = [] }) es tt h

  abbrev pub BlockLands : Block → Type 0
  BlockLands b = Lands src b.joined.at b.joined.text

  comment_block-Lands :
      (es : List Comment) (assigned : Option ℕ)
      → StandIn src es
      → All BlockLands (comment_block es assigned)
  unfolding comment_block
  comment_block-Lands [] assigned h = tt
  comment_block-Lands (e ∷ es) assigned h = (join-Lands (e ∷ es) h, tt)

  block_at-Lands :
      (es : List Comment) (index : ℕ) (rule : Option (Text × Text))
      → StandIn src es
      → All BlockLands (block_at es index rule)
  unfolding block_at
  block_at-Lands es index none h = comment_block-Lands es (some index) h
  block_at-Lands es index (some (name, level)) h = elim (Bool-cases (is_setting name)) [
    | inl setting ↦ rw setting (comment_block-Lands es (some index) h)
    | inr rule ↦ rw rule (join-Lands es h, tt)
  ]

  pub blocks_from-Lands :
      (index : ℕ) (es : List Comment) (lines : List Text)
      → StandIn src es
      → drop index src ≡ lines
      → All BlockLands (blocks_from index es lines)
  unfolding blocks_from
  blocks_from-Lands index es [] h e = comment_block-Lands es none h
  blocks_from-Lands index es (line ∷ lines) h e =
      let at = drop-cons src index line lines e in
      elim (Bool-cases (starts_with b'#' line)) [
        | inl mark ↦
            let here : Comment = record { line = line; index = index } in
            rw mark (
              blocks_from-Lands (suc index) (es ++ here ∷ []) lines
                (All-append _ es (here ∷ []) h (at.0, tt)) at.1)
        | inr other ↦ rw other (
            All-append BlockLands (block_at es index (rule_of line)) _
              (block_at-Lands es index (rule_of line) h)
              (blocks_from-Lands (suc index) [] lines tt at.1))
      ]
