-- ===== src/Vale/Words.antt =====
-- The words of the joined comments, and where they stand in the file (ts/scripts/vale-counts.cjs: `join`
-- and `blocks`).
use ebnf.Base.{
  ℕ, zero, suc, ◌+◌, ◌≡◌, ◌≢◌, refl, ap, ◌∙◌, subst, true, not, none, some, List, [], ◌∷◌, ◌++◌,
  ◌==◌, length, drop, all, Text, get_elem?, All, arith,
}
use ebnf.Ports.Strings.{split_lines}
use ebnf.Vale.Edits.{edit}
use ebnf.Vale.Edits.Pieces.{edit-pieces}
use ebnf.Vale.{At, Block, blocks}
use ebnf.Vale.Lands.{Lands, BlockLands, blocks_from-Lands}

-- A text without a blank.
abbrev pub IsWord : Text → Type 0
IsWord w = (w ≢ []) × (all (λ c. not (c == b' ')) w ≡ true)

All-get_elem? {ℓ κ} :
    {A : Type ℓ} (P : A → Type κ) (xs : List A) (i : ℕ) (x : A)
    → All P xs
    → get_elem? xs i ≡ some x
    → P x
All-get_elem? P [] i x h e = absurd cc
All-get_elem? P (y ∷ xs) zero x h e = let same : y ≡ x = cc in subst P same h.0
All-get_elem? P (y ∷ xs) (suc i) x h e = All-get_elem? P xs i x h.1 e

-- A member of a list, with what is in front of it and behind it.
pub split_at {ℓ} :
    {A : Type ℓ} (xs : List A) (i : ℕ) (x : A)
    → get_elem? xs i ≡ some x
    → (above : List A) × (below : List A) × (xs ≡ above ++ x ∷ below) × (length above ≡ i)
split_at [] i x e = absurd cc
split_at (y ∷ xs) zero x e = ([], xs, cc, refl)
split_at (y ∷ xs) (suc i) x e =
    let (above, below, is, at) = split_at xs i x e in (y ∷ above, below, ap (◌∷◌ y) is, ap suc at)

split_drop :
    (line : Text) (k c : ℕ) (cs : Text)
    → drop k line ≡ c ∷ cs
    → (front : Text) × (line ≡ front ++ c ∷ cs) × (length front ≡ k)
split_drop [] zero c cs e = absurd cc
split_drop [] (suc k) c cs e = absurd cc
split_drop (d ∷ line) zero c cs e = ([], e, refl)
split_drop (d ∷ line) (suc k) c cs e =
    let (front, is, at) = split_drop line k c cs e in (d ∷ front, ap (◌∷◌ d) is, ap suc at)

split_word :
    (line : Text) (k : ℕ) (w back : Text)
    → w ≢ []
    → drop k line ≡ w ++ back
    → (front : Text) × (line ≡ front ++ (w ++ back)) × (length front ≡ k)
split_word line k [] back n e = absurd (n refl)
split_word line k (c ∷ w) back n e = split_drop line k c (w ++ back) e

drop-get_elem? :
    (line : Text) (k c : ℕ) → get_elem? line k ≡ some c → drop k line ≡ c ∷ drop (suc k) line
drop-get_elem? [] k c e = absurd cc
drop-get_elem? (d ∷ line) zero c e = cc
drop-get_elem? (d ∷ line) (suc k) c e = drop-get_elem? line k c e

module _ (src : List Text) where
  -- A word stands at a column of a line.
  abbrev pub StandsAt : Text → ℕ → ℕ → Type 0
  StandsAt w l k =
      (line : Text) × (back : Text) × (get_elem? src l ≡ some line) × (drop k line ≡ w ++ back)

  stands_from :
      (w back : Text) (l k : ℕ) (ps : List At)
      → Lands src (some (l, k) ∷ ps) (w ++ back)
      → IsWord w
      → StandsAt w l k
  stands_from [] back l k ps h is = absurd (is.0 refl)
  stands_from (c ∷ []) back l k ps h is =
      let (line, at, unit) = h.0 in (line, drop (suc k) line, at, drop-get_elem? line k c unit)
  stands_from (c ∷ d ∷ w) back l k [] h is = absurd h.1.1
  stands_from (c ∷ d ∷ w) back l k (none ∷ ps) h is =
      let blank : d ≡ b' ' = h.1.1.0 in absurd (ground (arith, blank, is.1))
  stands_from (c ∷ d ∷ w) back l k (some q ∷ ps) h is =
      let (line, at, unit) = h.0 in
      let further = subst (λ p. Lands src (some p ∷ ps) (d ∷ (w ++ back))) h.1.0 h.1.1 in
      let (line', back', at', rest) =
        stands_from (d ∷ w) back l (suc k) ps further ((λ e. cc e), ground (arith, is.1)) in
      let same : line' ≡ line = cc in
      (line, back', at, drop-get_elem? line k c unit ∙ ap (◌∷◌ c) (rw same at rest))

  -- What stands in a joined text stands at the place that is kept of its first unit.
  stands_at :
      (front w back : Text) (ps : List At)
      → Lands src ps (front ++ (w ++ back))
      → IsWord w
      → (l : ℕ) × (k : ℕ) × (get_elem? ps (length front) ≡ some (some (l, k))) × StandsAt w l k
  stands_at [] [] back ps h is = absurd (is.0 refl)
  stands_at [] (c ∷ w) back [] h is = absurd h
  stands_at [] (c ∷ w) back (none ∷ ps) h is =
      let blank : c ≡ b' ' = h.0 in absurd (ground (arith, blank, is.1))
  stands_at [] (c ∷ w) back (some (l, k) ∷ ps) h is =
      (l, k, refl, stands_from (c ∷ w) back l k ps h is)
  stands_at (c ∷ front) w back [] h is = absurd h
  stands_at (c ∷ front) w back (p ∷ ps) h is = stands_at front w back ps h.1.1 is

-- A word stands in the file at the place that is kept of an index of the joined text, and an edit at that
-- place puts any text in its stead and changes nothing else.
abbrev pub LandsIn : List Text → List At → ℕ → Text → Type 0
LandsIn src at i w =
    (above : List Text) × (below : List Text) × (pre : Text) × (post : Text) × (get_elem? at i
      ≡ some (some (length above, length pre)))
    × (src ≡ above ++ (pre ++ (w ++ post)) ∷ below)
    × ((text : Text)
        → edit src (record { line = length above; col = length pre; was = w; text = text } ∷ [])
          ≡ some (above ++ (pre ++ (text ++ post)) ∷ below))

edit-word :
    (above below : List Text) (pre w text post : Text)
    → w ≢ []
    → edit
        (above ++ (pre ++ (w ++ post)) ∷ below)
        (record { line = length above; col = length pre; was = w; text = text } ∷ [])
      ≡ some (above ++ (pre ++ (text ++ post)) ∷ below)
edit-word above below pre w text post n =
    let from_start : 0 + length pre ≡ length pre = omega arith in
    rw from_start at
      (edit-pieces above below post (record { stays = pre; was = w; text = text } ∷ []) (n, tt))

assemble :
    (src : List Text) (at : List At) (i : ℕ) (w : Text) (l k : ℕ) (line post : Text)
    → get_elem? at i ≡ some (some (l, k))
    → get_elem? src l ≡ some line
    → drop k line ≡ w ++ post
    → w ≢ []
    → LandsIn src at i w
assemble src at i w l k line post kept there rest n =
    let (above, below, lines, length_above) = split_at src l line there in
    let (pre, units, length_pre) = split_word line k w post n rest in
    let all_lines = lines ∙ ap (λ (x : Text). above ++ x ∷ below) units in
    (
      above,
      below,
      pre,
      post,
      rw length_above (rw length_pre kept),
      all_lines,
      λ text.
          ap
            (λ s.
              edit s (record { line = length above; col = length pre; was = w; text = text } ∷ []))
            all_lines
          ∙ edit-word above below pre w text post n,
    )

-- A word in the joined text of a block stands, as it is, at the place that the block keeps of its first
-- unit, and an edit at that place puts any text in its stead and changes nothing else; a word has no blank
-- in it and is not empty.
pub words_land :
    (ini : Text) (i : ℕ) (b : Block) (front w back : Text)
    → get_elem? (blocks ini) i ≡ some b
    → b.joined.text ≡ front ++ (w ++ back)
    → IsWord w
    → LandsIn (split_lines ini) b.joined.at (length front) w
unfolding blocks
words_land ini i b front w back at is word =
    let src = split_lines ini in
    let lands =
      All-get_elem? (BlockLands src) (blocks ini) i b (blocks_from-Lands src 0 [] src tt refl) at in
    let (l, k, kept, (line, post, there, rest)) =
      stands_at src front w back b.joined.at (rw is at lands) word in
    assemble src b.joined.at (length front) w l k line post kept there rest word.0
