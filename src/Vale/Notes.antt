-- ===== src/Vale/Notes.antt =====
-- The lines for rules that are demoted without a count (ts/scripts/vale-counts.cjs: `DEMOTED`, `HAS_HITS`,
-- and the part of `report` that inserts a line).
pub mod Woven
pub mod Land
use ebnf.Base.{
  ℕ, zero, suc, Bool, true, false, not, ◌&&◌, ◌||◌, Option, none, some, List, [], ◌∷◌, ◌++◌, ◌==◌,
  ltb, if◌then◌else◌, Text, codes, text_eq,
}
use ebnf.Vale.{Block}
use ebnf.Vale.Claims.{Claim, hits_from, decimal}

-- `DEMOTED`
unfoldable pub is_demoted : Text → Bool
unfolding text_eq
is_demoted level =
    text_eq level (codes "warning")
    || (text_eq level (codes "suggestion") || text_eq level (codes "NO"))

unfoldable pub is_some_claim : List Claim → Bool
is_some_claim [] = false
is_some_claim (_ ∷ _) = true

-- `HAS_HITS.test`, which holds where `HITS` matches.
unfoldable pub has_hits : Text → Bool
unfolding is_some_claim hits_from
has_hits text = is_some_claim (hits_from 0 false 0 text)

pub record Note : Type 0 where
  pub at : ℕ
  pub text : Text

unfoldable pub note_text : ℕ → Text
unfolding decimal
note_text actual =
    codes "# "
    ++ (decimal (suc actual) actual
        ++ (b' ' ∷ (if actual == 1 then codes "hit" else codes "hits") ++ codes "."))

-- `null` as an index is 0.
unfoldable pub index_of : Option ℕ → ℕ
index_of none = 0
index_of (some at) = at

unfoldable pub note_for : ℕ → Text → Block → List Note
unfolding is_demoted has_hits note_text index_of
note_for actual level b =
    if is_demoted level && not (has_hits b.joined.text)
    then record { at = index_of b.assigned; text = note_text actual } ∷ []
    else []

unfoldable pub rule_notes : (Text → ℕ) → Option (Text × Text) → Block → List Note
unfolding note_for
rule_notes count none b = []
rule_notes count (some (name, level)) b = note_for (count name) level b

-- `insert`, for what Vale reports of each rule.
unfoldable pub notes : (Text → ℕ) → List Block → List Note
unfolding rule_notes
notes count [] = []
notes count (b ∷ bs) = rule_notes count b.rule b ++ notes count bs

-- `lines.splice(at, 0, text)`
unfoldable pub splice : ℕ → Text → List Text → List Text
splice zero text lines = text ∷ lines
splice (suc at) text [] = text ∷ []
splice (suc at) text (line ∷ lines) = line ∷ splice at text lines

-- `sort((a, b) => b.at - a.at)`
unfoldable pub insert_note : Note → List Note → List Note
insert_note n [] = n ∷ []
insert_note n (m ∷ ms) =
    let rest = m ∷ insert_note n ms in if ltb n.at m.at then rest else n ∷ m ∷ ms

unfoldable pub sort_notes : List Note → List Note
unfolding insert_note
sort_notes [] = []
sort_notes (n ∷ ns) = insert_note n (sort_notes ns)

unfoldable pub splice_all : List Note → List Text → List Text
unfolding splice
splice_all [] lines = lines
splice_all (n ∷ ns) lines = splice_all ns (splice n.at n.text lines)

unfoldable pub with_notes : List Note → List Text → List Text
unfolding splice_all sort_notes
with_notes ns lines = splice_all (sort_notes ns) lines
