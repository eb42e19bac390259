-- ===== src/Vale/Notes/Land.antt =====
-- Where the inserted lines stand (ts/scripts/vale-counts.cjs: `report`).
use ebnf.Base.{
  ℕ, ◌≡◌, ◌≢◌, true, Option, none, some, List, ◌∷◌, ◌++◌, length, all, Text, codes, get_elem?, ◌⊎◌,
}
use ebnf.Vale.{Block, rule_of}
use ebnf.Vale.Claims.{is_decimal, number_of}
use ebnf.Vale.Notes.{Note, index_of}

-- `# `, the count in digits, and `hit.` or `hits.`
abbrev pub SaysCount : ℕ → Text → Type 0
SaysCount actual text =
    (digits : Text) × (word : Text) × (text ≡ codes "# " ++ (digits ++ (b' ' ∷ word ++ codes ".")))
    × (all is_decimal digits ≡ true)
    × (number_of 0 digits ≡ actual)
    × (((actual ≡ 1) × (word ≡ codes "hit")) ⊎ ((actual ≢ 1) × (word ≡ codes "hits")))

abbrev pub IsDemoted : Text → Type 0
IsDemoted level = (level ≡ codes "warning") ⊎ ((level ≡ codes "suggestion") ⊎ (level ≡ codes "NO"))

module _ (src : List Text) where
  -- A block of a rule stands above the line that assigns its level.
  abbrev IsAssigned : Block → Option (Text × Text) → Type 0
  IsAssigned b none = Unit {0}
  IsAssigned b (some rule) =
      (line : Text) × (get_elem? src (index_of b.assigned) ≡ some line) × (rule_of line ≡ some rule)

  abbrev OfRule : Block → Type 0
  OfRule b = IsAssigned b b.rule

  -- A note says how often Vale reports a demoted rule, and is inserted right above the rule's line.
  abbrev pub IsNote : (Text → ℕ) → Note → Type 0
  IsNote count n =
      (above : List Text) × (line : Text) × (below : List Text) × (name : Text) × (level : Text)
      × (src ≡ above ++ line ∷ below)
      × (rule_of line ≡ some (name, level))
      × (n.at ≡ length above)
      × IsDemoted level
      × SaysCount (count name) n.text
