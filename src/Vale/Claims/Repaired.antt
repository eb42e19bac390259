-- ===== src/Vale/Claims/Repaired.antt =====
-- The counts that the comments of a block claim, and the edits that repair the wrong ones
-- (ts/scripts/vale-counts.cjs: the loop of `report` over the matches of `HITS`).
use ebnf.Base.{ℕ, ◌≡◌, some, List, Text, get_elem?}
use ebnf.Vale.{At}
use ebnf.Vale.Edits.{Edit}
use ebnf.Vale.Claims.Found.{IsIn}

-- One of the edits takes these digits, from the place of this index.
abbrev pub IsTaken : List At → ℕ → Text → List Edit → Type 0
IsTaken at index digits es =
    (e : Edit) × IsIn e es × (e.was ≡ digits) × (get_elem? at index ≡ some (some (e.line, e.col)))
