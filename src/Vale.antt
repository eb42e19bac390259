-- ===== src/Vale.antt =====
-- The record of prose alerts (ts/scripts/vale-counts.cjs): the comments of its settings file, joined so
-- that each unit is known by its place in the file.
pub mod Lands
pub mod Words
pub mod Edits
pub mod Claims
pub mod Notes
use ebnf.Base.{
  ℕ, suc, ◌-◌, Bool, not, ◌||◌, Option, none, some, List, [], ◌∷◌, ◌++◌, ◌==◌, ltb, if◌then◌else◌,
  length, drop, starts_with, within, is_space, Text, codes, text_eq,
}
use ebnf.Ports.Strings.{trim_start, split_lines}
use ebnf.Ports.Toml.{run_of}

-- A line of a comment, and its index in the file.
pub record Comment : Type 0 where
  pub line : Text
  pub index : ℕ

-- A place in the file, the index of a line and the column in it; `null` for a blank between lines.
abbrev pub At : Type 0
At = Option (ℕ × ℕ)

pub record Joined : Type 0 where
  pub text : Text
  pub at : List At

-- `line.replace(/^#[ \t]?/, '')`
unfoldable pub without_blank : Text → Text
without_blank [] = []
without_blank (c ∷ cs) = if c == b' ' || c == b'\t' then cs else c ∷ cs

unfoldable pub without_mark : Text → Text
unfolding without_blank
without_mark [] = []
without_mark (c ∷ cs) = if c == b'#' then without_blank cs else c ∷ cs

-- The places of the units of a line's rest.
unfoldable pub places : ℕ → ℕ → Text → List At
places index col [] = []
places index col (_ ∷ cs) = some (index, col) ∷ places index (suc col) cs

unfoldable pub padded : Joined → Joined
padded j =
    if ltb 0 (length j.text)
    then record { text = j.text ++ b' ' ∷ []; at = j.at ++ none ∷ [] }
    else j

unfoldable pub join_one : Joined → Comment → Joined
unfolding without_mark places padded
join_one j entry =
    let body = without_mark entry.line in
    let pad = length entry.line - length body in
    record { text = (padded j).text ++ body; at = (padded j).at ++ places entry.index pad body }

unfoldable pub join_from : Joined → List Comment → Joined
unfolding join_one
join_from j [] = j
join_from j (entry ∷ entries) = join_from (join_one j entry) entries

-- `join`
unfoldable pub join : List Comment → Joined
unfolding join_from
join entries = join_from (record { text = []; at = [] }) entries

-- `[\w.]`
unfoldable pub is_rule_unit : ℕ → Bool
is_rule_unit c =
    within b'A' b'Z' c || (within b'a' b'z' c || (within b'0' b'9' c || (c == b'_' || c == b'.')))

abbrev pub not_space : ℕ → Bool
not_space c = not (is_space c)

-- `/^([\w.]+)\s*=\s*(\S+)\s*$/`
unfoldable pub level_end : Text → Text → Text → Option (Text × Text)
level_end name [] rest = none
level_end name (c ∷ cs) [] = some (name, c ∷ cs)
level_end name (c ∷ cs) (_ ∷ _) = none

unfoldable pub level_of : Text → Text → Option (Text × Text)
unfolding level_end run_of trim_start
level_of name text =
    let level = run_of not_space text in
    level_end name level (trim_start is_space (drop (length level) text))

unfoldable pub assigned_to : Text → Text → Option (Text × Text)
unfolding level_of trim_start
assigned_to [] text = none
assigned_to (c ∷ cs) text =
    if starts_with b'=' text then level_of (c ∷ cs) (trim_start is_space (drop 1 text)) else none

unfoldable pub rule_of : Text → Option (Text × Text)
unfolding assigned_to run_of is_rule_unit trim_start
rule_of line =
    let name = run_of is_rule_unit line in
    assigned_to name (trim_start is_space (drop (length name) line))

-- `SETTING`
unfoldable pub is_setting : Text → Bool
unfolding text_eq
is_setting name =
    text_eq name (codes "StylesPath")
    || (text_eq name (codes "MinAlertLevel")
        || (text_eq name (codes "Vocab")
            || (text_eq name (codes "Packages") || text_eq name (codes "BasedOnStyles"))))

pub record Block : Type 0 where
  pub rule : Option (Text × Text)
  pub joined : Joined
  pub assigned : Option ℕ

unfoldable pub comment_block : List Comment → Option ℕ → List Block
unfolding join
comment_block [] assigned = []
comment_block (e ∷ es) assigned =
    record { rule = none; joined = join (e ∷ es); assigned = assigned } ∷ []

-- A line that is no comment ends the block: a rule with its level, or a block that says nothing of a
-- rule.
unfoldable pub block_at : List Comment → ℕ → Option (Text × Text) → List Block
unfolding comment_block is_setting join
block_at block index none = comment_block block (some index)
block_at block index (some (name, level)) =
    if is_setting name
    then comment_block block (some index)
    else record { rule = some (name, level); joined = join block; assigned = some index } ∷ []

unfoldable pub blocks_from : ℕ → List Comment → List Text → List Block
unfolding comment_block block_at rule_of
blocks_from index block [] = comment_block block none
blocks_from index block (line ∷ lines) =
    let inside =
      blocks_from (suc index) (block ++ record { line = line; index = index } ∷ []) lines in
    let outside = blocks_from (suc index) [] lines in
    if starts_with b'#' line then inside else block_at block index (rule_of line) ++ outside

-- `blocks`
unfoldable pub blocks : Text → List Block
unfolding split_lines blocks_from
blocks ini = blocks_from 0 [] (split_lines ini)
