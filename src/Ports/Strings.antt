-- ===== src/Ports/Strings.antt =====
-- Texts as the readers take them apart (tools/port-deps.cjs: `readText`, and what JavaScript offers).
pub mod Lengths
use ebnf.Base.{
  ℕ, Bool, true, false, ◌&&◌, ◌||◌, Option, none, some, List, [], ◌∷◌, ◌==◌, if◌then◌else◌,
  starts_with, Text, strip_prefix,
}

-- `text.replace(/\r\n/g, '\n')`
unfoldable pub unix_lines : Text → Text
unix_lines [] = []
unix_lines (c ∷ cs) =
    let rest = unix_lines cs in if c == b'\r' && starts_with b'\n' cs then rest else c ∷ rest

-- What `readText` makes of a file: no byte order mark, and line feeds alone.
unfoldable pub read_text : Text → Text
unfolding unix_lines
read_text [] = []
read_text (c ∷ cs) = if c == 0xFEFF then unix_lines cs else unix_lines (c ∷ cs)

-- A unit put in front of the first of some lines.
unfoldable pub push_first : ℕ → List Text → List Text
push_first c [] = (c ∷ []) ∷ []
push_first c (line ∷ lines) = (c ∷ line) ∷ lines

-- `text.split('\n')`
unfoldable pub split_lines : Text → List Text
unfolding push_first
split_lines [] = [] ∷ []
split_lines (c ∷ cs) =
    let rest = split_lines cs in if c == b'\n' then [] ∷ rest else push_first c rest

-- A text less the units in front, and at its end, that a test accepts.
unfoldable pub trim_start : (ℕ → Bool) → Text → Text
trim_start test [] = []
trim_start test (c ∷ cs) = let rest = trim_start test cs in if test c then rest else c ∷ cs

unfoldable pub is_empty : Text → Bool
is_empty [] = true
is_empty (_ ∷ _) = false

unfoldable pub trim_end : (ℕ → Bool) → Text → Text
unfolding is_empty
trim_end test [] = []
trim_end test (c ∷ cs) =
    let rest = trim_end test cs in if is_empty rest && test c then [] else c ∷ rest

unfoldable pub trim : (ℕ → Bool) → Text → Text
unfolding trim_start trim_end
trim test s = trim_end test (trim_start test s)

-- `s.startsWith(prefix)`
unfoldable pub has_prefix : Text → Text → Bool
unfolding strip_prefix
has_prefix prefix s = elim (strip_prefix prefix s) [ none ↦ false | some _ ↦ true ]

-- What stands behind the first place where a text stands in another.
unfoldable pub after_first : Text → Text → Option Text
unfolding strip_prefix
after_first part [] = strip_prefix part []
after_first part (c ∷ cs) =
    let later = after_first part cs in
    elim (strip_prefix part (c ∷ cs)) [ none ↦ later | some rest ↦ some rest ]

-- The units that `.` does not stand for.
abbrev pub is_line_end : ℕ → Bool
is_line_end c = c == b'\n' || c == b'\r' || c == 0x2028 || c == 0x2029
