-- ===== src/Ports/GoIgnored.antt =====
-- Whether a Go file's build constraint is just `ignore` (tools/port-deps.cjs: `goIgnored`).
pub mod Enough
use ebnf.Base.{
  ℕ, zero, suc, ◌+◌, Bool, true, false, not, ◌&&◌, ◌||◌, Option, none, some, List, [], ◌∷◌, ◌==◌,
  if◌then◌else◌, length, take, drop, any, Text, text_eq, codes, strip_prefix,
}
use ebnf.Ports.Fault.{Read, read, ◌>>=◌, fail, second_build_line}
use ebnf.Ports.Strings.{split_lines, is_empty, trim, has_prefix, after_first, is_line_end}

-- `[ \t\r\v\f]`
abbrev pub is_blank : ℕ → Bool
is_blank c = c == b' ' || c == b'\t' || c == b'\r' || c == 11 || c == 12

abbrev pub trim_line : Text → Text
trim_line s = trim is_blank s

-- The rest of a header line: whether the header goes on behind it, and if so, in a block comment or not.
-- The fuel is above the length of the line.
unfoldable pub scan_line : ℕ → Bool → Text → Option Bool
unfolding trim has_prefix after_first is_empty
scan_line zero in_star line = some in_star
scan_line (suc f) true line =
    if is_empty line then some true else elim (after_first (codes "*/") line) [
      | none ↦ some true
      | some rest ↦ scan_line f false (trim_line rest)
    ]
scan_line (suc f) false line =
    let comment = scan_line f true (trim_line (drop 2 line)) in
    if is_empty line
    then some false
    else if has_prefix (codes "//") line
    then some false
    else if has_prefix (codes "/*") line
    then comment
    else none

-- The variables of the loop over the header.
pub record Header : Type 0 where
  pub end : ℕ
  pub ended : Bool
  pub in_star : Bool
  pub go_build : Option Text

-- `/^\/\/go:build(?:[ \t]|$)/`
unfoldable pub is_gap : Text → Bool
is_gap [] = true
is_gap (c ∷ _) = c == b' ' || c == b'\t'

unfoldable pub is_build_line : Text → Bool
unfolding strip_prefix is_gap
is_build_line line = elim (strip_prefix (codes "//go:build") line) [
  | none ↦ false
  | some rest ↦ is_gap rest
]

-- What a line of the header leads to: the end of the header, or the next line.
pub data Onward : Type 0 where
  stop : Header → Onward
  onward : Header → Onward

unfoldable pub with_star : Header → Option Bool → Onward
with_star h none = stop h
with_star h (some in_star) = onward (record h { in_star = in_star })

unfoldable pub with_build : Text → ℕ → Text → Header → Option Text → Read Header
with_build file k line h none = read (record h { go_build = some line })
with_build file k line h (some _) = fail file (k + 1) second_build_line

unfoldable pub header_line : Text → ℕ → Text → Header → Read Onward
unfolding is_empty has_prefix is_build_line with_build with_star scan_line
header_line file k line h =
    if is_empty line && not h.ended then read (onward (record h { end = k + 1 })) else (do
      let h' : Header = record h { ended = h.ended || not (has_prefix (codes "//") line) }
      h'' ←
          (if not h'.in_star && is_build_line line
            then with_build file k line h' h'.go_build
            else read h')
      read (with_star h'' (scan_line (suc (length line)) h''.in_star line)))

unfoldable pub go_on : (Header → Read Header) → Onward → Read Header
go_on loop (stop h) = read h
go_on loop (onward h) = loop h

unfoldable pub header_lines : Text → ℕ → List Text → Header → Read Header
unfolding header_line go_on trim
header_lines file k [] h = read h
header_lines file k (raw ∷ lines) h =
    header_line file k (trim_line raw) h >>= go_on (header_lines file (suc k) lines)

-- `/^\+build(?:[ \t](.*))?$/`, and its first group is `ignore`.
unfoldable pub is_ignore : Text → Bool
unfolding trim text_eq
is_ignore s = text_eq (trim_line s) (codes "ignore")

unfoldable pub is_ignore_behind : Option Text → Bool
unfolding is_ignore
is_ignore_behind none = false
is_ignore_behind (some []) = false
is_ignore_behind (some (c ∷ rest)) =
    (c == b' ' || c == b'\t') && (not (any is_line_end rest) && is_ignore rest)

-- A `// +build ignore` line.
unfoldable pub is_old_build : Text → Bool
unfolding trim has_prefix strip_prefix is_ignore_behind
is_old_build raw =
    let line = trim_line raw in
    has_prefix (codes "//") line
    && is_ignore_behind (strip_prefix (codes "+build") (trim_line (drop 2 line)))

unfoldable pub decide : List Text → Header → Option Text → Bool
unfolding is_ignore is_old_build
decide lines h (some line) = is_ignore (drop (length (codes "//go:build")) line)
decide lines h none = any is_old_build (take h.end lines)

unfoldable pub go_ignored : Text → Text → Read Bool
unfolding split_lines header_lines decide
go_ignored file text = do
  let lines = split_lines text
  h ←
      header_lines file 0 lines
        (record { end = 0; ended = false; in_star = false; go_build = none })
  read (decide lines h h.go_build)
