-- ===== src/Ports/Toml/Strings.antt =====
-- The strings of TOML (tools/port-deps.cjs: `escape` and `string` of `parseToml`).
pub mod Lengths
use ebnf.Base.{
  ℕ, zero, suc, ◌+◌, Bool, true, false, not, ◌&&◌, ◌||◌, Option, none, some, List, [], ◌∷◌, ◌++◌,
  ◌==◌, if◌then◌else◌, ltb, length, take, drop, all, starts_with, Text, is_space,
}
use ebnf.Hex.{is_hex, parse_int16, max_code_point}
use ebnf.CharClass.{from_code_point}
use ebnf.Ports.Fault.{
  Fault, Read, read, ◌>>=◌, fail, malformed_escape, escape_beyond_unicode, unknown_escape,
  open_block_string, open_line_string,
}
use ebnf.Ports.Strings.{trim_start, has_prefix}
use ebnf.Ports.Toml.{Cursor, line_behind, is_indent}

-- `simple[c]`
unfoldable pub simple : ℕ → Option ℕ
simple c =
    if c == b'b'
    then some 8
    else if c == b't'
    then some b'\t'
    else if c == b'n'
    then some b'\n'
    else if c == b'f'
    then some 12
    else if c == b'r'
    then some b'\r'
    else if c == b'e'
    then some 0x1B
    else if c == b'"' || c == b'\\'
    then some c
    else none

-- `{ x: 2, u: 4, U: 8 }[c]`, and 0 for none.
unfoldable pub width : ℕ → ℕ
width c = if c == b'x' then 2 else if c == b'u' then 4 else if c == b'U' then 8 else 0

-- What an escape stands for, and the number of units behind the backslash.
unfoldable pub coded : Text → ℕ → ℕ → Option ℕ → Read (Text × ℕ)
unfolding from_code_point
coded file line w none = fail file line malformed_escape
coded file line w (some n) =
    if ltb max_code_point n
    then fail file line escape_beyond_unicode
    else read (from_code_point n, suc w)

unfoldable pub hex_escape : Text → ℕ → ℕ → Text → Read (Text × ℕ)
unfolding coded is_hex parse_int16
hex_escape file line w hex =
    if length hex == w && all is_hex hex
    then coded file line w (parse_int16 hex)
    else fail file line malformed_escape

unfoldable pub long_escape : Text → ℕ → ℕ → Text → Read (Text × ℕ)
unfolding hex_escape
long_escape file line zero cs = fail file line unknown_escape
long_escape file line (suc w) cs = hex_escape file line (suc w) (take (suc w) cs)

-- `escape`, at the text behind the backslash.
unfoldable pub escape : Text → ℕ → Text → Read (Text × ℕ)
unfolding simple width long_escape
escape file line [] = fail file line unknown_escape
escape file line (c ∷ cs) = elim (simple c) [
  | some v ↦ read (v ∷ [], 1)
  | none ↦ long_escape file line (width c) cs
]

-- Where the loop over a string stands: with a number of units still to be passed over, or behind a
-- backslash at a line end.
pub data Phase : Type 0 where
  skip : ℕ → Phase
  eating : Phase

-- What a unit of a string comes to: its end, with what still belongs to it and what stands behind it,
-- or a part of the string.
pub data Bit : Type 0 where
  close : Text → Text → Bit
  part : Text → Phase → Bit

unfoldable pub escaped : Text → ℕ → Text → Read Bit
unfolding escape
escaped file line cs = do (v, n) ← escape file line cs; read (part v (skip n))

-- A unit of a string on one line.
unfoldable pub line_unit : Text → ℕ → ℕ → ℕ → ℕ → Text → Read Bit
unfolding escaped
line_unit file start quote line c cs =
    if c == b'\n'
    then fail file start open_line_string
    else if c == quote
    then read (close [] cs)
    else if c == b'\\' && quote == b'"'
    then escaped file line cs
    else read (part (c ∷ []) (skip 0))

unfoldable pub line_bit : Text → ℕ → ℕ → Phase → ℕ → ℕ → Text → Read Bit
unfolding line_unit
line_bit file start quote (skip (suc k)) line c cs = read (part [] (skip k))
line_bit file start quote (skip zero) line c cs = line_unit file start quote line c cs
line_bit file start quote eating line c cs = line_unit file start quote line c cs

-- Up to two more quotes belong to the string itself.
unfoldable pub extra : ℕ → Text → ℕ
extra quote rest =
    if starts_with quote rest then (if starts_with quote (drop 1 rest) then 2 else 1) else 0

unfoldable pub closing : ℕ → Text → Bit
unfolding extra
closing quote rest = close (take (extra quote rest) rest) (drop (extra quote rest) rest)

-- `/^[ \t]*\n/`, of which at most 200 units are looked at.
unfoldable pub is_continued : Text → Bool
unfolding trim_start
is_continued cs = starts_with b'\n' (trim_start is_indent (take 200 cs))

-- A unit of a string on several lines.
unfoldable pub block_unit : Text → ℕ → ℕ → ℕ → Text → Read Bit
unfolding has_prefix closing is_continued escaped
block_unit file quote line c cs =
    if has_prefix (quote ∷ quote ∷ quote ∷ []) (c ∷ cs)
    then read (closing quote (drop 2 cs))
    else if c == b'\\' && quote == b'"'
    then (if is_continued cs then read (part [] eating) else escaped file line cs)
    else read (part (c ∷ []) (skip 0))

unfoldable pub block_bit : Text → ℕ → Phase → ℕ → ℕ → Text → Read Bit
unfolding block_unit
block_bit file quote (skip (suc k)) line c cs = read (part [] (skip k))
block_bit file quote (skip zero) line c cs = block_unit file quote line c cs
block_bit file quote eating line c cs =
    if is_space c then read (part [] eating) else block_unit file quote line c cs

unfoldable pub after_bit : (Phase → Read (Text × Cursor)) → ℕ → Bit → Read (Text × Cursor)
after_bit loop line (close v rest) = read (v, record { rest = rest; line = line })
after_bit loop line (part v phase) = do (w, p) ← loop phase; read (v ++ w, p)

-- The loop over a string, for what a unit comes to and how it fails at the end of the file.
unfoldable pub string_from :
    (Phase → ℕ → ℕ → Text → Read Bit)
    → Read (Text × Cursor)
    → Phase
    → ℕ
    → Text
    → Read (Text × Cursor)
unfolding after_bit
string_from bit at_end phase line [] = at_end
string_from bit at_end phase line (c ∷ cs) =
    bit phase line c cs
    >>= after_bit (λ next. string_from bit at_end next (line_behind c line) cs) line

unfoldable pub block_string : Text → ℕ → ℕ → ℕ → Text → Read (Text × Cursor)
unfolding string_from block_bit
block_string file start quote line cs =
    string_from (block_bit file quote) (fail file start open_block_string) (skip 0) line cs

-- `string`, at the text behind its first quote.
unfoldable pub toml_string : Text → ℕ → ℕ → Text → Read (Text × Cursor)
unfolding has_prefix block_string string_from line_bit
toml_string file quote line cs =
    let inside = drop 2 cs in
    if has_prefix (quote ∷ quote ∷ []) cs
    then (if starts_with b'\n' inside
        then block_string file line quote (suc line) (drop 1 inside)
        else block_string file line quote line inside)
    else string_from (line_bit file line quote) (fail file line open_line_string) (skip 0) line cs
