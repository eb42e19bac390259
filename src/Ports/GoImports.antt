-- ===== src/Ports/GoImports.antt =====
-- The imports of a Go file (tools/port-deps.cjs: `goImports`). A text is what is left of the file, with
-- the number of its first line. Which code points are letters and decimal digits is a parameter.
pub mod Total
use ebnf.Base.{
  ℕ, zero, suc, ◌+◌, ◌-◌, Bool, true, false, not, ◌&&◌, ◌||◌, Option, none, some, List, [], ◌∷◌,
  ◌++◌, ◌==◌, if◌then◌else◌, length, take, drop, starts_with, Text, text_eq, codes,
}
use ebnf.CharClass.{from_code_point, code_point_at}
use ebnf.Ports.Fault.{
  Read, read, ◌>>=◌, fail, open_comment, open_string, open_raw_string, escaped_path,
  no_package_clause, no_package_name, not_import, open_group, out_of_fuel,
}

pub data Kind : Type 0 where
  eof : Kind
  word string : Text → Kind
  punct : ℕ → Kind

-- A token, with the line that it starts on.
pub record GoToken : Type 0 where
  pub t : Kind
  pub line : ℕ

pub record Import : Type 0 where
  pub path : Text
  pub line : ℕ

-- What is left of the file.
pub record GoPlace : Type 0 where
  pub rest : Text
  pub line : ℕ

-- Where the next unit stands: in code, in a `//` comment, at the `*` that opens a comment, in that
-- comment, or at the `/` that closes it; a comment with the line that it starts on.
pub data Mode : Type 0 where
  code line_comment closing : Mode
  opening block_comment : ℕ → Mode

abbrev line_after : ℕ → ℕ → ℕ
line_after c line = if c == b'\n' then suc line else line

-- The mode after a unit, if that is no part of a token.
unfoldable pub step : Mode → ℕ → Text → ℕ → Option Mode
step code c cs line =
    if c == b'\n' || c == b' ' || c == b'\t' || c == b'\r'
    then some code
    else if c == b'/' && starts_with b'/' cs
    then some line_comment
    else if c == b'/' && starts_with b'*' cs
    then some (opening line)
    else none
step line_comment c cs line = some (if c == b'\n' then code else line_comment)
step (opening start) c cs line = some (block_comment start)
step (block_comment start) c cs line =
    some (if c == b'*' && starts_with b'/' cs then closing else block_comment start)
step closing c cs line = some code

-- A string up to its quote.
unfoldable pub quoted : Text → ℕ → Text → Read (Text × Text)
quoted file line [] = fail file line open_string
quoted file line (c ∷ cs) =
    let more = (do (v, rest) ← quoted file line cs; read (c ∷ v, rest)) in
    if c == b'"'
    then read ([], cs)
    else if c == b'\n'
    then fail file line open_string
    else if c == b'\\'
    then fail file line escaped_path
    else more

-- A raw string up to its quote, with the line that it ends on.
unfoldable pub raw : Text → ℕ → ℕ → Text → Read (Text × GoPlace)
raw file start line [] = fail file start open_raw_string
raw file start line (c ∷ cs) =
    let more = (do (v, p) ← raw file start (line_after c line) cs; read (c ∷ v, p)) in
    if c == b'`' then read ([], record { rest = cs; line = line }) else more

-- `is(tok, 'word')`, `is(tok, 'word', 'import')` and `is(tok, 'punct', c)`.
unfoldable pub is_word : Kind → Bool
is_word (word _) = true
is_word _ = false

unfoldable pub is_keyword : Text → Kind → Bool
unfolding text_eq
is_keyword v (word w) = text_eq w v
is_keyword v _ = false

unfoldable pub is_punct : ℕ → Kind → Bool
is_punct c (punct d) = d == c
is_punct c _ = false

unfoldable pub is_eof : Kind → Bool
is_eof eof = true
is_eof _ = false

-- The path of an import, at the token where it is due.
unfoldable pub imported : Text → Kind → ℕ → GoPlace → Read (Import × GoPlace)
imported file (string v) line p = read (record { path = v; line = line }, p)
imported file _ line p = fail file line not_import

-- How a round of the loops ends: with the imports that were found, or with another round, in a group or
-- outside of one.
pub data Turn : Type 0 where
  done : List Import → Turn
  again : Bool → List Import → GoPlace → Turn

unfoldable pub word_or_punct : ℕ → Text → ℕ → Text → GoToken × GoPlace
word_or_punct c cs line [] =
    (record { t = punct c; line = line }, record { rest = cs; line = line })
word_or_punct c cs line (w ∷ ws) =
    (record { t = word (w ∷ ws); line = line }, record { rest = drop (length ws) cs; line = line })

-- The end of the file, where it may stand.
unfoldable pub at_end : Text → Mode → ℕ → Read (GoToken × GoPlace)
at_end file (opening start) line = fail file start open_comment
at_end file (block_comment start) line = fail file start open_comment
at_end file _ line = read (record { t = eof; line = line }, record { rest = []; line = line })

unfoldable pub resume :
    (Bool → List Import → GoPlace → Read (List Import)) → Turn → Read (List Import)
resume loop (done found) = read found
resume loop (again group found p) = loop group found p

module _ (letter decimal : ℕ → Bool) where
  -- `[\p{L}_]` and `[\p{L}\p{Nd}_]`
  abbrev pub is_start : ℕ → Bool
  is_start c = letter c || c == b'_'

  abbrev pub is_part : ℕ → Bool
  is_part c = letter c || decimal c || c == b'_'

  -- `[\p{L}\p{Nd}_]*`, with the number of units of the code point at hand that are still to be taken.
  unfoldable pub word_units : ℕ → Text → Text
  unfolding code_point_at from_code_point
  word_units k [] = []
  word_units (suc k) (c ∷ cs) = c ∷ word_units k cs
  word_units zero (c ∷ cs) =
      let cp = code_point_at c cs in
      let more = c ∷ word_units (length (from_code_point cp) - 1) cs in
      if is_part cp then more else []

  -- The word at the front of a text, of which at most 256 units are looked at.
  unfoldable pub word_at : ℕ → Text → Text
  unfolding word_units code_point_at
  word_at c cs = if is_start (code_point_at c cs) then word_units 0 (take 256 (c ∷ cs)) else []

  -- The token that begins with the unit `c`.
  unfoldable pub token_at : Text → ℕ → Text → ℕ → Read (GoToken × GoPlace)
  unfolding quoted raw word_or_punct word_at
  token_at file c cs line =
      if c == b'"'
      then (do
        (v, rest) ← quoted file line cs
        read (record { t = string v; line = line }, record { rest = rest; line = line }))
      else if c == b'`'
      then (do (v, p) ← raw file line line cs; read (record { t = string v; line = line }, p))
      else read (word_or_punct c cs line (word_at c cs))

  -- `next`
  unfoldable pub next_from : Text → Mode → Text → ℕ → Read (GoToken × GoPlace)
  unfolding step token_at at_end
  next_from file m [] line = at_end file m line
  next_from file m (c ∷ cs) line = elim (step m c cs line) [
    | none ↦ token_at file c cs line
    | some m' ↦ next_from file m' cs (line_after c line)
  ]

  unfoldable pub next : Text → GoPlace → Read (GoToken × GoPlace)
  unfolding next_from
  next file p = next_from file code p.rest p.line

  -- `spec`, at its first token: an alias is a name, `_` or `.`.
  unfoldable pub spec : Text → GoToken → GoPlace → Read (Import × GoPlace)
  unfolding is_word is_punct imported next
  spec file first p =
      if is_word first.t || is_punct b'.' first.t
      then (do (tok, q) ← next file p; imported file tok.t tok.line q)
      else imported file first.t first.line p

  -- One import, and the loop that it stands in goes on.
  unfoldable pub one_import : Text → Bool → List Import → GoToken → GoPlace → Read Turn
  unfolding spec
  one_import file group out tok q = do
    (imp, r) ← spec file tok q
    read (again group (out ++ imp ∷ []) r)

  -- An import declaration, at the token behind its keyword.
  unfoldable pub declaration : Text → List Import → GoToken × GoPlace → Read Turn
  unfolding is_punct one_import
  declaration file out (tok, q) =
      if is_punct b'(' tok.t then read (again true out q) else one_import file false out tok q

  -- A round of the outer loop, and one in a group, at its token.
  unfoldable pub turn : Text → Bool → List Import → GoToken × GoPlace → Read Turn
  unfolding next is_punct is_keyword is_eof declaration one_import
  turn file false out (tok, q) =
      if is_punct b';' tok.t
      then read (again false out q)
      else if is_keyword (codes "import") tok.t
      then next file q >>= declaration file out
      else read (done out)
  turn file true out (tok, q) =
      if is_punct b')' tok.t
      then read (again false out q)
      else if is_punct b';' tok.t
      then read (again true out q)
      else if is_eof tok.t
      then fail file tok.line open_group
      else one_import file true out tok q

  unfoldable pub imports : ℕ → Text → Bool → List Import → GoPlace → Read (List Import)
  unfolding next turn resume
  imports zero file group out p = fail file p.line out_of_fuel
  imports (suc f) file group out p = do
    t ← next file p >>= turn file group out
    resume (imports f file) t

  -- The package clause, and the imports behind it, for a fuel above the number of units.
  unfoldable pub package_name : ℕ → Text → GoToken × GoPlace → Read (List Import)
  unfolding is_word imports
  package_name f file (tok, q) =
      if is_word tok.t then imports f file false [] q else fail file tok.line no_package_name

  unfoldable pub package_clause : ℕ → Text → GoToken × GoPlace → Read (List Import)
  unfolding next is_keyword package_name
  package_clause f file (tok, p) =
      if is_keyword (codes "package") tok.t
      then next file p >>= package_name f file
      else fail file tok.line no_package_clause

  unfoldable pub go_imports : Text → Text → Read (List Import)
  unfolding next package_clause
  go_imports file text =
      next file (record { rest = text; line = 1 }) >>= package_clause (suc (length text)) file
