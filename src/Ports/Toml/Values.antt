-- ===== src/Ports/Toml/Values.antt =====
-- The values of TOML (tools/port-deps.cjs: `value` of `parseToml`).
pub mod Lengths
use ebnf.Base.{
  ℕ, zero, suc, ◌+◌, ◌*◌, Bool, true, false, ◌&&◌, ◌||◌, List, [], ◌∷◌, ◌++◌, ◌==◌, if◌then◌else◌,
  length, take, drop, starts_with, within, Text, codes, text_eq,
}
use ebnf.Ports.Fault.{
  Fault, Read, read, ◌>>=◌, fail, open_array, no_comma, open_inline_table, no_equals, no_value,
  out_of_fuel,
}
use ebnf.Ports.Toml.{
  Node, table, array, string, bool, other, Keys, nothing, Nodes, end, push_node, Cursor, blank,
  gap_from, run_of,
}
use ebnf.Ports.Toml.Strings.{toml_string}
use ebnf.Ports.Toml.Paths.{toml_key}
use ebnf.Ports.Toml.Tables.{assign}

abbrev is_digit : ℕ → Bool
is_digit c = within b'0' b'9' c

-- `[A-Za-z0-9+\-_.:]`
unfoldable pub is_scalar : ℕ → Bool
is_scalar c =
    within b'A' b'Z' c
    || (within b'a' b'z' c
        || (within b'0' b'9' c
            || (c == b'+' || (c == b'-' || (c == b'_' || (c == b'.' || c == b':'))))))

-- `/^\d{4}-\d\d-\d\d$/`, where `d` stands for a digit.
unfoldable pub fits : Text → Text → Bool
fits [] [] = true
fits [] (_ ∷ _) = false
fits (_ ∷ _) [] = false
fits (p ∷ ps) (c ∷ cs) = (if p == b'd' then is_digit c else p == c) && fits ps cs

unfoldable pub is_date : Text → Bool
unfolding fits
is_date = fits (codes "dddd-dd-dd")

-- `[0-9:.+\-Zz]`
unfoldable pub is_time : ℕ → Bool
is_time c =
    within b'0' b'9' c
    || (c == b':' || (c == b'.' || (c == b'+' || (c == b'-' || (c == b'Z' || c == b'z')))))

-- `/^ \d\d:[0-9:.+\-Zz]+/`, of which at most 64 units are looked at; no units, where it does not match.
unfoldable pub clock : Text → Text → Text
clock front [] = []
clock front (c ∷ cs) = front ++ c ∷ cs

unfoldable pub time_at : Text → Text
unfolding fits clock run_of is_time
time_at text =
    if fits (codes " dd:") (take 4 text)
    then clock (take 4 text) (run_of is_time (drop 4 (take 64 text)))
    else []

-- A scalar, a date with the time that one space separates from it.
unfoldable pub with_time : Text → Text → Text
unfolding is_date time_at
with_time raw rest = if is_date raw then raw ++ time_at rest else raw

unfoldable pub scalar_node : ℕ → Text → Node
unfolding text_eq
scalar_node line raw =
    if text_eq raw (codes "true")
    then bool line true
    else if text_eq raw (codes "false")
    then bool line false
    else other line raw

unfoldable pub scalar : Text → ℕ → Text → Text → Read (Node × Cursor)
unfolding with_time scalar_node
scalar file line text [] = fail file line no_value
scalar file line text (c ∷ w) =
    let raw = with_time (c ∷ w) (drop (length (c ∷ w)) text) in
    read (scalar_node line raw, record { rest = drop (length raw) text; line = line })

-- What is being read: a value, the items of an array behind those that were read, or the keys of an
-- inline table likewise; each with the line that it starts on.
pub data Task : Type 0 where
  value : Task
  items : ℕ → Nodes → Task
  members : ℕ → Keys → Task

abbrev pub Loop : Type 0
Loop = Task → Cursor → Read (Node × Cursor)

abbrev pub string_node : ℕ → Text × Cursor → Read (Node × Cursor)
string_node line (v, p) = read (string line v, p)

unfoldable pub value_at : Text → Loop → ℕ → Text → Read (Node × Cursor)
unfolding toml_string scalar run_of is_scalar
value_at file loop line [] = fail file line no_value
value_at file loop line (c ∷ cs) =
    if c == b'"' || c == b'\''
    then toml_string file c line cs >>= string_node line
    else if c == b'['
    then loop (items line end) (record { rest = cs; line = line })
    else if c == b'{'
    then loop (members line nothing) (record { rest = cs; line = line })
    else scalar file line (c ∷ cs) (run_of is_scalar (take 256 (c ∷ cs)))

-- Behind an item there is a comma or the end, which the next round sees.
unfoldable pub separated :
    Text → ℕ → (Cursor → Read (Node × Cursor)) → ℕ → Text → Read (Node × Cursor)
separated file close loop line [] = loop (record { rest = []; line = line })
separated file close loop line (c ∷ cs) =
    if c == b','
    then loop (record { rest = cs; line = line })
    else if c == close
    then loop (record { rest = c ∷ cs; line = line })
    else fail file line no_comma

abbrev pub behind_gap : Text → ℕ → (Cursor → Read (Node × Cursor)) → Cursor → Read (Node × Cursor)
behind_gap file close loop p =
    let q = gap_from false p.line p.rest in separated file close loop q.line q.rest

-- A round of the loop over an array, behind the gap.
unfoldable pub items_at : Text → Loop → ℕ → Nodes → ℕ → Text → Read (Node × Cursor)
unfolding separated gap_from push_node
items_at file loop start xs line [] = fail file start open_array
items_at file loop start xs line (c ∷ cs) =
    let more = (do
      (x, p) ← loop value (record { rest = c ∷ cs; line = line })
      behind_gap file b']' (loop (items start (push_node xs x))) p) in
    if c == b']' then read (array start xs, record { rest = cs; line = line }) else more

-- `=` behind a key, and the blanks behind that.
unfoldable pub equals : Text → Cursor → Read Cursor
unfolding blank
equals file p =
    if starts_with b'=' p.rest
    then read (blank (record p { rest = drop 1 p.rest }))
    else fail file p.line no_equals

unfoldable pub members_at : Text → Loop → ℕ → Keys → ℕ → Text → Read (Node × Cursor)
unfolding separated gap_from toml_key equals assign
members_at file loop start ks line [] = fail file start open_inline_table
members_at file loop start ks line (c ∷ cs) =
    let more = (do
      (names, p) ← toml_key file (record { rest = c ∷ cs; line = line })
      q ← equals file p
      (x, r) ← loop value q
      ks' ← assign file x names ks
      behind_gap file b'}' (loop (members start ks')) r) in
    if c == b'}' then read (table start true true ks, record { rest = cs; line = line }) else more

unfoldable pub round : Text → Loop → Task → Cursor → Read (Node × Cursor)
unfolding value_at items_at members_at gap_from
round file loop value p = value_at file loop p.line p.rest
round file loop (items start xs) p =
    let q = gap_from false p.line p.rest in items_at file loop start xs q.line q.rest
round file loop (members start ks) p =
    let q = gap_from false p.line p.rest in members_at file loop start ks q.line q.rest

-- The calls of `value` and the rounds of its loops, as many as the fuel allows.
unfoldable pub values : ℕ → Text → Loop
unfolding round
values zero file task p = fail file p.line out_of_fuel
values (suc f) file task p = round file (values f file) task p

-- `value`, for a fuel of two for each unit and one more.
unfoldable pub toml_value : Text → Cursor → Read (Node × Cursor)
unfolding values
toml_value file p = values (suc (2 * length p.rest)) file value p
