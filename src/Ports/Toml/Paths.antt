-- ===== src/Ports/Toml/Paths.antt =====
-- The keys of TOML, parts with dots between them (tools/port-deps.cjs: `key` of `parseToml`).
use ebnf.Base.{
  ℕ, zero, suc, Bool, ◌||◌, List, [], ◌∷◌, ◌==◌, if◌then◌else◌, length, take, drop, starts_with,
  Text, within,
}
use ebnf.Ports.Fault.{Read, read, ◌>>=◌, fail, block_string_as_key, no_key, out_of_fuel}
use ebnf.Ports.Strings.{has_prefix}
use ebnf.Ports.Toml.{Cursor, blank, run_of}
use ebnf.Ports.Toml.Strings.{toml_string}

-- `[A-Za-z0-9_-]`
unfoldable pub is_bare : ℕ → Bool
is_bare c =
    within b'A' b'Z' c || (within b'a' b'z' c || (within b'0' b'9' c || (c == b'_' || c == b'-')))

unfoldable pub bare_part : Text → ℕ → Text → Text → Read (Text × Cursor)
bare_part file line text [] = fail file line no_key
bare_part file line text (c ∷ w) =
    read (c ∷ w, record { rest = drop (length (c ∷ w)) text; line = line })

-- One part of a key, behind the blanks; of a bare one at most 256 units are looked at.
unfoldable pub key_part : Text → ℕ → Text → Read (Text × Cursor)
unfolding toml_string has_prefix bare_part run_of is_bare
key_part file line [] = fail file line no_key
key_part file line (c ∷ cs) =
    if c == b'"' || c == b'\''
    then (if has_prefix (c ∷ c ∷ []) cs
        then fail file line block_string_as_key
        else toml_string file c line cs)
    else bare_part file line (c ∷ cs) (run_of is_bare (take 256 (c ∷ cs)))

-- Another part follows a dot.
unfoldable pub after_part :
    (Cursor → Read (List Text × Cursor)) → Text → Cursor → Read (List Text × Cursor)
after_part loop name p =
    if starts_with b'.' p.rest
    then (do (names, q) ← loop (record p { rest = drop 1 p.rest }); read (name ∷ names, q))
    else read (name ∷ [], p)

unfoldable pub key_parts : ℕ → Text → Cursor → Read (List Text × Cursor)
unfolding key_part after_part blank
key_parts zero file p = fail file p.line out_of_fuel
key_parts (suc f) file p = do
  (name, q) ← key_part file p.line (blank p).rest
  after_part (key_parts f file) name (blank q)

-- `key`, for a fuel above the number of units.
unfoldable pub toml_key : Text → Cursor → Read (List Text × Cursor)
unfolding key_parts
toml_key file p = key_parts (suc (length p.rest)) file p
