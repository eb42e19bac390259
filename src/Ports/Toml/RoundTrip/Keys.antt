-- ===== src/Ports/Toml/RoundTrip/Keys.antt =====
-- Keys as TOML writes them (tools/port-deps.cjs: `key` of `parseToml`).
use ebnf.Base.{
  ℕ, zero, suc, ◌≤◌, ◌≡◌, refl, ap, Bool, true, false, ◌&&◌, ◌||◌, inl, inr, List, [], ◌∷◌, ◌++◌,
  append_assoc, all, ◌==◌, length, take, starts_with, Text, arith, ◌≢◌, ◌⊎◌, not,
  drop-length_append, length-append,
}
use ebnf.Ports.Fault.{read}
use ebnf.Ports.Strings.{trim_start}
use ebnf.Ports.Toml.{blank, is_indent, run_of}
use ebnf.Ports.Toml.Paths.{is_bare, bare_part, key_part, after_part, key_parts, toml_key}
use ebnf.Ports.Toml.RoundTrip.{written, not_block, string_from-written}

-- A name that may stand for itself in a key.
abbrev pub IsBare : Text → Type 0
IsBare name = (name ≢ []) × ((all is_bare name ≡ true) × (length name ≤ 256))

-- A part of a key as it is written, and its name.
abbrev pub IsPart : Text → Text → Type 0
IsPart s name = (s ≡ b'"' ∷ (written name ++ b'"' ∷ [])) ⊎ ((s ≡ name) × IsBare name)

-- What may stand behind a key.
abbrev pub ends_key : ℕ → Bool
ends_key c = not (is_bare c) && not (c == b'"' || c == b'.' || c == b' ' || c == b'\t')

run_of-take :
    (k : ℕ) (name : Text) (c : ℕ) (rest : Text)
    → all is_bare name ≡ true
    → length name ≤ k
    → is_bare c ≡ false
    → run_of is_bare (take k (name ++ c ∷ rest)) ≡ name
unfolding run_of
run_of-take zero [] c rest a l e = refl
run_of-take (suc k) [] c rest a l e = rw e refl
run_of-take zero (d ∷ name) c rest a l e = absurd (omega (arith, l))
run_of-take (suc k) (d ∷ name) c rest a l e =
    ground (arith, a, run_of-take k name c rest (ground (arith, a)) (omega (arith, l)) e)

not_quote : (d : ℕ) → is_bare d ≡ true → (d == b'"' || d == b'\'') ≡ false
unfolding is_bare
not_quote d h = ground (arith, h)

bare_key_part :
    (file : Text) (line : ℕ) (name : Text) (c : ℕ) (rest : Text)
    → IsBare name
    → is_bare c ≡ false
    → key_part file line (name ++ c ∷ rest) ≡ read (name, record { rest = c ∷ rest; line = line })
unfolding key_part bare_part
bare_key_part file line [] c rest b e = absurd (b.0 refl)
bare_key_part file line (d ∷ name) c rest b e =
    let first : is_bare d ≡ true = ground (arith, b.1.0) in
    let run : run_of is_bare (take 255 (name ++ c ∷ rest)) ≡ name =
      run_of-take 255 name c rest (ground (arith, b.1.0)) (omega (arith, b.1.1)) e in
    rw (not_quote d first) (rw first (rw run (rw (drop-length_append name (c ∷ rest)) refl)))

quoted_key_part :
    (file : Text) (line : ℕ) (name rest : Text)
    → starts_with b'"' rest ≡ false
    → key_part file line (b'"' ∷ (written name ++ b'"' ∷ rest))
      ≡ read (name, record { rest = rest; line = line })
unfolding key_part
quoted_key_part file line name rest h =
    rw (not_block name rest h) (string_from-written file line line _ rest name)

-- What stands behind a part, a dot or the end of the key.
abbrev ends_part : ℕ → Bool
ends_part c = not (is_bare c) && not (c == b'"' || c == b' ' || c == b'\t')

key_part-IsPart :
    (file : Text) (line : ℕ) (s name : Text) (c : ℕ) (rest : Text)
    → IsPart s name
    → ends_part c ≡ true
    → key_part file line (s ++ c ∷ rest) ≡ read (name, record { rest = c ∷ rest; line = line })
key_part-IsPart file line s name c rest h e = elim h [
  | inl quoted ↦ rw quoted (
      rw (append_assoc (written name) (b'"' ∷ []) (c ∷ rest))
        (quoted_key_part file line name (c ∷ rest) (ground (arith, e))))
  | inr bare ↦ rw bare.0 (bare_key_part file line name c rest bare.1 (ground (arith, e)))
]

unblank : (d : ℕ) (t : Text) → is_indent d ≡ false → trim_start is_indent (d ∷ t) ≡ d ∷ t
unfolding trim_start
unblank d t h = rw h refl

unblank_bare : (name t : Text) → IsBare name → trim_start is_indent (name ++ t) ≡ name ++ t
unfolding is_bare
unblank_bare [] t b = absurd (b.0 refl)
unblank_bare (d ∷ name) t b = unblank d (name ++ t) (ground (arith, b.1.0))

unblank-IsPart : (s name t : Text) → IsPart s name → trim_start is_indent (s ++ t) ≡ s ++ t
unblank-IsPart s name t h = elim h [
  | inl quoted ↦ rw quoted (unblank b'"' _ refl)
  | inr bare ↦ rw bare.0 (unblank_bare name t bare.1)
]

key_parts-part :
    (f : ℕ) (file : Text) (line : ℕ) (s name : Text) (c : ℕ) (rest : Text)
    → IsPart s name
    → ends_part c ≡ true
    → key_parts (suc f) file (record { rest = s ++ c ∷ rest; line = line })
      ≡ after_part (key_parts f file) name (record { rest = c ∷ rest; line = line })
unfolding key_parts blank
key_parts-part f file line s name c rest h e = rw (unblank-IsPart s name (c ∷ rest) h) (
    rw (key_part-IsPart file line s name c rest h e) (rw (unblank c rest (ground (arith, e))) refl))

-- A key as it is written, and its names.
abbrev pub IsKey : Text → List Text → Type 0
IsKey s [] = ⊥
IsKey s (name ∷ []) = IsPart s name
IsKey s (name ∷ next ∷ names) =
    (first : Text) × (more : Text) × (s ≡ first ++ b'.' ∷ more)
    × IsPart first name
    × IsKey more (next ∷ names)

key_parts-IsKey :
    (f : ℕ) (file : Text) (line : ℕ) (s : Text) (names : List Text) (c : ℕ) (rest : Text)
    → IsKey s names
    → ends_key c ≡ true
    → length names ≤ f
    → key_parts f file (record { rest = s ++ c ∷ rest; line = line })
      ≡ read (names, record { rest = c ∷ rest; line = line })
unfolding after_part is_bare
key_parts-IsKey f file line s [] c rest h e l = absurd h
key_parts-IsKey zero file line s (name ∷ names) c rest h e l = absurd (omega (arith, l))
key_parts-IsKey (suc f) file line s (name ∷ []) c rest h e l =
    rw (key_parts-part f file line s name c rest h (ground (arith, e)))
      (let apart : (c == b'.') ≡ false = ground (arith, e) in rw apart refl)
key_parts-IsKey (suc f) file line s (name ∷ next ∷ names) c rest (first, more, is, h, k) e l =
    rw is (
      rw (append_assoc first (b'.' ∷ more) (c ∷ rest)) (
        rw (key_parts-part f file line first name b'.' (more ++ c ∷ rest) h refl) (
          rw (key_parts-IsKey f file line more (next ∷ names) c rest k e (omega (arith, l))) refl)))

length-IsKey : (s : Text) (names : List Text) → IsKey s names → length names ≤ suc (length s)
length-IsKey s [] h = absurd h
length-IsKey s (name ∷ []) h = omega arith
length-IsKey s (name ∷ next ∷ names) (first, more, is, h, k) = omega (
  arith,
  length-IsKey more (next ∷ names) k,
  ap (λ (t : Text). length t) is,
  length-append first (b'.' ∷ more),
)

-- A key with dots, whose parts are written bare or as basic strings, is read back as its names, and what
-- stands behind it is left; where that begins with a unit that can be no part of the key, and a bare
-- part has at most 256 units.
pub toml_key-IsKey :
    (file : Text) (line : ℕ) (s : Text) (names : List Text) (c : ℕ) (rest : Text)
    → IsKey s names
    → ends_key c ≡ true
    → toml_key file (record { rest = s ++ c ∷ rest; line = line })
      ≡ read (names, record { rest = c ∷ rest; line = line })
unfolding toml_key
toml_key-IsKey file line s names c rest h e =
    key_parts-IsKey (suc (length (s ++ c ∷ rest))) file line s names c rest h e
      (omega (arith, length-IsKey s names h, length-append s (c ∷ rest)))
