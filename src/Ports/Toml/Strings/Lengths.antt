-- ===== src/Ports/Toml/Strings/Lengths.antt =====
-- How much of the text a string takes (tools/port-deps.cjs: `escape` and `string` of `parseToml`).
use ebnf.Base.{
  ℕ, zero, suc, ◌≤◌, refl, ◌&&◌, Option, none, some, [], ◌∷◌, ◌==◌, if◌then◌else◌, ltb, length,
  take, drop, all, starts_with, is_space, Text, arith,
}
use ebnf.Hex.{is_hex, parse_int16, max_code_point}
use ebnf.Ports.Fault.{Read, read}
use ebnf.Ports.Strings.{has_prefix}
use ebnf.Ports.Strings.Lengths.{length-drop-le}
use ebnf.Ports.Toml.{Cursor}
use ebnf.Ports.Toml.Strings.{
  escape, simple, width, long_escape, hex_escape, coded, Phase, skip, eating, Bit, close, part,
  escaped, line_unit, line_bit, closing, extra, is_continued, block_unit, block_bit, after_bit,
  string_from, block_string, toml_string,
}
use ebnf.Ports.Toml.Ends.{Ends, Ends->>=, Ends-if, Ends-le, Left, Any}

coded-Ends : (file : Text) (line w : ℕ) (o : Option ℕ) → Ends Any (coded file line w o)
unfolding coded
coded-Ends file line w none = refl
coded-Ends file line w (some n) = Ends-if _ (ltb max_code_point n) _ _ (λ _. refl) (λ _. tt)

long_escape-Ends : (file : Text) (line w : ℕ) (cs : Text) → Ends Any (long_escape file line w cs)
unfolding long_escape hex_escape
long_escape-Ends file line zero cs = refl
long_escape-Ends file line (suc w) cs =
    Ends-if _ (length (take (suc w) cs) == suc w && all is_hex (take (suc w) cs)) _ _
      (λ _. coded-Ends file line (suc w) (parse_int16 (take (suc w) cs))) (λ _. refl)

simple-Ends :
    (file : Text) (line : ℕ) (o : Option ℕ) (other : Read (Text × ℕ))
    → Ends Any other
    → Ends Any (elim o as (λ _. Read (Text × ℕ)) [ some v ↦ read (v ∷ [], 1) | none ↦ other ])
simple-Ends file line none other h = h
simple-Ends file line (some v) other h = tt

escape-Ends : (file : Text) (line : ℕ) (cs : Text) → Ends Any (escape file line cs)
unfolding escape
escape-Ends file line [] = refl
escape-Ends file line (c ∷ cs) =
    simple-Ends file line (simple c) _ (long_escape-Ends file line (width c) cs)

-- Nothing more than `n` units stands behind the end of a string.
abbrev Behind : ℕ → Bit → Type 0
Behind n (close v rest) = length rest ≤ n
Behind n (part v phase) = Unit

escaped-Ends : (file : Text) (line : ℕ) (cs : Text) (n : ℕ) → Ends (Behind n) (escaped file line cs)
unfolding escaped
escaped-Ends file line cs n =
    Ends->>= Any (Behind n) (escape file line cs) _ (escape-Ends file line cs) (λ x _. tt)

module _ (file : Text) (start quote line c : ℕ) (cs : Text) where
  line_unit-Ends : Ends (Behind (length cs)) (line_unit file start quote line c cs)
  unfolding line_unit
  line_unit-Ends =
      Ends-if _ (c == b'\n') _ _ (λ _. refl)
        (λ _.
          Ends-if _ (c == quote) _ _ (λ _. omega arith)
            (λ _.
              Ends-if _ (c == b'\\' && quote == b'"') _ _
                (λ _. escaped-Ends file line cs (length cs)) (λ _. tt)))

  line_bit-Ends :
      (phase : Phase) → Ends (Behind (length cs)) (line_bit file start quote phase line c cs)
  unfolding line_bit
  line_bit-Ends (skip (suc k)) = tt
  line_bit-Ends (skip zero) = line_unit-Ends
  line_bit-Ends eating = line_unit-Ends

module _ (file : Text) (quote line c : ℕ) (cs : Text) where
  block_unit-Ends : Ends (Behind (length cs)) (block_unit file quote line c cs)
  unfolding block_unit closing
  block_unit-Ends =
      Ends-if _ (has_prefix (quote ∷ quote ∷ quote ∷ []) (c ∷ cs)) _ _
        (λ _.
          omega (arith, length-drop-le (extra quote (drop 2 cs)) (drop 2 cs), length-drop-le 2 cs))
        (λ _.
          Ends-if _ (c == b'\\' && quote == b'"') _ _
            (λ _.
              Ends-if _ (is_continued cs) _ _ (λ _. tt)
                (λ _. escaped-Ends file line cs (length cs)))
            (λ _. tt))

  block_bit-Ends :
      (phase : Phase) → Ends (Behind (length cs)) (block_bit file quote phase line c cs)
  unfolding block_bit
  block_bit-Ends (skip (suc k)) = tt
  block_bit-Ends (skip zero) = block_unit-Ends
  block_bit-Ends eating = Ends-if _ (is_space c) _ _ (λ _. tt) (λ _. block_unit-Ends)

after_bit-Ends :
    (loop : Phase → Read (Text × Cursor)) (line n : ℕ) (b : Bit)
    → Behind n b
    → ((phase : Phase) → Ends (Left n) (loop phase))
    → Ends (Left n) (after_bit loop line b)
unfolding after_bit
after_bit-Ends loop line n (close v rest) h k = h
after_bit-Ends loop line n (part v phase) h k =
    Ends->>= (Left n) (Left n) (loop phase) _ (k phase) (λ x l. l)

string_from-Ends :
    (bit : Phase → ℕ → ℕ → Text → Read Bit) (at_end : Read (Text × Cursor))
    → ((phase : Phase) (line c : ℕ) (cs : Text) → Ends (Behind (length cs)) (bit phase line c cs))
    → Ends (Left 0) at_end
    → (phase : Phase) (line : ℕ) (s : Text)
    → Ends (Left (length s)) (string_from bit at_end phase line s)
unfolding string_from
string_from-Ends bit at_end h e phase line [] = e
string_from-Ends bit at_end h e phase line (c ∷ cs) =
    let after = if c == b'\n' then suc line else line in
    Ends-le (Left (length cs)) _ _
      (Ends->>= (Behind (length cs)) (Left (length cs)) (bit phase line c cs) _ (h phase line c cs)
        (λ b behind.
          after_bit-Ends (λ next. string_from bit at_end next after cs) line (length cs) b behind
            (λ next. string_from-Ends bit at_end h e next after cs)))
      (λ x l. omega (arith, l))

block_string-Ends :
    (file : Text) (start quote line : ℕ) (s : Text)
    → Ends (Left (length s)) (block_string file start quote line s)
unfolding block_string
block_string-Ends file start quote line s =
    string_from-Ends (block_bit file quote) _
      (λ phase l c cs. block_bit-Ends file quote l c cs phase) refl (skip 0) line s

pub toml_string-Ends :
    (file : Text) (quote line : ℕ) (s : Text)
    → Ends (Left (length s)) (toml_string file quote line s)
unfolding toml_string
toml_string-Ends file quote line s =
    Ends-if _ (has_prefix (quote ∷ quote ∷ []) s) _ _
      (λ _.
        Ends-if _ (starts_with b'\n' (drop 2 s)) _ _
          (λ _.
            Ends-le (Left (length (drop 1 (drop 2 s)))) _ _
              (block_string-Ends file line quote (suc line) (drop 1 (drop 2 s)))
              (λ x l. omega (arith, l, length-drop-le 1 (drop 2 s), length-drop-le 2 s)))
          (λ _.
            Ends-le (Left (length (drop 2 s))) _ _
              (block_string-Ends file line quote line (drop 2 s))
              (λ x l. omega (arith, l, length-drop-le 2 s))))
      (λ _.
        string_from-Ends (line_bit file line quote) _
          (λ phase l c cs. line_bit-Ends file line quote l c cs phase) refl (skip 0) line s)
