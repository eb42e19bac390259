-- ===== src/Ports/Toml/Lengths.antt =====
-- How much of the text the gaps and the keys take (tools/port-deps.cjs: `parseToml`).
use ebnf.Base.{
  ℕ, zero, suc, ◌<◌, ◌≤◌, refl, Bool, not, ◌&&◌, ◌||◌, List, [], ◌∷◌, ◌==◌, if◌then◌else◌, length,
  take, drop, starts_with, Text, arith,
}
use ebnf.Ports.Fault.{Read}
use ebnf.Ports.Strings.{has_prefix}
use ebnf.Ports.Strings.Lengths.{length-trim_start, length-drop-le}
use ebnf.Ports.Toml.{
  Cursor, blank, is_indent, gap_from, line_end, to_line_end, comment, end_of_line, run_of,
}
use ebnf.Ports.Toml.Paths.{bare_part, key_part, is_bare, after_part, key_parts, toml_key}
use ebnf.Ports.Toml.Ends.{Ends, Ends->>=, Ends-if, Ends-le, Left, Less}
use ebnf.Ports.Toml.Strings.Lengths.{toml_string-Ends}

pub length-blank : (p : Cursor) → length (blank p).rest ≤ length p.rest
unfolding blank
length-blank p = length-trim_start is_indent p.rest

pub length-gap_from :
    (in_comment : Bool) (line : ℕ) (s : Text) → length (gap_from in_comment line s).rest ≤ length s
unfolding gap_from
length-gap_from b line [] = omega arith
length-gap_from b line (c ∷ cs) = ground (
  arith,
  length-gap_from (not (c == b'\n') && (b || c == b'#')) (if c == b'\n' then suc line else line) cs,
)

length-to_line_end : (s : Text) → length (to_line_end s) ≤ length s
unfolding to_line_end
length-to_line_end [] = omega arith
length-to_line_end (c ∷ cs) = ground (arith, length-to_line_end cs)

length-comment : (s : Text) → length (comment s) ≤ length s
unfolding comment
length-comment [] = omega arith
length-comment (c ∷ cs) = ground (arith, length-to_line_end (c ∷ cs))

line_end-Ends :
    (file : Text) (line : ℕ) (s : Text)
    → Ends (λ q. length q.rest ≤ length s) (line_end file line s)
unfolding line_end
line_end-Ends file line [] = omega arith
line_end-Ends file line (c ∷ cs) = Ends-if _ (c == b'\n') _ _ (λ _. omega arith) (λ _. refl)

pub end_of_line-Ends :
    (file : Text) (p : Cursor) → Ends (λ q. length q.rest ≤ length p.rest) (end_of_line file p)
unfolding end_of_line
end_of_line-Ends file p =
    Ends-le (λ q. length q.rest ≤ length (comment (blank p).rest)) _ _
      (line_end-Ends file p.line (comment (blank p).rest))
      (λ q h. omega (arith, h, length-comment (blank p).rest, length-blank p))

bare_part-Ends :
    (file : Text) (line c : ℕ) (cs w : Text)
    → Ends (Less (suc (length cs))) (bare_part file line (c ∷ cs) w)
unfolding bare_part
bare_part-Ends file line c cs [] = refl
bare_part-Ends file line c cs (d ∷ w) = omega (arith, length-drop-le (length w) cs)

key_part-Ends : (file : Text) (line : ℕ) (s : Text) → Ends (Less (length s)) (key_part file line s)
unfolding key_part
key_part-Ends file line [] = refl
key_part-Ends file line (c ∷ cs) =
    Ends-if _ (c == b'"' || c == b'\'') _ _
      (λ _.
        Ends-if _ (has_prefix (c ∷ c ∷ []) cs) _ _ (λ _. refl)
          (λ _.
            Ends-le (Left (length cs)) _ _ (toml_string-Ends file c line cs)
              (λ x l. omega (arith, l))))
      (λ _. bare_part-Ends file line c cs (run_of is_bare (take 256 (c ∷ cs))))

after_part-Ends :
    (loop : Cursor → Read (List Text × Cursor)) (name : Text) (p : Cursor) (n : ℕ)
    → length p.rest < n
    → ((q : Cursor) → length q.rest ≤ length p.rest → Ends (Less n) (loop q))
    → Ends (Less n) (after_part loop name p)
unfolding after_part
after_part-Ends loop name p n h k =
    Ends-if _ (starts_with b'.' p.rest) _ _
      (λ _.
        Ends->>= (Less n) (Less n) _ _
          (k (record p { rest = drop 1 p.rest }) (length-drop-le 1 p.rest)) (λ x l. l))
      (λ _. h)

key_parts-Ends :
    (f : ℕ) (file : Text) (p : Cursor)
    → length p.rest < f
    → Ends (Less (length p.rest)) (key_parts f file p)
unfolding key_parts
key_parts-Ends zero file p h = absurd (omega (arith, h))
key_parts-Ends (suc f) file p h =
    Ends->>= (Less (length (blank p).rest)) _ (key_part file p.line (blank p).rest) _
      (key_part-Ends file p.line (blank p).rest)
      (λ x less.
        after_part-Ends (key_parts f file) x.0 (blank x.1) (length p.rest)
          (omega (arith, less, length-blank x.1, length-blank p))
          (λ q le.
            Ends-le (Less (length q.rest)) _ _
              (key_parts-Ends f file q
                (omega (arith, h, le, less, length-blank x.1, length-blank p)))
              (λ y l. omega (arith, l, le, less, length-blank x.1, length-blank p))))

-- A key takes a unit at least.
pub toml_key-Ends : (file : Text) (p : Cursor) → Ends (Less (length p.rest)) (toml_key file p)
unfolding toml_key
toml_key-Ends file p = key_parts-Ends (suc (length p.rest)) file p (omega arith)
