-- ===== src/CharClass/Pattern/Escapes.antt =====
-- One escape as `esc` writes it reads back as its code point.
use ebnf.Base.{
  starts_with, ℕ, ◌<◌, ◌≡◌, refl, ap, ◌∙◌, subst, Bool, true, false, some, [], ◌∷◌, ◌++◌,
  append_assoc, arith, ◌==◌, Text, length, drop, take, all, drop-length_append, take-length_append,
}
use ebnf.Hex.{is_hex, read_hex, to_hex, pad_start4}
use ebnf.Hex.RoundTrip.{
  IsHex, to_hex-IsHex, read_hex-to_hex, pad_start4-IsHex, read_hex-pad_start4, length-pad_start4,
}
use ebnf.CharClass.{hex_run, esc}
use ebnf.CharClass.Pattern.{read_escape4, read_braced, is_lead, read_atom}

all-is_hex : (s : Text) → IsHex s → all is_hex s ≡ true
all-is_hex [] h = refl
all-is_hex (c ∷ s) h = rw h.0 (all-is_hex s h.1)

take4 : (s rest : Text) → length s ≡ 4 → take 4 (s ++ rest) ≡ s
take4 s rest e = subst (λ k. take k (s ++ rest) ≡ s) e (take-length_append s rest)

drop4 : (s rest : Text) → length s ≡ 4 → drop 4 (s ++ rest) ≡ rest
drop4 s rest e = subst (λ k. drop k (s ++ rest) ≡ rest) e (drop-length_append s rest)

-- Any four digits.
read_escape4-digits :
    (s rest : Text)
    → length s ≡ 4
    → IsHex s
    → read_escape4 (b'\\' ∷ b'u' ∷ (s ++ rest)) ≡ some (read_hex 0 s, rest)
unfolding read_escape4
read_escape4-digits s rest e h =
    rw (take4 s rest e) (rw (drop4 s rest e) (rw e (rw (all-is_hex s h))))

pub read_escape4-esc :
    (n : ℕ) (rest : Text) → n < 0x10000 → read_escape4 (esc false n ++ rest) ≡ some (n, rest)
unfolding esc
read_escape4-esc n rest h =
    read_escape4-digits (pad_start4 (to_hex n)) rest (length-pad_start4 n h) (pad_start4-IsHex n)
    ∙ ap (λ (k : ℕ). some (k, rest)) (read_hex-pad_start4 n)

-- Does the text begin with a digit?
abbrev pub hex_head : Text → Bool
hex_head [] = false
hex_head (c ∷ _) = is_hex c

hex_run-no_head : (rest : Text) → hex_head rest ≡ false → hex_run rest ≡ []
unfolding hex_run
hex_run-no_head [] e = refl
hex_run-no_head (c ∷ rest) e = rw e

-- A digit run ends at the first unit that is no digit.
pub hex_run-append : (s rest : Text) → IsHex s → hex_head rest ≡ false → hex_run (s ++ rest) ≡ s
unfolding hex_run
hex_run-append [] rest h e = hex_run-no_head rest e
hex_run-append (d ∷ s) rest h e = rw h.0 (ap (◌∷◌ d) (hex_run-append s rest h.1 e))

is_hex-brace : is_hex b'}' ≡ false
unfolding is_hex
is_hex-brace = refl

read_braced-digits :
    (s rest : Text)
    → IsHex s
    → read_braced (b'\\' ∷ b'u' ∷ b'{' ∷ (s ++ b'}' ∷ rest)) ≡ some (read_hex 0 s, rest)
unfolding read_braced
read_braced-digits s rest h =
    rw (hex_run-append s (b'}' ∷ rest) h is_hex-brace) (rw (drop-length_append s (b'}' ∷ rest)))

pub read_braced-esc : (n : ℕ) (rest : Text) → read_braced (esc true n ++ rest) ≡ some (n, rest)
unfolding esc
read_braced-esc n rest = rw (append_assoc (to_hex n) (b'}' ∷ []) rest) (
    read_braced-digits (to_hex n) rest (to_hex-IsHex n)
    ∙ ap (λ (k : ℕ). some (k, rest)) (read_hex-to_hex n))

is_hex-ne : (c : ℕ) → is_hex c ≡ true → (c == b'{') ≡ false
unfolding is_hex
is_hex-ne c h = ground arith

no_brace : (s rest : Text) → IsHex s → length s ≡ 4 → starts_with b'{' (s ++ rest) ≡ false
no_brace [] rest h e = absurd (omega arith)
no_brace (c ∷ s) rest h e = is_hex-ne c h.0

pub no_brace-esc :
    (n : ℕ) (rest : Text) → n < 0x10000 → starts_with b'{' (drop 2 (esc false n ++ rest)) ≡ false
unfolding esc
no_brace-esc n rest h =
    no_brace (pad_start4 (to_hex n)) rest (pad_start4-IsHex n) (length-pad_start4 n h)

-- `n` can be written by `esc astral` and read back under the flag `u`: past U+FFFF only the braced
-- form serves, and under `u` an unbraced lead surrogate might join what follows it.
abbrev pub IsReadable : Bool → Bool → ℕ → Type 0
IsReadable true u n = u ≡ true
IsReadable false u n = (n < 0x10000) × (u ≡ true → is_lead n ≡ false)

read_atom-unbraced :
    (n : ℕ) (rest : Text)
    → n < 0x10000
    → is_lead n ≡ false
    → read_atom true (esc false n ++ rest) ≡ some (n, rest)
unfolding read_atom
read_atom-unbraced n rest h e = rw (no_brace-esc n rest h) (rw (read_escape4-esc n rest h) (rw e))

pub read_atom-esc :
    (astral u : Bool) (n : ℕ) (rest : Text)
    → IsReadable astral u n
    → read_atom u (esc astral n ++ rest) ≡ some (n, rest)
unfolding read_atom
read_atom-esc true true n rest h = unfold esc in read_braced-esc n rest
read_atom-esc true false n rest h = cc
read_atom-esc false true n rest h = read_atom-unbraced n rest h.0 (h.1 refl)
read_atom-esc false false n rest h = read_escape4-esc n rest h.0
