-- ===== src/Rules/Names.antt =====
-- The names that productions and references are read as (ts/src/converter.ts: `NAME_RE`, `checkName`,
-- and the actions that call it).
use ebnf.Base.{
  ℕ, ◌≤◌, ◌≡◌, refl, &&-eq-true, ◌↔◌, ◌⊎◌, inl, inr, true, Bool-cases, some, [], ◌∷◌, all, All,
  Text, arith,
}
use ebnf.Ir.{ref}
use ebnf.Error.{ok, throw, invalid_name}
use ebnf.Token.{Token, token_loc, span_of, is_name_start, is_name_part, name_re, check_name}
use ebnf.Rules.Actions.{Notes, read_name, read_ref}

abbrev pub IsDigit : ℕ → Type 0
IsDigit c = (b'0' ≤ c) × (c ≤ b'9')

abbrev pub IsLetter : ℕ → Type 0
IsLetter c = ((b'A' ≤ c) × (c ≤ b'Z')) ⊎ ((b'a' ≤ c) × (c ≤ b'z'))

abbrev pub IsNameUnit : ℕ → Type 0
IsNameUnit c = IsLetter c ⊎ IsDigit c ⊎ (c ≡ b'_') ⊎ (c ≡ b'.') ⊎ (c ≡ b'-')

-- A text of letters, digits, `_`, `.` and `-` that does not begin with a digit, `.` or `-`.
abbrev pub IsName : Text → Type 0
IsName [] = ⊥
IsName (c ∷ cs) = All IsNameUnit (c ∷ cs) × ¬ (IsDigit c ⊎ (c ≡ b'.') ⊎ (c ≡ b'-'))

is_name_part_iff : (c : ℕ) → (is_name_part c ≡ true) ↔ IsNameUnit c
unfolding is_name_part
is_name_part_iff c = ground arith

is_name_start_iff :
    (c : ℕ) → (is_name_start c ≡ true) ↔ (IsNameUnit c × ¬ (IsDigit c ⊎ (c ≡ b'.') ⊎ (c ≡ b'-')))
unfolding is_name_start
is_name_start_iff c = ground arith

all-is_name_part_iff : (s : Text) → (all is_name_part s ≡ true) ↔ All IsNameUnit s
all-is_name_part_iff [] = (λ e. tt, λ h. refl)
all-is_name_part_iff (c ∷ cs) =
    let rest = all-is_name_part_iff cs in
    let unit = is_name_part_iff c in
    let split = &&-eq-true (is_name_part c) (all is_name_part cs) in
    (λ e. let (p, q) = split.0 e in (unit.0 p, rest.0 q), λ h. split.1 (unit.1 h.0, rest.1 h.1))

name_re_iff : (s : Text) → (name_re s ≡ true) ↔ IsName s
unfolding name_re
name_re_iff [] = (λ e. cc, λ h. absurd h)
name_re_iff (c ∷ cs) =
    let rest = all-is_name_part_iff cs in
    let start = is_name_start_iff c in
    let split = &&-eq-true (is_name_start c) (all is_name_part cs) in
    (
      λ e. let (p, q) = split.0 e in let (u, n) = start.0 p in ((u, rest.0 q), n),
      λ h. split.1 (start.1 (h.0.0, h.1), rest.1 h.0.1),
    )

-- A token whose text is a name, that is of letters, digits, `_`, `.` and `-` and not beginning with a
-- digit, `.` or `-`, gives a production that name and its token, and a reference that name and its
-- span. Any other token is rejected by both, at its location, with its text.
pub read_name-read_ref :
    (u : Notes) (tkn : Token)
    → (IsName tkn.val
        × (read_name u tkn ≡ ok (record u { name = tkn.val; name_tkn = some tkn }))
        × (read_ref tkn ≡ ok (ref tkn.val (span_of (some tkn)))))
      ⊎ (¬ IsName tkn.val
          × (read_name u tkn ≡ throw (invalid_name tkn.val) (token_loc (some tkn)))
          × (read_ref tkn ≡ throw (invalid_name tkn.val) (token_loc (some tkn))))
unfolding read_name read_ref check_name
read_name-read_ref u tkn = elim (Bool-cases (name_re tkn.val)) [
  | inl valid ↦ inl ((name_re_iff tkn.val).0 valid, rw valid refl, rw valid refl)
  | inr bad ↦ inr (λ h. cc (bad, (name_re_iff tkn.val).1 h), rw bad refl, rw bad refl)
]
