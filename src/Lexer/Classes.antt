-- ===== src/Lexer/Classes.antt =====
-- What the character class and code point matchers take.
use ebnf.Base.{
  ℕ, ◌≡◌, refl, sym, ap, ◌∙◌, ◌↔◌, true, false, Bool-cases, inl, inr, ◌&&◌, ◌||◌, some, [], ◌∷◌,
  ◌++◌, append_assoc, ◌==◌, arith, Text, length, drop, All, starts_with, ==_iff, drop-length_append,
}
use ebnf.Lexer.{class_run, match_class}

-- Neither `]` nor a newline.
abbrev pub IsClassUnit : ℕ → Type 0
IsClassUnit c = (c == b']' || c == b'\n') ≡ false

class_run-IsClassUnit : (s : Text) → All IsClassUnit (class_run s)
unfolding class_run
class_run-IsClassUnit [] = tt
class_run-IsClassUnit (c ∷ s) = elim (Bool-cases (c == b']' || c == b'\n')) [
  | inl stop ↦ rw stop tt
  | inr go ↦ rw go (go, class_run-IsClassUnit s)
]

class_run-split : (s : Text) → class_run s ++ drop (length (class_run s)) s ≡ s
unfolding class_run
class_run-split [] = refl
class_run-split (c ∷ s) = elim (Bool-cases (c == b']' || c == b'\n')) [
  | inl stop ↦ rw stop
  | inr go ↦ rw go (ap (◌∷◌ c) (class_run-split s))
]

class_run-append :
    (body rest : Text) → All IsClassUnit body → class_run (body ++ b']' ∷ rest) ≡ body
unfolding class_run
class_run-append [] rest h = refl
class_run-append (c ∷ body) rest h = rw h.0 (ap (◌∷◌ c) (class_run-append body rest h.1))

starts_with→cons : (c : ℕ) (s : Text) → starts_with c s ≡ true → (rest : Text) × (s ≡ c ∷ rest)
starts_with→cons c [] e = cc
starts_with→cons c (d ∷ s) e = (s, ap (λ (k : ℕ). k ∷ s) ((==_iff d c).0 e))

-- The input begins with a complete class, `m`.
pub record BeginsWithClass (s m : Text) : Type 0 where
  pub body : Text
  pub rest : Text
  pub is_class : m ≡ b'[' ∷ (body ++ b']' ∷ [])
  pub units : All IsClassUnit body
  pub splits : s ≡ m ++ rest

match_class_sound : (s m : Text) → match_class s ≡ some m → BeginsWithClass s m
unfolding match_class
match_class_sound [] m e = cc
match_class_sound (c ∷ s) m e =
    elim (Bool-cases (c == b'[' && starts_with b']' (drop (length (class_run s)) s))) [
      | inl found ↦
          let (rest, close) =
            starts_with→cons b']' (drop (length (class_run s)) s) (ground arith) in
          let same : b'[' ∷ (class_run s ++ b']' ∷ []) ≡ m = cc (rw found at e) in
          let first : c ≡ b'[' = (==_iff c b'[').0 (ground arith) in
          let whole : s ≡ class_run s ++ (b']' ∷ rest) =
            sym (class_run-split s) ∙ ap (λ (t : Text). class_run s ++ t) close in
          record {
            body = class_run s;
            rest = rest;
            is_class = sym same;
            units = class_run-IsClassUnit s;
            splits =
                rw (← same) (rw (append_assoc (class_run s) (b']' ∷ []) rest) (cc (first, whole)));
          }
      | inr no_class ↦ cc (rw no_class at e)
    ]

match_class_complete : (s m : Text) → BeginsWithClass s m → match_class s ≡ some m
unfolding match_class
match_class_complete s m b = rw (b.splits) (
    rw (b.is_class) (
      rw (append_assoc b.body (b']' ∷ []) b.rest) (
        rw (class_run-append b.body b.rest b.units)
          (rw (drop-length_append b.body (b']' ∷ b.rest))))))

-- The class matcher takes `m` exactly when the input begins with `m`, and `m` is a `[`, units that are
-- neither `]` nor a newline, and a `]`.
pub match_class_iff : (s m : Text) → (match_class s ≡ some m) ↔ BeginsWithClass s m
match_class_iff s m = (match_class_sound s m, match_class_complete s m)

pub match_class-starts : (s m : Text) → match_class s ≡ some m → starts_with b'[' s ≡ true
unfolding match_class
match_class-starts [] m e = cc
match_class-starts (c ∷ s) m e = ground arith
