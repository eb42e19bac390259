-- ===== src/Ports/GoMod/Scan.antt =====
-- Taking a line of go.mod apart (tools/port-deps.cjs: the inner loop of `parseGoMod`), round by round.
use ebnf.Base.{
  ℕ, zero, suc, ◌<◌, ◌≤◌, ◌≡◌, ◌≢◌, refl, Bool, ◌||◌, ◌&&◌, true, false, not, Bool-cases, inl, inr,
  Option, none, some, [], ◌∷◌, ◌==◌, if◌then◌else◌, length, drop, any, starts_with, Text, is_space,
  arith,
}
use ebnf.Ports.Fault.{out_of_fuel}
use ebnf.Ports.GoMod.{
  with_unit, up_to, quoted_token, mod_word, ends_word, Lexeme, blank, note, token, bad, lexeme,
  Scanned, scanned, stuck, with_token, scan_rest, scan_tokens,
}

-- A unit that ends a word and that the reader does not step over.
abbrev pub is_odd : ℕ → Bool
is_odd c = is_space c && not (c == b' ' || c == b'\t' || c == b'\r')

odd-apart : (c : ℕ) → is_odd c ≡ true → (c == b' ' || c == b'\t' || c == b'\r') ≡ false
odd-apart c h = ground (arith, h)

mod_word-odd : (c : ℕ) (cs : Text) → is_odd c ≡ true → mod_word (c ∷ cs) ≡ []
unfolding mod_word
mod_word-odd c cs h = ground (arith, h)

-- Such a unit comes out as an empty token, and is still there.
lexeme-odd : (c : ℕ) (cs : Text) → is_odd c ≡ true → lexeme c cs ≡ token [] (c ∷ cs)
unfolding lexeme
lexeme-odd c cs h = ground (arith, mod_word-odd c cs h, h)

-- Where a token is due and there is white space that is no space, tab or carriage return, no number of
-- rounds is enough: each round takes an empty token and stays where it is.
pub scan_tokens-stuck :
    (f : ℕ) (c : ℕ) (cs : Text) → is_odd c ≡ true → scan_tokens f (c ∷ cs) ≡ stuck out_of_fuel
unfolding scan_tokens scan_rest with_token
scan_tokens-stuck zero c cs h = refl
scan_tokens-stuck (suc f) c cs h = rw (lexeme-odd c cs h) (rw (scan_tokens-stuck f c cs h) refl)

-- No unit of a text is odd.
abbrev pub IsPlain : Text → Type 0
IsPlain s = any is_odd s ≡ false

-- What stands behind a lexeme is shorter than `n`, and plain; and no fuel runs out.
abbrev Behind : ℕ → Lexeme → Type 0
Behind n (blank rest) = (length rest < n) × IsPlain rest
Behind n (note _) = Unit
Behind n (token _ rest) = (length rest < n) × IsPlain rest
Behind n (bad why) = why ≢ out_of_fuel

Behind-if :
    (n : ℕ) (b : Bool) (x y : Lexeme)
    → (b ≡ true → Behind n x)
    → (b ≡ false → Behind n y)
    → Behind n (if b then x else y)
Behind-if n true x y h k = h refl
Behind-if n false x y h k = k refl

-- The rest behind a quote is shorter and plain.
abbrev Shorter : ℕ → Option (Text × Text) → Type 0
Shorter n none = Unit
Shorter n (some (_, rest)) = (length rest < n) × IsPlain rest

with_unit-Shorter :
    (n : ℕ) (c : ℕ) (o : Option (Text × Text)) → Shorter n o → Shorter (suc n) (with_unit c o)
unfolding with_unit
with_unit-Shorter n c none h = tt
with_unit-Shorter n c (some (v, rest)) h = (omega (arith, h.0), h.1)

up_to-Shorter : (q : ℕ) (s : Text) → IsPlain s → Shorter (length s) (up_to q s)
unfolding up_to
up_to-Shorter q [] h = tt
up_to-Shorter q (c ∷ cs) h =
    let plain : IsPlain cs = ground (arith, h) in
    elim (Bool-cases (c == q)) [
      | inl e ↦ rw e (omega arith, plain)
      | inr e ↦ rw e (with_unit-Shorter (length cs) c (up_to q cs) (up_to-Shorter q cs plain))
    ]

quoted_token-Behind :
    (q n : ℕ) (o : Option (Text × Text)) → Shorter n o → Behind (suc n) (quoted_token q o)
unfolding quoted_token
quoted_token-Behind q n none h = λ e. absurd cc
quoted_token-Behind q n (some (v, rest)) h =
    Behind-if (suc n) (q == b'"' && any (λ c. c == b'\\') v) _ _ (λ _ e. absurd cc)
      (λ _. (omega (arith, h.0), h.1))

drop-IsPlain : (n : ℕ) (s : Text) → IsPlain s → (length (drop n s) ≤ length s) × IsPlain (drop n s)
drop-IsPlain zero s h = (omega arith, h)
drop-IsPlain (suc n) [] h = (omega arith, h)
drop-IsPlain (suc n) (c ∷ s) h =
    let rest = drop-IsPlain n s (ground (arith, h)) in (omega (arith, rest.0), rest.1)

-- A word takes its first unit, if that is not one to end it.
word-Behind :
    (c : ℕ) (cs : Text)
    → ends_word c cs ≡ false
    → IsPlain (c ∷ cs)
    → Behind
        (suc (length cs))
        (token (mod_word (c ∷ cs)) (drop (length (mod_word (c ∷ cs))) (c ∷ cs)))
unfolding mod_word
word-Behind c cs e h =
    let rest = drop-IsPlain (length (mod_word cs)) cs (ground (arith, h)) in
    rw e (omega (arith, rest.0), rest.1)

lexeme-Behind : (c : ℕ) (cs : Text) → IsPlain (c ∷ cs) → Behind (suc (length cs)) (lexeme c cs)
unfolding lexeme
lexeme-Behind c cs h =
    let plain : IsPlain cs = ground (arith, h) in
    let n = suc (length cs) in
    Behind-if n (c == b' ' || c == b'\t' || c == b'\r') _ _ (λ _. (omega arith, plain))
      (λ a.
        Behind-if n (c == b'/' && starts_with b'/' cs) _ _ (λ _. tt)
          (λ b.
            Behind-if n (c == b'(' || c == b')') _ _ (λ _. (omega arith, plain))
              (λ d.
                Behind-if n (c == b'"' || c == b'`') _ _
                  (λ _. quoted_token-Behind c (length cs) (up_to c cs) (up_to-Shorter c cs plain))
                  (λ _. word-Behind c cs (ground (arith, a, b, d, h)) h))))

abbrev Ends : Scanned → Type 0
Ends x = x ≢ stuck out_of_fuel

with_token-Ends : (t : Text) (x : Scanned) → Ends x → Ends (with_token t x)
unfolding with_token
with_token-Ends t (scanned line) h = λ e. absurd cc
with_token-Ends t (stuck why) h = h

scan_rest-Ends :
    (loop : Text → Scanned) (n : ℕ) (x : Lexeme)
    → Behind n x
    → ((rest : Text) → length rest < n → IsPlain rest → Ends (loop rest))
    → Ends (scan_rest loop x)
unfolding scan_rest
scan_rest-Ends loop n (blank rest) h k = k rest h.0 h.1
scan_rest-Ends loop n (note text) h k = λ e. absurd cc
scan_rest-Ends loop n (token t rest) h k = with_token-Ends t (loop rest) (k rest h.0 h.1)
scan_rest-Ends loop n (bad why) h k = λ e. h cc

-- On a plain line the loop ends: as many rounds as the line has units are enough.
pub scan_tokens-total :
    (f : ℕ) (s : Text) → length s ≤ f → any is_odd s ≡ false → scan_tokens f s ≢ stuck out_of_fuel
unfolding scan_tokens
scan_tokens-total f [] le h = λ e. absurd cc
scan_tokens-total zero (c ∷ cs) le h = absurd (omega arith)
scan_tokens-total (suc f) (c ∷ cs) le h =
    scan_rest-Ends (scan_tokens f) (suc (length cs)) (lexeme c cs) (lexeme-Behind c cs h)
      (λ rest shorter plain. scan_tokens-total f rest (omega (arith, shorter)) plain)
