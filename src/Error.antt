-- ===== src/Error.antt =====
-- The errors of ts/src/converter.ts as values. A message is a `Reason`: one constructor for each
-- message that the source throws, with the values put into its text.
use ebnf.Base.{ℕ, ◌≡◌, refl, Option, none, Text}

pub record Location : Type 0 where
  pub line : Option ℕ
  pub column : Option ℕ

pub data Reason : Type 0 where
  empty_alternative leading_comma subtraction special_sequence iso_repetition : Reason
  stray_bracket : Text → Reason
  dangling_postfix : Text → Reason
  unclosed_group : Reason
  invalid_name : Text → Reason
  empty_literal : Reason
  not_code_point : Text → Reason
  empty_class : Text → Reason
  hex_without_digits : Text → Reason
  reversed_range : Text → Reason
  parse_error : Text → Reason
  no_productions : Reason
  duplicate_rule : Text → Reason
  ambiguous_rule : Text → ℕ → Reason
  ambiguous_group : Text → ℕ → Reason

pub record EbnfParseError : Type 0 where
  pub reason : Reason
  pub location : Location

pub data Result {ℓ} (A : Type ℓ) : Type ℓ where
  ok : A → Result A
  err : EbnfParseError → Result A

module _ {ℓ κ} {A : Type ℓ} {B : Type κ} where
  -- What follows a step is not run once the step has thrown.
  infixl 1 ◌>>=◌
  abbrev pub ◌>>=◌ : Result A → (A → Result B) → Result B
  err thrown >>= next = err thrown
  ok value >>= next = next value

  pub >>=-eq-ok :
      (step : Result A) (next : A → Result B) {out : B}
      → (step >>= next) ≡ ok out
      → (value : A) × (step ≡ ok value) × (next value ≡ ok out)
  >>=-eq-ok (err thrown) next e = cc
  >>=-eq-ok (ok value) next e = (value, refl, e)

infixl 1 ◌>>◌
abbrev pub ◌>>◌ {κ} : {B : Type κ} → Result (Unit {0}) → Result B → Result B
check >> next = check >>= λ _. next

-- An error with no location.
abbrev pub nowhere : Location
nowhere = record { line = none; column = none }

-- `throw new EbnfParseError(message, location)`.
abbrev pub throw {ℓ} : {A : Type ℓ} → Reason → Location → Result A
throw why at = err (record { reason = why; location = at })

-- `P` holds of the result, if there is one.
abbrev pub Ensures {ℓ κ} : {A : Type ℓ} → (A → Type κ) → Result A → Type κ
Ensures P (ok a) = P a
Ensures P (err _) = Unit

pub ok-injective {ℓ} : {A : Type ℓ} {a b : A} → ok a ≡ ok b → a ≡ b
ok-injective e = cc
