-- ===== src/Ports/Toml/Ends.antt =====
-- What a part of the reader of TOML comes to (tools/port-deps.cjs: `parseToml`).
use ebnf.Base.{ℕ, ◌<◌, ◌≤◌, ◌≡◌, Bool, true, false, if◌then◌else◌, length}
use ebnf.Ports.Fault.{Fault, Read, read, unreadable, ◌>>=◌, lost_table, out_of_fuel}
use ebnf.Ports.Reads.{ReadsOr, ReadsOr->>=, ReadsOr-if}
use ebnf.Ports.Toml.{Cursor}

-- The faults of the model alone.
abbrev pub is_ours : Fault → Bool
is_ours lost_table = true
is_ours out_of_fuel = true
is_ours _ = false

abbrev pub IsTheirs : Fault → Type 0
IsTheirs why = is_ours why ≡ false

-- What is read satisfies `P`, and what is wrong is wrong with the text.
abbrev pub Ends {ℓ} : {A : Type ℓ} → (A → Type 0) → Read A → Type 0
Ends P r = ReadsOr IsTheirs P r

pub Ends->>= {ℓ κ} :
    {A : Type ℓ} {B : Type κ} (P : A → Type 0) (Q : B → Type 0) (r : Read A) (f : A → Read B)
    → Ends P r
    → ((a : A) → P a → Ends Q (f a))
    → Ends Q (r >>= f)
Ends->>= = ReadsOr->>= IsTheirs

pub Ends-if {ℓ} :
    {A : Type ℓ} (P : A → Type 0) (b : Bool) (x y : Read A)
    → (b ≡ true → Ends P x)
    → (b ≡ false → Ends P y)
    → Ends P (if b then x else y)
Ends-if = ReadsOr-if IsTheirs

pub Ends-le {ℓ} :
    {A : Type ℓ} (P Q : A → Type 0) (r : Read A) → Ends P r → ((a : A) → P a → Q a) → Ends Q r
Ends-le P Q (read a) h k = k a h
Ends-le P Q (unreadable u) h k = h

-- The rest has at most, or less than, `n` units.
abbrev pub Left {ℓ} : {A : Type ℓ} → ℕ → A × Cursor → Type 0
Left n x = length x.1.rest ≤ n

abbrev pub Less {ℓ} : {A : Type ℓ} → ℕ → A × Cursor → Type 0
Less n x = length x.1.rest < n

abbrev pub Any {ℓ} : {A : Type ℓ} → A → Type 0
Any _ = Unit
