-- ===== src/Ports/Reads.antt =====
-- What a reader of a port has read, or why it has not.
use ebnf.Base.{◌≡◌, ◌≢◌, refl, Bool, true, false, if◌then◌else◌}
use ebnf.Ports.Fault.{Fault, Read, read, unreadable, ◌>>=◌, out_of_fuel}

-- What is read satisfies `P`, and what is wrong satisfies `F`.
abbrev pub ReadsOr {ℓ} : {A : Type ℓ} → (Fault → Type 0) → (A → Type 0) → Read A → Type 0
ReadsOr F P (read a) = P a
ReadsOr F P (unreadable u) = F u.why

pub ReadsOr->>= {ℓ κ} :
    {A : Type ℓ} {B : Type κ} (F : Fault → Type 0) (P : A → Type 0) (Q : B → Type 0) (r : Read A)
    (f : A → Read B)
    → ReadsOr F P r
    → ((a : A) → P a → ReadsOr F Q (f a))
    → ReadsOr F Q (r >>= f)
ReadsOr->>= F P Q (read a) f h k = k a h
ReadsOr->>= F P Q (unreadable u) f h k = h

pub ReadsOr-if {ℓ} :
    {A : Type ℓ} (F : Fault → Type 0) (P : A → Type 0) (b : Bool) (x y : Read A)
    → (b ≡ true → ReadsOr F P x)
    → (b ≡ false → ReadsOr F P y)
    → ReadsOr F P (if b then x else y)
ReadsOr-if F P true x y h k = h refl
ReadsOr-if F P false x y h k = k refl

-- What is read satisfies `P`, and no fuel runs out.
abbrev pub Settles : Fault → Type 0
Settles why = why ≢ out_of_fuel

abbrev pub Reads {ℓ} : {A : Type ℓ} → (A → Type 0) → Read A → Type 0
Reads P r = ReadsOr Settles P r

pub Reads->>= {ℓ κ} :
    {A : Type ℓ} {B : Type κ} (P : A → Type 0) (Q : B → Type 0) (r : Read A) (f : A → Read B)
    → Reads P r
    → ((a : A) → P a → Reads Q (f a))
    → Reads Q (r >>= f)
Reads->>= = ReadsOr->>= Settles

pub Reads-if {ℓ} :
    {A : Type ℓ} (P : A → Type 0) (b : Bool) (x y : Read A)
    → (b ≡ true → Reads P x)
    → (b ≡ false → Reads P y)
    → Reads P (if b then x else y)
Reads-if = ReadsOr-if Settles
