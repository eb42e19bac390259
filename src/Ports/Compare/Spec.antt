-- ===== src/Ports/Compare/Spec.antt =====
-- What it is for a repository and its register to pass.
use ebnf.Base.{◌≡◌, ◌≢◌, ◌⊎◌, true, none, some, List, map, Text, codes, has}
use ebnf.Ports.{PortName}
use ebnf.Ports.Json.{Json, object, Members, keys, lookup, is_list, is_filled}
use ebnf.Ports.Compare.{Repo, port_of, repo_of, port_text, is_string}
use ebnf.Ports.Compare.Rows.{Present, Agree, holders}

-- The keys of a register, and of an entry.
abbrev pub IsRegisterKey : Text → Type 0
IsRegisterKey k = (k ≡ codes "note") ⊎ (k ≡ codes "differ")

abbrev pub IsEntryKey : Text → Type 0
IsEntryKey k = (k ≡ codes "ports") ⊎ (k ≡ codes "reason") ⊎ (k ≡ codes "repair")

-- The register is an object with a `differ` of its own, which is an object, perhaps a `note`, which is
-- a string, and nothing else.
pub record IsRegister (register : Json) (differ : Members) : Type 0 where
  pub members : Members
  pub is_members : register ≡ object members
  pub register_keys : (k : Text) → has k (keys members) ≡ true → IsRegisterKey k
  pub note : is_string (lookup (codes "note") members) ≡ true
  pub differ_lem : lookup (codes "differ") members ≡ some (object differ)

-- The entry records these ports, with a reason and a repair, and nothing else.
pub record IsEntry (have : List PortName) (entry : Members) : Type 0 where
  pub entry_keys : (k : Text) → has k (keys entry) ≡ true → IsEntryKey k
  pub ports : is_list (lookup (codes "ports") entry) (map port_text have) ≡ true
  pub reason : is_filled (lookup (codes "reason") entry) ≡ true
  pub repair : is_filled (lookup (codes "repair") entry) ≡ true

-- The ports agree on the dependency and the register has no entry for it, or they do not agree and it
-- has one.
abbrev pub IsRecorded : Repo → Members → Text → Type 0
IsRecorded repo differ id =
    ((lookup id differ ≡ none) × Agree repo id)
    ⊎ ((entry : Members) × (lookup id differ ≡ some (object entry))
        × ¬ Agree repo id
        × IsEntry (holders repo id) entry)

-- What the check asks for, with the differences that the register records.
pub record Passes (repo : Repo) (register : Json) (differ : Members) : Type 0 where
  pub named : (p : PortName) → Present repo p → repo_of (port_of repo p) ≢ none
  pub one_repo :
      (p q : PortName) (i j : Text)
      → repo_of (port_of repo p) ≡ some i
      → repo_of (port_of repo q) ≡ some j
      → i ≡ j
  pub shape : IsRegister register differ
  pub recorded : (id : Text) → IsRecorded repo differ id
