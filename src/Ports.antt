-- ===== src/Ports.antt =====
-- Whether the ports of the repository depend on the same repositories (tools/port-deps.cjs): the types
-- that its readers and its comparison share.
pub mod Order
pub mod Names
pub mod Fold
pub mod Json
pub mod Compare
pub mod Fault
pub mod Reads
pub mod GoImports
pub mod Strings
pub mod GoIgnored
pub mod GoMod
pub mod GoFiles
pub mod Go
pub mod Npm
pub mod Toml
pub mod Cargo
pub mod Run
use ebnf.Base.{ℕ, Bool, Option, List, Text}

-- A key of `PORTS`, `MANIFEST` and `NAMING`.
pub data PortName : Type 0 where
  ts go rs : PortName

-- What a reader returns for a port.
pub record Port : Type 0 where
  pub manifest : Text
  pub name : Text
  pub id : Option Text
  pub runtime : List Text
  pub optional : List Text
  pub dev : List Text
  pub external : List Text

-- A runtime declaration of a manifest.
pub record Declared : Type 0 where
  pub name : Text
  pub optional : Bool
