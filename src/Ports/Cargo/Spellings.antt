-- ===== src/Ports/Cargo/Spellings.antt =====
-- The spellings of a dependency that Cargo accepts (tools/port-deps.cjs: `parseToml` and `readRs`).
pub mod Package
pub mod Statements
pub mod Agree
use ebnf.Base.{true, false, [], ◌∷◌, ◌++◌, Text, codes}
use ebnf.Ports.Toml.{table, string, Keys, nothing, key}
use ebnf.Ports.Toml.RoundTrip.{written}

abbrev pub package_of : Keys → Keys
package_of ks = key (codes "package") (table 1 true false ks) nothing

abbrev pub version : Text → Keys
version v = key (codes "version") (string 4 v) nothing

-- What stands behind `[package]` and its name, with the keys of `dependencies`.
abbrev pub package_line : Text → Text → Text
package_line p rest = codes "[package]\n" ++ (codes "name=\"" ++ (written p ++ b'"' ∷ b'\n' ∷ rest))

abbrev pub document : Text → Keys → Keys
document p ks =
    key (codes "package") (table 1 true false (key (codes "name") (string 2 p) nothing)) ks

abbrev pub named : Text → Keys
named p = package_of (key (codes "name") (string 2 p) nothing)

abbrev pub with_dependencies : Text → Keys → Keys
with_dependencies p ks = document p (key (codes "dependencies") (table 3 true false ks) nothing)

-- A version in quotes, and the end of its line.
abbrev pub quoted : Text → Text → Text
quoted v rest = b'"' ∷ (written v ++ b'"' ∷ rest)

-- The ways to write that a package needs another one.
pub data Spelling : Type 0 where
  as_version : Spelling
  as_inline_table : Spelling
  as_dotted_key : Spelling
  as_header : Spelling

-- The tables behind the name of the package: `s` is the key, and `v` the version.
unfoldable pub spelled : Spelling → Text → Text → Text
spelled as_version s v = codes "[dependencies]\n" ++ (s ++ b'=' ∷ quoted v (codes "\n"))
spelled as_inline_table s v =
    codes "[dependencies]\n" ++ (s ++ b'=' ∷ (codes "{version=" ++ quoted v (codes "}\n")))
spelled as_dotted_key s v =
    codes "[dependencies]\n" ++ (s ++ b'.' ∷ (codes "version=" ++ quoted v (codes "\n")))
spelled as_header s v =
    codes "[dependencies." ++ (s ++ b']' ∷ b'\n' ∷ (codes "version=" ++ quoted v (codes "\n")))

unfoldable pub manifest : Spelling → Text → Text → Text → Text
unfolding spelled
manifest spelling p s v = package_line p (spelled spelling s v)
