-- ===== src/Embed.antt =====
-- How a text is embedded in the generated module (ts/embed-translate.js: `tsString`).
pub mod RoundTrip
use ebnf.Base.{◌&&◌, List, [], ◌∷◌, ◌++◌, if◌then◌else◌, ◌==◌, starts_with, Text, codes}

-- `replaceAll('\\', '\\\\')`
unfoldable pub escape_backslashes : Text → Text
escape_backslashes [] = []
escape_backslashes (c ∷ cs) =
    let rest = escape_backslashes cs in if c == b'\\' then b'\\' ∷ b'\\' ∷ rest else c ∷ rest

-- replaceAll('`', '\\`')
unfoldable pub escape_backticks : Text → Text
escape_backticks [] = []
escape_backticks (c ∷ cs) =
    let rest = escape_backticks cs in if c == b'`' then b'\\' ∷ b'`' ∷ rest else c ∷ rest

-- `replaceAll('${', '\\${')`
unfoldable pub escape_substitutions : Text → Text
escape_substitutions [] = []
escape_substitutions (c ∷ cs) =
    let rest = escape_substitutions cs in
    if c == b'$' && starts_with b'{' cs then b'\\' ∷ b'$' ∷ rest else c ∷ rest

unfoldable pub ts_string : Text → Text
unfolding escape_backslashes escape_backticks escape_substitutions
ts_string value =
    b'`' ∷ (escape_substitutions (escape_backticks (escape_backslashes value)) ++ b'`' ∷ [])
