-- ===== src/Embed/RoundTrip.antt =====
-- What JavaScript reads in the template literal that a text is embedded as.
use ebnf.Base.{
  ◌≡◌, refl, ap, ◌∙◌, Bool, true, false, ◌&&◌, ◌||◌, Option, none, some, [], ◌∷◌, ◌++◌,
  if◌then◌else◌, ◌==◌, starts_with, Text, ℕ, arith,
}
use ebnf.Embed.{escape_backslashes, escape_backticks, escape_substitutions, ts_string}

abbrev push : ℕ → Option Text → Option Text
push c none = none
push c (some s) = some (c ∷ s)

-- The end of a literal, which nothing follows.
abbrev at_end : Text → Option Text
at_end [] = some []
at_end (_ ∷ _) = none

-- A carriage return, alone or before a line feed, is a line feed.
unfoldable pub line_feeds : Text → Text
line_feeds [] = []
line_feeds (c ∷ cs) =
    let rest = line_feeds cs in
    if c == b'\r' then (if starts_with b'\n' cs then rest else b'\n' ∷ rest) else c ∷ rest

-- The value of a template literal behind its first backtick, in an escape or not: one without
-- substitutions, and with no escapes but those of `\`, backtick and `$`.
unfoldable pub template : Bool → Text → Option Text
template in_escape [] = none
template true (c ∷ cs) =
    let rest = template false cs in
    if c == b'\\' || c == b'`' || c == b'$' then push c rest else none
template false (c ∷ cs) =
    let rest = template false cs in
    let escaped = template true cs in
    if c == b'`'
    then at_end cs
    else if c == b'\\'
    then escaped
    else if c == b'$' && starts_with b'{' cs
    then none
    else if c == b'\r'
    then (if starts_with b'\n' cs then rest else push b'\n' rest)
    else push c rest

unfoldable pub template_value : Text → Option Text
unfolding template
template_value [] = none
template_value (c ∷ cs) = if c == b'`' then template false cs else none

-- The body of the literal, in one pass.
unfoldable body : Text → Text
body [] = b'`' ∷ []
body (c ∷ cs) =
    let rest = body cs in
    if c == b'\\'
    then b'\\' ∷ b'\\' ∷ rest
    else if c == b'`'
    then b'\\' ∷ b'`' ∷ rest
    else if c == b'$' && starts_with b'{' cs
    then b'\\' ∷ b'$' ∷ rest
    else c ∷ rest

starts_with-escaped :
    (s : Text) → starts_with b'{' (escape_backticks (escape_backslashes s)) ≡ starts_with b'{' s
unfolding escape_backticks escape_backslashes
starts_with-escaped [] = refl
starts_with-escaped (c ∷ cs) = ground arith

body-escape :
    (s : Text)
    → escape_substitutions (escape_backticks (escape_backslashes s)) ++ b'`' ∷ [] ≡ body s
unfolding escape_substitutions escape_backticks escape_backslashes body
body-escape [] = refl
body-escape (c ∷ cs) = ground (arith, starts_with-escaped cs, body-escape cs)

starts_with-body :
    (s : Text)
    → (starts_with b'{' (body s) ≡ starts_with b'{' s)
      × (starts_with b'\n' (body s) ≡ starts_with b'\n' s)
unfolding body
starts_with-body [] = (refl, refl)
starts_with-body (c ∷ cs) = (ground arith, ground arith)

template-body : (s : Text) → template false (body s) ≡ some (line_feeds s)
unfolding template body line_feeds
template-body [] = refl
template-body (c ∷ cs) = ground (arith, starts_with-body cs, template-body cs)

-- The literal that a text is embedded as is read back as the text, but that every carriage return,
-- alone or before a line feed, has become a line feed.
pub template_value-ts_string : (s : Text) → template_value (ts_string s) ≡ some (line_feeds s)
unfolding template_value ts_string
template_value-ts_string s = ap (template false) (body-escape s) ∙ template-body s
