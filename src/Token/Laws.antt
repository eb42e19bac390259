-- ===== src/Token/Laws.antt =====
-- The span over two tokens, in the source that they were read from.
use ebnf.Base.{ℕ, ◌-◌, ◌≡◌, some, none, length, take, drop, Text}
use ebnf.Token.{Token}

-- `source.slice(s, e)`
abbrev pub slice : Text → ℕ → ℕ → Text
slice source s e = take (e - s) (drop s source)

-- The token has its text, and no other length, and says that it stands behind `front`.
abbrev pub StandsBehind : Text → Token → Type 0
StandsBehind front tkn = (tkn.s_i ≡ some (length front)) × (tkn.len ≡ none)
