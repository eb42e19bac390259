-- ===== src/Vale/Edits.antt =====
-- The edits of the settings file (ts/scripts/vale-counts.cjs: `edit`).
pub mod Pieces
use ebnf.Base.{
  ℕ, zero, suc, ◌+◌, Bool, ◌&&◌, ◌||◌, Option, none, some, List, [], ◌∷◌, ◌++◌, ◌==◌, ltb,
  if◌then◌else◌, length, take, drop, Text,
}

pub record Edit : Type 0 where
  pub line : ℕ
  pub col : ℕ
  pub was : Text
  pub text : Text

-- `b.line - a.line || b.col - a.col` is below 0
unfoldable pub is_before : Edit → Edit → Bool
is_before a b = ltb b.line a.line || (a.line == b.line && ltb b.col a.col)

-- `sort`, which leaves edits at one place in their order.
unfoldable pub insert_edit : Edit → List Edit → List Edit
unfolding is_before
insert_edit e [] = e ∷ []
insert_edit e (f ∷ fs) =
    let rest = f ∷ insert_edit e fs in if is_before f e then rest else e ∷ f ∷ fs

unfoldable pub sort_edits : List Edit → List Edit
unfolding insert_edit
sort_edits [] = []
sort_edits (e ∷ es) = insert_edit e (sort_edits es)

-- `line.slice(0, e.col) + e.text + line.slice(e.col + e.was.length)`
unfoldable pub edited : Edit → Text → Text
edited e line = take e.col line ++ (e.text ++ drop (e.col + length e.was) line)

-- An edit of a line that is not there throws, and nothing else is done.
abbrev pub and_then : Option (List Text) → (List Text → Option (List Text)) → Option (List Text)
and_then none next = none
and_then (some lines) next = next lines

unfoldable pub edit_at : Edit → ℕ → List Text → Option (List Text)
unfolding edited
edit_at e i [] = none
edit_at e zero (line ∷ lines) = some (edited e line ∷ lines)
edit_at e (suc i) (line ∷ lines) = and_then (edit_at e i lines) (λ rest. some (line ∷ rest))

unfoldable pub edit_all : List Edit → List Text → Option (List Text)
unfolding edit_at
edit_all [] lines = some lines
edit_all (e ∷ es) lines = and_then (edit_at e e.line lines) (edit_all es)

-- `edit`
unfoldable pub edit : List Text → List Edit → Option (List Text)
unfolding edit_all sort_edits
edit lines edits = edit_all (sort_edits edits) lines
