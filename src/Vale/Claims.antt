-- ===== src/Vale/Claims.antt =====
-- The counts of a rule that the comments above it claim (ts/scripts/vale-counts.cjs: `HITS`, and the loop
-- of `report` over its matches).
pub mod Covered
pub mod Found
pub mod Land
pub mod Repaired
pub mod Numbers
use ebnf.Base.{
  ℕ, zero, suc, ◌+◌, ◌-◌, ◌*◌, ◌/◌, ◌%◌, Bool, true, false, not, ◌&&◌, ◌||◌, Option, none, some,
  List, [], ◌∷◌, ◌++◌, ◌==◌, ltb, if◌then◌else◌, length, drop, starts_with, within, is_space, Text,
  codes, get_elem?, strip_prefix,
}
use ebnf.Ports.Toml.{run_of}
use ebnf.Vale.{At, Block}
use ebnf.Vale.Edits.{Edit}

-- `\d` and `\w`
abbrev pub is_decimal : ℕ → Bool
is_decimal c = within b'0' b'9' c

unfoldable pub is_word_unit : ℕ → Bool
is_word_unit c = within b'A' b'Z' c || (within b'a' b'z' c || (within b'0' b'9' c || c == b'_'))

-- `\b` behind a word
unfoldable pub is_apart : Text → Bool
unfolding is_word_unit
is_apart [] = true
is_apart (c ∷ _) = not (is_word_unit c)

-- `s?\b` behind `hit`: the digits, and the length of the match.
unfoldable pub hit_end : Text → ℕ → Text → Option (Text × ℕ)
unfolding is_apart
hit_end digits len rest =
    if starts_with b's' rest && is_apart (drop 1 rest)
    then some (digits, len + 4)
    else if is_apart rest
    then some (digits, len + 3)
    else none

unfoldable pub hit_behind : Text → Text → Option Text → Option (Text × ℕ)
unfolding hit_end
hit_behind [] spaces rest = none
hit_behind (d ∷ ds) [] rest = none
hit_behind (d ∷ ds) (s ∷ ss) none = none
hit_behind (d ∷ ds) (s ∷ ss) (some rest) = hit_end (d ∷ ds) (length (d ∷ ds) + length (s ∷ ss)) rest

-- `(\d+)\s+hits?\b`
unfoldable pub hit_at : Text → Option (Text × ℕ)
unfolding hit_behind run_of strip_prefix
hit_at text =
    let digits = run_of is_decimal text in
    let rest = drop (length digits) text in
    let spaces = run_of is_space rest in
    hit_behind digits spaces (strip_prefix (codes "hit") (drop (length spaces) rest))

-- A match of `HITS`: where its digits begin, and the digits.
pub record Claim : Type 0 where
  pub index : ℕ
  pub digits : Text

unfoldable pub with_hit : Option (Text × ℕ) → ℕ → (ℕ → List Claim) → List Claim
with_hit none index further = further 0
with_hit (some (digits, len)) index further =
    record { index = index; digits = digits } ∷ further (len - 1)

-- `matchAll(HITS)`, with a number of units still to be passed over, and whether the unit in front is one
-- of a word.
unfoldable pub hits_from : ℕ → Bool → ℕ → Text → List Claim
unfolding is_word_unit with_hit hit_at
hits_from skip in_word index [] = []
hits_from (suc k) in_word index (c ∷ cs) = hits_from k (is_word_unit c) (suc index) cs
hits_from zero in_word index (c ∷ cs) =
    with_hit (if in_word then none else hit_at (c ∷ cs)) index
      (λ k. hits_from k (is_word_unit c) (suc index) cs)

-- `Number` of a run of digits, for numbers that it represents exactly.
unfoldable pub number_of : ℕ → Text → ℕ
number_of n [] = n
number_of n (c ∷ cs) = number_of (10 * n + (c - b'0')) cs

-- `String` of a number, for a fuel above it.
unfoldable pub decimal : ℕ → ℕ → Text
decimal zero n = []
decimal (suc f) n =
    let front = decimal f (n / 10) in (if ltb n 10 then [] else front) ++ (b'0' + n % 10) ∷ []

-- An edit at the place of an index; none, where there is no place to take apart.
unfoldable pub edit_at_place : Text → Text → Option At → Option Edit
edit_at_place was text none = none
edit_at_place was text (some none) = none
edit_at_place was text (some (some (line, col))) =
    some (record { line = line; col = col; was = was; text = text })

unfoldable pub also : Option Edit → Option (List Edit) → Option (List Edit)
also none more = none
also (some e) none = none
also (some e) (some es) = some (e ∷ es)

-- The edits of the claims of a block; none, where the source throws.
unfoldable pub claim_edits : ℕ → List At → List Claim → Option (List Edit)
unfolding number_of decimal edit_at_place also
claim_edits actual at [] = some []
claim_edits actual at (claim ∷ claims) =
    let more = claim_edits actual at claims in
    if actual == number_of 0 claim.digits
    then more
    else also (edit_at_place claim.digits (decimal (suc actual) actual) (get_elem? at claim.index))
        more

-- The edits that the matches of `HITS` in a block lead to, where Vale reports `count` of its rule.
unfoldable pub hit_edits : (Text → ℕ) → Block → Option (List Edit)
unfolding claim_edits hits_from
hit_edits count b = elim b.rule [
  | none ↦ some []
  | some (name, level) ↦ claim_edits (count name) b.joined.at (hits_from 0 false 0 b.joined.text)
]
