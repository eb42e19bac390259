-- ===== src/Vale/Claims/Land.antt =====
-- The edits of the claims, and where they land (ts/scripts/vale-counts.cjs: the loop of `report` over the
-- matches of `HITS`).
use ebnf.Base.{
  ℕ, zero, suc, ◌-◌, ◌≡◌, refl, sym, ap, ◌∙◌, subst, Bool, true, false, not, ◌&&◌, Option, none,
  some, List, [], ◌∷◌, ◌++◌, append_assoc, ◌==◌, length, length-append, drop, starts_with, all,
  Text, get_elem?, All, All-map, Bool-cases, inl, inr, arith,
}
use ebnf.Ports.Strings.{split_lines}
use ebnf.Ports.Toml.{run_of}
use ebnf.Vale.{At, Block, blocks}
use ebnf.Vale.Words.{IsWord, LandsIn, words_land}
use ebnf.Vale.Edits.{Edit}
use ebnf.Vale.Claims.Numbers.{number_of-decimal}
use ebnf.Vale.Claims.{
  is_decimal, is_word_unit, is_apart, hit_end, hit_behind, hit_at, Claim, with_hit, hits_from,
  number_of, decimal, claim_edits,
}

-- A run of digits in front of a text.
abbrev IsRun : Text → Text → Type 0
IsRun text digits = (back : Text) × (text ≡ digits ++ back) × (all is_decimal digits ≡ true)

run_of-IsRun : (text : Text) → IsRun text (run_of is_decimal text)
unfolding run_of
run_of-IsRun [] = ([], refl, refl)
run_of-IsRun (c ∷ cs) = elim (Bool-cases (is_decimal c)) [
  | inl digit ↦
      let (back, is, digits) = run_of-IsRun cs in
      rw digit (back, ap (◌∷◌ c) is, ground (arith, digit, digits))
  | inr other ↦ rw other (c ∷ cs, refl, refl)
]

no_blank : (digits : Text) → all is_decimal digits ≡ true → all (λ c. not (c == b' ')) digits ≡ true
no_blank [] h = refl
no_blank (c ∷ cs) h = ground (arith, h, no_blank cs (ground (arith, h)))

-- What a match says of the text that it begins at.
abbrev IsHit : Text → Option (Text × ℕ) → Type 0
IsHit text none = Unit {0}
IsHit text (some (digits, len)) = (back : Text) × (text ≡ digits ++ back) × IsWord digits

hit_end-IsHit :
    (text : Text) (d : ℕ) (ds : Text) (len : ℕ) (rest : Text)
    → IsRun text (d ∷ ds)
    → IsHit text (hit_end (d ∷ ds) len rest)
unfolding hit_end
hit_end-IsHit text d ds len rest (back, is, digits) =
    let hit : IsHit text (some (d ∷ ds, len)) =
      (back, is, ((λ e. cc e), no_blank (d ∷ ds) digits)) in
    elim (Bool-cases (starts_with b's' rest && is_apart (drop 1 rest))) [
      | inl many ↦ rw many hit
      | inr one ↦ elim (Bool-cases (is_apart rest)) [
        | inl apart ↦ rw one (rw apart hit)
        | inr joined ↦ rw one (rw joined tt)
      ]
    ]

hit_behind-IsHit :
    (text digits spaces : Text) (rest : Option Text)
    → IsRun text digits
    → IsHit text (hit_behind digits spaces rest)
unfolding hit_behind
hit_behind-IsHit text [] spaces rest h = tt
hit_behind-IsHit text (d ∷ ds) [] rest h = tt
hit_behind-IsHit text (d ∷ ds) (s ∷ ss) none h = tt
hit_behind-IsHit text (d ∷ ds) (s ∷ ss) (some rest) h = hit_end-IsHit text d ds _ rest h

hit_at-IsHit : (text : Text) → IsHit text (hit_at text)
unfolding hit_at
hit_at-IsHit text = hit_behind-IsHit text (run_of is_decimal text) _ _ (run_of-IsRun text)

module _ (whole : Text) where
  -- The digits of a claim stand where it says.
  abbrev pub IsClaim : Claim → Type 0
  IsClaim k =
      (front : Text) × (back : Text) × (whole ≡ front ++ (k.digits ++ back))
      × (length front ≡ k.index)
      × IsWord k.digits

  with_hit-IsClaim :
      (hit : Option (Text × ℕ)) (front text : Text) (index : ℕ) (further : ℕ → List Claim)
      → whole ≡ front ++ text
      → length front ≡ index
      → IsHit text hit
      → ((k : ℕ) → All IsClaim (further k))
      → All IsClaim (with_hit hit index further)
  unfolding with_hit
  with_hit-IsClaim none front text index further is at h more = more 0
  with_hit-IsClaim (some (digits, len)) front text index further is at (back, same, word) more =
      ((front, back, is ∙ ap (λ t. front ++ t) same, at, word), more (len - 1))

  hits_from-IsClaim :
      (skip : ℕ) (in_word : Bool) (index : ℕ) (front text : Text)
      → whole ≡ front ++ text
      → length front ≡ index
      → All IsClaim (hits_from skip in_word index text)
  unfolding hits_from
  hits_from-IsClaim skip in_word index front [] is at = tt
  hits_from-IsClaim (suc k) in_word index front (c ∷ cs) is at =
      hits_from-IsClaim k (is_word_unit c) (suc index) (front ++ c ∷ []) cs
        (is ∙ sym (append_assoc front (c ∷ []) cs))
        (omega (arith, at, length-append front (c ∷ [])))
  hits_from-IsClaim zero in_word index front (c ∷ cs) is at =
      let more : (k : ℕ) → All IsClaim (hits_from k (is_word_unit c) (suc index) cs) = λ k.
        hits_from-IsClaim k (is_word_unit c) (suc index) (front ++ c ∷ []) cs
          (is ∙ sym (append_assoc front (c ∷ []) cs))
          (omega (arith, at, length-append front (c ∷ []))) in
      elim (Bool-cases in_word) [
        | inl within ↦ rw within (with_hit-IsClaim none front (c ∷ cs) index _ is at tt more)
        | inr outside ↦ rw outside (
            with_hit-IsClaim (hit_at (c ∷ cs)) front (c ∷ cs) index _ is at (hit_at-IsHit (c ∷ cs))
              more)
      ]

-- An edit takes the digits of a wrong count that stand where it says, and writes the right one.
abbrev pub IsRepair : List Text → ℕ → Edit → Type 0
IsRepair src actual e =
    (above : List Text) × (below : List Text) × (pre : Text) × (post : Text) × (src
      ≡ above ++ (pre ++ (e.was ++ post)) ∷ below)
    × (e.line ≡ length above)
    × (e.col ≡ length pre)
    × ((actual == number_of 0 e.was) ≡ false)
    × (number_of 0 e.text ≡ actual)

module _ (src : List Text) (actual : ℕ) (at : List At) where
  pub claim_edits-IsRepair :
      (claims : List Claim)
      → All (λ k. LandsIn src at k.index k.digits) claims
      → (es : List Edit) × (claim_edits actual at claims ≡ some es) × All (IsRepair src actual) es
  unfolding claim_edits
  claim_edits-IsRepair [] h = ([], refl, tt)
  claim_edits-IsRepair (k ∷ claims) h =
      let (es, is, repairs) = claim_edits-IsRepair claims h.1 in
      let (above, below, pre, post, kept, lines, _) = h.0 in
      let written_is_read = number_of-decimal (suc actual) actual (omega arith) in
      elim (Bool-cases (actual == number_of 0 k.digits)) [
        | inl right ↦ (es, rw right is, repairs)
        | inr wrong ↦ (
          record {
            line = length above;
            col = length pre;
            was = k.digits;
            text = decimal (suc actual) actual;
          }
              ∷ es,
          rw wrong (rw kept (rw is refl)),
          ((above, below, pre, post, lines, refl, refl, wrong, written_is_read), repairs),
        )
      ]

IsClaim-LandsIn :
    (ini : Text) (i : ℕ) (b : Block) (k : Claim)
    → get_elem? (blocks ini) i ≡ some b
    → IsClaim b.joined.text k
    → LandsIn (split_lines ini) b.joined.at k.index k.digits
IsClaim-LandsIn ini i b k at (front, back, is, index, word) =
    subst (λ n. LandsIn (split_lines ini) b.joined.at n k.digits) index
      (words_land ini i b front k.digits back at is word)

-- Each count that the comments of a block claim is a word that lands where it stands.
pub claims_land :
    (ini : Text) (i : ℕ) (b : Block)
    → get_elem? (blocks ini) i ≡ some b
    → All
        (λ k. LandsIn (split_lines ini) b.joined.at k.index k.digits)
        (hits_from 0 false 0 b.joined.text)
claims_land ini i b at =
    let text = b.joined.text in
    All-map (IsClaim text) (λ k. LandsIn (split_lines ini) b.joined.at k.index k.digits)
      (hits_from 0 false 0 text) (λ k c. IsClaim-LandsIn ini i b k at c)
      (hits_from-IsClaim text 0 false 0 [] text refl refl)
