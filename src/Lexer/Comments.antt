-- ===== src/Lexer/Comments.antt =====
-- The ISO comment that the matcher takes, and the position behind it.
use ebnf.Base.{
  &&-eq-true, ℕ, zero, suc, ◌+◌, ◌-◌, ◌≡◌, refl, sym, ap, ◌∙◌, Bool, true, false, Bool-cases,
  Option-cases, inl, inr, ◌&&◌, Option, none, some, [], ◌∷◌, ◌++◌, append_assoc, ◌==◌, arith,
  if◌then◌else◌, Text, codes, length, drop, starts_with, ==_iff, length-append, take-length_append,
}
use ebnf.Lexer.{
  Point, one_further, index_of_close, step_point, advance, close_comment, iso_comment_matcher,
}

-- No `*)` begins inside the text when `*)` follows it.
abbrev pub NoClose : Text → Type 0
NoClose [] = Unit
NoClose (c ∷ cs) = ((c == b'*' && starts_with b')' (cs ++ codes "*)")) ≡ false) × NoClose cs

-- How often a unit stands in a text.
abbrev pub count : ℕ → Text → ℕ
count c [] = 0
count c (d ∷ ds) = (if d == c then 1 else 0) + count c ds

-- The units behind the last newline, if there is one.
abbrev pub last_line : Text → Option Text
last_line [] = none
last_line (c ∷ cs) = elim (last_line cs) [
  | some line ↦ some line
  | none ↦ if c == b'\n' then some cs else none
]

-- The column behind a text that begins at column `c_i`.
abbrev pub column_after : ℕ → Text → ℕ
column_after c_i s = elim (last_line s) [ some line ↦ 1 + length line | none ↦ c_i + length s ]

advance-s_i : (pnt : Point) (s : Text) → (advance pnt s).s_i ≡ pnt.s_i
unfolding advance
advance-s_i pnt [] = refl
advance-s_i pnt (c ∷ s) = advance-s_i (step_point pnt c) s ∙ unfold step_point in ground arith

-- Rows count newlines.
pub advance-r_i : (pnt : Point) (s : Text) → (advance pnt s).r_i ≡ pnt.r_i + count b'\n' s
unfolding advance step_point
advance-r_i pnt [] = omega arith
advance-r_i pnt (c ∷ s) = ground (arith, advance-r_i (step_point pnt c) s)

pub advance-c_i : (pnt : Point) (s : Text) → (advance pnt s).c_i ≡ column_after pnt.c_i s
unfolding advance step_point
advance-c_i pnt [] = omega arith
advance-c_i pnt (c ∷ s) = ground (arith, advance-c_i (step_point pnt c) s)

starts_with-append :
    (body rest : Text)
    → starts_with b')' (body ++ (codes "*)" ++ rest)) ≡ starts_with b')' (body ++ codes "*)")
starts_with-append [] rest = refl
starts_with-append (c ∷ body) rest = refl

-- The first `*)` behind a text in which none begins.
index_of_close-append :
    (body rest : Text)
    → NoClose body
    → index_of_close (body ++ (codes "*)" ++ rest)) ≡ some (length body)
unfolding index_of_close
index_of_close-append [] rest h = refl
index_of_close-append (c ∷ body) rest h =
    rw (starts_with-append body rest) (rw h.0 (rw (index_of_close-append body rest h.1)))

-- What comes before the first `*)`, and behind it.
record ClosesAt (s : Text) (n : ℕ) : Type 0 where
  body : Text
  rest : Text
  splits : s ≡ body ++ (codes "*)" ++ rest)
  is_first : NoClose body
  index : length body ≡ n

starts_with→cons : (c : ℕ) (s : Text) → starts_with c s ≡ true → (rest : Text) × (s ≡ c ∷ rest)
starts_with→cons c [] e = cc
starts_with→cons c (d ∷ s) e = (s, ap (λ (k : ℕ). k ∷ s) ((==_iff d c).0 e))

one_further-eq-some :
    (o : Option ℕ) (n : ℕ) → one_further o ≡ some n → (m : ℕ) × (o ≡ some m) × (suc m ≡ n)
unfolding one_further
one_further-eq-some none n e = cc
one_further-eq-some (some m) n e = (m, refl, cc)

index_of_close-ClosesAt : (s : Text) (n : ℕ) → index_of_close s ≡ some n → ClosesAt s n
unfolding index_of_close
index_of_close-ClosesAt [] n e = cc
index_of_close-ClosesAt (c ∷ s) n e = elim (Bool-cases (c == b'*' && starts_with b')' s)) [
  | inl found ↦
      let (rest, close) = starts_with→cons b')' s (ground arith) in
      let first : c ≡ b'*' = (==_iff c b'*').0 (ground arith) in
      let zeroth : some 0 ≡ some n = rw found at e in
      record { body = []; rest = rest; splits = cc (first, close); is_first = tt; index = cc }
  | inr later ↦
      let (m, e', index) = one_further-eq-some (index_of_close s) n (rw later at e) in
      let inner = index_of_close-ClosesAt s m e' in
      record {
        body = c ∷ inner.body;
        rest = inner.rest;
        splits = ap (◌∷◌ c) inner.splits;
        is_first = (
          sym (ap (λ (b : Bool). c == b'*' && b) (starts_with-append inner.body inner.rest))
              ∙ rw (← inner.splits) later,
          inner.is_first,
        );
        index = omega (arith, inner.index, index);
      }
]

drop-nil : (n : ℕ) → drop {A = ℕ} n [] ≡ []
drop-nil zero = refl
drop-nil (suc n) = refl

drop-add : (k n m : ℕ) (s : Text) → m ≡ n + k → drop m s ≡ drop k (drop n s)
drop-add k zero m s e = let same : m ≡ k = omega arith in rw same
drop-add k (suc n) zero s e = absurd (omega arith)
drop-add k (suc n) (suc m) [] e = sym (drop-nil k)
drop-add k (suc n) (suc m) (c ∷ s) e = drop-add k n m s (omega arith)

abbrev pub comment_text : Text → Text
comment_text body = b'(' ∷ b'*' ∷ (body ++ codes "*)")

-- A whole comment begins at the point: `(*`, a body in which no `*)` begins, and `*)`.
pub record BeginsWithComment (src : Text) (pnt : Point) : Type 0 where
  pub body : Text
  pub rest : Text
  pub splits : drop pnt.s_i src ≡ comment_text body ++ rest
  pub is_first : NoClose body

open_and_close :
    (s : Text) (n : ℕ)
    → starts_with b'(' s ≡ true
    → starts_with b'*' (drop 1 s) ≡ true
    → index_of_close (drop 2 s) ≡ some n
    → (body rest : Text) × (s ≡ comment_text body ++ rest) × NoClose body
open_and_close [] n p q e = cc
open_and_close (c ∷ []) n p q e = cc
open_and_close (c ∷ d ∷ s) n p q e =
    let k = index_of_close-ClosesAt s n e in
    (
      k.body,
      k.rest,
      rw (append_assoc k.body (codes "*)") k.rest)
          (cc ((==_iff c b'(').0 p, (==_iff d b'*').0 q, k.splits)),
      k.is_first,
    )

-- The point behind a text that is read from a point.
abbrev pub point_after : Point → Text → Point
point_after pnt text = record {
  s_i = pnt.s_i + length text;
  r_i = pnt.r_i + count b'\n' text;
  c_i = column_after pnt.c_i text;
}

module _ {ℓ} {T : Type ℓ} (token : Text → Text → Point → T) where
  -- What the matcher makes of a comment with this body.
  close_comment-body :
      (src : Text) (pnt : Point) (c : BeginsWithComment src pnt)
      → close_comment token src pnt (some (length c.body))
        ≡ some (
          token (comment_text c.body) (comment_text c.body) pnt,
          point_after pnt (comment_text c.body),
        )
  unfolding close_comment
  close_comment-body src pnt c =
      let size : pnt.s_i + 2 + length c.body + 2 - pnt.s_i ≡ length (comment_text c.body) =
        omega (arith, length-append {0} c.body (codes "*)")) in
      let end : pnt.s_i + 2 + length c.body + 2 ≡ pnt.s_i + length (comment_text c.body) =
        omega (arith, length-append {0} c.body (codes "*)")) in
      rw size (
        rw c.splits (
          rw (take-length_append (comment_text c.body) c.rest) (
            rw (advance-r_i pnt (comment_text c.body))
              (rw (advance-c_i pnt (comment_text c.body)) (rw end)))))

  -- At a comment the matcher makes a token of the whole comment, and moves the lexer's point to the
  -- unit behind it: the row counts the comment's newlines, and the column its units since the last.
  pub iso_comment_matcher-comment :
      (src : Text) (pnt : Point) (c : BeginsWithComment src pnt)
      → iso_comment_matcher token src pnt
        ≡ some (
          token (comment_text c.body) (comment_text c.body) pnt,
          point_after pnt (comment_text c.body),
        )
  unfolding iso_comment_matcher
  iso_comment_matcher-comment src pnt c = rw (drop-add 1 pnt.s_i (pnt.s_i + 1) src refl) (
      rw (drop-add 2 pnt.s_i (pnt.s_i + 2) src refl) (
        rw c.splits (
          rw (append_assoc c.body (codes "*)") c.rest)
            (rw (index_of_close-append c.body c.rest c.is_first) (close_comment-body src pnt c)))))

  close_comment-none : (src : Text) (pnt : Point) → close_comment token src pnt none ≡ none
  unfolding close_comment
  close_comment-none src pnt = refl

  -- Where the matcher makes a token, a comment begins.
  pub iso_comment_matcher-BeginsWithComment :
      (src : Text) (pnt : Point) {r : T × Point}
      → iso_comment_matcher token src pnt ≡ some r
      → BeginsWithComment src pnt
  unfolding iso_comment_matcher
  iso_comment_matcher-BeginsWithComment src pnt e =
      elim (Bool-cases
        (starts_with b'(' (drop pnt.s_i src) && starts_with b'*' (drop (pnt.s_i + 1) src))) [
          | inr no_opening ↦ cc (rw no_opening at e)
          | inl opening ↦ elim (Option-cases (index_of_close (drop (pnt.s_i + 2) src))) [
            | inl unclosed ↦ cc (rw unclosed at (rw opening at e), close_comment-none src pnt)
            | inr (n, closed) ↦
                let (paren, star) =
                  (&&-eq-true (starts_with b'(' (drop pnt.s_i src)) _).0 opening in
                let (body, rest, splits, is_first) =
                  open_and_close (drop pnt.s_i src) n paren
                    (rw (drop-add 1 pnt.s_i (pnt.s_i + 1) src refl) at star)
                    (rw (drop-add 2 pnt.s_i (pnt.s_i + 2) src refl) at closed) in
                record { body = body; rest = rest; splits = splits; is_first = is_first }
          ]
        ]
