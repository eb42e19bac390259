-- ===== src/Ports/GoImports/Total.antt =====
-- What each round of the loops of `goImports` (tools/port-deps.cjs) leaves of the file.
use ebnf.Base.{
  ℕ, zero, suc, ◌<◌, ◌≤◌, ◌≡◌, ◌≢◌, refl, subst, Bool, ◌||◌, true, false, none, some, List, [], ◌∷◌,
  ◌==◌, if◌then◌else◌, length, Text, codes, arith,
}
use ebnf.Ports.Fault.{Read, Unreadable, read, unreadable, ◌>>=◌, out_of_fuel}
use ebnf.Ports.Strings.Lengths.{length-drop-le}
use ebnf.Ports.Reads.{Reads, Reads->>=, Reads-if}
use ebnf.Ports.GoImports.{
  Kind, eof, word, string, punct, GoToken, GoPlace, Mode, code, line_comment, closing, opening,
  block_comment, step, quoted, raw, word_or_punct, word_at, token_at, at_end, next_from, next,
  Import, is_word, is_keyword, is_punct, is_eof, imported, Turn, done, again, resume, one_import,
  spec, declaration, turn, imports, package_name, package_clause, go_imports,
}

-- Less than `n` units are left behind a token, and no more than `n` at the end of the file.
abbrev Behind : ℕ → GoToken × GoPlace → Type 0
Behind n x = (is_eof x.0.t ≡ false → length x.1.rest < n) × (length x.1.rest ≤ n)

Behind-le :
    (n m : ℕ) (r : Read (GoToken × GoPlace)) → n ≤ m → Reads (Behind n) r → Reads (Behind m) r
Behind-le n m (read x) le h = (λ e. omega (arith, h.0 e), omega (arith, h.1))
Behind-le n m (unreadable u) le h = h

quoted-lt :
    (file : Text) (line : ℕ) (s : Text) → Reads (λ x. length x.1 < length s) (quoted file line s)
unfolding quoted
quoted-lt file line [] = λ e. cc
quoted-lt file line (c ∷ cs) =
    Reads-if _ (c == b'"') _ _ (λ _. omega arith)
      (λ _.
        Reads-if _ (c == b'\n') _ _ (λ _ e. cc)
          (λ _.
            Reads-if _ (c == b'\\') _ _ (λ _ e. cc)
              (λ _.
                Reads->>= (λ x. length x.1 < length cs) _ (quoted file line cs) _
                  (quoted-lt file line cs) (λ x h. omega (arith, h)))))

raw-lt :
    (file : Text) (start line : ℕ) (s : Text)
    → Reads (λ x. length x.1.rest < length s) (raw file start line s)
unfolding raw
raw-lt file start line [] = λ e. cc
raw-lt file start line (c ∷ cs) =
    let after = if c == b'\n' then suc line else line in
    Reads-if _ (c == b'`') _ _ (λ _. omega arith)
      (λ _.
        Reads->>= (λ x. length x.1.rest < length cs) _ (raw file start after cs) _
          (raw-lt file start after cs) (λ x h. omega (arith, h)))

at_end-Behind : (file : Text) (m : Mode) (line : ℕ) → Reads (Behind 0) (at_end file m line)
unfolding at_end is_eof
at_end-Behind file code line = (λ e. cc, omega arith)
at_end-Behind file line_comment line = (λ e. cc, omega arith)
at_end-Behind file closing line = (λ e. cc, omega arith)
at_end-Behind file (opening start) line = λ e. cc
at_end-Behind file (block_comment start) line = λ e. cc

module _ (letter decimal : ℕ → Bool) (file : Text) where
  word_or_punct-Behind :
      (c : ℕ) (cs : Text) (line : ℕ) (w : Text)
      → Behind (suc (length cs)) (word_or_punct c cs line w)
  unfolding word_or_punct
  word_or_punct-Behind c cs line [] = (λ e. omega arith, omega arith)
  word_or_punct-Behind c cs line (w ∷ ws) = (
    λ e. omega (arith, length-drop-le (length ws) cs),
    omega (arith, length-drop-le (length ws) cs),
  )

  token_at-Behind :
      (c : ℕ) (cs : Text) (line : ℕ)
      → Reads (Behind (suc (length cs))) (token_at letter decimal file c cs line)
  unfolding token_at
  token_at-Behind c cs line =
      Reads-if _ (c == b'"') _ _
        (λ _.
          Reads->>= (λ x. length x.1 < length cs) _ (quoted file line cs) _ (quoted-lt file line cs)
            (λ x h. (λ e. omega (arith, h), omega (arith, h))))
        (λ _.
          Reads-if _ (c == b'`') _ _
            (λ _.
              Reads->>= (λ x. length x.1.rest < length cs) _ (raw file line line cs) _
                (raw-lt file line line cs) (λ x h. (λ e. omega (arith, h), omega (arith, h))))
            (λ _. word_or_punct-Behind c cs line (word_at letter decimal c cs)))

  next_from-Behind :
      (m : Mode) (s : Text) (line : ℕ)
      → Reads (Behind (length s)) (next_from letter decimal file m s line)
  unfolding next_from
  next_from-Behind m [] line = at_end-Behind file m line
  next_from-Behind m (c ∷ cs) line =
      let after = if c == b'\n' then suc line else line in
      elim (step m c cs line)
        as (λ o. Reads (Behind (suc (length cs))) (elim o [
          | none ↦ token_at letter decimal file c cs line
          | some m' ↦ next_from letter decimal file m' cs after
        ])) [
          | none ↦ token_at-Behind c cs line
          | some m' ↦
              Behind-le (length cs) (suc (length cs)) (next_from letter decimal file m' cs after)
                (omega arith) (next_from-Behind m' cs after)
        ]

  next-Behind : (p : GoPlace) → Reads (Behind (length p.rest)) (next letter decimal file p)
  unfolding next
  next-Behind p = next_from-Behind code p.rest p.line

  -- After a round there is less of the file left, or the loops are done.
  abbrev Less : ℕ → Turn → Type 0
  Less n (done found) = Unit
  Less n (again group found p) = length p.rest < n

  imported-Less :
      (n : ℕ) (t : Kind) (line : ℕ) (p : GoPlace)
      → length p.rest < n
      → Reads (λ x. length x.1.rest < n) (imported file t line p)
  unfolding imported
  imported-Less n (string v) line p h = h
  imported-Less n eof line p h = λ e. cc
  imported-Less n (word v) line p h = λ e. cc
  imported-Less n (punct c) line p h = λ e. cc

  one_import-Less :
      (group : Bool) (found : List Import) (tok : GoToken) (p : GoPlace) (n : ℕ)
      → length p.rest < n
      → Reads (Less n) (one_import letter decimal file group found tok p)
  unfolding one_import spec
  one_import-Less group found tok p n h =
      Reads->>= (λ x. length x.1.rest < n) (Less n) _ _
        (Reads-if _ (is_word tok.t || is_punct b'.' tok.t) _ _
          (λ _.
            Reads->>= (Behind (length p.rest)) _ (next letter decimal file p) _ (next-Behind p)
              (λ x b. imported-Less n x.0.t x.0.line x.1 (omega (arith, b.1))))
          (λ _. imported-Less n tok.t tok.line p h))
        (λ x h'. h')

  punct-solid : (c : ℕ) (t : Kind) → is_punct c t ≡ true → is_eof t ≡ false
  unfolding is_punct is_eof
  punct-solid c (punct d) h = refl
  punct-solid c eof h = cc
  punct-solid c (word v) h = refl
  punct-solid c (string v) h = refl

  keyword-solid : (v : Text) (t : Kind) → is_keyword v t ≡ true → is_eof t ≡ false
  unfolding is_keyword is_eof
  keyword-solid v (word w) h = refl
  keyword-solid v eof h = cc
  keyword-solid v (punct c) h = refl
  keyword-solid v (string w) h = refl

  declaration-Less :
      (found : List Import) (x : GoToken × GoPlace) (n m : ℕ)
      → Behind n x
      → n < m
      → Reads (Less m) (declaration letter decimal file found x)
  unfolding declaration
  declaration-Less found (tok, p) n m b h =
      Reads-if (Less m) (is_punct b'(' tok.t) _ _ (λ e. omega (arith, b.1))
        (λ _. one_import-Less false found tok p m (omega (arith, b.1)))

  turn-Less :
      (group : Bool) (found : List Import) (x : GoToken × GoPlace) (n : ℕ)
      → Behind n x
      → Reads (Less n) (turn letter decimal file group found x)
  unfolding turn
  turn-Less false found (tok, p) n b =
      Reads-if (Less n) (is_punct b';' tok.t) _ _ (λ e. b.0 (punct-solid b';' tok.t e))
        (λ _.
          Reads-if (Less n) (is_keyword (codes "import") tok.t) _ _
            (λ e.
              Reads->>= (Behind (length p.rest)) (Less n) (next letter decimal file p) _
                (next-Behind p)
                (λ x b'.
                  declaration-Less found x (length p.rest) n b'
                    (b.0 (keyword-solid (codes "import") tok.t e))))
            (λ _. tt))
  turn-Less true found (tok, p) n b =
      Reads-if (Less n) (is_punct b')' tok.t) _ _ (λ e. b.0 (punct-solid b')' tok.t e))
        (λ _.
          Reads-if (Less n) (is_punct b';' tok.t) _ _ (λ e. b.0 (punct-solid b';' tok.t e))
            (λ _.
              Reads-if (Less n) (is_eof tok.t) _ _ (λ _ e. cc)
                (λ e. one_import-Less true found tok p n (b.0 e))))

  resume-total :
      (loop : Bool → List Import → GoPlace → Read (List Import)) (n : ℕ) (t : Turn)
      → Less n t
      → ((group : Bool) (found : List Import) (p : GoPlace)
          → length p.rest < n
          → Reads (λ _. Unit {0}) (loop group found p))
      → Reads (λ _. Unit {0}) (resume loop t)
  unfolding resume
  resume-total loop n (done found) h k = tt
  resume-total loop n (again group found p) h k = k group found p h

  imports-total :
      (f : ℕ) (group : Bool) (found : List Import) (p : GoPlace)
      → length p.rest < f
      → Reads (λ _. Unit {0}) (imports letter decimal f file group found p)
  unfolding imports
  imports-total zero group found p h = absurd (omega arith)
  imports-total (suc f) group found p h =
      Reads->>= (Less (length p.rest)) _
        (next letter decimal file p >>= turn letter decimal file group found) _
        (Reads->>= (Behind (length p.rest)) (Less (length p.rest)) (next letter decimal file p) _
          (next-Behind p) (λ x b. turn-Less group found x (length p.rest) b))
        (λ t less.
          resume-total (imports letter decimal f file) (length p.rest) t less
            (λ g out q shorter. imports-total f g out q (omega (arith, shorter))))

  go_imports-Reads : (text : Text) → Reads (λ _. Unit {0}) (go_imports letter decimal file text)
  unfolding go_imports package_clause package_name
  go_imports-Reads text =
      let start : GoPlace = record { rest = text; line = 1 } in
      Reads->>= (Behind (length text)) _ (next letter decimal file start) _ (next-Behind start)
        (λ x b.
          Reads-if _ (is_keyword (codes "package") x.0.t) _ _
            (λ _.
              Reads->>= (Behind (length x.1.rest)) _ (next letter decimal file x.1) _
                (next-Behind x.1)
                (λ y b'.
                  Reads-if _ (is_word y.0.t) _ _
                    (λ _. imports-total (suc (length text)) false [] y.1 (omega (arith, b.1, b'.1)))
                    (λ _ e. cc)))
            (λ _ e. cc))

  -- Reading the imports of a file ends, whatever the file holds: the fuel does not run out.
  pub go_imports-total :
      (text : Text) (u : Unreadable)
      → go_imports letter decimal file text ≡ unreadable u
      → u.why ≢ out_of_fuel
  go_imports-total text u e = subst (Reads (λ _. Unit {0})) e (go_imports-Reads text)
