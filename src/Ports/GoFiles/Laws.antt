-- ===== src/Ports/GoFiles/Laws.antt =====
-- Which files the walk over a module finds.
use ebnf.Base.{
  ◌≡◌, refl, sym, ◌∙◌, ◌↔◌, ◌⊎◌, inl, inr, Bool, true, false, ◌||◌, List, [], ◌∷◌, ◌++◌,
  if◌then◌else◌, flat_map, Text, codes, text_eq_iff, has, has-append, arith,
}
use ebnf.Ports.GoFiles.{
  Entry, link, file, other, directory, Entries, nothing, entry, Named, insert_by_name, has_suffix,
  is_hidden, is_skipped, child_of, entry_files, named_files, go_files,
}

abbrev files_of : Named → List Text
files_of named = flat_map (λ (x : Text × List Text). x.1) named

has-insert_by_name :
    (p name : Text) (files : List Text) (named : Named)
    → has p (files_of (insert_by_name name files named)) ≡ (has p files || has p (files_of named))
unfolding insert_by_name has
has-insert_by_name p name files [] = has-append p files []
has-insert_by_name p name files ((n, fs) ∷ named) = ground (
  arith,
  has-insert_by_name p name files named,
  has-append p fs (files_of (insert_by_name name files named)),
  has-append p fs (files_of named),
  has-append p files (fs ++ files_of named),
)

||-iff :
    {P Q : Type 0} (a b : Bool) → ((a ≡ true) ↔ P) → ((b ≡ true) ↔ Q) → ((a || b) ≡ true) ↔ (P ⊎ Q)
||-iff true b h k = (λ _. inl (h.0 refl), λ _. refl)
||-iff false b h k =
    (λ e. inr (k.0 e), λ x. elim x [ inl p ↦ absurd (ground (arith, h.1 p)) | inr q ↦ k.1 q ])

-- A list that a test empties.
unless_iff :
    {P : Type 0} (p : Text) (b : Bool) (files : List Text)
    → ((has p files ≡ true) ↔ P)
    → (has p (if b then [] else files) ≡ true) ↔ ((b ≡ false) × P)
unfolding has
unless_iff p true files i = (λ e. absurd cc, λ h. absurd cc)
unless_iff p false files i = (λ e. (refl, i.0 e), λ h. i.1 (h.1))

one_iff :
    (p path : Text) (b : Bool)
    → (has p (if b then path ∷ [] else []) ≡ true) ↔ ((b ≡ true) × (p ≡ path))
unfolding has
one_iff p path true = (
  λ e. (refl, (text_eq_iff p path).0 (ground (arith, e))),
  λ h. ground (arith, (text_eq_iff p path).1 (h.1)),
)
one_iff p path false = (λ e. absurd cc, λ h. absurd cc)

module _ (exists : Text → Bool) where
  abbrev mutual
    -- The paths that an entry of a directory stands for: a Go file that is not hidden, or what is in a
    -- directory that is not hidden, not skipped and no module of its own. A link stands for none.
    pub Kept : Text → Text → Entry → Text → Type 0
    Kept rel name link p = ⊥
    Kept rel name other p = ⊥
    Kept rel name file p =
        (is_hidden name ≡ false)
        × ((has_suffix (codes ".go") name ≡ true) × (p ≡ child_of rel name))
    Kept rel name (directory es) p =
        (is_hidden name ≡ false)
        × ((is_skipped name ≡ false)
            × ((exists (child_of (child_of rel name) (codes "go.mod")) ≡ false)
                × KeptIn (child_of rel name) es p))

    pub KeptIn : Text → Entries → Text → Type 0
    KeptIn rel nothing p = ⊥
    KeptIn rel (entry name e es) p = Kept rel name e p ⊎ KeptIn rel es p

  file_iff :
      (rel name p : Text) → (has p (entry_files exists rel name file) ≡ true) ↔ Kept rel name file p
  unfolding entry_files has
  file_iff rel name p =
      unless_iff p (is_hidden name) _
        (one_iff p (child_of rel name) (has_suffix (codes ".go") name))

  directory_iff :
      (rel name p : Text) (es : Entries)
      → ((has p (files_of (named_files exists (child_of rel name) es)) ≡ true)
          ↔ KeptIn (child_of rel name) es p)
      → (has p (entry_files exists rel name (directory es)) ≡ true) ↔ Kept rel name (directory es) p
  unfolding entry_files has
  directory_iff rel name p es below = unless_iff p (is_hidden name) _ (
      unless_iff p (is_skipped name) _
        (unless_iff p (exists (child_of (child_of rel name) (codes "go.mod"))) _ below))

  nothing_iff : (p : Text) → (has p [] ≡ true) ↔ ⊥
  unfolding has
  nothing_iff p = (λ e. absurd cc, λ x. absurd x)

  mutual
    unfolding entry_files named_files has

    entry_iff :
        (rel name : Text) (e : Entry) (p : Text)
        → (has p (entry_files exists rel name e) ≡ true) ↔ Kept rel name e p
    entry_iff rel name link p = nothing_iff p
    entry_iff rel name other p = nothing_iff p
    entry_iff rel name file p = file_iff rel name p
    entry_iff rel name (directory es) p =
        directory_iff rel name p es (named_iff (child_of rel name) es p)

    named_iff :
        (rel : Text) (es : Entries) (p : Text)
        → (has p (files_of (named_files exists rel es)) ≡ true) ↔ KeptIn rel es p
    named_iff rel nothing p = nothing_iff p
    named_iff rel (entry name e es) p =
        let (i, j) = ||-iff _ _ (entry_iff rel name e p) (named_iff rel es p) in
        let both =
          has-insert_by_name p name (entry_files exists rel name e) (named_files exists rel es) in
        (λ h. i (sym both ∙ h), λ h. both ∙ j h)

  -- A path is among the files of a module exactly when it is that of a file in it whose name ends in
  -- `.go`, and neither the file nor a directory on the way to it is hidden, and no such directory is
  -- skipped or has a go.mod of its own.
  pub go_files_iff :
      (rel : Text) (es : Entries) (p : Text)
      → (has p (go_files exists rel es) ≡ true) ↔ KeptIn rel es p
  unfolding go_files
  go_files_iff rel es p = named_iff rel es p
