-- ===== src/Ports/Run/Laws.antt =====
-- What the exit code of the program says.
use ebnf.Base.{
  ℕ, ◌≡◌, refl, ap, ◌∙◌, ◌↔◌, Bool, true, false, Bool-cases, inl, inr, ◌⊎◌, Option, none, some,
  List, [], ◌∷◌, if◌then◌else◌, Text, arith,
}
use ebnf.Ports.Fault.{Read, read, unreadable}
use ebnf.Ports.Json.{Json}
use ebnf.Ports.Compare.{Repo, Problem, Compared, compare, differ_of}
use ebnf.Ports.Compare.Spec.{Passes}
use ebnf.Ports.Compare.Laws.{compare_iff}
use ebnf.Ports.Run.Arguments.{Names, AsksHelp, Meant, ask-Meant, Names-ask, AsksHelp-ask}
use ebnf.Ports.Run.Readings.{
  IsRepo, IsRegister, read-inj, >>=-eq-read, read_repo_iff, read_register_iff,
}
use ebnf.Ports.Run.{
  no_directory, Outside, read_repo, read_register, check, Asked, help, unexpected, compare_in, ask,
  is_ok, exit_of, directory_of, perform, main,
}

-- Every manifest that is there is read, the register is read, and what they say passes.
abbrev pub InOrder : Outside → Type 0
InOrder o =
    (repo : Repo) × (register : Json) × IsRepo o repo
    × IsRegister o register
    × Passes repo register (differ_of register)

is_ok_iff : (problems : List Problem) → (is_ok problems ≡ true) ↔ (problems ≡ [])
unfolding is_ok
is_ok_iff [] = (λ _. refl, λ _. refl)
is_ok_iff (p ∷ ps) = (λ e. cc, λ e. cc)

code_iff : (b : Bool) → (◌≡◌ {A = ℕ} (if b then 0 else 1) 0) ↔ (b ≡ true)
code_iff true = (λ _. refl, λ _. refl)
code_iff false = (λ e. absurd (omega (arith, e)), λ e. absurd cc)

-- The outcome is 0 when the comparison was made and found no problem.
exit_of-0_iff :
    (json : Bool) (r : Read Compared)
    → ((exit_of json r).code ≡ 0) ↔ ((out : Compared) × (r ≡ read out) × (out.problems ≡ []))
unfolding exit_of
exit_of-0_iff json (unreadable u) = (λ e. absurd (omega (arith, e)), λ h. absurd cc)
exit_of-0_iff json (read out) = (
  λ e. (out, refl, (is_ok_iff out.problems).0 ((code_iff (is_ok out.problems)).0 e)),
  λ h.
      (code_iff (is_ok out.problems)).1
        ((is_ok_iff out.problems).1 (ap (λ (c : Compared). c.problems) (read-inj h.1) ∙ h.2)),
)

check-InOrder : (o : Outside) (out : Compared) → check o ≡ read out → out.problems ≡ [] → InOrder o
unfolding check
check-InOrder o out e none_found =
    let (repo, a, e1) = >>=-eq-read (read_repo o) _ out e in
    let (register, b, e2) = >>=-eq-read (read_register o) _ out e1 in
    (
      repo,
      register,
      (read_repo_iff o repo).0 a,
      (read_register_iff o register).0 b,
      (compare_iff repo register).0 (ap (λ (c : Compared). c.problems) (read-inj e2) ∙ none_found),
    )

InOrder-check :
    (o : Outside) → InOrder o → (out : Compared) × (check o ≡ read out) × (out.problems ≡ [])
unfolding check
InOrder-check o (repo, register, a, b, passes) = (
  compare repo register,
  rw ((read_repo_iff o repo).1 a) (rw ((read_register_iff o register).1 b) refl),
  (compare_iff repo register).1 passes,
)

-- The directory that is named, or the one above the program's own, is there and in order.
module _ (here : Text) (is_directory : Text → Bool) (outside : Text → Outside) where
  abbrev pub IsFine : Option Text → Type 0
  IsFine none = (is_directory here ≡ true) × InOrder (outside here)
  IsFine (some dir) = (is_directory dir ≡ true) × InOrder (outside dir)

  compare_in_root_iff :
      (json : Bool) (root : Text)
      → ((if is_directory root
            then exit_of json (check (outside root))
            else record { code = 2; written = no_directory root }).code
          ≡ 0)
        ↔ ((is_directory root ≡ true) × InOrder (outside root))
  compare_in_root_iff json root = elim (Bool-cases (is_directory root)) [
    | inl there ↦ rw there (
      λ e.
          let (out, r, p) = (exit_of-0_iff json (check (outside root))).0 e in
          (refl, check-InOrder (outside root) out r p),
      λ h. (exit_of-0_iff json (check (outside root))).1 (InOrder-check (outside root) h.1),
    )
    | inr gone ↦ rw gone (λ e. absurd (omega (arith, e)), λ h. absurd cc)
  ]

  help_code : (perform here is_directory outside help).code ≡ 0
  unfolding perform
  help_code = refl

  compare_in-0_iff :
      (json : Bool) (named : Option Text)
      → ((perform here is_directory outside (compare_in json named)).code ≡ 0) ↔ IsFine named
  unfolding perform directory_of
  compare_in-0_iff json none = compare_in_root_iff json here
  compare_in-0_iff json (some dir) = compare_in_root_iff json dir

  perform_sound :
      (argv : List Text) (a : Asked)
      → Meant none argv a
      → (perform here is_directory outside a).code ≡ 0
      → AsksHelp argv ⊎ ((named : Option Text) × Names argv named × IsFine named)
  unfolding perform
  perform_sound argv help m e = inl m
  perform_sound argv (unexpected arg) m e = absurd (omega (arith, e))
  perform_sound argv (compare_in json named) m e = inr (named, m, (compare_in-0_iff json named).0 e)

  -- The program exits with 0 exactly when its arguments ask for help (`-h` or `--help`, behind any
  -- `--json` and at most one operand), or are any `--json` and at most one operand, which begins with no
  -- `-`, where the directory that the operand names, or the one above the program's own, is there and
  -- in order: of each of the three ports the manifest is not there or its reader reads the port; the
  -- register is parsed, or its file is not there and it counts as empty; and they pass the comparison.
  pub main-0_iff :
      (argv : List Text)
      → ((main here is_directory outside argv).code ≡ 0)
        ↔ (AsksHelp argv ⊎ ((named : Option Text) × Names argv named × IsFine named))
  unfolding main
  main-0_iff argv = (
    λ e. perform_sound argv (ask false none argv) (ask-Meant false none argv) e,
    λ h. elim h [
      | inl (front, flag, rest, named, is, asks, names) ↦
          rw is (rw (AsksHelp-ask flag rest asks false none front named names) help_code)
      | inr (named, names, fine) ↦
          let (json, is) = Names-ask false none argv named names in
          rw is ((compare_in-0_iff json named).1 fine)
    ],
  )
