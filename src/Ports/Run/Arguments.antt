-- ===== src/Ports/Run/Arguments.antt =====
-- What the arguments ask for (tools/port-deps.cjs: the loop of `main` over `argv`).
use ebnf.Base.{
  ◌≡◌, refl, sym, ap, Bool, true, false, ◌||◌, Bool-cases, inl, inr, ◌⊎◌, Option, none, some, List,
  [], ◌∷◌, ◌++◌, starts_with, Text, codes, text_eq, text_eq_iff, arith,
}
use ebnf.Ports.Run.{Asked, help, unexpected, compare_in, is_some, ask}

-- Each argument is `--json`, or the one directory that is named, which begins with no `-`.
abbrev pub Names : List Text → Option Text → Type 0
Names [] named = named ≡ none
Names (arg ∷ args) named =
    ((arg ≡ codes "--json") × Names args named)
    ⊎ ((starts_with b'-' arg ≡ false) × (named ≡ some arg) × Names args none)

-- `-h` or `--help` stands behind such arguments.
abbrev pub AsksHelp : List Text → Type 0
AsksHelp argv =
    (front : List Text) × (flag : Text) × (rest : List Text) × (named : Option Text) × (argv
      ≡ front ++ flag ∷ rest)
    × ((flag ≡ codes "-h") ⊎ (flag ≡ codes "--help"))
    × Names front named

-- The same, behind arguments that named a directory or none.
abbrev pub NamesMore : Option Text → List Text → Option Text → Type 0
NamesMore none argv named = Names argv named
NamesMore (some dir) argv named = Names argv none × (named ≡ some dir)

abbrev pub AsksMore : Option Text → List Text → Type 0
AsksMore dir argv =
    (front : List Text) × (flag : Text) × (rest : List Text) × (named : Option Text) × (argv
      ≡ front ++ flag ∷ rest)
    × ((flag ≡ codes "-h") ⊎ (flag ≡ codes "--help"))
    × NamesMore dir front named

NamesMore-json :
    (dir : Option Text) (arg : Text) (args : List Text) (named : Option Text)
    → arg ≡ codes "--json"
    → NamesMore dir args named
    → NamesMore dir (arg ∷ args) named
NamesMore-json none arg args named e h = inl (e, h)
NamesMore-json (some dir) arg args named e h = (inl (e, h.0), h.1)

NamesMore-first :
    (dir : Option Text) (arg : Text) (args : List Text) (named : Option Text)
    → is_some dir ≡ false
    → starts_with b'-' arg ≡ false
    → NamesMore (some arg) args named
    → NamesMore dir (arg ∷ args) named
unfolding is_some
NamesMore-first none arg args named n e h = inr (e, h.1, h.0)
NamesMore-first (some dir) arg args named n e h = absurd cc

-- What the arguments mean that are asked for so.
abbrev pub Meant : Option Text → List Text → Asked → Type 0
Meant dir argv help = AsksMore dir argv
Meant dir argv (unexpected arg) = Unit {0}
Meant dir argv (compare_in json named) = NamesMore dir argv named

Meant-json :
    (dir : Option Text) (arg : Text) (args : List Text) (a : Asked)
    → arg ≡ codes "--json"
    → Meant dir args a
    → Meant dir (arg ∷ args) a
Meant-json dir arg args help e (front, flag, rest, named, is, asks, names) = (
  arg ∷ front,
  flag,
  rest,
  named,
  ap (◌∷◌ arg) is,
  asks,
  NamesMore-json dir arg front named e names,
)
Meant-json dir arg args (unexpected a) e h = tt
Meant-json dir arg args (compare_in json named) e h = NamesMore-json dir arg args named e h

Meant-first :
    (dir : Option Text) (arg : Text) (args : List Text) (a : Asked)
    → is_some dir ≡ false
    → starts_with b'-' arg ≡ false
    → Meant (some arg) args a
    → Meant dir (arg ∷ args) a
Meant-first dir arg args help n e (front, flag, rest, named, is, asks, names) = (
  arg ∷ front,
  flag,
  rest,
  named,
  ap (◌∷◌ arg) is,
  asks,
  NamesMore-first dir arg front named n e names,
)
Meant-first dir arg args (unexpected a) n e h = tt
Meant-first dir arg args (compare_in json named) n e h = NamesMore-first dir arg args named n e h

NamesMore-none : (dir : Option Text) → NamesMore dir [] dir
NamesMore-none none = refl
NamesMore-none (some dir) = (refl, refl)

flag_of :
    (arg : Text)
    → text_eq arg (codes "-h") || text_eq arg (codes "--help") ≡ true
    → (arg ≡ codes "-h") ⊎ (arg ≡ codes "--help")
flag_of arg e = elim (Bool-cases (text_eq arg (codes "-h"))) [
  | inl short ↦ inl ((text_eq_iff arg (codes "-h")).0 short)
  | inr other ↦ inr ((text_eq_iff arg (codes "--help")).0 (rw other at e))
]

pub ask-Meant :
    (json : Bool) (dir : Option Text) (argv : List Text) → Meant dir argv (ask json dir argv)
unfolding ask
ask-Meant json dir [] = NamesMore-none dir
ask-Meant json dir (arg ∷ args) =
    elim (Bool-cases (text_eq arg (codes "-h") || text_eq arg (codes "--help"))) [
      | inl asks ↦ rw asks ([], arg, args, dir, refl, flag_of arg asks, NamesMore-none dir)
      | inr other ↦ elim (Bool-cases (text_eq arg (codes "--json"))) [
        | inl json_flag ↦ rw other (
            rw json_flag (
              Meant-json dir arg args (ask true dir args)
                ((text_eq_iff arg (codes "--json")).0 json_flag) (ask-Meant true dir args)))
        | inr named ↦ elim (Bool-cases (starts_with b'-' arg || is_some dir)) [
          | inl strange ↦ rw other (rw named (rw strange tt))
          | inr first ↦ rw other (
              rw named (
                rw first (
                  Meant-first dir arg args (ask json (some arg) args) (ground (arith, first))
                    (ground (arith, first)) (ask-Meant json (some arg) args))))
        ]
      ]
    ]

-- An argument that begins with no `-` is no flag.
no_flag : (arg name : Text) → starts_with b'-' arg ≡ false → text_eq arg (b'-' ∷ name) ≡ false
unfolding text_eq
no_flag [] name e = refl
no_flag (c ∷ arg) name e = rw e refl

ask-first :
    (json : Bool) (arg : Text) (args : List Text)
    → starts_with b'-' arg ≡ false
    → ask json none (arg ∷ args) ≡ ask json (some arg) args
unfolding ask is_some
ask-first json arg args e =
    rw (no_flag arg (codes "h") e)
      (rw (no_flag arg (codes "-help") e) (rw (no_flag arg (codes "-json") e) (rw e refl)))

pub Names-ask :
    (json : Bool) (dir : Option Text) (argv : List Text) (named : Option Text)
    → NamesMore dir argv named
    → (j : Bool) × (ask json dir argv ≡ compare_in j named)
unfolding ask
Names-ask json none [] named h = (json, ap (compare_in json) (sym h))
Names-ask json (some dir) [] named h = (json, ap (compare_in json) (sym h.1))
Names-ask json none (arg ∷ args) named (inl h) = rw h.0 (Names-ask true none args named h.1)
Names-ask json none (arg ∷ args) named (inr h) =
    rw (ask-first json arg args h.0) (Names-ask json (some arg) args named (h.2, h.1))
Names-ask json (some dir) (arg ∷ args) named (inl h, n) =
    rw h.0 (Names-ask true (some dir) args named (h.1, n))
Names-ask json (some dir) (arg ∷ args) named (inr h, n) = absurd (cc h.1)

help_flag :
    (json : Bool) (dir : Option Text) (flag : Text) (rest : List Text)
    → (flag ≡ codes "-h") ⊎ (flag ≡ codes "--help")
    → ask json dir (flag ∷ rest) ≡ help
unfolding ask
help_flag json dir flag rest (inl e) = rw e refl
help_flag json dir flag rest (inr e) = rw e refl

module _ (flag : Text) (rest : List Text)
    (asks : (flag ≡ codes "-h") ⊎ (flag ≡ codes "--help")) where
  pub AsksHelp-ask :
      (json : Bool) (dir : Option Text) (front : List Text) (named : Option Text)
      → NamesMore dir front named
      → ask json dir (front ++ flag ∷ rest) ≡ help
  unfolding ask
  AsksHelp-ask json dir [] named h = help_flag json dir flag rest asks
  AsksHelp-ask json none (arg ∷ args) named (inl h) = rw h.0 (AsksHelp-ask true none args named h.1)
  AsksHelp-ask json none (arg ∷ args) named (inr h) =
      rw (ask-first json arg (args ++ flag ∷ rest) h.0)
        (AsksHelp-ask json (some arg) args named (h.2, h.1))
  AsksHelp-ask json (some dir) (arg ∷ args) named (inl h, n) =
      rw h.0 (AsksHelp-ask true (some dir) args named (h.1, n))
  AsksHelp-ask json (some dir) (arg ∷ args) named (inr h, n) = absurd (cc h.1)
