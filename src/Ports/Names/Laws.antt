-- ===== src/Ports/Names/Laws.antt =====
-- Names of repositories in the ecosystem of a port (tools/port-deps.cjs: `NAMING`, `idOf`).
use ebnf.Base.{
  ℕ, ◌≡◌, refl, sym, ap, ◌∙◌, ◌≢◌, ◌↔◌, Bool, true, false, not, ◌&&◌, &&-eq-true, Bool-cases,
  Option-cases, inl, inr, Option, some, [], ◌∷◌, ◌++◌, ◌==◌, length, drop, all, drop-length_append,
  Text, text_eq, text_eq_iff, codes, strip_prefix, strip_prefix-append, strip_prefix-eq-some,
  is_space, arith, All, subst,
}
use ebnf.Ports.{PortName, ts, go, rs}
use ebnf.Ports.Names.{
  is_id_unit, whole_id, id_run, is_go_end, id_before, behind, npm_id, crate_id, go_module_id,
  naming, id_of,
}

-- A text that can stand for `<id>`: not empty, with no `/` and no white space.
abbrev pub IsId : Text → Type 0
IsId id = (id ≢ []) × All (λ c. (c ≢ b'/') × (is_space c ≡ false)) id

unit_iff : (c : ℕ) → (is_id_unit c ≡ true) ↔ ((c ≢ b'/') × (is_space c ≡ false))
unfolding is_id_unit
unit_iff c = elim (Bool-cases (is_space c)) [
  | inl space ↦ ground (arith, space)
  | inr other ↦ ground (arith, other)
]

units_iff : (s : Text) → (all is_id_unit s ≡ true) ↔ All (λ c. (c ≢ b'/') × (is_space c ≡ false)) s
units_iff [] = (λ e. tt, λ h. refl)
units_iff (c ∷ s) =
    let split = &&-eq-true (is_id_unit c) (all is_id_unit s) in
    let unit = unit_iff c in
    let rest = units_iff s in
    (λ e. let (p, q) = split.0 e in (unit.0 p, rest.0 q), λ h. split.1 (unit.1 h.0, rest.1 h.1))

whole_id_iff : (s id : Text) → (whole_id s ≡ some id) ↔ ((s ≡ id) × IsId id)
unfolding whole_id
whole_id_iff [] id = (λ e. cc, λ h. absurd (h.1.0 (sym h.0)))
whole_id_iff (c ∷ cs) id = elim (Bool-cases (all is_id_unit (c ∷ cs))) [
  | inl good ↦ (
    λ e.
        let same : (c ∷ cs) ≡ id = cc (rw good at e) in
        (same, subst IsId same (λ x. cc, (units_iff (c ∷ cs)).0 good)),
    λ h. rw good (ap some h.0),
  )
  | inr bad ↦
      (λ e. cc (rw bad at e), λ h. cc (bad, (units_iff (c ∷ cs)).1 (subst IsId (sym h.0) h.1).1))
]

id_run-split : (s : Text) → s ≡ id_run s ++ drop (length (id_run s)) s
unfolding id_run
id_run-split [] = refl
id_run-split (c ∷ s) = elim (Bool-cases (is_id_unit c)) [
  | inl unit ↦ rw unit (ap (◌∷◌ c) (id_run-split s))
  | inr other ↦ rw other refl
]

all-id_run : (s : Text) → all is_id_unit (id_run s) ≡ true
unfolding id_run
all-id_run [] = refl
all-id_run (c ∷ s) = elim (Bool-cases (is_id_unit c)) [
  | inl unit ↦ rw unit (rw unit (all-id_run s))
  | inr other ↦ rw other refl
]

id_run-append :
    (id rest : Text) (c : ℕ)
    → all is_id_unit id ≡ true
    → is_id_unit c ≡ false
    → id_run (id ++ c ∷ rest) ≡ id
unfolding id_run
id_run-append [] rest c h e = rw e refl
id_run-append (d ∷ id) rest c h e =
    let (p, q) = (&&-eq-true (is_id_unit d) (all is_id_unit id)).0 h in
    rw p (ap (◌∷◌ d) (id_run-append id rest c q e))

nonempty-length : (s : Text) → not (length s == 0) ≡ true → s ≢ []
nonempty-length [] e h = cc
nonempty-length (c ∷ s) e h = cc

length-nonempty : (s : Text) → s ≢ [] → not (length s == 0) ≡ true
length-nonempty [] h = absurd (h refl)
length-nonempty (c ∷ s) h = ground arith

go_end : Text → Bool
go_end s = not (length (id_run s) == 0) && text_eq (drop (length (id_run s)) s) (codes "/go")

go_end-id_run : (s : Text) → go_end s ≡ true → (s ≡ id_run s ++ codes "/go") × IsId (id_run s)
unfolding go_end
go_end-id_run s e =
    let (p, q) = (&&-eq-true _ (text_eq (drop (length (id_run s)) s) (codes "/go"))).0 e in
    (
      id_run-split s ∙ ap (λ (t : Text). id_run s ++ t) ((text_eq_iff _ (codes "/go")).0 q),
      (nonempty-length (id_run s) p, (units_iff (id_run s)).0 (all-id_run s)),
    )

go_end-naming :
    (id : Text) → IsId id → (id_run (id ++ codes "/go") ≡ id) × (go_end (id ++ codes "/go") ≡ true)
unfolding go_end is_id_unit
go_end-naming id h =
    let run = id_run-append id (codes "go") b'/' ((units_iff id).1 h.1) refl in
    (
      run,
      rw run (
          (&&-eq-true _ _).1 (
            length-nonempty id h.0,
            rw (drop-length_append id (codes "/go"))
                ((text_eq_iff (codes "/go") (codes "/go")).1 refl),
          )),
    )

id_before_iff :
    (s id : Text) → (id_before is_go_end s ≡ some id) ↔ ((s ≡ id ++ codes "/go") × IsId id)
unfolding id_before is_go_end go_end
id_before_iff s id = (
  λ e. elim (Bool-cases (go_end s)) [
    | inl yes_end ↦
        let same : id_run s ≡ id = cc (rw yes_end at e) in
        subst (λ (t : Text). (s ≡ t ++ codes "/go") × IsId t) same (go_end-id_run s yes_end)
    | inr no_end ↦ cc (rw no_end at e)
  ],
  λ h.
      let (run, ends) = go_end-naming id h.1 in
      subst (λ (t : Text). id_before is_go_end t ≡ some id) (sym h.0) (rw ends (ap some run)),
)

module _ (read : Text → Option Text) (f : Text → Text)
    (exact : (r id : Text) → (read r ≡ some id) ↔ ((r ≡ f id) × IsId id)) where
  behind_iff :
      (p s id : Text) → (behind read (strip_prefix p s) ≡ some id) ↔ ((s ≡ p ++ f id) × IsId id)
  unfolding behind
  behind_iff p s id = elim (Option-cases (strip_prefix p s)) [
    | inl no_prefix ↦ (
      λ e. cc (rw no_prefix at e),
      λ h. cc (no_prefix, ap (strip_prefix p) h.0, strip_prefix-append p (f id)),
    )
    | inr (r, found) ↦ (
      λ e.
          let (same, good) = (exact r id).0 (rw found at e) in
          (strip_prefix-eq-some p s r found ∙ ap (λ (t : Text). p ++ t) same, good),
      λ h.
          let same : r ≡ f id = cc (found, ap (strip_prefix p) h.0, strip_prefix-append p (f id)) in
          rw found ((exact r id).1 (same, h.1)),
    )
  ]

-- A port's name, or that of a dependency, is read as a repository's id exactly when it is the name
-- that the port's ecosystem gives to that repository, and the id is not empty and has no `/` and no
-- white space in it.
pub id_of_iff :
    (p : PortName) (name id : Text) → (id_of p name ≡ some id) ↔ ((name ≡ naming p id) × IsId id)
unfolding id_of naming npm_id crate_id go_module_id
id_of_iff ts name id = behind_iff whole_id (λ t. t) whole_id_iff (codes "@tabnas/") name id
id_of_iff rs name id = behind_iff whole_id (λ t. t) whole_id_iff (codes "tabnas-") name id
id_of_iff go name id =
    behind_iff (id_before is_go_end) (λ t. t ++ codes "/go") id_before_iff
      (codes "github.com/tabnas/") name id
