-- ===== src/Ports/Compare/Laws.antt =====
-- When the comparison finds no problem.
use ebnf.Base.{
  ◌≡◌, refl, sym, ap, subst, ◌∙◌, ◌↔◌, Bool, true, false, ◌||◌, Bool-cases, inl, inr, Option, none,
  some, List, [], ◌∷◌, ◌++◌, map, any, flat_map, Text, text_eq, text_eq_iff, codes, has, has-append,
  arith,
}
use ebnf.Ports.{PortName, ts, go, rs}
use ebnf.Ports.Order.{sort, uniq, has-uniq, has-sort}
use ebnf.Ports.Json.{
  Json, null, boolean, number, string, array, object, Members, nothing, member, keys, lookup,
  is_list, is_filled,
}
use ebnf.Ports.Compare.{
  Repo, Row, port_text, Problem, unknown_key, note_not_string, differ_not_object, unknown_entry_key,
  other_ports, no_reason, no_repair, unless, is_string, is_object, register_problems, differ_of,
  differ_in, row_differs, have_of, is_entry_key, entry_problems, recorded_problems,
  difference_problems, compare, ids_of,
}
use ebnf.Ports.Compare.Rows.{
  needs, Agree, holders, found, have_of-found, row_differs_iff, has-ids_of, none_needs,
}
use ebnf.Ports.Compare.Spec.{IsRegisterKey, IsEntryKey, IsRegister, IsEntry, IsRecorded, Passes}
use ebnf.Ports.Compare.Shapes.{
  append-eq-nil, unless_iff, flat_map_iff, name_problems_iff, id_problems_iff, IsRegisterKey-iff,
  is_object_iff,
}

-- The keys of an object are all of those that a test accepts.
keys_iff :
    (test : Text → Bool) (P : Text → Type 0) (problem : Text → Problem) (ms : Members)
    → ((k : Text) → (test k ≡ true) ↔ P k)
    → (flat_map (λ k. unless (test k) (problem k)) (sort (keys ms)) ≡ [])
      ↔ ((k : Text) → has k (keys ms) ≡ true → P k)
keys_iff test P problem ms exact =
    let each = flat_map_iff (λ k. unless (test k) (problem k)) (sort (keys ms)) in
    (
      λ e k h.
          (exact k).0 ((unless_iff (test k) (problem k)).0 (each.0 e k (has-sort k (keys ms) ∙ h))),
      λ h. each.1 (λ k m.
          (unless_iff (test k) (problem k)).1 ((exact k).1 (h k (sym (has-sort k (keys ms)) ∙ m)))),
    )

IsRegister-iff :
    (register : Json) → (register_problems register ≡ []) ↔ IsRegister register (differ_of register)
unfolding register_problems differ_of differ_in
IsRegister-iff (object ms) =
    let known =
      keys_iff (λ k. text_eq k (codes "note") || text_eq k (codes "differ")) IsRegisterKey
        unknown_key ms IsRegisterKey-iff in
    let note = unless_iff (is_string (lookup (codes "note") ms)) note_not_string in
    let differ = unless_iff (is_object (lookup (codes "differ") ms)) differ_not_object in
    let shape = is_object_iff (lookup (codes "differ") ms) in
    (
      λ e.
          let (p, rest) = (append-eq-nil _ _).0 e in
          let (q, r) = (append-eq-nil _ _).0 rest in
          let (d, found) = shape.0 (differ.0 r) in
          record {
            members = ms;
            is_members = refl;
            register_keys = known.0 p;
            note = note.0 q;
            differ_lem = rw found refl;
          },
      λ h.
          let same : h.members ≡ ms = cc (h.is_members) in
          let has_differ =
            subst (λ m. lookup (codes "differ") m ≡ some (object _)) same h.differ_lem in
          (append-eq-nil _ _).1 (
            known.1 (
                subst (λ m. (k : Text) → has k (keys m) ≡ true → IsRegisterKey k) same
                  h.register_keys),
            (append-eq-nil _ _).1 (
              note.1 (subst (λ m. is_string (lookup (codes "note") m) ≡ true) same h.note),
              differ.1 (shape.1 (_, has_differ)),
            ),
          ),
    )
IsRegister-iff null = (λ e. cc, λ h. cc (h.is_members))
IsRegister-iff (boolean b) = (λ e. cc, λ h. cc (h.is_members))
IsRegister-iff (number n) = (λ e. cc, λ h. cc (h.is_members))
IsRegister-iff (string t) = (λ e. cc, λ h. cc (h.is_members))
IsRegister-iff (array items) = (λ e. cc, λ h. cc (h.is_members))

IsEntryKey-iff : (k : Text) → (is_entry_key k ≡ true) ↔ IsEntryKey k
unfolding is_entry_key
IsEntryKey-iff k = ground (
  arith,
  text_eq_iff k (codes "ports"),
  text_eq_iff k (codes "reason"),
  text_eq_iff k (codes "repair"),
)

IsEntry-iff :
    (id : Text) (have : List PortName) (entry : Members)
    → (entry_problems id have (object entry) ≡ []) ↔ IsEntry have entry
unfolding entry_problems
IsEntry-iff id have entry =
    let known = keys_iff is_entry_key IsEntryKey (unknown_entry_key id) entry IsEntryKey-iff in
    let recorded = lookup (codes "ports") entry in
    let ports = unless_iff (is_list recorded (map port_text have)) (other_ports id recorded have) in
    let reason = unless_iff (is_filled (lookup (codes "reason") entry)) (no_reason id) in
    let repair = unless_iff (is_filled (lookup (codes "repair") entry)) (no_repair id) in
    (
      λ e.
          let (p, rest) = (append-eq-nil _ _).0 e in
          let (q, rest2) = (append-eq-nil _ _).0 rest in
          let (r, t) = (append-eq-nil _ _).0 rest2 in
          record {
            entry_keys = known.0 p;
            ports = ports.0 q;
            reason = reason.0 r;
            repair = repair.0 t;
          },
      λ h. (append-eq-nil _ _).1 (
        known.1 h.entry_keys,
        (append-eq-nil _ _).1
            (ports.1 h.ports, (append-eq-nil _ _).1 (reason.1 h.reason, repair.1 h.repair)),
      ),
    )

-- Of the values of JSON only an object can be an entry.
entry-object :
    (id : Text) (have : List PortName) (v : Json)
    → entry_problems id have v ≡ []
    → (entry : Members) × (v ≡ object entry)
unfolding entry_problems
entry-object id have (object entry) e = (entry, refl)
entry-object id have null e = cc
entry-object id have (boolean b) e = cc
entry-object id have (number n) e = cc
entry-object id have (string t) e = cc
entry-object id have (array items) e = cc

missing_iff :
    (repo : Repo) (id : Text) (row : Option Row)
    → (recorded_problems repo id row none ≡ []) ↔ (row_differs repo row ≡ false)
unfolding recorded_problems
missing_iff repo id row = elim (Bool-cases (row_differs repo row)) [
  | inl differs ↦ rw differs (λ e. cc, λ h. cc)
  | inr same ↦ rw same (λ e. refl, λ h. refl)
]

there_iff :
    (repo : Repo) (id : Text) (row : Option Row) (v : Json)
    → (recorded_problems repo id row (some v) ≡ [])
      ↔ ((row_differs repo row ≡ true) × (entry_problems id (have_of row) v ≡ []))
unfolding recorded_problems
there_iff repo id row v = elim (Bool-cases (row_differs repo row)) [
  | inl differs ↦ rw differs (λ e. (refl, e), λ h. h.1)
  | inr same ↦ rw same (λ e. cc, λ h. cc (h.0))
]

module _ (repo : Repo) (differ : Members) (id : Text) where
  abbrev row : Option Row
  row = found repo differ id

  not-Agree : row_differs repo row ≡ true → ¬ Agree repo id
  not-Agree d a = cc (d, (row_differs_iff repo differ id).1 a)

  problems-IsRecorded :
      (o : Option Json)
      → lookup id differ ≡ o
      → recorded_problems repo id row o ≡ []
      → IsRecorded repo differ id
  problems-IsRecorded none l e =
      inl (l, (row_differs_iff repo differ id).0 ((missing_iff repo id row).0 e))
  problems-IsRecorded (some v) l e =
      let (d, none_found) = (there_iff repo id row v).0 e in
      let (entry, is_entry) = entry-object id (have_of row) v none_found in
      let clean : entry_problems id (holders repo id) (object entry) ≡ [] =
        cc (none_found, is_entry, have_of-found repo differ id) in
      inr
        (entry, l ∙ ap some is_entry, not-Agree d, (IsEntry-iff id (holders repo id) entry).0 clean)

  IsRecorded-problems :
      IsRecorded repo differ id → recorded_problems repo id row (lookup id differ) ≡ []
  IsRecorded-problems (inl (missing, agree)) =
      rw missing ((missing_iff repo id row).1 ((row_differs_iff repo differ id).1 agree))
  IsRecorded-problems (inr (entry, there, disagree, is_entry)) = rw there (
      (there_iff repo id row (object entry)).1 (
        elim (Bool-cases (row_differs repo row)) [
          | inl differs ↦ differs
          | inr same ↦ absurd (disagree ((row_differs_iff repo differ id).0 same))
        ],
        rw (have_of-found repo differ id) ((IsEntry-iff id (holders repo id) entry).1 is_entry),
      ))

  -- A round of the loop finds no problem exactly when the id is recorded as it should be.
  round_iff : (difference_problems repo differ id ≡ []) ↔ IsRecorded repo differ id
  unfolding difference_problems
  round_iff = (problems-IsRecorded (lookup id differ) refl, IsRecorded-problems)

-- A key that an object lacks.
lookup-none : (id : Text) (ms : Members) → has id (keys ms) ≡ false → lookup id ms ≡ none
unfolding has keys lookup
lookup-none id nothing h = refl
lookup-none id (member k v ms) h = ground (arith, lookup-none id ms)

-- An id outside the loop is in no port and has no entry.
outside :
    (repo : Repo) (differ : Members) (id : Text)
    → has id (uniq (ids_of repo ++ keys differ)) ≡ false
    → IsRecorded repo differ id
outside repo differ id h =
    let apart : (has id (ids_of repo) || has id (keys differ)) ≡ false =
      sym (has-append id (ids_of repo) (keys differ)) ∙ (sym (has-uniq id _) ∙ h) in
    let none_need : any (λ p. needs repo p id) (ts ∷ go ∷ rs ∷ []) ≡ false =
      sym (has-ids_of repo id) ∙ ground (arith, apart) in
    inl (
      lookup-none id differ (ground (arith, apart)),
      λ p q _ _. none_needs repo id p none_need ∙ sym (none_needs repo id q none_need),
    )

loop_iff :
    (repo : Repo) (differ : Members)
    → (flat_map (difference_problems repo differ) (uniq (ids_of repo ++ keys differ)) ≡ [])
      ↔ ((id : Text) → IsRecorded repo differ id)
loop_iff repo differ =
    let each = flat_map_iff (difference_problems repo differ) (uniq (ids_of repo ++ keys differ)) in
    (
      λ e id. elim (Bool-cases (has id (uniq (ids_of repo ++ keys differ)))) [
        | inl inside ↦ (round_iff repo differ id).0 (each.0 e id inside)
        | inr apart ↦ outside repo differ id apart
      ],
      λ h. each.1 (λ id _. (round_iff repo differ id).1 (h id)),
    )

-- The comparison finds no problem exactly when every port that is there names a repository, all the
-- same one; the register is an object of the right shape; and every dependency is either one that the
-- ports agree on and that has no entry, or one that they differ in and that has an entry with just
-- the ports that have it, a reason and a repair.
pub compare_iff :
    (repo : Repo) (register : Json)
    → ((compare repo register).problems ≡ []) ↔ Passes repo register (differ_of register)
unfolding compare
compare_iff repo register = (
  λ e.
      let (n, rest) = (append-eq-nil _ _).0 e in
      let (i, rest2) = (append-eq-nil _ _).0 rest in
      let (r, l) = (append-eq-nil _ _).0 rest2 in
      record {
        named = (name_problems_iff repo).0 n;
        one_repo = (id_problems_iff repo).0 i;
        shape = (IsRegister-iff register).0 r;
        recorded = (loop_iff repo (differ_of register)).0 l;
      },
  λ h. (append-eq-nil _ _).1 (
    (name_problems_iff repo).1 h.named,
    (append-eq-nil _ _).1 (
      (id_problems_iff repo).1 h.one_repo,
      (append-eq-nil _ _).1
          ((IsRegister-iff register).1 h.shape, (loop_iff repo (differ_of register)).1 h.recorded),
    ),
  ),
)
