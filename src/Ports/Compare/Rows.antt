-- ===== src/Ports/Compare/Rows.antt =====
-- The rows of the comparison, and what makes a dependency differ (tools/port-deps.cjs: `compare`).
use ebnf.Base.{
  ◌≡◌, refl, sym, ap, ◌∙◌, ◌↔◌, Bool, true, false, ◌||◌, Bool-cases, inl, inr, Option, none, some,
  List, [], ◌∷◌, map, if◌then◌else◌, filter, find, flat_map, Text, text_eq, text_eq_iff,
  text_eq_refl, any, has, has-append, arith,
}
use ebnf.Ports.{PortName, ts, go, rs, Port}
use ebnf.Ports.Order.{has-uniq}
use ebnf.Ports.Json.{Members}
use ebnf.Ports.Compare.{
  Repo, port_of, is_present, runtime_of, ports_of, sorted_of, Row, row_of, ids_of, rows_of,
  is_difference, have_of, row_differs,
}

-- The port is there; it has the dependency.
abbrev pub Present : Repo → PortName → Type 0
Present repo p = is_present (port_of repo p) ≡ true

abbrev pub needs : Repo → PortName → Text → Bool
needs repo p id = has id (runtime_of (port_of repo p))

-- All ports that are there have the dependency, or none has it.
abbrev pub Agree : Repo → Text → Type 0
Agree repo id =
    (p q : PortName) → Present repo p → Present repo q → needs repo p id ≡ needs repo q id

-- The ports that have it, in the order of their names.
abbrev pub holders : Repo → Text → List PortName
holders repo id = filter (λ p. needs repo p id) (sorted_of repo)

find-row :
    (repo : Repo) (differ : Members) (id : Text) (ids : List Text)
    → find (λ r. text_eq r.id id) (map (row_of repo differ) ids)
      ≡ (if has id ids then some (row_of repo differ id) else none)
unfolding has row_of
find-row repo differ id [] = refl
find-row repo differ id (j ∷ ids) = elim (Bool-cases (text_eq j id)) [
  | inl same ↦ let e : j ≡ id = (text_eq_iff j id).0 same in rw e (rw (text_eq_refl id) refl)
  | inr other ↦
      let back : text_eq id j ≡ false = ground (arith, text_eq_iff id j, text_eq_iff j id) in
      rw other (rw back (find-row repo differ id ids))
]

absent-needs : (o : Option Port) (id : Text) → is_present o ≡ false → has id (runtime_of o) ≡ false
unfolding is_present runtime_of has
absent-needs none id h = refl
absent-needs (some port) id h = cc

-- A port's name is among those that are there.
needs-Present : (repo : Repo) (p : PortName) (id : Text) → needs repo p id ≡ true → Present repo p
needs-Present repo p id h = elim (Bool-cases (is_present (port_of repo p))) [
  | inl there ↦ there
  | inr absent ↦ cc (h, absent-needs (port_of repo p) id absent)
]

has-runtimes :
    (repo : Repo) (id : Text) (ps : List PortName)
    → has id
        (flat_map (λ p. runtime_of (port_of repo p)) (filter (λ p. is_present (port_of repo p)) ps))
      ≡ any (λ p. needs repo p id) ps
unfolding has
has-runtimes repo id [] = refl
has-runtimes repo id (p ∷ ps) = elim (Bool-cases (is_present (port_of repo p))) [
  | inl there ↦ rw there (
      has-append id (runtime_of (port_of repo p)) _
      ∙ ap (λ (b : Bool). needs repo p id || b) (has-runtimes repo id ps))
  | inr absent ↦ rw absent (rw (absent-needs (port_of repo p) id absent) (has-runtimes repo id ps))
]

pub has-ids_of :
    (repo : Repo) (id : Text)
    → has id (ids_of repo) ≡ any (λ p. needs repo p id) (ts ∷ go ∷ rs ∷ [])
unfolding ids_of ports_of
has-ids_of repo id =
    has-uniq id (flat_map (λ p. runtime_of (port_of repo p)) (ports_of repo))
    ∙ has-runtimes repo id (ts ∷ go ∷ rs ∷ [])

-- The row that the loop finds at an id.
abbrev pub found : Repo → Members → Text → Option Row
found repo differ id = find (λ r. text_eq r.id id) (rows_of repo differ)

Agree-row_of :
    (repo : Repo) (differ : Members) (id : Text)
    → is_difference repo (row_of repo differ id) ≡ false
    → Agree repo id
unfolding is_difference row_of ports_of sorted_of port_of
Agree-row_of repo differ id e ts ts hp hq = refl
Agree-row_of repo differ id e ts go hp hq = ground arith
Agree-row_of repo differ id e _ _ hp hq = ground arith

row_of-Agree :
    (repo : Repo) (differ : Members) (id : Text)
    → any (λ p. needs repo p id) (ts ∷ go ∷ rs ∷ []) ≡ true
    → Agree repo id
    → is_difference repo (row_of repo differ id) ≡ false
unfolding is_difference row_of ports_of sorted_of port_of
row_of-Agree repo differ id e agree = ground (
  arith,
  agree ts go,
  agree ts rs,
  agree go rs,
  needs-Present repo ts id,
  needs-Present repo go id,
  needs-Present repo rs id,
)

pub none_needs :
    (repo : Repo) (id : Text) (p : PortName)
    → any (λ q. needs repo q id) (ts ∷ go ∷ rs ∷ []) ≡ false
    → needs repo p id ≡ false
none_needs repo id ts h = ground arith
none_needs repo id go h = ground arith
none_needs repo id rs h = ground arith

found_lem :
    (repo : Repo) (differ : Members) (id : Text)
    → found repo differ id ≡ (
        if any (λ p. needs repo p id) (ts ∷ go ∷ rs ∷ [])
        then some (row_of repo differ id)
        else none)
unfolding rows_of
found_lem repo differ id =
    find-row repo differ id (ids_of repo)
    ∙ ap (λ (b : Bool). if b then some (row_of repo differ id) else none) (has-ids_of repo id)

no_holders :
    (repo : Repo) (id : Text) (ps : List PortName)
    → any (λ q. needs repo q id) (ts ∷ go ∷ rs ∷ []) ≡ false
    → filter (λ p. needs repo p id) ps ≡ []
no_holders repo id [] h = refl
no_holders repo id (p ∷ ps) h = rw (none_needs repo id p h) (no_holders repo id ps h)

-- The ports that the loop takes for an id are those that have it.
pub have_of-found :
    (repo : Repo) (differ : Members) (id : Text) → have_of (found repo differ id) ≡ holders repo id
unfolding have_of row_of
have_of-found repo differ id = elim (Bool-cases (any (λ p. needs repo p id) (ts ∷ go ∷ rs ∷ []))) [
  | inl some_needs ↦ rw (found_lem repo differ id) (rw some_needs refl)
  | inr none_need ↦
      rw (found_lem repo differ id)
        (rw none_need (sym (no_holders repo id (sorted_of repo) none_need)))
]

-- A dependency is taken to differ exactly when the ports that are there do not agree on it.
pub row_differs_iff :
    (repo : Repo) (differ : Members) (id : Text)
    → (row_differs repo (found repo differ id) ≡ false) ↔ Agree repo id
unfolding row_differs
row_differs_iff repo differ id =
    elim (Bool-cases (any (λ p. needs repo p id) (ts ∷ go ∷ rs ∷ []))) [
      | inl some_needs ↦
          let e : found repo differ id ≡ some (row_of repo differ id) =
            found_lem repo differ id ∙ rw some_needs refl in
          rw e (Agree-row_of repo differ id, row_of-Agree repo differ id some_needs)
      | inr none_need ↦
          let e : found repo differ id ≡ none = found_lem repo differ id ∙ rw none_need refl in
          rw e (
            λ h p q _ _. none_needs repo id p none_need ∙ sym (none_needs repo id q none_need),
            λ h. refl,
          )
    ]
