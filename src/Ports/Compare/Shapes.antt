-- ===== src/Ports/Compare/Shapes.antt =====
-- The names of the ports, and the shape of the register.
use ebnf.Base.{
  All, ltb-false, ◌≡◌, refl, sym, ap, subst, ◌∙◌, ◌≢◌, ◌↔◌, Bool, true, false, not, ◌||◌,
  Bool-cases, inl, inr, Option, none, some, List, [], ◌∷◌, ◌++◌, map, ltb, length, any, filter,
  flat_map, Text, text_eq, text_eq_iff, text_eq_refl, codes, has, arith,
}
use ebnf.Ports.{PortName, ts, go, rs, Port}
use ebnf.Ports.Order.{add_all, has-add_all, NoRepeats, add_all-NoRepeats}
use ebnf.Ports.Json.{Json, null, boolean, number, string, array, object, Members}
use ebnf.Ports.Fold.Laws.{is_id}
use ebnf.Ports.Compare.{
  Repo, port_of, is_present, repo_of, ports_of, Problem, names_no_repo, unless, is_named,
  name_problems, ids_in, id_problems, is_object,
}
use ebnf.Ports.Compare.Rows.{Present}
use ebnf.Ports.Compare.Spec.{IsRegisterKey}

pub append-eq-nil {ℓ} : {A : Type ℓ} (xs ys : List A) → ((xs ++ ys) ≡ []) ↔ ((xs ≡ []) × (ys ≡ []))
append-eq-nil [] ys = (λ e. (refl, e), λ h. h.1)
append-eq-nil (x ∷ xs) ys = (λ e. cc, λ h. cc (h.0))

pub unless_iff : (b : Bool) (p : Problem) → (unless b p ≡ []) ↔ (b ≡ true)
unless_iff true p = (λ e. refl, λ e. refl)
unless_iff false p = (λ e. cc, λ e. cc)

-- A loop over texts finds nothing exactly when no round does.
pub flat_map_iff {ℓ} :
    {A : Type ℓ} (f : Text → List A) (xs : List Text)
    → (flat_map f xs ≡ []) ↔ ((k : Text) → has k xs ≡ true → f k ≡ [])
unfolding has
flat_map_iff f [] = (λ e k h. cc, λ h. refl)
flat_map_iff f (x ∷ xs) =
    let split = append-eq-nil (f x) (flat_map f xs) in
    let rest = flat_map_iff f xs in
    (
      λ e k h. elim (Bool-cases (text_eq k x)) [
        | inl same ↦ subst (λ t. f t ≡ []) (sym ((text_eq_iff k x).0 same)) (split.0 e).0
        | inr other ↦ rest.0 (split.0 e).1 k (ground (arith, other))
      ],
      λ h. split.1 (h x (ground (arith, text_eq_refl x)), rest.1 (λ k m. h k (ground (arith, m)))),
    )

named_iff : (o : Option Text) → (is_named o ≡ true) ↔ (o ≢ none)
unfolding is_named
named_iff none = (λ e. cc, λ h. absurd (h refl))
named_iff (some id) = (λ e h. cc, λ h. refl)

names_iff :
    (repo : Repo) (ps : List PortName)
    → (flat_map
          (λ p. unless (is_named (repo_of (port_of repo p))) (names_no_repo p))
          (filter (λ p. is_present (port_of repo p)) ps)
        ≡ [])
      ↔ All (λ p. Present repo p → repo_of (port_of repo p) ≢ none) ps
names_iff repo [] = (λ e. tt, λ h. refl)
names_iff repo (p ∷ ps) =
    let rest = names_iff repo ps in
    let name = named_iff (repo_of (port_of repo p)) in
    let first = unless_iff (is_named (repo_of (port_of repo p))) (names_no_repo p) in
    elim (Bool-cases (is_present (port_of repo p))) [
      | inl there ↦ rw there (
        λ e.
            let split =
              (append-eq-nil (unless (is_named (repo_of (port_of repo p))) (names_no_repo p)) _).0
                e in
            (λ _. name.0 (first.0 split.0), rest.0 split.1),
        λ h. (append-eq-nil _ _).1 (first.1 (name.1 (h.0 refl)), rest.1 h.1),
      )
      | inr absent ↦ rw absent (λ e. (λ h. cc, rest.0 e), λ h. rest.1 h.1)
    ]

All-ports : (P : PortName → Type 0) → All P (ts ∷ go ∷ rs ∷ []) → (p : PortName) → P p
All-ports P h ts = h.0
All-ports P h go = h.1.0
All-ports P h rs = h.1.1.0

-- Every port that is there names a repository.
pub name_problems_iff :
    (repo : Repo)
    → (name_problems repo ≡ [])
      ↔ ((p : PortName) → Present repo p → repo_of (port_of repo p) ≢ none)
unfolding name_problems ports_of
name_problems_iff repo =
    let each = names_iff repo (ts ∷ go ∷ rs ∷ []) in
    (
      λ e. All-ports (λ p. Present repo p → repo_of (port_of repo p) ≢ none) (each.0 e),
      λ h. each.1 (h ts, (h go, (h rs, tt))),
    )

-- Each id of the list is the same.
abbrev AllSame : List Text → Type 0
AllSame ids = (i j : Text) → has i ids ≡ true → has j ids ≡ true → i ≡ j

has-single : (i x : Text) → has i (x ∷ []) ≡ true → i ≡ x
unfolding has
has-single i x h = (text_eq_iff i x).0 (ground arith)

few_iff : (ids : List Text) → NoRepeats ids → (ltb 1 (length ids) ≡ false) ↔ AllSame ids
unfolding has
few_iff [] n = (λ e i j p q. cc, λ h. refl)
few_iff (x ∷ []) n = (λ e i j p q. has-single i x p ∙ sym (has-single j x q), λ h. refl)
few_iff (x ∷ y ∷ ids) n = (
  λ e. absurd (omega (arith, ltb-false 1 (length (x ∷ y ∷ ids)) e)),
  λ h.
      let same : x ≡ y = h x y (ground (arith, text_eq_refl x)) (ground (arith, text_eq_refl y)) in
      let fresh : text_eq x y ≡ false = ground (arith, n.0) in cc (fresh, (text_eq_iff x y).1 same),
)

distinct_iff : (ids : List Text) → (ltb 1 (length (add_all [] ids)) ≡ false) ↔ AllSame ids
unfolding has
distinct_iff ids =
    let few = few_iff (add_all [] ids) (add_all-NoRepeats [] ids tt) in
    let members : (i : Text) → has i (add_all [] ids) ≡ has i ids = λ i. has-add_all i [] ids in
    (
      λ e i j p q. few.0 e i j (members i ∙ p) (members j ∙ q),
      λ h. few.1 (λ i j p q. h i j (sym (members i) ∙ p) (sym (members j) ∙ q)),
    )

absent-repo : (o : Option Port) (id : Text) → is_present o ≡ false → is_id id (repo_of o) ≡ false
unfolding is_present repo_of
absent-repo none id h = refl
absent-repo (some port) id h = cc

unnamed-repo : (o : Option Text) (id : Text) → is_named o ≡ false → is_id id o ≡ false
unfolding is_named
unnamed-repo none id h = refl
unnamed-repo (some j) id h = cc

has-ids_in_cons :
    (id : Text) (o : Option Text) (os : List (Option Text))
    → has id (ids_in (o ∷ os)) ≡ (is_id id o || has id (ids_in os))
unfolding ids_in has
has-ids_in_cons id none os = refl
has-ids_in_cons id (some j) os = refl

-- The ids of the ports that are there and named.
module _ (repo : Repo) where
  abbrev id_at : PortName → Option Text
  id_at p = repo_of (port_of repo p)

  abbrev named_ids : List PortName → List Text
  named_ids ps =
      ids_in (
        map id_at (filter (λ p. is_named (id_at p)) (filter (λ p. is_present (port_of repo p)) ps)))

  has-named_ids :
      (id : Text) (ps : List PortName) → has id (named_ids ps) ≡ any (λ p. is_id id (id_at p)) ps
  unfolding has ids_in
  has-named_ids id [] = refl
  has-named_ids id (p ∷ ps) = elim (Bool-cases (is_present (port_of repo p))) [
    | inr absent ↦ rw absent (rw (absent-repo (port_of repo p) id absent) (has-named_ids id ps))
    | inl there ↦ rw there (elim (Bool-cases (is_named (id_at p))) [
      | inr unnamed ↦ rw unnamed (rw (unnamed-repo (id_at p) id unnamed) (has-named_ids id ps))
      | inl named ↦ rw named (
          has-ids_in_cons id (id_at p) _
          ∙ ap (λ (b : Bool). is_id id (id_at p) || b) (has-named_ids id ps))
    ])
  ]

  is_id-some : (id : Text) (o : Option Text) → is_id id o ≡ true → o ≡ some id
  is_id-some id none h = cc
  is_id-some id (some j) h = ap some (sym ((text_eq_iff id j).0 h))

  any-port :
      (id : Text) (p : PortName)
      → id_at p ≡ some id
      → any (λ q. is_id id (id_at q)) (ts ∷ go ∷ rs ∷ []) ≡ true
  any-port id ts h = rw h (ground (arith, text_eq_refl id))
  any-port id go h = rw h (ground (arith, text_eq_refl id))
  any-port id rs h = rw h (ground (arith, text_eq_refl id))

  port-any :
      (id : Text)
      → any (λ q. is_id id (id_at q)) (ts ∷ go ∷ rs ∷ []) ≡ true
      → (p : PortName) × (id_at p ≡ some id)
  port-any id h = elim (Bool-cases (is_id id (id_at ts))) [
    | inl t ↦ (ts, is_id-some id (id_at ts) t)
    | inr not_ts ↦ elim (Bool-cases (is_id id (id_at go))) [
      | inl g ↦ (go, is_id-some id (id_at go) g)
      | inr not_go ↦ (rs, is_id-some id (id_at rs) (ground (arith, not_ts, not_go)))
    ]
  ]

  -- All ports that name a repository name the same one.
  pub id_problems_iff :
      (id_problems repo ≡ [])
      ↔ ((p q : PortName) (i j : Text) → id_at p ≡ some i → id_at q ≡ some j → i ≡ j)
  unfolding id_problems ports_of
  id_problems_iff =
      let ports = ts ∷ go ∷ rs ∷ [] in
      let same = distinct_iff (named_ids ports) in
      let problem = unless_iff (not (ltb 1 (length (add_all [] (named_ids ports))))) in
      (
        λ e p q i j hp hq.
            same.0 (ground (arith, (problem _).0 e)) i j (has-named_ids i ports ∙ any-port i p hp)
              (has-named_ids j ports ∙ any-port j q hq),
        λ h. (problem _).1 (
            rw
              (same.1 (λ i j hi hj.
                let (p, ep) = port-any i (sym (has-named_ids i ports) ∙ hi) in
                let (q, eq) = port-any j (sym (has-named_ids j ports) ∙ hj) in h p q i j ep eq))
              refl),
      )

pub IsRegisterKey-iff :
    (k : Text) → ((text_eq k (codes "note") || text_eq k (codes "differ")) ≡ true) ↔ IsRegisterKey k
IsRegisterKey-iff k = ground (arith, text_eq_iff k (codes "note"), text_eq_iff k (codes "differ"))

pub is_object_iff :
    (o : Option Json) → (is_object o ≡ true) ↔ ((differ : Members) × (o ≡ some (object differ)))
unfolding is_object
is_object_iff (some (object ms)) = (λ e. (ms, refl), λ h. refl)
is_object_iff none = (λ e. cc, λ h. cc (h.1))
is_object_iff (some null) = (λ e. cc, λ h. cc (h.1))
is_object_iff (some (boolean b)) = (λ e. cc, λ h. cc (h.1))
is_object_iff (some (number n)) = (λ e. cc, λ h. cc (h.1))
is_object_iff (some (string t)) = (λ e. cc, λ h. cc (h.1))
is_object_iff (some (array items)) = (λ e. cc, λ h. cc (h.1))
