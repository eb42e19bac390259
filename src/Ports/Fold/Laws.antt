-- ===== src/Ports/Fold/Laws.antt =====
-- What the dependency lists of a port hold.
use ebnf.Base.{
  ◌≡◌, refl, ◌∙◌, Bool, true, false, not, ◌&&◌, ◌||◌, Bool-cases, inl, inr, Option, none, some,
  List, [], ◌∷◌, map, any, all, Text, text_eq, text_eq_iff, text_eq_refl, has, has-append,
  has-filter, arith,
}
use ebnf.Ports.{Port, Declared}
use ebnf.Ports.Order.{IsAscending, has-uniq, uniq-IsAscending}
use ebnf.Ports.Fold.{
  Ids, get, set, all_so_far, is_own, declare, declare_all, foreign, externals, dev_only,
  unless_known, dev_ids, fold,
}

abbrev pub is_id : Text → Option Text → Bool
is_id id none = false
is_id id (some j) = text_eq id j

abbrev pub is_none : Option Text → Bool
is_none none = true
is_none (some _) = false

abbrev known : Option Bool → Bool
known none = false
known (some _) = true

get-set :
    (id j : Text) (b : Bool) (ids : Ids)
    → get j (set id b ids) ≡ elim (text_eq j id) [ true ↦ some b | false ↦ get j ids ]
unfolding get set
get-set id j b [] = ground arith
get-set id j b ((k, c) ∷ ids) =
    ground (arith, text_eq_iff j id, text_eq_iff j k, text_eq_iff id k, get-set id j b ids)

has-keys :
    (id : Text) (ids : Ids) → has id (map (λ (p : Text × Bool). p.0) ids) ≡ known (get id ids)
unfolding get has
has-keys id [] = refl
has-keys id ((j, b) ∷ ids) = ground (arith, has-keys id ids)

module _ (own : Option Text) (id : Text) where
  get-declare_other :
      (j : Text) (o : Bool) (ids : Ids)
      → text_eq id j ≡ false
      → get id (declare own (some j) o ids) ≡ get id ids
  unfolding declare
  get-declare_other j o ids e = elim (Bool-cases (is_own own j)) [
    | inl mine ↦ rw mine refl
    | inr other ↦ rw other (rw (get-set j id (all_so_far (get j ids) && o) ids) (rw e refl))
  ]

  get-declare_same :
      (j : Text) (o : Bool) (ids : Ids)
      → is_own own id ≡ false
      → text_eq id j ≡ true
      → get id (declare own (some j) o ids) ≡ some (all_so_far (get id ids) && o)
  unfolding declare
  get-declare_same j o ids h e =
      let same : id ≡ j = (text_eq_iff id j).0 e in
      rw (← same)
        (rw h (rw (get-set id id (all_so_far (get id ids) && o) ids) (rw (text_eq_refl id) refl)))

  get-declare-own :
      (j : Option Text) (o : Bool) (ids : Ids)
      → is_own own id ≡ true
      → get id (declare own j o ids) ≡ get id ids
  unfolding declare
  get-declare-own none o ids h = refl
  get-declare-own (some j) o ids h = elim (Bool-cases (text_eq id j)) [
    | inl same ↦ rw (← (text_eq_iff id j).0 same) (rw h refl)
    | inr other ↦ get-declare_other j o ids other
  ]

  known-declare :
      (j : Option Text) (o : Bool) (ids : Ids)
      → is_own own id ≡ false
      → known (get id (declare own j o ids)) ≡ (known (get id ids) || is_id id j)
  unfolding declare
  known-declare none o ids h = ground arith
  known-declare (some j) o ids h = elim (Bool-cases (text_eq id j)) [
    | inl same ↦ ground (arith, get-declare_same j o ids h same)
    | inr other ↦ ground (arith, get-declare_other j o ids other)
  ]

  flag-declare :
      (j : Option Text) (o : Bool) (ids : Ids)
      → is_own own id ≡ false
      → all_so_far (get id (declare own j o ids))
        ≡ (all_so_far (get id ids) && (not (is_id id j) || o))
  unfolding declare
  flag-declare none o ids h = ground arith
  flag-declare (some j) o ids h = elim (Bool-cases (text_eq id j)) [
    | inl same ↦ ground (arith, get-declare_same j o ids h same)
    | inr other ↦ ground (arith, get-declare_other j o ids other)
  ]

  has-unless_known :
      (b : Option Bool) (j : Text) → has id (unless_known b j) ≡ (text_eq id j && not (known b))
  unfolding unless_known has
  has-unless_known none j = ground arith
  has-unless_known (some b) j = ground arith

  has-dev_only :
      (ids : Ids) (j : Option Text)
      → has id (dev_only own ids j)
        ≡ (is_id id j && (not (is_own own id) && not (known (get id ids))))
  unfolding dev_only has
  has-dev_only ids none = refl
  has-dev_only ids (some j) = elim (Bool-cases (text_eq id j)) [
    | inl same ↦
        rw (← (text_eq_iff id j).0 same)
          (ground (arith, text_eq_refl id, has-unless_known (get id ids) id))
    | inr other ↦ ground (arith, other, has-unless_known (get j ids) j)
  ]

  module _ (id_of : Text → Option Text) where
    -- The declaration is one of `id`; if it is, it is optional.
    abbrev pub declares : Declared → Bool
    declares d = is_id id (id_of d.name)

    abbrev pub optional_if_declares : Declared → Bool
    optional_if_declares d = not (is_id id (id_of d.name)) || d.optional

    known-declare_all :
        (ds : List Declared) (ids : Ids)
        → is_own own id ≡ false
        → known (get id (declare_all id_of own ds ids)) ≡ (known (get id ids) || any declares ds)
    unfolding declare_all
    known-declare_all [] ids h = ground arith
    known-declare_all (d ∷ ds) ids h =
        let next = declare own (id_of d.name) d.optional ids in
        ground (arith, known-declare_all ds next h, known-declare (id_of d.name) d.optional ids h)

    flag-declare_all :
        (ds : List Declared) (ids : Ids)
        → is_own own id ≡ false
        → all_so_far (get id (declare_all id_of own ds ids))
          ≡ (all_so_far (get id ids) && all optional_if_declares ds)
    unfolding declare_all
    flag-declare_all [] ids h = ground arith
    flag-declare_all (d ∷ ds) ids h =
        let next = declare own (id_of d.name) d.optional ids in
        ground (arith, flag-declare_all ds next h, flag-declare (id_of d.name) d.optional ids h)

    get-declare_all-own :
        (ds : List Declared) (ids : Ids)
        → is_own own id ≡ true
        → get id (declare_all id_of own ds ids) ≡ get id ids
    unfolding declare_all
    get-declare_all-own [] ids h = refl
    get-declare_all-own (d ∷ ds) ids h =
        get-declare_all-own ds (declare own (id_of d.name) d.optional ids) h
        ∙ get-declare-own (id_of d.name) d.optional ids h

    has-dev_ids :
        (ids : Ids) (names : List Text)
        → has id (dev_ids id_of own ids names) ≡ (
            any (λ n. is_id id (id_of n)) names
            && (not (is_own own id) && not (known (get id ids))))
    unfolding dev_ids has
    has-dev_ids ids [] = refl
    has-dev_ids ids (n ∷ names) = ground (
      arith,
      has-append id (dev_only own ids (id_of n)) (dev_ids id_of own ids names),
      has-dev_only ids (id_of n),
      has-dev_ids ids names,
    )

has-foreign :
    (n name : Text) (j : Option Text) → has n (foreign j name) ≡ (text_eq n name && is_none j)
unfolding foreign has
has-foreign n name none = ground arith
has-foreign n name (some j) = ground arith

module _ (id_of : Text → Option Text) where
  has-externals :
      (n : Text) (ds : List Declared)
      → has n (externals id_of ds) ≡ any (λ d. text_eq n d.name && is_none (id_of d.name)) ds
  unfolding externals has
  has-externals n [] = refl
  has-externals n (d ∷ ds) = ground (
    arith,
    has-append n (foreign (id_of d.name) d.name) (externals id_of ds),
    has-foreign n d.name (id_of d.name),
    has-externals n ds,
  )

  module _ (manifest name : Text) (own : Option Text) (runtime : List Declared)
      (dev : List Text) where
    abbrev folded : Port
    folded = fold id_of manifest name own runtime dev

    abbrev found : Ids
    found = declare_all id_of own runtime []

    has-runtime : (id : Text) → has id folded.runtime ≡ known (get id found)
    unfolding fold
    has-runtime id = has-uniq id (map (λ (p : Text × Bool). p.0) found) ∙ has-keys id found

    known-found :
        (id : Text)
        → known (get id found) ≡ (not (is_own own id) && any (declares own id id_of) runtime)
    unfolding get
    known-found id = elim (Bool-cases (is_own own id)) [
      | inl mine ↦ ground (arith, mine, get-declare_all-own own id id_of runtime [] mine)
      | inr other ↦ ground (arith, other, known-declare_all own id id_of runtime [] other)
    ]

    flag-found :
        (id : Text)
        → (known (get id found) && all_so_far (get id found))
          ≡ (known (get id found) && all (optional_if_declares own id id_of) runtime)
    unfolding get all_so_far
    flag-found id = elim (Bool-cases (is_own own id)) [
      | inl mine ↦ ground (arith, mine, known-found id)
      | inr other ↦ ground (arith, other, flag-declare_all own id id_of runtime [] other)
    ]

    -- The runtime dependencies are the repositories that a runtime declaration names, less the port's
    -- own, in ascending order; a dependency is optional exactly when every declaration of it is; the
    -- development dependencies are the repositories that only a development declaration names; and
    -- the external ones are the declared names that are no repository's.
    pub fold_lem :
        (id : Text)
        → (has id folded.runtime ≡ (not (is_own own id) && any (declares own id id_of) runtime))
          × (has id folded.optional
              ≡ (has id folded.runtime && all (optional_if_declares own id id_of) runtime))
          × (has id folded.dev ≡ (
              any (λ n. is_id id (id_of n)) dev
              && (not (is_own own id) && not (has id folded.runtime))))
          × (has id folded.external
              ≡ any (λ d. text_eq id d.name && is_none (id_of d.name)) runtime)
          × IsAscending folded.runtime
          × IsAscending folded.dev
    unfolding fold
    fold_lem id = (
      has-runtime id ∙ known-found id,
      ground (
        arith,
        has-filter id (λ (j : Text). all_so_far (get j found)) folded.runtime,
        has-runtime id,
        flag-found id,
      ),
      ground (
        arith,
        has-uniq id (dev_ids id_of own found dev),
        has-dev_ids own id id_of found dev,
        has-runtime id,
      ),
      has-uniq id (externals id_of runtime) ∙ has-externals id runtime,
      uniq-IsAscending (map (λ (p : Text × Bool). p.0) found),
      uniq-IsAscending (dev_ids id_of own found dev),
    )
