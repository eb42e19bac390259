-- ===== src/Ports/Compare.antt =====
-- The comparison of the ports with each other and with the register (tools/port-deps.cjs: `compare`).
-- A problem is a value with what is put into its message.
pub mod Rows
pub mod Spec
pub mod Shapes
pub mod Laws
use ebnf.Base.{
  ℕ, Bool, true, false, not, ◌&&◌, ◌||◌, Option, none, some, List, [], ◌∷◌, ◌++◌, map,
  if◌then◌else◌, ltb, ◌==◌, length, filter, find, flat_map, Text, text_eq, codes, has,
}
use ebnf.Ports.{PortName, ts, go, rs, Port}
use ebnf.Ports.Order.{add_all, sort, uniq}
use ebnf.Ports.Json.{Json, string, object, Members, nothing, keys, lookup, own, is_list, is_filled}

-- `read.ports`, with `none` for a port that the repository does not have.
pub record Repo : Type 0 where
  pub ts_port : Option Port
  pub go_port : Option Port
  pub rs_port : Option Port

unfoldable pub port_of : Repo → PortName → Option Port
port_of repo ts = repo.ts_port
port_of repo go = repo.go_port
port_of repo rs = repo.rs_port

-- The lists of a port, and its id, where it is there.
unfoldable pub is_present : Option Port → Bool
is_present none = false
is_present (some _) = true

unfoldable pub runtime_of : Option Port → List Text
runtime_of none = []
runtime_of (some port) = port.runtime

unfoldable pub optional_of : Option Port → List Text
optional_of none = []
optional_of (some port) = port.optional

unfoldable pub repo_of : Option Port → Option Text
repo_of none = none
repo_of (some port) = port.id

-- `PORTS.filter((p) => read.ports[p])`, and the same sorted by name.
unfoldable pub ports_of : Repo → List PortName
unfolding port_of is_present
ports_of repo = filter (λ p. is_present (port_of repo p)) (ts ∷ go ∷ rs ∷ [])

unfoldable pub sorted_of : Repo → List PortName
unfolding port_of is_present
sorted_of repo = filter (λ p. is_present (port_of repo p)) (go ∷ rs ∷ ts ∷ [])

abbrev pub port_text : PortName → Text
port_text ts = codes "ts"
port_text go = codes "go"
port_text rs = codes "rs"

-- Why a recorded difference is none.
pub data Why : Type 0 where
  nothing_compared in_no_port in_every_port : Why

pub data Problem : Type 0 where
  names_no_repo : PortName → Problem
  ids_disagree : List PortName → Problem
  register_not_object note_not_string differ_not_object : Problem
  unknown_key : Text → Problem
  not_recorded : Text → List PortName → List PortName → Problem
  no_difference : Text → Why → Problem
  entry_not_object : Text → List PortName → Problem
  unknown_entry_key : Text → Text → Problem
  other_ports : Text → Option Json → List PortName → Problem
  no_reason no_repair : Text → Problem

-- The problem, if there is one.
abbrev pub unless : Bool → Problem → List Problem
unless true problem = []
unless false problem = problem ∷ []

-- The names.
unfoldable pub is_named : Option Text → Bool
is_named none = false
is_named (some _) = true

unfoldable pub name_problems : Repo → List Problem
unfolding ports_of repo_of is_named
name_problems repo =
    flat_map (λ p. unless (is_named (repo_of (port_of repo p))) (names_no_repo p)) (ports_of repo)

unfoldable pub ids_in : List (Option Text) → List Text
ids_in [] = []
ids_in (none ∷ ids) = ids_in ids
ids_in (some id ∷ ids) = id ∷ ids_in ids

unfoldable pub id_problems : Repo → List Problem
unfolding ports_of repo_of is_named ids_in add_all
id_problems repo =
    let named = filter (λ p. is_named (repo_of (port_of repo p))) (ports_of repo) in
    let ids = add_all [] (ids_in (map (λ (p : PortName). repo_of (port_of repo p)) named)) in
    unless (not (ltb 1 (length ids))) (ids_disagree named)

-- The register's shape.
unfoldable pub is_string : Option Json → Bool
is_string none = true
is_string (some (string _)) = true
is_string (some _) = false

unfoldable pub is_object : Option Json → Bool
is_object (some (object _)) = true
is_object _ = false

unfoldable pub register_problems : Json → List Problem
unfolding keys sort lookup is_string is_object
register_problems (object ms) =
    flat_map (λ k. unless (text_eq k (codes "note") || text_eq k (codes "differ")) (unknown_key k))
      (sort (keys ms))
    ++ (unless (is_string (lookup (codes "note") ms)) note_not_string
        ++ unless (is_object (lookup (codes "differ") ms)) differ_not_object)
register_problems _ = register_not_object ∷ []

-- The differences that the register records; none, if its shape is wrong.
unfoldable pub differ_in : Option Json → Members
differ_in (some (object differ)) = differ
differ_in _ = nothing

unfoldable pub differ_of : Json → Members
unfolding differ_in lookup
differ_of (object ms) = differ_in (lookup (codes "differ") ms)
differ_of _ = nothing

-- A row of the table.
pub record Row : Type 0 where
  pub id : Text
  pub present : List PortName
  pub optional : List PortName
  pub registered : Bool

unfoldable pub have_of : Option Row → List PortName
have_of none = []
have_of (some row) = row.present

-- An entry of a difference.
unfoldable pub is_entry_key : Text → Bool
unfolding text_eq
is_entry_key k =
    text_eq k (codes "ports") || text_eq k (codes "reason") || text_eq k (codes "repair")

unfoldable pub entry_problems : Text → List PortName → Json → List Problem
unfolding is_entry_key keys sort lookup is_list is_filled
entry_problems id have (object entry) =
    let recorded = lookup (codes "ports") entry in
    flat_map (λ k. unless (is_entry_key k) (unknown_entry_key id k)) (sort (keys entry))
    ++ (unless (is_list recorded (map port_text have)) (other_ports id recorded have)
        ++ (unless (is_filled (lookup (codes "reason") entry)) (no_reason id)
            ++ unless (is_filled (lookup (codes "repair") entry)) (no_repair id)))
entry_problems id have _ = entry_not_object id have ∷ []

module _ (repo : Repo) where
  unfoldable pub ids_of : List Text
  unfolding ports_of runtime_of uniq
  ids_of = uniq (flat_map (λ p. runtime_of (port_of repo p)) (ports_of repo))

  -- `row.in.length !== ports.length`
  unfoldable pub is_difference : Row → Bool
  unfolding ports_of
  is_difference row = not (length row.present == length (ports_of repo))

  -- `differences.includes(row)`
  unfoldable pub row_differs : Option Row → Bool
  unfolding is_difference
  row_differs none = false
  row_differs (some row) = is_difference row

  unfoldable pub why_none : List PortName → Why
  unfolding ports_of
  why_none have =
      if ltb (length (ports_of repo)) 2
      then nothing_compared
      else if length have == 0
      then in_no_port
      else in_every_port

  -- One round of the loop, at an id that is in `differ` or is not.
  unfoldable pub recorded_problems : Text → Option Row → Option Json → List Problem
  unfolding have_of row_differs why_none entry_problems sorted_of has
  recorded_problems id row none =
      let have = have_of row in
      let lack = filter (λ p. not (has (port_text p) (map port_text have))) (sorted_of repo) in
      unless (not (row_differs row)) (not_recorded id have lack)
  recorded_problems id row (some entry) =
      if row_differs row
      then entry_problems id (have_of row) entry
      else no_difference id (why_none (have_of row)) ∷ []

  module _ (differ : Members) where
    unfoldable pub row_of : Text → Row
    unfolding sorted_of runtime_of optional_of own has
    row_of id = record {
      id = id;
      present = filter (λ p. has id (runtime_of (port_of repo p))) (sorted_of repo);
      optional =
          filter
            (λ p. has id (runtime_of (port_of repo p)) && has id (optional_of (port_of repo p)))
            (sorted_of repo);
      registered = own differ id;
    }

    unfoldable pub rows_of : List Row
    unfolding row_of ids_of
    rows_of = map row_of ids_of

    unfoldable pub difference_problems : Text → List Problem
    unfolding rows_of lookup recorded_problems text_eq
    difference_problems id =
        recorded_problems id (find (λ r. text_eq r.id id) rows_of) (lookup id differ)

-- What `compare` returns.
pub record Compared : Type 0 where
  pub ports : List PortName
  pub rows : List Row
  pub differences : List Row
  pub problems : List Problem

unfoldable pub compare : Repo → Json → Compared
unfolding ports_of name_problems id_problems register_problems differ_of ids_of rows_of
    is_difference difference_problems uniq keys
compare repo register =
    let differ = differ_of register in
    let rows = rows_of repo differ in
    record {
      ports = ports_of repo;
      rows = rows;
      differences = filter (is_difference repo) rows;
      problems =
          name_problems repo
          ++ (id_problems repo
              ++ (register_problems register
                  ++ flat_map (difference_problems repo differ)
                      (uniq (ids_of repo ++ keys differ))));
    }
