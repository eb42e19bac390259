-- ===== src/Ports/Fold.antt =====
-- The dependency lists of a port (tools/port-deps.cjs: `fold`).
pub mod Laws
use ebnf.Base.{
  ◌≡◌, refl, ◌↔◌, Bool, true, false, not, ◌&&◌, Option, none, some, List, [], ◌∷◌, ◌++◌, map,
  if◌then◌else◌, filter, Text, text_eq, has,
}
use ebnf.Ports.{Port, Declared}
use ebnf.Ports.Order.{uniq}

-- The `Map` from an id to whether every declaration of it so far is optional.
abbrev pub Ids : Type 0
Ids = List (Text × Bool)

-- `ids.get(id)`
unfoldable pub get : Text → Ids → Option Bool
unfolding text_eq
get id [] = none
get id ((j, b) ∷ ids) = if text_eq id j then some b else get id ids

-- `ids.set(id, flag)`
unfoldable pub set : Text → Bool → Ids → Ids
unfolding text_eq
set id flag [] = (id, flag) ∷ []
set id flag ((j, b) ∷ ids) = if text_eq id j then (j, flag) ∷ ids else (j, b) ∷ set id flag ids

-- `ids.has(id) ? ids.get(id) : true`
unfoldable pub all_so_far : Option Bool → Bool
all_so_far none = true
all_so_far (some b) = b

-- `id === port.id`
unfoldable pub is_own : Option Text → Text → Bool
unfolding text_eq
is_own none id = false
is_own (some own) id = text_eq id own

-- What one declaration adds to the map, if it has an id.
unfoldable pub declare : Option Text → Option Text → Bool → Ids → Ids
unfolding is_own set get all_so_far
declare own none optional ids = ids
declare own (some id) optional ids =
    if is_own own id then ids else set id (all_so_far (get id ids) && optional) ids

-- A name that is no repository's.
unfoldable pub foreign : Option Text → Text → List Text
foreign none name = name ∷ []
foreign (some id) name = []

-- `!ids.has(id)`, for the id of a development dependency.
unfoldable pub unless_known : Option Bool → Text → List Text
unless_known none id = id ∷ []
unless_known (some _) id = []

unfoldable pub dev_only : Option Text → Ids → Option Text → List Text
unfolding is_own get unless_known
dev_only own ids none = []
dev_only own ids (some id) = if is_own own id then [] else unless_known (get id ids) id

module _ (id_of : Text → Option Text) where
  unfoldable pub declare_all : Option Text → List Declared → Ids → Ids
  unfolding declare
  declare_all own [] ids = ids
  declare_all own (d ∷ ds) ids = declare_all own ds (declare own (id_of d.name) d.optional ids)

  unfoldable pub externals : List Declared → List Text
  unfolding foreign
  externals [] = []
  externals (d ∷ ds) = foreign (id_of d.name) d.name ++ externals ds

  unfoldable pub dev_ids : Option Text → Ids → List Text → List Text
  unfolding dev_only
  dev_ids own ids [] = []
  dev_ids own ids (name ∷ names) = dev_only own ids (id_of name) ++ dev_ids own ids names

  unfoldable pub fold : Text → Text → Option Text → List Declared → List Text → Port
  unfolding declare_all externals dev_ids all_so_far get uniq
  fold manifest name own runtime dev =
      let ids = declare_all own runtime [] in
      let names = uniq (map (λ (p : Text × Bool). p.0) ids) in
      record {
        manifest = manifest;
        name = name;
        id = own;
        runtime = names;
        optional = filter (λ id. all_so_far (get id ids)) names;
        dev = uniq (dev_ids own ids dev);
        external = uniq (externals runtime);
      }
