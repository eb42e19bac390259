-- ===== src/Ports/Names.antt =====
-- How a port names a repository (tools/port-deps.cjs: `NAMING`, the patterns, and `idOf`).
pub mod Laws
use ebnf.Base.{
  ◌≡◌, refl, sym, ap, ◌∙◌, ◌≢◌, ◌↔◌, Bool, true, false, not, ◌&&◌, Bool-cases, inl, inr, Option,
  none, some, List, [], ◌∷◌, ◌++◌, append_assoc, ◌==◌, if◌then◌else◌, length, drop, all, Text,
  text_eq, codes, strip_prefix, strip_prefix-append, strip_prefix-eq-some, is_space, ℕ, arith, All,
  text_eq_iff,
}
use ebnf.Ports.{PortName, ts, go, rs}

-- `[^/\s]`
unfoldable pub is_id_unit : ℕ → Bool
is_id_unit c = not (c == b'/') && not (is_space c)

-- `^([^/\s]+)$`
unfoldable pub whole_id : Text → Option Text
unfolding is_id_unit
whole_id [] = none
whole_id (c ∷ cs) = if all is_id_unit (c ∷ cs) then some (c ∷ cs) else none

-- `^([^/\s]+)` takes as many units as it can.
unfoldable pub id_run : Text → Text
unfolding is_id_unit
id_run [] = []
id_run (c ∷ cs) = let more = c ∷ id_run cs in if is_id_unit c then more else []

-- `/go$`, and `/go(?:/|$)`, behind an id.
unfoldable pub is_go_end : Text → Bool
unfolding text_eq
is_go_end rest = text_eq rest (codes "/go")

unfoldable pub is_go_path : Option Text → Bool
is_go_path none = false
is_go_path (some []) = true
is_go_path (some (c ∷ _)) = c == b'/'

unfoldable pub id_before : (Text → Bool) → Text → Option Text
unfolding id_run
id_before ends rest =
    let id = id_run rest in
    if not (length id == 0) && ends (drop (length id) rest) then some id else none

-- `m[1]` of a pattern, where the text has its fixed part in front.
unfoldable pub behind : (Text → Option Text) → Option Text → Option Text
behind read none = none
behind read (some rest) = read rest

-- `NPM_RE`, `CRATE_RE`, `GO_MODULE_RE` and `GO_IMPORT_RE`, each under `idOf`.
unfoldable pub npm_id : Text → Option Text
unfolding strip_prefix behind whole_id
npm_id name = behind whole_id (strip_prefix (codes "@tabnas/") name)

unfoldable pub crate_id : Text → Option Text
unfolding strip_prefix behind whole_id
crate_id name = behind whole_id (strip_prefix (codes "tabnas-") name)

unfoldable pub go_module_id : Text → Option Text
unfolding strip_prefix behind id_before is_go_end
go_module_id name = behind (id_before is_go_end) (strip_prefix (codes "github.com/tabnas/") name)

unfoldable pub go_import_id : Text → Option Text
unfolding strip_prefix behind id_before is_go_path
go_import_id path =
    behind (id_before (λ rest. is_go_path (strip_prefix (codes "/go") rest)))
      (strip_prefix (codes "github.com/tabnas/") path)

-- `NAMING`, with an id in the place of `<id>`.
unfoldable pub naming : PortName → Text → Text
naming ts id = codes "@tabnas/" ++ id
naming go id = codes "github.com/tabnas/" ++ (id ++ codes "/go")
naming rs id = codes "tabnas-" ++ id

-- The pattern for the name of each port.
unfoldable pub id_of : PortName → Text → Option Text
unfolding npm_id go_module_id crate_id
id_of ts = npm_id
id_of go = go_module_id
id_of rs = crate_id
