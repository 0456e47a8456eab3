-- ===== src/Incremental.antt =====
-- How a configuration is rebuilt from what the cache kept: `check_deltas`, `add_mapping` and `add_cluster`
-- of python/ambassador/src/ambassador/ir/ir.py, with `add_cluster_for_mapping` of
-- ir/irhttpmappinggroup.py, where the group meets the cache. The logger is not modelled.
pub mod Deltas
pub mod Invalidated
pub mod Groups
pub mod Linked
pub mod Cascade
pub mod Stale
pub mod Fresh
mod Tests
use emissary.Prelude.{
  ℕ, ◌+◌, String, Bool, true, false, not, List, [], ◌∷◌, ◌++◌, Option, none, some, nat_eqb, ◌==◌,
  ◌&&◌, ◌||◌, if◌then◌else◌, string_eq, HasEq,
}
use Prim.Native.String.{◌++◌ as str_append}
use Prim.Native.Char.{code}
use emissary.Results.{Result, ok, raised, ◌>>=◌}
use emissary.Cache.{Cache, invalidate}

-- What `check_deltas` reads of a delta; metadata that are missing have neither.
pub record Delta : Type 0 where
  pub kind : String
  pub name : Option String
  pub namespace : Option String

-- `name.split(".")[0]`
unfoldable pub first_part : String → String
first_part String.[] = ""
first_part (String.◌∷◌ c name) =
    let rest = first_part name in if nat_eqb (code c) b'.' then "" else String.◌∷◌ c rest

-- `IRBaseMapping.make_cache_key`, with its default version.
unfoldable pub make_cache_key : String → String → String → String
unfolding first_part
make_cache_key kind name namespace =
    str_append kind (str_append "-v2-" (str_append (first_part name) (str_append "-" namespace)))

-- `metadata.get(key, "")`, where it is not empty
abbrev pub text_given : Option String → Option String
text_given none = none
text_given (some t) = if t == "" then none else some t

abbrev pub is_mapping : Delta → Bool
is_mapping d = d.kind == "Mapping" || d.kind == "TCPMapping"

-- The cache key of a delta, if it has a name and a namespace.
abbrev pub delta_key : Delta → Option String
delta_key d = elim (text_given d.name) [
  | none ↦ none
  | some name ↦ elim (text_given d.namespace) [
    | none ↦ none
    | some namespace ↦ some (make_cache_key d.kind name namespace)
  ]
]

-- What a delta adds to `delta_errors` and to `to_invalidate`, from whether it is of a Mapping, and its key
abbrev pub count_delta : Bool → Option String → ℕ × List String → ℕ × List String
count_delta false key s = s
count_delta true none (errors, keys) = (errors + 1, keys)
count_delta true (some key) (errors, keys) = (errors, key ∷ keys)

-- `delta_errors` and `to_invalidate`, which is `invalidate_groups_for` too
unfoldable pub scan_deltas : List Delta → ℕ × List String
scan_deltas [] = (0, [])
scan_deltas (d ∷ ds) = count_delta (is_mapping d) (delta_key d) (scan_deltas ds)

pub data ConfigType : Type 0 where
  complete incremental : ConfigType

module _ {ℓ} {R W : Type ℓ} where
  unfoldable pub invalidate_all : List String → Cache R W → W → Result (Cache R W × W)
  invalidate_all [] c w = ok (c, w)
  invalidate_all (key ∷ keys) c w = do (c', w') ← invalidate key c w; invalidate_all keys c' w'

-- The type of the reconfiguration, whether the cache is to be reset, the keys of Mappings whose groups are to be
-- invalidated, and the cache and the world that its handlers change.
pub record Checked {ℓ} (R W : Type ℓ) : Type ℓ where
  pub config_type : ConfigType
  pub reset_cache : Bool
  pub invalidate_groups_for : List String
  pub cache : Option (Cache R W)
  pub world : W

module _ {ℓ} {R W : Type ℓ} where
  abbrev pub go_complete : List String → Option (Cache R W) → W → Checked R W
  go_complete keys cache w = record {
    config_type = complete;
    reset_cache = true;
    invalidate_groups_for = keys;
    cache = cache;
    world = w;
  }

  abbrev pub go_incremental : List String → Cache R W × W → Checked R W
  go_incremental keys (c, w) = record {
    config_type = incremental;
    reset_cache = false;
    invalidate_groups_for = keys;
    cache = some c;
    world = w;
  }

  abbrev pub by_errors : ℕ × List String → Cache R W → W → Result (Checked R W)
  by_errors (errors, []) c w = ok (go_complete [] (some c) w)
  by_errors (errors, key ∷ keys) c w =
      if not (nat_eqb errors 0)
      then ok (go_complete (key ∷ keys) (some c) w)
      else do done ← invalidate_all (key ∷ keys) c w; ok (go_incremental (key ∷ keys) done)

  unfoldable pub check_deltas : List Delta → Option (Cache R W) → W → Result (Checked R W)
  unfolding scan_deltas invalidate_all
  check_deltas deltas none w = ok (go_complete [] none w)
  check_deltas [] (some c) w = ok (go_complete [] (some c) w)
  check_deltas (d ∷ ds) (some c) w = by_errors (scan_deltas (d ∷ ds)) c w
