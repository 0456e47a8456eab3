-- ===== src/Config.antt =====
-- The store of configuration resources of python/ambassador/src/ambassador/config/config.py.
-- `R` is what a resource holds beside its kind, name, namespace and location. Logging is not modelled.
pub mod Laws
mod Tests
use Prim.Native.String
use emissary.Prelude.{
  ℕ, zero, ◌+◌, String, Bool, true, false, List, [], ◌∷◌, ◌++◌, Option, none, some, Dict, lookup,
  insert, has_key, contains, ◌==◌, if◌then◌else◌, string_eq, HasEq,
}

pub record Resource {ℓ} (R : Type ℓ) : Type ℓ where
  pub kind : String
  pub name : String
  pub namespace : Option String
  pub location : String
  pub content : R

-- The arguments of the error that `safe_store` posts: the kind, name and location of the resource,
-- and the location of the one that is there.
pub record Redefinition : Type 0 where
  pub kind : String
  pub name : String
  pub location : String
  pub defined_at : String

pub record Config {ℓ} (R : Type ℓ) : Type ℓ where
  pub config : Dict String (Dict String (Resource R))
  pub errors : List Redefinition
  pub counters : Dict String ℕ

-- A namespace in a formatted text.
abbrev pub text_of : Option String → String
text_of none = "None"
text_of (some n) = n

abbrev pub same_namespace : Option String → Option String → Bool
same_namespace none none = true
same_namespace none (some _) = false
same_namespace (some _) none = false
same_namespace (some m) (some n) = m == n

module _ {ℓ} {R : Type ℓ} where
  abbrev pub bucket : Option (Dict String (Resource R)) → Dict String (Resource R)
  bucket none = []
  bucket (some storage) = storage

  abbrev pub redefines : Resource R → Resource R → Redefinition
  redefines r old = record {
    kind = r.kind;
    name = r.name;
    location = r.location;
    defined_at = old.location;
  }

  -- `f"{resource.name}.{resource.namespace}"`
  abbrev pub qualified : Resource R → String
  qualified r = String.◌++◌ r.name (String.◌++◌ "." (text_of r.namespace))

  -- The resource as it is stored, and the errors posted.
  unfoldable pub place : Dict String (Resource R) → Resource R → Resource R × List Redefinition
  place storage r = elim (lookup r.name storage) [
    | none ↦ (r, [])
    | some old ↦
        if same_namespace r.namespace old.namespace
        then (r, redefines r old ∷ [])
        else (record r { name = qualified r }, [])
  ]

  unfoldable pub safe_store : String → Resource R → Config R → Config R
  safe_store storage_name r c =
      let storage = bucket (lookup storage_name c.config) in
      let placed = place storage r in
      record c {
        config = insert storage_name (insert placed.0.name placed.0 storage) c.config;
        errors = c.errors ++ placed.1;
      }

  unfoldable pub save_object : Resource R → Config R → Config R
  unfolding safe_store
  save_object r c = safe_store r.kind r c

  -- The store of `handle_secret` and `handle_ingress`, under the `rkey` of the resource.
  unfoldable pub store_by_rkey : String → String → Resource R → Config R → Config R
  store_by_rkey storage_name rkey r c =
      let storage = bucket (lookup storage_name c.config) in
      record c {
        config = insert storage_name (insert rkey r storage) c.config;
        errors = elim (lookup rkey storage) [
          | none ↦ c.errors
          | some old ↦ c.errors ++ record (redefines r old) { name = rkey } ∷ []
        ];
      }

  -- The second part is `helm_chart`; a blank chart is passed over.
  unfoldable pub handle_service :
      String → Option String → Resource R → Config R × Option String → Config R × Option String
  unfolding store_by_rkey
  handle_service rkey chart r (c, helm_chart) = (
    store_by_rkey "service" rkey r c,
    elim chart [ none ↦ helm_chart | some name ↦ if name == "" then helm_chart else some name ],
  )

  unfoldable pub handle_secret : String → Resource R → Config R → Config R
  unfolding store_by_rkey
  handle_secret rkey r c = store_by_rkey "secrets" rkey r c

  unfoldable pub handle_ingress : String → Resource R → Config R → Config R
  unfolding store_by_rkey
  handle_ingress rkey r c = store_by_rkey "ingresses" rkey r c

  unfoldable pub get_config : String → Config R → Option (Dict String (Resource R))
  get_config key c = lookup key c.config

  -- An empty bucket counts as false.
  unfoldable pub get_module : String → Config R → Option (Resource R)
  unfolding get_config
  get_module module_name c = elim (get_config "modules" c) [
    | none ↦ none
    | some modules ↦ lookup module_name modules
  ]

  -- `get` is the `get` of the module's dictionary. A module is a resource and so never empty.
  unfoldable pub module_lookup {κ} :
      {X : Type κ} → (R → String → Option X) → String → String → X → Config R → X
  unfolding get_module
  module_lookup get module_name key default c = elim (get_module module_name c) [
    | none ↦ default
    | some m ↦ elim (get m.content key) [ none ↦ default | some value ↦ value ]
  ]

  unfoldable pub get_count : String → Config R → ℕ
  get_count key c = elim (lookup key c.counters) [ none ↦ 0 | some n ↦ n ]

  -- `counters` is a `defaultdict(int)`.
  unfoldable pub incr_count : String → Config R → Config R
  unfolding get_count
  incr_count key c = record c { counters = insert key (get_count key c + 1) c.counters }

-- An `ambassador_id` of a resource: a text or a list.
pub data AmbassadorId : Type 0 where
  one : String → AmbassadorId
  many : List String → AmbassadorId

abbrev id_or : Option AmbassadorId → AmbassadorId → AmbassadorId
id_or none other = other
id_or (some i) other = i

is_automatic : AmbassadorId → Bool
is_automatic (many (s ∷ [])) = s == "_automatic_"
is_automatic _ = false

-- The ids of a resource, none where the text or the list is empty.
ids_of : AmbassadorId → List String
ids_of (one s) = if s == "" then [] else s ∷ []
ids_of (many ids) = ids

-- `good_ambassador_id`, from the elements `ambassadorId` and `ambassador_id` of the resource and the
-- id of this instance. Where the source returns `None`, for an empty id, the answer is false.
unfoldable pub good_ambassador_id : Option AmbassadorId → Option AmbassadorId → String → Bool
unfolding is_automatic ids_of
good_ambassador_id camel snake own =
    let allowed = id_or camel (id_or snake (one "default")) in
    if is_automatic allowed then true else contains (ids_of allowed) own
