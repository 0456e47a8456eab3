-- ===== src/RouteGroup/FinalizeTests.antt =====
-- A group of two mappings, one of them with a weight, that is finalized for the first time.
use emissary.Prelude.{
  ℕ, String, true, false, List, [], ◌∷◌, none, some, lookup, insert, string_eq, ◌≡◌, ◌≢◌, refl,
  arith, eq_iff,
}
use emissary.Results.{Result, ok, raised}
use emissary.MappingGroup.{Mapping}
use emissary.MappingGroup.Reference.{all_ok, total_weight}
use emissary.Incremental.Groups.{MappingObject, ClusterObject, Ir, group_resource}
use emissary.RouteGroup.Flatten.{is_flattened, finalize_fields}
use emissary.RouteGroup.Finalize.{Member, FinalGroup, cluster_shadow, finalize}
use emissary.RouteGroup.Finalized.{or_slash}
use emissary.RouteGroup.Lifted.{redirect_from, or_lifted, heaviest_field, finalize-heaviest}
use emissary.RouteGroup.Labels.{finalize_labels}
use emissary.RouteGroup.Answered.{can_normalize, IsAnswered, finalize-IsAnswered}
use emissary.RouteGroup.FinalTests.{
  Value, text, reading, above, above-IsOrder, weighing, heavy, light, module_defaults, prefixed,
  labels,
}

abbrev named : String → MappingObject
named key = record {
  name = key;
  cache_key = key;
  group_id = "1";
  is_http = true;
  active = true;
  cluster_key = none;
  namespace = "default";
  metadata_labels = [];
  wanted_status = none;
  cached_status = none;
}

abbrev members : List (Mapping (Member Value ℕ))
members =
    record {
      name = "heavy";
      weight = some 30;
      calculated = 0;
      content = record { route = heavy; mapping = named "m-heavy"; cluster = none };
    }
    ∷ record {
      name = "light";
      weight = none;
      calculated = 0;
      content = record { route = light; mapping = named "m-light"; cluster = none };
    }
    ∷ []

abbrev group : FinalGroup Value ℕ String
group = record {
  key = "group";
  fields = [];
  labels = some (("ambassador", labels) ∷ []);
  label_errors = [];
  host_redirect = none;
  shadows = record { route = light; mapping = named "m-shadow"; cluster = none } ∷ [];
  weights = record { mappings = members; errors = [] };
  unnormalized = false;
}

abbrev start : Ir ℕ
start = record {
  cache = record {
    cache = ("group", record { rsrc = group_resource "group"; on_delete = none }) ∷ [];
    links = [];
    hits = 0;
    misses = 0;
    invalidate_calls = 0;
    invalidated_objects = 0;
  };
  group_objects = [];
  groups = [];
  clusters = [];
  k8s_status_updates = [];
}

-- Each mapping has a cluster of its own.
abbrev make_cluster : MappingObject → ClusterObject
make_cluster m = record { name = m.name; cache_key = "cluster" }

cluster_named : (m : MappingObject) → (make_cluster m).cache_key ≢ ""
cluster_named m e = ground (arith, eq_iff "cluster" "")

group_named : group.key ≢ ""
group_named e = ground (arith, eq_iff "group" "")

group_normal : can_normalize group ≡ true
unfolding all_ok total_weight
group_normal = refl

finalize-IsAnswered_example :
    (ks : List ClusterObject) × (g' : FinalGroup Value ℕ String) × (ir' : Ir ℕ) × (finalize reading
        above make_cluster make_cluster module_defaults prefixed group start
      ≡ ok (ks, g', ir'))
    × IsAnswered group ks g' ir'
unfolding lookup insert finalize_fields is_flattened
finalize-IsAnswered_example =
    finalize-IsAnswered reading above make_cluster make_cluster module_defaults prefixed group start
      cluster_named cluster_named group_named refl (refl, tt) (refl, (refl, tt)) tt refl refl

-- The redirect of a group with no mappings, which says that cases do not matter
abbrev redirecting : FinalGroup Value ℕ String
redirecting = record group {
  fields = ("case_sensitive", text "true") ∷ [];
  host_redirect = some (weighing 3 (("case_sensitive", text "false") ∷ []));
  shadows = [];
  weights = record { mappings = []; errors = [] };
}

value_of {ℓ} : {A : Type ℓ} → A → Result A → A
value_of a (raised _) = a
value_of a (ok b) = b

redirected : List ClusterObject × FinalGroup Value ℕ String × Ir ℕ
unfolding value_of finalize lookup insert finalize_fields finalize_labels is_flattened
    cluster_shadow
redirected =
    value_of ([], redirecting, start)
      (finalize reading above make_cluster make_cluster module_defaults prefixed redirecting start)

-- The redirect wins over the group.
redirected_case : lookup "case_sensitive" redirected.1.fields ≡ some (text "false")
unfolding redirected value_of
redirected_case = refl

case_flattened : is_flattened "case_sensitive" ≡ true
unfolding is_flattened
case_flattened = refl

finalize-heaviest_example :
    lookup "case_sensitive" redirected.1.fields
    ≡ or_lifted "case_sensitive"
        (redirect_from (heaviest_field above "host_redirect" redirecting) redirecting.host_redirect)
        (or_slash reading "case_sensitive" (heaviest_field above "case_sensitive" redirecting))
unfolding redirected value_of
finalize-heaviest_example =
    finalize-heaviest reading above above-IsOrder make_cluster make_cluster module_defaults prefixed
      "case_sensitive" redirecting redirected.1 start redirected.2 redirected.0 case_flattened
      (λ e. ground (arith, eq_iff "case_sensitive" "metadata_labels")) refl refl
