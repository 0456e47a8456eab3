-- ===== src/Incremental/Tests.antt =====
-- A Mapping, its group and its cluster in the cache, and the deltas that remove them.
use emissary.Prelude.{
  ℕ, String, Bool, true, false, List, [], ◌∷◌, Option, none, some, lookup, insert, erase, contains,
  All, string_eq, ◌≡◌, ◌≢◌, refl, arith, eq_iff,
}
use emissary.Results.{Result, ok, raised}
use emissary.Cache.{Cache, add, link, get_item, invalidate}
use emissary.Cache.Order.{sorted}
use emissary.Mapping.{get_label}
use emissary.Incremental.{
  Delta, make_cache_key, first_part, scan_deltas, incremental, Checked, check_deltas,
}
use emissary.Incremental.Deltas.{
  are_usable, keys_of, IsIncremental, IsComplete, check_deltas-Outcome,
}
use emissary.Incremental.Groups.{
  MappingObject, ClusterObject, GroupObject, Reference, Ir, add_mapping, add_clusters,
  cache_cluster,
}
use emissary.Incremental.Cascade.{check_deltas-cascades}

value_of {ℓ} : {A : Type ℓ} → A → Result A → A
value_of a (raised _) = a
value_of a (ok b) = b

abbrev mapping : MappingObject
mapping = record {
  name = "m";
  cache_key = "Mapping-v2-m-default";
  group_id = "1";
  is_http = true;
  active = true;
  cluster_key = none;
  namespace = "default";
  metadata_labels = ("ambassador_crd", "m.default") ∷ [];
  wanted_status = some "running";
  cached_status = none;
}

abbrev group_name : String
group_name = "IRHTTPMappingGroup-1"

abbrev cluster : ClusterObject
cluster = record { name = "c"; cache_key = "Cluster-c" }

abbrev takes_all : GroupObject → MappingObject → Bool
takes_all _ _ = true

abbrev make_cluster : MappingObject → ClusterObject
make_cluster _ = cluster

abbrev no_cache : Cache Reference ℕ
no_cache = record {
  cache = [];
  links = [];
  hits = 0;
  misses = 0;
  invalidate_calls = 0;
  invalidated_objects = 0;
}

abbrev empty : Ir ℕ
empty = record {
  cache = no_cache;
  group_objects = [];
  groups = [];
  clusters = [];
  k8s_status_updates = [];
}

-- The IR with the Mapping in its group, and that with the cluster
with_mapping : Ir ℕ × Option String
unfolding value_of add_mapping add link get_item lookup insert get_label
with_mapping = value_of (empty, none) (add_mapping takes_all mapping empty)

with_cluster : List MappingObject × List ClusterObject × Ir ℕ
unfolding value_of with_mapping add_clusters cache_cluster add link lookup insert
with_cluster =
    value_of ([], [], empty) (add_clusters make_cluster group_name (mapping ∷ []) with_mapping.0)

abbrev built : Cache Reference ℕ
built = with_cluster.2.cache

cleaned : Cache Reference ℕ × ℕ
unfolding value_of with_cluster invalidate lookup erase sorted
cleaned = value_of (no_cache, 0) (invalidate mapping.cache_key built 0)

-- Everything is gone, although only the Mapping is named.
cleaned-empty : cleaned.0.cache ≡ []
unfolding cleaned with_cluster with_mapping
cleaned-empty = refl

-- The new status of the Mapping is to be written to its CRD.
asked_update :
    with_mapping.0.k8s_status_updates ≡ ("m.default", ("Mapping", "default", some "running")) ∷ []
unfolding with_mapping value_of
asked_update = refl

named_key : mapping.cache_key ≢ ""
named_key e = ground (arith, eq_iff mapping.cache_key "")

named_group : group_name ≢ ""
named_group e = ground (arith, eq_iff group_name "")

named_cluster : cluster.cache_key ≢ ""
named_cluster e = ground (arith, eq_iff cluster.cache_key "")

abbrev changed : List Delta
changed =
    record { kind = "Mapping"; name = some "m.default"; namespace = some "default" }
    ∷ record { kind = "Service"; name = none; namespace = none }
    ∷ []

changed-kept : (scan_deltas changed).1 ≡ mapping.cache_key ∷ []
unfolding scan_deltas make_cache_key first_part
changed-kept = refl

changed-gone : are_usable changed ≡ true
changed-gone = refl

check_deltas-Outcome_example :
    (r : Checked Reference ℕ) × (check_deltas changed (some built) 0 ≡ ok r)
    × (are_usable changed ≡ true → IsIncremental changed built r)
    × (are_usable changed ≡ false → IsComplete built 0 r)
check_deltas-Outcome_example = check_deltas-Outcome changed built 0

changed_key : contains (keys_of changed) mapping.cache_key ≡ true
unfolding keys_of make_cache_key first_part
changed_key = refl

check_deltas-cascades_example :
    (r : Checked Reference ℕ) × (left : Cache Reference ℕ) × (check_deltas changed (some built) 0
      ≡ ok r)
    × (r.config_type ≡ incremental)
    × (r.cache ≡ some left)
    × (lookup mapping.cache_key left.cache ≡ none)
    × (lookup group_name left.cache ≡ none)
    × All (λ k. lookup k.cache_key left.cache ≡ none) with_cluster.1
unfolding with_cluster with_mapping value_of
check_deltas-cascades_example =
    check_deltas-cascades takes_all make_cluster mapping group_name (mapping ∷ []) with_cluster.0
      with_cluster.1 empty with_mapping.0 with_cluster.2 changed 0 (λ _. named_cluster) named_key
      named_group (refl, tt) tt refl refl changed-gone changed_key
