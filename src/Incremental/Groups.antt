-- ===== src/Incremental/Groups.antt =====
-- Mappings, the groups that they are put into and the clusters of these, with the cache: `add_mapping` and
-- `add_cluster` of ir/ir.py and `add_cluster_for_mapping` of ir/irhttpmappinggroup.py. Mappings and groups are
-- objects that the cache, the IR and the groups share: they are kept by cache key, and the cache holds
-- references; a reference to a group that is not there, which the source cannot have, is a key error.
-- `takes` tells whether a group appends a mapping, `make_cluster` is the construction of an `IRCluster`. A
-- status is a text, the same for equal dictionaries. `referenced_by`, whose answers only diagnostics read, is
-- not modelled.
use emissary.Prelude.{
  String, Bool, true, false, not, List, [], ◌∷◌, ◌++◌, Option, none, some, Dict, lookup, insert,
  contains, if◌then◌else◌, string_eq, ◌==◌,
}
use Prim.Native.String.{◌++◌ as str_append}
use emissary.Results.{Result, ok, raised, assertion_error, key_error, ◌>>=◌}
use emissary.Cache.{Cache, Cacheable, ir_resource, add, link, get_item}
use emissary.Mapping.{get_label}
use emissary.Incremental.{text_given}

pub record MappingObject : Type 0 where
  pub name : String
  pub cache_key : String
  pub group_id : String
  pub is_http : Bool
  pub active : Bool
  pub cluster_key : Option String
  pub namespace : String
  pub metadata_labels : Dict String String
  pub wanted_status : Option String
  pub cached_status : Option String

pub record GroupObject : Type 0 where
  pub group_id : String
  pub cache_key : String
  pub mappings : List MappingObject

pub record ClusterObject : Type 0 where
  pub name : String
  pub cache_key : String

pub data Reference : Type 0 where
  mapping_ref group_ref : String → Reference
  cluster_ref : ClusterObject → Reference

-- `group_objects` are the groups by cache key, `groups` those of the IR by id; an update of a status has the
-- kind, the namespace and the new status.
pub record Ir (W : Type 0) : Type 0 where
  pub cache : Cache Reference W
  pub group_objects : Dict String GroupObject
  pub groups : Dict String String
  pub clusters : Dict String ClusterObject
  pub k8s_status_updates : Dict String (String × String × Option String)

-- `mapping.group_class().key_for_id(mapping.group_id)`
abbrev pub key_for_id : MappingObject → String
key_for_id m =
    str_append (if m.is_http then "IRHTTPMappingGroup-" else "IRTCPMappingGroup-") m.group_id

abbrev pub cached_as : String → Reference → Cacheable Reference
cached_as key ref = record { getter = ir_resource; own_key = some key; content = ref }

abbrev pub mapping_resource : MappingObject → Cacheable Reference
mapping_resource m = cached_as m.cache_key (mapping_ref m.cache_key)

abbrev pub group_resource : String → Cacheable Reference
group_resource key = cached_as key (group_ref key)

abbrev pub cluster_resource : ClusterObject → Cacheable Reference
cluster_resource k = cached_as k.cache_key (cluster_ref k)

-- `[m["_cache_key"] for m in group["mappings"]]`
pub existing_cache_keys : List MappingObject → List String
existing_cache_keys [] = []
existing_cache_keys (m ∷ ms) = m.cache_key ∷ existing_cache_keys ms

module _ (takes : GroupObject → MappingObject → Bool) where
  -- `group.add_mapping(aconf, mapping)`
  abbrev pub put : MappingObject → GroupObject → GroupObject
  put m g = if takes g m then record g { mappings = g.mappings ++ m ∷ [] } else g

  -- `group_class(ir=self, aconf=aconf, ..., mapping=mapping)`
  abbrev pub make_group : MappingObject → GroupObject
  make_group m = put m (record { group_id = m.group_id; cache_key = key_for_id m; mappings = [] })

-- `wanted == self.cached_status`
abbrev pub is_status : Option String → Option String → Bool
is_status none none = true
is_status (some s) (some t) = s == t
is_status none (some t) = false
is_status (some s) none = false

module _ {W : Type 0} where
  -- A Mapping that stems from a CRD asks for an update where its status is not what it was.
  abbrev pub check_status : MappingObject → Ir W → Ir W
  check_status m ir = elim (get_label "ambassador_crd" m.metadata_labels) [
    | none ↦ ir
    | some crd_name ↦ if is_status m.wanted_status m.cached_status then ir else record ir {
      k8s_status_updates =
          insert crd_name ("Mapping", m.namespace, m.wanted_status) ir.k8s_status_updates;
    }
  ]

  -- `cache_add(mapping)`, `cache_add(group)` and `cache_link(mapping, group)`
  unfoldable pub cache_mapping : MappingObject → String → Ir W → Result (Ir W)
  cache_mapping m key ir = do
    c₁ ← add (mapping_resource m) none ir.cache
    c₂ ← add (group_resource key) none c₁
    c₃ ← link (mapping_resource m) (group_resource key) c₂
    ok (record ir { cache = c₃ })

  -- `add_cluster`: a cluster of the same name stays.
  abbrev pub add_cluster : ClusterObject → Ir W → ClusterObject × Ir W
  add_cluster k ir = elim (lookup k.name ir.clusters) [
    | some old ↦ (old, ir)
    | none ↦ (k, record ir { clusters = insert k.name k ir.clusters })
  ]

  -- A new cluster is cached and linked to its group, and its key is saved in the mapping.
  unfoldable pub cache_cluster :
      String → MappingObject → ClusterObject → Ir W → Result (MappingObject × Ir W)
  cache_cluster group m k ir = do
    c₁ ← add (cluster_resource k) none ir.cache
    c₂ ← link (group_resource group) (cluster_resource k) c₁
    ok (record m { cluster_key = some k.cache_key }, record ir { cache = c₂ })

module _ {W : Type 0} (takes : GroupObject → MappingObject → Bool) where
  -- `self.groups[group.group_id] = group`
  abbrev pub save_group : String → Ir W → Result (String × Ir W)
  save_group key ir = elim (lookup key ir.group_objects) [
    | none ↦ raised key_error
    | some g ↦ ok (key, record ir { groups = insert g.group_id key ir.groups })
  ]

  -- The group from the cache, which is taken as it is, or a new one with the mapping
  unfoldable pub find_group : MappingObject → Ir W → Result (String × Ir W)
  find_group m ir =
      let (found, cache) = get_item (key_for_id m) ir.cache in
      elim found [
        | none ↦ save_group (key_for_id m) (record ir {
          cache = cache;
          group_objects = insert (key_for_id m) (make_group takes m) ir.group_objects;
        })
        | some r ↦ elim r.content [
          | group_ref key ↦ save_group key (record ir { cache = cache })
          | mapping_ref _ ↦ raised assertion_error
          | cluster_ref _ ↦ raised assertion_error
        ]
      ]

  -- The mapping is added unless the group has one of its key.
  unfoldable pub extend_group : String → MappingObject → Ir W → Result (String × Ir W)
  extend_group key m ir = elim (lookup key ir.group_objects) [
    | none ↦ raised key_error
    | some g ↦
        if contains (existing_cache_keys g.mappings) m.cache_key
        then ok (key, ir)
        else ok (key, record ir { group_objects = insert key (put takes m g) ir.group_objects })
  ]

  -- The key of the mapping's group
  unfoldable pub choose_group : MappingObject → Ir W → Result (String × Ir W)
  unfolding find_group extend_group
  choose_group m ir = elim (lookup m.group_id ir.groups) [
    | none ↦ find_group m ir
    | some key ↦ extend_group key m ir
  ]

  -- `add_mapping`, with the key of the group that it answers
  unfoldable pub add_mapping : MappingObject → Ir W → Result (Ir W × Option String)
  unfolding choose_group cache_mapping
  add_mapping m ir =
      let checked = check_status m ir in
      if not m.active
      then ok (checked, none)
      else do (key, ir₁) ← choose_group m checked; ir₂ ← cache_mapping m key ir₁; ok (ir₂, some key)

module _ {W : Type 0} (make_cluster : MappingObject → ClusterObject) where
  abbrev pub take_cluster :
      MappingObject
      → Ir W
      → Option (Cacheable Reference) × Cache Reference W
      → Result (ClusterObject × Ir W)
  take_cluster m ir (none, cache) = ok (make_cluster m, record ir { cache = cache })
  take_cluster m ir (some r, cache) = elim r.content [
    | cluster_ref k ↦ ok (k, record ir { cache = cache })
    | mapping_ref _ ↦ raised assertion_error
    | group_ref _ ↦ raised assertion_error
  ]

  -- A cluster of the mapping's key from the cache, or a new one; the cache counts the access.
  unfoldable pub fetch_cluster : String → MappingObject → Ir W → Result (ClusterObject × Ir W)
  fetch_cluster key m ir = take_cluster m ir (get_item key ir.cache)

  -- `add_cluster_for_mapping` of the group with the key `group`; it answers the mapping, the cluster and the IR.
  unfoldable pub add_cluster_for_mapping :
      String → MappingObject → Ir W → Result (MappingObject × ClusterObject × Ir W)
  unfolding fetch_cluster cache_cluster
  add_cluster_for_mapping group m ir = elim (text_given m.cluster_key) [
    | some key ↦ do
      (k, ir₁) ← fetch_cluster key m ir
      let (stored, ir₂) = add_cluster k ir₁
      ok (m, stored, ir₂)
    | none ↦ do
      let (stored, ir₁) = add_cluster (make_cluster m) ir
      (m', ir₂) ← cache_cluster group m stored ir₁
      ok (m', stored, ir₂)
  ]

  -- The loop of `finalize` over the mappings of the group: what the mappings are afterwards, and the clusters
  unfoldable pub add_clusters :
      String → List MappingObject → Ir W → Result (List MappingObject × List ClusterObject × Ir W)
  unfolding add_cluster_for_mapping
  add_clusters group [] ir = ok ([], [], ir)
  add_clusters group (m ∷ ms) ir = do
    (m', k, ir₁) ← add_cluster_for_mapping group m ir
    (ms', ks, ir₂) ← add_clusters group ms ir₁
    ok (m' ∷ ms', k ∷ ks, ir₂)
