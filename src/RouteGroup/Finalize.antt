-- ===== src/RouteGroup/Finalize.antt =====
-- `finalize` of python/ambassador/src/ambassador/ir/irhttpmappinggroup.py as a whole: the fields, the labels,
-- the clusters and the weights of a group. `make_cluster` and `make_shadow` are the construction of an `IRCluster`
-- for a mapping and for a shadow. What an exception leaves of the group is not modelled.
use emissary.Prelude.{
  String, Bool, true, false, List, [], ◌∷◌, ◌++◌, Option, none, some, Dict, lookup, insert, map,
  if◌then◌else◌, string_eq,
}
use emissary.Results.{Result, ok, raised, attribute_error, type_error, ◌>>=◌}
use emissary.MappingGroup.{Mapping, MappingGroup, normalize_weights}
use emissary.Incremental.Groups.{
  MappingObject, ClusterObject, Ir, add_cluster_for_mapping, add_clusters,
}
use emissary.RouteGroup.{RouteMapping}
use emissary.RouteGroup.Flatten.{Reading, Defaults, finalize_fields}
use emissary.RouteGroup.Labels.{DomainLabels, LabelDefaults, finalize_labels}

-- A mapping of the group: its fields, what the cache has of it, and its cluster
pub record Member {ℓ} (V W : Type ℓ) : Type ℓ where
  pub route : RouteMapping V W
  pub mapping : MappingObject
  pub cluster : Option ClusterObject

-- `unnormalized` is that "Could not normalize mapping weights" was posted.
pub record FinalGroup {ℓ} (V W D : Type ℓ) : Type ℓ where
  pub key : String
  pub fields : Dict String V
  pub labels : Option (DomainLabels D)
  pub label_errors : List (List String)
  pub host_redirect : Option (RouteMapping V W)
  pub shadows : List (Member V W)
  pub weights : MappingGroup (Member V W)
  pub unnormalized : Bool

module _ {ℓ} {V W : Type ℓ} where
  abbrev pub route_of : Mapping (Member V W) → RouteMapping V W
  route_of m = m.content.route

  abbrev pub mapping_of : Mapping (Member V W) → MappingObject
  mapping_of m = m.content.mapping

  -- `mapping.cluster = ...` for each mapping, with the mapping as the call left it
  unfoldable pub set_clusters :
      List MappingObject
      → List ClusterObject
      → List (Mapping (Member V W))
      → List (Mapping (Member V W))
  set_clusters (o ∷ os) (k ∷ ks) (m ∷ ms) =
      record m { content = record m.content { mapping = o; cluster = some k } }
      ∷ set_clusters os ks ms
  set_clusters [] ks ms = ms
  set_clusters (o ∷ os) [] ms = ms
  set_clusters (o ∷ os) (k ∷ ks) [] = []

  -- `[mapping.cluster for mapping in self.mappings]`
  unfoldable pub clusters_of : List (Mapping (Member V W)) → Result (List ClusterObject)
  clusters_of [] = ok []
  clusters_of (m ∷ ms) = elim m.content.cluster [
    | none ↦ raised attribute_error
    | some k ↦ do ks ← clusters_of ms; ok (k ∷ ks)
  ]

module _ {ℓ} {V H W : Type ℓ} (r : Reading V H) where
  -- `self.get("host_redirect", None)`, where it is true: the flattened field hides the redirect. A true value
  -- is `True`, in which no key can be sought.
  abbrev pub redirect_in : Option V → Option (RouteMapping V W) → Result (Option (RouteMapping V W))
  redirect_in none none = ok none
  redirect_in none (some redirect) = ok (if redirect.usable then some redirect else none)
  redirect_in (some v) redirect = if r.is_true v then raised type_error else ok none

  -- `self["case_sensitive"] = redir["case_sensitive"]`
  abbrev pub lift_case : RouteMapping V W → Dict String V → Dict String V
  lift_case redirect fields = elim (lookup "case_sensitive" redirect.fields) [
    | none ↦ fields
    | some v ↦ insert "case_sensitive" v fields
  ]

module _ {ℓ} {V W : Type ℓ} {S : Type 0} where
  -- The cluster of the first shadow
  unfoldable pub cluster_shadow :
      (MappingObject → ClusterObject)
      → String
      → List (Member V W)
      → Ir S
      → Result (List (Member V W) × Ir S)
  cluster_shadow make_shadow key [] ir = ok ([], ir)
  cluster_shadow make_shadow key (shadow ∷ others) ir = do
    (mapping, k, ir') ← add_cluster_for_mapping make_shadow key shadow.mapping ir
    ok (record shadow { mapping = mapping; cluster = some k } ∷ others, ir')

  -- The clusters of the mappings, where the weights could be normalized
  unfoldable pub answer_clusters :
      {D : Type ℓ}
      → FinalGroup V W D
      → Ir S
      → Bool × MappingGroup (Member V W)
      → Result (List ClusterObject × FinalGroup V W D × Ir S)
  unfolding clusters_of
  answer_clusters g ir (true, weights) = do
    ks ← clusters_of weights.mappings
    ok (ks, record g { weights = weights }, ir)
  answer_clusters g ir (false, weights) =
      ok ([], record g { weights = weights; unnormalized = true }, ir)

  -- The clusters and the weights of a group that does not redirect
  unfoldable pub cluster_mappings :
      {D : Type ℓ}
      → (MappingObject → ClusterObject)
      → FinalGroup V W D
      → Ir S
      → Result (List ClusterObject × FinalGroup V W D × Ir S)
  unfolding set_clusters answer_clusters
  cluster_mappings make_cluster g ir = do
    (mappings, ks, ir') ← add_clusters make_cluster g.key (map mapping_of g.weights.mappings) ir
    answer_clusters g ir' (
        normalize_weights
          (record g.weights { mappings = set_clusters mappings ks g.weights.mappings }))

module _ {ℓ} {V H W D : Type ℓ} {S : Type 0} (r : Reading V H) (greater : W → W → Bool)
    (make_shadow make_cluster : MappingObject → ClusterObject) where
  unfoldable pub finalize :
      Defaults V
      → LabelDefaults D
      → FinalGroup V W D
      → Ir S
      → Result (List ClusterObject × FinalGroup V W D × Ir S)
  unfolding finalize_fields finalize_labels cluster_shadow cluster_mappings
  finalize d ld g ir = do
    labelled ← finalize_labels ld g.labels
    let fields = finalize_fields r greater d (map route_of g.weights.mappings) g.fields
    (shadows, ir₁) ← cluster_shadow make_shadow g.key g.shadows ir
    redirect ← redirect_in r (lookup "host_redirect" fields) g.host_redirect
    let g₁ = record g {
      fields = fields;
      labels = labelled.labels;
      label_errors = g.label_errors ++ labelled.posted;
      shadows = shadows;
    }
    elim redirect [
      | some redir ↦ ok ([], record g₁ { fields = lift_case r redir fields }, ir₁)
      | none ↦ cluster_mappings make_cluster g₁ ir₁
    ]
