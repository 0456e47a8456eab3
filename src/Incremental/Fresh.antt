-- ===== src/Incremental/Fresh.antt =====
-- Mappings that have no cluster yet always get one.
use emissary.Prelude.{String, List, [], ◌∷◌, length, string_eq, ◌≡◌, refl, All}
use emissary.Results.{ok}
use emissary.Cache.{add, link, cache_key, read_key}
use emissary.Incremental.Groups.{
  MappingObject, ClusterObject, Ir, add_cluster, cache_cluster, add_cluster_for_mapping,
  add_clusters,
}
use emissary.Incremental.Cascade.{IsFresh}

module _ {W : Type 0} where
  cache_cluster_total :
      (group : String) (m : MappingObject) (k : ClusterObject) (ir : Ir W)
      → (m' : MappingObject) × (ir' : Ir W) × (cache_cluster group m k ir ≡ ok (m', ir'))
  unfolding cache_cluster add link cache_key read_key
  cache_cluster_total group m k ir = (_, _, refl)

  module _ (make_cluster : MappingObject → ClusterObject) (group : String) where
    pub add_cluster_for_mapping_total :
        (m : MappingObject) (ir : Ir W)
        → IsFresh m
        → (m' : MappingObject) × (k : ClusterObject) × (ir' : Ir W) × (add_cluster_for_mapping
              make_cluster group m ir
            ≡ ok (m', k, ir'))
    unfolding add_cluster_for_mapping
    add_cluster_for_mapping_total m ir fresh =
        let (stored, ir₁) = add_cluster (make_cluster m) ir in
        let (m', ir', ran) = cache_cluster_total group m stored ir₁ in
        (m', stored, ir', rw (add_cluster_for_mapping, fresh, ran))

    pub add_clusters_total :
        (ms : List MappingObject) (ir : Ir W)
        → All IsFresh ms
        → (ms' : List MappingObject) × (ks : List ClusterObject) × (ir' : Ir W) × (add_clusters
              make_cluster group ms ir
            ≡ ok (ms', ks, ir'))
          × (length ms' ≡ length ms)
          × (length ks ≡ length ms)
    unfolding add_clusters
    add_clusters_total [] ir fresh = ([], [], ir, refl, refl, refl)
    add_clusters_total (m ∷ ms) ir fresh =
        let (m', k, ir₁, one) = add_cluster_for_mapping_total m ir fresh.0 in
        let (ms', ks, ir₂, others, as_many, as_many') = add_clusters_total ms ir₁ fresh.1 in
        (m' ∷ ms', k ∷ ks, ir₂, rw (one, others), rw as_many, rw as_many')
