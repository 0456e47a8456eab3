-- ===== src/Incremental/Stale.antt =====
-- A Mapping that outlives its cluster.
use emissary.Prelude.{
  ◌+◌, String, none, some, lookup, insert, string_eq, ◌≡◌, refl, inl, inr, ap, Option-cases,
}
use emissary.Results.{ok}
use emissary.Cache.{Cache, get_item}
use emissary.Incremental.{text_given}
use emissary.Incremental.Groups.{
  MappingObject, ClusterObject, Reference, Ir, add_cluster, take_cluster, fetch_cluster,
  add_cluster_for_mapping,
}

module _ {W : Type 0} where
  get_item-missed :
      (key : String) (c : Cache Reference W)
      → lookup key c.cache ≡ none
      → get_item key c ≡ (none, record c { misses = c.misses + 1 })
  unfolding get_item
  get_item-missed key c gone = rw (get_item, gone)

  fetch_cluster-missed :
      (make_cluster : MappingObject → ClusterObject) (key : String) (m : MappingObject) (ir : Ir W)
      → lookup key ir.cache.cache ≡ none
      → fetch_cluster make_cluster key m ir
        ≡ ok
            (make_cluster m, record ir { cache = record ir.cache { misses = ir.cache.misses + 1 } })
  unfolding fetch_cluster
  fetch_cluster-missed make_cluster key m ir gone =
      ap (take_cluster make_cluster m ir) (get_item-missed key ir.cache gone)

  -- A mapping with the key of a cluster that is not in the cache gets a new cluster or that of the name in the IR,
  -- and the cache has the entries and links that it had: the cluster is neither cached nor linked.
  pub add_cluster_for_mapping-stale :
      (make_cluster : MappingObject → ClusterObject) (group : String) (m : MappingObject)
      (key : String) (ir : Ir W)
      → text_given m.cluster_key ≡ some key
      → lookup key ir.cache.cache ≡ none
      → (k : ClusterObject) × (ir' : Ir W) × (add_cluster_for_mapping make_cluster group m ir
          ≡ ok (m, k, ir'))
        × (ir'.cache.cache ≡ ir.cache.cache)
        × (ir'.cache.links ≡ ir.cache.links)
  unfolding add_cluster_for_mapping
  add_cluster_for_mapping-stale make_cluster group m key ir has gone =
      let start : Ir W = record ir { cache = record ir.cache { misses = ir.cache.misses + 1 } } in
      let missed = fetch_cluster-missed make_cluster key m ir gone in
      elim (Option-cases (lookup (make_cluster m).name ir.clusters)) [
        | inl missing ↦ (
          make_cluster m,
          record start { clusters = insert (make_cluster m).name (make_cluster m) ir.clusters },
          rw (add_cluster_for_mapping, has, missed, add_cluster, missing) refl,
          refl,
          refl,
        )
        | inr (old, found) ↦ (
          old,
          start,
          rw (add_cluster_for_mapping, has, missed, add_cluster, found) refl,
          refl,
          refl,
        )
      ]
