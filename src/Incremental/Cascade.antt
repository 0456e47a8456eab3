-- ===== src/Incremental/Cascade.antt =====
-- A delta of a Mapping takes its group and the clusters of the group with it.
use emissary.Prelude.{
  String, Bool, true, List, [], ◌∷◌, none, lookup, has_key, contains, Holds, Holds-insert,
  Holds-lookup, All, All-imp, some, string_eq, ◌≡◌, ◌≢◌, refl, inl, inr, sym, Option-cases,
}
use mathlib.Core.Path.{subst}
use emissary.Results.{ok, >>=-eq-ok}
use emissary.Cache.{Cache, add, link, linked}
use emissary.Cache.Owned.{Owned, step, Owned-IsCached}
use emissary.Incremental.{text_given, Delta, incremental, Checked, check_deltas}
use emissary.Incremental.Deltas.{are_usable, keys_of, check_deltas-Outcome}
use emissary.Incremental.Groups.{
  MappingObject, GroupObject, ClusterObject, Reference, Ir, group_resource, cluster_resource,
  add_cluster, cache_cluster, add_cluster_for_mapping, add_clusters, add_mapping,
}
use emissary.Incremental.Linked.{
  ok-eq, Grows, Grows-trans, Owned-Grows, add-Grows, link-Grows, add_mapping-Owned,
}

abbrev pub IsNamed : ClusterObject → Type 0
IsNamed k = k.cache_key ≢ ""

-- The mapping has no cluster yet.
abbrev pub IsFresh : MappingObject → Type 0
IsFresh m = text_given m.cluster_key ≡ none

module _ {W : Type 0} where
  -- A cluster is cached and linked to its group.
  abbrev pub IsLinked : String → Cache Reference W → ClusterObject → Type 0
  IsLinked group c k =
      (contains (linked c group) k.cache_key ≡ true) × (has_key k.cache_key c.cache ≡ true)

  IsLinked-Grows :
      (group : String) (c c' : Cache Reference W) (ks : List ClusterObject)
      → Grows c c'
      → All (IsLinked group c) ks
      → All (IsLinked group c') ks
  IsLinked-Grows group c c' [] g h = tt
  IsLinked-Grows group c c' (k ∷ ks) g h = (
    (g.links group k.cache_key h.0.0, g.cached k.cache_key h.0.1),
    IsLinked-Grows group c c' ks g h.1,
  )

  abbrev pub AllNamed : Ir W → Type 0
  AllNamed ir = Holds (λ _ k. IsNamed k) ir.clusters

  add_cluster-AllNamed :
      (k : ClusterObject) (ir : Ir W)
      → IsNamed k
      → AllNamed ir
      → IsNamed (add_cluster k ir).0
        × AllNamed (add_cluster k ir).1
        × ((add_cluster k ir).1.cache ≡ ir.cache)
  add_cluster-AllNamed k ir named all = elim (Option-cases (lookup k.name ir.clusters)) [
    | inl missing ↦
        rw (add_cluster, missing)
          (named, Holds-insert (λ _ j. IsNamed j) k.name k ir.clusters named all, refl)
    | inr (old, found) ↦
        rw (add_cluster, found)
          (Holds-lookup (λ _ j. IsNamed j) k.name old ir.clusters all found, all, refl)
  ]

  cache_cluster-IsLinked :
      (group : String) (m m' : MappingObject) (k : ClusterObject) (ir ir' : Ir W)
      → group ≢ ""
      → IsNamed k
      → has_key group ir.cache.cache ≡ true
      → cache_cluster group m k ir ≡ ok (m', ir')
      → Grows ir.cache ir'.cache × IsLinked group ir'.cache k × (ir'.clusters ≡ ir.clusters)
  unfolding cache_cluster
  cache_cluster-IsLinked group m m' k ir ir' named_group named there ran =
      let (c₁, one, more) = >>=-eq-ok (add (cluster_resource k) none ir.cache) _ ran in
      let (c₂, two, done) =
        >>=-eq-ok (link (group_resource group) (cluster_resource k) c₁) _ more in
      let (g₁, here₁) = add-Grows k.cache_key _ ir.cache c₁ named one in
      let (g₂, linked₂) =
        link-Grows group k.cache_key _ _ c₁ c₂ named_group named (g₁.cached group there) here₁
          two in
      let pair : (record m { cluster_key = some k.cache_key }, record ir { cache = c₂ })
          ≡ (m', ir') =
        ok-eq done in
      subst
        (λ (x : MappingObject × Ir W).
          Grows ir.cache x.1.cache × IsLinked group x.1.cache k × (x.1.clusters ≡ ir.clusters))
        pair (Grows-trans g₁ g₂, (linked₂, g₂.cached k.cache_key here₁), refl)

  module _ (make_cluster : MappingObject → ClusterObject)
      (made_named : (m : MappingObject) → IsNamed (make_cluster m)) (group : String)
      (named_group : group ≢ "") where
    pub add_cluster_for_mapping-IsLinked :
        (m m' : MappingObject) (k : ClusterObject) (ir ir' : Ir W)
        → IsFresh m
        → AllNamed ir
        → has_key group ir.cache.cache ≡ true
        → add_cluster_for_mapping make_cluster group m ir ≡ ok (m', k, ir')
        → Grows ir.cache ir'.cache × IsLinked group ir'.cache k × AllNamed ir'
    unfolding add_cluster_for_mapping
    add_cluster_for_mapping-IsLinked m m' k ir ir' fresh all there ran =
        let (stored, ir₁) = add_cluster (make_cluster m) ir in
        let (named, all₁, same) = add_cluster-AllNamed (make_cluster m) ir (made_named m) all in
        let ((m₂, ir₂), cached, done) =
          >>=-eq-ok (cache_cluster group m stored ir₁) _
            (rw (fresh, add_cluster_for_mapping) at ran) in
        let there₁ : has_key group ir₁.cache.cache ≡ true =
          subst (λ (c : Cache Reference W). has_key group c.cache ≡ true) (sym same) there in
        let (g, linked', clusters) =
          cache_cluster-IsLinked group m m₂ stored ir₁ ir₂ named_group named there₁ cached in
        let triple : (m₂, stored, ir₂) ≡ (m', k, ir') = ok-eq done in
        subst
          (λ (x : MappingObject × ClusterObject × Ir W).
            Grows ir.cache x.2.cache × IsLinked group x.2.cache x.1 × AllNamed x.2)
          triple
          (
            subst (λ c. Grows c ir₂.cache) same g,
            linked',
            subst (λ ks. Holds (λ _ j. IsNamed j) ks) (sym clusters) all₁,
          )

    pub add_clusters-IsLinked :
        (ms ms' : List MappingObject) (ks : List ClusterObject) (ir ir' : Ir W)
        → All IsFresh ms
        → AllNamed ir
        → has_key group ir.cache.cache ≡ true
        → add_clusters make_cluster group ms ir ≡ ok (ms', ks, ir')
        → Grows ir.cache ir'.cache × All (IsLinked group ir'.cache) ks
    unfolding add_clusters
    add_clusters-IsLinked [] ms' ks ir ir' fresh all there ran =
        let triple : ([], [], ir) ≡ (ms', ks, ir') = ok-eq ran in
        subst
          (λ (x : List MappingObject × List ClusterObject × Ir W).
            Grows ir.cache x.2.cache × All (IsLinked group x.2.cache) x.1)
          triple (record { cached = λ j m. m; links = λ k j m. m }, tt)
    add_clusters-IsLinked (m ∷ ms) ms' ks ir ir' fresh all there ran =
        let ((m₁, k, ir₁), one, more) =
          >>=-eq-ok (add_cluster_for_mapping make_cluster group m ir) _ ran in
        let ((ms₂, ks₂, ir₂), others, done) =
          >>=-eq-ok (add_clusters make_cluster group ms ir₁) _ more in
        let (g, linked', all₁) =
          add_cluster_for_mapping-IsLinked m m₁ k ir ir₁ fresh.0 all there one in
        let (g', rest) =
          add_clusters-IsLinked ms ms₂ ks₂ ir₁ ir₂ fresh.1 all₁ (g.cached group there) others in
        let triple : (m₁ ∷ ms₂, k ∷ ks₂, ir₂) ≡ (ms', ks, ir') = ok-eq done in
        subst
          (λ (x : List MappingObject × List ClusterObject × Ir W).
            Grows ir.cache x.2.cache × All (IsLinked group x.2.cache) x.1)
          triple
          (
            Grows-trans g g',
            ((g'.links group k.cache_key linked'.0, g'.cached k.cache_key linked'.1), rest),
          )

  -- The Mapping, its group and the clusters of the group are owned by the Mapping.
  cascade-Owned :
      (takes : GroupObject → MappingObject → Bool) (make_cluster : MappingObject → ClusterObject)
      (m : MappingObject) (group : String) (ms ms' : List MappingObject) (ks : List ClusterObject)
      (ir ir₁ ir₂ : Ir W)
      → ((n : MappingObject) → IsNamed (make_cluster n))
      → m.cache_key ≢ ""
      → group ≢ ""
      → All IsFresh ms
      → AllNamed ir₁
      → add_mapping takes m ir ≡ ok (ir₁, some group)
      → add_clusters make_cluster group ms ir₁ ≡ ok (ms', ks, ir₂)
      → Owned ir₂.cache m.cache_key m.cache_key
        × Owned ir₂.cache m.cache_key group
        × All (λ k. Owned ir₂.cache m.cache_key k.cache_key) ks
  cascade-Owned takes make_cluster m group ms ms' ks ir ir₁ ir₂ made_named named named_group fresh
        all added clustered =
      let (self, owned) = add_mapping-Owned takes m ir ir₁ group named named_group added in
      let (g, linked') =
        add_clusters-IsLinked make_cluster made_named group named_group ms ms' ks ir₁ ir₂ fresh all
          (Owned-IsCached owned) clustered in
      let owned' : Owned ir₂.cache m.cache_key group = Owned-Grows m.cache_key g owned in
      (
        Owned-Grows m.cache_key g self,
        owned',
        All-imp (λ k. IsLinked group ir₂.cache k) (λ k. Owned ir₂.cache m.cache_key k.cache_key)
            (λ k h. step owned' h.0 h.1) ks linked',
      )

  -- A Mapping with a cache key is added, and its group, which has a key, gets the clusters of mappings that have
  -- none yet, where every cluster that the IR has or that is made has a key. The next deltas are such that each of
  -- a Mapping or TCPMapping has a name and a namespace, and one has the key of the Mapping. Then the
  -- reconfiguration is incremental, and the Mapping, the group and all these clusters are out of the cache.
  pub check_deltas-cascades :
      (takes : GroupObject → MappingObject → Bool) (make_cluster : MappingObject → ClusterObject)
      (m : MappingObject) (group : String) (ms ms' : List MappingObject) (ks : List ClusterObject)
      (ir ir₁ ir₂ : Ir W) (ds : List Delta) (w : W)
      → ((n : MappingObject) → IsNamed (make_cluster n))
      → m.cache_key ≢ ""
      → group ≢ ""
      → All IsFresh ms
      → AllNamed ir₁
      → add_mapping takes m ir ≡ ok (ir₁, some group)
      → add_clusters make_cluster group ms ir₁ ≡ ok (ms', ks, ir₂)
      → are_usable ds ≡ true
      → contains (keys_of ds) m.cache_key ≡ true
      → (r : Checked Reference W) × (left : Cache Reference W) × (check_deltas ds (some ir₂.cache) w
          ≡ ok r)
        × (r.config_type ≡ incremental)
        × (r.cache ≡ some left)
        × (lookup m.cache_key left.cache ≡ none)
        × (lookup group left.cache ≡ none)
        × All (λ k. lookup k.cache_key left.cache ≡ none) ks
  check_deltas-cascades takes make_cluster m group ms ms' ks ir ir₁ ir₂ ds w made_named named
        named_group fresh all added clustered usable changed =
      let (self, owned, owns) =
        cascade-Owned takes make_cluster m group ms ms' ks ir ir₁ ir₂ made_named named named_group
          fresh all added clustered in
      let (r, ran, usable_case, _) = check_deltas-Outcome ds ir₂.cache w in
      let done = usable_case usable in
      let gone = λ (j : String) (o : Owned ir₂.cache m.cache_key j).
        done.all_gone.gone m.cache_key j changed o in
      (
        r,
        done.left,
        ran,
        done.config_type,
        done.cache,
        gone m.cache_key self,
        gone group owned,
        All-imp (λ k. Owned ir₂.cache m.cache_key k.cache_key)
            (λ k. lookup k.cache_key done.left.cache ≡ none) (λ k o. gone k.cache_key o) ks owns,
      )
