-- ===== src/RouteGroup/Answered.antt =====
-- What `finalize` of a group answers.
use emissary.Prelude.{
  String, Bool, true, false, List, [], ◌∷◌, ◌++◌, Option, none, some, lookup, has_key, map, length,
  ◌||◌, string_eq, ◌≡◌, ◌≢◌, refl, ◌∙◌, All,
}
use emissary.Results.{Result, ok}
use emissary.MappingGroup.{MappingGroup, normalize_weights}
use emissary.MappingGroup.Weights.{is_single, in_order}
use emissary.MappingGroup.Laws.{normalize-succeeds}
use emissary.Incremental.Groups.{MappingObject, ClusterObject, Ir}
use emissary.Incremental.Cascade.{
  IsNamed, IsFresh, IsLinked, AllNamed, add_cluster_for_mapping-IsLinked, add_clusters-IsLinked,
}
use emissary.Incremental.Fresh.{add_cluster_for_mapping_total, add_clusters_total}
use emissary.RouteGroup.Flatten.{Reading, Defaults, finalize_fields}
use emissary.RouteGroup.Labels.{DomainLabels, LabelDefaults, Labelled, finalize_labels}
use emissary.RouteGroup.Prepended.{are_single}
use emissary.RouteGroup.Relabelled.{finalize_labels-single}
use emissary.RouteGroup.Finalize.{
  Member, FinalGroup, route_of, mapping_of, set_clusters, redirect_in, cluster_shadow,
  answer_clusters, cluster_mappings, finalize,
}
use emissary.RouteGroup.Clustered.{
  IsClustered, set_clusters-IsClustered, clusters_of-IsLinked, normalize-IsClustered,
  in_order-set_clusters, length-set_clusters,
}

length-map {ℓ κ} :
    {A : Type ℓ} {B : Type κ} (f : A → B) (xs : List A) → length (map f xs) ≡ length xs
length-map f [] = refl
length-map f (x ∷ xs) = rw (length-map f xs)

module _ {ℓ} {D : Type ℓ} where
  -- Each label, if there are labels, has one entry.
  abbrev pub are_fine : Option (DomainLabels D) → Bool
  are_fine none = true
  are_fine (some labels) = are_single labels

  finalize_labels_total :
      (d : LabelDefaults D) (labels : Option (DomainLabels D))
      → are_fine labels ≡ true
      → (l : Labelled (Option (DomainLabels D))) × (finalize_labels d labels ≡ ok l)
  unfolding finalize_labels
  finalize_labels_total d none h = (_, refl)
  finalize_labels_total d (some []) h = (_, refl)
  finalize_labels_total d (some ((domain, labels) ∷ rest)) h =
      (_, finalize_labels-single d domain labels rest h)

abbrev pub shadow_mapping {ℓ} : {V W : Type ℓ} → Member V W → MappingObject
shadow_mapping s = s.mapping

abbrev pub can_normalize {ℓ} : {V W D : Type ℓ} → FinalGroup V W D → Bool
can_normalize g = is_single g.weights.mappings || in_order g.weights.mappings

module _ {ℓ} {V W : Type ℓ} {S : Type 0} (make_cluster : MappingObject → ClusterObject)
    (made_named : (m : MappingObject) → IsNamed (make_cluster m)) (key : String)
    (named : key ≢ "") where
  pub cluster_shadow_total :
      (shadows : List (Member V W)) (ir : Ir S)
      → All IsFresh (map shadow_mapping shadows)
      → AllNamed ir
      → has_key key ir.cache.cache ≡ true
      → (shadows' : List (Member V W)) × (ir' : Ir S) × (cluster_shadow make_cluster key shadows ir
          ≡ ok (shadows', ir'))
        × AllNamed ir'
        × (has_key key ir'.cache.cache ≡ true)
  unfolding cluster_shadow
  cluster_shadow_total [] ir fresh all there = ([], ir, refl, all, there)
  cluster_shadow_total (s ∷ others) ir fresh all there =
      let (m', k, ir', ran) = add_cluster_for_mapping_total make_cluster key s.mapping ir fresh.0 in
      let (grows, linked, all') =
        add_cluster_for_mapping-IsLinked make_cluster made_named key named s.mapping m' k ir ir'
          fresh.0 all there ran in
      (
        record s { mapping = m'; cluster = some k } ∷ others,
        ir',
        rw ran,
        all',
        grows.cached key there,
      )

module _ {ℓ} {V W D : Type ℓ} {S : Type 0} where
  -- One cached cluster, linked to the group, for each mapping, where the weights can be normalized; nothing, and an
  -- error, where they cannot
  pub record IsAnswered (g : FinalGroup V W D) (ks : List ClusterObject) (g' : FinalGroup V W D)
      (ir' : Ir S) : Type ℓ where
    pub as_many : can_normalize g ≡ true → length ks ≡ length g.weights.mappings
    pub linked : All (IsLinked g.key ir'.cache) ks
    pub none_new : can_normalize g ≡ true → g'.unnormalized ≡ g.unnormalized
    pub nothing : can_normalize g ≡ false → ks ≡ []
    pub posted : can_normalize g ≡ false → g'.unnormalized ≡ true

  Done : FinalGroup V W D → Result (List ClusterObject × FinalGroup V W D × Ir S) → Type ℓ
  Done g result =
      (ks : List ClusterObject) × (g' : FinalGroup V W D) × (ir' : Ir S) × (result
        ≡ ok (ks, g', ir'))
      × IsAnswered g ks g' ir'

  answer_clusters-Done :
      (g : FinalGroup V W D) (ir : Ir S) (weights : MappingGroup (Member V W))
      → (is_single weights.mappings || in_order weights.mappings) ≡ can_normalize g
      → length weights.mappings ≡ length g.weights.mappings
      → All (IsClustered g.key ir.cache) weights.mappings
      → Done g (answer_clusters g ir (normalize_weights weights))
  unfolding Done answer_clusters
  answer_clusters-Done g ir weights same long all =
      by_result (normalize_weights weights).0 (normalize_weights weights).1
        (normalize-succeeds weights ∙ same)
        (λ won.
          let (all', long') = normalize-IsClustered g.key ir.cache weights won all in
          (all', long' ∙ long))
    where
      by_result :
          (fine : Bool) (ws : MappingGroup (Member V W))
          → fine ≡ can_normalize g
          → (fine ≡ true
              → All (IsClustered g.key ir.cache) ws.mappings
                × (length ws.mappings ≡ length g.weights.mappings))
          → Done g (answer_clusters g ir (fine, ws))
      by_result true ws fine h =
          let (all', long') = h refl in
          let (ks, ran, as_many, linked) = clusters_of-IsLinked g.key ir.cache ws.mappings all' in
          (
            ks,
            record g { weights = ws },
            ir,
            rw ran,
            record {
              as_many = λ _. as_many ∙ long';
              linked = linked;
              none_new = λ _. refl;
              nothing = λ wrong. absurd cc;
              posted = λ wrong. absurd cc;
            },
          )
      by_result false ws wrong h = (
        [],
        record g { weights = ws; unnormalized = true },
        ir,
        refl,
        record {
          as_many = λ fine. absurd cc;
          linked = tt;
          none_new = λ fine. absurd cc;
          nothing = λ _. refl;
          posted = λ _. refl;
        },
      )

  module _ (make_cluster : MappingObject → ClusterObject)
      (made_named : (m : MappingObject) → IsNamed (make_cluster m)) where
    cluster_mappings-Done :
        (g : FinalGroup V W D) (ir : Ir S)
        → g.key ≢ ""
        → All IsFresh (map mapping_of g.weights.mappings)
        → AllNamed ir
        → has_key g.key ir.cache.cache ≡ true
        → Done g (cluster_mappings make_cluster g ir)
    unfolding Done cluster_mappings
    cluster_mappings-Done g ir named fresh all there =
        let ms = g.weights.mappings in
        let (os, ks, ir', ran, long_os, long_ks) =
          add_clusters_total make_cluster g.key (map mapping_of ms) ir fresh in
        let (grows, linked) =
          add_clusters-IsLinked make_cluster made_named g.key named (map mapping_of ms) os ks ir ir'
            fresh all there ran in
        let as_long = length-map mapping_of ms in
        let clustered =
          set_clusters-IsClustered g.key ir'.cache os ks ms (long_os ∙ as_long) (long_ks ∙ as_long)
            linked in
        let weights = record g.weights { mappings = set_clusters os ks ms } in
        let (ks', g', ir'', ran', done) =
          answer_clusters-Done g ir' weights (in_order-set_clusters os ks ms)
            (length-set_clusters os ks ms) clustered in
        (ks', g', ir'', rw ran ran', done)

module _ {ℓ} {V H W D : Type ℓ} {S : Type 0} (r : Reading V H) (greater : W → W → Bool)
    (make_shadow make_cluster : MappingObject → ClusterObject) where
  -- A group with a key is in the cache, its labels have one entry each, none of its mappings and shadows has a
  -- cluster yet, every cluster that the IR has or that is made has a key, and the group does not redirect. Then
  -- `finalize` returns: with one cluster for each mapping, all cached and linked to the group, where the group
  -- has one mapping or no weight is above 100 and the weights add up to 100 at most; else with none, and an error
  -- is posted.
  pub finalize-IsAnswered :
      (d : Defaults V) (ld : LabelDefaults D) (g : FinalGroup V W D) (ir : Ir S)
      → ((m : MappingObject) → IsNamed (make_shadow m))
      → ((m : MappingObject) → IsNamed (make_cluster m))
      → g.key ≢ ""
      → are_fine g.labels ≡ true
      → All IsFresh (map shadow_mapping g.shadows)
      → All IsFresh (map mapping_of g.weights.mappings)
      → AllNamed ir
      → has_key g.key ir.cache.cache ≡ true
      → redirect_in r
          (lookup "host_redirect"
            (finalize_fields r greater d (map route_of g.weights.mappings) g.fields))
          g.host_redirect
        ≡ ok none
      → (ks : List ClusterObject) × (g' : FinalGroup V W D) × (ir' : Ir S) × (finalize r greater
            make_shadow make_cluster d ld g ir
          ≡ ok (ks, g', ir'))
        × IsAnswered g ks g' ir'
  unfolding finalize Done
  finalize-IsAnswered d ld g ir shadow_named named keyed fine fresh_shadows fresh all there stays =
      let (labelled, labels_ran) = finalize_labels_total ld g.labels fine in
      let (shadows, ir₁, shadow_ran, all₁, there₁) =
        cluster_shadow_total make_shadow shadow_named g.key keyed g.shadows ir fresh_shadows all
          there in
      let g₁ = record g {
        fields = finalize_fields r greater d (map route_of g.weights.mappings) g.fields;
        labels = labelled.labels;
        label_errors = g.label_errors ++ labelled.posted;
        shadows = shadows;
      } in
      let (ks, g', ir', ran, done) =
        cluster_mappings-Done make_cluster named g₁ ir₁ keyed fresh all₁ there₁ in
      (
        ks,
        g',
        ir',
        rw (labels_ran, shadow_ran, stays) ran,
        record {
          as_many = done.as_many;
          linked = done.linked;
          none_new = done.none_new;
          nothing = done.nothing;
          posted = done.posted;
        },
      )
