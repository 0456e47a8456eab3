-- ===== src/RouteGroup/Clustered.antt =====
-- The clusters that a group has once it is finalized.
use emissary.Prelude.{
  ◌+◌, String, true, List, [], ◌∷◌, some, length, ◌&&◌, ◌||◌, leb, string_eq, ◌≡◌, refl, sym, ap,
  ◌∙◌, arith, Bool-cases, inl, inr, All, All-append, length-append,
}
use mathlib.Core.Path.{subst}
use emissary.Results.{ok}
use emissary.MappingGroup.{Mapping, MappingGroup, normalize_weights}
use emissary.MappingGroup.Reference.{
  has_weight, weighted, weightless, all_ok, total_weight, weight_or_zero,
}
use emissary.MappingGroup.Weights.{is_single, in_order}
use emissary.MappingGroup.Laws.{strip, normalize-keeps}
use emissary.Cache.{Cache}
use emissary.Incremental.Groups.{MappingObject, ClusterObject, Reference}
use emissary.Incremental.Cascade.{IsLinked}
use emissary.RouteGroup.Finalize.{Member, set_clusters, clusters_of}

module _ {ℓ} {V W : Type ℓ} {S : Type 0} (group : String) (cache : Cache Reference S) where
  -- The mapping has a cluster that is cached and linked to the group.
  abbrev pub IsClustered : Mapping (Member V W) → Type 0
  IsClustered m = (k : ClusterObject) × (m.content.cluster ≡ some k) × IsLinked group cache k

  pub set_clusters-IsClustered :
      (os : List MappingObject) (ks : List ClusterObject) (ms : List (Mapping (Member V W)))
      → length os ≡ length ms
      → length ks ≡ length ms
      → All (IsLinked group cache) ks
      → All IsClustered (set_clusters os ks ms)
  unfolding set_clusters
  set_clusters-IsClustered [] ks [] a b h = tt
  set_clusters-IsClustered [] ks (m ∷ ms) a b h = absurd (omega (arith, a))
  set_clusters-IsClustered (o ∷ os) ks [] a b h = absurd (omega (arith, a))
  set_clusters-IsClustered (o ∷ os) [] (m ∷ ms) a b h = absurd (omega (arith, b))
  set_clusters-IsClustered (o ∷ os) (k ∷ ks) (m ∷ ms) a b h =
      ((k, refl, h.0), set_clusters-IsClustered os ks ms (omega (arith, a)) (omega (arith, b)) h.1)

  strip-IsClustered :
      (ms ns : List (Mapping (Member V W)))
      → strip ms ≡ strip ns
      → All IsClustered ns
      → All IsClustered ms
  strip-IsClustered ms ns same h =
      from_strip ms (subst (λ l. All IsClustered l) (sym same) (to_strip ns h))
    where
      to_strip :
          (ns : List (Mapping (Member V W))) → All IsClustered ns → All IsClustered (strip ns)
      to_strip [] h = tt
      to_strip (n ∷ ns) h = (h.0, to_strip ns h.1)

      from_strip :
          (ms : List (Mapping (Member V W))) → All IsClustered (strip ms) → All IsClustered ms
      from_strip [] h = tt
      from_strip (m ∷ ms) h = (h.0, from_strip ms h.1)

  split-IsClustered :
      (ms : List (Mapping (Member V W)))
      → All IsClustered ms
      → All IsClustered (weighted ms) × All IsClustered (weightless ms)
  unfolding weighted weightless
  split-IsClustered [] h = (tt, tt)
  split-IsClustered (m ∷ ms) h =
      let (own, free) = split-IsClustered ms h.1 in
      elim (Bool-cases (has_weight m)) [
        | inl has ↦ rw has ((h.0, own), free)
        | inr hasnt ↦ rw hasnt (own, (h.0, free))
      ]

  -- All clusters are answered.
  pub clusters_of-IsLinked :
      (ms : List (Mapping (Member V W)))
      → All IsClustered ms
      → (ks : List ClusterObject) × (clusters_of ms ≡ ok ks)
        × (length ks ≡ length ms)
        × All (IsLinked group cache) ks
  unfolding clusters_of
  clusters_of-IsLinked [] h = ([], refl, refl, tt)
  clusters_of-IsLinked (m ∷ ms) h =
      let (k, at, linked) = h.0 in
      let (ks, ran, as_many, all') = clusters_of-IsLinked ms h.1 in
      (k ∷ ks, rw (at, ran), rw as_many, (linked, all'))

  length_split :
      (ms : List (Mapping (Member V W))) → length (weighted ms) + length (weightless ms) ≡ length ms
  unfolding weighted weightless
  length_split [] = omega arith
  length_split (m ∷ ms) = elim (Bool-cases (has_weight m)) [
    | inl has ↦ rw has (omega (arith, length_split ms))
    | inr hasnt ↦ rw hasnt (omega (arith, length_split ms))
  ]

  -- Normalization keeps the clusters and the number of the mappings.
  pub normalize-IsClustered :
      (g : MappingGroup (Member V W))
      → (normalize_weights g).0 ≡ true
      → All IsClustered g.mappings
      → All IsClustered (normalize_weights g).1.mappings
        × (length (normalize_weights g).1.mappings ≡ length g.mappings)
  normalize-IsClustered g won h =
      let kept = normalize-keeps g won in
      let (own, free) = split-IsClustered g.mappings h in
      (
        strip-IsClustered _ _ kept (All-append IsClustered (weighted g.mappings) _ own free),
        same_length _ _ kept ∙ (length-append (weighted g.mappings) _ ∙ length_split g.mappings),
      )
    where
      stripped_length : (ms : List (Mapping (Member V W))) → length (strip ms) ≡ length ms
      stripped_length [] = refl
      stripped_length (m ∷ ms) = rw (stripped_length ms)

      same_length :
          (ms ns : List (Mapping (Member V W))) → strip ms ≡ strip ns → length ms ≡ length ns
      same_length ms ns e = sym (stripped_length ms) ∙ (ap (λ l. length l) e ∙ stripped_length ns)

module _ {ℓ} {V W : Type ℓ} where
  same_weights :
      (os : List MappingObject) (ks : List ClusterObject) (ms : List (Mapping (Member V W)))
      → (length (set_clusters os ks ms) ≡ length ms)
        × (all_ok (set_clusters os ks ms) ≡ all_ok ms)
        × (total_weight (set_clusters os ks ms) ≡ total_weight ms)
  unfolding set_clusters all_ok total_weight
  same_weights [] ks ms = (refl, refl, refl)
  same_weights (o ∷ os) [] ms = (refl, refl, refl)
  same_weights (o ∷ os) (k ∷ ks) [] = (refl, refl, refl)
  same_weights (o ∷ os) (k ∷ ks) (m ∷ ms) =
      let (long, ok', total) = same_weights os ks ms in
      (omega (arith, long), ap (λ b. leb (weight_or_zero m) 100 && b) ok', omega (arith, total))

  -- The clusters do not change what the weights come to.
  pub in_order-set_clusters :
      (os : List MappingObject) (ks : List ClusterObject) (ms : List (Mapping (Member V W)))
      → (is_single (set_clusters os ks ms) || in_order (set_clusters os ks ms))
        ≡ (is_single ms || in_order ms)
  in_order-set_clusters os ks ms =
      let (long, ok', total) = same_weights os ks ms in rw (long, ok', total)

  pub length-set_clusters :
      (os : List MappingObject) (ks : List ClusterObject) (ms : List (Mapping (Member V W)))
      → length (set_clusters os ks ms) ≡ length ms
  length-set_clusters os ks ms = (same_weights os ks ms).0
