-- ===== src/RouteGroup/Heaviest.antt =====
-- Which mapping of a group gives a flattened field.
use emissary.Prelude.{
  String, Bool, true, false, not, List, [], ◌∷◌, Option, none, some, all, ◌&&◌, if◌then◌else◌,
  string_eq, ◌≡◌, refl, ap, ◌∙◌, arith, Bool-cases, inl, inr,
}
use emissary.RouteGroup.{RouteMapping}
use emissary.RouteGroup.Flatten.{insert_mapping, sort_mappings}
use emissary.RouteGroup.Given.{gives, or_given, last_given}

-- What Python's order of lists has.
pub record IsOrder {ℓ} {W : Type ℓ} (greater : W → W → Bool) : Type ℓ where
  pub trans : (a b c : W) → greater a b ≡ false → greater b c ≡ false → greater a c ≡ false
  pub asym : (a b : W) → greater a b ≡ true → greater b a ≡ false

module _ {ℓ} {V W : Type ℓ} (greater : W → W → Bool) where
  -- The mapping with the field that has the greatest weight, the last of these in the order of the group
  abbrev heavier : Bool → RouteMapping V W → Option (RouteMapping V W) → Option (RouteMapping V W)
  heavier false m o = o
  heavier true m none = some m
  heavier true m (some b) = if greater m.route_weight b.route_weight then some m else some b

  unfoldable pub heaviest : String → List (RouteMapping V W) → Option (RouteMapping V W)
  heaviest k [] = none
  heaviest k (m ∷ ms) = heavier (gives k m) m (heaviest k ms)

  -- No mapping of the list has a smaller weight.
  abbrev is_least : RouteMapping V W → List (RouteMapping V W) → Bool
  is_least m ms = all (λ n. not (greater m.route_weight n.route_weight)) ms

  abbrev is_sorted : List (RouteMapping V W) → Bool
  is_sorted [] = true
  is_sorted (m ∷ ms) = is_least m ms && is_sorted ms

  all-insert_mapping :
      (p : RouteMapping V W → Bool) (m : RouteMapping V W) (ms : List (RouteMapping V W))
      → all p (insert_mapping greater m ms) ≡ (p m && all p ms)
  unfolding insert_mapping
  all-insert_mapping p m [] = refl
  all-insert_mapping p m (n ∷ ms) = ground (arith, all-insert_mapping p m ms)

  pub all-sort_mappings :
      (p : RouteMapping V W → Bool) (ms : List (RouteMapping V W))
      → all p (sort_mappings greater ms) ≡ all p ms
  unfolding sort_mappings
  all-sort_mappings p [] = refl
  all-sort_mappings p (m ∷ ms) =
      all-insert_mapping p m (sort_mappings greater ms)
      ∙ ap (λ b. p m && b) (all-sort_mappings p ms)

  module _ (order : IsOrder greater) where
    least_trans :
        (m n : RouteMapping V W) (ms : List (RouteMapping V W))
        → greater m.route_weight n.route_weight ≡ false
        → is_least n ms ≡ true
        → is_least m ms ≡ true
    least_trans m n [] h least = refl
    least_trans m n (x ∷ ms) h least =
        let rest = least_trans m n ms h (ground (arith, least)) in
        let one =
          order.trans m.route_weight n.route_weight x.route_weight h (ground (arith, least)) in
        ground (arith, rest, one)

    least-insert_mapping :
        (n m : RouteMapping V W) (ms : List (RouteMapping V W))
        → greater n.route_weight m.route_weight ≡ false
        → is_least n ms ≡ true
        → is_least n (insert_mapping greater m ms) ≡ true
    unfolding insert_mapping
    least-insert_mapping n m [] h least = ground (arith, h)
    least-insert_mapping n m (x ∷ ms) h least =
        let rest = least-insert_mapping n m ms h (ground (arith, least)) in
        ground (arith, rest, h, least)

    sorted-insert_mapping :
        (m : RouteMapping V W) (ms : List (RouteMapping V W))
        → is_sorted ms ≡ true
        → is_sorted (insert_mapping greater m ms) ≡ true
    unfolding insert_mapping
    sorted-insert_mapping m [] h = refl
    sorted-insert_mapping m (n ∷ ms) h = elim (Bool-cases (greater m.route_weight n.route_weight)) [
      | inl above ↦
          let rest = sorted-insert_mapping m ms (ground (arith, h)) in
          let least =
            least-insert_mapping n m ms (order.asym m.route_weight n.route_weight above)
              (ground (arith, h)) in
          rw above (ground (arith, rest, least))
      | inr below ↦
          let least = least_trans m n ms below (ground (arith, h)) in
          rw below (ground (arith, least, below, h))
    ]

    sorted-sort_mappings :
        (ms : List (RouteMapping V W)) → is_sorted (sort_mappings greater ms) ≡ true
    unfolding sort_mappings
    sorted-sort_mappings [] = refl
    sorted-sort_mappings (m ∷ ms) =
        sorted-insert_mapping m (sort_mappings greater ms) (sorted-sort_mappings ms)

    last_is_least :
        (k : String) (m b : RouteMapping V W) (ns : List (RouteMapping V W))
        → is_least m ns ≡ true
        → last_given k ns ≡ some b
        → greater m.route_weight b.route_weight ≡ false
    unfolding last_given
    last_is_least k m b [] least last = cc
    last_is_least k m b (n ∷ ns) least last =
        by_rest (last_given k ns) last (last_is_least k m b ns (ground (arith, least)))
      where
        by_given :
            (g : Bool)
            → (if g then some n else none) ≡ some b
            → greater m.route_weight b.route_weight ≡ false
        by_given true e = let same : n ≡ b = cc in rw (← same) (ground (arith, least))
        by_given false e = cc

        by_rest :
            (o : Option (RouteMapping V W))
            → or_given (gives k n) n o ≡ some b
            → (o ≡ some b → greater m.route_weight b.route_weight ≡ false)
            → greater m.route_weight b.route_weight ≡ false
        by_rest (some c) e later = later e
        by_rest none e later = by_given (gives k n) e

    last_given-insert_mapping :
        (k : String) (m : RouteMapping V W) (ns : List (RouteMapping V W))
        → is_sorted ns ≡ true
        → last_given k (insert_mapping greater m ns) ≡ heavier (gives k m) m (last_given k ns)
    unfolding insert_mapping last_given
    last_given-insert_mapping k m [] h = alone (gives k m)
      where
        alone : (g : Bool) → (if g then some m else none) ≡ heavier g m none
        alone true = refl
        alone false = refl
    last_given-insert_mapping k m (n ∷ ns) h =
        elim (Bool-cases (greater m.route_weight n.route_weight)) [
          | inl above ↦ rw above (
              ap (or_given (gives k n) n) (last_given-insert_mapping k m ns (ground (arith, h)))
              ∙ passed (gives k m) (gives k n) (last_given k ns) above)
          | inr below ↦
              let least : is_least m (n ∷ ns) ≡ true =
                (let more = least_trans m n ns below (ground (arith, h)) in
                  ground (arith, more, below)) in
              rw below (
                ahead (gives k m) (last_given k (n ∷ ns))
                  (λ b e. last_is_least k m b (n ∷ ns) least e))
        ]
      where
        passed :
            (g given : Bool) (o : Option (RouteMapping V W))
            → greater m.route_weight n.route_weight ≡ true
            → or_given given n (heavier g m o) ≡ heavier g m (or_given given n o)
        passed false given o above = refl
        passed true true none above = rw above
        passed true false none above = refl
        passed true given (some b) above =
            elim (Bool-cases (greater m.route_weight b.route_weight)) [
              | inl more ↦ rw more
              | inr less ↦ rw less
            ]

        ahead :
            (g : Bool) (o : Option (RouteMapping V W))
            → ((b : RouteMapping V W) → o ≡ some b → greater m.route_weight b.route_weight ≡ false)
            → or_given g m o ≡ heavier g m o
        ahead true none h = refl
        ahead false none h = refl
        ahead true (some b) h = rw (h b refl)
        ahead false (some b) h = refl

    pub last_given-sort_mappings :
        (k : String) (ms : List (RouteMapping V W))
        → last_given k (sort_mappings greater ms) ≡ heaviest k ms
    unfolding sort_mappings last_given heaviest
    last_given-sort_mappings k [] = refl
    last_given-sort_mappings k (m ∷ ms) =
        last_given-insert_mapping k m (sort_mappings greater ms) (sorted-sort_mappings ms)
        ∙ ap (heavier (gives k m) m) (last_given-sort_mappings k ms)
