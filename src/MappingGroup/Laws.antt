-- ===== src/MappingGroup/Laws.antt =====
-- What the calculated weights of a group promise to the routes that are made from them.
use mathlib.Core.List.{append-nil, map-append}
use emissary.Prelude.{
  ℕ, ◌+◌, Bool, true, false, not, List, [], ◌∷◌, ◌++◌, Option, none, some, ◌≡◌, refl, ap, map, any,
  ◌||◌, arith, Bool-cases, Option-cases, inl, inr, sym,
}
use emissary.MappingGroup.{
  Mapping, MappingGroup, scan, spread, set_calculated, normalize_weights, with_weighted,
  with_weightless,
}
use emissary.MappingGroup.Reference.{has_weight, weight_or_zero, weighted, weightless, cumulate}
use emissary.MappingGroup.Weights.{
  is_single, in_order, refusals, Outcome, single, weighed, refused, normalize-Outcome,
}

module _ {ℓ} {M : Type ℓ} where
  -- normalize_weights_in_mappings returns true exactly when the group has one mapping, or no weight
  -- is above 100 and the weights add up to 100 at most.
  pub normalize-succeeds :
      (g : MappingGroup M) → (normalize_weights g).0 ≡ (is_single g.mappings || in_order g.mappings)
  normalize-succeeds g = go (normalize-Outcome g)
    where
      go :
          {r : Bool × MappingGroup M}
          → Outcome g r
          → r.0 ≡ (is_single g.mappings || in_order g.mappings)
      go (single one) = rw one
      go (weighed several _ ok) = rw (several, ok)
      go (refused e several _ wrong) = rw (several, wrong)

  -- normalize_weights_in_mappings posts the error of the first weight above 100, or else of a total
  -- above 100, and no other; nothing for a group of one mapping.
  pub normalize-errors :
      (g : MappingGroup M) → (normalize_weights g).1.errors ≡ g.errors ++ refusals g.mappings
  normalize-errors g = go (normalize-Outcome g)
    where
      go : {r : Bool × MappingGroup M} → Outcome g r → r.1.errors ≡ g.errors ++ refusals g.mappings
      go (single one) = rw one (sym (append-nil _))
      go (weighed several fine _) = rw several (rw fine (sym (append-nil _)))
      go (refused e several bad _) = rw several (rw bad refl)

  abbrev pub last_calculated : List (Mapping M) → Option ℕ
  last_calculated [] = none
  last_calculated (m ∷ []) = some m.calculated
  last_calculated (m ∷ n ∷ ms) = last_calculated (n ∷ ms)

  last_calculated-spread :
      (s c : ℕ) (m : Mapping M) (ms : List (Mapping M))
      → last_calculated (spread s c (m ∷ ms)) ≡ some 100
  unfolding spread
  last_calculated-spread s c m [] = refl
  last_calculated-spread s c m (n ∷ []) = refl
  last_calculated-spread s c m (n ∷ o ∷ ms) = last_calculated-spread s (c + s) n (o ∷ ms)

  last_calculated-append :
      (xs ys : List (Mapping M))
      → last_calculated ys ≡ some 100
      → last_calculated (xs ++ ys) ≡ some 100
  last_calculated-append [] ys h = h
  last_calculated-append (x ∷ []) [] h = cc
  last_calculated-append (x ∷ []) (y ∷ ys) h = h
  last_calculated-append (x ∷ z ∷ xs) ys h = last_calculated-append (z ∷ xs) ys h

  weightless-ne :
      (ms : List (Mapping M))
      → any (λ m. not (has_weight m)) ms ≡ true
      → (m : Mapping M) × (rest : List (Mapping M)) × (weightless ms ≡ m ∷ rest)
  unfolding weightless
  weightless-ne [] h = cc
  weightless-ne (m ∷ ms) h = elim (Bool-cases (has_weight m)) [
    | inl own ↦ let (n, rest, e) = weightless-ne ms (ground arith) in (n, rest, rw own e)
    | inr free ↦ (m, weightless ms, rw free refl)
  ]

  spread_last :
      (s c : ℕ) {ms : List (Mapping M)}
      → ((m : Mapping M) × (rest : List (Mapping M)) × (ms ≡ m ∷ rest))
      → last_calculated (spread s c ms) ≡ some 100
  spread_last s c (m, rest, e) = rw e (last_calculated-spread s c m rest)

  -- After a success the last mapping's calculated weight is 100, if the group has one mapping or
  -- any mapping with no weight of its own.
  pub normalize-last :
      (g : MappingGroup M)
      → (normalize_weights g).0 ≡ true
      → (is_single g.mappings || any (λ m. not (has_weight m)) g.mappings) ≡ true
      → last_calculated (normalize_weights g).1.mappings ≡ some 100
  normalize-last g won h = go (normalize-Outcome g) won
    where
      one_left :
          (ms : List (Mapping M))
          → is_single ms ≡ true
          → last_calculated (map (set_calculated 100) ms) ≡ some 100
      one_left [] e = cc
      one_left (m ∷ []) e = refl
      one_left (m ∷ n ∷ ms) e = ground arith

      go :
          {r : Bool × MappingGroup M}
          → Outcome g r
          → r.0 ≡ true
          → last_calculated r.1.mappings ≡ some 100
      go (single one) w = one_left g.mappings one
      go (weighed several _ _) w =
          last_calculated-append (cumulate 0 (weighted g.mappings)) _
            (spread_last _ _ (weightless-ne g.mappings (ground arith)))
      go (refused _ _ _ _) w = cc

  -- What a mapping is beside its calculated weight.
  abbrev pub strip : List (Mapping M) → List (Mapping M)
  strip = map (set_calculated 0)

  strip-cumulate : (c : ℕ) (ms : List (Mapping M)) → strip (cumulate c ms) ≡ strip ms
  unfolding cumulate
  strip-cumulate c [] = refl
  strip-cumulate c (m ∷ ms) =
      ap (λ (l : List (Mapping M)). set_calculated 0 m ∷ l)
        (strip-cumulate (c + weight_or_zero m) ms)

  strip-spread : (s c : ℕ) (ms : List (Mapping M)) → strip (spread s c ms) ≡ strip ms
  unfolding spread
  strip-spread s c [] = refl
  strip-spread s c (m ∷ []) = refl
  strip-spread s c (m ∷ n ∷ ms) =
      ap (λ (l : List (Mapping M)). set_calculated 0 m ∷ l) (strip-spread s (c + s) (n ∷ ms))

  strip-single :
      (ms : List (Mapping M))
      → is_single ms ≡ true
      → strip (map (set_calculated 100) ms) ≡ strip (weighted ms ++ weightless ms)
  unfolding weighted weightless
  strip-single [] h = cc
  strip-single (m ∷ []) h = elim (Bool-cases (has_weight m)) [
    | inl e ↦ rw e refl
    | inr e ↦ rw e refl
  ]
  strip-single (m ∷ n ∷ ms) h = ground arith

  -- A success keeps every mapping, but for its calculated weight: first those with a weight of
  -- their own, then the others, each in the order of the group.
  pub normalize-keeps :
      (g : MappingGroup M)
      → (normalize_weights g).0 ≡ true
      → strip (normalize_weights g).1.mappings
        ≡ strip (weighted g.mappings ++ weightless g.mappings)
  normalize-keeps g won = go (normalize-Outcome g) won
    where
      go :
          {r : Bool × MappingGroup M}
          → Outcome g r
          → r.0 ≡ true
          → strip r.1.mappings ≡ strip (weighted g.mappings ++ weightless g.mappings)
      go (single one) w = strip-single g.mappings one
      go (weighed several _ _) w = simp (map-append, strip-cumulate, strip-spread)
      go (refused _ _ _ _) w = cc

  strip-scan : (c : ℕ) (ms : List (Mapping M)) → strip (scan c ms).visited ≡ strip ms
  unfolding scan with_weighted with_weightless
  strip-scan c [] = refl
  strip-scan c (m ∷ ms) = elim (Option-cases m.weight) [
    | inl e ↦ ground (arith, strip-scan c ms)
    | inr (w, e) ↦ ground (arith, strip-scan (c + w) ms)
  ]

  -- A failure leaves the same mappings in the same order, but for their calculated weights.
  pub normalize-restores :
      (g : MappingGroup M)
      → (normalize_weights g).0 ≡ false
      → strip (normalize_weights g).1.mappings ≡ strip g.mappings
  normalize-restores g lost = go (normalize-Outcome g) lost
    where
      go :
          {r : Bool × MappingGroup M}
          → Outcome g r
          → r.0 ≡ false
          → strip r.1.mappings ≡ strip g.mappings
      go (single one) w = cc
      go (weighed several _ _) w = cc
      go (refused _ _ _ _) w = strip-scan 0 g.mappings
