-- ===== src/MappingGroup/Bounds.antt =====
-- The range of the calculated weights. Envoy reads them as percentages that go up along the routes.
use native.Mathlib.Nat.{add_assoc, zero-add}
use emissary.Prelude.{
  ℕ, zero, suc, ◌+◌, ◌-◌, ◌*◌, ◌≤◌, ◌<◌, Bool, true, false, List, [], ◌∷◌, ◌++◌, ◌≡◌, refl, length,
  any, ltb, arith, Bool-cases, Option-cases, inl, inr,
}
use emissary.MappingGroup.{Mapping, MappingGroup, spread, normalize_weights}
use emissary.MappingGroup.Rounding.{round_div}
use emissary.MappingGroup.Reference.{weight_or_zero, weighted, weightless, total_weight, cumulate}
use emissary.MappingGroup.Weights.{
  is_single, share, Outcome, single, weighed, refused, normalize-Outcome,
}
use emissary.MappingGroup.Laws.{normalize-succeeds}

mul_step : (s k : ℕ) → s * (suc (suc k) - 1) ≡ s + s * (suc k - 1)
mul_step s k =
    let upper : suc (suc k) - 1 ≡ suc k = omega arith in
    let lower : suc k - 1 ≡ k = omega arith in rw (upper, lower) (omega arith)

-- The rounded share of `k` mappings in `r`, taken once less, is within `r` for `k` up to four.
few_fit : (r k : ℕ) → k ≤ 4 → round_div r k * (k - 1) ≤ r
unfolding round_div
few_fit r zero h = omega arith
few_fit r (suc zero) h = omega arith
few_fit r (suc (suc zero)) h = ground arith
few_fit r (suc (suc (suc zero))) h = ground arith
few_fit r (suc (suc (suc (suc zero)))) h = ground arith
few_fit r (suc (suc (suc (suc (suc k))))) h = absurd (omega arith)

module _ {ℓ} {M : Type ℓ} where
  -- The calculated weights go up, from `lo` at least to `hi` at most.
  abbrev pub Ascends : ℕ → ℕ → List (Mapping M) → Type 0
  Ascends lo hi [] = lo ≤ hi
  Ascends lo hi (m ∷ ms) = (lo ≤ m.calculated) × Ascends m.calculated hi ms

  Ascends-append :
      (lo mid hi : ℕ) (xs ys : List (Mapping M))
      → Ascends lo mid xs
      → Ascends mid hi ys
      → Ascends lo hi (xs ++ ys)
  Ascends-append lo mid hi [] [] h k = omega arith
  Ascends-append lo mid hi [] (y ∷ ys) h k = (omega (arith, k.0), k.1)
  Ascends-append lo mid hi (x ∷ xs) ys h k = (h.0, Ascends-append x.calculated mid hi xs ys h.1 k)

  Ascends-cumulate :
      (c : ℕ) (ms : List (Mapping M)) → Ascends c (c + total_weight ms) (cumulate c ms)
  unfolding cumulate total_weight
  Ascends-cumulate c [] = omega arith
  Ascends-cumulate c (m ∷ ms) = (
    omega arith,
    rw (← add_assoc c (weight_or_zero m) (total_weight ms))
        (Ascends-cumulate (c + weight_or_zero m) ms),
  )

  Ascends-spread :
      (s c : ℕ) (ms : List (Mapping M))
      → c ≤ 100
      → c + s * (length ms - 1) ≤ 100
      → Ascends c 100 (spread s c ms)
  unfolding spread
  Ascends-spread s c [] h k = h
  Ascends-spread s c (m ∷ []) h k = (h, omega arith)
  Ascends-spread s c (m ∷ n ∷ ms) h k = (
    omega arith,
    Ascends-spread s (c + s) (n ∷ ms) (grind arith) (omega (arith, mul_step s (length ms))),
  )

  total_weight-weighted : (ms : List (Mapping M)) → total_weight (weighted ms) ≡ total_weight ms
  unfolding total_weight weighted
  total_weight-weighted [] = refl
  total_weight-weighted (m ∷ ms) = elim (Option-cases m.weight) [
    | inl e ↦ ground (arith, total_weight-weighted ms)
    | inr (w, e) ↦ ground (arith, total_weight-weighted ms)
  ]

  -- How far the rounded shares go beyond the total of the given weights, before the last mapping.
  abbrev pub reach : List (Mapping M) → ℕ
  reach ms = total_weight ms + share ms * (length (weightless ms) - 1)

  -- Where the rounded shares stay within what is left of 100, the calculated weights of a success
  -- ascend and none is above 100.
  pub normalize-Ascends :
      (g : MappingGroup M)
      → (normalize_weights g).0 ≡ true
      → is_single g.mappings ≡ false
      → reach g.mappings ≤ 100
      → Ascends 0 100 (normalize_weights g).1.mappings
  normalize-Ascends g won several fits = go (normalize-Outcome g) won
    where
      go : {r : Bool × MappingGroup M} → Outcome g r → r.0 ≡ true → Ascends 0 100 r.1.mappings
      go (single one) w = cc
      go (weighed _ _ ok) w =
          Ascends-append 0 (total_weight g.mappings) 100 (cumulate 0 (weighted g.mappings)) _
            (rw (zero-add, total_weight-weighted) at (Ascends-cumulate 0 (weighted g.mappings)))
            (Ascends-spread (share g.mappings) (total_weight g.mappings) (weightless g.mappings)
              (ground arith) fits)
      go (refused _ _ _ _) w = cc

  overshoots :
      (s c : ℕ) (ms : List (Mapping M))
      → c ≤ 100
      → 100 < c + s * (length ms - 1)
      → any (λ m. ltb 100 m.calculated) (spread s c ms) ≡ true
  unfolding spread
  overshoots s c [] h k = absurd (omega arith)
  overshoots s c (m ∷ []) h k = absurd (omega arith)
  overshoots s c (m ∷ n ∷ ms) h k = elim (Bool-cases (ltb 100 (c + s))) [
    | inl now ↦ rw now refl
    | inr later ↦
        rw later
          (overshoots s (c + s) (n ∷ ms) (ground arith) (omega (arith, mul_step s (length ms))))
  ]

  any-append :
      (p : Mapping M → Bool) (xs ys : List (Mapping M)) → any p ys ≡ true → any p (xs ++ ys) ≡ true
  any-append p [] ys h = h
  any-append p (x ∷ xs) ys h = ground (arith, any-append p xs ys)

  -- Where they do not, a success gives some mapping a calculated weight above 100.
  pub normalize_overshoots :
      (g : MappingGroup M)
      → (normalize_weights g).0 ≡ true
      → is_single g.mappings ≡ false
      → 100 < reach g.mappings
      → any (λ m. ltb 100 m.calculated) (normalize_weights g).1.mappings ≡ true
  normalize_overshoots g won several over = go (normalize-Outcome g) won
    where
      go :
          {r : Bool × MappingGroup M}
          → Outcome g r
          → r.0 ≡ true
          → any (λ m. ltb 100 m.calculated) r.1.mappings ≡ true
      go (single one) w = cc
      go (weighed _ _ ok) w = any-append _ (cumulate 0 (weighted g.mappings)) _ (
          overshoots (share g.mappings) (total_weight g.mappings) (weightless g.mappings)
            (ground arith) over)
      go (refused _ _ _ _) w = cc

  -- In a group of more or fewer than one mapping, with at most four that have no weight of their
  -- own, the calculated weights of a success ascend from 0 and none is above 100.
  pub normalize-Ascends_few :
      (g : MappingGroup M)
      → (normalize_weights g).0 ≡ true
      → is_single g.mappings ≡ false
      → length (weightless g.mappings) ≤ 4
      → Ascends 0 100 (normalize_weights g).1.mappings
  normalize-Ascends_few g won several few = normalize-Ascends g won several (
      ground (
        arith,
        normalize-succeeds g,
        few_fit (100 - total_weight g.mappings) (length (weightless g.mappings)) few,
      ))
