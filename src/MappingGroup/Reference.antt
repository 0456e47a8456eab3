-- ===== src/MappingGroup/Reference.antt =====
-- What the weights of a group come to, described without the loop, and the loop against it.
use emissary.Prelude.{
  ℕ, ◌+◌, Bool, true, false, List, [], ◌∷◌, Option, none, some, ◌≡◌, refl, leb, if◌then◌else◌, ◌&&◌,
  arith, Option-cases, inl, inr,
}
use emissary.MappingGroup.{
  Mapping, GroupError, invalid_weight, Scan, scan, set_calculated, with_weighted, with_weightless,
}

module _ {ℓ} {M : Type ℓ} where
  abbrev pub has_weight : Mapping M → Bool
  has_weight m = elim m.weight [ none ↦ false | some _ ↦ true ]

  abbrev pub weight_or_zero : Mapping M → ℕ
  weight_or_zero m = elim m.weight [ none ↦ 0 | some w ↦ w ]

  abbrev pub weight_ok : Mapping M → Bool
  weight_ok m = leb (weight_or_zero m) 100

  -- The mappings with a weight of their own, and those with none, each in the order of the group.
  unfoldable pub weighted : List (Mapping M) → List (Mapping M)
  weighted [] = []
  weighted (m ∷ ms) = if has_weight m then m ∷ weighted ms else weighted ms

  unfoldable pub weightless : List (Mapping M) → List (Mapping M)
  weightless [] = []
  weightless (m ∷ ms) = if has_weight m then weightless ms else m ∷ weightless ms

  unfoldable pub total_weight : List (Mapping M) → ℕ
  total_weight [] = 0
  total_weight (m ∷ ms) = weight_or_zero m + total_weight ms

  unfoldable pub all_ok : List (Mapping M) → Bool
  all_ok [] = true
  all_ok (m ∷ ms) = weight_ok m && all_ok ms

  -- Each mapping gets the sum of the weights up to its own.
  unfoldable pub cumulate : ℕ → List (Mapping M) → List (Mapping M)
  cumulate current [] = []
  cumulate current (m ∷ ms) =
      set_calculated (current + weight_or_zero m) m ∷ cumulate (current + weight_or_zero m) ms

  -- The first weight above 100.
  unfoldable pub first_invalid : List (Mapping M) → Option GroupError
  first_invalid [] = none
  first_invalid (m ∷ ms) =
      if weight_ok m then first_invalid ms else some (invalid_weight m.name (weight_or_zero m))

  -- What the loop leaves when it ends.
  pub record Ended (current : ℕ) (ms : List (Mapping M)) (s : Scan M) : Type ℓ where
    pub current_weight : s.current_weight ≡ current + total_weight ms
    pub normalized : s.normalized_mappings ≡ cumulate current (weighted ms)
    pub left : s.weightless_mappings ≡ weightless ms

  pub invalid-scan :
      (current : ℕ) (ms : List (Mapping M)) → (scan current ms).invalid ≡ first_invalid ms
  unfolding scan first_invalid with_weighted with_weightless
  invalid-scan current [] = refl
  invalid-scan current (m ∷ ms) = elim (Option-cases m.weight) [
    | inl e ↦ ground (arith, invalid-scan current ms)
    | inr (w, e) ↦ ground (arith, invalid-scan (current + w) ms)
  ]

  pub all_ok-eq :
      (ms : List (Mapping M)) → all_ok ms ≡ elim (first_invalid ms) [ none ↦ true | some _ ↦ false ]
  unfolding all_ok first_invalid
  all_ok-eq [] = refl
  all_ok-eq (m ∷ ms) = ground (arith, all_ok-eq ms)

  pub first_invalid-all_ok : (ms : List (Mapping M)) → all_ok ms ≡ true → first_invalid ms ≡ none
  unfolding all_ok first_invalid
  first_invalid-all_ok [] h = refl
  first_invalid-all_ok (m ∷ ms) h = ground (arith, first_invalid-all_ok ms)

  pub scan-Ended :
      (current : ℕ) (ms : List (Mapping M)) → all_ok ms ≡ true → Ended current ms (scan current ms)
  unfolding scan all_ok weighted weightless total_weight cumulate with_weighted with_weightless
  scan-Ended current [] h = record { current_weight = omega arith; normalized = refl; left = refl }
  scan-Ended current (m ∷ ms) h = elim (Option-cases m.weight) [
    | inl e ↦
        let ih = scan-Ended current ms (ground arith) in
        record {
          current_weight = ground (arith, ih.current_weight);
          normalized = ground (arith, ih.normalized);
          left = ground (arith, ih.left);
        }
    | inr (w, e) ↦
        let ih = scan-Ended (current + w) ms (ground arith) in
        record {
          current_weight = ground (arith, ih.current_weight);
          normalized = ground (arith, ih.normalized);
          left = ground (arith, ih.left);
        }
  ]
