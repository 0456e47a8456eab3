-- ===== src/MappingGroup/Tests.antt =====
-- Groups run by evaluation, and the theorems at them.
use emissary.Prelude.{
  ℕ, ◌+◌, ◌-◌, ◌*◌, ◌≤◌, ◌<◌, String, true, false, List, [], ◌∷◌, none, some, ◌≡◌, refl, map,
  length, arith,
}
use emissary.MappingGroup.{Mapping, MappingGroup, invalid_weight, normalize_weights}
use emissary.MappingGroup.Rounding.{round_div}
use emissary.MappingGroup.Reference.{weightless, total_weight, all_ok, first_invalid}
use emissary.MappingGroup.Laws.{normalize-succeeds, normalize-errors}
use emissary.MappingGroup.Weights.{in_order, refusals}
use emissary.MappingGroup.Bounds.{Ascends, normalize-Ascends_few}

abbrev plain : String → Mapping ℕ
plain name = record { name = name; weight = none; calculated = 0; content = 0 }

abbrev canary : String → ℕ → Mapping ℕ
canary name w = record { name = name; weight = some w; calculated = 0; content = 0 }

abbrev group_of : List (Mapping ℕ) → MappingGroup ℕ
group_of ms = record { mappings = ms; errors = [] }

-- Two mappings share what a canary of 10 leaves.
abbrev rollout : MappingGroup ℕ
rollout = group_of (plain "a" ∷ canary "b" 10 ∷ plain "c" ∷ [])

rollout_weights :
    map (λ m. m.calculated) (normalize_weights rollout).1.mappings ≡ 10 ∷ 55 ∷ 100 ∷ []
unfolding normalize_weights round_div
rollout_weights = refl

rollout_won : (normalize_weights rollout).0 ≡ true
unfolding normalize_weights round_div
rollout_won = refl

-- Five mappings share what a canary of 97 leaves: each gets 1, and the fourth stands at 101.
abbrev crowd : MappingGroup ℕ
crowd = group_of (canary "x" 97 ∷ plain "a" ∷ plain "b" ∷ plain "c" ∷ plain "d" ∷ plain "e" ∷ [])

crowd_weights :
    map (λ m. m.calculated) (normalize_weights crowd).1.mappings
    ≡ 97 ∷ 98 ∷ 99 ∷ 100 ∷ 101 ∷ 100 ∷ []
unfolding normalize_weights round_div
crowd_weights = refl

crowd_won : (normalize_weights crowd).0 ≡ true
unfolding normalize_weights round_div
crowd_won = refl

abbrev broken : MappingGroup ℕ
broken = group_of (canary "a" 30 ∷ plain "b" ∷ canary "c" 120 ∷ canary "d" 130 ∷ [])

broken_lost : (normalize_weights broken).0 ≡ false
unfolding normalize_weights
broken_lost = refl

normalize-succeeds_example : (normalize_weights rollout).0 ≡ true
unfolding in_order all_ok total_weight
normalize-succeeds_example = normalize-succeeds rollout

normalize-errors_example : (normalize_weights broken).1.errors ≡ invalid_weight "c" 120 ∷ []
unfolding refusals first_invalid all_ok total_weight
normalize-errors_example = normalize-errors broken

rollout_few : length (weightless rollout.mappings) ≤ 4
unfolding weightless
rollout_few = omega arith

normalize-Ascends_few_example : Ascends 0 100 (normalize_weights rollout).1.mappings
normalize-Ascends_few_example = normalize-Ascends_few rollout rollout_won refl rollout_few

crowd_over :
    100
    < total_weight crowd.mappings
      + round_div (100 - total_weight crowd.mappings) (length (weightless crowd.mappings))
        * (length (weightless crowd.mappings) - 1)
unfolding total_weight round_div weightless
crowd_over = omega arith
