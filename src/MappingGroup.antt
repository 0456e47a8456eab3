-- ===== src/MappingGroup.antt =====
-- The weights of the mappings in a group: `normalize_weights_in_mappings` of
-- python/ambassador/src/ambassador/ir/irbasemappinggroup.py.
-- Mappings are objects that the method changes in place; `M` is what a mapping holds beside its name
-- and weights. Weights are taken to be natural numbers. The logger is not modelled.
pub mod Rounding
pub mod Reference
pub mod Weights
pub mod Laws
pub mod Bounds
mod Tests
use emissary.Prelude.{
  ℕ, zero, suc, ◌+◌, ◌-◌, String, Bool, true, false, List, [], ◌∷◌, ◌++◌, Option, none, some,
  length, ltb, nat_eqb, if◌then◌else◌,
}
use emissary.MappingGroup.Rounding.{round_div}

pub record Mapping {ℓ} (M : Type ℓ) : Type ℓ where
  pub name : String
  -- `mapping.weight`, where the mapping has one
  pub weight : Option ℕ
  -- `mapping._weight`
  pub calculated : ℕ
  pub content : M

-- What `post_error` is called with.
pub data GroupError : Type 0 where
  invalid_weight : String → ℕ → GroupError
  total_exceeds : GroupError

pub record MappingGroup {ℓ} (M : Type ℓ) : Type ℓ where
  pub mappings : List (Mapping M)
  pub errors : List GroupError

-- The local variables of the loop over the mappings, when it has ended or met an invalid weight;
-- `visited` is the list that it runs over, with what it has written to the mappings.
pub record Scan {ℓ} (M : Type ℓ) : Type ℓ where
  pub invalid : Option GroupError
  pub current_weight : ℕ
  pub normalized_mappings : List (Mapping M)
  pub weightless_mappings : List (Mapping M)
  pub visited : List (Mapping M)

module _ {ℓ} {M : Type ℓ} where
  abbrev pub set_calculated : ℕ → Mapping M → Mapping M
  set_calculated n m = record m { calculated = n }

  pub with_weighted : Mapping M → Scan M → Scan M
  with_weighted m s = record s {
    normalized_mappings = m ∷ s.normalized_mappings;
    visited = m ∷ s.visited;
  }

  pub with_weightless : Mapping M → Scan M → Scan M
  with_weightless m s = record s {
    weightless_mappings = m ∷ s.weightless_mappings;
    visited = m ∷ s.visited;
  }

  -- `for mapping in self.mappings:`, from the weight that is assigned so far
  pub scan : ℕ → List (Mapping M) → Scan M
  scan current [] = record {
    invalid = none;
    current_weight = current;
    normalized_mappings = [];
    weightless_mappings = [];
    visited = [];
  }
  scan current (m ∷ ms) = elim m.weight [
    | none ↦ with_weightless m (scan current ms)
    | some w ↦ elim (ltb 100 w) [
      | true ↦ record {
        invalid = some (invalid_weight m.name w);
        current_weight = current;
        normalized_mappings = [];
        weightless_mappings = [];
        visited = m ∷ ms;
      }
      | false ↦ with_weighted (set_calculated (current + w) m) (scan (current + w) ms)
    ]
  ]

  -- `for i, weightless_mapping in enumerate(weightless_mappings):`; the last one gets 100.
  pub spread : ℕ → ℕ → List (Mapping M) → List (Mapping M)
  spread share current [] = []
  spread share current (m ∷ []) = set_calculated 100 m ∷ []
  spread share current (m ∷ n ∷ ms) =
      set_calculated (current + share) m ∷ spread share (current + share) (n ∷ ms)

  share_of : Scan M → ℕ
  share_of s = round_div (100 - s.current_weight) (length s.weightless_mappings)

  finish : Scan M → MappingGroup M → Bool × MappingGroup M
  finish s g = elim s.invalid [
    | some e ↦ (false, record { mappings = s.visited; errors = g.errors ++ e ∷ [] })
    | none ↦
        if ltb 100 s.current_weight
        then (false, record { mappings = s.visited; errors = g.errors ++ total_exceeds ∷ [] })
        else (
          true,
          record g {
            mappings =
                s.normalized_mappings ++ spread (share_of s) s.current_weight s.weightless_mappings;
          },
        )
  ]

  unfoldable pub normalize_weights : MappingGroup M → Bool × MappingGroup M
  unfolding finish share_of scan with_weighted with_weightless spread round_div
  normalize_weights g = elim g.mappings [
    | [] ↦ finish (scan 0 []) g
    | m ∷ ms ↦ elim ms [
      | [] ↦ (true, record g { mappings = set_calculated 100 m ∷ [] })
      | _ ∷ _ ↦ finish (scan 0 g.mappings) g
    ]
  ]
