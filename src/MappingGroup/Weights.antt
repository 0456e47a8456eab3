-- ===== src/MappingGroup/Weights.antt =====
-- What `normalize_weights_in_mappings` does to a group: when it succeeds, and which weights it gives.
use emissary.Prelude.{
  ℕ, ◌+◌, ◌-◌, Bool, true, false, List, [], ◌∷◌, ◌++◌, Option, none, some, ◌≡◌, refl, map, length,
  ltb, leb, nat_eqb, if◌then◌else◌, ◌&&◌, arith, Bool-cases, Option-cases, inl, inr, ◌∙◌,
}
use emissary.MappingGroup.{
  Mapping, MappingGroup, GroupError, total_exceeds, scan, spread, share_of, finish, set_calculated,
  normalize_weights,
}
use emissary.MappingGroup.Rounding.{round_div}
use emissary.MappingGroup.Reference.{
  weighted, weightless, total_weight, all_ok, cumulate, first_invalid, invalid-scan, scan-Ended,
  first_invalid-all_ok, all_ok-eq,
}

module _ {ℓ} {M : Type ℓ} where
  -- A group of one mapping is not looked at.
  abbrev pub is_single : List (Mapping M) → Bool
  is_single ms = nat_eqb (length ms) 1

  -- The weights of a group of several mappings that are in order.
  abbrev pub in_order : List (Mapping M) → Bool
  in_order ms = all_ok ms && leb (total_weight ms) 100

  abbrev pub share : List (Mapping M) → ℕ
  share ms = round_div (100 - total_weight ms) (length (weightless ms))

  abbrev pub result : List (Mapping M) → List (Mapping M)
  result ms = cumulate 0 (weighted ms) ++ spread (share ms) (total_weight ms) (weightless ms)

  -- The error that a group of several mappings is refused with.
  abbrev pub refusal : List (Mapping M) → Option GroupError
  refusal ms = elim (first_invalid ms) [
    | some e ↦ some e
    | none ↦ if leb (total_weight ms) 100 then none else some total_exceeds
  ]

  normalize-finish :
      (g : MappingGroup M)
      → is_single g.mappings ≡ false
      → normalize_weights g ≡ finish (scan 0 g.mappings) g
  unfolding normalize_weights
  normalize-finish g h = go g.mappings g.errors h
    where
      go :
          (ms : List (Mapping M)) (es : List GroupError)
          → is_single ms ≡ false
          → normalize_weights (record { mappings = ms; errors = es })
            ≡ finish (scan 0 ms) (record { mappings = ms; errors = es })
      go [] es h = refl
      go (m ∷ []) es h = cc
      go (m ∷ n ∷ ms) es h = refl

  -- It succeeds
  finish-in_order :
      (g : MappingGroup M)
      → in_order g.mappings ≡ true
      → finish (scan 0 g.mappings) g ≡ (true, record g { mappings = result g.mappings })
  unfolding finish share_of
  finish-in_order g h =
      let e = scan-Ended 0 g.mappings (ground arith) in
      let i = invalid-scan 0 g.mappings ∙ first_invalid-all_ok g.mappings (ground arith) in
      let cw : (scan 0 g.mappings).current_weight ≡ total_weight g.mappings =
        omega (arith, e.current_weight) in
      let small : ltb 100 (total_weight g.mappings) ≡ false = ground arith in
      rw (i, cw, e.normalized, e.left, small)

  total-scan :
      (current : ℕ) (ms : List (Mapping M))
      → all_ok ms ≡ true
      → (scan current ms).current_weight ≡ current + total_weight ms
  total-scan current ms h = (scan-Ended current ms h).current_weight

  -- It fails.
  finish-refused :
      (g : MappingGroup M) (e : GroupError)
      → refusal g.mappings ≡ some e
      → finish (scan 0 g.mappings) g
        ≡ (false, record { mappings = (scan 0 g.mappings).visited; errors = g.errors ++ e ∷ [] })
  unfolding finish
  finish-refused g e h = elim (Option-cases (first_invalid g.mappings)) [
    | inl valid ↦
        let ok : all_ok g.mappings ≡ true = ground (arith, all_ok-eq g.mappings) in
        let cw : (scan 0 g.mappings).current_weight ≡ total_weight g.mappings =
          omega (arith, (scan-Ended 0 g.mappings ok).current_weight) in
        let over : ltb 100 (total_weight g.mappings) ≡ true = ground arith in
        let same : total_exceeds ≡ e = ground arith in
        rw (invalid-scan 0 g.mappings ∙ valid, cw, over, same)
    | inr (e', bad) ↦ let same : e' ≡ e = ground arith in rw (invalid-scan 0 g.mappings ∙ bad, same)
  ]

  normalize-single :
      (g : MappingGroup M)
      → is_single g.mappings ≡ true
      → normalize_weights g ≡ (true, record g { mappings = map (set_calculated 100) g.mappings })
  unfolding normalize_weights
  normalize-single g h = go g.mappings g.errors h
    where
      go :
          (ms : List (Mapping M)) (es : List GroupError)
          → is_single ms ≡ true
          → normalize_weights (record { mappings = ms; errors = es })
            ≡ (true, record { mappings = map (set_calculated 100) ms; errors = es })
      go [] es h = cc
      go (m ∷ []) es h = refl
      go (m ∷ n ∷ ms) es h = ground arith

  -- What the method does with the errors of a group.
  abbrev pub refusals : List (Mapping M) → List GroupError
  refusals ms = if is_single ms then [] else elim (refusal ms) [ none ↦ [] | some e ↦ e ∷ [] ]

  -- The three ways that a call can end.
  pub data Outcome (g : MappingGroup M) : Bool × MappingGroup M → Type ℓ where
    single :
        is_single g.mappings ≡ true
        → Outcome g (true, record g { mappings = map (set_calculated 100) g.mappings })
    weighed :
        is_single g.mappings ≡ false
        → refusal g.mappings ≡ none
        → in_order g.mappings ≡ true
        → Outcome g (true, record g { mappings = result g.mappings })
    refused :
        (e : GroupError)
        → is_single g.mappings ≡ false
        → refusal g.mappings ≡ some e
        → in_order g.mappings ≡ false
        → Outcome g
            (false, record { mappings = (scan 0 g.mappings).visited; errors = g.errors ++ e ∷ [] })

  pub normalize-Outcome : (g : MappingGroup M) → Outcome g (normalize_weights g)
  normalize-Outcome g = elim (Bool-cases (is_single g.mappings)) [
    | inl one ↦ rw (normalize-single g one) (single one)
    | inr several ↦ elim (Option-cases (refusal g.mappings)) [
      | inl fine ↦
          let ok : in_order g.mappings ≡ true = ground (arith, all_ok-eq g.mappings) in
          rw (normalize-finish g several ∙ finish-in_order g ok) (weighed several fine ok)
      | inr (e, bad) ↦
          let wrong : in_order g.mappings ≡ false = ground (arith, all_ok-eq g.mappings) in
          rw (normalize-finish g several ∙ finish-refused g e bad) (refused e several bad wrong)
    ]
  ]
