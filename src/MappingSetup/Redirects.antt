-- ===== src/MappingSetup/Redirects.antt =====
-- Of the three redirects a mapping keeps one at most.
use emissary.Prelude.{
  String, Bool, true, false, not, List, [], Option, none, some, Dict, lookup, lookup-erase, has_key,
  ◌==◌, ◌&&◌, ◌||◌, if◌then◌else◌, string_eq, eq_iff, ◌≡◌, refl, ◌∙◌, ap, Bool-cases, inl, inr,
}
use mathlib.Core.Path.{subst}
use emissary.MappingSetup.{enforce_mutual_exclusion, enforce_redirects}

abbrev path : String
path = "path_redirect"

abbrev prefix : String
prefix = "prefix_redirect"

abbrev regex : String
regex = "regex_redirect"

module _ {ℓ} {V : Type ℓ} where
  missing : (k : String) (m : Dict String V) → has_key k m ≡ false → lookup k m ≡ none
  missing k m h = by_lookup (lookup k m) refl h
    where
      by_lookup :
          (o : Option V)
          → lookup k m ≡ o
          → (elim o [ none ↦ false | some _ ↦ true ]) ≡ false
          → lookup k m ≡ none
      by_lookup none at h = at
      by_lookup (some v) at h = absurd cc

  -- A call drops the other name where both are there, and no other field.
  lookup-enforce :
      (preferred other k : String) (fields : Dict String V) (posted : List (String × String))
      → lookup k (enforce_mutual_exclusion preferred other (fields, posted)).0
        ≡ (if other == k && has_key preferred fields then none else lookup k fields)
  unfolding enforce_mutual_exclusion
  lookup-enforce preferred other k fields posted = elim (Bool-cases (has_key preferred fields)) [
    | inr no_preferred ↦ rw no_preferred (unchanged (other == k))
    | inl both ↦ rw both (elim (Bool-cases (has_key other fields)) [
      | inl there ↦ rw there (lookup-erase other k fields ∙ same_test (other == k))
      | inr gone ↦ rw gone (elim (Bool-cases (other == k)) [
        | inl same ↦ rw same (
            subst (λ j. lookup j fields ≡ none) ((eq_iff other k).0 same)
              (missing other fields gone))
        | inr different ↦ rw different refl
      ])
    ])
  ]
    where
      unchanged : (b : Bool) → lookup k fields ≡ (if b && false then none else lookup k fields)
      unchanged true = refl
      unchanged false = refl

      same_test :
          (b : Bool)
          → (if b then none else lookup k fields) ≡ (if b && true then none else lookup k fields)
      same_test true = refl
      same_test false = refl

  has_key-enforce :
      (preferred other k : String) (fields : Dict String V) (posted : List (String × String))
      → has_key k (enforce_mutual_exclusion preferred other (fields, posted)).0
        ≡ (not (other == k && has_key preferred fields) && has_key k fields)
  has_key-enforce preferred other k fields posted =
      ap (λ o. elim o [ none ↦ false | some _ ↦ true ])
        (lookup-enforce preferred other k fields posted)
      ∙ by_test (other == k && has_key preferred fields)
    where
      by_test :
          (b : Bool)
          → (elim (if b then none else lookup k fields) [ none ↦ false | some _ ↦ true ])
            ≡ (not b && has_key k fields)
      by_test true = refl
      by_test false = refl

  combine :
      (is_prefix is_regex has_path has_prefix : Bool) (o : Option V)
      → (if is_regex && (not has_path && has_prefix)
          then none
          else (if is_regex && has_path then none else (if is_prefix && has_path then none else o)))
        ≡ (if is_prefix && has_path || is_regex && (has_path || has_prefix) then none else o)
  combine true true true true o = refl
  combine true true true false o = refl
  combine true true false true o = refl
  combine true true false false o = refl
  combine true false true true o = refl
  combine true false true false o = refl
  combine true false false true o = refl
  combine true false false false o = refl
  combine false true true true o = refl
  combine false true true false o = refl
  combine false true false true o = refl
  combine false true false false o = refl
  combine false false true true o = refl
  combine false false true false o = refl
  combine false false false true o = refl
  combine false false false false o = refl

  -- Of the three redirects the first in the order path, prefix, regex is kept and the others are dropped, and
  -- every other field stays.
  pub enforce_redirects-keeps :
      (k : String) (fields : Dict String V)
      → lookup k (enforce_redirects fields).0 ≡ (
          if ("prefix_redirect" == k && has_key "path_redirect" fields)
            || ("regex_redirect" == k
                && (has_key "path_redirect" fields || has_key "prefix_redirect" fields))
          then none
          else lookup k fields)
  unfolding enforce_redirects
  enforce_redirects-keeps k fields =
      let s₁ = enforce_mutual_exclusion path prefix (fields, []) in
      let s₂ = enforce_mutual_exclusion path regex s₁ in
      lookup-enforce prefix regex k s₂.0 s₂.1
      ∙ rw (lookup-enforce path regex k s₁.0 s₁.1) (
          rw (lookup-enforce path prefix k fields []) (
            rw (has_key-enforce path regex prefix s₁.0 s₁.1) (
              rw (has_key-enforce path prefix prefix fields []) (
                rw (has_key-enforce path prefix path fields []) (
                  combine (prefix == k) (regex == k) (has_key path fields) (has_key prefix fields)
                    (lookup k fields))))))
