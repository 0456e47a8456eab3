-- ===== src/RouteGroup/Given.antt =====
-- What flattening leaves in a field of a group: that of the last mapping that has it.
use emissary.Prelude.{
  String, Bool, true, false, List, [], ◌∷◌, Option, none, some, Dict, lookup, insert, has_key,
  contains, keys, is_set, all, lookup-insert, contains-keys, ◌==◌, if◌then◌else◌, string_eq, ◌≡◌,
  refl, sym, ap, ◌∙◌, arith, eq_iff, Bool-cases, Option-cases, inl, inr,
}
use emissary.RouteGroup.{RouteMapping}
use emissary.RouteGroup.Flatten.{is_flattened, flatten_fields, flatten_mappings}

abbrev pub or_else {ℓ} : {A : Type ℓ} → Option A → Option A → Option A
or_else none b = b
or_else (some a) b = some a

module _ {ℓ} {V : Type ℓ} where
  lookup_absent :
      (k : String) (fields : Dict String V)
      → contains (keys fields) k ≡ false
      → lookup k fields ≡ none
  lookup_absent k fields h = elim (Option-cases (lookup k fields)) [
    | inl missing ↦ missing
    | inr (v, found) ↦ absurd (let there = contains-keys k v fields found in cc)
  ]

  -- What a field of a mapping leaves of the group
  lookup_put :
      (k j : String) (v : V) (group : Dict String V)
      → is_flattened k ≡ true
      → lookup k (if is_flattened j then insert j v group else group)
        ≡ (if j == k then some v else lookup k group)
  lookup_put k j v group flat = elim (Bool-cases (is_flattened j)) [
    | inl taken ↦ rw taken (lookup-insert j k v group)
    | inr kept ↦ elim (Bool-cases (j == k)) [
      | inl same ↦
          absurd
            (let e : is_flattened j ≡ is_flattened k = ap is_flattened ((eq_iff j k).0 same) in cc)
      | inr other ↦ rw (kept, other)
    ]
  ]

  lookup-flatten_fields :
      (k : String) (fields group : Dict String V)
      → is_set (keys fields) ≡ true
      → is_flattened k ≡ true
      → lookup k (flatten_fields fields group) ≡ or_else (lookup k fields) (lookup k group)
  unfolding flatten_fields lookup
  lookup-flatten_fields k [] group unique flat = refl
  lookup-flatten_fields k ((j, v) ∷ fields) group unique flat =
      let ih =
        lookup-flatten_fields k fields (if is_flattened j then insert j v group else group)
          (ground (arith, unique)) flat in
      elim (Bool-cases (j == k)) [
        | inl same ↦
            let gone : lookup k fields ≡ none =
              lookup_absent k fields (ground (arith, unique, eq_iff j k, same)) in
            ih ∙ rw (same, gone) (lookup_put k j v group flat ∙ rw same)
        | inr other ↦
            ih ∙ rw other (ap (or_else (lookup k fields)) (lookup_put k j v group flat ∙ rw other))
      ]

module _ {ℓ} {V W : Type ℓ} where
  abbrev pub gives : String → RouteMapping V W → Bool
  gives k m = has_key k m.fields

  abbrev pub or_given :
      Bool → RouteMapping V W → Option (RouteMapping V W) → Option (RouteMapping V W)
  or_given given n none = if given then some n else none
  or_given given n (some b) = some b

  -- The last mapping with the field
  unfoldable pub last_given : String → List (RouteMapping V W) → Option (RouteMapping V W)
  last_given k [] = none
  last_given k (n ∷ ns) = or_given (gives k n) n (last_given k ns)

  -- The field of that mapping, or else the group's
  abbrev pub field_of : String → Option (RouteMapping V W) → Dict String V → Option V
  field_of k none group = lookup k group
  field_of k (some m) group = lookup k m.fields

  abbrev pub are_dicts : List (RouteMapping V W) → Bool
  are_dicts ms = all (λ m. is_set (keys m.fields)) ms

  pub lookup-flatten_mappings :
      (k : String) (ms : List (RouteMapping V W)) (group : Dict String V)
      → are_dicts ms ≡ true
      → is_flattened k ≡ true
      → lookup k (flatten_mappings ms group) ≡ field_of k (last_given k ms) group
  unfolding flatten_mappings last_given
  lookup-flatten_mappings k [] group unique flat = refl
  lookup-flatten_mappings k (m ∷ ms) group unique flat =
      lookup-flatten_mappings k ms (flatten_fields m.fields group) (ground (arith, unique)) flat
      ∙ one (last_given k ms)
    where
      here' :
          lookup k (flatten_fields m.fields group) ≡ or_else (lookup k m.fields) (lookup k group)
      here' = lookup-flatten_fields k m.fields group (ground (arith, unique)) flat

      from_value :
          (v : Option V)
          → lookup k m.fields ≡ v
          → field_of k (if elim v [ none ↦ false | some _ ↦ true ] then some m else none) group
            ≡ or_else v (lookup k group)
      from_value none e = refl
      from_value (some v) e = e

      one :
          (o : Option (RouteMapping V W))
          → field_of k o (flatten_fields m.fields group)
            ≡ field_of k (or_given (gives k m) m o) group
      one (some b) = refl
      one none = here' ∙ sym (from_value (lookup k m.fields) refl)
