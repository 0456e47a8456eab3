-- ===== src/RouteGroup/Finalized.antt =====
-- The fields that a group has once it is finalized.
use emissary.Prelude.{
  String, Bool, true, false, List, [], ◌∷◌, Option, none, some, Dict, lookup, insert, lookup-insert,
  ◌==◌, if◌then◌else◌, string_eq, keys, is_set, ◌≡◌, ◌≢◌, refl, sym, ap, ◌∙◌, eq_iff, Bool-cases,
  inl, inr,
}
use emissary.RouteGroup.{RouteMapping}
use emissary.RouteGroup.Flatten.{
  is_flattened, sort_mappings, Reading, Defaults, merge_given, labels_of, set_gathered, is_missing,
  default_load_balancer, default_rewrite, set_keepalive, default_keepalive, merge_mappings,
  finalize_fields,
}
use emissary.RouteGroup.Given.{or_else, field_of, are_dicts, lookup-flatten_mappings}
use emissary.RouteGroup.Heaviest.{IsOrder, heaviest, all-sort_mappings, last_given-sort_mappings}

other_key : (j k : String) → is_flattened j ≡ false → is_flattened k ≡ true → (j == k) ≡ false
other_key j k own flat = elim (Bool-cases (j == k)) [
  | inr other ↦ other
  | inl same ↦
      absurd (let e : is_flattened j ≡ is_flattened k = ap is_flattened ((eq_iff j k).0 same) in cc)
]

module _ {ℓ} {V H : Type ℓ} (r : Reading V H) (k : String) where
  lookup_kept_insert :
      (j : String) (v : V) (group : Dict String V)
      → (j == k) ≡ false
      → lookup k (insert j v group) ≡ lookup k group
  lookup_kept_insert j v group other = lookup-insert j k v group ∙ rw other

  lookup_kept_gathered :
      (j : String) (d : Dict String H) (group : Dict String V)
      → (j == k) ≡ false
      → lookup k (set_gathered r j d group) ≡ lookup k group
  lookup_kept_gathered j [] group other = refl
  lookup_kept_gathered j (entry ∷ rest) group other = lookup_kept_insert j _ group other

  lookup_kept_if :
      (b : Bool) (changed group : Dict String V)
      → lookup k changed ≡ lookup k group
      → lookup k (if b then changed else group) ≡ lookup k group
  lookup_kept_if true changed group e = e
  lookup_kept_if false changed group e = refl

  kept_keepalive :
      (o : Option V) (group : Dict String V)
      → is_flattened k ≡ true
      → lookup k (set_keepalive r o group) ≡ lookup k group
  unfolding is_flattened
  kept_keepalive none group flat = refl
  kept_keepalive (some v) group flat =
      lookup_kept_if (r.is_true v) _ group
        (lookup_kept_insert "keepalive" v group (other_key "keepalive" k refl flat))

  -- The default of the field `rewrite`, and what other fields have
  abbrev pub or_slash : Option V → Option V
  or_slash o = if "rewrite" == k then or_else o (some (r.text "/")) else o

  lookup-default_rewrite :
      (group : Dict String V) → lookup k (default_rewrite r group) ≡ or_slash (lookup k group)
  lookup-default_rewrite group = by_value (lookup "rewrite" group) refl
    where
      same_field : ("rewrite" == k) ≡ true → lookup k group ≡ lookup "rewrite" group
      same_field same = ap (λ j. lookup j group) (sym ((eq_iff "rewrite" k).0 same))

      by_value :
          (o : Option V)
          → lookup "rewrite" group ≡ o
          → lookup k (
              if elim o [ none ↦ false | some _ ↦ true ]
              then group
              else insert "rewrite" (r.text "/") group)
            ≡ or_slash (lookup k group)
      by_value none at = elim (Bool-cases ("rewrite" == k)) [
        | inr other ↦ lookup_kept_insert "rewrite" (r.text "/") group other ∙ rw other
        | inl same ↦ lookup-insert "rewrite" k (r.text "/") group ∙ rw (same, same_field same ∙ at)
      ]
      by_value (some v) at = elim (Bool-cases ("rewrite" == k)) [
        | inr other ↦ rw other
        | inl same ↦ rw (same, same_field same ∙ at)
      ]

  kept_keepalive_default :
      (d : Defaults V) (group : Dict String V)
      → is_flattened k ≡ true
      → lookup k (default_keepalive r d group) ≡ lookup k group
  kept_keepalive_default d group flat =
      lookup_kept_if (is_missing r "keepalive" group) _ group
        (kept_keepalive d.keepalive group flat)

  kept_load_balancer :
      (d : Defaults V) (group : Dict String V)
      → is_flattened k ≡ true
      → lookup k (default_load_balancer r d group) ≡ lookup k group
  unfolding is_flattened
  kept_load_balancer d group flat = lookup_kept_if (is_missing r "load_balancer" group) _ group (
      lookup_kept_insert "load_balancer" d.load_balancer group
        (other_key "load_balancer" k refl flat))

module _ {ℓ} {V H W : Type ℓ} (r : Reading V H) (greater : W → W → Bool)
    (order : IsOrder greater) where
  lookup-merge_mappings :
      (k : String) (ms : List (RouteMapping V W)) (group : Dict String V)
      → is_flattened k ≡ true
      → k ≢ "metadata_labels"
      → are_dicts (sort_mappings greater ms) ≡ true
      → lookup k (merge_mappings r greater ms group) ≡ field_of k (heaviest greater k ms) group
  unfolding merge_mappings is_flattened
  lookup-merge_mappings k ms group flat plain unique =
      let sorted = sort_mappings greater ms in
      lookup_kept_gathered r k "metadata_labels" (merge_given (labels_of r) sorted []) _ not_labels
      ∙ (lookup_kept_gathered r k "add_response_headers" _ _
            (other_key "add_response_headers" k refl flat)
          ∙ (lookup_kept_gathered r k "add_request_headers" _ _
                (other_key "add_request_headers" k refl flat)
              ∙ (lookup-flatten_mappings k sorted group unique flat
                  ∙ ap (λ o. field_of k o group) (last_given-sort_mappings greater order k ms))))
    where
      not_labels : ("metadata_labels" == k) ≡ false
      not_labels = elim (Bool-cases ("metadata_labels" == k)) [
        | inl same ↦ absurd (plain (sym ((eq_iff "metadata_labels" k).0 same)))
        | inr other ↦ other
      ]

  -- The order of the weights is transitive and asymmetric, and the fields of each mapping are a dictionary. Then
  -- a field that is flattened, metadata_labels aside, has after `finalize` the value that the mapping of the
  -- greatest weight among those with the field has, of these the last; where no mapping has it, that of the group.
  -- A rewrite that neither has is "/".
  pub finalize_fields-heaviest :
      (d : Defaults V) (k : String) (ms : List (RouteMapping V W)) (group : Dict String V)
      → is_flattened k ≡ true
      → k ≢ "metadata_labels"
      → are_dicts ms ≡ true
      → lookup k (finalize_fields r greater d ms group)
        ≡ or_slash r k (field_of k (heaviest greater k ms) group)
  unfolding finalize_fields
  finalize_fields-heaviest d k ms group flat plain unique =
      let merged = merge_mappings r greater ms group in
      let balanced = default_load_balancer r d merged in
      let there =
        lookup-merge_mappings k ms group flat plain
          (all-sort_mappings greater (λ m. is_set (keys m.fields)) ms ∙ unique) in
      kept_keepalive_default r k d (default_rewrite r balanced) flat
      ∙ (lookup-default_rewrite r k balanced
          ∙ ap (or_slash r k) (kept_load_balancer r k d merged flat ∙ there))
