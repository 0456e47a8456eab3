-- ===== src/RouteGroup/Prepended.antt =====
-- What one call of `finalize` makes of labels that have one entry each.
use emissary.Prelude.{
  ℕ, zero, suc, Bool, true, false, List, [], ◌∷◌, ◌++◌, Option, none, some, map, ◌&&◌, all,
  if◌then◌else◌, string_eq, ◌≡◌, refl, Bool-cases, inl, inr, arith,
}
use mathlib.Core.List.{append_assoc}
use emissary.Results.{ok}
use emissary.RouteGroup.Labels.{
  has_prefix, Label, DomainLabels, LabelDefaults, get_default_labels, prepend, prepend_all,
  prepend_given, walk_labels,
}

module _ {ℓ} {D : Type ℓ} where
  -- A label with exactly one entry, which is what the code expects
  abbrev pub is_single : Label D → Bool
  is_single [] = false
  is_single (entry ∷ []) = true
  is_single (entry ∷ other ∷ rest) = false

  abbrev pub are_single : DomainLabels D → Bool
  are_single [] = true
  are_single ((domain, labels) ∷ rest) = all is_single labels && are_single rest

  -- `n` copies of a list
  unfoldable pub times : ℕ → List D → List D
  times zero ds = []
  times (suc n) ds = times n ds ++ ds

  -- A label with `n` times the defaults before its values
  unfoldable pub with_defaults : ℕ → List D → Label D → Label D
  with_defaults n ds [] = []
  with_defaults n ds ((lkey, values) ∷ others) =
      (lkey, if has_prefix "v0_ratelimit_" lkey then values else times n ds ++ values) ∷ others

  abbrev pub or_empty : Option (List D) → List D
  or_empty none = []
  or_empty (some ds) = ds

  unfoldable pub all_with_defaults : ℕ → LabelDefaults D → DomainLabels D → DomainLabels D
  all_with_defaults n d [] = []
  all_with_defaults n d ((domain, labels) ∷ rest) =
      (domain, map (with_defaults n (or_empty (get_default_labels d (some domain)))) labels)
      ∷ all_with_defaults n d rest

  times-suc : (n : ℕ) (ds xs : List D) → times (suc n) ds ++ xs ≡ times n ds ++ (ds ++ xs)
  unfolding times
  times-suc n ds xs = append_assoc (times n ds) ds xs

  abbrev nothing : List D
  nothing = []

  times-nil : (n : ℕ) → times n nothing ≡ []
  unfolding times
  times-nil zero = refl
  times-nil (suc n) = rw (times-nil n)

  with_defaults-nil : (n : ℕ) (label : Label D) → with_defaults n nothing label ≡ label
  unfolding with_defaults
  with_defaults-nil n [] = refl
  with_defaults-nil n ((lkey, values) ∷ others) =
      elim (Bool-cases (has_prefix "v0_ratelimit_" lkey)) [
        | inl old ↦ rw old
        | inr new ↦ rw (new, times-nil n)
      ]

  map_nil : (n : ℕ) (labels : List (Label D)) → map (with_defaults n nothing) labels ≡ labels
  map_nil n [] = refl
  map_nil n (label ∷ labels) = rw (with_defaults-nil n label, map_nil n labels)

  prepend-single :
      (ds : List D) (label : Label D)
      → is_single label ≡ true
      → prepend ds label ≡ ok (record { labels = with_defaults 1 ds label; posted = [] })
  unfolding prepend with_defaults times
  prepend-single ds [] h = cc
  prepend-single ds ((lkey, values) ∷ []) h = elim (Bool-cases (has_prefix "v0_ratelimit_" lkey)) [
    | inl old ↦ rw old
    | inr new ↦ rw new
  ]
  prepend-single ds (entry ∷ other ∷ rest) h = cc

  prepend_all-single :
      (ds : List D) (labels : List (Label D))
      → all is_single labels ≡ true
      → prepend_all ds labels
        ≡ ok (record { labels = map (with_defaults 1 ds) labels; posted = [] })
  unfolding prepend_all
  prepend_all-single ds [] h = refl
  prepend_all-single ds (label ∷ labels) h =
      let one = prepend-single ds label (ground (arith, h)) in
      let others = prepend_all-single ds labels (ground (arith, h)) in rw (one, others)

  prepend_given-single :
      (o : Option (List D)) (labels : List (Label D))
      → all is_single labels ≡ true
      → prepend_given o labels
        ≡ ok (record { labels = map (with_defaults 1 (or_empty o)) labels; posted = [] })
  unfolding prepend_given
  prepend_given-single none labels h = rw (map_nil 1 labels)
  prepend_given-single (some []) labels h = rw (map_nil 1 labels)
  prepend_given-single (some (first ∷ more)) labels h = prepend_all-single (first ∷ more) labels h

  pub walk_labels-single :
      (d : LabelDefaults D) (labels : DomainLabels D)
      → are_single labels ≡ true
      → walk_labels d labels ≡ ok (record { labels = all_with_defaults 1 d labels; posted = [] })
  unfolding walk_labels all_with_defaults
  walk_labels-single d [] h = refl
  walk_labels-single d ((domain, labels) ∷ rest) h =
      let one =
        prepend_given-single (get_default_labels d (some domain)) labels (ground (arith, h)) in
      let others = walk_labels-single d rest (ground (arith, h)) in rw (one, others)
