-- ===== src/RouteGroup/Labels.antt =====
-- The rate-limit labels of a group when it is finalized: `finalize` of
-- python/ambassador/src/ambassador/ir/irhttpmappinggroup.py, with `get_default_labels` of
-- ir/irambassador.py. `D` are the descriptors in a label. A label is changed in place, so that the labels
-- after a call are those that the next call starts from; what an exception leaves is not modelled.
use emissary.Prelude.{
  String, Bool, true, false, List, [], ◌∷◌, ◌++◌, Option, none, some, Dict, lookup, keys, length,
  nat_eqb, ltb, ◌==◌, ◌&&◌, if◌then◌else◌, string_eq,
}
use Prim.Native.Char.{code}
use emissary.Results.{Result, ok, raised, index_error, ◌>>=◌}

-- `s.startswith(prefix)`, from the prefix
abbrev pub has_prefix : String → String → Bool
has_prefix String.[] s = true
has_prefix (String.◌∷◌ c prefix) String.[] = false
has_prefix (String.◌∷◌ c prefix) (String.◌∷◌ d s) = nat_eqb (code c) (code d) && has_prefix prefix s

module _ {ℓ} where
  abbrev pub Label : Type ℓ → Type ℓ
  Label D = Dict String (List D)

  abbrev pub DomainLabels : Type ℓ → Type ℓ
  DomainLabels D = Dict String (List (Label D))

-- What the Ambassador module holds.
pub record LabelDefaults {ℓ} (D : Type ℓ) : Type ℓ where
  pub default_label_domain : String
  pub default_labels : Dict String (Dict String (List D))

-- Labels, with the errors posted: the keys of a label that has several entries
pub record Labelled {ℓ} (L : Type ℓ) : Type ℓ where
  pub labels : L
  pub posted : List (List String)

module _ {ℓ} {D : Type ℓ} where
  -- `if not domain:`
  abbrev pub domain_of : LabelDefaults D → Option String → String
  domain_of d none = d.default_label_domain
  domain_of d (some domain) = if domain == "" then d.default_label_domain else domain

  unfoldable pub defaults_in : LabelDefaults D → String → Option (List D)
  defaults_in d domain = elim (lookup domain d.default_labels) [
    | none ↦ none
    | some domain_info ↦ lookup "defaults" domain_info
  ]

  unfoldable pub get_default_labels : LabelDefaults D → Option String → Option (List D)
  unfolding defaults_in
  get_default_labels d domain = defaults_in d (domain_of d domain)

  -- The body of `for label in labels[domain]:`
  unfoldable pub prepend : List D → Label D → Result (Labelled (Label D))
  prepend defaults [] = raised index_error
  prepend defaults ((lkey, values) ∷ others) = ok (record {
    labels =
        if has_prefix "v0_ratelimit_" lkey
        then (lkey, values) ∷ others
        else (lkey, defaults ++ values) ∷ others;
    posted =
        if ltb 1 (length ((lkey, values) ∷ others))
        then keys ((lkey, values) ∷ others) ∷ []
        else [];
  })

  unfoldable pub prepend_all : List D → List (Label D) → Result (Labelled (List (Label D)))
  unfolding prepend
  prepend_all defaults [] = ok (record { labels = []; posted = [] })
  prepend_all defaults (label ∷ rest) = do
    one ← prepend defaults label
    others ← prepend_all defaults rest
    ok (record { labels = one.labels ∷ others.labels; posted = one.posted ++ others.posted })

  -- `if defaults:`
  unfoldable pub prepend_given :
      Option (List D) → List (Label D) → Result (Labelled (List (Label D)))
  unfolding prepend_all
  prepend_given none labels = ok (record { labels = labels; posted = [] })
  prepend_given (some []) labels = ok (record { labels = labels; posted = [] })
  prepend_given (some (first ∷ more)) labels = prepend_all (first ∷ more) labels

  -- `for domain in labels.keys():`
  unfoldable pub walk_labels : LabelDefaults D → DomainLabels D → Result (Labelled (DomainLabels D))
  unfolding prepend_given get_default_labels
  walk_labels d [] = ok (record { labels = []; posted = [] })
  walk_labels d ((domain, labels) ∷ rest) = do
    one ← prepend_given (get_default_labels d (some domain)) labels
    others ← walk_labels d rest
    ok (record {
      labels = (domain, one.labels) ∷ others.labels;
      posted = one.posted ++ others.posted;
    })

  -- DomainLabels for a group that has none
  unfoldable pub label_defaults :
      LabelDefaults D → Option (DomainLabels D) → Option (DomainLabels D)
  unfolding get_default_labels
  label_defaults d labels = elim (get_default_labels d none) [
    | none ↦ labels
    | some [] ↦ labels
    | some (first ∷ more) ↦
        some ((d.default_label_domain, (("defaults", first ∷ more) ∷ []) ∷ []) ∷ [])
  ]

  -- `if not labels: ... else: ...`
  unfoldable pub finalize_labels :
      LabelDefaults D → Option (DomainLabels D) → Result (Labelled (Option (DomainLabels D)))
  unfolding walk_labels label_defaults
  finalize_labels d none = ok (record { labels = label_defaults d none; posted = [] })
  finalize_labels d (some []) = ok (record { labels = label_defaults d (some []); posted = [] })
  finalize_labels d (some (domain ∷ rest)) = do
    walked ← walk_labels d (domain ∷ rest)
    ok (record { labels = some walked.labels; posted = walked.posted })
