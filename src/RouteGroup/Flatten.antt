-- ===== src/RouteGroup/Flatten.antt =====
-- The fields of a group when it is finalized: the first part of `finalize` of
-- python/ambassador/src/ambassador/ir/irhttpmappinggroup.py. `V` are the values of fields, and `H` those in a
-- dictionary of headers or labels; `entries` reads such a dictionary out of a value and `dictionary` makes one.
use emissary.Prelude.{
  String, Bool, true, not, List, [], ◌∷◌, ◌++◌, Option, none, some, Dict, lookup, insert, has_key,
  contains, ◌||◌, if◌then◌else◌, string_eq,
}
use emissary.RouteGroup.{RouteMapping, core_mapping_keys}
use emissary.RouteGroup.Labels.{has_prefix}

-- `DoNotFlattenKeys`
abbrev pub do_not_flatten_keys : List String
do_not_flatten_keys =
    core_mapping_keys
    ++ "add_request_headers" ∷ "add_response_headers" ∷ "cluster" ∷ "cluster_key" ∷ "kind"
      ∷ "location" ∷ "name" ∷ "resolver" ∷ "rkey" ∷ "route_weight" ∷ "service" ∷ "stats_name"
      ∷ "weight" ∷ []

-- `skip_key` of a mapping
abbrev pub skip_key : String → Bool
skip_key k =
    has_prefix "__" k
    || has_prefix "_IRResource__" k
    || contains ("apiVersion" ∷ "logger" ∷ "ir" ∷ []) k

unfoldable pub is_flattened : String → Bool
is_flattened k = not (has_prefix "_" k || skip_key k || contains do_not_flatten_keys k)

module _ {ℓ} {V W : Type ℓ} (greater : W → W → Bool) where
  unfoldable pub insert_mapping :
      RouteMapping V W → List (RouteMapping V W) → List (RouteMapping V W)
  insert_mapping m [] = m ∷ []
  insert_mapping m (n ∷ ns) =
      let rest = insert_mapping m ns in
      if greater m.route_weight n.route_weight then n ∷ rest else m ∷ n ∷ ns

  -- `sorted(self.mappings, key=lambda m: m.route_weight)`, which keeps the order of equal weights
  unfoldable pub sort_mappings : List (RouteMapping V W) → List (RouteMapping V W)
  unfolding insert_mapping
  sort_mappings [] = []
  sort_mappings (m ∷ ms) = insert_mapping m (sort_mappings ms)

module _ {ℓ} {V : Type ℓ} where
  -- `for k in mapping.keys():`
  unfoldable pub flatten_fields : Dict String V → Dict String V → Dict String V
  flatten_fields [] group = group
  flatten_fields ((k, v) ∷ fields) group =
      flatten_fields fields (if is_flattened k then insert k v group else group)

module _ {ℓ} {V W : Type ℓ} where
  unfoldable pub flatten_mappings : List (RouteMapping V W) → Dict String V → Dict String V
  unfolding flatten_fields
  flatten_mappings [] group = group
  flatten_mappings (m ∷ ms) group = flatten_mappings ms (flatten_fields m.fields group)

-- What `finalize` reads of the Ambassador module
pub record Defaults {ℓ} (V : Type ℓ) : Type ℓ where
  pub load_balancer : V
  pub keepalive : Option V

-- How values are read and made: Python's truth, `is None`, a text, and dictionaries
pub record Reading {ℓ} (V H : Type ℓ) : Type ℓ where
  pub is_true : V → Bool
  pub is_none : V → Bool
  pub text : String → V
  pub entries : V → Dict String H
  pub dictionary : Dict String H → V

module _ {ℓ} {H : Type ℓ} where
  -- `d.update(more)`
  unfoldable pub update : Dict String H → Dict String H → Dict String H
  update [] d = d
  update ((k, v) ∷ more) d = update more (insert k v d)

module _ {ℓ} {V H W : Type ℓ} where
  -- What the loop over the mappings gathers by `update`, from what each gives
  unfoldable pub merge_given :
      (RouteMapping V W → Dict String H) → List (RouteMapping V W) → Dict String H → Dict String H
  unfolding update
  merge_given given [] d = d
  merge_given given (m ∷ ms) d = merge_given given ms (update (given m) d)

module _ {ℓ} {V H W : Type ℓ} (r : Reading V H) where
  -- `mapping.get(key, {})`
  abbrev pub given_headers : String → RouteMapping V W → Dict String H
  given_headers key m = elim (lookup key m.fields) [ none ↦ [] | some v ↦ r.entries v ]

  -- `mapping.get("metadata_labels") or {}`
  abbrev pub labels_of : RouteMapping V W → Dict String H
  labels_of m = elim (lookup "metadata_labels" m.fields) [
    | none ↦ []
    | some v ↦ if r.is_true v then r.entries v else []
  ]

module _ {ℓ} {V H : Type ℓ} (r : Reading V H) where
  -- `if d: self[key] = d`
  abbrev pub set_gathered : String → Dict String H → Dict String V → Dict String V
  set_gathered key [] group = group
  set_gathered key (entry ∷ rest) group = insert key (r.dictionary (entry ∷ rest)) group

  -- `self.get(key, None) is None`
  abbrev pub is_missing : String → Dict String V → Bool
  is_missing key group = elim (lookup key group) [ none ↦ true | some v ↦ r.is_none v ]

  abbrev pub default_load_balancer : Defaults V → Dict String V → Dict String V
  default_load_balancer d group =
      if is_missing "load_balancer" group
      then insert "load_balancer" d.load_balancer group
      else group

  abbrev pub default_rewrite : Dict String V → Dict String V
  default_rewrite group =
      if has_key "rewrite" group then group else insert "rewrite" (r.text "/") group

  abbrev pub set_keepalive : Option V → Dict String V → Dict String V
  set_keepalive none group = group
  set_keepalive (some v) group = if r.is_true v then insert "keepalive" v group else group

  abbrev pub default_keepalive : Defaults V → Dict String V → Dict String V
  default_keepalive d group =
      if is_missing "keepalive" group then set_keepalive d.keepalive group else group

module _ {ℓ} {V H W : Type ℓ} (r : Reading V H) (greater : W → W → Bool) where
  -- The loop over the mappings, with what it gathers
  unfoldable pub merge_mappings : List (RouteMapping V W) → Dict String V → Dict String V
  unfolding sort_mappings flatten_mappings merge_given
  merge_mappings ms group =
      let sorted = sort_mappings greater ms in
      set_gathered r "metadata_labels" (merge_given (labels_of r) sorted []) (
        set_gathered r "add_response_headers"
          (merge_given (given_headers r "add_response_headers") sorted [])
          (set_gathered r "add_request_headers"
            (merge_given (given_headers r "add_request_headers") sorted [])
            (flatten_mappings sorted group)))

  -- All that `finalize` does to the fields other than the labels
  unfoldable pub finalize_fields :
      Defaults V → List (RouteMapping V W) → Dict String V → Dict String V
  unfolding merge_mappings
  finalize_fields d ms group =
      default_keepalive r d
        (default_rewrite r (default_load_balancer r d (merge_mappings ms group)))
