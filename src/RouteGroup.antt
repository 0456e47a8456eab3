-- ===== src/RouteGroup.antt =====
-- The groups that mappings are put into, python/ambassador/src/ambassador/ir/irhttpmappinggroup.py and
-- ir/irtcpmappinggroup.py: `__init__`, without keyword arguments, and `add_mapping`. `V` are the values of
-- the fields of a mapping, `is_true` is Python's truth of such a value; `W` are the route weights with
-- `greater`, Python's `>` on them. What is posted is kept without its text.
pub mod Laws
pub mod Accepted
pub mod Tcp
pub mod Labels
pub mod Prepended
pub mod Relabelled
pub mod Flatten
pub mod Given
pub mod Heaviest
pub mod Finalized
pub mod Finalize
pub mod Lifted
pub mod Clustered
pub mod Answered
mod Tests
mod FinalTests
mod FinalizeTests
use emissary.Prelude.{
  String, Bool, true, false, not, List, [], ◌∷◌, ◌++◌, Option, none, some, Dict, lookup, insert,
  erase, has_key, ◌==◌, ◌&&◌, ◌||◌, if◌then◌else◌, string_eq, HasEq,
}

pub record RouteMapping {ℓ} (V W : Type ℓ) : Type ℓ where
  pub name : String
  pub fields : Dict String V
  pub route_weight : W
  -- `bool(mapping)`: it is active, and no error was posted on it
  pub usable : Bool

-- What `post_error` is called with: the mapping that is refused, and the one that it conflicts with.
pub data GroupPost : Type 0 where
  mismatched : String → List String → GroupPost
  both_set : String → GroupPost
  second_shadow : String → String → GroupPost
  second_redirect : String → String → GroupPost
  redirect_after_mappings : String → String → GroupPost
  mapping_after_redirect : String → String → GroupPost

pub record HttpGroup {ℓ} (V W : Type ℓ) : Type ℓ where
  pub fields : Dict String V
  pub group_weight : W
  pub mappings : List (RouteMapping V W)
  pub shadows : List (RouteMapping V W)
  pub host_redirect : Option (RouteMapping V W)
  pub posted : List GroupPost
  pub references : List String

-- `CoreMappingKeys`
abbrev pub core_mapping_keys : List String
core_mapping_keys =
    "bypass_auth" ∷ "circuit_breakers" ∷ "cluster_timeout_ms" ∷ "connect_timeout_ms"
    ∷ "cluster_idle_timeout_ms" ∷ "cluster_max_connection_lifetime_ms" ∷ "group_id" ∷ "headers"
    ∷ "keepalive" ∷ "labels" ∷ "load_balancer" ∷ "method" ∷ "prefix" ∷ "prefix_regex"
    ∷ "prefix_exact" ∷ []

module _ {ℓ} {V : Type ℓ} ⦃e : HasEq V⦄ where
  -- `(k in mapping) and ((k not in self) or (mapping[k] != self[k]))`
  unfoldable pub differs : String → Dict String V → Dict String V → Bool
  differs k mapping group = elim (lookup k mapping) [
    | none ↦ false
    | some v ↦ elim (lookup k group) [ none ↦ true | some w ↦ not (v == w) ]
  ]

  pub mismatches : List String → Dict String V → Dict String V → List String
  mismatches [] mapping group = []
  mismatches (k ∷ ks) mapping group =
      let rest = mismatches ks mapping group in if differs k mapping group then k ∷ rest else rest

module _ {ℓ} {V : Type ℓ} where
  -- `for k in CoreMappingKeys:` of `__init__`
  unfoldable pub lift_keys : List String → Dict String V → Dict String V → Dict String V
  lift_keys [] mapping group = group
  lift_keys (k ∷ ks) mapping group = lift_keys ks mapping (elim (lookup k mapping) [
    | none ↦ group
    | some v ↦ if has_key k group then group else insert k v group
  ])

module _ {ℓ} {V W : Type ℓ} (is_true : V → Bool) (greater : W → W → Bool) where
  -- `mapping.get(key, False)`, as a test
  abbrev pub flag : String → RouteMapping V W → Bool
  flag key m = elim (lookup key m.fields) [ none ↦ false | some v ↦ is_true v ]

  abbrev pub drop_redirects : RouteMapping V W → RouteMapping V W
  drop_redirects m = record m {
    fields =
        erase "regex_redirect"
          (erase "prefix_redirect" (erase "path_redirect" (erase "host_redirect" m.fields)));
  }

  abbrev pub post : GroupPost → HttpGroup V W → HttpGroup V W
  post p g = record g { posted = g.posted ++ p ∷ [] }

  abbrev pub refer : RouteMapping V W → HttpGroup V W → HttpGroup V W
  refer m g = record g { references = g.references ++ m.name ∷ [] }

  -- `if self.host_redirect:`
  unfoldable pub redirect_of : HttpGroup V W → Option (RouteMapping V W)
  redirect_of g = elim g.host_redirect [
    | none ↦ none
    | some other ↦ if other.usable then some other else none
  ]

  unfoldable pub add_shadow : RouteMapping V W → HttpGroup V W → HttpGroup V W
  add_shadow m g = elim g.shadows [
    | [] ↦ record g { shadows = m ∷ [] }
    | first ∷ _ ↦ post (second_shadow m.name first.name) g
  ]

  unfoldable pub add_redirect : RouteMapping V W → HttpGroup V W → HttpGroup V W
  add_redirect m g = elim (redirect_of g) [
    | some other ↦ post (second_redirect m.name other.name) g
    | none ↦ elim g.mappings [
      | first ∷ _ ↦ post (redirect_after_mappings m.name first.name) g
      | [] ↦ record g { host_redirect = some m }
    ]
  ]

  abbrev pub raise_weight : W → HttpGroup V W → HttpGroup V W
  raise_weight w g = record g {
    group_weight = if greater w g.group_weight then w else g.group_weight;
  }

  unfoldable pub add_plain : RouteMapping V W → HttpGroup V W → HttpGroup V W
  add_plain m g = elim (redirect_of g) [
    | some other ↦ post (mapping_after_redirect m.name other.name) g
    | none ↦ raise_weight m.route_weight (record g { mappings = g.mappings ++ m ∷ [] })
  ]

  -- A mapping with no mismatch; `shadow` wins over `host_redirect`.
  unfoldable pub place_mapping : RouteMapping V W → HttpGroup V W → HttpGroup V W
  place_mapping m g =
      if flag "shadow" m
      then (if flag "host_redirect" m
          then add_shadow (drop_redirects m) (post (both_set m.name) g)
          else add_shadow m g)
      else (if flag "host_redirect" m then add_redirect m g else add_plain m g)

  module _ ⦃e : HasEq V⦄ where
    unfoldable pub add_mapping : RouteMapping V W → HttpGroup V W → HttpGroup V W
    add_mapping m g = elim (mismatches core_mapping_keys m.fields g.fields) [
      | [] ↦ refer m (place_mapping m g)
      | k ∷ ks ↦ post (mismatched m.name (k ∷ ks)) g
    ]

    -- The group before its first mapping is added
    abbrev pub blank_group : RouteMapping V W → HttpGroup V W
    blank_group m = record {
      fields = lift_keys core_mapping_keys m.fields [];
      group_weight = m.route_weight;
      mappings = [];
      shadows = [];
      host_redirect = none;
      posted = [];
      references = [];
    }

    -- `IRHTTPMappingGroup(ir, aconf, location, mapping)`
    unfoldable pub new_group : RouteMapping V W → HttpGroup V W
    unfolding add_mapping
    new_group m = add_mapping m (blank_group m)

    pub add_mappings : List (RouteMapping V W) → HttpGroup V W → HttpGroup V W
    add_mappings [] g = g
    add_mappings (m ∷ rest) g = add_mappings rest (add_mapping m g)
