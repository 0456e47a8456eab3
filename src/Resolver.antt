-- ===== src/Resolver.antt =====
-- How an upstream service becomes endpoints, python/ambassador/src/ambassador/ir/irserviceresolver.py,
-- with `resolve_resolver` and `resolve_targets` of ir/ir.py. Names of services, namespaces and
-- datacenters are lists of code points. `R` is what a resolver holds beside the fields that are used
-- here; `ip_address` is that of Python's ipaddress, none where it raises. The debug log is not modelled.
pub mod Endpoints
pub mod Registry
pub mod Laws
mod Tests
use emissary.Prelude.{
  ℕ, zero, suc, String, Bool, true, false, not, List, [], ◌∷◌, ◌++◌, Option, none, some, Dict,
  lookup, insert, nat_eqb, ◌&&◌, ◌||◌, if◌then◌else◌, HasEq, contains, string_eq, ◌≡◌, ◌↔◌, refl,
}
use emissary.Results.{Result, ok, raised, attribute_error, key_error, assertion_error, ◌>>=◌}
use emissary.HostGlob.Text.{text_eqb, text_eqb_iff}

instance abbrev pub text_eq : HasEq (List ℕ)
text_eq = record { eqb = text_eqb; eqb_iff = text_eqb_iff }

-- `self.kind`
pub data ResolverKind : Type 0 where
  consul_resolver kubernetes_service_resolver kubernetes_endpoint_resolver : ResolverKind
  other_kind : String → ResolverKind

-- What a resolver is made from.
pub record ResolverConfig {ℓ} (R : Type ℓ) : Type ℓ where
  pub name : String
  pub kind : ResolverKind
  pub datacenter : Option (List ℕ)
  pub rest : R

pub record Resolver {ℓ} (R : Type ℓ) : Type ℓ where
  pub config : ResolverConfig R
  pub resolve_with : Option String
  -- `_active` and `_errored`
  pub active : Bool
  pub errored : Bool

pub data ResolverError : Type 0 where
  no_datacenter : String → ResolverError
  kind_unknown : String → ResolverKind → ResolverError

-- The resolvers of the IR by name, and what was posted.
pub record Resolvers {ℓ} (R : Type ℓ) : Type ℓ where
  pub resolvers : Dict String (Resolver R)
  pub errors : List ResolverError

-- `not datacenter`
abbrev pub is_unset : Option (List ℕ) → Bool
is_unset none = true
is_unset (some []) = true
is_unset (some (_ ∷ _)) = false

module _ {ℓ} {R : Type ℓ} where
  -- The state before `setup`
  abbrev pub blank : ResolverConfig R → Resolver R
  blank c = record { config = c; resolve_with = none; active = false; errored = false }

  abbrev pub resolving_with : String → ResolverConfig R → Resolver R
  resolving_with name c = record (blank c) { resolve_with = some name }

  -- `setup` by the kind, with its answer and what it posts, which marks the resolver as errored
  unfoldable pub setup_as : ResolverKind → ResolverConfig R → Resolver R × Bool × List ResolverError
  setup_as consul_resolver c =
      if is_unset c.datacenter
      then (record (resolving_with "consul" c) { errored = true }, false, no_datacenter c.name ∷ [])
      else (resolving_with "consul" c, true, [])
  setup_as kubernetes_service_resolver c = (resolving_with "k8s" c, true, [])
  setup_as kubernetes_endpoint_resolver c = (resolving_with "k8s" c, true, [])
  setup_as (other_kind k) c =
      (record (blank c) { errored = true }, false, kind_unknown c.name (other_kind k) ∷ [])

  abbrev pub setup : ResolverConfig R → Resolver R × Bool × List ResolverError
  setup c = setup_as c.kind c

  -- `IRServiceResolver(ir, aconf, **config)`
  unfoldable pub create : ResolverConfig R → Resolver R
  unfolding setup_as
  create c = let (r, answer, _) = setup c in record r { active = answer }

  -- `bool(resolver)`
  abbrev pub is_usable : Resolver R → Bool
  is_usable r = r.active && not r.errored

  abbrev pub is_there : Option (Resolver R) → Bool
  is_there none = false
  is_there (some r) = is_usable r

  -- `bool(ir.get_resolver(name))`
  unfoldable pub has_resolver : String → Resolvers R → Bool
  has_resolver name s = is_there (lookup name s.resolvers)

  -- `ir.add_resolver(IRServiceResolver(...))`
  unfoldable pub add_resolver : ResolverConfig R → Resolvers R → Resolvers R
  unfolding setup_as
  add_resolver c s =
      let (_, _, posted) = setup c in
      record { resolvers = insert c.name (create c) s.resolvers; errors = s.errors ++ posted }

  -- Before the resolvers are loaded
  abbrev pub no_resolvers : Resolvers R
  no_resolvers = record { resolvers = []; errors = [] }

  -- `for config in config_info.values():`
  pub add_resolvers : List (ResolverConfig R) → Resolvers R → Resolvers R
  add_resolvers [] s = s
  add_resolvers (c ∷ rest) s = add_resolvers rest (add_resolver c s)

  -- A copy of `source` under `name`, where it can be used
  unfoldable pub copy_resolver : String → Option (Resolver R) → Resolvers R → Resolvers R
  copy_resolver name none s = s
  copy_resolver name (some source) s =
      if is_usable source then add_resolver (record source.config { name = name }) s else s

  unfoldable pub check_aliases : String → String → Resolvers R → Resolvers R
  check_aliases n1 n2 s =
      if not (has_resolver n1 s)
      then copy_resolver n1 (lookup n2 s.resolvers) s
      else (if not (has_resolver n2 s) then copy_resolver n2 (lookup n1 s.resolvers) s else s)

  -- Two names for one resolver: both are made where there is neither, or else one is a copy of the other.
  unfoldable pub ensure_pair : String → String → ResolverConfig R → Resolvers R → Resolvers R
  ensure_pair n1 n2 default s =
      if not (has_resolver n1 s) && not (has_resolver n2 s)
      then add_resolver (record default { name = n1 }) (add_resolver default s)
      else check_aliases n1 n2 s

  module _ (default_rest consul_rest : R) where
    unfoldable pub ensure_service : Resolvers R → Resolvers R
    ensure_service s =
        if not (has_resolver "kubernetes-service" s)
        then add_resolver
            (record {
              name = "kubernetes-service";
              kind = kubernetes_service_resolver;
              datacenter = none;
              rest = default_rest;
            })
            s
        else s

    -- `dc1`
    abbrev pub default_datacenter : List ℕ
    default_datacenter = b'd' ∷ b'c' ∷ b'1' ∷ []

    unfoldable pub load_all : List (ResolverConfig R) → Resolvers R → Resolvers R
    load_all configs s =
        ensure_pair "consul" "consul-endpoint"
          (record {
            name = "consul-endpoint";
            kind = consul_resolver;
            datacenter = some default_datacenter;
            rest = consul_rest;
          })
          (ensure_pair "endpoint" "kubernetes-endpoint"
            (record {
              name = "kubernetes-endpoint";
              kind = kubernetes_endpoint_resolver;
              datacenter = none;
              rest = default_rest;
            })
            (ensure_service (add_resolvers configs s)))
