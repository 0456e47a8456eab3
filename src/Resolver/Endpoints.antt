-- ===== src/Resolver/Endpoints.antt =====
-- Where a resolver looks for the endpoints of a service, and what it answers.
use emissary.Prelude.{
  ℕ, zero, suc, String, Bool, true, false, not, List, [], ◌∷◌, ◌++◌, Option, none, some, Dict,
  lookup, nat_eqb, ◌&&◌, ◌==◌, if◌then◌else◌, HasEq, contains, string_eq, nat_eq, ◌≡◌, ◌↔◌, refl,
  nat_eqb_iff, ap,
}
use emissary.Results.{Result, ok, raised, attribute_error, key_error, assertion_error, ◌>>=◌}
use emissary.Mapping.{before_dot}
use emissary.Resolver.{
  text_eq, ResolverKind, consul_resolver, kubernetes_service_resolver, kubernetes_endpoint_resolver,
  other_kind, Resolver, Resolvers, is_usable,
}

-- A key of `endpoints`: a port, or `"*"`.
pub data PortKey : Type 0 where
  any_port : PortKey
  at_port : ℕ → PortKey

abbrev pub port_eqb : PortKey → PortKey → Bool
port_eqb any_port any_port = true
port_eqb any_port (at_port _) = false
port_eqb (at_port _) any_port = false
port_eqb (at_port m) (at_port n) = nat_eqb m n

pub port_eqb_iff : (a b : PortKey) → (port_eqb a b ≡ true) ↔ (a ≡ b)
port_eqb_iff any_port any_port = (λ _. refl, λ _. refl)
port_eqb_iff any_port (at_port _) = (λ h. cc, λ h. cc)
port_eqb_iff (at_port _) any_port = (λ h. cc, λ h. cc)
port_eqb_iff (at_port m) (at_port n) =
    (λ h. ap at_port ((nat_eqb_iff m n).0 h), λ h. (nat_eqb_iff m n).1 cc)

instance abbrev pub port_eq : HasEq PortKey
port_eq = record { eqb = port_eqb; eqb_iff = port_eqb_iff }

-- `port or "*"`
abbrev pub port_key : Option ℕ → PortKey
port_key none = any_port
port_key (some zero) = any_port
port_key (some (suc n)) = at_port (suc n)

pub record SvcEndpoint : Type 0 where
  pub ip : List ℕ
  pub port : ℕ
  pub target_kind : Option String

pub record Service : Type 0 where
  pub name : String
  pub endpoints : Option (Dict PortKey (List SvcEndpoint))

-- What is posted where a service has endpoints, but none for the port.
pub record NoEndpoints : Type 0 where
  pub service : String
  pub key : List ℕ
  pub port : Option ℕ

-- The answer, and what was posted.
abbrev pub Resolved : Type 0
Resolved = Option (List SvcEndpoint) × List NoEndpoints

abbrev pub dash : ℕ
dash = b'-'

abbrev pub dot : ℕ
dot = b'.'

-- `f"k8s-{svc}-{namespace}"`
abbrev pub k8s_key : List ℕ → List ℕ → List ℕ
k8s_key svc namespace = b'k' ∷ b'8' ∷ b's' ∷ dash ∷ (svc ++ dash ∷ namespace)

-- `f"consul-{svc_name}-{datacenter}"`
abbrev pub consul_key : List ℕ → List ℕ → List ℕ
consul_key svc datacenter =
    b'c' ∷ b'o' ∷ b'n' ∷ b's' ∷ b'u' ∷ b'l' ∷ dash ∷ (svc ++ dash ∷ datacenter)

-- What stands after the first dot, where there is one.
unfoldable pub after_dot : List ℕ → List ℕ
after_dot [] = []
after_dot (c ∷ s) = let rest = after_dot s in if nat_eqb c dot then s else rest

-- `svc.split(".", 2)[0:2]`, of a text with a dot
unfoldable pub split_two : List ℕ → List ℕ × List ℕ
split_two s = (before_dot s, before_dot (after_dot s))

-- `"." in s`
abbrev pub has_dot : List ℕ → Bool
has_dot s = contains s dot

-- `targets` with `if targets:`
unfoldable pub listed : Option (List SvcEndpoint) → Option (List SvcEndpoint)
listed none = none
listed (some []) = none
listed (some (t ∷ targets)) = some (t ∷ targets)

-- The targets of a port in the endpoints of a service
unfoldable pub targets_of :
    Service → List ℕ → Option ℕ → Option (Dict PortKey (List SvcEndpoint)) → Resolved
targets_of service key port none = (none, [])
targets_of service key port (some []) = (none, [])
targets_of service key port (some (e ∷ endpoints)) =
    elim (listed (lookup (port_key port) (e ∷ endpoints))) [
      | some targets ↦ (some targets, [])
      | none ↦ (none, record { service = service.name; key = key; port = port } ∷ [])
    ]

unfoldable pub get_endpoints : Dict (List ℕ) Service → List ℕ → Option ℕ → Resolved
get_endpoints services key port = elim (lookup key services) [
  | none ↦ (none, [])
  | some service ↦ targets_of service key port service.endpoints
]

-- The entry of the cluster map, with none for a key that it has not
pub record ClustermapEntry : Type 0 where
  pub service : List ℕ
  pub namespace : Option (List ℕ)
  pub datacenter : Option (List ℕ)
  pub port : Option ℕ
  pub kind : ResolverKind
  pub endpoint_path : Option (List ℕ)

abbrev pub slash : ℕ
slash = b'/'

-- `self.datacenter`
abbrev pub the_datacenter {ℓ} : {R : Type ℓ} → Resolver R → Result (List ℕ)
the_datacenter r = elim r.config.datacenter [ none ↦ raised attribute_error | some dc ↦ ok dc ]

abbrev pub service_entry : ResolverKind → List ℕ → List ℕ → ℕ → ClustermapEntry
service_entry kind svc namespace port = record {
  service = svc;
  namespace = some namespace;
  datacenter = none;
  port = some port;
  kind = kind;
  endpoint_path = none;
}

abbrev pub consul_path : List ℕ → List ℕ → List ℕ
consul_path dc svc = b'c' ∷ b'o' ∷ b'n' ∷ b's' ∷ b'u' ∷ b'l' ∷ slash ∷ (dc ++ slash ∷ svc)

-- `resolver_name`, or else the module's
abbrev pub module_name : Option String → String
module_name none = "kubernetes-service"
module_name (some name) = name

abbrev pub chosen_name : Option String → Option String → String
chosen_name none module_resolver = module_name module_resolver
chosen_name (some name) module_resolver = if name == "" then module_name module_resolver else name

unfoldable pub resolve_resolver {ℓ} :
    {R : Type ℓ} → Option String → Option String → Resolvers R → Result (Resolver R)
resolve_resolver resolver_name module_resolver s =
    elim (lookup (chosen_name resolver_name module_resolver) s.resolvers) [
      | none ↦ raised assertion_error
      | some r ↦ ok r
    ]

-- What `valid_mapping` posts; the last is a notice.
pub data MappingPost : Type 0 where
  load_balancer_not_allowed no_dots_allowed port_ignored : MappingPost

abbrev pub colon : ℕ
colon = b':'

-- `valid_mapping`, by the kind, from whether the mapping has a load balancer and from its service
unfoldable pub valid_mapping : ResolverKind → Bool → List ℕ → Result (Bool × List MappingPost)
valid_mapping kubernetes_service_resolver load_balancer service =
    ok (if load_balancer then (false, load_balancer_not_allowed ∷ []) else (true, []))
valid_mapping kubernetes_endpoint_resolver load_balancer service = ok (true, [])
valid_mapping consul_resolver load_balancer service =
    let notices = (if contains service colon then port_ignored ∷ [] else []) in
    ok (if has_dot service then (false, no_dots_allowed ∷ notices) else (true, notices))
valid_mapping (other_kind _) load_balancer service = raised key_error

-- `str(n)` comes as the parameter `decimal`.
module _ {κ} {A : Type κ} (ip_address : List ℕ → Option A) (decimal : ℕ → List ℕ)
    (ambassador_namespace : List ℕ) (use_ambassador_namespace_for_service_resolution : Bool) where
  unfoldable pub is_ip_address : List ℕ → Bool
  is_ip_address addr = elim (ip_address addr) [ none ↦ false | some _ ↦ true ]

  unfoldable pub parse_service : List ℕ → List ℕ → List ℕ × List ℕ
  parse_service svc_name svc_namespace =
      if has_dot svc_name && not (is_ip_address svc_name)
      then split_two svc_name
      else (if not use_ambassador_namespace_for_service_resolution && not (svc_namespace == [])
          then (svc_name, svc_namespace)
          else (svc_name, ambassador_namespace))

  -- `resolve`, by the kind
  unfoldable pub resolve_as {ℓ} :
      {R : Type ℓ}
      → ResolverKind
      → Resolver R
      → Dict (List ℕ) Service
      → List ℕ
      → List ℕ
      → ℕ
      → Result Resolved
  unfolding parse_service
  resolve_as kubernetes_service_resolver r services svc_name svc_namespace port =
      ok (some (record { ip = svc_name; port = port; target_kind = some "DNSname" } ∷ []), [])
  resolve_as kubernetes_endpoint_resolver r services svc_name svc_namespace port =
      let (svc, namespace) = parse_service svc_name svc_namespace in
      ok (get_endpoints services (k8s_key svc namespace) (some port))
  resolve_as consul_resolver r services svc_name svc_namespace port = do
    dc ← the_datacenter r
    ok (get_endpoints services (consul_key svc_name dc) none)
  resolve_as (other_kind _) r services svc_name svc_namespace port = raised key_error

  abbrev pub resolve {ℓ} :
      {R : Type ℓ} → Resolver R → Dict (List ℕ) Service → List ℕ → List ℕ → ℕ → Result Resolved
  resolve r = resolve_as r.config.kind r

  -- `"/%s" % port`
  abbrev pub portstr : ℕ → List ℕ
  portstr zero = []
  portstr (suc n) = slash ∷ decimal (suc n)

  abbrev pub k8s_path : List ℕ → List ℕ → ℕ → List ℕ
  k8s_path namespace svc port =
      b'k' ∷ b'8' ∷ b's' ∷ slash ∷ (namespace ++ slash ∷ (svc ++ portstr port))

  unfoldable pub clustermap_entry {ℓ} :
      {R : Type ℓ} → Resolver R → List ℕ → List ℕ → ℕ → Result ClustermapEntry
  clustermap_entry r svc_name svc_namespace port = elim r.config.kind [
    | kubernetes_service_resolver ↦
        let (svc, namespace) = parse_service svc_name svc_namespace in
        ok (service_entry kubernetes_service_resolver svc namespace port)
    | kubernetes_endpoint_resolver ↦
        if is_ip_address svc_name
        then ok (service_entry kubernetes_service_resolver svc_name svc_namespace port)
        else (let (svc, namespace) = parse_service svc_name svc_namespace in
            ok (record (service_entry kubernetes_endpoint_resolver svc namespace port) {
              endpoint_path = some (k8s_path namespace svc port);
            }))
    | consul_resolver ↦
        if is_ip_address svc_name
        then ok (service_entry kubernetes_service_resolver svc_name svc_namespace port)
        else do
          dc ← the_datacenter r
          ok (record {
            service = svc_name;
            namespace = none;
            datacenter = some dc;
            port = none;
            kind = consul_resolver;
            endpoint_path = some (consul_path dc svc_name);
          })
    | other_kind _ ↦ raised key_error
  ]

  -- Whether the resolver can be used, and what it answers; one that cannot is posted as an error of the
  -- cluster, the second part.
  unfoldable pub ask_resolver {ℓ} :
      {R : Type ℓ}
      → Bool
      → Resolver R
      → Dict (List ℕ) Service
      → List ℕ
      → List ℕ
      → ℕ
      → Result (Resolved × Bool)
  ask_resolver false r services hostname namespace port = ok ((none, []), true)
  ask_resolver true r services hostname namespace port = do
    answer ← resolve r services hostname namespace port
    ok (answer, false)

  -- Of `ir/ir.py`
  unfoldable pub resolve_targets {ℓ} :
      {R : Type ℓ}
      → Option String
      → Option String
      → Resolvers R
      → Dict (List ℕ) Service
      → List ℕ
      → List ℕ
      → ℕ
      → Result (Resolved × Bool)
  resolve_targets resolver_name module_resolver s services hostname namespace port =
      if is_ip_address hostname
      then ok (
        (some (record { ip = hostname; port = port; target_kind = some "IPaddr" } ∷ []), []),
        false,
      )
      else do
        r ← resolve_resolver resolver_name module_resolver s
        ask_resolver (is_usable r) r services hostname namespace port
