-- ===== src/Resolver/Laws.antt =====
-- What resolving gives: names taken apart, the targets of a service, and that resolving with a default
-- resolver returns.
use emissary.Prelude.{
  ℕ, String, Bool, true, false, List, [], ◌∷◌, ◌++◌, Option, none, some, Dict, lookup, nat_eqb,
  contains, string_eq, nat_eq, ◌≡◌, ◌≢◌, ◌⊎◌, refl, sym, ◌∙◌, ap, Bool-cases, inl, inr, arith,
}
use mathlib.Core.List.{append_assoc, append-nil}
use emissary.Results.{ok}
use emissary.Mapping.{before_dot}
use emissary.Resolver.{
  ResolverKind, consul_resolver, kubernetes_service_resolver, kubernetes_endpoint_resolver,
  other_kind, ResolverConfig, Resolver, Resolvers, is_usable, has_resolver, load_all, no_resolvers,
  text_eq,
}
use emissary.Resolver.Endpoints.{
  Service, SvcEndpoint, Resolved, NoEndpoints, port_key, port_eq, dash, dot, k8s_key, consul_key,
  has_dot, after_dot, split_two, listed, targets_of, PortKey, get_endpoints, is_ip_address,
  parse_service, resolve_as, chosen_name, resolve_resolver, resolve_targets, ask_resolver,
}
use emissary.Resolver.Registry.{
  fits, found-fits, found_usable, default_names, has_resolver-load_all, load_all-IsSetUp, nothing,
}

none-some {ℓ} : {X : Type ℓ} {x : X} → Option.none ≡ some x → ⊥
none-some h = cc

some-injective {ℓ} : {X : Type ℓ} {x y : X} → some x ≡ some y → x ≡ y
some-injective h = cc

cons-nil {ℓ} : {X : Type ℓ} {x : X} {xs : List X} → x ∷ xs ≡ [] → ⊥
cons-nil h = cc

before_dot-join : (s rest : List ℕ) → has_dot s ≡ false → before_dot (s ++ dot ∷ rest) ≡ s
unfolding before_dot
before_dot-join [] rest h = refl
before_dot-join (c ∷ s) rest h = elim (Bool-cases (nat_eqb c dot)) [
  | inl same ↦ absurd (ground (arith, same, h))
  | inr other ↦ rw other (ap (λ t. c ∷ t) (before_dot-join s rest (ground (arith, h))))
]

after_dot-join : (s rest : List ℕ) → has_dot s ≡ false → after_dot (s ++ dot ∷ rest) ≡ rest
unfolding after_dot
after_dot-join [] rest h = refl
after_dot-join (c ∷ s) rest h = elim (Bool-cases (nat_eqb c dot)) [
  | inl same ↦ absurd (ground (arith, same, h))
  | inr other ↦ rw other (after_dot-join s rest (ground (arith, h)))
]

before_dot_whole : (s : List ℕ) → has_dot s ≡ false → before_dot s ≡ s
unfolding before_dot
before_dot_whole [] h = refl
before_dot_whole (c ∷ s) h = elim (Bool-cases (nat_eqb c dot)) [
  | inl same ↦ absurd (ground (arith, same, h))
  | inr other ↦ rw other (ap (λ t. c ∷ t) (before_dot_whole s (ground (arith, h))))
]

has_dot-join : (s rest : List ℕ) → has_dot (s ++ dot ∷ rest) ≡ true
has_dot-join [] rest = refl
has_dot-join (c ∷ s) rest = ground (arith, has_dot-join s rest)

-- What may follow the namespace: nothing, or a dot and any text.
abbrev pub after_namespace : Option (List ℕ) → List ℕ
after_namespace none = []
after_namespace (some rest) = dot ∷ rest

before_dot-after_namespace :
    (namespace : List ℕ) (more : Option (List ℕ))
    → has_dot namespace ≡ false
    → before_dot (namespace ++ after_namespace more) ≡ namespace
before_dot-after_namespace namespace none h =
    rw (append-nil namespace) (before_dot_whole namespace h)
before_dot-after_namespace namespace (some rest) h = before_dot-join namespace rest h

module _ {κ} {A : Type κ} (ip_address : List ℕ → Option A) (decimal : ℕ → List ℕ)
    (ambassador_namespace : List ℕ) (use_ambassador_namespace_for_service_resolution : Bool) where
  -- A service name made of a name, a dot and a namespace, the two without dots, and perhaps a dot
  -- and any more text, that is no IP address, is taken apart into that name and that namespace.
  pub parse_service-join :
      (svc namespace : List ℕ) (more : Option (List ℕ)) (svc_namespace : List ℕ)
      → has_dot svc ≡ false
      → has_dot namespace ≡ false
      → is_ip_address ip_address decimal ambassador_namespace
          use_ambassador_namespace_for_service_resolution
          (svc ++ dot ∷ (namespace ++ after_namespace more))
        ≡ false
      → parse_service ip_address decimal ambassador_namespace
          use_ambassador_namespace_for_service_resolution
          (svc ++ dot ∷ (namespace ++ after_namespace more))
          svc_namespace
        ≡ (svc, namespace)
  unfolding parse_service split_two
  parse_service-join svc namespace more svc_namespace no_dot no_dot' not_ip =
      rw (has_dot-join svc (namespace ++ after_namespace more)) (
        rw not_ip (
          rw (before_dot-join svc (namespace ++ after_namespace more) no_dot) (
            rw (after_dot-join svc (namespace ++ after_namespace more) no_dot)
              (rw (before_dot-after_namespace namespace more no_dot') refl))))

  fits-datacenter :
      (datacenter : Option (List ℕ))
      → fits consul_resolver datacenter ≡ true
      → (dc : List ℕ) × (datacenter ≡ some dc)
  unfolding fits
  fits-datacenter none fit = absurd cc
  fits-datacenter (some dc) fit = (dc, refl)

  resolve_as-returns {ℓ} :
      {R : Type ℓ} (k : ResolverKind) (r : Resolver R) (services : Dict (List ℕ) Service)
      (svc_name svc_namespace : List ℕ) (port : ℕ)
      → fits k r.config.datacenter ≡ true
      → (answer : Resolved) × (resolve_as ip_address decimal ambassador_namespace
            use_ambassador_namespace_for_service_resolution k r services svc_name svc_namespace port
          ≡ ok answer)
  unfolding resolve_as
  resolve_as-returns consul_resolver r services svc_name svc_namespace port fit =
      let (dc, found) = fits-datacenter r.config.datacenter fit in
      (get_endpoints services (consul_key svc_name dc) none, rw found refl)
  resolve_as-returns kubernetes_service_resolver r services svc_name svc_namespace port fit =
      (_, refl)
  resolve_as-returns kubernetes_endpoint_resolver r services svc_name svc_namespace port fit =
      (_, refl)
  resolve_as-returns (other_kind k) r services svc_name svc_namespace port fit =
      absurd (unfold fits in cc)

  resolve_targets-usable {ℓ} :
      {R : Type ℓ} (s : Resolvers R) (resolver_name module_resolver : Option String)
      (r : Resolver R) (services : Dict (List ℕ) Service) (hostname namespace : List ℕ) (port : ℕ)
      (answer : Resolved)
      → is_ip_address ip_address decimal ambassador_namespace
          use_ambassador_namespace_for_service_resolution hostname
        ≡ false
      → lookup (chosen_name resolver_name module_resolver) s.resolvers ≡ some r
      → is_usable r ≡ true
      → resolve_as ip_address decimal ambassador_namespace
          use_ambassador_namespace_for_service_resolution r.config.kind r services hostname
          namespace port
        ≡ ok answer
      → resolve_targets ip_address decimal ambassador_namespace
          use_ambassador_namespace_for_service_resolution resolver_name module_resolver s services
          hostname namespace port
        ≡ ok (answer, false)
  unfolding resolve_targets resolve_resolver ask_resolver
  resolve_targets-usable s resolver_name module_resolver r services hostname namespace port answer
        not_ip found usable resolved =
      rw not_ip (rw (found, resolve_resolver) (rw usable (rw resolved refl)))

  -- After load_all on any configuration, where the name given, or else the module's, or else
  -- kubernetes-service, is one of the five default names, resolve_targets returns for every host,
  -- and does not post the error of an invalid resolver.
  pub resolve_targets-returns {ℓ} :
      {R : Type ℓ} (default_rest consul_rest : R) (configs : List (ResolverConfig R))
      (resolver_name module_resolver : Option String) (services : Dict (List ℕ) Service)
      (hostname namespace : List ℕ) (port : ℕ)
      → contains default_names (chosen_name resolver_name module_resolver) ≡ true
      → (answer : Resolved) × (resolve_targets ip_address decimal ambassador_namespace
            use_ambassador_namespace_for_service_resolution resolver_name module_resolver
            (load_all default_rest consul_rest configs no_resolvers)
            services
            hostname
            namespace
            port
          ≡ ok (answer, false))
  unfolding resolve_targets
  resolve_targets-returns default_rest consul_rest configs resolver_name module_resolver services
        hostname namespace port named =
      let s = load_all default_rest consul_rest configs no_resolvers in
      let there : has_resolver (chosen_name resolver_name module_resolver) s ≡ true =
        has_resolver-load_all default_rest consul_rest (chosen_name resolver_name module_resolver)
          configs
        ∙ rw named refl in
      let (r, found, usable) = found_usable (chosen_name resolver_name module_resolver) s there in
      let set_up = load_all-IsSetUp default_rest consul_rest configs no_resolvers nothing in
      let (answer, resolved) =
        resolve_as-returns r.config.kind r services hostname namespace port (
          sym (found-fits (chosen_name resolver_name module_resolver) r s set_up found) ∙ usable) in
      elim (Bool-cases (
        is_ip_address ip_address decimal ambassador_namespace
          use_ambassador_namespace_for_service_resolution hostname)) [
            | inl ip ↦ (
              (some (record { ip = hostname; port = port; target_kind = some "IPaddr" } ∷ []), []),
              rw ip refl,
            )
            | inr not_ip ↦ (
              answer,
              resolve_targets-usable s resolver_name module_resolver r services hostname namespace
                  port answer not_ip found usable resolved,
            )
          ]

listed-cases :
    (o : Option (List SvcEndpoint))
    → ((t : SvcEndpoint) × (targets : List SvcEndpoint) × (o ≡ some (t ∷ targets))
        × (listed o ≡ some (t ∷ targets)))
      ⊎ (listed o ≡ none)
unfolding listed
listed-cases none = inr refl
listed-cases (some []) = inr refl
listed-cases (some (t ∷ targets)) = inl (t, targets, refl, refl)

-- The two ways in which there can be no answer: no service with endpoints under the key, or none for the
-- port.
targets_of-cases :
    (service : Service) (key : List ℕ) (port : Option ℕ)
    (o : Option (Dict PortKey (List SvcEndpoint)))
    → ((t : SvcEndpoint) × (targets : List SvcEndpoint) × (endpoints : Dict PortKey
          (List SvcEndpoint))
        × (o ≡ some endpoints)
        × (lookup (port_key port) endpoints ≡ some (t ∷ targets))
        × (targets_of service key port o ≡ (some (t ∷ targets), [])))
      ⊎ ((errors : List NoEndpoints) × (targets_of service key port o ≡ (none, errors)))
unfolding targets_of
targets_of-cases service key port none = inr ([], refl)
targets_of-cases service key port (some []) = inr ([], refl)
targets_of-cases service key port (some (e ∷ endpoints)) =
    elim (listed-cases (lookup (port_key port) (e ∷ endpoints))) [
      | inl (t, targets, found, same) ↦
          inl (t, targets, e ∷ endpoints, refl, found, rw (same, targets_of) refl)
      | inr missing ↦ inr (
        record { service = service.name; key = key; port = port } ∷ [],
        rw (missing, targets_of) refl,
      )
    ]

-- An answer of get_endpoints is a non-empty list that a service under the key has for the port, and
-- with it nothing is posted.
pub get_endpoints-targets :
    (services : Dict (List ℕ) Service) (key : List ℕ) (port : Option ℕ) (targets : List SvcEndpoint)
    (errors : List NoEndpoints)
    → get_endpoints services key port ≡ (some targets, errors)
    → (service : Service) × (endpoints : Dict PortKey (List SvcEndpoint)) × (lookup key services
        ≡ some service)
      × (service.endpoints ≡ some endpoints)
      × (lookup (port_key port) endpoints ≡ some targets)
      × (targets ≢ [])
      × (errors ≡ [])
unfolding get_endpoints
get_endpoints-targets services key port targets errors h = by_lookup (lookup key services) refl h
  where
    by_lookup :
        (o : Option Service)
        → lookup key services ≡ o
        → ◌≡◌ {A = Resolved}
            (elim o [
              | none ↦ (none, [])
              | some service ↦ targets_of service key port service.endpoints
            ])
            (some targets, errors)
        → (service : Service) × (endpoints : Dict PortKey (List SvcEndpoint)) × (lookup key services
            ≡ some service)
          × (service.endpoints ≡ some endpoints)
          × (lookup (port_key port) endpoints ≡ some targets)
          × (targets ≢ [])
          × (errors ≡ [])
    by_lookup none at h = absurd (none-some (ap (λ p. p.0) h))
    by_lookup (some service) at h = elim (targets_of-cases service key port service.endpoints) [
      | inl (t, rest, endpoints, own, found, same) ↦
          let both = sym h ∙ same in
          let right : targets ≡ t ∷ rest = some-injective (ap (λ p. p.0) both) in
          (
            service,
            endpoints,
            at,
            own,
            found ∙ ap some (sym right),
            λ none_left. cons-nil (sym right ∙ none_left),
            ap (λ p. p.1) both,
          )
      | inr (posted, same) ↦ absurd (none-some (ap (λ p. p.0) (sym same ∙ h)))
    ]

-- The key of a service does not say where its name ends, so that two services can have one key.
pub k8s_key_ambiguous :
    (svc middle namespace : List ℕ)
    → k8s_key (svc ++ dash ∷ middle) namespace ≡ k8s_key svc (middle ++ dash ∷ namespace)
k8s_key_ambiguous svc middle namespace =
    rw (append_assoc svc (dash ∷ middle) (dash ∷ namespace)) refl
