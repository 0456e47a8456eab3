-- ===== src/Resolver/Tests.antt =====
-- One configured Consul resolver without a datacenter, and one Kubernetes endpoint resolver.
use emissary.Prelude.{
  ℕ, String, true, false, List, [], ◌∷◌, ◌++◌, Option, none, some, Dict, lookup, insert, ◌≡◌, refl,
  string_eq, nat_eq,
}
use emissary.Results.{ok}
use emissary.HostGlob.Text.{text_eqb}
use emissary.Resolver.{
  ResolverConfig, ResolverKind, consul_resolver, kubernetes_endpoint_resolver, create, setup_as,
  no_resolvers, has_resolver, add_resolver, add_resolvers, copy_resolver, check_aliases,
  ensure_service, ensure_pair, load_all, no_datacenter, text_eq,
}
use emissary.Resolver.Endpoints.{
  valid_mapping, port_ignored, Service, SvcEndpoint, at_port, Resolved, port_eq, k8s_key, dot,
  listed, targets_of, get_endpoints, is_ip_address, parse_service, split_two, resolve_as,
  resolve_resolver, ask_resolver, resolve_targets,
}
use emissary.Resolver.Laws.{after_namespace, parse_service-join, resolve_targets-returns}

abbrev config : String → ResolverKind → ResolverConfig ℕ
config name kind = record { name = name; kind = kind; datacenter = none; rest = 7 }

abbrev configs : List (ResolverConfig ℕ)
configs = config "consul" consul_resolver ∷ config "endpoint" kubernetes_endpoint_resolver ∷ []

-- The Consul resolver cannot be used, and makes way for a default one.
consul-replaced : has_resolver "consul" (add_resolvers configs no_resolvers) ≡ false
unfolding has_resolver add_resolvers add_resolver create setup_as lookup insert
consul-replaced = refl

errors-posted : (load_all 0 0 configs no_resolvers).errors ≡ no_datacenter "consul" ∷ []
unfolding load_all ensure_pair ensure_service check_aliases copy_resolver has_resolver add_resolvers
    add_resolver create setup_as lookup insert
errors-posted = refl

abbrev no_ips : List ℕ → Option ℕ
no_ips name = none

abbrev no_digits : ℕ → List ℕ
no_digits n = []

abbrev shop : List ℕ
shop = b's' ∷ b'h' ∷ b'o' ∷ b'p' ∷ []

abbrev prod : List ℕ
prod = b'p' ∷ b'r' ∷ b'o' ∷ b'd' ∷ []

abbrev target : SvcEndpoint
target = record { ip = b'1' ∷ []; port = 8080; target_kind = none }

abbrev services : Dict (List ℕ) Service
services =
    (k8s_key shop prod, record { name = "shop"; endpoints = some ((at_port 80, target ∷ []) ∷ []) })
    ∷ []

found : get_endpoints services (k8s_key shop prod) (some 80) ≡ (some (target ∷ []), [])
unfolding get_endpoints targets_of listed lookup text_eqb
found = refl

resolved :
    resolve_targets no_ips no_digits prod false
      (some "endpoint")
      none
      (load_all 0 0 configs no_resolvers)
      services
      shop
      prod
      80
    ≡ ok ((some (target ∷ []), []), false)
unfolding resolve_targets ask_resolver resolve_resolver resolve_as parse_service is_ip_address
    split_two get_endpoints targets_of listed load_all ensure_pair ensure_service check_aliases
    copy_resolver has_resolver add_resolvers add_resolver create setup_as lookup insert text_eqb
resolved = refl

not_ip :
    is_ip_address no_ips no_digits prod false (shop ++ dot ∷ (prod ++ after_namespace none)) ≡ false
unfolding is_ip_address
not_ip = refl

parse_service-join_example :
    parse_service no_ips no_digits prod false (shop ++ dot ∷ (prod ++ after_namespace none)) []
    ≡ (shop, prod)
parse_service-join_example =
    parse_service-join no_ips no_digits prod false shop prod none [] refl refl not_ip

resolve_targets-returns_example :
    (answer : Resolved) × (resolve_targets no_ips no_digits prod false none none
        (load_all 0 0 configs no_resolvers)
        services
        shop
        prod
        80
      ≡ ok (answer, false))
resolve_targets-returns_example =
    resolve_targets-returns no_ips no_digits prod false 0 0 configs none none services shop prod 80
      refl

-- A service with a port is accepted for Consul, with a notice.
notice_posted :
    valid_mapping consul_resolver true (shop ++ b':' ∷ b'8' ∷ []) ≡ ok (true, port_ignored ∷ [])
unfolding valid_mapping
notice_posted = refl
