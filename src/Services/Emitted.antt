-- ===== src/Services/Emitted.antt =====
-- The endpoints that a Service is emitted with, against its ports and the Endpoints that were kept.
use emissary.Prelude.{
  ℕ, suc, String, Bool, true, false, List, [], ◌∷◌, Option, none, some, Dict, map, lookup, ◌==◌,
  string_eq, nat_eq, ◌≡◌, ◌≢◌, refl, ◌∙◌, ap, Bool-cases, inl, inr,
}
use emissary.Processor.{key_eq}
use emissary.Services.{
  PortValue, ServicePort, ServiceObject, EndpointAddress, Endpoints, ServiceState,
}
use emissary.Services.Targets.{target_ports}
use emissary.Services.Numbered.{
  last_port, port_at, target_at, lookup-target_ports, lookup_0-target_ports,
}
use emissary.Services.Emit.{
  ServiceEndpoint, resource_of, endpoints_key, ports_for, addrs_for, svc_endpoints, at_addresses,
  or_service, ips,
}
use emissary.Services.Laws.{IsStocked}

-- The Endpoints of the name and namespace of a Service, which only count where they are not just watched
abbrev pub kept_endpoints : Bool → ServiceObject → ServiceState → Option Endpoints
kept_endpoints true svc s = none
kept_endpoints false svc s =
    lookup
      (record {
        gvk = record { api_version = "v1"; kind = "Endpoints" };
        namespace = some svc.namespace;
        name = svc.name;
      })
      s.discovered_endpoints

module _ (str : ℕ → String) (is_digits : String → Bool) where
  -- What is emitted at a number
  abbrev pub emitted_at : ℕ → List ServicePort → Option Endpoints → Option (List ServiceEndpoint)
  emitted_at n ps none = none
  emitted_at n ps (some ep) = elim (last_port n ps) [
    | none ↦ none
    | some p ↦
        some
          (map (λ a. record { ip = a.ip; port = port_at str is_digits ep.ports p n }) ep.addresses)
  ]

at_addresses-ips :
    (v : PortValue) (addresses : List EndpointAddress)
    → at_addresses v (ips addresses)
      ≡ map {B = ServiceEndpoint} (λ a. record { ip = a.ip; port = v }) addresses
at_addresses-ips v [] = refl
at_addresses-ips v (a ∷ rest) =
    ap (λ es. record { ip = a.ip; port = v } ∷ es) (at_addresses-ips v rest)

lookup-svc_endpoints :
    (n : ℕ) (targets : Dict ℕ PortValue) (addrs : List String)
    → lookup n (svc_endpoints targets addrs)
      ≡ elim (lookup n targets) [ none ↦ none | some v ↦ some (at_addresses v addrs) ]
unfolding lookup
lookup-svc_endpoints n [] addrs = refl
lookup-svc_endpoints n ((m, v) ∷ rest) addrs = elim (Bool-cases (m == n)) [
  | inl same ↦ rw same refl
  | inr other ↦ rw other (lookup-svc_endpoints n rest addrs)
]

or_service-ips :
    (addresses : List EndpointAddress) (svc : ServiceObject)
    → addresses ≢ []
    → or_service (ips addresses) svc ≡ ips addresses
or_service-ips [] svc h = absurd (h refl)
or_service-ips (a ∷ rest) svc h = refl

module _ (str : ℕ → String) (is_digits : String → Bool) where
  served :
      (ambassador_id : List String) (watch_only : Bool) (svc : ServiceObject) (s : ServiceState)
      → IsStocked s
      → (resource_of str is_digits ambassador_id watch_only svc s).endpoints
        ≡ elim (kept_endpoints watch_only svc s) [
          | none ↦ []
          | some ep ↦
              svc_endpoints (target_ports str is_digits svc.ports ep.ports []) (ips ep.addresses)
        ]
  unfolding IsStocked resource_of
  served ambassador_id true svc s h = refl
  served ambassador_id false svc s h =
      by_endpoints (lookup (endpoints_key svc) s.discovered_endpoints) (h (endpoints_key svc))
    where
      by_endpoints :
          (o : Option Endpoints)
          → ((ep : Endpoints) → o ≡ some ep → ep.addresses ≢ [])
          → svc_endpoints
              (ports_for str is_digits ambassador_id false svc o)
              (or_service (addrs_for str is_digits ambassador_id false o) svc)
            ≡ elim o [
              | none ↦ []
              | some ep ↦
                  svc_endpoints
                    (target_ports str is_digits svc.ports ep.ports [])
                    (ips ep.addresses)
            ]
      by_endpoints none h = refl
      by_endpoints (some ep) h =
          ap (svc_endpoints (target_ports str is_digits svc.ports ep.ports []))
            (or_service-ips ep.addresses svc (h ep refl))

  emitted :
      (n : ℕ) (svc : ServiceObject) (ep : Endpoints)
      → lookup
          (suc n)
          (svc_endpoints (target_ports str is_digits svc.ports ep.ports []) (ips ep.addresses))
        ≡ emitted_at str is_digits (suc n) svc.ports (some ep)
  unfolding lookup
  emitted n svc ep =
      lookup-svc_endpoints (suc n) (target_ports str is_digits svc.ports ep.ports [])
        (ips ep.addresses)
      ∙ (ap
            (λ o. elim o as (λ _. Option (List ServiceEndpoint)) [
              | none ↦ none
              | some v ↦ some (at_addresses v (ips ep.addresses))
            ])
            (lookup-target_ports str is_digits n svc.ports ep.ports [])
          ∙ by_port (last_port (suc n) svc.ports))
    where
      by_port :
          (o : Option ServicePort)
          → (elim (target_at str is_digits (suc n) o ep.ports none)
              as (λ _. Option (List ServiceEndpoint)) [
                | none ↦ none
                | some v ↦ some (at_addresses v (ips ep.addresses))
              ])
            ≡ (elim o as (λ _. Option (List ServiceEndpoint)) [
              | none ↦ none
              | some p ↦ some (
                  map
                    (λ a. record { ip = a.ip; port = port_at str is_digits ep.ports p (suc n) })
                    ep.addresses)
            ])
      by_port none = refl
      by_port (some p) =
          ap some (at_addresses-ips (port_at str is_digits ep.ports p (suc n)) ep.addresses)

  -- All kept Endpoints have an address. Then a Service is emitted, at the number of each of its ports, with one
  -- endpoint for each address of the kept Endpoints of its name and namespace, in their order: the address,
  -- with the port that the last port of that number is sent to. At every other number, 0 included, and where no
  -- such Endpoints are kept or they are only watched, it has none: its own name never stands for an address.
  pub resource_of-endpoints :
      (ambassador_id : List String) (watch_only : Bool) (svc : ServiceObject) (s : ServiceState)
      (n : ℕ)
      → IsStocked s
      → (lookup (suc n) (resource_of str is_digits ambassador_id watch_only svc s).endpoints
          ≡ emitted_at str is_digits (suc n) svc.ports (kept_endpoints watch_only svc s))
        × (lookup 0 (resource_of str is_digits ambassador_id watch_only svc s).endpoints ≡ none)
  unfolding lookup
  resource_of-endpoints ambassador_id watch_only svc s n h = (
    ap (lookup (suc n)) (served ambassador_id watch_only svc s h)
        ∙ at_number (kept_endpoints watch_only svc s),
    ap (lookup 0) (served ambassador_id watch_only svc s h)
        ∙ at_0 (kept_endpoints watch_only svc s),
  )
    where
      at_number :
          (o : Option Endpoints)
          → lookup (suc n) (elim o as (λ _. Dict ℕ (List ServiceEndpoint)) [
            | none ↦ []
            | some ep ↦
                svc_endpoints (target_ports str is_digits svc.ports ep.ports []) (ips ep.addresses)
          ])
            ≡ emitted_at str is_digits (suc n) svc.ports o
      at_number none = refl
      at_number (some ep) = emitted n svc ep

      at_0 :
          (o : Option Endpoints)
          → lookup 0 (elim o as (λ _. Dict ℕ (List ServiceEndpoint)) [
            | none ↦ []
            | some ep ↦
                svc_endpoints (target_ports str is_digits svc.ports ep.ports []) (ips ep.addresses)
          ])
            ≡ none
      at_0 none = refl
      at_0 (some ep) =
          lookup-svc_endpoints 0 (target_ports str is_digits svc.ports ep.ports [])
            (ips ep.addresses)
          ∙ ap
              (λ o. elim o as (λ _. Option (List ServiceEndpoint)) [
                | none ↦ none
                | some v ↦ some (at_addresses v (ips ep.addresses))
              ])
              (lookup_0-target_ports str is_digits svc.ports ep.ports [] refl)
