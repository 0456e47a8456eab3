-- ===== src/Services/Tests.antt =====
-- A Service with a named target port, and Endpoints of two subsets.
use emissary.Prelude.{
  ℕ, String, Bool, false, [], ◌∷◌, none, some, Dict, lookup, insert, ◌≡◌, refl, ◌==◌, if◌then◌else◌,
  string_eq, nat_eq,
}
use emissary.Processor.{key_eq}
use emissary.Services.{
  number, text, ServicePort, ServiceObject, Subset, EndpointsObject, ServiceState, addresses_of,
  ports_of, endpoints_of, save_subsets, process_endpoints, process_service, selects,
  is_ambassador_service,
}
use emissary.Services.Targets.{search, mapped_target, target_of, target_ports}
use emissary.Services.Emit.{endpoints_key, resource_of}
use emissary.Services.Laws.{IsStocked, process_endpoints-IsStocked}
use emissary.Services.Emitted.{kept_endpoints, emitted_at, resource_of-endpoints}

abbrev digits : ℕ → String
digits n = if n == 80 then "80" else if n == 8080 then "8080" else "9090"

abbrev same : String → String
same t = t

abbrev is_digits : String → Bool
is_digits t = t == "80"

abbrev web : ServicePort
web = record { port = some 80; target_port = some (text "http"); name = none }

abbrev shop : ServiceObject
shop = record {
  key = record {
    gvk = record { api_version = "v1"; kind = "Service" };
    namespace = some "prod";
    name = "shop";
  };
  name = "shop";
  namespace = "prod";
  labels = ("app.kubernetes.io/component", "ambassador-service") ∷ [];
  selector = ("app", "shop") ∷ [];
  ports = web ∷ [];
}

abbrev subset : String → ℕ → Subset
subset ip port = record {
  addresses =
      record {
        ip = some ip;
        node_name = none;
        target_ref = record { kind = none; namespace = none; name = none };
      }
      ∷ [];
  ports = record { name = some "http"; port = some port; protocol = none } ∷ [];
}

abbrev shop_endpoints : EndpointsObject
shop_endpoints = record {
  key = endpoints_key shop;
  labels = [];
  subsets = subset "10.0.0.1" 8080 ∷ subset "10.0.0.2" 9090 ∷ [];
}

abbrev nothing_yet : ServiceState
nothing_yet = record {
  discovered_services = [];
  ambassador_service = none;
  helm_chart = none;
  discovered_endpoints = [];
}

-- The addresses of the first subset are lost.
second_only :
    (process_endpoints digits same same shop_endpoints nothing_yet).discovered_endpoints
    ≡ (
      endpoints_key shop,
      record {
        addresses = record { ip = "10.0.0.2"; node = none; target = none } ∷ [];
        ports = ("9090", 9090) ∷ ("http", 9090) ∷ [];
        labels = [];
      },
    )
      ∷ []
unfolding process_endpoints save_subsets endpoints_of addresses_of ports_of insert
second_only = refl

by_name :
    target_of digits is_digits web 80 (("9090", 9090) ∷ ("http", 9090) ∷ []) ≡ some (number 9090)
unfolding target_of mapped_target search lookup
by_name = refl

own_service :
    (process_service digits same same "prod"
      (("app", "shop") ∷ [])
      shop
      nothing_yet).ambassador_service
    ≡ some shop
unfolding process_service is_ambassador_service selects insert lookup
own_service = refl

abbrev two_ports : Dict String ℕ
two_ports = ("9090", 9090) ∷ ("http", 9090) ∷ []

none-IsStocked : IsStocked nothing_yet
unfolding IsStocked lookup
none-IsStocked key endpoints at = absurd cc

abbrev stocked : ServiceState
stocked = process_endpoints digits same same shop_endpoints nothing_yet

shop_served :
    lookup 80 (resource_of digits is_digits [] false shop stocked).endpoints
    ≡ some (record { ip = "10.0.0.2"; port = number 9090 } ∷ [])
unfolding resource_of process_endpoints save_subsets endpoints_of addresses_of ports_of insert
    target_ports target_of mapped_target search lookup
shop_served = refl

resource_of-endpoints_example :
    (lookup 80 (resource_of digits is_digits [] false shop stocked).endpoints
      ≡ emitted_at digits is_digits 80 shop.ports (kept_endpoints false shop stocked))
    × (lookup 0 (resource_of digits is_digits [] false shop stocked).endpoints ≡ none)
resource_of-endpoints_example =
    resource_of-endpoints digits is_digits [] false shop stocked 79
      (process_endpoints-IsStocked digits same same shop_endpoints nothing_yet none-IsStocked)
