-- ===== src/Services.antt =====
-- Kubernetes Services and their Endpoints, python/ambassador/src/ambassador/fetch/service.py: what the two
-- inner processors keep of an object, and the resources that `ServiceProcessor.finalize` emits. The text
-- operations `str` of a number, `upper`, `lower` and `isdigit` are parameters. Logging is not modelled.
pub mod Targets
pub mod Emit
pub mod Chosen
pub mod Laws
pub mod Numbered
pub mod Emitted
mod Tests
use emissary.Prelude.{
  ℕ, zero, suc, String, Bool, true, false, not, List, [], ◌∷◌, ◌++◌, Option, none, some, Dict,
  lookup, insert, ◌==◌, ◌&&◌, ◌||◌, if◌then◌else◌, string_eq, HasEq, all,
}
use emissary.Processor.{KubernetesGvk, KubernetesObjectKey, key_eq}

-- The fields that `from_object_reference` reads; where a part that it needs is missing it raises.
pub record ObjectReference : Type 0 where
  pub kind : Option String
  pub namespace : Option String
  pub name : Option String

abbrev pub from_object_reference : ObjectReference → Option KubernetesObjectKey
from_object_reference ref = elim ref.kind [
  | none ↦ none
  | some kind ↦ elim ref.name [
    | none ↦ none
    | some name ↦ some (record {
      gvk = record { api_version = "v1"; kind = kind };
      namespace = ref.namespace;
      name = name;
    })
  ]
]

-- An address, a port and a subset as they stand in an Endpoints object
pub record RawAddress : Type 0 where
  pub ip : Option String
  pub node_name : Option String
  pub target_ref : ObjectReference

pub record EndpointPort : Type 0 where
  pub name : Option String
  pub port : Option ℕ
  pub protocol : Option String

pub record Subset : Type 0 where
  pub addresses : List RawAddress
  pub ports : List EndpointPort

pub record EndpointAddress : Type 0 where
  pub ip : String
  pub node : Option String
  pub target : Option KubernetesObjectKey

pub record Endpoints : Type 0 where
  pub addresses : List EndpointAddress
  pub ports : Dict String ℕ
  pub labels : Dict String String

-- A name or a number
pub data PortValue : Type 0 where
  number : ℕ → PortValue
  text : String → PortValue

-- A port of a Service
pub record ServicePort : Type 0 where
  pub port : Option ℕ
  pub target_port : Option PortValue
  pub name : Option String

pub record ServiceObject : Type 0 where
  pub key : KubernetesObjectKey
  pub name : String
  pub namespace : String
  pub labels : Dict String String
  pub selector : Dict String String
  pub ports : List ServicePort

pub record EndpointsObject : Type 0 where
  pub key : KubernetesObjectKey
  pub labels : Dict String String
  pub subsets : List Subset

-- What the processors of Services and Endpoints share.
pub record ServiceState : Type 0 where
  pub discovered_services : Dict KubernetesObjectKey ServiceObject
  pub ambassador_service : Option ServiceObject
  pub helm_chart : Option String
  pub discovered_endpoints : Dict KubernetesObjectKey Endpoints

-- `if not text`
abbrev pub is_blank : Option String → Bool
is_blank none = true
is_blank (some t) = t == ""

-- `for address in subset.get("addresses", []):`
pub addresses_of : List RawAddress → List EndpointAddress
addresses_of [] = []
addresses_of (a ∷ rest) =
    let others = addresses_of rest in
    elim a.ip [
      | none ↦ others
      | some ip ↦
          if ip == ""
          then others
          else record { ip = ip; node = a.node_name; target = from_object_reference a.target_ref }
            ∷ others
    ]

abbrev pub or_empty : Option String → String
or_empty none = ""
or_empty (some t) = t

abbrev pub or_tcp : Option String → String
or_tcp none = "TCP"
or_tcp (some t) = t

module _ (str : ℕ → String) (upper lower : String → String) where
  -- `port_dict[port_name] = port_number`, where there is a name
  abbrev pub add_name : Option String → ℕ → Dict String ℕ → Dict String ℕ
  add_name none n m = m
  add_name (some name) n m = if name == "" then m else insert name n m

  -- `for port in ports:`
  pub ports_of : List EndpointPort → Dict String ℕ → Dict String ℕ
  ports_of [] m = m
  ports_of (p ∷ rest) m = ports_of rest (
      if not (upper (or_tcp p.protocol) == "TCP")
      then m
      else elim p.port [ none ↦ m | some n ↦ add_name p.name n (insert (str n) n m) ])

  -- What a subset gives, where it has an address and a port that can be used.
  unfoldable pub endpoints_of : Dict String String → Subset → Option Endpoints
  endpoints_of labels s = elim (addresses_of s.addresses) [
    | [] ↦ none
    | a ∷ addresses ↦ elim (ports_of s.ports []) [
      | [] ↦ none
      | p ∷ ports ↦ some (record { addresses = a ∷ addresses; ports = p ∷ ports; labels = labels })
    ]
  ]

  -- `for subset in resource_subsets:`
  unfoldable pub save_subsets :
      KubernetesObjectKey
      → Dict String String
      → List Subset
      → Dict KubernetesObjectKey Endpoints
      → Dict KubernetesObjectKey Endpoints
  save_subsets key labels [] saved = saved
  save_subsets key labels (s ∷ rest) saved =
      save_subsets key labels rest (elim (endpoints_of labels s) [
        | none ↦ saved
        | some endpoints ↦ insert key endpoints saved
      ])

  -- `InternalEndpointsProcessor._process`
  unfoldable pub process_endpoints : EndpointsObject → ServiceState → ServiceState
  process_endpoints obj s = record s {
    discovered_endpoints = save_subsets obj.key obj.labels obj.subsets s.discovered_endpoints;
  }

  -- `for key, value in selector.items():`
  pub selects : Dict String String → Dict String String → Bool
  selects [] pod_labels = true
  selects ((key, value) ∷ rest) pod_labels =
      let others = selects rest pod_labels in
      elim (lookup key pod_labels) [ none ↦ false | some found ↦ found == value && others ]

  unfoldable pub is_ambassador_service : String → Dict String String → ServiceObject → Bool
  is_ambassador_service ambassador_namespace pod_labels obj =
      if not
        (lower (or_empty (lookup "app.kubernetes.io/component" obj.labels)) == "ambassador-service")
      then false
      else if not (obj.namespace == ambassador_namespace)
      then false
      else elim obj.selector [ [] ↦ false | entry ∷ rest ↦ selects (entry ∷ rest) pod_labels ]

  -- `if chart_version and not self.helm_chart:`
  abbrev pub note_chart : Option String → ServiceState → ServiceState
  note_chart chart s =
      if not (is_blank chart) && is_blank s.helm_chart then record s { helm_chart = chart } else s

  abbrev pub save_service :
      String → Dict String String → ServiceObject → ServiceState → ServiceState
  save_service ambassador_namespace pod_labels obj s =
      let saved = record s { discovered_services = insert obj.key obj s.discovered_services } in
      if is_ambassador_service ambassador_namespace pod_labels obj
      then record saved { ambassador_service = some obj }
      else saved

  -- `InternalServiceProcessor._process`
  unfoldable pub process_service :
      String → Dict String String → ServiceObject → ServiceState → ServiceState
  process_service ambassador_namespace pod_labels obj s =
      let s' = note_chart (lookup "helm.sh/chart" obj.labels) s in
      elim obj.ports [ [] ↦ s' | _ ∷ _ ↦ save_service ambassador_namespace pod_labels obj s' ]
