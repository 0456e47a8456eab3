-- ===== src/Services/Emit.antt =====
-- `ServiceProcessor.finalize`: a resource for each Service that was kept, with its endpoints.
use emissary.Prelude.{
  ℕ, String, Bool, List, [], ◌∷◌, Option, none, some, Dict, lookup, if◌then◌else◌,
}
use Prim.Native.String.{◌++◌ as str_append}
use emissary.Processor.{KubernetesObjectKey, key_eq}
use emissary.Services.{PortValue, ServiceObject, EndpointAddress, Endpoints, ServiceState, is_blank}
use emissary.Services.Targets.{target_ports}

-- `{"ip": target_addr, "port": target_port}`
pub record ServiceEndpoint : Type 0 where
  pub ip : String
  pub port : PortValue

-- What `NormalizedResource.from_data` is called with, beside the kind
pub record ServiceResource : Type 0 where
  pub name : String
  pub namespace : String
  pub labels : Dict String String
  pub ambassador_id : List String
  pub endpoints : Dict ℕ (List ServiceEndpoint)
  pub helm_chart : Option String
  pub rkey : String

-- `f"{k8s_svc.name}.{k8s_svc.namespace}"`
abbrev pub dotted : ServiceObject → String
dotted svc = str_append svc.name (str_append "." svc.namespace)

abbrev pub endpoints_key : ServiceObject → KubernetesObjectKey
endpoints_key svc = record {
  gvk = record { api_version = "v1"; kind = "Endpoints" };
  namespace = some svc.namespace;
  name = svc.name;
}

-- `for addr in k8s_ep.addresses:`
abbrev pub ips : List EndpointAddress → List String
ips [] = []
ips (a ∷ rest) = a.ip ∷ ips rest

abbrev pub at_addresses : PortValue → List String → List ServiceEndpoint
at_addresses port [] = []
at_addresses port (ip ∷ rest) = record { ip = ip; port = port } ∷ at_addresses port rest

-- `for src_port, target_port in target_ports.items():`
abbrev pub svc_endpoints : Dict ℕ PortValue → List String → Dict ℕ (List ServiceEndpoint)
svc_endpoints [] addrs = []
svc_endpoints ((src_port, port) ∷ rest) addrs =
    (src_port, at_addresses port addrs) ∷ svc_endpoints rest addrs

-- `if not target_addrs: target_addrs = [key]`
abbrev pub or_service : List String → ServiceObject → List String
or_service [] svc = dotted svc ∷ []
or_service (ip ∷ rest) svc = ip ∷ rest

module _ (str : ℕ → String) (is_digits : String → Bool) (ambassador_id : List String)
    (watch_only : Bool) where
  -- `k8s_ep`, which is not looked for when only watching
  abbrev pub endpoints_for : ServiceObject → ServiceState → Option Endpoints
  endpoints_for svc s =
      if watch_only then none else lookup (endpoints_key svc) s.discovered_endpoints

  abbrev pub ports_for : ServiceObject → Option Endpoints → Dict ℕ PortValue
  ports_for svc none = []
  ports_for svc (some ep) = target_ports str is_digits svc.ports ep.ports []

  abbrev pub addrs_for : Option Endpoints → List String
  addrs_for none = []
  addrs_for (some ep) = ips ep.addresses

  unfoldable pub resource_of : ServiceObject → ServiceState → ServiceResource
  resource_of svc s =
      let ep = endpoints_for svc s in
      record {
        name = svc.name;
        namespace = svc.namespace;
        labels = svc.labels;
        ambassador_id = ambassador_id;
        endpoints = svc_endpoints (ports_for svc ep) (or_service (addrs_for ep) svc);
        helm_chart = if is_blank s.helm_chart then none else s.helm_chart;
        rkey = str_append "k8s-" (str_append svc.name (str_append "-" svc.namespace));
      }

  -- `for k8s_svc in self.service_dep.discovered_services.values():`
  pub emit_services : Dict KubernetesObjectKey ServiceObject → ServiceState → List ServiceResource
  emit_services [] s = []
  emit_services ((_, svc) ∷ rest) s = resource_of svc s ∷ emit_services rest s

  unfoldable pub finalize : ServiceState → List ServiceResource
  finalize s = emit_services s.discovered_services s
