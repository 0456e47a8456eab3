-- ===== src/Listener.antt =====
-- `IRListener.setup`, python/ambassador/src/ambassador/ir/irlistener.py: the checks of a Listener and what it
-- is given by default. Each part of the method takes the Listener and gives it back with the answer
-- whether to go on. `L` are the labels of a selector; `str` of a number and `lower` are parameters.
pub mod Laws
pub mod Ready
mod Tests
use emissary.Prelude.{
  ℕ, String, Bool, true, false, not, List, [], ◌∷◌, ◌++◌, Option, none, some, Dict, lookup,
  contains, ◌==◌, ◌&&◌, ◌||◌, if◌then◌else◌, string_eq, HasEq,
}
use Prim.Native.String.{◌++◌ as str_append}

pub data ListenerError : Type 0 where
  both_protocols no_protocol protocol_not_valid no_socket_protocol udp_without_http : ListenerError
  no_security_model no_host_binding empty_host_binding no_namespace_from : ListenerError
  namespace_selector_unsupported only_match_labels : ListenerError

-- `hostBinding.namespace` and `hostBinding.selector`; `more` tells whether there are other keys.
pub record NamespaceBinding : Type 0 where
  pub from : Option String
  pub more : Bool

pub record HostSelector {ℓ} (L : Type ℓ) : Type ℓ where
  pub match_labels : Option L
  pub more : Bool

pub record HostBinding {ℓ} (L : Type ℓ) : Type ℓ where
  pub namespace : Option NamespaceBinding
  pub selector : Option (HostSelector L)

pub record Listener {ℓ} (L : Type ℓ) : Type ℓ where
  pub namespace : String
  pub port : ℕ
  pub bind_address : Option String
  pub protocol_stack : List String
  pub protocol : Option String
  pub security_model : Option String
  pub stats_prefix : Option String
  pub host_binding : Option (HostBinding L)
  pub namespace_literal : String
  pub host_selector : Option (HostSelector L)
  pub socket_protocol : Option String
  pub http3_enabled : Bool
  pub errors : List ListenerError

-- `ProtocolStacks`
abbrev pub protocol_stacks : Dict String (List String)
protocol_stacks =
    ("HTTP", "HTTP" ∷ "TCP" ∷ [])
    ∷ ("HTTPS", "TLS" ∷ "HTTP" ∷ "TCP" ∷ [])
    ∷ ("HTTPPROXY", "PROXY" ∷ "HTTP" ∷ "TCP" ∷ [])
    ∷ ("HTTPSPROXY", "TLS" ∷ "PROXY" ∷ "HTTP" ∷ "TCP" ∷ [])
    ∷ ("TCP", "TCP" ∷ [])
    ∷ ("TLS", "TLS" ∷ "TCP" ∷ [])
    ∷ []

-- `text or None`
abbrev pub given : Option String → Option String
given none = none
given (some t) = if t == "" then none else some t

-- `stack[-1]`
abbrev pub last_of : String → List String → String
last_of first [] = first
last_of first (second ∷ rest) = last_of second rest

-- `if not hb_namespace`, `if not hb_selector`: an empty dictionary counts as none.
abbrev pub is_empty {ℓ} : {A : Type ℓ} → Option A → Bool → Bool
is_empty none more = not more
is_empty (some _) more = false

abbrev pub given_namespace : Option NamespaceBinding → Option NamespaceBinding
given_namespace none = none
given_namespace (some b) = if is_empty b.from b.more then none else some b

abbrev pub given_selector {ℓ} : {L : Type ℓ} → Option (HostSelector L) → Option (HostSelector L)
given_selector none = none
given_selector (some s) = if is_empty s.match_labels s.more then none else some s

module _ {ℓ} {L : Type ℓ} where
  -- `return False` ends the method.
  infixl 5 ◌>=>◌
  abbrev pub ◌>=>◌ : Listener L × Bool → (Listener L → Listener L × Bool) → Listener L × Bool
  ◌>=>◌ (l, true) part = part l
  ◌>=>◌ (l, false) part = (l, false)

  abbrev pub post_error : ListenerError → Listener L → Listener L
  post_error error l = record l { errors = l.errors ++ error ∷ [] }

  -- With a `protocolStack`, a protocol is ignored.
  unfoldable pub ignore_protocol : Option String → Listener L → Listener L × Bool
  ignore_protocol none l = (l, true)
  ignore_protocol (some _) l = (post_error both_protocols (record l { protocol = none }), true)

  unfoldable pub use_stack : Option (List String) → Listener L → Listener L × Bool
  use_stack none l = (post_error protocol_not_valid l, false)
  use_stack (some stack) l = (record l { protocol_stack = stack }, true)

  unfoldable pub from_protocol : Option String → Listener L → Listener L × Bool
  from_protocol none l = (post_error no_protocol l, false)
  from_protocol (some protocol) l = use_stack (lookup protocol protocol_stacks) l

  -- `if pstack:` to `self.protocolStack = pstack`
  unfoldable pub set_stack : Listener L → Listener L × Bool
  set_stack l = elim l.protocol_stack [
    | _ ∷ _ ↦ ignore_protocol (given l.protocol) l
    | [] ↦ from_protocol (given l.protocol) l
  ]

  -- By the last protocol: TCP, UDP with HTTP, or an error
  abbrev pub by_socket : String → Listener L → Listener L × Bool
  by_socket socket l =
      let l' = record l { socket_protocol = some socket } in
      if not (socket == "TCP" || socket == "UDP")
      then (post_error no_socket_protocol l', false)
      else if socket == "UDP"
      then (if contains l.protocol_stack "HTTP"
          then (record l' { http3_enabled = true }, true)
          else (post_error udp_without_http (record l' { http3_enabled = false }), false))
      else (record l' { http3_enabled = false }, true)

  -- The stack is not empty here; `stack[-1]` of an empty list would raise.
  unfoldable pub set_socket : Listener L → Listener L × Bool
  set_socket l = elim l.protocol_stack [
    | [] ↦ (l, false)
    | first ∷ rest ↦ by_socket (last_of first rest) l
  ]

  unfoldable pub check_security : Listener L → Listener L × Bool
  check_security l = elim (given l.security_model) [
    | none ↦ (post_error no_security_model l, false)
    | some _ ↦ (l, true)
  ]

  module _ (str : ℕ → String) (lower : String → String) where
    -- The socket protocol is set before.
    abbrev pub default_prefix : Listener L → String
    default_prefix l =
        if contains l.protocol_stack "HTTP"
        then (if contains l.protocol_stack "TLS" then "ingress_https" else "ingress_http")
        else if contains l.protocol_stack "TLS"
        then str_append "ingress_tls_" (str l.port)
        else str_append "ingress_" (
            str_append (elim l.socket_protocol [ none ↦ "" | some socket ↦ lower socket ])
              (str_append "_" (str l.port)))

    unfoldable pub set_prefix : Listener L → Listener L × Bool
    set_prefix l = elim (given l.stats_prefix) [
      | none ↦ (record l { stats_prefix = some (default_prefix l) }, true)
      | some _ ↦ (l, true)
    ]

    -- `if nsfrom.lower() == "all":`
    abbrev pub by_from : String → Listener L → Listener L
    by_from from l =
        if lower from == "all"
        then record l { namespace_literal = "*" }
        else if lower from == "self"
        then record l { namespace_literal = l.namespace }
        else if lower from == "selector"
        then post_error namespace_selector_unsupported l
        else l

    unfoldable pub bind_namespace : Option NamespaceBinding → Listener L → Listener L × Bool
    bind_namespace none l = (l, true)
    bind_namespace (some b) l = elim (given b.from) [
      | none ↦ (post_error no_namespace_from l, false)
      | some from ↦ (by_from from l, true)
    ]

    unfoldable pub bind_selector : Option (HostSelector L) → Listener L → Listener L × Bool
    bind_selector none l = (l, true)
    bind_selector (some s) l = elim s.match_labels [
      | none ↦ (post_error only_match_labels l, false)
      | some _ ↦ (record l { host_selector = some s }, true)
    ]

    abbrev pub bind_parts :
        Option NamespaceBinding → Option (HostSelector L) → Listener L → Listener L × Bool
    bind_parts none none l = (post_error empty_host_binding l, false)
    bind_parts none (some s) l = bind_selector (some s) l
    bind_parts (some b) s l = bind_namespace (some b) l >=> bind_selector s

    -- An empty `hostBinding` counts as none.
    abbrev pub is_binding : HostBinding L → Bool
    is_binding b = elim b.namespace [
      | some _ ↦ true
      | none ↦ elim b.selector [ some _ ↦ true | none ↦ false ]
    ]

    unfoldable pub bind_hosts : Listener L → Listener L × Bool
    bind_hosts l = elim l.host_binding [
      | none ↦ (post_error no_host_binding l, false)
      | some b ↦
          if is_binding b
          then bind_parts (given_namespace b.namespace) (given_selector b.selector)
              (record l { host_binding = none })
          else (post_error no_host_binding l, false)
    ]

    -- `setup`; `default_address` is `Config.envoy_bind_address`.
    unfoldable pub setup : String → Listener L → Listener L × Bool
    setup default_address l =
        (
          record l {
            namespace_literal = l.namespace;
            host_selector = none;
            bind_address = elim (given l.bind_address) [
              | none ↦ some default_address
              | some a ↦ some a
            ];
          },
          true,
        )
        >=> set_stack
        >=> set_socket
        >=> check_security
        >=> set_prefix
        >=> bind_hosts
