-- ===== src/Listener/Tests.antt =====
-- A Listener for HTTPS, and one for plain UDP.
use emissary.Prelude.{ℕ, String, true, false, List, [], ◌∷◌, Option, none, some, lookup, ◌≡◌, refl}
use emissary.Listener.{
  udp_without_http, HostBinding, Listener, ignore_protocol, use_stack, from_protocol, set_stack,
  set_socket, check_security, set_prefix, bind_namespace, bind_selector, bind_hosts, setup,
}
use emissary.Listener.Laws.{Outcome}
use emissary.Listener.Ready.{IsReady, setup-Outcome}

abbrev digits : ℕ → String
digits n = "8443"

abbrev same : String → String
same t = t

abbrev binding : HostBinding ℕ
binding = record { namespace = some (record { from = some "all"; more = false }); selector = none }

abbrev listener : List String → Option String → Listener ℕ
listener stack protocol = record {
  namespace = "default";
  port = 8443;
  bind_address = none;
  protocol_stack = stack;
  protocol = protocol;
  security_model = some "XFP";
  stats_prefix = none;
  host_binding = some binding;
  namespace_literal = "";
  host_selector = none;
  socket_protocol = none;
  http3_enabled = false;
  errors = [];
}

accepted : (setup digits same "0.0.0.0" (listener [] (some "HTTPS"))) ≡ (
  record (listener ("TLS" ∷ "HTTP" ∷ "TCP" ∷ []) (some "HTTPS")) {
    bind_address = some "0.0.0.0";
    stats_prefix = some "ingress_https";
    host_binding = none;
    namespace_literal = "*";
    socket_protocol = some "TCP";
  },
  true,
)
unfolding setup set_stack from_protocol use_stack set_socket check_security set_prefix
    bind_namespace bind_selector bind_hosts lookup
accepted = refl

plain_udp :
    (setup digits same "0.0.0.0" (listener ("UDP" ∷ []) none)).0.errors ≡ udp_without_http ∷ []
unfolding setup set_stack ignore_protocol set_socket
plain_udp = refl

setup-Outcome_example : Outcome IsReady (setup digits same "0.0.0.0" (listener [] (some "HTTPS")))
setup-Outcome_example = setup-Outcome digits same "0.0.0.0" (listener [] (some "HTTPS"))
