-- ===== src/Chains/Tests.antt =====
-- A listener on both protocols with a Host that redirects insecure requests and a TCP group with TLS.
use emissary.Prelude.{
  ℕ, true, false, List, [], ◌∷◌, none, some, lookup, insert, Holds, All, map, ◌==◌, ◌≡◌, refl,
  string_eq, length,
}
use emissary.Results.{Result, ok, raised}
use emissary.Resolver.{text_eq}
use mathlib.Core.Path.{subst}
use emissary.HostGlob.{hostglob_matches}
use emissary.HostGlob.Text.{text_eqb, first, first_is, last_is}
use emissary.Matching.{selector_matches, matches_host, matches_httpgroup, host_match}
use emissary.Matching
use emissary.RouteVariants.{codes, lower, Route, fresh, get_variant, key_eqb}
use emissary.RouteVariants.Laws.{IsCached}
use emissary.Chains.{
  Text, TlsContext, Host, TcpGroup, Chains, Settings, compute_tcpchains, compute_httpchains,
  consider_tcp,
}
use emissary.Chains.Routes.{add_candidate}
use emissary.Chains.Finalize.{
  World, Finalized, FilterName, FilterChain, Filter, tcp_proxy, http_manager, tcphost, httpshost,
  httphost_shared, finalize, generate,
}
use emissary.Chains.Sound.{IsSound, compute-IsSound}
use emissary.Chains.Guarded.{HostOk}
use emissary.Chains.Vhosts.{FilterGuarded}
use emissary.Chains.Refused.{finalize-Guarded}
use emissary.Chains.Total.{is_known, IsFine, Done}
use emissary.Chains.Finished.{generate-Done}

abbrev context : TlsContext
context = record { name = "tls"; namespace = "default"; hosts = codes "db.org" ∷ []; usable = true }

abbrev web_name : Text
web_name = codes "a.org"

abbrev web : Host
web = record {
  ir = record {
    hostname = web_name;
    namespace = "default";
    mapping_selector = none;
    metadata_labels = [];
  };
  name = "web";
  sni = web_name;
  context = some context;
  secure_action = some (codes "Route");
  insecure_action = some (codes "Redirect");
  insecure_addl_port = none;
}

abbrev database : TcpGroup
database = record {
  name = "db";
  host = some (codes "db.org");
  bind_to = "tcp-0.0.0.0-8443";
  clusters = ("cluster_db", 100) ∷ [];
}

abbrev listener : Settings
listener = record {
  ir = record { namespace_literal = "*"; host_selector = [] };
  name = codes "l";
  bind_to = "tcp-0.0.0.0-8443";
  port = 8443;
  insecure_only = false;
  security_model = "XFP";
  tls_ok = true;
  has_http = true;
  is_udp = false;
  http3_enabled = false;
}

abbrev group : Matching.Group
group = record {
  name = "GROUP: web";
  host_regex = false;
  host = web_name;
  host_redirect_host = [];
  metadata_labels = [];
}

abbrev route : Route ℕ
route = record {
  host_constraints = [];
  group = group;
  failed = false;
  matching = record { prefix = some (codes "/"); headers = none; rest = 0 };
  action = some 7;
  redirect = none;
  filter_config = none;
  rest = 0;
}

abbrev world : World
world = record {
  loose = false;
  hosts = web ∷ [];
  contexts = context ∷ [];
  tcp_groups = database ∷ [];
  filters = [];
}

value_of {ℓ} : {A : Type ℓ} → A → Result A → A
value_of a (raised _) = a
value_of a (ok b) = b

abbrev no_chains : Chains ℕ
no_chains = record { chains = []; posted = [] }

tcp_made : Result (Chains ℕ)
unfolding compute_tcpchains consider_tcp hostglob_matches first first_is last_is
tcp_made = compute_tcpchains listener (web ∷ []) (context ∷ []) (database ∷ []) no_chains

made : Result (Chains ℕ)
unfolding compute_httpchains matches_host
made = compute_httpchains listener false (web ∷ []) (value_of no_chains tcp_made)

compute-IsSound_example :
    Holds (λ _ c. IsSound c) (value_of no_chains tcp_made).chains
    × Holds (λ _ c. IsSound c) (value_of no_chains made).chains
unfolding tcp_made made value_of text_eqb lookup insert
compute-IsSound_example =
    compute-IsSound listener false (web ∷ []) (context ∷ []) (database ∷ [])
      (value_of no_chains tcp_made) (value_of no_chains made) refl refl

abbrev nothing : Finalized ℕ
nothing = record { filter_chains = []; posted = []; route_variants = [] }

done : Result (Finalized ℕ)
unfolding finalize hostglob_matches first first_is last_is matches_host matches_httpgroup host_match
    get_variant consider_tcp add_candidate key_eqb
done = finalize world listener (fresh route ∷ [])

-- The filter chains for the TCP group, for the Host over TLS and for the cleartext Hosts, each with the
-- number of its routes.
vhost_routes : Filter ℕ → List ℕ
vhost_routes (tcp_proxy _) = []
vhost_routes (http_manager vs) = map (λ v. length v.routes) vs

entry : FilterChain ℕ → FilterName × List ℕ
unfolding vhost_routes
entry fc = (fc.name, vhost_routes fc.filter)

listed :
    map entry (value_of nothing done).filter_chains
    ≡ (tcphost "db", []) ∷ (httpshost "web", 2 ∷ []) ∷ (httphost_shared, 2 ∷ []) ∷ []
unfolding done value_of text_eqb lookup insert lower entry
listed = refl

web_refuses : All (HostOk web_name) (web ∷ [])
unfolding lower text_eqb
web_refuses = (
  λ _ action e.
      let same : codes "Redirect" ≡ action = cc in
      subst (λ a. (lower a == codes "route") ≡ false) same refl,
  tt,
)

fresh-IsCached : All (IsCached []) (fresh route ∷ [])
unfolding lookup
fresh-IsCached = (λ key v found. absurd cc, tt)

finalize-Guarded_example : All (FilterGuarded web_name) (value_of nothing done).filter_chains
unfolding done value_of text_eqb lookup insert lower
finalize-Guarded_example =
    finalize-Guarded web_name world listener (fresh route ∷ []) (value_of nothing done) web_refuses
      fresh-IsCached (λ e. cc) refl

web-IsFine : IsFine web
unfolding lower text_eqb
web-IsFine = record {
  named = λ e. absurd cc;
  known = λ action e.
      let same : codes "Redirect" ≡ action = cc in subst (λ a. is_known a ≡ true) same refl;
}

generate-Done_example : Done (generate world (listener ∷ []) (fresh route ∷ []))
generate-Done_example = generate-Done world (listener ∷ []) (fresh route ∷ []) (web-IsFine, tt)
