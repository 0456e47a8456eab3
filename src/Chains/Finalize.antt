-- ===== src/Chains/Finalize.antt =====
-- The filter chains as Envoy gets them, `finalize_tcp`, `finalize_http`, `finalize` and `generate` of
-- `V3Listener`. What all HTTP connection managers of a listener share is left out: the base configuration and
-- the options that the Ambassador module sets. A key of a dictionary that is missing raises.
use emissary.Prelude.{
  ℕ, String, Bool, not, List, [], ◌∷◌, ◌++◌, Option, none, some, Dict, lookup, insert, contains,
  map, ◌&&◌, if◌then◌else◌, string_eq,
}
use emissary.Results.{Result, ok, raised, key_error, ◌>>=◌}
use emissary.Resolver.{text_eq}
use emissary.RouteVariants.{codes, Route, RouteMatch, Redirect, FilterConfig, RouteVariants}
use emissary.Chains.{
  Text, TlsContext, Host, TcpGroup, Owner, tcp, http, Chain, Chains, ChainError, Settings,
  owner_name, compute_tcpchains, compute_httpchains,
}
use emissary.Chains.Routes.{has_http, compute_http_routes}

-- A route with no internal fields.
pub record EnvoyRoute {ℓ} (V : Type ℓ) : Type ℓ where
  pub matching : RouteMatch V
  pub action : Option V
  pub redirect : Option (Redirect V)
  pub filter_config : Option (FilterConfig V)
  pub rest : V

-- `alt_svc` tells whether the header alt-svc is added to responses.
pub record VirtualHost {ℓ} (V : Type ℓ) : Type ℓ where
  pub name : Text
  pub domain : Text
  pub alt_svc : Bool
  pub routes : List (EnvoyRoute V)

pub data FilterName : Type 0 where
  tcphost httpshost : String → FilterName
  httphost_shared : FilterName

pub record FilterMatch : Type 0 where
  pub transport_protocol : Option String
  pub server_names : Option (List Text)

pub data Socket : Type 0 where
  tls_socket quic_socket : TlsContext → Socket

pub data Filter {ℓ} (V : Type ℓ) : Type ℓ where
  tcp_proxy : List (String × ℕ) → Filter V
  http_manager : List (VirtualHost V) → Filter V

pub record FilterChain {ℓ} (V : Type ℓ) : Type ℓ where
  pub name : FilterName
  pub matching : FilterMatch
  pub socket : Option Socket
  pub filter : Filter V

-- A filter chain with its virtual hosts by host name, `_vhosts`.
pub record HttpChain {ℓ} (V : Type ℓ) : Type ℓ where
  pub name : FilterName
  pub matching : FilterMatch
  pub socket : Option Socket
  pub vhosts : Dict Text (VirtualHost V)

-- A star among the server names matches every name, so then there is no match on them.
abbrev pub match_names : List Text → Option (List Text)
match_names [] = none
match_names (n ∷ ns) = if contains (n ∷ ns) (codes "*") then none else some (n ∷ ns)

-- `next(iter(chain.hosts.values())).name`, which is there where a chain has a Host.
abbrev pub first_name : Dict Text Owner → String
first_name [] = ""
first_name ((_, owner) ∷ owners) = owner_name owner

abbrev pub values {ℓ} : {W : Type ℓ} → Dict Text W → List W
values [] = []
values ((_, w) ∷ ws) = w ∷ values ws

module _ {ℓ} {V : Type ℓ} where
  -- The context of a chain, where it is usable.
  abbrev pub tls_of : Chain V → Option TlsContext
  tls_of c = elim c.context [
    | none ↦ none
    | some context ↦ if context.usable then some context else none
  ]

  unfoldable pub tcp_chain : Chain V → TcpGroup → FilterChain V
  tcp_chain c g = record {
    name = tcphost g.name;
    matching = record {
      transport_protocol = elim (tls_of c) [ none ↦ none | some _ ↦ some "tls" ];
      server_names = match_names c.server_names;
    };
    socket = elim (tls_of c) [ none ↦ none | some context ↦ some (tls_socket context) ];
    filter = tcp_proxy g.clusters;
  }

  unfoldable pub tcp_chains : Chain V → Dict Text Owner → List (FilterChain V)
  unfolding tcp_chain
  tcp_chains c [] = []
  tcp_chains c ((_, tcp g) ∷ owners) = tcp_chain c g ∷ tcp_chains c owners
  tcp_chains c ((_, http h) ∷ owners) = tcp_chains c owners

  unfoldable pub finalize_tcp : Dict Text (Chain V) → List (FilterChain V)
  unfolding tcp_chains
  finalize_tcp [] = []
  finalize_tcp ((_, c) ∷ chains) = tcp_chains c c.hosts ++ finalize_tcp chains

  abbrev pub drop_internal : Route V → EnvoyRoute V
  drop_internal r = record {
    matching = r.matching;
    action = r.action;
    redirect = r.redirect;
    filter_config = r.filter_config;
    rest = r.rest;
  }

  module _ (l : Settings) where
    abbrev new_vhost : Text → VirtualHost V
    new_vhost hostname = record {
      name = l.name ++ (codes "-" ++ hostname);
      domain = hostname;
      alt_svc = l.http3_enabled && not l.is_udp;
      routes = [];
    }

    -- `vhost["routes"] += routes`, of a virtual host that is there or new
    unfoldable pub extend_vhost : Text → List (EnvoyRoute V) → HttpChain V → HttpChain V
    extend_vhost hostname rs fc =
        let vhost : VirtualHost V = elim (lookup hostname fc.vhosts) [
          | some v ↦ v
          | none ↦ new_vhost hostname
        ] in
        record fc {
          vhosts = insert hostname (record vhost { routes = vhost.routes ++ rs }) fc.vhosts;
        }

    unfoldable pub add_vhosts : Chain V → Dict Text Owner → HttpChain V → Result (HttpChain V)
    add_vhosts c [] fc = ok fc
    add_vhosts c ((_, tcp g) ∷ owners) fc = add_vhosts c owners fc
    add_vhosts c ((_, http h) ∷ owners) fc = elim (lookup h.ir.hostname c.routes) [
      | none ↦ raised key_error
      | some rs ↦ add_vhosts c owners (extend_vhost h.ir.hostname (map drop_internal rs) fc)
    ]

    -- The chain that all HTTP chains without TLS share
    abbrev pub shared_chain : Dict Text (HttpChain V) → HttpChain V
    shared_chain fcs = elim (lookup (codes "http") fcs) [
      | some fc ↦ fc
      | none ↦ record {
        name = httphost_shared;
        matching = record { transport_protocol = none; server_names = none };
        socket = none;
        vhosts = [];
      }
    ]

    abbrev pub tls_chain : TlsContext → Chain V → String → HttpChain V
    tls_chain context c first = record {
      name = httpshost first;
      matching = record {
        transport_protocol = some (if l.is_udp && l.http3_enabled then "quic" else "tls");
        server_names = match_names c.server_names;
      };
      socket = some (if l.is_udp then quic_socket context else tls_socket context);
      vhosts = [];
    }

    -- A chain is written out under a key, from the filter chain that stands there or a new one.
    abbrev pub place :
        Text → HttpChain V → Chain V → Dict Text (HttpChain V) → Result (Dict Text (HttpChain V))
    place key start c fcs = do fc ← add_vhosts c c.hosts start; ok (insert key fc fcs)

    unfoldable pub finalize_chain :
        Text → Chain V → Dict Text (HttpChain V) → Result (Dict Text (HttpChain V))
    unfolding add_vhosts extend_vhost
    finalize_chain key c fcs = if not (has_http c) then ok fcs else elim (tls_of c) [
      | none ↦
          if l.is_udp && l.http3_enabled
          then ok fcs
          else place (codes "http") (shared_chain fcs) c fcs
      | some context ↦ place key (tls_chain context c (first_name c.hosts)) c fcs
    ]

    unfoldable pub finalize_chains :
        Dict Text (Chain V) → Dict Text (HttpChain V) → Result (Dict Text (HttpChain V))
    finalize_chains [] fcs = ok fcs
    finalize_chains ((key, c) ∷ chains) fcs = do
      fcs' ← finalize_chain key c fcs
      finalize_chains chains fcs'

  abbrev pub close_chain : HttpChain V → FilterChain V
  close_chain fc = record {
    name = fc.name;
    matching = fc.matching;
    socket = fc.socket;
    filter = http_manager (values fc.vhosts);
  }

  unfoldable pub finalize_http : Settings → Dict Text (Chain V) → Result (List (FilterChain V))
  unfolding finalize_chains finalize_chain
  finalize_http l chains = do fcs ← finalize_chains l chains []; ok (map close_chain (values fcs))

-- What a listener comes to: its filter chains, what was posted, and the variants that are kept.
pub record Finalized {ℓ} (V : Type ℓ) : Type ℓ where
  pub filter_chains : List (FilterChain V)
  pub posted : List ChainError
  pub route_variants : List (RouteVariants V)

-- What a listener is finalized against: the Hosts, the TLS contexts and the TCP groups of the IR, the kinds
-- of its filters, and whether selectors are loose.
pub record World : Type 0 where
  pub loose : Bool
  pub hosts : List Host
  pub contexts : List TlsContext
  pub tcp_groups : List TcpGroup
  pub filters : List String

module _ {ℓ} {V : Type ℓ} (w : World) where
  -- The part of `finalize` for HTTP, after the TCP chains
  unfoldable pub finalize_rest : Settings → Chains V → List (RouteVariants V) → Result (Finalized V)
  unfolding compute_httpchains compute_http_routes finalize_http
  finalize_rest l s rvs = do
    s' ← compute_httpchains l w.loose w.hosts s
    (chains, rvs') ← compute_http_routes w.filters w.loose l.security_model s'.chains rvs
    https ← finalize_http l chains
    ok (record {
      filter_chains = finalize_tcp s.chains ++ https;
      posted = s'.posted;
      route_variants = rvs';
    })

  unfoldable pub finalize : Settings → List (RouteVariants V) → Result (Finalized V)
  unfolding finalize_rest compute_tcpchains finalize_tcp
  finalize l rvs = do
    s ← compute_tcpchains l w.hosts w.contexts w.tcp_groups (record { chains = []; posted = [] })
    if l.has_http
        then finalize_rest l s rvs
        else ok (record {
          filter_chains = finalize_tcp s.chains;
          posted = s.posted;
          route_variants = rvs;
        })

  -- The listeners of the configuration, and those that are disabled for want of a filter chain
  unfoldable pub generate :
      List Settings
      → List (RouteVariants V)
      → Result (List (Settings × List (FilterChain V)) × List Settings)
  unfolding finalize
  generate [] rvs = ok ([], [])
  generate (l ∷ ls) rvs = do
    done ← finalize l rvs
    (listeners, disabled) ← generate ls done.route_variants
    ok (elim done.filter_chains [
      | [] ↦ (listeners, l ∷ disabled)
      | fc ∷ fcs ↦ ((l, fc ∷ fcs) ∷ listeners, disabled)
    ])
