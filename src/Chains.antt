-- ===== src/Chains.antt =====
-- The filter chains of an Envoy listener before they are written out,
-- python/ambassador/src/ambassador/envoy/v3/v3listener.py: `V3Chain`, `tlscontext_for_tcpmapping` and
-- `add_chain`, `compute_tcpchains`, `compute_httpchains` of `V3Listener`. A chain stands under its key, a
-- text, and is changed where it stands. Errors posted are collected without their text. A set of server
-- names is the list of its members. The debug log is not modelled.
pub mod Built
pub mod Routes
pub mod Guarded
pub mod Finalize
pub mod Sound
pub mod Vhosts
pub mod Refused
pub mod Total
pub mod Returning
pub mod Finished
pub mod Secure
mod Tests
use emissary.Prelude.{
  ℕ, String, Bool, true, false, not, List, [], ◌∷◌, ◌++◌, Option, none, some, Dict, lookup, insert,
  has_key, contains, any, ltb, nat_eqb, ◌==◌, ◌&&◌, ◌||◌, if◌then◌else◌, string_eq, nat_eq, HasEq,
}
use emissary.Results.{Result, ok, raised, assertion_error, ◌>>=◌}
use emissary.HostGlob.{hostglob_matches}
use emissary.Resolver.{text_eq}
use emissary.Matching.{Listener, matches_host}
use emissary.Matching
use emissary.RouteVariants.{codes, Route}

abbrev pub Text : Type 0
Text = List ℕ

-- An `IRTLSContext`; `usable` is its truth: it is active and has no errors.
pub record TlsContext : Type 0 where
  pub name : String
  pub namespace : String
  pub hosts : List Text
  pub usable : Bool

-- An `IRHost` and its name, its host name for TLS, its context and what it does with requests.
pub record Host : Type 0 where
  pub ir : Matching.Host
  pub name : String
  pub sni : Text
  pub context : Option TlsContext
  pub secure_action : Option Text
  pub insecure_action : Option Text
  pub insecure_addl_port : Option ℕ

-- An `IRTCPMappingGroup`; `clusters` are the Envoy names and the weights of its mappings.
pub record TcpGroup : Type 0 where
  pub name : String
  pub host : Option Text
  pub bind_to : String
  pub clusters : List (String × ℕ)

pub data Owner : Type 0 where
  tcp : TcpGroup → Owner
  http : Host → Owner

-- The name of a Host or group that is dropped, and that of the one it conflicts with.
pub data ChainError : Type 0 where
  tcp_conflict : String → String → ChainError
  host_conflict : String → String → ChainError
  missing_context : String → ChainError
  mismatching_context : String → ChainError
  no_context : String → ChainError

pub record Chain {ℓ} (V : Type ℓ) : Type ℓ where
  pub context : Option TlsContext
  pub hosts : Dict Text Owner
  pub server_names : List Text
  pub routes : Dict Text (List (Route V))

-- `if context:`
abbrev pub is_usable : Option TlsContext → Bool
is_usable none = false
is_usable (some c) = c.usable

abbrev pub owner_name : Owner → String
owner_name (tcp g) = g.name
owner_name (http h) = h.name

abbrev pub is_http : Text × Owner → Bool
is_http (_, tcp _) = false
is_http (_, http _) = true

-- `server_names.add(name)`
abbrev pub add_name : Text → List Text → List Text
add_name name names = if contains names name then names else names ++ name ∷ []

-- `tcpmapping.get("host", "*")`
abbrev pub host_or_star : Option Text → Text
host_or_star none = codes "*"
host_or_star (some h) = h

abbrev pub Posted {ℓ} : Type ℓ → Type ℓ
Posted V = Chain V × List ChainError

-- The first TCP group among the owners
unfoldable pub tcp_owner : Dict Text Owner → Option TcpGroup
tcp_owner [] = none
tcp_owner ((_, tcp g) ∷ owners) = some g
tcp_owner ((_, http _) ∷ owners) = tcp_owner owners

abbrev pub same_context : TlsContext → TlsContext → Bool
same_context c d = c.name == d.name && c.namespace == d.namespace

module _ {ℓ} {V : Type ℓ} where
  abbrev pub empty_chain : Option TlsContext → Chain V
  empty_chain context = record { context = context; hosts = []; server_names = []; routes = [] }

  unfoldable pub add_tcphost : TcpGroup → Chain V → Posted V
  add_tcphost g c = elim c.hosts [
    | (_, other) ∷ _ ↦ (c, tcp_conflict g.name (owner_name other) ∷ [])
    | [] ↦ (
      record c {
        server_names =
            if is_usable c.context
            then add_name (host_or_star g.host) c.server_names
            else c.server_names;
        hosts = insert (host_or_star g.host) (tcp g) c.hosts;
      },
      [],
    )
  ]

  -- `self.routes[host.hostname] = []` and `self.hosts[host.hostname] = host`
  abbrev pub enter : Host → Chain V → Chain V
  enter h c = record c {
    routes = insert h.ir.hostname [] c.routes;
    hosts = insert h.ir.hostname (http h) c.hosts;
  }

  -- `if self.context:` to the end of `add_httphost`; the arguments are the two contexts where they are
  -- usable.
  abbrev pub add_secure : TlsContext → Option TlsContext → Host → Chain V → Posted V
  add_secure mine theirs h c = elim theirs [
    | none ↦ (c, missing_context h.name ∷ [])
    | some context ↦
        if not context.usable
        then (c, missing_context h.name ∷ [])
        else if same_context mine context
        then (enter h (record c { server_names = add_name h.sni c.server_names }), [])
        else (c, mismatching_context h.name ∷ [])
  ]

  unfoldable pub add_httphost : Host → Chain V → Posted V
  unfolding tcp_owner
  add_httphost h c = elim (tcp_owner c.hosts) [
    | some g ↦ (c, host_conflict h.name g.name ∷ [])
    | none ↦ elim c.context [
      | none ↦ (enter h c, [])
      | some mine ↦ if mine.usable then add_secure mine h.context h c else (enter h c, [])
    ]
  ]

pub data ChainType : Type 0 where
  tcp_chain http_chain https_chain : ChainType

-- `hostname or "*"`
abbrev pub or_star : Text → Text
or_star [] = codes "*"
or_star (c ∷ s) = c ∷ s

-- `chain_key`, from the truth of the context
abbrev pub chain_key : ChainType → Bool → Text → Text → Text
chain_key http_chain tls hostname sni =
    (if tls then codes "tls-" ++ sni else codes "cleartext") ++ codes "-" ++ or_star hostname
chain_key _ tls hostname sni = if tls then codes "tls-" ++ sni else codes "cleartext"

-- The two assertions at the top of `add_chain`
abbrev pub chain_type_ok : ChainType → Bool → Bool
chain_type_ok tcp_chain tls = true
chain_type_ok http_chain tls = not tls
chain_type_ok https_chain tls = tls

-- What a listener computes: the chains by their keys, and what was posted.
pub record Chains {ℓ} (V : Type ℓ) : Type ℓ where
  pub chains : Dict Text (Chain V)
  pub posted : List ChainError

module _ {ℓ} {V : Type ℓ} where
  -- `self._chains.get(chain_key)`, or a new chain
  abbrev pub chain_at : Text → Option TlsContext → Dict Text (Chain V) → Chain V
  chain_at key context chains = elim (lookup key chains) [ some c ↦ c | none ↦ empty_chain context ]

  -- A chain from `add_chain`, and a method that is called on it.
  unfoldable pub on_chain :
      ChainType
      → Option TlsContext
      → Text
      → Text
      → (Chain V → Posted V)
      → Chains V
      → Result (Chains V)
  on_chain type context hostname sni method s =
      let key = chain_key type (is_usable context) hostname sni in
      let (c, errors) = method (chain_at key context s.chains) in
      if chain_type_ok type (is_usable context)
      then ok (record { chains = insert key c s.chains; posted = s.posted ++ errors })
      else raised assertion_error

-- The order of host names as texts, by code points, a prefix first.
unfoldable pub text_leb : Text → Text → Bool
text_leb [] t = true
text_leb (c ∷ s) [] = false
text_leb (c ∷ s) (d ∷ t) =
    let rest = text_leb s t in if ltb c d then true else if nat_eqb c d then rest else false

unfoldable pub insert_host : Host → List Host → List Host
unfolding text_leb
insert_host h [] = h ∷ []
insert_host h (k ∷ hs) =
    let rest = insert_host h hs in
    if text_leb h.ir.hostname k.ir.hostname then h ∷ k ∷ hs else k ∷ rest

-- `sorted(hosts, key=lambda h: h.hostname)`, which keeps the order of Hosts with one name.
unfoldable pub sort_hosts : List Host → List Host
unfolding insert_host
sort_hosts [] = []
sort_hosts (h ∷ hs) = insert_host h (sort_hosts hs)

-- The first loop of `tlscontext_for_tcpmapping`
pub context_of_hosts : Text → List Host → Result (Option TlsContext)
context_of_hosts name [] = ok none
context_of_hosts name (h ∷ hs) =
    let rest = context_of_hosts name hs in
    if not (is_usable h.context)
    then rest
    else do matched ← hostglob_matches h.ir.hostname name; if matched then ok h.context else rest

-- The second loop: host names are compared as texts.
pub context_by_name : Text → List TlsContext → Option TlsContext
context_by_name name [] = none
context_by_name name (c ∷ cs) =
    let rest = context_by_name name cs in if contains c.hosts name then some c else rest

unfoldable pub tlscontext_for_tcpmapping :
    List Host → List TlsContext → TcpGroup → Result (Option TlsContext)
unfolding context_of_hosts context_by_name sort_hosts
tlscontext_for_tcpmapping hosts contexts g = elim g.host [
  | none ↦ ok none
  | some [] ↦ ok none
  | some (c ∷ s) ↦ do
    found ← context_of_hosts (c ∷ s) (sort_hosts hosts)
    elim found [ some context ↦ ok (some context) | none ↦ ok (context_by_name (c ∷ s) contexts) ]
]

-- What a `V3Listener` reads of its `IRListener`: `tls_ok` and `has_http` tell whether TLS and HTTP are in the
-- protocol stack, `is_udp` whether the socket protocol is UDP.
pub record Settings : Type 0 where
  pub ir : Listener
  pub name : Text
  pub bind_to : String
  pub port : ℕ
  pub insecure_only : Bool
  pub security_model : String
  pub tls_ok : Bool
  pub has_http : Bool
  pub is_udp : Bool
  pub http3_enabled : Bool

abbrev pub port_is : Option ℕ → ℕ → Bool
port_is none port = false
port_is (some p) port = port == p

-- `not action or action == "Reject"`
abbrev pub will_reject : Option Text → Bool
will_reject none = true
will_reject (some []) = true
will_reject (some (c ∷ s)) = (c ∷ s) == codes "Reject"

abbrev pub is_reject : Option Text → Bool
is_reject none = false
is_reject (some action) = action == codes "Reject"

module _ (l : Settings) where
  abbrev pub takes_secure : Host → Bool
  takes_secure h =
      l.tls_ok
      && is_usable h.context
      && not (l.security_model == "SECURE" && will_reject h.secure_action)

  abbrev pub takes_insecure : Host → Bool
  takes_insecure h = not (l.security_model == "INSECURE" && is_reject h.insecure_action)

  -- `loose` is what `disable_strict_selectors()` reads from the environment.
  abbrev pub takes_host : Bool → Host → Bool
  takes_host loose h =
      matches_host loose l.ir h.ir
      && not (l.insecure_only && not (port_is h.insecure_addl_port l.port))

module _ {ℓ} {V : Type ℓ} (l : Settings) where
  -- A group with the host name `host` takes the context that was found for it.
  unfoldable pub add_tls_tcp : Text → Option TlsContext → TcpGroup → Chains V → Result (Chains V)
  unfolding on_chain add_tcphost
  add_tls_tcp host context g s =
      if is_usable context
      then on_chain tcp_chain context host host (add_tcphost g) s
      else ok (record s { posted = s.posted ++ no_context g.name ∷ [] })

  unfoldable pub consider_tcp :
      List Host → List TlsContext → TcpGroup → Chains V → Result (Chains V)
  unfolding add_tls_tcp tlscontext_for_tcpmapping
  consider_tcp hosts contexts g s = if not (g.bind_to == l.bind_to) then ok s else elim g.host [
    | none ↦ on_chain tcp_chain none (codes "*") (codes "*") (add_tcphost g) s
    | some [] ↦ on_chain tcp_chain none (codes "*") (codes "*") (add_tcphost g) s
    | some (c ∷ name) ↦ do
      context ← tlscontext_for_tcpmapping hosts contexts g
      add_tls_tcp (c ∷ name) context g s
  ]

  -- The argument has the TCP groups among the groups of the IR, in their order.
  unfoldable pub compute_tcpchains :
      List Host → List TlsContext → List TcpGroup → Chains V → Result (Chains V)
  compute_tcpchains hosts contexts [] s = ok s
  compute_tcpchains hosts contexts (g ∷ gs) s = do
    s' ← consider_tcp hosts contexts g s
    compute_tcpchains hosts contexts gs s'

  unfoldable pub add_secure_chain : Host → Chains V → Result (Chains V)
  unfolding on_chain add_httphost
  add_secure_chain h s =
      if takes_secure l h
      then on_chain https_chain h.context h.ir.hostname h.sni (add_httphost h) s
      else ok s

  unfoldable pub add_insecure_chain : Host → Chains V → Result (Chains V)
  unfolding on_chain add_httphost
  add_insecure_chain h s =
      if takes_insecure l h
      then on_chain http_chain none h.ir.hostname h.sni (add_httphost h) s
      else ok s

  unfoldable pub consider_host : Bool → Host → Chains V → Result (Chains V)
  unfolding add_secure_chain add_insecure_chain
  consider_host loose h s =
      if not (takes_host l loose h)
      then ok s
      else do s' ← add_secure_chain h s; add_insecure_chain h s'

  pub consider_hosts : Bool → List Host → Chains V → Result (Chains V)
  consider_hosts loose [] s = ok s
  consider_hosts loose (h ∷ hs) s = do s' ← consider_host loose h s; consider_hosts loose hs s'

  unfoldable pub compute_httpchains : Bool → List Host → Chains V → Result (Chains V)
  unfolding consider_hosts consider_host sort_hosts
  compute_httpchains loose hosts s = consider_hosts loose (sort_hosts hosts) s
