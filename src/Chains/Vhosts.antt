-- ===== src/Chains/Vhosts.antt =====
-- The chains, and the virtual hosts that are made of them, of a host name whose Hosts refuse insecure
-- requests.
use emissary.Prelude.{
  List, [], ◌∷◌, ◌++◌, Option, none, some, Dict, lookup, insert, map, Holds, Holds-insert,
  Holds-lookup, All, All-append, All-map, string_eq, ◌≡◌, refl, inl, inr, ◌∙◌, sym, Option-cases,
}
use mathlib.Core.Path.{subst}
use emissary.Results.{ok, raised, key_error}
use emissary.Resolver.{text_eq}
use emissary.RouteVariants.{Route}
use emissary.Chains.{
  Text, TlsContext, Host, TcpGroup, Owner, tcp, http, Chain, Settings, empty_chain, enter,
  add_tcphost, add_httphost,
}
use emissary.Chains.Built.{add_tcphost-cases, add_httphost-cases}
use emissary.Chains.Secure.{Guarded}
use emissary.Chains.Guarded.{HostOk, OwnerRefuses, GuardedRoute, GuardedAt, ChainGuarded}
use emissary.Chains.Finalize.{
  EnvoyRoute, VirtualHost, FilterChain, HttpChain, tcp_proxy, http_manager, drop_internal,
  extend_vhost, add_vhosts,
}

pub empty-ChainGuarded {ℓ} :
    (V : Type ℓ) (d : Text) (context : Option TlsContext)
    → ChainGuarded {V = V} d (empty_chain context)
empty-ChainGuarded V d context = (tt, tt)

module _ {ℓ} {V : Type ℓ} (d : Text) where
  -- The calls that make chains keep their routes guarded.
  pub add_tcphost-ChainGuarded :
      (g : TcpGroup) (c : Chain V) → ChainGuarded d c → ChainGuarded d (add_tcphost g c).0
  unfolding insert
  add_tcphost-ChainGuarded g c h =
      add_tcphost-cases (ChainGuarded d) g c h (λ names. (h.0, (tt, tt)))

  enter-ChainGuarded :
      (h : Host) (c : Chain V) → HostOk d h → ChainGuarded d c → ChainGuarded d (enter h c)
  enter-ChainGuarded h c refuses g = (
    Holds-insert (GuardedAt d) h.ir.hostname [] c.routes (λ _. tt) g.0,
    Holds-insert (λ _ o. OwnerRefuses d o) h.ir.hostname (http h) c.hosts refuses g.1,
  )

  pub add_httphost-ChainGuarded :
      (h : Host) (c : Chain V) → HostOk d h → ChainGuarded d c → ChainGuarded d (add_httphost h c).0
  add_httphost-ChainGuarded h c refuses g =
      add_httphost-cases (ChainGuarded d) h c g
        (λ names _ _. enter-ChainGuarded h (record c { server_names = names }) refuses g)

  abbrev pub EnvoyGuarded : EnvoyRoute V → Type ℓ
  EnvoyGuarded r = Guarded r.matching r.action r.redirect

  abbrev pub VhostGuarded : VirtualHost V → Type ℓ
  VhostGuarded v = v.domain ≡ d → All EnvoyGuarded v.routes

  -- The virtual host under a host name is for that name.
  abbrev pub Placed : Text → VirtualHost V → Type ℓ
  Placed k v = (v.domain ≡ k) × VhostGuarded v

  abbrev pub HttpGuarded : HttpChain V → Type ℓ
  HttpGuarded fc = Holds Placed fc.vhosts

  abbrev pub FilterGuarded : FilterChain V → Type ℓ
  FilterGuarded fc = elim fc.filter [ tcp_proxy _ ↦ Unit | http_manager vs ↦ All VhostGuarded vs ]

  extend_vhost-Guarded :
      (l : Settings) (hostname : Text) (rs : List (EnvoyRoute V)) (fc : HttpChain V)
      → (hostname ≡ d → All EnvoyGuarded rs)
      → HttpGuarded fc
      → HttpGuarded (extend_vhost l hostname rs fc)
  unfolding extend_vhost
  extend_vhost-Guarded l hostname rs fc g h = elim (Option-cases (lookup hostname fc.vhosts)) [
    | inl missing ↦
        rw (extend_vhost, missing) (Holds-insert Placed hostname _ fc.vhosts (refl, λ e. g e) h)
    | inr (v, found) ↦
        let p = Holds-lookup Placed hostname v fc.vhosts h found in
        rw (extend_vhost, found)
          (Holds-insert Placed hostname (record v { routes = v.routes ++ rs }) fc.vhosts
            (p.0, λ e. All-append EnvoyGuarded v.routes rs (p.1 e) (g (sym p.0 ∙ e))) h)
  ]

  pub add_vhosts-Guarded :
      (l : Settings) (c : Chain V) (owners : Dict Text Owner) (fc fc' : HttpChain V)
      → ChainGuarded d c
      → HttpGuarded fc
      → add_vhosts l c owners fc ≡ ok fc'
      → HttpGuarded fc'
  unfolding add_vhosts
  add_vhosts-Guarded l c [] fc fc' g h ran = let e : fc ≡ fc' = cc ran in subst HttpGuarded e h
  add_vhosts-Guarded l c ((_, tcp _) ∷ owners) fc fc' g h ran =
      add_vhosts-Guarded l c owners fc fc' g h ran
  add_vhosts-Guarded l c ((_, http i) ∷ owners) fc fc' g h ran =
      by_routes (λ start. add_vhosts-Guarded l c owners start fc' g) (lookup i.ir.hostname c.routes)
        refl ran
    where
      by_routes :
          ((start : HttpChain V)
            → HttpGuarded start
            → add_vhosts l c owners start ≡ ok fc'
            → HttpGuarded fc')
          → (o : Option (List (Route V))) → lookup i.ir.hostname c.routes ≡ o
          → (elim o [
            | none ↦ raised key_error
            | some rs ↦
                add_vhosts l c owners (extend_vhost l i.ir.hostname (map drop_internal rs) fc)
          ])
            ≡ ok fc'
          → HttpGuarded fc'
      by_routes others none at e = absurd cc
      by_routes others (some rs) at e =
          others (extend_vhost l i.ir.hostname (map drop_internal rs) fc)
            (extend_vhost-Guarded l i.ir.hostname (map drop_internal rs) fc
              (λ here.
                All-map GuardedRoute EnvoyGuarded drop_internal rs (λ r k. k)
                  (Holds-lookup (GuardedAt d) i.ir.hostname rs c.routes g.0 at here))
              h)
            e
