-- ===== src/Chains/Refused.antt =====
-- What a finished listener does with insecure requests for a host name whose Hosts refuse them.
use emissary.Prelude.{
  false, not, List, [], ◌∷◌, ◌++◌, Option, none, some, Dict, lookup, insert, map, Holds,
  Holds-insert, Holds-lookup, All, All-append, ◌==◌, ◌&&◌, if◌then◌else◌, string_eq, ◌≡◌, ◌≢◌, inl,
  inr, ap, Bool-cases, Option-cases, then_taken, else_taken, eq_iff,
}
use mathlib.Core.Path.{subst}
use emissary.Results.{ok, >>=-eq-ok}
use emissary.Resolver.{text_eq}
use emissary.RouteVariants.{codes, RouteVariants}
use emissary.RouteVariants.Laws.{IsCached}
use emissary.Chains.{
  Text, TlsContext, Owner, tcp, http, Chain, Chains, Settings, compute_tcpchains,
  compute_httpchains,
}
use emissary.Chains.Built.{ok-eq, compute_tcpchains-AllChains, compute_httpchains-AllChains}
use emissary.Chains.Routes.{has_http, compute_http_routes}
use emissary.Chains.Guarded.{HostOk, ChainGuarded, compute_http_routes-Guarded}
use emissary.Chains.Finalize.{
  VirtualHost, HttpChain, tls_of, tcp_chain, tcp_chains, finalize_tcp, add_vhosts, place,
  shared_chain, tls_chain, first_name, finalize_chain, finalize_chains, values, close_chain,
  finalize_http, Finalized, World, finalize_rest, finalize,
}
use emissary.Chains.Vhosts.{
  empty-ChainGuarded, add_tcphost-ChainGuarded, add_httphost-ChainGuarded, VhostGuarded, Placed,
  HttpGuarded, FilterGuarded, add_vhosts-Guarded,
}

module _ {ℓ} {V : Type ℓ} (d : Text) where
  abbrev AllHttp : Dict Text (HttpChain V) → Type ℓ
  AllHttp fcs = Holds (λ _ fc. HttpGuarded d fc) fcs

  place-Guarded :
      (l : Settings) (key : Text) (start : HttpChain V) (c : Chain V)
      (fcs fcs' : Dict Text (HttpChain V))
      → ChainGuarded d c
      → HttpGuarded d start
      → AllHttp fcs
      → place l key start c fcs ≡ ok fcs'
      → AllHttp fcs'
  place-Guarded l key start c fcs fcs' g first h ran =
      let (fc, added, done) = >>=-eq-ok (add_vhosts l c c.hosts start) _ ran in
      let e : insert key fc fcs ≡ fcs' = cc done in
      subst AllHttp e (
        Holds-insert (λ _ fc. HttpGuarded d fc) key fc fcs
          (add_vhosts-Guarded d l c c.hosts start fc g first added) h)

  shared-Guarded :
      (l : Settings) (fcs : Dict Text (HttpChain V))
      → AllHttp fcs
      → HttpGuarded d (shared_chain l fcs)
  shared-Guarded l fcs h = elim (Option-cases (lookup (codes "http") fcs)) [
    | inl missing ↦ rw (shared_chain, missing) tt
    | inr (fc, found) ↦
        rw (shared_chain, found)
          (Holds-lookup (λ _ fc. HttpGuarded d fc) (codes "http") fc fcs h found)
  ]

  finalize_chain-Guarded :
      (l : Settings) (key : Text) (c : Chain V) (fcs fcs' : Dict Text (HttpChain V))
      → ChainGuarded d c
      → AllHttp fcs
      → finalize_chain l key c fcs ≡ ok fcs'
      → AllHttp fcs'
  unfolding finalize_chain
  finalize_chain-Guarded l key c fcs fcs' g h ran = elim (Bool-cases (has_http c)) [
    | inr tcp_only ↦ same (then_taken _ (ap not tcp_only) ran)
    | inl hosts ↦ by_context (tls_of c) (else_taken _ (ap not hosts) ran)
  ]
    where
      same : ok fcs ≡ ok fcs' → AllHttp fcs'
      same e = let e' : fcs ≡ fcs' = cc in subst AllHttp e' h

      by_context :
          (o : Option TlsContext)
          → (elim o [
            | none ↦
                if l.is_udp && l.http3_enabled
                then ok fcs
                else place l (codes "http") (shared_chain l fcs) c fcs
            | some context ↦ place l key (tls_chain l context c (first_name c.hosts)) c fcs
          ])
            ≡ ok fcs'
          → AllHttp fcs'
      by_context none e = elim (Bool-cases (l.is_udp && l.http3_enabled)) [
        | inl quic ↦ same (then_taken _ quic e)
        | inr plain ↦
            place-Guarded l (codes "http") (shared_chain l fcs) c fcs fcs' g
              (shared-Guarded l fcs h) h (else_taken _ plain e)
      ]
      by_context (some context) e =
          place-Guarded l key (tls_chain l context c (first_name c.hosts)) c fcs fcs' g tt h e

  finalize_chains-Guarded :
      (l : Settings) (chains : Dict Text (Chain V)) (fcs fcs' : Dict Text (HttpChain V))
      → Holds (λ _ c. ChainGuarded d c) chains
      → AllHttp fcs
      → finalize_chains l chains fcs ≡ ok fcs'
      → AllHttp fcs'
  unfolding finalize_chains
  finalize_chains-Guarded l [] fcs fcs' g h ran = let e : fcs ≡ fcs' = cc ran in subst AllHttp e h
  finalize_chains-Guarded l ((key, c) ∷ chains) fcs fcs' g h ran =
      let (mid, one, others) = >>=-eq-ok (finalize_chain l key c fcs) _ ran in
      finalize_chains-Guarded l chains mid fcs' g.1
        (finalize_chain-Guarded l key c fcs mid g.0 h one) others

  closed-Guarded :
      (fcs : Dict Text (HttpChain V))
      → AllHttp fcs
      → All (FilterGuarded d) (map close_chain (values fcs))
  closed-Guarded [] h = tt
  closed-Guarded ((_, fc) ∷ fcs) h = (by_vhosts fc.vhosts h.0, closed-Guarded fcs h.1)
    where
      by_vhosts :
          (vs : Dict Text (VirtualHost V)) → Holds (Placed d) vs → All (VhostGuarded d) (values vs)
      by_vhosts [] g = tt
      by_vhosts ((_, v) ∷ vs) g = (g.0.1, by_vhosts vs g.1)

  tcp_chains-Guarded :
      (c : Chain V) (owners : Dict Text Owner) → All (FilterGuarded d) (tcp_chains c owners)
  unfolding tcp_chains tcp_chain
  tcp_chains-Guarded c [] = tt
  tcp_chains-Guarded c ((_, tcp g) ∷ owners) = (tt, tcp_chains-Guarded c owners)
  tcp_chains-Guarded c ((_, http i) ∷ owners) = tcp_chains-Guarded c owners

  finalize_tcp-Guarded :
      (chains : Dict Text (Chain V)) → All (FilterGuarded d) (finalize_tcp chains)
  unfolding finalize_tcp
  finalize_tcp-Guarded [] = tt
  finalize_tcp-Guarded ((_, c) ∷ chains) =
      All-append (FilterGuarded d) (tcp_chains c c.hosts) (finalize_tcp chains)
        (tcp_chains-Guarded c c.hosts) (finalize_tcp-Guarded chains)

  finalize_rest-Guarded :
      (w : World) (l : Settings) (s : Chains V) (rvs : List (RouteVariants V)) (f : Finalized V)
      → All (HostOk d) w.hosts
      → All (IsCached w.filters) rvs
      → (l.security_model == "SECURE") ≡ false
      → Holds (λ _ c. ChainGuarded d c) s.chains
      → finalize_rest w l s rvs ≡ ok f
      → All (FilterGuarded d) f.filter_chains
  unfolding finalize_rest finalize_http
  finalize_rest-Guarded w l s rvs f refuses cached model g ran =
      let (s', made, more) = >>=-eq-ok (compute_httpchains l w.loose w.hosts s) _ ran in
      let ((chains, rvs'), routed, more') =
        >>=-eq-ok (compute_http_routes w.filters w.loose l.security_model s'.chains rvs) _ more in
      let (https, closed, done) = >>=-eq-ok (finalize_http l chains) _ more' in
      let (fcs, written, listed) = >>=-eq-ok (finalize_chains l chains []) _ closed in
      let before =
        compute_httpchains-AllChains (ChainGuarded d) (HostOk d) (empty-ChainGuarded V d)
          (add_tcphost-ChainGuarded d) (add_httphost-ChainGuarded d) l w.loose w.hosts s s' refuses
          g made in
      let after =
        compute_http_routes-Guarded w.filters d l.security_model model w.loose s'.chains chains rvs
          rvs' before cached routed in
      let kept = closed-Guarded fcs (finalize_chains-Guarded l chains [] fcs after.0 tt written) in
      let e : map close_chain (values fcs) ≡ https = cc listed in
      let e' : finalize_tcp s.chains ++ https ≡ f.filter_chains =
        ap (λ (r : Finalized V). r.filter_chains) (ok-eq done) in
      subst (All (FilterGuarded d)) e' (
        All-append (FilterGuarded d) (finalize_tcp s.chains) https (finalize_tcp-Guarded s.chains)
          (subst (All (FilterGuarded d)) e kept))

  -- The security model of a listener is not SECURE, each Host of the host name `d` has an insecure action
  -- other than Route or none, and the variants kept so far are right. Then in every filter chain that the
  -- listener comes to, every route of a virtual host for `d` that admits a request without https as
  -- x-forwarded-proto redirects to HTTPS and forwards nothing, or is for challenges of ACME.
  pub finalize-Guarded :
      (w : World) (l : Settings) (rvs : List (RouteVariants V)) (f : Finalized V)
      → All (HostOk d) w.hosts
      → All (IsCached w.filters) rvs
      → l.security_model ≢ "SECURE"
      → finalize w l rvs ≡ ok f
      → All (FilterGuarded d) f.filter_chains
  unfolding finalize
  finalize-Guarded w l rvs f refuses cached model ran =
      let (s, made, more) =
        >>=-eq-ok
          (compute_tcpchains l w.hosts w.contexts w.tcp_groups
            (record { chains = []; posted = [] }))
          _ ran in
      let g =
        compute_tcpchains-AllChains (ChainGuarded d) (HostOk d) (empty-ChainGuarded V d)
          (add_tcphost-ChainGuarded d) (add_httphost-ChainGuarded d) l w.hosts w.contexts
          w.tcp_groups (record { chains = []; posted = [] }) s tt made in
      elim (Bool-cases l.has_http) [
        | inl web ↦ finalize_rest-Guarded w l s rvs f refuses cached other g (then_taken _ web more)
        | inr plain ↦
            let e : finalize_tcp s.chains ≡ f.filter_chains =
              ap (λ (r : Finalized V). r.filter_chains) (ok-eq (else_taken _ plain more)) in
            subst (All (FilterGuarded d)) e (finalize_tcp-Guarded s.chains)
      ]
    where
      other : (l.security_model == "SECURE") ≡ false
      other = elim (Bool-cases (l.security_model == "SECURE")) [
        | inl secure ↦ absurd (model ((eq_iff l.security_model "SECURE").0 secure))
        | inr not_secure ↦ not_secure
      ]
