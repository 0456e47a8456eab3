-- ===== src/Chains/Finished.antt =====
-- Listeners are finalized with no exception: no dictionary misses a key and no assertion fails.
use emissary.Prelude.{
  not, List, [], ◌∷◌, Option, none, some, Dict, lookup-some, map, keys, Holds, All, ◌&&◌,
  if◌then◌else◌, string_eq, refl,
}
use emissary.Results.{Result, ok, >>=-Returns, if-Returns}
use emissary.Resolver.{text_eq}
use emissary.RouteVariants.{codes, RouteVariants, variant_key_eq}
use emissary.Chains.{Text, TlsContext, Owner, tcp, http, Chain, Chains, Settings}
use emissary.Chains.Built.{compute_tcpchains-AllChains, compute_httpchains-AllChains}
use emissary.Chains.Routes.{has_http}
use emissary.Chains.Finalize.{
  HttpChain, drop_internal, tls_of, extend_vhost, add_vhosts, place, shared_chain, tls_chain,
  first_name, finalize_chain, finalize_chains, finalize_http, World, finalize_rest, finalize,
  generate,
}
use emissary.Chains.Total.{IsFine, Done, compute_tcpchains-Done, compute_httpchains-Done}
use emissary.Chains.Returning.{
  OwnerReady, ChainReady, empty-ChainReady, add_tcphost-ChainReady, add_httphost-ChainReady,
  compute_http_routes-AllReady,
}

module _ {ℓ} {V : Type ℓ} (l : Settings) where
  add_vhosts-Done :
      (c : Chain V) (owners : Dict Text Owner) (fc : HttpChain V)
      → Holds (λ _ o. OwnerReady (keys c.routes) o) owners
      → Done (add_vhosts l c owners fc)
  unfolding add_vhosts
  add_vhosts-Done c [] fc r = (_, refl, tt)
  add_vhosts-Done c ((_, tcp g) ∷ owners) fc r = add_vhosts-Done c owners fc r.1
  add_vhosts-Done c ((_, http h) ∷ owners) fc r =
      let (rs, found) = lookup-some h.ir.hostname c.routes r.0.1 in
      rw (add_vhosts, found)
        (add_vhosts-Done c owners (extend_vhost l h.ir.hostname (map drop_internal rs) fc) r.1)

  place-Done :
      (key : Text) (start : HttpChain V) (c : Chain V) (fcs : Dict Text (HttpChain V))
      → ChainReady c
      → Done (place l key start c fcs)
  place-Done key start c fcs r =
      >>=-Returns _ _ _ _ (add_vhosts-Done c c.hosts start r) (λ fc _. (_, refl, tt))

  finalize_chain-Done :
      (key : Text) (c : Chain V) (fcs : Dict Text (HttpChain V))
      → ChainReady c
      → Done (finalize_chain l key c fcs)
  unfolding finalize_chain
  finalize_chain-Done key c fcs r =
      if-Returns _ (not (has_http c)) _ _ (λ _. (_, refl, tt)) (λ _. by_context (tls_of c))
    where
      by_context :
          (o : Option TlsContext)
          → let placed : Result (Dict Text (HttpChain V)) = elim o [
            | none ↦
                if l.is_udp && l.http3_enabled
                then ok fcs
                else place l (codes "http") (shared_chain l fcs) c fcs
            | some context ↦ place l key (tls_chain l context c (first_name c.hosts)) c fcs
          ] in
            Done placed
      by_context none =
          if-Returns _ (l.is_udp && l.http3_enabled) _ _ (λ _. (_, refl, tt))
            (λ _. place-Done (codes "http") (shared_chain l fcs) c fcs r)
      by_context (some context) =
          place-Done key (tls_chain l context c (first_name c.hosts)) c fcs r

  finalize_chains-Done :
      (chains : Dict Text (Chain V)) (fcs : Dict Text (HttpChain V))
      → Holds (λ _ c. ChainReady c) chains
      → Done (finalize_chains l chains fcs)
  unfolding finalize_chains
  finalize_chains-Done [] fcs r = (_, refl, tt)
  finalize_chains-Done ((key, c) ∷ chains) fcs r =
      >>=-Returns _ _ _ _ (finalize_chain-Done key c fcs r.0)
        (λ fcs' _. finalize_chains-Done chains fcs' r.1)

module _ {ℓ} {V : Type ℓ} (w : World) (l : Settings) where
  finalize_rest-Done :
      (s : Chains V) (rvs : List (RouteVariants V))
      → All IsFine w.hosts
      → Holds (λ _ c. ChainReady c) s.chains
      → Done (finalize_rest w l s rvs)
  unfolding finalize_rest finalize_http
  finalize_rest-Done s rvs fine r =
      let (s', made, _) = compute_httpchains-Done l w.loose w.hosts s in
      let r' =
        compute_httpchains-AllChains ChainReady IsFine (empty-ChainReady V) add_tcphost-ChainReady
          add_httphost-ChainReady l w.loose w.hosts s s' fine r made in
      let (t, routed, r'') =
        compute_http_routes-AllReady w.filters w.loose l.security_model s'.chains rvs r' in
      let (fcs, written, _) = finalize_chains-Done l t.0 [] r'' in
      rw (made, routed, written) (_, refl, tt)

  pub finalize-Done : (rvs : List (RouteVariants V)) → All IsFine w.hosts → Done (finalize w l rvs)
  unfolding finalize
  finalize-Done rvs fine =
      let (s, made, _) =
        compute_tcpchains-Done {V = V} l w.hosts w.contexts w.tcp_groups
          (record { chains = []; posted = [] }) fine in
      let r =
        compute_tcpchains-AllChains ChainReady IsFine (empty-ChainReady V) add_tcphost-ChainReady
          add_httphost-ChainReady l w.hosts w.contexts w.tcp_groups
          (record { chains = []; posted = [] }) s tt made in
      rw made
        (if-Returns _ l.has_http _ _ (λ _. finalize_rest-Done s rvs fine r) (λ _. (_, refl, tt)))

-- Where every Host has a host name and its insecure action, if it has one, is Reject or, in any case of
-- letters, Route or Redirect, the listeners of a configuration are generated with no exception, whatever the
-- listeners, the TCP groups, the TLS contexts, the routes and their variants are.
pub generate-Done {ℓ} :
    {V : Type ℓ} (w : World) (ls : List Settings) (rvs : List (RouteVariants V))
    → All IsFine w.hosts
    → Done (generate w ls rvs)
unfolding generate
generate-Done w [] rvs fine = (_, refl, tt)
generate-Done w (l ∷ ls) rvs fine =
    let (done, ran, _) = finalize-Done w l rvs fine in
    let (rest, others, _) = generate-Done w ls done.route_variants fine in
    rw (ran, others) (_, refl, tt)
