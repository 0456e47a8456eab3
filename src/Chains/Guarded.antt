-- ===== src/Chains/Guarded.antt =====
-- The routes that stand under a host name in any chain, where every Host of that name refuses insecure
-- requests.
use emissary.Prelude.{
  String, Bool, false, List, [], ◌∷◌, ◌++◌, Dict, lookup, Holds, Holds-insert, Holds-lookup, All,
  All-append, ◌==◌, if◌then◌else◌, string_eq, ◌≡◌, inl, inr, Bool-cases, Option-cases, then_taken,
  else_taken,
}
use mathlib.Core.Path.{subst}
use emissary.Results.{ok, >>=-eq-ok}
use emissary.Resolver.{text_eq}
use emissary.Matching.{matches_httpgroup}
use emissary.RouteVariants.{codes, Route, Matcher, RouteVariants, get_variant}
use emissary.RouteVariants.Laws.{IsCached, get_variant-made}
use emissary.Chains.{Text, Host, Owner, tcp, http, Chain}
use emissary.Chains.Routes.{
  Routing, action_for, add_route, constrain, candidates, matching_hosts, add_candidate,
  add_candidates, add_hosts, consider_route, consider_routes, compute_http_routes, has_http,
}
use emissary.Chains.Secure.{Refuses, Safe, Guarded, candidates-Safe, make_variant-Guarded}

abbrev pub HostOk : Text → Host → Type 0
HostOk d h = h.ir.hostname ≡ d → Refuses h

abbrev pub OwnerRefuses : Text → Owner → Type 0
OwnerRefuses d (tcp g) = Unit
OwnerRefuses d (http h) = HostOk d h

abbrev pub GuardedRoute {ℓ} : {V : Type ℓ} → Route V → Type ℓ
GuardedRoute r = Guarded r.matching r.action r.redirect

matching_hosts-HostOk {ℓ} :
    {V : Type ℓ} (d : Text) (loose : Bool) (r : Route V) (owners : Dict Text Owner)
    (hosts : List Host)
    → Holds (λ _ o. OwnerRefuses d o) owners
    → matching_hosts loose r owners ≡ ok hosts
    → All (HostOk d) hosts
unfolding matching_hosts
matching_hosts-HostOk d loose r [] hosts h ran =
    let e : [] ≡ hosts = cc in subst (All (HostOk d)) e tt
matching_hosts-HostOk d loose r ((_, tcp g) ∷ owners) hosts h ran =
    matching_hosts-HostOk d loose r owners hosts h.1 ran
matching_hosts-HostOk d loose r ((_, http i) ∷ owners) hosts h ran =
    let (matched, _, more) = >>=-eq-ok (matches_httpgroup loose i.ir r.group) _ ran in
    let (rest, found, done) = >>=-eq-ok (matching_hosts loose r owners) _ more in
    let others = matching_hosts-HostOk d loose r owners rest h.1 found in
    let e : (if matched then i ∷ rest else rest) ≡ hosts = cc done in
    subst (All (HostOk d)) e
      (elim (Bool-cases matched) [ inl yes' ↦ rw yes' (h.0, others) | inr no' ↦ rw no' others ])

module _ {ℓ} {V : Type ℓ} (d : Text) where
  abbrev pub GuardedAt : Text → List (Route V) → Type ℓ
  GuardedAt k rs = k ≡ d → All GuardedRoute rs

  abbrev pub ChainGuarded : Chain V → Type ℓ
  ChainGuarded c = Holds GuardedAt c.routes × Holds (λ _ o. OwnerRefuses d o) c.hosts

module _ {ℓ} {V : Type ℓ} (filters : List String) (d : Text) where
  abbrev pub RoutingGuarded : Routing V → Type ℓ
  RoutingGuarded (c, rv) = (ChainGuarded d) c × IsCached filters rv

  add_route-ChainGuarded :
      (hostname : Text) (r : Route V) (c : Chain V)
      → (hostname ≡ d → GuardedRoute r)
      → (ChainGuarded d) c
      → (ChainGuarded d) (add_route hostname r c)
  unfolding add_route
  add_route-ChainGuarded hostname r c g h = elim (Option-cases (lookup hostname c.routes)) [
    | inl missing ↦
        rw missing (Holds-insert (GuardedAt d) hostname (r ∷ []) c.routes (λ e. (g e, tt)) h.0, h.1)
    | inr (rs, found) ↦ rw found (
      Holds-insert (GuardedAt d) hostname (rs ++ r ∷ []) c.routes
          (λ e.
            All-append GuardedRoute rs (r ∷ [])
              (Holds-lookup (GuardedAt d) hostname rs c.routes h.0 found e) (g e, tt))
          h.0,
      h.1,
    )
  ]

  add_candidate-Guarded :
      (hostname : Text) (k : Matcher × Text) (s s' : Routing V)
      → (hostname ≡ d → Safe k)
      → RoutingGuarded s
      → add_candidate filters hostname k s ≡ ok s'
      → RoutingGuarded s'
  unfolding add_candidate
  add_candidate-Guarded hostname (matcher, action) (c, rv) s' safe h ran =
      elim (Bool-cases (action_for rv.route action == codes "Reject")) [
        | inl reject ↦
            let e : (c, rv) ≡ s' = cc (then_taken _ reject ran) in subst RoutingGuarded e h
        | inr accept ↦
            let ((v, rv'), got, done) =
              >>=-eq-ok (get_variant filters matcher (action_for rv.route action) rv) _
                (else_taken _ accept ran) in
            let (made, cached) =
              get_variant-made filters matcher (action_for rv.route action) rv rv' v h.1 got in
            let e : (add_route hostname (constrain hostname v) c, rv') ≡ s' = cc done in
            subst RoutingGuarded e (
              add_route-ChainGuarded hostname (constrain hostname v) c
                  (λ here. make_variant-Guarded filters matcher action rv.route v (safe here) made)
                  h.0,
              cached,
            )
      ]

  add_candidates-Guarded :
      (hostname : Text) (ks : List (Matcher × Text)) (s s' : Routing V)
      → (hostname ≡ d → All Safe ks)
      → RoutingGuarded s
      → add_candidates filters hostname ks s ≡ ok s'
      → RoutingGuarded s'
  unfolding add_candidates
  add_candidates-Guarded hostname [] s s' safe h ran =
      let e : s ≡ s' = cc ran in subst RoutingGuarded e h
  add_candidates-Guarded hostname (k ∷ ks) s s' safe h ran =
      let (mid, one, others) = >>=-eq-ok (add_candidate filters hostname k s) _ ran in
      add_candidates-Guarded hostname ks mid s' (λ e. (safe e).1)
        (add_candidate-Guarded hostname k s mid (λ e. (safe e).0) h one) others

  module _ (model : String) (some_insecure : (model == "SECURE") ≡ false) where
    add_hosts-Guarded :
        (hosts : List Host) (s s' : Routing V)
        → All (HostOk d) hosts
        → RoutingGuarded s
        → add_hosts filters model hosts s ≡ ok s'
        → RoutingGuarded s'
    unfolding add_hosts
    add_hosts-Guarded [] s s' hs h ran = let e : s ≡ s' = cc ran in subst RoutingGuarded e h
    add_hosts-Guarded (i ∷ is) s s' hs h ran =
        let (mid, one, others) =
          >>=-eq-ok (add_candidates filters i.ir.hostname (candidates model i) s) _ ran in
        add_hosts-Guarded is mid s' hs.1
          (add_candidates-Guarded i.ir.hostname (candidates model i) s mid
            (λ e. candidates-Safe model i (hs.0 e) some_insecure) h one)
          others

    consider_route-Guarded :
        (loose : Bool) (s s' : Routing V)
        → RoutingGuarded s
        → consider_route filters loose model s ≡ ok s'
        → RoutingGuarded s'
    unfolding consider_route
    consider_route-Guarded loose (c, rv) s' h ran =
        let (hosts, found, added) = >>=-eq-ok (matching_hosts loose rv.route c.hosts) _ ran in
        add_hosts-Guarded hosts (c, rv) s'
          (matching_hosts-HostOk d loose rv.route c.hosts hosts h.0.1 found) h added

    consider_routes-Guarded :
        (loose : Bool) (c c' : Chain V) (rvs rvs' : List (RouteVariants V))
        → (ChainGuarded d) c
        → All (IsCached filters) rvs
        → consider_routes filters loose model c rvs ≡ ok (c', rvs')
        → (ChainGuarded d) c' × All (IsCached filters) rvs'
    unfolding consider_routes
    consider_routes-Guarded loose c c' [] rvs' h cached ran =
        let e : c ≡ c' = cc ran in
        let e' : [] ≡ rvs' = cc ran in
        (subst (ChainGuarded d) e h, subst (All (IsCached filters)) e' tt)
    consider_routes-Guarded loose c c' (rv ∷ rvs) rvs' h cached ran =
        let ((c₁, rv₁), one, more) = >>=-eq-ok (consider_route filters loose model (c, rv)) _ ran in
        let ((c₂, rvs₂), others, done) =
          >>=-eq-ok (consider_routes filters loose model c₁ rvs) _ more in
        let first = consider_route-Guarded loose (c, rv) (c₁, rv₁) (h, cached.0) one in
        let rest = consider_routes-Guarded loose c₁ c₂ rvs rvs₂ first.0 cached.1 others in
        let e : c₂ ≡ c' = cc done in
        let e' : rv₁ ∷ rvs₂ ≡ rvs' = cc done in
        (subst (ChainGuarded d) e rest.0, subst (All (IsCached filters)) e' (first.1, rest.1))

    pub compute_http_routes-Guarded :
        (loose : Bool) (chains chains' : Dict Text (Chain V)) (rvs rvs' : List (RouteVariants V))
        → Holds (λ _ c. ChainGuarded d c) chains
        → All (IsCached filters) rvs
        → compute_http_routes filters loose model chains rvs ≡ ok (chains', rvs')
        → Holds (λ _ c. ChainGuarded d c) chains' × All (IsCached filters) rvs'
    unfolding compute_http_routes
    compute_http_routes-Guarded loose [] chains' rvs rvs' h cached ran =
        let e : [] ≡ chains' = cc ran in
        let e' : rvs ≡ rvs' = cc ran in
        (subst (Holds (λ _ c. ChainGuarded d c)) e tt, subst (All (IsCached filters)) e' cached)
    compute_http_routes-Guarded loose ((key, c) ∷ chains) chains' rvs rvs' h cached ran =
        let ((c₁, rvs₁), one, more) =
          >>=-eq-ok (if has_http c then consider_routes filters loose model c rvs else ok (c, rvs))
            _ ran in
        let ((chains₂, rvs₂), others, done) =
          >>=-eq-ok (compute_http_routes filters loose model chains rvs₁) _ more in
        let first = by_http c₁ rvs₁ one in
        let rest = compute_http_routes-Guarded loose chains chains₂ rvs₁ rvs₂ h.1 first.1 others in
        let e : (key, c₁) ∷ chains₂ ≡ chains' = cc done in
        let e' : rvs₂ ≡ rvs' = cc done in
        (
          subst (Holds (λ _ c. ChainGuarded d c)) e (first.0, rest.0),
          subst (All (IsCached filters)) e' rest.1,
        )
      where
        by_http :
            (c' : Chain V) (rvs₁ : List (RouteVariants V))
            → (if has_http c then consider_routes filters loose model c rvs else ok (c, rvs))
              ≡ ok (c', rvs₁)
            → (ChainGuarded d) c' × All (IsCached filters) rvs₁
        by_http c' rvs₁ e = elim (Bool-cases (has_http c)) [
          | inl yes' ↦ consider_routes-Guarded loose c c' rvs rvs₁ h.0 cached (then_taken _ yes' e)
          | inr no' ↦
              let same : c ≡ c' = cc (else_taken _ no' e) in
              let same' : rvs ≡ rvs₁ = cc (else_taken _ no' e) in
              (subst (ChainGuarded d) same h.0, subst (All (IsCached filters)) same' cached)
        ]
