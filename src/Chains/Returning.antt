-- ===== src/Chains/Returning.antt =====
-- The routes of the chains are computed with no exception: no `getattr` misses a handler.
use emissary.Prelude.{
  String, Bool, true, false, List, [], ◌∷◌, Option, none, some, Dict, lookup, insert, contains,
  keys, contains-keys-insert, Holds, Holds-insert, Holds-imp, All, All-append, ◌==◌, ◌||◌,
  if◌then◌else◌, string_eq, ◌≡◌, refl, inl, inr, ◌∙◌, arith, Bool-cases, Option-cases, eq_self,
}
use emissary.Results.{ok, Returns, returns, >>=-Returns, if-Returns}
use emissary.HostGlob.Text.{text_eqb}
use emissary.Matching.Laws.{matches_httpgroup_total}
use emissary.Resolver.{text_eq}
use emissary.RouteVariants.{
  codes, lower, Route, Matcher, RouteVariants, variant_key_eq, matcher_handler, action_handler,
  make_variant, get_variant,
}
use emissary.Chains.{
  Text, TlsContext, Host, TcpGroup, Owner, tcp, http, Chain, empty_chain, add_tcphost, add_httphost,
}
use emissary.Chains.Built.{add_tcphost-cases, add_httphost-cases}
use emissary.Chains.Routes.{
  Routing, action_for, is_acme, add_route, constrain, candidates, secure_candidates,
  insecure_candidates, matching_hosts, add_candidate, add_candidates, add_hosts, consider_route,
  consider_routes, compute_http_routes, has_http,
}
use emissary.Chains.Total.{is_known, IsFine, Done}

-- A Host of a chain is fine and its host name has routes.
abbrev pub OwnerReady : List Text → Owner → Type 0
OwnerReady routed (tcp g) = Unit
OwnerReady routed (http h) = IsFine h × (contains routed h.ir.hostname ≡ true)

abbrev pub ChainReady {ℓ} : {V : Type ℓ} → Chain V → Type 0
ChainReady c = Holds (λ _ o. OwnerReady (keys c.routes) o) c.hosts

pub empty-ChainReady {ℓ} :
    (V : Type ℓ) (context : Option TlsContext) → ChainReady (empty_chain {V = V} context)
empty-ChainReady V context = tt

still_ready {ℓ} :
    {W : Type ℓ} (k : Text) (w : W) (m : Dict Text W) (o : Owner)
    → OwnerReady (keys m) o
    → OwnerReady (keys (insert k w m)) o
still_ready k w m (tcp g) r = tt
still_ready k w m (http h) r = (r.0, contains-keys-insert k h.ir.hostname w m ∙ ground (arith, r.1))

module _ {ℓ} {V : Type ℓ} where
  pub add_tcphost-ChainReady :
      (g : TcpGroup) (c : Chain V) → ChainReady c → ChainReady (add_tcphost g c).0
  unfolding insert
  add_tcphost-ChainReady g c r = add_tcphost-cases ChainReady g c r (λ names. (tt, tt))

  pub add_httphost-ChainReady :
      (h : Host) (c : Chain V) → IsFine h → ChainReady c → ChainReady (add_httphost h c).0
  add_httphost-ChainReady h c fine r = add_httphost-cases ChainReady h c r (λ names _ _.
      let here : contains (keys (insert h.ir.hostname [] c.routes)) h.ir.hostname ≡ true =
        contains-keys-insert h.ir.hostname h.ir.hostname [] c.routes ∙ rw (eq_self h.ir.hostname) in
      Holds-insert (λ _ o. OwnerReady (keys (insert h.ir.hostname [] c.routes)) o) h.ir.hostname
        (http h) c.hosts (fine, here)
        (Holds-imp (λ _ o. OwnerReady (keys c.routes) o) _ c.hosts
          (λ _ o. still_ready h.ir.hostname [] c.routes o) r))

  add_route-ChainReady :
      (hostname : Text) (v : Route V) (c : Chain V)
      → ChainReady c
      → ChainReady (add_route hostname v c)
  unfolding add_route
  add_route-ChainReady hostname v c r =
      Holds-imp (λ _ o. OwnerReady (keys c.routes) o) _ c.hosts
        (λ _ o. still_ready hostname _ c.routes o) r

  matching_hosts-IsFine :
      (loose : Bool) (v : Route V) (routed : List Text) (owners : Dict Text Owner)
      → Holds (λ _ o. OwnerReady routed o) owners
      → Returns (All IsFine) (matching_hosts loose v owners)
  unfolding matching_hosts
  matching_hosts-IsFine loose v routed [] r = ([], refl, tt)
  matching_hosts-IsFine loose v routed ((_, tcp g) ∷ owners) r =
      matching_hosts-IsFine loose v routed owners r.1
  matching_hosts-IsFine loose v routed ((_, http h) ∷ owners) r =
      let (matched, ran) = matches_httpgroup_total loose h.ir v.group r.0.0.named in
      rw ran (
        >>=-Returns (All IsFine) (All IsFine) (matching_hosts loose v owners) _
          (matching_hosts-IsFine loose v routed owners r.1) (λ hs fine. by_match matched hs fine))
    where
      by_match :
          (matched : Bool) (hs : List Host)
          → All IsFine hs
          → Returns (All IsFine) (ok (if matched then h ∷ hs else hs))
      by_match true hs fine = returns (All IsFine) (h ∷ hs) (r.0.0, fine)
      by_match false hs fine = returns (All IsFine) hs fine

-- An action that has a handler, or for which no variant is asked.
abbrev Asked : Text → Type 0
Asked action = is_known action ≡ true

secure-Asked : (model : String) (o : Option Text) → All (λ k. Asked k.1) (secure_candidates model o)
unfolding lower text_eqb
secure-Asked model none = tt
secure-Asked model (some _) = elim (Bool-cases (model == "INSECURE")) [
  | inl insecure ↦ rw insecure tt
  | inr other ↦ rw other (refl, tt)
]

insecure-Asked :
    (model : String) (o : Option Text)
    → ((action : Text) → o ≡ some action → Asked action)
    → All (λ k. Asked k.1) (insecure_candidates model o)
insecure-Asked model none known = tt
insecure-Asked model (some action) known = elim (Bool-cases (model == "SECURE")) [
  | inl secure ↦ rw secure tt
  | inr other ↦ rw other (known action refl, tt)
]

candidates-Asked :
    (model : String) (h : Host) → IsFine h → All (λ k. Asked k.1) (candidates model h)
candidates-Asked model h fine =
    All-append (λ k. Asked k.1) (secure_candidates model h.secure_action)
      (insecure_candidates model h.insecure_action) (secure-Asked model h.secure_action)
      (insecure-Asked model h.insecure_action fine.known)

module _ {ℓ} {V : Type ℓ} (filters : List String) where
  action_handler-Done :
      (action : Text) (v : Route V)
      → (action == codes "route" || action == codes "redirect") ≡ true
      → Done (action_handler filters action v)
  unfolding action_handler
  action_handler-Done action v known =
      if-Returns _ (action == codes "route") _ _ (λ _. (_, refl, tt))
        (λ other.
          if-Returns _ (action == codes "redirect") _ _ (λ _. (_, refl, tt))
            (λ unknown. absurd (ground (arith, known, other, unknown))))

  get_variant-Done :
      (matcher : Matcher) (action : Text) (rv : RouteVariants V)
      → (lower action == codes "route" || lower action == codes "redirect") ≡ true
      → Done (get_variant filters matcher action rv)
  unfolding get_variant make_variant
  get_variant-Done matcher action rv known =
      elim (Option-cases (lookup (matcher, lower action) rv.variants)) [
        | inr (v, found) ↦ rw (get_variant, found) (_, refl, tt)
        | inl missing ↦
            let (v, made, _) =
              action_handler-Done (lower action) (matcher_handler matcher rv.route) known in
            rw (get_variant, missing, made) (_, refl, tt)
      ]

  action_for-Asked : (v : Route V) (action : Text) → Asked action → Asked (action_for v action)
  unfolding lower text_eqb
  action_for-Asked v action known = elim (Bool-cases (is_acme v)) [
    | inl acme ↦ rw acme refl
    | inr plain ↦ rw plain known
  ]

  abbrev IsReady : Routing V → Type 0
  IsReady s = ChainReady s.0

  add_candidate-IsReady :
      (hostname : Text) (k : Matcher × Text) (s : Routing V)
      → Asked k.1
      → IsReady s
      → Returns IsReady (add_candidate filters hostname k s)
  unfolding add_candidate
  add_candidate-IsReady hostname (matcher, action) (c, rv) known r =
      if-Returns IsReady (action_for rv.route action == codes "Reject") _ _
        (λ _. returns IsReady (c, rv) r)
        (λ other.
          >>=-Returns _ IsReady _ _
            (get_variant-Done matcher (action_for rv.route action) rv
              (ground (arith, action_for-Asked rv.route action known, other)))
            (λ got _.
              returns IsReady (add_route hostname (constrain hostname got.0) c, got.1)
                (add_route-ChainReady hostname (constrain hostname got.0) c r)))

  add_candidates-IsReady :
      (hostname : Text) (ks : List (Matcher × Text)) (s : Routing V)
      → All (λ k. Asked k.1) ks
      → IsReady s
      → Returns IsReady (add_candidates filters hostname ks s)
  unfolding add_candidates
  add_candidates-IsReady hostname [] s known r = returns IsReady s r
  add_candidates-IsReady hostname (k ∷ ks) s known r =
      >>=-Returns IsReady IsReady _ _ (add_candidate-IsReady hostname k s known.0 r)
        (λ s' r'. add_candidates-IsReady hostname ks s' known.1 r')

  add_hosts-IsReady :
      (model : String) (hs : List Host) (s : Routing V)
      → All IsFine hs
      → IsReady s
      → Returns IsReady (add_hosts filters model hs s)
  unfolding add_hosts
  add_hosts-IsReady model [] s fine r = returns IsReady s r
  add_hosts-IsReady model (h ∷ hs) s fine r =
      >>=-Returns IsReady IsReady _ _
        (add_candidates-IsReady h.ir.hostname (candidates model h) s
          (candidates-Asked model h fine.0) r)
        (λ s' r'. add_hosts-IsReady model hs s' fine.1 r')

  consider_route-IsReady :
      (loose : Bool) (model : String) (s : Routing V)
      → IsReady s
      → Returns IsReady (consider_route filters loose model s)
  unfolding consider_route
  consider_route-IsReady loose model (c, rv) r =
      >>=-Returns (All IsFine) IsReady _ _
        (matching_hosts-IsFine loose rv.route (keys c.routes) c.hosts r)
        (λ hs fine. add_hosts-IsReady model hs (c, rv) fine r)

  consider_routes-IsReady :
      (loose : Bool) (model : String) (c : Chain V) (rvs : List (RouteVariants V))
      → ChainReady c
      → Returns (λ s. ChainReady s.0) (consider_routes filters loose model c rvs)
  unfolding consider_routes
  consider_routes-IsReady loose model c [] r = (_, refl, r)
  consider_routes-IsReady loose model c (rv ∷ rvs) r =
      >>=-Returns IsReady _ _ _ (consider_route-IsReady loose model (c, rv) r) (λ s r'.
        >>=-Returns (λ t. ChainReady t.0) _ _ _ (consider_routes-IsReady loose model s.0 rvs r')
          (λ t r''. (_, refl, r'')))

  abbrev pub AllReady : Dict Text (Chain V) → Type 0
  AllReady chains = Holds (λ _ c. ChainReady c) chains

  pub compute_http_routes-AllReady :
      (loose : Bool) (model : String) (chains : Dict Text (Chain V)) (rvs : List (RouteVariants V))
      → AllReady chains
      → Returns (λ s. AllReady s.0) (compute_http_routes filters loose model chains rvs)
  unfolding compute_http_routes
  compute_http_routes-AllReady loose model [] rvs r = (_, refl, tt)
  compute_http_routes-AllReady loose model ((key, c) ∷ chains) rvs r =
      >>=-Returns (λ s. ChainReady s.0) (λ s. AllReady s.0)
        (if has_http c then consider_routes filters loose model c rvs else ok (c, rvs)) _
        (if-Returns (λ s. ChainReady s.0) (has_http c) _ _
          (λ _. consider_routes-IsReady loose model c rvs r.0) (λ _. (_, refl, r.0)))
        (λ s r'.
          >>=-Returns (λ t. AllReady t.0) (λ t. AllReady t.0) _ _
            (compute_http_routes-AllReady loose model chains s.1 r.1)
            (λ t r''. (_, refl, (r', r''))))
