-- ===== src/Chains/Routes.antt =====
-- The routes of each chain, `compute_http_routes` of `V3Listener`, with `matching_hosts` and `add_route` of
-- `V3Chain`. The variants of each route are kept over all chains. `filters` has the kinds of the filters of
-- the IR.
use emissary.Prelude.{
  String, Bool, false, List, [], ◌∷◌, ◌++◌, Option, none, some, Dict, lookup, insert, any, ◌==◌,
  if◌then◌else◌, string_eq,
}
use emissary.Results.{Result, ok, ◌>>=◌}
use emissary.Resolver.{text_eq}
use emissary.Matching.{matches_httpgroup}
use emissary.RouteVariants.{
  codes, Route, Matcher, always, xfp_https, xfp_http, RouteVariants, get_variant,
}
use emissary.Chains.{Text, Host, Owner, tcp, http, Chain, is_http}

-- The matchers and actions that a Host asks for under the security model of the listener.
abbrev pub secure_candidates : String → Option Text → List (Matcher × Text)
secure_candidates model none = []
secure_candidates model (some _) =
    if model == "INSECURE"
    then []
    else (if model == "SECURE" then always else xfp_https, codes "Route") ∷ []

abbrev pub insecure_candidates : String → Option Text → List (Matcher × Text)
insecure_candidates model none = []
insecure_candidates model (some action) =
    if model == "SECURE"
    then []
    else (if model == "INSECURE" then always else xfp_http, action) ∷ []

abbrev pub candidates : String → Host → List (Matcher × Text)
candidates model h =
    secure_candidates model h.secure_action ++ insecure_candidates model h.insecure_action

abbrev pub acme_prefix : Text
acme_prefix = codes "/.well-known/acme-challenge/"

abbrev pub has_http {ℓ} : {V : Type ℓ} → Chain V → Bool
has_http c = any is_http c.hosts

module _ {ℓ} {V : Type ℓ} where
  abbrev pub is_acme : Route V → Bool
  is_acme r = elim r.matching.prefix [ none ↦ false | some p ↦ p == acme_prefix ]

  -- ACME challenges are routed whatever the action is.
  abbrev pub action_for : Route V → Text → Text
  action_for r action = if is_acme r then codes "Route" else action

  -- `add_route`
  unfoldable pub add_route : Text → Route V → Chain V → Chain V
  add_route hostname r c = record c {
    routes =
        insert hostname (elim (lookup hostname c.routes) [ none ↦ r ∷ [] | some rs ↦ rs ++ r ∷ [] ])
          c.routes;
  }

  abbrev pub constrain : Text → Route V → Route V
  constrain hostname r = record r { host_constraints = hostname ∷ [] }

  unfoldable pub matching_hosts : Bool → Route V → Dict Text Owner → Result (List Host)
  matching_hosts loose r [] = ok []
  matching_hosts loose r ((_, tcp g) ∷ owners) = matching_hosts loose r owners
  matching_hosts loose r ((_, http h) ∷ owners) = do
    matched ← matches_httpgroup loose h.ir r.group
    rest ← matching_hosts loose r owners
    ok (if matched then h ∷ rest else rest)

abbrev pub Routing {ℓ} : Type ℓ → Type ℓ
Routing V = Chain V × RouteVariants V

module _ {ℓ} {V : Type ℓ} (filters : List String) where
  unfoldable pub add_candidate : Text → Matcher × Text → Routing V → Result (Routing V)
  unfolding add_route
  add_candidate hostname (matcher, action) (c, rv) =
      if action_for rv.route action == codes "Reject" then ok (c, rv) else do
        (v, rv') ← get_variant filters matcher (action_for rv.route action) rv
        ok (add_route hostname (constrain hostname v) c, rv')

  unfoldable pub add_candidates : Text → List (Matcher × Text) → Routing V → Result (Routing V)
  add_candidates hostname [] s = ok s
  add_candidates hostname (k ∷ ks) s = do
    s' ← add_candidate hostname k s
    add_candidates hostname ks s'

  unfoldable pub add_hosts : String → List Host → Routing V → Result (Routing V)
  add_hosts model [] s = ok s
  add_hosts model (h ∷ hs) s = do
    s' ← add_candidates h.ir.hostname (candidates model h) s
    add_hosts model hs s'

  -- The body of the loop over the routes
  unfoldable pub consider_route : Bool → String → Routing V → Result (Routing V)
  unfolding add_hosts add_candidates matching_hosts
  consider_route loose model (c, rv) = do
    hosts ← matching_hosts loose rv.route c.hosts
    add_hosts model hosts (c, rv)

  unfoldable pub consider_routes :
      Bool → String → Chain V → List (RouteVariants V) → Result (Chain V × List (RouteVariants V))
  consider_routes loose model c [] = ok (c, [])
  consider_routes loose model c (rv ∷ rvs) = do
    (c', rv') ← consider_route loose model (c, rv)
    (c'', rvs') ← consider_routes loose model c' rvs
    ok (c'', rv' ∷ rvs')

  unfoldable pub compute_http_routes :
      Bool
      → String
      → Dict Text (Chain V)
      → List (RouteVariants V)
      → Result (Dict Text (Chain V) × List (RouteVariants V))
  unfolding consider_routes consider_route
  compute_http_routes loose model [] rvs = ok ([], rvs)
  compute_http_routes loose model ((key, c) ∷ chains) rvs = do
    (c', rvs') ← if has_http c then consider_routes loose model c rvs else ok (c, rvs)
    (chains', rvs'') ← compute_http_routes loose model chains rvs'
    ok ((key, c') ∷ chains', rvs'')
