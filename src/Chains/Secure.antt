-- ===== src/Chains/Secure.antt =====
-- What a route admits that a Host refuses to insecure requests: a variant for insecure requests redirects
-- to HTTPS, or is a challenge of ACME, which is always routed.
use emissary.Prelude.{
  String, true, false, List, [], ◌∷◌, Option, none, some, all, All, All-append, ◌==◌, if◌then◌else◌,
  string_eq, ◌≡◌, refl, ◌⊎◌, inl, inr, ap, ◌∙◌, sym, arith, Bool-cases, then_taken, else_taken,
}
use mathlib.Core.Path.{subst}
use emissary.Results.{ok}
use emissary.Resolver.{text_eq}
use emissary.HostGlob.Text.{text_eqb_iff}
use emissary.RouteVariants.{
  codes, lower, Route, RouteMatch, Redirect, https_redirect, Matcher, always, xfp_https, xfp_http,
  headers_of, write_headers, with_xfp, Header, matcher_xfp, matcher_handler, action_redirect,
  action_handler, make_variant,
}
use emissary.RouteVariants.Matchers.{Request, header_holds, is_https, admits, xfp_https-admits}
use emissary.Chains.{Text, Host}
use emissary.Chains.Routes.{
  secure_candidates, insecure_candidates, candidates, acme_prefix, is_acme, action_for,
}

-- The insecure action is there and is not to route.
abbrev pub Refuses : Host → Type 0
Refuses h =
    (action : Text) → h.insecure_action ≡ some action → (lower action == codes "route") ≡ false

-- A candidate that does not route an insecure request.
abbrev pub Safe : Matcher × Text → Type 0
Safe (matcher, action) = (matcher ≡ xfp_https) ⊎ ((lower action == codes "route") ≡ false)

secure-Safe :
    (model : String) (o : Option Text)
    → (model == "SECURE") ≡ false
    → All Safe (secure_candidates model o)
secure-Safe model none m = tt
secure-Safe model (some action) m = elim (Bool-cases (model == "INSECURE")) [
  | inl insecure ↦ rw insecure tt
  | inr xfp ↦ rw (xfp, m) (inl refl, tt)
]

insecure-Safe :
    (model : String) (o : Option Text)
    → ((action : Text) → o ≡ some action → (lower action == codes "route") ≡ false)
    → (model == "SECURE") ≡ false
    → All Safe (insecure_candidates model o)
insecure-Safe model none h m = tt
insecure-Safe model (some action) h m = rw m (inr (h action refl), tt)

pub candidates-Safe :
    (model : String) (h : Host)
    → Refuses h
    → (model == "SECURE") ≡ false
    → All Safe (candidates model h)
candidates-Safe model h refuses m =
    All-append Safe (secure_candidates model h.secure_action)
      (insecure_candidates model h.insecure_action) (secure-Safe model h.secure_action m)
      (insecure-Safe model h.insecure_action refuses m)

module _ {ℓ} {V : Type ℓ} where
  -- A request that is not over HTTPS and is admitted is redirected to HTTPS, or is for a challenge.
  abbrev pub Guarded : RouteMatch V → Option V → Option (Redirect V) → Type ℓ
  Guarded matching action redirect =
      (q : Request V)
      → is_https q ≡ false
      → all (header_holds q) (headers_of matching) ≡ true
      → ((redirect ≡ some https_redirect) × (action ≡ none)) ⊎ (matching.prefix ≡ some acme_prefix)

  prefix-write : (hs : List (Header V)) (m : RouteMatch V) → (write_headers hs m).prefix ≡ m.prefix
  prefix-write [] m = refl
  prefix-write (h ∷ hs) m = refl

  prefix-matcher :
      (m : Matcher) (r : Route V) → (matcher_handler m r).matching.prefix ≡ r.matching.prefix
  unfolding matcher_handler matcher_xfp
  prefix-matcher always r = refl
  prefix-matcher xfp_https r =
      prefix-write (with_xfp (some (codes "https")) (headers_of r.matching)) r.matching
  prefix-matcher xfp_http r = prefix-write (with_xfp none (headers_of r.matching)) r.matching

  -- An action keeps the match of a route.
  action-matching :
      (filters : List String) (action : Text) (r v : Route V)
      → action_handler filters action r ≡ ok v
      → v.matching ≡ r.matching
  unfolding action_handler action_redirect
  action-matching filters action r v done = elim (Bool-cases (action == codes "route")) [
    | inl route ↦
        let e : r ≡ v = cc (then_taken _ route done) in ap (λ (x : Route V). x.matching) (sym e)
    | inr other ↦ elim (Bool-cases (action == codes "redirect")) [
      | inl redirect ↦
          let e : action_redirect filters r ≡ v =
            cc (then_taken _ redirect (else_taken _ other done)) in
          ap (λ (x : Route V). x.matching) (sym e)
      | inr unknown ↦ absurd (cc (else_taken _ unknown (else_taken _ other done)))
    ]
  ]

  -- An action that is not to route redirects.
  action-redirects :
      (filters : List String) (action : Text) (r v : Route V)
      → (action == codes "route") ≡ false
      → action_handler filters action r ≡ ok v
      → (v.redirect ≡ some https_redirect) × (v.action ≡ none)
  unfolding action_handler action_redirect
  action-redirects filters action r v other done = elim (Bool-cases (action == codes "redirect")) [
    | inl redirect ↦
        let e : action_redirect filters r ≡ v =
          cc (then_taken _ redirect (else_taken _ other done)) in
        (ap (λ (x : Route V). x.redirect) (sym e), ap (λ (x : Route V). x.action) (sym e))
    | inr unknown ↦ absurd (cc (else_taken _ unknown (else_taken _ other done)))
  ]

  acme-prefix : (r : Route V) → is_acme r ≡ true → r.matching.prefix ≡ some acme_prefix
  acme-prefix r acme = by_prefix r.matching.prefix refl acme
    where
      by_prefix :
          (o : Option Text)
          → r.matching.prefix ≡ o
          → (elim o [ none ↦ false | some p ↦ p == acme_prefix ]) ≡ true
          → r.matching.prefix ≡ some acme_prefix
      by_prefix none at e = absurd cc
      by_prefix (some p) at e = at ∙ ap some ((text_eqb_iff p acme_prefix).0 e)

  not_https :
      (r : Route V) (q : Request V)
      → is_https q ≡ false
      → admits q (matcher_handler xfp_https r) ≡ false
  not_https r q insecure = ground (arith, xfp_https-admits q r)

  -- The variant that a safe candidate asks for is guarded.
  pub make_variant-Guarded :
      (filters : List String) (matcher : Matcher) (action : Text) (r v : Route V)
      → Safe (matcher, action)
      → make_variant filters (matcher, lower (action_for r action)) r ≡ ok v
      → Guarded v.matching v.action v.redirect
  unfolding make_variant
  make_variant-Guarded filters matcher action r v safe made q insecure admitted =
      elim (Bool-cases (is_acme r)) [
        | inl acme ↦ inr (
            ap (λ (m : RouteMatch V). m.prefix) same
            ∙ prefix-matcher matcher r
            ∙ acme-prefix r acme)
        | inr plain ↦ by_safe plain safe
      ]
    where
      same : v.matching ≡ (matcher_handler matcher r).matching
      same =
          action-matching filters (lower (action_for r action)) (matcher_handler matcher r) v made

      passed : admits q (matcher_handler matcher r) ≡ true
      passed =
          subst (λ (m : RouteMatch V). all (header_holds q) (headers_of m) ≡ true) same admitted

      by_safe :
          is_acme r ≡ false
          → Safe (matcher, action)
          → ((v.redirect ≡ some https_redirect) × (v.action ≡ none))
            ⊎ (v.matching.prefix ≡ some acme_prefix)
      by_safe plain (inl https) = absurd (
          let no = not_https r q insecure in
          let yes = subst (λ m. admits q (matcher_handler m r) ≡ true) https passed in
          let wrong : true ≡ false = sym yes ∙ no in cc)
      by_safe plain (inr other) = inl (
          action-redirects filters (lower action) (matcher_handler matcher r) v other (
            subst
              (λ b.
                make_variant filters (matcher, lower (if b then codes "Route" else action)) r
                ≡ ok v)
              plain made))
