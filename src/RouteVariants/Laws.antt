-- ===== src/RouteVariants/Laws.antt =====
-- The variants that are kept are those that would be made again.
use emissary.Prelude.{
  ℕ, String, List, [], ◌∷◌, some, lookup, lookup-insert, ◌==◌, if◌then◌else◌, ◌≡◌, refl, sym, ap,
  ◌∙◌, Bool-cases, Option-cases, inl, inr,
}
use mathlib.Core.Path.{subst}
use emissary.Results.{Error, Result, ok, raised, ◌>>=◌, Result-cases}
use emissary.RouteVariants.{
  Route, Matcher, VariantKey, key_eqb_iff, variant_key_eq, RouteVariants, lower, make_variant,
  keep_variant, get_variant, fresh,
}

module _ {ℓ} {V : Type ℓ} (filters : List String) where
  -- Every variant that is kept is what its key makes of the route.
  abbrev pub IsCached : RouteVariants V → Type ℓ
  IsCached rv =
      (key : VariantKey) (v : Route V)
      → lookup key rv.variants ≡ some v
      → make_variant filters key rv.route ≡ ok v

  kept-at :
      (key j : VariantKey) (rv : RouteVariants V) (v w : Route V)
      → IsCached rv
      → make_variant filters key rv.route ≡ ok v
      → (if key == j then some v else lookup j rv.variants) ≡ some w
      → make_variant filters j rv.route ≡ ok w
  kept-at key j rv v w cached made found = elim (Bool-cases (key == j)) [
    | inl same ↦
        let e : key ≡ j = (key_eqb_iff key j).0 same in
        let here : some v ≡ some w =
          subst (λ b. (if b then some v else lookup j rv.variants) ≡ some w) same found in
        subst (λ k. make_variant filters k rv.route ≡ ok w) e (made ∙ cc)
    | inr differ ↦
        cached j w (subst (λ b. (if b then some v else lookup j rv.variants) ≡ some w) differ found)
  ]

  -- An answer is that of making the variant, and keeps what is kept right.
  pub record Answers (rv : RouteVariants V) (made : Result (Route V))
      (got : Result (Route V × RouteVariants V)) : Type ℓ where
    pub failure : (e : Error) → made ≡ raised e → got ≡ raised e
    pub success :
        (v : Route V)
        → made ≡ ok v
        → (rv' : RouteVariants V) × (got ≡ ok (v, rv')) × (rv'.route ≡ rv.route) × IsCached rv'

  pub get_variant-Answers :
      (matcher : Matcher) (action : List ℕ) (rv : RouteVariants V)
      → IsCached rv
      → Answers rv
          (make_variant filters (matcher, lower action) rv.route)
          (get_variant filters matcher action rv)
  unfolding get_variant make_variant
  get_variant-Answers matcher action rv cached =
      elim (Option-cases (lookup (matcher, lower action) rv.variants)) [
        | inr (v, found) ↦
            let made = cached (matcher, lower action) v found in
            rw (get_variant, found)
              (record {
                failure = λ e failed. absurd cc;
                success = λ w done.
                    let same : v ≡ w = cc in (rv, ap (λ x. ok (x, rv)) same, refl, cached);
              })
        | inl missing ↦
            rw (get_variant, missing)
              (record {
                failure = λ e failed. ap (keep_variant (matcher, lower action) rv) failed;
                success = λ v done. (
                  record rv { variants = _ },
                  ap (keep_variant (matcher, lower action) rv) done,
                  refl,
                  λ j w found.
                      kept-at (matcher, lower action) j rv v w cached done
                        (sym (lookup-insert (matcher, lower action) j v rv.variants) ∙ found),
                );
              })
      ]

  -- Variants asked for one after the other, and the same made anew each time; an exception ends both.
  pub get_all : List (Matcher × List ℕ) → RouteVariants V → Result (List (Route V))
  get_all [] rv = ok []
  get_all ((matcher, action) ∷ asked) rv = do
    (v, rv') ← get_variant filters matcher action rv
    vs ← get_all asked rv'
    ok (v ∷ vs)

  pub make_all : List (Matcher × List ℕ) → Route V → Result (List (Route V))
  make_all [] r = ok []
  make_all ((matcher, action) ∷ asked) r = do
    v ← make_variant filters (matcher, lower action) r
    vs ← make_all asked r
    ok (v ∷ vs)

  all_cached :
      (asked : List (Matcher × List ℕ)) (rv : RouteVariants V)
      → IsCached rv
      → get_all asked rv ≡ make_all asked rv.route
  unfolding get_all make_all
  all_cached [] rv cached = refl
  all_cached ((matcher, action) ∷ asked) rv cached =
      let a = get_variant-Answers matcher action rv cached in
      elim (Result-cases (make_variant filters (matcher, lower action) rv.route)) [
        | inr (e, failed) ↦ rw (failed, a.failure e failed)
        | inl (v, made) ↦
            let (rv', got, same, kept) = a.success v made in
            rw (made, got)
              (ap (λ rest. rest >>= λ vs. ok (v ∷ vs))
                (all_cached asked rv' kept ∙ ap (make_all asked) same))
      ]

  -- Whatever variants of a route are asked for, in whatever order, the answers and the exceptions are
  -- those of making each variant from the route when it is asked for.
  pub get_all-make_all :
      (r : Route V) (asked : List (Matcher × List ℕ)) → get_all asked (fresh r) ≡ make_all asked r
  unfolding lookup
  get_all-make_all r asked = all_cached asked (fresh r) nothing
    where
      nothing : IsCached (fresh r)
      nothing key v found = absurd cc

  -- An answer that was given, taken apart.
  pub get_variant-made :
      (matcher : Matcher) (action : List ℕ) (rv rv' : RouteVariants V) (v : Route V)
      → IsCached rv
      → get_variant filters matcher action rv ≡ ok (v, rv')
      → (make_variant filters (matcher, lower action) rv.route ≡ ok v) × IsCached rv'
  get_variant-made matcher action rv rv' v cached ran =
      let a = get_variant-Answers matcher action rv cached in
      elim (Result-cases (make_variant filters (matcher, lower action) rv.route)) [
        | inr (e, failed) ↦ let wrong = a.failure e failed in absurd cc
        | inl (w, made) ↦
            let (rv'', got, same, kept) = a.success w made in
            let value : w ≡ v = cc in
            let state : rv'' ≡ rv' = cc in (made ∙ ap ok value, subst IsCached state kept)
      ]
