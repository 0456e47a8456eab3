-- ===== src/Incremental/Invalidated.antt =====
-- What several invalidations in a row leave of the cache.
use emissary.Prelude.{
  String, true, List, [], ◌∷◌, none, lookup, has_key, contains, ◌≡◌, refl, ◌⊎◌, inl, inr, sym, ◌∙◌,
  arith, string_eq, Bool-cases, ◌==◌, eq_iff,
}
use mathlib.Core.Path.{subst}
use emissary.Results.{ok}
use emissary.Cache.{Cache, invalidate, or_empty}
use emissary.Cache.Owned.{Owned, here, step, Owned-IsCached}
use emissary.Cache.Invalidate.{Removal-of, invalidate-gone, invalidate-kept, invalidate_total}
use emissary.Incremental.{invalidate_all}

module _ {ℓ} {R W : Type ℓ} where
  -- An invalidation removes a key, which it owns, or leaves its entry and its links.
  after-cases :
      (key j : String) (c c' : Cache R W) (w w' : W)
      → invalidate key c w ≡ ok (c', w')
      → (Owned c key j × (lookup j c'.cache ≡ none) × (lookup j c'.links ≡ none))
        ⊎ ((lookup j c'.cache ≡ lookup j c.cache) × (lookup j c'.links ≡ lookup j c.links))
  after-cases key j c c' w w' run =
      let (d, r) = Removal-of key c w run in
      elim (Bool-cases (has_key j d)) [
        | inl doomed ↦
            inl
              ((r.owned j).0 doomed, r.smitten.cached j ∙ rw doomed, r.smitten.links j ∙ rw doomed)
        | inr spared ↦ inr (r.smitten.cached j ∙ rw spared, r.smitten.links j ∙ rw spared)
      ]

  still_cached :
      (j : String) (c c' : Cache R W)
      → lookup j c'.cache ≡ lookup j c.cache
      → has_key j c.cache ≡ true
      → has_key j c'.cache ≡ true
  still_cached j c c' same there = rw (has_key, same) there

  absent_key : (j : String) (c : Cache R W) → lookup j c.cache ≡ none → has_key j c.cache ≡ true → ⊥
  absent_key j c gone there = absurd (ground (arith, gone, there))

  -- What an invalidation does not remove is owned as before.
  pub Owned-after :
      (key other : String) (c c' : Cache R W) (w w' : W)
      → invalidate key c w ≡ ok (c', w')
      → {j : String} → Owned c other j
      → (lookup j c'.cache ≡ none) ⊎ Owned c' other j
  Owned-after key other c c' w w' run {j} (here e there) = elim (after-cases key j c c' w w' run) [
    | inl gone ↦ inl gone.1
    | inr kept ↦ inr (here e (still_cached j c c' kept.0 there))
  ]
  Owned-after key other c c' w w' run {j} (step {k = k} o m there) =
      elim (after-cases key j c c' w w' run) [
        | inl gone ↦ inl gone.1
        | inr kept ↦ elim (after-cases key k c c' w w' run) [
          | inl doomed ↦ inl (invalidate-gone key j c c' w w' run (step doomed.0 m there)).0
          | inr spared ↦ elim (Owned-after key other c c' w w' run o) [
            | inl gone ↦
                absurd (absent_key k c' gone (still_cached k c c' spared.0 (Owned-IsCached o)))
            | inr owned ↦ inr (
                step owned (subst (λ ks. contains (or_empty ks) j ≡ true) (sym spared.1) m)
                  (still_cached j c c' kept.0 there))
          ]
        ]
      ]

  -- A cache never gains a key or a link by an invalidation.
  pub Owned-before :
      (key other : String) (c c' : Cache R W) (w w' : W)
      → invalidate key c w ≡ ok (c', w')
      → {j : String} → Owned c' other j
      → Owned c other j
  Owned-before key other c c' w w' run {j} (here e there) = elim (after-cases key j c c' w w' run) [
    | inl gone ↦ absurd (absent_key j c' gone.1 there)
    | inr kept ↦ here e (still_cached j c' c (sym kept.0) there)
  ]
  Owned-before key other c c' w w' run {j} (step {k = k} o m there) =
      elim (after-cases key j c c' w w' run) [
        | inl gone ↦ absurd (absent_key j c' gone.1 there)
        | inr kept ↦ elim (after-cases key k c c' w w' run) [
          | inl doomed ↦ absurd (absent_key k c' doomed.1 (Owned-IsCached o))
          | inr spared ↦
              step (Owned-before key other c c' w w' run o)
                (subst (λ ks. contains (or_empty ks) j ≡ true) spared.1 m)
                (still_cached j c' c (sym kept.0) there)
        ]
      ]

  -- A key that is gone stays gone.
  gone_stays :
      (key j : String) (c c' : Cache R W) (w w' : W)
      → invalidate key c w ≡ ok (c', w')
      → lookup j c.cache ≡ none
      → lookup j c'.cache ≡ none
  gone_stays key j c c' w w' run gone = elim (after-cases key j c c' w w' run) [
    | inl doomed ↦ doomed.1
    | inr kept ↦ kept.0 ∙ gone
  ]

  -- What a run of invalidations did to a cache.
  pub record AllGone (keys : List String) (c c' : Cache R W) : Type ℓ where
    pub gone :
        (key j : String) → contains keys key ≡ true → Owned c key j → lookup j c'.cache ≡ none
    pub kept :
        (j : String)
        → ((key : String) → contains keys key ≡ true → ¬ Owned c key j)
        → (lookup j c'.cache ≡ lookup j c.cache) × (lookup j c'.links ≡ lookup j c.links)
    pub stays : (j : String) → lookup j c.cache ≡ none → lookup j c'.cache ≡ none

  -- Several invalidations in a row return; all that one of the keys owned is gone, and the rest is kept.
  pub invalidate_all-AllGone :
      (keys : List String) (c : Cache R W) (w : W)
      → (c' : Cache R W) × (w' : W) × (invalidate_all keys c w ≡ ok (c', w')) × AllGone keys c c'
  unfolding invalidate_all
  invalidate_all-AllGone [] c w = (
    c,
    w,
    refl,
    record { gone = λ key j m. absurd cc; kept = λ j free. (refl, refl); stays = λ j gone. gone },
  )
  invalidate_all-AllGone (first ∷ keys) c w =
      let (c₁, w₁, one) = invalidate_total first c w in
      let (c', w', rest, all) = invalidate_all-AllGone keys c₁ w₁ in
      (
        c',
        w',
        rw one rest,
        record {
          gone = λ key j m o. elim (Bool-cases (key == first)) [
            | inl here' ↦
                let same : key ≡ first = (eq_iff key first).0 here' in
                all.stays j
                  (invalidate-gone first j c c₁ w w₁ one (subst (λ k. Owned c k j) same o)).0
            | inr later ↦ elim (Owned-after first key c c₁ w w₁ one o) [
              | inl gone ↦ all.stays j gone
              | inr owned ↦ all.gone key j (ground (arith, m, later)) owned
            ]
          ];
          kept = λ j free.
              let now =
                invalidate-kept first j c c₁ w w₁ one
                  (free first (ground (arith, eq_iff first first))) in
              let then' = all.kept j (λ key m o.
                free key (ground (arith, m)) (Owned-before first key c c₁ w w₁ one o)) in
              (then'.0 ∙ now.0, then'.1 ∙ now.1);
          stays = λ j gone. all.stays j (gone_stays first j c c₁ w w₁ one gone);
        },
      )
