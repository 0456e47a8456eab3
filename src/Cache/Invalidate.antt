-- ===== src/Cache/Invalidate.antt =====
-- `Cache.invalidate`: it always returns, and removes the owned keys, all of them and nothing else.
use emissary.Prelude.{
  ℕ, suc, ◌+◌, String, ◌≡◌, refl, true, [], ◌∷◌, none, some, Dict, ◌↔◌, lookup, has_key, length,
  arith, string_eq, Option-cases, ◌∙◌, Bool-cases, inl, inr,
}
use mathlib.Core.Path.{subst₂}
use emissary.Results.{ok}
use emissary.Cache.{Cache, CacheEntry, consider, gather, invalidate, count_links}
use emissary.Cache.Owned.{Owned, here, step, Owned-IsCached}
use emissary.Cache.Gather.{
  Unique, links_left-nil, gather_total, Gathering-start, Gathering-gather, Gathering-complete,
}
use emissary.Cache.Smite.{call_handlers, Smitten, smite-Smitten}

module _ {ℓ} {R W : Type ℓ} where
  abbrev called : Cache R W → Cache R W
  called c = record c { invalidate_calls = c.invalidate_calls + 1 }

  Owned-called : {c : Cache R W} {key j : String} → Owned c key j → Owned (called c) key j
  Owned-called (here e h) = here e h
  Owned-called (step o m h) = step (Owned-called o) m h

  Owned-uncalled : {c : Cache R W} {key j : String} → Owned (called c) key j → Owned c key j
  Owned-uncalled {c} (here e h) = here e h
  Owned-uncalled {c} (step o m h) = step (Owned-uncalled {c = c} o) m h

  -- What an invalidation that returned has done: `doomed` are the entries that it removed.
  pub record Removal (key : String) (c : Cache R W) (w : W) (c' : Cache R W) (w' : W)
      (doomed : Dict String (CacheEntry R W)) : Type ℓ where
    pub owned : (j : String) → (has_key j doomed ≡ true) ↔ Owned c key j
    pub once : Unique doomed
    pub entries :
        (j : String) (entry : CacheEntry R W)
        → lookup j doomed ≡ some entry
        → lookup j c.cache ≡ some entry
    pub smitten : Smitten doomed (called c) c'
    pub handled : w' ≡ call_handlers doomed w

  -- `invalidate` returns.
  pub invalidate-Removal :
      (key : String) (c : Cache R W) (w : W)
      → (c' : Cache R W) × (w' : W) × (doomed : Dict String (CacheEntry R W)) × (invalidate key c w
          ≡ ok (c', w'))
        × Removal key c w c' w' doomed
  unfolding invalidate lookup
  invalidate-Removal key c w =
      let (d, run) =
        gather_total (suc (count_links c.links)) (called c) (key ∷ []) []
          (omega (arith, links_left-nil (CacheEntry R W) c.links)) in
      let g =
        Gathering-gather (suc (count_links c.links)) (called c) key (key ∷ []) [] d
          (Gathering-start (called c) key) run in
      let (c', run', s) =
        smite-Smitten d (called c) w g.unique (λ k m. Owned-IsCached (g.sound k m)) in
      (
        c',
        call_handlers d w,
        d,
        rw run run',
        record {
          owned = λ j. (
            λ h. Owned-uncalled (g.sound j h),
            λ o. Gathering-complete (called c) key d g (Owned-called o),
          );
          once = g.unique;
          entries = g.entries;
          smitten = s;
          handled = refl;
        },
      )

  -- The result of a call that is known to have returned is the one of `invalidate-Removal`.
  pub Removal-of :
      (key : String) (c : Cache R W) (w : W) {c' : Cache R W} {w' : W}
      → invalidate key c w ≡ ok (c', w')
      → (doomed : Dict String (CacheEntry R W)) × Removal key c w c' w' doomed
  Removal-of key c w {c'} {w'} run =
      let (c₁, w₁, d, run₁, r) = invalidate-Removal key c w in
      let ec : c₁ ≡ c' = cc in
      let ew : w₁ ≡ w' = cc in
      (d, subst₂ (λ (x : Cache R W) (y : W). Removal key c w x y d) ec ew r)

  -- For every key and every cache, invalidate returns: its worklist loop ends, circular links
  -- included, and no del misses its key.
  pub invalidate_total :
      (key : String) (c : Cache R W) (w : W)
      → (c' : Cache R W) × (w' : W) × (invalidate key c w ≡ ok (c', w'))
  invalidate_total key c w = let (c', w', d, run, r) = invalidate-Removal key c w in (c', w', run)

  -- After an invalidation that returned, every cached key that a chain of links between cached keys
  -- reaches from the invalidated key has neither an entry nor links.
  pub invalidate-gone :
      (key j : String) (c c' : Cache R W) (w w' : W)
      → invalidate key c w ≡ ok (c', w')
      → Owned c key j
      → (lookup j c'.cache ≡ none) × (lookup j c'.links ≡ none)
  invalidate-gone key j c c' w w' run o =
      let (d, r) = Removal-of key c w run in
      let m = (r.owned j).1 o in (rw (r.smitten.cached j) (rw m), rw (r.smitten.links j) (rw m))

  -- After an invalidation that returned, every key that no chain of links between cached keys
  -- reaches from the invalidated key has the entry and the links that it had.
  pub invalidate-kept :
      (key j : String) (c c' : Cache R W) (w w' : W)
      → invalidate key c w ≡ ok (c', w')
      → ¬ (Owned c key j)
      → (lookup j c'.cache ≡ lookup j c.cache) × (lookup j c'.links ≡ lookup j c.links)
  invalidate-kept key j c c' w w' run free =
      let (d, r) = Removal-of key c w run in
      elim (Bool-cases (has_key j d)) [
        | inl m ↦ absurd (free ((r.owned j).0 m))
        | inr m ↦ (rw (r.smitten.cached j) (rw m), rw (r.smitten.links j) (rw m))
      ]

  -- An invalidation that returned removed a dictionary of entries with no repeated key: its keys are
  -- exactly the cached ones that a chain of links between cached keys reaches from the invalidated
  -- key, and each of its entries is the one that the cache had under the key. The world is the
  -- result of applying the handler of each of these entries, where it has one, to the object of the
  -- entry, once each and in the order of that dictionary; invalidated_objects grows by their number
  -- and invalidate_calls by one.
  pub invalidate-handlers :
      (key : String) (c c' : Cache R W) (w w' : W)
      → invalidate key c w ≡ ok (c', w')
      → (doomed : Dict String (CacheEntry R W)) × Unique doomed
        × ((j : String) → (has_key j doomed ≡ true) ↔ Owned c key j)
        × ((j : String) (entry : CacheEntry R W)
            → lookup j doomed ≡ some entry
            → lookup j c.cache ≡ some entry)
        × (w' ≡ call_handlers doomed w)
        × (c'.invalidated_objects ≡ c.invalidated_objects + length doomed)
        × (c'.invalidate_calls ≡ c.invalidate_calls + 1)
  invalidate-handlers key c c' w w' run =
      let (d, r) = Removal-of key c w run in
      (d, r.once, r.owned, r.entries, r.handled, r.smitten.counted, r.smitten.calls)

  consider-missing :
      (key : String) (c : Cache R W) → lookup key c.cache ≡ none → consider c key [] [] ≡ ([], [])
  unfolding consider
  consider-missing key c h = rw (h, consider)

  gather-missing :
      (fuel : ℕ) (key : String) (c : Cache R W)
      → lookup key c.cache ≡ none
      → gather (suc fuel) c (key ∷ []) [] ≡ ok []
  unfolding gather
  gather-missing fuel key c h = rw (consider-missing key c h, gather)

  -- A key that is not cached: only the call is counted.
  invalidate-missing :
      (key : String) (c : Cache R W) (w : W)
      → lookup key c.cache ≡ none
      → invalidate key c w ≡ ok (called c, w)
  unfolding invalidate
  invalidate-missing key c w h = rw (gather-missing (count_links c.links) key (called c) h)

  -- Invalidating a key a second time changes nothing but the count of calls.
  pub invalidate_idem :
      (key : String) (c c' : Cache R W) (w w' : W)
      → invalidate key c w ≡ ok (c', w')
      → invalidate key c' w' ≡ ok (record c' { invalidate_calls = c'.invalidate_calls + 1 }, w')
  invalidate_idem key c c' w w' run =
      invalidate-missing key c' w' (elim (Option-cases (lookup key c.cache)) [
        | inl miss ↦
            (invalidate-kept key key c c' w w' run (λ o. ground (arith, Owned-IsCached o))).0 ∙ miss
        | inr (e, hit) ↦ (invalidate-gone key key c c' w w' run (here refl (ground arith))).0
      ])
