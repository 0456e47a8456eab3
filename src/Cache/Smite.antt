-- ===== src/Cache/Smite.antt =====
-- The deletion loop of `invalidate`: it drops exactly the gathered keys, and never misses one.
use emissary.Prelude.{
  ◌+◌, String, ◌≡◌, refl, true, [], ◌∷◌, none, some, Dict, lookup, has_key, lookup-erase, length,
  arith, string_eq, if◌then◌else◌, eq_iff,
}
use emissary.Results.{ok}
use emissary.Cache.{Cache, CacheEntry, smite, call_handler, drop_key}
use emissary.Cache.Gather.{Unique}

module _ {ℓ} {R W : Type ℓ} where
  -- The handlers that the entries have, applied to their objects, in the order of the dictionary.
  pub call_handlers : Dict String (CacheEntry R W) → W → W
  call_handlers [] w = w
  call_handlers ((_, entry) ∷ d) w =
      call_handlers d (elim entry.on_delete [ none ↦ w | some h ↦ h entry.rsrc w ])

  -- `c'` is `c` less the keys of `d`, which are counted.
  pub record Smitten (d : Dict String (CacheEntry R W)) (c c' : Cache R W) : Type ℓ where
    pub cached : (j : String) → lookup j c'.cache ≡ (if has_key j d then none else lookup j c.cache)
    pub links : (j : String) → lookup j c'.links ≡ (if has_key j d then none else lookup j c.links)
    pub counted : c'.invalidated_objects ≡ c.invalidated_objects + length d
    pub calls : c'.invalidate_calls ≡ c.invalidate_calls
    pub hits : c'.hits ≡ c.hits
    pub misses : c'.misses ≡ c.misses

  pub smite-Smitten :
      (d : Dict String (CacheEntry R W)) (c : Cache R W) (w : W)
      → Unique d
      → ((k : String) → has_key k d ≡ true → has_key k c.cache ≡ true)
      → (c' : Cache R W) × (smite d c w ≡ ok (c', call_handlers d w)) × Smitten d c c'
  unfolding smite call_handlers call_handler lookup
  smite-Smitten [] c w u h = (
    c,
    refl,
    record {
      cached = λ j. refl;
      links = λ j. refl;
      counted = omega arith;
      calls = refl;
      hits = refl;
      misses = refl;
    },
  )
  smite-Smitten ((k, e) ∷ d) c w u h =
      let (c', run, s) = smite-Smitten d (drop_key k c) (call_handler e w) u.1 later in
      (
        c',
        rw now run,
        record {
          cached = λ j. ground (arith, s.cached j, lookup-erase k j c.cache, eq_iff k j);
          links = λ j. ground (arith, s.links j, lookup-erase k j c.links, eq_iff k j);
          counted = omega (arith, s.counted);
          calls = s.calls;
          hits = s.hits;
          misses = s.misses;
        },
      )
    where
      now : has_key k c.cache ≡ true
      now = h k (ground (arith, eq_iff k k))

      later : (j : String) → has_key j d ≡ true → has_key j (drop_key k c).cache ≡ true
      later j m = ground (arith, h j, lookup-erase k j c.cache, eq_iff k j, u.0)
