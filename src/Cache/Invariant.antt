-- ===== src/Cache/Invariant.antt =====
-- What every operation of the cache keeps: an entry stands under its object's own key, no key is
-- empty, and only cached keys own links.
use emissary.Prelude.{
  String, ◌≡◌, true, Option, none, some, lookup, has_key, arith, string_eq, eq_iff, lookup-insert,
}
use emissary.Results.{Result, ok, >>=-eq-ok, ◌>>=◌}
use emissary.Cache.{
  Cache, CacheEntry, Cacheable, DeletionHandler, cache_key, add, link, get_item, invalidate, store,
  link_keys, set_add, or_empty,
}
use emissary.Cache.Invalidate.{Removal-of}

module _ {ℓ} {R W : Type ℓ} where
  abbrev entry_of : Cacheable R → Option (DeletionHandler R W) → CacheEntry R W
  entry_of rsrc h = record { rsrc = rsrc; on_delete = h }

  pub record IsValid (c : Cache R W) : Type ℓ where
    pub keyed :
        (k : String) (e : CacheEntry R W) → lookup k c.cache ≡ some e → cache_key e.rsrc ≡ ok k
    pub named : lookup "" c.cache ≡ none
    pub owners : (k : String) → has_key k c.links ≡ true → has_key k c.cache ≡ true

  store-IsValid :
      (key : String) (rsrc : Cacheable R) (h : Option (DeletionHandler R W)) (c : Cache R W)
      → cache_key rsrc ≡ ok key
      → IsValid c
      → IsValid (store key rsrc h c)
  unfolding store
  store-IsValid key rsrc h c own v = record {
    keyed = λ k e m.
        ground
          (arith, v.keyed k e, own, lookup-insert key k (entry_of rsrc h) c.cache, eq_iff key k);
    named = ground (arith, v.named, lookup-insert key "" (entry_of rsrc h) c.cache);
    owners = λ k m. ground (arith, v.owners k, lookup-insert key k (entry_of rsrc h) c.cache);
  }

  pub add-IsValid :
      (rsrc : Cacheable R) (h : Option (DeletionHandler R W)) (c : Cache R W) {c' : Cache R W}
      → add rsrc h c ≡ ok c'
      → IsValid c
      → IsValid c'
  unfolding add
  add-IsValid rsrc h c {c'} run v =
      let (key, own, e) = >>=-eq-ok (cache_key rsrc) (λ key. ok (store key rsrc h c)) run in
      let same : store key rsrc h c ≡ c' = cc in rw same at (store-IsValid key rsrc h c own v)

  link_keys-IsValid :
      (owner owned : String) (c : Cache R W) → IsValid c → IsValid (link_keys owner owned c)
  unfolding link_keys
  link_keys-IsValid owner owned c v = record {
    keyed = λ k e m. ground (arith, v.keyed k e);
    named = ground (arith, v.named);
    owners = λ k m. ground (
      arith,
      v.owners k,
      eq_iff owner k,
      lookup-insert owner k (set_add owned (or_empty (lookup owner c.links))) c.links,
    );
  }

  abbrev link_from : Cacheable R → Cache R W → String → Result (Cache R W)
  link_from owned c a = do b ← cache_key owned; ok (link_keys a b c)

  pub link-IsValid :
      (owner owned : Cacheable R) (c : Cache R W) {c' : Cache R W}
      → link owner owned c ≡ ok c'
      → IsValid c
      → IsValid c'
  unfolding link
  link-IsValid owner owned c {c'} run v =
      let (a, _, rest) = >>=-eq-ok (cache_key owner) (link_from owned c) run in
      let (b, _, e) = >>=-eq-ok (cache_key owned) (λ b. ok (link_keys a b c)) rest in
      let same : link_keys a b c ≡ c' = cc in rw same at (link_keys-IsValid a b c v)

  -- An invalidation that returned keeps the invariant of the cache: each entry stands under its own
  -- key, no key is empty, and only cached keys own links.
  pub invalidate-IsValid :
      (key : String) (c : Cache R W) (w : W) {c' : Cache R W} {w' : W}
      → invalidate key c w ≡ ok (c', w')
      → IsValid c
      → IsValid c'
  invalidate-IsValid key c w run v =
      let (d, r) = Removal-of key c w run in
      record {
        keyed = λ k e m. ground (arith, v.keyed k e, r.smitten.cached k);
        named = ground (arith, v.named, r.smitten.cached "");
        owners = λ k m. ground (arith, v.owners k, r.smitten.cached k, r.smitten.links k);
      }

  pub get_item-IsValid : (key : String) (c : Cache R W) → IsValid c → IsValid (get_item key c).1
  unfolding get_item
  get_item-IsValid key c v = record {
    keyed = λ k e m. ground (arith, v.keyed k e);
    named = ground (arith, v.named);
    owners = λ k m. ground (arith, v.owners k);
  }
