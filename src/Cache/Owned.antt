-- ===== src/Cache/Owned.antt =====
-- What an invalidation of a key has to remove: the cached keys that links lead to from it.
use emissary.Prelude.{String, ◌≡◌, true, has_key, contains, string_eq}
use emissary.Cache.{Cache, linked}

module _ {ℓ} {R W : Type ℓ} where
  -- `Owned c key j`: `j` is in the cache, and a chain of cached owners leads to it from `key`.
  pub data Owned (c : Cache R W) (key : String) : String → Type 0 where
    here : {j : String} → j ≡ key → has_key j c.cache ≡ true → Owned c key j
    step :
        {k j : String}
        → Owned c key k
        → contains (linked c k) j ≡ true
        → has_key j c.cache ≡ true
        → Owned c key j

  pub Owned-IsCached : {c : Cache R W} {key j : String} → Owned c key j → has_key j c.cache ≡ true
  Owned-IsCached (here _ h) = h
  Owned-IsCached (step _ _ h) = h
