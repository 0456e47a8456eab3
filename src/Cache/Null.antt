-- ===== src/Cache/Null.antt =====
-- `NullCache`, the cache that keeps nothing.
use emissary.Prelude.{◌+◌, String, Option, none}
use emissary.Cache.{Cacheable, Cache, DeletionHandler}

module _ {ℓ} {R W : Type ℓ} where
  unfoldable pub null_add : Cacheable R → Option (DeletionHandler R W) → Cache R W → Cache R W
  null_add rsrc on_delete c = c

  unfoldable pub null_link : Cacheable R → Cacheable R → Cache R W → Cache R W
  null_link owner owned c = c

  unfoldable pub null_invalidate : String → Cache R W → Cache R W
  null_invalidate key c = record c { invalidate_calls = c.invalidate_calls + 1 }

  unfoldable pub null_get_item : String → Cache R W → Option (Cacheable R) × Cache R W
  null_get_item key c = (none, record c { misses = c.misses + 1 })
