-- ===== src/Cache.antt =====
-- The incremental cache of python/ambassador/src/ambassador/cache.py.
-- `R` is what a cached object holds beside its key, `W` the world that a deletion handler changes;
-- no handler calls the cache. The logger is not modelled.
pub mod Order
pub mod Owned
pub mod Gather
pub mod Smite
pub mod Invalidate
pub mod Invariant
pub mod Null
pub mod Laws
mod Tests
use emissary.Prelude.{
  ℕ, zero, suc, ◌+◌, String, Bool, true, false, not, List, [], ◌∷◌, ◌++◌, Option, none, some, Dict,
  lookup, insert, erase, has_key, contains, length, ◌==◌, if◌then◌else◌, string_eq,
}
use emissary.Results.{
  Result, ok, raised, runtime_error, assertion_error, key_error, out_of_fuel, ◌>>=◌,
}
use emissary.Cache.Order.{sorted}

-- The two getters of `cache_key`: that of `Cacheable`, and the one that `IRResource` overrides it by.
pub data KeyGetter : Type 0 where
  cacheable ir_resource : KeyGetter

pub record Cacheable {ℓ} (R : Type ℓ) : Type ℓ where
  pub getter : KeyGetter
  pub own_key : Option String
  pub content : R

unfoldable pub read_key : KeyGetter → Option String → Result String
read_key g none = elim g [ cacheable ↦ raised runtime_error | ir_resource ↦ raised assertion_error ]
read_key cacheable (some k) = if k == "" then raised runtime_error else ok k
read_key ir_resource (some k) = ok k

module _ {ℓ} where
  unfoldable pub cache_key : {R : Type ℓ} → Cacheable R → Result String
  unfolding read_key
  cache_key r = read_key r.getter r.own_key

  abbrev pub DeletionHandler : Type ℓ → Type ℓ → Type ℓ
  DeletionHandler R W = Cacheable R → W → W

pub record CacheEntry {ℓ} (R W : Type ℓ) : Type ℓ where
  pub rsrc : Cacheable R
  pub on_delete : Option (DeletionHandler R W)

pub record Cache {ℓ} (R W : Type ℓ) : Type ℓ where
  pub cache : Dict String (CacheEntry R W)
  pub links : Dict String (List String)
  pub hits : ℕ
  pub misses : ℕ
  pub invalidate_calls : ℕ
  pub invalidated_objects : ℕ

-- `set.update` with one item
unfoldable pub set_add : String → List String → List String
set_add k xs = if contains xs k then xs else xs ++ k ∷ []

abbrev pub or_empty : Option (List String) → List String
or_empty none = []
or_empty (some xs) = xs

-- All the links that the cache holds.
pub count_links : Dict String (List String) → ℕ
count_links [] = 0
count_links ((_, ks) ∷ m) = length ks + count_links m

module _ {ℓ} {R W : Type ℓ} where
  -- `self.links[key]`, empty where there is none
  abbrev pub linked : Cache R W → String → List String
  linked c k = or_empty (lookup k c.links)

  unfoldable pub reset_stats : Cache R W → Cache R W
  reset_stats c = record c { hits = 0; misses = 0; invalidate_calls = 0; invalidated_objects = 0 }

  unfoldable pub store : String → Cacheable R → Option (DeletionHandler R W) → Cache R W → Cache R W
  store key rsrc on_delete c =
      if key == ""
      then c
      else if has_key key c.cache
      then c
      else record c { cache = insert key (record { rsrc = rsrc; on_delete = on_delete }) c.cache }

  unfoldable pub add : Cacheable R → Option (DeletionHandler R W) → Cache R W → Result (Cache R W)
  unfolding store cache_key
  add rsrc on_delete c = do key ← cache_key rsrc; ok (store key rsrc on_delete c)

  unfoldable pub link_keys : String → String → Cache R W → Cache R W
  link_keys owner_key owned_key c =
      if owner_key == ""
      then c
      else if owned_key == ""
      then c
      else if not (has_key owner_key c.cache)
      then c
      else if not (has_key owned_key c.cache)
      then c
      else record c {
        links = insert owner_key (set_add owned_key (or_empty (lookup owner_key c.links))) c.links;
      }

  unfoldable pub link : Cacheable R → Cacheable R → Cache R W → Result (Cache R W)
  unfolding link_keys cache_key set_add
  link owner owned c = do
    owner_key ← cache_key owner
    owned_key ← cache_key owned
    ok (link_keys owner_key owned_key c)

  -- One round of the worklist loop: what `key` adds to the worklist and to `to_delete`.
  consider :
      Cache R W
      → String
      → List String
      → Dict String (CacheEntry R W)
      → List String × Dict String (CacheEntry R W)
  consider c key rest to_delete = elim (lookup key c.cache) [
    | none ↦ (rest, to_delete)
    | some entry ↦
        if has_key key to_delete
        then (rest, to_delete)
        else (rest ++ sorted (linked c key), to_delete ++ (key, entry) ∷ [])
  ]

  -- `while worklist:`, with fuel
  pub gather :
      ℕ
      → Cache R W
      → List String
      → Dict String (CacheEntry R W)
      → Result (Dict String (CacheEntry R W))
  gather fuel c [] to_delete = ok to_delete
  gather zero c (key ∷ rest) to_delete = raised out_of_fuel
  gather (suc fuel) c (key ∷ rest) to_delete =
      let (worklist, to_delete') = consider c key rest to_delete in
      gather fuel c worklist to_delete'

  pub call_handler : CacheEntry R W → W → W
  call_handler entry w = elim entry.on_delete [ none ↦ w | some h ↦ h entry.rsrc w ]

  -- `del self.cache[key]` and `del self.links[key]`, counted
  abbrev pub drop_key : String → Cache R W → Cache R W
  drop_key key c = record c {
    invalidated_objects = c.invalidated_objects + 1;
    cache = erase key c.cache;
    links = erase key c.links;
  }

  -- `for key, rdh in to_delete.items():`
  pub smite : Dict String (CacheEntry R W) → Cache R W → W → Result (Cache R W × W)
  smite [] c w = ok (c, w)
  smite ((key, entry) ∷ rest) c w =
      let next = smite rest (drop_key key c) (call_handler entry w) in
      if has_key key c.cache then next else raised key_error

  -- Each key is put on the worklist once for the call or by a link, so this many rounds suffice.
  unfoldable pub invalidate : String → Cache R W → W → Result (Cache R W × W)
  unfolding gather consider smite call_handler count_links
  invalidate key c w =
      let c' : Cache R W = record c { invalidate_calls = c.invalidate_calls + 1 } in
      do to_delete ← gather (suc (count_links c.links)) c' (key ∷ []) []; smite to_delete c' w

  -- `__getitem__`
  unfoldable pub get_item : String → Cache R W → Option (Cacheable R) × Cache R W
  get_item key c = elim (lookup key c.cache) [
    | some item ↦ (some item.rsrc, record c { hits = c.hits + 1 })
    | none ↦ (none, record c { misses = c.misses + 1 })
  ]
