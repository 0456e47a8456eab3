-- ===== src/Cache/Tests.antt =====
-- A small cache run by evaluation, and the theorems at it. The world counts the handlers' calls.
use emissary.Prelude.{
  ℕ, ◌+◌, String, ◌≡◌, refl, true, ◌∷◌, [], Option, none, some, lookup, insert, erase, has_key,
  arith, string_eq, ◌==◌, Bool-cases, eq_iff, Dict, ◌↔◌, length, inl, inr,
}
use emissary.Results.{Result, ok, ◌>>=◌}
use emissary.Cache.{
  Cache, CacheEntry, Cacheable, DeletionHandler, cacheable, ir_resource, cache_key, add, link,
  invalidate,
}
use emissary.Cache.Order.{sorted}
use emissary.Cache.Owned.{Owned, here, step}
use emissary.Cache.Gather.{Unique}
use emissary.Cache.Smite.{call_handlers}
use emissary.Cache.Invalidate.{
  invalidate_total, invalidate-gone, invalidate-kept, invalidate-handlers,
}
use emissary.Cache.Invariant.{IsValid, invalidate-IsValid}

abbrev mapping : Cacheable ℕ
mapping = record { getter = ir_resource; own_key = some "mapping"; content = 1 }

abbrev group : Cacheable ℕ
group = record { getter = ir_resource; own_key = some "group"; content = 2 }

abbrev route : Cacheable ℕ
route = record { getter = cacheable; own_key = some "route"; content = 3 }

abbrev tick : Option (DeletionHandler ℕ ℕ)
tick = some (λ r n. n + r.content)

abbrev empty : Cache ℕ ℕ
empty = record {
  cache = [];
  links = [];
  hits = 0;
  misses = 0;
  invalidate_calls = 0;
  invalidated_objects = 0;
}

-- The mapping owns its group, the group its route, and the route, in a circle, the group.
abbrev built : Result (Cache ℕ ℕ)
built = do
  c ← add mapping tick empty
  c ← add group tick c
  c ← add route none c
  c ← link mapping group c
  c ← link group route c
  link route group c

abbrev entry : Cacheable ℕ → Option (DeletionHandler ℕ ℕ) → CacheEntry ℕ ℕ
entry r h = record { rsrc = r; on_delete = h }

abbrev full_of : Option (DeletionHandler ℕ ℕ) → Cache ℕ ℕ
full_of h = record empty {
  cache =
      ("mapping", entry mapping h) ∷ ("group", entry group h) ∷ ("route", entry route none) ∷ [];
  links = ("mapping", "group" ∷ []) ∷ ("group", "route" ∷ []) ∷ ("route", "group" ∷ []) ∷ [];
}

abbrev full : Cache ℕ ℕ
full = full_of tick

built-full : built ≡ ok full
unfolding add link lookup insert sorted
built-full = refl

abbrev left : Cache ℕ ℕ
left = record empty {
  cache = ("mapping", entry mapping tick) ∷ [];
  links = ("mapping", "group" ∷ []) ∷ [];
  invalidate_calls = 1;
  invalidated_objects = 2;
}

-- Invalidating the group keeps the mapping, whose link now dangles.
full-left : invalidate "group" full 0 ≡ ok (left, 2)
unfolding invalidate lookup erase sorted
full-left = refl

Owned-route : Owned full "group" "route"
unfolding lookup
Owned-route = step (here refl refl) refl refl

free_mapping : ¬ (Owned full "group" "mapping")
unfolding lookup
free_mapping (here e h) = ground (arith, eq_iff "mapping" "group")
free_mapping (step {k} o m h) =
    ground (arith, eq_iff k "mapping", eq_iff k "group", eq_iff k "route")

abbrev AllKeyed : Dict String (CacheEntry ℕ ℕ) → Type 0
AllKeyed [] = Unit
AllKeyed ((k, e) ∷ d) = (cache_key e.rsrc ≡ ok k) × AllKeyed d

AllKeyed-lookup :
    (d : Dict String (CacheEntry ℕ ℕ)) (k : String) (e : CacheEntry ℕ ℕ)
    → AllKeyed d
    → lookup k d ≡ some e
    → cache_key e.rsrc ≡ ok k
unfolding lookup
AllKeyed-lookup [] k e a h = cc
AllKeyed-lookup ((j, f) ∷ d) k e a h = elim (Bool-cases (j == k)) [
  | inl same ↦
      let same_key : j ≡ k = (eq_iff j k).0 same in
      let same_entry : f ≡ e = ground (arith) in rw (← same_entry) (rw (← same_key) a.0)
  | inr other ↦ AllKeyed-lookup d k e a.1 (ground arith)
]

IsValid-full_of : (h : Option (DeletionHandler ℕ ℕ)) → IsValid (full_of h)
unfolding lookup cache_key
IsValid-full_of h = record {
  keyed = λ k e m. AllKeyed-lookup (full_of h).cache k e (refl, (refl, (refl, tt))) m;
  named = refl;
  owners = λ k m. ground arith;
}

invalidate_total_example : (c' : Cache ℕ ℕ) × (w' : ℕ) × (invalidate "group" full 0 ≡ ok (c', w'))
invalidate_total_example = invalidate_total "group" full 0

invalidate-gone_example : (lookup "route" left.cache ≡ none) × (lookup "route" left.links ≡ none)
invalidate-gone_example = invalidate-gone "group" "route" full left 0 2 full-left Owned-route

invalidate-kept_example :
    (lookup "mapping" left.cache ≡ lookup "mapping" full.cache)
    × (lookup "mapping" left.links ≡ lookup "mapping" full.links)
invalidate-kept_example = invalidate-kept "group" "mapping" full left 0 2 full-left free_mapping

invalidate-handlers_example :
    (doomed : Dict String (CacheEntry ℕ ℕ)) × Unique doomed
    × ((j : String) → (has_key j doomed ≡ true) ↔ Owned full "group" j)
    × ((j : String) (e : CacheEntry ℕ ℕ) → lookup j doomed ≡ some e → lookup j full.cache ≡ some e)
    × (2 ≡ call_handlers doomed 0)
    × (left.invalidated_objects ≡ full.invalidated_objects + length doomed)
    × (left.invalidate_calls ≡ full.invalidate_calls + 1)
invalidate-handlers_example = invalidate-handlers "group" full left 0 2 full-left

add_again : add group none full ≡ ok full
unfolding add lookup insert
add_again = refl

group_key : cache_key group ≡ ok "group"
unfolding cache_key
group_key = refl

invalidate-IsValid_example : IsValid left
invalidate-IsValid_example = invalidate-IsValid "group" full 0 full-left (IsValid-full_of tick)

-- Both objects cached and nothing linked yet.
abbrev pair_of : Option (DeletionHandler ℕ ℕ) → Cache ℕ ℕ
pair_of h = record empty { cache = ("mapping", entry mapping h) ∷ ("group", entry group h) ∷ [] }

IsValid-pair_of : (h : Option (DeletionHandler ℕ ℕ)) → IsValid (pair_of h)
unfolding lookup cache_key
IsValid-pair_of h = record {
  keyed = λ k e m. AllKeyed-lookup (pair_of h).cache k e (refl, (refl, tt)) m;
  named = refl;
  owners = λ k m. cc;
}

abbrev pair_linked : Cache ℕ ℕ
pair_linked = record (pair_of tick) { links = ("mapping", "group" ∷ []) ∷ [] }

pair-linked : link mapping group (pair_of tick) ≡ ok pair_linked
unfolding link lookup insert
pair-linked = refl

pair-gone :
    invalidate "mapping" pair_linked 0
    ≡ ok (record empty { invalidate_calls = 1; invalidated_objects = 2 }, 3)
unfolding invalidate lookup erase sorted
pair-gone = refl

mapping_key : cache_key mapping ≡ ok "mapping"
unfolding cache_key
mapping_key = refl

pair_cached :
    (has_key "mapping" (pair_of tick).cache ≡ true) × (has_key "group" (pair_of tick).cache ≡ true)
unfolding lookup
pair_cached = (refl, refl)
