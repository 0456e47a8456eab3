-- ===== src/Cache/Laws.antt =====
-- What `add` and `link` promise to the other operations.
use emissary.Prelude.{
  String, ◌≡◌, ◌≢◌, ◌⊎◌, refl, true, List, ◌∷◌, [], Option, none, some, lookup, has_key, contains,
  contains-append, arith, ◌==◌, string_eq, if◌then◌else◌, eq_iff, lookup-insert,
}
use emissary.Results.{ok, raised, runtime_error, >>=-eq-ok}
use emissary.Cache.{
  Cache, CacheEntry, Cacheable, DeletionHandler, cache_key, linked, add, link, get_item, invalidate,
  store, link_keys, set_add, or_empty, cacheable,
}
use emissary.Cache.Owned.{Owned, here, step}
use emissary.Cache.Invalidate.{invalidate-gone}
use emissary.Cache.Invariant.{IsValid}

-- The object that a key stands for after an `add`: an earlier one stays.
abbrev pub first_of_two {ℓ} : {R : Type ℓ} → Option (Cacheable R) → Cacheable R → Cacheable R
first_of_two none r = r
first_of_two (some old) r = old

contains-set_add : (k : String) (xs : List String) → contains (set_add k xs) k ≡ true
unfolding set_add
contains-set_add k xs = ground (arith, contains-append xs (k ∷ []) k, eq_iff k k)

module _ {ℓ} {R W : Type ℓ} where
  abbrev entry_of : Cacheable R → Option (DeletionHandler R W) → CacheEntry R W
  entry_of rsrc h = record { rsrc = rsrc; on_delete = h }

  add-eq-ok :
      (r : Cacheable R) (h : Option (DeletionHandler R W)) (c c' : Cache R W) (k : String)
      → add r h c ≡ ok c'
      → cache_key r ≡ ok k
      → store k r h c ≡ c'
  unfolding add
  add-eq-ok r h c c' k run own =
      let (key, own', e) = >>=-eq-ok (cache_key r) (λ key. ok (store key r h c)) run in
      let same_key : key ≡ k = cc in cc

  -- After an `add` its key stands for the first object added under it, and no other key changes.
  pub get_item-add :
      (r : Cacheable R) (h : Option (DeletionHandler R W)) (c c' : Cache R W) (k j : String)
      → add r h c ≡ ok c'
      → cache_key r ≡ ok k
      → k ≢ ""
      → (get_item j c').0
        ≡ (if k == j then some (first_of_two (get_item k c).0 r) else (get_item j c).0)
  unfolding get_item store
  get_item-add r h c c' k j run own named =
      rw (← add-eq-ok r h c c' k run own)
        (ground (arith, eq_iff k "", eq_iff k j, lookup-insert k j (entry_of r h) c.cache))

  -- An object of the plain class with no key, or an empty one, is refused: `add` raises.
  pub add-unset_key :
      (o : Option String) (content : R) (h : Option (DeletionHandler R W)) (c : Cache R W)
      → (o ≡ none) ⊎ (o ≡ some "")
      → add (record { getter = cacheable; own_key = o; content = content }) h c
        ≡ raised runtime_error
  unfolding add
  add-unset_key o content h c unset = ground (arith, eq_iff "" "")

  link-eq-ok :
      (owner owned : Cacheable R) (c c' : Cache R W) (a b : String)
      → link owner owned c ≡ ok c'
      → cache_key owner ≡ ok a
      → cache_key owned ≡ ok b
      → link_keys a b c ≡ c'
  unfolding link
  link-eq-ok owner owned c c' a b run own_a own_b = ground arith

  link_keys-linked :
      (a b : String) (c : Cache R W)
      → IsValid c
      → has_key a c.cache ≡ true
      → has_key b c.cache ≡ true
      → ((link_keys a b c).cache ≡ c.cache) × (contains (linked (link_keys a b c) a) b ≡ true)
  unfolding link_keys
  link_keys-linked a b c v in_a in_b = (
    ground arith,
    ground (
      arith,
      v.named,
      eq_iff a "",
      eq_iff b "",
      eq_iff a a,
      lookup-insert a a (set_add b (or_empty (lookup a c.links))) c.links,
      contains-set_add b (or_empty (lookup a c.links)),
    ),
  )

  -- Once `owner` is linked to `owned`, both cached, invalidating the owner removes the owned.
  pub invalidate-link :
      (owner owned : Cacheable R) (c c₁ c₂ : Cache R W) (w w₂ : W) (a b : String)
      → IsValid c
      → cache_key owner ≡ ok a
      → cache_key owned ≡ ok b
      → has_key a c.cache ≡ true
      → has_key b c.cache ≡ true
      → link owner owned c ≡ ok c₁
      → invalidate a c₁ w ≡ ok (c₂, w₂)
      → (lookup a c₂.cache ≡ none) × (lookup b c₂.cache ≡ none)
  invalidate-link owner owned c c₁ c₂ w w₂ a b v own_a own_b in_a in_b run gone =
      let same = link-eq-ok owner owned c c₁ a b run own_a own_b in
      let (cached, linked') = link_keys-linked a b c v in_a in_b in
      let o : Owned c₁ a a = here refl (rw (← same) (rw cached in_a)) in
      let o' : Owned c₁ a b = step o (rw (← same) linked') (rw (← same) (rw cached in_b)) in
      ((invalidate-gone a a c₁ c₂ w w₂ gone o).0, (invalidate-gone a b c₁ c₂ w w₂ gone o').0)
