-- ===== src/Incremental/Linked.antt =====
-- What the cache links once a Mapping and the cluster of a Mapping of its group are there.
use emissary.Prelude.{
  String, Bool, true, not, List, [], ◌∷◌, none, some, lookup, lookup-insert, has_key, contains,
  contains-append, string_eq, ◌≡◌, ◌≢◌, refl, inl, inr, ap, ◌∙◌, arith, eq_iff, Bool-cases,
  then_taken, else_taken,
}
use mathlib.Core.Path.{subst}
use emissary.Results.{ok, >>=-eq-ok}
use emissary.Cache.{
  Cache, Cacheable, cache_key, read_key, store, add, link, link_keys, linked, set_add, or_empty,
}
use emissary.Cache.Owned.{Owned, here, step}
use emissary.Incremental.Groups.{
  MappingObject, Reference, Ir, cached_as, mapping_resource, group_resource, GroupObject,
  cache_mapping, check_status, choose_group, add_mapping,
}

pub ok-eq {ℓ} : {A : Type ℓ} {x y : A} → ok x ≡ ok y → x ≡ y
ok-eq e = cc

set_add-contains :
    (k j : String) (xs : List String) → contains xs j ≡ true → contains (set_add k xs) j ≡ true
unfolding set_add
set_add-contains k j xs m = ground (arith, contains-append xs (k ∷ []) j, m)

set_add_self : (k : String) (xs : List String) → contains (set_add k xs) k ≡ true
unfolding set_add
set_add_self k xs = ground (arith, contains-append xs (k ∷ []) k, eq_iff k k)

module _ {W : Type 0} where
  -- `c'` has all the keys and links of `c`.
  pub record Grows (c c' : Cache Reference W) : Type 0 where
    pub cached : (j : String) → has_key j c.cache ≡ true → has_key j c'.cache ≡ true
    pub links : (k j : String) → contains (linked c k) j ≡ true → contains (linked c' k) j ≡ true

  pub Owned-Grows :
      {c c' : Cache Reference W} (key : String)
      → Grows c c'
      → {j : String} → Owned c key j
      → Owned c' key j
  Owned-Grows key g (here e h) = here e (g.cached _ h)
  Owned-Grows key g (step o m h) = step (Owned-Grows key g o) (g.links _ _ m) (g.cached _ h)

  pub Grows-trans : {c d e : Cache Reference W} → Grows c d → Grows d e → Grows c e
  Grows-trans g h = record {
    cached = λ j m. h.cached j (g.cached j m);
    links = λ k j m. h.links k j (g.links k j m);
  }

  store-Grows :
      (key : String) (r : Cacheable Reference) (c : Cache Reference W)
      → key ≢ ""
      → Grows c (store key r none c) × (has_key key (store key r none c).cache ≡ true)
  unfolding store
  store-Grows key r c named = (
    record {
      cached = λ j m. ground (
        arith,
        m,
        eq_iff key "",
        lookup-insert key j (record { rsrc = r; on_delete = none }) c.cache,
      );
      links = λ k j m. ground (arith, m);
    },
    ground (
      arith,
      named,
      eq_iff key "",
      eq_iff key key,
      lookup-insert key key (record { rsrc = r; on_delete = none }) c.cache,
    ),
  )

  -- `add` under a key that is not empty
  pub add-Grows :
      (key : String) (ref : Reference) (c c' : Cache Reference W)
      → key ≢ ""
      → add (cached_as key ref) none c ≡ ok c'
      → Grows c c' × (has_key key c'.cache ≡ true)
  unfolding add cache_key read_key
  add-Grows key ref c c' named ran =
      let same : store key (cached_as key ref) none c ≡ c' = ok-eq ran in
      subst (λ (d : Cache Reference W). Grows c d × (has_key key d.cache ≡ true)) same
        (store-Grows key (cached_as key ref) c named)

  link_keys-Grows :
      (a b : String) (c : Cache Reference W)
      → a ≢ ""
      → b ≢ ""
      → has_key a c.cache ≡ true
      → has_key b c.cache ≡ true
      → Grows c (link_keys a b c) × (contains (linked (link_keys a b c) a) b ≡ true)
  unfolding link_keys
  link_keys-Grows a b c named_a named_b in_a in_b = (
    record {
      cached = λ j m. ground (arith, m);
      links = λ k j m. ground (
        arith,
        m,
        eq_iff a k,
        eq_iff a "",
        eq_iff b "",
        in_a,
        in_b,
        lookup-insert a k (set_add b (or_empty (lookup a c.links))) c.links,
        set_add-contains b j (or_empty (lookup a c.links)),
      );
    },
    ground (
      arith,
      named_a,
      named_b,
      in_a,
      in_b,
      eq_iff a "",
      eq_iff b "",
      eq_iff a a,
      lookup-insert a a (set_add b (or_empty (lookup a c.links))) c.links,
      set_add_self b (or_empty (lookup a c.links)),
    ),
  )

  pub link-Grows :
      (a b : String) (r s : Reference) (c c' : Cache Reference W)
      → a ≢ ""
      → b ≢ ""
      → has_key a c.cache ≡ true
      → has_key b c.cache ≡ true
      → link (cached_as a r) (cached_as b s) c ≡ ok c'
      → Grows c c' × (contains (linked c' a) b ≡ true)
  unfolding link cache_key read_key
  link-Grows a b r s c c' named_a named_b in_a in_b ran =
      let same : link_keys a b c ≡ c' = ok-eq ran in
      subst (λ (d : Cache Reference W). Grows c d × (contains (linked d a) b ≡ true)) same
        (link_keys-Grows a b c named_a named_b in_a in_b)

  -- The Mapping is linked to its group.
  cache_mapping-Owned :
      (m : MappingObject) (key : String) (ir ir' : Ir W)
      → m.cache_key ≢ ""
      → key ≢ ""
      → cache_mapping m key ir ≡ ok ir'
      → Owned ir'.cache m.cache_key m.cache_key × Owned ir'.cache m.cache_key key
  unfolding cache_mapping
  cache_mapping-Owned m key ir ir' named named_group ran =
      let (c₁, one, more) = >>=-eq-ok (add (mapping_resource m) none ir.cache) _ ran in
      let (c₂, two, more') = >>=-eq-ok (add (group_resource key) none c₁) _ more in
      let (c₃, three, done) =
        >>=-eq-ok (link (mapping_resource m) (group_resource key) c₂) _ more' in
      let (_, here₁) = add-Grows m.cache_key _ ir.cache c₁ named one in
      let (g₂, here₂) = add-Grows key _ c₁ c₂ named_group two in
      let there = g₂.cached m.cache_key here₁ in
      let (g₃, linked₃) =
        link-Grows m.cache_key key _ _ c₂ c₃ named named_group there here₂ three in
      let e : c₃ ≡ ir'.cache = ap (λ (x : Ir W). x.cache) (ok-eq done) in
      let self : Owned c₃ m.cache_key m.cache_key = here refl (g₃.cached m.cache_key there) in
      subst (λ (c : Cache Reference W). Owned c m.cache_key m.cache_key × Owned c m.cache_key key) e
        (self, step self linked₃ (g₃.cached key here₂))

  pub add_mapping-Owned :
      (takes : GroupObject → MappingObject → Bool) (m : MappingObject) (ir ir' : Ir W)
      (key : String)
      → m.cache_key ≢ ""
      → key ≢ ""
      → add_mapping takes m ir ≡ ok (ir', some key)
      → Owned ir'.cache m.cache_key m.cache_key × Owned ir'.cache m.cache_key key
  unfolding add_mapping
  add_mapping-Owned takes m ir ir' key named named_group ran = elim (Bool-cases m.active) [
    | inr inactive ↦
        let wrong : (check_status m ir, none) ≡ (ir', some key) =
          ok-eq (then_taken _ (ap not inactive) ran) in
        absurd cc
    | inl active ↦
        let ((k, ir₁), placed, more) =
          >>=-eq-ok (choose_group takes m (check_status m ir)) _
            (else_taken _ (ap not active) ran) in
        let (ir₂, cached, done) = >>=-eq-ok (cache_mapping m k ir₁) _ more in
        let pair : (ir₂, some k) ≡ (ir', some key) = ok-eq done in
        let same : k ≡ key = cc in
        let same' : ir₂ ≡ ir' = cc in
        cache_mapping-Owned m key ir₁ ir' named named_group
          (subst (λ j. cache_mapping m j ir₁ ≡ ok ir') same (cached ∙ ap ok same'))
  ]
