-- ===== src/Cache/Gather.antt =====
-- The worklist loop of `invalidate`: it ends within its fuel, and it gathers the owned keys.
use emissary.Prelude.{
  ℕ, zero, suc, ◌+◌, ◌≤◌, ◌<◌, String, ◌≡◌, refl, true, false, List, [], ◌∷◌, ◌++◌, some, Dict,
  lookup, has_key, contains, contains-append, lookup-append, length, length-append, arith, ◌==◌,
  string_eq, if◌then◌else◌, ap, eq_iff, Option-cases, Bool-cases, inl, inr, ◌||◌, ◌⊎◌,
}
use emissary.Results.{ok}
use emissary.Cache.{Cache, CacheEntry, linked, or_empty, count_links, consider, gather}
use emissary.Cache.Order.{sorted, contains-sorted, length-sorted}
use emissary.Cache.Owned.{Owned, here, step}

-- The links of the keys that are not gathered yet.
pub links_left {ℓ} : {V : Type ℓ} → Dict String V → Dict String (List String) → ℕ
links_left d [] = 0
links_left d ((k, ks) ∷ m) =
    let rest = links_left d m in if has_key k d then rest else length ks + rest

pub links_left-nil {ℓ} :
    (V : Type ℓ) (m : Dict String (List String)) → links_left {V = V} [] m ≡ count_links m
unfolding links_left count_links lookup
links_left-nil V [] = refl
links_left-nil V ((k, ks) ∷ m) = ap (λ n. length ks + n) (links_left-nil V m)

module _ {ℓ} {R W : Type ℓ} where
  links_left-consider :
      (d : Dict String (CacheEntry R W)) (k : String) (e : CacheEntry R W)
      (m : Dict String (List String))
      → has_key k d ≡ false
      → links_left (d ++ (k, e) ∷ []) m + length (or_empty (lookup k m)) ≤ links_left d m
  unfolding links_left lookup
  links_left-consider d k e [] h = omega arith
  links_left-consider d k e ((j, ks) ∷ m) h = ground (
    arith,
    links_left-consider d k e m h,
    lookup-append j d ((k, e) ∷ []),
    eq_iff j k,
    eq_iff k j,
  )

  -- How many rounds are left at most.
  abbrev pub budget : Cache R W → List String → Dict String (CacheEntry R W) → ℕ
  budget c w d = length w + links_left d c.links

  -- A round either drops its key, or gathers it with its links.
  consider-cases :
      (c : Cache R W) (key : String) (rest : List String) (d : Dict String (CacheEntry R W))
      → (((has_key key c.cache ≡ false) ⊎ (has_key key d ≡ true))
          × (consider c key rest d ≡ (rest, d)))
        ⊎ ((entry : CacheEntry R W) × (lookup key c.cache ≡ some entry)
            × (has_key key d ≡ false)
            × (consider c key rest d ≡ (rest ++ sorted (linked c key), d ++ (key, entry) ∷ [])))
  unfolding consider
  consider-cases c key rest d = elim (Option-cases (lookup key c.cache)) [
    | inl miss ↦ inl (inl (ground arith), rw (miss, consider))
    | inr (entry, hit) ↦ elim (Bool-cases (has_key key d)) [
      | inl seen ↦ inl (inr seen, rw (hit, consider) (rw seen))
      | inr new ↦ inr (entry, hit, new, rw (hit, consider) (rw new))
    ]
  ]

  budget-consider :
      (c : Cache R W) (key : String) (rest : List String) (d : Dict String (CacheEntry R W))
      → budget c (consider c key rest d).0 (consider c key rest d).1 < budget c (key ∷ rest) d
  budget-consider c key rest d = elim (consider-cases c key rest d) [
    | inl (_, e) ↦ rw e (omega arith)
    | inr (entry, hit, new, e) ↦ rw e (
        omega (
          arith,
          links_left-consider d key entry c.links new,
          length-append {0} rest (sorted (linked c key)),
          length-sorted (linked c key),
        ))
  ]

  -- The loop ends by its own test when it has a round for each key that it may see.
  pub gather_total :
      (fuel : ℕ) (c : Cache R W) (w : List String) (d : Dict String (CacheEntry R W))
      → budget c w d ≤ fuel
      → (r : Dict String (CacheEntry R W)) × (gather fuel c w d ≡ ok r)
  unfolding gather
  gather_total fuel c [] d h = (d, refl)
  gather_total zero c (key ∷ rest) d h = absurd (omega arith)
  gather_total (suc fuel) c (key ∷ rest) d h =
      gather_total fuel c (consider c key rest d).0 (consider c key rest d).1
        (omega (arith, budget-consider c key rest d))

  -- No key stands twice in the dictionary.
  abbrev pub Unique : Dict String (CacheEntry R W) → Type 0
  Unique [] = Unit
  Unique ((k, e) ∷ d) = (has_key k d ≡ false) × Unique d

  Unique-append :
      (d : Dict String (CacheEntry R W)) (k : String) (e : CacheEntry R W)
      → Unique d
      → has_key k d ≡ false
      → Unique (d ++ (k, e) ∷ [])
  unfolding lookup
  Unique-append [] k e u h = (refl, tt)
  Unique-append ((j, f) ∷ d) k e u h = (
    ground (arith, lookup-append j d ((k, e) ∷ []), eq_iff j k, eq_iff k j),
    Unique-append d k e u.1 (ground (arith, eq_iff j k)),
  )

  pub record Gathering (c : Cache R W) (start : String) (w : List String)
      (d : Dict String (CacheEntry R W)) : Type ℓ where
    pub sound : (k : String) → has_key k d ≡ true → Owned c start k
    pub pending : (k : String) → contains w k ≡ true → has_key k c.cache ≡ true → Owned c start k
    pub closed :
        (k j : String)
        → has_key k d ≡ true
        → contains (linked c k) j ≡ true
        → has_key j c.cache ≡ true
        → (contains w j || has_key j d) ≡ true
    pub started : has_key start c.cache ≡ true → (contains w start || has_key start d) ≡ true
    pub entries :
        (k : String) (e : CacheEntry R W) → lookup k d ≡ some e → lookup k c.cache ≡ some e
    pub unique : Unique d

  Gathering-skip :
      (c : Cache R W) (start key : String) (rest : List String) (d : Dict String (CacheEntry R W))
      → ((has_key key c.cache ≡ false) ⊎ (has_key key d ≡ true))
      → Gathering c start (key ∷ rest) d
      → Gathering c start rest d
  Gathering-skip c start key rest d skip g = record {
    sound = g.sound;
    pending = λ k m. g.pending k (ground arith);
    closed = λ k j a b h. ground (arith, g.closed k j a b h, eq_iff j key);
    started = λ h. ground (arith, g.started h, eq_iff start key);
    entries = g.entries;
    unique = g.unique;
  }

  Gathering-take :
      (c : Cache R W) (start key : String) (rest : List String) (d : Dict String (CacheEntry R W))
      (entry : CacheEntry R W)
      → lookup key c.cache ≡ some entry
      → has_key key d ≡ false
      → Gathering c start (key ∷ rest) d
      → Gathering c start (rest ++ sorted (linked c key)) (d ++ (key, entry) ∷ [])
  unfolding lookup
  Gathering-take c start key rest d entry hit new g = record {
    sound = λ k m. elim (in_taken k m) [ inl old ↦ g.sound k old | inr same ↦ rw same owned ];
    pending = λ k m h. elim (Bool-cases (contains rest k)) [
      | inl old ↦ g.pending k (ground arith) h
      | inr fresh ↦
          step owned
            (ground (
              arith,
              contains-append rest (sorted (linked c key)) k,
              contains-sorted (linked c key) k,
            ))
            h
    ];
    closed = λ k j a b h. elim (in_taken k a) [
      | inl old ↦ ground (arith, g.closed k j old b h, more j, moved j, eq_iff j key, eq_iff key j)
      | inr same ↦
          let b' : contains (linked c key) j ≡ true = rw (← same) b in
          ground (arith, moved j, contains-sorted (linked c key) j)
    ];
    started = λ h.
        ground (arith, g.started h, more start, moved start, eq_iff start key, eq_iff key start);
    entries =
        λ k e h. ground (arith, g.entries k e, lookup-append k d ((key, entry) ∷ []), eq_iff key k);
    unique = Unique-append d key entry g.unique new;
  }
    where
      owned : Owned c start key
      owned = g.pending key (ground (arith, eq_iff key key)) (ground arith)

      more : (k : String) → has_key k (d ++ (key, entry) ∷ []) ≡ (has_key k d || key == k)
      more k = ground (arith, lookup-append k d ((key, entry) ∷ []))

      moved :
          (k : String)
          → contains (rest ++ sorted (linked c key)) k
            ≡ (contains rest k || contains (sorted (linked c key)) k)
      moved k = contains-append rest (sorted (linked c key)) k

      in_taken :
          (k : String)
          → has_key k (d ++ (key, entry) ∷ []) ≡ true
          → (has_key k d ≡ true) ⊎ (k ≡ key)
      in_taken k h = ground (arith, more k, eq_iff key k)

  Gathering-consider :
      (c : Cache R W) (start key : String) (rest : List String) (d : Dict String (CacheEntry R W))
      → Gathering c start (key ∷ rest) d
      → Gathering c start (consider c key rest d).0 (consider c key rest d).1
  Gathering-consider c start key rest d g = elim (consider-cases c key rest d) [
    | inl (skip, e) ↦ rw e (Gathering-skip c start key rest d skip g)
    | inr (entry, hit, new, e) ↦ rw e (Gathering-take c start key rest d entry hit new g)
  ]

  pub Gathering-gather :
      (fuel : ℕ) (c : Cache R W) (start : String) (w : List String)
      (d r : Dict String (CacheEntry R W))
      → Gathering c start w d
      → gather fuel c w d ≡ ok r
      → Gathering c start [] r
  unfolding gather
  Gathering-gather fuel c start [] d r g h = let e : d ≡ r = cc in rw (← e) g
  Gathering-gather zero c start (key ∷ rest) d r g h = cc
  Gathering-gather (suc fuel) c start (key ∷ rest) d r g h =
      Gathering-gather fuel c start (consider c key rest d).0 (consider c key rest d).1 r
        (Gathering-consider c start key rest d g) h

  pub Gathering-start : (c : Cache R W) (start : String) → Gathering c start (start ∷ []) []
  unfolding lookup
  Gathering-start c start = record {
    sound = λ k h. cc;
    pending = λ k m h. here (ground (arith, eq_iff k start)) h;
    closed = λ k j a b h. cc;
    started = λ h. ground (arith, eq_iff start start);
    entries = λ k e h. cc;
    unique = tt;
  }

  -- Every owned key is among the gathered ones.
  pub Gathering-complete :
      (c : Cache R W) (start : String) (d : Dict String (CacheEntry R W))
      → Gathering c start [] d
      → {k : String} → Owned c start k
      → has_key k d ≡ true
  Gathering-complete c start d g (here e h) = rw e (g.started (rw e at h))
  Gathering-complete c start d g (step {k} {j} o m h) =
      g.closed k j (Gathering-complete c start d g o) m h
