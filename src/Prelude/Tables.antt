-- ===== src/Prelude/Tables.antt =====
-- Python dictionaries as association lists in insertion order: an assignment to a key that is there
-- keeps its place, a new key goes to the end, and `del` drops the key.
use mathlib.Core.Path.{subst, ◌≡◌, refl, sym, ap, ◌∙◌}
use mathlib.Core.Bool.{Bool, true, false, ◌||◌}
use mathlib.Core.List.{List, [], ◌∷◌, ◌++◌}
use mathlib.Core.Option.{Option, none, some}
use native.Mathlib.Omega.{arith}
use emissary.Prelude.Tests.{HasEq, ◌==◌, if◌then◌else◌, Bool-cases}
use emissary.Prelude.Lists.{contains, is_set}
use mathlib.Core.Logic.{inl, inr}

abbrev pub Dict {ℓ κ} : Type ℓ → Type κ → Type (ℓ ⊔ κ)
Dict K V = List (K × V)

module _ {ℓ κ} {K : Type ℓ} {V : Type κ} ⦃e : HasEq K⦄ where
  -- `m.get(k)`
  unfoldable pub lookup : K → Dict K V → Option V
  lookup k [] = none
  lookup k ((j, v) ∷ m) = if j == k then some v else lookup k m

  -- `m[k] = v`
  unfoldable pub insert : K → V → Dict K V → Dict K V
  insert k v [] = (k, v) ∷ []
  insert k v ((j, w) ∷ m) = if j == k then (j, v) ∷ m else (j, w) ∷ insert k v m

  -- `del m[k]`, which changes nothing where the key is missing.
  unfoldable pub erase : K → Dict K V → Dict K V
  erase k [] = []
  erase k ((j, w) ∷ m) = let rest = erase k m in if j == k then rest else (j, w) ∷ rest

  pub lookup-append :
      (k : K) (m n : Dict K V)
      → lookup k (m ++ n) ≡ elim (lookup k m) [ none ↦ lookup k n | some v ↦ some v ]
  unfolding lookup
  lookup-append k [] n = refl
  lookup-append k ((j, w) ∷ m) n = ground (arith, lookup-append k m n)

  -- `k in m`
  abbrev pub has_key : K → Dict K V → Bool
  has_key k m = elim (lookup k m) [ none ↦ false | some _ ↦ true ]

  pub lookup-insert :
      (k j : K) (v : V) (m : Dict K V)
      → lookup j (insert k v m) ≡ (if k == j then some v else lookup j m)
  unfolding lookup insert
  lookup-insert k j v [] = refl
  lookup-insert k j v ((first, w) ∷ m) =
      ground (arith, e.eqb_iff k j, e.eqb_iff first k, e.eqb_iff first j, lookup-insert k j v m)

  pub lookup-erase :
      (k j : K) (m : Dict K V) → lookup j (erase k m) ≡ (if k == j then none else lookup j m)
  unfolding lookup erase
  lookup-erase k j [] = ground arith
  lookup-erase k j ((first, w) ∷ m) =
      ground (arith, e.eqb_iff k j, e.eqb_iff first k, e.eqb_iff first j, lookup-erase k j m)

module _ {ℓ κ} {K : Type ℓ} {V : Type κ} where
  abbrev pub keys : Dict K V → List K
  keys [] = []
  keys ((k, _) ∷ m) = k ∷ keys m

module _ {ℓ κ} {K : Type ℓ} {V : Type κ} ⦃e : HasEq K⦄ where
  pub contains-keys-insert :
      (k j : K) (v : V) (m : Dict K V)
      → contains (keys (insert k v m)) j ≡ (j == k || contains (keys m) j)
  unfolding insert
  contains-keys-insert k j v [] = refl
  contains-keys-insert k j v ((first, w) ∷ m) =
      ground
        (arith, contains-keys-insert k j v m, e.eqb_iff first k, e.eqb_iff j k, e.eqb_iff j first)

  -- The keys of a dictionary that was built by assignments are a set.
  pub is_set-keys-insert :
      (k : K) (v : V) (m : Dict K V) → is_set (keys m) ≡ true → is_set (keys (insert k v m)) ≡ true
  unfolding insert
  is_set-keys-insert k v [] h = refl
  is_set-keys-insert k v ((first, w) ∷ m) h =
      ground (arith, is_set-keys-insert k v m, contains-keys-insert k first v m, e.eqb_iff first k)

  pub contains-keys :
      (k : K) (v : V) (m : Dict K V) → lookup k m ≡ some v → contains (keys m) k ≡ true
  unfolding lookup
  contains-keys k v [] h = absurd cc
  contains-keys k v ((first, w) ∷ m) h =
      ground (arith, contains-keys k v m, e.eqb_iff first k, e.eqb_iff k first)

  pub lookup-here :
      (k j : K) (v : V) (m : Dict K V) → (j == k) ≡ true → lookup k ((j, v) ∷ m) ≡ some v
  unfolding lookup
  lookup-here k j v m same = rw same

  pub lookup-there :
      (k j : K) (v : V) (m : Dict K V) → (j == k) ≡ false → lookup k ((j, v) ∷ m) ≡ lookup k m
  unfolding lookup
  lookup-there k j v m other = rw other

  pub lookup-some :
      (k : K) (m : Dict K V) → contains (keys m) k ≡ true → (v : V) × (lookup k m ≡ some v)
  unfolding lookup
  lookup-some k [] h = absurd cc
  lookup-some k ((first, w) ∷ m) h = elim (Bool-cases (first == k)) [
    | inl same ↦ (w, rw same)
    | inr other ↦ rw other (lookup-some k m (ground (arith, e.eqb_iff first k, e.eqb_iff k first)))
  ]

  -- An assignment to a key that is there keeps the keys.
  pub keys-insert :
      (k : K) (v w : V) (m : Dict K V) → lookup k m ≡ some w → keys (insert k v m) ≡ keys m
  unfolding lookup insert
  keys-insert k v w [] h = absurd cc
  keys-insert k v w ((first, u) ∷ m) h = elim (Bool-cases (first == k)) [
    | inl same ↦ rw same
    | inr other ↦
        rw other
          (ap (λ ks. first ∷ ks) (keys-insert k v w m (sym (lookup-there k first u m other) ∙ h)))
  ]

  -- Where no key stands twice, what is found later is found.
  pub lookup-later :
      (k x : K) (v w : V) (m : Dict K V)
      → is_set (keys ((k, v) ∷ m)) ≡ true
      → lookup x m ≡ some w
      → lookup x ((k, v) ∷ m) ≡ some w
  lookup-later k x v w m set at = elim (Bool-cases (k == x)) [
    | inl same ↦
        let there : contains (keys m) k ≡ true =
          subst (λ j. contains (keys m) j ≡ true) (sym ((e.eqb_iff k x).0 same))
            (contains-keys x w m at) in
        absurd (ground (arith, set, there))
    | inr other ↦ lookup-there x k v m other ∙ at
  ]

-- A predicate that holds at each entry.
module _ {ℓ κ μ} {K : Type ℓ} {V : Type κ} (P : K → V → Type μ) where
  abbrev pub Holds : Dict K V → Type μ
  Holds [] = Unit
  Holds ((k, v) ∷ m) = P k v × Holds m

module _ {ℓ κ μ} {K : Type ℓ} {V : Type κ} ⦃e : HasEq K⦄ (P : K → V → Type μ) where
  pub Holds-insert : (k : K) (v : V) (m : Dict K V) → P k v → Holds P m → Holds P (insert k v m)
  unfolding insert
  Holds-insert k v [] p h = (p, tt)
  Holds-insert k v ((j, w) ∷ m) p h = elim (Bool-cases (j == k)) [
    | inl same ↦ rw same (subst (λ i. P i v) (sym ((e.eqb_iff j k).0 same)) p, h.1)
    | inr other ↦ rw other (h.0, Holds-insert k v m p h.1)
  ]

  pub Holds-lookup : (k : K) (v : V) (m : Dict K V) → Holds P m → lookup k m ≡ some v → P k v
  unfolding lookup
  Holds-lookup k v [] h at = absurd cc
  Holds-lookup k v ((j, w) ∷ m) h at = elim (Bool-cases (j == k)) [
    | inl same ↦
        let here : some w ≡ some v =
          subst (λ b. (if b then some w else lookup k m) ≡ some v) same at in
        let value : w ≡ v = cc in
        subst (λ i. P i v) ((e.eqb_iff j k).0 same) (subst (P j) value h.0)
    | inr other ↦
        Holds-lookup k v m h.1 (subst (λ b. (if b then some w else lookup k m) ≡ some v) other at)
  ]

pub Holds-imp {ℓ κ μ ν} :
    {K : Type ℓ} {V : Type κ} (P : K → V → Type μ) (Q : K → V → Type ν) (m : Dict K V)
    → ((k : K) (v : V) → P k v → Q k v)
    → Holds P m
    → Holds Q m
Holds-imp P Q [] f h = tt
Holds-imp P Q ((k, v) ∷ m) f h = (f k v h.0, Holds-imp P Q m f h.1)
