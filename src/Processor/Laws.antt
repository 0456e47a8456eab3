-- ===== src/Processor/Laws.antt =====
-- What the deduplicating and the counting processor do over a sequence of objects.
use emissary.Prelude.{
  ℕ, ◌+◌, String, Bool, true, false, not, List, [], ◌∷◌, ◌++◌, contains, is_set, ◌≡◌, refl, sym,
  ◌∙◌, ap, arith, ◌==◌, ◌&&◌, ◌||◌, if◌then◌else◌, string_eq, eq_iff, lookup-insert, eq_self,
  Bool-cases, inl, inr,
}
use emissary.Config.{Config, get_count, incr_count}
use emissary.Processor.{
  KubernetesGvk, gvk_eq, KubernetesObjectKey, key_eq, key_eqb_iff, Settings, KubernetesObject,
  KubernetesProcessor, key_of, try_process, deduplicating, counting, admit_default,
}

-- A processor is offered one object after the other.
abbrev pub process_all :
    {R S : Type 0} → KubernetesProcessor R S → List (KubernetesObject R) → S → S
process_all proc [] s = s
process_all proc (obj ∷ objs) s = process_all proc objs (try_process proc obj s).1

module _ {R : Type 0} (settings : Settings) where
  abbrev pub handled : List KubernetesGvk → KubernetesObject R → Bool
  handled kinds obj = contains kinds obj.gvk && admit_default settings obj

  -- Of the objects that are handled, the first of each key that is not in the cache.
  pub fresh :
      List KubernetesGvk
      → List KubernetesObjectKey
      → List (KubernetesObject R)
      → List (KubernetesObject R)
  fresh kinds cache [] = []
  fresh kinds cache (obj ∷ objs) =
      elim (handled kinds obj && not (contains cache (key_of settings obj))) [
        | true ↦ obj ∷ fresh kinds (key_of settings obj ∷ cache) objs
        | false ↦ fresh kinds cache objs
      ]

  abbrev pub keys_of : List (KubernetesObject R) → List KubernetesObjectKey
  keys_of [] = []
  keys_of (obj ∷ objs) = key_of settings obj ∷ keys_of objs

  fresh-taken :
      (kinds : List KubernetesGvk) (cache : List KubernetesObjectKey) (obj : KubernetesObject R)
      (objs : List (KubernetesObject R))
      → (handled kinds obj && not (contains cache (key_of settings obj))) ≡ true
      → fresh kinds cache (obj ∷ objs) ≡ obj ∷ fresh kinds (key_of settings obj ∷ cache) objs
  unfolding fresh
  fresh-taken kinds cache obj objs taken = rw (taken, fresh)

  fresh-left :
      (kinds : List KubernetesGvk) (cache : List KubernetesObjectKey) (obj : KubernetesObject R)
      (objs : List (KubernetesObject R))
      → (handled kinds obj && not (contains cache (key_of settings obj))) ≡ false
      → fresh kinds cache (obj ∷ objs) ≡ fresh kinds cache objs
  unfolding fresh
  fresh-left kinds cache obj objs left = rw (left, fresh)

  module _ {S : Type 0} (delegate : KubernetesProcessor R S) where
    step-deduplicating :
        (cache : List KubernetesObjectKey) (s : S) (obj : KubernetesObject R)
        → (try_process (deduplicating settings delegate) obj (cache, s)).1 ≡ (
            if handled delegate.kinds obj && not (contains cache (key_of settings obj))
            then (key_of settings obj ∷ cache, (try_process delegate obj s).1)
            else (cache, s))
    unfolding try_process deduplicating
    step-deduplicating cache s obj = ground arith

    process_all-deduplicating :
        (objs : List (KubernetesObject R)) (cache : List KubernetesObjectKey) (s : S)
        → (process_all (deduplicating settings delegate) objs (cache, s)).1
          ≡ process_all delegate (fresh delegate.kinds cache objs) s
    process_all-deduplicating [] cache s = unfold fresh in refl
    process_all-deduplicating (obj ∷ objs) cache s =
        let first = handled delegate.kinds obj && not (contains cache (key_of settings obj)) in
        elim (Bool-cases first) [
          | inl taken ↦
              ap (λ st. (process_all (deduplicating settings delegate) objs st).1)
                (step-deduplicating cache s obj)
              ∙ rw (taken, fresh-taken delegate.kinds cache obj objs taken)
                  (process_all-deduplicating objs (key_of settings obj ∷ cache)
                    (try_process delegate obj s).1)
          | inr left ↦
              ap (λ st. (process_all (deduplicating settings delegate) objs st).1)
                (step-deduplicating cache s obj)
              ∙ rw (left, fresh-left delegate.kinds cache obj objs left)
                  (process_all-deduplicating objs cache s)
        ]

  fresh_new :
      (kinds : List KubernetesGvk) (objs : List (KubernetesObject R))
      (cache : List KubernetesObjectKey) (k : KubernetesObjectKey)
      → contains cache k ≡ true
      → contains (keys_of (fresh kinds cache objs)) k ≡ false
  fresh_new kinds [] cache k h = unfold fresh in refl
  fresh_new kinds (obj ∷ objs) cache k h =
      elim (Bool-cases (handled kinds obj && not (contains cache (key_of settings obj)))) [
        | inl taken ↦ rw (fresh-taken kinds cache obj objs taken) (
            ground (
              arith,
              key_eqb_iff k (key_of settings obj),
              fresh_new kinds objs (key_of settings obj ∷ cache) k,
            ))
        | inr left ↦ rw (fresh-left kinds cache obj objs left) (fresh_new kinds objs cache k h)
      ]

  fresh-is_set :
      (kinds : List KubernetesGvk) (objs : List (KubernetesObject R))
      (cache : List KubernetesObjectKey)
      → is_set (keys_of (fresh kinds cache objs)) ≡ true
  fresh-is_set kinds [] cache = unfold fresh in refl
  fresh-is_set kinds (obj ∷ objs) cache =
      elim (Bool-cases (handled kinds obj && not (contains cache (key_of settings obj)))) [
        | inl taken ↦ rw (fresh-taken kinds cache obj objs taken) (
            rw
              (fresh_new kinds objs (key_of settings obj ∷ cache) (key_of settings obj)
                (ground (arith, eq_self (key_of settings obj))))
              (fresh-is_set kinds objs (key_of settings obj ∷ cache)))
        | inr left ↦ rw (fresh-left kinds cache obj objs left) (fresh-is_set kinds objs cache)
      ]

  fresh_complete :
      (kinds : List KubernetesGvk) (objs : List (KubernetesObject R))
      (cache : List KubernetesObjectKey) (obj : KubernetesObject R)
      (rest : List (KubernetesObject R))
      → handled kinds obj ≡ true
      → (contains cache (key_of settings obj)
          || contains (keys_of (fresh kinds cache (objs ++ obj ∷ rest))) (key_of settings obj))
        ≡ true
  fresh_complete kinds [] cache obj rest h =
      elim (Bool-cases (contains cache (key_of settings obj))) [
        | inl known ↦ ground (arith, known)
        | inr new ↦
            rw (fresh-taken kinds cache obj rest (ground (arith, h, new)))
              (ground (arith, eq_self (key_of settings obj)))
      ]
  fresh_complete kinds (o ∷ objs) cache obj rest h =
      elim (Bool-cases (handled kinds o && not (contains cache (key_of settings o)))) [
        | inl taken ↦
            rw (fresh-taken kinds cache o (objs ++ obj ∷ rest) taken)
              (ground (arith, fresh_complete kinds objs (key_of settings o ∷ cache) obj rest h))
        | inr left ↦
            rw (fresh-left kinds cache o (objs ++ obj ∷ rest) left)
              (fresh_complete kinds objs cache obj rest h)
      ]

  -- Whatever objects a deduplicating processor with an empty cache is offered, the state of its
  -- delegate is as if that had been offered a list of objects with no key twice, in which every offered
  -- object of a wanted kind that is admitted has its key.
  pub deduplicating_once :
      {S : Type 0} (delegate : KubernetesProcessor R S) (objs : List (KubernetesObject R)) (s : S)
      → (part : List (KubernetesObject R)) × ((process_all
            (deduplicating settings delegate)
            objs
            ([], s)).1
          ≡ process_all delegate part s)
        × (is_set (keys_of part) ≡ true)
        × ((before : List (KubernetesObject R)) (obj : KubernetesObject R)
              (rest : List (KubernetesObject R))
            → before ++ obj ∷ rest ≡ objs
            → handled delegate.kinds obj ≡ true
            → contains (keys_of part) (key_of settings obj) ≡ true)
  deduplicating_once delegate objs s = (
    fresh delegate.kinds [] objs,
    process_all-deduplicating delegate objs [] s,
    fresh-is_set delegate.kinds objs [],
    λ before obj rest e h. rw (sym e) (fresh_complete delegate.kinds before [] obj rest h),
  )

  abbrev pub count_of : KubernetesGvk → List (KubernetesObject R) → ℕ
  count_of kind [] = 0
  count_of kind (obj ∷ objs) =
      (if obj.gvk == kind && admit_default settings obj then 1 else 0) + count_of kind objs

  get_count-try_process :
      {A : Type 0} (kind : KubernetesGvk) (key other : String) (obj : KubernetesObject R)
      (aconf : Config A)
      → get_count other (try_process (counting settings kind key) obj aconf).1
        ≡ get_count other aconf
          + (if key == other
              then (if obj.gvk == kind && admit_default settings obj then 1 else 0)
              else 0)
  unfolding try_process counting incr_count
  get_count-try_process kind key other obj aconf =
      ground
        (arith, eq_iff key other, lookup-insert key other (get_count key aconf + 1) aconf.counters)

  -- A counting processor adds to its counter the objects of its kind that it admits, and changes no
  -- other counter.
  pub get_count-counting :
      {A : Type 0} (kind : KubernetesGvk) (key other : String) (objs : List (KubernetesObject R))
      (aconf : Config A)
      → get_count other (process_all (counting settings kind key) objs aconf)
        ≡ get_count other aconf + (if key == other then count_of kind objs else 0)
  get_count-counting kind key other [] aconf = ground arith
  get_count-counting kind key other (obj ∷ objs) aconf =
      get_count-counting kind key other objs (try_process (counting settings kind key) obj aconf).1
      ∙ ground (arith, get_count-try_process kind key other obj aconf)
