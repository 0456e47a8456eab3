-- ===== src/Processor.antt =====
-- The processors of Kubernetes objects, python/ambassador/src/ambassador/fetch/k8sprocessor.py, and
-- what they read of an object, fetch/k8sobject.py. A processor is the record of its methods, each a
-- function on the state `S` that the processors of one snapshot share; `R` is what an object
-- holds beside its kind, namespace and name.
pub mod Index
pub mod Laws
mod Tests
use emissary.Prelude.{
  String, Bool, true, false, not, List, [], ◌∷◌, ◌++◌, Option, none, some, Dict, lookup, insert,
  contains, ◌≡◌, refl, ◌↔◌, ap, arith, ◌==◌, ◌&&◌, ◌||◌, if◌then◌else◌, string_eq, HasEq, eq_iff,
  eq_self,
}
use emissary.Config.{Config, incr_count}

pub record KubernetesGvk : Type 0 where
  pub api_version : String
  pub kind : String

abbrev pub gvk_eqb : KubernetesGvk → KubernetesGvk → Bool
gvk_eqb a b = a.api_version == b.api_version && a.kind == b.kind

pub gvk_eqb_iff : (a b : KubernetesGvk) → (gvk_eqb a b ≡ true) ↔ (a ≡ b)
gvk_eqb_iff a b =
    let same_version = eq_iff a.api_version b.api_version in
    let same_kind = eq_iff a.kind b.kind in
    (
      λ h. record_eq (same_version.0 (ground arith)) (same_kind.0 (ground arith)),
      λ h. rw h (ground (arith, eq_self b.kind)),
    )
  where
    record_eq : a.api_version ≡ b.api_version → a.kind ≡ b.kind → a ≡ b
    record_eq p q = λ i. record { api_version = p i; kind = q i }

instance abbrev pub gvk_eq : HasEq KubernetesGvk
gvk_eq = record { eqb = gvk_eqb; eqb_iff = gvk_eqb_iff }

pub record KubernetesObjectKey : Type 0 where
  pub gvk : KubernetesGvk
  pub namespace : Option String
  pub name : String

abbrev pub option_eqb : Option String → Option String → Bool
option_eqb none none = true
option_eqb none (some _) = false
option_eqb (some _) none = false
option_eqb (some a) (some b) = a == b

pub option_eqb_iff : (a b : Option String) → (option_eqb a b ≡ true) ↔ (a ≡ b)
option_eqb_iff none none = (λ _. refl, λ _. refl)
option_eqb_iff none (some b) = (λ h. cc, λ h. cc)
option_eqb_iff (some a) none = (λ h. cc, λ h. cc)
option_eqb_iff (some a) (some b) =
    let same = eq_iff a b in (λ h. ap some (same.0 h), λ h. same.1 cc)

abbrev pub key_eqb : KubernetesObjectKey → KubernetesObjectKey → Bool
key_eqb a b = a.gvk == b.gvk && option_eqb a.namespace b.namespace && a.name == b.name

pub key_eqb_iff : (a b : KubernetesObjectKey) → (key_eqb a b ≡ true) ↔ (a ≡ b)
key_eqb_iff a b =
    let same_gvk = gvk_eqb_iff a.gvk b.gvk in
    let same_namespace = option_eqb_iff a.namespace b.namespace in
    let same_name = eq_iff a.name b.name in
    (
      λ h.
          record_eq (same_gvk.0 (ground arith)) (same_namespace.0 (ground arith))
            (same_name.0 (ground arith)),
      λ h. rw h (
          rw ((gvk_eqb_iff b.gvk b.gvk).1 refl, (option_eqb_iff b.namespace b.namespace).1 refl)
            (eq_self b.name)),
    )
  where
    record_eq : a.gvk ≡ b.gvk → a.namespace ≡ b.namespace → a.name ≡ b.name → a ≡ b
    record_eq p q r = λ i. record { gvk = p i; namespace = q i; name = r i }

instance abbrev pub key_eq : HasEq KubernetesObjectKey
key_eq = record { eqb = key_eqb; eqb_iff = key_eqb_iff }

-- What `Config` holds for the whole process.
pub record Settings : Type 0 where
  pub single_namespace : Bool
  pub ambassador_namespace : String

pub data KubernetesObjectScope : Type 0 where
  cluster_scope namespace_scope : KubernetesObjectScope

module _ (R : Type 0) where
  pub record KubernetesObject : Type 0 where
    pub gvk : KubernetesGvk
    pub metadata_namespace : Option String
    pub name : String
    pub content : R

module _ {R : Type 0} where
  -- `namespace`, where an `AttributeError` is `none`.
  pub namespace_of : Settings → KubernetesObject R → Option String
  namespace_of settings obj = elim obj.metadata_namespace [
    | none ↦ none
    | some val ↦ if val == "_automatic_" then some settings.ambassador_namespace else some val
  ]

  unfoldable pub key_of : Settings → KubernetesObject R → KubernetesObjectKey
  unfolding namespace_of
  key_of settings obj = record {
    gvk = obj.gvk;
    namespace = namespace_of settings obj;
    name = obj.name;
  }

  unfoldable pub scope_of : Settings → KubernetesObject R → KubernetesObjectScope
  unfolding key_of
  scope_of settings obj = elim (key_of settings obj).namespace [
    | none ↦ cluster_scope
    | some _ ↦ namespace_scope
  ]

  -- `KubernetesProcessor._admit`
  unfoldable pub admit_default : Settings → KubernetesObject R → Bool
  unfolding scope_of
  admit_default settings obj = elim (scope_of settings obj) [
    | cluster_scope ↦ true
    | namespace_scope ↦ not (
        settings.single_namespace
        && not (option_eqb (namespace_of settings obj) (some settings.ambassador_namespace)))
  ]

-- The methods that a subclass overrides.
pub record KubernetesProcessor (R S : Type 0) : Type 0 where
  pub kinds : List KubernetesGvk
  pub admit : KubernetesObject R → Bool
  pub process : KubernetesObject R → S → S
  pub finalize : S → S

abbrev pub Index : Type 0 → Type 0 → Type 0
Index R S = Dict KubernetesGvk (List (KubernetesProcessor R S))

abbrev pub keys {ℓ} : {V : Type ℓ} → Dict KubernetesGvk V → List KubernetesGvk
keys [] = []
keys ((k, _) ∷ m) = k ∷ keys m

module _ {R S : Type 0} where
  unfoldable pub try_process : KubernetesProcessor R S → KubernetesObject R → S → Bool × S
  try_process proc obj s =
      if not (contains proc.kinds obj.gvk) || not (proc.admit obj)
      then (false, s)
      else (true, proc.process obj s)

  -- `mapping.get(gvk, [])`
  abbrev pub at_kind : KubernetesGvk → Index R S → List (KubernetesProcessor R S)
  at_kind gvk mapping = elim (lookup gvk mapping) [ none ↦ [] | some procs ↦ procs ]

  -- `for kind in proc.kinds(): self.mapping[kind].append(proc)`
  pub add_kinds : KubernetesProcessor R S → List KubernetesGvk → Index R S → Index R S
  add_kinds proc [] mapping = mapping
  add_kinds proc (kind ∷ rest) mapping =
      add_kinds proc rest (insert kind (at_kind kind mapping ++ proc ∷ []) mapping)

  pub add_delegates : List (KubernetesProcessor R S) → Index R S → Index R S
  add_delegates [] mapping = mapping
  add_delegates (proc ∷ rest) mapping = add_delegates rest (add_kinds proc proc.kinds mapping)

  -- `for proc in procs: proc.try_process(obj)`
  pub process_each : List (KubernetesProcessor R S) → KubernetesObject R → S → S
  process_each [] obj s = s
  process_each (proc ∷ rest) obj s = process_each rest obj (try_process proc obj s).1

  pub finalize_each : List (KubernetesProcessor R S) → S → S
  finalize_each [] s = s
  finalize_each (proc ∷ rest) s = finalize_each rest (proc.finalize s)

  unfoldable pub aggregate : Settings → List (KubernetesProcessor R S) → KubernetesProcessor R S
  unfolding add_kinds add_delegates finalize_each
  aggregate settings delegates =
      let mapping = add_delegates delegates [] in
      record {
        kinds = keys mapping;
        admit = admit_default settings;
        process = λ obj. process_each (at_kind obj.gvk mapping) obj;
        finalize = finalize_each delegates;
      }

  -- The state of the processor is the cache beside that of the delegate.
  unfoldable pub deduplicating :
      Settings → KubernetesProcessor R S → KubernetesProcessor R (List KubernetesObjectKey × S)
  deduplicating settings delegate = record {
    kinds = delegate.kinds;
    admit = admit_default settings;
    process = λ obj (cache, s).
        if contains cache (key_of settings obj)
        then (cache, s)
        else (key_of settings obj ∷ cache, (try_process delegate obj s).1);
    finalize = λ (cache, s). (cache, delegate.finalize s);
  }

unfoldable pub counting :
    {R A : Type 0} → Settings → KubernetesGvk → String → KubernetesProcessor R (Config A)
counting settings kind key = record {
  kinds = kind ∷ [];
  admit = admit_default settings;
  process = λ obj aconf. incr_count key aconf;
  finalize = λ aconf. aconf;
}
