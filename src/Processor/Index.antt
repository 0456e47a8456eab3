-- ===== src/Processor/Index.antt =====
-- The index by kind that an aggregate keeps of its delegates.
use emissary.Prelude.{
  Bool, true, false, List, [], ◌∷◌, ◌++◌, Dict, lookup, insert, contains, any, all, is_set, ◌≡◌,
  refl, sym, ◌∙◌, ap, arith, ◌==◌, ◌&&◌, ◌||◌, if◌then◌else◌, string_eq, lookup-insert, Bool-cases,
  inl, inr,
}
use mathlib.Core.List.{append-nil, append_assoc}
use emissary.Processor.{
  KubernetesGvk, gvk_eq, gvk_eqb_iff, Settings, KubernetesObject, KubernetesProcessor, Index, keys,
  at_kind, add_kinds, add_delegates, process_each, try_process, aggregate, admit_default,
}

module _ {V : Type 0} where
  contains-keys-insert :
      (k g : KubernetesGvk) (v : V) (m : Dict KubernetesGvk V)
      → contains (keys (insert k v m)) g ≡ (g == k || contains (keys m) g)
  unfolding insert
  contains-keys-insert k g v [] = refl
  contains-keys-insert k g v ((j, w) ∷ m) =
      ground
        (arith, contains-keys-insert k g v m, gvk_eqb_iff j k, gvk_eqb_iff g k, gvk_eqb_iff g j)

module _ {R S : Type 0} where
  abbrev pub wants : KubernetesGvk → KubernetesProcessor R S → Bool
  wants g proc = contains proc.kinds g

  wanting : KubernetesGvk → List (KubernetesProcessor R S) → List (KubernetesProcessor R S)
  wanting g [] = []
  wanting g (proc ∷ rest) = if wants g proc then proc ∷ wanting g rest else wanting g rest

  at_kind-insert :
      (g k : KubernetesGvk) (procs : List (KubernetesProcessor R S)) (m : Index R S)
      → at_kind g (insert k procs m) ≡ (if k == g then procs else at_kind g m)
  at_kind-insert g k procs m = ground (arith, lookup-insert k g procs m)

  at_kind-add_kinds :
      (g : KubernetesGvk) (proc : KubernetesProcessor R S) (kinds : List KubernetesGvk)
      (m : Index R S)
      → is_set kinds ≡ true
      → at_kind g (add_kinds proc kinds m)
        ≡ (if contains kinds g then at_kind g m ++ proc ∷ [] else at_kind g m)
  unfolding add_kinds
  at_kind-add_kinds g proc [] m set = refl
  at_kind-add_kinds g proc (kind ∷ rest) m set =
      let procs = at_kind kind m ++ proc ∷ [] in
      at_kind-add_kinds g proc rest (insert kind procs m) (ground arith)
      ∙ ground (arith, at_kind-insert g kind procs m, gvk_eqb_iff g kind, gvk_eqb_iff kind g, set)

  contains-add_kinds :
      (g : KubernetesGvk) (proc : KubernetesProcessor R S) (kinds : List KubernetesGvk)
      (m : Index R S)
      → contains (keys (add_kinds proc kinds m)) g ≡ (contains (keys m) g || contains kinds g)
  unfolding add_kinds
  contains-add_kinds g proc [] m = ground arith
  contains-add_kinds g proc (kind ∷ rest) m =
      let procs = at_kind kind m ++ proc ∷ [] in
      contains-add_kinds g proc rest (insert kind procs m)
      ∙ ground (arith, contains-keys-insert kind g procs m)

  contains-add_delegates :
      (g : KubernetesGvk) (delegates : List (KubernetesProcessor R S)) (m : Index R S)
      → contains (keys (add_delegates delegates m)) g
        ≡ (contains (keys m) g || any (wants g) delegates)
  unfolding add_delegates
  contains-add_delegates g [] m = ground arith
  contains-add_delegates g (proc ∷ rest) m =
      contains-add_delegates g rest (add_kinds proc proc.kinds m)
      ∙ ground (arith, contains-add_kinds g proc proc.kinds m)

  one_more :
      (procs : List (KubernetesProcessor R S)) (proc : KubernetesProcessor R S)
      (rest : List (KubernetesProcessor R S)) (b : Bool)
      → (if b then procs ++ proc ∷ [] else procs) ++ rest
        ≡ procs ++ (if b then proc ∷ rest else rest)
  one_more procs proc rest true = append_assoc procs (proc ∷ []) rest
  one_more procs proc rest false = refl

  at_kind-add_delegates :
      (g : KubernetesGvk) (delegates : List (KubernetesProcessor R S)) (m : Index R S)
      → all (λ proc. is_set proc.kinds) delegates ≡ true
      → at_kind g (add_delegates delegates m) ≡ at_kind g m ++ wanting g delegates
  unfolding add_delegates wanting
  at_kind-add_delegates g [] m sets = sym (append-nil (at_kind g m))
  at_kind-add_delegates g (proc ∷ rest) m sets =
      let m' = add_kinds proc proc.kinds m in
      at_kind-add_delegates g rest m' (ground arith)
      ∙ ap (λ procs. procs ++ wanting g rest) (at_kind-add_kinds g proc proc.kinds m (ground arith))
      ∙ one_more (at_kind g m) proc (wanting g rest) (wants g proc)

  try_process-unwanted :
      (proc : KubernetesProcessor R S) (obj : KubernetesObject R) (s : S)
      → wants obj.gvk proc ≡ false
      → (try_process proc obj s).1 ≡ s
  unfolding try_process
  try_process-unwanted proc obj s unwanted = rw unwanted

  process_each-wanting :
      (delegates : List (KubernetesProcessor R S)) (obj : KubernetesObject R) (s : S)
      → process_each (wanting obj.gvk delegates) obj s ≡ process_each delegates obj s
  unfolding process_each wanting
  process_each-wanting [] obj s = refl
  process_each-wanting (proc ∷ rest) obj s = elim (Bool-cases (wants obj.gvk proc)) [
    | inl wanted ↦ rw wanted (process_each-wanting rest obj (try_process proc obj s).1)
    | inr unwanted ↦ rw unwanted (
        process_each-wanting rest obj s
        ∙ ap (process_each rest obj) (sym (try_process-unwanted proc obj s unwanted)))
  ]

  process_each-unwanted :
      (delegates : List (KubernetesProcessor R S)) (obj : KubernetesObject R) (s : S)
      → any (wants obj.gvk) delegates ≡ false
      → process_each delegates obj s ≡ s
  unfolding process_each
  process_each-unwanted [] obj s h = refl
  process_each-unwanted (proc ∷ rest) obj s h =
      ap (process_each rest obj) (try_process-unwanted proc obj s (ground arith))
      ∙ process_each-unwanted rest obj s (ground arith)

  -- Where the kinds of each delegate are a set, an aggregate that admits an object has the state
  -- that offering it to each delegate in order gives, whatever the index by kind; and it answers
  -- true exactly where it admits the object and some delegate wants its kind.
  pub try_process-aggregate :
      (settings : Settings) (delegates : List (KubernetesProcessor R S)) (obj : KubernetesObject R)
      (s : S)
      → all (λ proc. is_set proc.kinds) delegates ≡ true
      → try_process (aggregate settings delegates) obj s ≡ (
        any (wants obj.gvk) delegates && admit_default settings obj,
        (if admit_default settings obj then process_each delegates obj s else s),
      )
  unfolding try_process aggregate lookup
  try_process-aggregate settings delegates obj s sets =
      rw (contains-add_delegates obj.gvk delegates []) (
        rw (at_kind-add_delegates obj.gvk delegates [] sets) (
          rw (process_each-wanting delegates obj s)
            (elim (Bool-cases (any (wants obj.gvk) delegates)) [
              | inl wanted ↦ rw wanted (ground arith)
              | inr unwanted ↦
                  rw (unwanted, process_each-unwanted delegates obj s unwanted) (ground arith)
            ])))
