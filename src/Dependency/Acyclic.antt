-- ===== src/Dependency/Acyclic.antt =====
-- The traversal of a graph of injectors that has a topological order returns.
use emissary.Prelude.{
  ℕ, zero, suc, ◌+◌, ◌≡◌, ◌≢◌, refl, sym, ◌∙◌, ap, inl, inr, true, false, List, [], ◌∷◌, ◌++◌, Dict,
  insert, contains, contains-append, is_set, keys, keys-insert, contains-keys-insert, contains-keys,
  lookup-some, ◌≤◌, length, arith, ◌==◌, if◌then◌else◌, HasEq, Bool-cases, ℤ, pos, negsuc, pred,
  is_zero, pos_part, neg_part, eq_self,
}
use mathlib.Core.Path.{subst}
use emissary.Results.{Result, Error, ◌>>=◌, ok, raised, key_error}
use emissary.Dependency.{
  Vertex, vertex, connect, add_out, DependencyInjector, connect_provides, connect_wants, graph_of,
  in_counts_of, roots, discount, kahn, sum_counts, from_roots, traverse,
}
use emissary.Dependency.Counts.{IsCounted, vertex-insert, vertex-nil, graph_of-IsCounted}
use emissary.Dependency.Bound.{visits-le}
use emissary.Dependency.Traversal.{kahn-cases, positives, roots-positives}
use emissary.Dependency.Steps.{Frontier}
use emissary.Dependency.Sorted.{at_end, Traversed, kahn-Traversed, spent_part}
use emissary.Dependency.Ends.{keys-in_counts_of, roots-Frontier, in_counts_of-Left}
use emissary.Dependency.Order.{IsGraph, graph_of-IsGraph, nil-IsGraph, IsSorted, check_end-balanced}
use emissary.Dependency.Reached.{Forward-yielded, sum_counts_zero}

raised-injective {ℓ} : {A : Type ℓ} {e f : Error} → ◌≡◌ {A = Result A} (raised e) (raised f) → e ≡ f
raised-injective h = cc

zero_parts : (n : ℤ) → pos_part n ≡ 0 → neg_part n ≡ 0 → n ≡ pos 0
zero_parts (pos n) h k = ap pos h
zero_parts (negsuc n) h k = absurd (omega (arith, k))

module _ {ℓ} {V : Type ℓ} ⦃e : HasEq V⦄ where
  -- Every edge leads to a key.
  abbrev IsClosed : List V → Dict V (Vertex V) → Type ℓ
  IsClosed ks g = (a b : V) → contains (vertex a g).out b ≡ true → contains ks b ≡ true

  insert-IsClosed :
      (ks : List V) (a : V) (v : Vertex V) (g : Dict V (Vertex V))
      → ((b : V) → contains v.out b ≡ true → contains ks b ≡ true)
      → IsClosed ks g
      → IsClosed ks (insert a v g)
  insert-IsClosed ks a v g own h c b edge = elim (Bool-cases (a == c)) [
    | inl same ↦
        own b (subst (λ w. contains w.out b ≡ true) (vertex-insert a c v g ∙ picked same) edge)
    | inr other ↦
        h c b (subst (λ w. contains w.out b ≡ true) (vertex-insert a c v g ∙ passed other) edge)
  ]
    where
      picked : (a == c) ≡ true → (if a == c then v else vertex c g) ≡ v
      picked same = rw same refl

      passed : (a == c) ≡ false → (if a == c then v else vertex c g) ≡ vertex c g
      passed other = rw other refl

  kept_key :
      (a x : V) (v : Vertex V) (g : Dict V (Vertex V))
      → contains (keys g) x ≡ true
      → contains (keys (insert a v g)) x ≡ true
  kept_key a x v g h = contains-keys-insert a x v g ∙ ground (arith, h)

  connect-IsClosed :
      (a b : V) (g : Dict V (Vertex V))
      → IsClosed (keys g) g
      → IsClosed (keys (connect a b g)) (connect a b g)
  unfolding connect
  connect-IsClosed a b g h = elim (Bool-cases (contains (vertex a g).out b)) [
    | inl there ↦ rw there (
        insert-IsClosed (keys (insert a (vertex a g) g)) a (vertex a g) g
          (λ c edge. kept_key a c (vertex a g) g (h a c edge))
          (λ c d edge. kept_key a d (vertex a g) g (h c d edge)))
    | inr new ↦
        let g₁ = add_out a b g in
        let v = vertex a g in
        let w = vertex b g₁ in
        let w' = record w { in_count = w.in_count + 1 } in
        let grown : (x : V)
            → contains (keys g) x ≡ true
            → contains (keys (insert b w' g₁)) x ≡ true =
          λ x there. kept_key b x w' g₁ (kept_key a x _ g there) in
        let closed₁ : IsClosed (keys (insert b w' g₁)) g₁ =
          insert-IsClosed (keys (insert b w' g₁)) a (record v { out = v.out ++ b ∷ [] }) g
            (λ c edge. elim (Bool-cases (c == b)) [
              | inl same ↦ contains-keys-insert b c w' g₁ ∙ ground (arith, same)
              | inr other ↦
                  grown c (h a c (ground (arith, contains-append v.out (b ∷ []) c, edge, other)))
            ])
            (λ c d edge. grown d (h c d edge)) in
        rw new
          (insert-IsClosed (keys (insert b w' g₁)) b w' g₁ (λ c edge. closed₁ b c edge) closed₁)
  ]

  connect_provides-IsClosed :
      (obj : V) (provides : List V) (g : Dict V (Vertex V))
      → IsClosed (keys g) g
      → IsClosed (keys (connect_provides obj provides g)) (connect_provides obj provides g)
  unfolding connect_provides
  connect_provides-IsClosed obj [] g h = h
  connect_provides-IsClosed obj (cls ∷ rest) g h =
      connect_provides-IsClosed obj rest (connect obj cls g) (connect-IsClosed obj cls g h)

  connect_wants-IsClosed :
      (obj : V) (wants : List V) (g : Dict V (Vertex V))
      → IsClosed (keys g) g
      → IsClosed (keys (connect_wants obj wants g)) (connect_wants obj wants g)
  unfolding connect_wants
  connect_wants-IsClosed obj [] g h = h
  connect_wants-IsClosed obj (cls ∷ rest) g h =
      connect_wants-IsClosed obj rest (connect cls obj g) (connect-IsClosed cls obj g h)

  graph_of-IsClosed :
      (injectors : Dict V (DependencyInjector V)) (g : Dict V (Vertex V))
      → IsClosed (keys g) g
      → IsClosed (keys (graph_of injectors g)) (graph_of injectors g)
  unfolding graph_of
  graph_of-IsClosed [] g h = h
  graph_of-IsClosed ((obj, injector) ∷ rest) g h =
      graph_of-IsClosed rest
        (connect_wants obj injector.wants (connect_provides obj injector.provides g))
        (connect_wants-IsClosed obj injector.wants (connect_provides obj injector.provides g)
          (connect_provides-IsClosed obj injector.provides g h))

  discount-finds :
      (bs : List V) (counts : Dict V ℤ) (queue : List V)
      → ((b : V) → contains bs b ≡ true → contains (keys counts) b ≡ true)
      → (counts' : Dict V ℤ) × (queue' : List V) × (discount bs counts queue ≡ ok (counts', queue'))
        × (keys counts' ≡ keys counts)
  unfolding discount
  discount-finds [] counts queue h = (counts, queue, refl, refl)
  discount-finds (b ∷ rest) counts queue h =
      let (n, found) = lookup-some b counts (h b (rw (eq_self b) refl)) in
      let kept = keys-insert b (pred n) n counts found in
      let (counts', queue', ran, same) =
        discount-finds rest (insert b (pred n) counts)
          (if is_zero (pred n) then queue ++ b ∷ [] else queue)
          (λ c there. rw kept (h c (ground (arith, there)))) in
      (counts', queue', rw (found, discount) ran, same ∙ kept)

  kahn-finds :
      (fuel : ℕ) (g : Dict V (Vertex V)) (queue : List V) (counts : Dict V ℤ)
      → IsClosed (keys counts) g
      → kahn fuel g queue counts ≢ raised key_error
  unfolding kahn
  kahn-finds fuel g [] counts h failed = cc
  kahn-finds zero g (cur ∷ queue) counts h failed = cc
  kahn-finds (suc fuel) g (cur ∷ queue) counts h failed =
      let (counts', queue', ran, same) = discount-finds (vertex cur g).out counts queue (h cur) in
      after (kahn fuel g queue' counts') (kahn-finds fuel g queue' counts' (rw same h))
        (rw ran at failed)
    where
      after :
          (r : Result (List V × Dict V ℤ))
          → r ≢ raised key_error
          → ◌≡◌ {A = Result (List V × Dict V ℤ)}
              (r >>= λ answer. let (order, final) = answer in ok (cur ∷ order, final))
              (raised key_error)
          → ⊥
      after (ok answer) other h = cc
      after (raised error) other h = other (ap raised (raised-injective h))

  -- With a topological order, every vertex is yielded.
  yields_all :
      (g : Dict V (Vertex V)) (order yielded : List V) (final : Dict V ℤ)
      → is_set (keys g) ≡ true
      → IsSorted g order
      → Traversed g [] yielded (in_counts_of g) final
      → (x : V) → contains (keys g) x ≡ true
      → contains yielded x ≡ true
  unfolding IsSorted
  yields_all g order yielded final set sorted t x key =
      Forward-yielded g [] order yielded final set t (t.same_keys ∙ keys-in_counts_of g) sorted.0
        (λ y none_seen key_y. cc) x (sorted.2 x key) key

  balanced :
      (g : Dict V (Vertex V)) (order yielded : List V) (final : Dict V ℤ)
      → is_set (keys g) ≡ true
      → IsSorted g order
      → Traversed g [] yielded (in_counts_of g) final
      → is_zero (sum_counts final) ≡ true
  balanced g order yielded final set sorted t =
      let same : keys final ≡ keys g = t.same_keys ∙ keys-in_counts_of g in
      ap is_zero (
        sum_counts_zero final (rw same set) (λ x n at.
          let spent = spent_part n (
            (t.frontier.spent x n at).1 (
              yields_all g order yielded final set sorted t x
                (subst (λ ks. contains ks x ≡ true) same (contains-keys x n final at)))) in
          zero_parts n spent
            (omega (arith, spent, t.left x n at, visits-le x yielded g t.frontier.distinct))))

  from_roots-returns :
      (g : Dict V (Vertex V)) (start order : List V) (x : V)
      → IsGraph g
      → IsCounted g
      → IsClosed (keys g) g
      → IsSorted g order
      → Frontier start (in_counts_of g)
      → contains (keys g) x ≡ true
      → length start + positives (in_counts_of g) ≤ length g
      → (yielded : List V) × (from_roots g start ≡ ok yielded)
  unfolding from_roots
  from_roots-returns g [] order x h counted closed sorted f key enough = absurd (
      let wrong =
        yields_all g order [] (in_counts_of g) h.distinct sorted
          (record {
            forward = at_end;
            frontier = f;
            same_keys = refl;
            left = in_counts_of-Left g counted;
          })
          x key in
      cc)
  from_roots-returns g (root ∷ rest) order x h counted closed sorted f key enough =
      elim (kahn-Traversed (length g) g [] (root ∷ rest) (in_counts_of g) h.outs f
        (in_counts_of-Left g counted)) [
          | inl (yielded, final, looped, t) ↦ (
            yielded,
            rw looped (
                check_end-balanced yielded final
                  (balanced g order yielded final h.distinct sorted t)),
          )
          | inr (error, failed) ↦
              absurd (elim (kahn-cases (length g) g (root ∷ rest) (in_counts_of g) enough) [
                | inl (yielded, final, looped, _) ↦ let wrong = sym looped ∙ failed in cc
                | inr missed ↦
                    kahn-finds (length g) g (root ∷ rest) (in_counts_of g)
                      (rw (keys-in_counts_of g) closed) missed
              ])
        ]

  traverse_all :
      (g : Dict V (Vertex V)) (order : List V)
      → IsGraph g
      → IsCounted g
      → IsClosed (keys g) g
      → IsSorted g order
      → (yielded : List V) × (traverse g ≡ ok yielded)
  unfolding traverse
  traverse_all [] order h counted closed sorted = ([], refl)
  traverse_all ((a, v) ∷ g) order h counted closed sorted =
      from_roots-returns ((a, v) ∷ g) (roots (in_counts_of ((a, v) ∷ g))) order a h counted closed
        sorted (roots-Frontier ((a, v) ∷ g) h.distinct) (rw (eq_self a) refl)
        (omega (arith, roots-positives ((a, v) ∷ g)))

  nil-IsClosed : IsClosed [] []
  nil-IsClosed a b edge = subst (λ out. contains out b ≡ true) (vertex-nil a) edge

  -- Where the graph of some injectors has a topological order, its traversal returns.
  pub traverse-returns :
      (injectors : Dict V (DependencyInjector V)) (order : List V)
      → IsSorted (graph_of injectors []) order
      → (yielded : List V) × (traverse (graph_of injectors []) ≡ ok yielded)
  traverse-returns injectors order sorted =
      traverse_all (graph_of injectors []) order (graph_of-IsGraph injectors [] nil-IsGraph)
        (graph_of-IsCounted injectors) (graph_of-IsClosed injectors [] nil-IsClosed) sorted
