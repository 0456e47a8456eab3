-- ===== src/Dependency/Order.antt =====
-- What the traversal of a graph of injectors yields.
use emissary.Prelude.{
  ℕ, zero, suc, negsuc, ◌≤◌, ◌≡◌, refl, sym, ◌∙◌, ap, inl, inr, true, false, List, [], ◌∷◌, Dict,
  lookup, insert, contains, is_set, keys, is_set-keys-insert, lookup-some, length, arith, ◌==◌,
  HasEq, Bool-cases, ℤ, pos, is_zero, pos_part, neg_part,
}
use mathlib.Core.Path.{subst}
use emissary.Results.{Error, ◌>>=◌, ok, raised, assertion_error}
use emissary.Dependency.{
  Vertex, vertex, connect, add_out, DependencyInjector, connect_provides, connect_wants, graph_of,
  in_counts_of, roots, sum_counts, check_end, from_roots, traverse,
}
use emissary.Dependency.Counts.{IsCounted, vertex-insert, graph_of-IsCounted}
use emissary.Dependency.Bound.{visits-le}
use emissary.Dependency.Traversal.{positive}
use emissary.Dependency.Steps.{Frontier, is_set-append}
use emissary.Dependency.Sorted.{Forward, Traversed, kahn-Traversed, at_end}
use emissary.Dependency.Ends.{keys-in_counts_of, roots-Frontier, in_counts_of-Left, sum_counts-ge}

ok-injective {ℓ} : {A : Type ℓ} {a b : A} → ok a ≡ ok b → a ≡ b
ok-injective h = cc

ok-raised {ℓ} : {A : Type ℓ} {a : A} {error : Error} → raised error ≡ ok a → ⊥
ok-raised h = cc

module _ {ℓ} {V : Type ℓ} ⦃e : HasEq V⦄ where
  pub record IsGraph (g : Dict V (Vertex V)) : Type ℓ where
    pub outs : (a : V) → is_set (vertex a g).out ≡ true
    pub distinct : is_set (keys g) ≡ true

  insert-IsGraph :
      (a : V) (v : Vertex V) (g : Dict V (Vertex V))
      → is_set v.out ≡ true
      → IsGraph g
      → IsGraph (insert a v g)
  insert-IsGraph a v g set h = record {
    outs = λ b.
        rw (vertex-insert a b v g)
          (elim (Bool-cases (a == b)) [ inl same ↦ rw same set | inr other ↦ rw other (h.outs b) ]);
    distinct = is_set-keys-insert a v g h.distinct;
  }

  connect-IsGraph : (a b : V) (g : Dict V (Vertex V)) → IsGraph g → IsGraph (connect a b g)
  unfolding connect
  connect-IsGraph a b g h = elim (Bool-cases (contains (vertex a g).out b)) [
    | inl there ↦ rw there (insert-IsGraph a (vertex a g) g (h.outs a) h)
    | inr new ↦
        let added = insert-IsGraph a _ g (is_set-append (vertex a g).out b (h.outs a) new) h in
        rw new (insert-IsGraph b _ (add_out a b g) (added.outs b) added)
  ]

  connect_provides-IsGraph :
      (obj : V) (provides : List V) (g : Dict V (Vertex V))
      → IsGraph g
      → IsGraph (connect_provides obj provides g)
  unfolding connect_provides
  connect_provides-IsGraph obj [] g h = h
  connect_provides-IsGraph obj (cls ∷ rest) g h =
      connect_provides-IsGraph obj rest (connect obj cls g) (connect-IsGraph obj cls g h)

  connect_wants-IsGraph :
      (obj : V) (wants : List V) (g : Dict V (Vertex V))
      → IsGraph g
      → IsGraph (connect_wants obj wants g)
  unfolding connect_wants
  connect_wants-IsGraph obj [] g h = h
  connect_wants-IsGraph obj (cls ∷ rest) g h =
      connect_wants-IsGraph obj rest (connect cls obj g) (connect-IsGraph cls obj g h)

  pub graph_of-IsGraph :
      (injectors : Dict V (DependencyInjector V)) (g : Dict V (Vertex V))
      → IsGraph g
      → IsGraph (graph_of injectors g)
  unfolding graph_of
  graph_of-IsGraph [] g h = h
  graph_of-IsGraph ((obj, injector) ∷ rest) g h =
      graph_of-IsGraph rest
        (connect_wants obj injector.wants (connect_provides obj injector.provides g))
        (connect_wants-IsGraph obj injector.wants (connect_provides obj injector.provides g)
          (connect_provides-IsGraph obj injector.provides g h))

  pub nil-IsGraph : IsGraph []
  unfolding vertex lookup
  nil-IsGraph = record { outs = λ a. refl; distinct = refl }

  -- A topological order of a graph: each vertex of the graph stands in it, none twice, and each after
  -- every vertex with an edge to it.
  unfoldable pub IsSorted : Dict V (Vertex V) → List V → Type ℓ
  IsSorted g order =
      Forward g [] order
      × (is_set order ≡ true)
      × ((b : V) → contains (keys g) b ≡ true → contains order b ≡ true)

  -- With a sum of 0 the counts at the end are all 0, so that every vertex was yielded.
  all_yielded :
      (g : Dict V (Vertex V)) (order : List V) (final : Dict V ℤ)
      → is_set (keys g) ≡ true
      → Traversed g [] order (in_counts_of g) final
      → is_zero (sum_counts final) ≡ true
      → (b : V) → contains (keys g) b ≡ true
      → contains order b ≡ true
  all_yielded g order final set t balanced b there =
      let same : keys final ≡ keys g = t.same_keys ∙ keys-in_counts_of g in
      let (s, sum, each) = sum_counts-ge final (rw same set) (λ x n at.
        not_negative n (omega (arith, t.left x n at, visits-le x order g t.frontier.distinct))) in
      let (n, found) = lookup-some b final (rw same there) in
      (t.frontier.spent b n found).0
        (none_left n s (each b n found) (sym (ap is_zero sum) ∙ balanced))
    where
      not_negative : (n : ℤ) → neg_part n ≤ pos_part n → neg_part n ≡ 0
      not_negative (pos n) h = refl
      not_negative (negsuc n) h = absurd (omega (arith, h))

      none_left : (n : ℤ) (s : ℕ) → pos_part n ≤ s → is_zero (pos s) ≡ true → positive n ≡ 0
      none_left (pos zero) s h z = refl
      none_left (pos (suc n)) zero h z = absurd (omega (arith, h))
      none_left (pos (suc n)) (suc s) h z = absurd cc
      none_left (negsuc n) s h z = refl

  pub check_end-balanced :
      (order : List V) (final : Dict V ℤ)
      → is_zero (sum_counts final) ≡ true
      → check_end (order, final) ≡ ok order
  unfolding check_end
  check_end-balanced order final z = rw z

  check_end-unbalanced :
      (order : List V) (final : Dict V ℤ)
      → is_zero (sum_counts final) ≡ false
      → check_end (order, final) ≡ raised assertion_error
  unfolding check_end
  check_end-unbalanced order final z = rw z

  check_end-ok :
      (order result : List V) (final : Dict V ℤ)
      → check_end (order, final) ≡ ok result
      → (order ≡ result) × (is_zero (sum_counts final) ≡ true)
  check_end-ok order result final h = elim (Bool-cases (is_zero (sum_counts final))) [
    | inl z ↦ (ok-injective (sym (check_end-balanced order final z) ∙ h), z)
    | inr z ↦ absurd (ok-raised (sym (check_end-unbalanced order final z) ∙ h))
  ]

  from_roots-IsSorted :
      (g : Dict V (Vertex V)) (start order : List V)
      → IsGraph g
      → IsCounted g
      → Frontier start (in_counts_of g)
      → from_roots g start ≡ ok order
      → IsSorted g order
  unfolding IsSorted from_roots
  from_roots-IsSorted g [] order h counted f ran = absurd cc
  from_roots-IsSorted g (root ∷ rest) order h counted f ran =
      elim (kahn-Traversed (length g) g [] (root ∷ rest) (in_counts_of g) h.outs f
        (in_counts_of-Left g counted)) [
          | inl (yielded, final, looped, t) ↦
              let (same, zero_sum) =
                check_end-ok yielded order final (ap (λ r. r >>= check_end) (sym looped) ∙ ran) in
              subst
                (λ all.
                  Forward g [] all
                  × (is_set all ≡ true)
                  × ((b : V) → contains (keys g) b ≡ true → contains all b ≡ true))
                same
                (t.forward, t.frontier.distinct, all_yielded g yielded final h.distinct t zero_sum)
          | inr (error, failed) ↦ absurd (ok-raised (ap (λ r. r >>= check_end) (sym failed) ∙ ran))
        ]

  traverse-sorts :
      (g : Dict V (Vertex V)) (order : List V)
      → IsGraph g
      → IsCounted g
      → traverse g ≡ ok order
      → IsSorted g order
  unfolding traverse
  traverse-sorts [] order h counted ran =
      unfold IsSorted in
      subst
        (λ all.
          Forward [] [] all
          × (is_set all ≡ true)
          × ((b : V) → contains [] b ≡ true → contains all b ≡ true))
        (ok-injective ran) (at_end, refl, λ b there. there)
  traverse-sorts (entry ∷ g) order h counted ran =
      from_roots-IsSorted (entry ∷ g) (roots (in_counts_of (entry ∷ g))) order h counted
        (roots-Frontier (entry ∷ g) h.distinct) ran

  -- Where the traversal of the graph of some injectors returns, it gives a topological order of the
  -- graph: every vertex stands in it once, after all the vertices with an edge to it.
  pub traverse-IsSorted :
      (injectors : Dict V (DependencyInjector V)) (order : List V)
      → traverse (graph_of injectors []) ≡ ok order
      → IsSorted (graph_of injectors []) order
  traverse-IsSorted injectors order =
      traverse-sorts (graph_of injectors []) order (graph_of-IsGraph injectors [] nil-IsGraph)
        (graph_of-IsCounted injectors)
