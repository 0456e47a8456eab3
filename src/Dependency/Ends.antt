-- ===== src/Dependency/Ends.antt =====
-- Kahn's loop before its first step and after its last one.
use emissary.Prelude.{
  ℕ, zero, suc, ◌+◌, ◌≤◌, ◌≡◌, ◌↔◌, refl, sym, ◌∙◌, ap, inl, inr, true, false, [], ◌∷◌, some, Dict,
  lookup, contains, is_set, keys, lookup-here, lookup-there, lookup-later, arith, ◌==◌, HasEq,
  Bool-cases, ℤ, pos, negsuc, ◌+ℤ◌, is_zero, pos_part, neg_part, eq_self,
}
use mathlib.Core.Path.{subst}
use emissary.Dependency.{Vertex, vertex, in_counts_of, roots, sum_counts}
use emissary.Dependency.Counts.{IsCounted, indegree, vertex-cons}
use emissary.Dependency.Traversal.{positive, some-injective}
use emissary.Dependency.Steps.{Frontier, Left}

module _ {ℓ} {V : Type ℓ} ⦃e : HasEq V⦄ where
  pub keys-in_counts_of : (g : Dict V (Vertex V)) → keys (in_counts_of g) ≡ keys g
  unfolding in_counts_of
  keys-in_counts_of [] = refl
  keys-in_counts_of ((a, v) ∷ g) = ap (λ ks. a ∷ ks) (keys-in_counts_of g)

  lookup-in_counts_of :
      (x : V) (n : ℤ) (g : Dict V (Vertex V))
      → lookup x (in_counts_of g) ≡ some n
      → n ≡ pos (vertex x g).in_count
  unfolding in_counts_of lookup
  lookup-in_counts_of x n [] at = absurd cc
  lookup-in_counts_of x n ((k, v) ∷ g) at = elim (Bool-cases (k == x)) [
    | inl same ↦
        rw (vertex-cons x k v g) (
          rw same
            (some-injective (sym at ∙ lookup-here x k (pos v.in_count) (in_counts_of g) same)))
    | inr other ↦ rw (vertex-cons x k v g) (
        rw other (
          lookup-in_counts_of x n g
            (sym (lookup-there x k (pos v.in_count) (in_counts_of g) other) ∙ at)))
  ]

  contains-roots :
      (x : V) (counts : Dict V ℤ)
      → contains (roots counts) x ≡ true
      → contains (keys counts) x ≡ true
  unfolding roots
  contains-roots x [] h = h
  contains-roots x ((a, n) ∷ counts) h = elim (Bool-cases (is_zero n)) [
    | inl z ↦ ground (arith, contains-roots x counts, h, z)
    | inr z ↦ ground (arith, contains-roots x counts, h, z)
  ]

  is_set-roots : (counts : Dict V ℤ) → is_set (keys counts) ≡ true → is_set (roots counts) ≡ true
  unfolding roots
  is_set-roots [] h = refl
  is_set-roots ((a, n) ∷ counts) h = elim (Bool-cases (is_zero n)) [
    | inl z ↦ ground (arith, is_set-roots counts, contains-roots a counts, h, z)
    | inr z ↦ ground (arith, is_set-roots counts, h, z)
  ]

  -- The roots are the vertices with a count of 0.
  lookup-roots :
      (x : V) (n : ℤ) (counts : Dict V ℤ)
      → is_set (keys counts) ≡ true
      → lookup x counts ≡ some n
      → contains (roots counts) x ≡ is_zero n
  unfolding roots lookup
  lookup-roots x n [] h at = absurd cc
  lookup-roots x n ((a, m) ∷ counts) h at = elim (Bool-cases (a == x)) [
    | inl same ↦
        let m≡n : m ≡ n = some-injective (sym (lookup-here x a m counts same) ∙ at) in
        let gone : contains (keys counts) x ≡ false =
          subst (λ v. contains (keys counts) v ≡ false) ((e.eqb_iff a x).0 same)
            (ground (arith, h)) in
        elim (Bool-cases (is_zero m)) [
          | inl z ↦
              rw z (ground (arith, e.eqb_iff a x, e.eqb_iff x a, same, sym (ap is_zero m≡n) ∙ z))
          | inr z ↦ rw z (ground (arith, contains-roots x counts, gone, sym (ap is_zero m≡n) ∙ z))
        ]
    | inr other ↦
        let rest =
          lookup-roots x n counts (ground (arith, h))
            (sym (lookup-there x a m counts other) ∙ at) in
        elim (Bool-cases (is_zero m)) [
          | inl z ↦ rw z (ground (arith, e.eqb_iff a x, e.eqb_iff x a, other, rest))
          | inr z ↦ rw z rest
        ]
  ]

  pub roots-Frontier :
      (g : Dict V (Vertex V))
      → is_set (keys g) ≡ true
      → Frontier (roots (in_counts_of g)) (in_counts_of g)
  roots-Frontier g h =
      let set : is_set (keys (in_counts_of g)) ≡ true = rw (keys-in_counts_of g) h in
      record {
        distinct = is_set-roots (in_counts_of g) set;
        spent = λ x n at.
            rw (lookup-roots x n (in_counts_of g) set at)
              (natural n (vertex x g).in_count (lookup-in_counts_of x n g at));
        known = λ x. contains-roots x (in_counts_of g);
      }
    where
      natural : (n : ℤ) (k : ℕ) → n ≡ pos k → (positive n ≡ 0) ↔ (is_zero n ≡ true)
      natural n k same = rw same (of_pos k)
        where
          of_pos : (k : ℕ) → (positive (pos k) ≡ 0) ↔ (is_zero (pos k) ≡ true)
          of_pos zero = (λ _. refl, λ _. refl)
          of_pos (suc k) = (λ h. absurd (omega (arith, h)), λ h. absurd cc)

  pub in_counts_of-Left :
      (g : Dict V (Vertex V)) → IsCounted g → (b : V) → Left (indegree b g) b (in_counts_of g) 0
  unfolding IsCounted
  in_counts_of-Left g h b n at =
      let same = lookup-in_counts_of b n g at in
      omega (arith, ap pos_part same, ap neg_part same, h b)

  -- Where no count is negative, the sum is at least each of them.
  pub sum_counts-ge :
      (m : Dict V ℤ)
      → is_set (keys m) ≡ true
      → ((x : V) (n : ℤ) → lookup x m ≡ some n → neg_part n ≡ 0)
      → (s : ℕ) × (sum_counts m ≡ pos s) × ((x : V) (n : ℤ) → lookup x m ≡ some n → pos_part n ≤ s)
  unfolding sum_counts lookup
  sum_counts-ge [] set h = (0, refl, λ x n at. absurd cc)
  sum_counts-ge ((k, n) ∷ m) set h =
      let (s, sum, each) =
        sum_counts-ge m (ground (arith, set)) (λ x w at. h x w (lookup-later k x n w m set at)) in
      (
        pos_part n + s,
        rw sum (added n s (h k n (lookup-here k k n m (eq_self k)))),
        λ x w at. elim (Bool-cases (k == x)) [
          | inl same ↦
              omega (arith, ap pos_part (some-injective (sym (lookup-here x k n m same) ∙ at)))
          | inr other ↦ omega (arith, each x w (sym (lookup-there x k n m other) ∙ at))
        ],
      )
    where
      added : (n : ℤ) (s : ℕ) → neg_part n ≡ 0 → n +ℤ pos s ≡ pos (pos_part n + s)
      added (pos n) s h = refl
      added (negsuc n) s h = absurd (omega (arith, h))
