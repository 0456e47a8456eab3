-- ===== src/Dependency/Reached.antt =====
-- Where a graph has a topological order, Kahn's loop yields every vertex.
use emissary.Prelude.{
  zero, suc, ◌+◌, ◌≤◌, ◌≡◌, refl, sym, ◌∙◌, ap, inl, inr, true, false, List, [], ◌∷◌, ◌++◌, none,
  some, Dict, lookup, erase, contains, contains-append, is_set, keys, lookup-some, lookup-here,
  lookup-later, arith, ◌==◌, HasEq, Bool-cases, ℤ, pos, negsuc, pos_part, neg_part, eq_self,
}
use mathlib.Core.Path.{subst}
use emissary.Dependency.{Vertex, or_new, vertex, in_counts_of, sum_counts}
use emissary.Dependency.Counts.{points_to, indegree, vertex-cons, vertex-nil}
use emissary.Dependency.Bound.{visits, visits-erase, visits-le, vertex-erase}
use emissary.Dependency.Traversal.{positive}
use emissary.Dependency.Sorted.{Forward, at_end, next, Traversed}

spent_zero : (n : ℤ) → pos_part n ≡ neg_part n → positive n ≡ 0
spent_zero (pos zero) h = refl
spent_zero (pos (suc n)) h = absurd (omega (arith, h))
spent_zero (negsuc n) h = refl

module _ {ℓ} {V : Type ℓ} ⦃e : HasEq V⦄ where
  vertex-here : (k : V) (w : Vertex V) (g : Dict V (Vertex V)) → vertex k ((k, w) ∷ g) ≡ w
  vertex-here k w g = vertex-cons k k w g ∙ rw (eq_self k) refl

  vertex-other :
      (a k : V) (w : Vertex V) (g : Dict V (Vertex V))
      → (k == a) ≡ false
      → vertex a ((k, w) ∷ g) ≡ vertex a g
  vertex-other a k w g other = vertex-cons a k w g ∙ rw other refl

  erased_same :
      (a c : V) (g : Dict V (Vertex V)) → (a == c) ≡ true → vertex c (erase a g) ≡ or_new none
  erased_same a c g same = vertex-erase a c g ∙ rw same refl

  erased_other :
      (a c : V) (g : Dict V (Vertex V)) → (a == c) ≡ false → vertex c (erase a g) ≡ vertex c g
  erased_other a c g other = vertex-erase a c g ∙ rw other refl

  -- A vertex with an edge is in the graph.
  pub source_known :
      (a b : V) (g : Dict V (Vertex V))
      → contains (vertex a g).out b ≡ true
      → contains (keys g) a ≡ true
  source_known a b [] edge =
      absurd (let wrong = ap (λ out. contains out b) (sym (vertex-nil a)) ∙ edge in cc)
  source_known a b ((k, w) ∷ g) edge = elim (Bool-cases (k == a)) [
    | inl same ↦ ground (arith, e.eqb_iff a k, e.eqb_iff k a, same)
    | inr other ↦ ground (
      arith,
      source_known a b g (subst (λ v. contains v.out b ≡ true) (vertex-other a k w g other) edge),
    )
  ]

  -- With no edge to `b` its degree is 0.
  indegree_none :
      (b : V) (g : Dict V (Vertex V))
      → is_set (keys g) ≡ true
      → ((a : V) → contains (vertex a g).out b ≡ false)
      → indegree b g ≡ 0
  indegree_none b [] set h = refl
  indegree_none b ((k, w) ∷ g) set h =
      let own : contains w.out b ≡ false =
        subst (λ v. contains v.out b ≡ false) (vertex-here k w g) (h k) in
      let rest = indegree_none b g (ground (arith, set)) (λ a.
        elim (Bool-cases (contains (vertex a g).out b)) [
          | inr absent ↦ absent
          | inl edge ↦ elim (Bool-cases (k == a)) [
            | inl same ↦ absurd (
                let there : contains (keys g) k ≡ true =
                  subst (λ v. contains (keys g) v ≡ true) (sym ((e.eqb_iff k a).0 same))
                    (source_known a b g edge) in
                ground (arith, set, there))
            | inr other ↦ subst (λ v. contains v.out b ≡ false) (vertex-other a k w g other) (h a)
          ]
        ]) in
      rw own (omega (arith, rest))

  contains-keys-erase :
      (a x : V) (g : Dict V (Vertex V))
      → contains (keys (erase a g)) x ≡ true
      → contains (keys g) x ≡ true
  unfolding erase
  contains-keys-erase a x [] h = h
  contains-keys-erase a x ((k, w) ∷ g) h = ground (arith, contains-keys-erase a x g, h)

  is_set-keys-erase :
      (a : V) (g : Dict V (Vertex V)) → is_set (keys g) ≡ true → is_set (keys (erase a g)) ≡ true
  unfolding erase
  is_set-keys-erase a [] h = refl
  is_set-keys-erase a ((k, w) ∷ g) h =
      ground (arith, is_set-keys-erase a g, contains-keys-erase a k g, h)

  missing_points :
      (a b : V) (g : Dict V (Vertex V)) → contains (keys g) a ≡ false → points_to (vertex a g) b ≡ 0
  missing_points a b g h = elim (Bool-cases (contains (vertex a g).out b)) [
    | inl edge ↦ absurd (ground (arith, source_known a b g edge, h))
    | inr absent ↦ rw absent refl
  ]

  indegree-erase_le :
      (a b : V) (g : Dict V (Vertex V))
      → is_set (keys g) ≡ true
      → indegree b g ≤ indegree b (erase a g) + points_to (vertex a g) b
  unfolding erase
  indegree-erase_le a b [] set = omega arith
  indegree-erase_le a b ((k, w) ∷ g) set = elim (Bool-cases (k == a)) [
    | inl same ↦
        let gone : contains (keys g) a ≡ false =
          subst (λ v. contains (keys g) v ≡ false) ((e.eqb_iff k a).0 same) (ground (arith, set)) in
        rw (vertex-cons a k w g) (
          rw same (
            omega
              (arith, indegree-erase_le a b g (ground (arith, set)), missing_points a b g gone)))
    | inr other ↦
        rw (vertex-cons a k w g)
          (rw other (omega (arith, indegree-erase_le a b g (ground (arith, set)))))
  ]

  -- Where all vertices with an edge to `b` are among some vertices, these count all edges.
  indegree-le-visits :
      (b : V) (seen : List V) (g : Dict V (Vertex V))
      → is_set (keys g) ≡ true
      → is_set seen ≡ true
      → ((a : V) → contains (vertex a g).out b ≡ true → contains seen a ≡ true)
      → indegree b g ≤ visits b seen g
  indegree-le-visits b [] g keys_set set h =
      omega (arith, indegree_none b g keys_set (λ a. ground (arith, h a)))
  indegree-le-visits b (a ∷ seen) g keys_set set h = omega (
    arith,
    indegree-erase_le a b g keys_set,
    visits-erase a b seen g (ground (arith, set)),
    indegree-le-visits b seen (erase a g) (is_set-keys-erase a g keys_set) (ground (arith, set))
        (λ c edge. elim (Bool-cases (a == c)) [
          | inl same ↦
              absurd (
                let wrong = subst (λ v. contains v.out b ≡ true) (erased_same a c g same) edge in
                cc)
          | inr other ↦
              let there =
                h c (subst (λ v. contains v.out b ≡ true) (erased_other a c g other) edge) in
              ground (arith, e.eqb_iff a c, e.eqb_iff c a, there, other)
        ]),
  )

  -- The vertices of a topological order are yielded one after the other.
  pub Forward-yielded :
      (g : Dict V (Vertex V)) (seen rest yielded : List V) (final : Dict V ℤ)
      → is_set (keys g) ≡ true
      → Traversed g [] yielded (in_counts_of g) final
      → keys final ≡ keys g
      → Forward g seen rest
      → ((x : V) → contains seen x ≡ true → contains (keys g) x ≡ true → contains yielded x ≡ true)
      → (x : V) → contains rest x ≡ true
      → contains (keys g) x ≡ true
      → contains yielded x ≡ true
  Forward-yielded g seen [] yielded final set t same at_end before x here there = absurd cc
  Forward-yielded g seen (b ∷ rest) yielded final set t same (next ready later) before x here
        there =
      elim (Bool-cases (x == b)) [
        | inl first ↦
            subst (λ v. contains yielded v ≡ true) (sym ((e.eqb_iff x b).0 first))
              (head (subst (λ v. contains (keys g) v ≡ true) ((e.eqb_iff x b).0 first) there))
        | inr other ↦
            Forward-yielded g (seen ++ b ∷ []) rest yielded final set t same later
              (λ y seen_y key_y. elim (Bool-cases (y == b)) [
                | inl last ↦
                    subst (λ v. contains yielded v ≡ true) (sym ((e.eqb_iff y b).0 last))
                      (head
                        (subst (λ v. contains (keys g) v ≡ true) ((e.eqb_iff y b).0 last) key_y))
                | inr not_last ↦
                    before y (ground (arith, contains-append seen (b ∷ []) y, seen_y, not_last))
                      key_y
              ])
              x (ground (arith, here, other)) there
      ]
    where
      head : contains (keys g) b ≡ true → contains yielded b ≡ true
      head key =
          let (n, found) =
            lookup-some b final (subst (λ ks. contains ks b ≡ true) (sym same) key) in
          let all =
            indegree-le-visits b yielded g set t.frontier.distinct
              (λ a edge. before a (ready a edge) (source_known a b g edge)) in
          (t.frontier.spent b n found).0 (
            spent_zero n
              (omega (arith, t.left b n found, all, visits-le b yielded g t.frontier.distinct)))

  -- Counts that are all 0 add up to 0.
  pub sum_counts_zero :
      (m : Dict V ℤ)
      → is_set (keys m) ≡ true
      → ((x : V) (n : ℤ) → lookup x m ≡ some n → n ≡ pos 0)
      → sum_counts m ≡ pos 0
  unfolding sum_counts lookup
  sum_counts_zero [] set h = refl
  sum_counts_zero ((k, n) ∷ m) set h = rw (h k n (lookup-here k k n m (eq_self k))) (
      rw (sum_counts_zero m (ground (arith, set)) (λ x w at. h x w (lookup-later k x n w m set at)))
        refl)
