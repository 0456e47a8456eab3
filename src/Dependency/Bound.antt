-- ===== src/Dependency/Bound.antt =====
-- How many of some vertices have an edge to another, against all of them.
use emissary.Prelude.{
  ℕ, ◌+◌, ◌≤◌, true, false, List, [], ◌∷◌, ◌++◌, Dict, erase, contains, is_set, ◌≡◌, refl, ◌∙◌, ap,
  arith, ◌==◌, if◌then◌else◌, HasEq, lookup-erase, Bool-cases, inl, inr, none,
}
use emissary.Dependency.{Vertex, or_new, vertex}
use emissary.Dependency.Counts.{points_to, indegree, vertex-cons, vertex-nil}

module _ {ℓ} {V : Type ℓ} ⦃e : HasEq V⦄ where
  -- How many of a list of vertices have an edge to `b`.
  abbrev pub visits : V → List V → Dict V (Vertex V) → ℕ
  visits b [] g = 0
  visits b (a ∷ seen) g = points_to (vertex a g) b + visits b seen g

  pub visits-append :
      (b a : V) (seen : List V) (g : Dict V (Vertex V))
      → visits b (seen ++ a ∷ []) g ≡ visits b seen g + points_to (vertex a g) b
  visits-append b a [] g = omega arith
  visits-append b a (c ∷ seen) g = omega (arith, visits-append b a seen g)

  pub vertex-erase :
      (a b : V) (g : Dict V (Vertex V))
      → vertex b (erase a g) ≡ (if a == b then or_new none else vertex b g)
  unfolding vertex
  vertex-erase a b g =
      ap or_new (lookup-erase a b g)
      ∙ elim (Bool-cases (a == b)) [ inl same ↦ rw same | inr other ↦ rw other ]

  indegree-erase :
      (a b : V) (g : Dict V (Vertex V))
      → indegree b (erase a g) + points_to (vertex a g) b ≤ indegree b g
  unfolding erase
  indegree-erase a b [] = rw (vertex-nil a) (omega arith)
  indegree-erase a b ((k, w) ∷ g) = elim (Bool-cases (k == a)) [
    | inl same ↦ rw (vertex-cons a k w g) (rw same (omega (arith, indegree-erase a b g)))
    | inr other ↦ rw (vertex-cons a k w g) (rw other (omega (arith, indegree-erase a b g)))
  ]

  pub visits-erase :
      (a b : V) (seen : List V) (g : Dict V (Vertex V))
      → contains seen a ≡ false
      → visits b seen (erase a g) ≡ visits b seen g
  visits-erase a b [] g new = refl
  visits-erase a b (c ∷ seen) g new = elim (Bool-cases (a == c)) [
    | inl same ↦ absurd (ground (arith, new, same))
    | inr other ↦
        rw (vertex-erase a c g)
          (rw other (omega (arith, visits-erase a b seen g (ground (arith, new, other)))))
  ]

  pub visits-le :
      (b : V) (seen : List V) (g : Dict V (Vertex V))
      → is_set seen ≡ true
      → visits b seen g ≤ indegree b g
  visits-le b [] g h = omega arith
  visits-le b (a ∷ seen) g h = omega (
    arith,
    visits-le b seen (erase a g) (ground (arith, h)),
    visits-erase a b seen g (ground (arith, h)),
    indegree-erase a b g,
  )

  -- Where as many of some vertices have an edge to `b` as of all, every vertex with one is among them.
  pub contains_of_visits :
      (a b : V) (seen : List V) (g : Dict V (Vertex V))
      → is_set seen ≡ true
      → visits b seen g ≡ indegree b g
      → contains (vertex a g).out b ≡ true
      → contains seen a ≡ true
  contains_of_visits a b seen g h all edge = elim (Bool-cases (contains seen a)) [
    | inl there ↦ there
    | inr new ↦
        absurd (ground (arith, visits-le b (a ∷ seen) g (ground (arith, h, new)), all, edge))
  ]
