-- ===== src/Dependency/Counts.antt =====
-- The counts of inbound edges that `connect` keeps.
use emissary.Prelude.{
  ℕ, ◌+◌, false, List, [], ◌∷◌, ◌++◌, Dict, lookup, insert, contains, ◌≡◌, refl, ◌∙◌, ap, arith,
  ◌==◌, if◌then◌else◌, HasEq, lookup-insert, contains-append, Bool-cases, inl, inr,
}
use emissary.Dependency.{
  Vertex, or_new, vertex, add_out, add_in, connect, DependencyInjector, connect_provides,
  connect_wants, graph_of,
}

module _ {ℓ} {V : Type ℓ} ⦃e : HasEq V⦄ where
  abbrev pub points_to : Vertex V → V → ℕ
  points_to v b = if contains v.out b then 1 else 0

  -- The vertices with an edge to `b`.
  abbrev pub indegree : V → Dict V (Vertex V) → ℕ
  indegree b [] = 0
  indegree b ((_, v) ∷ g) = points_to v b + indegree b g

  pub vertex-insert :
      (a b : V) (v : Vertex V) (g : Dict V (Vertex V))
      → vertex b (insert a v g) ≡ (if a == b then v else vertex b g)
  unfolding vertex
  vertex-insert a b v g =
      ap or_new (lookup-insert a b v g)
      ∙ elim (Bool-cases (a == b)) [ inl same ↦ rw same | inr other ↦ rw other ]

  pub vertex-cons :
      (a k : V) (w : Vertex V) (g : Dict V (Vertex V))
      → vertex a ((k, w) ∷ g) ≡ (if k == a then w else vertex a g)
  unfolding vertex lookup
  vertex-cons a k w g = elim (Bool-cases (k == a)) [ inl same ↦ rw same | inr other ↦ rw other ]

  pub vertex-nil : (a : V) → (vertex a []).out ≡ []
  unfolding vertex lookup
  vertex-nil a = refl

  indegree-insert :
      (a b : V) (v : Vertex V) (g : Dict V (Vertex V))
      → indegree b (insert a v g) + points_to (vertex a g) b ≡ indegree b g + points_to v b
  unfolding insert
  indegree-insert a b v [] = rw (vertex-nil a) (omega arith)
  indegree-insert a b v ((k, w) ∷ g) = elim (Bool-cases (k == a)) [
    | inl same ↦ rw (vertex-cons a k w g) (rw same (omega arith))
    | inr other ↦ rw (vertex-cons a k w g) (rw other (omega (arith, indegree-insert a b v g)))
  ]

  -- The count of every vertex is that of the vertices with an edge to it.
  unfoldable pub IsCounted : Dict V (Vertex V) → Type ℓ
  IsCounted g = (b : V) → (vertex b g).in_count ≡ indegree b g

  in_count-insert :
      (a c : V) (v : Vertex V) (g : Dict V (Vertex V))
      → v.in_count ≡ (vertex a g).in_count
      → (vertex c (insert a v g)).in_count ≡ (vertex c g).in_count
  in_count-insert a c v g kept =
      ap Vertex.in_count (vertex-insert a c v g) ∙ elim (Bool-cases (a == c)) [
        | inl same ↦ rw same (kept ∙ ap (λ x. (vertex x g).in_count) ((e.eqb_iff a c).0 same))
        | inr other ↦ rw other
      ]

  in_count-add_in :
      (b c : V) (g : Dict V (Vertex V))
      → (vertex c (add_in b g)).in_count ≡ (vertex c g).in_count + (if b == c then 1 else 0)
  in_count-add_in b c g = ap Vertex.in_count (vertex-insert b c _ g) ∙ elim (Bool-cases (b == c)) [
    | inl same ↦ rw same (ap (λ x. (vertex x g).in_count + 1) ((e.eqb_iff b c).0 same))
    | inr other ↦ rw other (omega arith)
  ]

  points_to-append :
      (v : Vertex V) (b c : V)
      → contains v.out b ≡ false
      → points_to (record v { out = v.out ++ b ∷ [] }) c ≡ points_to v c + (if b == c then 1 else 0)
  points_to-append v b c h =
      ground (arith, contains-append v.out (b ∷ []) c, e.eqb_iff b c, e.eqb_iff c b, h)

  abbrev with_out : V → V → Dict V (Vertex V) → Vertex V
  with_out a b g = let v = vertex a g in record v { out = v.out ++ b ∷ [] }

  abbrev with_in : V → Dict V (Vertex V) → Vertex V
  with_in b g = let v = vertex b g in record v { in_count = v.in_count + 1 }

  -- An edge is put in once, and the counts stay right.
  connect-IsCounted : (a b : V) (g : Dict V (Vertex V)) → IsCounted g → IsCounted (connect a b g)
  unfolding connect IsCounted
  connect-IsCounted a b g h c = elim (Bool-cases (contains (vertex a g).out b)) [
    | inl there ↦ rw there (
        in_count-insert a c (vertex a g) g refl
        ∙ h c
        ∙ omega (arith, indegree-insert a c (vertex a g) g))
    | inr new ↦ rw new (
        omega (
          arith,
          in_count-add_in b c (add_out a b g),
          in_count-insert a c (with_out a b g) g refl,
          h c,
          indegree-insert a c (with_out a b g) g,
          points_to-append (vertex a g) b c new,
          indegree-insert b c (with_in b (add_out a b g)) (add_out a b g),
        ))
  ]

  in_count-nil : (b : V) → (vertex b []).in_count ≡ 0
  unfolding vertex lookup
  in_count-nil b = refl

  connect_provides-IsCounted :
      (obj : V) (provides : List V) (g : Dict V (Vertex V))
      → IsCounted g
      → IsCounted (connect_provides obj provides g)
  unfolding connect_provides
  connect_provides-IsCounted obj [] g h = h
  connect_provides-IsCounted obj (cls ∷ rest) g h =
      connect_provides-IsCounted obj rest (connect obj cls g) (connect-IsCounted obj cls g h)

  connect_wants-IsCounted :
      (obj : V) (wants : List V) (g : Dict V (Vertex V))
      → IsCounted g
      → IsCounted (connect_wants obj wants g)
  unfolding connect_wants
  connect_wants-IsCounted obj [] g h = h
  connect_wants-IsCounted obj (cls ∷ rest) g h =
      connect_wants-IsCounted obj rest (connect cls obj g) (connect-IsCounted cls obj g h)

  connect_all-IsCounted :
      (injectors : Dict V (DependencyInjector V)) (g : Dict V (Vertex V))
      → IsCounted g
      → IsCounted (graph_of injectors g)
  unfolding graph_of
  connect_all-IsCounted [] g h = h
  connect_all-IsCounted ((obj, injector) ∷ rest) g h =
      connect_all-IsCounted rest
        (connect_wants obj injector.wants (connect_provides obj injector.provides g))
        (connect_wants-IsCounted obj injector.wants (connect_provides obj injector.provides g)
          (connect_provides-IsCounted obj injector.provides g h))

  -- In the graph of any injectors the count of every vertex is the number of the vertices with an edge to it.
  pub graph_of-IsCounted :
      (injectors : Dict V (DependencyInjector V)) → IsCounted (graph_of injectors [])
  unfolding IsCounted
  graph_of-IsCounted injectors = connect_all-IsCounted injectors [] (λ b. in_count-nil b)
