-- ===== src/Dependency/Sorted.antt =====
-- The order that Kahn's loop yields: a vertex comes after every vertex with an edge to it.
use emissary.Prelude.{
  ℕ, zero, suc, ◌≡◌, refl, sym, ◌∙◌, ◌⊎◌, inl, inr, true, List, [], ◌∷◌, ◌++◌, Dict, contains,
  contains-append, is_set, keys, lookup-some, arith, HasEq, ℤ, pos, negsuc, pos_part, eq_self,
}
use mathlib.Core.List.{append_assoc, append-nil}
use mathlib.Core.Path.{subst}
use emissary.Results.{Fails, ok, out_of_fuel}
use emissary.Dependency.{Vertex, vertex, kahn}
use emissary.Dependency.Counts.{indegree}
use emissary.Dependency.Bound.{visits, visits-append, visits-le, contains_of_visits}
use emissary.Dependency.Traversal.{positive}
use emissary.Dependency.Steps.{Frontier, Left, discount-Discounted}

pub spent_part : (n : ℤ) → positive n ≡ 0 → pos_part n ≡ 0
spent_part (pos zero) h = refl
spent_part (pos (suc n)) h = absurd (omega (arith, h))
spent_part (negsuc n) h = refl

module _ {ℓ} {V : Type ℓ} ⦃e : HasEq V⦄ where
  -- In a list of vertices that follow those of `seen`, each comes after all with an edge to it.
  pub data Forward (g : Dict V (Vertex V)) : List V → List V → Type ℓ where
    at_end : {seen : List V} → Forward g seen []
    next :
        {b : V} {seen rest : List V}
        → ((a : V) → contains (vertex a g).out b ≡ true → contains seen a ≡ true)
        → Forward g (seen ++ b ∷ []) rest
        → Forward g seen (b ∷ rest)

  is_set-start : (seen rest : List V) → is_set (seen ++ rest) ≡ true → is_set seen ≡ true
  is_set-start [] rest h = refl
  is_set-start (c ∷ seen) rest h =
      ground (arith, is_set-start seen rest, contains-append seen rest c, h)

  -- A vertex at the head of the queue has no edge from a vertex not yielded.
  ready :
      (yielded queue : List V) (cur : V) (g : Dict V (Vertex V)) (counts : Dict V ℤ)
      → Frontier (yielded ++ cur ∷ queue) counts
      → Left (indegree cur g) cur counts (visits cur yielded g)
      → (a : V) → contains (vertex a g).out cur ≡ true
      → contains yielded a ≡ true
  ready yielded queue cur g counts f left a edge =
      let here : contains (yielded ++ cur ∷ queue) cur ≡ true =
        rw (contains-append yielded (cur ∷ queue) cur) (ground (arith, eq_self cur)) in
      let (n, found) = lookup-some cur counts (f.known cur here) in
      let set = is_set-start yielded (cur ∷ queue) f.distinct in
      contains_of_visits a cur yielded g set
        (omega (
          arith,
          left n found,
          spent_part n ((f.spent cur n found).1 here),
          visits-le cur yielded g set,
        ))
        edge

  -- What the loop gives from vertices yielded before.
  pub record Traversed (g : Dict V (Vertex V)) (yielded order : List V) (counts final : Dict V ℤ)
      : Type ℓ where
    pub forward : Forward g yielded order
    pub frontier : Frontier (yielded ++ order) final
    pub same_keys : keys final ≡ keys counts
    pub left : (b : V) → Left (indegree b g) b final (visits b (yielded ++ order) g)

  pub kahn-Traversed :
      (fuel : ℕ) (g : Dict V (Vertex V)) (yielded queue : List V) (counts : Dict V ℤ)
      → ((a : V) → is_set (vertex a g).out ≡ true)
      → Frontier (yielded ++ queue) counts
      → ((b : V) → Left (indegree b g) b counts (visits b yielded g))
      → ((order : List V) × (final : Dict V ℤ) × (kahn fuel g queue counts ≡ ok (order, final))
          × Traversed g yielded order counts final)
        ⊎ Fails (kahn fuel g queue counts)
  unfolding kahn
  kahn-Traversed fuel g yielded [] counts outs f left = inl (
    [],
    counts,
    refl,
    record {
      forward = at_end;
      frontier = f;
      same_keys = refl;
      left = λ b.
          subst (λ seen. Left (indegree b g) b counts (visits b seen g)) (sym (append-nil yielded))
            (left b);
    },
  )
  kahn-Traversed zero g yielded (cur ∷ queue) counts outs f left = inr (out_of_fuel, refl)
  kahn-Traversed (suc fuel) g yielded (cur ∷ queue) counts outs f left =
      let seen = yielded ++ cur ∷ [] in
      elim (discount-Discounted (vertex cur g).out seen queue counts (outs cur)
        (subst (λ all. Frontier all counts) (sym (append_assoc yielded (cur ∷ []) queue)) f)) [
          | inl (counts', queue', r) ↦
              elim (kahn-Traversed fuel g seen queue' counts' outs r.frontier (λ b n at.
                rw (visits-append b cur yielded g)
                  (r.left (indegree b g) (visits b yielded g) b (left b) n at))) [
                    | inl (order, final, ran, t) ↦ inl (
                      cur ∷ order,
                      final,
                      rw r.run (rw ran refl),
                      record {
                        forward = next (ready yielded queue cur g counts f (left cur)) t.forward;
                        frontier =
                            subst (λ all. Frontier all final)
                              (append_assoc yielded (cur ∷ []) order) t.frontier;
                        same_keys = t.same_keys ∙ r.same_keys;
                        left = λ b.
                            subst (λ all. Left (indegree b g) b final (visits b all g))
                              (append_assoc yielded (cur ∷ []) order) (t.left b);
                      },
                    )
                    | inr (error, failed) ↦ inr (error, rw r.run (rw failed))
                  ]
          | inr (error, failed) ↦ inr (error, rw failed)
        ]
