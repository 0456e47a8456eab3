-- ===== src/Dependency/Tests.antt =====
-- The graph of the edges 1 → 2, 2 → 3 and 1 → 3, and a cycle.
use emissary.Prelude.{
  ℕ, ◌≤◌, List, [], ◌∷◌, Dict, insert, lookup, length, ◌≡◌, ◌≢◌, refl, ◌⊎◌, nat_eq,
}
use emissary.Results.{Error, ok, raised, value_error, out_of_fuel}
use emissary.Dependency.{
  Vertex, vertex, connect, in_counts_of, roots, discount, kahn, sum_counts, from_roots, check_end,
  traverse, DependencyInjector, connect_provides, connect_wants, graph_of, keys_of,
  sorted_watt_keys,
}
use emissary.Dependency.Traversal.{traverse_total}
use emissary.Dependency.Acyclic.{traverse-returns}
use emissary.Dependency.Order.{IsSorted, traverse-IsSorted}

abbrev graph : Dict ℕ (Vertex ℕ)
graph =
    (1, record { out = 2 ∷ 3 ∷ []; in_count = 0 })
    ∷ (2, record { out = 3 ∷ []; in_count = 1 })
    ∷ (3, record { out = []; in_count = 2 })
    ∷ []

graph-connected : connect 1 2 (connect 1 3 (connect 2 3 (connect 1 2 []))) ≡ graph
unfolding connect vertex insert lookup
graph-connected = refl

ordered : traverse graph ≡ ok (1 ∷ 2 ∷ 3 ∷ [])
unfolding traverse from_roots roots in_counts_of kahn discount check_end sum_counts vertex insert
    lookup
ordered = refl

abbrev cycle : Dict ℕ (Vertex ℕ)
cycle = connect 2 1 (connect 1 2 [])

cyclic : traverse cycle ≡ raised value_error
unfolding traverse from_roots roots in_counts_of connect vertex insert lookup
cyclic = refl

-- The instance 10 provides the dependency 2, which 20 wants; 20 provides the dependency 1.
abbrev injectors : Dict ℕ (DependencyInjector ℕ)
injectors =
    (20, record { wants = 2 ∷ []; provides = 1 ∷ [] })
    ∷ (10, record { wants = []; provides = 2 ∷ [] })
    ∷ []

keys-sorted :
    sorted_watt_keys ((1, "service") ∷ (2, "secret") ∷ []) injectors
    ≡ ok ("secret" ∷ "service" ∷ [])
unfolding sorted_watt_keys graph_of connect_wants connect_provides connect keys_of traverse
    from_roots roots in_counts_of kahn discount check_end sum_counts vertex insert lookup
keys-sorted = refl

injectors-ordered : traverse (graph_of injectors []) ≡ ok (10 ∷ 2 ∷ 20 ∷ 1 ∷ [])
unfolding traverse graph_of connect_wants connect_provides connect from_roots roots in_counts_of
    kahn discount check_end sum_counts vertex insert lookup
injectors-ordered = refl

traverse-IsSorted_example : IsSorted (graph_of injectors []) (10 ∷ 2 ∷ 20 ∷ 1 ∷ [])
traverse-IsSorted_example = traverse-IsSorted injectors (10 ∷ 2 ∷ 20 ∷ 1 ∷ []) injectors-ordered

traverse-returns_example : (yielded : List ℕ) × (traverse (graph_of injectors []) ≡ ok yielded)
traverse-returns_example =
    traverse-returns injectors (10 ∷ 2 ∷ 20 ∷ 1 ∷ [])
      (traverse-IsSorted injectors (10 ∷ 2 ∷ 20 ∷ 1 ∷ []) injectors-ordered)

traverse_total_example :
    ((order : List ℕ) × (traverse graph ≡ ok order) × (length order ≤ length graph))
    ⊎ ((error : Error) × (traverse graph ≡ raised error) × (error ≢ out_of_fuel))
traverse_total_example = traverse_total graph
