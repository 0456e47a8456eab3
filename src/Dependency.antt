-- ===== src/Dependency.antt =====
-- The order in which the kinds of a snapshot are processed,
-- python/ambassador/src/ambassador/fetch/dependency.py: the graph of what provides and wants what, and
-- its traversal by Kahn's algorithm. `V` are the vertices, with their equality. A set of vertices is the
-- list of its members in the order in which it is iterated. `traverse` is a generator that the caller
-- reads to its end, so that it either raises or gives the list of what it yields.
pub mod Counts
pub mod Traversal
pub mod Bound
pub mod Steps
pub mod Sorted
pub mod Ends
pub mod Order
pub mod Reached
pub mod Acyclic
mod Tests
use emissary.Prelude.{
  ℕ, zero, suc, ◌+◌, ◌-◌, String, Bool, true, false, not, List, [], ◌∷◌, ◌++◌, Option, none, some,
  Dict, lookup, insert, contains, length, ◌==◌, ◌&&◌, ℤ, pos, negsuc, pred, ◌+ℤ◌, is_zero,
  if◌then◌else◌, HasEq,
}
use emissary.Results.{
  Result, ok, raised, value_error, assertion_error, key_error, out_of_fuel, ◌>>=◌,
}

pub record Vertex {ℓ} (V : Type ℓ) : Type ℓ where
  pub out : List V
  pub in_count : ℕ

-- What an instance provides and wants.
pub record DependencyInjector {ℓ} (V : Type ℓ) : Type ℓ where
  pub wants : List V
  pub provides : List V

abbrev pub or_new {ℓ} : {V : Type ℓ} → Option (Vertex V) → Vertex V
or_new none = record { out = []; in_count = 0 }
or_new (some v) = v

module _ {ℓ} {V : Type ℓ} ⦃e : HasEq V⦄ where
  -- `self.vertices[a]`, of a `defaultdict`
  unfoldable pub vertex : V → Dict V (Vertex V) → Vertex V
  vertex a g = or_new (lookup a g)

  -- `self.vertices[a].out.add(b)`
  abbrev pub add_out : V → V → Dict V (Vertex V) → Dict V (Vertex V)
  add_out a b g = let v = vertex a g in insert a (record v { out = v.out ++ b ∷ [] }) g

  -- `self.vertices[b].in_count += 1`
  abbrev pub add_in : V → Dict V (Vertex V) → Dict V (Vertex V)
  add_in b g = let v = vertex b g in insert b (record v { in_count = v.in_count + 1 }) g

  -- Reading `self.vertices[a]` puts `a` into the graph.
  unfoldable pub connect : V → V → Dict V (Vertex V) → Dict V (Vertex V)
  connect a b g =
      if contains (vertex a g).out b then insert a (vertex a g) g else add_in b (add_out a b g)

  pub in_counts_of : Dict V (Vertex V) → Dict V ℤ
  in_counts_of [] = []
  in_counts_of ((a, v) ∷ g) = (a, pos v.in_count) ∷ in_counts_of g

  pub roots : Dict V ℤ → List V
  roots [] = []
  roots ((a, n) ∷ counts) = let rest = roots counts in if is_zero n then a ∷ rest else rest

  -- `for obj in self.vertices[cur].out:`
  pub discount : List V → Dict V ℤ → List V → Result (Dict V ℤ × List V)
  discount [] counts queue = ok (counts, queue)
  discount (b ∷ rest) counts queue = elim (lookup b counts) [
    | none ↦ raised key_error
    | some n ↦
        discount rest (insert b (pred n) counts)
          (if is_zero (pred n) then queue ++ b ∷ [] else queue)
  ]

  -- `while len(queue) > 0:`, with fuel; the result is what is yielded and the counts at the end.
  pub kahn : ℕ → Dict V (Vertex V) → List V → Dict V ℤ → Result (List V × Dict V ℤ)
  kahn fuel g [] counts = ok ([], counts)
  kahn zero g (cur ∷ queue) counts = raised out_of_fuel
  kahn (suc fuel) g (cur ∷ queue) counts = do
    (counts', queue') ← discount (vertex cur g).out counts queue
    (order, final) ← kahn fuel g queue' counts'
    ok (cur ∷ order, final)

  pub sum_counts : Dict V ℤ → ℤ
  sum_counts [] = pos 0
  sum_counts ((_, n) ∷ counts) = n +ℤ sum_counts counts

  pub check_end : List V × Dict V ℤ → Result (List V)
  check_end (order, final) = if is_zero (sum_counts final) then ok order else raised assertion_error

  pub from_roots : Dict V (Vertex V) → List V → Result (List V)
  from_roots g [] = raised value_error
  from_roots g (root ∷ rest) = do
    visited ← kahn (length g) g (root ∷ rest) (in_counts_of g)
    check_end visited

  unfoldable pub traverse : Dict V (Vertex V) → Result (List V)
  traverse [] = ok []
  traverse (entry ∷ g) = from_roots (entry ∷ g) (roots (in_counts_of (entry ∷ g)))

  pub connect_provides : V → List V → Dict V (Vertex V) → Dict V (Vertex V)
  connect_provides obj [] g = g
  connect_provides obj (cls ∷ rest) g = connect_provides obj rest (connect obj cls g)

  pub connect_wants : V → List V → Dict V (Vertex V) → Dict V (Vertex V)
  connect_wants obj [] g = g
  connect_wants obj (cls ∷ rest) g = connect_wants obj rest (connect cls obj g)

  -- `for obj, injector in self.injectors.items():`, from the graph so far
  unfoldable pub graph_of : Dict V (DependencyInjector V) → Dict V (Vertex V) → Dict V (Vertex V)
  graph_of [] g = g
  graph_of ((obj, injector) ∷ rest) g =
      graph_of rest (connect_wants obj injector.wants (connect_provides obj injector.provides g))

  -- The `watt_key()` of what the traversal yields, where it is a dependency.
  pub keys_of : Dict V String → List V → List String
  keys_of deps [] = []
  keys_of deps (obj ∷ rest) =
      let keys = keys_of deps rest in elim (lookup obj deps) [ none ↦ keys | some key ↦ key ∷ keys ]

  unfoldable pub sorted_watt_keys :
      Dict V String → Dict V (DependencyInjector V) → Result (List String)
  sorted_watt_keys deps injectors = do
    order ← traverse (graph_of injectors [])
    ok (keys_of deps order)
