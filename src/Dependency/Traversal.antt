-- ===== src/Dependency/Traversal.antt =====
-- Kahn's loop takes a step for each vertex at most: a step takes one vertex from the queue, and what
-- comes into it was counted as positive before.
use emissary.Prelude.{
  ℕ, zero, suc, ◌+◌, ◌≤◌, ◌≡◌, ◌≢◌, refl, sym, ◌∙◌, ap, ◌⊎◌, inl, inr, Bool, true, false, List, [],
  ◌∷◌, ◌++◌, Option, some, Dict, lookup, insert, length, length-append, arith, ◌==◌, if◌then◌else◌,
  HasEq, Bool-cases, lookup-here, lookup-there, Option-cases, ℤ, pos, negsuc, pred, is_zero,
}
use emissary.Results.{Error, ok, raised, value_error, assertion_error, key_error, out_of_fuel}
use emissary.Dependency.{
  Vertex, vertex, in_counts_of, roots, discount, kahn, sum_counts, check_end, from_roots, traverse,
}

abbrev pub positive : ℤ → ℕ
positive (pos zero) = 0
positive (pos (suc _)) = 1
positive (negsuc _) = 0

queued : (n : ℤ) → positive n ≡ positive (pred n) + (if is_zero (pred n) then 1 else 0)
queued (pos zero) = refl
queued (pos (suc zero)) = refl
queued (pos (suc (suc n))) = refl
queued (negsuc n) = refl

none-some : {n : ℤ} → Option.none ≡ some n → ⊥
none-some e = cc

pub some-injective : {m n : ℤ} → some m ≡ some n → m ≡ n
some-injective e = cc

module _ {ℓ} {V : Type ℓ} ⦃e : HasEq V⦄ where
  pub positives : Dict V ℤ → ℕ
  positives [] = 0
  positives ((_, n) ∷ counts) = positive n + positives counts

  positives-insert :
      (b : V) (n n' : ℤ) (counts : Dict V ℤ)
      → lookup b counts ≡ some n
      → positives (insert b n' counts) + positive n ≡ positives counts + positive n'
  unfolding positives insert
  positives-insert b n n' [] found = absurd (unfold lookup in none-some found)
  positives-insert b n n' ((k, m) ∷ counts) found = elim (Bool-cases (k == b)) [
    | inl same ↦
        let m≡n : m ≡ n = some-injective (sym (lookup-here b k m counts same) ∙ found) in
        rw same (omega (arith, ap positive m≡n))
    | inr other ↦ rw other (
        omega
          (arith, positives-insert b n n' counts (sym (lookup-there b k m counts other) ∙ found)))
  ]

  length-enqueue :
      (b : Bool) (queue : List V) (a : V)
      → length (if b then queue ++ a ∷ [] else queue) ≡ length queue + (if b then 1 else 0)
  length-enqueue true queue a = length-append queue (a ∷ [])
  length-enqueue false queue a = omega arith

  discount-cases :
      (bs : List V) (counts : Dict V ℤ) (queue : List V)
      → ((counts' : Dict V ℤ) × (queue' : List V) × (discount bs counts queue
            ≡ ok (counts', queue'))
          × (length queue' + positives counts' ≡ length queue + positives counts))
        ⊎ (discount bs counts queue ≡ raised key_error)
  unfolding discount
  discount-cases [] counts queue = inl (counts, queue, refl, refl)
  discount-cases (b ∷ rest) counts queue = elim (Option-cases (lookup b counts)) [
    | inl missing ↦ inr (rw (missing, discount))
    | inr (n, found) ↦
        elim (discount-cases rest (insert b (pred n) counts)
          (if is_zero (pred n) then queue ++ b ∷ [] else queue)) [
            | inl (counts', queue', ran, sum) ↦ inl (
              counts',
              queue',
              rw (found, discount) ran,
              omega (
                arith,
                sum,
                length-enqueue (is_zero (pred n)) queue b,
                positives-insert b n (pred n) counts found,
                queued n,
              ),
            )
            | inr failed ↦ inr (rw (found, discount) failed)
          ]
  ]

  pub kahn-cases :
      (fuel : ℕ) (g : Dict V (Vertex V)) (queue : List V) (counts : Dict V ℤ)
      → length queue + positives counts ≤ fuel
      → ((order : List V) × (final : Dict V ℤ) × (kahn fuel g queue counts ≡ ok (order, final))
          × (length order + positives final ≡ length queue + positives counts))
        ⊎ (kahn fuel g queue counts ≡ raised key_error)
  unfolding kahn
  kahn-cases fuel g [] counts h = inl ([], counts, refl, refl)
  kahn-cases zero g (cur ∷ queue) counts h = absurd (omega (arith, h))
  kahn-cases (suc fuel) g (cur ∷ queue) counts h =
      elim (discount-cases (vertex cur g).out counts queue) [
        | inl (counts', queue', ran, sum) ↦
            elim (kahn-cases fuel g queue' counts' (omega (arith, sum, h))) [
              | inl (order, final, ran', sum') ↦
                  inl (cur ∷ order, final, rw ran (rw ran'), omega (arith, sum, sum'))
              | inr failed ↦ inr (rw ran (rw failed))
            ]
        | inr failed ↦ inr (rw failed)
      ]

  root_or_positive :
      (n : ℕ) (a : V) (rest : List V)
      → length (if is_zero (pos n) then a ∷ rest else rest) + positive (pos n) ≡ suc (length rest)
  root_or_positive zero a rest = omega arith
  root_or_positive (suc n) a rest = omega arith

  pub roots-positives :
      (g : Dict V (Vertex V))
      → length (roots (in_counts_of g)) + positives (in_counts_of g) ≡ length g
  unfolding roots in_counts_of positives
  roots-positives [] = refl
  roots-positives ((a, v) ∷ g) =
      omega (arith, root_or_positive v.in_count a (roots (in_counts_of g)), roots-positives g)

  check_end-cases :
      (order : List V) (final : Dict V ℤ)
      → (check_end (order, final) ≡ ok order) ⊎ (check_end (order, final) ≡ raised assertion_error)
  unfolding check_end
  check_end-cases order final = elim (Bool-cases (is_zero (sum_counts final))) [
    | inl same ↦ inl (rw same)
    | inr other ↦ inr (rw other)
  ]

  from_roots-cases :
      (g : Dict V (Vertex V)) (start : List V)
      → length start + positives (in_counts_of g) ≤ length g
      → ((order : List V) × (from_roots g start ≡ ok order) × (length order ≤ length g))
        ⊎ ((error : Error) × (from_roots g start ≡ raised error) × (error ≢ out_of_fuel))
  unfolding from_roots
  from_roots-cases g [] h = inr (value_error, refl, λ same. cc)
  from_roots-cases g (root ∷ rest) h =
      elim (kahn-cases (length g) g (root ∷ rest) (in_counts_of g) h) [
        | inl (order, final, ran, sum) ↦ elim (check_end-cases order final) [
          | inl right ↦ inl (order, rw ran right, omega (arith, sum, h))
          | inr wrong ↦ inr (assertion_error, rw ran wrong, λ same. cc)
        ]
        | inr failed ↦ inr (key_error, rw failed, λ same. cc)
      ]

  -- For every graph the traversal ends: it gives an order of at most as many vertices as the graph
  -- has, or raises one of the errors of the source; it never runs out of the fuel of one step for
  -- each vertex.
  pub traverse_total :
      (g : Dict V (Vertex V))
      → ((order : List V) × (traverse g ≡ ok order) × (length order ≤ length g))
        ⊎ ((error : Error) × (traverse g ≡ raised error) × (error ≢ out_of_fuel))
  unfolding traverse
  traverse_total [] = inl ([], refl, omega arith)
  traverse_total (entry ∷ g) =
      from_roots-cases (entry ∷ g) (roots (in_counts_of (entry ∷ g)))
        (omega (arith, roots-positives (entry ∷ g)))
