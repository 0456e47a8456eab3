-- ===== src/Dependency/Steps.antt =====
-- What a step of Kahn's loop keeps: the vertices that were yielded or wait in the queue are those whose
-- count is used up, and a count tells how many edges from vertices not yielded are left.
use emissary.Prelude.{
  ℕ, zero, suc, ◌+◌, ◌≡◌, ◌↔◌, refl, sym, ◌∙◌, ap, ◌⊎◌, inl, inr, true, false, List, [], ◌∷◌, ◌++◌,
  some, Dict, lookup, insert, contains, contains-append, is_set, keys, keys-insert, contains-keys,
  arith, ◌==◌, if◌then◌else◌, HasEq, lookup-insert, Bool-cases, Option-cases, ℤ, pos, negsuc, pred,
  is_zero, pos_part, neg_part, pred_parts,
}
use mathlib.Core.List.{append_assoc}
use mathlib.Core.Path.{subst}
use emissary.Results.{Fails, ok, key_error}
use emissary.Dependency.{discount}
use emissary.Dependency.Traversal.{positive, some-injective}

pred-positive : (n : ℤ) → positive n ≡ 0 → (positive (pred n) ≡ 0) × (is_zero (pred n) ≡ false)
pred-positive (pos zero) h = (refl, refl)
pred-positive (pos (suc n)) h = absurd (omega arith)
pred-positive (negsuc n) h = (refl, refl)

pred_zero : (n : ℤ) → is_zero (pred n) ≡ true → positive (pred n) ≡ 0
pred_zero (pos zero) h = refl
pred_zero (pos (suc zero)) h = refl
pred_zero (pos (suc (suc n))) h = absurd cc
pred_zero (negsuc n) h = refl

pred_left : (n : ℤ) → is_zero (pred n) ≡ false → positive (pred n) ≡ positive n
pred_left (pos zero) h = refl
pred_left (pos (suc zero)) h = absurd cc
pred_left (pos (suc (suc n))) h = refl
pred_left (negsuc n) h = refl

module _ {ℓ} {V : Type ℓ} ⦃e : HasEq V⦄ where
  -- `seen` are the vertices yielded and those in the queue.
  pub record Frontier (seen : List V) (counts : Dict V ℤ) : Type ℓ where
    pub distinct : is_set seen ≡ true
    pub spent :
        (x : V) (n : ℤ) → lookup x counts ≡ some n → (positive n ≡ 0) ↔ (contains seen x ≡ true)
    pub known : (x : V) → contains seen x ≡ true → contains (keys counts) x ≡ true

  -- `k` of the `d` edges to `b` are used up.
  abbrev pub Left : ℕ → V → Dict V ℤ → ℕ → Type 0
  Left d b counts k = (n : ℤ) → lookup b counts ≡ some n → pos_part n + k ≡ neg_part n + d

  pub is_set-append :
      (seen : List V) (b : V)
      → is_set seen ≡ true
      → contains seen b ≡ false
      → is_set (seen ++ b ∷ []) ≡ true
  is_set-append [] b h new = refl
  is_set-append (c ∷ seen) b h new = ground (
    arith,
    is_set-append seen b,
    contains-append seen (b ∷ []) c,
    h,
    new,
    e.eqb_iff b c,
    e.eqb_iff c b,
  )

  lookup-insert_cases :
      (b x : V) (w m : ℤ) (counts : Dict V ℤ)
      → lookup x (insert b w counts) ≡ some m
      → ((b ≡ x) × (m ≡ w)) ⊎ (((x == b) ≡ false) × (lookup x counts ≡ some m))
  lookup-insert_cases b x w m counts at = elim (Bool-cases (b == x)) [
    | inl same ↦ inl (
      (e.eqb_iff b x).0 same,
      sym (some-injective (sym (if_true same) ∙ sym (lookup-insert b x w counts) ∙ at)),
    )
    | inr other ↦ inr (
      ground (arith, other, e.eqb_iff b x, e.eqb_iff x b),
      sym (if_false other) ∙ sym (lookup-insert b x w counts) ∙ at,
    )
  ]
    where
      if_true : (b == x) ≡ true → (if b == x then some w else lookup x counts) ≡ some w
      if_true h = rw h

      if_false : (b == x) ≡ false → (if b == x then some w else lookup x counts) ≡ lookup x counts
      if_false h = rw h

  module _ (seen : List V) (counts : Dict V ℤ) (b : V) (n : ℤ)
      (found : lookup b counts ≡ some n) where
    fresh : Frontier seen counts → is_zero (pred n) ≡ true → contains seen b ≡ false
    fresh f used_up = elim (Bool-cases (contains seen b)) [
      | inl there ↦ let late = (pred-positive n ((f.spent b n found).1 there)).1 in absurd cc
      | inr new ↦ new
    ]

    known-insert :
        (x : V)
        → contains (keys counts) x ≡ true
        → contains (keys (insert b (pred n) counts)) x ≡ true
    known-insert x there = rw (keys-insert b (pred n) n counts found) there

    -- One count goes down, to 0.
    used_up :
        is_zero (pred n) ≡ true
        → Frontier seen counts
        → Frontier (seen ++ b ∷ []) (insert b (pred n) counts)
    used_up done f = record {
      distinct = is_set-append seen b f.distinct (fresh f done);
      spent = λ x m at. elim (lookup-insert_cases b x (pred n) m counts at) [
        | inl (same, last) ↦ (
          λ _. rw (contains-append seen (b ∷ []) x) (ground (arith, (e.eqb_iff x b).1 (sym same))),
          λ _. ap positive last ∙ pred_zero n done,
        )
        | inr (other, before) ↦
            rw (contains-append seen (b ∷ []) x) (rw other (ground (arith, f.spent x m before)))
      ];
      known = λ x there. known-insert x (elim (Bool-cases (x == b)) [
        | inl same ↦
            subst (λ v. contains (keys counts) v ≡ true) (sym ((e.eqb_iff x b).0 same))
              (contains-keys b n counts found)
        | inr other ↦ f.known x (ground (arith, contains-append seen (b ∷ []) x, other, there))
      ]);
    }

    -- One count goes down, and not to 0.
    left_over :
        is_zero (pred n) ≡ false → Frontier seen counts → Frontier seen (insert b (pred n) counts)
    left_over more f = record {
      distinct = f.distinct;
      spent = λ x m at. elim (lookup-insert_cases b x (pred n) m counts at) [
        | inl (same, last) ↦
            let kept : positive m ≡ positive n = ap positive last ∙ pred_left n more in
            (
              λ none_left.
                  subst (λ v. contains seen v ≡ true) same
                    ((f.spent b n found).0 (sym kept ∙ none_left)),
              λ there.
                  kept
                  ∙ (f.spent b n found).1 (subst (λ v. contains seen v ≡ true) (sym same) there),
            )
        | inr (other, before) ↦ f.spent x m before
      ];
      known = λ x there. known-insert x (f.known x there);
    }

    Left-count_down :
        (d k : ℕ) (c : V)
        → Left d c counts k
        → Left d c (insert b (pred n) counts) (k + (if c == b then 1 else 0))
    Left-count_down d k c h m at = elim (lookup-insert_cases b c (pred n) m counts at) [
      | inl (same, last) ↦ rw ((e.eqb_iff c b).1 (sym same)) (
          omega (
            arith,
            h n (subst (λ v. lookup v counts ≡ some n) same found),
            pred_parts n,
            ap pos_part last,
            ap neg_part last,
          ))
      | inr (other, before) ↦ rw other (omega (arith, h m before))
    ]

  once :
      (b c : V) (rest : List V)
      → is_set (b ∷ rest) ≡ true
      → (if c == b then 1 else 0) + (if contains rest c then 1 else 0)
        ≡ (if contains (b ∷ rest) c then 1 else 0)
  once b c rest set = elim (Bool-cases (c == b)) [
    | inl same ↦
        let gone : contains rest c ≡ false =
          subst (λ v. contains rest v ≡ false) (sym ((e.eqb_iff c b).0 same))
            (ground (arith, set)) in
        rw same (rw gone refl)
    | inr other ↦ rw other (omega arith)
  ]

  -- What a run of the inner loop over the vertices `bs` gives.
  pub record Discounted (bs yielded queue : List V) (counts counts' : Dict V ℤ) (queue' : List V)
      : Type ℓ where
    pub run : discount bs counts queue ≡ ok (counts', queue')
    pub frontier : Frontier (yielded ++ queue') counts'
    pub same_keys : keys counts' ≡ keys counts
    pub left :
        (d k : ℕ) (c : V)
        → Left d c counts k
        → Left d c counts' (k + (if contains bs c then 1 else 0))

  pub discount-Discounted :
      (bs yielded queue : List V) (counts : Dict V ℤ)
      → is_set bs ≡ true
      → Frontier (yielded ++ queue) counts
      → ((counts' : Dict V ℤ) × (queue' : List V) × Discounted bs yielded queue counts counts'
            queue')
        ⊎ Fails (discount bs counts queue)
  unfolding discount
  discount-Discounted [] yielded queue counts set f = inl (
    counts,
    queue,
    record {
      run = refl;
      frontier = f;
      same_keys = refl;
      left = λ d k c h n at. omega (arith, h n at);
    },
  )
  discount-Discounted (b ∷ rest) yielded queue counts set f =
      elim (Option-cases (lookup b counts)) [
        | inl missing ↦ inr (key_error, rw (missing, discount))
        | inr (n, found) ↦
            let counts₁ = insert b (pred n) counts in
            let queue₁ = (if is_zero (pred n) then queue ++ b ∷ [] else queue) in
            let f₁ : Frontier (yielded ++ queue₁) counts₁ = elim (Bool-cases (is_zero (pred n))) [
              | inl done ↦ rw done (
                  subst (λ seen. Frontier seen counts₁) (append_assoc yielded queue (b ∷ []))
                    (used_up (yielded ++ queue) counts b n found done f))
              | inr more ↦ rw more (left_over (yielded ++ queue) counts b n found more f)
            ] in
            elim (discount-Discounted rest yielded queue₁ counts₁ (ground (arith, set)) f₁) [
              | inl (counts', queue', r) ↦ inl (
                counts',
                queue',
                record {
                  run = rw (found, discount) r.run;
                  frontier = r.frontier;
                  same_keys = r.same_keys ∙ keys-insert b (pred n) n counts found;
                  left = λ d k c h m at. omega (
                    arith,
                    r.left d (k + (if c == b then 1 else 0)) c
                        (Left-count_down (yielded ++ queue) counts b n found d k c h) m at,
                    once b c rest set,
                  );
                },
              )
              | inr (error, failed) ↦ inr (error, rw (found, discount) failed)
            ]
      ]
