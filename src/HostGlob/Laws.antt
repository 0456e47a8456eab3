-- ===== src/HostGlob/Laws.antt =====
-- `hostglob_matches` decides whether some hostname matches both globs.
use emissary.Prelude.{
  ℕ, Bool, true, false, not, List, [], ◌∷◌, ◌≡◌, ◌≢◌, refl, sym, ◌∙◌, nat_eqb, ◌&&◌, ◌||◌, arith,
  Bool-cases, inl, inr, ◌⊎◌,
}
use emissary.Results.{ok, ◌>>=◌, >>=-eq-ok}
use emissary.HostGlob.{star, wildcards, bare_dot, matches_start, matches_end, hostglob_matches}
use emissary.HostGlob.Text.{
  tail, drop_last, starts_with, ends_with, text_eqb, text_eqb_iff, first, last_is,
  ends_with-shorter, starts_with-shorter,
}
use emissary.HostGlob.Semantics.{glob_matches, is_glob, fill, glob_matches-fill}
use emissary.HostGlob.Compare.{start_literal, end_literal, start_both, end_both}
use emissary.HostGlob.Forms.{
  IsAny, IsLeading, IsTrailing, IsLiteral, shapes, matches-any, matches-leading, matches-trailing,
  matches-literal, wild, text_eqb_comm, wild_comm, Common, swap, leading_leading, trailing_trailing,
  leading_trailing, leading_literal, trailing_literal,
}

Common-any : (g1 g2 : List ℕ) → IsAny g1 → Common g1 g2
Common-any g1 g2 a = (fill g2, matches-any g1 (fill g2) a, glob_matches-fill g2)

module _ (g1 g2 : List ℕ) (differ : text_eqb g1 g2 ≡ false) (h : wild g1 g2 ≡ true) where
  Common-leading : IsLeading g1 → IsLeading g2 → Common g1 g2
  unfolding wildcards
  Common-leading a b = elim (Bool-cases (ends_with (tail g1) (tail g2))) [
    | inl e ↦ leading_leading g1 g2 a b e
    | inr n ↦ swap g2 g1 (leading_leading g2 g1 b a (ground (arith, start_both g1 g2 a.1 b.1)))
  ]

  Common-trailing : IsTrailing g1 → IsTrailing g2 → Common g1 g2
  unfolding wildcards
  Common-trailing a b = elim (Bool-cases (starts_with (drop_last g1) (drop_last g2))) [
    | inl e ↦ trailing_trailing g1 g2 a b e
    | inr n ↦ swap g2 g1 (trailing_trailing g2 g1 b a (ground (arith, end_both g1 g2 a.2 b.2)))
  ]

  Common-literal : IsLeading g1 ⊎ IsTrailing g1 → IsLiteral g2 → Common g1 g2
  unfolding wildcards
  Common-literal (inl a) b = leading_literal g1 g2 a b (ground arith)
  Common-literal (inr a) b = trailing_literal g1 g2 a b (ground arith)

no_wild :
    (g1 g2 : List ℕ) → text_eqb g1 g2 ≡ false → wild g1 g2 ≡ true → IsLiteral g1 → IsLiteral g2 → ⊥
unfolding wildcards
no_wild g1 g2 d h a b = ground arith

Common-wild : (g1 g2 : List ℕ) → text_eqb g1 g2 ≡ false → wild g1 g2 ≡ true → Common g1 g2
Common-wild g1 g2 d h = go (shapes g1) (shapes g2)
  where
    back : wild g2 g1 ≡ true
    back = wild_comm g2 g1 ∙ h

    d' : text_eqb g2 g1 ≡ false
    d' = text_eqb_comm g2 g1 ∙ d

    go :
        IsAny g1 ⊎ (IsLeading g1 ⊎ (IsTrailing g1 ⊎ IsLiteral g1))
        → IsAny g2 ⊎ (IsLeading g2 ⊎ (IsTrailing g2 ⊎ IsLiteral g2))
        → Common g1 g2
    go (inl a) b = Common-any g1 g2 a
    go (inr a) (inl b) = swap g2 g1 (Common-any g2 g1 b)
    go (inr (inl a)) (inr (inl b)) = Common-leading g1 g2 d h a b
    go (inr (inl a)) (inr (inr (inl b))) = leading_trailing g1 g2 a b
    go (inr (inl a)) (inr (inr (inr b))) = Common-literal g1 g2 d h (inl a) b
    go (inr (inr (inl a))) (inr (inl b)) = swap g2 g1 (leading_trailing g2 g1 b a)
    go (inr (inr (inl a))) (inr (inr (inl b))) = Common-trailing g1 g2 d h a b
    go (inr (inr (inl a))) (inr (inr (inr b))) = Common-literal g1 g2 d h (inr a) b
    go (inr (inr (inr a))) (inr (inl b)) = swap g2 g1 (Common-literal g2 g1 d' back (inl b) a)
    go (inr (inr (inr a))) (inr (inr (inl b))) = swap g2 g1 (Common-literal g2 g1 d' back (inr b) a)
    go (inr (inr (inr a))) (inr (inr (inr b))) = absurd (no_wild g1 g2 d h a b)

-- The result when no special case applies.
hostglob_matches-wild :
    (g1 g2 : List ℕ)
    → text_eqb g1 g2 ≡ false
    → text_eqb g1 star ≡ false
    → text_eqb g2 star ≡ false
    → hostglob_matches g1 g2 ≡ (bare_dot g1 g2 >>= λ dot. ok (not dot && wild g1 g2))
unfolding hostglob_matches
hostglob_matches-wild g1 g2 d n1 n2 = rw (d, n1, n2)

-- Whatever the two texts are, where hostglob_matches answers true there is a text that both globs
-- match.
pub hostglob_matches_sound :
    (g1 g2 : List ℕ)
    → hostglob_matches g1 g2 ≡ ok true
    → (host : List ℕ) × (glob_matches g1 host ≡ true) × (glob_matches g2 host ≡ true)
hostglob_matches_sound g1 g2 h = elim (Bool-cases (text_eqb g1 g2)) [
  | inl same ↦
      rw (← (text_eqb_iff g1 g2).0 same) (fill g1, glob_matches-fill g1, glob_matches-fill g1)
  | inr d ↦ elim (Bool-cases (text_eqb g1 star)) [
    | inl a ↦ Common-any g1 g2 a
    | inr n1 ↦ elim (Bool-cases (text_eqb g2 star)) [
      | inl b ↦ swap g2 g1 (Common-any g2 g1 b)
      | inr n2 ↦
          let (dot, _, e) =
            >>=-eq-ok (bare_dot g1 g2) (λ dot. ok (not dot && wild g1 g2))
              (sym (hostglob_matches-wild g1 g2 d n1 n2) ∙ h) in
          Common-wild g1 g2 d (ground arith)
    ]
  ]
]

bare_dot-cons :
    (c d : ℕ) (g1 g2 : List ℕ) → bare_dot (c ∷ g1) (d ∷ g2) ≡ ok (nat_eqb c b'.' || nat_eqb d b'.')
unfolding bare_dot first
bare_dot-cons c d g1 g2 = ground arith

-- Two texts that are not empty are compared with no exception.
pub hostglob_matches_total :
    (g1 g2 : List ℕ) → g1 ≢ [] → g2 ≢ [] → (b : Bool) × (hostglob_matches g1 g2 ≡ ok b)
unfolding hostglob_matches
hostglob_matches_total [] g2 n1 n2 = absurd (n1 refl)
hostglob_matches_total (c ∷ g1) [] n1 n2 = absurd (n2 refl)
hostglob_matches_total (c ∷ g1) (d ∷ g2) n1 n2 = elim (Bool-cases (text_eqb (c ∷ g1) (d ∷ g2))) [
  | inl same ↦ (true, rw same)
  | inr other ↦ elim (Bool-cases (text_eqb (c ∷ g1) star || text_eqb (d ∷ g2) star)) [
    | inl any ↦ (true, rw (other, any))
    | inr rest ↦ (
      not (nat_eqb c b'.' || nat_eqb d b'.') && wild (c ∷ g1) (d ∷ g2),
      rw (other, rest, bare_dot-cons c d g1 g2),
    )
  ]
]

bare_dot-is_glob :
    (g1 g2 : List ℕ)
    → is_glob g1 ≡ true
    → is_glob g2 ≡ true
    → text_eqb g1 star ≡ false
    → text_eqb g2 star ≡ false
    → bare_dot g1 g2 ≡ ok false
unfolding is_glob
bare_dot-is_glob [] g2 w1 w2 n1 n2 = cc
bare_dot-is_glob (c ∷ g1) [] w1 w2 n1 n2 = cc
bare_dot-is_glob (c ∷ g1) (d ∷ g2) w1 w2 n1 n2 = ground (arith, bare_dot-cons c d g1 g2)

one_end : (g : List ℕ) → is_glob g ≡ true → IsLeading g → last_is b'*' g ≡ false
unfolding is_glob
one_end [] w a = cc
one_end (c ∷ g) w a = ground arith

module _ (g1 g2 host : List ℕ) (w1 : is_glob g1 ≡ true) (w2 : is_glob g2 ≡ true)
    (m1 : glob_matches g1 host ≡ true) (m2 : glob_matches g2 host ≡ true) where
  wild-leading : IsLeading g1 → IsLeading g2 → wild g1 g2 ≡ true
  unfolding wildcards
  wild-leading a b = ground (
    arith,
    matches-leading g1 host a,
    matches-leading g2 host b,
    one_end g1 w1 a,
    one_end g2 w2 b,
    start_both g1 g2 a.1 b.1,
    ends_with-shorter (tail g1) (tail g2) host,
    ends_with-shorter (tail g2) (tail g1) host,
  )

  wild-trailing : IsTrailing g1 → IsTrailing g2 → wild g1 g2 ≡ true
  unfolding wildcards
  wild-trailing a b = ground (
    arith,
    matches-trailing g1 host a,
    matches-trailing g2 host b,
    end_both g1 g2 a.2 b.2,
    starts_with-shorter (drop_last g1) (drop_last g2) host,
    starts_with-shorter (drop_last g2) (drop_last g1) host,
  )

  wild-pair : IsLeading g1 → IsTrailing g2 → wild g1 g2 ≡ true
  unfolding wildcards
  wild-pair a b = ground (arith, one_end g1 w1 a)

  wild-leading_literal : IsLeading g1 → IsLiteral g2 → wild g1 g2 ≡ true
  unfolding wildcards
  wild-leading_literal a b =
      let e : g2 ≡ host = ground (arith, matches-literal g2 host b, text_eqb_iff g2 host) in
      let m : matches_start g1 g2 false ≡ true =
        start_literal g1 g2 ∙ sym (matches-leading g1 g2 a) ∙ rw e m1 in
      ground (arith, one_end g1 w1 a)

  wild-trailing_literal : IsTrailing g1 → IsLiteral g2 → wild g1 g2 ≡ true
  unfolding wildcards
  wild-trailing_literal a b =
      let e : g2 ≡ host = ground (arith, matches-literal g2 host b, text_eqb_iff g2 host) in
      let m : matches_end g1 g2 false ≡ true =
        end_literal g1 g2 ∙ sym (matches-trailing g1 g2 a) ∙ rw e m1 in
      ground arith

  same_literal : IsLiteral g1 → IsLiteral g2 → text_eqb g1 g2 ≡ true
  same_literal a b = ground (
    arith,
    matches-literal g1 host a,
    matches-literal g2 host b,
    text_eqb_iff g1 host,
    text_eqb_iff g2 host,
    text_eqb_iff g1 g2,
  )

wild_complete :
    (g1 g2 host : List ℕ)
    → text_eqb g1 g2 ≡ false
    → text_eqb g1 star ≡ false
    → text_eqb g2 star ≡ false
    → is_glob g1 ≡ true
    → is_glob g2 ≡ true
    → glob_matches g1 host ≡ true
    → glob_matches g2 host ≡ true
    → wild g1 g2 ≡ true
wild_complete g1 g2 host d n1 n2 w1 w2 m1 m2 = go (shapes g1) (shapes g2)
  where
    go :
        IsAny g1 ⊎ (IsLeading g1 ⊎ (IsTrailing g1 ⊎ IsLiteral g1))
        → IsAny g2 ⊎ (IsLeading g2 ⊎ (IsTrailing g2 ⊎ IsLiteral g2))
        → wild g1 g2 ≡ true
    go (inl a) b = cc
    go (inr a) (inl b) = cc
    go (inr (inl a)) (inr (inl b)) = wild-leading g1 g2 host w1 w2 m1 m2 a b
    go (inr (inl a)) (inr (inr (inl b))) = wild-pair g1 g2 host w1 w2 m1 m2 a b
    go (inr (inl a)) (inr (inr (inr b))) = wild-leading_literal g1 g2 host w1 w2 m1 m2 a b
    go (inr (inr (inl a))) (inr (inl b)) = wild_comm g1 g2 ∙ wild-pair g2 g1 host w2 w1 m2 m1 b a
    go (inr (inr (inl a))) (inr (inr (inl b))) = wild-trailing g1 g2 host w1 w2 m1 m2 a b
    go (inr (inr (inl a))) (inr (inr (inr b))) = wild-trailing_literal g1 g2 host w1 w2 m1 m2 a b
    go (inr (inr (inr a))) (inr (inl b)) =
        wild_comm g1 g2 ∙ wild-leading_literal g2 g1 host w2 w1 m2 m1 b a
    go (inr (inr (inr a))) (inr (inr (inl b))) =
        wild_comm g1 g2 ∙ wild-trailing_literal g2 g1 host w2 w1 m2 m1 b a
    go (inr (inr (inr a))) (inr (inr (inr b))) =
        let e = same_literal g1 g2 host w1 w2 m1 m2 a b in cc

-- For two globs with one wildcard at most, at an end, and no dot at the beginning, where some text
-- matches both globs hostglob_matches answers true.
pub hostglob_matches_complete :
    (g1 g2 host : List ℕ)
    → is_glob g1 ≡ true
    → is_glob g2 ≡ true
    → glob_matches g1 host ≡ true
    → glob_matches g2 host ≡ true
    → hostglob_matches g1 g2 ≡ ok true
hostglob_matches_complete g1 g2 host w1 w2 m1 m2 = elim (Bool-cases (text_eqb g1 g2)) [
  | inl same ↦ unfold hostglob_matches in rw same
  | inr d ↦ elim (Bool-cases (text_eqb g1 star || text_eqb g2 star)) [
    | inl any ↦ unfold hostglob_matches in rw (d, any)
    | inr rest ↦
        let n1 : text_eqb g1 star ≡ false = ground arith in
        let n2 : text_eqb g2 star ≡ false = ground arith in
        hostglob_matches-wild g1 g2 d n1 n2
        ∙ rw (bare_dot-is_glob g1 g2 w1 w2 n1 n2, wild_complete g1 g2 host d n1 n2 w1 w2 m1 m2)
  ]
]

-- For two texts that are not empty the order does not matter.
pub hostglob_matches_comm :
    (g1 g2 : List ℕ) → g1 ≢ [] → g2 ≢ [] → hostglob_matches g1 g2 ≡ hostglob_matches g2 g1
hostglob_matches_comm [] g2 n1 n2 = absurd (n1 refl)
hostglob_matches_comm (c ∷ g1) [] n1 n2 = absurd (n2 refl)
hostglob_matches_comm (c ∷ g1) (d ∷ g2) n1 n2 = elim (Bool-cases (text_eqb (c ∷ g1) (d ∷ g2))) [
  | inl same ↦ rw ((text_eqb_iff (c ∷ g1) (d ∷ g2)).0 same) refl
  | inr other ↦ elim (Bool-cases (text_eqb (c ∷ g1) star || text_eqb (d ∷ g2) star)) [
    | inl any ↦ unfold hostglob_matches in ground (arith, text_eqb_comm (c ∷ g1) (d ∷ g2))
    | inr rest ↦
        let a : text_eqb (c ∷ g1) star ≡ false = ground arith in
        let b : text_eqb (d ∷ g2) star ≡ false = ground arith in
        rw
          (
            hostglob_matches-wild (c ∷ g1) (d ∷ g2) other a b,
            hostglob_matches-wild (d ∷ g2) (c ∷ g1) (text_eqb_comm (d ∷ g2) (c ∷ g1) ∙ other) b a,
            bare_dot-cons c d g1 g2,
            bare_dot-cons d c g2 g1,
            wild_comm (c ∷ g1) (d ∷ g2),
          )
          (ground arith)
  ]
]
