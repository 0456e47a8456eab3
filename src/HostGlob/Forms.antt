-- ===== src/HostGlob/Forms.antt =====
-- The four forms of a glob, and a common hostname for each pair of forms that can have one.
use emissary.Prelude.{
  ℕ, Bool, true, false, List, [], ◌∷◌, ◌++◌, ◌≡◌, refl, sym, ◌∙◌, length, length-append, leb, ◌&&◌,
  arith, ◌⊎◌,
}
use emissary.HostGlob.{star, wildcards, matches_start, matches_end}
use emissary.HostGlob.Text.{
  tail, drop_last, starts_with, ends_with, text_eqb, text_eqb_iff, first_is, last_is, length-tail,
  length-drop_last, length-ends_with, length-starts_with, ends_with-append, starts_with-append,
  ends_with-append_left, starts_with-append_right,
}
use emissary.HostGlob.Semantics.{glob_matches}
use emissary.HostGlob.Compare.{start_literal, end_literal, start_both, end_both}

-- The four forms of a glob.
abbrev pub IsAny : List ℕ → Type 0
IsAny g = text_eqb g star ≡ true

abbrev pub IsLeading : List ℕ → Type 0
IsLeading g = (text_eqb g star ≡ false) × (first_is b'*' g ≡ true)

abbrev pub IsTrailing : List ℕ → Type 0
IsTrailing g = (text_eqb g star ≡ false) × (first_is b'*' g ≡ false) × (last_is b'*' g ≡ true)

abbrev pub IsLiteral : List ℕ → Type 0
IsLiteral g = (text_eqb g star ≡ false) × (first_is b'*' g ≡ false) × (last_is b'*' g ≡ false)

pub shapes : (g : List ℕ) → IsAny g ⊎ (IsLeading g ⊎ (IsTrailing g ⊎ IsLiteral g))
shapes g = ground arith

pub matches-any : (g h : List ℕ) → IsAny g → glob_matches g h ≡ true
unfolding glob_matches
matches-any g h a = rw a

pub matches-leading :
    (g h : List ℕ)
    → IsLeading g
    → glob_matches g h ≡ (leb (length g) (length h) && ends_with (tail g) h)
unfolding glob_matches
matches-leading g h a = rw (a.0, a.1)

pub matches-trailing :
    (g h : List ℕ)
    → IsTrailing g
    → glob_matches g h ≡ (leb (length g) (length h) && starts_with (drop_last g) h)
unfolding glob_matches
matches-trailing g h a = rw (a.0, a.1, a.2)

pub matches-literal : (g h : List ℕ) → IsLiteral g → glob_matches g h ≡ text_eqb g h
unfolding glob_matches
matches-literal g h a = rw (a.0, a.1, a.2)

abbrev pub wild : List ℕ → List ℕ → Bool
wild g1 g2 =
    wildcards g1 g2 (first_is b'*' g1) (last_is b'*' g1) (first_is b'*' g2) (last_is b'*' g2)

pub text_eqb_comm : (s t : List ℕ) → text_eqb s t ≡ text_eqb t s
text_eqb_comm s t = ground (arith, text_eqb_iff s t, text_eqb_iff t s)

-- The wildcard comparison does not depend on the order of the globs.
pub wild_comm : (g1 g2 : List ℕ) → wild g1 g2 ≡ wild g2 g1
unfolding wildcards
wild_comm g1 g2 =
    ground (
      arith,
      text_eqb_comm g1 g2,
      start_both g1 g2,
      start_both g2 g1,
      end_both g1 g2,
      end_both g2 g1,
    )

-- A hostname that both globs match.
abbrev pub Common : List ℕ → List ℕ → Type 0
Common g1 g2 = (h : List ℕ) × (glob_matches g1 h ≡ true) × (glob_matches g2 h ≡ true)

pub swap : (g1 g2 : List ℕ) → Common g1 g2 → Common g2 g1
swap g1 g2 (h, m1, m2) = (h, m2, m1)

pub leading_leading :
    (g1 g2 : List ℕ)
    → IsLeading g1
    → IsLeading g2
    → ends_with (tail g1) (tail g2) ≡ true
    → Common g1 g2
leading_leading g1 g2 a b e = (
  b'a' ∷ tail g2,
  ground (
    arith,
    matches-leading g1 (b'a' ∷ tail g2) a,
    length-tail b'*' g1 a.1,
    length-ends_with (tail g1) (tail g2) e,
    ends_with-append_left (tail g1) (tail g2) (b'a' ∷ []) e,
  ),
  ground (
    arith,
    matches-leading g2 (b'a' ∷ tail g2) b,
    length-tail b'*' g2 b.1,
    ends_with-append (b'a' ∷ []) (tail g2),
  ),
)

pub trailing_trailing :
    (g1 g2 : List ℕ)
    → IsTrailing g1
    → IsTrailing g2
    → starts_with (drop_last g1) (drop_last g2) ≡ true
    → Common g1 g2
trailing_trailing g1 g2 a b e = (
  drop_last g2 ++ b'a' ∷ [],
  ground (
    arith,
    matches-trailing g1 (drop_last g2 ++ b'a' ∷ []) a,
    length-drop_last b'*' g1 a.2,
    length-append (drop_last g2) (b'a' ∷ []),
    length-starts_with (drop_last g1) (drop_last g2) e,
    starts_with-append_right (drop_last g1) (drop_last g2) (b'a' ∷ []) e,
  ),
  ground (
    arith,
    matches-trailing g2 (drop_last g2 ++ b'a' ∷ []) b,
    length-drop_last b'*' g2 b.2,
    length-append (drop_last g2) (b'a' ∷ []),
    starts_with-append (drop_last g2) (b'a' ∷ []),
  ),
)

pub leading_trailing : (g1 g2 : List ℕ) → IsLeading g1 → IsTrailing g2 → Common g1 g2
leading_trailing g1 g2 a b =
    let h = drop_last g2 ++ b'a' ∷ tail g1 in
    (
      h,
      ground (
        arith,
        matches-leading g1 h a,
        length-tail b'*' g1 a.1,
        length-append (drop_last g2) (b'a' ∷ tail g1),
        ends_with-append_left (tail g1) (b'a' ∷ tail g1) (drop_last g2)
            (ends_with-append (b'a' ∷ []) (tail g1)),
      ),
      ground (
        arith,
        matches-trailing g2 h b,
        length-drop_last b'*' g2 b.2,
        length-append (drop_last g2) (b'a' ∷ tail g1),
        starts_with-append (drop_last g2) (b'a' ∷ tail g1),
      ),
    )

pub leading_literal :
    (g1 g2 : List ℕ) → IsLeading g1 → IsLiteral g2 → matches_start g1 g2 false ≡ true → Common g1 g2
leading_literal g1 g2 a b e = (
  g2,
  matches-leading g1 g2 a ∙ sym (start_literal g1 g2) ∙ e,
  matches-literal g2 g2 b ∙ (text_eqb_iff g2 g2).1 refl,
)

pub trailing_literal :
    (g1 g2 : List ℕ) → IsTrailing g1 → IsLiteral g2 → matches_end g1 g2 false ≡ true → Common g1 g2
trailing_literal g1 g2 a b e = (
  g2,
  matches-trailing g1 g2 a ∙ sym (end_literal g1 g2) ∙ e,
  matches-literal g2 g2 b ∙ (text_eqb_iff g2 g2).1 refl,
)
