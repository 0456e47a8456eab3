-- ===== src/Matching/Selectors.antt =====
-- Label selectors, against what they are meant to select.
use emissary.Prelude.{
  String, true, false, [], ◌∷◌, some, lookup, ◌≡◌, ◌≢◌, refl, ◌↔◌, ◌⊎◌, inl, inr, sym, Memᴰ, arith,
  string_eq, eq_iff, Bool-cases, Option-cases,
}
use mathlib.Core.Path.{subst}
use mathlib.Core.List.Memᴰ.{head, tail, cases_cons, not-nil}
use emissary.Matching.{Labels, has_label, matches_all, matches_any, selector_matches}

has_label_iff :
    (labels : Labels) (k v : String) → (has_label labels (k, v) ≡ true) ↔ (lookup k labels ≡ some v)
has_label_iff labels k v = elim (Option-cases (lookup k labels)) [
  | inl missing ↦ rw missing (ground arith)
  | inr (w, found) ↦ rw found (ground (arith, eq_iff w v))
]

matches_all_iff :
    (labels match : Labels)
    → (matches_all labels match ≡ true)
      ↔ ((k v : String) → Memᴰ (k, v) match → lookup k labels ≡ some v)
unfolding matches_all
matches_all_iff labels [] = (λ _ k v m. absurd (not-nil m), λ _. refl)
matches_all_iff labels ((k, v) ∷ rest) =
    let others = matches_all_iff labels rest in
    (
      λ h k' v' m. elim (cases_cons m) [
        | inl e ↦
            (has_label_iff labels k' v').0
              (subst (λ p. has_label labels p ≡ true) (sym e) (ground arith))
        | inr m' ↦ others.0 (ground arith) k' v' m'
      ],
      λ h.
          rw ((has_label_iff labels k v).1 (h k v (head refl)))
            (others.1 (λ k' v' m. h k' v' (tail m))),
    )

matches_any_iff :
    (labels match : Labels)
    → (matches_any labels match ≡ true)
      ↔ ((k : String) × (v : String) × Memᴰ (k, v) match × (lookup k labels ≡ some v))
unfolding matches_any
matches_any_iff labels [] = (λ h. cc, λ (k, v, m, _). absurd (not-nil m))
matches_any_iff labels ((k, v) ∷ rest) =
    let others = matches_any_iff labels rest in
    (
      λ h. elim (Bool-cases (has_label labels (k, v))) [
        | inl same ↦ (k, v, head refl, (has_label_iff labels k v).0 same)
        | inr differ ↦ let (k', v', m, found) = others.0 (ground arith) in (k', v', tail m, found)
      ],
      λ (k', v', m, found). elim (cases_cons m) [
        | inl e ↦
            rw (subst (λ p. has_label labels p ≡ true) e ((has_label_iff labels k' v').1 found))
        | inr m' ↦ let more = others.1 (k', v', m', found) in ground arith
      ],
    )

none-lookup : (k v : String) → lookup k [] ≢ some v
unfolding lookup
none-lookup k v e = cc

-- A strict selector matches exactly where the labels have every label it asks for; a loose one
-- exactly where it asks for none or the labels have one that it asks for.
pub selector_matches_iff :
    (match labels : Labels)
    → ((selector_matches false match labels ≡ true)
        ↔ ((k v : String) → Memᴰ (k, v) match → lookup k labels ≡ some v))
      × ((selector_matches true match labels ≡ true) ↔ (
          (match ≡ [])
          ⊎ ((k : String) × (v : String) × Memᴰ (k, v) match × (lookup k labels ≡ some v))))
unfolding selector_matches
selector_matches_iff [] labels =
    ((λ _ k v m. absurd (not-nil m), λ _. refl), (λ _. inl refl, λ _. refl))
selector_matches_iff (p ∷ rest) [] = (
  (λ h. cc, λ h. absurd (none-lookup p.0 p.1 (h p.0 p.1 (head refl)))),
  (λ h. cc, λ h. elim h [ inl e ↦ cc | inr (k, v, m, found) ↦ absurd (none-lookup k v found) ]),
)
selector_matches_iff (p ∷ rest) (q ∷ labels) = (
  matches_all_iff (q ∷ labels) (p ∷ rest),
  (
    λ h. inr ((matches_any_iff (q ∷ labels) (p ∷ rest)).0 h),
    λ h. elim h [ inl e ↦ cc | inr found ↦ (matches_any_iff (q ∷ labels) (p ∷ rest)).1 found ],
  ),
)

-- What a strict selector matches, a loose one matches too.
pub selector_matches_loose :
    (match labels : Labels)
    → selector_matches false match labels ≡ true
    → selector_matches true match labels ≡ true
selector_matches_loose [] labels h = (selector_matches_iff [] labels).1.1 (inl refl)
selector_matches_loose ((k, v) ∷ rest) labels h =
    let found = (selector_matches_iff ((k, v) ∷ rest) labels).0.0 h k v (head refl) in
    (selector_matches_iff ((k, v) ∷ rest) labels).1.1 (inr (k, v, head refl, found))
