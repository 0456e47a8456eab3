-- ===== src/RouteGroup/Accepted.antt =====
-- Which mappings a group of mappings takes.
use emissary.Prelude.{
  String, Bool, true, false, not, List, [], ◌∷◌, ◌++◌, none, some, Dict, ◌&&◌, if◌then◌else◌,
  string_eq, HasEq, ◌≡◌, ◌≢◌, refl, sym, ◌∙◌, Bool-cases, inl, inr,
}
use mathlib.Core.List.{append_assoc, append-nil}
use emissary.RouteGroup.{
  RouteMapping, HttpGroup, GroupPost, both_set, post, core_mapping_keys, mismatches, flag,
  drop_redirects, redirect_of, add_shadow, add_redirect, add_plain, place_mapping, add_mapping,
  add_mappings,
}

module _ {ℓ} {V W : Type ℓ} (is_true : V → Bool) (greater : W → W → Bool) where
  -- With mappings in the group and no redirect that counts, only a mapping that is neither a shadow nor a
  -- redirect is put beside them.
  record Placed (plain : Bool) (m : RouteMapping V W) (g g' : HttpGroup V W) : Type ℓ where
    same_fields : g'.fields ≡ g.fields
    no_redirect : redirect_of is_true greater g' ≡ none
    placed : g'.mappings ≡ (if plain then g.mappings ++ m ∷ [] else g.mappings)

  abbrev is_plain : RouteMapping V W → Bool
  is_plain m = not (flag is_true greater "shadow" m) && not (flag is_true greater "host_redirect" m)

  add_shadow-Placed :
      (m n : RouteMapping V W) (g : HttpGroup V W)
      → redirect_of is_true greater g ≡ none
      → Placed false m g (add_shadow is_true greater n g)
  unfolding add_shadow redirect_of
  add_shadow-Placed m n g clear = by_shadows g.shadows
    where
      by_shadows :
          (shadows : List (RouteMapping V W))
          → Placed false m g (elim shadows [
            | [] ↦ record g { shadows = n ∷ [] }
            | first ∷ _ ↦ record g {
              posted = g.posted ++ GroupPost.second_shadow n.name first.name ∷ [];
            }
          ])
      by_shadows [] = record { same_fields = refl; no_redirect = clear; placed = refl }
      by_shadows (first ∷ rest) = record { same_fields = refl; no_redirect = clear; placed = refl }

  add_redirect-Placed :
      (m : RouteMapping V W) (g : HttpGroup V W)
      → redirect_of is_true greater g ≡ none
      → g.mappings ≢ []
      → Placed false m g (add_redirect is_true greater m g)
  unfolding add_redirect
  add_redirect-Placed m g clear taken = rw (clear, add_redirect) (by_mappings g.mappings refl)
    where
      by_mappings :
          (mappings : List (RouteMapping V W))
          → g.mappings ≡ mappings
          → Placed false m g (elim mappings [
            | first ∷ _ ↦ record g {
              posted = g.posted ++ GroupPost.redirect_after_mappings m.name first.name ∷ [];
            }
            | [] ↦ record g { host_redirect = some m }
          ])
      by_mappings [] at = absurd (taken at)
      by_mappings (first ∷ rest) at = record {
        same_fields = refl;
        no_redirect = unfold redirect_of in clear;
        placed = refl;
      }

  add_plain-Placed :
      (m : RouteMapping V W) (g : HttpGroup V W)
      → redirect_of is_true greater g ≡ none
      → Placed true m g (add_plain is_true greater m g)
  unfolding add_plain
  add_plain-Placed m g clear =
      rw (clear, add_plain)
        (record { same_fields = refl; no_redirect = unfold redirect_of in clear; placed = refl })

  place_mapping-Placed :
      (m : RouteMapping V W) (g : HttpGroup V W)
      → redirect_of is_true greater g ≡ none
      → g.mappings ≢ []
      → Placed (is_plain m) m g (place_mapping is_true greater m g)
  unfolding place_mapping
  place_mapping-Placed m g clear taken = elim (Bool-cases (flag is_true greater "shadow" m)) [
    | inl shadow ↦ elim (Bool-cases (flag is_true greater "host_redirect" m)) [
      | inl redirect ↦
          rw (shadow, redirect)
            (posted g (
              add_shadow-Placed m (drop_redirects is_true greater m)
                (post is_true greater (both_set m.name) g) (unfold redirect_of in clear)))
      | inr other ↦ rw (shadow, other) (add_shadow-Placed m m g clear)
    ]
    | inr plain ↦ elim (Bool-cases (flag is_true greater "host_redirect" m)) [
      | inl redirect ↦ rw (plain, redirect) (add_redirect-Placed m g clear taken)
      | inr other ↦ rw (plain, other) (add_plain-Placed m g clear)
    ]
  ]
    where
      posted :
          (g : HttpGroup V W) {g' : HttpGroup V W}
          → Placed false m (post is_true greater (both_set m.name) g) g'
          → Placed false m g g'
      posted g r = record {
        same_fields = r.same_fields;
        no_redirect = r.no_redirect;
        placed = r.placed;
      }

  module _ ⦃e : HasEq V⦄ where
    -- Neither a shadow nor a redirect, and the same as the group under each core key that it has
    abbrev pub accepts : Dict String V → RouteMapping V W → Bool
    accepts fields m = elim (mismatches core_mapping_keys m.fields fields) [
      | [] ↦ is_plain m
      | _ ∷ _ ↦ false
    ]

    abbrev pub accepted : Dict String V → List (RouteMapping V W) → List (RouteMapping V W)
    accepted fields [] = []
    accepted fields (m ∷ ms) =
        let rest = accepted fields ms in if accepts fields m then m ∷ rest else rest

    add_mapping-Placed :
        (m : RouteMapping V W) (g : HttpGroup V W)
        → redirect_of is_true greater g ≡ none
        → g.mappings ≢ []
        → Placed (accepts g.fields m) m g (add_mapping is_true greater m g)
    unfolding add_mapping
    add_mapping-Placed m g clear taken =
        by_mismatches (mismatches core_mapping_keys m.fields g.fields)
      where
        placed' : HttpGroup V W
        placed' = place_mapping is_true greater m g

        by_mismatches :
            (ks : List String)
            → Placed
                (elim ks [ [] ↦ is_plain m | _ ∷ _ ↦ false ])
                m
                g
                (elim ks [
                  | [] ↦ record placed' { references = placed'.references ++ m.name ∷ [] }
                  | k ∷ ks ↦ record g {
                    posted = g.posted ++ GroupPost.mismatched m.name (k ∷ ks) ∷ [];
                  }
                ])
        by_mismatches [] =
            let r = place_mapping-Placed m g clear taken in
            record {
              same_fields = r.same_fields;
              no_redirect = unfold redirect_of in r.no_redirect;
              placed = r.placed;
            }
        by_mismatches (k ∷ ks) = record {
          same_fields = refl;
          no_redirect = unfold redirect_of in clear;
          placed = refl;
        }

    still_taken :
        (b : Bool) (m : RouteMapping V W) (xs ys : List (RouteMapping V W))
        → xs ≢ []
        → ys ≡ (if b then xs ++ m ∷ [] else xs)
        → ys ≢ []
    still_taken true m [] ys h at = absurd (h refl)
    still_taken true m (x ∷ xs) ys h at = λ none_left. absurd (let wrong = sym at ∙ none_left in cc)
    still_taken false m xs ys h at = λ none_left. h (sym at ∙ none_left)

    -- A group with a mapping and no redirect that counts takes, beside its shadow, exactly the
    -- mappings that are neither shadows nor redirects and have no core key that differs from the
    -- group, in the order in which they are added.
    pub add_mappings-accepted :
        (ms : List (RouteMapping V W)) (g : HttpGroup V W)
        → redirect_of is_true greater g ≡ none
        → g.mappings ≢ []
        → (add_mappings is_true greater ms g).mappings ≡ g.mappings ++ accepted g.fields ms
    unfolding add_mappings
    add_mappings-accepted [] g clear taken = sym (append-nil g.mappings)
    add_mappings-accepted (m ∷ ms) g clear taken =
        let r = add_mapping-Placed m g clear taken in
        add_mappings-accepted ms (add_mapping is_true greater m g) r.no_redirect
          (still_taken (accepts g.fields m) m g.mappings _ taken r.placed)
        ∙ rw (r.placed, r.same_fields) (joined (accepts g.fields m) g.mappings)
      where
        joined :
            (b : Bool) (xs : List (RouteMapping V W))
            → (if b then xs ++ m ∷ [] else xs) ++ accepted g.fields ms
              ≡ xs ++ (if b then m ∷ accepted g.fields ms else accepted g.fields ms)
        joined true xs = append_assoc xs (m ∷ []) (accepted g.fields ms)
        joined false xs = refl
