-- ===== src/RouteGroup/Laws.antt =====
-- What a group of mappings keeps, whatever mappings are added and in whatever order.
use emissary.Prelude.{
  String, Bool, true, false, not, List, [], ◌∷◌, ◌++◌, Option, none, some, Dict, length, ◌≤◌,
  if◌then◌else◌, string_eq, HasEq, ◌≡◌, refl, sym, ◌∙◌, Bool-cases, inl, inr, arith, all,
}
use emissary.RouteGroup.{
  RouteMapping, HttpGroup, GroupPost, core_mapping_keys, mismatches, flag, drop_redirects,
  redirect_of, add_shadow, add_redirect, add_plain, place_mapping, add_mapping, new_group,
  add_mappings, blank_group,
}

module _ {ℓ} {V W : Type ℓ} (is_true : V → Bool) (greater : W → W → Bool) where
  -- No weight of a mapping is above the weight of the group, there is one shadow at most, and no mapping
  -- beside a redirect that counts.
  pub record IsGroup (g : HttpGroup V W) : Type ℓ where
    pub weights : all (λ m. not (greater m.route_weight g.group_weight)) g.mappings ≡ true
    pub one_shadow : length g.shadows ≤ 1
    pub redirect_alone :
        (m : RouteMapping V W) → redirect_of is_true greater g ≡ some m → g.mappings ≡ []

  -- What Python's order of lists has.
  abbrev pub IsTransitive : Type ℓ
  IsTransitive = (a b c : W) → greater b a ≡ true → greater c a ≡ false → greater c b ≡ false

  -- What is posted and what refers to the group does not matter.
  same-IsGroup :
      (g : HttpGroup V W) (posted : List GroupPost) (references : List String)
      (fields : Dict String V)
      → IsGroup g
      → IsGroup (record g { posted = posted; references = references; fields = fields })
  unfolding redirect_of
  same-IsGroup g posted references fields h = record {
    weights = h.weights;
    one_shadow = h.one_shadow;
    redirect_alone = h.redirect_alone;
  }

  add_shadow-IsGroup :
      (m : RouteMapping V W) (g : HttpGroup V W)
      → IsGroup g
      → IsGroup (add_shadow is_true greater m g)
  unfolding add_shadow redirect_of
  add_shadow-IsGroup m g h = by_shadows g.shadows
    where
      by_shadows :
          (shadows : List (RouteMapping V W))
          → IsGroup (elim shadows [
            | [] ↦ record g { shadows = m ∷ [] }
            | first ∷ _ ↦ record g {
              posted = g.posted ++ GroupPost.second_shadow m.name first.name ∷ [];
            }
          ])
      by_shadows [] = record {
        weights = h.weights;
        one_shadow = omega arith;
        redirect_alone = h.redirect_alone;
      }
      by_shadows (first ∷ rest) = same-IsGroup g _ _ _ h

  add_redirect-IsGroup :
      (m : RouteMapping V W) (g : HttpGroup V W)
      → IsGroup g
      → IsGroup (add_redirect is_true greater m g)
  unfolding add_redirect redirect_of
  add_redirect-IsGroup m g h = by_redirect (redirect_of is_true greater g)
    where
      by_mappings :
          (mappings : List (RouteMapping V W))
          → g.mappings ≡ mappings
          → IsGroup (elim mappings [
            | first ∷ _ ↦ record g {
              posted = g.posted ++ GroupPost.redirect_after_mappings m.name first.name ∷ [];
            }
            | [] ↦ record g { host_redirect = some m }
          ])
      by_mappings [] none_yet = record {
        weights = h.weights;
        one_shadow = h.one_shadow;
        redirect_alone = λ other at. none_yet;
      }
      by_mappings (first ∷ rest) at = same-IsGroup g _ _ _ h

      by_redirect :
          (o : Option (RouteMapping V W))
          → IsGroup (elim o [
            | some other ↦ record g {
              posted = g.posted ++ GroupPost.second_redirect m.name other.name ∷ [];
            }
            | none ↦ elim g.mappings [
              | first ∷ _ ↦ record g {
                posted = g.posted ++ GroupPost.redirect_after_mappings m.name first.name ∷ [];
              }
              | [] ↦ record g { host_redirect = some m }
            ]
          ])
      by_redirect none = by_mappings g.mappings refl
      by_redirect (some other) = same-IsGroup g _ _ _ h

  module _ (transitive : IsTransitive) (irreflexive : (a : W) → greater a a ≡ false) where
    still_below :
        (old new : W) (mappings : List (RouteMapping V W))
        → greater new old ≡ true
        → all (λ m. not (greater m.route_weight old)) mappings ≡ true
        → all (λ m. not (greater m.route_weight new)) mappings ≡ true
    still_below old new [] above h = refl
    still_below old new (m ∷ mappings) above h =
        ground
          (arith, still_below old new mappings above, transitive old new m.route_weight above, h)

    all-append :
        (p : RouteMapping V W → Bool) (xs : List (RouteMapping V W)) (x : RouteMapping V W)
        → all p xs ≡ true
        → p x ≡ true
        → all p (xs ++ x ∷ []) ≡ true
    all-append p [] x h new = ground (arith, new)
    all-append p (y ∷ xs) x h new = ground (arith, all-append p xs x, h, new)

    raised_weights :
        (w old : W) (m : RouteMapping V W) (mappings : List (RouteMapping V W))
        → m.route_weight ≡ w
        → all (λ m. not (greater m.route_weight old)) mappings ≡ true
        → all
            (λ m. not (greater m.route_weight (if greater w old then w else old)))
            (mappings ++ m ∷ [])
          ≡ true
    raised_weights w old m mappings own h = elim (Bool-cases (greater w old)) [
      | inl above ↦ rw above (
          all-append _ mappings m (still_below old w mappings above h)
            (rw own (rw (irreflexive w) refl)))
      | inr below ↦ rw below (all-append _ mappings m h (rw own (rw below refl)))
    ]

    add_plain-IsGroup :
        (m : RouteMapping V W) (g : HttpGroup V W)
        → IsGroup g
        → IsGroup (add_plain is_true greater m g)
    unfolding add_plain redirect_of
    add_plain-IsGroup m g h = by_redirect (redirect_of is_true greater g) refl
      where
        by_redirect :
            (o : Option (RouteMapping V W))
            → redirect_of is_true greater g ≡ o
            → IsGroup (elim o [
              | some other ↦ record g {
                posted = g.posted ++ GroupPost.mapping_after_redirect m.name other.name ∷ [];
              }
              | none ↦ record g {
                mappings = g.mappings ++ m ∷ [];
                group_weight =
                    if greater m.route_weight g.group_weight
                    then m.route_weight
                    else g.group_weight;
              }
            ])
        by_redirect none at = record {
          weights = raised_weights m.route_weight g.group_weight m g.mappings refl h.weights;
          one_shadow = h.one_shadow;
          redirect_alone = λ other found. absurd (let wrong = sym at ∙ found in cc);
        }
        by_redirect (some other) at = same-IsGroup g _ _ _ h

    place_mapping-IsGroup :
        (m : RouteMapping V W) (g : HttpGroup V W)
        → IsGroup g
        → IsGroup (place_mapping is_true greater m g)
    unfolding place_mapping
    place_mapping-IsGroup m g h = elim (Bool-cases (flag is_true greater "shadow" m)) [
      | inl shadow ↦ elim (Bool-cases (flag is_true greater "host_redirect" m)) [
        | inl redirect ↦
            rw (shadow, redirect)
              (add_shadow-IsGroup (drop_redirects is_true greater m) _ (same-IsGroup g _ _ _ h))
        | inr other ↦ rw (shadow, other) (add_shadow-IsGroup m g h)
      ]
      | inr plain ↦ elim (Bool-cases (flag is_true greater "host_redirect" m)) [
        | inl redirect ↦ rw (plain, redirect) (add_redirect-IsGroup m g h)
        | inr other ↦ rw (plain, other) (add_plain-IsGroup m g h)
      ]
    ]

    module _ ⦃e : HasEq V⦄ where
      add_mapping-IsGroup :
          (m : RouteMapping V W) (g : HttpGroup V W)
          → IsGroup g
          → IsGroup (add_mapping is_true greater m g)
      unfolding add_mapping
      add_mapping-IsGroup m g h = by_mismatches (mismatches core_mapping_keys m.fields g.fields)
        where
          placed : HttpGroup V W
          placed = place_mapping is_true greater m g

          by_mismatches :
              (ks : List String)
              → IsGroup (elim ks [
                | [] ↦ record placed { references = placed.references ++ m.name ∷ [] }
                | k ∷ ks ↦ record g {
                  posted = g.posted ++ GroupPost.mismatched m.name (k ∷ ks) ∷ [];
                }
              ])
          by_mismatches [] = same-IsGroup placed _ _ _ (place_mapping-IsGroup m g h)
          by_mismatches (k ∷ ks) = same-IsGroup g _ _ _ h

      add_all-IsGroup :
          (ms : List (RouteMapping V W)) (g : HttpGroup V W)
          → IsGroup g
          → IsGroup (add_mappings is_true greater ms g)
      unfolding add_mappings
      add_all-IsGroup [] g h = h
      add_all-IsGroup (m ∷ ms) g h = add_all-IsGroup ms _ (add_mapping-IsGroup m g h)

      -- Where the order of the weights is transitive and irreflexive, a group of any mappings, added
      -- in any order, has no mapping with a weight above that of the group, one shadow at most, and
      -- no mapping beside a redirect that counts.
      pub add_mappings-IsGroup :
          (first : RouteMapping V W) (ms : List (RouteMapping V W))
          → IsGroup (add_mappings is_true greater ms (new_group is_true greater first))
      unfolding new_group
      add_mappings-IsGroup first ms = add_all-IsGroup ms _ (
          add_mapping-IsGroup first (blank_group is_true greater first)
            (record { weights = refl; one_shadow = omega arith; redirect_alone = λ m at. refl }))
