-- ===== src/Incremental/Deltas.antt =====
-- What `check_deltas` answers, and what it leaves of the cache.
use emissary.Prelude.{
  ℕ, String, Bool, true, false, not, List, [], ◌∷◌, Option, none, some, any, all, nat_eqb, ◌&&◌,
  ◌||◌, string_eq, ◌≡◌, ◌≢◌, refl, inl, inr, sym, ap, ◌∙◌, arith, Bool-cases,
}
use mathlib.Core.Path.{subst}
use emissary.Results.{ok}
use emissary.Cache.{Cache}
use emissary.Incremental.{
  Delta, delta_key, is_mapping, count_delta, scan_deltas, complete, incremental, Checked,
  go_complete, go_incremental, by_errors, check_deltas,
}
use emissary.Incremental.Invalidated.{AllGone, invalidate_all-AllGone}

abbrev pub is_keyed : Option String → Bool
is_keyed none = false
is_keyed (some _) = true

-- Some delta is of a Mapping, and each that is has a name and a namespace.
abbrev pub are_usable : List Delta → Bool
are_usable ds = any is_mapping ds && all (λ d. not (is_mapping d) || is_keyed (delta_key d)) ds

abbrev pub add_key : Bool → Option String → List String → List String
add_key false key keys = keys
add_key true none keys = keys
add_key true (some key) keys = key ∷ keys

-- The keys of the Mappings among the deltas that have a key
unfoldable pub keys_of : List Delta → List String
keys_of [] = []
keys_of (d ∷ ds) = add_key (is_mapping d) (delta_key d) (keys_of ds)

scan-keys : (ds : List Delta) → (scan_deltas ds).1 ≡ keys_of ds
unfolding scan_deltas keys_of
scan-keys [] = refl
scan-keys (d ∷ ds) = one (is_mapping d) (delta_key d) (scan-keys ds)
  where
    one :
        (b : Bool) (o : Option String)
        → (scan_deltas ds).1 ≡ keys_of ds
        → (count_delta b o (scan_deltas ds)).1 ≡ add_key b o (keys_of ds)
    one false o ih = ih
    one true none ih = ih
    one true (some key) ih = ap (λ ks. key ∷ ks) ih

scan-errors :
    (ds : List Delta)
    → nat_eqb (scan_deltas ds).0 0 ≡ all (λ d. not (is_mapping d) || is_keyed (delta_key d)) ds
unfolding scan_deltas
scan-errors [] = refl
scan-errors (d ∷ ds) = one (is_mapping d) (delta_key d) (scan-errors ds)
  where
    one :
        (b : Bool) (o : Option String)
        → nat_eqb (scan_deltas ds).0 0 ≡ all (λ d. not (is_mapping d) || is_keyed (delta_key d)) ds
        → nat_eqb (count_delta b o (scan_deltas ds)).0 0
          ≡ ((not b || is_keyed o) && all (λ d. not (is_mapping d) || is_keyed (delta_key d)) ds)
    one false o ih = ih
    one true none ih = ground arith
    one true (some key) ih = ih

-- Where no delta of a Mapping lacks a key, there is a key exactly where there is such a delta.
keys-any :
    (ds : List Delta)
    → all (λ d. not (is_mapping d) || is_keyed (delta_key d)) ds ≡ true
    → (any is_mapping ds ≡ true → keys_of ds ≢ []) × (any is_mapping ds ≡ false → keys_of ds ≡ [])
unfolding keys_of
keys-any [] h = (λ e. absurd cc, λ e. refl)
keys-any (d ∷ ds) h = one (λ e. keys-any ds e) (is_mapping d) (delta_key d) h
  where
    one :
        (all (λ d. not (is_mapping d) || is_keyed (delta_key d)) ds ≡ true
          → (any is_mapping ds ≡ true → keys_of ds ≢ [])
            × (any is_mapping ds ≡ false → keys_of ds ≡ []))
        → (b : Bool) (o : Option String)
        → ((not b || is_keyed o) && all (λ d. not (is_mapping d) || is_keyed (delta_key d)) ds)
          ≡ true
        → ((b || any is_mapping ds) ≡ true → add_key b o (keys_of ds) ≢ [])
          × ((b || any is_mapping ds) ≡ false → add_key b o (keys_of ds) ≡ [])
    one later false o e = later e
    one later true none e = absurd cc
    one later true (some key) e = (λ _ wrong. cc, λ wrong. absurd cc)

module _ {ℓ} {R W : Type ℓ} where
  -- A complete reconfiguration leaves the cache and the world alone, and asks for a reset of the cache.
  pub record IsComplete (c : Cache R W) (w : W) (r : Checked R W) : Type ℓ where
    pub config_type : r.config_type ≡ complete
    pub reset : r.reset_cache ≡ true
    pub cache : r.cache ≡ some c
    pub world : r.world ≡ w

  -- An incremental one has removed from the cache all that a Mapping of the deltas owned, and only that.
  pub record IsIncremental (ds : List Delta) (c : Cache R W) (r : Checked R W) : Type ℓ where
    pub config_type : r.config_type ≡ incremental
    pub reset : r.reset_cache ≡ false
    pub groups : r.invalidate_groups_for ≡ keys_of ds
    pub left : Cache R W
    pub cache : r.cache ≡ some left
    pub all_gone : AllGone (keys_of ds) c left

  Outcome : List Delta → Cache R W → W → Checked R W → Type ℓ
  Outcome ds c w r =
      (are_usable ds ≡ true → IsIncremental ds c r) × (are_usable ds ≡ false → IsComplete c w r)

  by_scan :
      (ds : List Delta) (c : Cache R W) (w : W) (s : ℕ × List String)
      → s.1 ≡ keys_of ds
      → nat_eqb s.0 0 ≡ all (λ d. not (is_mapping d) || is_keyed (delta_key d)) ds
      → (r : Checked R W) × (by_errors s c w ≡ ok r) × Outcome ds c w r
  unfolding Outcome
  by_scan ds c w (errors, []) same counted = (
    go_complete [] (some c) w,
    refl,
    (
      λ usable.
          absurd ((keys-any ds (ground (arith, usable))).0 (ground (arith, usable)) (sym same)),
      λ _. record { config_type = refl; reset = refl; cache = refl; world = refl },
    ),
  )
  by_scan ds c w (errors, key ∷ keys) same counted = elim (Bool-cases (nat_eqb errors 0)) [
    | inr some_error ↦ (
      go_complete (key ∷ keys) (some c) w,
      rw some_error,
      (
        λ usable. absurd (let wrong = sym some_error ∙ counted in ground (arith, usable, wrong)),
        λ _. record { config_type = refl; reset = refl; cache = refl; world = refl },
      ),
    )
    | inl none_wrong ↦
        let (c', w', ran, all') = invalidate_all-AllGone (key ∷ keys) c w in
        (
          go_incremental (key ∷ keys) (c', w'),
          rw (none_wrong, ran),
          (
            λ _. record {
              config_type = refl;
              reset = refl;
              groups = same;
              left = c';
              cache = refl;
              all_gone = subst (λ ks. AllGone ks c c') same all';
            },
            λ unusable. absurd (not_usable unusable (sym counted ∙ none_wrong)),
          ),
        )
  ]
    where
      not_usable :
          are_usable ds ≡ false
          → all (λ d. not (is_mapping d) || is_keyed (delta_key d)) ds ≡ true
          → ⊥
      not_usable unusable fine =
          let nothing = (keys-any ds fine).1 (ground (arith, unusable, fine)) in
          let wrong : key ∷ keys ≡ [] = same ∙ nothing in cc

  -- With a cache, `check_deltas` returns. Where some delta is of a Mapping or TCPMapping and each such delta
  -- has a name and a namespace, the reconfiguration is incremental, the cache is not reset, and every object
  -- that the cached object of one of these deltas owned, itself included, is out of the cache, while any other
  -- has the entry and the links that it had. In every other case the reconfiguration is complete and asks for
  -- a reset, with the cache and the world as they were.
  pub check_deltas-Outcome :
      (ds : List Delta) (c : Cache R W) (w : W)
      → (r : Checked R W) × (check_deltas ds (some c) w ≡ ok r)
        × (are_usable ds ≡ true → IsIncremental ds c r)
        × (are_usable ds ≡ false → IsComplete c w r)
  unfolding check_deltas Outcome
  check_deltas-Outcome [] c w = (
    go_complete [] (some c) w,
    refl,
    λ usable. absurd cc,
    λ _. record { config_type = refl; reset = refl; cache = refl; world = refl },
  )
  check_deltas-Outcome (d ∷ ds) c w =
      let (r, ran, outcome) =
        by_scan (d ∷ ds) c w (scan_deltas (d ∷ ds)) (scan-keys (d ∷ ds)) (scan-errors (d ∷ ds)) in
      (r, ran, outcome.0, outcome.1)
