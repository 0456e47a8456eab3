-- ===== src/Timer/Extremes.antt =====
-- The least and the greatest of a list of durations and a bound.
use emissary.Prelude.{
  ℤ, ◌≤ℤ◌, ltb_ℤ, Bool, true, false, List, ◌∷◌, Memᴰ, if◌then◌else◌, ◌≡◌, ◌⊎◌, inl, inr, refl, sym,
  arith,
}
use mathlib.Core.Path.{subst}
use emissary.Timer.{lower_of, higher_of}

-- The least of the durations and an upper bound, and the greatest of them and a lower bound
pub record IsLeast (bound : ℤ) (ds : List ℤ) (m : ℤ) : Type 0 where
  pub bounded : m ≤ℤ bound
  pub below : (d : ℤ) → Memᴰ d ds → m ≤ℤ d
  pub taken : (m ≡ bound) ⊎ Memᴰ m ds

pub record IsGreatest (bound : ℤ) (ds : List ℤ) (m : ℤ) : Type 0 where
  pub bounded : bound ≤ℤ m
  pub above : (d : ℤ) → Memᴰ d ds → d ≤ℤ m
  pub taken : (m ≡ bound) ⊎ Memᴰ m ds

each {ℓ} :
    {P : ℤ → Type ℓ} (d : ℤ) (ds : List ℤ)
    → P d
    → ((e : ℤ) → Memᴰ e ds → P e)
    → (e : ℤ) → Memᴰ e (d ∷ ds)
    → P e
each {P = P} d ds here there e (Memᴰ.head same) = subst P (sym same) here
each d ds here there e (Memᴰ.tail later) = there e later

still {ℓ} : {P : Type ℓ} {m d : ℤ} {ds : List ℤ} → P ⊎ Memᴰ m ds → P ⊎ Memᴰ m (d ∷ ds)
still (inl bound) = inl bound
still (inr among) = inr (Memᴰ.tail among)

ltb_ℤ-≤ℤ : (m n : ℤ) → ltb_ℤ m n ≡ true → m ≤ℤ n
ltb_ℤ-≤ℤ m n h = ground (arith, h)

not_ltb_ℤ : (m n : ℤ) → ltb_ℤ m n ≡ false → n ≤ℤ m
not_ltb_ℤ m n h = ground (arith, h)

≤ℤ_trans : (m n k : ℤ) → m ≤ℤ n → n ≤ℤ k → m ≤ℤ k
≤ℤ_trans m n k h h' = omega arith

pub ≤ℤ_refl : (m : ℤ) → m ≤ℤ m
≤ℤ_refl m = omega arith

pub lower_of-IsLeast :
    (bound : ℤ) (ds : List ℤ) (m d : ℤ) → IsLeast bound ds m → IsLeast bound (d ∷ ds) (lower_of d m)
lower_of-IsLeast bound ds m d h = by_order (ltb_ℤ d m) (ltb_ℤ-≤ℤ d m) (not_ltb_ℤ d m)
  where
    by_order :
        (b : Bool)
        → (b ≡ true → d ≤ℤ m)
        → (b ≡ false → m ≤ℤ d)
        → IsLeast bound (d ∷ ds) (if b then d else m)
    by_order true less more = record {
      bounded = ≤ℤ_trans d m bound (less refl) h.bounded;
      below = each d ds (≤ℤ_refl d) (λ e among. ≤ℤ_trans d m e (less refl) (h.below e among));
      taken = inr (Memᴰ.head refl);
    }
    by_order false less more = record {
      bounded = h.bounded;
      below = each d ds (more refl) h.below;
      taken = still h.taken;
    }

pub higher_of-IsGreatest :
    (bound : ℤ) (ds : List ℤ) (m d : ℤ)
    → IsGreatest bound ds m
    → IsGreatest bound (d ∷ ds) (higher_of d m)
higher_of-IsGreatest bound ds m d h = by_order (ltb_ℤ m d) (ltb_ℤ-≤ℤ m d) (not_ltb_ℤ m d)
  where
    by_order :
        (b : Bool)
        → (b ≡ true → m ≤ℤ d)
        → (b ≡ false → d ≤ℤ m)
        → IsGreatest bound (d ∷ ds) (if b then d else m)
    by_order true more less = record {
      bounded = ≤ℤ_trans bound m d h.bounded (more refl);
      above = each d ds (≤ℤ_refl d) (λ e among. ≤ℤ_trans e m d (h.above e among) (more refl));
      taken = inr (Memᴰ.head refl);
    }
    by_order false more less = record {
      bounded = h.bounded;
      above = each d ds (less refl) h.above;
      taken = still h.taken;
    }
