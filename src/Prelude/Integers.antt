-- ===== src/Prelude/Integers.antt =====
-- Python's integers over the native numbers, with the operations that the program makes.
use Prim.Native.Nat.{ℕ, zero, suc, ◌+◌, ◌-◌, ◌≤◌}
use mathlib.Core.Path.{◌≡◌, refl}
use native.Mathlib.Omega.{arith}
use mathlib.Core.Bool.{Bool, true, false}
use emissary.Prelude.Tests.{ltb, if◌then◌else◌}

pub data ℤ : Type 0 where
  pos negsuc : ℕ → ℤ

-- `n - 1`
abbrev pub pred : ℤ → ℤ
pred (pos zero) = negsuc 0
pred (pos (suc n)) = pos n
pred (negsuc n) = negsuc (suc n)

abbrev sub_nat : ℕ → ℕ → ℤ
sub_nat m n = if ltb m n then negsuc (n - m - 1) else pos (m - n)

infixl 60 ◌+ℤ◌
abbrev pub ◌+ℤ◌ : ℤ → ℤ → ℤ
◌+ℤ◌ (pos m) (pos n) = pos (m + n)
◌+ℤ◌ (pos m) (negsuc n) = sub_nat m (suc n)
◌+ℤ◌ (negsuc m) (pos n) = sub_nat n (suc m)
◌+ℤ◌ (negsuc m) (negsuc n) = negsuc (suc (m + n))

abbrev pub minus : ℤ → ℤ
minus (pos zero) = pos zero
minus (pos (suc n)) = negsuc n
minus (negsuc n) = pos (suc n)

infixl 60 ◌-ℤ◌
abbrev pub ◌-ℤ◌ : ℤ → ℤ → ℤ
m -ℤ n = m +ℤ minus n

abbrev pub is_zero : ℤ → Bool
is_zero (pos zero) = true
is_zero (pos (suc _)) = false
is_zero (negsuc _) = false

-- An integer by its two parts, of which one is 0.
abbrev pub pos_part : ℤ → ℕ
pos_part (pos n) = n
pos_part (negsuc _) = 0

abbrev pub neg_part : ℤ → ℕ
neg_part (pos _) = 0
neg_part (negsuc n) = suc n

infix 40 ◌≤ℤ◌
abbrev pub ◌≤ℤ◌ : ℤ → ℤ → Type 0
m ≤ℤ n = pos_part m + neg_part n ≤ pos_part n + neg_part m

abbrev pub ltb_ℤ : ℤ → ℤ → Bool
ltb_ℤ m n = ltb (pos_part m + neg_part n) (pos_part n + neg_part m)

pub pred_parts : (n : ℤ) → pos_part (pred n) + neg_part n + 1 ≡ neg_part (pred n) + pos_part n
pred_parts (pos zero) = refl
pred_parts (pos (suc n)) = omega arith
pred_parts (negsuc n) = omega arith
