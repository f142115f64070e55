-- ===== src/Base/Int.antt =====
-- Signed integers, for Go's `int` where a negative value is meaningful.
use Prim.Native.Nat.{ℕ, zero, suc}
use mathlib.Core.Path.{◌≡◌}
use mathlib.Core.Bool.{Bool, true, false}
use native.Mathlib.Omega.{arith}
use p2p_storage.Base.Tests.{leb, ◌==◌}

-- `negsuc n` is -(n + 1).
pub data ℤ : Type 0 where
  pos : ℕ → ℤ
  negsuc : ℕ → ℤ

-- z <= 0
abbrev pub is_non_positive : ℤ → Bool
is_non_positive (pos n) = n == 0
is_non_positive (negsuc n) = true

-- z - 1
abbrev pub pred : ℤ → ℤ
pred (pos zero) = negsuc 0
pred (pos (suc n)) = pos n
pred (negsuc n) = negsuc (suc n)

-- z != 0
abbrev pub is_non_zero : ℤ → Bool
is_non_zero (pos zero) = false
is_non_zero (pos (suc n)) = true
is_non_zero (negsuc n) = true

-- n >= z, for a length n
abbrev pub ge_int : ℕ → ℤ → Bool
ge_int n (pos m) = leb m n
ge_int n (negsuc m) = true

-- max(z, 0)
abbrev pub to_ℕ : ℤ → ℕ
to_ℕ (pos n) = n
to_ℕ (negsuc n) = 0

pub to_ℕ-pred : (z : ℤ) → is_non_positive z ≡ false → to_ℕ z ≡ suc (to_ℕ (pred z))
to_ℕ-pred z h = ground arith
