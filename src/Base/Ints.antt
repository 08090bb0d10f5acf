-- ===== src/Base/Ints.antt =====
-- Go's `int`, where a value below zero is possible.
use Prim.Native.Nat.{ℕ, zero, suc}
use mathlib.Core.Path.{◌≡◌, ap}
use native.Mathlib.Omega.{arith}
use mathlib.Core.Bool.{Bool, true, false}
use barq_control_plane.Base.Tests.{ltb, eqb}

pub data ℤ : Type 0 where
  pos negsuc : ℕ → ℤ

-- n <= 0
abbrev pub is_not_positive : ℤ → Bool
is_not_positive (pos zero) = true
is_not_positive (pos (suc n)) = false
is_not_positive (negsuc n) = true

-- n > bound
abbrev pub is_above : ℤ → ℕ → Bool
is_above (pos n) bound = ltb bound n
is_above (negsuc n) bound = false

-- m < n
abbrev pub is_below : ℤ → ℤ → Bool
is_below (pos m) (pos n) = ltb m n
is_below (pos m) (negsuc n) = false
is_below (negsuc m) (pos n) = true
is_below (negsuc m) (negsuc n) = ltb n m

-- m == n
abbrev pub is_same : ℤ → ℤ → Bool
is_same (pos m) (pos n) = eqb m n
is_same (negsuc m) (negsuc n) = eqb m n
is_same (pos m) (negsuc n) = false
is_same (negsuc m) (pos n) = false

pub is_same-eq : (m n : ℤ) → is_same m n ≡ true → m ≡ n
is_same-eq (pos m) (pos n) h = ap pos (ground arith)
is_same-eq (negsuc m) (negsuc n) h = ap negsuc (ground arith)
is_same-eq (pos m) (negsuc n) h = cc
is_same-eq (negsuc m) (pos n) h = cc
