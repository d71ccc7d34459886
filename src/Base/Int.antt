-- ===== src/Base/Int.antt =====
-- Python's `int`, as far as JSON documents and their range tests need it.
use Prim.Native.Nat.{ℕ, zero, suc, ◌+◌, ◌*◌}
use mathlib.Core.Bool.{Bool, true, false, ◌&&◌}
use secure_litellm_on_azure.Base.Tests.{leb, ◌==◌}

-- `negsuc n` is -(n + 1).
pub data ℤ : Type 0 where
  pos : ℕ → ℤ
  negsuc : ℕ → ℤ

abbrev pub pos_part : ℤ → ℕ
pos_part (pos n) = n
pos_part (negsuc n) = 0

abbrev pub neg_part : ℤ → ℕ
neg_part (pos n) = 0
neg_part (negsuc n) = suc n

-- `lo <= z <= hi`, for natural bounds.
abbrev pub in_range : ℕ → ℕ → ℤ → Bool
in_range lo hi (pos n) = leb lo n && leb n hi
in_range lo hi (negsuc n) = false

-- `a * x == b * y`
abbrev pub scaled_eq : ℕ → ℤ → ℕ → ℤ → Bool
scaled_eq a x b y = (a * pos_part x == b * pos_part y) && (a * neg_part x == b * neg_part y)

-- `x <= y`
abbrev pub int_leb : ℤ → ℤ → Bool
int_leb (pos m) (pos n) = leb m n
int_leb (negsuc m) (negsuc n) = leb n m
int_leb (negsuc m) (pos n) = true
int_leb (pos m) (negsuc n) = false

-- `k * x`
abbrev pub scale_int : ℕ → ℤ → ℤ
scale_int k (pos n) = pos (k * n)
scale_int zero (negsuc n) = pos 0
scale_int (suc k) (negsuc n) = negsuc (suc k * n + k)

-- `abs(x)`
abbrev pub int_abs : ℤ → ℕ
int_abs (pos n) = n
int_abs (negsuc n) = suc n
