-- ===== src/Common/Int.antt =====
-- Python's `int` where a sign matters: `negsuc n` is -(n + 1).
use Prim.Native.Nat.{ℕ}
use mathlib.Core.Bool.{Bool, true, false}
use package.win_os_layer.Common.Tests.{leb}

pub data ℤ : Type 0 where
  pos : ℕ → ℤ
  negsuc : ℕ → ℤ

-- n < 0
abbrev pub is_negative : ℤ → Bool
is_negative (pos n) = false
is_negative (negsuc n) = true

-- max(n, 0)
abbrev pub pos_part : ℤ → ℕ
pos_part (pos n) = n
pos_part (negsuc n) = 0

-- n <= bound, for a natural bound
abbrev pub at_most : ℤ → ℕ → Bool
at_most (pos n) bound = leb n bound
at_most (negsuc n) bound = true

-- n >= -(bound + 1)
abbrev pub at_least_neg : ℤ → ℕ → Bool
at_least_neg (pos n) bound = true
at_least_neg (negsuc n) bound = leb n bound
