-- ===== src/Base/Int.antt =====
-- Python's signed integers, as far as the program uses them: values that it compares with zero
-- before it goes on with the number itself.
use Prim.Native.Nat.{ℕ}
use mathlib.Core.Bool.{Bool, true, false}

-- `negsuc n` is -(n + 1).
pub data ℤ : Type 0 where
  pos : ℕ → ℤ
  negsuc : ℕ → ℤ

-- `x <= 0`
abbrev pub is_nonpositive : ℤ → Bool
is_nonpositive (pos ℕ.zero) = true
is_nonpositive (pos (ℕ.suc n)) = false
is_nonpositive (negsuc n) = true

abbrev pub is_negative : ℤ → Bool
is_negative (pos n) = false
is_negative (negsuc n) = true

-- The number itself, where a test has shown that it is not negative.
abbrev pub pos_part : ℤ → ℕ
pos_part (pos n) = n
pos_part (negsuc n) = 0
