-- ===== src/Prelude/Int.antt =====
-- `int`: signed integers over the native numbers, under the library's names.
use Prim.Native.Nat.{ℕ, suc, ◌%◌, ◌+◌, ◌-◌, ◌^◌}
use mathlib.Core.Bool.{Bool}
use Prim.Native.Nat.{zero}
use spheromone.Prelude.Tests.{ltb, if◌then◌else◌}

-- `negsuc n` is -(n + 1).
pub data ℤ : Type 0 where
  pos : ℕ → ℤ
  negsuc : ℕ → ℤ

abbrev pub pos_part : ℤ → ℕ
pos_part (pos n) = n
pos_part (negsuc n) = 0

abbrev pub neg_part : ℤ → ℕ
neg_part (pos n) = 0
neg_part (negsuc n) = suc n

abbrev pub ltb_ℤ : ℤ → ℤ → Bool
ltb_ℤ a b = ltb (pos_part a + neg_part b) (pos_part b + neg_part a)

-- a - 1
abbrev pub pred_ℤ : ℤ → ℤ
pred_ℤ (pos zero) = negsuc 0
pred_ℤ (pos (suc n)) = pos n
pred_ℤ (negsuc n) = negsuc (suc n)

-- The conversion of a uint32_t to an int of 32 bits, and back.
abbrev pub int_of_uint32 : ℕ → ℤ
int_of_uint32 n = if ltb n (2 ^ 31) then pos n else negsuc (2 ^ 32 - n - 1)

abbrev pub uint32_of_int : ℤ → ℕ
uint32_of_int (pos n) = n
uint32_of_int (negsuc n) = 2 ^ 32 - n - 1

-- The conversion of an int to a size_t of 64 bits.
abbrev pub size_of_int : ℤ → ℕ
size_of_int (pos n) = n
size_of_int (negsuc n) = 2 ^ 64 - n - 1

-- a + 1
abbrev pub suc_ℤ : ℤ → ℤ
suc_ℤ (pos n) = pos (suc n)
suc_ℤ (negsuc zero) = pos 0
suc_ℤ (negsuc (suc n)) = negsuc n

-- The conversion of an int to a uint8_t.
abbrev pub uint8_of_int : ℤ → ℕ
uint8_of_int (pos n) = n % 2 ^ 8
uint8_of_int (negsuc n) = (2 ^ 8 - 1) - n % 2 ^ 8
