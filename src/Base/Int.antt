-- ===== src/Base/Int.antt =====
-- Signed integers, and the integer that a 32-bit pattern stands for.
use Prim.Native.Nat.{ℕ, ◌-◌, ◌^◌}
use honey_os.Base.Tests.{ltb, if◌then◌else◌}

-- `negsuc n` is -(n + 1).
pub data ℤ : Type 0 where
  pos : ℕ → ℤ
  negsuc : ℕ → ℤ

-- An `int32_t` is its bit pattern, below 2 ^ 32.
abbrev pub signed32 : ℕ → ℤ
signed32 w = if ltb w (2 ^ 31) then pos w else negsuc (2 ^ 32 - 1 - w)

abbrev pub signed16 : ℕ → ℤ
signed16 w = if ltb w (2 ^ 15) then pos w else negsuc (2 ^ 16 - 1 - w)

abbrev pub signed8 : ℕ → ℤ
signed8 w = if ltb w (2 ^ 7) then pos w else negsuc (2 ^ 8 - 1 - w)

-- The conversions of an `int16_t` and an `int8_t` to `int32_t`, on bit patterns.
abbrev pub extend16 : ℕ → ℕ
extend16 w = if ltb w (2 ^ 15) then w else 2 ^ 32 - (2 ^ 16 - w)

abbrev pub extend8 : ℕ → ℕ
extend8 w = if ltb w (2 ^ 7) then w else 2 ^ 32 - (2 ^ 8 - w)
