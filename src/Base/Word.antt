-- ===== src/Base/Word.antt =====
-- The 32-bit words of the kernel's bitmaps: test, set and clear one bit, and their laws.
use Prim.Native.Nat.{ℕ, ◌-◌, ◌^◌, ◌<◌, bit_and, bit_or}
use mathlib.Core.Path.{◌≡◌}
use mathlib.Core.Bool.{Bool, true, false, not}
use native.Mathlib.Omega.{arith}
use honey_os.Base.Tests.{◌==◌, if◌then◌else◌}
use honey_os.Base.Bits.{
  bit, bit-lt, bit-bit_and, bit-bit_or, bit-pow, zero-bit, bit-complement, eq_of_bits, bit_and-pow,
  pow-pos, pow-lt, bit_or-lt, bit_and-le,
}

-- `~0`
abbrev pub ones : ℕ
ones = 0xffff_ffff

-- `w & (1 << i)`, as a condition
unfoldable pub test_bit : ℕ → ℕ → Bool
test_bit w i = not (bit_and w (2 ^ i) == 0)

-- `w | 1 << i`
unfoldable pub set_bit : ℕ → ℕ → ℕ
set_bit w i = bit_or w (2 ^ i)

-- `w & ~(1 << i)`
unfoldable pub clear_bit : ℕ → ℕ → ℕ
clear_bit w i = bit_and w (ones - 2 ^ i)

pub test_bit-bit : (w i : ℕ) → test_bit w i ≡ (bit w i == 1)
unfolding test_bit
test_bit-bit w i = ground (arith, bit_and-pow w i, bit-lt w i, pow-pos i)

pub test_bit-set_bit :
    (w i j : ℕ) → test_bit (set_bit w i) j ≡ (if i == j then true else test_bit w j)
unfolding set_bit
test_bit-set_bit w i j =
    rw (test_bit-bit, test_bit-bit, bit-bit_or, bit-pow) (ground (arith, bit-lt w j))

pub test_bit-clear_bit :
    (w i j : ℕ)
    → i < 32
    → j < 32
    → test_bit (clear_bit w i) j ≡ (if i == j then false else test_bit w j)
unfolding clear_bit
test_bit-clear_bit w i j h k =
    let small = pow-lt i 32 h in
    ground (
      arith,
      test_bit-bit w j,
      test_bit-bit (bit_and w (ones - 2 ^ i)) j,
      bit-bit_and w (ones - 2 ^ i) j,
      bit-complement 32 (2 ^ i) j small k,
      bit-pow i j,
      bit-lt w j,
    )

pub set_bit-lt : (w i : ℕ) → w < 2 ^ 32 → i < 32 → set_bit w i < 2 ^ 32
unfolding set_bit
set_bit-lt w i h k = bit_or-lt 32 w (2 ^ i) h (pow-lt i 32 k)

pub clear_bit-lt : (w i : ℕ) → w < 2 ^ 32 → clear_bit w i < 2 ^ 32
unfolding clear_bit
clear_bit-lt w i h = omega (arith, bit_and-le w (ones - 2 ^ i))

pub test_bit-ones : (i : ℕ) → i < 32 → test_bit ones i ≡ true
test_bit-ones i h =
    ground (arith, test_bit-bit ones i, bit-complement 32 0 i (omega arith) h, zero-bit i)

pub test_bit-zero : (i : ℕ) → test_bit 0 i ≡ false
test_bit-zero i = ground (arith, test_bit-bit 0 i, zero-bit i)

-- A word with all its bits set is `~0`.
pub eq-ones : (w : ℕ) → w < 2 ^ 32 → ((i : ℕ) → i < 32 → test_bit w i ≡ true) → w ≡ ones
eq-ones w h all =
    eq_of_bits 32 w ones h (omega arith)
      λ i k. ground (arith, test_bit-bit w i, all i k, test_bit-bit ones i, test_bit-ones i k)

-- Setting a bit that is set, and clearing one that is clear, changes nothing.
pub set_bit_same : (w i : ℕ) → w < 2 ^ 32 → i < 32 → test_bit w i ≡ true → set_bit w i ≡ w
set_bit_same w i h k t = eq_of_bits 32 (set_bit w i) w (set_bit-lt w i h k) h λ j l. ground (
  arith,
  test_bit-bit w j,
  test_bit-bit (set_bit w i) j,
  test_bit-set_bit w i j,
  bit-lt w j,
  bit-lt (set_bit w i) j,
  t,
)

pub clear_bit_same : (w i : ℕ) → w < 2 ^ 32 → i < 32 → test_bit w i ≡ false → clear_bit w i ≡ w
clear_bit_same w i h k t = eq_of_bits 32 (clear_bit w i) w (clear_bit-lt w i h) h λ j l. ground (
  arith,
  test_bit-bit w j,
  test_bit-bit (clear_bit w i) j,
  test_bit-clear_bit w i j k l,
  bit-lt w j,
  bit-lt (clear_bit w i) j,
  t,
)

-- Setting a clear bit and clearing it again gives the word back.
pub clear_bit-set_bit :
    (w i : ℕ) → w < 2 ^ 32 → i < 32 → test_bit w i ≡ false → clear_bit (set_bit w i) i ≡ w
clear_bit-set_bit w i h k t =
    let s = set_bit-lt w i h k in
    eq_of_bits 32 (clear_bit (set_bit w i) i) w (clear_bit-lt (set_bit w i) i s) h λ j l. ground (
      arith,
      test_bit-bit w j,
      test_bit-bit (clear_bit (set_bit w i) i) j,
      test_bit-clear_bit (set_bit w i) i j k l,
      test_bit-set_bit w i j,
      bit-lt w j,
      bit-lt (clear_bit (set_bit w i) i) j,
      t,
    )
