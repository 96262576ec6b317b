-- ===== src/MsgPack/Sequence/RoundTrip.antt =====
-- The headers of arrays and maps are read back, and the length that is allocated for them.
use honey_os.Base.{
  ℕ, ◌+◌, ◌-◌, ◌*◌, ◌/◌, ◌%◌, ◌^◌, ◌≤◌, ◌<◌, bit_and, ◌≡◌, ap, ◌↔◌, some, List, [], ◌∷◌, ◌++◌,
  arith, length,
}
use native.Mathlib.Decide.{dec_lt}
use honey_os.Base.Bits.{bit_and_step, bit_and-mask}
use honey_os.Base.Bytes.{le16, le32}
use honey_os.MsgPack.FirstByte.{format-fixarray, format-fixmap}
use honey_os.MsgPack.Integer.{read_length}
use honey_os.MsgPack.Sequence.{array_length, array_write, map_write, read_array_size, read_map_size}

-- The sizes that the encoder tells apart.
pub data Count (n : ℕ) : Type 0 where
  fix : n < 16 → Count n
  count16 : 16 ≤ n → n < 2 ^ 16 → Count n
  count32 : 2 ^ 16 ≤ n → n < 2 ^ 32 → Count n

pub count : (n : ℕ) → n < 2 ^ 32 → Count n
count n h = elim (dec_lt n 16) [
  | yes a ↦ fix a
  | no a ↦ elim (dec_lt n (2 ^ 16)) [
    | yes b ↦ count16 (omega arith) b
    | no b ↦ count32 (omega arith) h
  ]
]

pub array_write-fix : (n : ℕ) → n < 16 → array_write n ≡ (0x90 + n) ∷ []
unfolding array_write
array_write-fix n h = ground (arith, bit_and-mask 4 n)

pub array_write-count16 : (n : ℕ) → 16 ≤ n → n < 2 ^ 16 → array_write n ≡ 0xdc ∷ le16 n
unfolding array_write
array_write-count16 n h k = ground (arith, bit_and-mask 4 n)

pub array_write-count32 : (n : ℕ) → 2 ^ 16 ≤ n → n < 2 ^ 32 → array_write n ≡ 0xdd ∷ le32 n
unfolding array_write
array_write-count32 n h k = ground (arith, bit_and-mask 4 n)

pub map_write-fix : (n : ℕ) → n < 16 → map_write (2 * n) ≡ (0x80 + n) ∷ []
unfolding map_write
map_write-fix n h = ground (arith, bit_and-mask 4 (2 * n / 2))

pub map_write-count16 : (n : ℕ) → 16 ≤ n → n < 2 ^ 16 → map_write (2 * n) ≡ 0xde ∷ le16 n
unfolding map_write
map_write-count16 n h k = ground (arith, bit_and-mask 4 (2 * n / 2), bit_and-mask 16 (2 * n / 2))

pub map_write-count32 : (n : ℕ) → 2 ^ 16 ≤ n → n < 2 ^ 32 → map_write (2 * n) ≡ 0xdf ∷ le32 n
unfolding map_write
map_write-count32 n h k = ground (arith, bit_and-mask 4 (2 * n / 2), bit_and-mask 16 (2 * n / 2))

module _ (n : ℕ) (rest : List ℕ) where
  -- `msgPackReadArraySize` reads back the size below 2^32 that `msgPackArrayWrite` wrote, and
  -- points behind it.
  pub read_array_size-array_write :
      n < 2 ^ 32 → read_array_size (array_write n ++ rest) ≡ some (n, some rest)
  unfolding read_array_size read_length
  read_array_size-array_write h = by_count (count n h)
    where
      by_count : Count n → read_array_size (array_write n ++ rest) ≡ some (n, some rest)
      by_count (fix a) =
          rw (array_write-fix n a, format-fixarray (0x90 + n) (omega arith) (omega arith))
            (ap (λ k. some (k, some rest)) (omega (arith, bit_and-mask 4 (0x90 + n))))
      by_count (count16 a b) =
          rw (array_write-count16 n a b) (ap (λ k. some (k, some rest)) (omega arith))
      by_count (count32 a b) =
          rw (array_write-count32 n a b) (ap (λ k. some (k, some rest)) (omega arith))

  -- `msgPackReadMapSize` reads back the number of pairs that `msgPackMapWrite` wrote, below
  -- 2^31, and points behind it.
  pub read_map_size-map_write :
      n < 2 ^ 31 → read_map_size (map_write (2 * n) ++ rest) ≡ some (n, some rest)
  unfolding read_map_size read_length
  read_map_size-map_write h = by_count (count n (omega arith))
    where
      by_count : Count n → read_map_size (map_write (2 * n) ++ rest) ≡ some (n, some rest)
      by_count (fix a) =
          rw (map_write-fix n a, format-fixmap (0x80 + n) (omega arith) (omega arith))
            (ap (λ k. some (k, some rest)) (omega (arith, bit_and-mask 4 (0x80 + n))))
      by_count (count16 a b) =
          rw (map_write-count16 n a b) (ap (λ k. some (k, some rest)) (omega arith))
      by_count (count32 a b) =
          rw (map_write-count32 n a b) (ap (λ k. some (k, some rest)) (omega arith))

-- The mask -4 of `msgPackArrayLength` clears the two low bits.
bit_and-four : (n : ℕ) → n < 2 ^ 32 → bit_and n (2 ^ 32 - 4) ≡ n / 4 * 4
bit_and-four n h = omega (
  arith,
  bit_and_step n (2 ^ 32 - 4),
  bit_and_step (n / 2) (2 ^ 31 - 2),
  bit_and-mask 30 (n / 2 / 2),
)

-- `msgPackArrayLength` is below what `msgPackArrayWrite` writes exactly for the multiples of four
-- from 16 on.
pub array_length-short :
    (n : ℕ) → n < 2 ^ 32 → (array_length n < length (array_write n)) ↔ ((n % 4 ≡ 0) × (16 ≤ n))
unfolding array_length array_write
array_length-short n h = (
  λ e. ground (arith, bit_and-four n h, bit_and-mask 4 n),
  λ e. ground (arith, bit_and-four n h, bit_and-mask 4 n),
)
