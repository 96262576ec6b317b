-- ===== src/MsgPack/Seek/Skip.antt =====
-- `msgPackSeek` on an encoded value stops exactly behind it.
use mathlib.Core.List.{append_assoc}
use honey_os.Base.{
  ℕ, suc, ◌+◌, ◌*◌, ◌/◌, ◌%◌, ◌^◌, ◌≤◌, ◌<◌, ◌≡◌, refl, some, List, ◌∷◌, ◌++◌, bit_and, arith,
  length, drop, drop-append,
}
use honey_os.Base.Bits.{bit_and-mask}
use honey_os.Base.Bytes.{le16, le32}
use honey_os.MsgPack.FirstByte.{
  format-positive_fixint, format-negative_fixint, format-fixstr, format-fixarray, format-fixmap,
}
use honey_os.MsgPack.Integer.{IntegerType, signed, unsigned, integer_write}
use honey_os.MsgPack.Integer.Written
use honey_os.MsgPack.Integer.Written.{Range, range}
use honey_os.MsgPack.Text.{string_header, string_write}
use honey_os.MsgPack.Text.RoundTrip as TextTrip
use honey_os.MsgPack.Text.RoundTrip.{Size}
use honey_os.MsgPack.Sequence.{array_write, map_write}
use honey_os.MsgPack.Sequence.RoundTrip as SequenceTrip
use honey_os.MsgPack.Sequence.RoundTrip.{Count, count}
use honey_os.MsgPack.Seek.{seek_loop, seek}

module _ (fuel : ℕ) (rest : List ℕ) where
  -- Integers, by their first byte.
  seek-small : (x : ℕ) → x < 128 → seek (suc fuel) (x ∷ rest) ≡ some rest
  unfolding seek
  seek-small x h = rw (format-positive_fixint x h) refl

  seek-negative_fixint : (b : ℕ) → 0xe0 ≤ b → b < 256 → seek (suc fuel) (b ∷ rest) ≡ some rest
  unfolding seek
  seek-negative_fixint b h k = rw (format-negative_fixint b h k) refl

  seek-one :
      (b : ℕ)
      → (seek (suc fuel) (0xcc ∷ b ∷ rest) ≡ some rest)
        × (seek (suc fuel) (0xd0 ∷ b ∷ rest) ≡ some rest)
  unfolding seek
  seek-one b = (refl, refl)

  seek-two :
      (n : ℕ)
      → (seek (suc fuel) (0xcd ∷ le16 n ++ rest) ≡ some rest)
        × (seek (suc fuel) (0xd1 ∷ le16 n ++ rest) ≡ some rest)
  unfolding seek
  seek-two n = (refl, refl)

  seek-four : (n : ℕ) → seek (suc fuel) (0xce ∷ le32 n ++ rest) ≡ some rest
  unfolding seek
  seek-four n = refl

  seek-Range : (x : ℕ) → Range x → seek (suc fuel) (integer_write x signed ++ rest) ≡ some rest
  seek-Range x (Range.small h) = rw (Written.integer_write-small x signed h) (seek-small x h)
  seek-Range x (Range.uint8 h k) = rw (Written.integer_write-uint8 x signed h k) (seek-one x).0
  seek-Range x (Range.uint16 h k) = rw (Written.integer_write-uint16 x signed h k) (seek-two x).0
  seek-Range x (Range.uint32 h k) = rw (Written.integer_write-uint32 x signed h k) (seek-four x)
  seek-Range x (Range.below_int16 h k) = rw (Written.integer_write-below_int16 x h k) (seek-four x)
  seek-Range x (Range.int16 h k) = rw (Written.integer_write-int16 x h k) (seek-two _).1
  seek-Range x (Range.int8 h k) = rw (Written.integer_write-int8 x h k) (seek-one _).1
  seek-Range x (Range.negative_fixint h k) =
      rw (Written.integer_write-negative_fixint x h k)
        (seek-negative_fixint _ (omega arith) (omega arith))

  seek-unsigned :
      (x : ℕ)
      → Range x
      → x < 2 ^ 32
      → seek (suc fuel) (integer_write x unsigned ++ rest) ≡ some rest
  seek-unsigned x (Range.small h) b = rw (Written.integer_write-small x unsigned h) (seek-small x h)
  seek-unsigned x (Range.uint8 h k) b =
      rw (Written.integer_write-uint8 x unsigned h k) (seek-one x).0
  seek-unsigned x (Range.uint16 h k) b =
      rw (Written.integer_write-uint16 x unsigned h k) (seek-two x).0
  seek-unsigned x (Range.uint32 h k) b =
      rw (Written.integer_write-uint32 x unsigned h k) (seek-four x)
  seek-unsigned x (Range.below_int16 h k) b =
      rw (Written.integer_write-unsigned x h b) (seek-four x)
  seek-unsigned x (Range.int16 h k) b =
      rw (Written.integer_write-unsigned x (omega arith) b) (seek-four x)
  seek-unsigned x (Range.int8 h k) b =
      rw (Written.integer_write-unsigned x (omega arith) b) (seek-four x)
  seek-unsigned x (Range.negative_fixint h k) b =
      rw (Written.integer_write-unsigned x (omega arith) b) (seek-four x)

  pub seek-integer :
      (x : ℕ) (type : IntegerType)
      → x < 2 ^ 32
      → seek (suc fuel) (integer_write x type ++ rest) ≡ some rest
  seek-integer x signed h = seek-Range x (range x h)
  seek-integer x unsigned h = seek-unsigned x (range x h) h

drop-over : (xs rest : List ℕ) (n : ℕ) → n ≡ length xs → some (drop n (xs ++ rest)) ≡ some rest
drop-over xs rest n e = rw (e, drop-append xs rest) refl

module _ (fuel : ℕ) (s rest : List ℕ) where
  -- Strings, by the size of their header.
  seek-size :
      Size (length s) → seek (suc fuel) (string_header (length s) ++ (s ++ rest)) ≡ some rest
  unfolding seek
  seek-size (Size.fix h) =
      let n : bit_and (0xa0 + length s) 31 % 2 ^ 32 ≡ length s =
        omega (arith, bit_and-mask 5 (0xa0 + length s)) in
      let format = format-fixstr (0xa0 + length s) (omega arith) (omega arith) in
      rw (TextTrip.string_header-fix (length s) h, format, n)
        (drop-over ((0xa0 + length s) ∷ s) rest (1 + length s) (omega arith))
  seek-size (Size.size8 h k) =
      rw (TextTrip.string_header-size8 (length s) h k)
        (drop-over (0xd9 ∷ length s ∷ s) rest (2 + length s % 2 ^ 32) (omega arith))
  seek-size (Size.size16 h k) =
      let l = length s in
      rw (TextTrip.string_header-size16 l h k) (
        drop-over (0xda ∷ (l % 256) ∷ (l / 256 % 256) ∷ s) rest
          (3 + (l % 256 + l / 256 % 256 * 256) % 2 ^ 32) (omega arith))
  seek-size (Size.size32 h k) =
      let l = length s in
      rw (TextTrip.string_header-size32 l h k) (
        drop-over
          (0xdb ∷ (l % 256) ∷ (l / 256 % 256) ∷ (l / 65536 % 256) ∷ (l / 16777216 % 256) ∷ s) rest
          (5
            + (l % 256
                + l / 256 % 256 * 256
                + l / 65536 % 256 * 65536
                + l / 16777216 % 256 * 16777216)
              % 2 ^ 32)
          (omega arith))

  pub seek-text : length s < 2 ^ 32 → seek (suc fuel) (string_write s ++ rest) ≡ some rest
  unfolding string_write
  seek-text h =
      rw (append_assoc (string_header (length s)) s rest) (seek-size (TextTrip.size (length s) h))

module _ (fuel n : ℕ) (rest : List ℕ) where
  -- The headers of arrays and maps.
  pub seek-array :
      n < 256 → seek (suc fuel) (array_write n ++ rest) ≡ seek_loop (seek fuel) fuel 0 n rest
  unfolding seek
  seek-array h = by_count (count n (omega arith))
    where
      by_count :
          Count n → seek (suc fuel) (array_write n ++ rest) ≡ seek_loop (seek fuel) fuel 0 n rest
      by_count (Count.fix a) =
          let m : bit_and (0x90 + n) 15 % 2 ^ 32 ≡ n = omega (arith, bit_and-mask 4 (0x90 + n)) in
          let format = format-fixarray (0x90 + n) (omega arith) (omega arith) in
          rw (SequenceTrip.array_write-fix n a, format, m) refl
      by_count (Count.count16 a b) =
          let m : (n % 256 + n / 256 % 256 * 256) % 2 ^ 32 ≡ n = omega arith in
          rw (SequenceTrip.array_write-count16 n a b, m) refl
      by_count (Count.count32 a b) = absurd (omega arith)

  pub seek-map :
      n < 128
      → seek (suc fuel) (map_write (2 * n) ++ rest) ≡ seek_loop (seek fuel) fuel 0 (n * 2) rest
  unfolding seek
  seek-map h = by_count (count n (omega arith))
    where
      by_count :
          Count n
          → seek (suc fuel) (map_write (2 * n) ++ rest) ≡ seek_loop (seek fuel) fuel 0 (n * 2) rest
      by_count (Count.fix a) =
          let m : bit_and (0x80 + n) 15 * 2 % 2 ^ 32 ≡ n * 2 =
            omega (arith, bit_and-mask 4 (0x80 + n)) in
          let format = format-fixmap (0x80 + n) (omega arith) (omega arith) in
          rw (SequenceTrip.map_write-fix n a, format, m) refl
      by_count (Count.count16 a b) =
          let m : (n % 256 + n / 256 % 256 * 256) * 2 % 2 ^ 32 ≡ n * 2 = omega arith in
          rw (SequenceTrip.map_write-count16 n a b, m) refl
      by_count (Count.count32 a b) = absurd (omega arith)
