-- ===== src/MsgPack/Text/RoundTrip.antt =====
-- A string that is written is read back, and its length is what is allocated for it.
use honey_os.Base.{
  ℕ, ◌+◌, ◌*◌, ◌/◌, ◌%◌, ◌^◌, ◌≤◌, ◌<◌, bit_and, ◌≡◌, refl, some, List, [], ◌∷◌, ◌++◌, arith,
  length, length-append,
}
use native.Mathlib.Decide.{dec_lt}
use honey_os.Base.Bits.{bit_and-mask}
use honey_os.Base.Bytes.{le16, le32}
use honey_os.MsgPack.FirstByte.{format-fixstr}
use honey_os.MsgPack.Integer.{read_length}
use honey_os.MsgPack.Text.{string_length, string_header, string_write, read_bytes, read_str}

-- The lengths that the encoder tells apart.
pub data Size (n : ℕ) : Type 0 where
  fix : n < 32 → Size n
  size8 : 32 ≤ n → n < 256 → Size n
  size16 : 256 ≤ n → n < 2 ^ 16 → Size n
  size32 : 2 ^ 16 ≤ n → n < 2 ^ 32 → Size n

pub size : (n : ℕ) → n < 2 ^ 32 → Size n
size n h = elim (dec_lt n 32) [
  | yes a ↦ fix a
  | no a ↦ elim (dec_lt n 256) [
    | yes b ↦ size8 (omega arith) b
    | no b ↦ elim (dec_lt n (2 ^ 16)) [
      | yes c ↦ size16 (omega arith) c
      | no c ↦ size32 (omega arith) h
    ]
  ]
]

pub string_header-fix : (n : ℕ) → n < 32 → string_header n ≡ (0xa0 + n) ∷ []
unfolding string_header
string_header-fix n h = ground (arith, bit_and-mask 5 n)

pub string_header-size8 : (n : ℕ) → 32 ≤ n → n < 256 → string_header n ≡ 0xd9 ∷ n ∷ []
unfolding string_header
string_header-size8 n h k = ground (arith, bit_and-mask 5 n, bit_and-mask 8 n)

pub string_header-size16 : (n : ℕ) → 256 ≤ n → n < 2 ^ 16 → string_header n ≡ 0xda ∷ le16 n
unfolding string_header
string_header-size16 n h k = ground (arith, bit_and-mask 5 n, bit_and-mask 8 n, bit_and-mask 16 n)

pub string_header-size32 : (n : ℕ) → 2 ^ 16 ≤ n → n < 2 ^ 32 → string_header n ≡ 0xdb ∷ le32 n
unfolding string_header
string_header-size32 n h k = ground (arith, bit_and-mask 5 n, bit_and-mask 8 n, bit_and-mask 16 n)

pub read_bytes-append :
    (xs rest : List ℕ) (n : ℕ) → n ≡ length xs → read_bytes n (xs ++ rest) ≡ some xs
read_bytes-append [] rest n e = rw e refl
read_bytes-append (x ∷ xs) rest n e = rw (e, read_bytes-append xs rest (length xs) refl) refl

module _ (s rest : List ℕ) where
  read_str-fix : length s < 32 → read_str ((0xa0 + length s) ∷ s ++ rest) ≡ some (some s)
  unfolding read_str read_length
  read_str-fix h =
      let n : bit_and (0xa0 + length s) 31 % 2 ^ 32 ≡ length s =
        omega (arith, bit_and-mask 5 (0xa0 + length s)) in
      rw (format-fixstr (0xa0 + length s) (omega arith) (omega arith), read_bytes-append s rest _ n)
        refl

  read_str-size8 : length s < 256 → read_str (0xd9 ∷ length s ∷ s ++ rest) ≡ some (some s)
  unfolding read_str
  read_str-size8 h = rw (read_bytes-append s rest (length s % 2 ^ 32) (omega arith)) refl

  read_str-size16 :
      length s < 2 ^ 16 → read_str (0xda ∷ le16 (length s) ++ s ++ rest) ≡ some (some s)
  unfolding read_str
  read_str-size16 h =
      let n : (length s % 256 + length s / 256 % 256 * 256) % 2 ^ 32 ≡ length s = omega arith in
      rw (read_bytes-append s rest _ n) refl

  read_str-size32 :
      length s < 2 ^ 32 → read_str (0xdb ∷ le32 (length s) ++ s ++ rest) ≡ some (some s)
  unfolding read_str
  read_str-size32 h =
      let l = length s in
      let n : (l % 256
              + l / 256 % 256 * 256
              + l / 65536 % 256 * 65536
              + l / 16777216 % 256 * 16777216)
            % 2 ^ 32
          ≡ l =
        omega arith in
      rw (read_bytes-append s rest _ n) refl

  -- `msgPackReadStr` reads back what `msgPackStringWrite` wrote, for every string below 4 GiB.
  pub read_str-string_write : length s < 2 ^ 32 → read_str (string_write s ++ rest) ≡ some (some s)
  unfolding string_write
  read_str-string_write h = by_size (size (length s) h)
    where
      by_size : Size (length s) → read_str ((string_header (length s) ++ s) ++ rest) ≡ some (some s)
      by_size (fix a) = rw (string_header-fix (length s) a) (read_str-fix a)
      by_size (size8 a b) = rw (string_header-size8 (length s) a b) (read_str-size8 b)
      by_size (size16 a b) = rw (string_header-size16 (length s) a b) (read_str-size16 b)
      by_size (size32 a b) = rw (string_header-size32 (length s) a b) (read_str-size32 b)

-- `msgPackStringLength` is exactly the number of bytes that `msgPackStringWrite` writes, for every
-- string that leaves room for its header below 4 GiB.
pub string_length-string_write :
    (s : List ℕ) → length s + 5 < 2 ^ 32 → length (string_write s) ≡ string_length (length s)
unfolding string_write string_length
string_length-string_write s h = by_size (size (length s) (omega arith))
  where
    total : length (string_header (length s) ++ s) ≡ length (string_header (length s)) + length s
    total = length-append (string_header (length s)) s

    by_size : Size (length s) → length (string_header (length s) ++ s) ≡ string_length (length s)
    by_size (fix a) =
        ground (arith, total, string_header-fix (length s) a, bit_and-mask 5 (length s))
    by_size (size8 a b) = ground (
      arith,
      total,
      string_header-size8 (length s) a b,
      bit_and-mask 5 (length s),
      bit_and-mask 8 (length s),
    )
    by_size (size16 a b) = ground (
      arith,
      total,
      string_header-size16 (length s) a b,
      bit_and-mask 5 (length s),
      bit_and-mask 8 (length s),
      bit_and-mask 16 (length s),
    )
    by_size (size32 a b) = ground (
      arith,
      total,
      string_header-size32 (length s) a b,
      bit_and-mask 5 (length s),
      bit_and-mask 8 (length s),
      bit_and-mask 16 (length s),
    )
