-- ===== src/MsgPack/Integer.antt =====
-- src/hlib/msgPack/integer.c and `msgPackReadLength` of util.c. An `int32_t` is its bit pattern; a
-- write gives the bytes that it puts into the buffer; messages on errors are left out.
pub mod Length
pub mod RoundTrip
pub mod Written
use honey_os.Base.{
  ℕ, ◌+◌, ◌-◌, ◌*◌, ◌/◌, ◌%◌, ◌^◌, Bool, true, false, ◌&&◌, ◌||◌, not, Option, none, some, List, [],
  ◌∷◌, ltb, leb, ◌==◌, if◌then◌else◌, bit_and, ◌>>=◌,
}
use honey_os.Base.Int.{ℤ, pos, negsuc, signed32, signed16, signed8, extend16, extend8}
use honey_os.Base.Bytes.{le16, le32, read8, read16, read32}
use honey_os.MsgPack.Format.{
  DataType, Format, FormatInfo, format_info, position, initialize_flat_buffers,
}

pub data IntegerType : Type 0 where
  signed unsigned : IntegerType

is_signed : IntegerType → Bool
is_signed signed = true
is_signed unsigned = false

-- `~x`
abbrev pub complement : ℕ → ℕ
complement x = 2 ^ 32 - 1 - x

-- `ABS(x)`
abbrev pub abs : ℕ → ℕ
abs x = if ltb x (2 ^ 31) then x else (2 ^ 32 - x) % 2 ^ 32

-- `msgPackIntegerLength`; the type is not looked at.
unfoldable pub integer_length : ℕ → IntegerType → ℕ
integer_length value type =
    if (bit_and value 0x7f == value) || (bit_and (complement value) 0x1f == complement value)
    then 1
    else (let magnitude = abs value in
        if bit_and magnitude 0xff == magnitude
        then 2
        else if bit_and magnitude 0xffff == magnitude
        then 3
        else if bit_and magnitude 0xffff_ffff == magnitude
        then 5
        else 9)

abbrev pub first_byte : Format → ℕ
first_byte f = (format_info f).min

-- `msgPackIntegerWrite`. A comparison of a narrower value with `x` is one of bit patterns: an
-- unsigned narrow value is never equal to a negative `x`, and `(uint32_t)x == x` is always true.
unfoldable pub integer_write : ℕ → IntegerType → List ℕ
unfolding format_info is_signed
integer_write x type =
    if leb (2 ^ 31) x && not (is_signed type)
    then first_byte Format.uint32 ∷ le32 x
    else if bit_and x 0x7f == x
    then x % 256 ∷ []
    else if bit_and (complement x) 0x1f == complement x
    then x % 256 ∷ []
    else if x % 2 ^ 8 == x
    then first_byte Format.uint8 ∷ (x % 256) ∷ []
    else if extend8 (x % 2 ^ 8) == x
    then first_byte Format.int8 ∷ (x % 256) ∷ []
    else if x % 2 ^ 16 == x
    then first_byte Format.uint16 ∷ le16 (x % 2 ^ 16)
    else if extend16 (x % 2 ^ 16) == x
    then first_byte Format.int16 ∷ le16 (x % 2 ^ 16)
    else if x % 2 ^ 32 == x
    then first_byte Format.uint32 ∷ le32 x
    else first_byte Format.int32 ∷ le32 x

-- `msgPackReadLength`; `size` is the parameter of a format, cast to `int8_t`.
unfoldable pub read_length : List ℕ → ℕ → Option ℕ
read_length buffer size =
    let narrow = size % 256 in
    if leb 128 narrow
    then (do first ← read8 buffer 0; some (bit_and first (2 ^ (256 - narrow) - 1)))
    else if narrow == 1
    then read8 buffer 1
    else if narrow == 2
    then read16 buffer 1
    else if narrow == 4
    then read32 buffer 1
    else some 0

abbrev pub is_integer : DataType → Bool
is_integer t = elim t [ DataType.integer ↦ true | _ ↦ false ]

infix 50 ◌is◌
abbrev pub ◌is◌ : Format → Format → Bool
f is g = position f == position g

-- The branch of `msgPackReadInt` for `format < FORMAT_INT8`.
unfoldable pub read_below_int8 : Format → ℕ → List ℕ → Option ℤ
unfolding position format_info
read_below_int8 format first buffer =
    if format is Format.positive_fixint
    then some (pos (bit_and first (2 ^ (2 ^ 32 - (format_info format).read_type_parameter) - 1)))
    else if format is Format.uint8
    then (do n ← read8 buffer 1; some (pos n))
    else if format is Format.uint16
    then (do n ← read16 buffer 1; some (pos n))
    else if format is Format.uint32
    then (do n ← read32 buffer 1; some (pos n))
    else some (pos 0)

-- The rest of it; `FORMAT_INT8` is read at `data`, the others behind the first byte.
unfoldable pub read_from_int8 : Format → ℕ → List ℕ → Option ℤ
unfolding position
read_from_int8 format first buffer =
    if format is Format.negative_fixint
    then some (signed8 first)
    else if format is Format.int8
    then some (signed8 first)
    else if format is Format.int16
    then (do n ← read16 buffer 1; some (signed16 n))
    else if format is Format.int32
    then (do n ← read32 buffer 1; some (signed32 n))
    else some (pos 0)

-- `msgPackReadInt`; `none` is a read behind the end of the buffer.
unfoldable pub read_int : List ℕ → Option ℤ
unfolding initialize_flat_buffers read_below_int8 read_from_int8
read_int buffer = do
  first ← read8 buffer 0
  let format = initialize_flat_buffers first
  if not (is_integer (format_info format).data_type)
      then some (pos 0)
      else (if ltb (position format) (position Format.int8)
          then read_below_int8 format first buffer
          else read_from_int8 format first buffer)

-- `msgPackReadUint`
unfoldable pub read_uint : List ℕ → Option ℕ
read_uint buffer = do as_int ← read_int buffer; some (elim as_int [ pos n ↦ n | negsuc n ↦ 0 ])
