-- ===== src/MsgPack/Sequence.antt =====
-- src/hlib/msgPack/array.c: the headers of arrays and maps.
pub mod RoundTrip
use honey_os.Base.{
  ℕ, ◌+◌, ◌-◌, ◌/◌, ◌%◌, ◌^◌, Bool, true, false, Option, none, some, List, [], ◌∷◌, ◌==◌,
  if◌then◌else◌, bit_and, ◌>>=◌, drop,
}
use honey_os.Base.Bytes.{le16, le32, read8}
use honey_os.MsgPack.Format.{
  DataType, Format, FormatInfo, format_info, position, initialize_flat_buffers,
}
use honey_os.MsgPack.Integer.{first_byte, ◌is◌, read_length}

-- `msgPackArrayLength`; the mask is the read parameter of the format, -4.
unfoldable pub array_length : ℕ → ℕ
unfolding format_info
array_length n =
    if bit_and n (format_info Format.fixarray).read_type_parameter == n
    then 1
    else if n % 2 ^ 16 == n
    then 3
    else if n % 2 ^ 32 == n
    then 5
    else 1

-- `msgPackArrayWrite`
unfoldable pub array_write : ℕ → List ℕ
unfolding format_info
array_write n =
    if bit_and n 0xf == n
    then ((first_byte Format.fixarray + n) % 256) ∷ []
    else if n % 2 ^ 16 == n
    then first_byte Format.array16 ∷ le16 (n % 2 ^ 16)
    else if n % 2 ^ 32 == n
    then first_byte Format.array32 ∷ le32 (n % 2 ^ 32)
    else []

-- `msgPackMapLength`, on the number of keys and values.
unfoldable pub map_length : ℕ → ℕ
unfolding array_length
map_length n = if n % 2 == 0 then array_length (n / 2) else 0

-- `msgPackMapWrite`, on the same number.
unfoldable pub map_write : ℕ → List ℕ
unfolding format_info
map_write n =
    if n % 2 == 0
    then (let pairs = n / 2 in
        if bit_and pairs 0x0f == pairs
        then ((first_byte Format.fixmap + pairs) % 256) ∷ []
        else if bit_and pairs 0xffff == pairs
        then first_byte Format.map16 ∷ le16 (pairs % 2 ^ 16)
        else first_byte Format.map32 ∷ le32 pairs)
    else []

abbrev pub is_array : DataType → Bool
is_array t = elim t [ DataType.array ↦ true | _ ↦ false ]

abbrev pub is_map : DataType → Bool
is_map t = elim t [ DataType.map ↦ true | _ ↦ false ]

-- `*firstElement`, for a format of the right type: the header has 1, 3 or 5 bytes.
abbrev first_element : (inline short : Format) → Format → List ℕ → List ℕ
first_element inline short format buffer =
    if format is inline
    then drop 1 buffer
    else if format is short
    then drop 3 buffer
    else drop 5 buffer

-- `msgPackReadArraySize`: the size and `*firstElement`, which is not set if there is no array. The
-- outer `none` is a read behind the end of the buffer.
unfoldable pub read_array_size : List ℕ → Option (ℕ × Option (List ℕ))
unfolding initialize_flat_buffers format_info read_length position
read_array_size buffer = do
  first ← read8 buffer 0
  let format = initialize_flat_buffers first
  let size = do
    n ← read_length buffer (format_info format).read_type_parameter
    some (n, some (first_element Format.fixarray Format.array16 format buffer))
  if is_array (format_info format).data_type then size else some (0, none)

-- `msgPackReadMapSize`: the number of pairs and `*firstElement`.
unfoldable pub read_map_size : List ℕ → Option (ℕ × Option (List ℕ))
unfolding initialize_flat_buffers format_info read_length position
read_map_size buffer = do
  first ← read8 buffer 0
  let format = initialize_flat_buffers first
  let size = do
    n ← read_length buffer (format_info format).read_type_parameter
    some (n, some (first_element Format.fixmap Format.map16 format buffer))
  if is_map (format_info format).data_type then size else some (0, none)
