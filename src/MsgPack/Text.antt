-- ===== src/MsgPack/Text.antt =====
-- src/hlib/msgPack/string.c without its map query. A string is the list of its characters in front of
-- the terminating zero.
pub mod RoundTrip
use honey_os.Base.{
  ℕ, zero, suc, ◌+◌, ◌%◌, ◌^◌, Bool, true, false, Option, none, some, List, [], ◌∷◌, ◌++◌, ◌==◌,
  if◌then◌else◌, bit_and, ◌>>=◌, length, drop,
}
use honey_os.Base.Bytes.{le16, le32, read8}
use honey_os.MsgPack.Format.{DataType, Format, format_info, position, initialize_flat_buffers}
use honey_os.MsgPack.Integer.{first_byte, ◌is◌, read_length}

-- `msgPackStringLength`
unfoldable pub string_length : ℕ → ℕ
string_length n =
    if bit_and n 0x1f == n
    then (1 + n) % 2 ^ 32
    else if bit_and n 0xff == n
    then (2 + n) % 2 ^ 32
    else if bit_and n 0xffff == n
    then (3 + n) % 2 ^ 32
    else (5 + n) % 2 ^ 32

-- The bytes in front of the characters.
unfoldable pub string_header : ℕ → List ℕ
unfolding format_info
string_header n =
    if bit_and n 0x1f == n
    then ((first_byte Format.fixstr + n) % 256) ∷ []
    else if bit_and n 0xff == n
    then first_byte Format.str8 ∷ (n % 256) ∷ []
    else if bit_and n 0xffff == n
    then first_byte Format.str16 ∷ le16 (n % 2 ^ 16)
    else first_byte Format.str32 ∷ le32 n

-- `msgPackStringWrite`
unfoldable pub string_write : List ℕ → List ℕ
unfolding string_header
string_write string = string_header (length string) ++ string

-- `memcpy` of `n` bytes from a buffer that may be too short.
abbrev pub read_bytes : ℕ → List ℕ → Option (List ℕ)
read_bytes zero buffer = some []
read_bytes (suc n) [] = none
read_bytes (suc n) (x ∷ buffer) = do xs ← read_bytes n buffer; some (x ∷ xs)

abbrev pub is_string : DataType → Bool
is_string t = elim t [ DataType.string ↦ true | _ ↦ false ]

-- The offset of the characters; the four formats are all of type `TYPE_STRING`.
unfoldable pub string_offset : Format → ℕ
unfolding position
string_offset format =
    if format is Format.fixstr
    then 1
    else if format is Format.str8
    then 2
    else if format is Format.str16
    then 3
    else 5

-- `msgPackReadStr`: the outer `none` is a read behind the end of the buffer, the inner one NULL.
unfoldable pub read_str : List ℕ → Option (Option (List ℕ))
unfolding initialize_flat_buffers format_info read_length string_offset
read_str buffer = do
  first ← read8 buffer 0
  let format = initialize_flat_buffers first
  let text = do
    n ← read_length buffer (format_info format).read_type_parameter
    string ← read_bytes (n % 2 ^ 32) (drop (string_offset format) buffer)
    some (some string)
  if is_string (format_info format).data_type then text else some none
