-- ===== src/MsgPack/Seek.antt =====
-- `msgPackSeek` of src/hlib/msgPack/util.c, and the values that the macro `CREATE` of
-- src/include/msgpack.h writes.
pub mod Skip
pub mod Behind
use honey_os.Base.{
  ℕ, zero, suc, ◌+◌, ◌*◌, ◌%◌, ◌^◌, Bool, true, false, Option, none, some, List, [], ◌∷◌, ◌++◌, ltb,
  ◌==◌, if◌then◌else◌, ◌>>=◌, length, drop,
}
use honey_os.Base.Bytes.{read8}
use honey_os.MsgPack.Format.{ReadType, FormatInfo, format_info, initialize_flat_buffers}
use honey_os.MsgPack.Integer.{IntegerType, integer_length, integer_write, read_length}
use honey_os.MsgPack.Text.{string_length, string_write}
use honey_os.MsgPack.Sequence.{array_length, array_write, map_length, map_write, is_map}

-- The loop over the elements, whose counter `i` is a `uint8_t`.
unfoldable pub seek_loop : (List ℕ → Option (List ℕ)) → (fuel i n : ℕ) → List ℕ → Option (List ℕ)
seek_loop next zero i n buffer = none
seek_loop next (suc fuel) i n buffer = elim (ltb i n) [
  | true ↦ next buffer >>= λ rest. seek_loop next fuel ((i + 1) % 2 ^ 8) n rest
  | false ↦ some buffer
]

-- The `switch` on the read type, for a length that is already doubled for a map.
unfoldable pub seek_type :
    (List ℕ → Option (List ℕ)) → (fuel : ℕ) → FormatInfo → (n : ℕ) → List ℕ → Option (List ℕ)
unfolding seek_loop
seek_type next fuel info n buffer =
    let parameter = info.read_type_parameter in
    elim info.read_type [
      | ReadType.inline ↦ some (drop 1 buffer)
      | ReadType.fixed_length ↦ some (drop (1 + parameter) buffer)
      | ReadType.read_length ↦ some (drop (1 + parameter + n) buffer)
      | ReadType.inline_length ↦ some (drop (1 + n) buffer)
      | ReadType.elements_inline ↦ seek_loop next fuel 0 n (drop 1 buffer)
      | ReadType.read_elements ↦ seek_loop next fuel 0 n (drop (1 + parameter) buffer)
    ]

-- `msgPackSeek`; the fuel bounds both how deep values are nested and how many elements a value has,
-- and `none` is its end, or a read behind the end of the buffer.
unfoldable pub seek : ℕ → List ℕ → Option (List ℕ)
unfolding seek_type read_length initialize_flat_buffers format_info
seek zero buffer = none
seek (suc fuel) buffer = do
  first ← read8 buffer 0
  let info = format_info (initialize_flat_buffers first)
  n ← read_length buffer info.read_type_parameter
  seek_type (seek fuel) fuel info ((if is_map info.data_type then n * 2 else n) % 2 ^ 32) buffer

-- What a definition for `CREATE` is made of: `INTEGER`, `STRING`, `ARRAY` or `LIST`, and `MAP`.
mutual
  pub data Value : Type 0 where
    integer : ℕ → IntegerType → Value
    text : List ℕ → Value
    array : Items → Value
    dictionary : Entries → Value

  pub data Items : Type 0 where
    nil : Items
    cons : Value → Items → Items

  pub data Entries : Type 0 where
    end : Entries
    entry : Value → Value → Entries → Entries

abbrev pub count_items : Items → ℕ
count_items nil = 0
count_items (cons v vs) = suc (count_items vs)

abbrev pub count_entries : Entries → ℕ
count_entries end = 0
count_entries (entry k v es) = suc (count_entries es)

-- The expansion of `definition(WRITE)`.
unfoldable mutual
  pub encode : Value → List ℕ
  encode (integer x type) = integer_write x type
  encode (text s) = string_write s
  encode (array vs) = array_write (count_items vs) ++ encode_items vs
  encode (dictionary es) = map_write (2 * count_entries es) ++ encode_entries es

  pub encode_items : Items → List ℕ
  encode_items nil = []
  encode_items (cons v vs) = encode v ++ encode_items vs

  pub encode_entries : Entries → List ℕ
  encode_entries end = []
  encode_entries (entry k v es) = encode k ++ (encode v ++ encode_entries es)

-- The expansion of `definition(LENGTH)`, the size that is allocated.
unfoldable mutual
  pub encoded_length : Value → ℕ
  encoded_length (integer x type) = integer_length x type
  encoded_length (text s) = string_length (length s)
  encoded_length (array vs) = array_length (count_items vs) + items_length vs
  encoded_length (dictionary es) = map_length (2 * count_entries es) + entries_length es

  pub items_length : Items → ℕ
  items_length nil = 0
  items_length (cons v vs) = encoded_length v + items_length vs

  pub entries_length : Entries → ℕ
  entries_length end = 0
  entries_length (entry k v es) = encoded_length k + (encoded_length v + entries_length es)

-- How much fuel a value wants.
unfoldable mutual
  pub size : Value → ℕ
  size (integer x type) = 0
  size (text s) = 0
  size (array vs) = suc (size_items vs)
  size (dictionary es) = suc (size_entries es)

  pub size_items : Items → ℕ
  size_items nil = 0
  size_items (cons v vs) = suc (size v + size_items vs)

  pub size_entries : Entries → ℕ
  size_entries end = 0
  size_entries (entry k v es) = suc (suc (size k + size v + size_entries es))
