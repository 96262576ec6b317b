-- ===== src/MsgPack/Format.antt =====
-- The table of formats of src/include/msgpack.h, and the map from a first byte to its format that
-- src/hlib/msgPack/static.c fills.
use honey_os.Base.{ℕ, zero, suc, ◌+◌, ◌-◌, ◌^◌, List, [], ◌∷◌, update}

pub data ReadType : Type 0 where
  inline inline_length fixed_length read_length elements_inline read_elements : ReadType

pub data DataType : Type 0 where
  integer nil boolean float string binary array map extension unused : DataType

-- `Formats`, in the order of the table `FORMATS`.
pub data Format : Type 0 where
  positive_fixint fixmap fixarray fixstr nil unused fixbool bin8 bin16 bin32 ext8 ext16 ext32 :
      Format
  float32 float64 uint8 uint16 uint32 uint64 int8 int16 int32 int64 fixext1 fixext2 fixext4 : Format
  fixext8 fixext16 str8 str16 str32 array16 array32 map16 map32 negative_fixint : Format

-- `FormatInfo`, less the name that only messages use. `read_type_parameter` is a `uint32_t`.
pub record FormatInfo : Type 0 where
  pub data_type : DataType
  pub read_type : ReadType
  pub read_type_parameter : ℕ
  pub min : ℕ
  pub max : ℕ

abbrev info : DataType → ℕ → ℕ → ReadType → ℕ → FormatInfo
info data_type min max read_type parameter = record {
  data_type = data_type;
  read_type = read_type;
  read_type_parameter = parameter;
  min = min;
  max = max;
}

-- `formatInfo[]`; a negative parameter is stored modulo 2 ^ 32.
unfoldable pub format_info : Format → FormatInfo
format_info Format.positive_fixint = info DataType.integer 0x00 0x7f ReadType.inline (2 ^ 32 - 7)
format_info Format.fixmap = info DataType.map 0x80 0x8f ReadType.elements_inline (2 ^ 32 - 4)
format_info Format.fixarray = info DataType.array 0x90 0x9f ReadType.elements_inline (2 ^ 32 - 4)
format_info Format.fixstr = info DataType.string 0xa0 0xbf ReadType.inline_length (2 ^ 32 - 5)
format_info Format.nil = info DataType.nil 0xc0 0xc0 ReadType.inline 0
format_info Format.unused = info DataType.unused 0xc1 0xc1 ReadType.inline 0
format_info Format.fixbool = info DataType.boolean 0xc2 0xc3 ReadType.inline (2 ^ 32 - 1)
format_info Format.bin8 = info DataType.binary 0xc4 0xc4 ReadType.read_length 1
format_info Format.bin16 = info DataType.binary 0xc5 0xc5 ReadType.read_length 2
format_info Format.bin32 = info DataType.binary 0xc6 0xc6 ReadType.read_length 4
format_info Format.ext8 = info DataType.extension 0xc7 0xc7 ReadType.read_length 1
format_info Format.ext16 = info DataType.extension 0xc8 0xc8 ReadType.read_length 2
format_info Format.ext32 = info DataType.extension 0xc9 0xc9 ReadType.read_length 4
format_info Format.float32 = info DataType.float 0xca 0xca ReadType.fixed_length 4
format_info Format.float64 = info DataType.float 0xcb 0xcb ReadType.fixed_length 8
format_info Format.uint8 = info DataType.integer 0xcc 0xcc ReadType.fixed_length 1
format_info Format.uint16 = info DataType.integer 0xcd 0xcd ReadType.fixed_length 2
format_info Format.uint32 = info DataType.integer 0xce 0xce ReadType.fixed_length 4
format_info Format.uint64 = info DataType.integer 0xcf 0xcf ReadType.fixed_length 8
format_info Format.int8 = info DataType.integer 0xd0 0xd0 ReadType.fixed_length 1
format_info Format.int16 = info DataType.integer 0xd1 0xd1 ReadType.fixed_length 2
format_info Format.int32 = info DataType.integer 0xd2 0xd2 ReadType.fixed_length 4
format_info Format.int64 = info DataType.integer 0xd3 0xd3 ReadType.fixed_length 8
format_info Format.fixext1 = info DataType.extension 0xd4 0xd4 ReadType.fixed_length 1
format_info Format.fixext2 = info DataType.extension 0xd5 0xd5 ReadType.fixed_length 2
format_info Format.fixext4 = info DataType.extension 0xd6 0xd6 ReadType.fixed_length 4
format_info Format.fixext8 = info DataType.extension 0xd7 0xd7 ReadType.fixed_length 8
format_info Format.fixext16 = info DataType.extension 0xd8 0xd8 ReadType.fixed_length 16
format_info Format.str8 = info DataType.string 0xd9 0xd9 ReadType.read_length 1
format_info Format.str16 = info DataType.string 0xda 0xda ReadType.read_length 2
format_info Format.str32 = info DataType.string 0xdb 0xdb ReadType.read_length 4
format_info Format.array16 = info DataType.array 0xdc 0xdc ReadType.read_elements 2
format_info Format.array32 = info DataType.array 0xdd 0xdd ReadType.read_elements 4
format_info Format.map16 = info DataType.map 0xde 0xde ReadType.read_elements 2
format_info Format.map32 = info DataType.map 0xdf 0xdf ReadType.read_elements 4
format_info Format.negative_fixint = info DataType.integer 0xe0 0xff ReadType.inline (2 ^ 32 - 5)

-- The position of a format in the enumeration.
unfoldable pub position : Format → ℕ
position Format.positive_fixint = 0
position Format.fixmap = 1
position Format.fixarray = 2
position Format.fixstr = 3
position Format.nil = 4
position Format.unused = 5
position Format.fixbool = 6
position Format.bin8 = 7
position Format.bin16 = 8
position Format.bin32 = 9
position Format.ext8 = 10
position Format.ext16 = 11
position Format.ext32 = 12
position Format.float32 = 13
position Format.float64 = 14
position Format.uint8 = 15
position Format.uint16 = 16
position Format.uint32 = 17
position Format.uint64 = 18
position Format.int8 = 19
position Format.int16 = 20
position Format.int32 = 21
position Format.int64 = 22
position Format.fixext1 = 23
position Format.fixext2 = 24
position Format.fixext4 = 25
position Format.fixext8 = 26
position Format.fixext16 = 27
position Format.str8 = 28
position Format.str16 = 29
position Format.str32 = 30
position Format.array16 = 31
position Format.array32 = 32
position Format.map16 = 33
position Format.map32 = 34
position Format.negative_fixint = 35

-- All formats, in the order in which `initializeFlatBuffers` fills the map.
abbrev pub formats : List Format
formats =
    Format.positive_fixint ∷ Format.fixmap ∷ Format.fixarray ∷ Format.fixstr ∷ Format.nil
    ∷ Format.unused ∷ Format.fixbool ∷ Format.bin8 ∷ Format.bin16 ∷ Format.bin32 ∷ Format.ext8
    ∷ Format.ext16 ∷ Format.ext32 ∷ Format.float32 ∷ Format.float64 ∷ Format.uint8 ∷ Format.uint16
    ∷ Format.uint32 ∷ Format.uint64 ∷ Format.int8 ∷ Format.int16 ∷ Format.int32 ∷ Format.int64
    ∷ Format.fixext1 ∷ Format.fixext2 ∷ Format.fixext4 ∷ Format.fixext8 ∷ Format.fixext16
    ∷ Format.str8 ∷ Format.str16 ∷ Format.str32 ∷ Format.array16 ∷ Format.array32 ∷ Format.map16
    ∷ Format.map32 ∷ Format.negative_fixint ∷ []

-- `fillSpots`, `n` rounds of its loop from `i` on.
unfoldable pub fill_spots : (i n : ℕ) → Format → (ℕ → Format) → ℕ → Format
fill_spots i zero value spots = spots
fill_spots i (suc n) value spots = fill_spots (i + 1) n value (update spots i value)

fill : List Format → (ℕ → Format) → ℕ → Format
fill [] spots = spots
fill (f ∷ fs) spots =
    let i = format_info f in fill fs (fill_spots i.min (i.max + 1 - i.min) f spots)

-- `initializeFlatBuffers` on `FirstByteToFormat`, which starts as zeros.
unfoldable pub initialize_flat_buffers : ℕ → Format
unfolding fill fill_spots format_info update
initialize_flat_buffers = fill formats (λ _. Format.positive_fixint)
