-- ===== src/MsgPack/Integer/Length.antt =====
-- `msgPackIntegerLength`, by which the macro `CREATE` allocates, against the bytes that
-- `msgPackIntegerWrite` writes.
use honey_os.Base.{
  ℕ, ◌-◌, ◌^◌, ◌≤◌, ◌<◌, ◌≡◌, ◌||◌, ltb, leb, if◌then◌else◌, arith, ◌⊎◌, ◌↔◌, length,
}
use honey_os.Base.Bits.{bit_and-mask}
use honey_os.MsgPack.Integer.{IntegerType, signed, complement, abs, integer_length, integer_write}
use honey_os.MsgPack.Integer.Written.{
  Range, small, uint8, uint16, uint32, below_int16, int16, int8, negative_fixint, range,
  integer_write-small, integer_write-uint8, integer_write-uint16, integer_write-uint32,
  integer_write-below_int16, integer_write-int16, integer_write-int8, integer_write-negative_fixint,
}

-- The masks of the function as remainders.
integer_length_lem :
    (x : ℕ) (type : IntegerType)
    → x < 2 ^ 32
    → integer_length x type ≡ (
        if ltb x 128 || leb (2 ^ 32 - 32) x
        then 1
        else if ltb (abs x) 256
        then 2
        else if ltb (abs x) (2 ^ 16)
        then 3
        else 5)
unfolding integer_length
integer_length_lem x type h = ground (
  arith,
  bit_and-mask 7 x,
  bit_and-mask 5 (complement x),
  bit_and-mask 8 (abs x),
  bit_and-mask 16 (abs x),
  bit_and-mask 32 (abs x),
)

-- The values of type `Signed` for which too little is allocated: those in [-255, -129] and in
-- [-65535, -32769].
abbrev pub IsShort : ℕ → Type 0
IsShort x =
    ((2 ^ 32 - 255 ≤ x) × (x < 2 ^ 32 - 128)) ⊎ ((2 ^ 32 - 65535 ≤ x) × (x < 2 ^ 32 - 2 ^ 15))

length-signed :
    (x : ℕ)
    → x < 2 ^ 32
    → Range x
    → length (integer_write x signed) ≡ (
        if ltb x 128 || leb (2 ^ 32 - 32) x
        then 1
        else if ltb x 256 || leb (2 ^ 32 - 128) x
        then 2
        else if ltb x (2 ^ 16) || leb (2 ^ 32 - 2 ^ 15) x
        then 3
        else 5)
length-signed x h (small a) = rw (integer_write-small x signed a) (ground arith)
length-signed x h (uint8 a b) = rw (integer_write-uint8 x signed a b) (ground arith)
length-signed x h (uint16 a b) = rw (integer_write-uint16 x signed a b) (ground arith)
length-signed x h (uint32 a b) = rw (integer_write-uint32 x signed a b) (ground arith)
length-signed x h (below_int16 a b) = rw (integer_write-below_int16 x a b) (ground arith)
length-signed x h (int16 a b) = rw (integer_write-int16 x a b) (ground arith)
length-signed x h (int8 a b) = rw (integer_write-int8 x a b) (ground arith)
length-signed x h (negative_fixint a b) = rw (integer_write-negative_fixint x a b) (ground arith)

-- For a value of type `Signed` the length that is allocated is below what is written exactly for the
-- values in [-255, -129] and in [-65535, -32769].
pub integer_length-IsShort :
    (x : ℕ) → x < 2 ^ 32 → (integer_length x signed < length (integer_write x signed)) ↔ IsShort x
integer_length-IsShort x h =
    let allocated = integer_length_lem x signed h in
    let written = length-signed x h (range x h) in
    (λ e. ground (arith, allocated, written), λ s. ground (arith, allocated, written))

-- For a value that is not negative the length is exactly what is written, whatever the type.
pub integer_length-exact :
    (x : ℕ) (type : IntegerType)
    → x < 2 ^ 31
    → length (integer_write x type) ≡ integer_length x type
integer_length-exact x type h = exact (range x (omega arith))
  where
    allocated : integer_length x type ≡ (
        if ltb x 128 || leb (2 ^ 32 - 32) x
        then 1
        else if ltb (abs x) 256
        then 2
        else if ltb (abs x) (2 ^ 16)
        then 3
        else 5)
    allocated = integer_length_lem x type (omega arith)

    exact : Range x → length (integer_write x type) ≡ integer_length x type
    exact (small a) = rw (integer_write-small x type a) (ground (arith, allocated))
    exact (uint8 a b) = rw (integer_write-uint8 x type a b) (ground (arith, allocated))
    exact (uint16 a b) = rw (integer_write-uint16 x type a b) (ground (arith, allocated))
    exact (uint32 a b) = rw (integer_write-uint32 x type a b) (ground (arith, allocated))
    exact (below_int16 a b) = absurd (omega arith)
    exact (int16 a b) = absurd (omega arith)
    exact (int8 a b) = absurd (omega arith)
    exact (negative_fixint a b) = absurd (omega arith)
