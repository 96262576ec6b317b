-- ===== src/MsgPack/Integer/Written.antt =====
-- The bytes that `msgPackIntegerWrite` writes, by the range of the value.
use honey_os.Base.{ℕ, ◌-◌, ◌^◌, ◌≤◌, ◌<◌, ◌≡◌, [], ◌∷◌, arith}
use native.Mathlib.Decide.{dec_lt}
use honey_os.Base.Bits.{bit_and-mask}
use honey_os.Base.Bytes.{le16, le32}
use honey_os.MsgPack.Integer.{IntegerType, complement, integer_write, signed, unsigned}

pub integer_write-small : (x : ℕ) (type : IntegerType) → x < 128 → integer_write x type ≡ x ∷ []
unfolding integer_write
integer_write-small x type h = ground (arith, bit_and-mask 7 x)

pub integer_write-uint8 :
    (x : ℕ) (type : IntegerType) → 128 ≤ x → x < 256 → integer_write x type ≡ 0xcc ∷ x ∷ []
unfolding integer_write
integer_write-uint8 x type h k = ground (arith, bit_and-mask 7 x, bit_and-mask 5 (complement x))

pub integer_write-uint16 :
    (x : ℕ) (type : IntegerType) → 256 ≤ x → x < 2 ^ 16 → integer_write x type ≡ 0xcd ∷ le16 x
unfolding integer_write
integer_write-uint16 x type h k = ground (arith, bit_and-mask 7 x, bit_and-mask 5 (complement x))

pub integer_write-uint32 :
    (x : ℕ) (type : IntegerType) → 2 ^ 16 ≤ x → x < 2 ^ 31 → integer_write x type ≡ 0xce ∷ le32 x
unfolding integer_write
integer_write-uint32 x type h k = ground (arith, bit_and-mask 7 x, bit_and-mask 5 (complement x))

pub integer_write-negative_fixint :
    (x : ℕ) → 2 ^ 32 - 32 ≤ x → x < 2 ^ 32 → integer_write x signed ≡ (x - (2 ^ 32 - 256)) ∷ []
unfolding integer_write
integer_write-negative_fixint x h k =
    ground (arith, bit_and-mask 7 x, bit_and-mask 5 (complement x))

pub integer_write-int8 :
    (x : ℕ)
    → 2 ^ 32 - 128 ≤ x
    → x < 2 ^ 32 - 32
    → integer_write x signed ≡ 0xd0 ∷ (x - (2 ^ 32 - 256)) ∷ []
unfolding integer_write
integer_write-int8 x h k = ground (arith, bit_and-mask 7 x, bit_and-mask 5 (complement x))

pub integer_write-int16 :
    (x : ℕ)
    → 2 ^ 32 - 2 ^ 15 ≤ x
    → x < 2 ^ 32 - 128
    → integer_write x signed ≡ 0xd1 ∷ le16 (x - (2 ^ 32 - 2 ^ 16))
unfolding integer_write
integer_write-int16 x h k = ground (arith, bit_and-mask 7 x, bit_and-mask 5 (complement x))

-- A negative value below the range of `int16_t` is written as an unsigned one.
pub integer_write-below_int16 :
    (x : ℕ) → 2 ^ 31 ≤ x → x < 2 ^ 32 - 2 ^ 15 → integer_write x signed ≡ 0xce ∷ le32 x
unfolding integer_write
integer_write-below_int16 x h k = ground (arith, bit_and-mask 7 x, bit_and-mask 5 (complement x))

-- A negative value of type `Unsigned` is written as an unsigned one.
pub integer_write-unsigned :
    (x : ℕ) → 2 ^ 31 ≤ x → x < 2 ^ 32 → integer_write x unsigned ≡ 0xce ∷ le32 x
unfolding integer_write
integer_write-unsigned x h k = ground arith

-- The ranges of an `int32_t` that the encoder tells apart.
pub data Range (x : ℕ) : Type 0 where
  small : x < 128 → Range x
  uint8 : 128 ≤ x → x < 256 → Range x
  uint16 : 256 ≤ x → x < 2 ^ 16 → Range x
  uint32 : 2 ^ 16 ≤ x → x < 2 ^ 31 → Range x
  below_int16 : 2 ^ 31 ≤ x → x < 2 ^ 32 - 2 ^ 15 → Range x
  int16 : 2 ^ 32 - 2 ^ 15 ≤ x → x < 2 ^ 32 - 128 → Range x
  int8 : 2 ^ 32 - 128 ≤ x → x < 2 ^ 32 - 32 → Range x
  negative_fixint : 2 ^ 32 - 32 ≤ x → x < 2 ^ 32 → Range x

pub range : (x : ℕ) → x < 2 ^ 32 → Range x
range x h = elim (dec_lt x 128) [
  | yes a ↦ small a
  | no a ↦ elim (dec_lt x 256) [
    | yes b ↦ uint8 (omega arith) b
    | no b ↦ elim (dec_lt x (2 ^ 16)) [
      | yes c ↦ uint16 (omega arith) c
      | no c ↦ elim (dec_lt x (2 ^ 31)) [
        | yes d ↦ uint32 (omega arith) d
        | no d ↦ elim (dec_lt x (2 ^ 32 - 2 ^ 15)) [
          | yes e ↦ below_int16 (omega arith) e
          | no e ↦ elim (dec_lt x (2 ^ 32 - 128)) [
            | yes f ↦ int16 (omega arith) f
            | no f ↦ elim (dec_lt x (2 ^ 32 - 32)) [
              | yes g ↦ int8 (omega arith) g
              | no g ↦ negative_fixint (omega arith) h
            ]
          ]
        ]
      ]
    ]
  ]
]
