-- ===== src/MsgPack/Integer/RoundTrip.antt =====
-- What `msgPackReadInt` reads back of what `msgPackIntegerWrite` wrote.
use mathlib.Core.Option.{some-injective}
use honey_os.Base.{
  ℕ, ◌-◌, ◌^◌, ◌≤◌, ◌<◌, ◌≡◌, refl, sym, ap, ◌∙◌, some, List, ◌∷◌, ◌++◌, ltb, if◌then◌else◌, arith,
  ◌⊎◌, inl, inr, ◌↔◌,
}
use honey_os.Base.Bits.{bit_and-mask}
use honey_os.Base.Int.{ℤ, pos, negsuc, signed32, signed16}
use honey_os.Base.Bytes.{le16, le32}
use honey_os.MsgPack.FirstByte.{format-positive_fixint, format-negative_fixint}
use honey_os.MsgPack.Integer.{signed, unsigned, integer_write, read_int, read_uint}
use honey_os.MsgPack.Integer.Written.{
  Range, small, uint8, uint16, uint32, below_int16, int16, int8, negative_fixint, range,
  integer_write-small, integer_write-uint8, integer_write-uint16, integer_write-uint32,
  integer_write-below_int16, integer_write-int16, integer_write-int8, integer_write-negative_fixint,
  integer_write-unsigned,
}

-- `msgPackReadInt` on each kind of first byte.
read_int-small : (x : ℕ) (rest : List ℕ) → x < 128 → read_int (x ∷ rest) ≡ some (pos x)
unfolding read_int
read_int-small x rest h = rw (format-positive_fixint x h) (ground (arith, bit_and-mask 7 x))

read_int-negative_fixint :
    (b : ℕ) (rest : List ℕ) → 0xe0 ≤ b → b < 256 → read_int (b ∷ rest) ≡ some (negsuc (255 - b))
unfolding read_int
read_int-negative_fixint b rest h k = rw (format-negative_fixint b h k) (ground arith)

read_int-uint8 : (b : ℕ) (rest : List ℕ) → read_int (0xcc ∷ b ∷ rest) ≡ some (pos b)
unfolding read_int
read_int-uint8 b rest = refl

read_int-uint16 :
    (n : ℕ) (rest : List ℕ) → n < 2 ^ 16 → read_int (0xcd ∷ le16 n ++ rest) ≡ some (pos n)
unfolding read_int
read_int-uint16 n rest h = ap (λ k. some (pos k)) (omega arith)

read_int-uint32 :
    (n : ℕ) (rest : List ℕ) → n < 2 ^ 32 → read_int (0xce ∷ le32 n ++ rest) ≡ some (pos n)
unfolding read_int
read_int-uint32 n rest h = ap (λ k. some (pos k)) (omega arith)

-- The byte that is read is the first one.
read_int-int8 : (rest : List ℕ) → read_int (0xd0 ∷ rest) ≡ some (negsuc 47)
unfolding read_int
read_int-int8 rest = refl

read_int-int16 :
    (n : ℕ) (rest : List ℕ) → n < 2 ^ 16 → read_int (0xd1 ∷ le16 n ++ rest) ≡ some (signed16 n)
unfolding read_int
read_int-int16 n rest h = ap (λ k. some (signed16 k)) (omega arith)

-- What is read back of a value of type `Signed`.
read_back : (x : ℕ) → Range x → ℤ
read_back x (int8 h k) = negsuc 47
read_back x (below_int16 h k) = pos x
read_back x r = signed32 x

read_int-written :
    (x : ℕ) (rest : List ℕ) (r : Range x)
    → read_int (integer_write x signed ++ rest) ≡ some (read_back x r)
unfolding read_back
read_int-written x rest (small h) =
    rw (integer_write-small x signed h) (read_int-small x rest h ∙ ground arith)
read_int-written x rest (uint8 h k) =
    rw (integer_write-uint8 x signed h k) (read_int-uint8 x rest ∙ ground arith)
read_int-written x rest (uint16 h k) =
    rw (integer_write-uint16 x signed h k) (read_int-uint16 x rest k ∙ ground arith)
read_int-written x rest (uint32 h k) =
    rw (integer_write-uint32 x signed h k) (read_int-uint32 x rest (omega arith) ∙ ground arith)
read_int-written x rest (below_int16 h k) =
    rw (integer_write-below_int16 x h k) (read_int-uint32 x rest (omega arith))
read_int-written x rest (int16 h k) =
    rw (integer_write-int16 x h k)
      (read_int-int16 (x - (2 ^ 32 - 2 ^ 16)) rest (omega arith) ∙ ground arith)
read_int-written x rest (int8 h k) = rw (integer_write-int8 x h k) (read_int-int8 _)
read_int-written x rest (negative_fixint h k) =
    rw (integer_write-negative_fixint x h k) (
      read_int-negative_fixint (x - (2 ^ 32 - 256)) rest (omega arith) (omega arith) ∙ ground arith)

-- The values that survive: those of at least -32768 that do not lie in [-128, -33], and -48.
abbrev pub Survives : ℕ → Type 0
Survives x =
    (x < 2 ^ 31)
    ⊎ (2 ^ 32 - 32 ≤ x)
    ⊎ (x ≡ 2 ^ 32 - 48)
    ⊎ ((2 ^ 32 - 2 ^ 15 ≤ x) × (x < 2 ^ 32 - 128))

read_back_iff : (x : ℕ) (r : Range x) → (read_back x r ≡ signed32 x) ↔ Survives x
unfolding read_back
read_back_iff x (small h) = (λ e. omega arith, λ s. refl)
read_back_iff x (uint8 h k) = (λ e. omega arith, λ s. refl)
read_back_iff x (uint16 h k) = (λ e. omega arith, λ s. refl)
read_back_iff x (uint32 h k) = (λ e. omega arith, λ s. refl)
read_back_iff x (below_int16 h k) = (λ e. ground arith, λ s. ground arith)
read_back_iff x (int16 h k) = (λ e. omega arith, λ s. refl)
read_back_iff x (int8 h k) = (λ e. ground arith, λ s. ground arith)
read_back_iff x (negative_fixint h k) = (λ e. omega arith, λ s. refl)

-- Reading back what was written of a value of type `Signed` gives the value exactly where it is at
-- least -32768 and does not lie in [-128, -33], or is -48.
pub read_int-integer_write :
    (x : ℕ) (rest : List ℕ)
    → x < 2 ^ 32
    → (read_int (integer_write x signed ++ rest) ≡ some (signed32 x)) ↔ Survives x
read_int-integer_write x rest h =
    let r = range x h in
    let back = read_int-written x rest r in
    (
      λ e. (read_back_iff x r).0 (some-injective _ _ (sym back ∙ e)),
      λ s. back ∙ ap some ((read_back_iff x r).1 s),
    )

-- A value that does not survive is read as -48 if it lies in [-128, -33], and as the unsigned number
-- of its bit pattern if it lies below -32768.
pub read_int-lost :
    (x : ℕ) (rest : List ℕ)
    → 2 ^ 31 ≤ x
    → x < 2 ^ 32
    → ¬ Survives x
    → read_int (integer_write x signed ++ rest)
      ≡ some (if ltb x (2 ^ 32 - 2 ^ 15) then pos x else negsuc 47)
unfolding read_back
read_int-lost x rest low high lost =
    read_int-written x rest (range x high) ∙ ap some (lost_value (range x high))
  where
    lost_value :
        (r : Range x) → read_back x r ≡ (if ltb x (2 ^ 32 - 2 ^ 15) then pos x else negsuc 47)
    lost_value (small h) = absurd (omega arith)
    lost_value (uint8 h k) = absurd (omega arith)
    lost_value (uint16 h k) = absurd (omega arith)
    lost_value (uint32 h k) = absurd (omega arith)
    lost_value (below_int16 h k) = ground arith
    lost_value (int16 h k) = absurd (lost (inr (inr (inr (h, k)))))
    lost_value (int8 h k) = ground arith
    lost_value (negative_fixint h k) = absurd (lost (inr (inl h)))

-- A 32-bit value of type `Unsigned` is always read back by `msgPackReadUint`.
pub read_uint-integer_write :
    (x : ℕ) (rest : List ℕ) → x < 2 ^ 32 → read_uint (integer_write x unsigned ++ rest) ≡ some x
unfolding read_uint
read_uint-integer_write x rest h = as_number (range x h)
  where
    negative : 2 ^ 31 ≤ x → read_uint (integer_write x unsigned ++ rest) ≡ some x
    negative k = rw (integer_write-unsigned x k h, read_int-uint32 x rest h) refl

    as_number : Range x → read_uint (integer_write x unsigned ++ rest) ≡ some x
    as_number (small a) = rw (integer_write-small x unsigned a, read_int-small x rest a) refl
    as_number (uint8 a b) = rw (integer_write-uint8 x unsigned a b, read_int-uint8 x rest) refl
    as_number (uint16 a b) = rw (integer_write-uint16 x unsigned a b, read_int-uint16 x rest b) refl
    as_number (uint32 a b) = rw (integer_write-uint32 x unsigned a b, read_int-uint32 x rest h) refl
    as_number (below_int16 a b) = negative a
    as_number (int16 a b) = negative (omega arith)
    as_number (int8 a b) = negative (omega arith)
    as_number (negative_fixint a b) = negative (omega arith)
