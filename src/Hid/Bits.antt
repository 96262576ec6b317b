-- ===== src/Hid/Bits.antt =====
-- What `consumeBits` takes out of a report.
use honey_os.Base.{
  ℕ, zero, suc, ◌+◌, ◌-◌, ◌*◌, ◌/◌, ◌%◌, ◌^◌, ◌<◌, ◌≤◌, ◌≡◌, sym, ap, refl, leb, false, ◌∙◌, some,
  List, ◌∷◌, bit_and, arith,
}
use native.Mathlib.Nat.{
  pow-suc, div-div-eq-div-mul, mul_assoc, mul-lt-mul_of_pos_right, pow-le-pow_right, mod-eq_of_lt,
}
use honey_os.Base.Bits.{bit_and_step, bit_and-mask, pow-pos}
use honey_os.Hid.{consume_bits}

div-pow-suc : (x b : ℕ) → x / 2 ^ suc b ≡ x / 2 / 2 ^ b
div-pow-suc x b =
    let e : 2 ^ suc b ≡ 2 * 2 ^ b = omega (arith, pow-suc 2 b) in
    rw e (sym (div-div-eq-div-mul x 2 (2 ^ b)))

-- A mask that is shifted to the left takes the bits from there on.
bit_and-shift : (m b w : ℕ) → bit_and w (m * 2 ^ b) / 2 ^ b ≡ bit_and (w / 2 ^ b) m
bit_and-shift m zero w =
    let e : m * 2 ^ 0 ≡ m = omega arith in
    let f : w / 2 ^ 0 ≡ w = omega arith in rw (e, f) (omega arith)
bit_and-shift m (suc b) w =
    let e : m * 2 ^ suc b ≡ m * 2 ^ b * 2 =
      ap (λ t. m * t) (pow-suc 2 b) ∙ sym (mul_assoc m (2 ^ b) 2) in
    let half : bit_and (w / 2) (m * 2 ^ b * 2 / 2) ≡ bit_and (w / 2) (m * 2 ^ b) =
      ap (λ t. bit_and (w / 2) t) (omega arith) in
    let even : m * 2 ^ b * 2 % 2 ≡ 0 = omega arith in
    let f : bit_and w (m * 2 ^ b * 2) / 2 ≡ bit_and (w / 2) (m * 2 ^ b) =
      omega (arith, bit_and_step w (m * 2 ^ b * 2), half, even) in
    rw (e, div-pow-suc w b, div-pow-suc (bit_and w (m * 2 ^ b * 2)) b, f)
      (bit_and-shift m b (w / 2))

pow_add : (i j : ℕ) → 2 ^ i * 2 ^ j ≡ 2 ^ (i + j)
pow_add i zero = let e : i + 0 ≡ i = omega arith in rw e (omega arith)
pow_add i (suc j) =
    let e : i + suc j ≡ suc (i + j) = omega arith in
    rw e (
      ap (λ t. 2 ^ i * t) (pow-suc 2 j)
      ∙ sym (mul_assoc (2 ^ i) (2 ^ j) 2)
      ∙ ap (λ t. t * 2) (pow_add i j)
      ∙ sym (pow-suc 2 (i + j)))

-- The mask stays inside the word.
mask-lt : (count bit : ℕ) → bit + count ≤ 32 → (2 ^ count - 1) * 2 ^ bit < 2 ^ 32
mask-lt count bit h =
    let below : (2 ^ count - 1) * 2 ^ bit < 2 ^ count * 2 ^ bit =
      mul-lt-mul_of_pos_right (omega (arith, pow-pos count)) (pow-pos bit) in
    let whole : 2 ^ (count + bit) ≤ 2 ^ 32 =
      pow-le-pow_right (omega arith) {i = count + bit} {j = 32} (omega arith) in
    omega (arith, below, pow_add count bit, whole)

-- With the place inside a word and all of the bits in it, `consumeBits` gives the `count` bits from there on, and moves behind them.
pub consume_bits-word :
    (words : List ℕ) (word bit count : ℕ)
    → bit + count ≤ 32
    → 0 < count
    → count < 32
    → consume_bits (record { words = word ∷ words; bit = bit }) count
      ≡ some (word / 2 ^ bit % 2 ^ count, record { words = word ∷ words; bit = bit + count })
unfolding consume_bits
consume_bits-word words word bit count h p k =
    let near : leb 32 bit ≡ false = ground arith in
    let place : bit % 32 ≡ bit = omega arith in
    let width : count % 32 ≡ count = omega arith in
    let behind : (bit + count) % 2 ^ 8 ≡ bit + count = omega arith in
    let mask : (2 ^ count - 1) * 2 ^ bit % 2 ^ 32 ≡ (2 ^ count - 1) * 2 ^ bit =
      mod-eq_of_lt (mask-lt count bit h) in
    let taken = bit_and-shift (2 ^ count - 1) bit word ∙ bit_and-mask count (word / 2 ^ bit) in
    rw (near, place, width, behind, mask, taken) refl
