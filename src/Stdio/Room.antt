-- ===== src/Stdio/Room.antt =====
-- The lengths that are computed before a number is written leave room for what is written.
use honey_os.Base.{
  ℕ, zero, suc, ◌+◌, ◌-◌, ◌*◌, ◌/◌, ◌%◌, ◌^◌, ◌<◌, ◌≤◌, ◌≡◌, refl, Bool, true, false, ltb, ◌==◌,
  if◌then◌else◌, length, arith, Bool-cases, inl, inr,
}
use honey_os.Stdio.{
  put_hex_bytes, put_hex, hex_length_bytes, hex_length, put_digits, int_length_digits, put_int,
  int_length, power,
}

-- Below four rounds the lengths agree; where writing has begun, they can only grow.
length-put_hex_bytes :
    (n x : ℕ) (w w' : Bool)
    → n ≤ 4
    → (w ≡ true → w' ≡ true)
    → length (put_hex_bytes n w x) ≤ hex_length_bytes n w' x
unfolding put_hex_bytes hex_length_bytes
length-put_hex_bytes zero x w w' h i = omega arith
length-put_hex_bytes (suc n) x w w' h i =
    let same : n * 8 % 32 ≡ n * 8 = omega arith in
    let byte = x / 2 ^ (n * 8) % 256 in
    elim (Bool-cases (byte == 0)) [
      | inl none ↦
          let rest = length-put_hex_bytes n x w w' (omega arith) i in
          rw (same, none) (ground (arith, rest, i))
      | inr more ↦
          let rest = length-put_hex_bytes n x true true (omega arith) (λ e. e) in
          rw (same, more) (omega (arith, rest))
    ]

hex_length-lower :
    (n x : ℕ) → n ≤ 4 → length (put_hex_bytes n false x) ≤ hex_length_bytes (suc n) false x
unfolding hex_length_bytes
hex_length-lower n x h = elim (Bool-cases (x / 2 ^ (n * 8 % 32) % 256 == 0)) [
  | inl none ↦ rw none (length-put_hex_bytes n x false false h (λ e. e))
  | inr more ↦
      let rest = length-put_hex_bytes n x false true h (λ e. refl) in rw more (omega (arith, rest))
]

-- `hexLength` leaves room for what `putHex` writes, for every number.
pub length-put_hex : (x : ℕ) → length (put_hex x) ≤ hex_length x
unfolding put_hex hex_length
length-put_hex x = ground (arith, hex_length-lower 4 x (omega arith))

put_digits-bound : (n x : ℕ) → length (put_digits n x) ≤ n
unfolding put_digits
put_digits-bound zero x = omega arith
put_digits-bound (suc n) x = elim (Bool-cases (x / power 10 n == 0)) [
  | inl none ↦ rw (none, put_digits) (omega (arith, put_digits-bound n x))
  | inr some_digit ↦ rw (some_digit, put_digits) (omega (arith, put_digits-bound n x))
]

length-put_digits : (n x : ℕ) → length (put_digits n x) ≤ int_length_digits n x
unfolding put_digits int_length_digits
length-put_digits zero x = omega arith
length-put_digits (suc n) x = elim (Bool-cases (x / power 10 n == 0)) [
  | inl none ↦ rw (none, put_digits, int_length_digits) (length-put_digits n x)
  | inr some_digit ↦
      rw (some_digit, put_digits, int_length_digits) (omega (arith, put_digits-bound n x))
]

-- From 2^31 on the division by `power(10, 10)`, which wraps round, is not zero.
int_length_digits-negative : (x : ℕ) → 2 ^ 31 ≤ x → int_length_digits 11 x ≡ 11
unfolding int_length_digits power
int_length_digits-negative x h =
    let e : (x / 1410065408 == 0) ≡ false = ground arith in rw (e, int_length_digits) refl

-- `intLength`, and one more for the sign of a negative number, leaves room for what `putInt` writes, for every 32-bit pattern.
pub length-put_int :
    (x : ℕ) → x < 2 ^ 32 → length (put_int x) ≤ int_length x + (if ltb x (2 ^ 31) then 0 else 1)
unfolding put_int int_length
length-put_int x h = elim (Bool-cases (ltb x (2 ^ 31))) [
  | inl small ↦ rw small (ground (arith, length-put_digits 11 x))
  | inr negative ↦
      let full = int_length_digits-negative x (ground arith) in
      rw negative (ground (arith, full, put_digits-bound 11 (2 ^ 32 - x)))
]
