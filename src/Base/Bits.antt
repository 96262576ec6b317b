-- ===== src/Base/Bits.antt =====
-- Bits of machine words: what `|`, `&` and `~` do to each bit, for words of every width.
use Prim.Native.Nat.{
  ℕ, zero, suc, ◌+◌, ◌-◌, ◌*◌, ◌/◌, ◌%◌, ◌^◌, ◌≤◌, ◌<◌, min, max, bit_and, bit_or, digits,
  bit_and-bitwise, bit_or-bitwise,
}
use mathlib.Core.Path.{◌≡◌, refl, ap, ◌∙◌}
use native.Mathlib.Omega.{arith}
use native.Mathlib.Nat.{
  pow-suc, pow-succ', div-div-eq-div-mul, mod-add-div, add-mul-mod_self_left, mod-eq_of_lt, mod-lt,
}
use mathlib.Core.Logic.{inl, inr}
use honey_os.Base.Tests.{Bool-cases, ◌==◌, if◌then◌else◌}

-- The result for digit lists does not depend on fuel that is enough.
digits-enough :
    (low : ℕ → ℕ) (op : ℕ → ℕ → ℕ) (x y k l : ℕ)
    → x ≤ k
    → x ≤ l
    → digits low op k x y ≡ digits low op l x y
digits-enough low op zero y zero zero h i = refl
digits-enough low op zero y zero (suc l) h i = refl
digits-enough low op zero y (suc k) zero h i = refl
digits-enough low op zero y (suc k) (suc l) h i = refl
digits-enough low op (suc x) y zero l h i = absurd (omega arith)
digits-enough low op (suc x) y (suc k) zero h i = absurd (omega arith)
digits-enough low op (suc x) y (suc k) (suc l) h i =
    let half = digits-enough low op (suc x / 2) (y / 2) k l (omega arith) (omega arith) in
    ap (λ d. d * 2 + op (suc x % 2) (y % 2)) half

pub bit_and_step : (x y : ℕ) → bit_and x y ≡ bit_and (x / 2) (y / 2) * 2 + min (x % 2) (y % 2)
bit_and_step zero y = omega (arith, bit_and-bitwise 0 y, bit_and-bitwise 0 (y / 2))
bit_and_step (suc x) y =
    let half = suc x / 2 in
    let enough = digits-enough (λ d. zero) min half (y / 2) x half (omega arith) (omega arith) in
    omega (arith, bit_and-bitwise half (y / 2), enough, bit_and-bitwise (suc x) y)

pub bit_or_step : (x y : ℕ) → bit_or x y ≡ bit_or (x / 2) (y / 2) * 2 + max (x % 2) (y % 2)
bit_or_step zero y = omega (arith, bit_or-bitwise 0 y, bit_or-bitwise 0 (y / 2))
bit_or_step (suc x) y =
    let half = suc x / 2 in
    let enough = digits-enough (λ d. d) max half (y / 2) x half (omega arith) (omega arith) in
    omega (arith, bit_or-bitwise half (y / 2), enough, bit_or-bitwise (suc x) y)

-- Bit `i` of a word.
unfoldable pub bit : ℕ → ℕ → ℕ
bit w zero = w % 2
bit w (suc i) = bit (w / 2) i

pub bit-lt : (w i : ℕ) → bit w i < 2
unfolding bit
bit-lt w zero = omega arith
bit-lt w (suc i) = bit-lt (w / 2) i

pub bit-bit_and : (a b i : ℕ) → bit (bit_and a b) i ≡ min (bit a i) (bit b i)
unfolding bit
bit-bit_and a b zero = omega (arith, bit_and_step a b)
bit-bit_and a b (suc i) =
    let e : bit_and a b / 2 ≡ bit_and (a / 2) (b / 2) = omega (arith, bit_and_step a b) in
    rw e (bit-bit_and (a / 2) (b / 2) i)

pub bit-bit_or : (a b i : ℕ) → bit (bit_or a b) i ≡ max (bit a i) (bit b i)
unfolding bit
bit-bit_or a b zero = omega (arith, bit_or_step a b)
bit-bit_or a b (suc i) =
    let e : bit_or a b / 2 ≡ bit_or (a / 2) (b / 2) = omega (arith, bit_or_step a b) in
    rw e (bit-bit_or (a / 2) (b / 2) i)

-- The bits of `1 << i`.
pub zero-bit : (i : ℕ) → bit 0 i ≡ 0
unfolding bit
zero-bit zero = refl
zero-bit (suc i) = zero-bit i

pub bit-pow : (i j : ℕ) → bit (2 ^ i) j ≡ (if i == j then 1 else 0)
unfolding bit
bit-pow zero zero = refl
bit-pow zero (suc j) = zero-bit j ∙ ground arith
bit-pow (suc i) zero = ground (arith, pow-suc 2 i)
bit-pow (suc i) (suc j) =
    let e : 2 ^ suc i / 2 ≡ 2 ^ i = rw (pow-suc 2 i) (omega arith) in
    rw e (bit-pow i j ∙ ground arith)

-- The bits of `~x` in a word of `n` bits.
pub bit-complement : (n x j : ℕ) → x < 2 ^ n → j < n → bit (2 ^ n - 1 - x) j ≡ 1 - bit x j
unfolding bit
bit-complement zero x j h k = absurd (omega arith)
bit-complement (suc n) x zero h k = let e = pow-suc 2 n in omega (arith, e)
bit-complement (suc n) x (suc j) h k =
    let e = pow-suc 2 n in
    let half : (2 ^ suc n - 1 - x) / 2 ≡ 2 ^ n - 1 - x / 2 = omega (arith, e) in
    rw half (bit-complement n (x / 2) j (omega (arith, e)) (omega arith))

-- Two words of `n` bits with the same bits are equal.
pub eq_of_bits : (n a b : ℕ) → a < 2 ^ n → b < 2 ^ n → ((i : ℕ) → i < n → bit a i ≡ bit b i) → a ≡ b
unfolding bit
eq_of_bits zero a b p q h = omega arith
eq_of_bits (suc n) a b p q h =
    let e = pow-suc 2 n in
    let low : a % 2 ≡ b % 2 = h 0 (omega arith) in
    let high =
      eq_of_bits n (a / 2) (b / 2) (omega (arith, e)) (omega (arith, e))
        λ i k. h (suc i) (omega arith) in
    omega (arith, low, high)

-- `w & (1 << i)`.
pub bit_and-zero : (w : ℕ) → bit_and w 0 ≡ 0
bit_and-zero w = bounded w w (omega arith)
  where
    bounded : (k w : ℕ) → w ≤ k → bit_and w 0 ≡ 0
    bounded zero zero h = refl
    bounded zero (suc w) h = absurd (omega arith)
    bounded (suc k) w h = elim (Bool-cases (w == 0)) [
      | inl none ↦ let e : w ≡ 0 = ground arith in rw e refl
      | inr more ↦
          let h' : w / 2 ≤ k = ground arith in omega (arith, bounded k (w / 2) h', bit_and_step w 0)
    ]

pub bit_and-pow : (w i : ℕ) → bit_and w (2 ^ i) ≡ bit w i * 2 ^ i
unfolding bit
bit_and-pow w zero = omega (arith, bit_and_step w 1, bit_and-zero (w / 2))
bit_and-pow w (suc i) =
    let e = pow-suc 2 i in
    let half : 2 ^ suc i / 2 ≡ 2 ^ i = omega (arith, e) in
    let here = bit_and_step w (2 ^ suc i) in
    let rest : bit_and (w / 2) (2 ^ suc i / 2) ≡ bit (w / 2) i * 2 ^ i =
      rw half (bit_and-pow (w / 2) i) in
    let e2 : bit (w / 2) i * 2 ^ suc i ≡ bit (w / 2) i * (2 ^ i * 2) =
      ap (λ t. bit (w / 2) i * t) e in
    omega (arith, here, rest, e, e2)

pub pow-pos : (i : ℕ) → 0 < 2 ^ i
pow-pos zero = omega arith
pow-pos (suc i) = omega (arith, pow-suc 2 i, pow-pos i)

pub pow-lt : (i n : ℕ) → i < n → 2 ^ i < 2 ^ n
pow-lt i zero h = absurd (omega arith)
pow-lt zero (suc n) h = omega (arith, pow-suc 2 n, pow-pos n)
pow-lt (suc i) (suc n) h = omega (arith, pow-suc 2 n, pow-suc 2 i, pow-lt i n (omega arith))

pub bit_or-lt : (n a b : ℕ) → a < 2 ^ n → b < 2 ^ n → bit_or a b < 2 ^ n
bit_or-lt zero a b h k =
    let p : a ≡ 0 = omega arith in let q : b ≡ 0 = omega arith in rw (p, q) (omega arith)
bit_or-lt (suc n) a b h k =
    let e = pow-suc 2 n in
    omega
      (arith, e, bit_or_step a b, bit_or-lt n (a / 2) (b / 2) (omega (arith, e)) (omega (arith, e)))

pub bit_and-le : (a b : ℕ) → bit_and a b ≤ a
bit_and-le a b = go a a b (omega arith)
  where
    go : (n a b : ℕ) → a ≤ n → bit_and a b ≤ a
    go n zero b h = omega (arith, bit_and-bitwise 0 b)
    go zero (suc a) b h = absurd (omega arith)
    go (suc n) (suc a) b h =
        omega (arith, bit_and_step (suc a) b, go n (suc a / 2) (b / 2) (omega arith))

double-mod : (p w : ℕ) → 0 < p → w % (p * 2) ≡ w / 2 % p * 2 + w % 2
double-mod p w h =
    let q = w / 2 / p in
    let r = w / 2 % p in
    let parts = mod-add-div (w / 2) p in
    let whole : w ≡ r * 2 + w % 2 + p * 2 * q = omega (arith, parts) in
    ap (λ t. t % (p * 2)) whole
    ∙ add-mul-mod_self_left (r * 2 + w % 2) (p * 2) q
    ∙ mod-eq_of_lt (omega (arith, mod-lt (w / 2) {m = p} h))

-- `w & (2 ^ k - 1)`
pub bit_and-mask : (k w : ℕ) → bit_and w (2 ^ k - 1) ≡ w % 2 ^ k
bit_and-mask zero w = omega (arith, bit_and-zero w)
bit_and-mask (suc k) w =
    let e = pow-suc 2 k in
    let low : (2 ^ suc k - 1) % 2 ≡ 1 = omega (arith, e, pow-pos k) in
    let half : (2 ^ suc k - 1) / 2 ≡ 2 ^ k - 1 = omega (arith, e, pow-pos k) in
    let rest : bit_and (w / 2) ((2 ^ suc k - 1) / 2) ≡ w / 2 % 2 ^ k =
      rw half (bit_and-mask k (w / 2)) in
    let split : w % 2 ^ suc k ≡ w / 2 % 2 ^ k * 2 + w % 2 =
      rw e (double-mod (2 ^ k) w (pow-pos k)) in
    omega (arith, bit_and_step w (2 ^ suc k - 1), low, rest, split)

pub zero-bit_or : (y : ℕ) → bit_or 0 y ≡ y
zero-bit_or y = omega (arith, bit_or-bitwise 0 y)

bit_or-half : (x y : ℕ) → bit_or x y / 2 ≡ bit_or (x / 2) (y / 2)
bit_or-half x y = omega (arith, bit_or_step x y)

-- A shift to the right goes through `|`.
pub bit_or-shift : (n x y : ℕ) → bit_or x y / 2 ^ n ≡ bit_or (x / 2 ^ n) (y / 2 ^ n)
bit_or-shift zero x y =
    let one : (z : ℕ) → z / 2 ^ 0 ≡ z = λ z. omega arith in rw (one, one, one) refl
bit_or-shift (suc n) x y =
    rw (pow-succ', ← div-div-eq-div-mul, ← div-div-eq-div-mul, ← div-div-eq-div-mul, bit_or-half)
      (bit_or-shift n (x / 2) (y / 2))
