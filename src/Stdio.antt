-- ===== src/Stdio.antt =====
-- The formatting of numbers of src/hlib/stdio.c, as the list of the characters that are written. A
-- number is its 32-bit pattern.
pub mod Print
pub mod Room
mod Tests
use honey_os.Base.{
  ℕ, zero, suc, ◌+◌, ◌-◌, ◌*◌, ◌/◌, ◌%◌, ◌^◌, Bool, true, false, not, ◌||◌, List, [], ◌∷◌, ltb,
  ◌==◌, if◌then◌else◌,
}

-- `HEX_CHARS[n]`
abbrev pub hex_char : ℕ → ℕ
hex_char n = if ltb n 10 then 48 + n else 55 + n

-- The loop of `putHex`, its last `n` rounds.
unfoldable pub put_hex_bytes : ℕ → Bool → ℕ → List ℕ
put_hex_bytes zero already_writing x = []
put_hex_bytes (suc n) already_writing x =
    let byte = x / 2 ^ (n * 8) % 256 in
    let writing = not (byte == 0) || already_writing in
    let rest = put_hex_bytes n writing x in
    if writing then hex_char (byte / 16) ∷ hex_char (byte % 16) ∷ rest else rest

-- `putHex`
unfoldable pub put_hex : ℕ → List ℕ
unfolding put_hex_bytes
put_hex x = if x == 0 then hex_char 0 ∷ hex_char 0 ∷ [] else put_hex_bytes 4 false x

-- The loop of `hexLength`, its last `n` rounds; a shift takes its width modulo 32, as the processor
-- does.
unfoldable pub hex_length_bytes : ℕ → Bool → ℕ → ℕ
hex_length_bytes zero already_writing x = 0
hex_length_bytes (suc n) already_writing x =
    let byte = x / 2 ^ (n * 8 % 32) % 256 in
    let writing = not (byte == 0) || already_writing in
    let rest = hex_length_bytes n writing x in if writing then 2 + rest else rest

-- `hexLength`
unfoldable pub hex_length : ℕ → ℕ
unfolding hex_length_bytes
hex_length x = let size = hex_length_bytes 5 false x in if ltb size 2 then 2 else size

-- `power`, `y` rounds of its loop.
unfoldable pub power : ℕ → ℕ → ℕ
power x zero = 1
power x (suc y) = power x y * x % 2 ^ 32

-- The loop of `intLength`, its last `n` rounds; the division is one of unsigned numbers.
unfoldable pub int_length_digits : ℕ → ℕ → ℕ
unfolding power
int_length_digits zero x = 1
int_length_digits (suc n) x =
    let rest = int_length_digits n x in if x / power 10 n == 0 then rest else n + 1

-- `intLength`
unfoldable pub int_length : ℕ → ℕ
unfolding int_length_digits
int_length x = if x == 0 then 1 else int_length_digits 11 x

-- The loop of `putInt`, its last `n` rounds.
unfoldable pub put_digits : ℕ → ℕ → List ℕ
unfolding power
put_digits zero x = []
put_digits (suc n) x =
    let rest = put_digits n x in
    let digit = x / power 10 n in if digit == 0 then rest else hex_char (digit % 10) ∷ rest

-- `putInt`
unfoldable pub put_int : ℕ → List ℕ
unfolding put_digits
put_int x =
    if x == 0
    then 48 ∷ []
    else if ltb x (2 ^ 31)
    then put_digits 11 x
    else 45 ∷ put_digits 11 (2 ^ 32 - x)
