-- ===== src/Base/Bytes.antt =====
-- Little-endian numbers in a buffer. A pointer into a buffer is the list of the bytes from there on;
-- a read behind the buffer's end is `none`.
use Prim.Native.Nat.{ℕ, suc, ◌+◌, ◌*◌, ◌/◌, ◌%◌, ◌^◌, ◌<◌}
use mathlib.Core.Path.{◌≡◌, ap}
use mathlib.Core.List.{List, [], ◌∷◌, ◌++◌}
use mathlib.Core.Option.{Option, some}
use native.Mathlib.Omega.{arith}
use honey_os.Base.Lists.{get_elem?}
use honey_os.Base.Options.{◌>>=◌}

-- `*(uint16_t *)p = n` and `*(uint32_t *)p = n`
abbrev pub le16 : ℕ → List ℕ
le16 n = (n % 256) ∷ (n / 256 % 256) ∷ []

abbrev pub le32 : ℕ → List ℕ
le32 n = (n % 256) ∷ (n / 256 % 256) ∷ (n / 65536 % 256) ∷ (n / 16777216 % 256) ∷ []

-- `*(uint8_t *)(data + i)` and so on.
abbrev pub read8 : List ℕ → ℕ → Option ℕ
read8 buffer i = get_elem? buffer i

abbrev pub read16 : List ℕ → ℕ → Option ℕ
read16 buffer i = do a ← read8 buffer i; b ← read8 buffer (suc i); some (a + b * 256)

abbrev pub read32 : List ℕ → ℕ → Option ℕ
read32 buffer i = do
  a ← read8 buffer i
  b ← read8 buffer (suc i)
  c ← read8 buffer (suc (suc i))
  d ← read8 buffer (suc (suc (suc i)))
  some (a + b * 256 + c * 65536 + d * 16777216)

pub read16-le16 : (x n : ℕ) (rest : List ℕ) → n < 2 ^ 16 → read16 (x ∷ le16 n ++ rest) 1 ≡ some n
read16-le16 x n rest h = ap some (omega arith)

pub read32-le32 : (x n : ℕ) (rest : List ℕ) → n < 2 ^ 32 → read32 (x ∷ le32 n ++ rest) 1 ≡ some n
read32-le32 x n rest h = ap some (omega arith)
