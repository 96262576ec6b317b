-- ===== src/MsgPack/FirstByte.antt =====
-- `FirstByteToFormat` after `initializeFlatBuffers`: each byte has the format whose range holds it.
use honey_os.Base.{
  ℕ, zero, suc, ◌+◌, ◌-◌, ◌≤◌, ◌<◌, ◌≡◌, refl, sym, ap, ◌∙◌, Bool, true, ◌&&◌, leb, ◌==◌, ==_iff,
  arith, get_or, Bool-cases, inl, inr, false, if◌then◌else◌,
}
use honey_os.MsgPack.Format.{Format, format_info, formats, position, initialize_flat_buffers}

from_position : ℕ → Format
from_position i = get_or formats i Format.positive_fixint

from_position-position : (f : Format) → from_position (position f) ≡ f
unfolding from_position position
from_position-position Format.positive_fixint = refl
from_position-position _ = refl

position-injective : (f g : Format) → position f ≡ position g → f ≡ g
position-injective f g e =
    sym (from_position-position f) ∙ ap from_position e ∙ from_position-position g

-- A test that the first numbers all pass.
every : (ℕ → Bool) → ℕ → Bool
every test zero = true
every test (suc i) = if test i then every test i else false

every-at : (test : ℕ → Bool) (count i : ℕ) → i < count → every test count ≡ true → test i ≡ true
unfolding every
every-at test zero i below passed = absurd (omega arith)
every-at test (suc count) i below passed = elim (Bool-cases (i == count)) [
  | inl last ↦ ground arith
  | inr earlier ↦ every-at test count i (ground arith) (ground arith)
]

-- The byte `b` lies in the range of the format that the map gives it.
in_range : ℕ → Bool
in_range b = let i = format_info (initialize_flat_buffers b) in leb i.min b && leb b i.max

ranges_table : every in_range 256 ≡ true
unfolding every in_range initialize_flat_buffers format_info
ranges_table = refl

-- Every byte lies in the range of the format that `initializeFlatBuffers` gives it.
pub initialize_flat_buffers-range :
    (b : ℕ)
    → b < 256
    → ((format_info (initialize_flat_buffers b)).min ≤ b)
      × (b ≤ (format_info (initialize_flat_buffers b)).max)
unfolding in_range
initialize_flat_buffers-range b h = let r = every-at in_range 256 b h ranges_table in ground arith

-- The formats of `n` bytes from `lo` on.
same_format : ℕ → Format → ℕ → Bool
same_format lo f i = position (initialize_flat_buffers (lo + i)) == position f

format_of :
    (lo n b : ℕ) (f : Format)
    → every (same_format lo f) n ≡ true
    → lo ≤ b
    → b < lo + n
    → initialize_flat_buffers b ≡ f
unfolding same_format
format_of lo n b f table h k =
    let e : lo + (b - lo) ≡ b = omega arith in
    let r = every-at (same_format lo f) n (b - lo) (omega arith) table in
    position-injective (initialize_flat_buffers b) f
      (rw e at ((==_iff (position (initialize_flat_buffers (lo + (b - lo)))) (position f)).0 r))

pub format-positive_fixint : (b : ℕ) → b < 128 → initialize_flat_buffers b ≡ Format.positive_fixint
unfolding every same_format initialize_flat_buffers position
format-positive_fixint b h = format_of 0 128 b Format.positive_fixint refl (omega arith) h

pub format-negative_fixint :
    (b : ℕ) → 0xe0 ≤ b → b < 256 → initialize_flat_buffers b ≡ Format.negative_fixint
unfolding every same_format initialize_flat_buffers position
format-negative_fixint b h k = format_of 0xe0 32 b Format.negative_fixint refl h k

pub format-fixstr : (b : ℕ) → 0xa0 ≤ b → b < 0xc0 → initialize_flat_buffers b ≡ Format.fixstr
unfolding every same_format initialize_flat_buffers position
format-fixstr b h k = format_of 0xa0 32 b Format.fixstr refl h k

pub format-fixarray : (b : ℕ) → 0x90 ≤ b → b < 0xa0 → initialize_flat_buffers b ≡ Format.fixarray
unfolding every same_format initialize_flat_buffers position
format-fixarray b h k = format_of 0x90 16 b Format.fixarray refl h k

pub format-fixmap : (b : ℕ) → 0x80 ≤ b → b < 0x90 → initialize_flat_buffers b ≡ Format.fixmap
unfolding every same_format initialize_flat_buffers position
format-fixmap b h k = format_of 0x80 16 b Format.fixmap refl h k
