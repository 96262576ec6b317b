-- ===== src/Memory/Paging/Bitmap.antt =====
-- The bitmaps of `PagingInfo` as a set of pages, and the invariant that ties the coarse bitmap to
-- the fine one.
use mathlib.Core.Logic.{◌≢◌}
use mathlib.Core.Path.{subst}
use honey_os.Base.{
  ℕ, zero, suc, ◌+◌, ◌/◌, ◌%◌, ◌^◌, ◌<◌, ◌≤◌, ◌≡◌, refl, sym, ◌∙◌, lt→ltb, ap, Bool, true, false,
  ◌&&◌, ltb, leb, ◌==◌, if◌then◌else◌, update, arith,
}
use honey_os.Base.Word.{
  ones, test_bit, set_bit, clear_bit, test_bit-set_bit, test_bit-clear_bit, set_bit-lt,
  clear_bit-lt, test_bit-ones, set_bit_same,
}
use honey_os.Memory.Paging.{
  PagingInfo, reserve_within, reserve_page, reserve_pages_count, mark_page_free,
}

-- Page `p` is marked as allocated.
unfoldable pub is_allocated : PagingInfo → ℕ → Bool
is_allocated info p = test_bit (info.is_page_allocated (p / 32)) (p % 32)

-- The coarse bit of word `c`.
unfoldable pub is_full : PagingInfo → ℕ → Bool
is_full info c = test_bit (info.is_page_allocated_coarse (c / 32)) (c % 32)

-- The words have 32 bits, and a coarse bit is set exactly where its word is full.
pub record IsExact (info : PagingInfo) : Type 0 where
  pub words : (c : ℕ) → info.is_page_allocated c < 2 ^ 32
  pub coarse_words : (c : ℕ) → info.is_page_allocated_coarse c < 2 ^ 32
  pub exact : (c : ℕ) → is_full info c ≡ (info.is_page_allocated c == ones)

is_allocated-reserve_within :
    (info : PagingInfo) (p q : ℕ)
    → is_allocated (reserve_within info p) q ≡ (if p == q then true else is_allocated info q)
unfolding is_allocated reserve_within update
is_allocated-reserve_within info p q =
    ground (arith, test_bit-set_bit (info.is_page_allocated (p / 32)) (p % 32) (q % 32))

pub is_allocated-mark_page_free :
    (info : PagingInfo) (p q : ℕ)
    → is_allocated (mark_page_free info (p / 32) (p % 32)) q
      ≡ (if p == q then false else is_allocated info q)
unfolding is_allocated mark_page_free update
is_allocated-mark_page_free info p q = ground (
  arith,
  test_bit-clear_bit (info.is_page_allocated (p / 32)) (p % 32) (q % 32) (omega arith)
      (omega arith),
)

pub is_full-mark_page_free :
    (info : PagingInfo) (c f d : ℕ)
    → is_full (mark_page_free info c f) d ≡ (if c == d then false else is_full info d)
unfolding is_full mark_page_free update
is_full-mark_page_free info c f d = ground (
  arith,
  test_bit-clear_bit (info.is_page_allocated_coarse (c / 32)) (c % 32) (d % 32) (omega arith)
      (omega arith),
)

is_full-reserve_within :
    (info : PagingInfo) (p d : ℕ)
    → is_full (reserve_within info p) d ≡ (
        if (p / 32 == d) && (set_bit (info.is_page_allocated (p / 32)) (p % 32) == ones)
        then true
        else is_full info d)
unfolding is_full reserve_within update
is_full-reserve_within info p d =
    ground
      (arith, test_bit-set_bit (info.is_page_allocated_coarse (p / 32 / 32)) (p / 32 % 32) (d % 32))

-- Setting a bit of a full word changes nothing.
set_bit-ones : (w i : ℕ) → i < 32 → w ≡ ones → set_bit w i ≡ ones
set_bit-ones w i h e = rw e (set_bit_same ones i (omega arith) h (test_bit-ones i h))

-- A word with a cleared bit is not full.
clear_bit-ne-ones : (w i : ℕ) → i < 32 → clear_bit w i ≢ ones
clear_bit-ne-ones w i h e =
    let clear = test_bit-clear_bit w i i h h in
    ground (arith, clear, ap (λ t. test_bit t i) e, test_bit-ones i h)

module _ (info : PagingInfo) (v : IsExact info) where
  -- Reserving a page keeps the bitmaps exact.
  reserve_within-IsExact : (p : ℕ) → IsExact (reserve_within info p)
  unfolding reserve_within update
  reserve_within-IsExact p = record {
    words = λ c. ground (
      arith,
      v.words c,
      set_bit-lt (info.is_page_allocated (p / 32)) (p % 32) (v.words (p / 32)) (omega arith),
    );
    coarse_words = λ c. ground (
      arith,
      v.coarse_words c,
      set_bit-lt (info.is_page_allocated_coarse (p / 32 / 32)) (p / 32 % 32)
          (v.coarse_words (p / 32 / 32)) (omega arith),
    );
    exact = λ c. ground (
      arith,
      is_full-reserve_within info p c,
      v.exact c,
      set_bit-ones (info.is_page_allocated (p / 32)) (p % 32) (omega arith),
    );
  }

  -- Freeing a page keeps the bitmaps exact.
  pub mark_page_free-IsExact : (c f : ℕ) → f < 32 → IsExact (mark_page_free info c f)
  unfolding mark_page_free update
  mark_page_free-IsExact c f h = record {
    words = λ d. ground (arith, v.words d, clear_bit-lt (info.is_page_allocated c) f (v.words c));
    coarse_words = λ d. ground (
      arith,
      v.coarse_words d,
      clear_bit-lt (info.is_page_allocated_coarse (c / 32)) (c % 32) (v.coarse_words (c / 32)),
    );
    exact = λ d. ground (
      arith,
      is_full-mark_page_free info c f d,
      v.exact d,
      clear_bit-ne-ones (info.is_page_allocated c) f h,
    );
  }

-- For a page of the bitmap nothing behind it is written.
pub reserve_page-within :
    (info : PagingInfo) (p : ℕ) → p < 0x100000 → reserve_page info p ≡ reserve_within info p
unfolding reserve_page
reserve_page-within info p h = rw (lt→ltb p 0x100000 h) refl

pub is_allocated-reserve_page :
    (info : PagingInfo) (p q : ℕ)
    → p < 0x100000
    → is_allocated (reserve_page info p) q ≡ (if p == q then true else is_allocated info q)
is_allocated-reserve_page info p q h =
    ap (λ i. is_allocated i q) (reserve_page-within info p h) ∙ is_allocated-reserve_within info p q

pub reserve_page-IsExact :
    (info : PagingInfo) (p : ℕ) → p < 0x100000 → IsExact info → IsExact (reserve_page info p)
reserve_page-IsExact info p h v =
    subst (λ i. IsExact i) (sym (reserve_page-within info p h)) (reserve_within-IsExact info v p)

-- `reservePagesCount` marks exactly the pages of its range.
pub is_allocated-reserve_pages_count :
    (info : PagingInfo) (start count q : ℕ)
    → start + count ≤ 0x100000
    → is_allocated (reserve_pages_count info start count) q
      ≡ (if leb start q && ltb q (start + count) then true else is_allocated info q)
unfolding reserve_pages_count
is_allocated-reserve_pages_count info start zero q h = ground arith
is_allocated-reserve_pages_count info start (suc count) q h =
    let next : (start + 1) % 2 ^ 32 ≡ start + 1 = omega (arith, h) in
    rw next (
      ground (
        arith,
        is_allocated-reserve_pages_count (reserve_page info start) (start + 1) count q
            (omega (arith, h)),
        is_allocated-reserve_page info start q (omega (arith, h)),
      ))

-- `reservePagesCount`, on pages of the bitmap, keeps the bitmaps exact: the coarse bits set exactly where a word is full.
pub reserve_pages_count-IsExact :
    (info : PagingInfo) (start count : ℕ)
    → start + count ≤ 0x100000
    → IsExact info
    → IsExact (reserve_pages_count info start count)
unfolding reserve_pages_count
reserve_pages_count-IsExact info start zero h v = v
reserve_pages_count-IsExact info start (suc count) h v =
    let next : (start + 1) % 2 ^ 32 ≡ start + 1 = omega (arith, h) in
    rw next (
      reserve_pages_count-IsExact (reserve_page info start) (start + 1) count (omega (arith, h))
        (reserve_page-IsExact info start (omega (arith, h)) v))
