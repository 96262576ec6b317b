-- ===== src/Memory/Pages/Request.antt =====
-- The system call for memory, `handleRequestMemorySyscall`, and `getPagesCount`.
use mathlib.Core.Logic.{◌≢◌}
use honey_os.Base.{
  ℕ, zero, suc, ◌+◌, ◌%◌, ◌^◌, ◌≤◌, ◌<◌, ◌≡◌, refl, ◌∙◌, Bool, true, false, ◌&&◌, some, ltb, leb,
  if◌then◌else◌, update, arith, ◌⊎◌, >>=-eq-some,
}
use honey_os.Memory.Paging.{
  PagingInfo, reserve_within, reserve_behind, with_word_behind, reserve_page, reserve_pages_count,
  find_page, find_multiple_pages,
}
use honey_os.Memory.Paging.Bitmap.{is_allocated, is_allocated-reserve_pages_count}
use honey_os.Memory.Paging.Find.{FindsFirst, find_multiple_pages-first}
use honey_os.Memory.Paging.Run.{IsFree}
use honey_os.Memory.Mapping.{Memory, address, map_page, add_page_table}
use honey_os.Memory.Mapping.Translate.{translate, OwnsTables, IsSearchable}
use honey_os.Memory.Pages.{
  reserve_physical, reserve_virtual, map_fresh_pages, get_pages_count, request_memory,
}
use honey_os.Memory.Pages.Fresh.{IsFresh, map_fresh_pages-AllFresh}

-- Mapping a page leaves the bitmap of its space alone.
map_page-bitmap :
    (m : Memory) (s physical virtual : ℕ) (user volatile : Bool) {m' : Memory} (q : ℕ)
    → map_page s physical virtual user volatile m ≡ some m'
    → is_allocated (m'.spaces s) q ≡ is_allocated (m.spaces s) q
unfolding map_page add_page_table update is_allocated
map_page-bitmap m s physical virtual user volatile q e = ground arith

map_fresh_pages-bitmap :
    (m : Memory) (s start : ℕ) (user : Bool) (n : ℕ) {m' : Memory} (q : ℕ)
    → map_fresh_pages s start user n m ≡ some m'
    → is_allocated (m'.spaces s) q ≡ is_allocated (m.spaces s) q
unfolding map_fresh_pages reserve_physical
map_fresh_pages-bitmap m s start user zero q e = ground arith
map_fresh_pages-bitmap m s start user (suc n) q e =
    let (t, found, e₁) = >>=-eq-some (find_page m.physical) _ e in
    let (m₁, mapped, e₂) =
      >>=-eq-some (map_page s (address t) (address start) user false (reserve_physical t 1 m)) _
        e₁ in
    map_fresh_pages-bitmap m₁ s (start + 1) user n q e₂
    ∙ map_page-bitmap (reserve_physical t 1 m) s (address t) (address start) user false q mapped

page_directory-reserve_page :
    (info : PagingInfo) (p : ℕ) → (reserve_page info p).page_directory ≡ info.page_directory
unfolding reserve_page reserve_within reserve_behind with_word_behind
page_directory-reserve_page info p = ground arith

page_directory-reserve_pages_count :
    (info : PagingInfo) (start n : ℕ)
    → (reserve_pages_count info start n).page_directory ≡ info.page_directory
unfolding reserve_pages_count
page_directory-reserve_pages_count info start zero = refl
page_directory-reserve_pages_count info start (suc n) =
    page_directory-reserve_pages_count (reserve_page info start) ((start + 1) % 2 ^ 32) n
    ∙ page_directory-reserve_page info start

translate-reserve_virtual :
    (m : Memory) (s start n p : ℕ) → translate (reserve_virtual s start n m) s p ≡ translate m s p
unfolding translate reserve_virtual update
translate-reserve_virtual m s start n p =
    ground (arith, page_directory-reserve_pages_count (m.spaces s) start n)

OwnsTables-reserve_virtual :
    (m : Memory) (s start n : ℕ) → OwnsTables m s → OwnsTables (reserve_virtual s start n m) s
unfolding reserve_virtual update
OwnsTables-reserve_virtual m s start n own =
    let same = page_directory-reserve_pages_count (m.spaces s) start n in
    record {
      allocated = λ i. ground (arith, same, own.allocated i);
      apart = λ i j. ground (arith, same, own.apart i j);
      small = λ i. ground (arith, same, own.small i);
    }

-- What a grant of `n` pages of space `s` is: a run that was free and is now reserved, each page of it
-- mapped to a physical page of its own that was free, and no other page of the space touched.
pub record Granted (m : Memory) (s n start : ℕ) (m' : Memory) : Type 0 where
  pub was_free : IsFree (m.spaces s) n start
  pub reserved :
      (q : ℕ)
      → is_allocated (m'.spaces s) q
        ≡ (if leb start q && ltb q (start + n) then true else is_allocated (m.spaces s) q)
  pub fresh : (i : ℕ) → i < n → IsFresh m s (start + i) m'
  pub apart : (i j : ℕ) → i < j → j < n → translate m' s (start + i) ≢ translate m' s (start + j)
  pub others :
      (p : ℕ) → p < 0x100000 → (p < start) ⊎ (start + n ≤ p) → translate m' s p ≡ translate m s p
  pub owns : OwnsTables m' s
  pub searchable : IsSearchable m'.physical

module _ (m : Memory) (s n : ℕ) (v : IsSearchable m.physical) (w : IsSearchable (m.spaces s))
    (own : OwnsTables m s) (pos : 0 < n) where
  Granted-map_fresh_pages :
      (start : ℕ) (user : Bool) {m' : Memory}
      → find_multiple_pages (m.spaces s) n ≡ some start
      → map_fresh_pages s start user n (reserve_virtual s start n m) ≡ some m'
      → Granted m s n start m'
  unfolding reserve_virtual update
  Granted-map_fresh_pages start user found e =
      let first : FindsFirst (m.spaces s) n (some start) =
        rw found at (find_multiple_pages-first (m.spaces s) n pos w.exact w.start) in
      let (l, run, none_before) = first in
      let all =
        map_fresh_pages-AllFresh (reserve_virtual s start n m) s start user n run.inside v
          (OwnsTables-reserve_virtual m s start n own) e in
      record {
        was_free = run;
        reserved = λ q.
            map_fresh_pages-bitmap (reserve_virtual s start n m) s start user n q e
            ∙ ground (arith, is_allocated-reserve_pages_count (m.spaces s) start n q run.inside);
        fresh = λ i h.
            let f = all.fresh i h in
            record {
              frame = f.frame;
              mapped = f.mapped;
              was_free = f.was_free;
              is_taken = f.is_taken;
            };
        apart = all.apart;
        others = λ p h o. all.others p h o ∙ translate-reserve_virtual m s start n p;
        owns = all.owns;
        searchable = all.searchable;
      }

  request_memory-inv :
      {a : ℕ} {m' : Memory}
      → request_memory s n 0 0 m ≡ some (a, m')
      → (start : ℕ) × (find_multiple_pages (m.spaces s) n ≡ some start)
        × (map_fresh_pages s start true n (reserve_virtual s start n m) ≡ some m')
        × (a ≡ (address start + 0) % 2 ^ 32)
  unfolding request_memory
  request_memory-inv e = ground arith

  get_pages_count-inv :
      {a : ℕ} {m' : Memory}
      → get_pages_count n m ≡ some (a, m')
      → (start : ℕ) × (find_multiple_pages (m.spaces 0) n ≡ some start)
        × (map_fresh_pages 0 start false n (reserve_virtual 0 start n m) ≡ some m')
        × (a ≡ address start)
  unfolding get_pages_count
  get_pages_count-inv e = ground arith

  -- With bitmaps that can be searched, page tables of the space's own and at least one page: if
  -- the system call for `n` pages at no given place returns, it grants them, with the address of
  -- their first as its result.
  pub request_memory-Granted :
      {a : ℕ} {m' : Memory}
      → request_memory s n 0 0 m ≡ some (a, m')
      → (start : ℕ) × (a ≡ address start) × Granted m s n start m'
  request_memory-Granted e =
      let (start, found, mapped, place) = request_memory-inv e in
      (start, omega arith, Granted-map_fresh_pages start true found mapped)

-- With bitmaps that can be searched, page tables of the kernel's own and at least one page: if
-- `getPagesCount` returns, it grants pages of the kernel's space, with the address of their
-- first as its result.
pub get_pages_count-Granted :
    (m : Memory) (n : ℕ) {a : ℕ} {m' : Memory}
    → IsSearchable m.physical
    → IsSearchable (m.spaces 0)
    → OwnsTables m 0
    → 0 < n
    → get_pages_count n m ≡ some (a, m')
    → (start : ℕ) × (a ≡ address start) × Granted m 0 n start m'
get_pages_count-Granted m n v w own pos e =
    let (start, found, mapped, place) = get_pages_count-inv m 0 n v w own pos e in
    (start, place, Granted-map_fresh_pages m 0 n v w own pos start false found mapped)
