-- ===== src/Memory/Mapping/Translate.antt =====
-- The page tables of a space as a partial function from virtual to physical pages.
use honey_os.Base.{
  ℕ, ◌+◌, ◌/◌, ◌%◌, ◌^◌, ◌<◌, ◌≡◌, Bool, true, false, ◌&&◌, Option, none, some, arith, update, ◌==◌,
  if◌then◌else◌,
}
use honey_os.Memory.Paging.{PageDirectoryEntry, PagingInfo, find_page}
use honey_os.Memory.Paging.Bitmap.{is_allocated, IsExact, is_allocated-reserve_page}
use honey_os.Memory.Paging.Find.{FindsFirst, find_multiple_pages-first}
use honey_os.Memory.Mapping.{
  Memory, page_id, page_directory_index, place_page_table, set_page_entry,
}

abbrev pub directory_entry : Memory → ℕ → ℕ → PageDirectoryEntry
directory_entry m s p = (m.spaces s).page_directory (p / 1024 % 1024)

-- The walk that the processor makes for virtual page `p` of space `s`.
unfoldable pub translate : Memory → ℕ → ℕ → Option ℕ
translate m s p =
    let d = directory_entry m s p in
    let e = m.tables d.page_table_id (p % 1024) in
    if d.present && e.present then some e.target_address else none

-- The present entries of a directory have page tables of their own.
pub record TablesApart (m : Memory) (s : ℕ) : Type 0 where
  pub apart :
      (i j : ℕ)
      → ((m.spaces s).page_directory i).present ≡ true
      → ((m.spaces s).page_directory j).present ≡ true
      → ((m.spaces s).page_directory i).page_table_id
        ≡ ((m.spaces s).page_directory j).page_table_id
      → i ≡ j
  pub small :
      (i : ℕ)
      → ((m.spaces s).page_directory i).present ≡ true
      → ((m.spaces s).page_directory i).page_table_id < 0x100000

-- These page tables are allocated physical pages, too.
pub record OwnsTables (m : Memory) (s : ℕ) : Type 0 where
  pub allocated :
      (i : ℕ)
      → ((m.spaces s).page_directory i).present ≡ true
      → is_allocated m.physical ((m.spaces s).page_directory i).page_table_id ≡ true
  pub apart :
      (i j : ℕ)
      → ((m.spaces s).page_directory i).present ≡ true
      → ((m.spaces s).page_directory j).present ≡ true
      → ((m.spaces s).page_directory i).page_table_id
        ≡ ((m.spaces s).page_directory j).page_table_id
      → i ≡ j
  pub small :
      (i : ℕ)
      → ((m.spaces s).page_directory i).present ≡ true
      → ((m.spaces s).page_directory i).page_table_id < 0x100000

-- The physical bitmap can be searched.
pub record IsSearchable (info : PagingInfo) : Type 0 where
  pub exact : IsExact info
  pub start : info.page_search_start < 0x100000

-- With the directory entry present, the last part of `mapPage` changes one translation.
pub translate-set_page_entry :
    (m : Memory) (s physical virtual : ℕ) (user volatile : Bool) (p : ℕ)
    → OwnsTables m s
    → (directory_entry m s (page_id virtual)).present ≡ true
    → virtual < 2 ^ 32
    → p < 0x100000
    → translate (set_page_entry s physical virtual user volatile m) s p
      ≡ (if page_id virtual == p then some (page_id physical) else translate m s p)
unfolding translate set_page_entry update
translate-set_page_entry m s physical virtual user volatile p own here hv hp = ground (
  arith,
  own.apart (page_directory_index virtual) (p / 1024 % 1024) here,
  own.small (page_directory_index virtual) here,
)

pub OwnsTables-set_page_entry :
    (m : Memory) (s physical virtual : ℕ) (user volatile : Bool)
    → OwnsTables m s
    → OwnsTables (set_page_entry s physical virtual user volatile m) s
unfolding set_page_entry
OwnsTables-set_page_entry m s physical virtual user volatile own = record {
  allocated = own.allocated;
  apart = own.apart;
  small = own.small;
}

-- `findPage` gives a free page.
pub find_page-free :
    (info : PagingInfo) {p : ℕ}
    → IsSearchable info
    → find_page info ≡ some p
    → (is_allocated info p ≡ false) × (p < 0x100000)
unfolding find_page
find_page-free info {p} v h =
    let first = find_multiple_pages-first info 1 (omega arith) v.exact v.start in
    let (l, f, n) : FindsFirst info 1 (some p) = rw h at first in
    let e : p + 0 ≡ p = omega arith in (rw e at (f.clear 0 (omega arith)), omega (arith, f.inside))

module _ (m : Memory) (s i t : ℕ) (user : Bool) (own : OwnsTables m s)
    (absent : ((m.spaces s).page_directory i).present ≡ false)
    (free : is_allocated m.physical t ≡ false) (small : t < 0x100000) where
  -- A new page table is owned, its entry is present, and it translates nothing.
  pub place_page_table-present :
      (((place_page_table s i user t m).spaces s).page_directory i).present ≡ true
  unfolding place_page_table update
  place_page_table-present = ground arith

  pub translate-place_page_table :
      (p : ℕ) → translate (place_page_table s i user t m) s p ≡ translate m s p
  unfolding place_page_table update translate
  translate-place_page_table p = ground (arith, own.allocated (p / 1024 % 1024))

  pub OwnsTables-place_page_table : OwnsTables (place_page_table s i user t m) s
  unfolding place_page_table update
  OwnsTables-place_page_table = record {
    allocated = λ j.
        let id = ((m.spaces s).page_directory j).page_table_id in
        ground (
          arith,
          own.allocated j,
          is_allocated-reserve_page m.physical t id small,
          is_allocated-reserve_page m.physical t t small,
        );
    apart = λ j k. ground (arith, own.apart j k, own.allocated j, own.allocated k);
    small = λ j. ground (arith, own.small j);
  }
