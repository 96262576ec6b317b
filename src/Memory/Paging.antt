-- ===== src/Memory/Paging.antt =====
-- The page bitmaps of src/kernel/memory/paging.c and src/include/memory.h: one bit for each of
-- the 0x100000 pages, and one coarse bit for each word of those that is full. An array is a
-- function from its indices; a word is a number below 2 ^ 32.
pub mod Bitmap
pub mod Find
pub mod Run
use honey_os.Base.{
  ℕ, zero, suc, ◌+◌, ◌-◌, ◌*◌, ◌/◌, ◌%◌, ◌^◌, Bool, true, false, Option, none, some, ltb, leb, ◌&&◌,
  ◌==◌, if◌then◌else◌, update,
}
use honey_os.Base.Word.{ones, test_bit, set_bit, clear_bit}

-- `PageDirectoryEntry`, the bits that the code uses.
pub record PageDirectoryEntry : Type 0 where
  pub present : Bool
  pub writable : Bool
  pub belongs_to_user_process : Bool
  pub page_table_id : ℕ

-- `PagingInfo`; `is_page_table_in_use` is never read or written.
pub record PagingInfo : Type 0 where
  pub page_directory : ℕ → PageDirectoryEntry
  pub is_page_allocated : ℕ → ℕ
  pub is_page_connected_to_next : ℕ → ℕ
  pub is_page_allocated_coarse : ℕ → ℕ
  pub page_search_start : ℕ

-- `reservePage` on one of the 0x100000 pages
unfoldable pub reserve_within : PagingInfo → ℕ → PagingInfo
reserve_within info page_id =
    let coarse_position = page_id / 32 in
    let word = set_bit (info.is_page_allocated coarse_position) (page_id % 32) in
    let info' = record info {
      is_page_allocated = update info.is_page_allocated coarse_position word;
    } in
    if word == ones
    then record info' {
      is_page_allocated_coarse =
          update info.is_page_allocated_coarse (coarse_position / 32)
            (set_bit (info.is_page_allocated_coarse (coarse_position / 32)) (coarse_position % 32));
    }
    else info'

-- The words of a `PagingInfo` behind `isPageAllocated`, counted from its first: `isPageConnectedToNext`,
-- `isPageAllocatedCoarse` and `pageSearchStart`. What lies behind the structure is not modelled.
unfoldable pub word_behind : PagingInfo → ℕ → ℕ
word_behind info i =
    if ltb i 0x1_0000
    then info.is_page_connected_to_next (i - 0x8000)
    else if ltb i 0x1_0400
    then info.is_page_allocated_coarse (i - 0x1_0000)
    else info.page_search_start

unfoldable pub with_word_behind : ℕ → ℕ → PagingInfo → PagingInfo
unfolding update
with_word_behind i word info =
    if ltb i 0x1_0000
    then record info {
      is_page_connected_to_next = update info.is_page_connected_to_next (i - 0x8000) word;
    }
    else if ltb i 0x1_0400
    then record info {
      is_page_allocated_coarse = update info.is_page_allocated_coarse (i - 0x1_0000) word;
    }
    else if i == 0x1_0400
    then record info { page_search_start = word }
    else info

-- `reservePage` on a number behind the last page: the bits that it sets are those of the words behind
-- the two bitmaps.
unfoldable pub reserve_behind : PagingInfo → ℕ → PagingInfo
unfolding word_behind with_word_behind
reserve_behind info page_id =
    let coarse_position = page_id / 32 in
    let word = set_bit (word_behind info coarse_position) (page_id % 32) in
    let info' = with_word_behind coarse_position word info in
    let i = 0x1_0000 + coarse_position / 32 in
    let coarse_word = set_bit (word_behind info' i) (coarse_position % 32) in
    if leb coarse_position 0x1_0400 && (word == ones)
    then with_word_behind i coarse_word info'
    else info'

-- `reservePage`
unfoldable pub reserve_page : PagingInfo → ℕ → PagingInfo
unfolding reserve_within reserve_behind
reserve_page info page_id =
    if ltb page_id 0x10_0000 then reserve_within info page_id else reserve_behind info page_id

-- `reservePagesCount`, the rounds from page `start_page_id` on.
unfoldable pub reserve_pages_count : PagingInfo → ℕ → ℕ → PagingInfo
reserve_pages_count info start_page_id zero = info
reserve_pages_count info start_page_id (suc count) =
    reserve_pages_count (reserve_page info start_page_id) ((start_page_id + 1) % 2 ^ 32) count

-- `markPageFree`; every caller passes `coarse = p / 32`, `fine = p % 32` and `fineBit = 1 << fine`.
unfoldable pub mark_page_free : PagingInfo → ℕ → ℕ → PagingInfo
mark_page_free info coarse fine = record info {
  is_page_allocated =
      update info.is_page_allocated coarse (clear_bit (info.is_page_allocated coarse) fine);
  is_page_connected_to_next =
      update info.is_page_connected_to_next coarse
        (clear_bit (info.is_page_connected_to_next coarse) fine);
  is_page_allocated_coarse =
      update info.is_page_allocated_coarse (coarse / 32)
        (clear_bit (info.is_page_allocated_coarse (coarse / 32)) (coarse % 32));
}

-- How the innermost loop of `findMultiplePages` ends: the run is free, a page of it is taken, or
-- the loop reads behind the last word of the bitmap.
pub data Probe : Type 0 where
  vacant taken beyond : Probe

-- The loop over `check`, `n` rounds from `check` on.
unfoldable pub probe_run : PagingInfo → (coarse_page_id fine check n : ℕ) → Probe
probe_run info coarse_page_id fine check zero = vacant
probe_run info coarse_page_id fine check (suc n) =
    let rest = probe_run info coarse_page_id fine (check + 1) n in
    let current_fine = fine + check in
    if ltb (coarse_page_id + current_fine / 32) 0x8000
    then (if test_bit (info.is_page_allocated (coarse_page_id + current_fine / 32))
          (current_fine % 32)
        then taken
        else rest)
    else beyond

-- How one of the outer loops ends: it returns a page, it runs out of rounds, or it has left the
-- bitmap.
pub data Search : Type 0 where
  found : ℕ → Search
  exhausted outside : Search

-- The loop over `fine`, `n` rounds from `fine` on.
unfoldable pub fine_loop : PagingInfo → (size coarse_page_id fine n : ℕ) → Search
fine_loop info size coarse_page_id fine zero = exhausted
fine_loop info size coarse_page_id fine (suc n) = elim (probe_run info coarse_page_id fine 0 size) [
  | vacant ↦ found (coarse_page_id * 32 + fine)
  | taken ↦ fine_loop info size coarse_page_id (fine + 1) n
  | beyond ↦ outside
]

-- The loop over `coarse`.
unfoldable pub coarse_loop : PagingInfo → (size very_coarse coarse n : ℕ) → Search
coarse_loop info size very_coarse coarse zero = exhausted
coarse_loop info size very_coarse coarse (suc n) =
    elim (test_bit (info.is_page_allocated_coarse very_coarse) coarse) [
      | true ↦ coarse_loop info size very_coarse (coarse + 1) n
      | false ↦ elim (fine_loop info size (very_coarse * 32 + coarse) 0 32) [
        | found page ↦ found page
        | exhausted ↦ coarse_loop info size very_coarse (coarse + 1) n
        | outside ↦ outside
      ]
    ]

-- The loop over `veryCoarse`: with no round left the next read is behind the coarse bitmap.
unfoldable pub very_coarse_loop : PagingInfo → (size very_coarse n : ℕ) → Search
very_coarse_loop info size very_coarse zero = outside
very_coarse_loop info size very_coarse (suc n) =
    elim (info.is_page_allocated_coarse very_coarse == ones) [
      | true ↦ very_coarse_loop info size (very_coarse + 1) n
      | false ↦ elim (coarse_loop info size very_coarse 0 32) [
        | found page ↦ found page
        | exhausted ↦ very_coarse_loop info size (very_coarse + 1) n
        | outside ↦ outside
      ]
    ]

abbrev page_of : Search → Option ℕ
page_of (found page) = some page
page_of exhausted = none
page_of outside = none

-- `findMultiplePages`; `none` where the program reads behind the bitmaps.
unfoldable pub find_multiple_pages : PagingInfo → ℕ → Option ℕ
unfolding very_coarse_loop
find_multiple_pages info size =
    let very_coarse = info.page_search_start / 1024 in
    page_of (very_coarse_loop info size very_coarse (0x400 - very_coarse))

-- `findPage`
unfoldable pub find_page : PagingInfo → Option ℕ
unfolding find_multiple_pages
find_page info = find_multiple_pages info 1
