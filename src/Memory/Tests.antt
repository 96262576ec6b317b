-- ===== src/Memory/Tests.antt =====
-- The memory management of src/kernel/memory on an empty machine and on one with a single mapped page.
use honey_os.Base.{update, ◌>>=◌, ℕ, ◌+◌, ◌≡◌, refl, true, false, Option, none, some, arith}
use honey_os.Base.Word.{set_bit, test_bit, test_bit-zero}
use honey_os.Memory.Paging.{
  reserve_within, reserve_behind, word_behind, with_word_behind, reserve_page, PagingInfo,
  find_page, very_coarse_loop, coarse_loop, fine_loop, probe_run, find_multiple_pages,
  reserve_pages_count,
}
use honey_os.Memory.Paging.Bitmap.{is_full, IsExact, reserve_pages_count-IsExact}
use honey_os.Memory.Paging.Find.{FindsFirst, find_multiple_pages-first}
use honey_os.Memory.Mapping.{
  Memory, empty_entry, map_page, get_physical_address, page_id, page_offset, address,
}
use honey_os.Memory.Mapping.Translate.{OwnsTables, IsSearchable, translate}
use honey_os.Memory.Mapping.Map.{Mapped, map_page-Mapped, get_physical_address-translate}
use honey_os.Memory.Pages.{request_memory, get_pages_count, unmap_round, unmap_page_from, free}
use honey_os.Memory.Pages.Request.{Granted, request_memory-Granted, get_pages_count-Granted}
use honey_os.Memory.Pages.Release.{Released, unmap_page_from-one, free-Released}

-- No page is allocated and no page table present.
abbrev empty_info : PagingInfo
empty_info = record {
  page_directory = λ i. record {
    present = false;
    writable = false;
    belongs_to_user_process = false;
    page_table_id = 0;
  };
  is_page_allocated = λ c. 0;
  is_page_connected_to_next = λ c. 0;
  is_page_allocated_coarse = λ c. 0;
  page_search_start = 1;
}

abbrev empty_memory : Memory
empty_memory = record {
  physical = empty_info;
  spaces = λ s. empty_info;
  tables = λ t i. empty_entry;
  temporary = 0;
}

empty-IsExact : IsExact empty_info
unfolding is_full
empty-IsExact = record {
  words = λ c. omega arith;
  coarse_words = λ c. omega arith;
  exact = λ c. test_bit-zero _;
}

empty-IsSearchable : IsSearchable empty_info
empty-IsSearchable = record { exact = empty-IsExact; start = omega arith }

empty-OwnsTables : (s : ℕ) → OwnsTables empty_memory s
empty-OwnsTables s = record {
  allocated = λ i h. ground arith;
  apart = λ i j h. ground arith;
  small = λ i h. ground arith;
}

abbrev or_empty : Option Memory → Memory
or_empty none = empty_memory
or_empty (some m) = m

-- Page 2 of space 1, mapped to physical page 5.
abbrev one_page : Memory
one_page = or_empty (map_page 1 0x5000 0x2000 true false empty_memory)

find_multiple_pages-first_example : FindsFirst empty_info 3 (find_multiple_pages empty_info 3)
find_multiple_pages-first_example =
    find_multiple_pages-first empty_info 3 (omega arith) empty-IsExact (omega arith)

map_page-Mapped_example : Mapped empty_memory 1 0x5000 0x2000 one_page
unfolding map_page find_page find_multiple_pages very_coarse_loop coarse_loop fine_loop probe_run
    test_bit
map_page-Mapped_example =
    map_page-Mapped empty_memory 1 0x5000 0x2000 true false (omega arith) empty-IsSearchable
      (empty-OwnsTables 1) refl

one_page-OwnsTables : OwnsTables one_page 1
unfolding map_page find_page find_multiple_pages very_coarse_loop coarse_loop fine_loop probe_run
    test_bit
one_page-OwnsTables =
    (map_page-Mapped empty_memory 1 0x5000 0x2000 true false {m' = one_page} (omega arith)
      empty-IsSearchable (empty-OwnsTables 1) refl).owns

one_page-translate : translate one_page 1 2 ≡ some 5
unfolding translate map_page find_page find_multiple_pages very_coarse_loop coarse_loop fine_loop
    probe_run test_bit update
one_page-translate = refl

get_physical_address-translate_example :
    (get_physical_address 1 0x2034 one_page).0 ≡ address 5 + page_offset 0x2034
get_physical_address-translate_example =
    get_physical_address-translate one_page 1 0x2034 (omega arith) one_page-OwnsTables
      one_page-translate

-- Two pages for the service of space 1.
abbrev two_granted : Memory
two_granted = or_empty (do (a, m) ← request_memory 1 2 0 0 empty_memory; some m)

request_memory-Granted_example :
    (start : ℕ) × (0 ≡ address start) × Granted empty_memory 1 2 start two_granted
unfolding request_memory find_multiple_pages find_page very_coarse_loop coarse_loop fine_loop
    probe_run test_bit map_page update reserve_pages_count reserve_page set_bit
request_memory-Granted_example =
    request_memory-Granted empty_memory 1 2 empty-IsSearchable empty-IsSearchable
      (empty-OwnsTables 1) (omega arith) refl

abbrev two_taken : Memory
two_taken = or_empty (do (a, m) ← get_pages_count 2 empty_memory; some m)

get_pages_count-Granted_example :
    (start : ℕ) × (0 ≡ address start) × Granted empty_memory 0 2 start two_taken
unfolding get_pages_count find_multiple_pages find_page very_coarse_loop coarse_loop fine_loop
    probe_run test_bit map_page update reserve_pages_count reserve_page set_bit
get_pages_count-Granted_example =
    get_pages_count-Granted empty_memory 2 empty-IsSearchable empty-IsSearchable
      (empty-OwnsTables 0) (omega arith) refl

unmap_page_from-one_example :
    unmap_page_from 1 0x2000 two_granted ≡ some (unmap_round 1 (page_id 0x2000) two_granted)
unmap_page_from-one_example = unmap_page_from-one 1 0x2000 two_granted

free-Released_example :
    (m' : Memory) × (free 1 0x2000 one_page ≡ some m') × Released one_page 1 2 5 m'
free-Released_example =
    free-Released one_page 1 0x2000 5 (omega arith) (omega arith) one_page-OwnsTables
      one_page-translate

-- The number of a page far behind the bitmap fills the first word of the coarse one.
reserve_page-behind : (reserve_page empty_info 0x20_0000).is_page_allocated_coarse 0 ≡ 1
unfolding reserve_page reserve_within reserve_behind word_behind with_word_behind update set_bit
reserve_page-behind = refl

reserve_pages_count-IsExact_example : IsExact (reserve_pages_count empty_info 30 5)
reserve_pages_count-IsExact_example =
    reserve_pages_count-IsExact empty_info 30 5 (omega arith) empty-IsExact
