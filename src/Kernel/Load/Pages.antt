-- ===== src/Kernel/Load/Pages.antt =====
-- The pages of a program: the loop over the program headers in loadElf of
-- src/kernel/service/service.c.
use honey_os.Base.{
  ℕ, zero, suc, ◌+◌, ◌-◌, ◌/◌, ◌%◌, ◌^◌, Bool, ◌&&◌, Option, some, List, [], ◌∷◌, ◌++◌, ltb, leb,
  if◌then◌else◌, ◌>>=◌, drop, take,
}
use honey_os.Memory.Mapping.{Memory}
use honey_os.Memory.Pages.{get_pages_count, share_page}
use honey_os.Kernel.Load.Header.{ProgramHeader, program_header}

-- A page of a program: the address that `sharePage` gets, which maps the whole page with this number,
-- and the bytes that are copied to its start. Behind them the page keeps what it held, since `malloc` clears no whole pages.
pub record ProgramPage : Type 0 where
  pub address : ℕ
  pub copied : List ℕ

-- The bytes that are copied to the page of a segment.
unfoldable pub copied_bytes : (elf : List ℕ) → ProgramHeader → (page : ℕ) → List ℕ
copied_bytes elf header page =
    let left = header.segment_file_size - page in
    if ltb page header.segment_file_size
    then take (if ltb 0x1000 left then 0x1000 else left) (drop (header.data_offset + page) elf)
    else []

-- The loop over the pages of a segment, from `page` on. The counter of the source has 32 bits; it
-- wraps around only behind 2 ^ 20 pages, which are more than `malloc` has.
unfoldable pub segment_pages :
    (fuel : ℕ) (elf : List ℕ) → ProgramHeader → (page : ℕ) → List ProgramPage
unfolding copied_bytes
segment_pages zero elf header page = []
segment_pages (suc fuel) elf header page =
    let rest = segment_pages fuel elf header (page + 0x1000) in
    let first : ProgramPage = record {
      address = (header.virtual_address + page) % 2 ^ 32;
      copied = copied_bytes elf header page;
    } in
    if ltb page header.segment_memory_size then first ∷ rest else []

-- The pages of a segment; with hlib loaded, what lies behind 0xF0000000 is left out.
unfoldable pub program_pages : (elf : List ℕ) (has_hlib : Bool) → ProgramHeader → List ProgramPage
unfolding segment_pages
program_pages elf has_hlib header =
    if has_hlib && leb 0xf000_0000 header.virtual_address
    then []
    else segment_pages (header.segment_memory_size / 0x1000 + 1) elf header 0

-- Each page is allocated and mapped into the space; its kernel address with what is copied there.
unfoldable pub map_program_pages :
    (space : ℕ) → List ProgramPage → Memory → Option (List (ℕ × List ℕ) × Memory)
map_program_pages space [] m = some ([], m)
map_program_pages space (page ∷ pages) m = do
  (data_page, m₁) ← get_pages_count 1 m
  (shared, m₂) ← share_page space data_page page.address m₁
  (rest, m₃) ← map_program_pages space pages m₂
  some ((data_page, page.copied) ∷ rest, m₃)

-- The loop over the program headers, from one on.
unfoldable pub map_segments :
    (count : ℕ) (elf : List ℕ) (has_hlib : Bool) (space position entry_size : ℕ)
    → Memory
    → Option (List (ℕ × List ℕ) × Memory)
unfolding program_header program_pages map_program_pages
map_segments zero elf has_hlib space position entry_size m = some ([], m)
map_segments (suc count) elf has_hlib space position entry_size m = do
  header ← program_header (drop position elf)
  (first, m₁) ← map_program_pages space (program_pages elf has_hlib header) m
  (rest, m₂) ← map_segments count elf has_hlib space (position + entry_size) entry_size m₁
  some (first ++ rest, m₂)
