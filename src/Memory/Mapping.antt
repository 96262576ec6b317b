-- ===== src/Memory/Mapping.antt =====
-- Page tables and address spaces of src/kernel/memory/paging.c. The kernel's state is explicit:
-- `kernelPhysicalPages`, a `PagingInfo` for each address space (space 0 is `kernelVirtualPages`),
-- the page tables by the physical page that holds them, and the page that `mapTemporary` shows.
-- A step gives `none` where the program reads behind one of its tables.
pub mod Map
pub mod Translate
use honey_os.Base.{
  ℕ, zero, suc, ◌+◌, ◌*◌, ◌/◌, ◌%◌, ◌^◌, Bool, true, false, ◌||◌, Option, none, some, ltb, ◌==◌,
  if◌then◌else◌, update, ◌>>=◌,
}
use honey_os.Base.Word.{test_bit, set_bit}
use honey_os.Memory.Paging.{
  PageDirectoryEntry, PagingInfo, reserve_page, reserve_pages_count, mark_page_free, find_page,
  find_multiple_pages,
}

-- `PageTableEntry`, the bits that the code uses.
pub record PageTableEntry : Type 0 where
  pub present : Bool
  pub writable : Bool
  pub belongs_to_user_process : Bool
  pub is_volatile : Bool
  pub target_address : ℕ

abbrev pub empty_entry : PageTableEntry
empty_entry = record {
  present = false;
  writable = false;
  belongs_to_user_process = false;
  is_volatile = false;
  target_address = 0;
}

pub record Memory : Type 0 where
  pub physical : PagingInfo
  pub spaces : ℕ → PagingInfo
  pub tables : ℕ → ℕ → PageTableEntry
  pub temporary : ℕ

-- The space of `kernelVirtualPages`.
abbrev pub kernel_space : ℕ
kernel_space = 0

-- `ADDRESS`, `PAGE_ID` and `PAGE_OFFSET`
abbrev pub address : ℕ → ℕ
address page_id = page_id * 4096 % 2 ^ 32

abbrev pub page_id : ℕ → ℕ
page_id a = a / 4096

abbrev pub page_offset : ℕ → ℕ
page_offset a = a % 4096

-- `VirtualAddress`: the bit fields of an address.
abbrev pub page_table_index : ℕ → ℕ
page_table_index a = a / 4096 % 1024

abbrev pub page_directory_index : ℕ → ℕ
page_directory_index a = a / 4096 / 1024 % 1024

-- `mapTemporary`; its result, the table at `temporaryPage`, is `m.tables m.temporary`.
unfoldable pub map_temporary : ℕ → Memory → Memory
map_temporary physical m = record m { temporary = page_id physical }

-- An assignment through the pointer that `mapTemporary` returned.
unfoldable pub write_temporary : ℕ → PageTableEntry → Memory → Memory
write_temporary index entry m = record m {
  tables = update m.tables m.temporary (update (m.tables m.temporary) index entry);
}

unfoldable pub with_space : ℕ → PagingInfo → Memory → Memory
with_space s info m = record m { spaces = update m.spaces s info }

-- `getPhysicalAddress` on the directory of space `s`.
unfoldable pub get_physical_address : ℕ → ℕ → Memory → ℕ × Memory
unfolding map_temporary
get_physical_address s virtual m =
    let table = ((m.spaces s).page_directory (page_directory_index virtual)).page_table_id in
    let m' = map_temporary (address table) m in
    let base = (m'.tables m'.temporary (page_table_index virtual)).target_address in
    (address base + page_offset virtual, m')

-- The branch of `mapPage` for a directory entry that is not present, behind its `findPage`.
unfoldable pub place_page_table : ℕ → ℕ → Bool → ℕ → Memory → Memory
unfolding map_temporary with_space
place_page_table s index user_page new_page_table m =
    let m₁ = record m { physical = reserve_page m.physical new_page_table } in
    let m₂ = map_temporary (address new_page_table) m₁ in
    let m₃ = record m₂ { tables = update m₂.tables m₂.temporary (λ _. empty_entry) } in
    let info = m₃.spaces s in
    let entry : PageDirectoryEntry = record {
      present = true;
      writable = true;
      belongs_to_user_process = (info.page_directory index).belongs_to_user_process || user_page;
      page_table_id = new_page_table;
    } in
    with_space s (record info { page_directory = update info.page_directory index entry }) m₃

-- The whole branch.
unfoldable pub add_page_table : ℕ → ℕ → Bool → Memory → Option Memory
unfolding place_page_table
add_page_table s index user_page m = do
  new_page_table ← find_page m.physical
  some (place_page_table s index user_page new_page_table m)

-- The rest of `mapPage`.
unfoldable pub set_page_entry : ℕ → ℕ → ℕ → Bool → Bool → Memory → Memory
unfolding map_temporary write_temporary
set_page_entry s physical virtual user_page volatile m =
    let table = ((m.spaces s).page_directory (page_directory_index virtual)).page_table_id in
    write_temporary (page_table_index virtual)
      (record {
        present = true;
        writable = true;
        belongs_to_user_process = user_page;
        is_volatile = volatile;
        target_address = page_id physical;
      })
      (map_temporary (address table) m)

-- `mapPage`
unfoldable pub map_page : ℕ → ℕ → ℕ → Bool → Bool → Memory → Option Memory
unfolding add_page_table set_page_entry
map_page s physical virtual user_page volatile m = do
  m' ←
      (if ((m.spaces s).page_directory (page_directory_index virtual)).present
        then some m
        else add_page_table s (page_directory_index virtual) user_page m)
  some (set_page_entry s physical virtual user_page volatile m')

-- `unmapSinglePageFrom`
unfoldable pub unmap_single_page_from : ℕ → ℕ → Memory → Memory
unfolding map_temporary write_temporary
unmap_single_page_from s virtual m =
    let table = ((m.spaces s).page_directory (page_directory_index virtual)).page_table_id in
    let m' = map_temporary (address table) m in
    let entry = m'.tables m'.temporary (page_table_index virtual) in
    write_temporary (page_table_index virtual)
      (record entry { target_address = 0; present = false }) m'
