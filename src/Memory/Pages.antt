-- ===== src/Memory/Pages.antt =====
-- Whole pages: the functions of src/kernel/memory/paging.c that find, map and free them, and the
-- three system calls of src/kernel/service/memorySyscalls.c that stand on them.
pub mod Fresh
pub mod Release
pub mod Request
use honey_os.Base.{
  ℕ, zero, suc, ◌+◌, ◌/◌, ◌%◌, ◌^◌, Bool, true, false, Option, none, some, ltb, ◌==◌, if◌then◌else◌,
  update, ◌>>=◌,
}
use honey_os.Base.Word.{test_bit, set_bit}
use honey_os.Memory.Paging.{
  PagingInfo, reserve_page, reserve_pages_count, mark_page_free, find_page, find_multiple_pages,
}
use honey_os.Memory.Mapping.{
  Memory, kernel_space, address, page_id, page_offset, map_temporary, with_space,
  get_physical_address, map_page, unmap_single_page_from,
}

unfoldable pub reserve_physical : ℕ → ℕ → Memory → Memory
reserve_physical page count m = record m { physical = reserve_pages_count m.physical page count }

unfoldable pub reserve_virtual : ℕ → ℕ → ℕ → Memory → Memory
unfolding with_space
reserve_virtual s page count m = with_space s (reserve_pages_count (m.spaces s) page count) m

-- The loops that map `n` pages from virtual page `virtual` on to the physical pages from `physical`
-- on.
unfoldable pub map_pages :
    ℕ → (physical virtual : ℕ) → Bool → Bool → (n : ℕ) → Memory → Option Memory
map_pages s physical virtual user volatile zero m = some m
map_pages s physical virtual user volatile (suc n) m = do
  m' ← map_page s (address physical) (address virtual) user volatile m
  map_pages s (physical + 1) (virtual + 1) user volatile n m'

-- The loops that find, reserve and map a physical page for each of `n` virtual pages; one of them
-- reserves by `reservePage(info, p)`, the other by `reservePagesCount(info, p, 1)`.
unfoldable pub map_fresh_pages : ℕ → (virtual : ℕ) → Bool → (n : ℕ) → Memory → Option Memory
unfolding reserve_physical
map_fresh_pages s virtual user zero m = some m
map_fresh_pages s virtual user (suc n) m = do
  physical ← find_page m.physical
  m' ← map_page s (address physical) (address virtual) user false (reserve_physical physical 1 m)
  map_fresh_pages s (virtual + 1) user n m'

-- `isPageConnectedToNext[pageId / 32] |= 1 << (pageId % 32)`
unfoldable pub connect_page : ℕ → PagingInfo → PagingInfo
connect_page page info = record info {
  is_page_connected_to_next =
      update info.is_page_connected_to_next (page / 32)
        (set_bit (info.is_page_connected_to_next (page / 32)) (page % 32));
}

-- The loop of `kernelMapPhysicalCount`.
unfoldable pub map_connected_pages : (physical virtual n : ℕ) → Memory → Option Memory
unfolding connect_page with_space
map_connected_pages physical virtual zero m = some m
map_connected_pages physical virtual (suc n) m = do
  m₁ ← map_page kernel_space (address physical) (address virtual) false false m
  let m₂ = with_space kernel_space (connect_page virtual (m₁.spaces kernel_space)) m₁
  map_connected_pages (physical + 1) (virtual + 1) n m₂

-- `kernelMapPhysicalCount`
unfoldable pub kernel_map_physical_count : (a size : ℕ) → Memory → Option (ℕ × Memory)
unfolding reserve_physical reserve_virtual map_connected_pages
kernel_map_physical_count a size m = do
  let m₁ = reserve_physical (page_id a) size m
  virtual ← find_multiple_pages (m₁.spaces kernel_space) size
  m₂ ← map_connected_pages (page_id a) virtual size (reserve_virtual kernel_space virtual size m₁)
  some ((address virtual + page_offset a) % 2 ^ 32, m₂)

-- `kernelMapPhysical`
unfoldable pub kernel_map_physical : ℕ → Memory → Option (ℕ × Memory)
unfolding reserve_physical reserve_virtual
kernel_map_physical a m = do
  let m₁ = reserve_physical (page_id a) 1 m
  virtual ← find_page (m₁.spaces kernel_space)
  m₂ ←
      map_page kernel_space (address (page_id a)) (address virtual) false false
        (reserve_virtual kernel_space virtual 1 m₁)
  some ((address virtual + page_offset a) % 2 ^ 32, m₂)

-- `getPage`
unfoldable pub get_page : Memory → Option (ℕ × Memory)
unfolding reserve_physical reserve_virtual
get_page m = do
  physical ← find_page m.physical
  let m₁ = reserve_physical physical 1 m
  virtual ← find_page (m₁.spaces kernel_space)
  m₂ ←
      map_page kernel_space (address physical) (address virtual) false false
        (reserve_virtual kernel_space virtual 1 m₁)
  some (address virtual, m₂)

-- `getPagesCount`
unfoldable pub get_pages_count : ℕ → Memory → Option (ℕ × Memory)
unfolding reserve_virtual map_fresh_pages
get_pages_count count m = do
  virtual ← find_multiple_pages (m.spaces kernel_space) count
  m' ←
      map_fresh_pages kernel_space virtual false count
        (reserve_virtual kernel_space virtual count m)
  some (address virtual, m')

-- `sharePage` into space `s`; the address 0 is NULL.
unfoldable pub share_page : (s source destination : ℕ) → Memory → Option (ℕ × Memory)
share_page s source destination m =
    let (physical, m₁) = get_physical_address kernel_space source m in
    let anywhere = do
      target ← find_page (m₁.spaces s)
      m₂ ← map_page s physical (address target) true false m₁
      some (address target + page_offset source, m₂)
    in let here = do m₂ ← map_page s physical destination true false m₁; some (destination, m₂)
      in if destination == 0 then anywhere else here

-- One round of the loop of `unmapPageFrom`.
unfoldable pub unmap_round : (s p : ℕ) → Memory → Memory
unmap_round s p m =
    unmap_single_page_from s (address p)
      (with_space s (mark_page_free (m.spaces s) (p / 32) (p % 32)) m)

-- The `do ... while` of `unmapPageFrom`, on fuel; `none` is the end of the fuel.
unfoldable pub unmap_loop : (fuel s p : ℕ) → Memory → Option Memory
unfolding unmap_round
unmap_loop zero s p m = none
unmap_loop (suc fuel) s p m =
    let m' = unmap_round s p m in
    let again = unmap_loop fuel s (p + 1) m' in
    if test_bit ((m'.spaces s).is_page_connected_to_next (p / 32)) (p % 32) then again else some m'

-- `unmapPageFrom`; a space has 0x100000 pages.
unfoldable pub unmap_page_from : (s a : ℕ) → Memory → Option Memory
unmap_page_from s a m = unmap_loop 0x100000 s (page_id a) m

-- `unmapPage`
unfoldable pub unmap_page : ℕ → Memory → Option Memory
unmap_page a m = unmap_page_from kernel_space a m

-- `freePhysicalPage`
unfoldable pub free_physical_page : ℕ → Memory → Memory
free_physical_page p m = record m { physical = mark_page_free m.physical (p / 32) (p % 32) }

-- One round of the loop of `giveUpPage`.
unfoldable pub give_up_round : (s p : ℕ) → Memory → Memory
unfolding free_physical_page unmap_round
give_up_round s p m =
    let (physical, m₁) = get_physical_address s (address p) m in
    unmap_round s p (free_physical_page (page_id physical) m₁)

-- `giveUpPage`
unfoldable pub give_up_loop : (fuel s p : ℕ) → Memory → Option Memory
unfolding give_up_round
give_up_loop zero s p m = none
give_up_loop (suc fuel) s p m =
    let m' = give_up_round s p m in
    let again = give_up_loop fuel s (p + 1) m' in
    if test_bit ((m'.spaces s).is_page_connected_to_next (p / 32)) (p % 32) then again else some m'

unfoldable pub give_up_page : (s p : ℕ) → Memory → Option Memory
give_up_page s p m = give_up_loop 0x100000 s p m

-- One round of the loop of `freePageFrom`, which indexes the directory by `PAGE_ID(pageId)` and the
-- page table by `PAGE_OFFSET(pageId)`; an index of 1024 or more is behind the table.
unfoldable pub free_round : (s p : ℕ) → Memory → Option Memory
unfolding free_physical_page
free_round s p m =
    let m₁ = with_space s (mark_page_free (m.spaces s) (p / 32) (p % 32)) m in
    let table = ((m₁.spaces s).page_directory (page_id p)).page_table_id in
    let m₂ = map_temporary (address table) m₁ in
    let physical = (m₂.tables m₂.temporary (page_offset p)).target_address in
    if ltb (page_offset p) 1024
    then some (unmap_single_page_from s (address p) (free_physical_page physical m₂))
    else none

unfoldable pub free_loop : (fuel s p : ℕ) → Memory → Option Memory
unfolding free_round
free_loop zero s p m = none
free_loop (suc fuel) s p m = do
  m' ← free_round s p m
  let again = free_loop fuel s (p + 1) m'
  if test_bit ((m'.spaces s).is_page_connected_to_next (p / 32)) (p % 32) then again else some m'

-- `freePageFrom`
unfoldable pub free_page_from : (s a : ℕ) → Memory → Option Memory
free_page_from s a m = free_loop 0x100000 s (page_id a) m

-- `freePage`
unfoldable pub free_page : ℕ → Memory → Option Memory
free_page a m = free_page_from kernel_space a m

-- `handleRequestMemorySyscall` for a service with space `s`; its result is `call->returnValue`.
unfoldable pub request_memory : (s page_count target physical : ℕ) → Memory → Option (ℕ × Memory)
unfolding reserve_physical reserve_virtual map_pages map_fresh_pages
request_memory s page_count target physical m = do
  start ←
      (if page_id target == 0
        then find_multiple_pages (m.spaces s) page_count
        else some (page_id target))
  let m₁ = reserve_virtual s start page_count m
  m₂ ←
      (if physical == 0
        then map_fresh_pages s start true page_count m₁
        else map_pages s (page_id physical) start true true page_count
            (reserve_physical (page_id physical) page_count m₁))
  some ((address start + page_offset physical) % 2 ^ 32, m₂)

-- `handleGetPhysicalSyscall`
unfoldable pub get_physical : (s a : ℕ) → Memory → ℕ × Memory
get_physical s a m = get_physical_address s a m

-- `handleFreeSyscall`
unfoldable pub free : (s a : ℕ) → Memory → Option Memory
free s a m = give_up_page s (page_id a) m
