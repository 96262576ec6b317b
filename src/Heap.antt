-- ===== src/Heap.antt =====
-- The heap, src/kernel/memory/malloc.c: pages that are cut into pieces of one size, with a bit for
-- each piece. What stands in the pieces is not modelled.
pub mod Pieces
mod Tests
use honey_os.Base.{
  ℕ, zero, suc, ◌+◌, ◌-◌, ◌*◌, ◌/◌, ◌%◌, ◌^◌, Bool, true, false, not, Option, none, some, ltb, ◌==◌,
  if◌then◌else◌, update, ◌>>=◌,
}
use honey_os.Base.Word.{ones, test_bit, set_bit, clear_bit}
use honey_os.Memory.Mapping.{Memory, page_id}
use honey_os.Memory.Pages.{get_page, get_pages_count, free_page}

-- `AllocationBlock` without its data.
pub record AllocationBlock : Type 0 where
  pub allocated_fine : ℕ → ℕ
  pub allocated_coarse : ℕ
  pub block_size : ℕ
  pub next : ℕ
  pub previous : ℕ
  pub magic : ℕ

-- `ALLOCATION_MAGIC`
abbrev pub allocation_magic : ℕ
allocation_magic = 0xb105_f00d

-- The blocks by the addresses of their pages, `allocationData`, and the pages. What ends a page that
-- holds no block has another number in the place of the magic one.
pub record HeapState : Type 0 where
  pub block_at : ℕ → AllocationBlock
  pub allocation_data : ℕ → ℕ
  pub memory : Memory

unfoldable pub with_block : ℕ → AllocationBlock → HeapState → HeapState
with_block block value heap = record heap { block_at = update heap.block_at block value }

-- `LOG2` of a number from 1 on, with fuel above it.
unfoldable pub log2 : (fuel n : ℕ) → ℕ
log2 zero n = 0
log2 (suc fuel) n = let rest = log2 fuel (n / 2) in if ltb n 2 then 0 else rest + 1

-- The loop of `reserveBlock`, `n` bits from `i` on: the coarse bit is cleared where a fine one is clear.
unfoldable pub recheck_coarse : (n i coarse : ℕ) → AllocationBlock → AllocationBlock
recheck_coarse zero i coarse block = block
recheck_coarse (suc n) i coarse block =
    let rest = recheck_coarse n (i + 1) coarse block in
    let partly_free = record block { allocated_coarse = clear_bit block.allocated_coarse coarse } in
    if test_bit (block.allocated_fine coarse) i then rest else partly_free

-- `reserveBlock`: the bits.
unfoldable pub reserve_bits : (coarse fine : ℕ) → AllocationBlock → AllocationBlock
unfolding recheck_coarse
reserve_bits coarse fine block =
    let word = set_bit (block.allocated_fine coarse) fine in
    recheck_coarse 32 0 coarse record block {
      allocated_fine = update block.allocated_fine coarse word;
      allocated_coarse = set_bit block.allocated_coarse coarse;
    }

-- Where a piece starts in its page.
unfoldable pub piece_offset : (coarse fine : ℕ) → AllocationBlock → ℕ
piece_offset coarse fine block = block.block_size * (32 * coarse + fine)

-- What the search in a block comes to: a piece, the end of the page, or the end of a loop.
pub data Search : Type 0 where
  piece : (coarse fine : ℕ) → Search
  abort : Search
  exhausted : Search

-- The loop over `fine`, `n` rounds from `fine` on.
unfoldable pub search_fine : (n coarse fine : ℕ) → AllocationBlock → Search
search_fine zero coarse fine block = exhausted
search_fine (suc n) coarse fine block =
    let rest = search_fine n coarse (fine + 1) block in
    let found = if test_bit (block.allocated_fine coarse) fine then rest else piece coarse fine in
    if ltb 3948 (block.block_size * (32 * coarse + fine + 1)) then abort else found

-- The loop over `coarse`.
unfoldable pub search_coarse : (n coarse : ℕ) → AllocationBlock → Search
unfolding search_fine
search_coarse zero coarse block = exhausted
search_coarse (suc n) coarse block =
    let rest = search_coarse n (coarse + 1) block in
    elim (search_fine 32 coarse 0 block) [
      | piece c f ↦ piece c f
      | abort ↦ abort
      | exhausted ↦ rest
    ]

-- The search in one block, which is left out where all coarse bits are set.
unfoldable pub search_block : AllocationBlock → Search
unfolding search_coarse
search_block block =
    let found = search_coarse 32 0 block in
    if block.allocated_coarse == ones then exhausted else found

-- A new block of the heap for pieces of `2 ^ size_bit` bytes, behind block `last`.
unfoldable pub new_block : (size_bit last : ℕ) → HeapState → Option (ℕ × HeapState)
unfolding with_block
new_block size_bit last heap = do
  (block, memory) ← get_page heap.memory
  let fresh : AllocationBlock = record {
    allocated_fine = λ i. 0;
    allocated_coarse = 0;
    block_size = 2 ^ size_bit;
    next = 0;
    previous = last;
    magic = allocation_magic;
  }
  let heap₁ = with_block block fresh (record heap { memory = memory })
  let first = record heap₁ { allocation_data = update heap.allocation_data size_bit block }
  let linked = with_block last (record (heap₁.block_at last) { next = block }) heap₁
  some (block, if last == 0 then first else linked)

-- The loop of `_malloc` over the blocks from `block` on, where `last` stands before it.
unfoldable pub malloc_loop : (fuel size_bit block last : ℕ) → HeapState → Option (ℕ × HeapState)
unfolding search_block reserve_bits piece_offset new_block with_block
malloc_loop zero size_bit block last heap = none
malloc_loop (suc fuel) size_bit block last heap = do
  (here, heap₁) ← (if block == 0 then new_block size_bit last heap else some (block, heap))
  let content = heap₁.block_at here
  let later = malloc_loop fuel size_bit content.next here heap₁
  elim (search_block content) [
    | piece coarse fine ↦ some (
      here + piece_offset coarse fine content,
      with_block here (reserve_bits coarse fine content) heap₁,
    )
    | abort ↦ later
    | exhausted ↦ later
  ]

-- `_malloc`; `none` for size 0, of which there is no logarithm.
unfoldable pub malloc : (fuel size : ℕ) → HeapState → Option (ℕ × HeapState)
unfolding malloc_loop log2
malloc fuel size heap =
    let size_bit = log2 32 size + 1 in
    let whole = do
      (a, memory) ← get_pages_count ((size - 1) / 2 ^ 12 + 1) heap.memory
      some (a, record heap { memory = memory })
    in let cut = malloc_loop fuel size_bit (heap.allocation_data size_bit) 0 heap in
      if size == 0 then none else if ltb 10 size_bit then whole else cut

-- The bits that `free` clears.
unfoldable pub free_bits : (index : ℕ) → AllocationBlock → AllocationBlock
free_bits index block =
    let coarse = index / 32 in
    record block {
      allocated_fine =
          update block.allocated_fine coarse (clear_bit (block.allocated_fine coarse) (index % 32));
      allocated_coarse = clear_bit block.allocated_coarse coarse;
    }

-- `free`
unfoldable pub free : (location : ℕ) → HeapState → Option HeapState
unfolding with_block free_bits
free location heap =
    let page = page_id location * 4096 in
    let block = heap.block_at page in
    let freed = with_block page (free_bits (location % 4096 / block.block_size) block) heap in
    let page_freed = do
      memory ← free_page location heap.memory
      some (record heap { memory = memory })
    in if location == 0
      then some heap
      else if block.magic == allocation_magic
      then some freed
      else page_freed
