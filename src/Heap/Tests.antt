-- ===== src/Heap/Tests.antt =====
-- A page that is cut into pieces of 64 bytes, of which the first is taken.
use honey_os.Base.{◌%◌, ◌/◌, ◌≡◌, refl, arith, if◌then◌else◌, ◌==◌}
use honey_os.Base.Word.{test_bit}
use honey_os.Heap.{
  AllocationBlock, search_block, search_fine, reserve_bits, free_bits, piece_offset, log2,
  allocation_magic,
}
use honey_os.Heap.Pieces.{IsGivenAndFreed, search_block-IsGivenAndFreed}

abbrev block : AllocationBlock
block = record {
  allocated_fine = λ c. if c == 0 then 1 else 0;
  allocated_coarse = 0;
  block_size = 64;
  next = 0;
  previous = 0;
  magic = allocation_magic;
}

search_block-IsGivenAndFreed_example :
    IsGivenAndFreed 0 1 block
      (reserve_bits 0 1 block)
      (free_bits (piece_offset 0 1 block % 4096 / 64) (reserve_bits 0 1 block))
unfolding search_block search_fine test_bit
search_block-IsGivenAndFreed_example =
    search_block-IsGivenAndFreed 0 1 block refl (omega arith) (λ c. ground arith) (omega arith) refl

-- A request of 64 bytes is served by a piece of 128.
log2-power : log2 32 64 ≡ 6
unfolding log2
log2-power = refl
