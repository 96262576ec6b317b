-- ===== src/Heap/Pieces.antt =====
-- The pieces that the heap gives: inside the data of their page, free before, and free again.
use mathlib.Core.Path.{subst}
use native.Mathlib.Nat.{mul-add, mul-div_right, mod-eq_of_lt}
use honey_os.Base.{
  ℕ, zero, suc, ◌+◌, ◌*◌, ◌/◌, ◌%◌, ◌^◌, ◌≤◌, ◌<◌, ◌≡◌, refl, inl, inr, true, false, ltb, ◌==◌,
  update, Bool-cases, arith,
}
use honey_os.Base.Word.{
  ones, test_bit, set_bit, clear_bit, test_bit-set_bit, clear_bit-set_bit, clear_bit_same,
}
use honey_os.Heap.{
  AllocationBlock, Search, piece, abort, exhausted, search_fine, search_coarse, search_block,
  reserve_bits, recheck_coarse, free_bits, piece_offset,
}

-- A piece that is free and inside the data of its page.
pub record IsFree (block : AllocationBlock) (coarse fine : ℕ) : Type 0 where
  pub coarse_small : coarse < 32
  pub fine_small : fine < 32
  pub clear : test_bit (block.allocated_fine coarse) fine ≡ false
  pub inside : piece_offset coarse fine block + block.block_size ≤ 3948

-- What a search says is right.
abbrev pub IsRight : AllocationBlock → Search → Type 0
IsRight block (piece coarse fine) = IsFree block coarse fine
IsRight block abort = Unit
IsRight block exhausted = Unit

search_fine-IsRight :
    (n coarse fine : ℕ) (block : AllocationBlock)
    → coarse < 32
    → fine + n ≤ 32
    → IsRight block (search_fine n coarse fine block)
unfolding search_fine piece_offset
search_fine-IsRight zero coarse fine block h h' = tt
search_fine-IsRight (suc n) coarse fine block h h' =
    elim (Bool-cases (ltb 3948 (block.block_size * (32 * coarse + fine + 1)))) [
      | inl e ↦ rw (search_fine, e) tt
      | inr e ↦ elim (Bool-cases (test_bit (block.allocated_fine coarse) fine)) [
        | inl taken ↦
            rw (search_fine, e, taken)
              (search_fine-IsRight n coarse (fine + 1) block h (omega arith))
        | inr clear ↦
            rw (search_fine, e, clear)
              record {
                coarse_small = h;
                fine_small = omega arith;
                clear = clear;
                inside = ground (arith, mul-add block.block_size (32 * coarse + fine) 1);
              }
      ]
    ]

search_coarse-IsRight :
    (n coarse : ℕ) (block : AllocationBlock)
    → coarse + n ≤ 32
    → IsRight block (search_coarse n coarse block)
unfolding search_coarse
search_coarse-IsRight zero coarse block h = tt
search_coarse-IsRight (suc n) coarse block h =
    go (search_fine 32 coarse 0 block)
      (search_fine-IsRight 32 coarse 0 block (omega arith) (omega arith))
      (search_coarse-IsRight n (coarse + 1) block (omega arith))
  where
    go :
        (s : Search)
        → IsRight block s
        → IsRight block (search_coarse n (coarse + 1) block)
        → IsRight block (elim s [
          | piece c f ↦ piece c f
          | abort ↦ abort
          | exhausted ↦ search_coarse n (coarse + 1) block
        ])
    go (piece c f) right rest = right
    go abort right rest = tt
    go exhausted right rest = rest

search_block-IsRight : (block : AllocationBlock) → IsRight block (search_block block)
unfolding search_block
search_block-IsRight block = elim (Bool-cases (block.allocated_coarse == ones)) [
  | inl e ↦ rw (search_block, e) tt
  | inr e ↦ rw (search_block, e) (search_coarse-IsRight 32 0 block (omega arith))
]

-- The end of `reserveBlock` changes one coarse bit at most.
recheck_coarse-fine :
    (n i coarse : ℕ) (block : AllocationBlock)
    → (recheck_coarse n i coarse block).allocated_fine ≡ block.allocated_fine
unfolding recheck_coarse
recheck_coarse-fine zero i coarse block = refl
recheck_coarse-fine (suc n) i coarse block =
    elim (Bool-cases (test_bit (block.allocated_fine coarse) i)) [
      | inl e ↦ rw (recheck_coarse, e) (recheck_coarse-fine n (i + 1) coarse block)
      | inr e ↦ rw (recheck_coarse, e) refl
    ]

recheck_coarse-clear_bit :
    (n i coarse : ℕ) (block : AllocationBlock) (w : ℕ)
    → w < 2 ^ 32
    → coarse < 32
    → test_bit w coarse ≡ false
    → block.allocated_coarse ≡ set_bit w coarse
    → clear_bit (recheck_coarse n i coarse block).allocated_coarse coarse ≡ w
unfolding recheck_coarse
recheck_coarse-clear_bit zero i coarse block w h k t e = rw e (clear_bit-set_bit w coarse h k t)
recheck_coarse-clear_bit (suc n) i coarse block w h k t e =
    elim (Bool-cases (test_bit (block.allocated_fine coarse) i)) [
      | inl b ↦ rw (recheck_coarse, b) (recheck_coarse-clear_bit n (i + 1) coarse block w h k t e)
      | inr b ↦
          rw (recheck_coarse, b, e, clear_bit-set_bit w coarse h k t)
            (clear_bit_same w coarse h k t)
    ]

-- A piece finds its bits again by its address.
piece-index :
    (coarse fine : ℕ) (block : AllocationBlock)
    → IsFree block coarse fine
    → 0 < block.block_size
    → piece_offset coarse fine block % 4096 / block.block_size ≡ 32 * coarse + fine
unfolding piece_offset
piece-index coarse fine block is_free h =
    let small : piece_offset coarse fine block < 4096 = omega (arith, is_free.inside) in
    rw (mod-eq_of_lt small) (mul-div_right (32 * coarse + fine) h)

reserve_bits-fine :
    (coarse fine : ℕ) (block : AllocationBlock)
    → (reserve_bits coarse fine block).allocated_fine
      ≡ update block.allocated_fine coarse (set_bit (block.allocated_fine coarse) fine)
unfolding reserve_bits
reserve_bits-fine coarse fine block = recheck_coarse-fine 32 0 coarse (record block {
  allocated_fine = update block.allocated_fine coarse (set_bit (block.allocated_fine coarse) fine);
  allocated_coarse = set_bit block.allocated_coarse coarse;
})

reserve_bits-coarse :
    (coarse fine : ℕ) (block : AllocationBlock)
    → block.allocated_coarse < 2 ^ 32
    → coarse < 32
    → test_bit block.allocated_coarse coarse ≡ false
    → clear_bit (reserve_bits coarse fine block).allocated_coarse coarse ≡ block.allocated_coarse
unfolding reserve_bits
reserve_bits-coarse coarse fine block h k clear =
    recheck_coarse-clear_bit 32 0 coarse
      (record block {
        allocated_fine =
            update block.allocated_fine coarse (set_bit (block.allocated_fine coarse) fine);
        allocated_coarse = set_bit block.allocated_coarse coarse;
      })
      block.allocated_coarse h k clear refl

-- The bits of a piece are set, and cleared again.
update-back :
    (words : ℕ → ℕ) (coarse fine : ℕ)
    → words coarse < 2 ^ 32
    → fine < 32
    → test_bit (words coarse) fine ≡ false
    → (c : ℕ)
    → update
        (update words coarse (set_bit (words coarse) fine))
        coarse
        (clear_bit (update words coarse (set_bit (words coarse) fine) coarse) fine)
        c
      ≡ words c
unfolding update
update-back words coarse fine h k clear c =
    ground (arith, clear_bit-set_bit (words coarse) fine h k clear)

reserved-bit :
    (words : ℕ → ℕ) (coarse fine : ℕ)
    → test_bit (update words coarse (set_bit (words coarse) fine) coarse) fine ≡ true
unfolding update
reserved-bit words coarse fine = ground (arith, test_bit-set_bit (words coarse) fine fine)

-- A piece was found, given away and freed.
pub record IsGivenAndFreed (coarse fine : ℕ) (block given freed : AllocationBlock) : Type 0 where
  pub is_free : IsFree block coarse fine
  pub taken : test_bit (given.allocated_fine coarse) fine ≡ true
  pub same_fine : (c : ℕ) → freed.allocated_fine c ≡ block.allocated_fine c
  pub same_coarse : freed.allocated_coarse ≡ block.allocated_coarse

-- In a block with words of 32 bits, pieces of at least one byte and the coarse bit of the piece clear, a piece that the search finds has its bit clear and lies inside the data of the page; `reserveBlock` sets the bit, and `free` on the piece's address gives all bits back as they were.
pub search_block-IsGivenAndFreed :
    (coarse fine : ℕ) (block : AllocationBlock)
    → search_block block ≡ piece coarse fine
    → 0 < block.block_size
    → ((c : ℕ) → block.allocated_fine c < 2 ^ 32)
    → block.allocated_coarse < 2 ^ 32
    → test_bit block.allocated_coarse coarse ≡ false
    → IsGivenAndFreed coarse fine block (reserve_bits coarse fine block) (
        free_bits
          (piece_offset coarse fine block % 4096 / block.block_size)
          (reserve_bits coarse fine block))
unfolding free_bits
search_block-IsGivenAndFreed coarse fine block e size words coarse_word clear =
    let is_free = subst (λ s. IsRight block s) e (search_block-IsRight block) in
    let fine_words = reserve_bits-fine coarse fine block in
    let index = piece-index coarse fine block is_free size in
    let high : (32 * coarse + fine) / 32 ≡ coarse = omega (arith, is_free.fine_small) in
    let low : (32 * coarse + fine) % 32 ≡ fine = omega (arith, is_free.fine_small) in
    record {
      is_free = is_free;
      taken = rw fine_words (reserved-bit block.allocated_fine coarse fine);
      same_fine = λ c.
          rw (index, high, low, fine_words)
            (update-back block.allocated_fine coarse fine (words coarse) is_free.fine_small
              is_free.clear c);
      same_coarse =
          rw (index, high)
            (reserve_bits-coarse coarse fine block coarse_word is_free.coarse_small clear);
    }
