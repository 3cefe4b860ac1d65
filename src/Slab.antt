-- ===== src/Slab.antt =====
-- include/alloc/SlabTLS.hpp: chunks of one size, cut from blocks, on one thread.
pub mod Chunks
pub mod Leak
pub mod Exit
mod Tests
use rg.Prelude.{ℕ, zero, suc, ◌+◌, ◌-◌, ◌*◌, ◌%◌, ◌^◌, ◌==◌, if◌then◌else◌}
use rg.WaitCounter.{add32}
use rg.Alloc.{MemBlk, Allocator, round_to_alignment, max_align, add64, sub64}

-- `chunkHeaderSize`: a pointer has 8 bytes, less than the alignment.
abbrev pub chunk_header_size : ℕ
chunk_header_size = 16

unfoldable pub chunk_size : ℕ → ℕ
chunk_size size = round_to_alignment max_align (add64 chunk_header_size size)

unfoldable pub block_size : ℕ → ℕ → ℕ
block_size size capacity = chunk_size size * capacity % 2 ^ 64

-- `BlockAllocator::prefixSize`: a `BlockMetaData` has 8 bytes, rounded to the alignment.
abbrev pub prefix_size : ℕ
prefix_size = 16

-- `currentBlock`, the state of the allocator of blocks, and the `dealloc_count` of the
-- `BlockMetaData` that an address is read as, whatever is stored there.
pub record Slab (S : Type 0) : Type 0 where
  pub user_ptr : ℕ
  pub unused_idx : ℕ
  pub blocks : S
  pub dealloc_count : ℕ → ℕ

abbrev pub set_count : (ℕ → ℕ) → ℕ → ℕ → ℕ → ℕ
set_count counts a c q = if a == q then c else counts q

-- `block_allocator` is `BlockAllocator`, whose blocks begin behind their `BlockMetaData`.
module _ {S : Type 0} (block_allocator : Allocator S) (size capacity : ℕ) where
  -- `allocateAndSetActiveBlock`, with `allocateNewBlock`
  unfoldable pub set_active_block : Slab S → Slab S
  set_active_block s =
      let (blocks, blk) = block_allocator.allocate (block_size size capacity) s.blocks in
      record s {
        blocks = blocks;
        dealloc_count = set_count s.dealloc_count (blk.ptr - prefix_size) 0;
        user_ptr = blk.ptr + chunk_header_size;
      }

  unfoldable pub allocate : ℕ → Slab S → Slab S × MemBlk
  allocate n s =
      let s1 = if s.unused_idx == 0 then set_active_block s else s in
      let ptr = s1.user_ptr in
      let idx = add32 s1.unused_idx 1 in
      let s2 =
        if idx == capacity
        then record s1 { unused_idx = 0; user_ptr = 0 }
        else record s1 { unused_idx = idx; user_ptr = ptr + chunk_size size } in
      (s2, record { ptr = ptr; n = n })

  unfoldable pub deallocate : MemBlk → Slab S → Slab S
  deallocate blk s =
      let header = blk.ptr - chunk_header_size in
      let old = s.dealloc_count header in
      let s1 = record s { dealloc_count = set_count s.dealloc_count header (add64 old 1) } in
      let raw = header + prefix_size in
      if old == capacity - 1
      then record s1 {
        blocks =
            block_allocator.deallocate (record { ptr = raw; n = block_size size capacity })
              s.blocks;
      }
      else s1

  -- `~CurrentBlock`, at the end of the thread.
  unfoldable pub end_thread : Slab S → Slab S
  end_thread s =
      let raw = s.user_ptr - chunk_header_size - s.unused_idx * chunk_size size in
      if s.user_ptr == 0 then s else record s {
        blocks =
            block_allocator.deallocate (record { ptr = raw; n = block_size size capacity })
              s.blocks;
      }

  -- The slab after some requests of `n` bytes, and after as many chunks have been freed.
  unfoldable pub after_requests : ℕ → ℕ → Slab S → Slab S
  after_requests n zero s = s
  after_requests n (suc i) s = (allocate n (after_requests n i s)).0

  unfoldable pub after_frees : (ℕ → MemBlk) → ℕ → Slab S → Slab S
  after_frees chunks zero s = s
  after_frees chunks (suc i) s = deallocate (chunks i) (after_frees chunks i s)
