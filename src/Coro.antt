-- ===== src/Coro.antt =====
-- include/CoroAllocator.hpp: the allocator of coroutine frames, put together from the others, as one
-- thread uses it.
pub mod Frames
mod Tests
use rg.Prelude.{ℕ, zero, suc, true, false}
use rg.Alloc.{MemBlk, Allocator, Affix, affix_allocator, segregator}
use rg.Slab.{Slab}
use rg.FreeList.{Stack, FreeLists}

-- `PrefixAllocator<BaseAllocator, BlockMetaData>` and `PrefixAllocator<BaseAllocator, Stack*>`: the
-- prefixes have 8 bytes.
abbrev pub prefix_affix : Affix
prefix_affix = record {
  has_prefix = true;
  has_suffix = false;
  sizeof_prefix = 8;
  sizeof_suffix = 1;
  max_alignment = 16;
}

abbrev pub max_frame : ℕ
max_frame = 894

abbrev pub frames_per_block : ℕ
frames_per_block = 8

abbrev pub free_block_size : ℕ
free_block_size = 8192

module _ {S K : Type 0} (stack : Stack K) (op_new : Allocator S) (thread : ℕ) where
  -- `FreeListTLS<OpNewAllocator, 1024 * 8>`
  abbrev pub free_list : Allocator (FreeLists S K)
  free_list = record {
    allocate =
        rg.FreeList.allocate stack (affix_allocator prefix_affix op_new) free_block_size thread;
    deallocate = rg.FreeList.deallocate stack (affix_allocator prefix_affix op_new) free_block_size;
  }

  -- `SlabTLSAllocator<..., 894, 8>::BlockAllocator`
  abbrev pub block_allocator : Allocator (FreeLists S K)
  block_allocator = affix_allocator prefix_affix free_list

  -- `SlabTLSAllocator<..., 894, 8>`
  abbrev pub slab : Allocator (Slab (FreeLists S K))
  slab = record {
    allocate = rg.Slab.allocate block_allocator max_frame frames_per_block;
    deallocate = rg.Slab.deallocate block_allocator max_frame frames_per_block;
  }

  -- `CoroAllocator`. The large frames come from an `OpNewAllocator` too.
  unfoldable pub coro_allocator : Allocator (Slab (FreeLists S K) × S)
  coro_allocator = segregator max_frame slab op_new

  -- The state after frames of the given size were allocated.
  unfoldable pub after_frames : ℕ → ℕ → Slab (FreeLists S K) × S → Slab (FreeLists S K) × S
  after_frames n zero s = s
  after_frames n (suc i) s = (coro_allocator.allocate n (after_frames n i s)).0

  -- `operator new` and `operator delete` of a promise: the pointer of the block, and a block again.
  unfoldable pub operator_new : ℕ → Slab (FreeLists S K) × S → (Slab (FreeLists S K) × S) × ℕ
  operator_new n s = let (s', blk) = coro_allocator.allocate n s in (s', blk.ptr)

  unfoldable pub operator_delete : ℕ → ℕ → Slab (FreeLists S K) × S → Slab (FreeLists S K) × S
  operator_delete ptr n s = coro_allocator.deallocate (record { ptr = ptr; n = n }) s
