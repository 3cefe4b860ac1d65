-- ===== src/Coro/Frames.antt =====
-- include/CoroAllocator.hpp: where the frames of a thread lie.
use rg.Prelude.{ℕ, zero, suc, ◌+◌, ◌*◌, ◌<◌, ◌≤◌, ◌≡◌, leb, true, refl, ap, ◌∙◌, arith}
use rg.Alloc.{MemBlk, Allocator, segregator, inner_block, round_to_alignment, affix_allocator}
use rg.Slab.{Slab, chunk_size, after_requests}
use rg.Slab.Chunks.{requests_lem}
use rg.FreeList.{Stack, FreeLists}
use rg.Coro.{
  prefix_affix, max_frame, frames_per_block, free_block_size, free_list, block_allocator, slab,
  coro_allocator, operator_new, after_frames,
}

frame_chunk : chunk_size max_frame ≡ 912
unfolding chunk_size round_to_alignment
frame_chunk = refl

frames_size : rg.Slab.block_size max_frame frames_per_block ≡ 7296
unfolding rg.Slab.block_size chunk_size round_to_alignment
frames_size = refl

prefixed_size : rg.Alloc.block_size prefix_affix 7296 ≡ 7312
unfolding rg.Alloc.block_size rg.Alloc.front_size rg.Alloc.back_size round_to_alignment
prefixed_size = refl

module _ {S K : Type 0} (stack : Stack K) (op_new : Allocator S) (thread : ℕ) where
  small_frame :
      (n : ℕ) (s : Slab (FreeLists S K) × S)
      → n ≤ max_frame
      → (coro_allocator stack op_new thread).allocate n s ≡ (
        (((slab stack op_new thread).allocate n s.0).0, s.1),
        ((slab stack op_new thread).allocate n s.0).1,
      )
  unfolding coro_allocator segregator
  small_frame n s le = let small : leb n max_frame ≡ true = ground arith in rw small refl

  after_frames-requests :
      (n i : ℕ) (s : Slab (FreeLists S K) × S)
      → n ≤ max_frame
      → after_frames stack op_new thread n i s ≡ (
        after_requests (block_allocator stack op_new thread) max_frame frames_per_block n i s.0,
        s.1,
      )
  unfolding after_frames after_requests
  after_frames-requests n zero s le = refl
  after_frames-requests n (suc i) s le =
      ap (λ t. ((coro_allocator stack op_new thread).allocate n t).0)
        (after_frames-requests n i s le)
      ∙ ap (λ r. r.0)
          (small_frame n
            (
              after_requests (block_allocator stack op_new thread) max_frame frames_per_block n i
                  s.0,
              s.1,
            )
            le)

  block_ptr :
      (t : FreeLists S K)
      → ((block_allocator stack op_new thread).allocate
          (rg.Slab.block_size max_frame frames_per_block)
          t).1.ptr
        ≡ ((free_list stack op_new thread).allocate 7312 t).1.ptr + 16
  unfolding affix_allocator inner_block rg.Alloc.front_size round_to_alignment
  block_ptr t =
      ap
        (λ m.
          ((free_list stack op_new thread).allocate (rg.Alloc.block_size prefix_affix m) t).1.ptr
          + 16)
        frames_size
      ∙ ap (λ m. ((free_list stack op_new thread).allocate m t).1.ptr + 16) prefixed_size

  -- On a thread that has no block of frames, the frames of at most 894 bytes that it allocates one
  -- after the other lie in one block of 8192 bytes of its free list: the `i`-th of eight begins 32
  -- bytes and `i` chunks of 912 bytes behind the start, and ends within the block. No allocation goes
  -- to the allocator of large frames, and after the eighth the thread has no block again.
  pub frames_lem :
      (n i : ℕ) (s : Slab (FreeLists S K) × S)
      → n ≤ max_frame
      → s.0.unused_idx ≡ 0
      → i < frames_per_block
      → let block = ((free_list stack op_new thread).allocate 7312 s.0.blocks).1 in
        let after = after_frames stack op_new thread n in
        let frame = (operator_new stack op_new thread n (after i s)).1 in
        (frame ≡ block.ptr + 32 + i * 912)
        × (frame + n ≤ block.ptr + free_block_size)
        × ((after (suc i) s).1 ≡ s.1)
        × ((after frames_per_block s).0.unused_idx ≡ 0)
  unfolding operator_new rg.Slab.allocate
  frames_lem n i s le fresh lt =
      let requests =
        after_requests (block_allocator stack op_new thread) max_frame frames_per_block n in
      let (place, big, room, taken, whole) =
        requests_lem (block_allocator stack op_new thread) max_frame 6 n s.0 i fresh lt
          (omega arith) (omega arith) (rw frame_chunk (omega arith)) in
      let e = after_frames-requests n i s le in
      let frame_eq =
        ap (λ t. ((coro_allocator stack op_new thread).allocate n t).1) e
        ∙ ap (λ r. r.1) (small_frame n (requests i s.0, s.1) le) in
      let start = block_ptr s.0.blocks in
      let at = rw frame_chunk at place in
      let ptr_eq = ap (λ b. b.ptr) frame_eq in
      (
        omega (arith, ptr_eq, at, start),
        omega (arith, ptr_eq, at, start),
        ap (λ t. t.1) (after_frames-requests n (suc i) s le),
        ap (λ t. t.0.unused_idx) (after_frames-requests n frames_per_block s le) ∙ whole,
      )
