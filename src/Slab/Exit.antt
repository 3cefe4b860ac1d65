-- ===== src/Slab/Exit.antt =====
-- include/alloc/SlabTLS.hpp: what `~CurrentBlock` gives back.
use rg.Prelude.{ℕ, suc, ◌+◌, ◌-◌, ◌*◌, ◌^◌, ◌<◌, ◌==◌, ◌≡◌, false, refl, ap, ◌∙◌, arith}
use rg.Alloc.{MemBlk, Allocator}
use rg.Slab.{Slab, chunk_size, block_size, set_active_block, after_requests, end_thread}
use rg.Slab.Chunks.{in_block, after_requests-in_block, after_block}

back_to_start : (p m : ℕ) → p + 16 + m - 16 - m ≡ p
back_to_start p m = omega arith

module _ {S : Type 0} (block_allocator : Allocator S) (size rest n : ℕ)
    (small : suc (suc rest) < 2 ^ 32) (s : Slab S) where
  abbrev capacity : ℕ
  capacity = suc (suc rest)

  -- The block that the first request takes.
  abbrev taken : S × MemBlk
  taken = block_allocator.allocate (block_size size capacity) s.blocks

  end_thread-in_block :
      (i : ℕ)
      → (end_thread block_allocator size capacity
          (in_block block_allocator size capacity n small s i)).blocks
        ≡ block_allocator.deallocate
            (record { ptr = taken.1.ptr; n = block_size size capacity })
            taken.0
  unfolding end_thread in_block set_active_block
  end_thread-in_block i =
      let p = taken.1.ptr in
      let m = suc i * chunk_size size in
      let active : (p + 16 + m == 0) ≡ false = ground arith in rw (active, back_to_start p m) refl

  end_thread-after_block :
      s.unused_idx ≡ 0
      → (end_thread block_allocator size capacity
          (after_requests block_allocator size capacity n capacity s)).blocks
        ≡ taken.0
  unfolding end_thread set_active_block
  end_thread-after_block fresh =
      ap (λ t. (end_thread block_allocator size capacity t).blocks)
        (after_block block_allocator size capacity n small s fresh rest refl)

-- On a thread that has no block: the end of the thread after some requests, fewer than a block's
-- worth, gives back the block that the first of them took, from its start and in its whole size;
-- after exactly a block's worth it gives nothing back.
pub end_thread-requests :
    {S : Type 0} (block_allocator : Allocator S) (size rest n : ℕ) (s : Slab S) (i : ℕ)
    → suc (suc rest) < 2 ^ 32
    → s.unused_idx ≡ 0
    → suc i < suc (suc rest)
    → let capacity = suc (suc rest) in
      let taken = block_allocator.allocate (block_size size capacity) s.blocks in
      let after = after_requests block_allocator size capacity n in
      let end = λ (t : Slab S). (end_thread block_allocator size capacity t).blocks in
      (end (after (suc i) s)
        ≡ block_allocator.deallocate
            (record { ptr = taken.1.ptr; n = block_size size capacity })
            taken.0)
      × (end (after capacity s) ≡ taken.0)
end_thread-requests block_allocator size rest n s i small fresh lt = (
  ap (λ t. (end_thread block_allocator size (suc (suc rest)) t).blocks)
        (after_requests-in_block block_allocator size (suc (suc rest)) n small s fresh i lt)
      ∙ end_thread-in_block block_allocator size rest n small s i,
  end_thread-after_block block_allocator size rest n small s fresh,
)
