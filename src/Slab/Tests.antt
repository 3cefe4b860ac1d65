-- ===== src/Slab/Tests.antt =====
-- include/alloc/SlabTLS.hpp: the slab of include/CoroAllocator.hpp, 8 chunks of 894 bytes.
use rg.Prelude.{ℕ, ◌+◌, ◌-◌, ◌*◌, ◌^◌, ◌<◌, ◌≡◌, ◌≢◌, ◌≤◌, List, [], ◌∷◌, refl, arith}
use rg.Alloc.{MemBlk, Allocator, round_to_alignment}
use rg.Slab.{
  Slab, chunk_header_size, prefix_size, chunk_size, block_size, allocate, after_requests,
  after_frees, end_thread,
}
use rg.Slab.Chunks.{requests_lem}
use rg.Slab.Exit.{end_thread-requests}
use rg.Slab.Leak.{lost_block}

-- Blocks at ever higher addresses; the state is the next address, and what was given back.
abbrev bump : Allocator (ℕ × List MemBlk)
bump = record {
  allocate = λ n (top, freed). ((top + n, freed), record { ptr = top; n = n });
  deallocate = λ blk (top, freed). (top, blk ∷ freed);
}

abbrev blank : Slab (ℕ × List MemBlk)
blank = record { user_ptr = 0; unused_idx = 0; blocks = (4096, []); dealloc_count = λ _. 0 }

chunk_size_894 : chunk_size 894 ≡ 912
unfolding chunk_size round_to_alignment
chunk_size_894 = refl

block_fits : chunk_size 894 * 8 < 2 ^ 64
unfolding chunk_size round_to_alignment
block_fits = omega arith

blank-short : (i : ℕ) → i < 8 → blank.dealloc_count (4096 + i * chunk_size 894) ≢ 7
blank-short i lt e = omega arith

abbrev slab_after : ℕ → Slab (ℕ × List MemBlk)
slab_after i = after_requests bump 894 8 900 i blank

requests_lem_example :
    ((allocate bump 894 8 900 (slab_after 3)).1.ptr ≡ 4096 + 16 + 3 * chunk_size 894)
    × (16 + 894 ≤ chunk_size 894)
    × ((allocate bump 894 8 900 (slab_after 3)).1.ptr + 894 ≤ 4096 + block_size 894 8)
    × ((slab_after 8).blocks ≡ (4096 + block_size 894 8, []))
    × ((slab_after 8).unused_idx ≡ 0)
requests_lem_example =
    requests_lem bump 894 6 900 blank 3 refl (omega arith) (omega arith) (omega arith) block_fits

abbrev eighth : ℕ → MemBlk
eighth i = record { ptr = 4096 + chunk_header_size + i * chunk_size 894; n = 900 }

lost_block_example :
    ((after_frees bump 894 8 eighth 8 (slab_after 8)).blocks ≡ (4096 + block_size 894 8, []))
    × ((after_frees bump 894 8 eighth 8 (slab_after 8)).dealloc_count (4096 - prefix_size) ≡ 0)
lost_block_example =
    lost_block bump 894 6 900 blank refl (omega arith) (omega arith) (omega arith) blank-short

end_thread-requests_example :
    ((end_thread bump 894 8 (slab_after 3)).blocks
      ≡ (4096 + block_size 894 8, record { ptr = 4096; n = block_size 894 8 } ∷ []))
    × ((end_thread bump 894 8 (slab_after 8)).blocks ≡ (4096 + block_size 894 8, []))
end_thread-requests_example =
    end_thread-requests bump 894 6 900 blank 2 (omega arith) refl (omega arith)
