-- ===== src/Coro/Tests.antt =====
-- include/CoroAllocator.hpp: frames of 500 bytes on a thread whose free list is empty.
use rg.Prelude.{ℕ, ◌+◌, ◌*◌, ◌≤◌, ◌≡◌, List, [], refl, arith}
use rg.Alloc.{MemBlk}
use rg.Alloc.Tests.{bump}
use rg.Slab.{Slab}
use rg.FreeList.{FreeLists}
use rg.FreeList.Tests.{list_stack, no_blocks}
use rg.Coro.{free_list, operator_new, after_frames}
use rg.Coro.Frames.{frames_lem}

abbrev no_frames : Slab (FreeLists (ℕ × List MemBlk) (List ℕ)) × (ℕ × List MemBlk)
no_frames = (
  record { user_ptr = 0; unused_idx = 0; blocks = no_blocks; dealloc_count = λ _. 0 },
  (4096, []),
)

frames_lem_example :
    let block = ((free_list list_stack bump 1).allocate 7312 no_blocks).1 in
    let after = after_frames list_stack bump 1 500 in
    let frame = (operator_new list_stack bump 1 500 (after 5 no_frames)).1 in
    (frame ≡ block.ptr + 32 + 5 * 912)
    × (frame + 500 ≤ block.ptr + 8192)
    × ((after 6 no_frames).1 ≡ (4096, []))
    × ((after 8 no_frames).0.unused_idx ≡ 0)
frames_lem_example = frames_lem list_stack bump 1 500 5 no_frames (omega arith) refl (omega arith)
