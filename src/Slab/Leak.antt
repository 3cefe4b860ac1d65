-- ===== src/Slab/Leak.antt =====
-- include/alloc/SlabTLS.hpp: `deallocate` counts in the header of the chunk, which `allocate` never
-- writes, and not in the `BlockMetaData` in front of the block.
use rg.Prelude.{ℕ, zero, suc, ◌+◌, ◌-◌, ◌*◌, ◌^◌, ◌<◌, ◌≤◌, ◌≡◌, ◌≢◌, refl, ap, sym, ◌∙◌, arith}
use rg.Alloc.{MemBlk, Allocator}
use rg.Slab.{
  Slab, set_count, chunk_header_size, prefix_size, chunk_size, block_size, set_active_block,
  deallocate, after_requests, after_frees,
}
use rg.Slab.Chunks.{after_block, chunk_size-bounds, mul-le}

header-ptr : (base c i : ℕ) → base + chunk_header_size + i * c - chunk_header_size ≡ base + i * c
header-ptr base c i = omega arith

header-apart :
    (base c i j : ℕ)
    → 0 < c
    → i < j
    → base + chunk_header_size + i * c - chunk_header_size
      ≢ base + chunk_header_size + j * c - chunk_header_size
header-apart base c i j pos lt e = omega (arith, mul-le i j c lt)

header-ne-prefix :
    (base c i : ℕ)
    → prefix_size ≤ base
    → base + chunk_header_size + i * c - chunk_header_size ≢ base - prefix_size
header-ne-prefix base c i high e = omega arith

less_one : (rest : ℕ) → suc (suc rest) - 1 ≡ suc rest
less_one rest = omega arith

set_count_self : (counts : ℕ → ℕ) (a v : ℕ) → set_count counts a v a ≡ v
set_count_self counts a v = ground arith

set_count_ne : (counts : ℕ → ℕ) (a v q : ℕ) → a ≢ q → set_count counts a v q ≡ counts q
set_count_ne counts a v q ne = ground arith

header-short :
    (counts : ℕ → ℕ) (base c i rest : ℕ)
    → prefix_size ≤ base
    → counts (base + i * c) ≢ suc rest
    → set_count counts (base - prefix_size) 0 (base + chunk_header_size + i * c - chunk_header_size)
      ≢ suc rest
header-short counts base c i rest high short e =
    let q = base + chunk_header_size + i * c - chunk_header_size in
    let there =
      set_count_ne counts (base - prefix_size) 0 q (λ h. header-ne-prefix base c i high (sym h)) in
    short (sym (there ∙ ap counts (header-ptr base c i)) ∙ e)

module _ {S : Type 0} (block_allocator : Allocator S) (size capacity : ℕ) where
  -- A free that does not see a full count leaves the blocks, and counts in one place.
  deallocate-short :
      (blk : MemBlk) (s : Slab S)
      → s.dealloc_count (blk.ptr - chunk_header_size) ≢ capacity - 1
      → ((deallocate block_allocator size capacity blk s).blocks ≡ s.blocks)
        × ((q : ℕ)
            → blk.ptr - chunk_header_size ≢ q
            → (deallocate block_allocator size capacity blk s).dealloc_count q ≡ s.dealloc_count q)
  unfolding deallocate
  deallocate-short blk s short = (ground arith, λ q ne. ground arith)

  module _ (chunks : ℕ → MemBlk)
      (apart : (i j : ℕ)
        → i < j
        → (chunks i).ptr - chunk_header_size ≢ (chunks j).ptr - chunk_header_size) where
    frees-short :
        (k : ℕ) (s : Slab S)
        → ((i : ℕ) → i < k → s.dealloc_count ((chunks i).ptr - chunk_header_size) ≢ capacity - 1)
        → ((after_frees block_allocator size capacity chunks k s).blocks ≡ s.blocks)
          × ((q : ℕ)
              → ((i : ℕ) → i < k → (chunks i).ptr - chunk_header_size ≢ q)
              → (after_frees block_allocator size capacity chunks k s).dealloc_count q
                ≡ s.dealloc_count q)
    unfolding after_frees
    frees-short zero s short = (refl, λ q ne. refl)
    frees-short (suc k) s short =
        let (blocks, counts) = frees-short k s (λ i lt. short i (omega arith)) in
        let before = after_frees block_allocator size capacity chunks k s in
        let still = counts ((chunks k).ptr - chunk_header_size) (λ i lt. apart i k lt) in
        let (blocks', counts') =
          deallocate-short (chunks k) before (λ e. short k (omega arith) (sym still ∙ e)) in
        (
          blocks' ∙ blocks,
          λ q ne. counts' q (ne k (omega arith)) ∙ counts q (λ i lt. ne i (omega arith)),
        )

-- On a thread that has no block, let a block's worth of chunks be requested, and then all of them be
-- freed, each once and in the order of the requests, where the header of none of these chunks happened to
-- read as one free less than a block's worth. Then the block is not given back, and its own counter
-- is still at 0.
pub lost_block :
    {S : Type 0} (block_allocator : Allocator S) (size rest n : ℕ) (s : Slab S)
    → s.unused_idx ≡ 0
    → suc (suc rest) < 2 ^ 32
    → size + 32 ≤ 2 ^ 64
    → let capacity = suc (suc rest) in
      let taken = block_allocator.allocate (block_size size capacity) s.blocks in
      prefix_size ≤ taken.1.ptr
      → ((i : ℕ) → i < capacity → s.dealloc_count (taken.1.ptr + i * chunk_size size) ≢ suc rest)
      → let chunk : ℕ → MemBlk =
          λ i. record { ptr = taken.1.ptr + chunk_header_size + i * chunk_size size; n = n } in
        let full = after_requests block_allocator size capacity n capacity s in
        let freed = after_frees block_allocator size capacity chunk capacity full in
        (freed.blocks ≡ taken.0) × (freed.dealloc_count (taken.1.ptr - prefix_size) ≡ 0)
unfolding set_active_block
lost_block block_allocator size rest n s fresh small fits high garbage =
    let capacity = suc (suc rest) in
    let taken = block_allocator.allocate (block_size size capacity) s.blocks in
    let base = taken.1.ptr in
    let c = chunk_size size in
    let chunk : ℕ → MemBlk = λ i. record { ptr = base + chunk_header_size + i * c; n = n } in
    let big = chunk_size-bounds size fits in
    let end = after_block block_allocator size capacity n small s fresh rest refl in
    let full = after_requests block_allocator size capacity n capacity s in
    let counts = λ (q : ℕ). ap (λ t. t.dealloc_count q) end in
    let (blocks, others) =
      frees-short block_allocator size capacity chunk (λ i j. header-apart base c i j (omega arith))
        capacity full
        (λ i lt e.
          header-short s.dealloc_count base c i rest high (garbage i lt)
            (sym (counts ((chunk i).ptr - chunk_header_size)) ∙ e ∙ less_one rest)) in
    (
      blocks ∙ ap (λ t. t.blocks) end,
      others (base - prefix_size) (λ i lt. header-ne-prefix base c i high)
          ∙ counts (base - prefix_size)
          ∙ set_count_self s.dealloc_count (base - prefix_size) 0,
    )
