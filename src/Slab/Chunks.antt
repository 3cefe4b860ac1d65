-- ===== src/Slab/Chunks.antt =====
-- include/alloc/SlabTLS.hpp: the chunks of a block, one after the other.
use rg.Prelude.{ℕ, zero, suc, ◌+◌, ◌*◌, ◌^◌, ◌<◌, ◌≤◌, ◌≡◌, refl, ap, ◌∙◌, arith}
use native.Mathlib.Nat.{mod-eq_of_lt, mul_comm}
use rg.Alloc.{Allocator, add64}
use rg.Alloc.Round.{round_lem}
use rg.Slab.{
  Slab, chunk_header_size, chunk_size, block_size, set_active_block, allocate, after_requests,
}

first_chunk : (a c : ℕ) → a + c ≡ a + 1 * c
first_chunk a c = omega arith

next_chunk : (a i c : ℕ) → a + suc i * c + c ≡ a + suc (suc i) * c
next_chunk a i c = grind arith

pub mul-le : (i k c : ℕ) → i < k → i * c + c ≤ k * c
mul-le i zero c lt = absurd (omega arith)
mul-le zero (suc k) c lt = grind arith
mul-le (suc i) (suc k) c lt = grind (arith, mul-le i k c (omega arith))

module _ {S : Type 0} (block_allocator : Allocator S) (size capacity n : ℕ)
    (small : capacity < 2 ^ 32) where
  -- A request on a slab that has no block, and one in the middle of a block.
  allocate-first :
      (s : Slab S)
      → s.unused_idx ≡ 0
      → 1 < capacity
      → let active = set_active_block block_allocator size capacity s in
        (allocate block_allocator size capacity n s).0
        ≡ record active { unused_idx = 1; user_ptr = active.user_ptr + chunk_size size }
  unfolding allocate set_active_block
  allocate-first s fresh lt = ground arith

  allocate-next :
      (t : Slab S) (i : ℕ)
      → t.unused_idx ≡ suc i
      → suc (suc i) < capacity
      → (allocate block_allocator size capacity n t).0
        ≡ record t { unused_idx = suc (suc i); user_ptr = t.user_ptr + chunk_size size }
  unfolding allocate
  allocate-next t i e lt = ground arith

  allocate-last :
      (t : Slab S) (i : ℕ)
      → t.unused_idx ≡ suc i
      → suc (suc i) ≡ capacity
      → (allocate block_allocator size capacity n t).0 ≡ record t { unused_idx = 0; user_ptr = 0 }
  unfolding allocate
  allocate-last t i e lt = ground arith

  -- The slab after a block's first `suc i` requests.
  unfoldable pub in_block : Slab S → ℕ → Slab S
  in_block s i =
      let active = set_active_block block_allocator size capacity s in
      record active { unused_idx = suc i; user_ptr = active.user_ptr + suc i * chunk_size size }

  pub after_requests-in_block :
      (s : Slab S)
      → s.unused_idx ≡ 0
      → (i : ℕ) → suc i < capacity
      → after_requests block_allocator size capacity n (suc i) s ≡ in_block s i
  unfolding after_requests in_block
  after_requests-in_block s fresh zero lt =
      allocate-first s fresh lt
      ∙ ap
          (λ p. record (set_active_block block_allocator size capacity s) {
            unused_idx = 1;
            user_ptr = p;
          })
          (first_chunk (set_active_block block_allocator size capacity s).user_ptr
            (chunk_size size))
  after_requests-in_block s fresh (suc i) lt =
      ap (λ t. (allocate block_allocator size capacity n t).0)
        (after_requests-in_block s fresh i (omega arith))
      ∙ allocate-next (in_block s i) i refl lt
      ∙ ap
          (λ p. record (set_active_block block_allocator size capacity s) {
            unused_idx = suc (suc i);
            user_ptr = p;
          })
          (next_chunk (set_active_block block_allocator size capacity s).user_ptr i
            (chunk_size size))

  ptr-first :
      (s : Slab S)
      → s.unused_idx ≡ 0
      → (allocate block_allocator size capacity n s).1.ptr
        ≡ (set_active_block block_allocator size capacity s).user_ptr
  unfolding allocate
  ptr-first s fresh = rw fresh refl

  ptr-next :
      (t : Slab S) (i : ℕ)
      → t.unused_idx ≡ suc i
      → (allocate block_allocator size capacity n t).1.ptr ≡ t.user_ptr
  unfolding allocate
  ptr-next t i e = ground arith

  -- The pointer that a request returns.
  pub request-ptr :
      (s : Slab S)
      → s.unused_idx ≡ 0
      → (i : ℕ) → i < capacity
      → (allocate block_allocator size capacity n
          (after_requests block_allocator size capacity n i s)).1.ptr
        ≡ (set_active_block block_allocator size capacity s).user_ptr + i * chunk_size size
  unfolding after_requests in_block
  request-ptr s fresh zero lt = omega (arith, ptr-first s fresh)
  request-ptr s fresh (suc i) lt =
      ap (λ t. (allocate block_allocator size capacity n t).1.ptr)
        (after_requests-in_block s fresh i lt)
      ∙ ptr-next (in_block s i) i refl

  -- The slab after all requests of a block.
  pub after_block :
      (s : Slab S)
      → s.unused_idx ≡ 0
      → (i : ℕ) → suc (suc i) ≡ capacity
      → after_requests block_allocator size capacity n (suc (suc i)) s
        ≡ record (set_active_block block_allocator size capacity s) { unused_idx = 0; user_ptr = 0 }
  unfolding after_requests in_block
  after_block s fresh i e =
      ap (λ t. (allocate block_allocator size capacity n t).0)
        (after_requests-in_block s fresh i (omega arith))
      ∙ allocate-last (in_block s i) i refl e

pub chunk_size-bounds : (size : ℕ) → size + 32 ≤ 2 ^ 64 → chunk_header_size + size ≤ chunk_size size
unfolding chunk_size
chunk_size-bounds size h =
    let plain : add64 chunk_header_size size ≡ 16 + size = omega arith in
    let (above, _) = round_lem 4 (omega arith) (16 + size) (omega arith) in rw plain above

-- On a thread that has no block, and for blocks of at least two chunks whose size does not overflow:
-- a block's worth of requests takes one block from the allocator of blocks and leaves none active. The chunks follow each other in the order of the requests; each has room for
-- `size` bytes before the next one begins, and the last ends within the block.
pub requests_lem :
    {S : Type 0} (block_allocator : Allocator S) (size rest n : ℕ) (s : Slab S) (i : ℕ)
    → s.unused_idx ≡ 0
    → i < suc (suc rest)
    → suc (suc rest) < 2 ^ 32
    → size + 32 < 2 ^ 64
    → chunk_size size * suc (suc rest) < 2 ^ 64
    → let capacity = suc (suc rest) in
      let taken = block_allocator.allocate (block_size size capacity) s.blocks in
      let after = after_requests block_allocator size capacity n in
      let ptr = (allocate block_allocator size capacity n (after i s)).1.ptr in
      (ptr ≡ taken.1.ptr + chunk_header_size + i * chunk_size size)
      × (chunk_header_size + size ≤ chunk_size size)
      × (ptr + size ≤ taken.1.ptr + block_size size capacity)
      × ((after capacity s).blocks ≡ taken.0)
      × ((after capacity s).unused_idx ≡ 0)
unfolding set_active_block block_size
requests_lem block_allocator size rest n s i fresh lt small fits whole =
    let capacity = suc (suc rest) in
    let end = after_block block_allocator size capacity n small s fresh rest refl in
    let place = request-ptr block_allocator size capacity n small s fresh i lt in
    let big = chunk_size-bounds size (omega arith) in
    let e : block_size size capacity ≡ chunk_size size * capacity = mod-eq_of_lt whole in
    let room = mul-le i capacity (chunk_size size) lt in
    let turn = mul_comm (chunk_size size) capacity in
    (place, big, omega arith, ap (λ t. t.blocks) end, ap (λ t. t.unused_idx) end)
