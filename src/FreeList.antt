-- ===== src/FreeList.antt =====
-- include/alloc/FreeListTLS.hpp: one list of free blocks per thread, to which any thread gives back.
pub mod Reuse
pub mod Local
pub mod Tests
use rg.Prelude.{
  ℕ, ◌-◌, ◌<◌, ◌≢◌, ◌==◌, if◌then◌else◌, Bool, true, false, List, [], ◌∷◌, Option, none, some, ◌≡◌,
}
use rg.Alloc.{MemBlk, Allocator}

-- What is used of `boost::lockfree::stack` with a fixed capacity greater than 0: its operations, and
-- what they do to the pointers that it holds, last in first. A push fails only on a full stack.
pub record Stack (K : Type 0) : Type 0 where
  pub push : ℕ → K → K × Bool
  pub pop : K → K × Option ℕ
  pub content : K → List ℕ
  pub push_true : (x : ℕ) (k : K) → (push x k).1 ≡ true → content (push x k).0 ≡ x ∷ content k
  pub push_false : (x : ℕ) (k : K) → (push x k).1 ≡ false → content k ≢ []
  pub pop_none : (k : K) → (pop k).1 ≡ none → (content k ≡ []) × (content (pop k).0 ≡ [])
  pub pop_some : (k : K) (x : ℕ) → (pop k).1 ≡ some x → content k ≡ x ∷ content (pop k).0

-- `TaggedAlloc::prefixSize`: a pointer has 8 bytes, rounded to the alignment.
abbrev pub prefix_size : ℕ
prefix_size = 16

-- The stacks by thread, the prefixes by address, which name the thread of a stack, and the state of
-- the tagged allocator.
pub record FreeLists (S K : Type 0) : Type 0 where
  pub stacks : ℕ → K
  pub prefixes : ℕ → ℕ
  pub blocks : S

abbrev pub set_at {ℓ} : {A : Type ℓ} → (ℕ → A) → ℕ → A → ℕ → A
set_at f i v j = if i == j then v else f j

module _ {S K : Type 0} (stack : Stack K) (tagged : Allocator S) (size : ℕ) where
  -- `allocate`, called on a thread
  unfoldable pub allocate : ℕ → ℕ → FreeLists S K → FreeLists S K × MemBlk
  allocate thread n s =
      let (k, free_block) = stack.pop (s.stacks thread) in
      let (blocks, inner) = tagged.allocate size s.blocks in
      elim free_block [
        | some ptr ↦
            (record s { stacks = set_at s.stacks thread k }, record { ptr = ptr; n = size })
        | none ↦ (
          record {
            stacks = set_at s.stacks thread k;
            prefixes = set_at s.prefixes (inner.ptr - prefix_size) thread;
            blocks = blocks;
          },
          record { ptr = inner.ptr; n = n },
        )
      ]

  -- `deallocate`, called on any thread
  unfoldable pub deallocate : MemBlk → FreeLists S K → FreeLists S K
  deallocate blk s =
      let owner = s.prefixes (blk.ptr - prefix_size) in
      let (k, pushed) = stack.push blk.ptr (s.stacks owner) in
      let s' = record s { stacks = set_at s.stacks owner k } in
      if pushed
      then s'
      else record s' { blocks = tagged.deallocate (record { ptr = blk.ptr; n = size }) s.blocks }

  -- `~Stack`, at the end of a thread: `consume_all` frees each block that the stack holds.
  unfoldable pub free_all : List ℕ → S → S
  free_all [] blocks = blocks
  free_all (ptr ∷ rest) blocks =
      free_all rest (tagged.deallocate (record { ptr = ptr; n = size }) blocks)

  unfoldable pub end_thread : ℕ → FreeLists S K → FreeLists S K
  end_thread thread s = record s { blocks = free_all (stack.content (s.stacks thread)) s.blocks }
