-- ===== src/Alloc.antt =====
-- include/alloc/MemBlk.hpp, OpNewAllocator.hpp, AffixAllocator.hpp, AlignedAllocator.hpp and
-- Segregator.hpp and CounterAllocator.hpp: blocks of memory, and allocators that are built on
-- other allocators. Sizes are 64-bit, `alignof(std::max_align_t)` is 16, addresses do not overflow.
pub mod Round
pub mod Framed
pub mod Segregate
pub mod Tests
use Prim.Native.Nat.{bit_and}
use rg.Prelude.{ℕ, ◌+◌, ◌-◌, ◌%◌, ◌^◌, leb, ◌==◌, ◌&&◌, if◌then◌else◌, Bool, not}

pub record MemBlk : Type 0 where
  pub ptr : ℕ
  pub n : ℕ

-- `MemBlk::operator==`
unfoldable pub blk_eq : MemBlk → MemBlk → Bool
blk_eq lhs rhs = (lhs.ptr == rhs.ptr) && (lhs.n == rhs.n)

-- What `reset` and the default constructor leave.
abbrev pub empty_blk : MemBlk
empty_blk = record { ptr = 0; n = 0 }

-- An allocator over a state that it shares with nobody. `OpNewAllocator`, which calls
-- `operator new` and `operator delete`, is any such pair.
pub record Allocator (S : Type 0) : Type 0 where
  pub allocate : ℕ → S → S × MemBlk
  pub deallocate : MemBlk → S → S

-- Arithmetic on `size_t`.
abbrev pub add64 : ℕ → ℕ → ℕ
add64 a b = (a + b) % 2 ^ 64

abbrev pub sub64 : ℕ → ℕ → ℕ
sub64 a b = (a + 2 ^ 64 - b) % 2 ^ 64

abbrev pub not64 : ℕ → ℕ
not64 a = 2 ^ 64 - 1 - a

-- `detail::round_to_alignment`, which is `AlignedAllocator::align_size` too.
unfoldable pub round_to_alignment : ℕ → ℕ → ℕ
round_to_alignment alignment size =
    bit_and (sub64 (add64 size alignment) 1) (not64 (sub64 alignment 1))

abbrev pub max_align : ℕ
max_align = 16

-- The template parameters of an `AffixAllocator`.
pub record Affix : Type 0 where
  pub has_prefix : Bool
  pub has_suffix : Bool
  pub sizeof_prefix : ℕ
  pub sizeof_suffix : ℕ
  pub max_alignment : ℕ

-- `prefixSize` and `suffixSize`, whether there is a prefix and a suffix or not.
abbrev prefix_size : Affix → ℕ
prefix_size a = round_to_alignment max_align a.sizeof_prefix

abbrev suffix_size : Affix → ℕ
suffix_size a = round_to_alignment max_align a.sizeof_suffix

-- What `getBlock` and `allocate` add in front and behind, where there is a prefix or a suffix.
unfoldable pub front_size : Affix → ℕ
front_size a = if a.has_prefix then prefix_size a else 0

unfoldable pub back_size : Affix → ℕ
back_size a = if a.has_suffix then suffix_size a else 0

-- `getBlock<Inner>` and `getBlock<Outer>`
unfoldable pub inner_block : Affix → MemBlk → MemBlk
inner_block a blk = record {
  ptr = blk.ptr + front_size a;
  n = sub64 (sub64 blk.n (front_size a)) (back_size a);
}

unfoldable pub outer_block : Affix → MemBlk → MemBlk
outer_block a blk = record {
  ptr = blk.ptr - front_size a;
  n = round_to_alignment a.max_alignment (add64 (add64 blk.n (front_size a)) (back_size a));
}

-- `detail::BlockId`
pub data BlockId : Type 0 where
  inner_id : BlockId
  outer_id : BlockId

-- `getPrefix` and `getSuffix`: the address of the object. The sizes in front and behind are rounded,
-- whether there is a prefix and a suffix or not.
unfoldable pub get_prefix : BlockId → Affix → MemBlk → ℕ
get_prefix inner_id a blk = blk.ptr - prefix_size a
get_prefix outer_id a blk = blk.ptr

unfoldable pub get_suffix : BlockId → Affix → MemBlk → ℕ
get_suffix inner_id a blk = blk.ptr + blk.n
get_suffix outer_id a blk = blk.ptr + blk.n - suffix_size a

-- The size that an `AffixAllocator` asks its base for.
unfoldable pub block_size : Affix → ℕ → ℕ
block_size a n = round_to_alignment a.max_alignment (add64 (add64 n (front_size a)) (back_size a))

module _ {S : Type 0} where
  unfoldable pub affix_allocator : Affix → Allocator S → Allocator S
  affix_allocator a base = record {
    allocate =
        λ n s. let (s', outer) = base.allocate (block_size a n) s in (s', inner_block a outer);
    deallocate = λ blk s. base.deallocate (outer_block a blk) s;
  }

  unfoldable pub aligned_allocator : ℕ → Allocator S → Allocator S
  aligned_allocator line base = record {
    allocate = λ n s.
        let (s', blk) = base.allocate (round_to_alignment line n) s in
        (s', record { ptr = blk.ptr; n = n });
    deallocate =
        λ blk s. base.deallocate (record { ptr = blk.ptr; n = round_to_alignment line blk.n }) s;
  }

-- `CounterAllocator`, on the state of its base and `allocation_count`
unfoldable pub counter_allocator : {S : Type 0} → Allocator S → Allocator (S × ℕ)
counter_allocator base = record {
  allocate = λ n (s, count). let (s', blk) = base.allocate n s in ((s', add64 count 1), blk);
  deallocate = λ blk (s, count). (base.deallocate blk s, count);
}

-- `Segregator`, on the states of its two allocators
unfoldable pub segregator : {S T : Type 0} → ℕ → Allocator S → Allocator T → Allocator (S × T)
segregator threshold small large = record {
  allocate = λ n (s, t).
      let (s', b) = small.allocate n s in
      let (t', c) = large.allocate n t in if leb n threshold then ((s', t), b) else ((s, t'), c);
  deallocate = λ b (s, t).
      if leb b.n threshold then (small.deallocate b s, t) else (s, large.deallocate b t);
}
