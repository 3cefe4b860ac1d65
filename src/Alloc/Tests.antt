-- ===== src/Alloc/Tests.antt =====
-- include/alloc/AffixAllocator.hpp: an affix allocator over an allocator that only counts
-- upwards.
use rg.Prelude.{ℕ, ◌+◌, ◌≤◌, ◌≡◌, ◌^◌, true, false, List, [], ◌∷◌, refl, arith}
use rg.Alloc.{
  inner_id, outer_id, get_prefix, get_suffix, MemBlk, Allocator, Affix, affix_allocator, front_size,
  back_size, block_size, round_to_alignment,
}
use rg.Alloc.Framed.{affix-deallocate-allocate}

abbrev pub bump : Allocator (ℕ × List MemBlk)
bump = record {
  allocate = λ n (top, freed). ((top + n, freed), record { ptr = top; n = n });
  deallocate = λ blk (top, freed). (top, blk ∷ freed);
}

abbrev counter_prefix : Affix
counter_prefix = record {
  has_prefix = true;
  has_suffix = false;
  sizeof_prefix = 8;
  sizeof_suffix = 1;
  max_alignment = 16;
}

rounded : (block_size counter_prefix 100 ≡ 128) × (front_size counter_prefix ≡ 16)
unfolding block_size front_size back_size round_to_alignment
rounded = (refl, refl)

small_enough : 100 + front_size counter_prefix + back_size counter_prefix + 2 ^ 4 + 2 ^ 4 ≤ 2 ^ 64
unfolding front_size back_size round_to_alignment
small_enough = omega arith

affix-deallocate-allocate_example :
    let affix = affix_allocator counter_prefix bump in
    let outer = (bump.allocate (block_size counter_prefix 100) (4096, [])).1 in
    let inner = (affix.allocate 100 (4096, [])).1 in
    (inner.ptr ≡ outer.ptr + front_size counter_prefix)
    × (100 ≤ inner.n)
    × (inner.ptr + inner.n + back_size counter_prefix ≡ outer.ptr + outer.n)
    × (get_prefix inner_id counter_prefix inner ≡ get_prefix outer_id counter_prefix outer)
    × (get_suffix outer_id counter_prefix outer ≡ get_suffix outer_id counter_prefix outer)
    × ((t : ℕ × List MemBlk) → affix.deallocate inner t ≡ bump.deallocate outer t)
    × ((t : ℕ × List MemBlk)
        → affix.deallocate (record { ptr = inner.ptr; n = 100 }) t ≡ bump.deallocate outer t)
affix-deallocate-allocate_example =
    affix-deallocate-allocate bump counter_prefix 4 100 (4096, []) (λ m t. refl) refl (omega arith)
      small_enough
