-- ===== src/Alloc/Framed.antt =====
-- include/alloc/AffixAllocator.hpp: what is freed is what was allocated.
use rg.Prelude.{
  Bool, true, ℕ, ◌+◌, ◌-◌, ◌^◌, ◌<◌, ◌≤◌, ◌≡◌, refl, ap, sym, ◌∙◌, arith, if◌then◌else◌, Bool-cases,
  inl, inr,
}
use rg.Alloc.{
  MemBlk, Allocator, Affix, add64, sub64, front_size, back_size, inner_block, outer_block,
  block_size, affix_allocator, round_to_alignment, inner_id, outer_id, get_prefix, get_suffix,
  max_align,
}
use rg.Prelude.Bits.{pow_pos}
use rg.Alloc.Round.{round_lem, round-round}

module _ (a : Affix) (k n : ℕ) (align : a.max_alignment ≡ 2 ^ k) (low : k ≤ 64)
    (fits : n + front_size a + back_size a + 2 ^ k + 2 ^ k ≤ 2 ^ 64) where
  size : ℕ
  size = n + front_size a + back_size a

  block_size-round : block_size a n ≡ round_to_alignment (2 ^ k) size
  unfolding block_size size
  block_size-round =
      let plain : add64 (add64 n (front_size a)) (back_size a) ≡ n + front_size a + back_size a =
        omega (arith, pow_pos k) in
      ap (λ m. round_to_alignment a.max_alignment m) plain
      ∙ ap (λ c. round_to_alignment c (n + front_size a + back_size a)) align

  block_size-bounds : (size ≤ block_size a n) × (block_size a n < size + 2 ^ k)
  unfolding size
  block_size-bounds = rw block_size-round (round_lem k low size (omega arith))

  -- The inner size of a block of the size that the base is asked for.
  inner_n :
      sub64 (sub64 (block_size a n) (front_size a)) (back_size a)
      ≡ block_size a n - front_size a - back_size a
  unfolding size
  inner_n = let (above, below) = block_size-bounds in omega arith

  -- From the inner block, and from the size that was asked for, the same outer size is found.
  outer-size_of_inner :
      round_to_alignment a.max_alignment
        (add64 (add64 (block_size a n - front_size a - back_size a) (front_size a)) (back_size a))
      ≡ block_size a n
  unfolding size
  outer-size_of_inner =
      let (above, below) = block_size-bounds in
      let plain : add64 (add64 (block_size a n - front_size a - back_size a) (front_size a))
            (back_size a)
          ≡ block_size a n =
        omega arith in
      ap (λ m. round_to_alignment a.max_alignment m) plain
      ∙ ap (λ c. round_to_alignment c (block_size a n)) align
      ∙ ap (λ m. round_to_alignment (2 ^ k) m) block_size-round
      ∙ round-round k low size (omega arith)
      ∙ sym block_size-round

  blk_ext : (b c : MemBlk) → b.ptr ≡ c.ptr → b.n ≡ c.n → b ≡ c
  blk_ext b c e f i = record { ptr = e i; n = f i }

  outer-inner : (b : MemBlk) → b.n ≡ block_size a n → outer_block a (inner_block a b) ≡ b
  unfolding outer_block inner_block
  outer-inner b e =
      let inner = ap (λ m. sub64 (sub64 m (front_size a)) (back_size a)) e ∙ inner_n in
      let again =
        ap (λ m. round_to_alignment a.max_alignment (add64 (add64 m (front_size a)) (back_size a)))
          inner
        ∙ outer-size_of_inner in
      blk_ext (outer_block a (inner_block a b)) b (omega arith) (again ∙ sym e)

  outer-asked :
      (b : MemBlk)
      → b.n ≡ block_size a n
      → outer_block a (record { ptr = b.ptr + front_size a; n = n }) ≡ b
  unfolding outer_block block_size
  outer-asked b e =
      blk_ext (outer_block a (record { ptr = b.ptr + front_size a; n = n })) b (omega arith) (sym e)

  -- The prefix and the suffix are found from the inner block where they are found from the outer one.
  prefix_found :
      (b : MemBlk)
      → (if a.has_prefix then get_prefix inner_id a (inner_block a b) else get_prefix outer_id a b)
        ≡ get_prefix outer_id a b
  unfolding get_prefix inner_block front_size
  prefix_found b = elim (Bool-cases a.has_prefix) [ inl e ↦ rw e (omega arith) | inr e ↦ rw e refl ]

  back_size-eq : a.has_suffix ≡ true → back_size a ≡ round_to_alignment max_align a.sizeof_suffix
  unfolding back_size
  back_size-eq h = ap (λ c. if c then round_to_alignment max_align a.sizeof_suffix else 0) h

  inner_block-n :
      (b : MemBlk)
      → b.n ≡ block_size a n
      → (inner_block a b).n ≡ block_size a n - front_size a - back_size a
  unfolding inner_block
  inner_block-n b e = ap (λ m. sub64 (sub64 m (front_size a)) (back_size a)) e ∙ inner_n

  inner_block-ptr : (b : MemBlk) → (inner_block a b).ptr ≡ b.ptr + front_size a
  unfolding inner_block
  inner_block-ptr b = refl

  suffix_found :
      (b : MemBlk)
      → b.n ≡ block_size a n
      → (if a.has_suffix then get_suffix inner_id a (inner_block a b) else get_suffix outer_id a b)
        ≡ get_suffix outer_id a b
  unfolding get_suffix size
  suffix_found b e =
      let in_block = get_suffix inner_id a (inner_block a b) in
      let choice : Bool → ℕ = λ c. if c then in_block else get_suffix outer_id a b in
      elim (Bool-cases a.has_suffix) [
        | inl h ↦
            let same : in_block ≡ get_suffix outer_id a b =
              omega (
                arith,
                block_size-bounds.0,
                back_size-eq h,
                inner_block-n b e,
                inner_block-ptr b,
              ) in
            ap choice h ∙ same
        | inr h ↦ ap choice h
      ]

-- Let a base give a block of exactly the size asked for. An affix allocator over it gives out `n`
-- bytes at least, behind the prefix and with room for the suffix, inside the block that the base
-- gave. `getPrefix` and `getSuffix` name the same objects from the inner and from the outer block, for
-- an affix that is there. And if the bytes are freed, under the size of that inner block or under the
-- size `n` that was asked for, then the base gets back exactly the block that it gave, address and
-- size. The alignment is a power of 2 up to 2^64, and the sizes do not overflow.
pub affix-deallocate-allocate :
    {S : Type 0} (base : Allocator S) (a : Affix) (k n : ℕ) (s : S)
    → ((m : ℕ) (t : S) → (base.allocate m t).1.n ≡ m)
    → a.max_alignment ≡ 2 ^ k
    → k ≤ 64
    → n + front_size a + back_size a + 2 ^ k + 2 ^ k ≤ 2 ^ 64
    → let affix = affix_allocator a base in
      let outer = (base.allocate (block_size a n) s).1 in
      let inner = (affix.allocate n s).1 in
      (inner.ptr ≡ outer.ptr + front_size a)
      × (n ≤ inner.n)
      × (inner.ptr + inner.n + back_size a ≡ outer.ptr + outer.n)
      × ((if a.has_prefix then get_prefix inner_id a inner else get_prefix outer_id a outer)
          ≡ get_prefix outer_id a outer)
      × ((if a.has_suffix then get_suffix inner_id a inner else get_suffix outer_id a outer)
          ≡ get_suffix outer_id a outer)
      × ((t : S) → affix.deallocate inner t ≡ base.deallocate outer t)
      × ((t : S) → affix.deallocate (record { ptr = inner.ptr; n = n }) t ≡ base.deallocate outer t)
unfolding affix_allocator inner_block size
affix-deallocate-allocate base a k n s exact align low fits =
    let outer = (base.allocate (block_size a n) s).1 in
    let e = exact (block_size a n) s in
    let (above, below) = block_size-bounds a k n align low fits in
    let inner = inner_n a k n align low fits in
    (
      refl,
      rw (e, inner) (omega arith),
      rw (e, inner) (omega arith),
      prefix_found a k n align low fits outer,
      suffix_found a k n align low fits outer e,
      λ t. ap (λ b. base.deallocate b t) (outer-inner a k n align low fits outer e),
      λ t. ap (λ b. base.deallocate b t) (outer-asked a k n align low fits outer e),
    )
