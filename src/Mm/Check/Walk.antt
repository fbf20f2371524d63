-- ===== src/Mm/Check/Walk.antt =====
-- The loops of `mm_checkheap` on a heap that is well formed.
use malloc_for_c.Prelude.{
  ℕ, zero, suc, ◌+◌, ◌-◌, ◌%◌, ◌^◌, ◌≤◌, ◌<◌, ◌≡◌, refl, sym, ap, subst, ◌⊎◌, inl, inr, Bool, true,
  List, [], ◌∷◌, ◌++◌, append_assoc, arith, length, count, ltb-false, ==-true, ==-false, sub64,
  add64-eq, sub64-eq, if◌then◌else◌, Bool-cases,
}
use malloc_for_c.Memory.{Ptr, null, word}
use malloc_for_c.Machine.{State, ok}
use malloc_for_c.Machine.Access.{load-ok}
use malloc_for_c.Mm.Block.{get_footer_from_header}
use malloc_for_c.Mm.Block.Access.{
  Room, tag_val, incr-eq, get_size-ok, is_allocated-ok, get_size_from_val-tag,
}
use malloc_for_c.Mm.FreeList.Links.{Fits, Node, Seg, first_or, get_next-ok, get_prev-ok}
use malloc_for_c.Mm.Heap.{Block, tag, free_addrs, Core, Coalesced}
use malloc_for_c.Mm.Heap.Cut.{cut, Cut-Room}
use malloc_for_c.Mm.Alloc.Grant.{Tiled-aligned}
use malloc_for_c.Mm.Check.{check_neighbours, check_block, check_blocks, check_list}

get_footer-ok :
    (p n : ℕ) (a : Bool) (s : State)
    → Room s p n
    → word s.mem p ≡ tag_val n a
    → get_footer_from_header p s ≡ ok (p + (n - 8)) s
unfolding get_footer_from_header
get_footer-ok p n a s r e = rw (
  load-ok p s (omega arith),
  e,
  get_size_from_val-tag n a r.even,
  sub64-eq n 8 (omega arith) (omega arith),
  incr-eq (n - 8) p (omega arith),
)

module _ (s : State) (hi : Ptr) (last : hi + 1 ≡ s.mem_brk) where
  -- There is nothing to report about a block of the heap.
  pub check_block-ok :
      (l : List Block) (b : Block) (r : List Block) (fs : List Ptr)
      → Core s (l ++ b ∷ r) fs []
      → check_block s.heap hi b.addr s ≡ ok (b.size, []) s
  unfolding check_block
  check_block-ok l b r fs c =
      let g = cut s l b r fs [] c in
      let room = Cut-Room g in
      let al = Tiled-aligned (s.heap + 24) l b.addr g.left in
      rw (
        get_size-ok b.addr b.size b.alloc s room g.header,
        get_footer-ok b.addr b.size b.alloc s room g.header,
        load-ok b.addr s (omega arith),
        load-ok (b.addr + (b.size - 8)) s (omega arith),
        g.header,
        g.footer,
        ==-true (b.size % 16) 0 g.even,
        ltb-false b.addr s.heap (omega (arith, g)),
        ltb-false hi b.addr (omega (arith, g, c.brk)),
        ==-true (tag b) (tag b) refl,
        ltb-false b.size 32 g.large,
        sub64-eq b.addr s.mm_heap_first (omega (arith, g, c.first)) (omega (arith, g)),
        ==-true ((b.addr - s.mm_heap_first) % 16) 0 (omega (arith, c.first, c.aligned, al, g)),
      )

  -- A free block is counted, unless it is the first one.
  check_neighbours-ok :
      (l : List Block) (b c : Block) (r : List Block) (fs : List Ptr) (n : ℕ)
      → Core s (l ++ b ∷ c ∷ r) fs []
      → (b.alloc ≡ true) ⊎ (c.alloc ≡ true)
      → n + 1 < 2 ^ 64
      → check_neighbours b.addr c.addr n s ≡ ok (n + (if c.alloc then 0 else 1), []) s
  unfolding check_neighbours
  check_neighbours-ok l b c r fs n core one lt =
      let g = cut s l b (c ∷ r) fs [] core in
      let flat = append_assoc l (b ∷ []) (c ∷ r) in
      let f = cut s (l ++ b ∷ []) c r fs [] (subst (λ w. Core s w fs []) (sym flat) core) in
      rw
        (
          ==-false b.addr null (omega (arith, g, core.fits)),
          is_allocated-ok c.addr c.size c.alloc s (Cut-Room f) f.header,
        )
        (elim (Bool-cases c.alloc) [
          | inl busy ↦ rw busy (ap (λ (k : ℕ). ok (k, []) s) (omega arith))
          | inr idle ↦ elim one [
            | inl b_busy ↦ rw (
              idle,
              is_allocated-ok b.addr b.size b.alloc s (Cut-Room g) g.header,
              b_busy,
              add64-eq n 1 lt,
            )
            | inr c_busy ↦ cc
          ]
        ])

  -- The rest of the row behind a block.
  pub check_blocks-ok :
      (r l : List Block) (b : Block) (fs : List Ptr) (n fuel : ℕ)
      → Core s (l ++ b ∷ r) fs []
      → Coalesced (b ∷ r)
      → length r < fuel
      → n + length r < 2 ^ 64
      → check_blocks fuel s.heap hi b.addr (b.addr + b.size) n s
        ≡ ok (n + length (free_addrs r), []) s
  unfolding check_blocks
  check_blocks-ok r l b fs n zero core co enough lt = absurd (omega arith)
  check_blocks-ok [] l b fs n (suc fuel) core co enough lt =
      let g = cut s l b [] fs [] core in
      rw (==-true (b.addr + b.size) s.mm_heap_last g.right)
        (ap (λ (k : ℕ). ok (k, []) s) (omega arith))
  check_blocks-ok (c ∷ r) l b fs n (suc fuel) core co enough lt =
      let g = cut s l b (c ∷ r) fs [] core in
      let flat = append_assoc l (b ∷ []) (c ∷ r) in
      let core' = subst (λ w. Core s w fs []) (sym flat) core in
      let f = cut s (l ++ b ∷ []) c r fs [] core' in
      let next : b.addr + b.size ≡ c.addr = sym g.right.0 in
      let m = n + (if c.alloc then 0 else 1) in
      let rest =
        check_blocks-ok r (l ++ b ∷ []) c fs m fuel core' co.1 (omega arith) (ground arith) in
      rw
        (
          next,
          ==-false c.addr s.mm_heap_last (omega (arith, f)),
          check_neighbours-ok l b c r fs n core co.0 (omega arith),
          check_block-ok (l ++ b ∷ []) c r fs core',
          incr-eq c.size c.addr (omega (arith, f)),
          rest,
        )
        (ap (λ (k : ℕ). ok (k, []) s) (ground arith))

  -- The walk over the free list counts its nodes down.
  pub check_list-ok :
      (fs : List Ptr) (prev : Ptr) (n fuel : ℕ)
      → Fits s
      → ((y : Ptr) → 0 < count y fs → Node s y × (y ≤ hi))
      → Seg s.mem prev fs null
      → length fs < fuel
      → length fs < 2 ^ 64
      → n < 2 ^ 64
      → check_list fuel s.heap hi prev (first_or null fs) n s
        ≡ ok ((n + 2 ^ 64 - length fs) % 2 ^ 64, []) s
  unfolding check_list
  check_list-ok fs prev n zero fits nodes links enough lt small = absurd (omega arith)
  check_list-ok [] prev n (suc fuel) fits nodes links enough lt small =
      ap (λ (k : ℕ). ok (k, []) s) (omega arith)
  check_list-ok (x ∷ xs) prev n (suc fuel) fits nodes links enough lt small =
      let (node, le) = nodes x (ground arith) in
      let rest =
        check_list-ok xs x (sub64 n 1) fuel fits (λ y h. nodes y (ground arith)) links.2
          (omega arith) (omega arith) (omega arith) in
      rw
        (
          ==-false x null (omega (arith, node, fits)),
          get_prev-ok x s fits node,
          get_next-ok x s fits node,
          links.0,
          links.1,
          rest,
          ==-true prev prev refl,
          ltb-false x s.heap (omega (arith, node)),
          ltb-false hi x le,
        )
        (ap (λ (k : ℕ). ok (k, []) s) (omega arith))
