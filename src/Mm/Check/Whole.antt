-- ===== src/Mm/Check/Whole.antt =====
-- What `mm_checkheap` reports on a heap that is well formed.
use malloc_for_c.Prelude.{
  ℕ, zero, suc, ◌+◌, ◌-◌, ◌*◌, ◌%◌, ◌^◌, ◌≤◌, ◌<◌, ◌≡◌, refl, sym, ap, subst, inl, inr, List, [],
  ◌∷◌, arith, length, count, ==-true, ==-false, ◌==◌, sub64-eq, if◌then◌else◌, Bool-cases,
}
use malloc_for_c.Memory.{Ptr, null}
use malloc_for_c.Machine.{State, Cmd, ok, pure}
use malloc_for_c.Memlib.{mem_heap_lo, mem_heap_hi}
use malloc_for_c.Mm.Block.Access.{incr-eq, decr-eq}
use malloc_for_c.Mm.FreeList.Links.{Node, first_or}
use malloc_for_c.Mm.Heap.{Block, Tiled, free_addrs, Core, Coalesced}
use malloc_for_c.Mm.Heap.Tiling.{Tiled-le, free_bounds}
use malloc_for_c.Mm.Heap.Cut.{cut}
use malloc_for_c.Mm.Heap.Relink.{listed_free, free-Node}
use malloc_for_c.Mm.Policy.{Heap, Represents}
use malloc_for_c.Mm.Alloc.Search.{length-le, list_length}
use malloc_for_c.Mm.Check.{
  Report, list_too_long, check_ends, check_neighbours, check_blocks, check_list, check_count,
  mm_checkheap,
}
use malloc_for_c.Mm.Check.Walk.{check_block-ok, check_blocks-ok, check_list-ok}

-- How many blocks the first loop counts as free: all but the first one.
abbrev counted : List Block → ℕ
counted [] = 0
counted (b ∷ bs) = length (free_addrs bs)

-- The report of a heap that is well formed.
abbrev pub expected : List Block → List Report
expected [] = []
expected (b ∷ bs) = if b.alloc then [] else list_too_long ∷ []

blocks_length : (p : Ptr) (bs : List Block) (q : Ptr) → Tiled p bs q → 32 * length bs ≤ q - p
blocks_length p [] q t = omega arith
blocks_length p (b ∷ bs) q t =
    omega (arith, blocks_length (p + b.size) bs q t.3, Tiled-le (p + b.size) bs q t.3)

free_length-le : (bs : List Block) → length (free_addrs bs) ≤ length bs
free_length-le [] = omega arith
free_length-le (b ∷ bs) = ground (arith, free_length-le bs)

module _ (s : State) (hi : Ptr) (last : hi + 1 ≡ s.mem_brk) (fs : List Ptr) where
  all_blocks :
      (bs : List Block) (fuel : ℕ)
      → Core s bs fs []
      → Coalesced bs
      → length bs < fuel
      → length bs < 2 ^ 64
      → check_blocks fuel s.heap hi null (s.heap + 24) 0 s ≡ ok (counted bs, []) s
  unfolding check_blocks check_neighbours
  all_blocks bs zero c co enough lt = absurd (omega arith)
  all_blocks [] (suc fuel) c co enough lt = rw (==-true (s.heap + 24) s.mm_heap_last c.tiled)
  all_blocks (b ∷ bs) (suc fuel) c co enough lt =
      let g = cut s [] b bs fs [] c in
      let first : s.heap + 24 ≡ b.addr = g.left in
      let rest = check_blocks-ok s hi last bs [] b fs 0 fuel c co (omega arith) (omega arith) in
      rw
        (
          first,
          ==-false b.addr s.mm_heap_last (omega (arith, g)),
          check_block-ok s hi last [] b bs fs c,
          incr-eq b.size b.addr (omega (arith, g)),
          rest,
        )
        (ap (λ (k : ℕ). ok (k, []) s) (omega arith))

  listed-Node :
      (bs : List Block) → Core s bs fs [] → (y : Ptr) → 0 < count y fs → Node s y × (y ≤ hi)
  listed-Node bs c y h =
      let f = listed_free s bs fs [] c y h in
      let b = free_bounds y (s.heap + 24) bs s.mm_heap_last c.tiled f in
      (free-Node s bs fs [] c y f, omega (arith, b, c.brk))

module _ (s : State) (hi : Ptr) (last : hi + 1 ≡ s.mem_brk) where
  -- The second half of `mm_checkheap`.
  abbrev list_part : Ptr → ℕ → Cmd (ℕ × List Report)
  list_part head n =
      if head == null
      then pure (n, [])
      else check_list (s.mem_brk - s.heap + 1) s.heap hi null head n

  whole_list :
      (fs : List Ptr) (bs : List Block) (n : ℕ)
      → Core s bs fs []
      → length fs < 2 ^ 64
      → n < 2 ^ 64
      → list_part (first_or null fs) n s ≡ ok ((n + 2 ^ 64 - length fs) % 2 ^ 64, []) s
  whole_list [] bs n c lt small = ap (λ (k : ℕ). ok (k, []) s) (omega arith)
  whole_list (x ∷ xs) bs n c lt small =
      let node = (listed-Node s hi last (x ∷ xs) bs c x (ground arith)).0 in
      rw (==-false x null (omega (arith, node, c.fits))) (
        check_list-ok s hi last (x ∷ xs) null n (s.mem_brk - s.heap + 1) c.fits
          (listed-Node s hi last (x ∷ xs) bs c) c.links (list_length s bs (x ∷ xs) c) lt small)

counted-le : (bs : List Block) → counted bs ≤ length bs
counted-le [] = omega arith
counted-le (b ∷ bs) = omega (arith, free_length-le bs)

-- The counts of both loops agree but for a free first block.
verdict :
    (bs : List Block) (k : ℕ)
    → k ≡ length (free_addrs bs)
    → length bs < 2 ^ 63
    → check_count ((counted bs + 2 ^ 64 - k) % 2 ^ 64) ≡ expected bs
unfolding check_count
verdict [] k e lt = let zero_left : (0 + 2 ^ 64 - k) % 2 ^ 64 ≡ 0 = omega arith in rw zero_left refl
verdict (b ∷ bs) k e lt = elim (Bool-cases b.alloc) [
  | inl busy ↦
      let same : k ≡ length (free_addrs bs) = rw busy at e in
      let zero_left : (length (free_addrs bs) + 2 ^ 64 - k) % 2 ^ 64 ≡ 0 =
        omega (arith, free_length-le bs) in
      rw (zero_left, busy) refl
  | inr idle ↦
      let more : k ≡ 1 + length (free_addrs bs) = omega (arith, rw idle at e) in
      let negative : (length (free_addrs bs) + 2 ^ 64 - k) % 2 ^ 64 ≡ 2 ^ 64 - 1 =
        omega (arith, free_length-le bs) in
      rw (negative, idle) refl
]

ends : (s : State) (h : Heap) → Represents s h → check_ends s.heap (s.mem_brk - 1) s ≡ []
unfolding check_ends
ends s h v =
    let c = v.core in
    let le = Tiled-le (s.heap + 24) h.blocks s.mm_heap_last c.tiled in
    rw (
      ==-false s.mm_heap_first null (omega (arith, c.first)),
      incr-eq 8 s.heap (omega (arith, c.fits, c.room, c.brk, le)),
      ==-true s.mm_heap_first (s.heap + 8) c.first,
      ==-false s.mm_heap_last null (omega (arith, le)),
      decr-eq 15 (s.mem_brk - 1) (omega (arith, c.brk)) (omega (arith, c.fits, c.room)),
      ==-true s.mm_heap_last (s.mem_brk - 1 - 15) (omega (arith, c.brk)),
    )

-- On every state that represents a heap, `mm_checkheap` ends, changes nothing, and reports nothing
-- if there is no block or the first block is in use. If the first block is free it reports that the
-- free list stores more blocks than are freed, and nothing else.
pub mm_checkheap_lem :
    (s : State) (h : Heap) → Represents s h → mm_checkheap s ≡ ok (expected h.blocks) s
unfolding mm_checkheap mem_heap_lo mem_heap_hi
mm_checkheap_lem s h v =
    let c = v.core in
    let bs = h.blocks in
    let hi = s.mem_brk - 1 in
    let last : hi + 1 ≡ s.mem_brk = omega (arith, c.brk) in
    let le = Tiled-le (s.heap + 24) bs s.mm_heap_last c.tiled in
    let few = blocks_length (s.heap + 24) bs s.mm_heap_last c.tiled in
    let listed : length h.list ≡ length (free_addrs bs) = omega (
      arith,
      length-le h.list (free_addrs bs) (λ x. omega (arith, c.listed x)),
      length-le (free_addrs bs) h.list (λ x. omega (arith, c.listed x)),
    ) in
    let start : s.mm_heap_first + 16 ≡ s.heap + 24 = omega (arith, c.first) in
    let free_le = free_length-le bs in
    rw (
      sub64-eq s.mem_brk 1 (omega (arith, c.brk)) (omega (arith, c.fits, c.room)),
      incr-eq 16 s.mm_heap_first (omega (arith, c.fits, c.room, c.brk, le, c.first)),
      start,
      all_blocks s hi last h.list bs (s.mem_brk - s.heap + 1) c v.coalesced
          (omega (arith, few, c.brk)) (omega (arith, few, c.brk, c.fits, c.room)),
      subst
          (λ w.
            list_part s hi last w (counted bs) s
            ≡ ok ((counted bs + 2 ^ 64 - length h.list) % 2 ^ 64, []) s)
          (sym c.head)
          (whole_list s hi last h.list bs (counted bs) c
            (omega (arith, listed, free_le, few, c.brk, c.fits, c.room))
            (omega (arith, counted-le bs, few, c.brk, c.fits, c.room))),
      ends s h v,
      verdict bs (length h.list) listed (omega (arith, few, c.brk, c.fits, c.room)),
    )
