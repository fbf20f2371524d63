-- ===== src/Mm/Alloc/Limits.antt =====
-- `malloc` at the limits: sizes that wrap around, and a heap area that is used up.
use malloc_for_c.Prelude.{
  ℕ, ◌+◌, ◌-◌, ◌%◌, ◌^◌, ◌≤◌, ◌<◌, ◌≡◌, true, none, arith, leb-false, ==-false, sub64-eq,
}
use malloc_for_c.Memory.{Ptr, Mem, put}
use malloc_for_c.Memory.Words.{word-put_self}
use malloc_for_c.Machine.{State, fault, store}
use malloc_for_c.Machine.Access.{load-ok, store-ok}
use malloc_for_c.Memlib.Break.{mem_sbrk-fail}
use malloc_for_c.Mm.Block.{get_size, set_header, set_footer}
use malloc_for_c.Mm.Block.Access.{tag_val, header_val_lem, get_size_from_val-tag, incr-eq}
use malloc_for_c.Mm.Heap.Tiling.{Tiled-le}
use malloc_for_c.Mm.Policy.{Heap, first_fit, Represents}
use malloc_for_c.Mm.Alloc.{create_space, adjust, malloc}
use malloc_for_c.Mm.Alloc.Search.{find_fit_lem}
use malloc_for_c.Mm.Alloc.Malloc.{ensure_init-done, first-ne, adjust_bounds}

-- For each of the 31 greatest sizes of 64 bits, the block size that `malloc` computes wraps around
-- to at most 16 bytes.
pub adjust_wraps : (size : ℕ) → 2 ^ 64 ≤ size + 31 → size < 2 ^ 64 → adjust size ≤ 16
unfolding adjust
adjust_wraps size big lt = omega arith

store-fault : (a : Ptr) (v : ℕ) (s : State) → s.mem_max_addr < a + 8 → store a v s ≡ fault
unfolding store
store-fault a v s h = rw (leb-false (a + 8) s.mem_max_addr h) (ground arith)

-- The header still fits before the end of the heap area, the footer does not.
create_space-fault :
    (s : State) (h : Heap) (n : ℕ)
    → Represents s h
    → 32 ≤ n
    → n % 16 ≡ 0
    → s.mem_brk + n < 2 ^ 64
    → s.mem_max_addr + 16 < s.mem_brk + n
    → create_space n s ≡ fault
unfolding create_space set_header set_footer get_size
create_space-fault s h n v least even lt full =
    let c = v.core in
    let p = s.mm_heap_last in
    let le = Tiled-le (s.heap + 24) h.blocks p c.tiled in
    let s₁ : State = record s { mm_heap_last = p + n } in
    let m : Mem = put s.mem p (tag_val n true) in
    let s₂ : State = record s₁ { mem = m } in
    let header =
      load-ok p s₂ (record { above = omega (arith, le); below = omega (arith, c.brk, c.room) }) in
    let tag = word-put_self s.mem p (tag_val n true) (omega (arith, c.brk)) in
    rw (
      mem_sbrk-fail n s (omega arith) lt,
      incr-eq n p (omega (arith, c.brk)),
      header_val_lem n true even,
      store-ok p (tag_val n true) s₁
          (record { above = omega (arith, le); below = omega (arith, c.brk, c.room) }),
      header,
      tag,
      get_size_from_val-tag n true even,
      sub64-eq n 8 (omega arith) (omega arith),
      incr-eq (n - 8) p (omega (arith, c.brk)),
      header,
      tag,
      store-fault (p + (n - 8)) (tag_val n true) s₂ (omega (arith, c.brk)),
    )

-- In a state that represents a heap, `malloc` of a positive size without overflow touches unmapped
-- memory, instead of giving the null pointer, where no listed block fits and a new one, less the 16
-- bytes of the epilogue, would end behind the heap area.
pub malloc_exhausted :
    (s : State) (h : Heap) (size : ℕ)
    → Represents s h
    → 0 < size
    → size + 63 < 2 ^ 64
    → first_fit h.blocks (adjust size) h.list ≡ none
    → s.mem_brk + adjust size < 2 ^ 64
    → s.mem_max_addr + 16 < s.mem_brk + adjust size
    → malloc size s ≡ fault
unfolding malloc
malloc_exhausted s h size v pos lt nothing small full =
    let b = adjust_bounds size pos (omega arith) in
    let n = adjust size in
    rw (
      ensure_init-done s _ (first-ne s h v),
      ==-false size 0 (omega arith),
      find_fit_lem s h.blocks h.list n v.core (omega (arith, b)),
      nothing,
      create_space-fault s h n v b.1 b.0 small full,
    )
