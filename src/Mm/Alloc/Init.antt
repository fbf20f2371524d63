-- ===== src/Mm/Alloc/Init.antt =====
-- `mm_init` on an empty heap area: prologue and epilogue, and no block between them.
use malloc_for_c.Prelude.{◌+◌, ◌-◌, ◌%◌, ◌^◌, ◌≤◌, ◌<◌, ◌≡◌, refl, [], arith, ==-false, sub64-eq}
use malloc_for_c.Memory.{Ptr, null}
use malloc_for_c.Machine.{State, ok}
use malloc_for_c.Memlib.{mem_heap_lo, mem_heap_hi}
use malloc_for_c.Memlib.Break.{mem_sbrk-ok}
use malloc_for_c.Mm.Block.{init_heap_first, init_heap_last}
use malloc_for_c.Mm.Block.Access.{incr-eq, decr-eq}
use malloc_for_c.Mm.Alloc.{mm_init}
use malloc_for_c.Mm.Policy.{Heap, Represents}

-- The heap area is aligned, empty, and has space for the 40 bytes of `mm_init`.
pub record IsFresh (s : State) : Type 0 where
  pub positive : 0 < s.heap
  pub aligned : s.heap % 16 ≡ 0
  pub empty : s.mem_brk ≡ s.heap
  pub room : s.heap + 40 ≤ s.mem_max_addr
  pub small : s.mem_max_addr < 2 ^ 64

-- The heap without a block, whose first block would start at `e`.
abbrev pub no_blocks : Ptr → Heap
no_blocks e = record { blocks = []; list = []; last = e }

-- The state after `mm_init`.
abbrev pub started : State → State
started s = record s {
  mem_brk = s.mem_brk + 40;
  mm_heap_first = s.heap + 8;
  mm_heap_last = s.mem_brk + 24;
  mm_free_head = null;
}

-- On an aligned and empty heap area with space for 40 bytes, `mm_init` returns 0 whatever the
-- static variables of an earlier run were, and the state represents the heap without blocks.
pub mm_init_lem :
    (s : State)
    → IsFresh s
    → (mm_init s ≡ ok 0 (started s)) × Represents (started s) (no_blocks (s.heap + 24))
unfolding mm_init init_heap_first init_heap_last mem_heap_lo mem_heap_hi
mm_init_lem s f =
    let epilogue : s.mem_brk + 40 - 1 - 15 ≡ s.mem_brk + 24 = omega arith in
    (
      rw (
        mem_sbrk-ok 40 (record s { mm_free_head = null }) (omega (arith, f)),
        ==-false s.mem_brk null (omega (arith, f)),
        incr-eq 8 s.heap (omega (arith, f)),
        sub64-eq (s.mem_brk + 40) 1 (omega (arith, f)) (omega (arith, f)),
        decr-eq 15 (s.mem_brk + 40 - 1) (omega (arith, f)) (omega (arith, f)),
        epilogue,
      ),
      record {
        core = record {
          fits = omega (arith, f);
          aligned = f.aligned;
          first = refl;
          brk = omega arith;
          room = omega (arith, f);
          tiled = omega (arith, f);
          tags = tt;
          links = tt;
          head = refl;
          listed = λ x. refl;
        };
        coalesced = tt;
        last = omega (arith, f);
      },
    )
