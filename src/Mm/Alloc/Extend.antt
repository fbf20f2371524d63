-- ===== src/Mm/Alloc/Extend.antt =====
-- `create_space` puts a new allocated block behind the last one, if the heap can grow so far.
use malloc_for_c.Prelude.{ℕ, ◌+◌, ◌%◌, ◌≤◌, ◌<◌, ◌≡◌, refl, inl, true, List, [], ◌∷◌, ◌++◌, arith}
use malloc_for_c.Memory.{Ptr, Mem, null}
use malloc_for_c.Machine.{State, ok, pure}
use malloc_for_c.Memlib.Break.{HasSpace, mem_sbrk-ok}
use malloc_for_c.Mm.Block.Access.{incr-eq}
use malloc_for_c.Mm.FreeList.Links.{Seg-same}
use malloc_for_c.Mm.Alloc.{create_space}
use malloc_for_c.Mm.Heap.{Block, block, used, Keeps, Core}
use malloc_for_c.Mm.Heap.Tiling.{Tiled-append, Tiled-le, free_bounds, free_count-append}
use malloc_for_c.Mm.Heap.Frame.{Tags-append, Tags-same, InPayload-bounds}
use malloc_for_c.Mm.Heap.Relink.{listed_free}
use malloc_for_c.Mm.Heap.Mark.{marked, marked-off, marked-Tags, mark_lem}

-- The state with a heap that is longer by `n` bytes.
abbrev pub grown : State → Mem → ℕ → State
grown s m n = record s { mem = m; mem_brk = s.mem_brk + n; mm_heap_last = s.mm_heap_last + n }

module _ (s : State) (bs : List Block) (fs : List Ptr) (n : ℕ) (c : Core s bs fs [])
    (space : HasSpace s n) (least : 32 ≤ n) (even : n % 16 ≡ 0) where
  abbrev new_mem : Mem
  new_mem = marked s.mem s.mm_heap_last n true

  new_same : (a : ℕ) → a < s.mm_heap_last → new_mem a ≡ s.mem a
  new_same a h = marked-off s.mem s.mm_heap_last n true a (omega arith) (inl h)

  extend_Core : Core (grown s new_mem n) (bs ++ block s.mm_heap_last n true ∷ []) fs []
  extend_Core = record {
    fits = omega (arith, c.fits);
    aligned = c.aligned;
    first = c.first;
    brk = omega (arith, c.brk);
    room = space.below;
    tiled =
        Tiled-append (s.heap + 24) bs s.mm_heap_last (block s.mm_heap_last n true ∷ [])
          (s.mm_heap_last + n) c.tiled (refl, least, even, refl);
    tags =
        Tags-append new_mem bs (block s.mm_heap_last n true ∷ [])
          (Tags-same s.mem new_mem (s.heap + 24) bs s.mm_heap_last c.tiled
            (λ a lo hi. new_same a hi) c.tags)
          (marked-Tags s.mem s.mm_heap_last n true (omega arith) (omega (arith, c.brk)));
    links =
        Seg-same s.mem new_mem null fs null
          (λ a x h lo hi. new_same a (
            omega (
              arith,
              free_bounds x (s.heap + 24) bs s.mm_heap_last c.tiled (listed_free s bs fs [] c x h),
            )))
          c.links;
    head = c.head;
    listed =
        λ x. omega (arith, c.listed x, free_count-append x bs (block s.mm_heap_last n true ∷ []));
  }

  extend_run : create_space n s ≡ ok s.mm_heap_last (grown s new_mem n)
  unfolding create_space
  extend_run =
      let le = Tiled-le (s.heap + 24) bs s.mm_heap_last c.tiled in
      rw (
        mem_sbrk-ok n s space,
        incr-eq n s.mm_heap_last (omega (arith, c.brk)),
        mark_lem s.mm_heap_last n true
            (record s { mem_brk = s.mem_brk + n; mm_heap_last = s.mm_heap_last + n })
            (pure s.mm_heap_last) (omega (arith, c.brk)) (omega (arith, c.brk)),
      )

  pub create_space_lem :
      (m : Mem) × (create_space n s ≡ ok s.mm_heap_last (grown s m n))
      × Core (grown s m n) (bs ++ block s.mm_heap_last n true ∷ []) fs []
      × Keeps (used bs) s.mem m
  create_space_lem = (
    new_mem,
    extend_run,
    extend_Core,
    λ a i. new_same a (InPayload-bounds a (s.heap + 24) bs s.mm_heap_last c.tiled i).1,
  )
