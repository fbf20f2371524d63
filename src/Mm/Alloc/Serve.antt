-- ===== src/Mm/Alloc/Serve.antt =====
-- What serving a listed block does: a whole block or a split one, by the policy.
use malloc_for_c.Prelude.{
  ℕ, ◌+◌, ◌-◌, ◌%◌, ◌≤◌, ◌<◌, ◌≡◌, refl, inl, inr, true, false, some, List, [], ◌∷◌, ◌++◌, arith,
  count, count-append, count_self, leb-true, leb-false, lt_cases,
}
use malloc_for_c.Memory.{Ptr, Mem, null}
use malloc_for_c.Machine.{State, Run, ok}
use malloc_for_c.Mm.FreeList.Links.{first_or}
use malloc_for_c.Mm.Alloc.Take.{take_whole_lem}
use malloc_for_c.Mm.Alloc.Split.{split_lem}
use malloc_for_c.Mm.Alloc.Search.{serve}
use malloc_for_c.Mm.Heap.{Block, block, Tiled, used, Keeps, Core, Coalesced}
use malloc_for_c.Mm.Heap.Tiling.{free_count-le-one}
use malloc_for_c.Mm.Heap.Relink.{relinked}
use malloc_for_c.Mm.Heap.Neighbours.{Coalesced-busy, Coalesced-cut}
use malloc_for_c.Mm.Heap.Cut.{cut, used-free}
use malloc_for_c.Mm.Policy.{Heap, size_at, relist, hand_out, Represents}
use malloc_for_c.Mm.Policy.Cut.{size_at-cut, allocate-cut, erase-cut}

-- What holds after a call that obtains a block: the new state represents the new heap, the payloads
-- of the blocks in use are what they were, and the bounds of the heap area stay.
pub record Becomes (s : State) (h : Heap) (s' : State) (h' : Heap) : Type 0 where
  pub heap : Represents s' h'
  pub keeps : Keeps (used h.blocks) s.mem s'.mem
  pub same_lo : s'.heap ≡ s.heap
  pub same_max : s'.mem_max_addr ≡ s.mem_max_addr
  pub same_first : s'.mm_heap_first ≡ s.mm_heap_first

abbrev pub heap_of : List Block → List Ptr → Ptr → Heap
heap_of bs fs e = record { blocks = bs; list = fs; last = e }

module _ (s : State) (l r : List Block) (x k : ℕ) (fl fr : List Ptr) (n : ℕ)
    (c : Core s (l ++ block x k false ∷ r) (fl ++ x ∷ fr) [])
    (co : Coalesced (l ++ block x k false ∷ r)) (least : 32 ≤ n) (even : n % 16 ≡ 0)
    (fits : n ≤ k) where
  abbrev before : Heap
  before = heap_of (l ++ block x k false ∷ r) (fl ++ x ∷ fr) s.mm_heap_last

  left_of : Tiled (s.heap + 24) l x
  left_of = (cut s l (block x k false) r (fl ++ x ∷ fr) [] c).left

  once : count x fl ≡ 0
  once = omega (
    arith,
    c.listed x,
    count-append x fl (x ∷ fr),
    count_self x fr,
    free_count-le-one x (s.heap + 24) (l ++ block x k false ∷ r) s.mm_heap_last c.tiled,
  )

  hand_out-tight :
      (k < n + 32)
      → hand_out n x before ≡ heap_of (l ++ block x k true ∷ r) (fl ++ fr) s.mm_heap_last
  unfolding hand_out relist
  hand_out-tight h = rw (
    allocate-cut n k (s.heap + 24) l x false r left_of,
    size_at-cut (s.heap + 24) l (block x k false) r left_of,
    leb-false (n + 32) k h,
    erase-cut x fl fr once,
  )

  hand_out-wide :
      (n + 32 ≤ k)
      → hand_out n x before
        ≡ heap_of
            (l ++ block x n true ∷ block (x + n) (k - n) false ∷ r)
            ((x + n) ∷ (fl ++ fr))
            s.mm_heap_last
  unfolding hand_out relist
  hand_out-wide h = rw (
    allocate-cut n k (s.heap + 24) l x false r left_of,
    size_at-cut (s.heap + 24) l (block x k false) r left_of,
    leb-true (n + 32) k h,
    erase-cut x fl fr once,
  )

  abbrev Served : Run Ptr → Type 0
  Served run = (s' : State) × (run ≡ ok x s') × Becomes s before s' (hand_out n x before)

  keep_used :
      {m : Mem} → Keeps (used l ++ used r) s.mem m → Keeps (used (l ++ block x k false ∷ r)) s.mem m
  keep_used keeps a i = keeps a (rw (used-free l x k r) at i)

  size : size_at x (l ++ block x k false ∷ r) ≡ k
  size = size_at-cut (s.heap + 24) l (block x k false) r left_of

  serve-tight : (k < n + 32) → Served (serve n (l ++ block x k false ∷ r) (some x) s)
  serve-tight h =
      let (m, run, core, keeps) = take_whole_lem s l r x k fl fr c in
      (
        relinked s m (first_or null (fl ++ fr)),
        rw (size, leb-false (n + 32) k h) run,
        record {
          heap = rw (hand_out-tight h) (record {
            core = core;
            coalesced = Coalesced-busy l (block x k false) (block x k true) r refl co;
            last = refl;
          });
          keeps = keep_used keeps;
          same_lo = refl;
          same_max = refl;
          same_first = refl;
        },
      )

  serve-wide : (n + 32 ≤ k) → Served (serve n (l ++ block x k false ∷ r) (some x) s)
  serve-wide h =
      let (m, run, core, keeps) = split_lem s l r x k n fl fr c least even h in
      (
        relinked s m (x + n),
        rw (size, leb-true (n + 32) k h) run,
        record {
          heap = rw (hand_out-wide h) (record {
            core = core;
            coalesced = Coalesced-cut l x k (block x n true) (x + n) (k - n) r refl co;
            last = refl;
          });
          keeps = keep_used keeps;
          same_lo = refl;
          same_max = refl;
          same_first = refl;
        },
      )

  pub serve_lem : Served (serve n (l ++ block x k false ∷ r) (some x) s)
  serve_lem = elim (lt_cases k (n + 32)) [ inl h ↦ serve-tight h | inr h ↦ serve-wide h ]
