-- ===== src/Mm/Heap/Relink.antt =====
-- `block_append` and `block_remove` on a heap of blocks: they move a block marked free between the
-- free list and the blocks that wait to be listed, and keep tags and payloads.
use malloc_for_c.Prelude.{◌+◌, ◌<◌, ◌≡◌, refl, inr, List, ◌∷◌, ◌++◌, arith, count, count-append}
use malloc_for_c.Memory.{Ptr, Mem, null}
use malloc_for_c.Machine.{State, ok}
use malloc_for_c.Mm.FreeList.{block_append, block_remove}
use malloc_for_c.Mm.FreeList.Links.{Node, first_or, Seg, SameOff}
use malloc_for_c.Mm.FreeList.Append.{block_append_lem}
use malloc_for_c.Mm.FreeList.Remove.{block_remove_lem}
use malloc_for_c.Mm.Heap.{Block, used, Keeps, Core}
use malloc_for_c.Mm.Heap.Tiling.{free_count, free_bounds, free_Spread}
use malloc_for_c.Mm.Heap.Frame.{Tags-off, InPayload-off}

-- The state with another memory and another head of the free list.
abbrev pub relinked : State → Mem → Ptr → State
relinked s m h = record s { mem = m; mm_free_head = h }

module _ (s : State) (bs : List Block) (fs out : List Ptr) (c : Core s bs fs out) where
  pub free-Node : (x : Ptr) → 0 < free_count x bs → Node s x
  free-Node x h = let b = free_bounds x (s.heap + 24) bs s.mm_heap_last c.tiled h in omega arith

  pub listed_free : (x : Ptr) → 0 < count x fs → 0 < free_count x bs
  listed_free x h = omega (arith, c.listed x)

  -- A change of link words of free blocks that leaves a free list is no other change.
  relink :
      (xs fs' out' : List Ptr) (m : Mem)
      → ((x : Ptr) → 0 < count x xs → 0 < free_count x bs)
      → SameOff xs s.mem m
      → Seg m null fs' null
      → ((x : Ptr) → count x fs' + count x out' ≡ count x fs + count x out)
      → Core (relinked s m (first_or null fs')) bs fs' out' × Keeps (used bs) s.mem m
  relink xs fs' out' m free same links' moved = (
    record {
      fits = omega (arith, c.fits);
      aligned = c.aligned;
      first = c.first;
      brk = c.brk;
      room = c.room;
      tiled = c.tiled;
      tags =
          Tags-off s.mem m xs (s.heap + 24) bs s.mm_heap_last c.tiled (λ x h. inr (inr (free x h)))
            same c.tags;
      links = links';
      head = refl;
      listed = λ x. omega (arith, moved x, c.listed x);
    },
    λ a i. same a λ x h. InPayload-off a x (s.heap + 24) bs s.mm_heap_last c.tiled i (free x h),
  )

-- `block_append` lists a block that is marked free and not yet listed.
pub append_lem :
    (s : State) (bs : List Block) (fs : List Ptr) (x : Ptr) (out : List Ptr)
    → Core s bs fs (x ∷ out)
    → (m : Mem) × (block_append x s ≡ ok tt (relinked s m x))
      × Core (relinked s m x) bs (x ∷ fs) out
      × Keeps (used bs) s.mem m
append_lem s bs fs x out c =
    let free : (y : Ptr) → 0 < count y (x ∷ fs) → 0 < free_count y bs =
      λ y h. ground (arith, c.listed y) in
    let spread =
      free_Spread (s.heap + 24) bs s.mm_heap_last (x ∷ fs) c.tiled
        (λ y. ground (arith, c.listed y)) in
    let (m, run, links, same) =
      block_append_lem x s fs c.fits (λ y h. free-Node s bs fs (x ∷ out) c y (free y h)) spread
        c.links c.head in
    let (core, keeps) =
      relink s bs fs (x ∷ out) c (x ∷ fs) (x ∷ fs) out m free same links (λ y. ground arith) in
    (m, run, core, keeps)

-- `block_remove` takes a listed block out of the list, wherever it stands.
pub remove_lem :
    (s : State) (bs : List Block) (l : List Ptr) (x : Ptr) (r out : List Ptr)
    → Core s bs (l ++ x ∷ r) out
    → (m : Mem) × (block_remove x s ≡ ok tt (relinked s m (first_or null (l ++ r))))
      × Core (relinked s m (first_or null (l ++ r))) bs (l ++ r) (x ∷ out)
      × Keeps (used bs) s.mem m
remove_lem s bs l x r out c =
    let fs = l ++ x ∷ r in
    let free = listed_free s bs fs out c in
    let spread =
      free_Spread (s.heap + 24) bs s.mm_heap_last fs c.tiled (λ y. omega (arith, c.listed y)) in
    let (m, run, links, same) =
      block_remove_lem x s l r c.fits (λ y h. free-Node s bs fs out c y (free y h)) spread c.links
        c.head in
    let (core, keeps) =
      relink s bs fs out c fs (l ++ r) (x ∷ out) m free same links
        (λ y. ground (arith, count-append y l (x ∷ r), count-append y l r)) in
    (m, run, core, keeps)
