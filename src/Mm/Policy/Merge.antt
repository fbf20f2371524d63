-- ===== src/Mm/Policy/Merge.antt =====
-- The merges of the policy at a block that the row is cut at.
use malloc_for_c.Prelude.{ℕ, ◌+◌, ◌≡◌, true, false, List, [], ◌∷◌, ◌++◌}
use malloc_for_c.Memory.{Ptr}
use malloc_for_c.Mm.Heap.{Block, block, Tiled}
use malloc_for_c.Mm.Policy.{Heap, erase, merge_left, merge_right}
use malloc_for_c.Mm.Policy.Cut.{
  left_free-cut, left_free-first, right_free-cut, right_free-last, fuse-cut,
}

abbrev pub heap_of : List Block → List Ptr → Ptr → Heap
heap_of bs fs e = record { blocks = bs; list = fs; last = e }

module _ (p : Ptr) (fs : List Ptr) (e : Ptr) where
  pub merge_left-first :
      (b : Block) (r : List Block)
      → Tiled p (b ∷ r) e
      → merge_left b.addr (heap_of (b ∷ r) fs e) ≡ (b.addr, heap_of (b ∷ r) fs e)
  unfolding merge_left
  merge_left-first b r t = rw (left_free-first p b r e t)

  pub merge_left-busy :
      (l : List Block) (a na : ℕ) (c : Block) (r : List Block)
      → Tiled p (l ++ block a na true ∷ c ∷ r) e
      → merge_left c.addr (heap_of (l ++ block a na true ∷ c ∷ r) fs e)
        ≡ (c.addr, heap_of (l ++ block a na true ∷ c ∷ r) fs e)
  unfolding merge_left
  merge_left-busy l a na c r t = rw (left_free-cut p l (block a na true) c r e t, merge_left)

  pub merge_left-free :
      (l : List Block) (a na : ℕ) (c : Block) (r : List Block)
      → Tiled p (l ++ block a na false ∷ c ∷ r) e
      → Tiled p l a
      → merge_left c.addr (heap_of (l ++ block a na false ∷ c ∷ r) fs e)
        ≡ (a, heap_of (l ++ block a (na + c.size) false ∷ r) (a ∷ erase a (erase c.addr fs)) e)
  unfolding merge_left
  merge_left-free l a na c r t tl = rw (
    left_free-cut p l (block a na false) c r e t,
    fuse-cut p l (block a na false) c r tl,
    merge_left,
  )

  pub merge_right-last :
      (l : List Block) (b : Block)
      → Tiled p l b.addr
      → merge_right (b.addr, heap_of (l ++ b ∷ []) fs e) ≡ heap_of (l ++ b ∷ []) fs e
  unfolding merge_right
  merge_right-last l b t = rw (right_free-last p l b t, merge_right)

  pub merge_right-busy :
      (l : List Block) (b : Block) (c k : ℕ) (r : List Block)
      → Tiled p l b.addr
      → merge_right (b.addr, heap_of (l ++ b ∷ block c k true ∷ r) fs e)
        ≡ heap_of (l ++ b ∷ block c k true ∷ r) fs e
  unfolding merge_right
  merge_right-busy l b c k r t = rw (right_free-cut p l b (block c k true) r t, merge_right)

  pub merge_right-free :
      (l : List Block) (b : Block) (c k : ℕ) (r : List Block)
      → Tiled p l b.addr
      → merge_right (b.addr, heap_of (l ++ b ∷ block c k false ∷ r) fs e)
        ≡ heap_of (l ++ block b.addr (b.size + k) false ∷ r) (b.addr ∷ erase b.addr (erase c fs)) e
  unfolding merge_right
  merge_right-free l b c k r t = rw (
    right_free-cut p l b (block c k false) r t,
    fuse-cut p l b (block c k false) r t,
    merge_right,
  )
