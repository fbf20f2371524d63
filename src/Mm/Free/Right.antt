-- ===== src/Mm/Free/Right.antt =====
-- The second half of `coalesce`: the right neighbour, if it is free, is merged into the block.
use malloc_for_c.Prelude.{
  ℕ, ◌+◌, ◌≡◌, refl, sym, ap, subst, Bool, true, false, List, [], ◌∷◌, ◌++◌, arith, ==-true,
  ==-false, if◌then◌else◌, ◌==◌,
}
use malloc_for_c.Memory.{Ptr, Mem}
use malloc_for_c.Machine.{State, Cmd, ok, pure, get, ◌>>=◌, ◌>>◌}
use malloc_for_c.Mm.Block.{get_size, is_allocated, incr_pointer}
use malloc_for_c.Mm.Block.Access.{get_size-ok, is_allocated-ok, incr-eq}
use malloc_for_c.Mm.Free.{coalesce_left}
use malloc_for_c.Mm.Free.Merge.{merge_left_lem}
use malloc_for_c.Mm.Free.Left.{coalesce_left-look}
use malloc_for_c.Mm.Heap.{Block, block, used, Keeps, Core, Coalesced}
use malloc_for_c.Mm.Heap.Tiling.{Tiled-le}
use malloc_for_c.Mm.Heap.Frame.{Tags-split}
use malloc_for_c.Mm.Heap.Relink.{relinked}
use malloc_for_c.Mm.Heap.Neighbours.{ClosedRight, ClosedRight-busy, ClosedRight-free}
use malloc_for_c.Mm.Heap.Cut.{cut, Cut-Room}
use malloc_for_c.Mm.Policy.{erase, merge_right}
use malloc_for_c.Mm.Policy.Merge.{heap_of, merge_right-last, merge_right-busy, merge_right-free}

-- What `coalesce` does after its first call of `coalesce_left`.
abbrev pub right_cmd : Ptr → Cmd (Unit {0})
right_cmd block = do
  block_size ← get_size block
  let right_block = incr_pointer block_size block
  s ← get
  if right_block == s.mm_heap_last then pure tt else (do
    allocated ← is_allocated right_block
    if allocated then pure tt else (do coalesce_left right_block; pure tt))

-- Its outcome on the free block at `a` between the rows `l` and `r`.
pub record RightDone (s : State) (l : List Block) (a k : ℕ) (r : List Block) (fs : List Ptr)
    : Type 0 where
  pub k' : ℕ
  pub r' : List Block
  pub fs' : List Ptr
  pub mem : Mem
  pub head : Ptr
  pub run : right_cmd a s ≡ ok tt (relinked s mem head)
  pub core : Core (relinked s mem head) (l ++ block a k' false ∷ r') fs' []
  pub closed : ClosedRight r'
  pub same_used : used r' ≡ used r
  pub policy :
      merge_right (a, heap_of (l ++ block a k false ∷ r) fs s.mm_heap_last)
      ≡ heap_of (l ++ block a k' false ∷ r') fs' s.mm_heap_last
  pub keeps : Keeps (used l ++ used r) s.mem mem

module _ (s : State) (l : List Block) (a k : ℕ) (fs : List Ptr) where
  right-last : Core s (l ++ block a k false ∷ []) fs [] → RightDone s l a k [] fs
  right-last c =
      let g = cut s l (block a k false) [] fs [] c in
      record {
        k' = k;
        r' = [];
        fs' = fs;
        mem = s.mem;
        head = s.mm_free_head;
        run = rw (
          get_size-ok a k false s (Cut-Room g) g.header,
          incr-eq k a (omega (arith, g)),
          ==-true (a + k) s.mm_heap_last g.right,
        );
        core = c;
        closed = tt;
        same_used = refl;
        policy = merge_right-last (s.heap + 24) fs s.mm_heap_last l (block a k false) g.left;
        keeps = λ q i. refl;
      }

  -- Another block follows: its header tells whether it is free.
  right-look :
      (n : ℕ) (busy : Bool) (r : List Block)
      → Core s (l ++ block a k false ∷ block (a + k) n busy ∷ r) fs []
      → right_cmd a s ≡ (if busy then pure tt else (do coalesce_left (a + k); pure tt)) s
  right-look n busy r c =
      let g = cut s l (block a k false) (block (a + k) n busy ∷ r) fs [] c in
      let tags = (Tags-split s.mem l (block a k false ∷ block (a + k) n busy ∷ r) c.tags).1 in
      let le = Tiled-le (a + k + n) r s.mm_heap_last g.right.3 in
      rw (
        get_size-ok a k false s (Cut-Room g) g.header,
        incr-eq k a (omega (arith, g)),
        ==-false (a + k) s.mm_heap_last (omega (arith, g)),
        is_allocated-ok (a + k) n busy s (omega (arith, g)) tags.2.0,
      )

  right-busy :
      (n : ℕ) (r : List Block)
      → Core s (l ++ block a k false ∷ block (a + k) n true ∷ r) fs []
      → Coalesced (block (a + k) n true ∷ r)
      → RightDone s l a k (block (a + k) n true ∷ r) fs
  right-busy n r c co =
      let g = cut s l (block a k false) (block (a + k) n true ∷ r) fs [] c in
      record {
        k' = k;
        r' = block (a + k) n true ∷ r;
        fs' = fs;
        mem = s.mem;
        head = s.mm_free_head;
        run = right-look n true r c;
        core = c;
        closed = ClosedRight-busy (block (a + k) n true) r refl co;
        same_used = refl;
        policy =
            merge_right-busy (s.heap + 24) fs s.mm_heap_last l (block a k false) (a + k) n r g.left;
        keeps = λ q i. refl;
      }

  right-free :
      (n : ℕ) (r : List Block)
      → Core s (l ++ block a k false ∷ block (a + k) n false ∷ r) fs []
      → Coalesced (block (a + k) n false ∷ r)
      → RightDone s l a k (block (a + k) n false ∷ r) fs
  right-free n r c co =
      let g = cut s l (block a k false) (block (a + k) n false ∷ r) fs [] c in
      let (m, run, core, keeps) = merge_left_lem s l r a k n fs c in
      record {
        k' = k + n;
        r' = r;
        fs' = a ∷ erase a (erase (a + k) fs);
        mem = m;
        head = a;
        run = rw (right-look n false r c, coalesce_left-look s l r a k false n fs c, run);
        core = core;
        closed = ClosedRight-free (block (a + k) n false) r refl co;
        same_used = refl;
        policy =
            merge_right-free (s.heap + 24) fs s.mm_heap_last l (block a k false) (a + k) n r g.left;
        keeps = keeps;
      }

  right-next :
      (n : ℕ) (busy : Bool) (r : List Block)
      → Core s (l ++ block a k false ∷ block (a + k) n busy ∷ r) fs []
      → Coalesced (block (a + k) n busy ∷ r)
      → RightDone s l a k (block (a + k) n busy ∷ r) fs
  right-next n true r = right-busy n r
  right-next n false r = right-free n r

  -- The code does what the policy says, and leaves no free block on the right.
  pub right_lem :
      (r : List Block)
      → Core s (l ++ block a k false ∷ r) fs []
      → Coalesced r
      → RightDone s l a k r fs
  right_lem [] c co = right-last c
  right_lem (x ∷ r) c co =
      let g = cut s l (block a k false) (x ∷ r) fs [] c in
      let place : x ≡ block (a + k) x.size x.alloc = ap (λ p. block p x.size x.alloc) g.right.0 in
      subst (λ y. RightDone s l a k (y ∷ r) fs) (sym place)
        (right-next x.size x.alloc r
          (subst (λ y. Core s (l ++ block a k false ∷ y ∷ r) fs []) place c)
          (subst (λ y. Coalesced (y ∷ r)) place co))
