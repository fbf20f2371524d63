-- ===== src/Mm/Free/Left.antt =====
-- `coalesce_left` looks at the left neighbour through its footer, and merges with it if it is free.
use malloc_for_c.Prelude.{
  ℕ, ◌+◌, ◌-◌, ◌≡◌, refl, sym, ◌∙◌, subst, inl, inr, Bool, true, false, List, [], ◌∷◌, ◌++◌,
  append_assoc, append-nil, arith, ==-true, ==-false, snoc_cases, if◌then◌else◌,
}
use malloc_for_c.Memory.{Ptr, Mem}
use malloc_for_c.Machine.{State, ok, pure}
use malloc_for_c.Machine.Access.{load-ok}
use malloc_for_c.Mm.Block.Access.{get_size_from_val-tag, is_allocated-ok, incr-eq, decr-eq}
use malloc_for_c.Mm.Free.{coalesce_left, merge_left}
use malloc_for_c.Mm.Free.Merge.{merge_left_lem}
use malloc_for_c.Mm.Heap.{Block, block, used, Keeps, Core, Coalesced}
use malloc_for_c.Mm.Heap.Tiling.{used-append}
use malloc_for_c.Mm.Heap.Relink.{relinked}
use malloc_for_c.Mm.Heap.Neighbours.{ClosedLeft, ClosedLeft-busy, ClosedLeft-free}
use malloc_for_c.Mm.Heap.Cut.{cut, Cut-Room}
use malloc_for_c.Mm.Policy.{Heap, erase}
use malloc_for_c.Mm.Policy
use malloc_for_c.Mm.Policy.Merge.{heap_of, merge_left-first, merge_left-busy, merge_left-free}

-- The first block has the prologue on its left.
coalesce_left-first :
    (s : State) (n : ℕ) (r : List Block) (fs : List Ptr) (b : Ptr)
    → Core s (block b n false ∷ r) fs []
    → coalesce_left b s ≡ ok b s
unfolding coalesce_left
coalesce_left-first s n r fs b c =
    let g = cut s [] (block b n false) r fs [] c in
    let at : b ≡ s.heap + 24 = sym g.left in
    rw (
      decr-eq 8 b (omega (arith, g)) (omega (arith, g)),
      incr-eq 8 s.mm_heap_first (omega (arith, g, c.first)),
      ==-true (b - 8) (s.mm_heap_first + 8) (omega (arith, at, c.first)),
    )

-- Any other block has a block on its left, whose footer says how it is.
pub coalesce_left-look :
    (s : State) (l r : List Block) (a na : ℕ) (busy : Bool) (nb : ℕ) (fs : List Ptr)
    → Core s (l ++ block a na busy ∷ block (a + na) nb false ∷ r) fs []
    → coalesce_left (a + na) s ≡ (if busy then pure (a + na) else merge_left a (a + na)) s
unfolding coalesce_left
coalesce_left-look s l r a na busy nb fs c =
    let g = cut s l (block a na busy) (block (a + na) nb false ∷ r) fs [] c in
    let back : a + na - na ≡ a = omega arith in
    let foot : a + na - 8 ≡ a + (na - 8) = omega (arith, g) in
    rw (
      decr-eq 8 (a + na) (omega (arith, g)) (omega (arith, g)),
      incr-eq 8 s.mm_heap_first (omega (arith, g, c.first)),
      ==-false (a + na - 8) (s.mm_heap_first + 8) (omega (arith, g, c.first)),
      foot,
      load-ok (a + (na - 8)) s (omega (arith, g)),
      g.footer,
      get_size_from_val-tag na busy g.even,
      decr-eq na (a + na) (omega arith) (omega (arith, g)),
      back,
      is_allocated-ok a na busy s (Cut-Room g) g.header,
    )

-- The outcome of `coalesce_left` on the free block at `b` between the rows `l` and `r`.
pub record LeftDone (s : State) (l : List Block) (b n : ℕ) (r : List Block) (fs : List Ptr)
    : Type 0 where
  pub l' : List Block
  pub a : Ptr
  pub k : ℕ
  pub fs' : List Ptr
  pub mem : Mem
  pub head : Ptr
  pub run : coalesce_left b s ≡ ok a (relinked s mem head)
  pub core : Core (relinked s mem head) (l' ++ block a k false ∷ r) fs' []
  pub closed : ClosedLeft l'
  pub same_used : used l' ≡ used l
  pub policy :
      Policy.merge_left b (heap_of (l ++ block b n false ∷ r) fs s.mm_heap_last)
      ≡ (a, heap_of (l' ++ block a k false ∷ r) fs' s.mm_heap_last)
  pub keeps : Keeps (used l ++ used r) s.mem mem

left-first :
    (s : State) (b n : ℕ) (r : List Block) (fs : List Ptr)
    → Core s (block b n false ∷ r) fs []
    → LeftDone s [] b n r fs
left-first s b n r fs c = record {
  l' = [];
  a = b;
  k = n;
  fs' = fs;
  mem = s.mem;
  head = s.mm_free_head;
  run = coalesce_left-first s n r fs b c;
  core = c;
  closed = tt;
  same_used = refl;
  policy = merge_left-first (s.heap + 24) fs s.mm_heap_last (block b n false) r c.tiled;
  keeps = λ q i. refl;
}

module _ (s : State) (l : List Block) (a na n : ℕ) (r : List Block) (fs : List Ptr) where
  left-busy :
      Core s ((l ++ block a na true ∷ []) ++ block (a + na) n false ∷ r) fs []
      → Coalesced (l ++ block a na true ∷ [])
      → LeftDone s (l ++ block a na true ∷ []) (a + na) n r fs
  left-busy c co =
      let flat = append_assoc l (block a na true ∷ []) (block (a + na) n false ∷ r) in
      let d = subst (λ w. Core s w fs []) flat c in
      record {
        l' = l ++ block a na true ∷ [];
        a = a + na;
        k = n;
        fs' = fs;
        mem = s.mem;
        head = s.mm_free_head;
        run = coalesce_left-look s l r a na true n fs d;
        core = c;
        closed = ClosedLeft-busy l (block a na true) refl co;
        same_used = refl;
        policy =
            subst
              (λ w.
                Policy.merge_left (a + na) (heap_of w fs s.mm_heap_last)
                ≡ (a + na, heap_of w fs s.mm_heap_last))
              (sym flat)
              (merge_left-busy (s.heap + 24) fs s.mm_heap_last l a na (block (a + na) n false) r
                d.tiled);
        keeps = λ q i. refl;
      }

  used-left : used l ≡ used (l ++ block a na false ∷ [])
  used-left = sym (used-append l (block a na false ∷ []) ∙ append-nil (used l))

  left-merge :
      Core s ((l ++ block a na false ∷ []) ++ block (a + na) n false ∷ r) fs []
      → Coalesced (l ++ block a na false ∷ [])
      → LeftDone s (l ++ block a na false ∷ []) (a + na) n r fs
  left-merge c co =
      let flat = append_assoc l (block a na false ∷ []) (block (a + na) n false ∷ r) in
      let d = subst (λ w. Core s w fs []) flat c in
      let g = cut s l (block a na false) (block (a + na) n false ∷ r) fs [] d in
      let (m, run, core, keeps) = merge_left_lem s l r a na n fs d in
      record {
        l' = l;
        a = a;
        k = na + n;
        fs' = a ∷ erase a (erase (a + na) fs);
        mem = m;
        head = a;
        run = coalesce_left-look s l r a na false n fs d ∙ run;
        core = core;
        closed = ClosedLeft-free l (block a na false) refl co;
        same_used = used-left;
        policy =
            subst
              (λ w. Policy.merge_left (a + na) (heap_of w fs s.mm_heap_last) ≡ (
                a,
                heap_of (l ++ block a (na + n) false ∷ r) (a ∷ erase a (erase (a + na) fs))
                    s.mm_heap_last,
              ))
              (sym flat)
              (merge_left-free (s.heap + 24) fs s.mm_heap_last l a na (block (a + na) n false) r
                d.tiled g.left);
        keeps = subst (λ w. Keeps (w ++ used r) s.mem m) used-left keeps;
      }

  left-next :
      (busy : Bool)
      → Core s ((l ++ block a na busy ∷ []) ++ block (a + na) n false ∷ r) fs []
      → Coalesced (l ++ block a na busy ∷ [])
      → LeftDone s (l ++ block a na busy ∷ []) (a + na) n r fs
  left-next true = left-busy
  left-next false = left-merge

-- `coalesce_left` does what the policy says, and leaves no free block on the left.
pub left_lem :
    (s : State) (l : List Block) (b n : ℕ) (r : List Block) (fs : List Ptr)
    → Core s (l ++ block b n false ∷ r) fs []
    → Coalesced l
    → LeftDone s l b n r fs
left_lem s l b n r fs c co = elim (snoc_cases l) [
  | inl e ↦
      subst (λ w. LeftDone s w b n r fs) (sym e)
        (left-first s b n r fs (subst (λ w. Core s (w ++ block b n false ∷ r) fs []) e c))
  | inr (l₀, x, e) ↦
      let d = subst (λ w. Core s (w ++ block b n false ∷ r) fs []) e c in
      let flat = append_assoc l₀ (x ∷ []) (block b n false ∷ r) in
      let g = cut s l₀ x (block b n false ∷ r) fs [] (subst (λ w. Core s w fs []) flat d) in
      let next : b ≡ x.addr + x.size = g.right.0 in
      subst (λ w. LeftDone s w b n r fs) (sym e)
        (subst (λ w. LeftDone s (l₀ ++ x ∷ []) w n r fs) (sym next)
          (left-next s l₀ x.addr x.size n r fs x.alloc
            (subst (λ w. Core s ((l₀ ++ x ∷ []) ++ block w n false ∷ r) fs []) next d)
            (subst Coalesced e co)))
]
