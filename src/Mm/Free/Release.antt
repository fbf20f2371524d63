-- ===== src/Mm/Free/Release.antt =====
-- `free` against the policy.
use malloc_for_c.Prelude.{
  ℕ, ◌+◌, ◌-◌, ◌^◌, ◌<◌, ◌≡◌, ◌≢◌, refl, sym, ap, ◌∙◌, subst, true, false, List, [], ◌∷◌, ◌++◌,
  arith, ==-false,
}
use malloc_for_c.Memory.{Ptr, Mem}
use malloc_for_c.Machine.{State, Cmd, ok, and_then, ◌>>=◌, ◌>>◌}
use malloc_for_c.Mm.Block.{get_size, set_header, set_footer}
use malloc_for_c.Mm.Block.Access.{get_size-ok, decr-eq}
use malloc_for_c.Mm.FreeList.{block_append}
use malloc_for_c.Mm.Alloc.Malloc.{ensure_init-done}
use malloc_for_c.Mm.Free.{coalesce_left, coalesce, free}
use malloc_for_c.Mm.Free.Left.{left_lem}
use malloc_for_c.Mm.Free.Right.{right_cmd, right_lem}
use malloc_for_c.Mm.Heap.{Block, block, used, Keeps, Core, Coalesced}
use malloc_for_c.Mm.Heap.Frame.{InPayload-insert}
use malloc_for_c.Mm.Heap.Relink.{relinked, append_lem}
use malloc_for_c.Mm.Heap.Replace.{replace_lem}
use malloc_for_c.Mm.Heap.Neighbours.{Coalesced-split, Coalesced-between}
use malloc_for_c.Mm.Heap.Cut.{cut, Cut-Room, used-free}
use malloc_for_c.Mm.Heap.Mark.{marked, marked-off, marked-Tags, mark_lem}
use malloc_for_c.Mm.Policy.{Heap, merge_left, merge_right, release, Represents}
use malloc_for_c.Mm.Policy.Cut.{set_free-cut}
use malloc_for_c.Mm.Policy.Merge.{heap_of}

coalesce-parts : (b : Ptr) (s : State) → coalesce b s ≡ and_then (coalesce_left b s) right_cmd
unfolding coalesce
coalesce-parts b s = refl

-- What `free` does with the address of a block.
abbrev mark_cmd : Ptr → Cmd (Unit {0})
mark_cmd b = do size ← get_size b; set_header b size false; set_footer b; block_append b; coalesce b

free-start :
    (s : State) (b : Ptr) → s.mm_heap_first ≢ 0 → b + 8 < 2 ^ 64 → free (b + 8) s ≡ mark_cmd b s
unfolding free
free-start s b ne lt =
    let back : b + 8 - 8 ≡ b = omega arith in
    rw (
      ensure_init-done s _ ne,
      ==-false (b + 8) 0 (omega arith),
      decr-eq 8 (b + 8) (omega arith) lt,
      back,
    )

module _ (s : State) (l : List Block) (b n : ℕ) (r : List Block) (fs : List Ptr) where
  -- The tags say free, and the block is listed.
  mark_free_lem :
      Core s (l ++ block b n true ∷ r) fs []
      → (m : Mem) × (mark_cmd b s ≡ coalesce b (relinked s m b))
        × Core (relinked s m b) (l ++ block b n false ∷ r) (b ∷ fs) []
        × Keeps (used l ++ used r) s.mem m
  mark_free_lem c =
      let g = cut s l (block b n true) r fs [] c in
      let m₁ : Mem = marked s.mem b n false in
      let (c₁, keeps₁) =
        replace_lem s l (block b n true ∷ []) (block b n false ∷ []) r fs [] (b ∷ []) m₁ b (b + n) c
          g.left (refl, g.large, g.even, refl) g.right
          (λ q h. marked-off s.mem b n false q (omega (arith, g)) h) (λ x h. refl)
          (λ x. omega arith) (marked-Tags s.mem b n false (omega (arith, g)) (omega (arith, g))) in
      let (m₂, run₂, c₂, keeps₂) =
        append_lem (record s { mem = m₁ }) (l ++ block b n false ∷ r) fs b [] c₁ in
      (
        m₂,
        rw (
          get_size-ok b n true s (Cut-Room g) g.header,
          mark_lem b n false s (do block_append b; coalesce b) (Cut-Room g) (omega (arith, g)),
          run₂,
        ),
        c₂,
        λ q i. keeps₂ q (InPayload-insert q l (block b n false ∷ []) r i) ∙ keeps₁ q i,
      )

  -- Both merges, by the policy.
  record Merged (h : Heap) : Type 0 where
    mem : Mem
    head : Ptr
    run : coalesce b s ≡ ok tt (relinked s mem head)
    heap : Represents (relinked s mem head) h
    keeps : Keeps (used l ++ used r) s.mem mem
    same_used : used h.blocks ≡ used l ++ used r

  coalesce_lem :
      Core s (l ++ block b n false ∷ r) fs []
      → Coalesced l
      → Coalesced r
      → Merged (merge_right (merge_left b (heap_of (l ++ block b n false ∷ r) fs s.mm_heap_last)))
  coalesce_lem c cl cr =
      let d = left_lem s l b n r fs c cl in
      let s₁ = relinked s d.mem d.head in
      let e = right_lem s₁ d.l' d.a d.k d.fs' r d.core cr in
      let h' : Heap = heap_of (d.l' ++ block d.a e.k' false ∷ e.r') e.fs' s.mm_heap_last in
      subst Merged (sym (ap merge_right d.policy ∙ e.policy)) (record {
        mem = e.mem;
        head = e.head;
        run = coalesce-parts b s ∙ ap (λ x. and_then x right_cmd) d.run ∙ e.run;
        heap = record {
          core = e.core;
          coalesced = Coalesced-between d.l' d.a e.k' e.r' d.closed e.closed;
          last = refl;
        };
        keeps = λ q i.
            subst (λ w. Keeps (w ++ used r) d.mem e.mem) d.same_used e.keeps q i ∙ d.keeps q i;
        same_used =
            used-free d.l' d.a e.k' e.r'
            ∙ ap (λ w. w ++ used e.r') d.same_used
            ∙ ap (λ w. used l ++ w) e.same_used;
      })

-- What `free` has done.
pub record Released (s : State) (x : Ptr) (h h' : Heap) (us : List (Ptr × ℕ)) : Type 0 where
  pub after : State
  pub run : free (x + 8) s ≡ ok tt after
  pub heap : Represents after h'
  pub keeps : Keeps us s.mem after.mem
  pub same_used : used h'.blocks ≡ us
  pub same_lo : after.heap ≡ s.heap
  pub same_max : after.mem_max_addr ≡ s.mem_max_addr
  pub same_first : after.mm_heap_first ≡ s.mm_heap_first
  pub same_brk : after.mem_brk ≡ s.mem_brk

release_at :
    (s : State) (l : List Block) (x n : ℕ) (r : List Block) (fs : List Ptr)
    → Core s (l ++ block x n true ∷ r) fs []
    → Coalesced (l ++ block x n true ∷ r)
    → let h = heap_of (l ++ block x n true ∷ r) fs s.mm_heap_last in
      Released s x h (release x h) (used l ++ used r)
unfolding release
release_at s l x n r fs c co =
    let g = cut s l (block x n true) r fs [] c in
    let (m, run, core, keeps) = mark_free_lem s l x n r fs c in
    let s₁ = relinked s m x in
    let (cl, cr) = Coalesced-split l (block x n true) r co in
    let d = coalesce_lem s₁ l x n r (x ∷ fs) core cl cr in
    let freed = set_free-cut (s.heap + 24) l x n true r g.left in
    record {
      after = relinked s d.mem d.head;
      run = free-start s x (omega (arith, c.first)) (omega (arith, g)) ∙ run ∙ d.run;
      heap = rw freed d.heap;
      keeps = λ q i. d.keeps q i ∙ keeps q i;
      same_used = rw freed d.same_used;
      same_lo = refl;
      same_max = refl;
      same_first = refl;
      same_brk = refl;
    }

-- In a state that represents a heap, `free` on the payload of a block in use ends in a state that
-- represents the heap of the abstract policy: the block is free, in front of the list, and merged
-- with each neighbour that is free. Exactly the other blocks are in use, they keep their bytes, and
-- the break and the bounds of the heap area stay.
pub free_refines :
    (s : State) (h : Heap) (l : List Block) (x n : ℕ) (r : List Block)
    → Represents s h
    → h.blocks ≡ l ++ block x n true ∷ r
    → Released s x h (release x h) (used l ++ used r)
free_refines s h l x n r v e =
    let at = λ (w : List Block) (z : Ptr).
      Released s x (heap_of w h.list z) (release x (heap_of w h.list z)) (used l ++ used r) in
    subst (λ z. at h.blocks z) v.last
      (subst (λ w. at w s.mm_heap_last) (sym e)
        (release_at s l x n r h.list (subst (λ w. Core s w h.list []) e v.core)
          (subst Coalesced e v.coalesced)))
