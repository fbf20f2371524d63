-- ===== src/Mm/Alloc/Take.antt =====
-- `find_fit` hands out a whole block: it leaves the free list, and its tags say allocated.
use malloc_for_c.Prelude.{
  ℕ, ◌+◌, ◌≡◌, refl, ◌∙◌, true, false, List, [], ◌∷◌, ◌++◌, arith, count-single,
}
use malloc_for_c.Memory.{Ptr, Mem, null}
use malloc_for_c.Machine.{State, ok, pure}
use malloc_for_c.Mm.FreeList.Links.{first_or}
use malloc_for_c.Mm.Alloc.{take_whole}
use malloc_for_c.Mm.Block.Access.{get_size-ok}
use malloc_for_c.Mm.Heap.{Block, block, used, Keeps, Core}
use malloc_for_c.Mm.Heap.Relink.{relinked, remove_lem}
use malloc_for_c.Mm.Heap.Replace.{replace_lem}
use malloc_for_c.Mm.Heap.Cut.{cut, Cut-Room, not_listed, used-free}
use malloc_for_c.Mm.Heap.Mark.{marked, marked-off, marked-Tags, mark_lem}

module _ (s : State) (l r : List Block) (p n : ℕ) (fl fr : List Ptr)
    (c : Core s (l ++ block p n false ∷ r) (fl ++ p ∷ fr) []) where
  abbrev after : List Ptr
  after = fl ++ fr

  pub take_whole_lem :
      (m : Mem) × (take_whole p s ≡ ok p (relinked s m (first_or null (fl ++ fr))))
      × Core (relinked s m (first_or null (fl ++ fr))) (l ++ block p n true ∷ r) (fl ++ fr) []
      × Keeps (used l ++ used r) s.mem m
  unfolding take_whole
  take_whole_lem =
      let (m₁, run, c₁, keeps) = remove_lem s (l ++ block p n false ∷ r) fl p fr [] c in
      let s₁ = relinked s m₁ (first_or null (fl ++ fr)) in
      let k = cut s₁ l (block p n false) r (fl ++ fr) (p ∷ []) c₁ in
      let room = Cut-Room k in
      let none = not_listed s₁ (l ++ block p n false ∷ r) (fl ++ fr) [] p c₁ in
      let m₂ : Mem = marked m₁ p n true in
      let (c₂, keeps₂) =
        replace_lem s₁ l (block p n false ∷ []) (block p n true ∷ []) r (fl ++ fr) (p ∷ []) [] m₂ p
          (p + n) c₁ k.left (refl, k.large, k.even, refl) k.right
          (λ a h. marked-off m₁ p n true a (omega arith) h)
          (λ x h. count-single x p (fl ++ fr) none h) (λ x. omega arith)
          (marked-Tags m₁ p n true (omega arith) (omega arith)) in
      (
        m₂,
        rw (
          run,
          get_size-ok p n false s₁ room k.header,
          mark_lem p n true s₁ (pure p) room (omega arith),
        ),
        c₂,
        λ a i. keeps₂ a i ∙ keeps a (rw (used-free l p n r) i),
      )
