-- ===== src/Mm/Alloc/Split.antt =====
-- `split` cuts a free block: the front is handed out, and the rest is a new free block at the front
-- of the free list.
use malloc_for_c.Prelude.{
  ℕ, ◌+◌, ◌-◌, ◌%◌, ◌^◌, ◌≤◌, ◌<◌, ◌≡◌, refl, ◌∙◌, ◌⊎◌, inl, true, false, List, [], ◌∷◌, ◌++◌,
  arith, count-single, sub64-eq, sub64,
}
use malloc_for_c.Memory.{Ptr, Mem, null}
use malloc_for_c.Machine.{State, Cmd, ok, pure, ◌>>◌}
use malloc_for_c.Mm.Block.{set_header, set_footer, incr_pointer}
use malloc_for_c.Mm.Block.Access.{get_size-ok, incr-eq}
use malloc_for_c.Mm.FreeList.{block_append}
use malloc_for_c.Mm.FreeList.Links.{first_or}
use malloc_for_c.Mm.Alloc.{split}
use malloc_for_c.Mm.Heap.{Block, block, Tiled, Tags, used, Keeps, Core}
use malloc_for_c.Mm.Heap.Relink.{relinked, remove_lem, append_lem}
use malloc_for_c.Mm.Heap.Replace.{replace_lem}
use malloc_for_c.Mm.Heap.Frame.{Tags-append, Tags-same, InPayload-insert}
use malloc_for_c.Mm.Heap.Cut.{cut, Cut-Room, not_listed, used-free}
use malloc_for_c.Mm.Heap.Mark.{marked, marked-off, marked-Tags, mark_lem}

-- The memory after the four tags are written.
abbrev cut_mem : Mem → Ptr → ℕ → ℕ → Mem
cut_mem m p k n = marked (marked m p k true) (p + k) (n - k) false

cut_mem-off :
    (m : Mem) (p k n a : ℕ) → 16 ≤ k → k + 16 ≤ n → (a < p) ⊎ (p + n ≤ a) → cut_mem m p k n a ≡ m a
cut_mem-off m p k n a hk hn h =
    marked-off _ (p + k) (n - k) false a (omega arith) (omega arith)
    ∙ marked-off m p k true a hk (omega arith)

cut_mem-Tags :
    (m : Mem) (p k n : ℕ)
    → 32 ≤ k
    → k + 16 ≤ n
    → n + 1 < 2 ^ 64
    → k % 16 ≡ 0
    → Tags (cut_mem m p k n) (block p k true ∷ block (p + k) (n - k) false ∷ [])
cut_mem-Tags m p k n hk hn lt e =
    let m₁ : Mem = marked m p k true in
    Tags-append (cut_mem m p k n) (block p k true ∷ []) (block (p + k) (n - k) false ∷ [])
      (Tags-same m₁ (cut_mem m p k n) p (block p k true ∷ []) (p + k) (refl, hk, e, refl)
        (λ a lo hi. marked-off m₁ (p + k) (n - k) false a (omega arith) (inl hi))
        (marked-Tags m p k true (omega arith) (omega arith)))
      (marked-Tags m₁ (p + k) (n - k) false (omega arith) (omega arith))

module _ (s : State) (l r : List Block) (p n k : ℕ) (fl fr : List Ptr)
    (c : Core s (l ++ block p n false ∷ r) (fl ++ p ∷ fr) []) (least : 32 ≤ k) (even : k % 16 ≡ 0)
    (fits : k + 32 ≤ n) where
  abbrev both : List Block
  both = block p k true ∷ block (p + k) (n - k) false ∷ []

  -- What follows the second pair of tags.
  abbrev finish : Cmd Ptr
  finish = do block_append (p + k); pure p

  pub split_lem :
      (m : Mem) × (split p k s ≡ ok p (relinked s m (p + k)))
      × Core
          (relinked s m (p + k))
          (l ++ block p k true ∷ block (p + k) (n - k) false ∷ r)
          ((p + k) ∷ (fl ++ fr))
          []
      × Keeps (used l ++ used r) s.mem m
  unfolding split
  split_lem =
      let (m₁, run, c₁, keeps) = remove_lem s (l ++ block p n false ∷ r) fl p fr [] c in
      let s₁ = relinked s m₁ (first_or null (fl ++ fr)) in
      let g = cut s₁ l (block p n false) r (fl ++ fr) (p ∷ []) c₁ in
      let none = not_listed s₁ (l ++ block p n false ∷ r) (fl ++ fr) [] p c₁ in
      let m₂ : Mem = cut_mem m₁ p k n in
      let s₂ : State = record s₁ { mem = m₂ } in
      let tiles : Tiled p both (p + n) =
        (refl, least, even, (refl, omega (arith, g.large), omega (arith, g.even), omega arith)) in
      let (c₂, keeps₂) =
        replace_lem s₁ l (block p n false ∷ []) both r (fl ++ fr) (p ∷ []) ((p + k) ∷ []) m₂ p
          (p + n) c₁ g.left tiles g.right
          (λ a h. cut_mem-off m₁ p k n a (omega arith) (omega arith) h)
          (λ x h. count-single x p (fl ++ fr) none h) (λ x. omega arith)
          (cut_mem-Tags m₁ p k n least (omega arith) (omega (arith, g)) even) in
      let (m₃, run₃, c₃, keeps₃) = append_lem s₂ (l ++ (both ++ r)) (fl ++ fr) (p + k) [] c₂ in
      (
        m₃,
        rw (
          run,
          get_size-ok p n false s₁ (Cut-Room g) g.header,
          mark_lem p k true s₁
              (do
                let split_free = incr_pointer k p
                set_header split_free (sub64 n k) false
                set_footer split_free
                block_append split_free
                pure p)
              (omega (arith, g)) (omega (arith, g)),
          incr-eq k p (omega (arith, g)),
          sub64-eq n k (omega arith) (omega (arith, g)),
          mark_lem (p + k) (n - k) false (record s₁ { mem = marked m₁ p k true }) finish
              (omega (arith, g)) (omega (arith, g)),
          run₃,
        ),
        c₃,
        λ a i.
            keeps₃ a (InPayload-insert a l both r i)
            ∙ keeps₂ a i
            ∙ keeps a (rw (used-free l p n r) i),
      )
