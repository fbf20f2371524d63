-- ===== src/Mm/Free/Merge.antt =====
-- The body of `coalesce_left`: two free neighbours become one free block at the front of the list.
use malloc_for_c.Prelude.{
  ℕ, ◌+◌, ◌%◌, ◌≤◌, ◌<◌, ◌≡◌, refl, ap, ◌∙◌, subst, false, List, [], ◌∷◌, ◌++◌, arith, count,
  count-append, count_self, count-split, add64-eq, add64,
}
use native.Mathlib.Nat.{add_comm, add_assoc}
use malloc_for_c.Memory.{Ptr, Mem, null, word}
use malloc_for_c.Machine.{State, Cmd, ok, pure, ◌>>=◌, ◌>>◌}
use malloc_for_c.Mm.Block.Access.{get_size-ok, tag_val}
use malloc_for_c.Mm.Block.{get_size, set_header, set_footer}
use malloc_for_c.Mm.FreeList.{block_append, block_remove}
use malloc_for_c.Mm.FreeList.Links.{first_or}
use malloc_for_c.Mm.Free.{merge_left}
use malloc_for_c.Mm.Heap.{Block, block, Tiled, used, Keeps, Core}
use malloc_for_c.Mm.Heap.Relink.{relinked, remove_lem, append_lem}
use malloc_for_c.Mm.Heap.Replace.{replace_lem}
use malloc_for_c.Mm.Heap.Frame.{Tags-split, InPayload-insert}
use malloc_for_c.Mm.Heap.Tiling.{Tiled-le, free_count-append, free_count-le-one}
use malloc_for_c.Mm.Heap.Cut.{cut, Cut-Room}
use malloc_for_c.Mm.Heap.Mark.{marked, marked-off, marked-Tags, mark_lem}
use malloc_for_c.Mm.Policy.{erase}
use malloc_for_c.Mm.Policy.Cut.{erase-cut}

-- What is listed does not wait to be listed.
pub listed-once :
    (s : State) (bs : List Block) (fs out : List Ptr) (x : Ptr)
    → Core s bs fs out
    → 0 < count x fs
    → count x out ≡ 0
listed-once s bs fs out x c h =
    omega (arith, c.listed x, free_count-le-one x (s.heap + 24) bs s.mm_heap_last c.tiled)

-- A listed block is removed from where `erase` drops it.
pub remove_listed :
    (s : State) (bs : List Block) (fs out : List Ptr) (x : Ptr)
    → Core s bs fs out
    → 0 < count x fs
    → (m : Mem) × (block_remove x s ≡ ok tt (relinked s m (first_or null (erase x fs))))
      × Core (relinked s m (first_or null (erase x fs))) bs (erase x fs) (x ∷ out)
      × Keeps (used bs) s.mem m
remove_listed s bs fs out x c h =
    let (l, r, e) = count-split x fs h in
    let once : count x l ≡ 0 = omega (
      arith,
      c.listed x,
      ap (count x) e,
      count-append x l (x ∷ r),
      count_self x r,
      free_count-le-one x (s.heap + 24) bs s.mm_heap_last c.tiled,
    ) in
    let dropped : erase x fs ≡ l ++ r = ap (erase x) e ∙ erase-cut x l r once in
    rw dropped (remove_lem s bs l x r out (subst (λ w. Core s bs w out) e c))

-- The rest of the body once both blocks are out of the list.
abbrev fuse_cmd : Ptr → Ptr → Cmd Ptr
fuse_cmd a b = do
  size ← get_size b
  left_size ← get_size a
  set_header a (add64 size left_size) false
  set_footer a
  block_append a
  pure a

module _ (s : State) (l r : List Block) (a na nb : ℕ) where
  abbrev pair : List Block
  pair = block a na false ∷ block (a + na) nb false ∷ []

  -- The header of the right one, and the row behind it.
  right_part :
      (fs out : List Ptr)
      → Core s (l ++ (pair ++ r)) fs out
      → (word s.mem (a + na) ≡ tag_val nb false)
        × (32 ≤ nb)
        × (nb % 16 ≡ 0)
        × Tiled (a + na + nb) r s.mm_heap_last
  right_part fs out c =
      let g = cut s l (block a na false) (block (a + na) nb false ∷ r) fs out c in
      let tags = (Tags-split s.mem l (pair ++ r) c.tags).1 in
      (tags.2.0, g.right.1, g.right.2, g.right.3)

  fuse_lem :
      (fs : List Ptr)
      → Core s (l ++ (pair ++ r)) fs (a ∷ (a + na) ∷ [])
      → (m : Mem) × (fuse_cmd a (a + na) s ≡ ok a (relinked s m a))
        × Core (relinked s m a) (l ++ block a (na + nb) false ∷ r) (a ∷ fs) []
        × Keeps (used l ++ used r) s.mem m
  fuse_lem fs c =
      let g = cut s l (block a na false) (block (a + na) nb false ∷ r) fs _ c in
      let (header, large, even, behind) = right_part fs _ c in
      let le = Tiled-le (a + na + nb) r s.mm_heap_last behind in
      let n : ℕ = na + nb in
      let m₃ : Mem = marked s.mem a n false in
      let (c₃, keeps₃) =
        replace_lem s l pair (block a n false ∷ []) r fs (a ∷ (a + na) ∷ []) (a ∷ []) m₃ a (a + n) c
          g.left (refl, omega (arith, g), omega (arith, g), refl)
          (subst (λ w. Tiled w r s.mm_heap_last) (add_assoc a na nb) behind)
          (λ q h. marked-off s.mem a n false q (omega (arith, g)) h)
          (λ x h. listed-once s (l ++ (pair ++ r)) fs (a ∷ (a + na) ∷ []) x c h) (λ x. omega arith)
          (marked-Tags s.mem a n false (omega (arith, g)) (omega (arith, g))) in
      let (m₄, run₄, c₄, keeps₄) =
        append_lem (record s { mem = m₃ }) (l ++ (block a n false ∷ r)) fs a [] c₃ in
      (
        m₄,
        rw (
          get_size-ok (a + na) nb false s (omega (arith, g)) header,
          get_size-ok a na false s (Cut-Room g) g.header,
          add64-eq nb na (omega (arith, g)),
          add_comm nb na,
          mark_lem a n false s (do block_append a; pure a) (omega (arith, g)) (omega (arith, g)),
          run₄,
        ),
        c₄,
        λ q i. keeps₄ q (InPayload-insert q l (block a n false ∷ []) r i) ∙ keeps₃ q i,
      )

  -- Both blocks are listed, if no other one waits.
  pair-listed :
      (fs : List Ptr) → Core s (l ++ (pair ++ r)) fs [] → (0 < count a fs) × (0 < count (a + na) fs)
  pair-listed fs c = (
    ground (arith, c.listed a, free_count-append a l (pair ++ r)),
    ground (arith, c.listed (a + na), free_count-append (a + na) l (pair ++ r)),
  )

  left-listed : (fs : List Ptr) → Core s (l ++ (pair ++ r)) fs ((a + na) ∷ []) → 0 < count a fs
  left-listed fs c =
      let g = cut s l (block a na false) (block (a + na) nb false ∷ r) fs _ c in
      ground (arith, c.listed a, free_count-append a l (pair ++ r))

module _ (s : State) (l r : List Block) (a na nb : ℕ) (fs : List Ptr)
    (c : Core s (l ++ block a na false ∷ block (a + na) nb false ∷ r) fs []) where
  -- Two free neighbours become one at the address of the left one, in front of the list.
  pub merge_left_lem :
      (m : Mem) × (merge_left a (a + na) s ≡ ok a (relinked s m a))
      × Core
          (relinked s m a)
          (l ++ block a (na + nb) false ∷ r)
          (a ∷ erase a (erase (a + na) fs))
          []
      × Keeps (used l ++ used r) s.mem m
  unfolding merge_left
  merge_left_lem =
      let bs = l ++ (pair s l r a na nb ++ r) in
      let both = pair-listed s l r a na nb fs c in
      let (m₁, run₁, c₁, keeps₁) = remove_listed s bs fs [] (a + na) c both.1 in
      let fs₁ = erase (a + na) fs in
      let s₁ = relinked s m₁ (first_or null fs₁) in
      let (m₂, run₂, c₂, keeps₂) =
        remove_listed s₁ bs fs₁ ((a + na) ∷ []) a c₁ (left-listed s₁ l r a na nb fs₁ c₁) in
      let s₂ = relinked s₁ m₂ (first_or null (erase a fs₁)) in
      let (m₃, run₃, c₃, keeps₃) = fuse_lem s₂ l r a na nb (erase a fs₁) c₂ in
      (
        m₃,
        rw (run₁, run₂) run₃,
        c₃,
        λ q i.
            let j = InPayload-insert q l (pair s l r a na nb) r i in
            keeps₃ q i ∙ keeps₂ q j ∙ keeps₁ q j,
      )
