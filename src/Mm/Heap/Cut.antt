-- ===== src/Mm/Heap/Cut.antt =====
-- The heap seen from one of its blocks: the rows on both sides, the block's tags, and its room.
use malloc_for_c.Prelude.{
  ℕ, ◌+◌, ◌-◌, ◌%◌, ◌^◌, ◌≤◌, ◌<◌, ◌≡◌, ap, inl, inr, false, List, [], ◌∷◌, ◌++◌, arith, count,
  count_self, Bool-cases, eq_cases,
}
use malloc_for_c.Memory.{Ptr, word}
use malloc_for_c.Machine.{State}
use malloc_for_c.Mm.Block.Access.{Room}
use malloc_for_c.Mm.Heap.{Block, block, tag, Tiled, used, Core}
use malloc_for_c.Mm.Heap.Tiling.{Tiled-le, Tiled-split, free_count, free_count-le-one, used-append}
use malloc_for_c.Mm.Heap.Frame.{Tags-split}

pub record Cut (s : State) (l : List Block) (b : Block) (r : List Block) : Type 0 where
  pub left : Tiled (s.heap + 24) l b.addr
  pub right : Tiled (b.addr + b.size) r s.mm_heap_last
  pub large : 32 ≤ b.size
  pub even : b.size % 16 ≡ 0
  pub low : s.heap + 24 ≤ b.addr
  pub high : b.addr + b.size ≤ s.mm_heap_last
  pub top : s.mm_heap_last + 16 ≤ s.mem_max_addr
  pub small : s.mem_max_addr < 2 ^ 64
  pub header : word s.mem b.addr ≡ tag b
  pub footer : word s.mem (b.addr + (b.size - 8)) ≡ tag b

pub cut :
    (s : State) (l : List Block) (b : Block) (r : List Block) (fs out : List Ptr)
    → Core s (l ++ b ∷ r) fs out
    → Cut s l b r
cut s l b r fs out c =
    let (left, right) = Tiled-split (s.heap + 24) l b r s.mm_heap_last c.tiled in
    let (_, tags) = Tags-split s.mem l (b ∷ r) c.tags in
    record {
      left = left;
      right = right.3;
      large = right.1;
      even = right.2;
      low = Tiled-le (s.heap + 24) l b.addr left;
      high = Tiled-le (b.addr + b.size) r s.mm_heap_last right.3;
      top = omega (arith, c.brk, c.room);
      small = omega (arith, c.fits);
      header = tags.0;
      footer = tags.1;
    }

-- A mapped block has the room that the accessors want.
pub Cut-Room :
    {s : State} {l : List Block} {b : Block} {r : List Block} → Cut s l b r → Room s b.addr b.size
Cut-Room c = omega arith

-- A block that waits to be listed is not in the list.
pub not_listed :
    (s : State) (bs : List Block) (fs out : List Ptr) (x : Ptr)
    → Core s bs fs (x ∷ out)
    → count x fs ≡ 0
not_listed s bs fs out x c = omega (
  arith,
  c.listed x,
  count_self x out,
  free_count-le-one x (s.heap + 24) bs s.mm_heap_last c.tiled,
)

pub used-free :
    (l : List Block) (p n : ℕ) (r : List Block) → used (l ++ block p n false ∷ r) ≡ used l ++ used r
used-free l p n r = used-append l (block p n false ∷ r)

-- A free block stands in the row where its address does.
pub free_block :
    (x : Ptr) (bs : List Block)
    → 0 < free_count x bs
    → (l : List Block) × (n : ℕ) × (r : List Block) × (bs ≡ l ++ block x n false ∷ r)
free_block x [] h = absurd (omega arith)
free_block x (b ∷ bs) h = elim (Bool-cases b.alloc) [
  | inl busy ↦ let (l, n, r, e) = free_block x bs (ground arith) in (b ∷ l, n, r, ap (λ w. b ∷ w) e)
  | inr idle ↦ elim (eq_cases x b.addr) [
    | inl here ↦ ([], b.size, bs, ground arith)
    | inr there ↦
        let (l, n, r, e) = free_block x bs (ground arith) in (b ∷ l, n, r, ap (λ w. b ∷ w) e)
  ]
]
