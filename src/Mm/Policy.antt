-- ===== src/Mm/Policy.antt =====
-- What mm.c promises about its blocks, without memory, links or tags: first fit over a free list in
-- last-in first-out order, splitting, and merging with both neighbours.
pub mod Cut
pub mod Merge
use malloc_for_c.Prelude.{
  ℕ, ◌+◌, ◌-◌, ◌≡◌, Bool, true, false, Option, none, some, List, [], ◌∷◌, ◌++◌, leb, ◌==◌,
  if◌then◌else◌,
}
use malloc_for_c.Memory.{Ptr}
use malloc_for_c.Machine.{State}
use malloc_for_c.Mm.Heap.{Block, block, Core, Coalesced}

-- The blocks in the order of their addresses, the free list, and the address behind the last block.
pub record Heap : Type 0 where
  pub blocks : List Block
  pub list : List Ptr
  pub last : Ptr

-- The size of the block at `x`.
unfoldable pub size_at : Ptr → List Block → ℕ
size_at x [] = 0
size_at x (b ∷ bs) = if b.addr == x then b.size else size_at x bs

-- The first listed block that holds `n` bytes.
unfoldable pub first_fit : List Block → ℕ → List Ptr → Option Ptr
first_fit bs n [] = none
first_fit bs n (x ∷ xs) = if leb n (size_at x bs) then some x else first_fit bs n xs

unfoldable pub erase : Ptr → List Ptr → List Ptr
erase x [] = []
erase x (y ∷ ys) = if y == x then ys else y ∷ erase x ys

-- The block at `x` is handed out; what is left of it is cut off if it can be a block with a payload.
unfoldable pub allocate : ℕ → Ptr → List Block → List Block
allocate n x [] = []
allocate n x (b ∷ bs) =
    if b.addr == x
    then (if leb (n + 32) b.size
        then block x n true ∷ block (x + n) (b.size - n) false ∷ bs
        else block x b.size true ∷ bs)
    else b ∷ allocate n x bs

unfoldable pub relist : ℕ → Ptr → ℕ → List Ptr → List Ptr
unfolding erase
relist n x size list = if leb (n + 32) size then (x + n) ∷ erase x list else erase x list

-- The listed block at `x` serves a request for `n` bytes.
unfoldable pub hand_out : ℕ → Ptr → Heap → Heap
unfolding allocate relist size_at
hand_out n x h = record h {
  blocks = allocate n x h.blocks;
  list = relist n x (size_at x h.blocks) h.list;
}

-- A new block of `n` bytes behind the last one.
unfoldable pub grow : ℕ → Heap → Heap
grow n h = record h { blocks = h.blocks ++ block h.last n true ∷ []; last = h.last + n }

-- A block of `n` bytes in all: the first fit, or a new one.
unfoldable pub obtain : ℕ → Heap → Ptr × Heap
unfolding first_fit hand_out grow
obtain n h = elim (first_fit h.blocks n h.list) [
  | none ↦ (h.last, grow n h)
  | some x ↦ (x, hand_out n x h)
]

unfoldable pub set_free : Ptr → List Block → List Block
set_free x [] = []
set_free x (b ∷ bs) = if b.addr == x then block x b.size false ∷ bs else b ∷ set_free x bs

-- The address of the left neighbour of the block at `x`, if it is free.
unfoldable pub left_free : Ptr → List Block → Option Ptr
left_free x [] = none
left_free x (b ∷ []) = none
left_free x (b ∷ c ∷ bs) =
    if c.addr == x then (if b.alloc then none else some b.addr) else left_free x (c ∷ bs)

-- The same of the right neighbour.
unfoldable pub right_free : Ptr → List Block → Option Ptr
right_free x [] = none
right_free x (b ∷ []) = none
right_free x (b ∷ c ∷ bs) =
    if b.addr == x then (if c.alloc then none else some c.addr) else right_free x (c ∷ bs)

-- The block at `a` takes in its right neighbour.
unfoldable pub fuse : Ptr → List Block → List Block
fuse a [] = []
fuse a (b ∷ []) = b ∷ []
fuse a (b ∷ c ∷ bs) =
    if b.addr == a then block a (b.size + c.size) false ∷ bs else b ∷ fuse a (c ∷ bs)

-- The free block at `x` is merged into the free block at `a` on its left, which moves to the front.
unfoldable pub merge : Ptr → Ptr → Heap → Heap
unfolding fuse erase
merge a x h = record h { blocks = fuse a h.blocks; list = a ∷ erase a (erase x h.list) }

-- With the left neighbour if it is free; the result is where the block then starts.
unfoldable pub merge_left : Ptr → Heap → Ptr × Heap
unfolding left_free merge
merge_left x h = elim (left_free x h.blocks) [ none ↦ (x, h) | some a ↦ (a, merge a x h) ]

unfoldable pub merge_right : Ptr × Heap → Heap
unfolding right_free merge
merge_right (x, h) = elim (right_free x h.blocks) [ none ↦ h | some c ↦ merge x c h ]

-- The block at `x` becomes free, goes to the front of the list, and is merged with both neighbours.
unfoldable pub release : Ptr → Heap → Heap
unfolding set_free merge_left merge_right
release x h =
    merge_right (merge_left x (record h { blocks = set_free x h.blocks; list = x ∷ h.list }))

-- Between two calls of the allocator the state holds the blocks of the abstract heap, its list is
-- the linked free list, and no two free blocks are neighbours.
pub record Represents (s : State) (h : Heap) : Type 0 where
  pub core : Core s h.blocks h.list []
  pub coalesced : Coalesced h.blocks
  pub last : s.mm_heap_last ≡ h.last
