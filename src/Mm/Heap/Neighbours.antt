-- ===== src/Mm/Heap/Neighbours.antt =====
-- Changes of a row that leave no two free neighbours.
use malloc_for_c.Prelude.{ℕ, ◌≡◌, inl, inr, true, false, List, [], ◌∷◌, ◌++◌, arith}
use malloc_for_c.Mm.Heap.{Block, block, Coalesced}

-- Any block may become an allocated one.
pub Coalesced-busy :
    (l : List Block) (b c : Block) (r : List Block)
    → c.alloc ≡ true
    → Coalesced (l ++ b ∷ r)
    → Coalesced (l ++ c ∷ r)
Coalesced-busy [] b c [] e h = tt
Coalesced-busy [] b c (x ∷ r) e h = (inl e, h.1)
Coalesced-busy (x ∷ []) b c r e h = (inr e, Coalesced-busy [] b c r e h.1)
Coalesced-busy (x ∷ y ∷ l) b c r e h = (h.0, Coalesced-busy (y ∷ l) b c r e h.1)

-- A free block may be cut into an allocated front and a free rest.
pub Coalesced-cut :
    (l : List Block) (p k : ℕ) (b : Block) (q n : ℕ) (r : List Block)
    → b.alloc ≡ true
    → Coalesced (l ++ block p k false ∷ r)
    → Coalesced (l ++ b ∷ block q n false ∷ r)
Coalesced-cut [] p k b q n [] e h = (inl e, tt)
Coalesced-cut [] p k b q n (x ∷ r) e h = (inl e, h)
Coalesced-cut (x ∷ []) p k b q n r e h = (inr e, Coalesced-cut [] p k b q n r e h.1)
Coalesced-cut (x ∷ y ∷ l) p k b q n r e h = (h.0, Coalesced-cut (y ∷ l) p k b q n r e h.1)

-- An allocated block may follow at the end.
pub Coalesced-last :
    (l : List Block) (b : Block) → b.alloc ≡ true → Coalesced l → Coalesced (l ++ b ∷ [])
Coalesced-last [] b e h = tt
Coalesced-last (x ∷ []) b e h = (inr e, tt)
Coalesced-last (x ∷ y ∷ l) b e h = (h.0, Coalesced-last (y ∷ l) b e h.1)

-- A row that may stand in front of a free block: its last block is allocated.
abbrev pub ClosedLeft : List Block → Type 0
ClosedLeft l = Coalesced (l ++ block 0 0 false ∷ [])

-- A row that may stand behind a free block.
abbrev pub ClosedRight : List Block → Type 0
ClosedRight r = Coalesced (block 0 0 false ∷ r)

pub ClosedLeft-busy :
    (l : List Block) (b : Block)
    → b.alloc ≡ true
    → Coalesced (l ++ b ∷ [])
    → ClosedLeft (l ++ b ∷ [])
ClosedLeft-busy [] b e h = (inl e, tt)
ClosedLeft-busy (x ∷ []) b e h = (h.0, ClosedLeft-busy [] b e h.1)
ClosedLeft-busy (x ∷ y ∷ l) b e h = (h.0, ClosedLeft-busy (y ∷ l) b e h.1)

-- What stands in front of a free block is closed.
pub ClosedLeft-free :
    (l : List Block) (b : Block) → b.alloc ≡ false → Coalesced (l ++ b ∷ []) → ClosedLeft l
ClosedLeft-free [] b e h = tt
ClosedLeft-free (x ∷ []) b e h = (ground arith, tt)
ClosedLeft-free (x ∷ y ∷ l) b e h = (h.0, ClosedLeft-free (y ∷ l) b e h.1)

pub ClosedRight-busy :
    (b : Block) (r : List Block) → b.alloc ≡ true → Coalesced (b ∷ r) → ClosedRight (b ∷ r)
ClosedRight-busy b r e h = (inr e, h)

-- What stands behind a free block is closed.
pub ClosedRight-free :
    (b : Block) (r : List Block) → b.alloc ≡ false → Coalesced (b ∷ r) → ClosedRight r
ClosedRight-free b [] e h = tt
ClosedRight-free b (x ∷ r) e h = (ground arith, h.1)

pub Coalesced-split :
    (l : List Block) (b : Block) (r : List Block)
    → Coalesced (l ++ b ∷ r)
    → Coalesced l × Coalesced r
Coalesced-split [] b [] h = (tt, tt)
Coalesced-split [] b (x ∷ r) h = (tt, h.1)
Coalesced-split (x ∷ []) b r h = (tt, (Coalesced-split [] b r h.1).1)
Coalesced-split (x ∷ y ∷ l) b r h =
    let (hl, hr) = Coalesced-split (y ∷ l) b r h.1 in ((h.0, hl), hr)

-- A free block between two such rows has no free neighbour.
pub Coalesced-between :
    (l : List Block) (p n : ℕ) (r : List Block)
    → ClosedLeft l
    → ClosedRight r
    → Coalesced (l ++ block p n false ∷ r)
Coalesced-between [] p n [] hl hr = tt
Coalesced-between [] p n (x ∷ r) hl hr = (hr.0, hr.1)
Coalesced-between (x ∷ []) p n r hl hr = (hl.0, Coalesced-between [] p n r tt hr)
Coalesced-between (x ∷ y ∷ l) p n r hl hr = (hl.0, Coalesced-between (y ∷ l) p n r hl.1 hr)
