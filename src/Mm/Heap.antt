-- ===== src/Mm/Heap.antt =====
-- What the bytes of mm.c's heap stand for: a row of blocks without gaps between the prologue and
-- the epilogue, and the free list over the free ones among them.
pub mod Tiling
pub mod Frame
pub mod Relink
pub mod Replace
pub mod Neighbours
pub mod Cut
pub mod Mark
pub mod Payload
use malloc_for_c.Prelude.{
  ℕ, ◌+◌, ◌-◌, ◌%◌, ◌≤◌, ◌<◌, ◌≡◌, ◌⊎◌, Bool, true, false, List, [], ◌∷◌, count, if◌then◌else◌,
}
use malloc_for_c.Memory.{Ptr, Mem, null, word}
use malloc_for_c.Machine.{State}
use malloc_for_c.Mm.FreeList.Links.{Fits, first_or, Seg}

-- A block from its header word on; `size` counts header and footer.
pub record Block : Type 0 where
  pub addr : Ptr
  pub size : ℕ
  pub alloc : Bool

abbrev pub block : Ptr → ℕ → Bool → Block
block p n a = record { addr = p; size = n; alloc = a }

-- The word in the header and in the footer.
abbrev pub tag : Block → ℕ
tag b = b.size + (if b.alloc then 1 else 0)

-- The blocks follow one another from `p` to `q`.
abbrev pub Tiled : Ptr → List Block → Ptr → Type 0
Tiled p [] q = p ≡ q
Tiled p (b ∷ bs) q = (b.addr ≡ p) × (32 ≤ b.size) × (b.size % 16 ≡ 0) × Tiled (p + b.size) bs q

-- Header and footer of each block hold its tag.
abbrev pub Tags : Mem → List Block → Type 0
Tags m [] = Unit {0}
Tags m (b ∷ bs) = (word m b.addr ≡ tag b) × (word m (b.addr + (b.size - 8)) ≡ tag b) × Tags m bs

abbrev pub free_addrs : List Block → List Ptr
free_addrs [] = []
free_addrs (b ∷ bs) = if b.alloc then free_addrs bs else b.addr ∷ free_addrs bs

-- Address and size of each allocated block, in the order of the addresses.
abbrev pub used : List Block → List (Ptr × ℕ)
used [] = []
used (b ∷ bs) = if b.alloc then (b.addr, b.size) ∷ used bs else used bs

-- The byte at `a` is payload of one of the allocated blocks.
abbrev pub InPayload : List (Ptr × ℕ) → ℕ → Type 0
InPayload [] a = ⊥
InPayload ((p, n) ∷ us) a = ((p + 8 ≤ a) × (a + 8 < p + n)) ⊎ InPayload us a

-- The payloads of the allocated blocks hold the same bytes in both memories.
abbrev pub Keeps : List (Ptr × ℕ) → Mem → Mem → Type 0
Keeps us m m' = (a : ℕ) → InPayload us a → m' a ≡ m a

-- No two neighbours are free.
abbrev pub Coalesced : List Block → Type 0
Coalesced [] = Unit {0}
Coalesced (b ∷ []) = Unit {0}
Coalesced (b ∷ c ∷ bs) = ((b.alloc ≡ true) ⊎ (c.alloc ≡ true)) × Coalesced (c ∷ bs)

-- The state holds the blocks `bs` and the free list `fs`. The blocks at the addresses `out` are
-- marked free and not in the list, as in the middle of an operation.
pub record Core (s : State) (bs : List Block) (fs out : List Ptr) : Type 0 where
  pub fits : Fits s
  pub aligned : s.heap % 16 ≡ 0
  pub first : s.mm_heap_first ≡ s.heap + 8
  pub brk : s.mem_brk ≡ s.mm_heap_last + 16
  pub room : s.mem_brk ≤ s.mem_max_addr
  pub tiled : Tiled (s.heap + 24) bs s.mm_heap_last
  pub tags : Tags s.mem bs
  pub links : Seg s.mem null fs null
  pub head : s.mm_free_head ≡ first_or null fs
  pub listed : (x : Ptr) → count x fs + count x out ≡ count x (free_addrs bs)
