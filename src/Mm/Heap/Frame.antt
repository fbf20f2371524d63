-- ===== src/Mm/Heap/Frame.antt =====
-- Which changes of memory keep the tags of a row of blocks, and the payloads of the allocated ones.
use malloc_for_c.Prelude.{
  ℕ, ◌+◌, ◌-◌, ◌≤◌, ◌<◌, ◌≡◌, ◌∙◌, ◌⊎◌, inl, inr, List, [], ◌∷◌, ◌++◌, arith, count,
}
use malloc_for_c.Memory.{Ptr, Mem}
use malloc_for_c.Memory.Words.{word-same}
use malloc_for_c.Mm.FreeList.Links.{SameOff}
use malloc_for_c.Mm.Heap.{Block, Tiled, Tags, used, InPayload}
use malloc_for_c.Mm.Heap.Tiling.{Tiled-le, free_count, free_bounds, used-append}

pub Tags-append : (m : Mem) (l r : List Block) → Tags m l → Tags m r → Tags m (l ++ r)
Tags-append m [] r t u = u
Tags-append m (b ∷ l) r t u = (t.0, t.1, Tags-append m l r t.2 u)

pub Tags-split : (m : Mem) (l r : List Block) → Tags m (l ++ r) → Tags m l × Tags m r
Tags-split m [] r t = (tt, t)
Tags-split m (b ∷ l) r t = let u = Tags-split m l r t.2 in ((t.0, t.1, u.0), u.1)

-- Tags are kept where the bytes of the row are.
pub Tags-same :
    (m m' : Mem) (p : Ptr) (bs : List Block) (q : Ptr)
    → Tiled p bs q
    → ((a : ℕ) → p ≤ a → a < q → m' a ≡ m a)
    → Tags m bs
    → Tags m' bs
Tags-same m m' p [] q t same g = tt
Tags-same m m' p (b ∷ bs) q t same g =
    let le = Tiled-le (p + b.size) bs q t.3 in
    (
      word-same m m' b.addr (λ a lo hi. same a (omega arith) (omega arith)) ∙ g.0,
      word-same m m' (b.addr + (b.size - 8)) (λ a lo hi. same a (omega arith) (omega arith)) ∙ g.1,
      Tags-same m m' (p + b.size) bs q t.3 (λ a lo hi. same a (omega arith) hi) g.2,
    )

-- Each of the nodes is a free block of the row, or lies outside it.
abbrev pub Clear : List Ptr → Ptr → List Block → Ptr → Type 0
Clear xs p bs q = (x : Ptr) → 0 < count x xs → (x + 32 ≤ p) ⊎ (q ≤ x) ⊎ (0 < free_count x bs)

module _ (xs : List Ptr) (p : Ptr) (b : Block) (bs : List Block) (q : Ptr) (t : Tiled p (b ∷ bs) q)
    (c : Clear xs p (b ∷ bs) q) where
  Clear-tail : Clear xs (p + b.size) bs q
  Clear-tail x h = ground (arith, c x h)

  -- A node is the block `b` itself, or lies before or behind it.
  place : (x : Ptr) → 0 < count x xs → (x ≡ p) ⊎ (x + 32 ≤ p) ⊎ (p + b.size ≤ x)
  place x h =
      ground (arith, c x h, free_bounds x (p + b.size) bs q t.3, Tiled-le (p + b.size) bs q t.3)

-- The link words of free blocks hold no tag.
pub Tags-off :
    (m m' : Mem) (xs : List Ptr) (p : Ptr) (bs : List Block) (q : Ptr)
    → Tiled p bs q
    → Clear xs p bs q
    → SameOff xs m m'
    → Tags m bs
    → Tags m' bs
Tags-off m m' xs p [] q t c same g = tt
Tags-off m m' xs p (b ∷ bs) q t c same g = (
  word-same m m' b.addr (λ a lo hi. same a (λ x h. omega (arith, place xs p b bs q t c x h))) ∙ g.0,
  word-same m m' (b.addr + (b.size - 8))
        (λ a lo hi. same a (λ x h. omega (arith, place xs p b bs q t c x h)))
      ∙ g.1,
  Tags-off m m' xs (p + b.size) bs q t.3 (Clear-tail xs p b bs q t c) same g.2,
)

pub InPayload-bounds :
    (a p : ℕ) (bs : List Block) (q : Ptr) → Tiled p bs q → InPayload (used bs) a → (p ≤ a) × (a < q)
InPayload-bounds a p [] q t h = absurd h
InPayload-bounds a p (b ∷ bs) q t h =
    ground (arith, InPayload-bounds a (p + b.size) bs q t.3, Tiled-le (p + b.size) bs q t.3)

-- Nor do they hold payload of an allocated block.
pub InPayload-off :
    (a x p : ℕ) (bs : List Block) (q : Ptr)
    → Tiled p bs q
    → InPayload (used bs) a
    → 0 < free_count x bs
    → (a < x + 8) ⊎ (x + 24 ≤ a)
InPayload-off a x p [] q t h f = absurd h
InPayload-off a x p (b ∷ bs) q t h f = ground (
  arith,
  InPayload-off a x (p + b.size) bs q t.3,
  InPayload-bounds a (p + b.size) bs q t.3,
  free_bounds x (p + b.size) bs q t.3,
  Tiled-le (p + b.size) bs q t.3,
)

pub InPayload-append :
    (a : ℕ) (us vs : List (Ptr × ℕ)) → InPayload (us ++ vs) a → InPayload us a ⊎ InPayload vs a
InPayload-append a [] vs h = inr h
InPayload-append a ((p, n) ∷ us) vs (inl h) = inl (inl h)
InPayload-append a ((p, n) ∷ us) vs (inr h) = elim (InPayload-append a us vs h) [
  | inl i ↦ inl (inr i)
  | inr i ↦ inr i
]

pub InPayload-left : (a : ℕ) (us vs : List (Ptr × ℕ)) → InPayload us a → InPayload (us ++ vs) a
InPayload-left a [] vs h = absurd h
InPayload-left a ((p, n) ∷ us) vs (inl h) = inl h
InPayload-left a ((p, n) ∷ us) vs (inr h) = inr (InPayload-left a us vs h)

pub InPayload-right : (a : ℕ) (us vs : List (Ptr × ℕ)) → InPayload vs a → InPayload (us ++ vs) a
InPayload-right a [] vs h = h
InPayload-right a ((p, n) ∷ us) vs h = inr (InPayload-right a us vs h)

-- What is payload on both sides of a stretch is payload of the whole row.
pub InPayload-insert :
    (a : ℕ) (l os r : List Block)
    → InPayload (used l ++ used r) a
    → InPayload (used (l ++ (os ++ r))) a
InPayload-insert a l os r h =
    rw (used-append l (os ++ r), used-append os r)
      (elim (InPayload-append a (used l) (used r) h) [
        | inl i ↦ InPayload-left a (used l) (used os ++ used r) i
        | inr i ↦
            InPayload-right a (used l) (used os ++ used r) (InPayload-right a (used os) (used r) i)
      ])
