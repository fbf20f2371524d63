-- ===== src/Mm/Policy/Cut.antt =====
-- The policy at a block that the row is cut at.
use malloc_for_c.Prelude.{
  ℕ, ◌+◌, ◌-◌, ◌≤◌, ◌<◌, ◌≡◌, ◌≢◌, refl, ap, inl, inr, Bool, true, false, none, some, List, [], ◌∷◌,
  ◌++◌, arith, leb, if◌then◌else◌, count, count_self, Bool-cases, leb-false, ==-true, ==-false,
}
use malloc_for_c.Memory.{Ptr}
use malloc_for_c.Mm.Heap.{Block, block, Tiled}
use malloc_for_c.Mm.Heap.Tiling.{Tiled-le, Tiled-split}
use malloc_for_c.Mm.Policy.{
  size_at, first_fit, erase, allocate, left_free, right_free, fuse, set_free,
}

-- The blocks before a block have other addresses.
pub Tiled-ne : (p : Ptr) (c : Block) (l : List Block) (x : Ptr) → Tiled p (c ∷ l) x → c.addr ≢ x
Tiled-ne p c l x t e = let le = Tiled-le (p + c.size) l x t.3 in omega arith

pub size_at-cut :
    (p : Ptr) (l : List Block) (b : Block) (r : List Block)
    → Tiled p l b.addr
    → size_at b.addr (l ++ b ∷ r) ≡ b.size
unfolding size_at
size_at-cut p [] b r t = rw (==-true b.addr b.addr refl)
size_at-cut p (c ∷ l) b r t =
    rw (==-false c.addr b.addr (Tiled-ne p c l b.addr t)) (size_at-cut (p + c.size) l b r t.3)

pub allocate-cut :
    (n k p : ℕ) (l : List Block) (x : Ptr) (a : Bool) (r : List Block)
    → Tiled p l x
    → allocate n x (l ++ block x k a ∷ r) ≡ (
        if leb (n + 32) k
        then l ++ block x n true ∷ block (x + n) (k - n) false ∷ r
        else l ++ block x k true ∷ r)
unfolding allocate
allocate-cut n k p [] x a r t = rw (==-true x x refl)
allocate-cut n k p (c ∷ l) x a r t =
    rw (==-false c.addr x (Tiled-ne p c l x t), allocate-cut n k (p + c.size) l x a r t.3)
      (elim (Bool-cases (leb (n + 32) k)) [ inl e ↦ rw e | inr e ↦ rw e ])

pub erase-cut : (x : Ptr) (l r : List Ptr) → count x l ≡ 0 → erase x (l ++ x ∷ r) ≡ l ++ r
unfolding erase
erase-cut x [] r h = rw (==-true x x refl)
erase-cut x (y ∷ l) r h =
    rw (==-false y x (λ e. ground arith)) (ap (λ w. y ∷ w) (erase-cut x l r (ground arith)))

-- Nothing before the first fit is large enough.
pub first_fit-append :
    (bs : List Block) (n : ℕ) (l r : List Ptr)
    → ((x : Ptr) → 0 < count x l → size_at x bs < n)
    → first_fit bs n (l ++ r) ≡ first_fit bs n r
unfolding first_fit
first_fit-append bs n [] r h = refl
first_fit-append bs n (x ∷ l) r h =
    rw (leb-false n (size_at x bs) (h x (omega (arith, count_self x l))))
      (first_fit-append bs n l r (λ y p. h y (ground arith)))

-- The neighbours of a block, and the block that two of them make.
pub left_free-cut :
    (p : Ptr) (l : List Block) (b c : Block) (r : List Block) (e : Ptr)
    → Tiled p (l ++ b ∷ c ∷ r) e
    → left_free c.addr (l ++ b ∷ c ∷ r) ≡ (if b.alloc then none else some b.addr)
unfolding left_free
left_free-cut p [] b c r e t = rw (==-true c.addr c.addr refl)
left_free-cut p (d ∷ []) b c r e t =
    rw (==-false b.addr c.addr (omega arith)) (left_free-cut (p + d.size) [] b c r e t.3)
left_free-cut p (d ∷ f ∷ l) b c r e t =
    let u = Tiled-split (p + d.size) (f ∷ l) b (c ∷ r) e t.3 in
    let le = Tiled-le (p + d.size + f.size) l b.addr u.0.3 in
    rw (==-false f.addr c.addr (omega arith)) (left_free-cut (p + d.size) (f ∷ l) b c r e t.3)

-- A block in front of a row is nobody's right neighbour.
left_free-behind :
    (x p : Ptr) (b : Block) (r : List Block) (e : Ptr)
    → Tiled p (b ∷ r) e
    → x ≤ p
    → left_free x (b ∷ r) ≡ none
unfolding left_free
left_free-behind x p b [] e t h = refl
left_free-behind x p b (c ∷ r) e t h =
    rw (==-false c.addr x (omega arith)) (left_free-behind x (p + b.size) c r e t.3 (omega arith))

pub left_free-first :
    (p : Ptr) (b : Block) (r : List Block) (e : Ptr)
    → Tiled p (b ∷ r) e
    → left_free b.addr (b ∷ r) ≡ none
left_free-first p b r e t = left_free-behind b.addr p b r e t (omega arith)

pub right_free-cut :
    (p : Ptr) (l : List Block) (b c : Block) (r : List Block)
    → Tiled p l b.addr
    → right_free b.addr (l ++ b ∷ c ∷ r) ≡ (if c.alloc then none else some c.addr)
unfolding right_free
right_free-cut p [] b c r t = rw (==-true b.addr b.addr refl)
right_free-cut p (d ∷ []) b c r t =
    rw (==-false d.addr b.addr (Tiled-ne p d [] b.addr t))
      (right_free-cut (p + d.size) [] b c r t.3)
right_free-cut p (d ∷ f ∷ l) b c r t =
    rw (==-false d.addr b.addr (Tiled-ne p d (f ∷ l) b.addr t))
      (right_free-cut (p + d.size) (f ∷ l) b c r t.3)

pub right_free-last :
    (p : Ptr) (l : List Block) (b : Block)
    → Tiled p l b.addr
    → right_free b.addr (l ++ b ∷ []) ≡ none
unfolding right_free
right_free-last p [] b t = refl
right_free-last p (d ∷ []) b t = rw (==-false d.addr b.addr (Tiled-ne p d [] b.addr t))
right_free-last p (d ∷ f ∷ l) b t =
    rw (==-false d.addr b.addr (Tiled-ne p d (f ∷ l) b.addr t))
      (right_free-last (p + d.size) (f ∷ l) b t.3)

pub fuse-cut :
    (p : Ptr) (l : List Block) (b c : Block) (r : List Block)
    → Tiled p l b.addr
    → fuse b.addr (l ++ b ∷ c ∷ r) ≡ l ++ block b.addr (b.size + c.size) false ∷ r
unfolding fuse
fuse-cut p [] b c r t = rw (==-true b.addr b.addr refl)
fuse-cut p (d ∷ []) b c r t =
    rw (==-false d.addr b.addr (Tiled-ne p d [] b.addr t))
      (ap (λ w. d ∷ w) (fuse-cut (p + d.size) [] b c r t.3))
fuse-cut p (d ∷ f ∷ l) b c r t =
    rw (==-false d.addr b.addr (Tiled-ne p d (f ∷ l) b.addr t))
      (ap (λ w. d ∷ w) (fuse-cut (p + d.size) (f ∷ l) b c r t.3))

pub set_free-cut :
    (p : Ptr) (l : List Block) (x n : ℕ) (a : Bool) (r : List Block)
    → Tiled p l x
    → set_free x (l ++ block x n a ∷ r) ≡ l ++ block x n false ∷ r
unfolding set_free
set_free-cut p [] x n a r t = rw (==-true x x refl)
set_free-cut p (d ∷ l) x n a r t =
    rw (==-false d.addr x (Tiled-ne p d l x t))
      (ap (λ w. d ∷ w) (set_free-cut (p + d.size) l x n a r t.3))
