-- ===== src/Mm/Heap/Tiling.antt =====
-- Where the blocks of a row lie.
use malloc_for_c.Prelude.{
  ℕ, ◌+◌, ◌≤◌, ◌<◌, ◌≡◌, ◌≢◌, refl, ap, ◌∙◌, ◌⊎◌, List, [], ◌∷◌, ◌++◌, arith, count, count-append,
  count_self,
}
use malloc_for_c.Memory.{Ptr}
use malloc_for_c.Mm.FreeList.Links.{Apart, Spread}
use malloc_for_c.Mm.Heap.{Block, Tiled, free_addrs, used}

pub Tiled-le : (p : Ptr) (bs : List Block) (q : Ptr) → Tiled p bs q → p ≤ q
Tiled-le p [] q t = omega arith
Tiled-le p (b ∷ bs) q t = omega (arith, Tiled-le (p + b.size) bs q t.3)

pub Tiled-append :
    (p : Ptr) (l : List Block) (q : Ptr) (r : List Block) (e : Ptr)
    → Tiled p l q
    → Tiled q r e
    → Tiled p (l ++ r) e
Tiled-append p [] q r e t u = rw t u
Tiled-append p (b ∷ l) q r e t u = (t.0, t.1, t.2, Tiled-append (p + b.size) l q r e t.3 u)

-- A row is cut in front of each of its blocks.
pub Tiled-split :
    (p : Ptr) (l : List Block) (b : Block) (r : List Block) (e : Ptr)
    → Tiled p (l ++ b ∷ r) e
    → Tiled p l b.addr × Tiled b.addr (b ∷ r) e
Tiled-split p [] b r e t = (omega arith, (refl, t.1, t.2, rw t.0 t.3))
Tiled-split p (c ∷ l) b r e t =
    let u = Tiled-split (p + c.size) l b r e t.3 in ((t.0, t.1, t.2, u.0), u.1)

pub free_addrs-append : (l r : List Block) → free_addrs (l ++ r) ≡ free_addrs l ++ free_addrs r
free_addrs-append [] r = refl
free_addrs-append (b ∷ l) r = ground (arith, free_addrs-append l r)

pub used-append : (l r : List Block) → used (l ++ r) ≡ used l ++ used r
used-append [] r = refl
used-append (b ∷ l) r = ground (arith, used-append l r)

-- How often an address stands among those of the free blocks.
abbrev pub free_count : Ptr → List Block → ℕ
free_count x bs = count x (free_addrs bs)

pub free_count-append :
    (x : Ptr) (l r : List Block) → free_count x (l ++ r) ≡ free_count x l + free_count x r
free_count-append x l r =
    ap (count x) (free_addrs-append l r) ∙ count-append x (free_addrs l) (free_addrs r)

-- A free block lies inside the row.
pub free_bounds :
    (x p : Ptr) (bs : List Block) (q : Ptr)
    → Tiled p bs q
    → 0 < free_count x bs
    → (p ≤ x) × (x + 32 ≤ q)
free_bounds x p [] q t h = absurd (omega arith)
free_bounds x p (b ∷ bs) q t h =
    ground (arith, free_bounds x (p + b.size) bs q t.3, Tiled-le (p + b.size) bs q t.3)

pub free_count-outside :
    (x p : Ptr) (bs : List Block) (q : Ptr) → Tiled p bs q → (x < p) ⊎ (q ≤ x) → free_count x bs ≡ 0
free_count-outside x p bs q t h = ground (arith, free_bounds x p bs q t)

pub free_count-le-one : (x p : Ptr) (bs : List Block) (q : Ptr) → Tiled p bs q → free_count x bs ≤ 1
free_count-le-one x p [] q t = omega arith
free_count-le-one x p (b ∷ bs) q t =
    ground
      (arith, free_count-le-one x (p + b.size) bs q t.3, free_count-outside x (p + b.size) bs q t.3)

-- Two free blocks do not overlap.
pub free-Apart :
    (x y p : Ptr) (bs : List Block) (q : Ptr)
    → Tiled p bs q
    → 0 < free_count x bs
    → 0 < free_count y bs
    → x ≢ y
    → Apart x y
free-Apart x y p [] q t hx hy ne = absurd (omega arith)
free-Apart x y p (b ∷ bs) q t hx hy ne = ground (
  arith,
  free-Apart x y (p + b.size) bs q t.3,
  free_bounds x (p + b.size) bs q t.3,
  free_bounds y (p + b.size) bs q t.3,
)

-- A list of free blocks, each at most once, is spread.
pub free_Spread :
    (p : Ptr) (bs : List Block) (q : Ptr) (fs : List Ptr)
    → Tiled p bs q
    → ((x : Ptr) → count x fs ≤ free_count x bs)
    → Spread fs
free_Spread p bs q [] t h = tt
free_Spread p bs q (x ∷ xs) t h = (
  λ y py.
      let once : count x xs ≡ 0 =
        omega (arith, h x, count_self x xs, free_count-le-one x p bs q t) in
      free-Apart x y p bs q t (omega (arith, h x, count_self x xs)) (ground (arith, h y))
        (λ e. ground (arith)),
  free_Spread p bs q xs t (λ y. ground (arith, h y)),
)
