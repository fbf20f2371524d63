-- ===== src/Mm/FreeList/Spread.antt =====
-- Parts of a list of nodes whose link words do not overlap, and writes to one link word.
use malloc_for_c.Prelude.{
  ◌+◌, ◌^◌, ◌<◌, ◌∙◌, List, [], ◌∷◌, ◌++◌, arith, count, count-append, count_self,
}
use malloc_for_c.Memory.{Ptr, Mem, put}
use malloc_for_c.Memory.Words.{word-put_self, word-put_off}
use malloc_for_c.Mm.FreeList.Links.{last_or, Seg, Apart, Spread, Seg-put}

pub count-last : (x : Ptr) (l : List Ptr) → 0 < count (last_or x l) (x ∷ l)
count-last x [] = omega (arith, count_self x [])
count-last x (y ∷ l) = ground (arith, count-last y l)

pub Spread-left : (l r : List Ptr) → Spread (l ++ r) → Spread l
Spread-left [] r s = tt
Spread-left (x ∷ l) r s = (λ y p. s.0 y (omega (arith, count-append y l r)), Spread-left l r s.1)

pub Spread-right : (l r : List Ptr) → Spread (l ++ r) → Spread r
Spread-right [] r s = s
Spread-right (x ∷ l) r s = Spread-right l r s.1

pub Spread-across :
    (l r : List Ptr) → Spread (l ++ r) → (x y : Ptr) → 0 < count x l → 0 < count y r → Apart x y
Spread-across [] r s x y p q = absurd (omega arith)
Spread-across (z ∷ l) r s x y p q =
    ground (arith, s.0 y, count-append y l r, Spread-across l r s.1 x y)

-- Unlinking a node leaves the others spread.
pub Spread-drop : (l : List Ptr) (x : Ptr) (r : List Ptr) → Spread (l ++ x ∷ r) → Spread (l ++ r)
Spread-drop [] x r s = s.1
Spread-drop (y ∷ l) x r s = (
  λ z p. s.0 z (ground (arith, count-append z l (x ∷ r), count-append z l r)),
  Spread-drop l x r s.1,
)

-- A new back link of the first node.
pub re_prev :
    (m : Mem) (prev prev' y : Ptr) (r : List Ptr) (stop : Ptr)
    → Spread (y ∷ r)
    → prev' < 2 ^ 64
    → Seg m prev (y ∷ r) stop
    → Seg (put m (y + 16) prev') prev' (y ∷ r) stop
re_prev m prev prev' y r stop sp lt s = (
  word-put_off m (y + 16) prev' (y + 8) (omega arith) ∙ s.0,
  word-put_self m (y + 16) prev' lt,
  Seg-put m (y + 16) prev' y r stop (λ z p. omega (arith, sp.0 z p)) s.2,
)

-- A new forward link of the last node.
pub retarget :
    (m : Mem) (prev z : Ptr) (l : List Ptr) (stop stop' : Ptr)
    → Spread (z ∷ l)
    → stop' < 2 ^ 64
    → Seg m prev (z ∷ l) stop
    → Seg (put m (last_or z l + 8) stop') prev (z ∷ l) stop'
retarget m prev z [] stop stop' sp lt s = (
  word-put_self m (z + 8) stop' lt,
  word-put_off m (z + 8) stop' (z + 16) (omega arith) ∙ s.1,
  tt,
)
retarget m prev z (y ∷ l) stop stop' sp lt s =
    let far = sp.0 (last_or y l) (count-last y l) in
    (
      word-put_off m _ stop' (z + 8) (omega arith) ∙ s.0,
      word-put_off m _ stop' (z + 16) (omega arith) ∙ s.1,
      retarget m z y l stop stop' sp.1 lt s.2,
    )
