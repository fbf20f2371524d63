-- ===== src/Mm/FreeList/Links.antt =====
-- What the links of mm.c's free list say: from each node to the next one, and back.
use malloc_for_c.Prelude.{
  ℕ, ◌+◌, ◌^◌, ◌≤◌, ◌<◌, ◌≡◌, refl, ◌∙◌, ◌⊎◌, List, [], ◌∷◌, ◌++◌, arith, count, count_self,
  add64-eq,
}
use malloc_for_c.Memory.{Ptr, Mem, word, put}
use malloc_for_c.Memory.Words.{word-same, word-put_off}
use malloc_for_c.Machine.{State, ok}
use malloc_for_c.Machine.Access.{load-ok, store-ok}
use malloc_for_c.Mm.Block.{set_next, set_prev, get_next, get_prev}

-- The addresses of the mapped bytes are no null pointer and fit into 64 bits.
pub record Fits (s : State) : Type 0 where
  pub positive : 0 < s.heap
  pub small : s.mem_max_addr < 2 ^ 64

-- The header and the two link words of a block at `x` are mapped.
pub record Node (s : State) (x : Ptr) : Type 0 where
  pub above : s.heap ≤ x
  pub below : x + 24 ≤ s.mem_max_addr

module _ (x : Ptr) (s : State) (f : Fits s) (n : Node s x) where
  pub get_next-ok : get_next x s ≡ ok (word s.mem (x + 8)) s
  unfolding get_next
  get_next-ok = rw (add64-eq x 8 (omega arith)) (load-ok (x + 8) s (omega arith))

  pub get_prev-ok : get_prev x s ≡ ok (word s.mem (x + 16)) s
  unfolding get_prev
  get_prev-ok = rw (add64-eq x 16 (omega arith)) (load-ok (x + 16) s (omega arith))

  pub set_next-ok : (v : Ptr) → set_next x v s ≡ ok tt (record s { mem = put s.mem (x + 8) v })
  unfolding set_next
  set_next-ok v = rw (add64-eq x 8 (omega arith)) (store-ok (x + 8) v s (omega arith))

  pub set_prev-ok : (v : Ptr) → set_prev x v s ≡ ok tt (record s { mem = put s.mem (x + 16) v })
  unfolding set_prev
  set_prev-ok v = rw (add64-eq x 16 (omega arith)) (store-ok (x + 16) v s (omega arith))

-- The first node, or `stop` if there is none.
abbrev pub first_or : Ptr → List Ptr → Ptr
first_or stop [] = stop
first_or stop (x ∷ xs) = x

-- The last node, or `prev` if there is none.
abbrev pub last_or : Ptr → List Ptr → Ptr
last_or prev [] = prev
last_or prev (x ∷ xs) = last_or x xs

-- The nodes `xs` are linked in this order, behind `prev` and before `stop`.
abbrev pub Seg : Mem → Ptr → List Ptr → Ptr → Type 0
Seg m prev [] stop = Unit {0}
Seg m prev (x ∷ xs) stop =
    (word m (x + 8) ≡ first_or stop xs) × (word m (x + 16) ≡ prev) × Seg m x xs stop

-- Two nodes whose link words do not overlap.
abbrev pub Apart : Ptr → Ptr → Type 0
Apart x y = (x + 16 ≤ y) ⊎ (y + 16 ≤ x)

abbrev pub Spread : List Ptr → Type 0
Spread [] = Unit {0}
Spread (x ∷ xs) = ((y : Ptr) → 0 < count y xs → Apart x y) × Spread xs

-- The byte at `a` belongs to no link word of the nodes.
abbrev pub Off : List Ptr → ℕ → Type 0
Off xs a = (x : Ptr) → 0 < count x xs → (a < x + 8) ⊎ (x + 24 ≤ a)

-- The two memories differ at most in the link words of the nodes.
abbrev pub SameOff : List Ptr → Mem → Mem → Type 0
SameOff xs m m' = (a : ℕ) → Off xs a → m' a ≡ m a

pub first-append : (stop x : Ptr) (l r : List Ptr) → first_or stop (l ++ x ∷ r) ≡ first_or x l
first-append stop x [] r = refl
first-append stop x (y ∷ l) r = refl

-- Links are kept by a write that spares the link words of the nodes.
pub Seg-put :
    (m : Mem) (a v prev : ℕ) (xs : List Ptr) (stop : Ptr)
    → ((x : Ptr) → 0 < count x xs → (a + 8 ≤ x + 8) ⊎ (x + 24 ≤ a))
    → Seg m prev xs stop
    → Seg (put m a v) prev xs stop
Seg-put m a v prev [] stop off s = tt
Seg-put m a v prev (x ∷ xs) stop off s =
    let o = off x (omega (arith, count_self x xs)) in
    (
      word-put_off m a v (x + 8) (omega arith) ∙ s.0,
      word-put_off m a v (x + 16) (omega arith) ∙ s.1,
      Seg-put m a v x xs stop (λ y p. off y (ground arith)) s.2,
    )

-- Links are kept by a change of memory elsewhere.
pub Seg-same :
    (m m' : Mem) (prev : Ptr) (xs : List Ptr) (stop : Ptr)
    → ((a x : ℕ) → 0 < count x xs → x + 8 ≤ a → a < x + 24 → m' a ≡ m a)
    → Seg m prev xs stop
    → Seg m' prev xs stop
Seg-same m m' prev [] stop same s = tt
Seg-same m m' prev (x ∷ xs) stop same s =
    let here : 0 < count x (x ∷ xs) = omega (arith, count_self x xs) in
    (
      word-same m m' (x + 8) (λ q lo hi. same q x here (omega arith) (omega arith)) ∙ s.0,
      word-same m m' (x + 16) (λ q lo hi. same q x here (omega arith) (omega arith)) ∙ s.1,
      Seg-same m m' x xs stop (λ a y p. same a y (ground arith)) s.2,
    )

pub Seg-append :
    (m : Mem) (prev : Ptr) (l r : List Ptr) (stop : Ptr)
    → Seg m prev l (first_or stop r)
    → Seg m (last_or prev l) r stop
    → Seg m prev (l ++ r) stop
Seg-append m prev [] r stop s t = t
Seg-append m prev (x ∷ []) r stop s t = (s.0, s.1, t)
Seg-append m prev (x ∷ y ∷ l) r stop s t = (s.0, s.1, Seg-append m x (y ∷ l) r stop s.2 t)

pub Seg-split :
    (m : Mem) (prev : Ptr) (l r : List Ptr) (stop : Ptr)
    → Seg m prev (l ++ r) stop
    → Seg m prev l (first_or stop r) × Seg m (last_or prev l) r stop
Seg-split m prev [] r stop s = (tt, s)
Seg-split m prev (x ∷ []) r stop s = ((s.0, s.1, tt), s.2)
Seg-split m prev (x ∷ y ∷ l) r stop s =
    let t = Seg-split m x (y ∷ l) r stop s.2 in ((s.0, s.1, t.0), t.1)
