-- ===== src/Mm/Alloc/Search.antt =====
-- The loop of `find_fit`, its rounds, and the first fit of the policy.
use malloc_for_c.Prelude.{
  ℕ, zero, suc, ◌+◌, ◌-◌, ◌^◌, ◌≤◌, ◌<◌, ◌≡◌, refl, sym, ap, ◌∙◌, subst, inl, inr, false, Option,
  none, some, List, [], ◌∷◌, ◌++◌, append_assoc, arith, length, length-append, count, count-append,
  count_self, count-split, leb, leb-true, leb-false, ==-false, if◌then◌else◌, add64-eq, lt_cases,
}
use malloc_for_c.Memory.{Ptr, null, word}
use malloc_for_c.Machine.{State, Cmd, pure}
use malloc_for_c.Mm.Block.Access.{Room, tag_val, get_size-ok}
use malloc_for_c.Mm.FreeList.Links.{first_or, Seg-split, get_next-ok}
use malloc_for_c.Mm.Alloc.{split, take_whole, find_fit_loop, find_fit}
use malloc_for_c.Mm.Heap.{Block, block, Tiled, free_addrs, Core}
use malloc_for_c.Mm.Heap.Tiling.{free_count, Tiled-le}
use malloc_for_c.Mm.Heap.Relink.{free-Node, listed_free}
use malloc_for_c.Mm.Heap.Cut.{cut, Cut-Room, free_block}
use malloc_for_c.Mm.Policy.{size_at, first_fit}
use malloc_for_c.Mm.Policy.Cut.{size_at-cut}

-- What a free block's header says.
pub record Listed (s : State) (bs : List Block) (x : Ptr) : Type 0 where
  pub room : Room s x (size_at x bs)
  pub header : word s.mem x ≡ tag_val (size_at x bs) false

pub Listed-block :
    (s : State) (bs : List Block) (fs out : List Ptr) (x : Ptr)
    → Core s bs fs out
    → 0 < free_count x bs
    → Listed s bs x
Listed-block s bs fs out x c h =
    let (l, k, r, e) = free_block x bs h in
    let g = cut s l (block x k false) r fs out (subst (λ w. Core s w fs out) e c) in
    let size : size_at x bs ≡ k =
      ap (size_at x) e ∙ size_at-cut (s.heap + 24) l (block x k false) r g.left in
    record { room = rw size (Cut-Room g); header = rw size g.header }

-- What `find_fit` does with the fit that it has found.
abbrev pub serve : ℕ → List Block → Option Ptr → Cmd Ptr
serve n bs none = pure null
serve n bs (some x) = if leb (n + 32) (size_at x bs) then split x n else take_whole x

module _ (s : State) (bs : List Block) (n : ℕ) (lt : n + 32 < 2 ^ 64) where
  -- One round at a listed block.
  round :
      (fuel : ℕ) (pre : List Ptr) (x : Ptr) (suf : List Ptr)
      → Core s bs (pre ++ x ∷ suf) []
      → find_fit_loop fuel n (first_or null suf) s ≡ serve n bs (first_fit bs n suf) s
      → find_fit_loop (suc fuel) n x s ≡ serve n bs (first_fit bs n (x ∷ suf)) s
  unfolding find_fit_loop first_fit
  round fuel pre x suf c next =
      let f : 0 < free_count x bs =
        listed_free s bs (pre ++ x ∷ suf) [] c x
          (omega (arith, count-append x pre (x ∷ suf), count_self x suf)) in
      let b = Listed-block s bs (pre ++ x ∷ suf) [] x c f in
      let node = free-Node s bs (pre ++ x ∷ suf) [] c x f in
      let k = size_at x bs in
      let link = (Seg-split s.mem null pre (x ∷ suf) null c.links).1 in
      rw
        (
          ==-false x null (omega (arith, c.fits, node)),
          get_size-ok x k false s b.room b.header,
          add64-eq 32 n (omega arith),
        )
        (elim (lt_cases k n) [
          | inl small ↦
              rw
                (
                  leb-false (32 + n) k (omega arith),
                  leb-false n k small,
                  get_next-ok x s c.fits node,
                  link.0,
                )
                next
          | inr large ↦ elim (lt_cases k (n + 32)) [
            | inl tight ↦
                rw (
                  leb-false (32 + n) k (omega arith),
                  leb-true n k large,
                  leb-false (n + 32) k tight,
                )
            | inr wide ↦
                rw (leb-true (32 + n) k (omega arith), leb-true n k large, leb-true (n + 32) k wide)
          ]
        ])

  -- With more rounds than listed blocks the loop serves the first fit among those ahead.
  loop_lem :
      (fuel : ℕ) (pre suf : List Ptr)
      → Core s bs (pre ++ suf) []
      → length suf < fuel
      → find_fit_loop fuel n (first_or null suf) s ≡ serve n bs (first_fit bs n suf) s
  unfolding find_fit_loop first_fit
  loop_lem zero pre suf c h = absurd (omega arith)
  loop_lem (suc fuel) pre [] c h = refl
  loop_lem (suc fuel) pre (x ∷ suf) c h = round fuel pre x suf c (
      loop_lem fuel (pre ++ x ∷ []) suf
        (subst (λ w. Core s bs w []) (sym (append_assoc pre (x ∷ []) suf)) c) (omega arith))

-- A list that holds nothing more often than another is no longer.
pub length-le : (xs ys : List ℕ) → ((x : ℕ) → count x xs ≤ count x ys) → length xs ≤ length ys
length-le [] ys h = omega arith
length-le (x ∷ xs) ys h =
    let (l, r, e) = count-split x ys (omega (arith, h x, count_self x xs)) in
    let shorter =
      length-le xs (l ++ r)
        (λ y. ground (arith, h y, ap (count y) e, count-append y l (x ∷ r), count-append y l r)) in
    omega (arith, ap length e, length-append l (x ∷ r), length-append l r)

pub free_length :
    (p : Ptr) (bs : List Block) (q : Ptr) → Tiled p bs q → length (free_addrs bs) ≤ q - p
free_length p [] q t = omega arith
free_length p (b ∷ bs) q t =
    ground (arith, free_length (p + b.size) bs q t.3, Tiled-le (p + b.size) bs q t.3)

-- The free list is shorter than the heap.
pub list_length :
    (s : State) (bs : List Block) (fs : List Ptr)
    → Core s bs fs []
    → length fs < s.mem_brk - s.heap + 1
list_length s bs fs c = omega (
  arith,
  length-le fs (free_addrs bs) (λ x. omega (arith, c.listed x)),
  free_length (s.heap + 24) bs s.mm_heap_last c.tiled,
  c.brk,
)

-- In a state that holds a row of blocks and their free list, `find_fit` for a size that does not
-- overflow always ends its walk, and does what serving the first fit of the free list does: nothing
-- and null if there is none, and otherwise splitting the block or handing it out whole.
pub find_fit_lem :
    (s : State) (bs : List Block) (fs : List Ptr) (n : ℕ)
    → Core s bs fs []
    → n + 32 < 2 ^ 64
    → find_fit n s ≡ serve n bs (first_fit bs n fs) s
unfolding find_fit
find_fit_lem s bs fs n c lt =
    subst (λ p. find_fit_loop (s.mem_brk - s.heap + 1) n p s ≡ serve n bs (first_fit bs n fs) s)
      (sym c.head) (loop_lem s bs n lt (s.mem_brk - s.heap + 1) [] fs c (list_length s bs fs c))
