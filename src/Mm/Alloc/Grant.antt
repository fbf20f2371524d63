-- ===== src/Mm/Alloc/Grant.antt =====
-- What the client of `malloc` gets: one block more in use, aligned, large enough, and apart from
-- the others.
use malloc_for_c.Prelude.{
  ℕ, ◌+◌, ◌-◌, ◌%◌, ◌^◌, ◌≤◌, ◌<◌, ◌≡◌, refl, sym, ap, subst, inl, inr, true, false, Option, none,
  some, List, [], ◌∷◌, ◌++◌, arith, append-nil, count, count-append, count_self, lt_cases, leb-true,
  leb-false,
}
use malloc_for_c.Memory.{Ptr}
use malloc_for_c.Machine.{State, ok}
use malloc_for_c.Mm.Alloc.{adjust, malloc}
use malloc_for_c.Mm.Alloc.Serve.{Becomes}
use malloc_for_c.Mm.Alloc.Obtain.{first_fit-some}
use malloc_for_c.Mm.Alloc.Malloc.{adjust_bounds, Served, malloc_refines}
use malloc_for_c.Mm.Heap.{Block, block, Tiled, used}
use malloc_for_c.Mm.Heap.Tiling.{Tiled-split, used-append}
use malloc_for_c.Mm.Heap.Relink.{listed_free}
use malloc_for_c.Mm.Heap.Cut.{used-free, free_block}
use malloc_for_c.Mm.Policy.{Heap, size_at, first_fit, allocate, hand_out, grow, obtain, Represents}
use malloc_for_c.Mm.Policy.Cut.{size_at-cut, allocate-cut}

-- Blocks lie at addresses of the same remainder as the first one.
pub Tiled-aligned : (p : Ptr) (bs : List Block) (q : Ptr) → Tiled p bs q → q % 16 ≡ p % 16
Tiled-aligned p [] q t = omega arith
Tiled-aligned p (b ∷ bs) q t = omega (arith, Tiled-aligned (p + b.size) bs q t.3)

-- The blocks in use with one more, `p`, of at least `n` bytes, whose payload is aligned.
pub record Granted (us us' : List (Ptr × ℕ)) (p n : ℕ) : Type 0 where
  pub before : List (Ptr × ℕ)
  pub behind : List (Ptr × ℕ)
  pub size : ℕ
  pub old : us ≡ before ++ behind
  pub new : us' ≡ before ++ (p, size) ∷ behind
  pub large : n ≤ size
  pub aligned : (p + 8) % 16 ≡ 0

module _ (o : Ptr) (al : o % 16 ≡ 0) (l : List Block) (x k : ℕ) (r : List Block) (e n : ℕ)
    (t : Tiled (o + 24) (l ++ block x k false ∷ r) e) (large : n ≤ k) where
  Granted-at :
      Granted (used (l ++ block x k false ∷ r)) (used (allocate n x (l ++ block x k false ∷ r))) x n
  Granted-at =
      let u = Tiled-split (o + 24) l (block x k false) r e t in
      let a = Tiled-aligned (o + 24) l x u.0 in
      elim (lt_cases k (n + 32)) [
        | inl tight ↦ record {
          before = used l;
          behind = used r;
          size = k;
          old = used-free l x k r;
          new =
              rw (allocate-cut n k (o + 24) l x false r u.0, leb-false (n + 32) k tight)
                (used-append l (block x k true ∷ r));
          large = large;
          aligned = omega arith;
        }
        | inr wide ↦ record {
          before = used l;
          behind = used r;
          size = n;
          old = used-free l x k r;
          new =
              rw (allocate-cut n k (o + 24) l x false r u.0, leb-true (n + 32) k wide)
                (used-append l (block x n true ∷ block (x + n) (k - n) false ∷ r));
          large = omega arith;
          aligned = omega arith;
        }
      ]

module _ (s : State) (h : Heap) (n : ℕ) (v : Represents s h) where
  obtain_grants-fit :
      (x : Ptr)
      → first_fit h.blocks n h.list ≡ some x
      → Granted (used h.blocks) (used (hand_out n x h).blocks) x n
  unfolding hand_out
  obtain_grants-fit x e =
      let (fl, fr, listed, large) = first_fit-some h.blocks n h.list x e in
      let f =
        listed_free s h.blocks h.list [] v.core x
          (omega (arith, ap (count x) listed, count-append x fl (x ∷ fr), count_self x fr)) in
      let (l, k, r, blocks) = free_block x h.blocks f in
      let t = subst (λ w. Tiled (s.heap + 24) w s.mm_heap_last) blocks v.core.tiled in
      let size =
        size_at-cut (s.heap + 24) l (block x k false) r
          (Tiled-split (s.heap + 24) l (block x k false) r s.mm_heap_last t).0 in
      let fits : n ≤ k = omega (arith, ap (size_at x) blocks, size, large) in
      subst (λ w. Granted (used w) (used (allocate n x w)) x n) (sym blocks)
        (Granted-at s.heap v.core.aligned l x k r s.mm_heap_last n t fits)

  obtain_grants-grow : Granted (used h.blocks) (used (grow n h).blocks) h.last n
  unfolding grow
  obtain_grants-grow = record {
    before = used h.blocks;
    behind = [];
    size = n;
    old = sym (append-nil (used h.blocks));
    new = used-append h.blocks (block h.last n true ∷ []);
    large = omega arith;
    aligned = omega (
      arith,
      Tiled-aligned (s.heap + 24) h.blocks s.mm_heap_last v.core.tiled,
      v.core.aligned,
      v.last,
    );
  }

  obtain_grants-any :
      (f : Option Ptr)
      → first_fit h.blocks n h.list ≡ f
      → Granted (used h.blocks) (used (obtain n h).1.blocks) (obtain n h).0 n
  unfolding obtain
  obtain_grants-any none e = rw (e, obtain) obtain_grants-grow
  obtain_grants-any (some x) e = rw (e, obtain) (obtain_grants-fit x e)

  pub obtain_grants : Granted (used h.blocks) (used (obtain n h).1.blocks) (obtain n h).0 n
  obtain_grants = obtain_grants-any (first_fit h.blocks n h.list) refl

obtain_last-any :
    (n : ℕ) (h : Heap) (f : Option Ptr)
    → first_fit h.blocks n h.list ≡ f
    → (obtain n h).1.last ≤ h.last + n
unfolding obtain grow hand_out
obtain_last-any n h none e = rw (e, obtain) (omega arith)
obtain_last-any n h (some x) e = rw (e, obtain) (omega arith)

-- The heap grows by no more than the block.
obtain_last : (n : ℕ) (h : Heap) → (obtain n h).1.last ≤ h.last + n
unfolding obtain grow hand_out
obtain_last n h = obtain_last-any n h (first_fit h.blocks n h.list) refl

obtain_last-least-any :
    (n : ℕ) (h : Heap) (f : Option Ptr)
    → first_fit h.blocks n h.list ≡ f
    → h.last ≤ (obtain n h).1.last
unfolding obtain grow hand_out
obtain_last-least-any n h none e = rw (e, obtain) (omega arith)
obtain_last-least-any n h (some x) e = rw (e, obtain) (omega arith)

-- The heap never shrinks.
obtain_last-least : (n : ℕ) (h : Heap) → h.last ≤ (obtain n h).1.last
obtain_last-least n h = obtain_last-least-any n h (first_fit h.blocks n h.list) refl

-- What `malloc` has done for a request of `size` bytes.
pub record Allocation (s : State) (h : Heap) (size : ℕ) : Type 0 where
  pub addr : Ptr
  pub after : State
  pub new : Heap
  pub run : malloc size s ≡ ok (addr + 8) after
  pub becomes : Becomes s h after new
  pub granted : Granted (used h.blocks) (used new.blocks) addr (size + 16)
  pub grows : after.mem_brk ≤ s.mem_brk + adjust size
  pub no_less : s.mem_brk ≤ after.mem_brk

-- In a state that represents a heap, `malloc` of a positive size that does not overflow succeeds
-- where a listed block fits or there is space for a new one. The payload is aligned to 16 bytes and
-- its block holds the requested bytes and both tags; the blocks in use are those of before and the
-- new one; the new state represents a heap again, and the payloads of before keep their bytes.
pub malloc_grants :
    (s : State) (h : Heap) (size : ℕ)
    → Represents s h
    → 0 < size
    → size + 63 < 2 ^ 64
    → Served s h (adjust size)
    → Allocation s h size
malloc_grants s h size v pos lt space =
    let (after, run, becomes) = malloc_refines s h size v pos lt space in
    let g = obtain_grants s h (adjust size) v in
    let b = adjust_bounds size pos (omega arith) in
    record {
      addr = (obtain (adjust size) h).0;
      after = after;
      new = (obtain (adjust size) h).1;
      run = run;
      becomes = becomes;
      grows = omega (
        arith,
        becomes.heap.core.brk,
        becomes.heap.last,
        v.core.brk,
        v.last,
        obtain_last (adjust size) h,
      );
      no_less = omega (
        arith,
        becomes.heap.core.brk,
        becomes.heap.last,
        v.core.brk,
        v.last,
        obtain_last-least (adjust size) h,
      );
      granted = record {
        before = g.before;
        behind = g.behind;
        size = g.size;
        old = g.old;
        new = g.new;
        large = omega (arith, b, g.large);
        aligned = g.aligned;
      };
    }
