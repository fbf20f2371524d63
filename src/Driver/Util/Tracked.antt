-- ===== src/Driver/Util/Tracked.antt =====
-- The blocks of a trace in a heap: the block in use of each live index, large enough for its size.
use malloc_for_c.Prelude.{
  ℕ, ◌+◌, ◌^◌, ◌≤◌, ◌<◌, ◌≡◌, ◌≢◌, refl, sym, ap, subst, inl, inr, List, ◌∷◌, ◌++◌, count, arith,
  ==-true, ==-false, eq_cases, ◌∙◌,
}
use malloc_for_c.Memory.{Ptr}
use malloc_for_c.Machine.{State}
use malloc_for_c.Mm.Heap.{used}
use malloc_for_c.Mm.Policy.{Heap, Represents}
use malloc_for_c.Mm.Alloc.Grant.{Granted}
use malloc_for_c.Mm.Session.Payloads.{payloads, count-insert, count-middle}
use malloc_for_c.Driver.{Tester, set_at}
use malloc_for_c.Driver.Held.{
  Has, Has-more, Has-here, Has-less, pointers, pointers-set, pointers-add, pointers-middle,
  OnceEach, PointersHeld, other_address, Clean,
}

-- The block of the index `j`, of `size` bytes at `p`.
pub record Kept (us : List (Ptr × ℕ)) (j p size : ℕ) : Type 0 where
  pub addr : Ptr
  pub room : ℕ
  pub pointer : p ≡ addr + 8
  pub in_use : Has us addr room
  pub positive : 0 < size
  pub fits : size + 16 ≤ room
  pub small : j < 2 ^ 31

pub record Listed (us : List (Ptr × ℕ)) (live : List ℕ) (blocks : ℕ → Ptr) (sizes : ℕ → ℕ)
    : Type 0 where
  pub held : PointersHeld blocks live us
  pub kept : (j : ℕ) → 0 < count j live → Kept us j (blocks j) (sizes j)

-- The arrays and the heap agree.
pub record Tracked (num_ids : ℕ) (live stale : List ℕ) (t : Tester) (s : State) (h : Heap)
    : Type 0 where
  pub heap : Represents s h
  pub listed : Listed (used h.blocks) live t.blocks t.block_sizes
  pub clean : Clean num_ids live stale t.blocks t.block_sizes

-- One more block.
pub Listed-Granted :
    (us us' : List (Ptr × ℕ)) (live : List ℕ) (blocks sizes : ℕ → ℕ) (index addr size : ℕ)
    → Listed us live blocks sizes
    → count index live ≡ 0
    → Granted us us' addr (size + 16)
    → 0 < size
    → index < 2 ^ 31
    → Listed us' (index ∷ live) (set_at index (addr + 8) blocks) (set_at index size sizes)
Listed-Granted us us' live blocks sizes index addr size d out k pos small = record {
  held = λ x. omega (
    arith,
    d.held x,
    ap (λ w. count x (payloads w)) k.old,
    ap (λ w. count x (payloads w)) k.new,
    count-insert x k.before addr k.size k.behind,
    ap (count x) (pointers-add index (addr + 8) blocks live out),
  );
  kept = λ j p. elim (eq_cases j index) [
    | inl here ↦
        rw (here, ==-true index index refl)
          (record {
            addr = addr;
            room = k.size;
            pointer = refl;
            in_use =
                subst (λ w. Has w addr k.size) (sym k.new) (Has-here k.before addr k.size k.behind);
            positive = pos;
            fits = k.large;
            small = small;
          })
    | inr there ↦
        let o = d.kept j (ground arith) in
        rw (==-false j index there) (record {
          addr = o.addr;
          room = o.room;
          pointer = o.pointer;
          in_use =
              subst (λ w. Has w o.addr o.room) (sym k.new)
                (Has-more k.before (addr, k.size) k.behind o.addr o.room
                  (subst (λ w. Has w o.addr o.room) k.old o.in_use));
          positive = o.positive;
          fits = o.fits;
          small = o.small;
        })
  ];
}

-- One block less.
pub Listed-less :
    (us u : List (Ptr × ℕ)) (addr room : ℕ) (v : List (Ptr × ℕ)) (l : List ℕ) (index : ℕ)
    (r : List ℕ) (blocks sizes : ℕ → ℕ)
    → OnceEach us
    → Listed us (l ++ index ∷ r) blocks sizes
    → us ≡ u ++ (addr, room) ∷ v
    → blocks index ≡ addr + 8
    → Listed (u ++ v) (l ++ r) blocks sizes
Listed-less us u addr room v l index r blocks sizes once d e at = record {
  held = λ x. omega (
    arith,
    d.held x,
    pointers-middle x blocks l index r,
    ap (λ w. count x (payloads w)) e,
    count-insert x u addr room v,
    ap (λ w. count x (w ∷ pointers blocks (l ++ r))) at,
  );
  kept = λ j q.
      let o = d.kept j (omega (arith, count-middle j l index r)) in
      record {
        addr = o.addr;
        room = o.room;
        pointer = o.pointer;
        in_use =
            Has-less u addr room v o.addr o.room
              (λ same.
                other_address us once blocks l index r d.held j q
                  (omega (arith, o.pointer, at, same)))
              (subst (λ w. Has w o.addr o.room) e o.in_use);
        positive = o.positive;
        fits = o.fits;
        small = o.small;
      };
}

-- What the arrays hold for an index that is not live does not matter.
pub Listed-set :
    (us : List (Ptr × ℕ)) (live : List ℕ) (blocks sizes : ℕ → ℕ) (index p n : ℕ)
    → Listed us live blocks sizes
    → count index live ≡ 0
    → Listed us live (set_at index p blocks) (set_at index n sizes)
Listed-set us live blocks sizes index p n d out = record {
  held = λ x. ap (count x) (pointers-set index p blocks live out) ∙ d.held x;
  kept = λ j q.
      let ne : j ≢ index = λ e. omega (arith, ap (λ w. count w live) e) in
      rw (==-false j index ne) (d.kept j q);
}
