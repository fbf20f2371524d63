-- ===== src/Driver/Eval/FreeStep.antt =====
-- A release in a trace, from the check of the data to `free`.
use malloc_for_c.Prelude.{
  ℕ, ◌+◌, ◌<◌, ◌≡◌, ◌≢◌, refl, sym, ap, ◌∙◌, subst, true, false, List, [], ◌∷◌, ◌++◌, count,
  count-append, count_self, arith, ==-true, ==-false,
}
use malloc_for_c.Machine.{State, ok}
use malloc_for_c.Mm.Heap.{used, InPayload}
use malloc_for_c.Mm.Policy.{Heap, release}
use malloc_for_c.Mm.Alloc.{int_minus_one}
use malloc_for_c.Mm.Free.{free}
use malloc_for_c.Mm.Free.Release.{free_refines}
use malloc_for_c.Mm.Client.Payload.{place}
use malloc_for_c.Mm.Session.Payloads.{payloads, count-insert, count-middle}
use malloc_for_c.Driver.Ranges.{seen, remove_range-seen}
use malloc_for_c.Driver.Held.{
  Has, Has-less, Has-split, Has-InPayload, pointers, pointers-middle, other_address, listed_once,
  used-OnceEach,
}
use malloc_for_c.Driver.{is_none, Tester, Setting, remove_range, check_index}
use malloc_for_c.Driver.Eval.{run_free}
use malloc_for_c.Driver.Eval.Slots.{ranges_of, Slot, Agrees}
use malloc_for_c.Driver.Eval.Steps.{Stepped}
use malloc_for_c.Driver.Eval.Checked.{slot_survived}

pub remove_range-middle :
    (blocks sizes : ℕ → ℕ) (l : List ℕ) (i : ℕ) (r : List ℕ)
    → ((j : ℕ) → 0 < count j l → blocks j ≢ blocks i)
    → remove_range (blocks i) (ranges_of blocks sizes (l ++ i ∷ r))
      ≡ ranges_of blocks sizes (l ++ r)
unfolding remove_range
remove_range-middle blocks sizes [] i r h = rw (==-true (blocks i) (blocks i) refl)
remove_range-middle blocks sizes (j ∷ l) i r h = rw (
  ==-false (blocks j) (blocks i) (h j (omega (arith, count_self j l))),
  remove_range-middle blocks sizes l i r (λ x p. h x (ground arith)),
)

module _ (g : Setting) (checked : is_none g.debug_mode ≡ false) (l : List ℕ) (index : ℕ)
    (r : List ℕ) (op : ℕ) (t : Tester) (s : State) (h : Heap)
    (a : Agrees g (l ++ index ∷ r) t s h) where
  abbrev pub mine :
      Slot g s.mem
        (used h.blocks)
        index
        (t.blocks index)
        (t.block_sizes index)
        (t.block_rand_base index)
  mine = a.slots index (omega (arith, count-middle index l index r, count_self index (l ++ r)))

  pub other : (j : ℕ) → 0 < count j (l ++ r) → t.blocks j ≢ t.blocks index
  other = other_address (used h.blocks) (used-OnceEach s h a.heap) t.blocks l index r a.held

  pub alone : count index (l ++ r) ≡ 0
  alone = listed_once (used h.blocks) (used-OnceEach s h a.heap) t.blocks l index r a.held

  -- The block still has its data.
  pub survived : check_index g op index t s ≡ ok t s
  survived =
      slot_survived g checked (l ++ index ∷ r) op t s h a index
        (omega (arith, count-middle index l index r, count_self index (l ++ r)))

  abbrev pub removed : Tester
  removed = record t { ranges = remove_range (t.blocks index) t.ranges }

  -- The block is freed, and its range is forgotten.
  pub released :
      (s' : State) × (free (t.blocks index) s ≡ ok tt s')
      × Stepped g (l ++ r) index t s.mem_brk s.mem_max_addr s.heap removed s'
  released =
      let m = mine in
      let (u, v, e) = Has-split (used h.blocks) m.addr m.room m.in_use in
      let p = place s h u m.addr m.room v a.heap e in
      let d = free_refines s h p.left m.addr m.room p.right a.heap p.blocks in
      let others : used (release m.addr h).blocks ≡ u ++ v =
        d.same_used ∙ ap (λ w. w ++ used p.right) p.used_left ∙ ap (λ w. u ++ w) p.used_right in
      let rest : used p.left ++ used p.right ≡ u ++ v =
        ap (λ w. w ++ used p.right) p.used_left ∙ ap (λ w. u ++ w) p.used_right in
      let freed : free (t.blocks index) s ≡ ok tt d.after = ap (λ w. free w s) m.pointer ∙ d.run in
      (
        d.after,
        freed,
        record {
          policy = release m.addr h;
          agrees = record {
            heap = d.heap;
            ranges =
                ap (remove_range (t.blocks index)) a.ranges
                ∙ remove_range-seen g.ignore_ranges (t.blocks index)
                    (ranges_of t.blocks t.block_sizes (l ++ index ∷ r))
                ∙ ap (seen g.ignore_ranges) (
                    remove_range-middle t.blocks t.block_sizes l index r
                      (λ j q. other j (omega (arith, count-append j l r))));
            held = λ x. omega (
              arith,
              a.held x,
              pointers-middle x t.blocks l index r,
              ap (λ w. count x (payloads w)) e,
              count-insert x u m.addr m.room v,
              ap (λ w. count x (payloads w)) others,
              ap (λ w. count x (w ∷ pointers t.blocks (l ++ r))) m.pointer,
            );
            slots = λ j q.
                let o = a.slots j (omega (arith, count-middle j l index r)) in
                let has : Has (u ++ v) o.addr o.room =
                  Has-less u m.addr m.room v o.addr o.room
                    (λ same. other j q (omega (arith, o.pointer, m.pointer, same)))
                    (subst (λ w. Has w o.addr o.room) e o.in_use) in
                record {
                  addr = o.addr;
                  room = o.room;
                  pointer = o.pointer;
                  in_use = subst (λ w. Has w o.addr o.room) (sym others) has;
                  positive = o.positive;
                  fits = o.fits;
                  filled = λ x lo hi.
                      d.keeps (t.blocks j + x) (
                        subst (λ w. InPayload w (t.blocks j + x)) (sym rest)
                          (Has-InPayload (u ++ v) o.addr o.room (t.blocks j + x) has
                            (omega (arith, o.pointer)) (omega (arith, o.pointer, o.fits))))
                      ∙ o.filled x lo hi;
                  small = o.small;
                };
          };
          no_error = refl;
          grows = omega (arith, d.same_brk);
          same_max = d.same_max;
          same_lo = d.same_lo;
          others = λ j ne. (refl, refl);
        },
      )

  pub free_step :
      (t' : Tester) × (s' : State) × (run_free g op index t s ≡ ok (true, t') s')
      × Stepped g (l ++ r) index t s.mem_brk s.mem_max_addr s.heap t' s'
  unfolding run_free
  free_step =
      let (s', freed, d) = released in
      (
        removed,
        s',
        rw (survived, ==-false index int_minus_one (omega (arith, mine.small)), freed),
        d,
      )
