-- ===== src/Driver/Util/Releases.antt =====
-- The operations of a trace in `eval_mm_util` that give up a block.
use malloc_for_c.Prelude.{
  ℕ, ◌+◌, ◌%◌, ◌^◌, ◌<◌, ◌≡◌, refl, sym, ap, ◌∙◌, subst, some, List, ◌∷◌, ◌++◌, count, count_self,
  count_other, arith, ==-true, ==-false, leb-false,
}
use malloc_for_c.Memory.{null}
use malloc_for_c.Machine.{State, ok}
use malloc_for_c.Memlib.Break.{HasSpace}
use malloc_for_c.Mm.Heap.{used}
use malloc_for_c.Mm.Policy.{Heap, Represents, release}
use malloc_for_c.Mm.Alloc.{adjust, int_minus_one}
use malloc_for_c.Mm.Free.{free}
use malloc_for_c.Mm.Free.Release.{free_refines}
use malloc_for_c.Mm.Client.{realloc}
use malloc_for_c.Mm.Client.Payload.{place}
use malloc_for_c.Mm.Client.Realloc.{realloc_moves}
use malloc_for_c.Mm.Client.Edges.{null_edges}
use malloc_for_c.Mm.Session.Payloads.{count-middle}
use malloc_for_c.Driver.{Tester}
use malloc_for_c.Driver.Held.{Has-split, used-OnceEach, listed_once, Clean-step}
use malloc_for_c.Driver.Eval.{remember}
use malloc_for_c.Driver.Eval.ReallocZero.{realloc-zero}
use malloc_for_c.Driver.Util.{Totals, add32, sub32, update_mark, util_realloc, util_free}
use malloc_for_c.Driver.Util.Usage.{total, pairs_of, pairs_of-set, pairs_of-add, total-middle}
use malloc_for_c.Driver.Util.Tracked.{
  Kept, Listed, Tracked, Listed-Granted, Listed-less, Listed-set,
}
use malloc_for_c.Driver.Util.Rooms.{total-le-heap}
use malloc_for_c.Driver.Util.Steps.{Counted, Counted-small, Summed}

module _ (num_ids : ℕ) (l : List ℕ) (index : ℕ) (r stale : List ℕ) (u : Totals) (t : Tester)
    (s : State) (h : Heap) (a : Tracked num_ids (l ++ index ∷ r) stale t s h)
    (sum : Summed (pairs_of t.block_sizes (l ++ index ∷ r)) u s) where
  abbrev mine : Kept (used h.blocks) index (t.blocks index) (t.block_sizes index)
  mine =
      a.listed.kept index (omega (arith, count-middle index l index r, count_self index (l ++ r)))

  abbrev rest : ℕ
  rest = total (pairs_of t.block_sizes (l ++ r))

  alone : count index (l ++ r) ≡ 0
  alone = listed_once (used h.blocks) (used-OnceEach s h a.heap) t.blocks l index r a.listed.held

  -- The old total, with the size of the block in it.
  sums : (u.total_size ≡ t.block_sizes index + rest) × (t.block_sizes index + rest < 2 ^ 31)
  sums = (
    omega (arith, sum.sum, total-middle l index r t.block_sizes),
    omega (
      arith,
      total-le-heap num_ids (l ++ index ∷ r) stale t s h a,
      total-middle l index r t.block_sizes,
      a.heap.core.room,
      sum.area,
    ),
  )

  -- The blocks without this one.
  without :
      (x y : List (ℕ × ℕ))
      → used h.blocks ≡ x ++ (mine.addr, mine.room) ∷ y
      → Listed (x ++ y) (l ++ r) t.blocks t.block_sizes
  without x y e =
      Listed-less (used h.blocks) x mine.addr mine.room y l index r t.blocks t.block_sizes
        (used-OnceEach s h a.heap) a.listed e mine.pointer

  abbrev Given : List (ℕ × ℕ) → List ℕ → List ℕ → ℕ → Tester → State → Type 0
  Given pairs live' stale' limit t' s' = Counted num_ids live' stale' pairs limit s t' s'

  pub util_realloc_step :
      (size : ℕ)
      → 0 < size
      → size < 2 ^ 31
      → HasSpace s (adjust size)
      → (t' : Tester) × (s' : State) × (util_realloc index size u t s
          ≡ ok (some (update_mark (size + rest) u, t')) s')
        × Given
            ((index, size) ∷ pairs_of t.block_sizes (l ++ r))
            (index ∷ (l ++ r))
            stale
            (s.mem_brk + adjust size)
            t'
            s'
  unfolding util_realloc
  util_realloc_step size pos int space =
      let m = mine in
      let (x, y, e) = Has-split (used h.blocks) m.addr m.room m.in_use in
      let d = realloc_moves s h x m.addr m.room y size a.heap e pos (omega arith) (λ n. space) in
      let t' = remember index (d.addr + 8) size t in
      let moved : realloc (t.blocks index) size s ≡ ok (d.addr + 8) d.after =
        ap (λ w. realloc w size s) m.pointer ∙ d.run in
      let counted : Given ((index, size) ∷ pairs_of t.block_sizes (l ++ r)) (index ∷ (l ++ r)) stale
          (s.mem_brk + adjust size) t' d.after =
        record {
          policy = d.new;
          tracked = record {
            heap = d.heap;
            listed =
                Listed-Granted (x ++ y) (used d.new.blocks) (l ++ r) t.blocks t.block_sizes index
                  d.addr size (without x y e) alone d.granted pos m.small;
            clean =
                Clean-step num_ids (l ++ index ∷ r) stale (index ∷ (l ++ r)) stale index t.blocks
                  t.block_sizes t'.blocks t'.block_sizes a.clean
                  (λ j ne. (rw (==-false j index ne) refl, rw (==-false j index ne) refl))
                  (λ j ne p q. (omega (arith, count-middle j l index r), q))
                  (λ p q. absurd (omega (arith, count_self index (l ++ r))));
          };
          same_pairs = pairs_of-add index size t.block_sizes (l ++ r) alone;
          grows = d.grows;
          no_less = d.no_less;
          same_max = d.same_max;
          same_lo = d.same_lo;
        } in
      let small =
        Counted-small num_ids (index ∷ (l ++ r)) stale _ _ s t' d.after counted sum.area in
      let int_size : size % 2 ^ 32 ≡ size = omega arith in
      let old_size : t.block_sizes index % 2 ^ 32 ≡ t.block_sizes index = omega (arith, sums) in
      let exact : add32 u.total_size (sub32 size (t.block_sizes index)) ≡ size + rest =
        omega (arith, sums, small) in
      (
        t',
        d.after,
        rw (
          int_size,
          old_size,
          leb-false (2 ^ 31) size int,
          moved,
          ==-false (d.addr + 8) null (omega arith),
          exact,
        ),
        counted,
      )

  -- The block is freed; what the arrays hold for its index is free to choose.
  record Freed : Type 0 where
    after : State
    run : free (t.blocks index) s ≡ ok tt after
    policy : Heap
    heap : Represents after policy
    listed : Listed (used policy.blocks) (l ++ r) t.blocks t.block_sizes
    same_lo : after.heap ≡ s.heap
    same_max : after.mem_max_addr ≡ s.mem_max_addr
    same_brk : after.mem_brk ≡ s.mem_brk

  freed : Freed
  freed =
      let m = mine in
      let (x, y, e) = Has-split (used h.blocks) m.addr m.room m.in_use in
      let p = place s h x m.addr m.room y a.heap e in
      let d = free_refines s h p.left m.addr m.room p.right a.heap p.blocks in
      let others : used (release m.addr h).blocks ≡ x ++ y =
        d.same_used ∙ ap (λ w. w ++ used p.right) p.used_left ∙ ap (λ w. x ++ w) p.used_right in
      record {
        after = d.after;
        run = ap (λ w. free w s) m.pointer ∙ d.run;
        policy = release m.addr h;
        heap = d.heap;
        listed = subst (λ w. Listed w (l ++ r) t.blocks t.block_sizes) (sym others) (without x y e);
        same_lo = d.same_lo;
        same_max = d.same_max;
        same_brk = d.same_brk;
      }

  pub util_realloc_zero_step :
      (t' : Tester) × (s' : State) × (util_realloc index 0 u t s
        ≡ ok (some (update_mark rest u, t')) s')
      × Given (pairs_of t.block_sizes (l ++ r)) (l ++ r) stale s.mem_brk t' s'
  unfolding util_realloc
  util_realloc_zero_step =
      let d = freed in
      let t' = remember index null 0 t in
      let self = ==-true index index refl in
      let old_size : t.block_sizes index % 2 ^ 32 ≡ t.block_sizes index = omega (arith, sums) in
      let exact : add32 u.total_size (sub32 0 (t.block_sizes index)) ≡ rest = omega (arith, sums) in
      (
        t',
        d.after,
        rw (old_size, realloc-zero (t.blocks index) s d.after d.run, exact),
        record {
          policy = d.policy;
          tracked = record {
            heap = d.heap;
            listed =
                Listed-set (used d.policy.blocks) (l ++ r) t.blocks t.block_sizes index null 0
                  d.listed alone;
            clean =
                Clean-step num_ids (l ++ index ∷ r) stale (l ++ r) stale index t.blocks
                  t.block_sizes t'.blocks t'.block_sizes a.clean
                  (λ j ne. (rw (==-false j index ne) refl, rw (==-false j index ne) refl))
                  (λ j ne p q.
                    (omega (arith, count-middle j l index r, count_other j index (l ++ r) ne), q))
                  (λ p q. (rw self refl, rw self refl));
          };
          same_pairs = pairs_of-set index 0 t.block_sizes (l ++ r) alone;
          grows = omega (arith, d.same_brk);
          no_less = omega (arith, d.same_brk);
          same_max = d.same_max;
          same_lo = d.same_lo;
        },
      )

  pub util_free_step :
      (s' : State) × (util_free index u t s ≡ ok (some (update_mark rest u, t)) s')
      × Given (pairs_of t.block_sizes (l ++ r)) (l ++ r) (index ∷ stale) s.mem_brk t s'
  unfolding util_free
  util_free_step =
      let d = freed in
      let old_size : t.block_sizes index % 2 ^ 32 ≡ t.block_sizes index = omega (arith, sums) in
      let exact : sub32 u.total_size (t.block_sizes index) ≡ rest = omega (arith, sums) in
      (
        d.after,
        rw (leb-false (2 ^ 31) index mine.small, d.run, old_size, exact),
        record {
          policy = d.policy;
          tracked = record {
            heap = d.heap;
            listed = d.listed;
            clean =
                Clean-step num_ids (l ++ index ∷ r) stale (l ++ r) (index ∷ stale) index t.blocks
                  t.block_sizes t.blocks t.block_sizes a.clean (λ j ne. (refl, refl))
                  (λ j ne p q. (
                    omega (arith, count-middle j l index r, count_other j index (l ++ r) ne),
                    omega (arith, count_other j index stale ne),
                  ))
                  (λ p q. absurd (omega (arith, count_self index stale)));
          };
          same_pairs = refl;
          grows = omega (arith, d.same_brk);
          no_less = omega (arith, d.same_brk);
          same_max = d.same_max;
          same_lo = d.same_lo;
        },
      )

-- `free` of the null pointer changes nothing.
pub util_free_null_step :
    (u : Totals) (t : Tester) (s : State) (h : Heap)
    → Represents s h
    → u.total_size < 2 ^ 31
    → util_free int_minus_one u t s ≡ ok (some (update_mark u.total_size u, t)) s
unfolding util_free
util_free_null_step u t s h v lt =
    let exact : sub32 u.total_size 0 ≡ u.total_size = omega arith in
    rw ((null_edges s h v).1, exact)
