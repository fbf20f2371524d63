-- ===== src/Driver/Util/Whole.antt =====
-- `eval_mm_util` on whole traces.
use malloc_for_c.Prelude.{
  ℕ, ◌+◌, ◌-◌, ◌^◌, ◌≤◌, ◌<◌, ◌≡◌, refl, sym, ap, ◌∙◌, some, List, [], ◌∷◌, ◌++◌, count, arith,
  ltb-true, sub64-eq, ==-false, inl, inr, eq_cases,
}
use malloc_for_c.Machine.{State, ok}
use malloc_for_c.Memlib.{mem_reset_brk, mem_heapsize}
use malloc_for_c.Mm.Heap.{used}
use malloc_for_c.Mm.Policy.{Heap}
use malloc_for_c.Mm.Alloc.{int_minus_one}
use malloc_for_c.Mm.Alloc.Init.{IsFresh, started, no_blocks, mm_init_lem}
use malloc_for_c.Driver.{alloc_op, free_op, realloc_op, TraceOp, Tester}
use malloc_for_c.Driver.Balanced.{
  op, Balanced, done, and_alloc, and_realloc_new, and_realloc, and_realloc_zero, and_free,
  and_free_null, demand, space_for, grow_room,
}
use malloc_for_c.Driver.Held.{listed_once, used-OnceEach}
use malloc_for_c.Driver.Eval.{reinit_trace}
use malloc_for_c.Driver.Util.{Totals, update_mark, util_op, util_ops, eval_mm_util}
use malloc_for_c.Driver.Util.Usage.{
  total, larger, peak, request, pairs_of, forget-absent, forget-middle,
}
use malloc_for_c.Driver.Util.Tracked.{Tracked}
use malloc_for_c.Driver.Util.Rooms.{total-le-heap}
use malloc_for_c.Driver.Util.Steps.{Counted, Summed, util_alloc_step, util_realloc_new_step}
use malloc_for_c.Driver.Util.Releases.{
  util_realloc_step, util_realloc_zero_step, util_free_step, util_free_null_step,
}

update_mark_small :
    (tot : ℕ) (u : Totals)
    → tot < 2 ^ 31
    → u.max_total_size < 2 ^ 31
    → update_mark tot u ≡ record { total_size = tot; max_total_size = larger u.max_total_size tot }
unfolding update_mark
update_mark_small tot u lt lt' = ground arith

larger_assoc : (a b c : ℕ) → larger (larger a b) c ≡ larger a (larger b c)
larger_assoc a b c = ground arith

-- The mark fits in the heap.
abbrev Marked : Totals → State → Type 0
Marked u s = u.max_total_size + s.heap + 40 ≤ s.mem_brk

-- Where the loop ends.
record Ends (pairs : List (ℕ × ℕ)) (ops : List TraceOp) (u : Totals) (t : Tester) (s : State)
    : Type 0 where
  totals : Totals
  tester : Tester
  after : State
  run : util_ops ops u t s ≡ ok (some (totals, tester)) after
  exact : totals.max_total_size ≡ larger u.max_total_size (peak pairs ops)
  marked : Marked totals after
  same_lo : after.heap ≡ s.heap
  bounded : after.mem_brk ≤ after.mem_max_addr
  same_max : after.mem_max_addr ≡ s.mem_max_addr

module _ (num_ids : ℕ) (ints : num_ids ≤ 2 ^ 31) where
  -- The loop goes on behind an operation.
  go_on :
      (x : TraceOp) (ops : List TraceOp) (pairs now : List (ℕ × ℕ)) (live' stale' : List ℕ)
      (limit : ℕ) (u : Totals) (t t' : Tester) (s s' : State)
      (d : Counted num_ids live' stale' now limit s t' s')
      → request x.type x.index x.size pairs ≡ now
      → s.mem_max_addr < s.heap + 2 ^ 31
      → Marked u s
      → util_op x u t s ≡ ok (some (update_mark (total now) u, t')) s'
      → ((u' : Totals)
          → Summed (pairs_of t'.block_sizes live') u' s'
          → Marked u' s'
          → Ends (pairs_of t'.block_sizes live') ops u' t' s')
      → Ends pairs (x ∷ ops) u t s
  unfolding util_ops
  go_on x ops pairs now live' stale' limit u t t' s s' d asked area mark run rest =
      let tot = total now in
      let fits : tot + s'.heap + 40 ≤ s'.mem_brk = omega (
        arith,
        total-le-heap num_ids live' stale' t' s' d.policy d.tracked,
        ap total d.same_pairs,
      ) in
      let room = d.tracked.heap.core.room in
      let u' : Totals = record { total_size = tot; max_total_size = larger u.max_total_size tot } in
      let moved = update_mark_small tot u (omega (arith, d, room)) (omega (arith, d, room)) in
      let e =
        rest u' (record { sum = sym (ap total d.same_pairs); area = omega (arith, d) })
          (ground (arith, d.no_less, d.same_lo)) in
      record {
        totals = e.totals;
        tester = e.tester;
        after = e.after;
        run = rw (run, moved, e.run);
        exact =
            e.exact
            ∙ ap (λ w. larger (larger u.max_total_size tot) (peak w ops)) d.same_pairs
            ∙ larger_assoc u.max_total_size tot (peak now ops)
            ∙ ap (λ w. larger u.max_total_size (larger (total w) (peak w ops))) (sym asked);
        marked = e.marked;
        same_lo = e.same_lo ∙ d.same_lo;
        bounded = e.bounded;
        same_max = e.same_max ∙ d.same_max;
      }

  util_ops_lem :
      (live stale : List ℕ) (ops : List TraceOp) (u : Totals) (t : Tester) (s : State) (h : Heap)
      → Balanced num_ids live stale ops
      → Tracked num_ids live stale t s h
      → Summed (pairs_of t.block_sizes live) u s
      → Marked u s
      → s.mem_brk + demand ops ≤ s.mem_max_addr
      → Ends (pairs_of t.block_sizes live) ops u t s
  unfolding util_ops util_op
  util_ops_lem live stale ops u t s h done a sum mark room = record {
    totals = u;
    tester = t;
    after = s;
    run = refl;
    exact = ground arith;
    marked = mark;
    same_lo = refl;
    bounded = a.heap.core.room;
    same_max = refl;
  }
  util_ops_lem live stale ops u t s h (and_alloc {ops = rest} index size new small pos int b) a sum
        mark room =
      let space = space_for s h size a.heap pos int (omega arith) in
      let (t₁, s₁, run, d) =
        util_alloc_step num_ids live stale index size u t s h a sum new (omega arith) pos int
          space in
      go_on (op alloc_op index size) rest _ _ (index ∷ live) stale _ u t t₁ s s₁ d refl sum.area
        mark run
        (λ u₁ sum₁ mark₁.
          util_ops_lem (index ∷ live) stale rest u₁ t₁ s₁ d.policy b d.tracked sum₁ mark₁
            (omega (arith, d)))
  util_ops_lem live stale ops u t s h
        (and_realloc_new {ops = rest} index size new fresh small pos int b) a sum mark room =
      let enough = grow_room size (demand rest) s pos room in
      let space = space_for s h size a.heap pos int (omega (arith, enough)) in
      let empty = a.clean index small new fresh in
      let (t₁, s₁, run, d) =
        util_realloc_new_step num_ids live stale index size u t s h a sum new (omega arith) pos int
          space empty.0 empty.1 in
      go_on (op realloc_op index size) rest _ _ (index ∷ live) stale _ u t t₁ s s₁ d
        (rw (==-false size 0 (omega arith), forget-absent index t.block_sizes live new) refl)
        sum.area mark run
        (λ u₁ sum₁ mark₁.
          util_ops_lem (index ∷ live) stale rest u₁ t₁ s₁ d.policy b d.tracked sum₁ mark₁
            (omega (arith, d, enough)))
  util_ops_lem live stale ops u t s h (and_realloc {ops = rest} l index r size pos int b) a sum mark
        room =
      let enough = grow_room size (demand rest) s pos room in
      let space = space_for s h size a.heap pos int (omega (arith, enough)) in
      let once =
        listed_once (used h.blocks) (used-OnceEach s h a.heap) t.blocks l index r a.listed.held in
      let (t₁, s₁, run, d) =
        util_realloc_step num_ids l index r stale u t s h a sum size pos int space in
      go_on (op realloc_op index size) rest _ _ (index ∷ (l ++ r)) stale _ u t t₁ s s₁ d
        (rw (==-false size 0 (omega arith), forget-middle l index r t.block_sizes once) refl)
        sum.area mark run
        (λ u₁ sum₁ mark₁.
          util_ops_lem (index ∷ (l ++ r)) stale rest u₁ t₁ s₁ d.policy b d.tracked sum₁ mark₁
            (omega (arith, d, enough)))
  util_ops_lem live stale ops u t s h (and_realloc_zero {ops = rest} l index r b) a sum mark room =
      let once =
        listed_once (used h.blocks) (used-OnceEach s h a.heap) t.blocks l index r a.listed.held in
      let (t₁, s₁, run, d) = util_realloc_zero_step num_ids l index r stale u t s h a sum in
      go_on (op realloc_op index 0) rest _ _ (l ++ r) stale _ u t t₁ s s₁ d
        (forget-middle l index r t.block_sizes once) sum.area mark run
        (λ u₁ sum₁ mark₁.
          util_ops_lem (l ++ r) stale rest u₁ t₁ s₁ d.policy b d.tracked sum₁ mark₁
            (omega (arith, d)))
  util_ops_lem live stale ops u t s h (and_free {ops = rest} l index r size b) a sum mark room =
      let once =
        listed_once (used h.blocks) (used-OnceEach s h a.heap) t.blocks l index r a.listed.held in
      let (s₁, run, d) = util_free_step num_ids l index r stale u t s h a sum in
      go_on (op free_op index size) rest _ _ (l ++ r) (index ∷ stale) _ u t t s s₁ d
        (forget-middle l index r t.block_sizes once) sum.area mark run
        (λ u₁ sum₁ mark₁.
          util_ops_lem (l ++ r) (index ∷ stale) rest u₁ t s₁ d.policy b d.tracked sum₁ mark₁
            (omega (arith, d)))
  util_ops_lem live stale ops u t s h (and_free_null {ops = rest} size b) a sum mark room =
      let none_live : count int_minus_one live ≡ 0 = elim (eq_cases (count int_minus_one live) 0) [
        | inl e ↦ e
        | inr more ↦ absurd (omega (arith, (a.listed.kept int_minus_one (omega arith)).small))
      ] in
      let pairs = pairs_of t.block_sizes live in
      let le = total-le-heap num_ids live stale t s h a in
      let d : Counted num_ids live stale pairs s.mem_brk s t s = record {
        policy = h;
        tracked = a;
        same_pairs = refl;
        grows = omega arith;
        no_less = omega arith;
        same_max = refl;
        same_lo = refl;
      } in
      go_on (op free_op int_minus_one size) rest pairs pairs live stale s.mem_brk u t t s s d
        (forget-absent int_minus_one t.block_sizes live none_live) sum.area mark
        (util_free_null_step u t s h a.heap (omega (arith, sum, le, a.heap.core.room))
          ∙ ap (λ w. ok (some (update_mark w u, t)) s) sum.sum)
        (λ u₁ sum₁ mark₁. util_ops_lem live stale rest u₁ t s h b a sum₁ mark₁ (omega arith))

  -- On a balanced trace with at most 2^31 indices, on an aligned heap area of less than 2^31 bytes
  -- that has space for the prologue and epilogue and for a new block for each request,
  -- `eval_mm_util` runs to its end without `app_error`. The high-water mark that it divides by the
  -- heap size is exactly the largest sum of the sizes of the live requests behind an operation, as
  -- a list of requests gives it; the heap size is at least 40 bytes more, and the heap ends within
  -- its area. The bounds of the heap area stay as they are.
  pub eval_mm_util_lem :
      (ops : List TraceOp) (t : Tester) (s : State)
      → IsFresh (record s { mem_brk = s.heap })
      → Balanced num_ids [] [] ops
      → s.heap + 40 + demand ops ≤ s.mem_max_addr
      → s.mem_max_addr < s.heap + 2 ^ 31
      → (t' : Tester) × (s' : State) × (heap_size : ℕ) × (eval_mm_util num_ids ops t s
          ≡ ok (some (peak [] ops, heap_size, t')) s')
        × (peak [] ops + 40 ≤ heap_size)
        × (s'.heap + heap_size ≤ s'.mem_max_addr)
        × (s'.heap ≡ s.heap)
        × (s'.mem_max_addr ≡ s.mem_max_addr)
  unfolding eval_mm_util mem_reset_brk mem_heapsize reinit_trace
  eval_mm_util_lem ops t s fresh b room area =
      let s₀ : State = record s { mem_brk = s.heap } in
      let (init, v) = mm_init_lem s₀ fresh in
      let cleared = reinit_trace num_ids t in
      let u : Totals = record { total_size = 0; max_total_size = 0 } in
      let e =
        util_ops_lem [] [] ops u cleared (started s₀) (no_blocks (s.heap + 24)) b
          (record {
            heap = v;
            listed = record { held = λ x. refl; kept = λ j p. absurd (omega arith) };
            clean = λ j lt p q. (rw (ltb-true j num_ids lt) refl, rw (ltb-true j num_ids lt) refl);
          })
          (record { sum = refl; area = area }) (omega arith) room in
      let most : e.totals.max_total_size ≡ peak [] ops = ground (arith, e.exact) in
      let small = v.core.fits.small in
      (
        e.tester,
        e.after,
        e.after.mem_brk - e.after.heap,
        rw (
          init,
          e.run,
          sub64-eq e.after.mem_brk e.after.heap (omega (arith, e.marked))
              (omega (arith, e.bounded, e.same_max, small)),
          most,
        ),
        omega (arith, most, e.marked),
        omega (arith, e.bounded, e.marked),
        e.same_lo,
        e.same_max,
      )
