-- ===== src/Driver/Eval/Trace.antt =====
-- `eval_mm_valid` on whole traces.
use malloc_for_c.Prelude.{
  Bool, ℕ, suc, ◌+◌, ◌^◌, ◌≤◌, ◌≡◌, refl, ◌∙◌, true, false, List, [], ◌∷◌, ◌++◌, count_self,
  count_other, arith, ==-true, ltb-true,
}
use malloc_for_c.Machine.{State, ok}
use malloc_for_c.Memlib.{mem_reset_brk}
use malloc_for_c.Mm.Policy.{Heap, Represents}
use malloc_for_c.Mm.Client.Edges.{null_edges}
use malloc_for_c.Mm.Alloc.{int_minus_one}
use malloc_for_c.Mm.Alloc.Init.{IsFresh, started, no_blocks, mm_init_lem}
use malloc_for_c.Mm.Session.Payloads.{count-middle}
use malloc_for_c.Driver.{
  DebugMode, is_none, alloc_op, free_op, realloc_op, TraceOp, Tester, Setting, clear_ranges,
  check_index,
}
use malloc_for_c.Driver.Balanced.{
  op, Balanced, done, and_alloc, and_realloc_new, and_realloc, and_realloc_zero, and_free,
  and_free_null, demand, space_for, grow_room,
}
use malloc_for_c.Driver.Ranges.{seen}
use malloc_for_c.Driver.Held.{Clean, Clean-step}
use malloc_for_c.Driver.Eval.{run_op, run_free, run_ops, reinit_trace, eval_mm_valid}
use malloc_for_c.Driver.Eval.Accept.{checking_setting}
use malloc_for_c.Driver.Eval.Slots.{Agrees}
use malloc_for_c.Driver.Eval.Steps.{Stepped, alloc_step}
use malloc_for_c.Driver.Eval.Checked.{before_op_lem}
use malloc_for_c.Driver.Eval.FreeStep.{free_step}
use malloc_for_c.Driver.Eval.ReallocDone.{realloc_step}
use malloc_for_c.Driver.Eval.ReallocZero.{final, realloc_zero_step}

module _ (mode : DebugMode) (on : is_none mode ≡ false) (ignore : Bool) (random_data random : ℕ → ℕ)
    (num_ids : ℕ) (ints : num_ids ≤ 2 ^ 31) where
  abbrev g : Setting
  g = checking_setting mode ignore random_data random

  abbrev Passes : ℕ → List TraceOp → Tester → State → Type 0
  Passes i ops t s =
      (t' : Tester) × (s' : State) × (run_ops g i ops t s ≡ ok (true, t') s')
      × (t'.errors ≡ t.errors)
      × (s'.heap ≡ s.heap)
      × (s'.mem_max_addr ≡ s.mem_max_addr)

  abbrev CleanIn : List ℕ → List ℕ → Tester → Type 0
  CleanIn live stale t = Clean num_ids live stale t.blocks t.block_sizes

  seen-nil : (b : Bool) → [] ≡ seen b []
  seen-nil true = refl
  seen-nil false = refl

  free_null_op :
      (i : ℕ) (t : Tester) (s : State) (h : Heap)
      → Represents s h
      → run_free g i int_minus_one t s ≡ ok (true, t) s
  unfolding run_free check_index
  free_null_op i t s h v = rw (null_edges s h v).1

  -- The run goes on behind an operation that has passed.
  go_on :
      (i : ℕ) (x : TraceOp) (ops : List TraceOp) (live live' : List ℕ) (index limit : ℕ)
      (t t' : Tester) (s s' : State) (h : Heap)
      → Agrees g live t s h
      → run_op g i x t s ≡ ok (true, t') s'
      → Stepped g live' index t limit s.mem_max_addr s.heap t' s'
      → Passes (suc i) ops t' s'
      → Passes i (x ∷ ops) t s
  unfolding run_ops
  go_on i x ops live live' index limit t t' s s' h a run d (t₂, s₂, go, e, lo, hi) = (
    t₂,
    s₂,
    rw (before_op_lem g on live i t s h a, run, go),
    e ∙ d.no_error,
    lo ∙ d.same_lo,
    hi ∙ d.same_max,
  )

  add-Clean :
      (live stale : List ℕ) (index limit max lo : ℕ) (t t' : Tester) (s' : State)
      → CleanIn live stale t
      → Stepped g (index ∷ live) index t limit max lo t' s'
      → CleanIn (index ∷ live) stale t'
  add-Clean live stale index limit max lo t t' s' c d =
      Clean-step num_ids live stale (index ∷ live) stale index t.blocks t.block_sizes t'.blocks
        t'.block_sizes c d.others (λ j ne p q. (ground arith, q))
        (λ p q. absurd (omega (arith, count_self index live)))

  pub run_ops_lem :
      (live stale : List ℕ) (ops : List TraceOp) (i : ℕ) (t : Tester) (s : State) (h : Heap)
      → Balanced num_ids live stale ops
      → Agrees g live t s h
      → CleanIn live stale t
      → s.mem_brk + demand ops ≤ s.mem_max_addr
      → Passes i ops t s
  unfolding run_ops run_op
  run_ops_lem live stale ops i t s h done a c room = (t, s, refl, refl, refl, refl)
  run_ops_lem live stale ops i t s h (and_alloc {ops = rest} index size new small pos int b) a c
        room =
      let (t₁, s₁, run, d, again) =
        alloc_step mode on ignore random_data random live i index size t s h a new pos int
          (omega arith) (space_for s h size a.heap pos int (omega arith)) in
      go_on i (op alloc_op index size) rest live (index ∷ live) index _ t t₁ s s₁ h a run d (
        run_ops_lem (index ∷ live) stale rest (suc i) t₁ s₁ d.policy b d.agrees
          (add-Clean live stale index _ _ _ t t₁ s₁ c d) (omega (arith, d.grows, d.same_max)))
  run_ops_lem live stale ops i t s h
        (and_realloc_new {ops = rest} index size new fresh small pos int b) a c room =
      let enough = grow_room size (demand rest) s pos room in
      let (t₁, s₁, run, d, again) =
        alloc_step mode on ignore random_data random live i index size t s h a new pos int
          (omega arith) (space_for s h size a.heap pos int (omega (arith, enough))) in
      let empty = c index small new fresh in
      go_on i (op realloc_op index size) rest live (index ∷ live) index _ t t₁ s s₁ h a
        (again empty.0 empty.1) d
        (run_ops_lem (index ∷ live) stale rest (suc i) t₁ s₁ d.policy b d.agrees
          (add-Clean live stale index _ _ _ t t₁ s₁ c d)
          (omega (arith, d.grows, d.same_max, enough)))
  run_ops_lem live stale ops i t s h (and_realloc {ops = rest} l index r size pos int b) a c room =
      let enough = grow_room size (demand rest) s pos room in
      let (t₁, s₁, run, d) =
        realloc_step mode on ignore random_data random l index r i size t s h a pos int
          (space_for s h size a.heap pos int (omega (arith, enough))) in
      go_on i (op realloc_op index size) rest live (index ∷ (l ++ r)) index _ t t₁ s s₁ h a run d (
        run_ops_lem (index ∷ (l ++ r)) stale rest (suc i) t₁ s₁ d.policy b d.agrees
          (Clean-step num_ids (l ++ index ∷ r) stale (index ∷ (l ++ r)) stale index t.blocks
            t.block_sizes t₁.blocks t₁.block_sizes c d.others
            (λ j ne p q. (omega (arith, count-middle j l index r), q))
            (λ p q. absurd (omega (arith, count_self index (l ++ r)))))
          (omega (arith, d.grows, d.same_max, enough)))
  run_ops_lem live stale ops i t s h (and_realloc_zero {ops = rest} l index r b) a c room =
      let (s₁, run, d) = realloc_zero_step g on l index r i t s h a in
      let t₁ = final g on l index r i t s h a in
      go_on i (op realloc_op index 0) rest live (l ++ r) index _ t t₁ s s₁ h a run d (
        run_ops_lem (l ++ r) stale rest (suc i) t₁ s₁ d.policy b d.agrees
          (Clean-step num_ids (l ++ index ∷ r) stale (l ++ r) stale index t.blocks t.block_sizes
            t₁.blocks t₁.block_sizes c d.others
            (λ j ne p q.
              (omega (arith, count-middle j l index r, count_other j index (l ++ r) ne), q))
            (λ p q. (rw (==-true index index refl) refl, rw (==-true index index refl) refl)))
          (omega (arith, d.grows, d.same_max)))
  run_ops_lem live stale ops i t s h (and_free {ops = rest} l index r size b) a c room =
      let (t₁, s₁, run, d) = free_step g on l index r i t s h a in
      go_on i (op free_op index size) rest live (l ++ r) index _ t t₁ s s₁ h a run d (
        run_ops_lem (l ++ r) (index ∷ stale) rest (suc i) t₁ s₁ d.policy b d.agrees
          (Clean-step num_ids (l ++ index ∷ r) stale (l ++ r) (index ∷ stale) index t.blocks
            t.block_sizes t₁.blocks t₁.block_sizes c d.others
            (λ j ne p q. (
              omega (arith, count-middle j l index r, count_other j index (l ++ r) ne),
              omega (arith, count_other j index stale ne),
            ))
            (λ p q. absurd (omega (arith, count_self index stale))))
          (omega (arith, d.grows, d.same_max)))
  run_ops_lem live stale ops i t s h (and_free_null {ops = rest} size b) a c room =
      let (t₂, s₂, go, e, lo, hi) = run_ops_lem live stale rest (suc i) t s h b a c (omega arith) in
      (t₂, s₂, rw (before_op_lem g on live i t s h a, free_null_op i t s h a.heap, go), e, lo, hi)

  -- With the checks on, cheap or those of -D, and with the ranges checked or ignored,
  -- `eval_mm_valid` runs to its end, returns 1 and reports no error on mm.c, on an aligned heap
  -- area with space for the prologue and epilogue and a new block for each request. This is for
  -- every balanced trace with at most 2^31 indices: it allocates indices that are not live, frees
  -- live ones and index -1, and reallocates live ones, to size 0 too, and ones whose pointer is
  -- null; the other sizes are positive `int`s. The bounds of the heap area stay as they are.
  pub eval_mm_valid_lem :
      (ops : List TraceOp) (t : Tester) (s : State)
      → IsFresh (record s { mem_brk = s.heap })
      → Balanced num_ids [] [] ops
      → s.heap + 40 + demand ops ≤ s.mem_max_addr
      → (t' : Tester) × (s' : State) × (eval_mm_valid g num_ids ops t s ≡ ok (true, t') s')
        × (t'.errors ≡ t.errors)
        × (s'.heap ≡ s.heap)
        × (s'.mem_max_addr ≡ s.mem_max_addr)
  unfolding eval_mm_valid mem_reset_brk reinit_trace clear_ranges
  eval_mm_valid_lem ops t s fresh b room =
      let s₀ : State = record s { mem_brk = s.heap } in
      let (init, v) = mm_init_lem s₀ fresh in
      let cleared = reinit_trace num_ids (clear_ranges t) in
      let (t', s', run, e, lo, hi) =
        run_ops_lem [] [] ops 0 cleared (started s₀) (no_blocks (s.heap + 24)) b
          (record {
            heap = v;
            ranges = seen-nil ignore;
            held = λ x. refl;
            slots = λ j p. absurd (omega arith);
          })
          (λ j lt p q. (rw (ltb-true j num_ids lt) refl, rw (ltb-true j num_ids lt) refl)) room in
      (t', s', rw init run, e, lo, hi)
