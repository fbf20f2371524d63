-- ===== src/Driver/Eval.antt =====
-- `eval_mm_valid` of mdriver.c, which runs a trace on mm.c and checks every payload.
pub mod Accept
pub mod Alloc
pub mod Slots
pub mod Steps
pub mod Checked
pub mod FreeStep
pub mod ReallocStep
pub mod ReallocDone
pub mod ReallocZero
pub mod Trace
use malloc_for_c.Prelude.{
  ℕ, zero, suc, ◌%◌, ◌^◌, Bool, true, false, not, ◌&&◌, List, [], ◌∷◌, leb, ltb, ◌==◌,
  if◌then◌else◌,
}
use malloc_for_c.Memory.{Ptr, null}
use malloc_for_c.Machine.{Cmd, pure, ◌>>=◌, ◌>>◌}
use malloc_for_c.Memlib.{mem_reset_brk}
use malloc_for_c.Mm.Alloc.{mm_init, int_minus_one, malloc}
use malloc_for_c.Mm.Free.{free}
use malloc_for_c.Mm.Client.{realloc}
use malloc_for_c.Mm.Check.{mm_checkheap}
use malloc_for_c.Driver.{
  DebugMode, dbg_none, dbg_cheap, dbg_expensive, Range, alloc_op, free_op, realloc_op, TraceOp,
  init_failed, malloc_failed, realloc_failed, realloc_not_null, Tester, Setting, malloc_error,
  add_range, remove_range, clear_ranges, set_at, randomize_block, check_index, negative,
}

abbrev is_expensive : DebugMode → Bool
is_expensive dbg_none = false
is_expensive dbg_cheap = false
is_expensive dbg_expensive = true

unfoldable pub reinit_trace : ℕ → Tester → Tester
reinit_trace num_ids t = record t {
  blocks = λ i. if ltb i num_ids then 0 else t.blocks i;
  block_sizes = λ i. if ltb i num_ids then 0 else t.block_sizes i;
}

-- A block of `size` bytes is at `p`.
abbrev pub remember : ℕ → Ptr → ℕ → Tester → Tester
remember index p size t = record t {
  blocks = set_at index p t.blocks;
  block_sizes = set_at index size t.block_sizes;
}

-- The cases of the switch. The result says whether the run goes on. `add_range` takes the size as an
-- `int`.
unfoldable pub run_alloc : Setting → ℕ → ℕ → ℕ → Tester → Cmd (Bool × Tester)
run_alloc g i index size t = do
  p ← malloc size
  if p == null then pure (false, malloc_error i malloc_failed t) else (do
    added ← add_range g p (size % 2 ^ 32) i index t
    if not added.0 then pure (false, added.1) else (do
      filled ← randomize_block g index (remember index p size added.1)
      pure (true, filled)))

unfoldable pub run_realloc : Setting → ℕ → ℕ → ℕ → Tester → Cmd (Bool × Tester)
run_realloc g i index size t₀ = do
  t ← check_index g i index t₀
  let oldp = t.blocks index
  newp ← realloc oldp size
  if newp == null && not (size == 0)
      then pure (false, malloc_error i realloc_failed t)
      else if not (newp == null) && size == 0
      then pure (false, malloc_error i realloc_not_null t)
      else (do
        let removed = record t { ranges = remove_range oldp t.ranges }
        added ←
            if ltb 0 size
            then add_range g newp (size % 2 ^ 32) i index removed
            else pure (true, removed)
        if not added.0 then pure (false, added.1) else (do
          let a = added.1
          let least = if ltb size (a.block_sizes index) then size else a.block_sizes index
          checked ← check_index g i index (remember index newp least a)
          filled ← randomize_block g index (remember index newp size checked)
          pure (true, filled)))

unfoldable pub run_free : Setting → ℕ → ℕ → Tester → Cmd (Bool × Tester)
run_free g i index t₀ = do
  t ← check_index g i index t₀
  if index == int_minus_one then (do free null; pure (true, t)) else (do
    let p = t.blocks index
    free p
    pure (true, record t { ranges = remove_range p t.ranges }))

unfoldable pub run_op : Setting → ℕ → TraceOp → Tester → Cmd (Bool × Tester)
unfolding run_alloc run_realloc run_free
run_op g i op t = elim op.type [
  | alloc_op ↦ run_alloc g i op.index op.size t
  | free_op ↦ run_free g i op.index t
  | realloc_op ↦ run_realloc g i op.index op.size t
]

unfoldable pub check_ranges : Setting → ℕ → List Range → Tester → Cmd Tester
check_ranges g i [] t = pure t
check_ranges g i (r ∷ rs) t = do checked ← check_index g i r.index t; check_ranges g i rs checked

-- What `eval_mm_valid` does before each operation with -D; `mm_checkheap` only prints.
unfoldable pub before_op : Setting → ℕ → Tester → Cmd Tester
unfolding check_ranges
before_op g i t =
    if is_expensive g.debug_mode then (do mm_checkheap; check_ranges g i t.ranges t) else pure t

-- The loop over the operations, from the `i`-th one on.
unfoldable pub run_ops : Setting → ℕ → List TraceOp → Tester → Cmd (Bool × Tester)
unfolding run_op before_op
run_ops g i [] t = pure (true, t)
run_ops g i (op ∷ ops) t = do
  ready ← before_op g i t
  done ← run_op g i op ready
  if done.0 then run_ops g (suc i) ops done.1 else pure (false, done.1)

unfoldable pub eval_mm_valid : Setting → ℕ → List TraceOp → Tester → Cmd (Bool × Tester)
unfolding reinit_trace run_ops
eval_mm_valid g num_ids ops t = do
  mem_reset_brk
  let cleared = reinit_trace num_ids (clear_ranges t)
  r ← mm_init
  if negative r then pure (false, malloc_error 0 init_failed cleared) else run_ops g 0 ops cleared
