-- ===== src/Driver/Util.antt =====
-- `eval_mm_util` of mdriver.c, which runs a trace on mm.c and compares the most bytes that were ever
-- live with the size of the heap; the sums are `int`s.
pub mod Usage
pub mod Tracked
pub mod Rooms
pub mod Steps
pub mod Releases
pub mod Whole
use malloc_for_c.Prelude.{
  ℕ, suc, ◌+◌, ◌-◌, ◌%◌, ◌^◌, Bool, true, false, not, ◌&&◌, Option, none, some, List, [], ◌∷◌, ltb,
  ◌==◌, if◌then◌else◌,
}
use malloc_for_c.Memory.{Ptr, null}
use malloc_for_c.Machine.{Cmd, pure, ◌>>=◌, ◌>>◌}
use malloc_for_c.Memlib.{mem_reset_brk, mem_heapsize}
use malloc_for_c.Mm.Alloc.{mm_init, malloc}
use malloc_for_c.Mm.Free.{free}
use malloc_for_c.Mm.Client.{realloc}
use malloc_for_c.Driver.{OpType, alloc_op, free_op, realloc_op, TraceOp, Tester, set_at, negative}
use malloc_for_c.Driver.Eval.{reinit_trace, remember}

-- An `int` is a pattern of 32 bits. The conversions of a `size_t` to an `int`, and back.
abbrev pub to_int : ℕ → ℕ
to_int size = size % 2 ^ 32

abbrev pub to_size : ℕ → ℕ
to_size int = if negative int then int + 2 ^ 64 - 2 ^ 32 else int

abbrev pub add32 : ℕ → ℕ → ℕ
add32 a b = (a + b) % 2 ^ 32

abbrev pub sub32 : ℕ → ℕ → ℕ
sub32 a b = (a + 2 ^ 32 - b) % 2 ^ 32

-- `a < b` for `int`s.
abbrev pub int_lt : ℕ → ℕ → Bool
int_lt a b = ltb (add32 a (2 ^ 31)) (add32 b (2 ^ 31))

-- `total_size` and `max_total_size`.
pub record Totals : Type 0 where
  pub total_size : ℕ
  pub max_total_size : ℕ

-- The new total, and the high-water mark.
unfoldable pub update_mark : ℕ → Totals → Totals
update_mark total u = record {
  total_size = total;
  max_total_size = if int_lt u.max_total_size total then total else u.max_total_size;
}

-- The cases of the switch; `none` is `app_error`, which ends the program.
unfoldable pub util_alloc : ℕ → ℕ → Totals → Tester → Cmd (Option (Totals × Tester))
unfolding update_mark
util_alloc index op_size u t = do
  let size = to_int op_size
  p ← malloc (to_size size)
  pure (
      if p == null
      then none
      else some (update_mark (add32 u.total_size size) u, remember index p (to_size size) t))

unfoldable pub util_realloc : ℕ → ℕ → Totals → Tester → Cmd (Option (Totals × Tester))
unfolding update_mark
util_realloc index op_size u t = do
  let newsize = to_int op_size
  let oldsize = to_int (t.block_sizes index)
  newp ← realloc (t.blocks index) (to_size newsize)
  pure (
      if newp == null && not (newsize == 0)
      then none
      else some (
        update_mark (add32 u.total_size (sub32 newsize oldsize)) u,
        remember index newp (to_size newsize) t,
      ))

unfoldable pub util_free : ℕ → Totals → Tester → Cmd (Option (Totals × Tester))
unfolding update_mark
util_free index u t = do
  let size = if negative index then 0 else to_int (t.block_sizes index)
  free (if negative index then null else t.blocks index)
  pure (some (update_mark (sub32 u.total_size size) u, t))

unfoldable pub util_op : TraceOp → Totals → Tester → Cmd (Option (Totals × Tester))
unfolding util_alloc util_realloc util_free
util_op op u t = elim op.type [
  | alloc_op ↦ util_alloc op.index op.size u t
  | free_op ↦ util_free op.index u t
  | realloc_op ↦ util_realloc op.index op.size u t
]

unfoldable pub util_ops : List TraceOp → Totals → Tester → Cmd (Option (Totals × Tester))
unfolding util_op
util_ops [] u t = pure (some (u, t))
util_ops (op ∷ ops) u t = do
  done ← util_op op u t
  elim done [ none ↦ pure none | some (u', t') ↦ util_ops ops u' t' ]

-- The result is the two numbers that the code divides as `double`s, `max_total_size` and
-- `mem_heapsize()`, and the arrays of the trace.
unfoldable pub eval_mm_util : ℕ → List TraceOp → Tester → Cmd (Option (ℕ × ℕ × Tester))
unfolding reinit_trace util_ops
eval_mm_util num_ids ops t = do
  let cleared = reinit_trace num_ids t
  mem_reset_brk
  r ← mm_init
  if negative r then pure none else (do
    done ← util_ops ops (record { total_size = 0; max_total_size = 0 }) cleared
    elim done [
      | none ↦ pure none
      | some (u, t') ↦ do size ← mem_heapsize; pure (some (u.max_total_size, size, t'))
    ])
