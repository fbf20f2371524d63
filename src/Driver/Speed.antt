-- ===== src/Driver/Speed.antt =====
-- `eval_mm_speed` of mdriver.c, the run of a trace on mm.c that is timed.
pub mod Same
use malloc_for_c.Prelude.{ℕ, not, ◌&&◌, Option, none, some, List, [], ◌∷◌, ◌==◌, if◌then◌else◌}
use malloc_for_c.Memory.{null}
use malloc_for_c.Machine.{Cmd, pure, ◌>>=◌, ◌>>◌}
use malloc_for_c.Memlib.{mem_reset_brk}
use malloc_for_c.Mm.Alloc.{mm_init, malloc}
use malloc_for_c.Mm.Free.{free}
use malloc_for_c.Mm.Client.{realloc}
use malloc_for_c.Driver.{alloc_op, free_op, realloc_op, TraceOp, Tester, set_at, negative}
use malloc_for_c.Driver.Eval.{reinit_trace}
use malloc_for_c.Driver.Util.{to_int, to_size}

-- The cases of the switch; `none` is `app_error`, which ends the program.
unfoldable pub speed_alloc : ℕ → ℕ → Tester → Cmd (Option Tester)
speed_alloc index op_size t = do
  let size = to_int op_size
  p ← malloc (to_size size)
  pure (if p == null then none else some (record t { blocks = set_at index p t.blocks }))

unfoldable pub speed_realloc : ℕ → ℕ → Tester → Cmd (Option Tester)
speed_realloc index op_size t = do
  let newsize = to_int op_size
  newp ← realloc (t.blocks index) (to_size newsize)
  pure (
      if newp == null && not (newsize == 0)
      then none
      else some (record t { blocks = set_at index newp t.blocks }))

unfoldable pub speed_free : ℕ → Tester → Cmd (Option Tester)
speed_free index t = do free (if negative index then null else t.blocks index); pure (some t)

unfoldable pub speed_op : TraceOp → Tester → Cmd (Option Tester)
unfolding speed_alloc speed_realloc speed_free
speed_op op t = elim op.type [
  | alloc_op ↦ speed_alloc op.index op.size t
  | free_op ↦ speed_free op.index t
  | realloc_op ↦ speed_realloc op.index op.size t
]

unfoldable pub speed_ops : List TraceOp → Tester → Cmd (Option Tester)
unfolding speed_op
speed_ops [] t = pure (some t)
speed_ops (op ∷ ops) t = do
  done ← speed_op op t
  elim done [ none ↦ pure none | some t' ↦ speed_ops ops t' ]

unfoldable pub eval_mm_speed : ℕ → List TraceOp → Tester → Cmd (Option Tester)
unfolding reinit_trace speed_ops
eval_mm_speed num_ids ops t = do
  let cleared = reinit_trace num_ids t
  mem_reset_brk
  r ← mm_init
  if negative r then pure none else speed_ops ops cleared
