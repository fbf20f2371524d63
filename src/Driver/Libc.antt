-- ===== src/Driver/Libc.antt =====
-- `eval_libc_valid` and `eval_libc_speed` of mdriver.c, which run a trace on the C library's
-- allocator.
pub mod Same
use malloc_for_c.Prelude.{
  ℕ, ◌+◌, ◌-◌, ◌^◌, ◌≤◌, ◌<◌, ◌≡◌, refl, subst, ◌⊎◌, inl, inr, true, false, not, ◌&&◌, Option, none,
  some, List, [], ◌∷◌, ◌==◌, if◌then◌else◌, arith, leb-true, leb-false, Bool-cases,
}
use malloc_for_c.Memory.{Ptr, null}
use malloc_for_c.Driver.{
  OpType, alloc_op, free_op, realloc_op, TraceOp, Tester, malloc_failed, realloc_failed,
  malloc_error, set_at, negative,
}
use malloc_for_c.Driver.Balanced.{op}
use malloc_for_c.Driver.Eval.{reinit_trace}
use malloc_for_c.Driver.Util.{to_int, to_size}

-- The C library's allocator: each call gives its result and the allocator's next state.
pub record Libc (W : Type 0) : Type 0 where
  pub malloc : ℕ → W → Ptr × W
  pub realloc : Ptr → ℕ → W → Ptr × W
  pub free : Ptr → W → W

-- How a run ends: it goes on, or the program exits with the errors that it has printed.
pub data LibcRun (W : Type 0) : Type 0 where
  goes_on : Tester → W → LibcRun W
  unix_error : Tester → LibcRun W

module _ {W : Type 0} (c : Libc W) where
  abbrev pub behind : LibcRun W → (Tester → W → LibcRun W) → LibcRun W
  behind (goes_on t w) k = k t w
  behind (unix_error t) k = unix_error t

  unfoldable pub libc_valid_op : ℕ → TraceOp → Tester → W → LibcRun W
  libc_valid_op i op t w = elim op.type [
    | alloc_op ↦
        let (p, w') = c.malloc op.size w in
        if p == null
        then unix_error (malloc_error i malloc_failed t)
        else goes_on (record t { blocks = set_at op.index p t.blocks }) w'
    | realloc_op ↦
        let newsize = to_int op.size in
        let (newp, w') = c.realloc (t.blocks op.index) (to_size newsize) w in
        if newp == null && not (newsize == 0)
        then unix_error (malloc_error i realloc_failed t)
        else goes_on (record t { blocks = set_at op.index newp t.blocks }) w'
    | free_op ↦
        goes_on t (if not (negative op.index) then c.free (t.blocks op.index) w else c.free null w)
  ]

  unfoldable pub libc_valid_ops : ℕ → List TraceOp → Tester → W → LibcRun W
  unfolding libc_valid_op
  libc_valid_ops i [] t w = goes_on t w
  libc_valid_ops i (op ∷ ops) t w =
      behind (libc_valid_op i op t w) (λ t' w'. libc_valid_ops (i + 1) ops t' w')

  -- It returns 1 if it goes on to the end.
  unfoldable pub eval_libc_valid : ℕ → List TraceOp → Tester → W → LibcRun W
  unfolding libc_valid_ops reinit_trace
  eval_libc_valid num_ids ops t w = libc_valid_ops 0 ops (reinit_trace num_ids t) w

  unfoldable pub libc_speed_op : TraceOp → Tester → W → LibcRun W
  libc_speed_op op t w = elim op.type [
    | alloc_op ↦
        let size = to_int op.size in
        let (p, w') = c.malloc (to_size size) w in
        if p == null
        then unix_error t
        else goes_on (record t { blocks = set_at op.index p t.blocks }) w'
    | realloc_op ↦
        let newsize = to_int op.size in
        let (newp, w') = c.realloc (t.blocks op.index) (to_size newsize) w in
        if newp == null && not (newsize == 0)
        then unix_error t
        else goes_on (record t { blocks = set_at op.index newp t.blocks }) w'
    | free_op ↦
        goes_on t (if not (negative op.index) then c.free (t.blocks op.index) w else c.free null w)
  ]

  unfoldable pub libc_speed_ops : List TraceOp → Tester → W → LibcRun W
  unfolding libc_speed_op
  libc_speed_ops [] t w = goes_on t w
  libc_speed_ops (op ∷ ops) t w = behind (libc_speed_op op t w) (λ t' w'. libc_speed_ops ops t' w')

  unfoldable pub eval_libc_speed : ℕ → List TraceOp → Tester → W → LibcRun W
  unfolding libc_speed_ops reinit_trace
  eval_libc_speed num_ids ops t w = libc_speed_ops ops (reinit_trace num_ids t) w
