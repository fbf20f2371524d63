-- ===== src/Examples/Runs.antt =====
-- mdriver.c: the runs for utilization and speed at a short trace.
use malloc_for_c.Prelude.{ℕ, ◌+◌, ◌≤◌, ◌≡◌, refl, some, inl, arith, [], ◌==◌, if◌then◌else◌}
use malloc_for_c.Memory.{null}
use malloc_for_c.Machine.{State, ok}
use malloc_for_c.Driver.{Tester}
use malloc_for_c.Driver.Util.{eval_mm_util}
use malloc_for_c.Driver.Util.Usage.{peak}
use malloc_for_c.Driver.Util.Whole.{eval_mm_util_lem}
use malloc_for_c.Driver.Libc.{Libc, eval_libc_valid, eval_libc_speed}
use malloc_for_c.Driver.Libc.Same.{SameEnd, eval_libc_speed-eval_libc_valid}
use malloc_for_c.Examples.{fresh, fresh-IsFresh}
use malloc_for_c.Examples.Driver.{tester, short_trace, short_trace-Balanced, short_trace-demand}

eval_mm_util_lem_example :
    (t' : Tester) × (s' : State) × (heap_size : ℕ) × (eval_mm_util 2 short_trace tester fresh
      ≡ ok (some (peak [] short_trace, heap_size, t')) s')
    × (peak [] short_trace + 40 ≤ heap_size)
    × (s'.heap + heap_size ≤ s'.mem_max_addr)
    × (s'.heap ≡ fresh.heap)
    × (s'.mem_max_addr ≡ fresh.mem_max_addr)
eval_mm_util_lem_example =
    eval_mm_util_lem 2 (omega arith) short_trace tester fresh fresh-IsFresh short_trace-Balanced
      (omega (arith, short_trace-demand)) (omega arith)

-- 200 bytes and 40 bytes are live at once.
short_trace-peak : peak [] short_trace ≡ 240
short_trace-peak = refl

-- An allocator that never uses a block again: its state is the next address.
abbrev bump : Libc ℕ
bump = record {
  malloc = λ size w. (w, w + size);
  realloc = λ p size w. if size == 0 then (null, w) else (w, w + size);
  free = λ p w. w;
}

eval_libc_speed-eval_libc_valid_example :
    SameEnd
      (eval_libc_speed bump 2 short_trace tester 64)
      (eval_libc_valid bump 2 short_trace tester 64)
eval_libc_speed-eval_libc_valid_example =
    eval_libc_speed-eval_libc_valid bump 2 short_trace tester 64 (
      inl (omega arith),
      (
        inl (omega arith),
        (inl (omega arith), (inl (omega arith), (inl (omega arith), (inl (omega arith), tt)))),
      ),
    )
