-- ===== src/Driver/RunTests.antt =====
-- `run_tests` of mdriver.c: the files of traces are read, checked and measured, one after the other.
-- Names of files and progress messages are left out. What fresh memory holds and the timings of the
-- counters come with each file.
pub mod Errors
pub mod Repeat
pub mod Scores
pub mod All
use malloc_for_c.Prelude.{
  ℕ, zero, suc, Bool, true, false, not, ◌&&◌, Option, none, some, List, [], ◌∷◌, ◌==◌,
  if◌then◌else◌,
}
use malloc_for_c.Memory.{null}
use malloc_for_c.Machine.{Run, ok, fault, abort, Cmd, pure, ◌>>=◌}
use malloc_for_c.Fcyc.{Order, Params}
use malloc_for_c.Fsecs.{fsecs}
use malloc_for_c.Driver.{DebugMode, TraceOp, Tester, Setting}
use malloc_for_c.Driver.Eval.{eval_mm_valid}
use malloc_for_c.Driver.Util.{eval_mm_util}
use malloc_for_c.Driver.Speed.{eval_mm_speed}
use malloc_for_c.Driver.ReadTrace.{
  Header, ReadResult, done, unix_error, app_error, assert_failed, out_of_bounds, read_trace,
}

pub record TraceFile (A : Type 0) : Type 0 where
  -- none where it cannot be opened
  pub contents : Option (List ℕ)
  pub old_header : Header
  pub old_sizes : ℕ → ℕ
  pub old_size : ℕ
  pub comp : ℕ → A
  pub plain : ℕ → A

-- `stats_t`. `util` is a quotient of two sizes; it and `secs` are none where they keep the zeros of
-- `calloc`.
pub record Stats (S : Type 0) : Type 0 where
  pub weight : ℕ
  pub ops : ℕ
  pub valid : Bool
  pub util : Option (ℕ × ℕ)
  pub secs : Option S

-- The global variables that the options set, `random_data`, and the numbers that `random` gives.
pub record Flags : Type 0 where
  pub debug_mode : DebugMode
  pub onetime_flag : Bool
  pub random_data : ℕ → ℕ
  pub random : ℕ → ℕ

abbrev pub trace_setting : Flags → Header → Setting
trace_setting flags h = record {
  debug_mode = flags.debug_mode;
  ignore_ranges = not (h.ignore_ranges == 0);
  random_data = flags.random_data;
  random = flags.random;
}

-- `none` is an exit with a message.
abbrev pub or_exit : {A : Type 0} → ReadResult A → Cmd (Option A)
or_exit (done a) s = ok (some a) s
or_exit unix_error s = ok none s
or_exit app_error s = ok none s
or_exit assert_failed s = abort
or_exit out_of_bounds s = fault
or_exit ReadResult.out_of_fuel s = Run.out_of_fuel

-- The arrays of a new trace come from `calloc`.
abbrev pub new_arrays : Tester → Tester
new_arrays t = record t { blocks = λ i. null; block_sizes = λ i. 0; block_rand_base = λ i. 0 }

-- The calls of the function that `fsecs` times.
unfoldable pub timed_runs : ℕ → ℕ → List TraceOp → Tester → Cmd (Option Tester)
timed_runs zero num_ids ops t = pure (some t)
timed_runs (suc n) num_ids ops t = do
  run ← eval_mm_speed num_ids ops t
  elim run [ none ↦ pure none | some t' ↦ timed_runs n num_ids ops t' ]

module _ {A S : Type 0} (o : Order A) (seconds : A → S) (params : Params A) (nil : A)
    (flags : Flags) where
  -- The timed part, with the seconds and the number of calls that `fsecs` makes.
  unfoldable pub time_file :
      Option (S × ℕ) → Header → List TraceOp → ℕ × ℕ → Tester → Cmd (Option (Stats S × Tester))
  unfolding timed_runs
  time_file none h ops util t = pure none
  time_file (some (secs, samples)) h ops util t = do
    run ← timed_runs samples h.num_ids ops t
    elim run [
      | none ↦ pure none
      | some t' ↦ pure (
          some (
            record {
              weight = h.weight;
              ops = h.num_ops;
              valid = true;
              util = some util;
              secs = some secs;
            },
            t',
          ))
    ]

  -- The part for a trace that is valid.
  unfoldable pub measure_file :
      TraceFile A → Header → List TraceOp → Tester → Cmd (Option (Stats S × Tester))
  unfolding time_file
  measure_file f h ops t = do
    used ← eval_mm_util h.num_ids ops t
    elim used [
      | none ↦ pure none
      | some (most, heap_size, t') ↦
          time_file (fsecs o seconds params nil f.comp f.plain) h ops (most, heap_size) t'
    ]

  -- The body of the loop.
  unfoldable pub test_file : TraceFile A → Tester → Cmd (Option (Stats S × Tester))
  unfolding measure_file
  test_file f t = do
    read ← or_exit (read_trace f.old_header f.old_sizes f.old_size f.contents)
    elim read [
      | none ↦ pure none
      | some (h, ops) ↦ do
        checked ← eval_mm_valid (trace_setting flags h) h.num_ids ops (new_arrays t)
        if not flags.onetime_flag && checked.0
            then measure_file f h ops checked.1
            else pure (
                some (
                  record {
                    weight = h.weight;
                    ops = h.num_ops;
                    valid = checked.0;
                    util = none;
                    secs = none;
                  },
                  checked.1,
                ))
    ]

  -- With `onetime_flag`, only the first file is tested.
  unfoldable pub run_tests : List (TraceFile A) → Tester → Cmd (Option (List (Stats S) × Tester))
  unfolding test_file
  run_tests [] t = pure (some ([], t))
  run_tests (f ∷ files) t = do
    tested ← test_file f t
    elim tested [
      | none ↦ pure none
      | some (x, t₁) ↦ elim flags.onetime_flag [
        | true ↦ pure (some (x ∷ [], t₁))
        | false ↦ do
          rest ← run_tests files t₁
          elim rest [ none ↦ pure none | some (xs, t₂) ↦ pure (some (x ∷ xs, t₂)) ]
      ]
    ]
