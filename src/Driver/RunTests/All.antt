-- ===== src/Driver/RunTests/All.antt =====
-- `run_tests` of mdriver.c on files that hold balanced traces.
use malloc_for_c.Prelude.{ℕ, ◌≡◌, Bool, true, false, none, some, ◌∷◌}
use malloc_for_c.Machine.{State, ok}
use malloc_for_c.Fcyc.{Order, Params, unset}
use malloc_for_c.Fsecs.{init_fsecs}
use malloc_for_c.Driver.{Tester, is_none}
use malloc_for_c.Driver.ReadTrace.{Header}
use malloc_for_c.Driver.ReadTrace.Print.{as_read}
use malloc_for_c.Driver.RunTests.{TraceFile, Stats, Flags, measure_file, test_file}
use malloc_for_c.Driver.RunTests.Scores.{HoldsTrace, Scored}
use malloc_for_c.Driver.RunTests.Repeat.{SameArea}

module _ {A S : Type 0} (o : Order A) (seconds : A → S) (close : A → A → Bool) (nil : A)
    (flags : Flags) (on : is_none flags.debug_mode ≡ false) where
  abbrev measured_stats : Header → ℕ → ℕ → S → Stats S
  measured_stats h most heap_size secs = record {
    weight = h.weight;
    ops = h.num_ops;
    valid = true;
    util = some (most, heap_size);
    secs = some secs;
  }

  abbrev params : Params A
  params = (init_fsecs close (unset, none)).0

  record Measures (f : TraceFile A) (low high : ℕ) (b : HoldsTrace low high f) (t : Tester)
      (s : State) : Type 0 where
    stats : Stats S
    tester : Tester
    after : State
    run :
        measure_file o seconds params nil flags f b.header
          (as_read f.old_sizes 0 (b.first ∷ b.others))
          t
          s
        ≡ ok (some (stats, tester)) after
    scored : Scored seconds low high f b stats
    same : SameArea s after
    kept : tester.errors ≡ t.errors

  record Tests (f : TraceFile A) (low high : ℕ) (b : HoldsTrace low high f) (t : Tester) (s : State)
      : Type 0 where
    stats : Stats S
    tester : Tester
    after : State
    run : test_file o seconds params nil flags f t s ≡ ok (some (stats, tester)) after
    scored : Scored seconds low high f b stats
    same : SameArea s after
    kept : tester.errors ≡ t.errors
