-- ===== src/Examples/Driver.antt =====
-- mdriver.c, fcyc.c and clock.c: the theorems at concrete ranges, blocks and timings.
use malloc_for_c.Prelude.{
  ℕ, ◌+◌, ◌%◌, ◌<◌, ◌≡◌, ◌≢◌, suc, refl, inl, ◌⊎◌, Bool, false, [], ◌∷◌, leb, ltb, arith, List,
  true,
}
use malloc_for_c.Machine.{State, ok}
use malloc_for_c.Mm.Alloc.{adjust, int_minus_one}
use malloc_for_c.Fcyc.{Order}
use malloc_for_c.Driver.{
  Range, Tester, Setting, remove_range, garbled, expected_byte, check_index, alloc_op, free_op,
  realloc_op, TraceOp, dbg_expensive,
}
use malloc_for_c.Driver.Eval.{eval_mm_valid}
use malloc_for_c.Driver.Eval.Trace.{eval_mm_valid_lem}
use malloc_for_c.Driver.Balanced.{
  op, Balanced, done, and_alloc, and_realloc_new, and_realloc, and_realloc_zero, and_free,
  and_free_null, demand,
}
use malloc_for_c.Driver.Ranges.{Judged, add_range_lem, remove_range_lem}
use malloc_for_c.Driver.Payload.{Filled, Randomized, check_index_lem, randomize_block_lem}
use malloc_for_c.Driver.Eval.Accept.{checking_setting}
use malloc_for_c.Driver.Eval.Alloc.{Accepted, run_alloc_lem}
use malloc_for_c.Examples.{
  base, sample, sample_heap, sample-Represents, adjust-100, fresh, fresh-IsFresh,
}

-- Timings in whole cycles.
pub cycles : Order ℕ
cycles = record {
  gt = λ a b. ltb b a;
  gt-irreflexive = λ a. ground arith;
  gt-asymmetric = λ a b h. ground arith;
  le-transitive = λ a b c h k. ground arith;
}

-- Each run takes longer than the one before.
abbrev pub slower : ℕ → ℕ
slower i = 500 + i

abbrev pub equal : ℕ → ℕ → Bool
equal a b = leb b a

abbrev setting : Setting
setting = checking_setting dbg_expensive false (λ i. i % 256) (λ i. i)

-- One block of 16 bytes, the first of `sample`.
abbrev pub tester : Tester
tester = record {
  blocks = λ i. base + 32;
  block_sizes = λ i. 16;
  block_rand_base = λ i. 0;
  ranges = record { lo = base + 32; hi = base + 47; index = 0 } ∷ [];
  errors = [];
  draws = 0;
}

add_range_lem_example : Judged setting (base + 112) 16 7 1 tester sample
add_range_lem_example =
    add_range_lem dbg_expensive refl (λ i. i % 256) (λ i. i) (base + 112) 16 7 1 tester sample
      (omega arith) (omega arith) (omega arith) (omega arith) (omega arith) (omega arith)

abbrev range_at : ℕ → Range
range_at lo = record { lo = lo; hi = lo + 15; index = 0 }

remove_range_lem_example :
    remove_range 64 (range_at 32 ∷ range_at 64 ∷ range_at 96 ∷ []) ≡ range_at 32 ∷ range_at 96 ∷ []
remove_range_lem_example =
    remove_range_lem 64 (range_at 32 ∷ []) (range_at 64) (range_at 96 ∷ []) ((λ e. omega arith), tt)
      refl

check_index_lem_example :
    (Filled setting 0 (base + 32) sample.mem 0 16
      × (check_index setting 3 0 tester sample ≡ ok tester sample))
    ⊎ ((j k : ℕ) × (j < 16)
        × (sample.mem (base + 32 + j) ≢ expected_byte setting 0 j)
        × (check_index setting 3 0 tester sample
            ≡ ok (record tester { errors = (3, garbled 0 (suc k) j) ∷ [] }) sample))
check_index_lem_example =
    check_index_lem setting 3 0 tester sample refl (omega arith)
      (record { above = omega arith; below = omega arith }, omega arith)

randomize_block_lem_example : Randomized setting 0 tester sample
randomize_block_lem_example =
    randomize_block_lem setting 0 tester sample refl (omega arith)
      (record { above = omega arith; below = omega arith }, omega arith)

run_alloc_lem_example : Accepted setting 5 1 100 tester sample sample_heap
run_alloc_lem_example =
    run_alloc_lem dbg_expensive refl false (λ i. i % 256) (λ i. i) 5 1 100 tester sample sample_heap
      sample-Represents ((omega arith, (λ a lo hi. inl (omega arith, omega arith))), tt)
      (omega arith) (omega arith) (omega arith)
      (λ e. record {
        below = omega (arith, adjust-100);
        small = omega arith;
        signed = omega (arith, adjust-100);
      })

abbrev pub short_trace : List TraceOp
short_trace =
    op alloc_op 0 100
    ∷ op realloc_op 1 40
    ∷ op realloc_op 0 200
    ∷ op free_op int_minus_one 0
    ∷ op realloc_op 1 0
    ∷ op free_op 0 0
    ∷ []

pub short_trace-Balanced : Balanced 2 [] [] short_trace
short_trace-Balanced = and_alloc 0 100 refl (omega arith) (omega arith) (omega arith) (
    and_realloc_new 1 40 refl refl (omega arith) (omega arith) (omega arith) (
      and_realloc (1 ∷ []) 0 [] 200 (omega arith) (omega arith)
        (and_free_null 0 (and_realloc_zero (0 ∷ []) 1 [] (and_free [] 0 [] 0 done)))))

pub short_trace-demand : demand short_trace ≡ 416
unfolding adjust
short_trace-demand = refl

eval_mm_valid_lem_example :
    (t' : Tester) × (s' : State) × (eval_mm_valid setting 2 short_trace tester fresh
      ≡ ok (true, t') s')
    × (t'.errors ≡ [])
    × (s'.heap ≡ fresh.heap)
    × (s'.mem_max_addr ≡ fresh.mem_max_addr)
eval_mm_valid_lem_example =
    eval_mm_valid_lem dbg_expensive refl false (λ i. i % 256) (λ i. i) 2 (omega arith) short_trace
      tester fresh fresh-IsFresh short_trace-Balanced (omega (arith, short_trace-demand))
