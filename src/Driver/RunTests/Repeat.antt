-- ===== src/Driver/RunTests/Repeat.antt =====
-- The runs of `eval_mm_speed` that are timed, on a balanced trace.
use malloc_for_c.Prelude.{
  ℕ, zero, suc, ◌+◌, ◌^◌, ◌≤◌, ◌<◌, ◌≡◌, refl, ap, ◌∙◌, Option, none, some, List, [], arith,
}
use malloc_for_c.Machine.{State, Run, ok, fault, abort, out_of_fuel, and_then}
use malloc_for_c.Mm.Alloc.Init.{IsFresh}
use malloc_for_c.Driver.{TraceOp, Tester}
use malloc_for_c.Driver.Balanced.{Balanced, demand}
use malloc_for_c.Driver.Util.Whole.{eval_mm_util_lem}
use malloc_for_c.Driver.Speed.{eval_mm_speed}
use malloc_for_c.Driver.Speed.Same.{see, arrays_of, eval_mm_speed-eval_mm_util}
use malloc_for_c.Driver.RunTests.{timed_runs}
use malloc_for_c.Driver.RunTests.Errors.{eval_mm_speed_errors}

-- The heap area is that of `s`.
pub record SameArea (s s' : State) : Type 0 where
  pub same_lo : s'.heap ≡ s.heap
  pub same_max : s'.mem_max_addr ≡ s.mem_max_addr

pub SameArea-trans : (s s₁ s₂ : State) → SameArea s s₁ → SameArea s₁ s₂ → SameArea s s₂
SameArea-trans s s₁ s₂ same same' = record {
  same_lo = same'.same_lo ∙ same.same_lo;
  same_max = same'.same_max ∙ same.same_max;
}

pub SameArea-IsFresh :
    (s s' : State)
    → SameArea s s'
    → IsFresh (record s { mem_brk = s.heap })
    → IsFresh (record s' { mem_brk = s'.heap })
SameArea-IsFresh s s' same fresh = record {
  positive = omega (arith, same.same_lo, fresh.positive);
  aligned = omega (arith, same.same_lo, fresh.aligned);
  empty = refl;
  room = omega (arith, same.same_lo, same.same_max, fresh.room);
  small = omega (arith, same.same_max, fresh.small);
}

abbrev end_of : {B : Type 0} → State → Run B → State
end_of s (ok b s') = s'
end_of s fault = s
end_of s abort = s
end_of s out_of_fuel = s

seen_end :
    {B C : Type 0} (f : B → C) (m : Run (Option B)) (c : C) (s : State)
    → and_then m (λ x. ok (see f x)) ≡ ok (some c) s
    → (b : B) × (m ≡ ok (some b) s)
seen_end f (ok none s') c s e = absurd cc
seen_end f (ok (some b) s') c s e = (b, ap (λ w. ok (some b) w) (ap (end_of s) e))
seen_end f fault c s e = absurd cc
seen_end f abort c s e = absurd cc
seen_end f out_of_fuel c s e = absurd cc

module _ (num_ids : ℕ) (ints : num_ids ≤ 2 ^ 31) (ops : List TraceOp)
    (b : Balanced num_ids [] [] ops) where
  speed_end :
      (t : Tester) (s : State)
      → IsFresh (record s { mem_brk = s.heap })
      → s.heap + 40 + demand ops ≤ s.mem_max_addr
      → s.mem_max_addr < s.heap + 2 ^ 31
      → (t' : Tester) × (s' : State) × (eval_mm_speed num_ids ops t s ≡ ok (some t') s')
        × SameArea s s'
        × (t'.errors ≡ t.errors)
  speed_end t s fresh room area =
      let (t', s', size, run, below, fits, lo, hi) =
        eval_mm_util_lem num_ids ints ops t s fresh b room area in
      let (t'', run') =
        seen_end (λ x. x.blocks) (eval_mm_speed num_ids ops t s) t'.blocks s'
          (eval_mm_speed-eval_mm_util num_ids ops t s
            ∙ ap (λ m. and_then m (λ x. ok (see arrays_of x))) run) in
      (
        t'',
        s',
        run',
        record { same_lo = lo; same_max = hi },
        eval_mm_speed_errors num_ids ops t t'' s s' run',
      )

  pub timed_runs_end :
      (n : ℕ) (t : Tester) (s : State)
      → IsFresh (record s { mem_brk = s.heap })
      → s.heap + 40 + demand ops ≤ s.mem_max_addr
      → s.mem_max_addr < s.heap + 2 ^ 31
      → (t' : Tester) × (s' : State) × (timed_runs n num_ids ops t s ≡ ok (some t') s')
        × SameArea s s'
        × (t'.errors ≡ t.errors)
  unfolding timed_runs
  timed_runs_end zero t s fresh room area =
      (t, s, refl, record { same_lo = refl; same_max = refl }, refl)
  timed_runs_end (suc n) t s fresh room area =
      let (t₁, s₁, run, same, kept) = speed_end t s fresh room area in
      let (t₂, s₂, runs, same', kept') =
        timed_runs_end n t₁ s₁ (SameArea-IsFresh s s₁ same fresh)
          (omega (arith, same.same_lo, same.same_max, room))
          (omega (arith, same.same_lo, same.same_max, area)) in
      (t₂, s₂, rw (run, runs) refl, SameArea-trans s s₁ s₂ same same', kept' ∙ kept)
