-- ===== src/Ftimer/Average.antt =====
-- ftimer.c: the time that is measured against the time of the runs.
use malloc_for_c.Prelude.{ℕ, zero, suc, ◌+◌, ◌≡◌}
use malloc_for_c.Prelude.Int.{pos, ◌+ℤ◌}
use malloc_for_c.Ftimer.{real, Os, microseconds}

module _ {W : Type 0} (os : Os W) (f : W → W) (cost : W → ℕ) where
  -- The cost of `n` runs.
  abbrev pub total_cost : ℕ → W → ℕ
  total_cost zero w = 0
  total_cost (suc n) w = cost w + total_cost n (f w)

-- The clocks of the operating system run: each run of `f` takes its cost off the real timer and adds
-- it to the time of day.
pub record Ticks {W : Type 0} (os : Os W) (f : W → W) (cost : W → ℕ) : Type 0 where
  pub counts_down :
      (w : W)
      → microseconds (os.getitimer real w) ≡ microseconds (os.getitimer real (f w)) +ℤ pos (cost w)
  pub counts_up :
      (w : W)
      → microseconds (os.gettimeofday (f w)) ≡ microseconds (os.gettimeofday w) +ℤ pos (cost w)
