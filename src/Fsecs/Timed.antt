-- ===== src/Fsecs/Timed.antt =====
-- fsecs.c: a measurement behind `init_fsecs`.
use malloc_for_c.Prelude.{ℕ, ◌≤◌, ◌<◌, ◌≡◌, Option, some}
use malloc_for_c.Fcyc.{Order}
use malloc_for_c.Fcyc.Sort.{Le}

-- What a call has measured: one of at most 100 timings, and none of them is below it.
pub record Measured {A S : Type 0} (o : Order A) (seconds : A → S) (measure : ℕ → A)
    (run : Option (S × ℕ)) : Type 0 where
  pub cycles : A
  pub taken : ℕ
  pub ends : run ≡ some (seconds cycles, taken)
  pub positive : 0 < taken
  pub bounded : taken ≤ 100
  pub least : (i : ℕ) → i < taken → Le o cycles (measure i)
  pub among : (i : ℕ) × (i < taken) × (cycles ≡ measure i)
