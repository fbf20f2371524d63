-- ===== src/Examples/Timing.antt =====
-- fcyc.c, fsecs.c and ftimer.c at concrete buffers, timings and clocks.
use malloc_for_c.Prelude.{ℕ, ◌+◌, ◌*◌, ◌/◌, ◌%◌, ◌^◌, ◌≤◌, ◌<◌, ◌≡◌, refl, Option, none, some}
use malloc_for_c.Prelude.Int.{pos, ◌-ℤ◌}
use malloc_for_c.Memory.{Ptr}
use malloc_for_c.Fcyc.Cache.{Buffer, out_of_fuel, clear_loop, clear}
use malloc_for_c.Fcyc.Clear.{Cleared, clear_lem}
use malloc_for_c.Ftimer.{Os}

abbrev buffer : Buffer
buffer = record { addr = 4096; bytes = 2 ^ 19 }

abbrev give : ℕ → Option Ptr
give n = some 8192

abbrev ints : Ptr → ℕ
ints a = a % 7

clear_lem_example :
    (4 ≤ 64 → Cleared ints (2 ^ 19) 64 0 4096 (clear give ints (2 ^ 19) 64 0 (some buffer)))
    × ((p : Ptr)
        → give (2 ^ 19) ≡ some p
        → 4 ≤ 64
        → Cleared ints (2 ^ 19) 64 0 p (clear give ints (2 ^ 19) 64 0 none))
    × (64 < 4
        → 4 ≤ 2 ^ 19
        → (fuel : ℕ)
        → clear_loop fuel ints buffer 4096 (4096 + 4 * (2 ^ 19 / 4)) (64 / 4) 0 ≡ out_of_fuel)
clear_lem_example = clear_lem give ints (2 ^ 19) 64 0 buffer refl

-- The time in microseconds since the start is the whole state.
abbrev machine : Os ℕ
machine = record {
  setitimer = λ timer interval value w. w;
  getitimer = λ timer w. record { tv_sec = pos 0; tv_usec = pos (86400 * 10 ^ 6) -ℤ pos w };
  gettimeofday = λ w. record { tv_sec = pos 0; tv_usec = pos w };
}

abbrev work : ℕ → ℕ
work w = w + 7

abbrev work_cost : ℕ → ℕ
work_cost w = 7
