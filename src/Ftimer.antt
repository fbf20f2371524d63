-- ===== src/Ftimer.antt =====
-- ftimer.c: the running time of a function by the interval timer and by the time of day. A time is a
-- whole number of microseconds, where the code has a `double` of seconds or milliseconds; the
-- division by the number of runs is left open.
pub mod Average
use malloc_for_c.Prelude.{ℕ, zero, suc, ◌*◌, ◌^◌}
use malloc_for_c.Prelude.Int.{ℤ, pos, ◌+ℤ◌, ◌-ℤ◌, scale}

-- `struct timeval`
pub record TimeVal : Type 0 where
  pub tv_sec : ℤ
  pub tv_usec : ℤ

pub data Timer : Type 0 where
  virtual : Timer
  real : Timer
  prof : Timer

-- The calls of the operating system. `setitimer` is given the interval and the value.
pub record Os (W : Type 0) : Type 0 where
  pub setitimer : Timer → TimeVal → TimeVal → W → W
  pub getitimer : Timer → W → TimeVal
  pub gettimeofday : W → TimeVal

-- MAX_ETIME
abbrev pub max_etime : ℕ
max_etime = 86400

abbrev pub microseconds : TimeVal → ℤ
microseconds v = (scale (10 ^ 6) v.tv_sec) +ℤ v.tv_usec

abbrev no_time : TimeVal
no_time = record { tv_sec = pos 0; tv_usec = pos 0 }

-- `first_r.it_value`; the other two timers are set alike.
abbrev pub first_value : TimeVal
first_value = record { tv_sec = pos max_etime; tv_usec = pos 0 }

module _ {W : Type 0} (os : Os W) where
  unfoldable pub init_etime : W → W
  init_etime w =
      os.setitimer prof no_time first_value
        (os.setitimer real no_time first_value (os.setitimer virtual no_time first_value w))

  -- Only the real timer is looked at.
  unfoldable pub get_etime : W → ℤ
  get_etime w =
      let r_curr = os.getitimer real w in
      (scale (10 ^ 6) (first_value.tv_sec -ℤ r_curr.tv_sec))
      +ℤ (first_value.tv_usec -ℤ r_curr.tv_usec)

  -- `for (i = 0; i < n; i++) f(argp);`
  unfoldable pub run_times : ℕ → (W → W) → W → W
  run_times zero f w = w
  run_times (suc n) f w = run_times n f (f w)

  -- The time that is divided by `n`, and the state behind it.
  unfoldable pub ftimer_itimer : (W → W) → ℕ → W → ℤ × W
  unfolding init_etime get_etime run_times
  ftimer_itimer f n w =
      let started = init_etime w in
      let start = get_etime started in
      let ended = run_times n f started in let tmeas = get_etime ended -ℤ start in (tmeas, ended)

  unfoldable pub ftimer_gettod : (W → W) → ℕ → W → ℤ × W
  unfolding run_times
  ftimer_gettod f n w =
      let stv = os.gettimeofday w in
      let ended = run_times n f w in
      let etv = os.gettimeofday ended in
      ((scale (10 ^ 6) (etv.tv_sec -ℤ stv.tv_sec)) +ℤ (etv.tv_usec -ℤ stv.tv_usec), ended)
