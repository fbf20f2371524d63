-- ===== src/Clock.antt =====
-- clock.c: `start_counter` and `get_counter`, which subtract two readings of the cycle counter in
-- halves of 32 bits. A reading of `rdtsc` is an argument. The difference is the number before its
-- conversion to `double`, which is exact below 2^53.
use malloc_for_c.Prelude.{ℕ, ◌+◌, ◌-◌, ◌*◌, ◌/◌, ◌%◌, ◌^◌, ltb, if◌then◌else◌}

-- The two halves of a reading, as `access_counter` stores them.
pub record Reading : Type 0 where
  pub hi : ℕ
  pub lo : ℕ

abbrev pub reading : ℕ → Reading
reading t = record { hi = t / 2 ^ 32; lo = t % 2 ^ 32 }

-- `unsigned` subtraction.
abbrev sub32 : ℕ → ℕ → ℕ
sub32 a b = (a + 2 ^ 32 - b) % 2 ^ 32

-- What `cyc_hi` and `cyc_lo` hold after `start_counter`.
unfoldable pub start_counter : Reading → Reading
start_counter r = r

-- The first argument is what `start_counter` has stored.
unfoldable pub get_counter : Reading → Reading → ℕ
get_counter cyc ncyc =
    let lo = sub32 ncyc.lo cyc.lo in
    let borrow = if ltb ncyc.lo lo then 1 else 0 in
    let hi = sub32 (sub32 ncyc.hi cyc.hi) borrow in hi * 2 ^ 30 * 4 + lo
