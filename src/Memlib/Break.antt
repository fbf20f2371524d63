-- ===== src/Memlib/Break.antt =====
-- `mem_sbrk` with and without enough space behind the break.
use malloc_for_c.Prelude.{
  ℕ, ◌+◌, ◌^◌, ◌≤◌, ◌<◌, ◌≡◌, arith, leb-false, ltb-false, ltb-true, add64-eq,
}
use malloc_for_c.Machine.{State, ok}
use malloc_for_c.Memlib.{mem_sbrk, minus_one}

-- The area of `n` bytes behind the break is still mapped.
pub record HasSpace (s : State) (n : ℕ) : Type 0 where
  pub below : s.mem_brk + n ≤ s.mem_max_addr
  pub small : s.mem_max_addr < 2 ^ 64
  pub signed : n < 2 ^ 63

pub mem_sbrk-ok :
    (n : ℕ) (s : State)
    → HasSpace s n
    → mem_sbrk n s ≡ ok s.mem_brk (record s { mem_brk = s.mem_brk + n })
unfolding mem_sbrk
mem_sbrk-ok n s h = rw (
  leb-false (2 ^ 63) n h.signed,
  add64-eq s.mem_brk n (omega arith),
  ltb-false s.mem_max_addr (s.mem_brk + n) h.below,
)

pub mem_sbrk-fail :
    (n : ℕ) (s : State)
    → s.mem_max_addr < s.mem_brk + n
    → s.mem_brk + n < 2 ^ 64
    → mem_sbrk n s ≡ ok minus_one s
unfolding mem_sbrk
mem_sbrk-fail n s h lt =
    rw (add64-eq s.mem_brk n lt, ltb-true s.mem_max_addr (s.mem_brk + n) h) (ground arith)
