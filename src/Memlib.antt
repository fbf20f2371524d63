-- ===== src/Memlib.antt =====
-- memlib.c: a simulated data segment, which `mem_sbrk` extends upwards.
pub mod Break
use malloc_for_c.Prelude.{ℕ, ◌+◌, ◌-◌, ◌*◌, ◌^◌, ◌||◌, Bool, leb, ltb, add64, sub64, if◌then◌else◌}
use malloc_for_c.Memory.{Ptr, Mem, null}
use malloc_for_c.Machine.{State, Cmd, ok, pure}

-- MAX_HEAP of config.h, 100 MB.
abbrev pub max_heap : ℕ
max_heap = 100 * 2 ^ 20

-- `(void *)-1`
abbrev pub minus_one : Ptr
minus_one = 2 ^ 64 - 1

-- `start` is the address that `mmap` returns, and `bytes` what it has mapped there.
unfoldable pub mem_init : Ptr → Mem → Cmd (Unit {0})
mem_init start bytes s =
    ok tt
      (record s { mem = bytes; heap = start; mem_max_addr = add64 start max_heap; mem_brk = start })

unfoldable pub mem_reset_brk : Cmd (Unit {0})
mem_reset_brk s = ok tt (record s { mem_brk = s.heap })

-- `incr` is the bit pattern of a `long`: it is negative from 2^63 on.
unfoldable pub mem_sbrk : ℕ → Cmd Ptr
mem_sbrk incr s =
    if leb (2 ^ 63) incr || ltb s.mem_max_addr (add64 s.mem_brk incr)
    then ok minus_one s
    else ok s.mem_brk (record s { mem_brk = add64 s.mem_brk incr })

unfoldable pub mem_heap_lo : Cmd Ptr
mem_heap_lo s = ok s.heap s

unfoldable pub mem_heap_hi : Cmd Ptr
mem_heap_hi s = ok (sub64 s.mem_brk 1) s

unfoldable pub mem_heapsize : Cmd ℕ
mem_heapsize s = ok (sub64 s.mem_brk s.heap) s
