-- ===== src/Driver.antt =====
-- mdriver.c: the data of the test driver, the ranges of the payloads that it knows, and the random
-- data that it fills them with.
pub mod Ranges
pub mod Payload
pub mod Balanced
pub mod Held
pub mod Eval
pub mod Util
pub mod Speed
pub mod Libc
pub mod Scan
pub mod ReadTrace
pub mod RunTests
pub mod Options
use malloc_for_c.Prelude.{
  ℕ, zero, suc, ◌+◌, ◌-◌, ◌*◌, ◌%◌, ◌^◌, Bool, true, false, not, ◌&&◌, ◌||◌, Option, none, some,
  List, [], ◌∷◌, ◌++◌, leb, ltb, ◌==◌, add64, sub64, if◌then◌else◌,
}
use malloc_for_c.Memory.{Ptr}
use malloc_for_c.Machine.{Cmd, pure, ◌>>=◌, ◌>>◌, assert, load_byte, store_byte}
use malloc_for_c.Memlib.{mem_heap_lo, mem_heap_hi}

pub data DebugMode : Type 0 where
  dbg_none : DebugMode
  dbg_cheap : DebugMode
  dbg_expensive : DebugMode

abbrev pub is_none : DebugMode → Bool
is_none dbg_none = true
is_none dbg_cheap = false
is_none dbg_expensive = false

-- `range_t`; the list takes the place of `next`.
pub record Range : Type 0 where
  pub lo : Ptr
  pub hi : Ptr
  pub index : ℕ

pub data OpType : Type 0 where
  alloc_op : OpType
  free_op : OpType
  realloc_op : OpType

-- `traceop_t`. `index` is the 32-bit pattern of an `int`: it is negative from 2^31 on.
pub record TraceOp : Type 0 where
  pub type : OpType
  pub index : ℕ
  pub size : ℕ

-- What `malloc_error` is called with.
pub data Complaint : Type 0 where
  init_failed : Complaint
  malloc_failed : Complaint
  realloc_failed : Complaint
  realloc_not_null : Complaint
  not_aligned : Complaint
  outside_heap : Complaint
  overlaps : Complaint
  -- the index, how many bytes, and the first of them
  garbled : ℕ → ℕ → ℕ → Complaint

-- The arrays of `trace_t`, the range list, the errors with their operation numbers, the last one
-- first, and how many numbers `random` has given.
pub record Tester : Type 0 where
  pub blocks : ℕ → Ptr
  pub block_sizes : ℕ → ℕ
  pub block_rand_base : ℕ → ℕ
  pub ranges : List Range
  pub errors : List (ℕ × Complaint)
  pub draws : ℕ

-- What stays the same over a run: `debug_mode`, the trace's `ignore_ranges`, `random_data`, and the
-- numbers that `random` gives.
pub record Setting : Type 0 where
  pub debug_mode : DebugMode
  pub ignore_ranges : Bool
  pub random_data : ℕ → ℕ
  pub random : ℕ → ℕ

unfoldable pub malloc_error : ℕ → Complaint → Tester → Tester
malloc_error opnum what t = record t { errors = (opnum, what) ∷ t.errors }

-- Does the loop of `add_range` find an overlap?
unfoldable pub find_overlap : Ptr → Ptr → List Range → Bool
find_overlap lo hi [] = false
find_overlap lo hi (p ∷ ps) =
    (leb p.lo lo && leb lo p.hi) || (leb p.lo hi && leb hi p.hi) || find_overlap lo hi ps

unfoldable pub add_range : Setting → Ptr → ℕ → ℕ → ℕ → Tester → Cmd (Bool × Tester)
unfolding malloc_error find_overlap
add_range g lo size opnum index t = do
  let hi = sub64 (add64 lo size) 1
  assert (ltb 0 size && ltb size (2 ^ 31))
  if not (lo % 16 == 0) then pure (false, malloc_error opnum not_aligned t) else (do
    heap_lo ← mem_heap_lo
    heap_hi ← mem_heap_hi
    if ltb lo heap_lo || ltb heap_hi lo || ltb hi heap_lo || ltb heap_hi hi
        then pure (false, malloc_error opnum outside_heap t)
        else if g.ignore_ranges || is_none g.debug_mode
        then pure (true, t)
        else if find_overlap lo hi t.ranges
        then pure (false, malloc_error opnum overlaps t)
        else pure
            (true, record t { ranges = record { lo = lo; hi = hi; index = index } ∷ t.ranges }))

unfoldable pub remove_range : Ptr → List Range → List Range
remove_range lo [] = []
remove_range lo (p ∷ ps) = if p.lo == lo then ps else p ∷ remove_range lo ps

unfoldable pub clear_ranges : Tester → Tester
clear_ranges t = record t { ranges = [] }

abbrev pub set_at : {A : Type 0} → ℕ → A → (ℕ → A) → ℕ → A
set_at i x f = λ j. if j == i then x else f j

-- The byte that belongs at offset `i` of a block.
abbrev pub expected_byte : Setting → ℕ → ℕ → ℕ
expected_byte g base i = g.random_data (add64 base i % 2 ^ 16)

-- The loop of `randomize_block` over the last `n` bytes.
unfoldable pub fill_bytes : Setting → ℕ → Ptr → ℕ → ℕ → Cmd (Unit {0})
fill_bytes g base block i zero = pure tt
fill_bytes g base block i (suc n) = do
  store_byte (add64 block i) (expected_byte g base i)
  fill_bytes g base block (suc i) n

unfoldable pub randomize_block : Setting → ℕ → Tester → Cmd Tester
unfolding fill_bytes
randomize_block g index t = if is_none g.debug_mode then pure t else (do
  let base = g.random t.draws
  fill_bytes g base (t.blocks index) 0 (t.block_sizes index)
  pure (record t { block_rand_base = set_at index base t.block_rand_base; draws = suc t.draws }))

-- The loop of `check_index` over the last `n` bytes: how many are garbled, and the first of them.
unfoldable pub count_garbled : Setting → ℕ → Ptr → ℕ → ℕ → Cmd (ℕ × Option ℕ)
count_garbled g base block i zero = pure (0, none)
count_garbled g base block i (suc n) = do
  byte ← load_byte (add64 block i)
  rest ← count_garbled g base block (suc i) n
  pure (if byte == expected_byte g base i then rest else (suc rest.0, some i))

abbrev pub or_zero : Option ℕ → ℕ
or_zero none = 0
or_zero (some i) = i

abbrev pub negative : ℕ → Bool
negative index = leb (2 ^ 31) index

unfoldable pub check_index : Setting → ℕ → ℕ → Tester → Cmd Tester
unfolding count_garbled malloc_error
check_index g opnum index t = if negative index || is_none g.debug_mode then pure t else (do
  found ← count_garbled g (t.block_rand_base index) (t.blocks index) 0 (t.block_sizes index)
  pure (if found.0 == 0 then t else malloc_error opnum (garbled index found.0 (or_zero found.1)) t))
