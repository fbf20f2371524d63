-- ===== src/Driver/ReadTrace.antt =====
-- `read_trace` of mdriver.c, on the bytes of a trace file. The record and the array that it fills
-- come from `malloc`: what they hold before is an argument.
pub mod Print
pub mod RoundTrip
pub mod Lines
pub mod Loop
pub mod Ends
use malloc_for_c.Prelude.{
  ℕ, zero, suc, ◌+◌, ◌-◌, ◌^◌, Bool, true, false, not, ◌&&◌, ◌||◌, Option, none, some, List, [],
  ◌∷◌, length, ltb, ◌==◌, sub64, if◌then◌else◌,
}
use malloc_for_c.Driver.{OpType, alloc_op, free_op, realloc_op, TraceOp, negative}
use malloc_for_c.Driver.Util.{to_size, sub32, int_lt}
use malloc_for_c.Driver.Scan.{Scanned, eof, mismatch, got, scan_int, scan_word, skip_literal}

-- The numbers in front of the requests, as `int`s.
pub record Header : Type 0 where
  pub weight : ℕ
  pub num_ids : ℕ
  pub num_ops : ℕ
  pub ignore_ranges : ℕ

-- How a call ends: it returns, or the program exits.
pub data ReadResult (A : Type 0) : Type 0 where
  done : A → ReadResult A
  unix_error : ReadResult A
  app_error : ReadResult A
  assert_failed : ReadResult A
  -- a write behind the end of `trace->ops`
  out_of_bounds : ReadResult A
  out_of_fuel : ReadResult A

module _ {A B : Type 0} where
  infixl 5 ◌>>=◌
  abbrev pub ◌>>=◌ : ReadResult A → (A → ReadResult B) → ReadResult B
  done a >>= k = k a
  unix_error >>= k = unix_error
  app_error >>= k = app_error
  assert_failed >>= k = assert_failed
  out_of_bounds >>= k = out_of_bounds
  out_of_fuel >>= k = out_of_fuel

-- `assert(fscanf(...) != EOF)` for one number; a text that does not fit leaves the variable.
unfoldable pub read_int : ℕ → List ℕ → ReadResult (ℕ × List ℕ)
read_int old s = elim (scan_int s) [
  | eof ↦ assert_failed
  | mismatch rest ↦ done (old, rest)
  | got n rest ↦ done (n, rest)
]

-- The same for "%u %u": the second number may be missing.
unfoldable pub read_pair : ℕ → ℕ → List ℕ → ReadResult (ℕ × ℕ × List ℕ)
read_pair index size s = elim (scan_int s) [
  | eof ↦ assert_failed
  | mismatch rest ↦ done (index, size, rest)
  | got n rest ↦ elim (scan_int rest) [
    | eof ↦ done (n, size, [])
    | mismatch rest' ↦ done (n, size, rest')
    | got m rest' ↦ done (n, m, rest')
  ]
]

-- The same for "%ud": a number, and a letter d that is skipped where there is one.
unfoldable pub read_index : ℕ → List ℕ → ReadResult (ℕ × List ℕ)
unfolding skip_literal
read_index index s = elim (scan_int s) [
  | eof ↦ assert_failed
  | mismatch rest ↦ done (index, rest)
  | got n rest ↦ done (n, skip_literal b'd' rest)
]

-- `index`, `size` and `max_index`.
pub record Vars : Type 0 where
  pub index : ℕ
  pub size : ℕ
  pub max_index : ℕ

abbrev pub request_op : OpType → ℕ → ℕ → TraceOp
request_op type index size = record { type = type; index = index; size = to_size size }

-- A line for `malloc` or `realloc`.
unfoldable pub read_sized : OpType → Vars → List ℕ → ReadResult (TraceOp × Vars × List ℕ)
unfolding read_pair
read_sized type v s = do
  (index, size, rest) ← read_pair v.index v.size s
  done (
    request_op type index size,
    record {
      index = index;
      size = size;
      max_index = if int_lt v.max_index index then index else v.max_index;
    },
    rest,
  )

-- A line for `free`. The size in the array stays as it is.
unfoldable pub read_free : ℕ → Vars → List ℕ → ReadResult (TraceOp × Vars × List ℕ)
unfolding read_index
read_free old v s = do
  (index, rest) ← read_index v.index s
  done (record { type = free_op; index = index; size = old }, record v { index = index }, rest)

-- The switch on the first character of the line.
unfoldable pub read_request : ℕ → ℕ → Vars → List ℕ → ReadResult (TraceOp × Vars × List ℕ)
unfolding read_sized read_free
read_request c old v s =
    if c == b'a'
    then read_sized alloc_op v s
    else if c == b'r'
    then read_sized realloc_op v s
    else if c == b'f'
    then read_free old v s
    else app_error

-- The loop over the lines, from the request `op_index` on: the requests, `max_index` and the last
-- `op_index`.
unfoldable pub read_ops : ℕ → (ℕ → ℕ) → ℕ → ℕ → Vars → List ℕ → ReadResult (List TraceOp × ℕ × ℕ)
unfolding read_request
read_ops zero old num_ops op_index v s = out_of_fuel
read_ops (suc fuel) old num_ops op_index v s = elim (scan_word s) [
  | eof ↦ done ([], v.max_index, op_index)
  | mismatch rest ↦ done ([], v.max_index, op_index)
  | got c rest ↦ do
    (op, v', rest') ← read_request c (old op_index) v rest
    elim (ltb op_index num_ops) [
      | false ↦ out_of_bounds
      | true ↦ elim (suc op_index == num_ops) [
        | true ↦ done (op ∷ [], v'.max_index, suc op_index)
        | false ↦ do
          (ops, max_index, last) ← read_ops fuel old num_ops (suc op_index) v' rest'
          done (op ∷ ops, max_index, last)
      ]
    ]
]

unfoldable pub read_header : Header → List ℕ → ReadResult (Header × List ℕ)
unfolding read_int
read_header old s = do
  (weight, s₁) ← read_int old.weight s
  (num_ids, s₂) ← read_int old.num_ids s₁
  (num_ops, s₃) ← read_int old.num_ops s₂
  (ignore_ranges, s₄) ← read_int old.ignore_ranges s₃
  done (
    record { weight = weight; num_ids = num_ids; num_ops = num_ops; ignore_ranges = ignore_ranges },
    s₄,
  )

abbrev pub zero_or_one : ℕ → Bool
zero_or_one n = n == 0 || n == 1

abbrev pub check : Bool → ReadResult (Unit {0}) → ReadResult (Unit {0})
check true otherwise = done tt
check false otherwise = otherwise

-- `contents` is none where the file cannot be opened. A negative number of requests or indices asks
-- `malloc` or `calloc` for more bytes than there are addresses.
unfoldable pub read_trace :
    Header → (ℕ → ℕ) → ℕ → Option (List ℕ) → ReadResult (Header × List TraceOp)
unfolding read_header read_ops
read_trace old_header old_sizes old_size contents = elim contents [
  | none ↦ unix_error
  | some bytes ↦ do
    (h, s) ← read_header old_header bytes
    _ ← check (zero_or_one h.weight) app_error
    _ ← check (zero_or_one h.ignore_ranges) app_error
    _ ← check (not (negative h.num_ops) && not (negative h.num_ids)) unix_error
    (ops, max_index, op_index) ←
        read_ops (suc (length s)) old_sizes h.num_ops 0
          (record { index = 0; size = old_size; max_index = 0 }) s
    _ ← check (max_index == sub32 h.num_ids 1) assert_failed
    _ ← check (h.num_ops == op_index) assert_failed
    done (h, ops)
]
