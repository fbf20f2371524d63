-- ===== src/Driver/ReadTrace/Print.antt =====
-- The format of a trace file, as a printer.
use malloc_for_c.Prelude.{ℕ, suc, ◌^◌, ◌<◌, List, [], ◌∷◌, ◌++◌}
use malloc_for_c.Driver.{OpType, alloc_op, free_op, realloc_op, TraceOp}
use malloc_for_c.Driver.Scan.Decimal.{int_text}
use malloc_for_c.Driver.Util.Usage.{larger}
use malloc_for_c.Driver.ReadTrace.{Header}

abbrev pub letter : OpType → ℕ
letter alloc_op = b'a'
letter free_op = b'f'
letter realloc_op = b'r'

-- The rest of a line behind its index.
abbrev pub print_size : OpType → ℕ → List ℕ → List ℕ
print_size alloc_op size rest = b' ' ∷ (int_text size ++ 10 ∷ rest)
print_size free_op size rest = 10 ∷ rest
print_size realloc_op size rest = b' ' ∷ (int_text size ++ 10 ∷ rest)

abbrev pub print_ops : List TraceOp → List ℕ
print_ops [] = []
print_ops (x ∷ ops) =
    letter x.type ∷ (b' ' ∷ (int_text x.index ++ print_size x.type x.size (print_ops ops)))

abbrev pub print_trace : Header → List TraceOp → List ℕ
print_trace h ops =
    int_text h.weight
    ++ 10
      ∷ (int_text h.num_ids
          ++ 10 ∷ (int_text h.num_ops ++ 10 ∷ (int_text h.ignore_ranges ++ 10 ∷ print_ops ops)))

-- The file has no size for `free`: what the array held stays.
abbrev pub size_read : OpType → ℕ → ℕ → ℕ
size_read alloc_op size old = size
size_read free_op size old = old
size_read realloc_op size old = size

abbrev pub as_read : (ℕ → ℕ) → ℕ → List TraceOp → List TraceOp
as_read old i [] = []
as_read old i (x ∷ ops) =
    record { type = x.type; index = x.index; size = size_read x.type x.size (old i) }
    ∷ as_read old (suc i) ops

-- The largest index of a line for `malloc` or `realloc`.
abbrev pub raise : OpType → ℕ → ℕ → ℕ
raise alloc_op index most = larger most index
raise free_op index most = most
raise realloc_op index most = larger most index

abbrev pub highest : ℕ → List TraceOp → ℕ
highest most [] = most
highest most (x ∷ ops) = highest (raise x.type x.index most) ops

-- What a line can hold.
abbrev pub IsLine : OpType → ℕ → ℕ → Type 0
IsLine alloc_op index size = (index < 2 ^ 31) × (size < 2 ^ 31)
IsLine free_op index size = index < 2 ^ 32
IsLine realloc_op index size = (index < 2 ^ 31) × (size < 2 ^ 31)

abbrev pub AllLines : List TraceOp → Type 0
AllLines [] = Unit {0}
AllLines (x ∷ ops) = IsLine x.type x.index x.size × AllLines ops
