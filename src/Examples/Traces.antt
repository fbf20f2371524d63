-- ===== src/Examples/Traces.antt =====
-- mdriver.c: the reading of trace files, at short ones.
use Prim.Native.Char.{code}
use Prim.Native.String.{String}
use malloc_for_c.Prelude.{ℕ, ◌+◌, ◌≡◌, refl, arith, some, List, [], ◌∷◌}
use malloc_for_c.Mm.Alloc.{int_minus_one}
use malloc_for_c.Driver.{alloc_op, free_op, realloc_op, TraceOp}
use malloc_for_c.Driver.Balanced.{op}
use malloc_for_c.Driver.Scan.{read_digits, scan_int, scan_word}
use malloc_for_c.Driver.ReadTrace.{Header, done, app_error, out_of_bounds, read_trace}
use malloc_for_c.Driver.ReadTrace.Print.{print_trace, as_read}
use malloc_for_c.Driver.ReadTrace.RoundTrip.{read_trace-print_trace}

abbrev pub codes : String → List ℕ
codes String.[] = []
codes (String.◌∷◌ c s) = code c ∷ codes s

-- What fresh memory holds.
abbrev pub junk : Header
junk = record { weight = 7; num_ids = 7; num_ops = 7; ignore_ranges = 7 }

abbrev pub fields : ℕ → ℕ → ℕ → ℕ → Header
fields weight num_ids num_ops ignore_ranges = record {
  weight = weight;
  num_ids = num_ids;
  num_ops = num_ops;
  ignore_ranges = ignore_ranges;
}

-- "%ud" takes the letter d behind an index, and the size for `free` is what the array held.
reads_lines :
    read_trace junk (λ i. 90 + i) 5 (some (codes "1 2 4 0 a 0 100 r 1 40 f 0d f -1"))
    ≡ done (
      fields 1 2 4 0,
      op alloc_op 0 100 ∷ op realloc_op 1 40 ∷ op free_op 0 92 ∷ op free_op int_minus_one 93 ∷ [],
    )
unfolding read_trace read_digits scan_int scan_word
reads_lines = refl

-- A line without a size takes that of the line before.
reads_old_size :
    read_trace junk (λ i. 0) 5 (some (codes "0 2 2 0 a 0 100 a 1 x"))
    ≡ done (fields 0 2 2 0, op alloc_op 0 100 ∷ op alloc_op 1 100 ∷ [])
unfolding read_trace read_digits scan_int scan_word
reads_old_size = refl

-- With 0 requests, the first line is written behind the array.
writes_outside : read_trace junk (λ i. 0) 5 (some (codes "0 1 0 0 a 0 8")) ≡ out_of_bounds
unfolding read_trace read_digits scan_int scan_word
writes_outside = refl

bogus_type : read_trace junk (λ i. 0) 5 (some (codes "0 1 1 0 x 0 8")) ≡ app_error
unfolding read_trace read_digits scan_int scan_word
bogus_type = refl

abbrev pub requests : List TraceOp
requests = op realloc_op 1 40 ∷ op free_op int_minus_one 0 ∷ []

read_trace-print_trace_example :
    read_trace junk (λ i. 90) 5 (some (print_trace (fields 1 2 3 0) (op alloc_op 0 100 ∷ requests)))
    ≡ done (fields 1 2 3 0, as_read (λ i. 90) 0 (op alloc_op 0 100 ∷ requests))
read_trace-print_trace_example =
    read_trace-print_trace junk (λ i. 90) 5 (fields 1 2 3 0) (op alloc_op 0 100) requests
      (omega arith) (omega arith) (omega arith) (omega arith) (omega arith) (omega arith)
      ((omega arith, omega arith), ((omega arith, omega arith), (omega arith, tt)))
