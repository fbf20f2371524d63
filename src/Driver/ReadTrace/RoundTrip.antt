-- ===== src/Driver/ReadTrace/RoundTrip.antt =====
-- `read_trace` of mdriver.c on a printed trace.
use malloc_for_c.Prelude.{
  ℕ, zero, suc, ◌+◌, ◌^◌, ◌≤◌, ◌<◌, ◌≡◌, refl, true, some, List, [], ◌∷◌, ◌++◌, length,
  length-append, arith, ltb, ltb-true, leb-false, ==-true, ==-false, ◌==◌,
}
use malloc_for_c.Driver.{OpType, alloc_op, free_op, realloc_op, TraceOp}
use malloc_for_c.Driver.Util.{int_lt, sub32}
use malloc_for_c.Driver.Util.Usage.{larger}
use malloc_for_c.Driver.Scan.{got, scan_word, skip_space, skip_word, first_of_word, skip_literal}
use malloc_for_c.Driver.Scan.Decimal.{int_text, scan_int-int_text}
use malloc_for_c.Driver.ReadTrace.{
  Header, done, Vars, read_pair, read_index, read_sized, read_free, read_request, read_ops,
  read_int, read_header, zero_or_one, read_trace,
}
use malloc_for_c.Driver.ReadTrace.Print.{
  letter, print_size, print_ops, print_trace, size_read, as_read, raise, highest, IsLine, AllLines,
}

-- The switch on a printed line, behind its letter: the request, the largest index, and the rest.
record ReadLine (type : OpType) (index size old : ℕ) (v : Vars) (rest : List ℕ) : Type 0 where
  vars : Vars
  run :
      read_request (letter type) old v (b' ' ∷ (int_text index ++ print_size type size rest))
      ≡ done
          (record { type = type; index = index; size = size_read type size old }, vars, 10 ∷ rest)
  most : vars.max_index ≡ raise type index v.max_index
  small : vars.max_index < 2 ^ 31

read_sized-line :
    (type : OpType) (index size : ℕ) (v : Vars) (rest : List ℕ)
    → index < 2 ^ 31
    → size < 2 ^ 31
    → v.max_index < 2 ^ 31
    → read_sized type v (b' ' ∷ (int_text index ++ b' ' ∷ (int_text size ++ 10 ∷ rest)))
      ≡ done (
        record { type = type; index = index; size = size },
        record { index = index; size = size; max_index = larger v.max_index index },
        10 ∷ rest,
      )
unfolding read_sized read_pair
read_sized-line type index size v rest lt lt' most =
    let first = (scan_int-int_text index b' ' (int_text size ++ 10 ∷ rest) (omega arith) refl).1 in
    let second = (scan_int-int_text size 10 rest (omega arith) refl).1 in
    let larger_int : int_lt v.max_index index ≡ ltb v.max_index index = ground arith in
    rw (read_sized, read_pair, first, second, leb-false (2 ^ 31) size lt', larger_int)

read_free-line :
    (index old : ℕ) (v : Vars) (rest : List ℕ)
    → index < 2 ^ 32
    → read_free old v (b' ' ∷ (int_text index ++ 10 ∷ rest))
      ≡ done (
        record { type = free_op; index = index; size = old },
        record v { index = index },
        10 ∷ rest,
      )
unfolding read_free read_index skip_literal
read_free-line index old v rest lt =
    rw (read_free, read_index, (scan_int-int_text index 10 rest lt refl).1)

read_line :
    (type : OpType) (index size old : ℕ) (v : Vars) (rest : List ℕ)
    → IsLine type index size
    → v.max_index < 2 ^ 31
    → ReadLine type index size old v rest
unfolding read_request
read_line alloc_op index size old v rest h most = record {
  vars = record { index = index; size = size; max_index = larger v.max_index index };
  run = read_sized-line alloc_op index size v rest h.0 h.1 most;
  most = refl;
  small = ground (arith, h.0);
}
read_line realloc_op index size old v rest h most = record {
  vars = record { index = index; size = size; max_index = larger v.max_index index };
  run = read_sized-line realloc_op index size v rest h.0 h.1 most;
  most = refl;
  small = ground (arith, h.0);
}
read_line free_op index size old v rest h most = record {
  vars = record v { index = index };
  run = read_free-line index old v rest h;
  most = refl;
  small = most;
}

scan_word-letter :
    (type : OpType) (s : List ℕ)
    → scan_word (10 ∷ letter type ∷ (b' ' ∷ s)) ≡ got (letter type) (b' ' ∷ s)
unfolding scan_word skip_space first_of_word skip_word
scan_word-letter alloc_op s = refl
scan_word-letter free_op s = refl
scan_word-letter realloc_op s = refl

read_ops-print_ops :
    (x : TraceOp) (ops : List TraceOp) (fuel : ℕ) (old : ℕ → ℕ) (num_ops i : ℕ) (v : Vars)
    → AllLines (x ∷ ops)
    → length ops < fuel
    → i + length (x ∷ ops) ≡ num_ops
    → v.max_index < 2 ^ 31
    → read_ops fuel old num_ops i v (10 ∷ print_ops (x ∷ ops))
      ≡ done (as_read old i (x ∷ ops), highest v.max_index (x ∷ ops), num_ops)
unfolding read_ops
read_ops-print_ops x ops zero old num_ops i v h enough e most = absurd (omega arith)
read_ops-print_ops x [] (suc fuel) old num_ops i v h enough e most =
    let d = read_line x.type x.index x.size (old i) v [] h.0 most in
    let same : suc i ≡ num_ops = omega arith in
    rw
      (
        read_ops,
        scan_word-letter x.type (int_text x.index ++ print_size x.type x.size []),
        d.run,
        ltb-true i num_ops (omega arith),
        ==-true (suc i) num_ops (omega arith),
      )
      (λ j. done (as_read old i (x ∷ []), d.most j, same j))
read_ops-print_ops x (y ∷ ops) (suc fuel) old num_ops i v h enough e most =
    let d = read_line x.type x.index x.size (old i) v (print_ops (y ∷ ops)) h.0 most in
    let rest =
      read_ops-print_ops y ops fuel old num_ops (suc i) d.vars h.1 (omega arith) (omega arith)
        d.small in
    rw
      (
        read_ops,
        scan_word-letter x.type
            (int_text x.index ++ print_size x.type x.size (print_ops (y ∷ ops))),
        d.run,
        ltb-true i num_ops (omega arith),
        ==-false (suc i) num_ops (omega arith),
        rest,
      )
      (λ j. done (as_read old i (x ∷ y ∷ ops), highest (d.most j) (y ∷ ops), num_ops))

read_header-print_trace :
    (old h : Header) (ops : List TraceOp)
    → h.weight < 2
    → h.num_ids < 2 ^ 31
    → h.num_ops < 2 ^ 31
    → h.ignore_ranges < 2
    → read_header old (print_trace h ops) ≡ done (h, 10 ∷ print_ops ops)
unfolding read_header read_int
read_header-print_trace old h ops w ids num ign =
    let last = int_text h.ignore_ranges ++ 10 ∷ print_ops ops in
    rw (
      read_header,
      read_int,
      (scan_int-int_text h.weight 10 (int_text h.num_ids ++ 10 ∷ (int_text h.num_ops ++ 10 ∷ last))
          (omega arith) refl).0,
      (scan_int-int_text h.num_ids 10 (int_text h.num_ops ++ 10 ∷ last) (omega arith) refl).2,
      (scan_int-int_text h.num_ops 10 last (omega arith) refl).2,
      (scan_int-int_text h.ignore_ranges 10 (print_ops ops) (omega arith) refl).2,
    )

length-print_size :
    (type : OpType) (size : ℕ) (rest : List ℕ) → length rest ≤ length (print_size type size rest)
length-print_size alloc_op size rest = omega (arith, length-append {0} (int_text size) (10 ∷ rest))
length-print_size free_op size rest = omega arith
length-print_size realloc_op size rest =
    omega (arith, length-append {0} (int_text size) (10 ∷ rest))

length-print_line :
    (x : TraceOp) (ops : List TraceOp) → length (print_ops ops) < length (print_ops (x ∷ ops))
length-print_line x ops = omega (
  arith,
  length-append {0} (int_text x.index) (print_size x.type x.size (print_ops ops)),
  length-print_size x.type x.size (print_ops ops),
)

length-print_ops : (ops : List TraceOp) → length ops ≤ length (print_ops ops)
length-print_ops [] = omega arith
length-print_ops (x ∷ ops) = omega (arith, length-print_ops ops, length-print_line x ops)

-- A trace that is printed in the format of the trace files is read back by `read_trace`, whatever
-- the fresh memory held: the four numbers in front and the requests, where the size of a `free` is
-- what the array held. This is for weight and ignore-ranges 0 or 1, one request at least, the right
-- number of requests, one index more than the highest of the lines for `malloc` and `realloc`,
-- non-negative `int`s as indices and sizes of those lines, and any `int` as index of a `free`.
pub read_trace-print_trace :
    (old_header : Header) (old_sizes : ℕ → ℕ) (old_size : ℕ) (h : Header) (x : TraceOp)
    (ops : List TraceOp)
    → h.weight < 2
    → h.ignore_ranges < 2
    → h.num_ids < 2 ^ 31
    → h.num_ops < 2 ^ 31
    → length (x ∷ ops) ≡ h.num_ops
    → highest 0 (x ∷ ops) + 1 ≡ h.num_ids
    → AllLines (x ∷ ops)
    → read_trace old_header old_sizes old_size (some (print_trace h (x ∷ ops)))
      ≡ done (h, as_read old_sizes 0 (x ∷ ops))
unfolding read_trace
read_trace-print_trace old_header old_sizes old_size h x ops w ign ids num all most lines =
    let bytes = 10 ∷ print_ops (x ∷ ops) in
    let v : Vars = record { index = 0; size = old_size; max_index = 0 } in
    let weight : zero_or_one h.weight ≡ true = ground arith in
    let ignore : zero_or_one h.ignore_ranges ≡ true = ground arith in
    let top : (highest 0 (x ∷ ops) == sub32 h.num_ids 1) ≡ true = ==-true _ _ (omega arith) in
    rw (
      read_trace,
      read_header-print_trace old_header h (x ∷ ops) w ids num ign,
      weight,
      ignore,
      leb-false (2 ^ 31) h.num_ops num,
      leb-false (2 ^ 31) h.num_ids ids,
      read_ops-print_ops x ops (suc (length bytes)) old_sizes h.num_ops 0 v lines
          (omega (arith, length-print_ops (x ∷ ops))) (omega arith) (omega arith),
      top,
      ==-true h.num_ops h.num_ops refl,
    )
