-- ===== src/Driver/ReadTrace/Lines.antt =====
-- One line of any trace file: the bytes it takes, and its index.
use malloc_for_c.Prelude.{
  ℕ, ◌+◌, ◌%◌, ◌^◌, ◌≤◌, ◌≡◌, refl, subst, ◌⊎◌, inl, inr, List, [], ◌∷◌, length, arith, ◌==◌,
  Bool-cases, if◌then◌else◌,
}
use malloc_for_c.Driver.{OpType, alloc_op, free_op, realloc_op, TraceOp}
use malloc_for_c.Driver.Util.{int_lt}
use malloc_for_c.Driver.Scan.{scan_int}
use malloc_for_c.Driver.Scan.Length.{
  Scanned-cases, LeavesAtMost, scan_int_leaves, length-skip_literal,
}
use malloc_for_c.Driver.ReadTrace.{
  ReadResult, done, unix_error, app_error, assert_failed, out_of_bounds, out_of_fuel, Vars,
  read_pair, read_index, read_sized, read_free, read_request,
}

-- An `int` on the scale of the signed numbers.
abbrev pub signed : ℕ → ℕ
signed n = (n + 2 ^ 31) % 2 ^ 32

-- A line for `malloc` or `realloc` has an index of at most `most`.
abbrev pub AtMost : ℕ → OpType → ℕ → Type 0
AtMost most alloc_op index = signed index ≤ signed most
AtMost most free_op index = Unit {0}
AtMost most realloc_op index = signed index ≤ signed most

abbrev pub AllAtMost : ℕ → List TraceOp → Type 0
AllAtMost most [] = Unit {0}
AllAtMost most (x ∷ ops) = AtMost most x.type x.index × AllAtMost most ops

-- What a line comes to.
abbrev pub LineEnds : Vars → ℕ → ReadResult (TraceOp × Vars × List ℕ) → Type 0
LineEnds v n (done (x, v', rest)) =
    (length rest ≤ n)
    × (signed v.max_index ≤ signed v'.max_index)
    × AtMost v'.max_index x.type x.index
LineEnds v n unix_error = Unit {0}
LineEnds v n app_error = Unit {0}
LineEnds v n assert_failed = Unit {0}
LineEnds v n out_of_bounds = ⊥
LineEnds v n out_of_fuel = ⊥

-- The two numbers of a line.
abbrev PairEnds : ℕ → ReadResult (ℕ × ℕ × List ℕ) → Type 0
PairEnds n (done (index, size, rest)) = length rest ≤ n
PairEnds n unix_error = Unit {0}
PairEnds n app_error = Unit {0}
PairEnds n assert_failed = Unit {0}
PairEnds n out_of_bounds = ⊥
PairEnds n out_of_fuel = ⊥

read_pair_ends : (index size : ℕ) (s : List ℕ) → PairEnds (length s) (read_pair index size s)
unfolding read_pair
read_pair_ends index size s =
    let first = scan_int_leaves s in
    elim (Scanned-cases (scan_int s)) [
      | inl e ↦ rw (read_pair, e) tt
      | inr (inl (rest, e)) ↦ rw (read_pair, e) (subst (LeavesAtMost (length s)) e first)
      | inr (inr (n, rest, e)) ↦
          let le : length rest ≤ length s = subst (LeavesAtMost (length s)) e first in
          let second = scan_int_leaves rest in
          elim (Scanned-cases (scan_int rest)) [
            | inl e' ↦ rw (read_pair, e, e') (omega arith)
            | inr (inl (rest', e')) ↦
                let le' : length rest' ≤ length rest =
                  subst (LeavesAtMost (length rest)) e' second in
                rw (read_pair, e, e') (omega arith)
            | inr (inr (m, rest', e')) ↦
                let le' : length rest' ≤ length rest =
                  subst (LeavesAtMost (length rest)) e' second in
                rw (read_pair, e, e') (omega arith)
          ]
    ]

raise_ends :
    (most index : ℕ)
    → let m = if int_lt most index then index else most in
      (signed most ≤ signed m) × (signed index ≤ signed m)
raise_ends most index = ground arith

pair_cases :
    (n : ℕ) (r : ReadResult (ℕ × ℕ × List ℕ))
    → PairEnds n r
    → (r ≡ unix_error)
      ⊎ (r ≡ app_error)
      ⊎ (r ≡ assert_failed)
      ⊎ ((index : ℕ) × (size : ℕ) × (rest : List ℕ) × (r ≡ done (index, size, rest))
          × (length rest ≤ n))
pair_cases n (done (index, size, rest)) h = inr (inr (inr (index, size, rest, refl, h)))
pair_cases n unix_error h = inl refl
pair_cases n app_error h = inr (inl refl)
pair_cases n assert_failed h = inr (inr (inl refl))
pair_cases n out_of_bounds h = absurd h
pair_cases n out_of_fuel h = absurd h

AtMost-sized :
    (type : OpType) (most index : ℕ) → signed index ≤ signed most → AtMost most type index
AtMost-sized alloc_op most index h = h
AtMost-sized free_op most index h = tt
AtMost-sized realloc_op most index h = h

pub AtMost-more :
    (m m' : ℕ) (type : OpType) (index : ℕ)
    → signed m ≤ signed m'
    → AtMost m type index
    → AtMost m' type index
AtMost-more m m' alloc_op index le h = omega arith
AtMost-more m m' free_op index le h = tt
AtMost-more m m' realloc_op index le h = omega arith

read_sized_ends :
    (type : OpType) (v : Vars) (s : List ℕ) → LineEnds v (length s) (read_sized type v s)
unfolding read_sized
read_sized_ends type v s =
    elim (pair_cases (length s) (read_pair v.index v.size s) (read_pair_ends v.index v.size s)) [
      | inl e ↦ rw (read_sized, e) tt
      | inr (inl e) ↦ rw (read_sized, e) tt
      | inr (inr (inl e)) ↦ rw (read_sized, e) tt
      | inr (inr (inr (index, size, rest, e, le))) ↦
          let m = raise_ends v.max_index index in
          rw (read_sized, e) (le, m.0, AtMost-sized type _ index m.1)
    ]

read_free_ends : (old : ℕ) (v : Vars) (s : List ℕ) → LineEnds v (length s) (read_free old v s)
unfolding read_free read_index
read_free_ends old v s =
    let first = scan_int_leaves s in
    elim (Scanned-cases (scan_int s)) [
      | inl e ↦ rw (read_free, read_index, e) tt
      | inr (inl (rest, e)) ↦
          let le : length rest ≤ length s = subst (LeavesAtMost (length s)) e first in
          rw (read_free, read_index, e) (le, omega arith, tt)
      | inr (inr (n, rest, e)) ↦
          let le : length rest ≤ length s = subst (LeavesAtMost (length s)) e first in
          rw (read_free, read_index, e)
            (omega (arith, le, length-skip_literal b'd' rest), omega arith, tt)
    ]

pub read_request_ends :
    (c old : ℕ) (v : Vars) (s : List ℕ) → LineEnds v (length s) (read_request c old v s)
unfolding read_request
read_request_ends c old v s = elim (Bool-cases (c == b'a')) [
  | inl a ↦ rw a (read_sized_ends alloc_op v s)
  | inr n ↦ elim (Bool-cases (c == b'r')) [
    | inl r ↦ rw (n, r) (read_sized_ends realloc_op v s)
    | inr m ↦ elim (Bool-cases (c == b'f')) [
      | inl f ↦ rw (n, m, f) (read_free_ends old v s)
      | inr other ↦ rw (n, m, other) tt
    ]
  ]
]

pub line_cases :
    (v : Vars) (n : ℕ) (r : ReadResult (TraceOp × Vars × List ℕ))
    → LineEnds v n r
    → (r ≡ unix_error)
      ⊎ (r ≡ app_error)
      ⊎ (r ≡ assert_failed)
      ⊎ ((x : TraceOp) × (v' : Vars) × (rest : List ℕ) × (r ≡ done (x, v', rest))
          × LineEnds v n (done (x, v', rest)))
line_cases v n (done (x, v', rest)) h = inr (inr (inr (x, v', rest, refl, h)))
line_cases v n unix_error h = inl refl
line_cases v n app_error h = inr (inl refl)
line_cases v n assert_failed h = inr (inr (inl refl))
line_cases v n out_of_bounds h = absurd h
line_cases v n out_of_fuel h = absurd h
