-- ===== src/Driver/Util/Usage.antt =====
-- What an allocator without overhead needs for a trace: the sizes of the live requests, added up,
-- and the most that this sum ever is.
use malloc_for_c.Prelude.{
  ℕ, ◌+◌, ◌≡◌, ◌≢◌, refl, ap, List, [], ◌∷◌, ◌++◌, count, count_self, arith, ltb, ◌==◌, ==-true,
  ==-false, if◌then◌else◌,
}
use malloc_for_c.Driver.{OpType, alloc_op, free_op, realloc_op, TraceOp, set_at}

-- The live requests are pairs of an index and a size.
abbrev pub forget : ℕ → List (ℕ × ℕ) → List (ℕ × ℕ)
forget index [] = []
forget index ((j, n) ∷ live) = if j == index then live else (j, n) ∷ forget index live

abbrev pub request : OpType → ℕ → ℕ → List (ℕ × ℕ) → List (ℕ × ℕ)
request alloc_op index size live = (index, size) ∷ live
request realloc_op index size live =
    if size == 0 then forget index live else (index, size) ∷ forget index live
request free_op index size live = forget index live

abbrev pub total : List (ℕ × ℕ) → ℕ
total [] = 0
total ((j, n) ∷ live) = n + total live

abbrev pub larger : ℕ → ℕ → ℕ
larger a b = if ltb a b then b else a

-- The largest sum behind an operation.
abbrev pub peak : List (ℕ × ℕ) → List TraceOp → ℕ
peak live [] = 0
peak live (op ∷ ops) =
    larger (total (request op.type op.index op.size live))
      (peak (request op.type op.index op.size live) ops)

-- The live requests of an array of sizes.
abbrev pub pairs_of : (ℕ → ℕ) → List ℕ → List (ℕ × ℕ)
pairs_of sizes [] = []
pairs_of sizes (j ∷ live) = (j, sizes j) ∷ pairs_of sizes live

pub pairs_of-set :
    (i n : ℕ) (sizes : ℕ → ℕ) (live : List ℕ)
    → count i live ≡ 0
    → pairs_of (set_at i n sizes) live ≡ pairs_of sizes live
pairs_of-set i n sizes [] h = refl
pairs_of-set i n sizes (j ∷ live) h =
    let ne : j ≢ i = λ e. omega (arith, count_self i live, ap (λ w. count i (w ∷ live)) e) in
    rw (==-false j i ne, pairs_of-set i n sizes live (omega arith))

pub pairs_of-add :
    (i n : ℕ) (sizes : ℕ → ℕ) (live : List ℕ)
    → count i live ≡ 0
    → pairs_of (set_at i n sizes) (i ∷ live) ≡ (i, n) ∷ pairs_of sizes live
pairs_of-add i n sizes live h = rw (==-true i i refl, pairs_of-set i n sizes live h)

pub forget-absent :
    (index : ℕ) (sizes : ℕ → ℕ) (live : List ℕ)
    → count index live ≡ 0
    → forget index (pairs_of sizes live) ≡ pairs_of sizes live
forget-absent index sizes [] h = refl
forget-absent index sizes (j ∷ live) h =
    let ne : j ≢ index =
      λ e. omega (arith, count_self index live, ap (λ w. count index (w ∷ live)) e) in
    rw (==-false j index ne, forget-absent index sizes live (omega arith))

pub forget-middle :
    (l : List ℕ) (index : ℕ) (r : List ℕ) (sizes : ℕ → ℕ)
    → count index (l ++ r) ≡ 0
    → forget index (pairs_of sizes (l ++ index ∷ r)) ≡ pairs_of sizes (l ++ r)
forget-middle [] index r sizes h = rw (==-true index index refl)
forget-middle (j ∷ l) index r sizes h =
    let ne : j ≢ index =
      λ e. omega (arith, count_self index (l ++ r), ap (λ w. count index (w ∷ (l ++ r))) e) in
    rw (==-false j index ne, forget-middle l index r sizes (omega arith))

pub total-middle :
    (l : List ℕ) (index : ℕ) (r : List ℕ) (sizes : ℕ → ℕ)
    → total (pairs_of sizes (l ++ index ∷ r)) ≡ sizes index + total (pairs_of sizes (l ++ r))
total-middle [] index r sizes = refl
total-middle (j ∷ l) index r sizes = omega (arith, total-middle l index r sizes)
