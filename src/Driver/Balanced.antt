-- ===== src/Driver/Balanced.antt =====
-- The traces that keep the rules of an allocator's client, and the space that they ask for.
use malloc_for_c.Prelude.{
  ℕ, ◌+◌, ◌^◌, ◌<◌, ◌≡◌, List, ◌∷◌, [], ◌++◌, count, ◌==◌, ◌≤◌, arith, if◌then◌else◌,
}
use malloc_for_c.Machine.{State}
use malloc_for_c.Memlib.Break.{HasSpace}
use malloc_for_c.Mm.Policy.{Heap, Represents}
use malloc_for_c.Mm.Alloc.Malloc.{adjust_bounds}
use malloc_for_c.Mm.Alloc.{adjust, int_minus_one}
use malloc_for_c.Driver.{OpType, alloc_op, free_op, realloc_op, TraceOp}

abbrev pub op : OpType → ℕ → ℕ → TraceOp
op type index size = record { type = type; index = index; size = size }

-- With the indices that are live, and those whose block is freed while `blocks` still points to it.
-- An index that is neither may be reallocated: its pointer is null.
pub data Balanced (num_ids : ℕ) : List ℕ → List ℕ → List TraceOp → Type 0 where
  done : {live stale : List ℕ} → Balanced num_ids live stale []
  and_alloc :
      {live stale : List ℕ} {ops : List TraceOp} (index size : ℕ)
      → count index live ≡ 0
      → index < num_ids
      → 0 < size
      → size < 2 ^ 31
      → Balanced num_ids (index ∷ live) stale ops
      → Balanced num_ids live stale (op alloc_op index size ∷ ops)
  -- `realloc` of the null pointer
  and_realloc_new :
      {live stale : List ℕ} {ops : List TraceOp} (index size : ℕ)
      → count index live ≡ 0
      → count index stale ≡ 0
      → index < num_ids
      → 0 < size
      → size < 2 ^ 31
      → Balanced num_ids (index ∷ live) stale ops
      → Balanced num_ids live stale (op realloc_op index size ∷ ops)
  and_realloc :
      {stale : List ℕ} {ops : List TraceOp} (l : List ℕ) (index : ℕ) (r : List ℕ) (size : ℕ)
      → 0 < size
      → size < 2 ^ 31
      → Balanced num_ids (index ∷ (l ++ r)) stale ops
      → Balanced num_ids (l ++ index ∷ r) stale (op realloc_op index size ∷ ops)
  -- `realloc` to size 0, which frees the block
  and_realloc_zero :
      {stale : List ℕ} {ops : List TraceOp} (l : List ℕ) (index : ℕ) (r : List ℕ)
      → Balanced num_ids (l ++ r) stale ops
      → Balanced num_ids (l ++ index ∷ r) stale (op realloc_op index 0 ∷ ops)
  and_free :
      {stale : List ℕ} {ops : List TraceOp} (l : List ℕ) (index : ℕ) (r : List ℕ) (size : ℕ)
      → Balanced num_ids (l ++ r) (index ∷ stale) ops
      → Balanced num_ids (l ++ index ∷ r) stale (op free_op index size ∷ ops)
  -- `free` of the null pointer
  and_free_null :
      {live stale : List ℕ} {ops : List TraceOp} (size : ℕ)
      → Balanced num_ids live stale ops
      → Balanced num_ids live stale (op free_op int_minus_one size ∷ ops)

-- The space for an operation, and for all, if no block were ever used again.
abbrev pub need : OpType → ℕ → ℕ
need alloc_op size = adjust size
need realloc_op size = if size == 0 then 0 else adjust size
need free_op size = 0

abbrev pub demand : List TraceOp → ℕ
demand [] = 0
demand (x ∷ ops) = need x.type x.size + demand ops

-- A reallocation to a positive size needs space for a block.
pub grow_room :
    (size rest : ℕ) (s : State)
    → 0 < size
    → s.mem_brk + ((if size == 0 then 0 else adjust size) + rest) ≤ s.mem_max_addr
    → s.mem_brk + (adjust size + rest) ≤ s.mem_max_addr
grow_room size rest s pos room = ground arith

pub space_for :
    (s : State) (h : Heap) (size : ℕ)
    → Represents s h
    → 0 < size
    → size < 2 ^ 31
    → s.mem_brk + adjust size ≤ s.mem_max_addr
    → HasSpace s (adjust size)
space_for s h size v pos int room = record {
  below = room;
  small = v.core.fits.small;
  signed = omega (arith, adjust_bounds size pos (omega arith));
}
