-- ===== src/Mm/Alloc/Malloc.antt =====
-- `malloc` against the block that the policy chooses.
use malloc_for_c.Prelude.{
  ℕ, ◌+◌, ◌%◌, ◌^◌, ◌≤◌, ◌<◌, ◌≡◌, ◌≢◌, sym, ap, ◌∙◌, none, arith, ==-false, ◌==◌, if◌then◌else◌,
}
use malloc_for_c.Memory.{null}
use malloc_for_c.Machine.{State, Cmd, ok, pure, and_then, ◌>>◌}
use malloc_for_c.Machine.Access.{and_then_assoc}
use malloc_for_c.Memlib.Break.{HasSpace}
use malloc_for_c.Mm.Block.{w_size, incr_pointer}
use malloc_for_c.Mm.Block.Access.{incr-eq}
use malloc_for_c.Mm.Alloc.{ensure_init, create_space, find_fit, adjust, malloc}
use malloc_for_c.Mm.Alloc.Serve.{Becomes}
use malloc_for_c.Mm.Alloc.Obtain.{obtain_lem}
use malloc_for_c.Mm.Policy.{Heap, first_fit, obtain, Represents}

-- For a positive size that does not overflow, the block size of `malloc` is a multiple of 16, at
-- least 32, holds the size and both tags, and is at most 31 bytes more than the size.
pub adjust_bounds :
    (size : ℕ)
    → 0 < size
    → size + 31 < 2 ^ 64
    → (adjust size % 16 ≡ 0)
      × (32 ≤ adjust size)
      × (size + 16 ≤ adjust size)
      × (adjust size ≤ size + 31)
unfolding adjust
adjust_bounds size h lt = omega arith

pub ensure_init-done :
    {A : Type 0} (s : State) (k : Cmd A) → s.mm_heap_first ≢ 0 → (ensure_init >> k) s ≡ k s
unfolding ensure_init
ensure_init-done s k h = rw (==-false s.mm_heap_first 0 h)

pub first-ne : (s : State) (h : Heap) → Represents s h → s.mm_heap_first ≢ 0
first-ne s h v = omega (arith, v.core.first)

-- What `malloc` needs of the heap area: space for a new block where no listed one fits.
abbrev pub Served : State → Heap → ℕ → Type 0
Served s h n = first_fit h.blocks n h.list ≡ none → HasSpace s n

-- In a state that represents a heap, `malloc` of a positive size that does not overflow returns the
-- payload of the block that the abstract policy obtains for the adjusted size, where a listed block
-- fits or there is space for a new one: the first fit of the free list, split if the rest can be a
-- block, or a new block at the end. The new state represents the heap of the policy, and the
-- payloads in use keep their bytes.
pub malloc_refines :
    (s : State) (h : Heap) (size : ℕ)
    → Represents s h
    → 0 < size
    → size + 63 < 2 ^ 64
    → Served s h (adjust size)
    → (s' : State) × (malloc size s ≡ ok ((obtain (adjust size) h).0 + 8) s')
      × Becomes s h s' (obtain (adjust size) h).1
unfolding malloc
malloc_refines s h size v pos lt space =
    let b = adjust_bounds size pos (omega arith) in
    let n = adjust size in
    let (s', run, becomes, lo, hi) = obtain_lem s h n v b.1 b.0 (omega arith) space in
    (
      s',
      rw (ensure_init-done s _ (first-ne s h v), ==-false size 0 (omega arith))
          (sym (
              and_then_assoc (find_fit n s)
                (λ fit. if fit == null then create_space n else pure fit)
                (λ p. pure (incr_pointer w_size p)))
            ∙ ap (λ r. and_then r (λ p. pure (incr_pointer w_size p))) run
            ∙ ap (λ p. ok p s') (incr-eq 8 (obtain n h).0 (omega (arith, v.core.fits)))),
      becomes,
    )

-- A request for no byte gives the null pointer and changes nothing.
pub malloc-zero : (s : State) (h : Heap) → Represents s h → malloc 0 s ≡ ok null s
unfolding malloc
malloc-zero s h v = rw (ensure_init-done s _ (first-ne s h v))
