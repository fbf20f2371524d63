-- ===== src/Examples/Limits.antt =====
-- mm.c: the null pointer, sizes that wrap around, a heap area that is used up, and `mm_checkheap`.
use malloc_for_c.Prelude.{◌+◌, ◌-◌, ◌^◌, ◌≤◌, ◌≡◌, refl, none, [], arith}
use malloc_for_c.Machine.{ok, fault}
use malloc_for_c.Mm.Policy.{first_fit, size_at}
use malloc_for_c.Mm.Alloc.{adjust, malloc}
use malloc_for_c.Mm.Alloc.Limits.{adjust_wraps, malloc_exhausted}
use malloc_for_c.Mm.Check.{mm_checkheap}
use malloc_for_c.Mm.Check.Whole.{mm_checkheap_lem}
use malloc_for_c.Examples.{sample, sample_heap, sample-Represents}

adjust_wraps_example : adjust (2 ^ 64 - 1) ≤ 16
adjust_wraps_example = adjust_wraps (2 ^ 64 - 1) (omega arith) (omega arith)

adjust-128_mb : adjust (2 ^ 27) ≡ 2 ^ 27 + 16
unfolding adjust
adjust-128_mb = refl

no_fit : first_fit sample_heap.blocks (adjust (2 ^ 27)) sample_heap.list ≡ none
unfolding adjust first_fit size_at
no_fit = refl

malloc_exhausted_example : malloc (2 ^ 27) sample ≡ fault
malloc_exhausted_example =
    malloc_exhausted sample sample_heap (2 ^ 27) sample-Represents (omega arith) (omega arith)
      no_fit (omega (arith, adjust-128_mb)) (omega (arith, adjust-128_mb))

mm_checkheap_lem_example : mm_checkheap sample ≡ ok [] sample
mm_checkheap_lem_example = mm_checkheap_lem sample sample_heap sample-Represents
