-- ===== src/Examples/Calls.antt =====
-- mm.c and memlib.c: the theorems on their calls, on an empty heap and on one of three blocks.
use malloc_for_c.Prelude.{
  ◌+◌, ◌<◌, ◌≤◌, ◌%◌, ◌≡◌, ◌≢◌, refl, sym, ◌∙◌, none, some, true, false, [], ◌∷◌, arith,
}
use malloc_for_c.Memory.{Mem, null}
use malloc_for_c.Machine.{State, ok}
use malloc_for_c.Mm.FreeList.{block_append, block_remove}
use malloc_for_c.Mm.FreeList.Links.{Seg, SameOff}
use malloc_for_c.Mm.FreeList.Append.{block_append_lem}
use malloc_for_c.Mm.FreeList.Remove.{block_remove_lem}
use malloc_for_c.Mm.Heap.{block, used}
use malloc_for_c.Mm.Policy.{Represents, obtain, release, first_fit, size_at}
use malloc_for_c.Mm.Alloc.{mm_init, adjust, malloc, find_fit}
use malloc_for_c.Mm.Alloc.Init.{started, no_blocks, mm_init_lem}
use malloc_for_c.Mm.Alloc.Serve.{Becomes}
use malloc_for_c.Mm.Alloc.Search.{serve, find_fit_lem}
use malloc_for_c.Mm.Alloc.Malloc.{malloc_refines, adjust_bounds}
use malloc_for_c.Mm.Alloc.Grant.{Allocation, malloc_grants}
use malloc_for_c.Mm.Free.Release.{Released, free_refines}
use malloc_for_c.Mm.Client.{realloc}
use malloc_for_c.Mm.Client.Realloc.{Reallocated, realloc_moves, realloc_edges}
use malloc_for_c.Mm.Client.Calloc.{Cleared, calloc_clears}
use malloc_for_c.Mm.Session.{Reach, start, after_malloc}
use malloc_for_c.Mm.Session.Invariant.{Holds, Reach-Holds, Freed, free_held}
use malloc_for_c.Examples.{
  base, fresh, fresh-IsFresh, sample, sample_heap, sample-Represents, adjust-100, first-Request,
  first_malloc,
}

after_first : Reach first_malloc.after ((first_malloc.addr + 8) ∷ [])
after_first =
    after_malloc 100 (start fresh-IsFresh (mm_init_lem fresh fresh-IsFresh).0) first-Request
      first_malloc.run

-- The client that has made one request.
Reach-Holds_example : Holds first_malloc.after ((first_malloc.addr + 8) ∷ [])
Reach-Holds_example = Reach-Holds first_malloc.after ((first_malloc.addr + 8) ∷ []) after_first

free_held_example : Freed first_malloc.after [] (first_malloc.addr + 8) []
free_held_example =
    free_held first_malloc.after [] (first_malloc.addr + 8) []
      (Reach-Holds first_malloc.after ((first_malloc.addr + 8) ∷ []) after_first)

mm_init_lem_example :
    (mm_init fresh ≡ ok 0 (started fresh)) × Represents (started fresh) (no_blocks (base + 24))
mm_init_lem_example = mm_init_lem fresh fresh-IsFresh

malloc_grants_example : Allocation sample sample_heap 100
malloc_grants_example =
    malloc_grants sample sample_heap 100 sample-Represents (omega arith) (omega arith) (λ e.
      record {
        below = omega (arith, adjust-100);
        small = omega arith;
        signed = omega (arith, adjust-100);
      })

some-ne-none : some (base + 56) ≢ none
some-ne-none e = cc

-- A request of 32 bytes takes the free block.
fits-32 : first_fit sample_heap.blocks (adjust 32) sample_heap.list ≡ some (base + 56)
unfolding adjust first_fit size_at
fits-32 = refl

malloc_refines_example :
    (s' : State) × (malloc 32 sample ≡ ok ((obtain (adjust 32) sample_heap).0 + 8) s')
    × Becomes sample sample_heap s' (obtain (adjust 32) sample_heap).1
malloc_refines_example =
    malloc_refines sample sample_heap 32 sample-Represents (omega arith) (omega arith)
      (λ none. absurd (some-ne-none (sym fits-32 ∙ none)))

free_refines_example :
    Released sample
      (base + 104)
      sample_heap
      (release (base + 104) sample_heap)
      ((base + 24, 32) ∷ [])
free_refines_example =
    free_refines sample sample_heap (block (base + 24) 32 true ∷ block (base + 56) 48 false ∷ [])
      (base + 104) 32 [] sample-Represents refl

realloc_moves_example : Reallocated sample sample_heap [] (base + 24) 32 ((base + 104, 32) ∷ []) 100
realloc_moves_example =
    realloc_moves sample sample_heap [] (base + 24) 32 ((base + 104, 32) ∷ []) 100 sample-Represents
      refl (omega arith) (omega arith)
      (λ e. record {
        below = omega (arith, adjust-100);
        small = omega arith;
        signed = omega (arith, adjust-100);
      })

realloc_edges_example :
    ((s' : State) × (realloc (base + 104 + 8) 0 sample ≡ ok null s')
      × Represents s' (release (base + 104) sample_heap)
      × (used (release (base + 104) sample_heap).blocks ≡ (base + 24, 32) ∷ []))
    × (0 < 7 → realloc null 7 sample ≡ malloc 7 sample)
realloc_edges_example =
    realloc_edges sample sample_heap ((base + 24, 32) ∷ []) (base + 104) 32 [] 7 sample-Represents
      refl

calloc_clears_example : Cleared sample sample_heap 25 4
calloc_clears_example =
    calloc_clears sample sample_heap 25 4 sample-Represents (omega arith) (omega arith) (λ e.
      record {
        below = omega (arith, adjust-100);
        small = omega arith;
        signed = omega (arith, adjust-100);
      })

find_fit_lem_example :
    find_fit 48 sample
    ≡ serve 48 sample_heap.blocks (first_fit sample_heap.blocks 48 sample_heap.list) sample
find_fit_lem_example =
    find_fit_lem sample sample_heap.blocks sample_heap.list 48 sample-Represents.core (omega arith)

adjust_bounds_example :
    (adjust 100 % 16 ≡ 0) × (32 ≤ adjust 100) × (100 + 16 ≤ adjust 100) × (adjust 100 ≤ 100 + 31)
adjust_bounds_example = adjust_bounds 100 (omega arith) (omega arith)

block_remove_lem_example :
    (m : Mem) × (block_remove (base + 56) sample
      ≡ ok tt (record sample { mem = m; mm_free_head = null }))
    × Seg m null [] null
    × SameOff ((base + 56) ∷ []) sample.mem m
block_remove_lem_example =
    block_remove_lem (base + 56) sample [] [] sample-Represents.core.fits (λ y h. ground arith)
      ((λ y h. absurd (omega arith)), tt) sample-Represents.core.links refl

block_append_lem_example :
    (m : Mem) × (block_append (base + 104) sample
      ≡ ok tt (record sample { mem = m; mm_free_head = base + 104 }))
    × Seg m null ((base + 104) ∷ (base + 56) ∷ []) null
    × SameOff ((base + 104) ∷ (base + 56) ∷ []) sample.mem m
block_append_lem_example =
    block_append_lem (base + 104) sample ((base + 56) ∷ []) sample-Represents.core.fits
      (λ y h. ground arith) ((λ y h. ground arith), ((λ y h. absurd (omega arith)), tt))
      sample-Represents.core.links refl
