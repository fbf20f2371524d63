-- ===== src/Examples.antt =====
-- Concrete heaps, and the theorems of the program at them.
pub mod Calls
pub mod Limits
pub mod Driver
pub mod Runs
pub mod Traces
pub mod Timing
pub mod Tests
pub mod Args
use malloc_for_c.Prelude.{
  ℕ, ◌+◌, ◌-◌, ◌*◌, ◌^◌, ◌<◌, ◌≤◌, ◌%◌, ◌≡◌, ◌≢◌, refl, sym, ◌∙◌, Option, none, some, inl, inr,
  true, false, List, [], ◌∷◌, ◌++◌, arith, count, count_self,
}
use malloc_for_c.Memory.{Ptr, Mem, null, word, put}
use malloc_for_c.Machine.{State, Run, ok, Cmd, pure, get, ◌>>=◌, ◌>>◌, load, store}
use malloc_for_c.Memlib.{mem_sbrk, minus_one, max_heap}
use malloc_for_c.Memlib.Break.{HasSpace, mem_sbrk-ok, mem_sbrk-fail}
use malloc_for_c.Mm.FreeList.{block_append, block_remove}
use malloc_for_c.Mm.FreeList.Links.{Fits, Node, Spread, Seg, SameOff}
use malloc_for_c.Mm.FreeList.Append.{block_append_lem}
use malloc_for_c.Mm.FreeList.Remove.{block_remove_lem}
use malloc_for_c.Mm.Heap.{Block, block, Tags, Core, used}
use malloc_for_c.Mm.Heap.Relink.{relinked}
use malloc_for_c.Mm.Policy.{Heap, Represents, obtain, release, first_fit, size_at}
use malloc_for_c.Mm.Alloc.{mm_init, adjust, malloc, find_fit}
use malloc_for_c.Mm.Alloc.Init.{IsFresh, started, no_blocks, mm_init_lem}
use malloc_for_c.Mm.Alloc.Serve.{Becomes}
use malloc_for_c.Mm.Alloc.Search.{serve, find_fit_lem}
use malloc_for_c.Mm.Alloc.Malloc.{malloc_refines, adjust_bounds}
use malloc_for_c.Mm.Alloc.Grant.{Allocation, malloc_grants}
use malloc_for_c.Mm.Free.Release.{Released, free_refines}
use malloc_for_c.Mm.Client.{realloc}
use malloc_for_c.Mm.Client.Realloc.{Reallocated, realloc_moves, realloc_edges}
use malloc_for_c.Mm.Client.Calloc.{Cleared, calloc_clears}
use malloc_for_c.Mm.Session.{Request, Reach, start, after_malloc}
use malloc_for_c.Mm.Session.Invariant.{Holds, Reach-Holds, Freed, free_held}

-- Where memlib.c maps the heap area.
abbrev pub base : Ptr
base = 0x8_0000_0000

abbrev pub fresh : State
fresh = record {
  mem = λ a. 0;
  heap = base;
  mem_brk = base;
  mem_max_addr = base + max_heap;
  mm_heap_first = 0;
  mm_heap_last = 0;
  mm_free_head = 0;
}

pub fresh-IsFresh : IsFresh fresh
fresh-IsFresh = record {
  positive = omega arith;
  aligned = refl;
  empty = refl;
  room = omega arith;
  small = omega arith;
}

-- Three blocks: 32 bytes in use, 48 bytes free, 32 bytes in use.
abbrev tagged : Mem
tagged =
    put
      (put
        (put (put (put (put (λ a. 0) (base + 24) 33) (base + 48) 33) (base + 56) 48) (base + 96) 48)
        (base + 104) 33)
      (base + 128) 33

abbrev pub sample : State
sample = record {
  mem = tagged;
  heap = base;
  mem_brk = base + 152;
  mem_max_addr = base + max_heap;
  mm_heap_first = base + 8;
  mm_heap_last = base + 136;
  mm_free_head = base + 56;
}

abbrev pub sample_heap : Heap
sample_heap = record {
  blocks = block (base + 24) 32 true ∷ block (base + 56) 48 false ∷ block (base + 104) 32 true ∷ [];
  list = (base + 56) ∷ [];
  last = base + 136;
}

sample-Tags : Tags tagged sample_heap.blocks
unfolding word put
sample-Tags = (refl, refl, (refl, refl, (refl, refl, tt)))

sample-Seg : Seg tagged null sample_heap.list null
unfolding word put
sample-Seg = (refl, refl, tt)

pub sample-Represents : Represents sample sample_heap
sample-Represents = record {
  core = record {
    fits = record { positive = omega arith; small = omega arith };
    aligned = refl;
    first = refl;
    brk = refl;
    room = omega arith;
    tiled = (refl, omega arith, refl, (refl, omega arith, refl, (refl, omega arith, refl, refl)));
    tags = sample-Tags;
    links = sample-Seg;
    head = refl;
    listed = λ x. omega arith;
  };
  coalesced = (inl refl, (inr refl, tt));
  last = refl;
}

pub sample_space : HasSpace sample 144
sample_space = record { below = omega arith; small = omega arith; signed = omega arith }

pub adjust-100 : adjust 100 ≡ 128
unfolding adjust
adjust-100 = refl

started-Represents : Represents (started fresh) (no_blocks (base + 24))
started-Represents = (mm_init_lem fresh fresh-IsFresh).1

-- A first request for 100 bytes.
pub first-Request : Request (started fresh) 100
first-Request = record {
  positive = omega arith;
  small = omega arith;
  space = record {
    below = omega (arith, adjust-100);
    small = omega arith;
    signed = omega (arith, adjust-100);
  };
}

pub first_malloc : Allocation (started fresh) (no_blocks (base + 24)) 100
first_malloc =
    malloc_grants (started fresh) (no_blocks (base + 24)) 100 started-Represents (omega arith)
      (omega arith) (λ e. first-Request.space)
