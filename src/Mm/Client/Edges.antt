-- ===== src/Mm/Client/Edges.antt =====
-- Requests for no byte, and the null pointer.
use malloc_for_c.Prelude.{ℕ, ◌*◌, ◌%◌, ◌^◌, ◌≡◌}
use malloc_for_c.Memory.{null}
use malloc_for_c.Machine.{State, ok}
use malloc_for_c.Mm.Policy.{Heap, Represents}
use malloc_for_c.Mm.Alloc.{malloc}
use malloc_for_c.Mm.Alloc.Malloc.{ensure_init-done, first-ne, malloc-zero}
use malloc_for_c.Mm.Free.{free}
use malloc_for_c.Mm.Client.{calloc, realloc}

free-null : (s : State) (h : Heap) → Represents s h → free null s ≡ ok tt s
unfolding free
free-null s h v = rw (ensure_init-done s _ (first-ne s h v))

pub null_edges :
    (s : State) (h : Heap)
    → Represents s h
    → (malloc 0 s ≡ ok null s)
      × (free null s ≡ ok tt s)
      × (realloc null 0 s ≡ ok null s)
      × ((n size : ℕ) → n * size % 2 ^ 64 ≡ 0 → calloc n size s ≡ ok null s)
unfolding calloc realloc
null_edges s h v =
    let freed = free-null s h v in
    (malloc-zero s h v, freed, rw freed, λ n size e. rw (e, malloc-zero s h v))
