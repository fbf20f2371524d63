-- ===== src/Mm/Session.antt =====
-- Runs of a client of mm.c: `mm_init` on an empty heap area, then calls of `malloc`, `calloc`,
-- `realloc` and `free` and writes into the payloads that are in use, in any order.
pub mod Payloads
pub mod Invariant
use malloc_for_c.Prelude.{ℕ, ◌+◌, ◌*◌, ◌^◌, ◌≤◌, ◌<◌, ◌≡◌, ◌≢◌, List, [], ◌∷◌, ◌++◌}
use malloc_for_c.Memory.{Ptr, Mem, null, word}
use malloc_for_c.Machine.{State, ok}
use malloc_for_c.Memlib.Break.{HasSpace}
use malloc_for_c.Mm.Block.{get_size}
use malloc_for_c.Mm.Alloc.{mm_init, adjust, malloc}
use malloc_for_c.Mm.Alloc.Init.{IsFresh}
use malloc_for_c.Mm.Free.{free}
use malloc_for_c.Mm.Client.{realloc, calloc}

-- What a request for `bytes` bytes needs: it is positive, and there is space for a block.
pub record Request (s : State) (bytes : ℕ) : Type 0 where
  pub positive : 0 < bytes
  pub small : bytes + 63 < 2 ^ 64
  pub space : HasSpace s (adjust bytes)

-- The states that a client reaches, with the pointers that it holds. A client passes only pointers
-- it holds to `free` and `realloc`, and writes only into their payloads, whose sizes are in the
-- header words.
pub data Reach : State → List Ptr → Type 0 where
  start : {s s' : State} → IsFresh s → mm_init s ≡ ok 0 s' → Reach s' []
  after_malloc :
      {s s' : State} {live : List Ptr} {p : Ptr} (size : ℕ)
      → Reach s live
      → Request s size
      → malloc size s ≡ ok p s'
      → Reach s' (p ∷ live)
  after_calloc :
      {s s' : State} {live : List Ptr} {p : Ptr} (n size : ℕ)
      → Reach s live
      → Request s (n * size)
      → calloc n size s ≡ ok p s'
      → Reach s' (p ∷ live)
  after_realloc :
      {s s' : State} {p : Ptr} (l : List Ptr) (old : Ptr) (r : List Ptr) (size : ℕ)
      → Reach s (l ++ old ∷ r)
      → Request s size
      → realloc old size s ≡ ok p s'
      → Reach s' (p ∷ l ++ r)
  after_free :
      {s s' : State} (l : List Ptr) (p : Ptr) (r : List Ptr)
      → Reach s (l ++ p ∷ r)
      → free p s ≡ ok tt s'
      → Reach s' (l ++ r)
  after_write :
      {s : State} (l : List Ptr) (x k : Ptr) (r : List Ptr) (m : Mem)
      → Reach s (l ++ (x + 8) ∷ r)
      → get_size x s ≡ ok k s
      → ((a : ℕ) → m a ≢ s.mem a → (x + 8 ≤ a) × (a + 8 < x + k))
      → Reach (record s { mem = m }) (l ++ (x + 8) ∷ r)
