-- ===== src/Driver/Util/Rooms.antt =====
-- The sizes of the live blocks against the heap.
use malloc_for_c.Prelude.{ℕ, ◌+◌, ◌≤◌, ◌≡◌, refl, ap, List, [], ◌∷◌, ◌++◌, count, count_self, arith}
use malloc_for_c.Memory.{Ptr}
use malloc_for_c.Machine.{State}
use malloc_for_c.Mm.Heap.{Block, Tiled, used}
use malloc_for_c.Mm.Policy.{Heap}
use malloc_for_c.Mm.Session.Payloads.{payloads, count-insert}
use malloc_for_c.Driver.{Tester}
use malloc_for_c.Driver.Held.{Has-split, OnceEach, used-OnceEach}
use malloc_for_c.Driver.Util.Usage.{total, pairs_of}
use malloc_for_c.Driver.Util.Tracked.{Listed, Listed-less, Tracked}

-- The bytes of the blocks.
abbrev rooms : List (Ptr × ℕ) → ℕ
rooms [] = 0
rooms ((p, n) ∷ us) = n + rooms us

rooms-insert :
    (u : List (Ptr × ℕ)) (p n : ℕ) (v : List (Ptr × ℕ))
    → rooms (u ++ (p, n) ∷ v) ≡ n + rooms (u ++ v)
rooms-insert [] p n v = refl
rooms-insert ((q, m) ∷ u) p n v = omega (arith, rooms-insert u p n v)

rooms-used : (p q : Ptr) (bs : List Block) → Tiled p bs q → p + rooms (used bs) ≤ q
rooms-used p q [] t = omega arith
rooms-used p q (b ∷ bs) t = ground (arith, rooms-used (p + b.size) q bs t.3)

total-le-rooms :
    (live : List ℕ) (us : List (Ptr × ℕ)) (blocks sizes : ℕ → ℕ)
    → OnceEach us
    → Listed us live blocks sizes
    → total (pairs_of sizes live) ≤ rooms us
total-le-rooms [] us blocks sizes once d = omega arith
total-le-rooms (j ∷ live) us blocks sizes once d =
    let m = d.kept j (omega (arith, count_self j live)) in
    let (u, v, e) = Has-split us m.addr m.room m.in_use in
    let fewer : OnceEach (u ++ v) = λ x.
      ground (arith, once x, ap (λ w. count x (payloads w)) e, count-insert x u m.addr m.room v) in
    omega (
      arith,
      m.fits,
      ap rooms e,
      rooms-insert u m.addr m.room v,
      total-le-rooms live (u ++ v) blocks sizes fewer
          (Listed-less us u m.addr m.room v [] j live blocks sizes once d e m.pointer),
    )

pub total-le-heap :
    (num_ids : ℕ) (live stale : List ℕ) (t : Tester) (s : State) (h : Heap)
    → Tracked num_ids live stale t s h
    → total (pairs_of t.block_sizes live) + s.heap + 40 ≤ s.mem_brk
total-le-heap num_ids live stale t s h a = omega (
  arith,
  a.heap.core.brk,
  rooms-used (s.heap + 24) s.mm_heap_last h.blocks a.heap.core.tiled,
  total-le-rooms live (used h.blocks) t.blocks t.block_sizes (used-OnceEach s h a.heap) a.listed,
)
