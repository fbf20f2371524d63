-- ===== src/Driver/Util/Steps.antt =====
-- The operations of a trace in `eval_mm_util`: the heap, and the sum of the live sizes.
use malloc_for_c.Prelude.{
  ℕ, ◌+◌, ◌-◌, ◌%◌, ◌^◌, ◌≤◌, ◌<◌, ◌≡◌, ◌≢◌, refl, ap, some, List, ◌∷◌, count, count_self, arith,
  ==-true, ==-false, leb-false,
}
use malloc_for_c.Memory.{null}
use malloc_for_c.Machine.{State, ok}
use malloc_for_c.Memlib.Break.{HasSpace}
use malloc_for_c.Mm.Heap.{used}
use malloc_for_c.Mm.Policy.{Heap}
use malloc_for_c.Mm.Alloc.{adjust, malloc}
use malloc_for_c.Mm.Alloc.Grant.{malloc_grants}
use malloc_for_c.Driver.{Tester}
use malloc_for_c.Driver.Held.{Clean-step}
use malloc_for_c.Driver.Eval.{remember}
use malloc_for_c.Driver.Eval.Alloc.{realloc-null}
use malloc_for_c.Driver.Util.{Totals, add32, update_mark, util_alloc, util_realloc}
use malloc_for_c.Driver.Util.Usage.{total, pairs_of, pairs_of-add}
use malloc_for_c.Driver.Util.Tracked.{Tracked, Listed-Granted}
use malloc_for_c.Driver.Util.Rooms.{total-le-heap}

-- What an operation leaves behind.
pub record Counted (num_ids : ℕ) (live stale : List ℕ) (pairs : List (ℕ × ℕ)) (limit : ℕ)
    (before : State) (t : Tester) (s : State) : Type 0 where
  pub policy : Heap
  pub tracked : Tracked num_ids live stale t s policy
  pub same_pairs : pairs_of t.block_sizes live ≡ pairs
  pub grows : s.mem_brk ≤ limit
  pub no_less : before.mem_brk ≤ s.mem_brk
  pub same_max : s.mem_max_addr ≡ before.mem_max_addr
  pub same_lo : s.heap ≡ before.heap

-- The sum is that of the live requests, in an area where an `int` holds it.
pub record Summed (pairs : List (ℕ × ℕ)) (u : Totals) (s : State) : Type 0 where
  pub sum : u.total_size ≡ total pairs
  pub area : s.mem_max_addr < s.heap + 2 ^ 31

pub Counted-small :
    (num_ids : ℕ) (live stale : List ℕ) (pairs : List (ℕ × ℕ)) (limit : ℕ) (before : State)
    (t : Tester) (s : State)
    → Counted num_ids live stale pairs limit before t s
    → before.mem_max_addr < before.heap + 2 ^ 31
    → total pairs < 2 ^ 31
Counted-small num_ids live stale pairs limit before t s d area = omega (
  arith,
  total-le-heap num_ids live stale t s d.policy d.tracked,
  ap total d.same_pairs,
  d.tracked.heap.core.room,
  d.same_max,
  d.same_lo,
)

module _ (num_ids : ℕ) (live stale : List ℕ) (index size : ℕ) (u : Totals) (t : Tester) (s : State)
    (h : Heap) (a : Tracked num_ids live stale t s h)
    (sum : Summed (pairs_of t.block_sizes live) u s) (out : count index live ≡ 0)
    (small : index < 2 ^ 31) (pos : 0 < size) (int : size < 2 ^ 31)
    (space : HasSpace s (adjust size)) where
  abbrev Added : Tester → State → Type 0
  Added t' s' =
      Counted num_ids (index ∷ live) stale ((index, size) ∷ pairs_of t.block_sizes live)
        (s.mem_brk + adjust size) s t' s'

  added :
      (p : ℕ) × (s' : State) × (p ≢ null)
      × (malloc size s ≡ ok p s')
      × Added (remember index p size t) s'
  added =
      let d = malloc_grants s h size a.heap pos (omega arith) (λ e. space) in
      let self = ==-true index index refl in
      (
        d.addr + 8,
        d.after,
        omega arith,
        d.run,
        record {
          policy = d.new;
          tracked = record {
            heap = d.becomes.heap;
            listed =
                Listed-Granted (used h.blocks) (used d.new.blocks) live t.blocks t.block_sizes index
                  d.addr size a.listed out d.granted pos small;
            clean =
                Clean-step num_ids live stale (index ∷ live) stale index t.blocks t.block_sizes
                  (remember index (d.addr + 8) size t).blocks
                  (remember index (d.addr + 8) size t).block_sizes a.clean
                  (λ j ne. (rw (==-false j index ne) refl, rw (==-false j index ne) refl))
                  (λ j ne p q. (ground arith, q))
                  (λ p q. absurd (omega (arith, count_self index live)));
          };
          same_pairs = pairs_of-add index size t.block_sizes live out;
          grows = d.grows;
          no_less = d.no_less;
          same_max = d.becomes.same_max;
          same_lo = d.becomes.same_lo;
        },
      )

  abbrev new_total : ℕ
  new_total = size + total (pairs_of t.block_sizes live)

  new_total-eq : (t' : Tester) (s' : State) → Added t' s' → add32 u.total_size size ≡ new_total
  new_total-eq t' s' d =
      let le = Counted-small num_ids (index ∷ live) stale _ _ s t' s' d sum.area in
      omega (arith, sum.sum, le)

  pub util_alloc_step :
      (t' : Tester) × (s' : State) × (util_alloc index size u t s
        ≡ ok (some (update_mark new_total u, t')) s')
      × Added t' s'
  unfolding util_alloc
  util_alloc_step =
      let (p, s', some_p, run, d) = added in
      let int_size : size % 2 ^ 32 ≡ size = omega arith in
      let exact = new_total-eq (remember index p size t) s' d in
      (
        remember index p size t,
        s',
        rw (int_size, leb-false (2 ^ 31) size int, run, ==-false p null some_p, exact),
        d,
      )

  pub util_realloc_new_step :
      t.blocks index ≡ 0
      → t.block_sizes index ≡ 0
      → (t' : Tester) × (s' : State) × (util_realloc index size u t s
          ≡ ok (some (update_mark new_total u, t')) s')
        × Added t' s'
  unfolding util_realloc
  util_realloc_new_step empty none_here =
      let (p, s', some_p, run, d) = added in
      let int_size : size % 2 ^ 32 ≡ size = omega arith in
      let whole : (size + 2 ^ 32 - 0) % 2 ^ 32 ≡ size = omega arith in
      let exact = new_total-eq (remember index p size t) s' d in
      (
        remember index p size t,
        s',
        rw (
          int_size,
          none_here,
          leb-false (2 ^ 31) size int,
          empty,
          realloc-null size s pos,
          run,
          ==-false p null some_p,
          whole,
          exact,
        ),
        d,
      )
