-- ===== src/Driver/Eval/Steps.antt =====
-- What an operation of a trace leaves behind, and the allocation.
use malloc_for_c.Prelude.{
  Bool, false, ℕ, ◌+◌, ◌-◌, ◌^◌, ◌≤◌, ◌<◌, ◌≡◌, ◌≢◌, refl, sym, ap, ◌∙◌, subst, inl, inr, true,
  List, [], ◌∷◌, count, count_self, arith, ==-true, ==-false, eq_cases,
}
use malloc_for_c.Machine.{State, ok}
use malloc_for_c.Memlib.Break.{HasSpace}
use malloc_for_c.Mm.Heap.{used}
use malloc_for_c.Mm.Policy.{Heap}
use malloc_for_c.Mm.Alloc.{adjust}
use malloc_for_c.Mm.Session.Payloads.{payloads, count-insert}
use malloc_for_c.Driver.Ranges.{seen, noted, noted-seen, remove_range-seen}
use malloc_for_c.Driver.Held.{Has, Has-more, Has-here, Has-InPayload, pointers, pointers-add}
use malloc_for_c.Memory.{null}
use malloc_for_c.Driver.{Range, remove_range, DebugMode, is_none, Tester, Setting, set_at}
use malloc_for_c.Driver.Eval.{run_alloc, run_realloc}
use malloc_for_c.Driver.Eval.Accept.{RangesIn, RangesIn-seen, checking_setting}
use malloc_for_c.Driver.Eval.Alloc.{Accepted, run_alloc_lem}
use malloc_for_c.Driver.Eval.Slots.{ranges_of, Slot, Agrees, RangesIn-slots}

pub ranges_of-set :
    (i p n : ℕ) (blocks sizes : ℕ → ℕ) (live : List ℕ)
    → count i live ≡ 0
    → ranges_of (set_at i p blocks) (set_at i n sizes) live ≡ ranges_of blocks sizes live
ranges_of-set i p n blocks sizes [] h = refl
ranges_of-set i p n blocks sizes (j ∷ live) h =
    let ne : j ≢ i = λ e. omega (arith, count_self i live, ap (λ w. count i (w ∷ live)) e) in
    rw (==-false j i ne, ranges_of-set i p n blocks sizes live (omega arith))

pub ranges_of-add :
    (i p n : ℕ) (blocks sizes : ℕ → ℕ) (live : List ℕ)
    → count i live ≡ 0
    → ranges_of (set_at i p blocks) (set_at i n sizes) (i ∷ live)
      ≡ record { lo = p; hi = p + n - 1; index = i } ∷ ranges_of blocks sizes live
ranges_of-add i p n blocks sizes live h =
    rw (==-true i i refl, ranges_of-set i p n blocks sizes live h)

-- What an operation has done.
pub record Stepped (g : Setting) (live : List ℕ) (index : ℕ) (before : Tester) (limit max lo : ℕ)
    (t : Tester) (s : State) : Type 0 where
  pub policy : Heap
  pub agrees : Agrees g live t s policy
  pub no_error : t.errors ≡ before.errors
  pub grows : s.mem_brk ≤ limit
  pub same_max : s.mem_max_addr ≡ max
  pub same_lo : s.heap ≡ lo
  pub others :
      (j : ℕ)
      → j ≢ index
      → (t.blocks j ≡ before.blocks j) × (t.block_sizes j ≡ before.block_sizes j)

-- No live block is at the null pointer.
remove_range-null :
    (blocks sizes : ℕ → ℕ) (live : List ℕ)
    → ((j : ℕ) → 0 < count j live → blocks j ≢ null)
    → remove_range null (ranges_of blocks sizes live) ≡ ranges_of blocks sizes live
unfolding remove_range
remove_range-null blocks sizes [] h = refl
remove_range-null blocks sizes (j ∷ live) h = rw (
  ==-false (blocks j) null (h j (omega (arith, count_self j live))),
  remove_range-null blocks sizes live (λ i p. h i (ground arith)),
)

module _ (mode : DebugMode) (on : is_none mode ≡ false) (ignore : Bool) (random_data random : ℕ → ℕ)
    (live : List ℕ) (op index size : ℕ) (t : Tester) (s : State) (h : Heap)
    (a : Agrees (checking_setting mode ignore random_data random) live t s h)
    (new_index : count index live ≡ 0) (pos : 0 < size) (int : size < 2 ^ 31)
    (small : index < 2 ^ 31) (space : HasSpace s (adjust size)) where
  abbrev g : Setting
  g = checking_setting mode ignore random_data random

  abbrev accepted : Accepted g op index size t s h
  accepted =
      run_alloc_lem mode on ignore random_data random op index size t s h a.heap
        (subst (λ w. RangesIn w (used h.blocks)) (sym a.ranges)
          (RangesIn-seen ignore (ranges_of t.blocks t.block_sizes live) (used h.blocks) (
            RangesIn-slots g s.mem (used h.blocks) t.blocks t.block_sizes t.block_rand_base live
              a.slots)))
        pos int small (λ e. space)

  new_slot :
      (j : ℕ)
      → 0 < count j (index ∷ live)
      → let d = accepted in
        Slot g d.after.mem
          (used d.new.blocks)
          j
          (set_at index (d.addr + 8) t.blocks j)
          (set_at index size t.block_sizes j)
          (set_at index d.base t.block_rand_base j)
  new_slot j p =
      let d = accepted in
      let k = d.granted in
      elim (eq_cases j index) [
        | inl here ↦
            rw (here, ==-true index index refl)
              (record {
                addr = d.addr;
                room = k.size;
                pointer = refl;
                in_use =
                    subst (λ w. Has w d.addr k.size) (sym k.new)
                      (Has-here k.before d.addr k.size k.behind);
                positive = pos;
                fits = k.large;
                filled = d.filled;
                small = small;
              })
        | inr there ↦
            let o = a.slots j (ground arith) in
            rw (==-false j index there) (record {
              addr = o.addr;
              room = o.room;
              pointer = o.pointer;
              in_use =
                  subst (λ w. Has w o.addr o.room) (sym k.new)
                    (Has-more k.before (d.addr, k.size) k.behind o.addr o.room
                      (subst (λ w. Has w o.addr o.room) k.old o.in_use));
              positive = o.positive;
              fits = o.fits;
              filled = λ x lo hi.
                  d.keeps (t.blocks j + x) (
                    Has-InPayload (used h.blocks) o.addr o.room (t.blocks j + x) o.in_use
                      (omega (arith, o.pointer)) (omega (arith, o.pointer, o.fits)))
                  ∙ o.filled x lo hi;
              small = o.small;
            })
      ]

  abbrev new_range : Range
  new_range = record { lo = accepted.addr + 8; hi = accepted.addr + 8 + size - 1; index = index }

  no_null_range : remove_range null t.ranges ≡ t.ranges
  no_null_range =
      let rs = ranges_of t.blocks t.block_sizes live in
      ap (remove_range null) a.ranges
      ∙ remove_range-seen ignore null rs
      ∙ ap (seen ignore) (
          remove_range-null t.blocks t.block_sizes live
            (λ j p. omega (arith, (a.slots j p).pointer)))
      ∙ sym a.ranges

  pub alloc_step :
      (t' : Tester) × (s' : State) × (run_alloc g op index size t s ≡ ok (true, t') s')
      × Stepped g (index ∷ live) index t (s.mem_brk + adjust size) s.mem_max_addr s.heap t' s'
      × (t.blocks index ≡ null
          → t.block_sizes index ≡ 0
          → run_realloc g op index size t s ≡ ok (true, t') s')
  alloc_step =
      let d = accepted in
      let k = d.granted in
      let self = ==-true index index refl in
      (
        d.tester,
        d.after,
        d.run,
        record {
          policy = d.new;
          agrees = record {
            heap = d.heap;
            ranges =
                d.ranges
                ∙ ap (noted ignore new_range) a.ranges
                ∙ noted-seen ignore new_range (ranges_of t.blocks t.block_sizes live)
                ∙ ap (seen ignore) (
                    sym
                      (ranges_of-add index (d.addr + 8) size t.blocks t.block_sizes live new_index)
                    ∙ sym (
                        ap (λ f. ranges_of f (set_at index size t.block_sizes) (index ∷ live))
                          d.blocks)
                    ∙ sym (ap (λ f. ranges_of d.tester.blocks f (index ∷ live)) d.sizes));
            held = λ x. omega (
              arith,
              a.held x,
              ap (λ w. count x (payloads w)) k.old,
              ap (λ w. count x (payloads w)) k.new,
              count-insert x k.before d.addr k.size k.behind,
              ap (λ f. count x (pointers f (index ∷ live))) d.blocks,
              ap (count x) (pointers-add index (d.addr + 8) t.blocks live new_index),
            );
            slots = λ j p. rw (d.blocks, d.sizes, d.rand_base) (new_slot j p);
          };
          no_error = d.no_error;
          grows = d.grows;
          same_max = d.same_max;
          same_lo = d.same_lo;
          others = λ j ne. (
            ap (λ f. f j) d.blocks ∙ rw (==-false j index ne) refl,
            ap (λ f. f j) d.sizes ∙ rw (==-false j index ne) refl,
          );
        },
        λ empty none_here. d.as_realloc empty none_here no_null_range,
      )
