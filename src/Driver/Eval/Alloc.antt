-- ===== src/Driver/Eval/Alloc.antt =====
-- An allocation of a trace, from `malloc` to the random data in the new block.
use malloc_for_c.Prelude.{
  ◌++◌, Bool, ltb-true, ltb-false, ◌≢◌, ◌||◌, inl, inr, Bool-cases, false, ℕ, ◌+◌, ◌-◌, ◌%◌, ◌^◌,
  ◌≤◌, ◌<◌, ◌≡◌, refl, sym, ◌∙◌, subst, true, ◌∷◌, ==-false, ==-true, arith,
}
use mathlib.Core.Path.{fun_ext}
use malloc_for_c.Mm.Client.{realloc}
use malloc_for_c.Memory.{Ptr, null}
use malloc_for_c.Machine.{State, ok}
use malloc_for_c.Mm.Heap.{used, InPayload, Keeps}
use malloc_for_c.Mm.Policy.{Heap, Represents}
use malloc_for_c.Mm.Alloc.{adjust, malloc}
use malloc_for_c.Mm.Alloc.Malloc.{Served}
use malloc_for_c.Mm.Alloc.Grant.{Granted, Allocation, malloc_grants}
use malloc_for_c.Mm.Client.Payload.{place, write_payload, InPayload-at}
use malloc_for_c.Driver.{
  DebugMode, is_none, Tester, Setting, set_at, add_range, randomize_block, expected_byte, negative,
  check_index, remove_range,
}
use malloc_for_c.Driver.Ranges.{noted}
use malloc_for_c.Driver.Payload.{Filled, randomize_block_lem}
use malloc_for_c.Driver.Eval.{remember, run_alloc, run_realloc}
use malloc_for_c.Driver.Eval.Accept.{
  RangesIn, RangesIn-more, RangesIn-noted, checking_setting, accept_lem,
}

-- What the operation has done: it goes on, with no new error, on a heap where the ranges are those
-- of before and the new one, all in payloads in use.
pub record Accepted (g : Setting) (i index size : ℕ) (t : Tester) (s : State) (h : Heap)
    : Type 0 where
  pub addr : Ptr
  pub tester : Tester
  pub after : State
  pub new : Heap
  pub run : run_alloc g i index size t s ≡ ok (true, tester) after
  -- `realloc` of the null pointer does the same
  pub as_realloc :
      t.blocks index ≡ null
      → t.block_sizes index ≡ 0
      → remove_range null t.ranges ≡ t.ranges
      → run_realloc g i index size t s ≡ ok (true, tester) after
  pub no_error : tester.errors ≡ t.errors
  pub ranges :
      tester.ranges
      ≡ noted g.ignore_ranges
          (record { lo = addr + 8; hi = addr + 8 + size - 1; index = index })
          t.ranges
  pub heap : Represents after new
  pub granted : Granted (used h.blocks) (used new.blocks) addr (size + 16)
  pub inside : RangesIn tester.ranges (used new.blocks)
  pub keeps : Keeps (used h.blocks) s.mem after.mem
  pub blocks : tester.blocks ≡ set_at index (addr + 8) t.blocks
  pub sizes : tester.block_sizes ≡ set_at index size t.block_sizes
  pub base : ℕ
  pub rand_base : tester.block_rand_base ≡ set_at index base t.block_rand_base
  pub filled : Filled g base (addr + 8) after.mem 0 size
  pub grows : after.mem_brk ≤ s.mem_brk + adjust size
  pub same_max : after.mem_max_addr ≡ s.mem_max_addr
  pub same_lo : after.heap ≡ s.heap

pub realloc-null : (size : ℕ) (s : State) → 0 < size → realloc null size s ≡ malloc size s
unfolding realloc
realloc-null size s pos = rw (==-false size 0 (omega arith))

-- An empty block has no data to check.
pub check_index-empty :
    (g : Setting) (i index : ℕ) (t : Tester) (s : State)
    → t.block_sizes index ≡ 0
    → check_index g i index t s ≡ ok t s
unfolding check_index
check_index-empty g i index t s e = elim (Bool-cases (negative index || is_none g.debug_mode)) [
  | inl off ↦ rw off refl
  | inr on ↦ rw (on, e) refl
]

set_at_twice : (i x y : ℕ) (f : ℕ → ℕ) (j : ℕ) → set_at i x (set_at i y f) j ≡ set_at i x f j
set_at_twice i x y f j = ground arith

pub remember_twice :
    (index p n m : ℕ) (t : Tester)
    → remember index p n (remember index p m t) ≡ remember index p n t
remember_twice index p n m t =
    let twice = λ (x y : ℕ) (f : ℕ → ℕ). fun_ext (λ j. set_at_twice index x y f j) in
    rw (twice p p t.blocks, twice n m t.block_sizes) refl

-- A reallocation of the null pointer goes the way of an allocation.
as_alloc :
    (g : Setting) (i index size : ℕ) (t : Tester) (s : State) (lo : Ptr) (t₁ t' : Tester)
    (s₁ s' : State)
    → 0 < size
    → size < 2 ^ 31
    → lo ≢ null
    → malloc size s ≡ ok lo s₁
    → t.blocks index ≡ null
    → t.block_sizes index ≡ 0
    → remove_range null t.ranges ≡ t.ranges
    → add_range g lo size i index t s₁ ≡ ok (true, t₁) s₁
    → t₁.block_sizes index ≡ 0
    → randomize_block g index (remember index lo size t₁) s₁ ≡ ok t' s'
    → run_realloc g i index size t s ≡ ok (true, t') s'
unfolding run_realloc
as_alloc g i index size t s lo t₁ t' s₁ s' pos int some_lo run empty none_here no_range added still
      filled =
    let int_size : size % 2 ^ 32 ≡ size = omega arith in
    let self = ==-true index index refl in
    rw (
      check_index-empty g i index t s none_here,
      empty,
      realloc-null size s pos,
      run,
      ==-false lo null some_lo,
      ==-false size 0 (omega arith),
      ltb-true 0 size pos,
      int_size,
      no_range,
      added,
      still,
      ltb-false size 0 (omega arith),
      check_index-empty g i index (remember index lo 0 t₁) s₁ (rw self refl),
      remember_twice index lo size 0 t₁,
      filled,
    )

module _ (mode : DebugMode) (on : is_none mode ≡ false) (ignore : Bool) (random_data random : ℕ → ℕ)
    (i index size : ℕ) (t : Tester) (s : State) (h : Heap) (v : Represents s h)
    (rs : RangesIn t.ranges (used h.blocks)) (pos : 0 < size) (int : size < 2 ^ 31)
    (small : index < 2 ^ 31) (space : Served s h (adjust size)) where
  abbrev g : Setting
  g = checking_setting mode ignore random_data random

  abbrev granted : Allocation s h size
  granted = malloc_grants s h size v pos (omega arith) space

  -- With the checks on, cheap or expensive, in a state that represents a heap and where the ranges
  -- that the driver remembers lie in payloads in use, an allocation of the trace with a positive
  -- size of an `int` and a non-negative index goes on without an error, where a listed block fits
  -- or there is space for a new one: the range is added, unless the trace ignores ranges, the block
  -- is filled with random data, and all ranges lie in payloads in use, whose bytes of before are
  -- kept. The same holds for a reallocation of an index whose pointer is null, whose size is 0 and
  -- where no range starts at the null pointer.
  pub run_alloc_lem : Accepted g i index size t s h
  unfolding run_alloc run_realloc
  run_alloc_lem =
      let a = granted in
      let k = a.granted in
      let lo = a.addr + 8 in
      let at = (place a.after a.new k.before a.addr k.size k.behind a.becomes.heap k.new).at in
      let t₁ : Tester = record t {
        ranges = noted ignore (record { lo = lo; hi = lo + size - 1; index = index }) t.ranges;
      } in
      let self = ==-true index index refl in
      let t₂ = remember index lo size t₁ in
      let at_index : t₂.blocks index ≡ lo = rw self refl in
      let d = randomize_block_lem g index t₂ a.after on small (
        record {
          above = rw self (omega (arith, at));
          below = rw self (omega (arith, at, k.large));
        },
        at.small,
      ) in
      let (heap, keeps) =
        write_payload a.after a.new k.before a.addr k.size k.behind a.becomes.heap k.new d.mem
          (λ q o. d.outside q (rw self (omega (arith, o, k.large)))) in
      let int_size : size % 2 ^ 32 ≡ size = omega arith in
      record {
        addr = a.addr;
        tester = d.tester;
        after = record a.after { mem = d.mem };
        new = a.new;
        run = rw (
          a.run,
          ==-false (a.addr + 8) null (omega arith),
          int_size,
          accept_lem mode on ignore random_data random a.after a.new (used h.blocks) a.addr size i
              index t a.becomes.heap k rs pos int,
          d.run,
        );
        as_realloc = λ empty none_here no_range.
            as_alloc g i index size t s lo t₁ d.tester a.after (record a.after { mem = d.mem }) pos
              int (omega arith) a.run empty none_here no_range
              (accept_lem mode on ignore random_data random a.after a.new (used h.blocks) a.addr
                size i index t a.becomes.heap k rs pos int)
              none_here d.run;
        no_error = d.same_errors;
        ranges = d.same_ranges;
        heap = heap;
        granted = k;
        inside =
            subst (λ w. RangesIn w (used a.new.blocks)) (sym d.same_ranges)
              (subst (λ w. RangesIn t₁.ranges w) (sym k.new)
                (RangesIn-noted ignore (record { lo = lo; hi = lo + size - 1; index = index })
                  t.ranges (k.before ++ (a.addr, k.size) ∷ k.behind)
                  (
                    (
                      omega arith,
                      λ q low high.
                          InPayload-at k.before a.addr k.size k.behind q low
                            (omega (arith, k.large, high)),
                    ),
                    RangesIn-more t.ranges k.before (a.addr, k.size) k.behind
                        (subst (λ w. RangesIn t.ranges w) k.old rs),
                  )));
        blocks = d.same_blocks;
        sizes = d.same_sizes;
        base = d.base;
        rand_base = d.rand_base;
        filled = λ j lower upper.
            subst (λ w. d.mem (w + j) ≡ expected_byte g d.base j) at_index
              (d.filled j lower (rw self upper));
        grows = a.grows;
        same_max = a.becomes.same_max;
        same_lo = a.becomes.same_lo;
        keeps = λ q p. keeps q (subst (λ w. InPayload w q) k.old p) ∙ a.becomes.keeps q p;
      }
