-- ===== src/Driver/Eval/Checked.antt =====
-- The checks of `eval_mm_valid` before an operation: the data of all live blocks, and with -D the
-- whole heap.
use malloc_for_c.Prelude.{
  Bool, true, false, ℕ, ◌<◌, ◌≡◌, refl, ap, inl, inr, List, [], ◌∷◌, count, count_self, arith,
  Bool-cases,
}
use malloc_for_c.Machine.{State, ok}
use malloc_for_c.Mm.Heap.{used}
use malloc_for_c.Mm.Policy.{Heap}
use malloc_for_c.Mm.Client.Payload.{place}
use malloc_for_c.Mm.Check.Whole.{mm_checkheap_lem}
use malloc_for_c.Driver.Ranges.{seen}
use malloc_for_c.Driver.Held.{Has-split}
use malloc_for_c.Driver.{is_none, Tester, Setting, check_index}
use malloc_for_c.Driver.Payload.{check_index_lem}
use malloc_for_c.Driver.Eval.{is_expensive, check_ranges, before_op}
use malloc_for_c.Driver.Eval.Slots.{ranges_of, Agrees}

module _ (g : Setting) (checked : is_none g.debug_mode ≡ false) (live : List ℕ) (op : ℕ)
    (t : Tester) (s : State) (h : Heap) (a : Agrees g live t s h) where
  -- A live block still has its data.
  pub slot_survived : (j : ℕ) → 0 < count j live → check_index g op j t s ≡ ok t s
  slot_survived j held =
      let m = a.slots j held in
      let (u, v, e) = Has-split (used h.blocks) m.addr m.room m.in_use in
      let at = (place s h u m.addr m.room v a.heap e).at in
      elim (check_index_lem g op j t s checked m.small (
        record {
          above = omega (arith, m.pointer, at);
          below = omega (arith, m.pointer, m.fits, at);
        },
        at.small,
      )) [
        | inl (filled, run) ↦ run
        | inr (i, k, lt, ne, run) ↦ absurd (ne (m.filled i (omega arith) (omega arith)))
      ]

  check_ranges_live :
      (some_live : List ℕ)
      → ((j : ℕ) → 0 < count j some_live → 0 < count j live)
      → check_ranges g op (ranges_of t.blocks t.block_sizes some_live) t s ≡ ok t s
  unfolding check_ranges
  check_ranges_live [] sub = refl
  check_ranges_live (j ∷ js) sub = rw (
    slot_survived j (sub j (omega (arith, count_self j js))),
    check_ranges_live js (λ i p. sub i (ground arith)),
  )

  check_seen :
      (ignore : Bool)
      → check_ranges g op (seen ignore (ranges_of t.blocks t.block_sizes live)) t s ≡ ok t s
  unfolding check_ranges
  check_seen true = refl
  check_seen false = check_ranges_live live (λ j p. p)

  -- With and without -D, the checks before an operation pass and change nothing.
  pub before_op_lem : before_op g op t s ≡ ok t s
  unfolding before_op
  before_op_lem = elim (Bool-cases (is_expensive g.debug_mode)) [
    | inr cheap ↦ rw cheap refl
    | inl expensive ↦ rw (
      expensive,
      mm_checkheap_lem s h a.heap,
      ap (λ rs. check_ranges g op rs t s) a.ranges,
      check_seen g.ignore_ranges,
    )
  ]
