-- ===== src/Driver/Eval/ReallocDone.antt =====
-- The rest of a reallocation: the new random data, and the driver and the heap behind it.
use malloc_for_c.Prelude.{
  Bool, false, ℕ, ◌+◌, ◌%◌, ◌^◌, ◌<◌, ◌≡◌, refl, sym, ap, ◌∙◌, subst, inl, inr, true, List, ◌∷◌,
  ◌++◌, count, arith, ==-true, ==-false, ltb-true, eq_cases,
}
use malloc_for_c.Memory.{Ptr, null}
use malloc_for_c.Machine.{State, ok}
use malloc_for_c.Memlib.Break.{HasSpace}
use malloc_for_c.Mm.Heap.{used, InPayload, Keeps}
use malloc_for_c.Mm.Policy.{Heap, Represents}
use malloc_for_c.Mm.Alloc.{adjust}
use malloc_for_c.Mm.Client.{realloc}
use malloc_for_c.Mm.Client.Payload.{write_payload}
use malloc_for_c.Mm.Session.Payloads.{payloads, count-insert}
use malloc_for_c.Driver.Ranges.{seen, noted, noted-seen}
use malloc_for_c.Driver.Held.{
  Has, Has-more, Has-here, Has-InPayload, pointers, pointers-set, pointers-add, pointers-middle,
}
use malloc_for_c.Driver.{DebugMode, is_none, Range, Tester, Setting, set_at, expected_byte}
use malloc_for_c.Driver.Payload.{Randomized, randomize_block_lem}
use malloc_for_c.Driver.Eval.{remember, run_realloc}
use malloc_for_c.Driver.Eval.Accept.{checking_setting}
use malloc_for_c.Driver.Eval.Slots.{ranges_of, Slot, Agrees}
use malloc_for_c.Driver.Eval.Steps.{Stepped, ranges_of-set, ranges_of-add}
use malloc_for_c.Driver.Eval.FreeStep.{alone, survived}
use malloc_for_c.Driver.Eval.ReallocStep

module _ (mode : DebugMode) (on : is_none mode ≡ false) (ignore : Bool) (random_data random : ℕ → ℕ)
    (l : List ℕ) (index : ℕ) (r : List ℕ) (op size : ℕ) (t : Tester) (s : State) (h : Heap)
    (a : Agrees (checking_setting mode ignore random_data random) (l ++ index ∷ r) t s h)
    (pos : 0 < size) (int : size < 2 ^ 31) (space : HasSpace s (adjust size)) where
  abbrev g : Setting
  g = checking_setting mode ignore random_data random

  abbrev mine :
      Slot g s.mem
        (used h.blocks)
        index
        (t.blocks index)
        (t.block_sizes index)
        (t.block_rand_base index)
  mine = ReallocStep.mine mode on ignore random_data random l index r op size t s h a pos int space

  abbrev called :
      ReallocStep.Realloc mode on ignore random_data random l index r op size t s h a pos int space
  called =
      ReallocStep.called mode on ignore random_data random l index r op size t s h a pos int space

  abbrev least : ℕ
  least =
      ReallocStep.least mode on ignore random_data random l index r op size t s h a pos int space

  abbrev new_range : Range
  new_range =
      ReallocStep.new_range mode on ignore random_data random l index r op size t s h a pos int
        space

  abbrev added : Tester
  added =
      ReallocStep.added mode on ignore random_data random l index r op size t s h a pos int space

  abbrev final : Tester
  final =
      remember index (called.call.addr + 8) size (remember index (called.call.addr + 8) least added)

  filled_again : Randomized g index final called.call.after
  filled_again =
      let self = ==-true index index refl in
      let b =
        (ReallocStep.bounds mode on ignore random_data random l index r op size t s h a pos int
          space) in
      randomize_block_lem g index final called.call.after on mine.small
        (record { above = rw self (omega (arith, b)); below = rw self (omega (arith, b)) }, b.2)

  refilled :
      Represents (record called.call.after { mem = filled_again.mem }) called.call.new
      × Keeps (called.before ++ called.behind) s.mem filled_again.mem
  refilled =
      let c = called.call in
      let k = c.granted in
      let self = ==-true index index refl in
      let w =
        write_payload c.after c.new k.before c.addr k.size k.behind c.heap k.new filled_again.mem
          (λ q o. filled_again.outside q (rw self (omega (arith, o, k.large)))) in
      (w.0, λ q i. w.1 q (subst (λ z. InPayload z q) k.old i) ∙ c.keeps q i)

  new_slot :
      (j : ℕ)
      → 0 < count j (index ∷ (l ++ r))
      → Slot g filled_again.mem
          (used called.call.new.blocks)
          j
          (final.blocks j)
          (final.block_sizes j)
          (set_at index filled_again.base t.block_rand_base j)
  new_slot j p =
      let c = called.call in
      let k = c.granted in
      let us = called.before ++ called.behind in
      let self = ==-true index index refl in
      elim (eq_cases j index) [
        | inl here ↦
            rw (here, self)
              (record {
                addr = c.addr;
                room = k.size;
                pointer = refl;
                in_use =
                    subst (λ w. Has w c.addr k.size) (sym k.new)
                      (Has-here k.before c.addr k.size k.behind);
                positive = pos;
                fits = k.large;
                filled = λ x lo hi.
                    subst (λ w. filled_again.mem (w + x) ≡ expected_byte g filled_again.base x)
                      (rw self refl) (filled_again.filled x lo (rw self hi));
                small = mine.small;
              })
        | inr there ↦
            let o =
              (ReallocStep.rest_slot mode on ignore random_data random l index r op size t s h a pos
                  int space)
                j (ground arith) in
            rw (==-false j index there) (record {
              addr = o.addr;
              room = o.room;
              pointer = o.pointer;
              in_use =
                  subst (λ w. Has w o.addr o.room) (sym k.new)
                    (Has-more k.before (c.addr, k.size) k.behind o.addr o.room
                      (subst (λ w. Has w o.addr o.room) k.old o.in_use));
              positive = o.positive;
              fits = o.fits;
              filled = λ x lo hi.
                  refilled.1 (t.blocks j + x) (
                    Has-InPayload us o.addr o.room (t.blocks j + x) o.in_use
                      (omega (arith, o.pointer)) (omega (arith, o.pointer, o.fits)))
                  ∙ o.filled x lo hi;
              small = o.small;
            })
      ]

  final-held :
      (x : Ptr)
      → count x (pointers final.blocks (index ∷ (l ++ r)))
        ≡ count x (payloads (used called.call.new.blocks))
  final-held x =
      let c = called.call in
      let k = c.granted in
      let once = alone g on l index r op t s h a in
      omega (
        arith,
        a.held x,
        pointers-middle x t.blocks l index r,
        ap (λ w. count x (w ∷ pointers t.blocks (l ++ r))) mine.pointer,
        ap (λ w. count x (payloads w)) called.entry,
        count-insert x called.before mine.addr mine.room called.behind,
        ap (λ w. count x (payloads w)) k.old,
        ap (λ w. count x (payloads w)) k.new,
        count-insert x k.before c.addr k.size k.behind,
        ap (count x)
            (pointers-add index (c.addr + 8) (set_at index (c.addr + 8) t.blocks) (l ++ r) once),
        ap (count x) (pointers-set index (c.addr + 8) t.blocks (l ++ r) once),
      )

  final-ranges :
      added.ranges ≡ seen ignore (ranges_of final.blocks final.block_sizes (index ∷ (l ++ r)))
  final-ranges =
      let p = called.call.addr + 8 in
      let once = alone g on l index r op t s h a in
      ap (noted ignore new_range) (
        ReallocStep.removed-ranges mode on ignore random_data random l index r op size t s h a pos
          int space)
      ∙ noted-seen ignore new_range (ranges_of t.blocks t.block_sizes (l ++ r))
      ∙ ap (seen ignore) (
          ap (λ w. new_range ∷ w)
            (sym (ranges_of-set index p least t.blocks t.block_sizes (l ++ r) once))
          ∙ sym (
              ranges_of-add index p size (set_at index p t.blocks)
                (set_at index least t.block_sizes) (l ++ r) once))

  pub realloc_step :
      (t' : Tester) × (s' : State) × (run_realloc g op index size t s ≡ ok (true, t') s')
      × Stepped g (index ∷ (l ++ r)) index t (s.mem_brk + adjust size) s.mem_max_addr s.heap t' s'
  unfolding run_realloc
  realloc_step =
      let c = called.call in
      let d = filled_again in
      let moved : realloc (t.blocks index) size s ≡ ok (c.addr + 8) c.after =
        ap (λ w. realloc w size s) mine.pointer ∙ c.run in
      let int_size : size % 2 ^ 32 ≡ size = omega arith in
      (
        d.tester,
        record c.after { mem = d.mem },
        rw (
          survived g on l index r op t s h a,
          moved,
          ==-false (c.addr + 8) null (omega arith),
          ==-false size 0 (omega arith),
          ltb-true 0 size pos,
          int_size,
          (ReallocStep.added-run mode on ignore random_data random l index r op size t s h a pos int
              space),
          (ReallocStep.copied_data mode on ignore random_data random l index r op size t s h a pos
              int space),
          d.run,
        ),
        record {
          policy = c.new;
          agrees = record {
            heap = refilled.0;
            ranges =
                d.same_ranges
                ∙ final-ranges
                ∙ sym (
                    ap (λ f. seen ignore (ranges_of f final.block_sizes (index ∷ (l ++ r))))
                      d.same_blocks)
                ∙ sym (
                    ap (λ f. seen ignore (ranges_of d.tester.blocks f (index ∷ (l ++ r))))
                      d.same_sizes);
            held =
                λ x. ap (λ f. count x (pointers f (index ∷ (l ++ r)))) d.same_blocks ∙ final-held x;
            slots = λ j p. rw (d.same_blocks, d.same_sizes, d.rand_base) (new_slot j p);
          };
          no_error = d.same_errors;
          grows = c.grows;
          same_max = c.same_max;
          same_lo = c.same_lo;
          others = λ j ne. (
            ap (λ f. f j) d.same_blocks ∙ rw (==-false j index ne) refl,
            ap (λ f. f j) d.same_sizes ∙ rw (==-false j index ne) refl,
          );
        },
      )
