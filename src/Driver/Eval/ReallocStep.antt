-- ===== src/Driver/Eval/ReallocStep.antt =====
-- A reallocation in a trace, from the check of the old data to the new random data.
use malloc_for_c.Prelude.{
  Bool, if◌then◌else◌, ℕ, ◌+◌, ◌-◌, ◌^◌, ◌≤◌, ◌<◌, ◌≡◌, refl, sym, ap, ◌∙◌, subst, inl, inr, true,
  List, ◌∷◌, ◌++◌, count, count-append, count_self, arith, ==-true, false, ltb, if◌then◌else◌,
}
use malloc_for_c.Memory.{Ptr}
use malloc_for_c.Machine.{State, ok}
use malloc_for_c.Memlib.Break.{HasSpace}
use malloc_for_c.Mm.Heap.{used}
use malloc_for_c.Mm.Policy.{Heap}
use malloc_for_c.Mm.Alloc.{adjust}
use malloc_for_c.Mm.Client.Payload.{place}
use malloc_for_c.Mm.Client.Realloc.{Reallocated, realloc_moves}
use malloc_for_c.Mm.Session.Payloads.{count-middle}
use malloc_for_c.Driver.Ranges.{seen, noted, remove_range-seen}
use malloc_for_c.Driver.Held.{Has, Has-less, Has-split}
use malloc_for_c.Driver.{
  DebugMode, is_none, Range, Tester, Setting, add_range, remove_range, check_index, expected_byte,
}
use malloc_for_c.Driver.Payload.{check_index_lem}
use malloc_for_c.Driver.Eval.{remember}
use malloc_for_c.Driver.Eval.Accept.{RangesIn, RangesIn-seen, checking_setting, accept_lem}
use malloc_for_c.Driver.Eval.Slots.{ranges_of, Slot, Agrees, RangesIn-slots}
use malloc_for_c.Driver.Eval.FreeStep.{remove_range-middle, other}

module _ (mode : DebugMode) (on : is_none mode ≡ false) (ignore : Bool) (random_data random : ℕ → ℕ)
    (l : List ℕ) (index : ℕ) (r : List ℕ) (op size : ℕ) (t : Tester) (s : State) (h : Heap)
    (a : Agrees (checking_setting mode ignore random_data random) (l ++ index ∷ r) t s h)
    (pos : 0 < size) (int : size < 2 ^ 31) (space : HasSpace s (adjust size)) where
  abbrev g : Setting
  g = checking_setting mode ignore random_data random

  abbrev pub mine :
      Slot g s.mem
        (used h.blocks)
        index
        (t.blocks index)
        (t.block_sizes index)
        (t.block_rand_base index)
  mine = a.slots index (omega (arith, count-middle index l index r, count_self index (l ++ r)))

  -- The old block cut out of those in use, and the call of `realloc`.
  pub record Realloc : Type 0 where
    pub before : List (Ptr × ℕ)
    pub behind : List (Ptr × ℕ)
    pub entry : used h.blocks ≡ before ++ (mine.addr, mine.room) ∷ behind
    pub call : Reallocated s h before mine.addr mine.room behind size

  pub called : Realloc
  called =
      let m = mine in
      let (u, v, e) = Has-split (used h.blocks) m.addr m.room m.in_use in
      record {
        before = u;
        behind = v;
        entry = e;
        call = realloc_moves s h u m.addr m.room v size a.heap e pos (omega arith) (λ n. space);
      }

  -- The slot of another index, with the old block gone.
  pub rest_slot :
      (j : ℕ)
      → 0 < count j (l ++ r)
      → let c = called in
        Slot g s.mem (c.before ++ c.behind) j (t.blocks j) (t.block_sizes j) (t.block_rand_base j)
  rest_slot j q =
      let c = called in
      let m = mine in
      let o = a.slots j (omega (arith, count-middle j l index r)) in
      record {
        addr = o.addr;
        room = o.room;
        pointer = o.pointer;
        in_use =
            Has-less c.before m.addr m.room c.behind o.addr o.room
              (λ same.
                other g on l index r op t s h a j q (omega (arith, o.pointer, m.pointer, same)))
              (subst (λ w. Has w o.addr o.room) c.entry o.in_use);
        positive = o.positive;
        fits = o.fits;
        filled = o.filled;
        small = o.small;
      }

  abbrev pub least : ℕ
  least = if ltb size (t.block_sizes index) then size else t.block_sizes index

  least-le : (least ≤ size) × (least ≤ t.block_sizes index) × (0 < least)
  least-le = ground (arith, mine.positive)

  -- The range list without the old range.
  abbrev pub removed : Tester
  removed = record t { ranges = remove_range (t.blocks index) t.ranges }

  pub removed-ranges : removed.ranges ≡ seen ignore (ranges_of t.blocks t.block_sizes (l ++ r))
  removed-ranges =
      ap (remove_range (t.blocks index)) a.ranges
      ∙ remove_range-seen ignore (t.blocks index)
          (ranges_of t.blocks t.block_sizes (l ++ index ∷ r))
      ∙ ap (seen ignore) (
          remove_range-middle t.blocks t.block_sizes l index r
            (λ j q. other g on l index r op t s h a j (omega (arith, count-append j l r))))

  abbrev pub new_range : Range
  new_range = record {
    lo = called.call.addr + 8;
    hi = called.call.addr + 8 + size - 1;
    index = index;
  }

  abbrev pub added : Tester
  added = record removed { ranges = noted ignore new_range removed.ranges }

  pub added-run :
      add_range g (called.call.addr + 8) size op index removed called.call.after
      ≡ ok (true, added) called.call.after
  added-run =
      let c = called in
      accept_lem mode on ignore random_data random c.call.after c.call.new (c.before ++ c.behind)
        c.call.addr size op index removed c.call.heap c.call.granted
        (subst (λ w. RangesIn w (c.before ++ c.behind)) (sym removed-ranges)
          (RangesIn-seen ignore (ranges_of t.blocks t.block_sizes (l ++ r)) (c.before ++ c.behind) (
            RangesIn-slots g s.mem (c.before ++ c.behind) t.blocks t.block_sizes t.block_rand_base
              (l ++ r) rest_slot)))
        pos int

  -- Where the new block lies.
  pub bounds :
      (called.call.after.heap ≤ called.call.addr)
      × (called.call.addr + 8 + size ≤ called.call.after.mem_max_addr)
      × (called.call.after.mem_max_addr < 2 ^ 64)
  bounds =
      let c = called.call in
      let k = c.granted in
      let at = (place c.after c.new k.before c.addr k.size k.behind c.heap k.new).at in
      (omega (arith, at), omega (arith, at, k.large), at.small)

  pub copied_data :
      check_index g op index (remember index (called.call.addr + 8) least added) called.call.after
      ≡ ok (remember index (called.call.addr + 8) least added) called.call.after
  copied_data =
      let c = called.call in
      let m = mine in
      let self = ==-true index index refl in
      let t₃ = remember index (c.addr + 8) least added in
      let b = bounds in
      let le = least-le in
      elim (check_index_lem g op index t₃ c.after on m.small (
        record { above = rw self (omega (arith, b)); below = rw self (omega (arith, b, le)) },
        b.2,
      )) [
        | inl (filled, run) ↦ run
        | inr (j, n, lt, ne, run) ↦
            let short : j < least = rw self at lt in
            absurd (
              ne (
                rw self (
                  c.contents j (ground (arith, m.fits, le, short))
                  ∙ subst (λ w. s.mem (w + j) ≡ expected_byte g (t.block_rand_base index) j)
                      m.pointer (m.filled j (omega arith) (omega (arith, short, le))))))
      ]
