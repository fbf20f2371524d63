-- ===== src/Driver/Ranges.antt =====
-- `add_range` and `remove_range` of mdriver.c: what is accepted, and which overlaps are seen.
use malloc_for_c.Prelude.{
  ℕ, ◌+◌, ◌-◌, ◌%◌, ◌^◌, ◌≤◌, ◌<◌, ◌≡◌, ◌≢◌, refl, sym, ap, ◌∙◌, ◌⊎◌, inl, inr, Bool, true, false,
  ◌||◌, List, [], ◌∷◌, ◌++◌, ltb, ltb-true, ltb-false, ==-true, ==-false, add64-eq, sub64-eq,
  if◌then◌else◌, Bool-cases, eq_cases, lt_cases, arith,
}
use malloc_for_c.Memory.{Ptr}
use malloc_for_c.Machine.{State, Run, ok}
use malloc_for_c.Memlib.{mem_heap_lo, mem_heap_hi}
use malloc_for_c.Driver.{
  Range, Complaint, Tester, Setting, DebugMode, is_none, not_aligned, outside_heap, overlaps,
  malloc_error, find_overlap, add_range, remove_range,
}

-- The range from `lo` to `hi` does not meet `p`, or it reaches beyond `p` on both sides.
abbrev pub Unseen : Ptr → Ptr → Range → Type 0
Unseen lo hi p = (hi < p.lo) ⊎ (p.hi < lo) ⊎ ((lo < p.lo) × (p.hi < hi))

abbrev pub AllUnseen : Ptr → Ptr → List Range → Type 0
AllUnseen lo hi [] = Unit {0}
AllUnseen lo hi (p ∷ ps) = Unseen lo hi p × AllUnseen lo hi ps

find_overlap-false :
    (lo hi : Ptr) (ps : List Range) → lo ≤ hi → find_overlap lo hi ps ≡ false → AllUnseen lo hi ps
unfolding find_overlap
find_overlap-false lo hi [] le e = tt
find_overlap-false lo hi (p ∷ ps) le e =
    (ground arith, find_overlap-false lo hi ps le (ground arith))

find_overlap-unseen :
    (lo hi : Ptr) (ps : List Range) → AllUnseen lo hi ps → lo ≤ hi → find_overlap lo hi ps ≡ false
unfolding find_overlap
find_overlap-unseen lo hi [] u le = refl
find_overlap-unseen lo hi (p ∷ ps) u le =
    let rest = find_overlap-unseen lo hi ps u.1 le in ground (arith, u.0)

-- What `add_range` wants of a payload from `lo` to `hi`.
pub record Acceptable (s : State) (ps : List Range) (lo hi : Ptr) : Type 0 where
  pub aligned : lo % 16 ≡ 0
  pub above : s.heap ≤ lo
  pub below : hi + 1 ≤ s.mem_brk
  pub unseen : AllUnseen lo hi ps

-- What it has done, with checks for overlaps.
abbrev pub Judged : Setting → Ptr → ℕ → ℕ → ℕ → Tester → State → Type 0
Judged g lo size opnum index t s =
    let hi = lo + size - 1 in
    (Acceptable s t.ranges lo hi
      × (add_range g lo size opnum index t s
          ≡ ok (true, record t { ranges = record { lo = lo; hi = hi; index = index } ∷ t.ranges })
              s))
    ⊎ ((what : Complaint) × (Acceptable s t.ranges lo hi → ⊥)
        × (add_range g lo size opnum index t s
            ≡ ok (false, record t { errors = (opnum, what) ∷ t.errors }) s))

true-ne-false : true ≢ false
true-ne-false e = cc

module _ (mode : DebugMode) (on : is_none mode ≡ false) (random_data random : ℕ → ℕ)
    (lo size opnum index : ℕ) (t : Tester) (s : State) (pos : 0 < size) (int : size < 2 ^ 31)
    (lt : lo + size < 2 ^ 64) (heap : s.heap ≤ s.mem_brk) (some_heap : 0 < s.heap)
    (small : s.mem_brk < 2 ^ 64) where
  abbrev setting : Setting
  setting = record {
    debug_mode = mode;
    ignore_ranges = false;
    random_data = random_data;
    random = random;
  }

  abbrev hi : Ptr
  hi = lo + size - 1

  -- The range lies in the heap, or one of its ends does not.
  place_cases :
      ((s.heap ≤ lo) × (hi + 1 ≤ s.mem_brk))
      ⊎ ((ltb lo s.heap || ltb (s.mem_brk - 1) lo || ltb hi s.heap || ltb (s.mem_brk - 1) hi ≡ true)
          × ((s.heap ≤ lo) × (hi + 1 ≤ s.mem_brk) → ⊥))
  place_cases = elim (lt_cases lo s.heap) [
    | inl low ↦ inr (ground arith, λ h. omega arith)
    | inr above ↦ elim (lt_cases (s.mem_brk - 1) hi) [
      | inl high ↦ inr (ground arith, λ h. omega arith)
      | inr below ↦ inl (above, omega arith)
    ]
  ]

  -- The tests of `add_range` before the one for alignment.
  abbrev Opened : Run (Bool × Tester) → Type 0
  Opened r = add_range setting lo size opnum index t s ≡ r

  refuse_unaligned : lo % 16 ≢ 0 → Opened (ok (false, malloc_error opnum not_aligned t) s)
  unfolding add_range malloc_error
  refuse_unaligned odd = rw (
    add64-eq lo size lt,
    sub64-eq (lo + size) 1 (omega arith) lt,
    ltb-true 0 size pos,
    ltb-true size (2 ^ 31) int,
    ==-false (lo % 16) 0 odd,
  )

  refuse_outside :
      lo % 16 ≡ 0
      → ltb lo s.heap || ltb (s.mem_brk - 1) lo || ltb hi s.heap || ltb (s.mem_brk - 1) hi ≡ true
      → Opened (ok (false, malloc_error opnum outside_heap t) s)
  unfolding add_range malloc_error mem_heap_lo mem_heap_hi
  refuse_outside even out = rw (
    add64-eq lo size lt,
    sub64-eq (lo + size) 1 (omega arith) lt,
    ltb-true 0 size pos,
    ltb-true size (2 ^ 31) int,
    ==-true (lo % 16) 0 even,
    sub64-eq s.mem_brk 1 (omega arith) small,
    out,
  )

  inside :
      lo % 16 ≡ 0
      → (s.heap ≤ lo) × (hi + 1 ≤ s.mem_brk)
      → (seen : Bool) → find_overlap lo hi t.ranges ≡ seen
      → Opened (
          if seen
          then ok (false, malloc_error opnum overlaps t) s
          else ok
              (true, record t { ranges = record { lo = lo; hi = hi; index = index } ∷ t.ranges })
              s)
  unfolding add_range malloc_error mem_heap_lo mem_heap_hi
  inside even place seen e =
      rw
        (
          add64-eq lo size lt,
          sub64-eq (lo + size) 1 (omega arith) lt,
          ltb-true 0 size pos,
          ltb-true size (2 ^ 31) int,
          ==-true (lo % 16) 0 even,
          sub64-eq s.mem_brk 1 (omega arith) small,
          ltb-false lo s.heap (omega arith),
          ltb-false (s.mem_brk - 1) lo (omega arith),
          ltb-false hi s.heap (omega arith),
          ltb-false (s.mem_brk - 1) hi (omega arith),
          on,
          e,
        )
        (elim (Bool-cases seen) [ inl y ↦ rw y refl | inr n ↦ rw n refl ])

  -- With ignore-ranges nothing is remembered.
  pub add_range_ignores :
      lo % 16 ≡ 0
      → (s.heap ≤ lo) × (hi + 1 ≤ s.mem_brk)
      → add_range (record setting { ignore_ranges = true }) lo size opnum index t s ≡ ok (true, t) s
  unfolding add_range mem_heap_lo mem_heap_hi
  add_range_ignores even place = rw (
    add64-eq lo size lt,
    sub64-eq (lo + size) 1 (omega arith) lt,
    ltb-true 0 size pos,
    ltb-true size (2 ^ 31) int,
    ==-true (lo % 16) 0 even,
    sub64-eq s.mem_brk 1 (omega arith) small,
    ltb-false lo s.heap (omega arith),
    ltb-false (s.mem_brk - 1) lo (omega arith),
    ltb-false hi s.heap (omega arith),
    ltb-false (s.mem_brk - 1) hi (omega arith),
  )

  -- With the checks on and the ranges not ignored, for a positive `int` size and a heap area that
  -- is in order, `add_range` either accepts the payload and remembers it, or refuses it with one
  -- error. It accepts exactly the payloads that are aligned to 16 bytes, lie in the heap, and for
  -- each remembered range do not meet it or reach beyond it on both sides: the last is an overlap
  -- that it does not see.
  pub add_range_lem : Judged setting lo size opnum index t s
  unfolding malloc_error
  add_range_lem = elim (eq_cases (lo % 16) 0) [
    | inr odd ↦ inr (not_aligned, (λ a. odd a.aligned), refuse_unaligned odd)
    | inl even ↦ elim place_cases [
      | inr (out, miss) ↦
          inr (outside_heap, (λ a. miss (a.above, a.below)), refuse_outside even out)
      | inl place ↦ elim (Bool-cases (find_overlap lo hi t.ranges)) [
        | inl seen ↦ inr (
          overlaps,
          (λ a. absurd (
              true-ne-false
                (sym seen ∙ find_overlap-unseen lo hi t.ranges a.unseen (omega arith)))),
          inside even place true seen,
        )
        | inr free ↦ inl (
          record {
            aligned = even;
            above = place.0;
            below = place.1;
            unseen = find_overlap-false lo hi t.ranges (omega arith) free;
          },
          inside even place false free,
        )
      ]
    ]
  ]

-- What the list holds, and one more range, where ranges may be ignored.
abbrev pub seen : Bool → List Range → List Range
seen true rs = []
seen false rs = rs

abbrev pub noted : Bool → Range → List Range → List Range
noted true r rs = rs
noted false r rs = r ∷ rs

pub noted-seen :
    (ignore : Bool) (r : Range) (rs : List Range)
    → noted ignore r (seen ignore rs) ≡ seen ignore (r ∷ rs)
noted-seen true r rs = refl
noted-seen false r rs = refl

pub remove_range-seen :
    (ignore : Bool) (lo : Ptr) (rs : List Range)
    → remove_range lo (seen ignore rs) ≡ seen ignore (remove_range lo rs)
unfolding remove_range
remove_range-seen true lo rs = refl
remove_range-seen false lo rs = refl

-- The range record of a block is taken out, and the others stay in their order.
abbrev pub AllOther : Ptr → List Range → Type 0
AllOther lo [] = Unit {0}
AllOther lo (p ∷ ps) = (p.lo ≢ lo) × AllOther lo ps

-- `remove_range` takes out the first range that starts at the address, and keeps the others in
-- their order.
pub remove_range_lem :
    (lo : Ptr) (l : List Range) (p : Range) (r : List Range)
    → AllOther lo l
    → p.lo ≡ lo
    → remove_range lo (l ++ p ∷ r) ≡ l ++ r
unfolding remove_range
remove_range_lem lo [] p r h e = rw (==-true p.lo lo e)
remove_range_lem lo (q ∷ l) p r h e =
    rw (==-false q.lo lo h.0) (ap (λ w. q ∷ w) (remove_range_lem lo l p r h.1 e))
