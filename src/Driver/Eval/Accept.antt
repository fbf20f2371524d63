-- ===== src/Driver/Eval/Accept.antt =====
-- The ranges that the driver remembers against the payloads in use, and a new payload among them.
use malloc_for_c.Prelude.{
  Bool, ℕ, ◌+◌, ◌-◌, ◌^◌, ◌≤◌, ◌<◌, ◌≡◌, sym, subst, ◌⊎◌, inl, inr, true, false, List, [], ◌∷◌,
  ◌++◌, arith, lt_cases,
}
use malloc_for_c.Memory.{Ptr}
use malloc_for_c.Machine.{State, ok}
use malloc_for_c.Mm.Heap.{used, InPayload}
use malloc_for_c.Mm.Heap.Frame.{InPayload-append, InPayload-bounds}
use malloc_for_c.Mm.Policy.{Heap, Represents}
use malloc_for_c.Mm.Client.Payload.{place, InPayload-more}
use malloc_for_c.Mm.Alloc.Grant.{Granted}
use malloc_for_c.Driver.{DebugMode, is_none, Range, Tester, Setting, add_range}
use malloc_for_c.Driver.Ranges.{
  seen, noted, add_range_ignores, AllUnseen, Acceptable, add_range_lem,
}

-- Every byte of every range is payload of a block in use.
abbrev pub RangesIn : List Range → List (Ptr × ℕ) → Type 0
RangesIn [] us = Unit {0}
RangesIn (r ∷ rs) us =
    ((r.lo ≤ r.hi) × ((a : ℕ) → r.lo ≤ a → a ≤ r.hi → InPayload us a)) × RangesIn rs us

pub RangesIn-more :
    (rs : List Range) (u : List (Ptr × ℕ)) (e : Ptr × ℕ) (v : List (Ptr × ℕ))
    → RangesIn rs (u ++ v)
    → RangesIn rs (u ++ e ∷ v)
RangesIn-more [] u e v h = tt
RangesIn-more (r ∷ rs) u e v h =
    ((h.0.0, λ a lo hi. InPayload-more u e v a (h.0.1 a lo hi)), RangesIn-more rs u e v h.1)

-- The payloads of the other blocks lie outside a block.
pub payload-outside :
    (s : State) (h : Heap) (us : List (Ptr × ℕ)) (p n : ℕ) (vs : List (Ptr × ℕ)) (a : ℕ)
    → Represents s h
    → used h.blocks ≡ us ++ (p, n) ∷ vs
    → InPayload (us ++ vs) a
    → (a < p) ⊎ (p + n ≤ a)
payload-outside s h us p n vs a v e i =
    let g = place s h us p n vs v e in
    elim (InPayload-append a us vs i) [
      | inl l ↦
          inl
            (InPayload-bounds a (s.heap + 24) g.left p g.at.left
              (subst (λ w. InPayload w a) (sym g.used_left) l)).1
      | inr r ↦
          inr
            (InPayload-bounds a (p + n) g.right s.mm_heap_last g.at.right
              (subst (λ w. InPayload w a) (sym g.used_right) r)).0
    ]

pub RangesIn-seen :
    (ignore : Bool) (rs : List Range) (us : List (Ptr × ℕ))
    → RangesIn rs us
    → RangesIn (seen ignore rs) us
RangesIn-seen true rs us h = tt
RangesIn-seen false rs us h = h

pub RangesIn-noted :
    (ignore : Bool) (r : Range) (rs : List Range) (us : List (Ptr × ℕ))
    → RangesIn (r ∷ rs) us
    → RangesIn (noted ignore r rs) us
RangesIn-noted true r rs us h = h.1
RangesIn-noted false r rs us h = h

-- So a range inside the block meets none of the ranges in the others.
pub inside-AllUnseen :
    (s : State) (h : Heap) (us : List (Ptr × ℕ)) (p n : ℕ) (vs : List (Ptr × ℕ)) (lo hi : Ptr)
    (rs : List Range)
    → Represents s h
    → used h.blocks ≡ us ++ (p, n) ∷ vs
    → p ≤ lo
    → lo ≤ hi
    → hi < p + n
    → RangesIn rs (us ++ vs)
    → AllUnseen lo hi rs
inside-AllUnseen s h us p n vs lo hi [] v e low le high i = tt
inside-AllUnseen s h us p n vs lo hi (r ∷ rs) v e low le high i =
    let out =
      λ (a : ℕ) (x : r.lo ≤ a) (y : a ≤ r.hi). payload-outside s h us p n vs a v e (i.0.1 a x y) in
    (
      elim (lt_cases hi r.lo) [
        | inl before ↦ inl before
        | inr from ↦ elim (lt_cases r.hi lo) [
          | inl behind ↦ inr (inl behind)
          | inr to ↦ elim (lt_cases lo r.lo) [
            | inl starts ↦ absurd (omega (arith, out r.lo (omega arith) i.0.0))
            | inr starts ↦ absurd (omega (arith, out lo starts to))
          ]
        ]
      ],
      inside-AllUnseen s h us p n vs lo hi rs v e low le high i.1,
    )

-- A mode that checks the data, on a trace that checks the ranges or ignores them.
abbrev pub checking_setting : DebugMode → Bool → (ℕ → ℕ) → (ℕ → ℕ) → Setting
checking_setting mode ignore random_data random = record {
  debug_mode = mode;
  ignore_ranges = ignore;
  random_data = random_data;
  random = random;
}

-- `add_range` accepts the payload of a block that is granted beside the ones with the ranges.
pub accept_lem :
    (mode : DebugMode) (on : is_none mode ≡ false) (ignore : Bool) (random_data random : ℕ → ℕ)
    (s : State) (h : Heap) (us : List (Ptr × ℕ)) (p size opnum index : ℕ) (t : Tester)
    → Represents s h
    → Granted us (used h.blocks) p (size + 16)
    → RangesIn t.ranges us
    → 0 < size
    → size < 2 ^ 31
    → add_range (checking_setting mode ignore random_data random) (p + 8) size opnum index t s
      ≡ ok
          (
            true,
            record t {
              ranges =
                  noted ignore
                    (record { lo = p + 8; hi = p + 8 + size - 1; index = index })
                    t.ranges;
            },
          )
          s
accept_lem mode on true random_data random s h us p size opnum index t v k rs pos int =
    let c = v.core in
    let at = (place s h k.before p k.size k.behind v k.new).at in
    add_range_ignores mode on random_data random (p + 8) size opnum index t s pos int
      (omega (arith, at, k.large)) (omega (arith, at, c.brk)) c.fits.positive
      (omega (arith, c.room, c.fits)) k.aligned
      (omega (arith, at), omega (arith, at, k.large, c.brk))
accept_lem mode on false random_data random s h us p size opnum index t v k rs pos int =
    let lo = p + 8 in
    let c = v.core in
    let at = (place s h k.before p k.size k.behind v k.new).at in
    let ok_range : Acceptable s t.ranges lo (lo + size - 1) = record {
      aligned = k.aligned;
      above = omega (arith, at);
      below = omega (arith, at, k.large, c.brk);
      unseen =
          inside-AllUnseen s h k.before p k.size k.behind lo (lo + size - 1) t.ranges v k.new
            (omega arith) (omega arith) (omega (arith, k.large))
            (subst (λ w. RangesIn t.ranges w) k.old rs);
    } in
    elim (add_range_lem mode on random_data random lo size opnum index t s pos int
      (omega (arith, at, k.large)) (omega (arith, at, c.brk)) c.fits.positive
      (omega (arith, c.room, c.fits))) [
        | inl (acceptable, run) ↦ run
        | inr (what, no_way, run) ↦ absurd (no_way ok_range)
      ]
