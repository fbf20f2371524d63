-- ===== src/Driver/Eval/Slots.antt =====
-- The trace's blocks against the heap: the block in use of each live index, and its data.
use malloc_for_c.Prelude.{ℕ, ◌+◌, ◌-◌, ◌^◌, ◌≤◌, ◌<◌, ◌≡◌, List, [], ◌∷◌, count, count_self, arith}
use malloc_for_c.Memory.{Ptr, Mem}
use malloc_for_c.Machine.{State}
use malloc_for_c.Mm.Heap.{used}
use malloc_for_c.Mm.Policy.{Heap, Represents}
use malloc_for_c.Mm.Session.Payloads.{payloads}
use malloc_for_c.Driver.Ranges.{seen}
use malloc_for_c.Driver.Held.{Has, Has-InPayload, pointers}
use malloc_for_c.Driver.{Range, Tester, Setting}
use malloc_for_c.Driver.Payload.{Filled}
use malloc_for_c.Driver.Eval.Accept.{RangesIn}

abbrev pub ranges_of : (ℕ → Ptr) → (ℕ → ℕ) → List ℕ → List Range
ranges_of blocks sizes [] = []
ranges_of blocks sizes (j ∷ live) =
    record { lo = blocks j; hi = blocks j + sizes j - 1; index = j } ∷ ranges_of blocks sizes live

-- The block of one index, of `size` bytes at `p`, filled from `base` on.
pub record Slot (g : Setting) (m : Mem) (us : List (Ptr × ℕ)) (j p size base : ℕ) : Type 0 where
  pub addr : Ptr
  pub room : ℕ
  pub pointer : p ≡ addr + 8
  pub in_use : Has us addr room
  pub positive : 0 < size
  pub fits : size + 16 ≤ room
  pub filled : Filled g base p m 0 size
  pub small : j < 2 ^ 31

-- The driver and the heap agree on the live indices.
pub record Agrees (g : Setting) (live : List ℕ) (t : Tester) (s : State) (h : Heap) : Type 0 where
  pub heap : Represents s h
  pub ranges : t.ranges ≡ seen g.ignore_ranges (ranges_of t.blocks t.block_sizes live)
  pub held : (x : Ptr) → count x (pointers t.blocks live) ≡ count x (payloads (used h.blocks))
  pub slots :
      (j : ℕ)
      → 0 < count j live
      → Slot g s.mem (used h.blocks) j (t.blocks j) (t.block_sizes j) (t.block_rand_base j)

-- All ranges lie in payloads in use.
pub RangesIn-slots :
    (g : Setting) (m : Mem) (us : List (Ptr × ℕ)) (blocks sizes bases : ℕ → ℕ) (live : List ℕ)
    → ((j : ℕ) → 0 < count j live → Slot g m us j (blocks j) (sizes j) (bases j))
    → RangesIn (ranges_of blocks sizes live) us
RangesIn-slots g m us blocks sizes bases [] slots = tt
RangesIn-slots g m us blocks sizes bases (j ∷ live) slots =
    let d = slots j (omega (arith, count_self j live)) in
    (
      (
        omega (arith, d.positive),
        λ a lo hi.
            Has-InPayload us d.addr d.room a d.in_use (omega (arith, d.pointer))
              (omega (arith, d.pointer, d.fits, d.positive)),
      ),
      RangesIn-slots g m us blocks sizes bases live (λ i p. slots i (ground arith)),
    )
