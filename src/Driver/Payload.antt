-- ===== src/Driver/Payload.antt =====
-- The loops of `randomize_block` and `check_index` of mdriver.c, and the two together.
use malloc_for_c.Prelude.{
  ℕ, zero, suc, ◌+◌, ◌^◌, ◌≤◌, ◌<◌, ◌≡◌, ◌≢◌, refl, sym, ◌∙◌, subst, ◌⊎◌, inl, inr, false, none,
  some, ◌∷◌, leb-true, leb-false, ==-true, ==-false, ◌==◌, add64-eq, if◌then◌else◌, eq_cases, arith,
}
use malloc_for_c.Memory.{Ptr, Mem}
use malloc_for_c.Machine.{State, ok, load_byte, store_byte}
use malloc_for_c.Machine.Access.{Mapped}
use malloc_for_c.Driver.{
  is_none, Tester, Setting, garbled, malloc_error, expected_byte, fill_bytes, randomize_block,
  count_garbled, check_index, set_at,
}

load_byte-ok : (a : Ptr) (s : State) → Mapped s a 1 → load_byte a s ≡ ok (s.mem a) s
unfolding load_byte
load_byte-ok a s h = rw (leb-true _ _ h.above, leb-true _ _ h.below)

store_byte-ok :
    (a : Ptr) (v : ℕ) (s : State)
    → Mapped s a 1
    → store_byte a v s ≡ ok tt (record s { mem = λ q. if q == a then v else s.mem q })
unfolding store_byte
store_byte-ok a v s h = rw (leb-true _ _ h.above, leb-true _ _ h.below)

module _ (g : Setting) (base block : ℕ) where
  -- The `n` bytes from offset `i` on hold their random data.
  abbrev pub Filled : Mem → ℕ → ℕ → Type 0
  Filled m i n = (j : ℕ) → i ≤ j → j < i + n → m (block + j) ≡ expected_byte g base j

  fill_lem :
      (n i : ℕ) (s : State)
      → Mapped s (block + i) n
      → s.mem_max_addr < 2 ^ 64
      → (m : Mem) × (fill_bytes g base block i n s ≡ ok tt (record s { mem = m }))
        × Filled m i n
        × ((q : ℕ) → (q < block + i) ⊎ (block + i + n ≤ q) → m q ≡ s.mem q)
  unfolding fill_bytes
  fill_lem zero i s h lt = (s.mem, refl, (λ j lo hi. absurd (omega arith)), λ q o. refl)
  fill_lem (suc n) i s h lt =
      let v = expected_byte g base i in
      let m₁ : Mem = λ q. if q == block + i then v else s.mem q in
      let (m, run, filled, off) =
        fill_lem n (suc i) (record s { mem = m₁ })
          (record { above = omega (arith, h); below = omega (arith, h) }) lt in
      (
        m,
        rw (
          add64-eq block i (omega (arith, h)),
          store_byte-ok (block + i) v s
              (record { above = omega (arith, h); below = omega (arith, h) }),
          run,
        ),
        (λ j lo hi. elim (eq_cases j i) [
          | inl here ↦
              off (block + j) (inl (omega arith))
              ∙ rw (here, ==-true (block + i) (block + i) refl) refl
          | inr next ↦ filled j (omega arith) (omega arith)
        ]),
        λ q o. off q (omega arith) ∙ rw (==-false q (block + i) (omega arith)) refl,
      )

  -- The loop of `check_index` counts the bytes that differ.
  count_lem :
      (n i : ℕ) (s : State)
      → Mapped s (block + i) n
      → s.mem_max_addr < 2 ^ 64
      → (Filled s.mem i n × (count_garbled g base block i n s ≡ ok (0, none) s))
        ⊎ ((j k : ℕ) × (i ≤ j)
            × (j < i + n)
            × (s.mem (block + j) ≢ expected_byte g base j)
            × (count_garbled g base block i n s ≡ ok (suc k, some j) s))
  unfolding count_garbled
  count_lem zero i s h lt = inl ((λ j lo hi. absurd (omega arith)), refl)
  count_lem (suc n) i s h lt =
      let at = add64-eq block i (omega (arith, h)) in
      let byte =
        load_byte-ok (block + i) s
          (record { above = omega (arith, h); below = omega (arith, h) }) in
      let rest =
        count_lem n (suc i) s (record { above = omega (arith, h); below = omega (arith, h) }) lt in
      elim (eq_cases (s.mem (block + i)) (expected_byte g base i)) [
        | inl same ↦
            let eq = ==-true (s.mem (block + i)) (expected_byte g base i) same in
            elim rest [
              | inl (filled, run) ↦ inl (
                (λ j lo hi. elim (eq_cases j i) [
                  | inl here ↦
                      subst (λ w. s.mem (block + w) ≡ expected_byte g base w) (sym here) same
                  | inr next ↦ filled j (omega arith) (omega arith)
                ]),
                rw (at, byte, run, eq),
              )
              | inr (j, k, lo, hi, ne, run) ↦
                  inr (j, k, omega arith, omega arith, ne, rw (at, byte, run, eq))
            ]
        | inr differ ↦
            let ne = ==-false (s.mem (block + i)) (expected_byte g base i) differ in
            elim rest [
              | inl (filled, run) ↦
                  inr (i, 0, omega arith, omega arith, differ, rw (at, byte, run, ne))
              | inr (j, k, lo, hi, x, run) ↦
                  inr (i, suc k, omega arith, omega arith, differ, rw (at, byte, run, ne))
            ]
      ]

-- The block of the trace's index `index` is mapped.
abbrev pub BlockMapped : Tester → ℕ → State → Type 0
BlockMapped t index s = Mapped s (t.blocks index) (t.block_sizes index) × (s.mem_max_addr < 2 ^ 64)

Mapped-at :
    (t : Tester) (index : ℕ) (s : State)
    → BlockMapped t index s
    → Mapped s (t.blocks index + 0) (t.block_sizes index)
Mapped-at t index s h = record { above = omega (arith, h); below = omega (arith, h) }

-- Where data is checked and the block of a non-negative index is mapped, `check_index` changes
-- nothing if every byte of the block is the expected one; otherwise it reports at least one garbled
-- byte, and the position it gives is that of a byte that differs.
pub check_index_lem :
    (g : Setting) (opnum index : ℕ) (t : Tester) (s : State)
    → is_none g.debug_mode ≡ false
    → index < 2 ^ 31
    → BlockMapped t index s
    → (Filled g (t.block_rand_base index) (t.blocks index) s.mem 0 (t.block_sizes index)
        × (check_index g opnum index t s ≡ ok t s))
      ⊎ ((j k : ℕ) × (j < t.block_sizes index)
          × (s.mem (t.blocks index + j) ≢ expected_byte g (t.block_rand_base index) j)
          × (check_index g opnum index t s
              ≡ ok (record t { errors = (opnum, garbled index (suc k) j) ∷ t.errors }) s))
unfolding check_index malloc_error
check_index_lem g opnum index t s on small h =
    elim (count_lem g (t.block_rand_base index) (t.blocks index) (t.block_sizes index) 0 s
      (Mapped-at t index s h) h.1) [
        | inl (filled, run) ↦ inl (filled, rw (leb-false (2 ^ 31) index small, on, run))
        | inr (j, k, lo, hi, ne, run) ↦ inr (
          j,
          k,
          omega arith,
          ne,
          rw (leb-false (2 ^ 31) index small, on, run, ==-false (suc k) 0 (omega arith)),
        )
      ]

-- What `randomize_block` has done.
pub record Randomized (g : Setting) (index : ℕ) (t : Tester) (s : State) : Type 0 where
  pub tester : Tester
  pub mem : Mem
  pub same_errors : tester.errors ≡ t.errors
  pub same_ranges : tester.ranges ≡ t.ranges
  pub same_blocks : tester.blocks ≡ t.blocks
  pub same_sizes : tester.block_sizes ≡ t.block_sizes
  pub base : ℕ
  pub rand_base : tester.block_rand_base ≡ set_at index base t.block_rand_base
  pub filled : Filled g base (t.blocks index) mem 0 (t.block_sizes index)
  pub run : randomize_block g index t s ≡ ok tester (record s { mem = mem })
  pub outside :
      (q : ℕ) → (q < t.blocks index) ⊎ (t.blocks index + t.block_sizes index ≤ q) → mem q ≡ s.mem q
  -- Later, with the bytes of the block as they are now, nothing is garbled.
  pub later :
      (opnum : ℕ) (m : Mem)
      → ((j : ℕ) → j < t.block_sizes index → m (t.blocks index + j) ≡ mem (t.blocks index + j))
      → check_index g opnum index tester (record s { mem = m }) ≡ ok tester (record s { mem = m })

-- Where data is checked and the block of a non-negative index is mapped, `randomize_block` writes
-- only into the block, leaves the errors and the ranges as they are, and `check_index` later finds
-- nothing garbled in any memory that still has the bytes of the block.
pub randomize_block_lem :
    (g : Setting) (index : ℕ) (t : Tester) (s : State)
    → is_none g.debug_mode ≡ false
    → index < 2 ^ 31
    → BlockMapped t index s
    → Randomized g index t s
unfolding randomize_block
randomize_block_lem g index t s on small h =
    let base = g.random t.draws in
    let block = t.blocks index in
    let size = t.block_sizes index in
    let (m, run, filled, off) = fill_lem g base block size 0 s (Mapped-at t index s h) h.1 in
    let t' : Tester = record t {
      block_rand_base = set_at index base t.block_rand_base;
      draws = suc t.draws;
    } in
    record {
      tester = t';
      mem = m;
      same_errors = refl;
      same_ranges = refl;
      same_blocks = refl;
      same_sizes = refl;
      base = base;
      rand_base = refl;
      filled = filled;
      run = rw (on, run);
      outside = λ q o. off q (omega arith);
      later = λ opnum m' same.
          elim (check_index_lem g opnum index t' (record s { mem = m' }) on small
            (record { above = omega (arith, h); below = omega (arith, h) }, h.1)) [
              | inl (ok_bytes, check) ↦ check
              | inr (j, k, lt, ne, check) ↦ absurd (
                  ne (
                    same j lt
                    ∙ filled j (omega arith) (omega arith)
                    ∙ rw (==-true index index refl) refl))
            ];
    }
