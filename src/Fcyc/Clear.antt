-- ===== src/Fcyc/Clear.antt =====
-- fcyc.c: what `clear` reads, and the buffer against its size.
use malloc_for_c.Prelude.{
  ℕ, zero, suc, ◌+◌, ◌*◌, ◌/◌, ◌%◌, ◌^◌, ◌≤◌, ◌<◌, ◌≡◌, refl, ap, sym, subst, ◌∙◌, ◌⊎◌, Option,
  none, some, arith, ltb-true, ltb-false, leb-true, ==→≡, ◌==◌, inl, inr, lt_cases, Bool-cases,
}
use malloc_for_c.Memory.{Ptr}
use malloc_for_c.Fcyc.{Params}
use malloc_for_c.Fcyc.Cache.{
  Buffer, Clearing, cleared, out_of_fuel, clear_loop, clear, set_fcyc_cache_size,
}

-- The buffer has the bytes that the parameter says.
abbrev pub BufferFits : ℕ → Option Buffer → Type 0
BufferFits cache_bytes none = Unit {0}
BufferFits cache_bytes (some buf) = buf.bytes ≡ cache_bytes

-- One number out of each block of the cache, from `at` on.
abbrev pub sum_blocks : ℕ → (Ptr → ℕ) → Ptr → ℕ → ℕ → ℕ
sum_blocks zero ints at stride x = x
sum_blocks (suc n) ints at stride x =
    sum_blocks n ints (at + stride) stride ((x + ints at) % 2 ^ 32)

clear_loop_lem :
    (n fuel : ℕ) (ints : Ptr → ℕ) (buf : Buffer) (cptr cend incr x : ℕ)
    → n < fuel
    → buf.addr ≤ cptr
    → cend ≤ buf.addr + buf.bytes
    → cend % 4 ≡ cptr % 4
    → cptr + n * (4 * incr) < cend + 4 * incr
    → cend ≤ cptr + n * (4 * incr)
    → clear_loop fuel ints buf cptr cend incr x ≡ cleared (sum_blocks n ints cptr (4 * incr) x)
unfolding clear_loop
clear_loop_lem n zero ints buf cptr cend incr x enough a b c d e = absurd (omega arith)
clear_loop_lem zero (suc fuel) ints buf cptr cend incr x enough a b c d e =
    rw (ltb-false cptr cend (omega arith)) refl
clear_loop_lem (suc n) (suc fuel) ints buf cptr cend incr x enough a b c d e =
    let split : suc n * (4 * incr) ≡ 4 * incr + n * (4 * incr) = grind arith in
    rw
      (
        ltb-true cptr cend (omega (arith, split)),
        leb-true buf.addr cptr a,
        leb-true (cptr + 4) (buf.addr + buf.bytes) (omega (arith, split)),
      )
      (clear_loop_lem n fuel ints buf (cptr + 4 * incr) cend incr ((x + ints cptr) % 2 ^ 32)
        (omega arith) (omega arith) b (omega arith) (omega (arith, split)) (omega (arith, split)))

-- How many blocks of `incr` cover `m`.
cover : (m incr : ℕ) → 0 < incr → (n : ℕ) × (m ≤ n * incr) × (n * incr < m + incr) × (n ≤ m)
cover zero incr pos = (zero, omega arith, omega arith, omega arith)
cover (suc m) incr pos =
    let (n, above, below, few) = cover m incr pos in
    elim (lt_cases (n * incr) (suc m)) [
      | inr enough ↦ (n, enough, omega arith, omega arith)
      | inl short ↦
          let more : suc n * incr ≡ incr + n * incr = grind arith in
          (suc n, omega (arith, more), omega (arith, more), omega arith)
    ]

-- The buffer that `clear` reads from `buf` on, and the blocks that it has read.
pub record Cleared (ints : Ptr → ℕ) (cache_bytes cache_block sink : ℕ) (buf : Ptr)
    (run : Option Buffer × Clearing) : Type 0 where
  pub blocks : ℕ
  pub ends : run ≡ (
    some (record { addr = buf; bytes = cache_bytes }),
    cleared (sum_blocks blocks ints buf (4 * (cache_block / 4)) sink),
  )
  -- they reach to the end of the buffer and not further
  pub reach : 4 * (cache_bytes / 4) ≤ blocks * (4 * (cache_block / 4))
  pub inside : blocks * (4 * (cache_block / 4)) < 4 * (cache_bytes / 4) + 4 * (cache_block / 4)

loop-Cleared :
    (ints : Ptr → ℕ) (cache_bytes cache_block sink : ℕ) (p : Ptr)
    → 4 ≤ cache_block
    → Cleared ints cache_bytes cache_block sink p (
      some (record { addr = p; bytes = cache_bytes }),
      clear_loop
          (suc cache_bytes)
          ints
          (record { addr = p; bytes = cache_bytes })
          p
          (p + 4 * (cache_bytes / 4))
          (cache_block / 4)
          sink,
    )
loop-Cleared ints cache_bytes cache_block sink p wide =
    let incr = cache_block / 4 in
    let (n, above, below, few) = cover (cache_bytes / 4) incr (omega arith) in
    let scale : n * (4 * incr) ≡ 4 * (n * incr) = grind arith in
    record {
      blocks = n;
      ends =
          ap (λ r. (some (record { addr = p; bytes = cache_bytes }), r))
            (clear_loop_lem n (suc cache_bytes) ints (record { addr = p; bytes = cache_bytes }) p
              (p + 4 * (cache_bytes / 4)) incr sink (omega arith) (omega arith) (omega arith)
              (omega arith) (omega (arith, scale)) (omega (arith, scale)));
      reach = omega (arith, scale);
      inside = omega (arith, scale);
    }

-- Without a block of an `int`, the loop stays where it is.
clear_stays :
    (fuel : ℕ) (ints : Ptr → ℕ) (buf : Buffer) (cptr cend x : ℕ)
    → buf.addr ≤ cptr
    → cptr + 4 ≤ buf.addr + buf.bytes
    → cptr < cend
    → clear_loop fuel ints buf cptr cend 0 x ≡ out_of_fuel
unfolding clear_loop
clear_stays zero ints buf cptr cend x a b c = refl
clear_stays (suc fuel) ints buf cptr cend x a b c =
    rw
      (ltb-true cptr cend c, leb-true buf.addr cptr a, leb-true (cptr + 4) (buf.addr + buf.bytes) b)
      (clear_stays fuel ints buf (cptr + 4 * 0) cend ((x + ints cptr) % 2 ^ 32) (omega arith)
        (omega arith) (omega arith))

-- Where the buffer has `cache_bytes` bytes, or is allocated with them, and a cache block has 4
-- bytes at least, `clear` ends and reads nothing outside the buffer: it adds up one number of each
-- block, from the start of the buffer to its end. With a block of less than 4 bytes and a buffer of
-- at least 4, its loop does not end for any number of rounds.
pub clear_lem :
    (alloc : ℕ → Option Ptr) (ints : Ptr → ℕ) (cache_bytes cache_block sink : ℕ) (buf : Buffer)
    → BufferFits cache_bytes (some buf)
    → (4 ≤ cache_block
        → Cleared ints cache_bytes cache_block sink buf.addr
            (clear alloc ints cache_bytes cache_block sink (some buf)))
      × ((p : Ptr)
          → alloc cache_bytes ≡ some p
          → 4 ≤ cache_block
          → Cleared ints cache_bytes cache_block sink p
              (clear alloc ints cache_bytes cache_block sink none))
      × (cache_block < 4
          → 4 ≤ cache_bytes
          → (fuel : ℕ)
          → clear_loop fuel ints buf buf.addr
              (buf.addr + 4 * (cache_bytes / 4))
              (cache_block / 4)
              sink
            ≡ out_of_fuel)
unfolding clear
clear_lem alloc ints cache_bytes cache_block sink buf fits = (
  λ wide.
      subst
        (λ n. Cleared ints cache_bytes cache_block sink buf.addr (
          some (record { addr = buf.addr; bytes = n }),
          clear_loop (suc cache_bytes) ints (record { addr = buf.addr; bytes = n }) buf.addr
              (buf.addr + 4 * (cache_bytes / 4)) (cache_block / 4) sink,
        ))
        (sym fits) (loop-Cleared ints cache_bytes cache_block sink buf.addr wide),
  λ p e wide. rw (clear, e) (loop-Cleared ints cache_bytes cache_block sink p wide),
  λ narrow some_int fuel.
      let still : cache_block / 4 ≡ 0 = omega arith in
      rw still (
        clear_stays fuel ints buf buf.addr (buf.addr + 4 * (cache_bytes / 4)) sink (omega arith)
          (omega (arith, fits)) (omega arith)),
)

option_cases : (o : Option ℕ) → (o ≡ none) ⊎ ((n : ℕ) × (o ≡ some n))
option_cases none = inl refl
option_cases (some n) = inr (n, refl)

-- A new size keeps the buffer in step with the parameter.
pub set_fcyc_cache_size-BufferFits :
    {A : Type 0} (bytes : ℕ) (p : Params A) (buf : Option Buffer)
    → ((old : ℕ) → p.cache_bytes ≡ some old → BufferFits old buf)
    → let r = set_fcyc_cache_size bytes (p, buf) in
      (r.0.cache_bytes ≡ some bytes) × BufferFits bytes r.1
unfolding set_fcyc_cache_size
set_fcyc_cache_size-BufferFits bytes p buf h = elim (option_cases p.cache_bytes) [
  | inl unset ↦ rw unset (refl, tt)
  | inr (old, e) ↦ elim (Bool-cases (bytes == old)) [
    | inl same ↦
        let eq : bytes ≡ old = ==→≡ bytes old same in
        rw (e, same) (ap some (sym eq), subst (λ w. BufferFits w buf) (sym eq) (h old e))
    | inr new ↦ rw (e, new) (refl, tt)
  ]
]

-- Only the parameter for the size changes.
pub set_fcyc_cache_size-params :
    {A : Type 0} (bytes : ℕ) (p : Params A) (buf : Option Buffer)
    → (set_fcyc_cache_size bytes (p, buf)).0 ≡ record p { cache_bytes = some bytes }
unfolding set_fcyc_cache_size
set_fcyc_cache_size-params bytes p buf = elim (option_cases p.cache_bytes) [
  | inl unset ↦ rw (set_fcyc_cache_size, unset) refl
  | inr (old, e) ↦ elim (Bool-cases (bytes == old)) [
    | inl same ↦
        let eq : p.cache_bytes ≡ some bytes = e ∙ ap some (sym (==→≡ bytes old same)) in
        rw (set_fcyc_cache_size, e, same) (ap (λ w. record p { cache_bytes = w }) eq)
    | inr new ↦ rw (set_fcyc_cache_size, e, new) refl
  ]
]
