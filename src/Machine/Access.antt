-- ===== src/Machine/Access.antt =====
-- What a read and a write do at an address that is mapped.
use malloc_for_c.Prelude.{
  ℕ, ◌+◌, ◌-◌, ◌≤◌, ◌<◌, ◌≡◌, ◌⊎◌, refl, leb, ltb, leb-true, ltb-true, ◌&&◌, if◌then◌else◌, arith,
}
use malloc_for_c.Memory.{Ptr, Mem, word, put}
use malloc_for_c.Machine.{
  State, Run, Cmd, ok, fault, abort, out_of_fuel, and_then, load, store, memcpy, memset,
}

-- The `n` bytes from `a` on are mapped.
pub record Mapped (s : State) (a : Ptr) (n : ℕ) : Type 0 where
  pub above : s.heap ≤ a
  pub below : a + n ≤ s.mem_max_addr

pub load-ok : (a : Ptr) (s : State) → Mapped s a 8 → load a s ≡ ok (word s.mem a) s
unfolding load
load-ok a s h = rw (leb-true _ _ h.above, leb-true _ _ h.below)

pub store-ok :
    (a : Ptr) (v : ℕ) (s : State)
    → Mapped s a 8
    → store a v s ≡ ok tt (record s { mem = put s.mem a v })
unfolding store
store-ok a v s h = rw (leb-true _ _ h.above, leb-true _ _ h.below)

-- Binding is associative.
pub and_then_assoc :
    {A B C : Type 0} (r : Run A) (k : A → Cmd B) (j : B → Cmd C)
    → and_then (and_then r k) j ≡ and_then r (λ a s. and_then (k a s) j)
and_then_assoc (ok a s) k j = refl
and_then_assoc fault k j = refl
and_then_assoc abort k j = refl
and_then_assoc out_of_fuel k j = refl

-- The memory after `n` bytes are copied, or set to `c`.
abbrev pub copied : Mem → Ptr → Ptr → ℕ → Mem
copied m dst src n = λ q. if leb dst q && ltb q (dst + n) then m (src + (q - dst)) else m q

abbrev pub filled : Mem → Ptr → ℕ → ℕ → Mem
filled m dst c n = λ q. if leb dst q && ltb q (dst + n) then c else m q

pub copied-in : (m : Mem) (dst src n i : ℕ) → i < n → copied m dst src n (dst + i) ≡ m (src + i)
copied-in m dst src n i h =
    let e : dst + i - dst ≡ i = omega arith in
    rw (leb-true dst (dst + i) (omega arith), ltb-true (dst + i) (dst + n) (omega arith), e)

pub copied-off :
    (m : Mem) (dst src n q : ℕ) → (q < dst) ⊎ (dst + n ≤ q) → copied m dst src n q ≡ m q
copied-off m dst src n q h = ground arith

pub filled-in : (m : Mem) (dst c n i : ℕ) → i < n → filled m dst c n (dst + i) ≡ c
filled-in m dst c n i h = ground arith

pub filled-off : (m : Mem) (dst c n q : ℕ) → (q < dst) ⊎ (dst + n ≤ q) → filled m dst c n q ≡ m q
filled-off m dst c n q h = ground arith

pub memcpy-ok :
    (dst src n : ℕ) (s : State)
    → Mapped s dst n
    → Mapped s src n
    → memcpy dst src n s ≡ ok tt (record s { mem = copied s.mem dst src n })
unfolding memcpy
memcpy-ok dst src n s hd hs =
    rw
      (
        leb-true s.heap dst hd.above,
        leb-true (dst + n) s.mem_max_addr hd.below,
        leb-true s.heap src hs.above,
        leb-true (src + n) s.mem_max_addr hs.below,
      )
      (ground arith)

pub memset-ok :
    (dst c n : ℕ) (s : State)
    → Mapped s dst n
    → memset dst c n s ≡ ok tt (record s { mem = filled s.mem dst c n })
unfolding memset
memset-ok dst c n s hd =
    rw (leb-true s.heap dst hd.above, leb-true (dst + n) s.mem_max_addr hd.below) (ground arith)
