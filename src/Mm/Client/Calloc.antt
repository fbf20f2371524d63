-- ===== src/Mm/Client/Calloc.antt =====
-- `calloc`: a block of zero bytes.
use malloc_for_c.Prelude.{ℕ, ◌+◌, ◌*◌, ◌^◌, ◌<◌, ◌≡◌, ◌∙◌, subst, arith, ==-false, mul64-eq}
use malloc_for_c.Memory.{Ptr, Mem, null}
use malloc_for_c.Machine.{State, ok}
use malloc_for_c.Machine.Access.{filled, filled-in, filled-off, memset-ok}
use malloc_for_c.Mm.Heap.{used, InPayload, Keeps}
use malloc_for_c.Mm.Policy.{Heap, Represents}
use malloc_for_c.Mm.Alloc.{adjust}
use malloc_for_c.Mm.Alloc.Malloc.{Served}
use malloc_for_c.Mm.Alloc.Grant.{Granted, malloc_grants}
use malloc_for_c.Mm.Client.{calloc}
use malloc_for_c.Mm.Client.Payload.{place, write_payload}

-- What `calloc` has done for `n` elements of `size` bytes.
pub record Cleared (s : State) (h : Heap) (n size : ℕ) : Type 0 where
  pub addr : Ptr
  pub after : State
  pub new : Heap
  pub run : calloc n size s ≡ ok (addr + 8) after
  pub heap : Represents after new
  pub granted : Granted (used h.blocks) (used new.blocks) addr (n * size + 16)
  pub keeps : Keeps (used h.blocks) s.mem after.mem
  pub zeros : (i : ℕ) → i < n * size → after.mem (addr + 8 + i) ≡ 0

-- In a state that represents a heap, `calloc` with a positive product that does not overflow
-- succeeds where a listed block fits or there is space for a new one. The new block is aligned and
-- holds the product of bytes, all of them 0, and the payloads in use keep their bytes.
pub calloc_clears :
    (s : State) (h : Heap) (n size : ℕ)
    → Represents s h
    → 0 < n * size
    → n * size + 63 < 2 ^ 64
    → Served s h (adjust (n * size))
    → Cleared s h n size
unfolding calloc
calloc_clears s h n size v pos lt space =
    let bytes = n * size in
    let a = malloc_grants s h bytes v pos lt space in
    let g = a.granted in
    let at = (place a.after a.new g.before a.addr g.size g.behind a.becomes.heap g.new).at in
    let m : Mem = filled a.after.mem (a.addr + 8) 0 bytes in
    let (heap, keeps) =
      write_payload a.after a.new g.before a.addr g.size g.behind a.becomes.heap g.new m
        (λ q o. filled-off a.after.mem (a.addr + 8) 0 bytes q (omega (arith, g.large, o))) in
    record {
      addr = a.addr;
      after = record a.after { mem = m };
      new = a.new;
      run = rw (
        mul64-eq n size (omega arith),
        a.run,
        ==-false (a.addr + 8) null (omega arith),
        memset-ok (a.addr + 8) 0 bytes a.after
            (record { above = omega (arith, at); below = omega (arith, at, g.large) }),
      );
      heap = heap;
      granted = g;
      keeps = λ q i. keeps q (subst (λ w. InPayload w q) g.old i) ∙ a.becomes.keeps q i;
      zeros = λ i j. filled-in a.after.mem (a.addr + 8) 0 bytes i j;
    }
