-- ===== src/Mm/Client/Realloc.antt =====
-- `realloc` on a block in use: a new block, the old bytes in it, and the old block given back.
use malloc_for_c.Prelude.{
  ℕ, ◌+◌, ◌-◌, ◌^◌, ◌≤◌, ◌<◌, ◌≡◌, sym, ap, ◌∙◌, subst, true, List, ◌∷◌, ◌++◌, arith, ltb, ==-false,
  if◌then◌else◌, sub64-eq,
}
use malloc_for_c.Memory.{Ptr, Mem, null}
use malloc_for_c.Machine.{State, ok}
use malloc_for_c.Machine.Access.{copied, copied-in, copied-off, memcpy-ok}
use malloc_for_c.Mm.Block.Access.{decr-eq, get_size-ok}
use malloc_for_c.Mm.Heap.{used, InPayload, Keeps}
use malloc_for_c.Mm.Heap.Cut.{Cut-Room}
use malloc_for_c.Mm.Policy.{Heap, release, Represents}
use malloc_for_c.Mm.Alloc.{adjust, malloc}
use malloc_for_c.Mm.Alloc.Malloc.{Served}
use malloc_for_c.Mm.Alloc.Grant.{Granted, malloc_grants}
use malloc_for_c.Mm.Free.Release.{free_refines}
use malloc_for_c.Mm.Client.{move, realloc}
use malloc_for_c.Mm.Client.Payload.{
  place, write_payload, InPayload-more, InPayload-at, Granted-rest,
}

-- How many bytes `realloc` copies out of a block of `k` bytes.
abbrev pub copy_size : ℕ → ℕ → ℕ
copy_size size k = if ltb size (k - 16) then size else k - 16

pub copy_size-le : (size k : ℕ) → (copy_size size k ≤ size) × (copy_size size k ≤ k - 16)
copy_size-le size k = ground arith

-- The bytes of the block at `x` are moved to the block at `p`, and `x` is given back.
record Moved (s : State) (x p size k : ℕ) (us vs rest : List (Ptr × ℕ)) : Type 0 where
  after : State
  new : Heap
  run : move (p + 8) (x + 8) size s ≡ ok (p + 8) after
  heap : Represents after new
  in_use : used new.blocks ≡ us ++ vs
  same_lo : after.heap ≡ s.heap
  same_max : after.mem_max_addr ≡ s.mem_max_addr
  same_brk : after.mem_brk ≡ s.mem_brk
  kept : (a : ℕ) → InPayload rest a → InPayload (us ++ vs) a → after.mem a ≡ s.mem a
  contents :
      (i : ℕ)
      → i < copy_size size k
      → InPayload (us ++ vs) (p + 8 + i)
      → after.mem (p + 8 + i) ≡ s.mem (x + 8 + i)

module _ (s : State) (h : Heap) (us : List (Ptr × ℕ)) (x k : ℕ) (vs a : List (Ptr × ℕ)) (p n : ℕ)
    (b : List (Ptr × ℕ)) (size : ℕ) (v : Represents s h) (ex : used h.blocks ≡ us ++ (x, k) ∷ vs)
    (ep : used h.blocks ≡ a ++ (p, n) ∷ b) (large : size + 16 ≤ n) where
  move_lem : Moved s x p size k us vs (a ++ b)
  unfolding move
  move_lem =
      let px = place s h us x k vs v ex in
      let pp = place s h a p n b v ep in
      let gx = px.at in
      let gp = pp.at in
      let c = copy_size size k in
      let le = copy_size-le size k in
      let m : Mem = copied s.mem (p + 8) (x + 8) c in
      let (heap, keeps) =
        write_payload s h a p n b v ep m
          (λ q o. copied-off s.mem (p + 8) (x + 8) c q (omega (arith, le, gp, o))) in
      let s₁ = record s { mem = m } in
      let d = free_refines s₁ h px.left x k px.right heap px.blocks in
      let others : used px.left ++ used px.right ≡ us ++ vs =
        ap (λ w. w ++ used px.right) px.used_left ∙ ap (λ w. us ++ w) px.used_right in
      let back : x + 8 - 8 ≡ x = omega arith in
      record {
        after = d.after;
        new = release x h;
        run = rw (
          decr-eq 8 (x + 8) (omega arith) (omega (arith, gx)),
          back,
          get_size-ok x k true s (Cut-Room gx) gx.header,
          sub64-eq k 16 (omega (arith, gx)) (omega (arith, gx)),
          memcpy-ok (p + 8) (x + 8) c s
              (record { above = omega (arith, gp); below = omega (arith, gp, le) })
              (record { above = omega (arith, gx); below = omega (arith, gx, le) }),
          d.run,
        );
        heap = d.heap;
        in_use = d.same_used ∙ others;
        same_lo = d.same_lo;
        same_max = d.same_max;
        same_brk = d.same_brk;
        kept = λ q i j. subst (λ w. Keeps w m d.after.mem) others d.keeps q j ∙ keeps q i;
        contents = λ i lt j.
            subst (λ w. Keeps w m d.after.mem) others d.keeps (p + 8 + i) j
            ∙ copied-in s.mem (p + 8) (x + 8) c i lt;
      }

-- What `realloc` has done for the block `x` of `k` bytes: the bytes of all other blocks are kept,
-- and the new block starts with those of the old one.
pub record Reallocated (s : State) (h : Heap) (us : List (Ptr × ℕ)) (x k : ℕ) (vs : List (Ptr × ℕ))
    (size : ℕ) : Type 0 where
  pub addr : Ptr
  pub after : State
  pub new : Heap
  pub run : realloc (x + 8) size s ≡ ok (addr + 8) after
  pub heap : Represents after new
  pub granted : Granted (us ++ vs) (used new.blocks) addr (size + 16)
  pub keeps : Keeps (us ++ vs) s.mem after.mem
  pub grows : after.mem_brk ≤ s.mem_brk + adjust size
  pub same_max : after.mem_max_addr ≡ s.mem_max_addr
  pub same_lo : after.heap ≡ s.heap
  pub no_less : s.mem_brk ≤ after.mem_brk
  pub contents : (i : ℕ) → i < copy_size size k → after.mem (addr + 8 + i) ≡ s.mem (x + 8 + i)

-- In a state that represents a heap, `realloc` of a block in use to a positive size that does not
-- overflow succeeds where a listed block fits or there is space for a new one. The result is one
-- more block beside the others, aligned and large enough; it starts with the bytes of the old block
-- as far as both reach, the old block is no longer in use, and the other payloads in use keep their
-- bytes.
pub realloc_moves :
    (s : State) (h : Heap) (us : List (Ptr × ℕ)) (x k : ℕ) (vs : List (Ptr × ℕ)) (size : ℕ)
    → Represents s h
    → used h.blocks ≡ us ++ (x, k) ∷ vs
    → 0 < size
    → size + 63 < 2 ^ 64
    → Served s h (adjust size)
    → Reallocated s h us x k vs size
unfolding realloc
realloc_moves s h us x k vs size v ex pos lt space =
    let px = (place s h us x k vs v ex).at in
    let a = malloc_grants s h size v pos lt space in
    let s₁ = a.after in
    let h₁ = a.new in
    let (us', vs', ex', g) =
      Granted-rest (used h.blocks) (used h₁.blocks) a.addr (size + 16) us (x, k) vs a.granted ex in
    let d =
      move_lem s₁ h₁ us' x k vs' a.granted.before a.addr a.granted.size a.granted.behind size
        a.becomes.heap ex' a.granted.new a.granted.large in
    record {
      addr = a.addr;
      after = d.after;
      new = d.new;
      run = rw (
        ==-false size 0 (omega arith),
        ==-false (x + 8) null (omega arith),
        a.run,
        ==-false (a.addr + 8) null (omega arith),
        d.run,
      );
      heap = d.heap;
      grows = omega (arith, d.same_brk, a.grows);
      same_max = d.same_max ∙ a.becomes.same_max;
      same_lo = d.same_lo ∙ a.becomes.same_lo;
      no_less = omega (arith, d.same_brk, a.no_less);
      granted = subst (λ w. Granted (us ++ vs) w a.addr (size + 16)) (sym d.in_use) g;
      keeps = λ q i.
          let old : InPayload (us ++ (x, k) ∷ vs) q = InPayload-more us (x, k) vs q i in
          d.kept q (subst (λ w. InPayload w q) (sym ex ∙ a.granted.old) old) (
            subst (λ w. InPayload w q) (sym g.new)
              (InPayload-more g.before (a.addr, g.size) g.behind q
                (subst (λ w. InPayload w q) g.old i)))
          ∙ a.becomes.keeps q (subst (λ w. InPayload w q) (sym ex) old);
      contents = λ i j.
          let le = copy_size-le size k in
          d.contents i j (
            subst (λ w. InPayload w (a.addr + 8 + i)) (sym g.new)
              (InPayload-at g.before a.addr g.size g.behind (a.addr + 8 + i) (omega arith)
                (omega (arith, le, g.large))))
          ∙ a.becomes.keeps (x + 8 + i) (
              subst (λ w. InPayload w (x + 8 + i)) (sym ex)
                (InPayload-at us x k vs (x + 8 + i) (omega arith) (omega (arith, le, px))));
    }

-- In a state that represents a heap, `realloc` of a block in use to size 0 frees the block, as the
-- policy does, and gives the null pointer; `realloc` of the null pointer to a positive size is
-- `malloc`.
pub realloc_edges :
    (s : State) (h : Heap) (us : List (Ptr × ℕ)) (x k : ℕ) (vs : List (Ptr × ℕ)) (size : ℕ)
    → Represents s h
    → used h.blocks ≡ us ++ (x, k) ∷ vs
    → ((s' : State) × (realloc (x + 8) 0 s ≡ ok null s')
        × Represents s' (release x h)
        × (used (release x h).blocks ≡ us ++ vs))
      × (0 < size → realloc null size s ≡ malloc size s)
unfolding realloc
realloc_edges s h us x k vs size v ex =
    let px = place s h us x k vs v ex in
    let d = free_refines s h px.left x k px.right v px.blocks in
    (
      (
        d.after,
        rw d.run,
        d.heap,
        d.same_used ∙ ap (λ w. w ++ used px.right) px.used_left ∙ ap (λ w. us ++ w) px.used_right,
      ),
      λ pos. rw (==-false size 0 (omega arith)),
    )
