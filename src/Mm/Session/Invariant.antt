-- ===== src/Mm/Session/Invariant.antt =====
-- The states that a client reaches, step by step.
use malloc_for_c.Prelude.{
  ℕ, ◌+◌, ◌*◌, ◌≤◌, ◌<◌, ◌≡◌, ◌≢◌, refl, sym, ap, ◌∙◌, subst, inl, inr, true, List, [], ◌∷◌, ◌++◌,
  count, count_self, arith, eq_cases,
}
use malloc_for_c.Memory.{Ptr, Mem}
use malloc_for_c.Machine.{State, ok}
use malloc_for_c.Mm.Block.{get_size}
use malloc_for_c.Mm.Block.Access.{get_size-ok}
use malloc_for_c.Mm.Heap.{used}
use malloc_for_c.Mm.Heap.Cut.{Cut-Room}
use malloc_for_c.Mm.Policy.{Heap, release, Represents}
use malloc_for_c.Mm.Alloc.{malloc}
use malloc_for_c.Mm.Alloc.Init.{started, no_blocks, mm_init_lem}
use malloc_for_c.Mm.Alloc.Grant.{Granted, malloc_grants}
use malloc_for_c.Mm.Free.{free}
use malloc_for_c.Mm.Free.Release.{free_refines}
use malloc_for_c.Mm.Client.{realloc, calloc}
use malloc_for_c.Mm.Client.Payload.{place, write_payload}
use malloc_for_c.Mm.Client.Realloc.{realloc_moves}
use malloc_for_c.Mm.Client.Calloc.{calloc_clears}
use malloc_for_c.Mm.Session.{
  Request, Reach, start, after_malloc, after_calloc, after_realloc, after_free, after_write,
}
use malloc_for_c.Mm.Session.Payloads.{payloads, count-insert, count-middle, payload_entry}

-- The state represents a heap, and the client holds the payloads of its blocks in use.
pub record Holds (s : State) (live : List Ptr) : Type 0 where
  pub policy : Heap
  pub heap : Represents s policy
  pub held : (x : Ptr) → count x live ≡ count x (payloads (used policy.blocks))

-- A command has one result.
ok-injective : {A : Type 0} (a b : A) (s t : State) → ok a s ≡ ok b t → (a ≡ b) × (s ≡ t)
ok-injective a b s t e = (cc, cc)

held-Granted :
    (live : List Ptr) (us us' : List (Ptr × ℕ)) (p n : ℕ)
    → ((x : Ptr) → count x live ≡ count x (payloads us))
    → Granted us us' p n
    → (x : Ptr) → count x ((p + 8) ∷ live) ≡ count x (payloads us')
held-Granted live us us' p n held g x = omega (
  arith,
  held x,
  ap (λ w. count x (payloads w)) g.old,
  ap (λ w. count x (payloads w)) g.new,
  count-insert x g.before p g.size g.behind,
)

-- A pointer that the client holds is the payload of a block in use, and the others are those of the
-- other blocks.
pub record Owned (h : Heap) (l : List Ptr) (q : Ptr) (r : List Ptr) : Type 0 where
  pub before : List (Ptr × ℕ)
  pub addr : Ptr
  pub size : ℕ
  pub behind : List (Ptr × ℕ)
  pub entry : used h.blocks ≡ before ++ (addr, size) ∷ behind
  pub pointer : q ≡ addr + 8
  pub others : (x : Ptr) → count x (l ++ r) ≡ count x (payloads (before ++ behind))

pub owned :
    (s : State) (l : List Ptr) (q : Ptr) (r : List Ptr) (i : Holds s (l ++ q ∷ r))
    → Owned i.policy l q r
owned s l q r i =
    let (u, x, k, v, e, f) =
      payload_entry q (used i.policy.blocks)
        (omega (arith, i.held q, count-middle q l q r, count_self q (l ++ r))) in
    record {
      before = u;
      addr = x;
      size = k;
      behind = v;
      entry = e;
      pointer = f;
      others = λ y. omega (
        arith,
        i.held y,
        count-middle y l q r,
        ap (λ w. count y (payloads w)) e,
        count-insert y u x k v,
        ap (λ w. count y (w ∷ (l ++ r))) f,
      );
    }

malloc-Holds :
    (s s' : State) (live : List Ptr) (p : Ptr) (size : ℕ)
    → Holds s live
    → Request s size
    → malloc size s ≡ ok p s'
    → Holds s' (p ∷ live)
malloc-Holds s s' live p size i q run =
    let a = malloc_grants s i.policy size i.heap q.positive q.small (λ e. q.space) in
    let (same, after) = ok-injective (a.addr + 8) p a.after s' (sym a.run ∙ run) in
    subst (λ w. Holds w (p ∷ live)) after
      (subst (λ w. Holds a.after (w ∷ live)) same
        (record {
          policy = a.new;
          heap = a.becomes.heap;
          held =
              held-Granted live (used i.policy.blocks) (used a.new.blocks) a.addr (size + 16) i.held
                a.granted;
        }))

calloc-Holds :
    (s s' : State) (live : List Ptr) (p : Ptr) (n size : ℕ)
    → Holds s live
    → Request s (n * size)
    → calloc n size s ≡ ok p s'
    → Holds s' (p ∷ live)
calloc-Holds s s' live p n size i q run =
    let a = calloc_clears s i.policy n size i.heap q.positive q.small (λ e. q.space) in
    let (same, after) = ok-injective (a.addr + 8) p a.after s' (sym a.run ∙ run) in
    subst (λ w. Holds w (p ∷ live)) after
      (subst (λ w. Holds a.after (w ∷ live)) same
        (record {
          policy = a.new;
          heap = a.heap;
          held =
              held-Granted live (used i.policy.blocks) (used a.new.blocks) a.addr (n * size + 16)
                i.held a.granted;
        }))

realloc-Holds :
    (s s' : State) (l : List Ptr) (old : Ptr) (r : List Ptr) (p : Ptr) (size : ℕ)
    → Holds s (l ++ old ∷ r)
    → Request s size
    → realloc old size s ≡ ok p s'
    → Holds s' (p ∷ l ++ r)
realloc-Holds s s' l old r p size i q run =
    let o = owned s l old r i in
    let a =
      realloc_moves s i.policy o.before o.addr o.size o.behind size i.heap o.entry q.positive
        q.small (λ e. q.space) in
    let (same, after) =
      ok-injective (a.addr + 8) p a.after s'
        (sym a.run ∙ ap (λ w. realloc w size s) (sym o.pointer) ∙ run) in
    subst (λ w. Holds w (p ∷ l ++ r)) after
      (subst (λ w. Holds a.after (w ∷ l ++ r)) same
        (record {
          policy = a.new;
          heap = a.heap;
          held =
              held-Granted (l ++ r) (o.before ++ o.behind) (used a.new.blocks) a.addr (size + 16)
                o.others a.granted;
        }))

-- The client may give back what it holds.
pub record Freed (s : State) (l : List Ptr) (q : Ptr) (r : List Ptr) : Type 0 where
  pub after : State
  pub run : free q s ≡ ok tt after
  pub holds : Holds after (l ++ r)

-- In a state that represents a heap whose blocks in use are those that the client holds, `free` of
-- one of its pointers runs to its end, and the same holds afterwards for the other pointers.
pub free_held :
    (s : State) (l : List Ptr) (q : Ptr) (r : List Ptr) → Holds s (l ++ q ∷ r) → Freed s l q r
free_held s l q r i =
    let o = owned s l q r i in
    let g = place s i.policy o.before o.addr o.size o.behind i.heap o.entry in
    let d = free_refines s i.policy g.left o.addr o.size g.right i.heap g.blocks in
    record {
      after = d.after;
      run = ap (λ w. free w s) o.pointer ∙ d.run;
      holds = record {
        policy = release o.addr i.policy;
        heap = d.heap;
        held = λ x. omega (
          arith,
          o.others x,
          ap (λ w. count x (payloads w))
              (d.same_used
                ∙ ap (λ w. w ++ used g.right) g.used_left
                ∙ ap (λ w. o.before ++ w) g.used_right),
        );
      };
    }

write-Holds :
    (s : State) (l : List Ptr) (x k : Ptr) (r : List Ptr) (m : Mem)
    → Holds s (l ++ (x + 8) ∷ r)
    → get_size x s ≡ ok k s
    → ((a : ℕ) → m a ≢ s.mem a → (x + 8 ≤ a) × (a + 8 < x + k))
    → Holds (record s { mem = m }) (l ++ (x + 8) ∷ r)
write-Holds s l x k r m i run inside =
    let o = owned s l (x + 8) r i in
    let here : o.addr ≡ x = omega (arith, o.pointer) in
    let at = (place s i.policy o.before o.addr o.size o.behind i.heap o.entry).at in
    let size : o.size ≡ k =
      (ok-injective o.size k s s (
        sym (get_size-ok o.addr o.size true s (Cut-Room at) at.header)
        ∙ ap (λ w. get_size w s) here
        ∙ run)).0 in
    let w = write_payload s i.policy o.before o.addr o.size o.behind i.heap o.entry m (λ a out.
      elim (eq_cases (m a) (s.mem a)) [
        | inl same ↦ same
        | inr change ↦ absurd (omega (arith, inside a change, out, here, size))
      ]) in
    record { policy = i.policy; heap = w.0; held = i.held }

-- Every state that a client reaches from `mm_init` on an empty heap area, by calls of `malloc`,
-- `calloc`, `realloc` and `free` and by writes into payloads, with positive requests that there is
-- space for, passing only pointers that it holds, represents a heap: tiled blocks with matching
-- tags, a doubly linked free list of exactly the free blocks, and no two free neighbours. The
-- payloads of its blocks in use are the pointers that the client holds.
pub Reach-Holds : (s : State) (live : List Ptr) → Reach s live → Holds s live
Reach-Holds s live (start {s = s₀} fresh run) =
    let (lem, v) = mm_init_lem s₀ fresh in
    let (_, after) = ok-injective 0 0 (started s₀) s (sym lem ∙ run) in
    subst (λ w. Holds w []) after
      (record { policy = no_blocks (s₀.heap + 24); heap = v; held = λ x. refl })
Reach-Holds s live (after_malloc {s = s₀} {live = live₀} {p} size d q run) =
    malloc-Holds s₀ s live₀ p size (Reach-Holds s₀ live₀ d) q run
Reach-Holds s live (after_calloc {s = s₀} {live = live₀} {p} n size d q run) =
    calloc-Holds s₀ s live₀ p n size (Reach-Holds s₀ live₀ d) q run
Reach-Holds s live (after_realloc {s = s₀} {p} l old r size d q run) =
    realloc-Holds s₀ s l old r p size (Reach-Holds s₀ (l ++ old ∷ r) d) q run
Reach-Holds s live (after_free {s = s₀} l p r d run) =
    let f = free_held s₀ l p r (Reach-Holds s₀ (l ++ p ∷ r) d) in
    let (_, after) = ok-injective tt tt f.after s (sym f.run ∙ run) in
    subst (λ w. Holds w (l ++ r)) after f.holds
Reach-Holds s live (after_write {s = s₀} l x k r m d run inside) =
    write-Holds s₀ l x k r m (Reach-Holds s₀ (l ++ (x + 8) ∷ r) d) run inside
