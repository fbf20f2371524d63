-- ===== src/Driver/Held.antt =====
-- The pointers of the live indices against the payloads in use: an operation of a trace moves both.
use malloc_for_c.Prelude.{
  ℕ, ◌+◌, ◌≤◌, ◌<◌, ◌≡◌, ◌≢◌, refl, sym, ◌∙◌, ap, subst, ◌⊎◌, inl, inr, List, [], ◌∷◌, ◌++◌, count,
  count_self, arith, ==-true, ==-false, eq_cases,
}
use malloc_for_c.Memory.{Ptr}
use malloc_for_c.Machine.{State}
use malloc_for_c.Mm.Heap.{Block, Tiled, used, InPayload}
use malloc_for_c.Mm.Policy.{Heap, Represents}
use malloc_for_c.Mm.Session.Payloads.{payloads}
use malloc_for_c.Driver.{set_at}

-- The block at `x`, of `k` bytes, is in use.
abbrev pub Has : List (Ptr × ℕ) → Ptr → ℕ → Type 0
Has [] x k = ⊥
Has ((p, n) ∷ us) x k = ((p ≡ x) × (n ≡ k)) ⊎ Has us x k

pub Has-more :
    (u : List (Ptr × ℕ)) (e : Ptr × ℕ) (v : List (Ptr × ℕ)) (x k : ℕ)
    → Has (u ++ v) x k
    → Has (u ++ e ∷ v) x k
Has-more [] e v x k h = inr h
Has-more (f ∷ u) e v x k (inl h) = inl h
Has-more (f ∷ u) e v x k (inr h) = inr (Has-more u e v x k h)

pub Has-here : (u : List (Ptr × ℕ)) (x k : ℕ) (v : List (Ptr × ℕ)) → Has (u ++ (x, k) ∷ v) x k
Has-here [] x k v = inl (refl, refl)
Has-here (f ∷ u) x k v = inr (Has-here u x k v)

pub Has-less :
    (u : List (Ptr × ℕ)) (p n : ℕ) (v : List (Ptr × ℕ)) (x k : ℕ)
    → p ≢ x
    → Has (u ++ (p, n) ∷ v) x k
    → Has (u ++ v) x k
Has-less [] p n v x k ne (inl h) = absurd (ne h.0)
Has-less [] p n v x k ne (inr h) = h
Has-less (f ∷ u) p n v x k ne (inl h) = inl h
Has-less (f ∷ u) p n v x k ne (inr h) = inr (Has-less u p n v x k ne h)

pub Has-split :
    (us : List (Ptr × ℕ)) (x k : ℕ)
    → Has us x k
    → (u : List (Ptr × ℕ)) × (v : List (Ptr × ℕ)) × (us ≡ u ++ (x, k) ∷ v)
Has-split [] x k h = absurd h
Has-split ((p, n) ∷ us) x k (inl h) = ([], us, rw (h.0, h.1) refl)
Has-split ((p, n) ∷ us) x k (inr h) =
    let (u, v, e) = Has-split us x k h in ((p, n) ∷ u, v, ap (λ w. (p, n) ∷ w) e)

pub Has-InPayload :
    (us : List (Ptr × ℕ)) (x k a : ℕ) → Has us x k → x + 8 ≤ a → a + 8 < x + k → InPayload us a
Has-InPayload [] x k a h lo hi = h
Has-InPayload ((p, n) ∷ us) x k a (inl h) lo hi = inl (omega (arith, h), omega (arith, h))
Has-InPayload ((p, n) ∷ us) x k a (inr h) lo hi = inr (Has-InPayload us x k a h lo hi)

-- Two blocks have two payloads.
payloads_low :
    (x p : Ptr) (bs : List Block) (q : Ptr)
    → Tiled p bs q
    → 0 < count x (payloads (used bs))
    → p + 8 ≤ x
payloads_low x p [] q t h = absurd (omega arith)
payloads_low x p (b ∷ bs) q t h = ground (arith, payloads_low x (p + b.size) bs q t.3)

pub payloads_once :
    (x p : Ptr) (bs : List Block) (q : Ptr) → Tiled p bs q → count x (payloads (used bs)) ≤ 1
payloads_once x p [] q t = omega arith
payloads_once x p (b ∷ bs) q t =
    ground (arith, payloads_once x (p + b.size) bs q t.3, payloads_low x (p + b.size) bs q t.3)

abbrev pub pointers : (ℕ → Ptr) → List ℕ → List Ptr
pointers blocks [] = []
pointers blocks (j ∷ live) = blocks j ∷ pointers blocks live

pub pointers-set :
    (i p : ℕ) (blocks : ℕ → ℕ) (live : List ℕ)
    → count i live ≡ 0
    → pointers (set_at i p blocks) live ≡ pointers blocks live
pointers-set i p blocks [] h = refl
pointers-set i p blocks (j ∷ live) h =
    let ne : j ≢ i = λ e. omega (arith, count_self i live, ap (λ w. count i (w ∷ live)) e) in
    rw (==-false j i ne, pointers-set i p blocks live (omega arith))

pub pointers-add :
    (i p : ℕ) (blocks : ℕ → ℕ) (live : List ℕ)
    → count i live ≡ 0
    → pointers (set_at i p blocks) (i ∷ live) ≡ p ∷ pointers blocks live
pointers-add i p blocks live h = rw (==-true i i refl, pointers-set i p blocks live h)

pub pointers-middle :
    (x : Ptr) (blocks : ℕ → Ptr) (l : List ℕ) (i : ℕ) (r : List ℕ)
    → count x (pointers blocks (l ++ i ∷ r)) ≡ count x (blocks i ∷ pointers blocks (l ++ r))
pointers-middle x blocks [] i r = refl
pointers-middle x blocks (j ∷ l) i r = ground (arith, pointers-middle x blocks l i r)

pub pointer_in :
    (blocks : ℕ → Ptr) (j : ℕ) (live : List ℕ)
    → 0 < count j live
    → 0 < count (blocks j) (pointers blocks live)
pointer_in blocks j [] h = absurd (omega arith)
pointer_in blocks j (i ∷ live) h = elim (eq_cases j i) [
  | inl here ↦
      subst (λ w. 0 < count (blocks j) (blocks w ∷ pointers blocks live)) here
        (omega (arith, count_self (blocks j) (pointers blocks live)))
  | inr there ↦ omega (arith, pointer_in blocks j live (ground arith))
]

-- The pointers of the indices are the payloads of the blocks.
abbrev pub PointersHeld : (ℕ → Ptr) → List ℕ → List (Ptr × ℕ) → Type 0
PointersHeld blocks live us = (x : Ptr) → count x (pointers blocks live) ≡ count x (payloads us)

-- No two blocks have one payload.
abbrev pub OnceEach : List (Ptr × ℕ) → Type 0
OnceEach us = (x : Ptr) → count x (payloads us) ≤ 1

-- So for the blocks in use of a heap.
pub used-OnceEach : (s : State) (h : Heap) → Represents s h → OnceEach (used h.blocks)
used-OnceEach s h v x = payloads_once x (s.heap + 24) h.blocks s.mm_heap_last v.core.tiled

module _ (us : List (Ptr × ℕ)) (once : OnceEach us) (blocks : ℕ → Ptr) (l : List ℕ) (index : ℕ)
    (r : List ℕ) (held : PointersHeld blocks (l ++ index ∷ r) us) where
  -- The other blocks are at other addresses.
  pub other_address : (j : ℕ) → 0 < count j (l ++ r) → blocks j ≢ blocks index
  other_address j p e = omega (
    arith,
    held (blocks index),
    pointers-middle (blocks index) blocks l index r,
    count_self (blocks index) (pointers blocks (l ++ r)),
    once (blocks index),
    pointer_in blocks j (l ++ r) p,
    ap (λ w. count w (pointers blocks (l ++ r))) e,
  )

  pub listed_once : count index (l ++ r) ≡ 0
  listed_once = elim (eq_cases (count index (l ++ r)) 0) [
    | inl none ↦ none
    | inr more ↦ absurd (other_address index (omega arith) refl)
  ]

-- An index that is neither live nor stale has a null pointer and no bytes.
abbrev pub Clean : ℕ → List ℕ → List ℕ → (ℕ → Ptr) → (ℕ → ℕ) → Type 0
Clean num_ids live stale blocks sizes =
    (j : ℕ) → j < num_ids → count j live ≡ 0 → count j stale ≡ 0 → (blocks j ≡ 0) × (sizes j ≡ 0)

-- An operation on one index keeps that of the others.
pub Clean-step :
    (num_ids : ℕ) (live stale live' stale' : List ℕ) (index : ℕ)
    (blocks sizes blocks' sizes' : ℕ → ℕ)
    → Clean num_ids live stale blocks sizes
    → ((j : ℕ) → j ≢ index → (blocks' j ≡ blocks j) × (sizes' j ≡ sizes j))
    → ((j : ℕ)
        → j ≢ index
        → count j live' ≡ 0
        → count j stale' ≡ 0
        → (count j live ≡ 0) × (count j stale ≡ 0))
    → (count index live' ≡ 0 → count index stale' ≡ 0 → (blocks' index ≡ 0) × (sizes' index ≡ 0))
    → Clean num_ids live' stale' blocks' sizes'
Clean-step num_ids live stale live' stale' index blocks sizes blocks' sizes' c same out at j lt
      none_live none_stale =
    elim (eq_cases j index) [
      | inl here ↦
          subst (λ w. (blocks' w ≡ 0) × (sizes' w ≡ 0)) (sym here)
            (at (subst (λ w. count w live' ≡ 0) here none_live)
              (subst (λ w. count w stale' ≡ 0) here none_stale))
      | inr there ↦
          let old = out j there none_live none_stale in
          let was = c j lt old.0 old.1 in let e = same j there in (e.0 ∙ was.0, e.1 ∙ was.1)
    ]
