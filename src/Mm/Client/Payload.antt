-- ===== src/Mm/Client/Payload.antt =====
-- The payloads of the blocks in use, as the client of the allocator sees them.
use malloc_for_c.Prelude.{
  ℕ, ◌+◌, ◌≤◌, ◌<◌, ◌≡◌, refl, sym, ap, ◌∙◌, subst, ◌⊎◌, inl, inr, true, List, [], ◌∷◌, ◌++◌,
  append_assoc,
}
use malloc_for_c.Memory.{Ptr, Mem}
use malloc_for_c.Machine.{State}
use malloc_for_c.Mm.Heap.{Block, block, used, InPayload, Keeps, Core}
use malloc_for_c.Mm.Heap.Cut.{Cut, cut}
use malloc_for_c.Mm.Heap.Payload.{payload_lem, used_block}
use malloc_for_c.Mm.Policy.{Heap, Represents}
use malloc_for_c.Mm.Alloc.Grant.{Granted}

-- The heap cut at a block in use.
pub record Place (s : State) (h : Heap) (us : List (Ptr × ℕ)) (p n : ℕ) (vs : List (Ptr × ℕ))
    : Type 0 where
  pub left : List Block
  pub right : List Block
  pub blocks : h.blocks ≡ left ++ block p n true ∷ right
  pub used_left : used left ≡ us
  pub used_right : used right ≡ vs
  pub at : Cut s left (block p n true) right

module _ (s : State) (h : Heap) (us : List (Ptr × ℕ)) (p n : ℕ) (vs : List (Ptr × ℕ))
    (v : Represents s h) (e : used h.blocks ≡ us ++ (p, n) ∷ vs) where
  pub place : Place s h us p n vs
  place =
      let (l, r, blocks, el, er) = used_block h.blocks us p n vs e in
      record {
        left = l;
        right = r;
        blocks = blocks;
        used_left = el;
        used_right = er;
        at = cut s l (block p n true) r h.list [] (subst (λ w. Core s w h.list []) blocks v.core);
      }

  -- Memory may change in the payload of a block in use.
  pub write_payload :
      (m : Mem)
      → ((a : ℕ) → (a < p + 8) ⊎ (p + n ≤ a + 8) → m a ≡ s.mem a)
      → Represents (record s { mem = m }) h × Keeps (us ++ vs) s.mem m
  write_payload m same =
      let g = place in
      let (core, keeps) =
        payload_lem s g.left p n g.right h.list m (subst (λ w. Core s w h.list []) g.blocks v.core)
          same in
      (
        record {
          core = subst (λ w. Core (record s { mem = m }) w h.list []) (sym g.blocks) core;
          coalesced = v.coalesced;
          last = v.last;
        },
        subst (λ w. Keeps (w ++ vs) s.mem m) g.used_left
            (subst (λ w. Keeps (used g.left ++ w) s.mem m) g.used_right keeps),
      )

-- Payload of one more block is payload.
pub InPayload-more :
    (u : List (Ptr × ℕ)) (e : Ptr × ℕ) (v : List (Ptr × ℕ)) (a : ℕ)
    → InPayload (u ++ v) a
    → InPayload (u ++ e ∷ v) a
InPayload-more [] e v a i = inr i
InPayload-more (f ∷ u) e v a (inl i) = inl i
InPayload-more (f ∷ u) e v a (inr i) = inr (InPayload-more u e v a i)

pub InPayload-at :
    (u : List (Ptr × ℕ)) (p n : ℕ) (v : List (Ptr × ℕ)) (a : ℕ)
    → p + 8 ≤ a
    → a + 8 < p + n
    → InPayload (u ++ (p, n) ∷ v) a
InPayload-at [] p n v a lo hi = inl (lo, hi)
InPayload-at (f ∷ u) p n v a lo hi = inr (InPayload-at u p n v a lo hi)

-- An entry of a list in two parts is in one of them.
entry_cases :
    {A : Type 0} (u : List A) (e : A) (v a b : List A)
    → u ++ e ∷ v ≡ a ++ b
    → ((w : List A) × (a ≡ u ++ e ∷ w) × (v ≡ w ++ b))
      ⊎ ((w : List A) × (b ≡ w ++ e ∷ v) × (u ≡ a ++ w))
entry_cases u e v [] b p = inr (u, sym p, refl)
entry_cases [] e v (c ∷ a) b p = let q : e ≡ c = cc in inl (a, ap (λ w. w ∷ a) (sym q), cc)
entry_cases (d ∷ u) e v (c ∷ a) b p =
    let q : d ≡ c = cc in
    elim (entry_cases u e v a b cc) [
      | inl x ↦ inl (x.0, rw q (ap (λ w. c ∷ w) x.1), x.2)
      | inr x ↦ inr (x.0, x.1, rw q (ap (λ w. c ∷ w) x.2))
    ]

-- Where a block is granted, the blocks of before are still in use, and without one of them the
-- block is granted all the same.
pub Granted-rest :
    (us us' : List (Ptr × ℕ)) (p n : ℕ) (u : List (Ptr × ℕ)) (e : Ptr × ℕ) (v : List (Ptr × ℕ))
    → Granted us us' p n
    → us ≡ u ++ e ∷ v
    → (u' : List (Ptr × ℕ)) × (v' : List (Ptr × ℕ)) × (us' ≡ u' ++ e ∷ v')
      × Granted (u ++ v) (u' ++ v') p n
Granted-rest us us' p n u e v g eq =
    let f : Ptr × ℕ = (p, g.size) in
    elim (entry_cases u e v g.before g.behind (sym eq ∙ g.old)) [
      | inl (w, ea, ev) ↦ (
        u,
        w ++ f ∷ g.behind,
        g.new ∙ ap (λ z. z ++ f ∷ g.behind) ea ∙ append_assoc u (e ∷ w) (f ∷ g.behind),
        record {
          before = u ++ w;
          behind = g.behind;
          size = g.size;
          old = ap (λ z. u ++ z) ev ∙ sym (append_assoc u w g.behind);
          new = sym (append_assoc u w (f ∷ g.behind));
          large = g.large;
          aligned = g.aligned;
        },
      )
      | inr (w, eb, eu) ↦ (
        g.before ++ f ∷ w,
        v,
        g.new ∙ ap (λ z. g.before ++ f ∷ z) eb ∙ sym (append_assoc g.before (f ∷ w) (e ∷ v)),
        record {
          before = g.before;
          behind = w ++ v;
          size = g.size;
          old = ap (λ z. z ++ v) eu ∙ append_assoc g.before w v;
          new = append_assoc g.before (f ∷ w) v;
          large = g.large;
          aligned = g.aligned;
        },
      )
    ]
