-- ===== src/Mm/Heap/Payload.antt =====
-- The client may write the payload of an allocated block: the heap stays what it is.
use malloc_for_c.Prelude.{
  ℕ, ◌+◌, ◌-◌, ◌≤◌, ◌<◌, ◌≡◌, refl, ap, ◌∙◌, ◌⊎◌, inl, inr, true, List, [], ◌∷◌, ◌++◌, arith,
  Bool-cases,
}
use malloc_for_c.Memory.{Ptr, Mem}
use malloc_for_c.Memory.Words.{word-same}
use malloc_for_c.Machine.{State}
use malloc_for_c.Mm.Heap.{Block, block, used, Keeps, Core}
use malloc_for_c.Mm.Heap.Replace.{replace_lem}
use malloc_for_c.Mm.Heap.Cut.{cut}

pub payload_lem :
    (s : State) (l : List Block) (p k : ℕ) (r : List Block) (fs : List Ptr) (m : Mem)
    → Core s (l ++ block p k true ∷ r) fs []
    → ((a : ℕ) → (a < p + 8) ⊎ (p + k ≤ a + 8) → m a ≡ s.mem a)
    → Core (record s { mem = m }) (l ++ block p k true ∷ r) fs [] × Keeps (used l ++ used r) s.mem m
payload_lem s l p k r fs m c same =
    let g = cut s l (block p k true) r fs [] c in
    replace_lem s l (block p k true ∷ []) (block p k true ∷ []) r fs [] [] m p (p + k) c g.left
      (refl, g.large, g.even, refl) g.right (λ a h. same a (omega arith)) (λ x h. refl) (λ x. refl)
      (
        word-same s.mem m p (λ a lo hi. same a (omega arith)) ∙ g.header,
        word-same s.mem m (p + (k - 8)) (λ a lo hi. same a (omega (arith, g))) ∙ g.footer,
        tt,
      )

-- An entry among the blocks in use is an allocated block of the row.
abbrev pub Entry : List Block → List (Ptr × ℕ) → Ptr → ℕ → List (Ptr × ℕ) → Type 0
Entry bs us p n vs =
    (l : List Block) × (r : List Block) × (bs ≡ l ++ block p n true ∷ r)
    × (used l ≡ us)
    × (used r ≡ vs)

Entry-here :
    (b : Block) (bs : List Block) (p n : ℕ) (vs : List (Ptr × ℕ))
    → b.alloc ≡ true
    → (b.addr, b.size) ∷ used bs ≡ (p, n) ∷ vs
    → Entry (b ∷ bs) [] p n vs
Entry-here b bs p n vs busy e =
    let same : b ≡ block p n true = cc in ([], bs, ap (λ w. w ∷ bs) same, refl, cc)

pub used_block :
    (bs : List Block) (us : List (Ptr × ℕ)) (p n : ℕ) (vs : List (Ptr × ℕ))
    → used bs ≡ us ++ (p, n) ∷ vs
    → Entry bs us p n vs
used_block [] [] p n vs e = cc
used_block [] (u ∷ us) p n vs e = cc
used_block (b ∷ bs) [] p n vs e = elim (Bool-cases b.alloc) [
  | inl busy ↦ Entry-here b bs p n vs busy (rw busy at e)
  | inr idle ↦
      let (l, r, eb, el, er) = used_block bs [] p n vs (rw idle at e) in
      (b ∷ l, r, ap (λ w. b ∷ w) eb, rw idle el, er)
]
used_block (b ∷ bs) (u ∷ us) p n vs e = elim (Bool-cases b.alloc) [
  | inl busy ↦
      let e' : (b.addr, b.size) ∷ used bs ≡ u ∷ us ++ (p, n) ∷ vs = rw busy at e in
      let (l, r, eb, el, er) = used_block bs us p n vs cc in
      let same : (b.addr, b.size) ≡ u = cc in
      (b ∷ l, r, ap (λ w. b ∷ w) eb, rw (busy, same, el) refl, er)
  | inr idle ↦
      let (l, r, eb, el, er) = used_block bs (u ∷ us) p n vs (rw idle at e) in
      (b ∷ l, r, ap (λ w. b ∷ w) eb, rw idle el, er)
]
