-- ===== src/Mm/Alloc/Obtain.antt =====
-- `find_fit`, and `create_space` where it finds nothing, against the policy.
use malloc_for_c.Prelude.{
  ℕ, ◌+◌, ◌%◌, ◌^◌, ◌≤◌, ◌<◌, ◌≡◌, refl, sym, ap, subst, inl, inr, true, false, Option, none, some,
  List, [], ◌∷◌, ◌++◌, arith, count, count-append, count_self, leb-true, leb-false, ==-false, ◌==◌,
  if◌then◌else◌, lt_cases,
}
use malloc_for_c.Memory.{Ptr, null}
use malloc_for_c.Machine.{State, Cmd, Run, ok, pure, ◌>>=◌}
use malloc_for_c.Memlib.Break.{HasSpace}
use malloc_for_c.Mm.Alloc.{create_space, find_fit}
use malloc_for_c.Mm.Alloc.Extend.{grown, create_space_lem}
use malloc_for_c.Mm.Alloc.Search.{serve, find_fit_lem}
use malloc_for_c.Mm.Heap.{Block, block, Core, Coalesced}
use malloc_for_c.Mm.Heap.Tiling.{Tiled-le, free_count, free_bounds}
use malloc_for_c.Mm.Heap.Relink.{listed_free, free-Node}
use malloc_for_c.Mm.Heap.Neighbours.{Coalesced-last}
use malloc_for_c.Mm.Heap.Cut.{cut, free_block}
use malloc_for_c.Mm.Policy.{Heap, size_at, first_fit, hand_out, grow, obtain, Represents}
use malloc_for_c.Mm.Policy.Cut.{size_at-cut}
use malloc_for_c.Mm.Alloc.Serve.{Becomes, heap_of, serve_lem}

-- The first fit is in the list, and large enough.
pub first_fit-some :
    (bs : List Block) (n : ℕ) (fs : List Ptr) (x : Ptr)
    → first_fit bs n fs ≡ some x
    → (l : List Ptr) × (r : List Ptr) × (fs ≡ l ++ x ∷ r) × (n ≤ size_at x bs)
unfolding first_fit
first_fit-some bs n [] x e = cc
first_fit-some bs n (y ∷ ys) x e = elim (lt_cases (size_at y bs) n) [
  | inl small ↦
      let (l, r, p, q) = first_fit-some bs n ys x (rw (leb-false n (size_at y bs) small) at e) in
      (y ∷ l, r, ap (λ w. y ∷ w) p, q)
  | inr large ↦
      let same : y ≡ x = ground (arith, leb-true n (size_at y bs) large) in
      ([], ys, ap (λ w. w ∷ ys) same, subst (λ w. n ≤ size_at w bs) same large)
]

-- A listed block that is large enough is handed out, wherever it stands.
module _ (s : State) (n x : ℕ) (least : 32 ≤ n) (even : n % 16 ≡ 0) where
  abbrev ServedAt : List Block → List Ptr → Type 0
  ServedAt bs fs =
      Core s bs fs []
      → Coalesced bs
      → n ≤ size_at x bs
      → (s' : State) × (serve n bs (some x) s ≡ ok x s')
        × Becomes s (heap_of bs fs s.mm_heap_last) s' (hand_out n x (heap_of bs fs s.mm_heap_last))

  serve-blocks :
      (bs : List Block) (fl fr : List Ptr) → 0 < free_count x bs → ServedAt bs (fl ++ x ∷ fr)
  serve-blocks bs fl fr f =
      let (l, k, r, blocks) = free_block x bs f in
      subst (λ w. ServedAt w (fl ++ x ∷ fr)) (sym blocks)
        (λ c co large.
          let g = cut s l (block x k false) r (fl ++ x ∷ fr) [] c in
          let exact = size_at-cut (s.heap + 24) l (block x k false) r g.left in
          serve_lem s l r x k fl fr n c co least even (rw exact at large))

  pub serve_at : (bs : List Block) (fs fl fr : List Ptr) → fs ≡ fl ++ x ∷ fr → ServedAt bs fs
  serve_at bs fs fl fr e =
      subst (λ w. ServedAt bs w) (sym e)
        (λ c.
          serve-blocks bs fl fr
            (listed_free s bs (fl ++ x ∷ fr) [] c x
              (omega (arith, count-append x fl (x ∷ fr), count_self x fr)))
            c)

-- `find_fit`, then `create_space` if it has found nothing.
abbrev pub obtain_cmd : ℕ → Cmd Ptr
obtain_cmd n = do fit ← find_fit n; if fit == null then create_space n else pure fit

abbrev pub Obtained : ℕ → State → Heap → Run Ptr → Type 0
Obtained n s h run =
    (s' : State) × (run ≡ ok (obtain n h).0 s')
    × Becomes s h s' (obtain n h).1
    × (s.heap + 24 ≤ (obtain n h).0)
    × ((obtain n h).0 + 24 ≤ s.mem_max_addr)

module _ (s : State) (bs : List Block) (fs : List Ptr) (n : ℕ) (c : Core s bs fs [])
    (co : Coalesced bs) (least : 32 ≤ n) (even : n % 16 ≡ 0) (lt : n + 32 < 2 ^ 64) where
  abbrev here : Heap
  here = heap_of bs fs s.mm_heap_last

  -- Where the list has a fit the heap is not extended.
  obtain-fit : (x : Ptr) → first_fit bs n fs ≡ some x → Obtained n s here (obtain_cmd n s)
  unfolding obtain
  obtain-fit x e =
      let (fl, fr, listed, large) = first_fit-some bs n fs x e in
      let (s', run, becomes) = serve_at s n x least even bs fs fl fr listed c co large in
      let f =
        listed_free s bs fs [] c x
          (omega (arith, ap (count x) listed, count-append x fl (x ∷ fr), count_self x fr)) in
      let node = free-Node s bs fs [] c x f in
      (
        s',
        rw (find_fit_lem s bs fs n c lt, e, run, ==-false x null (omega (arith, node, c.fits))),
        rw e becomes,
        rw e (free_bounds x (s.heap + 24) bs s.mm_heap_last c.tiled f).0,
        rw e node.below,
      )

  obtain-grow : HasSpace s n → first_fit bs n fs ≡ none → Obtained n s here (obtain_cmd n s)
  unfolding obtain grow
  obtain-grow space e =
      let (m, run, core, keeps) = create_space_lem s bs fs n c space least even in
      (
        grown s m n,
        rw (find_fit_lem s bs fs n c lt, e, run),
        rw e (record {
          heap = record {
            core = core;
            coalesced = Coalesced-last bs (block s.mm_heap_last n true) refl co;
            last = refl;
          };
          keeps = keeps;
          same_lo = refl;
          same_max = refl;
          same_first = refl;
        }),
        rw e (Tiled-le (s.heap + 24) bs s.mm_heap_last c.tiled),
        rw e (omega (arith, c.brk, space)),
      )

  obtain-any :
      (first_fit bs n fs ≡ none → HasSpace s n)
      → (o : Option Ptr) → first_fit bs n fs ≡ o
      → Obtained n s here (obtain_cmd n s)
  obtain-any space none e = obtain-grow (space e) e
  obtain-any space (some x) e = obtain-fit x e

-- The code obtains the block that the policy chooses.
pub obtain_lem :
    (s : State) (h : Heap) (n : ℕ)
    → Represents s h
    → 32 ≤ n
    → n % 16 ≡ 0
    → n + 32 < 2 ^ 64
    → (first_fit h.blocks n h.list ≡ none → HasSpace s n)
    → Obtained n s h (obtain_cmd n s)
obtain_lem s h n v least even lt space =
    subst (λ e. Obtained n s (heap_of h.blocks h.list e) (obtain_cmd n s)) v.last
      (obtain-any s h.blocks h.list n v.core v.coalesced least even lt space
        (first_fit h.blocks n h.list) refl)
