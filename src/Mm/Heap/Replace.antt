-- ===== src/Mm/Heap/Replace.antt =====
-- A stretch of the heap is cut into other blocks: what lies outside it is kept.
use malloc_for_c.Prelude.{ℕ, ◌+◌, ◌≤◌, ◌<◌, ◌≡◌, ◌⊎◌, inl, inr, List, ◌++◌, arith, count}
use malloc_for_c.Memory.{Ptr, Mem, null}
use malloc_for_c.Machine.{State}
use malloc_for_c.Mm.FreeList.Links.{Seg, Seg-same}
use malloc_for_c.Mm.Heap.{Block, Tiled, Tags, used, Keeps, Core}
use malloc_for_c.Mm.Heap.Tiling.{Tiled-append, free_count, free_bounds, free_count-append}
use malloc_for_c.Mm.Heap.Frame.{
  Tags-append, Tags-split, Tags-same, InPayload-bounds, InPayload-append,
}

-- The blocks `os` between `p` and `q` become the blocks `cs`, by a change of memory inside.
module _ (s : State) (l os cs r : List Block) (fs out out' : List Ptr) (m : Mem) (p q : Ptr)
    (c : Core s (l ++ (os ++ r)) fs out) (tl : Tiled (s.heap + 24) l p) (tc : Tiled p cs q)
    (tr : Tiled q r s.mm_heap_last) (same : (a : ℕ) → (a < p) ⊎ (q ≤ a) → m a ≡ s.mem a) where
  -- The links of the listed blocks lie outside, if none of `os` is listed.
  replace-Seg : ((x : Ptr) → 0 < count x fs → free_count x os ≡ 0) → Seg m null fs null
  replace-Seg unlisted =
      Seg-same s.mem m null fs null
        (λ a x h lo hi. same a (
          ground (
            arith,
            c.listed x,
            free_count-append x l (os ++ r),
            free_count-append x os r,
            unlisted x h,
            free_bounds x (s.heap + 24) l p tl,
            free_bounds x q r s.mm_heap_last tr,
          )))
        c.links

  pub replace_lem :
      ((x : Ptr) → 0 < count x fs → free_count x os ≡ 0)
      → ((x : Ptr) → count x out' + free_count x os ≡ count x out + free_count x cs)
      → Tags m cs
      → Core (record s { mem = m }) (l ++ (cs ++ r)) fs out' × Keeps (used l ++ used r) s.mem m
  replace_lem unlisted moved tags =
      let (gl, gor) = Tags-split s.mem l (os ++ r) c.tags in
      let gr = (Tags-split s.mem os r gor).1 in
      (
        record {
          fits = omega (arith, c.fits);
          aligned = c.aligned;
          first = c.first;
          brk = c.brk;
          room = c.room;
          tiled =
              Tiled-append (s.heap + 24) l p (cs ++ r) s.mm_heap_last tl
                (Tiled-append p cs q r s.mm_heap_last tc tr);
          tags =
              Tags-append m l (cs ++ r)
                (Tags-same s.mem m (s.heap + 24) l p tl (λ a lo hi. same a (inl hi)) gl)
                (Tags-append m cs r tags
                  (Tags-same s.mem m q r s.mm_heap_last tr (λ a lo hi. same a (inr lo)) gr));
          links = replace-Seg unlisted;
          head = c.head;
          listed = λ x. omega (
            arith,
            c.listed x,
            moved x,
            free_count-append x l (os ++ r),
            free_count-append x os r,
            free_count-append x l (cs ++ r),
            free_count-append x cs r,
          );
        },
        λ a i. same a (elim (InPayload-append a (used l) (used r) i) [
          | inl h ↦ inl (InPayload-bounds a (s.heap + 24) l p tl h).1
          | inr h ↦ inr (InPayload-bounds a q r s.mm_heap_last tr h).0
        ]),
      )
