-- ===== src/Mm/FreeList/Append.antt =====
-- `block_append` puts a block in front of the free list.
use malloc_for_c.Prelude.{◌+◌, ◌<◌, ◌≡◌, ◌∙◌, List, [], ◌∷◌, arith, count, count_self, ==-false}
use malloc_for_c.Memory.{Ptr, Mem, null, put}
use malloc_for_c.Memory.Words.{word-put_self, word-put_off, put-byte_off}
use malloc_for_c.Machine.{State, ok}
use malloc_for_c.Mm.FreeList.{block_append}
use malloc_for_c.Mm.FreeList.Links.{
  Fits, Node, set_next-ok, set_prev-ok, first_or, Seg, Spread, SameOff, Seg-put,
}

-- The memory that `block_append` leaves.
abbrev append_mem : Mem → Ptr → List Ptr → Mem
append_mem m x [] = put (put m (x + 8) null) (x + 16) null
append_mem m x (h ∷ t) = put (put (put m (x + 8) h) (h + 16) x) (x + 16) null

module _ (x : Ptr) (s : State) (f : Fits s) (n : Node s x) where
  append-run :
      (fs : List Ptr)
      → ((y : Ptr) → 0 < count y fs → Node s y)
      → s.mm_free_head ≡ first_or null fs
      → block_append x s ≡ ok tt (record s { mem = append_mem s.mem x fs; mm_free_head = x })
  unfolding block_append
  append-run [] nodes e = rw (
    set_next-ok x s f n s.mm_free_head,
    e,
    set_prev-ok x (record s { mem = put s.mem (x + 8) null; mm_free_head = null }) (omega arith)
        (omega arith) null,
  )
  append-run (h ∷ t) nodes e =
      let nh : Node s h = nodes h (omega (arith, count_self h t)) in
      rw (
        set_next-ok x s f n s.mm_free_head,
        e,
        ==-false h null (omega arith),
        set_prev-ok h (record s { mem = put s.mem (x + 8) h; mm_free_head = h }) (omega arith)
            (omega arith) x,
        set_prev-ok x (record s { mem = put (put s.mem (x + 8) h) (h + 16) x; mm_free_head = h })
            (omega arith) (omega arith) null,
      )

  append-Seg :
      (fs : List Ptr)
      → ((y : Ptr) → 0 < count y fs → Node s y)
      → Spread (x ∷ fs)
      → Seg s.mem null fs null
      → Seg (append_mem s.mem x fs) null (x ∷ fs) null
  append-Seg [] nodes sp l = (
    word-put_off _ (x + 16) null (x + 8) (omega arith)
        ∙ word-put_self s.mem (x + 8) null (omega arith),
    word-put_self _ (x + 16) null (omega arith),
    tt,
  )
  append-Seg (h ∷ t) nodes sp l =
      let nh : Node s h = nodes h (omega (arith, count_self h t)) in
      let xh = sp.0 h (omega (arith, count_self h t)) in
      let m₁ : Mem = put s.mem (x + 8) h in
      let m₂ : Mem = put m₁ (h + 16) x in
      (
        word-put_off m₂ (x + 16) null (x + 8) (omega arith)
            ∙ word-put_off m₁ (h + 16) x (x + 8) (omega arith)
            ∙ word-put_self s.mem (x + 8) h (omega arith),
        word-put_self m₂ (x + 16) null (omega arith),
        (
          word-put_off m₂ (x + 16) null (h + 8) (omega arith)
              ∙ word-put_off m₁ (h + 16) x (h + 8) (omega arith)
              ∙ word-put_off s.mem (x + 8) h (h + 8) (omega arith)
              ∙ l.0,
          word-put_off m₂ (x + 16) null (h + 16) (omega arith)
              ∙ word-put_self m₁ (h + 16) x (omega arith),
          Seg-put m₂ (x + 16) null h t null (λ y p. omega (arith, sp.0 y (ground arith)))
              (Seg-put m₁ (h + 16) x h t null (λ y p. omega (arith, sp.1.0 y p))
                (Seg-put s.mem (x + 8) h h t null (λ y p. omega (arith, sp.0 y (ground arith)))
                  l.2)),
        ),
      )

  append-SameOff : (fs : List Ptr) → SameOff (x ∷ fs) s.mem (append_mem s.mem x fs)
  append-SameOff [] a off =
      let o = off x (omega (arith, count_self x [])) in
      put-byte_off _ (x + 16) null a (omega arith) ∙ put-byte_off s.mem (x + 8) null a (omega arith)
  append-SameOff (h ∷ t) a off =
      let o = off x (omega (arith, count_self x (h ∷ t))) in
      let oh = off h (ground (arith, count_self h t)) in
      put-byte_off _ (x + 16) null a (omega arith)
      ∙ put-byte_off _ (h + 16) x a (omega arith)
      ∙ put-byte_off s.mem (x + 8) h a (omega arith)

-- `block_append` puts a block in front of a well-linked free list of mapped nodes that do not
-- overlap, and writes no other byte than the link words of the listed blocks.
pub block_append_lem :
    (x : Ptr) (s : State) (fs : List Ptr)
    → Fits s
    → ((y : Ptr) → 0 < count y (x ∷ fs) → Node s y)
    → Spread (x ∷ fs)
    → Seg s.mem null fs null
    → s.mm_free_head ≡ first_or null fs
    → (m : Mem) × (block_append x s ≡ ok tt (record s { mem = m; mm_free_head = x }))
      × Seg m null (x ∷ fs) null
      × SameOff (x ∷ fs) s.mem m
block_append_lem x s fs f nodes sp l e =
    let n : Node s x = nodes x (omega (arith, count_self x fs)) in
    let rest : (y : Ptr) → 0 < count y fs → Node s y = λ y p. nodes y (ground arith) in
    (
      append_mem s.mem x fs,
      append-run x s f n fs rest e,
      append-Seg x s f n fs rest sp l,
      append-SameOff x s f n fs,
    )
