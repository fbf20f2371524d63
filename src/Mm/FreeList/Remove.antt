-- ===== src/Mm/FreeList/Remove.antt =====
-- `block_remove` takes a block out of the free list.
use malloc_for_c.Prelude.{
  ◌+◌, ◌≤◌, ◌<◌, ◌≡◌, ◌≢◌, refl, ◌∙◌, ◌⊎◌, List, [], ◌∷◌, ◌++◌, arith, count, count-append,
  count_self, ==-false, ==-true,
}
use malloc_for_c.Memory.{Ptr, Mem, null, put}
use malloc_for_c.Memory.Words.{put-byte_off}
use malloc_for_c.Machine.{State, ok}
use malloc_for_c.Mm.FreeList.{block_remove}
use malloc_for_c.Mm.FreeList.Links.{
  Fits, Node, get_next-ok, get_prev-ok, set_next-ok, set_prev-ok, first_or, last_or, Seg, Spread,
  SameOff, Seg-put, Seg-append, Seg-split,
}
use malloc_for_c.Mm.FreeList.Spread.{
  count-last, Spread-left, Spread-right, Spread-across, re_prev, retarget,
}

-- The memory that `block_remove` leaves when it unlinks the node between `l` and `r`.
abbrev remove_mem : Mem → List Ptr → List Ptr → Mem
remove_mem m [] [] = m
remove_mem m [] (y ∷ r) = put m (y + 16) null
remove_mem m (z ∷ l) [] = put m (last_or z l + 8) null
remove_mem m (z ∷ l) (y ∷ r) = put (put m (last_or z l + 8) y) (y + 16) (last_or z l)

module _ (x : Ptr) (s : State) (f : Fits s) where
  abbrev Nodes : List Ptr → List Ptr → Type 0
  Nodes l r = (y : Ptr) → 0 < count y (l ++ x ∷ r) → Node s y

  Node-self : (l r : List Ptr) → Nodes l r → Node s x
  Node-self l r nodes = nodes x (omega (arith, count-append x l (x ∷ r), count_self x r))

  right-Node : (l : List Ptr) (y : Ptr) (r : List Ptr) → Nodes l (y ∷ r) → Node s y
  right-Node l y r nodes = nodes y (ground (arith, count-append y l (x ∷ y ∷ r), count_self y r))

  last-Node : (z : Ptr) (l r : List Ptr) → Nodes (z ∷ l) r → Node s (last_or z l)
  last-Node z l r nodes =
      nodes (last_or z l)
        (omega (arith, count-append (last_or z l) (z ∷ l) (x ∷ r), count-last z l))

  -- The word that `block_remove` tests is not null when another node stands before `x`.
  second-ne : (z : Ptr) (l r : List Ptr) → Nodes (z ∷ l) r → first_or null (l ++ x ∷ r) ≢ null
  second-ne z [] r nodes h = let n = Node-self (z ∷ []) r nodes in omega arith
  second-ne z (y ∷ l) r nodes h =
      let n = nodes y (ground (arith, count_self y (l ++ x ∷ r))) in omega arith

  remove-run :
      (l r : List Ptr)
      → Nodes l r
      → Spread (l ++ x ∷ r)
      → Seg s.mem null (l ++ x ∷ r) null
      → s.mm_free_head ≡ first_or null (l ++ x ∷ r)
      → block_remove x s
        ≡ ok tt (record s { mem = remove_mem s.mem l r; mm_free_head = first_or null (l ++ r) })
  unfolding block_remove
  remove-run [] [] nodes sp links e = rw (
    e,
    get_next-ok x (record s { mm_free_head = x }) (omega arith)
        (omega (arith, Node-self [] [] nodes)),
    links.0,
    ==-true x x refl,
  )
  remove-run [] (y ∷ r) nodes sp links e =
      let n = Node-self [] (y ∷ r) nodes in
      let ny = right-Node [] y r nodes in
      let t : State = record s { mm_free_head = x } in
      rw (
        e,
        get_next-ok x t (omega arith) (omega arith),
        links.0,
        ==-false y null (omega arith),
        get_next-ok x t (omega arith) (omega arith),
        links.0,
        get_prev-ok x t (omega arith) (omega arith),
        ==-true x x refl,
        set_prev-ok y t (omega arith) (omega arith) null,
      )
  remove-run (z ∷ l) [] nodes sp links e =
      let n = Node-self (z ∷ l) [] nodes in
      let nz : Node s z = nodes z (omega (arith, count_self z (l ++ x ∷ []))) in
      let nl = last-Node z l [] nodes in
      let far =
        Spread-across (z ∷ l) (x ∷ []) sp z x (omega (arith, count_self z l))
          (omega (arith, count_self x [])) in
      let parts = Seg-split s.mem null (z ∷ l) (x ∷ []) null links in
      let t : State = record s { mm_free_head = z } in
      rw (
        e,
        get_next-ok z t (omega arith) (omega arith),
        links.0,
        ==-false (first_or null (l ++ x ∷ [])) null (second-ne z l [] nodes),
        get_next-ok x t (omega arith) (omega arith),
        parts.1.0,
        get_prev-ok x t (omega arith) (omega arith),
        parts.1.1,
        ==-false x z (omega arith),
        set_next-ok (last_or z l) t (omega arith) (omega arith) null,
      )
  remove-run (z ∷ l) (y ∷ r) nodes sp links e =
      let n = Node-self (z ∷ l) (y ∷ r) nodes in
      let nz : Node s z = nodes z (omega (arith, count_self z (l ++ x ∷ y ∷ r))) in
      let ny = right-Node (z ∷ l) y r nodes in
      let nl = last-Node z l (y ∷ r) nodes in
      let far =
        Spread-across (z ∷ l) (x ∷ y ∷ r) sp z x (omega (arith, count_self z l))
          (omega (arith, count_self x (y ∷ r))) in
      let parts = Seg-split s.mem null (z ∷ l) (x ∷ y ∷ r) null links in
      let t : State = record s { mm_free_head = z } in
      rw (
        e,
        get_next-ok z t (omega arith) (omega arith),
        links.0,
        ==-false (first_or null (l ++ x ∷ y ∷ r)) null (second-ne z l (y ∷ r) nodes),
        get_next-ok x t (omega arith) (omega arith),
        parts.1.0,
        get_prev-ok x t (omega arith) (omega arith),
        parts.1.1,
        ==-false x z (omega arith),
        set_next-ok (last_or z l) t (omega arith) (omega arith) y,
        ==-false y null (omega arith),
        set_prev-ok y (record t { mem = put s.mem (last_or z l + 8) y }) (omega arith) (omega arith)
            (last_or z l),
      )

  remove-Seg :
      (l r : List Ptr)
      → Nodes l r
      → Spread (l ++ x ∷ r)
      → Seg s.mem null (l ++ x ∷ r) null
      → Seg (remove_mem s.mem l r) null (l ++ r) null
  remove-Seg [] [] nodes sp links = tt
  remove-Seg [] (y ∷ r) nodes sp links = re_prev s.mem x null y r null sp.1 (omega arith) links.2
  remove-Seg (z ∷ l) [] nodes sp links =
      let parts = Seg-split s.mem null (z ∷ l) (x ∷ []) null links in
      Seg-append (remove_mem s.mem (z ∷ l) []) null (z ∷ l) [] null
        (retarget s.mem null z l x null (Spread-left (z ∷ l) (x ∷ []) sp) (omega arith) parts.0) tt
  remove-Seg (z ∷ l) (y ∷ r) nodes sp links =
      let across : (a b : Ptr)
          → 0 < count a (z ∷ l)
          → 0 < count b (y ∷ r)
          → (a + 16 ≤ b) ⊎ (b + 16 ≤ a) =
        λ a b p q. Spread-across (z ∷ l) (x ∷ y ∷ r) sp a b p (ground arith) in
      let nl = last-Node z l (y ∷ r) nodes in
      let ny = right-Node (z ∷ l) y r nodes in
      let w = last_or z l in
      let parts = Seg-split s.mem null (z ∷ l) (x ∷ y ∷ r) null links in
      let sr = (Spread-right (z ∷ l) (x ∷ y ∷ r) sp).1 in
      let m : Mem = put s.mem (w + 8) y in
      Seg-append (put m (y + 16) w) null (z ∷ l) (y ∷ r) null
        (Seg-put m (y + 16) w null (z ∷ l) y
          (λ a p. omega (arith, across a y p (omega (arith, count_self y r))))
          (retarget s.mem null z l x y (Spread-left (z ∷ l) (x ∷ y ∷ r) sp) (omega arith) parts.0))
        (re_prev m x w y r null sr (omega arith) (
          Seg-put s.mem (w + 8) y x (y ∷ r) null
            (λ b p. omega (arith, across w b (count-last z l) p)) parts.1.2))

  remove-SameOff : (l r : List Ptr) → SameOff (l ++ x ∷ r) s.mem (remove_mem s.mem l r)
  remove-SameOff [] [] a off = refl
  remove-SameOff [] (y ∷ r) a off =
      let o = off y (ground (arith, count_self y r)) in
      put-byte_off s.mem (y + 16) null a (omega arith)
  remove-SameOff (z ∷ l) [] a off =
      let w = last_or z l in
      let o = off w (omega (arith, count-last z l, count-append w (z ∷ l) (x ∷ []))) in
      put-byte_off s.mem (w + 8) null a (omega arith)
  remove-SameOff (z ∷ l) (y ∷ r) a off =
      let w = last_or z l in
      let o = off w (omega (arith, count-last z l, count-append w (z ∷ l) (x ∷ y ∷ r))) in
      let oy = off y (ground (arith, count_self y r, count-append y (z ∷ l) (x ∷ y ∷ r))) in
      put-byte_off _ (y + 16) w a (omega arith) ∙ put-byte_off s.mem (w + 8) y a (omega arith)

-- `block_remove` unlinks a block wherever it stands in a well-linked free list of mapped nodes that
-- do not overlap: the others stay linked in their order, the head is right, the `assert` does not
-- fail, and no other byte than the link words of the listed blocks is written.
pub block_remove_lem :
    (x : Ptr) (s : State) (l r : List Ptr)
    → Fits s
    → ((y : Ptr) → 0 < count y (l ++ x ∷ r) → Node s y)
    → Spread (l ++ x ∷ r)
    → Seg s.mem null (l ++ x ∷ r) null
    → s.mm_free_head ≡ first_or null (l ++ x ∷ r)
    → (m : Mem) × (block_remove x s
        ≡ ok tt (record s { mem = m; mm_free_head = first_or null (l ++ r) }))
      × Seg m null (l ++ r) null
      × SameOff (l ++ x ∷ r) s.mem m
block_remove_lem x s l r f nodes sp links e = (
  remove_mem s.mem l r,
  remove-run x s f l r nodes sp links e,
  remove-Seg x s f l r nodes sp links,
  remove-SameOff x s f l r,
)
