-- ===== src/Mm/Check.antt =====
-- `mm_checkheap` of mm.c, which walks over the blocks and over the free list and reports what is
-- wrong. The reports stand for the lines it prints.
pub mod Walk
pub mod Whole
use malloc_for_c.Prelude.{
  ℕ, zero, suc, ◌+◌, ◌-◌, ◌*◌, ◌%◌, ◌^◌, Bool, true, false, not, ◌||◌, List, [], ◌∷◌, ◌++◌, leb,
  ltb, ◌==◌, add64, sub64, if◌then◌else◌,
}
use malloc_for_c.Memory.{Ptr, null}
use malloc_for_c.Machine.{State, Cmd, ok, out_of_fuel, pure, get, ◌>>=◌, ◌>>◌, load}
use malloc_for_c.Memlib.{mem_heap_lo, mem_heap_hi}
use malloc_for_c.Mm.Block.{
  w_size, d_size, incr_pointer, decr_pointer, pointer_dif, get_size, get_footer_from_header,
  is_allocated, get_next, get_prev,
}

pub data Report : Type 0 where
  prologue_null : Report
  prologue_moved : Report
  epilogue_null : Report
  epilogue_moved : Report
  not_coalesced : Report
  size_unaligned : Report
  outside_heap : Report
  footer_differs : Report
  below_minimum : Report
  address_unaligned : Report
  prev_differs : Report
  free_outside_heap : Report
  list_too_long : Report
  list_too_short : Report

-- `if (bad) printf(...)`
abbrev pub report : Bool → Report → List Report
report bad r = if bad then r ∷ [] else []

-- The prologue and the epilogue.
unfoldable pub check_ends : Ptr → Ptr → State → List Report
unfolding incr_pointer decr_pointer
check_ends heap_lo heap_hi s =
    (if s.mm_heap_first == null
      then prologue_null ∷ []
      else report (not (s.mm_heap_first == incr_pointer w_size heap_lo)) prologue_moved)
    ++ (if s.mm_heap_last == null
        then epilogue_null ∷ []
        else report (not (s.mm_heap_last == decr_pointer (d_size - 1) heap_hi)) epilogue_moved)

-- Is `curr` free, and is it a free neighbour of `prev`? The first block has no `prev`, and is not
-- counted.
unfoldable pub check_neighbours : Ptr → Ptr → ℕ → Cmd (ℕ × List Report)
check_neighbours prev curr num_free = if prev == null then pure (num_free, []) else (do
  busy ← is_allocated curr
  if busy then pure (num_free, []) else (do
    prev_busy ← is_allocated prev
    pure (add64 num_free 1, report (not prev_busy) not_coalesced)))

-- The size of the block at `curr`, and what is wrong with the block itself.
unfoldable pub check_block : Ptr → Ptr → Ptr → Cmd (ℕ × List Report)
unfolding pointer_dif
check_block heap_lo heap_hi curr = do
  size ← get_size curr
  footer ← get_footer_from_header curr
  header_val ← load curr
  footer_val ← load footer
  s ← get
  pure (
    size,
    report (not (size % d_size == 0)) size_unaligned
        ++ report (ltb curr heap_lo || ltb heap_hi curr) outside_heap
        ++ report (not (header_val == footer_val)) footer_differs
        ++ report (ltb size (2 * d_size)) below_minimum
        ++ report (not (pointer_dif curr s.mm_heap_first % d_size == 0)) address_unaligned,
  )

-- The loop over the blocks, with how many free ones it has counted.
unfoldable pub check_blocks : ℕ → Ptr → Ptr → Ptr → Ptr → ℕ → Cmd (ℕ × List Report)
unfolding incr_pointer
check_blocks zero heap_lo heap_hi prev curr num_free = λ _. out_of_fuel
check_blocks (suc fuel) heap_lo heap_hi prev curr num_free = do
  s ← get
  if curr == s.mm_heap_last then pure (num_free, []) else (do
    counted ← check_neighbours prev curr num_free
    looked ← check_block heap_lo heap_hi curr
    rest ← check_blocks fuel heap_lo heap_hi curr (incr_pointer looked.0 curr) counted.0
    pure (rest.0, counted.1 ++ looked.1 ++ rest.1))

-- The loop over the free list, which counts down.
unfoldable pub check_list : ℕ → Ptr → Ptr → Ptr → Ptr → ℕ → Cmd (ℕ × List Report)
check_list zero heap_lo heap_hi prev curr num_free = λ _. out_of_fuel
check_list (suc fuel) heap_lo heap_hi prev curr num_free =
    if curr == null then pure (num_free, []) else (do
      back ← get_prev curr
      next ← get_next curr
      rest ← check_list fuel heap_lo heap_hi curr next (sub64 num_free 1)
      pure (
        rest.0,
        report (not (back == prev)) prev_differs
            ++ report (ltb curr heap_lo || ltb heap_hi curr) free_outside_heap
            ++ rest.1,
      ))

-- The sign of the `int64_t` that is left over.
unfoldable pub check_count : ℕ → List Report
check_count num_free =
    if leb (2 ^ 63) num_free
    then list_too_long ∷ []
    else report (not (num_free == 0)) list_too_short

-- Each loop visits another block in each round, if the heap is well formed.
unfoldable pub mm_checkheap : Cmd (List Report)
unfolding incr_pointer
mm_checkheap = do
  heap_lo ← mem_heap_lo
  heap_hi ← mem_heap_hi
  s ← get
  let fuel = s.mem_brk - s.heap + 1
  blocks ← check_blocks fuel heap_lo heap_hi null (incr_pointer d_size s.mm_heap_first) 0
  list ←
      if s.mm_free_head == null
      then pure (blocks.0, [])
      else check_list fuel heap_lo heap_hi null s.mm_free_head blocks.0
  pure (check_ends heap_lo heap_hi s ++ blocks.1 ++ list.1 ++ check_count list.0)
