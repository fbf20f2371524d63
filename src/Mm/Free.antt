-- ===== src/Mm/Free.antt =====
-- `coalesce_left`, `coalesce` and `free` of mm.c.
pub mod Merge
pub mod Left
pub mod Right
pub mod Release
use malloc_for_c.Prelude.{ℕ, Bool, true, false, not, ◌&&◌, ◌==◌, add64, if◌then◌else◌}
use malloc_for_c.Memory.{Ptr, null}
use malloc_for_c.Machine.{State, Cmd, ok, pure, get, ◌>>=◌, ◌>>◌, load}
use malloc_for_c.Mm.Block.{
  w_size, incr_pointer, decr_pointer, get_size_from_val, get_size, set_header, set_footer,
  is_allocated,
}
use malloc_for_c.Mm.FreeList.{block_append, block_remove}
use malloc_for_c.Mm.Alloc.{ensure_init}

-- The body of `coalesce_left` when the left neighbour is free.
unfoldable pub merge_left : Ptr → Ptr → Cmd Ptr
merge_left left_block block = do
  block_remove block
  block_remove left_block
  size ← get_size block
  left_size ← get_size left_block
  set_header left_block (add64 size left_size) false
  set_footer left_block
  block_append left_block
  pure left_block

unfoldable pub coalesce_left : Ptr → Cmd Ptr
unfolding merge_left incr_pointer decr_pointer get_size_from_val
coalesce_left block = do
  s ← get
  let left_footer_pt = decr_pointer w_size block
  if left_footer_pt == incr_pointer w_size s.mm_heap_first then pure block else (do
    left_footer ← load left_footer_pt
    let left_block = decr_pointer (get_size_from_val left_footer) block
    allocated ← is_allocated left_block
    if allocated then pure block else merge_left left_block block)

unfoldable pub coalesce : Ptr → Cmd (Unit {0})
unfolding coalesce_left incr_pointer
coalesce start = do
  block ← coalesce_left start
  block_size ← get_size block
  let right_block = incr_pointer block_size block
  s ← get
  if right_block == s.mm_heap_last then pure tt else (do
    allocated ← is_allocated right_block
    if allocated then pure tt else (do coalesce_left right_block; pure tt))

unfoldable pub free : Ptr → Cmd (Unit {0})
unfolding ensure_init coalesce decr_pointer
free ptr = do
  ensure_init
  if ptr == null then pure tt else (do
    let to_free = decr_pointer w_size ptr
    size ← get_size to_free
    set_header to_free size false
    set_footer to_free
    block_append to_free
    coalesce to_free)
