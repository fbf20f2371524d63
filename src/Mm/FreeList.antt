-- ===== src/Mm/FreeList.antt =====
-- `block_append` and `block_remove` of mm.c: the doubly linked list of the free blocks.
pub mod Links
pub mod Spread
pub mod Append
pub mod Remove
use malloc_for_c.Prelude.{ℕ, Bool, ◌==◌, if◌then◌else◌}
use malloc_for_c.Memory.{Ptr, null}
use malloc_for_c.Machine.{State, Cmd, ok, pure, get, assert, ◌>>=◌, ◌>>◌}
use malloc_for_c.Mm.Block.{set_next, set_prev, get_next, get_prev}

-- `mm_free_head = p`
unfoldable pub set_free_head : Ptr → Cmd (Unit {0})
set_free_head p s = ok tt (record s { mm_free_head = p })

unfoldable pub block_append : Ptr → Cmd (Unit {0})
unfolding set_free_head
block_append block = do
  s ← get
  set_next block s.mm_free_head
  if s.mm_free_head == null then pure tt else set_prev s.mm_free_head block
  set_prev block null
  set_free_head block

-- The two branches of `block_remove` for a list of more than one block.
unfoldable pub unlink : Ptr → Cmd (Unit {0})
unfolding set_free_head
unlink block = do
  next ← get_next block
  prev ← get_prev block
  s ← get
  if block == s.mm_free_head
      then (do set_prev next null; set_free_head next)
      else (do set_next prev next; if next == null then pure tt else set_prev next prev)

unfoldable pub block_remove : Ptr → Cmd (Unit {0})
unfolding set_free_head unlink
block_remove block = do
  s ← get
  second ← get_next s.mm_free_head
  if second == null then (do assert (block == s.mm_free_head); set_free_head null) else unlink block
