-- ===== src/Mm/Client.antt =====
-- `realloc` and `calloc` of mm.c.
pub mod Payload
pub mod Realloc
pub mod Calloc
pub mod Edges
use malloc_for_c.Prelude.{ℕ, Bool, ltb, ◌==◌, sub64, mul64, if◌then◌else◌}
use malloc_for_c.Memory.{Ptr, null}
use malloc_for_c.Machine.{State, Cmd, ok, pure, ◌>>=◌, ◌>>◌, memcpy, memset}
use malloc_for_c.Mm.Block.{w_size, d_size, decr_pointer, get_size}
use malloc_for_c.Mm.Alloc.{malloc}
use malloc_for_c.Mm.Free.{free}

-- The part of `realloc` behind its early returns.
unfoldable pub move : Ptr → Ptr → ℕ → Cmd Ptr
unfolding decr_pointer
move new_ptr old_ptr size = do
  block_size ← get_size (decr_pointer w_size old_ptr)
  let old_size = sub64 block_size d_size
  memcpy new_ptr old_ptr (if ltb size old_size then size else old_size)
  free old_ptr
  pure new_ptr

unfoldable pub realloc : Ptr → ℕ → Cmd Ptr
realloc old_ptr size =
    if size == 0 then (do free old_ptr; pure null) else if old_ptr == null then malloc size else (do
      new_ptr ← malloc size
      if new_ptr == null then pure null else move new_ptr old_ptr size)

unfoldable pub calloc : ℕ → ℕ → Cmd Ptr
calloc nmemb size = do
  let bytes = mul64 nmemb size
  new_ptr ← malloc bytes
  if new_ptr == null then pure null else (do memset new_ptr 0 bytes; pure new_ptr)
