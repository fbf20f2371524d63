-- ===== src/Mm/Alloc.antt =====
-- `mm_init`, `create_space`, `split`, `find_fit` and `malloc` of mm.c.
pub mod Init
pub mod Take
pub mod Split
pub mod Malloc
pub mod Obtain
pub mod Serve
pub mod Extend
pub mod Search
pub mod Grant
pub mod Limits
use malloc_for_c.Prelude.{
  ℕ, zero, suc, ◌+◌, ◌-◌, ◌*◌, ◌^◌, Bool, true, false, leb, ◌==◌, add64, sub64, if◌then◌else◌,
}
use malloc_for_c.Memory.{Ptr, null}
use malloc_for_c.Machine.{State, Cmd, ok, out_of_fuel, pure, get, ◌>>=◌, ◌>>◌}
use malloc_for_c.Memlib.{mem_sbrk}
use malloc_for_c.Mm.Block.{
  w_size, d_size, incr_pointer, round_up, get_size, set_header, set_footer, get_next,
  init_heap_first, init_heap_last,
}
use malloc_for_c.Mm.FreeList.{set_free_head, block_append, block_remove}

-- The `int` -1, as a 32-bit pattern.
abbrev pub int_minus_one : ℕ
int_minus_one = 2 ^ 32 - 1

unfoldable pub mm_init : Cmd ℕ
unfolding set_free_head
mm_init = do
  set_free_head null
  area ← mem_sbrk (2 * d_size + w_size)
  if area == null then pure int_minus_one else (do init_heap_first; init_heap_last; pure 0)

-- `if (!mm_heap_first) mm_init();`
unfoldable pub ensure_init : Cmd (Unit {0})
unfolding mm_init
ensure_init = do s ← get; if s.mm_heap_first == null then (do mm_init; pure tt) else pure tt

-- The result of `mem_sbrk` is not looked at, as in the source.
unfoldable pub create_space : ℕ → Cmd Ptr
unfolding incr_pointer
create_space size = do
  mem_sbrk size
  s ← get
  let block = s.mm_heap_last
  λ t. ok tt (record t { mm_heap_last = incr_pointer size t.mm_heap_last })
  set_header block size true
  set_footer block
  pure block

unfoldable pub split : Ptr → ℕ → Cmd Ptr
unfolding incr_pointer
split block size = do
  block_remove block
  old_size ← get_size block
  set_header block size true
  set_footer block
  let split_free = incr_pointer size block
  set_header split_free (sub64 old_size size) false
  set_footer split_free
  block_append split_free
  pure block

-- The branch of `find_fit` that hands out a whole block.
unfoldable pub take_whole : Ptr → Cmd Ptr
take_whole curr = do
  block_remove curr
  size ← get_size curr
  set_header curr size true
  set_footer curr
  pure curr

unfoldable pub find_fit_loop : ℕ → ℕ → Ptr → Cmd Ptr
unfolding split take_whole
find_fit_loop zero size curr = λ _. out_of_fuel
find_fit_loop (suc fuel) size curr = if curr == null then pure null else (do
  curr_size ← get_size curr
  if leb (add64 (2 * d_size) size) curr_size
      then split curr size
      else if leb size curr_size
      then take_whole curr
      else (do next ← get_next curr; find_fit_loop fuel size next))

-- Every round visits another free block, and a block has at least one byte of the heap.
unfoldable pub find_fit : ℕ → Cmd Ptr
unfolding find_fit_loop
find_fit size = do s ← get; find_fit_loop (s.mem_brk - s.heap + 1) size s.mm_free_head

-- What `malloc` adds to a request, and how it rounds it.
unfoldable pub adjust : ℕ → ℕ
unfolding round_up
adjust size = add64 d_size (round_up size d_size)

unfoldable pub malloc : ℕ → Cmd Ptr
unfolding ensure_init find_fit create_space incr_pointer adjust
malloc size = do
  ensure_init
  if size == 0 then pure null else (do
    let adj_size = adjust size
    fit ← find_fit adj_size
    block ← if fit == null then create_space adj_size else pure fit
    pure (incr_pointer w_size block))
