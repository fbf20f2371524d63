-- ===== src/Mm/Block.antt =====
-- The layout of a block in mm.c (from `W_SIZE` to `get_prev`): a header word, the payload and a
-- footer word. Header and footer hold the size with the allocation bit; the payload of a free block
-- starts with the links to the next and the previous free block.
pub mod Access
use malloc_for_c.Prelude.{
  ℕ, ◌+◌, ◌-◌, ◌*◌, ◌/◌, ◌%◌, Bool, true, false, ◌==◌, not, add64, sub64, if◌then◌else◌,
}
use malloc_for_c.Memory.{Ptr, null}
use malloc_for_c.Machine.{State, Cmd, ok, pure, ◌>>=◌, ◌>>◌, load, store}
use malloc_for_c.Memlib.{mem_heap_lo, mem_heap_hi}

abbrev pub w_size : ℕ
w_size = 8

abbrev pub d_size : ℕ
d_size = 2 * 8

unfoldable pub incr_pointer : ℕ → Ptr → Ptr
incr_pointer bytes p = add64 p bytes

unfoldable pub decr_pointer : ℕ → Ptr → Ptr
decr_pointer bytes p = sub64 p bytes

unfoldable pub pointer_dif : Ptr → Ptr → ℕ
pointer_dif p q = sub64 p q

unfoldable pub round_up : ℕ → ℕ → ℕ
round_up size n = sub64 (add64 size n) 1 / n * n

-- `val & ~0xF` clears the four lowest bits.
unfoldable pub get_size_from_val : ℕ → ℕ
get_size_from_val val = val / 16 * 16

-- `size | is_allocated` sets the lowest bit, or leaves the size alone.
unfoldable pub header_val : ℕ → Bool → ℕ
header_val size allocated = if allocated then size / 2 * 2 + 1 else size

-- `val & 0x1`
unfoldable pub is_allocated_from_val : ℕ → Bool
is_allocated_from_val val = val % 2 == 1

unfoldable pub get_size : Ptr → Cmd ℕ
unfolding get_size_from_val
get_size block = do val ← load block; pure (get_size_from_val val)

unfoldable pub set_header : Ptr → ℕ → Bool → Cmd (Unit {0})
unfolding header_val
set_header block size allocated = store block (header_val size allocated)

unfoldable pub set_footer : Ptr → Cmd (Unit {0})
unfolding get_size incr_pointer
set_footer block = do
  size ← get_size block
  header ← load block
  store (incr_pointer (sub64 size w_size) block) header

unfoldable pub get_footer_from_header : Ptr → Cmd Ptr
unfolding get_size_from_val incr_pointer
get_footer_from_header header = do
  val ← load header
  pure (incr_pointer (sub64 (get_size_from_val val) w_size) header)

unfoldable pub is_allocated : Ptr → Cmd Bool
unfolding is_allocated_from_val
is_allocated block = do val ← load block; pure (is_allocated_from_val val)

-- The payload follows the header word; `next` and `prev` are its first two words.
unfoldable pub set_next : Ptr → Ptr → Cmd (Unit {0})
set_next block next = store (add64 block 8) next

unfoldable pub set_prev : Ptr → Ptr → Cmd (Unit {0})
set_prev block prev = store (add64 block 16) prev

unfoldable pub get_next : Ptr → Cmd Ptr
get_next block = load (add64 block 8)

unfoldable pub get_prev : Ptr → Cmd Ptr
get_prev block = load (add64 block 16)

unfoldable pub init_heap_first : Cmd (Unit {0})
unfolding incr_pointer
init_heap_first = do
  lo ← mem_heap_lo
  λ s. ok tt (record s { mm_heap_first = incr_pointer w_size lo })

unfoldable pub init_heap_last : Cmd (Unit {0})
unfolding decr_pointer
init_heap_last = do
  hi ← mem_heap_hi
  λ s. ok tt (record s { mm_heap_last = decr_pointer (d_size - 1) hi })
