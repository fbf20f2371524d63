-- ===== src/Memory.antt =====
-- The bytes of the address space, and the 8-byte little-endian words of a 64-bit x86 machine, which
-- the C code reads and writes through `size_t *` and `block_t **`.
pub mod Words
use malloc_for_c.Prelude.{ℕ, zero, suc, ◌+◌, ◌-◌, ◌*◌, ◌/◌, ◌%◌, ◌&&◌, ltb, leb, if◌then◌else◌}

abbrev pub Ptr : Type 0
Ptr = ℕ

abbrev pub null : Ptr
null = 0

-- The byte at each address.
abbrev pub Mem : Type 0
Mem = ℕ → ℕ

-- The `i`-th byte of a word, the least significant first.
byte_of : ℕ → ℕ → ℕ
byte_of v zero = v % 256
byte_of v (suc i) = byte_of (v / 256) i

-- The number that `n` bytes from `a` on stand for.
read_bytes : ℕ → Mem → Ptr → ℕ
read_bytes zero m a = 0
read_bytes (suc n) m a = m a + 256 * read_bytes n m (a + 1)

-- `*(size_t *)a`
unfoldable pub word : Mem → Ptr → ℕ
unfolding read_bytes
word m a = read_bytes 8 m a

-- `*(size_t *)a = v`
unfoldable pub put : Mem → Ptr → ℕ → Mem
unfolding byte_of
put m a v q = if leb a q && ltb q (a + 8) then byte_of v (q - a) else m q
