-- ===== src/Fcyc/Cache.antt =====
-- fcyc.c: the buffer that is read to clear the cache.
use malloc_for_c.Prelude.{
  ℕ, zero, suc, ◌+◌, ◌*◌, ◌/◌, ◌%◌, ◌^◌, ◌&&◌, Option, none, some, ltb, leb, ◌==◌, if◌then◌else◌,
}
use malloc_for_c.Memory.{Ptr}
use malloc_for_c.Fcyc.{Params}

-- What `malloc` has given for `cache_buf`: its address and its bytes.
pub record Buffer : Type 0 where
  pub addr : Ptr
  pub bytes : ℕ

pub data Clearing : Type 0 where
  -- the sum of the numbers that were read
  cleared : ℕ → Clearing
  -- a read outside the buffer
  outside : Clearing
  out_of_fuel : Clearing
  -- "Malloc returned null", exit(1)
  no_memory : Clearing

-- `while (cptr < cend) { x += *cptr; cptr += incr; }`; an `int` has four bytes.
unfoldable pub clear_loop : ℕ → (Ptr → ℕ) → Buffer → Ptr → Ptr → ℕ → ℕ → Clearing
clear_loop zero ints buf cptr cend incr x = out_of_fuel
clear_loop (suc fuel) ints buf cptr cend incr x =
    let rest = clear_loop fuel ints buf (cptr + 4 * incr) cend incr ((x + ints cptr) % 2 ^ 32) in
    if ltb cptr cend
    then (if leb buf.addr cptr && leb (cptr + 4) (buf.addr + buf.bytes) then rest else outside)
    else cleared x

-- `clear`, with `alloc` for `malloc`: the buffer behind it, and what the loop comes to.
unfoldable pub clear :
    (ℕ → Option Ptr) → (Ptr → ℕ) → ℕ → ℕ → ℕ → Option Buffer → Option Buffer × Clearing
unfolding clear_loop
clear alloc ints cache_bytes cache_block sink (some buf) = (
  some buf,
  clear_loop (suc cache_bytes) ints buf buf.addr (buf.addr + 4 * (cache_bytes / 4))
      (cache_block / 4) sink,
)
clear alloc ints cache_bytes cache_block sink none = elim (alloc cache_bytes) [
  | none ↦ (none, no_memory)
  | some p ↦
      let buf : Buffer = record { addr = p; bytes = cache_bytes } in
      (
        some buf,
        clear_loop (suc cache_bytes) ints buf p (p + 4 * (cache_bytes / 4)) (cache_block / 4) sink,
      )
]

-- A new size gives the buffer back.
unfoldable pub set_fcyc_cache_size :
    {A : Type 0} → ℕ → Params A × Option Buffer → Params A × Option Buffer
set_fcyc_cache_size bytes (p, buf) = elim p.cache_bytes [
  | none ↦ (record p { cache_bytes = some bytes }, none)
  | some old ↦ if bytes == old then (p, buf) else (record p { cache_bytes = some bytes }, none)
]
