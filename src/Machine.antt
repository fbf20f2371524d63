-- ===== src/Machine.antt =====
-- The machine that the C code runs on: the bytes of memory, the static variables of memlib.c and
-- mm.c, and commands that read and write them.
--
-- The process may touch the bytes that `mem_init` has mapped, from `heap` up to `mem_max_addr`. An
-- access elsewhere, as through a null pointer, is a `fault`; a failed `assert` is an `abort`.
pub mod Access
use malloc_for_c.Prelude.{
  ℕ, ◌+◌, ◌-◌, ◌*◌, ◌≤◌, Bool, true, false, ◌&&◌, ◌||◌, leb, ltb, ◌==◌, if◌then◌else◌,
}
use malloc_for_c.Memory.{Ptr, Mem, word, put}

pub record State : Type 0 where
  pub mem : Mem
  pub heap : Ptr
  pub mem_brk : Ptr
  pub mem_max_addr : Ptr
  pub mm_heap_first : Ptr
  pub mm_heap_last : Ptr
  pub mm_free_head : Ptr

pub data Run (A : Type 0) : Type 0 where
  ok : A → State → Run A
  fault : Run A
  abort : Run A
  out_of_fuel : Run A

abbrev pub Cmd : Type 0 → Type 0
Cmd A = State → Run A

abbrev pub pure : {A : Type 0} → A → Cmd A
pure = ok

module _ {A B : Type 0} where
  abbrev pub and_then : Run A → (A → Cmd B) → Run B
  and_then (ok a s) k = k a s
  and_then fault k = fault
  and_then abort k = abort
  and_then out_of_fuel k = out_of_fuel

  infixl 5 ◌>>=◌ ◌>>◌
  abbrev pub ◌>>=◌ : Cmd A → (A → Cmd B) → Cmd B
  m >>= k = λ s. and_then (m s) k

  abbrev pub ◌>>◌ : Cmd A → Cmd B → Cmd B
  m >> n = m >>= λ _. n

abbrev pub get : Cmd State
get s = ok s s

abbrev pub assert : Bool → Cmd (Unit {0})
assert true s = ok tt s
assert false s = abort

-- May the process touch the `n` bytes from `a` on?
abbrev pub mapped : State → Ptr → ℕ → Bool
mapped s a n = leb s.heap a && leb (a + n) s.mem_max_addr

-- `*a` and `*a = v` for a pointer to a word.
unfoldable pub load : Ptr → Cmd ℕ
load a s = if mapped s a 8 then ok (word s.mem a) s else fault

unfoldable pub store : Ptr → ℕ → Cmd (Unit {0})
store a v s = if mapped s a 8 then ok tt (record s { mem = put s.mem a v }) else fault

-- The C library's `memcpy` and `memset`, which touch `n` bytes and no other.
unfoldable pub memcpy : Ptr → Ptr → ℕ → Cmd (Unit {0})
memcpy dst src n s =
    if n == 0 || (mapped s dst n && mapped s src n)
    then ok tt (record s {
      mem = λ q. if leb dst q && ltb q (dst + n) then s.mem (src + (q - dst)) else s.mem q;
    })
    else fault

unfoldable pub memset : Ptr → ℕ → ℕ → Cmd (Unit {0})
memset dst c n s =
    if n == 0 || mapped s dst n
    then ok tt (record s { mem = λ q. if leb dst q && ltb q (dst + n) then c else s.mem q })
    else fault

-- The same for a pointer to a byte.
unfoldable pub load_byte : Ptr → Cmd ℕ
load_byte a s = if mapped s a 1 then ok (s.mem a) s else fault

unfoldable pub store_byte : Ptr → ℕ → Cmd (Unit {0})
store_byte a v s =
    if mapped s a 1 then ok tt (record s { mem = λ q. if q == a then v else s.mem q }) else fault
