-- ===== src/Mm/Heap/Mark.antt =====
-- `set_header` and `set_footer` on a stretch of the heap make a block of it.
use malloc_for_c.Prelude.{
  ℕ, ◌+◌, ◌-◌, ◌^◌, ◌≤◌, ◌<◌, ◌≡◌, ◌∙◌, ◌⊎◌, Bool, true, false, [], ◌∷◌, arith,
}
use malloc_for_c.Memory.{Ptr, Mem, put}
use malloc_for_c.Memory.Words.{word-put_self, word-put_off, put-byte_off}
use malloc_for_c.Machine.{State, Cmd, ◌>>◌}
use malloc_for_c.Mm.Block.{set_header, set_footer}
use malloc_for_c.Mm.Block.Access.{tag_val, Room, set_header-ok, set_footer-ok}
use malloc_for_c.Mm.Heap.{block, Tags}

-- The memory after both writes.
abbrev pub marked : Mem → Ptr → ℕ → Bool → Mem
marked m p n a = put (put m p (tag_val n a)) (p + (n - 8)) (tag_val n a)

pub marked-off :
    (m : Mem) (p n : ℕ) (a : Bool) (q : ℕ) → 16 ≤ n → (q < p) ⊎ (p + n ≤ q) → marked m p n a q ≡ m q
marked-off m p n a q least h =
    put-byte_off _ (p + (n - 8)) _ q (omega arith) ∙ put-byte_off m p _ q (omega arith)

tag_val-lt : (n : ℕ) (a : Bool) → n + 1 < 2 ^ 64 → tag_val n a < 2 ^ 64
tag_val-lt n true h = omega arith
tag_val-lt n false h = omega arith

pub marked-Tags :
    (m : Mem) (p n : ℕ) (a : Bool)
    → 16 ≤ n
    → n + 1 < 2 ^ 64
    → Tags (marked m p n a) (block p n a ∷ [])
marked-Tags m p n a least small = (
  word-put_off _ (p + (n - 8)) _ p (omega arith) ∙ word-put_self m p _ (tag_val-lt n a small),
  word-put_self _ (p + (n - 8)) _ (tag_val-lt n a small),
  tt,
)

-- The two calls, in front of whatever follows.
pub mark_lem :
    {A : Type 0} (p n : ℕ) (a : Bool) (s : State) (k : Cmd A)
    → Room s p n
    → n + 1 < 2 ^ 64
    → (do set_header p n a; set_footer p; k) s ≡ k (record s { mem = marked s.mem p n a })
mark_lem p n a s k r small = rw (
  set_header-ok p n a s r,
  set_footer-ok p n a (record s { mem = put s.mem p (tag_val n a) }) (omega arith)
      (word-put_self s.mem p (tag_val n a) (tag_val-lt n a small)),
)
