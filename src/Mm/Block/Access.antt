-- ===== src/Mm/Block/Access.antt =====
-- What the accessors of a block do on a mapped block: sizes and allocation bits are read as they
-- were written.
use malloc_for_c.Prelude.{
  ℕ, ◌+◌, ◌-◌, ◌%◌, ◌^◌, ◌≤◌, ◌<◌, ◌≡◌, ap, Bool, true, false, arith, add64-eq, sub64-eq,
  if◌then◌else◌, ==-true, ==-false,
}
use malloc_for_c.Memory.{word, put}
use malloc_for_c.Machine.{State, ok}
use malloc_for_c.Machine.Access.{load-ok, store-ok}
use malloc_for_c.Mm.Block.{
  incr_pointer, decr_pointer, get_size_from_val, header_val, is_allocated_from_val, get_size,
  set_header, set_footer, is_allocated,
}

-- The number that stands for a size and an allocation bit.
abbrev pub tag_val : ℕ → Bool → ℕ
tag_val n a = n + (if a then 1 else 0)

pub header_val_lem : (n : ℕ) (a : Bool) → n % 16 ≡ 0 → header_val n a ≡ tag_val n a
unfolding header_val
header_val_lem n true h = omega arith
header_val_lem n false h = omega arith

-- The size is read back from a header, whatever the allocation bit.
pub get_size_from_val-tag : (n : ℕ) (a : Bool) → n % 16 ≡ 0 → get_size_from_val (tag_val n a) ≡ n
unfolding get_size_from_val
get_size_from_val-tag n true h = omega arith
get_size_from_val-tag n false h = omega arith

-- And so is the allocation bit.
pub is_allocated_from_val-tag :
    (n : ℕ) (a : Bool) → n % 16 ≡ 0 → is_allocated_from_val (tag_val n a) ≡ a
unfolding is_allocated_from_val
is_allocated_from_val-tag n true h = ==-true _ 1 (omega arith)
is_allocated_from_val-tag n false h = ==-false _ 1 (omega arith)

pub incr-eq : (n p : ℕ) → p + n < 2 ^ 64 → incr_pointer n p ≡ p + n
unfolding incr_pointer
incr-eq n p h = add64-eq p n h

pub decr-eq : (n p : ℕ) → n ≤ p → p < 2 ^ 64 → decr_pointer n p ≡ p - n
unfolding decr_pointer
decr-eq n p h lt = sub64-eq p n h lt

-- The `n` bytes from `p` on can be a block: they are mapped, and their number is in order.
pub record Room (s : State) (p n : ℕ) : Type 0 where
  pub above : s.heap ≤ p
  pub below : p + n ≤ s.mem_max_addr
  pub small : s.mem_max_addr < 2 ^ 64
  pub least : 16 ≤ n
  pub even : n % 16 ≡ 0

module _ (p n : ℕ) (a : Bool) (s : State) (r : Room s p n) where
  pub get_size-ok : word s.mem p ≡ tag_val n a → get_size p s ≡ ok n s
  unfolding get_size
  get_size-ok e =
      rw (load-ok p s (omega arith), e) (ap (λ (k : ℕ). ok k s) (get_size_from_val-tag n a r.even))

  pub is_allocated-ok : word s.mem p ≡ tag_val n a → is_allocated p s ≡ ok a s
  unfolding is_allocated
  is_allocated-ok e =
      rw (load-ok p s (omega arith), e)
        (ap (λ (b : Bool). ok b s) (is_allocated_from_val-tag n a r.even))

  pub set_header-ok : set_header p n a s ≡ ok tt (record s { mem = put s.mem p (tag_val n a) })
  unfolding set_header
  set_header-ok = rw (header_val_lem n a r.even, store-ok p (tag_val n a) s (omega arith))

  pub set_footer-ok :
      word s.mem p ≡ tag_val n a
      → set_footer p s ≡ ok tt (record s { mem = put s.mem (p + (n - 8)) (tag_val n a) })
  unfolding set_footer
  set_footer-ok e = rw (
    get_size-ok e,
    load-ok p s (omega arith),
    e,
    sub64-eq n 8 (omega arith) (omega arith),
    incr-eq (n - 8) p (omega arith),
    store-ok (p + (n - 8)) (tag_val n a) s (omega arith),
  )
