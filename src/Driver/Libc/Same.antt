-- ===== src/Driver/Libc/Same.antt =====
-- `eval_libc_speed` of mdriver.c against `eval_libc_valid`.
use malloc_for_c.Prelude.{
  ℕ, ◌+◌, ◌-◌, ◌^◌, ◌≤◌, ◌<◌, ◌≡◌, refl, subst, ◌⊎◌, inl, inr, not, ◌&&◌, List, [], ◌∷◌, ◌==◌,
  arith, Bool-cases,
}
use malloc_for_c.Memory.{null}
use malloc_for_c.Driver.{OpType, alloc_op, free_op, realloc_op, TraceOp, Tester}
use malloc_for_c.Driver.Balanced.{op}
use malloc_for_c.Driver.Eval.{reinit_trace}
use malloc_for_c.Driver.Util.{to_int, to_size}
use malloc_for_c.Driver.Libc.{
  Libc, LibcRun, goes_on, unix_error, behind, libc_valid_op, libc_valid_ops, eval_libc_valid,
  libc_speed_op, libc_speed_ops, eval_libc_speed,
}

-- The sizes that are `int`s, extended to a `size_t`.
abbrev pub IsInt : ℕ → Type 0
IsInt size = (size < 2 ^ 31) ⊎ ((2 ^ 64 - 2 ^ 31 ≤ size) × (size < 2 ^ 64))

abbrev pub AllInt : List TraceOp → Type 0
AllInt [] = Unit {0}
AllInt (x ∷ ops) = IsInt x.size × AllInt ops

to_size-to_int : (size : ℕ) → IsInt size → to_size (to_int size) ≡ size
to_size-to_int size (inl small) = ground arith
to_size-to_int size (inr large) = ground arith

-- Both runs end with the same blocks and the same allocator, or both exit; the one that is timed
-- prints no error.
abbrev pub SameEnd : {W : Type 0} → LibcRun W → LibcRun W → Type 0
SameEnd (goes_on t w) (goes_on t' w') = (t ≡ t') × (w ≡ w')
SameEnd (unix_error t) (unix_error t') = Unit {0}
SameEnd (goes_on t w) (unix_error t') = ⊥
SameEnd (unix_error t) (goes_on t' w') = ⊥

module _ {W : Type 0} (c : Libc W) where
  same_op :
      (i : ℕ) (type : OpType) (index size : ℕ) (t : Tester) (w : W)
      → IsInt size
      → SameEnd
          (libc_speed_op c (op type index size) t w)
          (libc_valid_op c i (op type index size) t w)
  unfolding libc_speed_op libc_valid_op
  same_op i alloc_op index size t w int =
      rw (to_size-to_int size int) (elim (Bool-cases ((c.malloc size w).0 == null)) [
        | inl bad ↦ rw bad tt
        | inr good ↦ rw good (refl, refl)
      ])
  same_op i realloc_op index size t w int =
      elim (Bool-cases (
        (c.realloc (t.blocks index) (to_size (to_int size)) w).0 == null
        && not (to_int size == 0))) [ inl bad ↦ rw bad tt | inr good ↦ rw good (refl, refl) ]
  same_op i free_op index size t w int = (refl, refl)

  same_behind :
      (m m' : LibcRun W) (k k' : Tester → W → LibcRun W)
      → SameEnd m m'
      → ((t : Tester) (w : W) → SameEnd (k t w) (k' t w))
      → SameEnd (behind c m k) (behind c m' k')
  same_behind (goes_on t w) (goes_on t' w') k k' e rest =
      subst (λ x. SameEnd (k t w) (k' x w')) e.0
        (subst (λ y. SameEnd (k t w) (k' t y)) e.1 (rest t w))
  same_behind (unix_error t) (unix_error t') k k' e rest = tt
  same_behind (goes_on t w) (unix_error t') k k' e rest = absurd e
  same_behind (unix_error t) (goes_on t' w') k k' e rest = absurd e

  same_ops :
      (i : ℕ) (ops : List TraceOp) (t : Tester) (w : W)
      → AllInt ops
      → SameEnd (libc_speed_ops c ops t w) (libc_valid_ops c i ops t w)
  unfolding libc_speed_ops libc_valid_ops
  same_ops i [] t w ints = (refl, refl)
  same_ops i (x ∷ ops) t w ints =
      same_behind _ _ _ _ (same_op i x.type x.index x.size t w ints.0)
        (λ t' w'. same_ops (i + 1) ops t' w' ints.1)

  -- For every allocator of the C library and every trace whose sizes are `int`s extended to a
  -- `size_t`, `eval_libc_speed` ends the trace with the same blocks and the same allocator as
  -- `eval_libc_valid`, or both exit.
  pub eval_libc_speed-eval_libc_valid :
      (num_ids : ℕ) (ops : List TraceOp) (t : Tester) (w : W)
      → AllInt ops
      → SameEnd (eval_libc_speed c num_ids ops t w) (eval_libc_valid c num_ids ops t w)
  unfolding eval_libc_speed eval_libc_valid
  eval_libc_speed-eval_libc_valid num_ids ops t w ints =
      same_ops 0 ops (reinit_trace num_ids t) w ints
