-- ===== src/Driver/RunTests/Errors.antt =====
-- The runs for utilization and speed, which do not call `malloc_error`.
use malloc_for_c.Prelude.{
  ℕ, not, ◌&&◌, ◌≡◌, refl, subst, inl, inr, Option, none, some, List, [], ◌∷◌, ◌==◌, if◌then◌else◌,
  Bool-cases,
}
use malloc_for_c.Memory.{null}
use malloc_for_c.Machine.{State, Run, ok, fault, abort, out_of_fuel, Cmd, and_then}
use malloc_for_c.Memlib.{mem_reset_brk, mem_heapsize}
use malloc_for_c.Mm.Alloc.{mm_init, malloc}
use malloc_for_c.Mm.Free.{free}
use malloc_for_c.Mm.Client.{realloc}
use malloc_for_c.Driver.{
  OpType, alloc_op, free_op, realloc_op, Complaint, TraceOp, Tester, negative,
}
use malloc_for_c.Driver.Balanced.{op}
use malloc_for_c.Driver.Eval.{reinit_trace}
use malloc_for_c.Driver.Util.{Totals, to_int, to_size, util_ops, util_op, eval_mm_util}
use malloc_for_c.Driver.Speed.{speed_ops, speed_op, eval_mm_speed}
use malloc_for_c.Driver.Speed.Same.{measure}

abbrev Errors : Type 0
Errors = List (ℕ × Complaint)

-- If the run ends, it is with the errors `e`.
abbrev Keeps : {A : Type 0} → (A → Errors) → Errors → Run (Option A) → Type 0
Keeps view e (ok none s) = Unit {0}
Keeps view e (ok (some a) s) = view a ≡ e
Keeps view e fault = Unit {0}
Keeps view e abort = Unit {0}
Keeps view e out_of_fuel = Unit {0}

module _ {R A : Type 0} (view : A → Errors) (e : Errors) where
  after-Keeps :
      (m : Run R) (k : R → Cmd (Option A))
      → ((r : R) (s : State) → Keeps view e (k r s))
      → Keeps view e (and_then m k)
  after-Keeps (ok r s) k h = h r s
  after-Keeps fault k h = tt
  after-Keeps abort k h = tt
  after-Keeps out_of_fuel k h = tt

  operation-Keeps :
      {B : Type 0} (m : Run R) (o : R → Option B) (k : Option B → Cmd (Option A))
      → ((r : R) (s : State) → Keeps view e (k (o r) s))
      → Keeps view e (and_then (and_then m (λ r. ok (o r))) k)
  operation-Keeps (ok r s) o k h = h r s
  operation-Keeps fault o k h = tt
  operation-Keeps abort o k h = tt
  operation-Keeps out_of_fuel o k h = tt

abbrev counted_errors : Totals × Tester → Errors
counted_errors x = x.1.errors

util_op-Keeps :
    (e : Errors) (type : OpType) (index size : ℕ) (ops : List TraceOp) (u : Totals) (t : Tester)
    (s : State)
    → t.errors ≡ e
    → ((u₁ : Totals) (t₁ : Tester) (s₁ : State)
        → t₁.errors ≡ e
        → Keeps counted_errors e (util_ops ops u₁ t₁ s₁))
    → Keeps counted_errors e (util_ops (op type index size ∷ ops) u t s)
unfolding util_ops util_op
util_op-Keeps e alloc_op index size ops u t s same rest =
    operation-Keeps counted_errors e (malloc (to_size (to_int size)) s) _ _ (λ p s₁.
      elim (Bool-cases (p == null)) [ inl bad ↦ rw bad tt | inr good ↦ rw good (rest _ _ s₁ same) ])
util_op-Keeps e realloc_op index size ops u t s same rest =
    operation-Keeps counted_errors e (realloc (t.blocks index) (to_size (to_int size)) s) _ _
      (λ p s₁. elim (Bool-cases (p == null && not (to_int size == 0))) [
        | inl bad ↦ rw bad tt
        | inr good ↦ rw good (rest _ _ s₁ same)
      ])
util_op-Keeps e free_op index size ops u t s same rest =
    operation-Keeps counted_errors e (free (if negative index then null else t.blocks index) s) _ _
      (λ r s₁. rest _ _ s₁ same)

util_ops-Keeps :
    (e : Errors) (ops : List TraceOp) (u : Totals) (t : Tester) (s : State)
    → t.errors ≡ e
    → Keeps counted_errors e (util_ops ops u t s)
unfolding util_ops
util_ops-Keeps e [] u t s same = same
util_ops-Keeps e (x ∷ ops) u t s same =
    util_op-Keeps e x.type x.index x.size ops u t s same
      (λ u₁ t₁ s₁ same₁. util_ops-Keeps e ops u₁ t₁ s₁ same₁)

speed_op-Keeps :
    (e : Errors) (type : OpType) (index size : ℕ) (ops : List TraceOp) (t : Tester) (s : State)
    → t.errors ≡ e
    → ((t₁ : Tester) (s₁ : State) → t₁.errors ≡ e → Keeps (λ x. x.errors) e (speed_ops ops t₁ s₁))
    → Keeps (λ x. x.errors) e (speed_ops (op type index size ∷ ops) t s)
unfolding speed_ops speed_op
speed_op-Keeps e alloc_op index size ops t s same rest =
    operation-Keeps (λ x. x.errors) e (malloc (to_size (to_int size)) s) _ _
      (λ p s₁. elim (Bool-cases (p == null)) [
        | inl bad ↦ rw bad tt
        | inr good ↦ rw good (rest _ s₁ same)
      ])
speed_op-Keeps e realloc_op index size ops t s same rest =
    operation-Keeps (λ x. x.errors) e (realloc (t.blocks index) (to_size (to_int size)) s) _ _
      (λ p s₁. elim (Bool-cases (p == null && not (to_int size == 0))) [
        | inl bad ↦ rw bad tt
        | inr good ↦ rw good (rest _ s₁ same)
      ])
speed_op-Keeps e free_op index size ops t s same rest =
    operation-Keeps (λ x. x.errors) e (free (if negative index then null else t.blocks index) s) _ _
      (λ r s₁. rest _ s₁ same)

speed_ops-Keeps :
    (e : Errors) (ops : List TraceOp) (t : Tester) (s : State)
    → t.errors ≡ e
    → Keeps (λ x. x.errors) e (speed_ops ops t s)
unfolding speed_ops
speed_ops-Keeps e [] t s same = same
speed_ops-Keeps e (x ∷ ops) t s same =
    speed_op-Keeps e x.type x.index x.size ops t s same
      (λ t₁ s₁ same₁. speed_ops-Keeps e ops t₁ s₁ same₁)

measure-Keeps :
    (e : Errors) (m : Run (Option (Totals × Tester)))
    → Keeps counted_errors e m
    → Keeps (λ x. x.2.errors) e (and_then m measure)
unfolding mem_heapsize
measure-Keeps e (ok none s) h = tt
measure-Keeps e (ok (some (u, t)) s) h = h
measure-Keeps e fault h = tt
measure-Keeps e abort h = tt
measure-Keeps e out_of_fuel h = tt

pub eval_mm_util_errors :
    (num_ids : ℕ) (ops : List TraceOp) (t t' : Tester) (s s' : State) (most size : ℕ)
    → eval_mm_util num_ids ops t s ≡ ok (some (most, size, t')) s'
    → t'.errors ≡ t.errors
unfolding eval_mm_util mem_reset_brk reinit_trace
eval_mm_util_errors num_ids ops t t' s s' most size run =
    subst (Keeps (λ x. x.2.errors) t.errors) run (
      after-Keeps (λ x. x.2.errors) t.errors (mm_init (record s { mem_brk = s.heap })) _
        (λ r s₁. elim (Bool-cases (negative r)) [
          | inl bad ↦ rw bad tt
          | inr good ↦ rw good (measure-Keeps t.errors _ (util_ops-Keeps t.errors ops _ _ s₁ refl))
        ]))

pub eval_mm_speed_errors :
    (num_ids : ℕ) (ops : List TraceOp) (t t' : Tester) (s s' : State)
    → eval_mm_speed num_ids ops t s ≡ ok (some t') s'
    → t'.errors ≡ t.errors
unfolding eval_mm_speed mem_reset_brk reinit_trace
eval_mm_speed_errors num_ids ops t t' s s' run = subst (Keeps (λ x. x.errors) t.errors) run (
    after-Keeps (λ x. x.errors) t.errors (mm_init (record s { mem_brk = s.heap })) _
      (λ r s₁. elim (Bool-cases (negative r)) [
        | inl bad ↦ rw bad tt
        | inr good ↦ rw good (speed_ops-Keeps t.errors ops _ s₁ refl)
      ]))
