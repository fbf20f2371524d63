-- ===== src/Driver/Speed/Same.antt =====
-- `eval_mm_speed` of mdriver.c against `eval_mm_util`.
use malloc_for_c.Prelude.{
  ℕ, not, ◌&&◌, ◌≡◌, refl, sym, ap, ◌∙◌, inl, inr, Option, none, some, List, [], ◌∷◌, ◌==◌,
  if◌then◌else◌, Bool-cases,
}
use malloc_for_c.Memory.{Ptr, null}
use malloc_for_c.Machine.{State, Run, ok, fault, abort, out_of_fuel, Cmd, and_then, pure, ◌>>=◌}
use malloc_for_c.Memlib.{mem_reset_brk, mem_heapsize}
use malloc_for_c.Mm.Alloc.{mm_init, malloc}
use malloc_for_c.Mm.Free.{free}
use malloc_for_c.Mm.Client.{realloc}
use malloc_for_c.Driver.{OpType, alloc_op, free_op, realloc_op, TraceOp, Tester, set_at, negative}
use malloc_for_c.Driver.Balanced.{op}
use malloc_for_c.Driver.Eval.{reinit_trace}
use malloc_for_c.Driver.Util.{Totals, to_int, to_size, util_ops, util_op, eval_mm_util}
use malloc_for_c.Driver.Speed.{speed_ops, speed_op, eval_mm_speed}

-- What is seen of the result of a run.
abbrev pub see : {A B : Type 0} → (A → B) → Option A → Option B
see f none = none
see f (some a) = some (f a)

abbrev pub SeenSame :
    {A A' : Type 0} → (A → ℕ → Ptr) → (A' → ℕ → Ptr) → Run (Option A) → Run (Option A') → Type 0
SeenSame f g m m' = and_then m (λ x. ok (see f x)) ≡ and_then m' (λ x. ok (see g x))

module _ {R A A' : Type 0} (f : A → ℕ → Ptr) (g : A' → ℕ → Ptr) where
  -- Behind a call with one result, the runs go on in the same way.
  after-SeenSame :
      (m : Run R) (k : R → Cmd (Option A)) (k' : R → Cmd (Option A'))
      → ((r : R) (s : State) → SeenSame f g (k r s) (k' r s))
      → SeenSame f g (and_then m k) (and_then m k')
  after-SeenSame (ok r s) k k' h = h r s
  after-SeenSame fault k k' h = refl
  after-SeenSame abort k k' h = refl
  after-SeenSame out_of_fuel k k' h = refl

  -- The same behind a call and an operation that decides on its result.
  operation-SeenSame :
      {B B' : Type 0} (m : Run R) (o : R → Option B) (o' : R → Option B')
      (k : Option B → Cmd (Option A)) (k' : Option B' → Cmd (Option A'))
      → ((r : R) (s : State) → SeenSame f g (k (o r) s) (k' (o' r) s))
      → SeenSame f g
          (and_then (and_then m (λ r. ok (o r))) k)
          (and_then (and_then m (λ r. ok (o' r))) k')
  operation-SeenSame (ok r s) o o' k k' h = h r s
  operation-SeenSame fault o o' k k' h = refl
  operation-SeenSame abort o o' k k' h = refl
  operation-SeenSame out_of_fuel o o' k k' h = refl

abbrev pointers_of : Tester → ℕ → Ptr
pointers_of t = t.blocks

abbrev counted_pointers_of : Totals × Tester → ℕ → Ptr
counted_pointers_of x = x.1.blocks

abbrev SameOps : List TraceOp → Totals → Tester → Tester → State → Type 0
SameOps ops u t t' s =
    SeenSame pointers_of counted_pointers_of (speed_ops ops t s) (util_ops ops u t' s)

-- With the recursive call for the rest.
same_op :
    (type : OpType) (index size : ℕ) (ops : List TraceOp) (u : Totals) (t t' : Tester) (s : State)
    → t.blocks ≡ t'.blocks
    → ((u₁ : Totals) (t₁ t₁' : Tester) (s₁ : State)
        → t₁.blocks ≡ t₁'.blocks
        → SameOps ops u₁ t₁ t₁' s₁)
    → SameOps (op type index size ∷ ops) u t t' s
unfolding speed_ops util_ops speed_op util_op
same_op alloc_op index size ops u t t' s e rest =
    operation-SeenSame pointers_of counted_pointers_of (malloc (to_size (to_int size)) s) _ _ _ _
      (λ p s₁. elim (Bool-cases (p == null)) [
        | inl bad ↦ rw bad refl
        | inr good ↦ rw good (rest _ _ _ s₁ (ap (set_at index p) e))
      ])
same_op realloc_op index size ops u t t' s e rest = rw (ap (λ f. f index) e) (
    operation-SeenSame pointers_of counted_pointers_of
      (realloc (t'.blocks index) (to_size (to_int size)) s) _ _ _ _
      (λ p s₁. elim (Bool-cases (p == null && not (to_int size == 0))) [
        | inl bad ↦ rw bad refl
        | inr good ↦ rw good (rest _ _ _ s₁ (ap (set_at index p) e))
      ]))
same_op free_op index size ops u t t' s e rest = rw (ap (λ f. f index) e) (
    operation-SeenSame pointers_of counted_pointers_of
      (free (if negative index then null else t'.blocks index) s) _ _ _ _ (λ r s₁. rest _ _ _ s₁ e))

same_ops :
    (ops : List TraceOp) (u : Totals) (t t' : Tester) (s : State)
    → t.blocks ≡ t'.blocks
    → SameOps ops u t t' s
unfolding speed_ops util_ops
same_ops [] u t t' s e = ap (λ f. ok (some f) s) e
same_ops (x ∷ ops) u t t' s e =
    same_op x.type x.index x.size ops u t t' s e (λ u₁ t₁ t₁' s₁ e₁. same_ops ops u₁ t₁ t₁' s₁ e₁)

abbrev pub arrays_of : ℕ × ℕ × Tester → ℕ → Ptr
arrays_of x = x.2.blocks

-- What `eval_mm_util` does behind its loop.
abbrev pub measure : Option (Totals × Tester) → Cmd (Option (ℕ × ℕ × Tester))
measure done = elim done [
  | none ↦ pure none
  | some (u, t) ↦ do size ← mem_heapsize; pure (some (u.max_total_size, size, t))
]

seen-measure :
    (m : Run (Option (Totals × Tester)))
    → and_then (and_then m measure) (λ x. ok (see arrays_of x))
      ≡ and_then m (λ x. ok (see counted_pointers_of x))
unfolding mem_heapsize
seen-measure (ok none s) = refl
seen-measure (ok (some (u, t)) s) = refl
seen-measure fault = refl
seen-measure abort = refl
seen-measure out_of_fuel = refl

pub eval_mm_speed-eval_mm_util :
    (num_ids : ℕ) (ops : List TraceOp) (t : Tester) (s : State)
    → SeenSame
        (λ x. x.blocks)
        arrays_of
        (eval_mm_speed num_ids ops t s)
        (eval_mm_util num_ids ops t s)
unfolding eval_mm_speed eval_mm_util mem_reset_brk
eval_mm_speed-eval_mm_util num_ids ops t s =
    let u : Totals = record { total_size = 0; max_total_size = 0 } in
    let cleared = reinit_trace num_ids t in
    after-SeenSame (λ x. x.blocks) arrays_of (mm_init (record s { mem_brk = s.heap })) _ _
      (λ r s₁. elim (Bool-cases (negative r)) [
        | inl bad ↦ rw bad refl
        | inr good ↦ rw good (
            same_ops ops u cleared cleared s₁ refl ∙ sym (seen-measure (util_ops ops u cleared s₁)))
      ])
