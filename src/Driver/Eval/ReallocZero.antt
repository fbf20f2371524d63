-- ===== src/Driver/Eval/ReallocZero.antt =====
-- A reallocation to size 0 in a trace, which frees the block and leaves a null pointer.
use malloc_for_c.Prelude.{
  ℕ, suc, ◌≡◌, ◌≢◌, refl, sym, ap, ◌∙◌, true, false, List, ◌∷◌, ◌++◌, count, arith, ltb-true,
  ==-true, ==-false,
}
use malloc_for_c.Memory.{null}
use malloc_for_c.Machine.{State, ok}
use malloc_for_c.Mm.Policy.{Heap}
use malloc_for_c.Mm.Free.{free}
use malloc_for_c.Mm.Client.{realloc}
use malloc_for_c.Driver.{Tester, Setting, is_none, set_at, randomize_block}
use malloc_for_c.Driver.Ranges.{seen}
use malloc_for_c.Driver.Held.{pointers-set}
use malloc_for_c.Driver.Eval.{remember, run_realloc}
use malloc_for_c.Driver.Eval.Alloc.{check_index-empty, remember_twice}
use malloc_for_c.Driver.Eval.Slots.{Agrees}
use malloc_for_c.Driver.Eval.Steps.{Stepped, ranges_of-set}
use malloc_for_c.Driver.Eval.FreeStep

-- What the arrays hold for an index that is not live does not matter.
pub Agrees-forget :
    (g : Setting) (live : List ℕ) (t : Tester) (s : State) (h : Heap) (index p n base draws : ℕ)
    → count index live ≡ 0
    → Agrees g live t s h
    → Agrees g live
        (record t {
          blocks = set_at index p t.blocks;
          block_sizes = set_at index n t.block_sizes;
          block_rand_base = set_at index base t.block_rand_base;
          draws = draws;
        })
        s
        h
Agrees-forget g live t s h index p n base draws out a = record {
  heap = a.heap;
  ranges =
      a.ranges
      ∙ ap (seen g.ignore_ranges) (sym (ranges_of-set index p n t.blocks t.block_sizes live out));
  held = λ x. ap (count x) (pointers-set index p t.blocks live out) ∙ a.held x;
  slots = λ j q.
      let ne : j ≢ index = λ e. omega (arith, ap (λ w. count w live) e) in
      rw (==-false j index ne) (a.slots j q);
}

pub realloc-zero : (p : ℕ) (s s' : State) → free p s ≡ ok tt s' → realloc p 0 s ≡ ok null s'
unfolding realloc
realloc-zero p s s' e = rw e refl

-- An empty block takes a number of `random` and no byte.
randomize_block-empty :
    (g : Setting) (index : ℕ) (t : Tester) (s : State)
    → is_none g.debug_mode ≡ false
    → t.block_sizes index ≡ 0
    → randomize_block g index t s
      ≡ ok
          (record t {
            block_rand_base = set_at index (g.random t.draws) t.block_rand_base;
            draws = suc t.draws;
          })
          s
unfolding randomize_block
randomize_block-empty g index t s on e = rw (on, e) refl

module _ (g : Setting) (on : is_none g.debug_mode ≡ false) (l : List ℕ) (index : ℕ) (r : List ℕ)
    (op : ℕ) (t : Tester) (s : State) (h : Heap) (a : Agrees g (l ++ index ∷ r) t s h) where
  abbrev pub emptied : Tester
  emptied = remember index null 0 (FreeStep.removed g on l index r op t s h a)

  abbrev pub final : Tester
  final = record emptied {
    block_rand_base = set_at index (g.random t.draws) t.block_rand_base;
    draws = suc t.draws;
  }

  pub realloc_zero_step :
      (s' : State) × (run_realloc g op index 0 t s ≡ ok (true, final) s')
      × Stepped g (l ++ r) index t s.mem_brk s.mem_max_addr s.heap final s'
  unfolding run_realloc
  realloc_zero_step =
      let (s', freed, d) = FreeStep.released g on l index r op t s h a in
      let self = ==-true index index refl in
      let once = FreeStep.alone g on l index r op t s h a in
      let some_size = (FreeStep.mine g on l index r op t s h a).positive in
      (
        s',
        rw (
          FreeStep.survived g on l index r op t s h a,
          realloc-zero (t.blocks index) s s' freed,
          ltb-true 0 (t.block_sizes index) some_size,
          check_index-empty g op index emptied s' (rw self refl),
          remember_twice index null 0 0 (FreeStep.removed g on l index r op t s h a),
          randomize_block-empty g index emptied s' on (rw self refl),
        ),
        record {
          policy = d.policy;
          agrees =
              Agrees-forget g (l ++ r) (FreeStep.removed g on l index r op t s h a) s' d.policy
                index null 0 (g.random t.draws) (suc t.draws) once d.agrees;
          no_error = refl;
          grows = d.grows;
          same_max = d.same_max;
          same_lo = d.same_lo;
          others = λ j ne. (rw (==-false j index ne) refl, rw (==-false j index ne) refl);
        },
      )
