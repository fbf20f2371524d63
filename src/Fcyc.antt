-- ===== src/Fcyc.antt =====
-- fcyc.c: the least of a number of timings, taken until the `kbest` least ones agree. A `double` is
-- an element of a type with a total order; the test for convergence, which multiplies, and the
-- timings are arguments.
pub mod Sort
pub mod Least
pub mod Cache
pub mod Clear
use malloc_for_c.Prelude.{
  ℕ, zero, suc, ◌+◌, ◌-◌, ◌≤◌, ◌<◌, ◌≡◌, Bool, true, false, not, ◌&&◌, ◌||◌, Option, none, some,
  leb, ltb, ◌==◌, if◌then◌else◌,
}

-- `a > b` on timings.
pub record Order {ℓ} (A : Type ℓ) : Type ℓ where
  pub gt : A → A → Bool
  pub gt-irreflexive : (a : A) → gt a a ≡ false
  pub gt-asymmetric : (a b : A) → gt a b ≡ true → gt b a ≡ false
  pub le-transitive : (a b c : A) → gt a b ≡ false → gt b c ≡ false → gt a c ≡ false

-- `values` and `samplecount`.
pub record Sampler {ℓ} (A : Type ℓ) : Type ℓ where
  pub values : ℕ → A
  pub samplecount : ℕ

-- The parameters; `none` is UNSET.
pub record Params {ℓ} (A : Type ℓ) : Type ℓ where
  pub kbest : Option ℕ
  pub maxsamples : Option ℕ
  pub epsilon : Option (A → A → Bool)
  pub compensate : Option Bool
  pub clear_cache : Option Bool
  pub cache_bytes : Option ℕ
  pub cache_block : Option ℕ

pub data Outcome {ℓ} (A : Type ℓ) : Type ℓ where
  -- "fcyc parameters not set", exit(1)
  not_set : Outcome A
  out_of_fuel : Outcome A
  -- the result, and how many samples were taken
  timed : A → ℕ → Outcome A

abbrev missing {ℓ} : {A : Type ℓ} → Option A → Bool
missing none = true
missing (some x) = false

module _ {ℓ} {A : Type ℓ} where
  abbrev pub set_at : ℕ → A → (ℕ → A) → ℕ → A
  set_at pos val values = λ i. if i == pos then val else values i

  abbrev pub swap : ℕ → (ℕ → A) → ℕ → A
  swap pos values = set_at pos (values (suc pos)) (set_at (suc pos) (values pos) values)

  -- The array is that of `calloc`, all `nil`.
  unfoldable pub init_sampler : A → Sampler A
  init_sampler nil = record { values = λ i. nil; samplecount = 0 }

  abbrev pub unset : Params A
  unset = record {
    kbest = none;
    maxsamples = none;
    epsilon = none;
    compensate = none;
    clear_cache = none;
    cache_bytes = none;
    cache_block = none;
  }

  unfoldable pub set_fcyc_clear_cache : Bool → Params A → Params A
  set_fcyc_clear_cache clear p = record p { clear_cache = some clear }

  unfoldable pub set_fcyc_cache_block : ℕ → Params A → Params A
  set_fcyc_cache_block bytes p = record p { cache_block = some bytes }

  unfoldable pub set_fcyc_compensate : Bool → Params A → Params A
  set_fcyc_compensate compensate_arg p = record p { compensate = some compensate_arg }

  unfoldable pub set_fcyc_k : ℕ → Params A → Params A
  set_fcyc_k k p = record p { kbest = some k }

  unfoldable pub set_fcyc_maxsamples : ℕ → Params A → Params A
  set_fcyc_maxsamples maxsamples_arg p = record p { maxsamples = some maxsamples_arg }

  unfoldable pub set_fcyc_epsilon : (A → A → Bool) → Params A → Params A
  set_fcyc_epsilon epsilon_arg p = record p { epsilon = some epsilon_arg }

module _ {ℓ} {A : Type ℓ} (o : Order A) where
  -- The loop of the insertion sort, from `pos` down.
  unfoldable pub sift : ℕ → (ℕ → A) → ℕ → A
  sift zero values = values
  sift (suc pos) values =
      let rest = sift pos (swap pos values) in
      if o.gt (values pos) (values (suc pos)) then rest else values

  unfoldable pub add_sample : ℕ → A → Sampler A → Sampler A
  unfolding sift
  add_sample kbest val s = record {
    values =
        if ltb s.samplecount kbest
        then sift s.samplecount (set_at s.samplecount val s.values)
        else (if o.gt (s.values (kbest - 1)) val
            then sift (kbest - 1) (set_at (kbest - 1) val s.values)
            else s.values);
    samplecount = suc s.samplecount;
  }

  -- `close` is `(1 + epsilon) * values[0] >= values[kbest - 1]`.
  unfoldable pub has_converged : ℕ → (A → A → Bool) → Sampler A → Bool
  has_converged kbest close s = leb kbest s.samplecount && close (s.values 0) (s.values (kbest - 1))

  -- `do ... while (!has_converged() && samplecount < maxsamples)`; the `i`-th timing is `measure i`.
  unfoldable pub sample_loop : ℕ → (ℕ → A) → ℕ → (A → A → Bool) → ℕ → Sampler A → Option (Sampler A)
  unfolding add_sample has_converged
  sample_loop zero measure kbest close maxsamples s = none
  sample_loop (suc fuel) measure kbest close maxsamples s =
      let s' = add_sample kbest (measure s.samplecount) s in
      let rest = sample_loop fuel measure kbest close maxsamples s' in
      if not (has_converged kbest close s') && ltb s'.samplecount maxsamples then rest else some s'

  abbrev pub finish : Option (Sampler A) → Outcome A
  finish none = out_of_fuel
  finish (some s) = timed (s.values 0) s.samplecount

  -- `comp` are the timings of the compensated counter, and `plain` those of the other one.
  unfoldable pub fcyc : Params A → A → (ℕ → A) → (ℕ → A) → Outcome A
  unfolding sample_loop init_sampler
  fcyc p nil comp plain = elim p.kbest [
    | none ↦ not_set
    | some kbest ↦ elim p.maxsamples [
      | none ↦ not_set
      | some maxsamples ↦ elim p.epsilon [
        | none ↦ not_set
        | some close ↦ elim p.compensate [
          | none ↦ not_set
          | some compensate ↦ elim p.clear_cache [
            | none ↦ not_set
            | some clear ↦
                if clear && (missing p.cache_bytes || missing p.cache_block)
                then not_set
                else finish (
                    sample_loop (suc maxsamples) (if compensate then comp else plain) kbest close
                      maxsamples (init_sampler nil))
          ]
        ]
      ]
    ]
  ]
