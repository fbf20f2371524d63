-- ===== src/Fcyc/Least.antt =====
-- The samples that `add_sample` keeps, the loop of `fcyc`, and its result.
use malloc_for_c.Prelude.{
  ℕ, zero, suc, ◌+◌, ◌-◌, ◌≤◌, ◌<◌, ◌≡◌, refl, sym, ◌∙◌, subst, ◌⊎◌, inl, inr, Bool, true, some,
  ltb-true, ltb-false, Bool-cases, eq_cases, lt_cases, arith,
}
use malloc_for_c.Fcyc.{
  Order, Sampler, Params, Outcome, timed, init_sampler, set_at, sift, add_sample, has_converged,
  sample_loop,
}
use malloc_for_c.Fcyc.Sort.{Le, first_least, Inserted, insert_lem}

module _ {ℓ} {A : Type ℓ} (o : Order A) (k : ℕ) (measure : ℕ → A) where
  -- The first `k` entries hold timings, in ascending order, and no timing is below the first entry.
  pub record Kept (s : Sampler A) : Type ℓ where
    pub sorted : (i : ℕ) → suc i < s.samplecount → suc i < k → Le o (s.values i) (s.values (suc i))
    pub least : (i : ℕ) → i < s.samplecount → Le o (s.values 0) (measure i)
    pub taken :
        (j : ℕ)
        → j < s.samplecount
        → j < k
        → (i : ℕ) × (i < s.samplecount) × (s.values j ≡ measure i)

  pub init-Kept : (nil : A) → Kept (init_sampler nil)
  unfolding init_sampler
  init-Kept nil = record {
    sorted = λ i h g. absurd (omega arith);
    least = λ i h. absurd (omega arith);
    taken = λ j h g. absurd (omega arith);
  }

  -- A timing that is put at `q`: behind the others, or in place of the greatest of `k`.
  Inserted-Kept :
      (s : Sampler A) (q : ℕ) (b : ℕ → A)
      → Kept s
      → q < k
      → q ≤ s.samplecount
      → (s.samplecount < k → q ≡ s.samplecount)
      → (k ≤ s.samplecount → (suc q ≡ k) × Le o (measure s.samplecount) (s.values q))
      → Inserted o q (measure s.samplecount) s.values b
      → Kept (record { values = b; samplecount = suc s.samplecount })
  Inserted-Kept s q b i lt le start full ins =
      let c = s.samplecount in
      record {
        sorted = λ j h g. ins.sorted j (elim (lt_cases c k) [
          | inl few ↦ omega (arith, start few)
          | inr many ↦ omega (arith, (full many).0)
        ]);
        least = λ j h. elim (eq_cases j c) [
          | inl here ↦ subst (λ w. Le o (b 0) (measure w)) (sym here) ins.below_val
          | inr old ↦ elim (eq_cases q 0) [
            | inr some_left ↦
                o.le-transitive (b 0) (s.values 0) (measure j) (ins.below_first (omega arith))
                  (i.least j (omega arith))
            | inl alone ↦ elim (lt_cases c k) [
              | inl few ↦ absurd (omega (arith, start few))
              | inr many ↦ o.le-transitive (b 0) (measure c) (measure j) ins.below_val (
                  o.le-transitive (measure c) (s.values 0) (measure j)
                    (subst (λ w. Le o (measure c) (s.values w)) alone (full many).1)
                    (i.least j (omega arith)))
            ]
          ]
        ];
        taken = λ j h g.
            let bound : j ≤ q = elim (lt_cases c k) [
              | inl few ↦ omega (arith, start few)
              | inr many ↦ omega (arith, (full many).0)
            ] in
            elim (ins.from j bound) [
              | inl new ↦ (c, omega arith, new)
              | inr (x, below, e) ↦
                  let (y, lt_y, f) = i.taken x (omega arith) (omega arith) in
                  (y, omega arith, e ∙ f)
            ];
      }

  pub add-Kept : (s : Sampler A) → 0 < k → Kept s → Kept (add_sample o k (measure s.samplecount) s)
  unfolding add_sample
  add-Kept s pos i =
      let c = s.samplecount in
      let val = measure c in
      elim (lt_cases c k) [
        | inl few ↦ rw (ltb-true c k few) (
            Inserted-Kept s c (sift o c (set_at c val s.values)) i few (omega arith) (λ h. refl)
              (λ h. absurd (omega arith))
              (insert_lem o c val s.values (λ j h. i.sorted j h (omega arith))))
        | inr many ↦
            let p = k - 1 in
            rw (ltb-false c k many) (elim (Bool-cases (o.gt (s.values p) val)) [
              | inl less ↦ rw less (
                  Inserted-Kept s p (sift o p (set_at p val s.values)) i (omega arith) (omega arith)
                    (λ h. absurd (omega arith))
                    (λ h. (omega arith, o.gt-asymmetric (s.values p) val less))
                    (insert_lem o p val s.values (λ j h. i.sorted j (omega arith) (omega arith))))
              | inr keep ↦ rw keep (record {
                sorted = λ j h g. i.sorted j (omega arith) g;
                least = λ j h. elim (eq_cases j c) [
                  | inl here ↦
                      subst (λ w. Le o (s.values 0) (measure w)) (sym here)
                        (o.le-transitive (s.values 0) (s.values p) val
                          (first_least o p s.values (λ x h. i.sorted x (omega arith) (omega arith))
                            p (omega arith))
                          keep)
                  | inr old ↦ i.least j (omega arith)
                ];
                taken =
                    λ j h g. let (y, lt_y, f) = i.taken j (omega arith) g in (y, omega arith, f);
              })
            ])
      ]

  add_count :
      (s : Sampler A) → (add_sample o k (measure s.samplecount) s).samplecount ≡ suc s.samplecount
  unfolding add_sample
  add_count s = refl

  -- Where the loop ends: after one timing at least, and as soon as it may.
  pub record Stopped (close : A → A → Bool) (maxsamples from : ℕ) (s : Sampler A) : Type ℓ where
    pub kept : Kept s
    pub more : from < s.samplecount
    pub bounded : (s.samplecount ≤ suc from) ⊎ (s.samplecount ≤ maxsamples)
    pub reason : (has_converged o k close s ≡ true) ⊎ (maxsamples ≤ s.samplecount)

  pub loop-Stopped :
      (close : A → A → Bool) (maxsamples fuel : ℕ) (s : Sampler A)
      → 0 < k
      → Kept s
      → maxsamples < fuel + s.samplecount
      → 0 < fuel
      → (s' : Sampler A) × (sample_loop o fuel measure k close maxsamples s ≡ some s')
        × Stopped close maxsamples s.samplecount s'
  unfolding sample_loop
  loop-Stopped close maxsamples zero s pos i enough some_fuel = absurd (omega arith)
  loop-Stopped close maxsamples (suc fuel) s pos i enough some_fuel =
      let s' = add_sample o k (measure s.samplecount) s in
      let kept = add-Kept s pos i in
      let count : s'.samplecount ≡ suc s.samplecount = add_count s in
      elim (Bool-cases (has_converged o k close s')) [
        | inl converged ↦ (
          s',
          rw converged refl,
          record {
            kept = kept;
            more = omega (arith, count);
            bounded = inl (omega (arith, count));
            reason = inl converged;
          },
        )
        | inr not_yet ↦ elim (lt_cases s'.samplecount maxsamples) [
          | inr all ↦ (
            s',
            rw (not_yet, ltb-false s'.samplecount maxsamples all) refl,
            record {
              kept = kept;
              more = omega (arith, count);
              bounded = inl (omega (arith, count));
              reason = inr all;
            },
          )
          | inl left ↦
              let (t, run, d) =
                loop-Stopped close maxsamples fuel s' pos kept (omega (arith, count))
                  (omega (arith, count)) in
              (
                t,
                rw (not_yet, ltb-true s'.samplecount maxsamples left) run,
                record {
                  kept = d.kept;
                  more = omega (arith, d.more, count);
                  bounded =
                      inr (elim d.bounded [ inl one ↦ omega arith | inr some_left ↦ some_left ]);
                  reason = d.reason;
                },
              )
        ]
      ]

-- The result of `fcyc` is the least of the timings it took.
pub record LeastTiming {ℓ} {A : Type ℓ} (o : Order A) (measure : ℕ → A) (maxsamples : ℕ)
    (run : Outcome A) : Type ℓ where
  pub result : A
  pub taken : ℕ
  pub ends : run ≡ timed result taken
  pub positive : 0 < taken
  pub bounded : (taken ≤ 1) ⊎ (taken ≤ maxsamples)
  pub least : (i : ℕ) → i < taken → Le o result (measure i)
  pub among : (i : ℕ) × (i < taken) × (result ≡ measure i)

abbrev pub all_set {ℓ} : {A : Type ℓ} → ℕ → ℕ → (A → A → Bool) → Bool → Bool → ℕ → ℕ → Params A
all_set k maxsamples close compensate clear bytes block = record {
  kbest = some k;
  maxsamples = some maxsamples;
  epsilon = some close;
  compensate = some compensate;
  clear_cache = some clear;
  cache_bytes = some bytes;
  cache_block = some block;
}
