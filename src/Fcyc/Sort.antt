-- ===== src/Fcyc/Sort.antt =====
-- What the insertion of `add_sample` does to a sorted array.
use malloc_for_c.Prelude.{
  ℕ, zero, suc, ◌≤◌, ◌<◌, ◌≡◌, ◌≢◌, refl, sym, ap, ◌∙◌, subst, ◌⊎◌, inl, inr, true, false, ==-true,
  ==-false, Bool-cases, eq_cases, arith,
}
use malloc_for_c.Fcyc.{Order, set_at, swap, sift}

module _ {ℓ} {A : Type ℓ} where
  pub set_at_self : (p : ℕ) (x : A) (a : ℕ → A) → set_at p x a p ≡ x
  set_at_self p x a = rw (==-true p p refl)

  pub set_at-other : (p : ℕ) (x : A) (a : ℕ → A) (i : ℕ) → i ≢ p → set_at p x a i ≡ a i
  set_at-other p x a i h = rw (==-false i p h)

  swap-low : (q : ℕ) (a : ℕ → A) → swap q a q ≡ a (suc q)
  swap-low q a = set_at_self q (a (suc q)) (set_at (suc q) (a q) a)

  swap-high : (q : ℕ) (a : ℕ → A) → swap q a (suc q) ≡ a q
  swap-high q a =
      set_at-other q (a (suc q)) (set_at (suc q) (a q) a) (suc q) (omega arith)
      ∙ set_at_self (suc q) (a q) a

  swap-other : (q : ℕ) (a : ℕ → A) (i : ℕ) → i ≢ q → i ≢ suc q → swap q a i ≡ a i
  swap-other q a i h k =
      set_at-other q (a (suc q)) (set_at (suc q) (a q) a) i h ∙ set_at-other (suc q) (a q) a i k

module _ {ℓ} {A : Type ℓ} (o : Order A) where
  abbrev pub Le : A → A → Type 0
  Le x y = o.gt x y ≡ false

  -- The entries up to `n` are sorted.
  abbrev pub Sorted : ℕ → (ℕ → A) → Type 0
  Sorted n a = (i : ℕ) → i < n → Le (a i) (a (suc i))

  -- They are but for the one at `p`, which may belong further to the left.
  pub record SortedBut (p n : ℕ) (a : ℕ → A) : Type ℓ where
    others : (i : ℕ) → i < n → suc i ≢ p → Le (a i) (a (suc i))
    around : (j : ℕ) → p ≡ suc j → p < n → Le (a j) (a (suc p))

  swap-SortedBut :
      (q n : ℕ) (a : ℕ → A)
      → suc q ≤ n
      → SortedBut (suc q) n a
      → o.gt (a q) (a (suc q)) ≡ true
      → SortedBut q n (swap q a)
  swap-SortedBut q n a le s g = record {
    others = λ i lt ne. elim (eq_cases i q) [
      | inl here ↦ rw (here, swap-low q a, swap-high q a) (o.gt-asymmetric (a q) (a (suc q)) g)
      | inr far ↦ elim (eq_cases i (suc q)) [
        | inl next ↦
            rw (next, swap-high q a, swap-other q a (suc (suc q)) (omega arith) (omega arith))
              (s.around q refl (omega arith))
        | inr off ↦
            rw (swap-other q a i far off, swap-other q a (suc i) ne (omega arith))
              (s.others i lt (omega arith))
      ]
    ];
    around = λ j e lt.
        rw (swap-other q a j (omega arith) (omega arith), swap-high q a)
          (subst (λ w. Le (a j) (a w)) (sym e) (s.others j (omega arith) (omega arith)));
  }

  pub sift-Sorted : (p n : ℕ) (a : ℕ → A) → p ≤ n → SortedBut p n a → Sorted n (sift o p a)
  unfolding sift
  sift-Sorted zero n a le s i lt = s.others i lt (omega arith)
  sift-Sorted (suc q) n a le s i lt = elim (Bool-cases (o.gt (a q) (a (suc q)))) [
    | inl g ↦ rw g (sift-Sorted q n (swap q a) (omega arith) (swap-SortedBut q n a le s g) i lt)
    | inr stop ↦
        rw stop
          (elim (eq_cases i q) [ inl here ↦ rw here stop | inr off ↦ s.others i lt (omega arith) ])
  ]

  -- Every entry stays one, and no other comes in.
  pub sift-kept :
      (p n : ℕ) (a : ℕ → A) (i : ℕ) → p ≤ n → i ≤ n → (j : ℕ) × (j ≤ n) × (sift o p a j ≡ a i)
  unfolding sift
  sift-kept zero n a i le h = (i, h, refl)
  sift-kept (suc q) n a i le h = elim (Bool-cases (o.gt (a q) (a (suc q)))) [
    | inr stop ↦ rw stop (i, h, refl)
    | inl g ↦ rw g (elim (eq_cases i q) [
      | inl here ↦
          let (j, b, e) = sift-kept q n (swap q a) (suc q) (omega arith) le in
          (j, b, e ∙ swap-high q a ∙ ap a (sym here))
      | inr far ↦ elim (eq_cases i (suc q)) [
        | inl next ↦
            let (j, b, e) = sift-kept q n (swap q a) q (omega arith) (omega arith) in
            (j, b, e ∙ swap-low q a ∙ ap a (sym next))
        | inr off ↦
            let (j, b, e) = sift-kept q n (swap q a) i (omega arith) h in
            (j, b, e ∙ swap-other q a i far off)
      ]
    ])
  ]

  pub sift-from :
      (p n : ℕ) (a : ℕ → A) (i : ℕ) → p ≤ n → i ≤ n → (j : ℕ) × (j ≤ n) × (sift o p a i ≡ a j)
  unfolding sift
  sift-from zero n a i le h = (i, h, refl)
  sift-from (suc q) n a i le h = elim (Bool-cases (o.gt (a q) (a (suc q)))) [
    | inr stop ↦ rw stop (i, h, refl)
    | inl g ↦
        let (j, b, e) = sift-from q n (swap q a) i (omega arith) h in
        rw g (elim (eq_cases j q) [
          | inl here ↦ (suc q, le, e ∙ ap (swap q a) here ∙ swap-low q a)
          | inr far ↦ elim (eq_cases j (suc q)) [
            | inl next ↦ (q, omega arith, e ∙ ap (swap q a) next ∙ swap-high q a)
            | inr off ↦ (j, b, e ∙ swap-other q a j far off)
          ]
        ])
  ]

  -- The first entry of a sorted array is the least.
  pub first_least : (n : ℕ) (a : ℕ → A) → Sorted n a → (i : ℕ) → i ≤ n → Le (a 0) (a i)
  first_least n a s zero h = o.gt-irreflexive (a 0)
  first_least n a s (suc i) h =
      o.le-transitive (a 0) (a i) (a (suc i)) (first_least n a s i (omega arith))
        (s i (omega arith))

  -- A value is put behind the first `q` entries, which are sorted, and sifted.
  pub record Inserted (q : ℕ) (val : A) (a b : ℕ → A) : Type ℓ where
    pub sorted : Sorted q b
    pub below_val : Le (b 0) val
    pub below_first : 0 < q → Le (b 0) (a 0)
    pub from : (i : ℕ) → i ≤ q → (b i ≡ val) ⊎ ((j : ℕ) × (j < q) × (b i ≡ a j))

  pub insert_lem :
      (q : ℕ) (val : A) (a : ℕ → A)
      → ((i : ℕ) → suc i < q → Le (a i) (a (suc i)))
      → Inserted q val a (sift o q (set_at q val a))
  insert_lem q val a s =
      let c = set_at q val a in
      let sorted : Sorted q (sift o q c) = sift-Sorted q q c (omega arith) (record {
        others = λ i lt ne.
            rw (set_at-other q val a i (omega arith), set_at-other q val a (suc i) ne)
              (s i (omega arith));
        around = λ j e lt. absurd (omega arith);
      }) in
      record {
        sorted = sorted;
        below_val =
            let (j, le, e) = sift-kept q q c q (omega arith) (omega arith) in
            subst (λ w. Le (sift o q c 0) w) (e ∙ set_at_self q val a)
              (first_least q (sift o q c) sorted j le);
        below_first = λ pos.
            let (j, le, e) = sift-kept q q c 0 (omega arith) (omega arith) in
            subst (λ w. Le (sift o q c 0) w) (e ∙ set_at-other q val a 0 (omega arith))
              (first_least q (sift o q c) sorted j le);
        from = λ i h.
            let (j, le, e) = sift-from q q c i (omega arith) h in
            elim (eq_cases j q) [
              | inl here ↦ inl (e ∙ ap c here ∙ set_at_self q val a)
              | inr off ↦ inr (j, omega arith, e ∙ set_at-other q val a j off)
            ];
      }
