-- ===== src/Mm/Session/Payloads.antt =====
-- The pointers that a client holds against the blocks in use.
use malloc_for_c.Prelude.{
  ℕ, ◌+◌, ◌<◌, ◌≡◌, refl, ap, inl, inr, List, [], ◌∷◌, ◌++◌, count, arith, eq_cases,
}
use malloc_for_c.Memory.{Ptr}

-- Where the payloads of the blocks start.
abbrev pub payloads : List (Ptr × ℕ) → List Ptr
payloads [] = []
payloads ((p, n) ∷ us) = (p + 8) ∷ payloads us

pub count-insert :
    (x : Ptr) (u : List (Ptr × ℕ)) (p n : ℕ) (v : List (Ptr × ℕ))
    → count x (payloads (u ++ (p, n) ∷ v)) ≡ count x ((p + 8) ∷ payloads (u ++ v))
count-insert x [] p n v = refl
count-insert x (e ∷ u) p n v = ground (arith, count-insert x u p n v)

pub count-middle :
    (x : Ptr) (l : List Ptr) (p : Ptr) (r : List Ptr)
    → count x (l ++ p ∷ r) ≡ count x (p ∷ (l ++ r))
count-middle x [] p r = refl
count-middle x (y ∷ l) p r = ground (arith, count-middle x l p r)

-- A pointer among the payloads belongs to a block in use.
pub payload_entry :
    (q : Ptr) (us : List (Ptr × ℕ))
    → 0 < count q (payloads us)
    → (u : List (Ptr × ℕ)) × (x : Ptr) × (k : ℕ) × (v : List (Ptr × ℕ)) × (us ≡ u ++ (x, k) ∷ v)
      × (q ≡ x + 8)
payload_entry q [] h = absurd (omega arith)
payload_entry q ((p, n) ∷ us) h = elim (eq_cases q (p + 8)) [
  | inl here ↦ ([], p, n, us, refl, here)
  | inr there ↦
      let (u, x, k, v, e, f) = payload_entry q us (ground arith) in
      ((p, n) ∷ u, x, k, v, ap (λ w. (p, n) ∷ w) e, f)
]
