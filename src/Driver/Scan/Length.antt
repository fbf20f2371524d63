-- ===== src/Driver/Scan/Length.antt =====
-- How many bytes a conversion leaves.
use malloc_for_c.Prelude.{
  ℕ, ◌+◌, ◌-◌, ◌*◌, ◌%◌, ◌^◌, ◌≤◌, ◌<◌, ◌≡◌, refl, ◌⊎◌, inl, inr, List, [], ◌∷◌, length, arith,
  Bool-cases, ◌==◌,
}
use malloc_for_c.Driver.Scan.{
  Scanned, eof, mismatch, got, is_digit, skip_space, read_digits, negate, scan_digits, scan_number,
  scan_int, skip_word, first_of_word, scan_word, skip_literal,
}

pub Scanned-cases :
    {A : Type 0} (r : Scanned A)
    → (r ≡ eof)
      ⊎ ((rest : List ℕ) × (r ≡ mismatch rest))
      ⊎ ((a : A) × (rest : List ℕ) × (r ≡ got a rest))
Scanned-cases eof = inl refl
Scanned-cases (mismatch rest) = inr (inl (rest, refl))
Scanned-cases (got a rest) = inr (inr (a, rest, refl))

-- Of the bytes that are left, at most `n`.
abbrev pub LeavesAtMost : {A : Type 0} → ℕ → Scanned A → Type 0
LeavesAtMost n eof = Unit {0}
LeavesAtMost n (mismatch rest) = length rest ≤ n
LeavesAtMost n (got a rest) = length rest ≤ n

length-skip_space : (s : List ℕ) → length (skip_space s) ≤ length s
unfolding skip_space
length-skip_space [] = omega arith
length-skip_space (c ∷ s) = ground (arith, length-skip_space s)

length-read_digits : (s : List ℕ) (n : ℕ) → length (read_digits n s).1 ≤ length s
unfolding read_digits
length-read_digits [] n = omega arith
length-read_digits (c ∷ s) n = elim (Bool-cases (is_digit c)) [
  | inl e ↦ rw e (omega (arith, length-read_digits s (n * 10 + (c - b'0'))))
  | inr e ↦ rw e (omega arith)
]

pub length-skip_literal : (c : ℕ) (s : List ℕ) → length (skip_literal c s) ≤ length s
unfolding skip_literal
length-skip_literal c [] = omega arith
length-skip_literal c (d ∷ s) = ground arith

scan_digits_leaves : (sign : ℕ → ℕ) (s : List ℕ) → LeavesAtMost (length s) (scan_digits sign s)
unfolding scan_digits
scan_digits_leaves sign [] = omega arith
scan_digits_leaves sign (c ∷ s) = elim (Bool-cases (is_digit c)) [
  | inl e ↦ rw e (length-read_digits (c ∷ s) 0)
  | inr e ↦ rw e (omega arith)
]

at-most-LeavesAtMost :
    {A : Type 0} (n m : ℕ) (r : Scanned A) → n ≤ m → LeavesAtMost n r → LeavesAtMost m r
at-most-LeavesAtMost n m eof le h = tt
at-most-LeavesAtMost n m (mismatch rest) le h = omega arith
at-most-LeavesAtMost n m (got a rest) le h = omega arith

scan_number_leaves : (s : List ℕ) → LeavesAtMost (length s) (scan_number s)
unfolding scan_number
scan_number_leaves [] = tt
scan_number_leaves (c ∷ s) = elim (Bool-cases (c == b'-')) [
  | inl minus ↦ rw minus (
      at-most-LeavesAtMost (length s) (length (c ∷ s)) _ (omega arith)
        (scan_digits_leaves negate s))
  | inr other ↦ elim (Bool-cases (c == b'+')) [
    | inl plus ↦
        rw (other, plus)
          (at-most-LeavesAtMost (length s) (length (c ∷ s)) _ (omega arith)
            (scan_digits_leaves (λ n. n % 2 ^ 32) s))
    | inr digit ↦ rw (other, digit) (scan_digits_leaves (λ n. n % 2 ^ 32) (c ∷ s))
  ]
]

pub scan_int_leaves : (s : List ℕ) → LeavesAtMost (length s) (scan_int s)
unfolding scan_int
scan_int_leaves s =
    at-most-LeavesAtMost (length (skip_space s)) (length s) _ (length-skip_space s)
      (scan_number_leaves (skip_space s))

length-skip_word : (s : List ℕ) → length (skip_word s) ≤ length s
unfolding skip_word
length-skip_word [] = omega arith
length-skip_word (c ∷ s) = ground (arith, length-skip_word s)

-- A word that is read is one byte at least.
abbrev pub Consumes : ℕ → Scanned ℕ → Type 0
Consumes n eof = Unit {0}
Consumes n (mismatch rest) = ⊥
Consumes n (got c rest) = length rest < n

first_of_word-Consumes : (s : List ℕ) (n : ℕ) → length s ≤ n → Consumes n (first_of_word s)
unfolding first_of_word
first_of_word-Consumes [] n le = tt
first_of_word-Consumes (c ∷ s) n le = omega (arith, length-skip_word s)

pub scan_word-Consumes : (s : List ℕ) → Consumes (length s) (scan_word s)
unfolding scan_word
scan_word-Consumes s = first_of_word-Consumes (skip_space s) (length s) (length-skip_space s)
