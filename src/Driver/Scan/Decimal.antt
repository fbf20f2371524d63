-- ===== src/Driver/Scan/Decimal.antt =====
-- Numbers in decimal digits, and the conversions on them.
use malloc_for_c.Prelude.{
  ℕ, zero, suc, ◌+◌, ◌-◌, ◌*◌, ◌/◌, ◌%◌, ◌^◌, ◌<◌, ◌≡◌, refl, sym, ◌∙◌, ap, true, false, List, [],
  ◌∷◌, ◌++◌, append_assoc, arith, ltb, ltb-true, ltb-false, leb-true, leb-false, inl, inr,
  if◌then◌else◌, lt_cases, ◌==◌,
}
use malloc_for_c.Driver.{negative}
use malloc_for_c.Driver.Scan.{
  got, is_space, is_digit, skip_space, read_digits, negate, scan_digits, scan_number, scan_int,
}

-- The digits of a number, for more rounds than it has digits.
decimal_rounds : ℕ → ℕ → List ℕ
decimal_rounds zero n = []
decimal_rounds (suc f) n =
    (if ltb n 10 then [] else decimal_rounds f (n / 10)) ++ (b'0' + n % 10) ∷ []

unfoldable pub decimal : ℕ → List ℕ
unfolding decimal_rounds
decimal n = decimal_rounds (suc n) n

read_digit :
    (n d : ℕ) (s : List ℕ) → d < 10 → read_digits n ((b'0' + d) ∷ s) ≡ read_digits (n * 10 + d) s
unfolding read_digits
read_digit n d s h =
    let same : b'0' + d - b'0' ≡ d = omega arith in
    let digit : is_digit (b'0' + d) ≡ true = ground arith in rw (digit, same)

-- Behind the digits of a number, the reader has the number.
read_digits-rounds :
    (f n : ℕ) (s : List ℕ) → n < f → read_digits 0 (decimal_rounds f n ++ s) ≡ read_digits n s
unfolding decimal_rounds
read_digits-rounds zero n s lt = absurd (omega arith)
read_digits-rounds (suc f) n s lt = elim (lt_cases n 10) [
  | inl small ↦
      let same : 0 * 10 + n % 10 ≡ n = omega arith in
      rw (ltb-true n 10 small, read_digit 0 (n % 10) s (omega arith), same)
  | inr large ↦
      let same : n / 10 * 10 + n % 10 ≡ n = omega arith in
      rw (
        ltb-false n 10 large,
        append_assoc (decimal_rounds f (n / 10)) ((b'0' + n % 10) ∷ []) s,
        read_digits-rounds f (n / 10) ((b'0' + n % 10) ∷ s) (omega arith),
        read_digit (n / 10) (n % 10) s (omega arith),
        same,
      )
]

first_digit :
    (f n : ℕ) (s : List ℕ)
    → (d : ℕ) × (s' : List ℕ) × (decimal_rounds (suc f) n ++ s ≡ d ∷ s') × (is_digit d ≡ true)
unfolding decimal_rounds
first_digit zero n s = elim (lt_cases n 10) [
  | inl small ↦ (b'0' + n % 10, s, rw (ltb-true n 10 small) refl, ground arith)
  | inr large ↦ (b'0' + n % 10, s, rw (ltb-false n 10 large) refl, ground arith)
]
first_digit (suc f) n s = elim (lt_cases n 10) [
  | inl small ↦ (b'0' + n % 10, s, rw (ltb-true n 10 small) refl, ground arith)
  | inr large ↦
      let (d, s', e, digit) = first_digit f (n / 10) ((b'0' + n % 10) ∷ s) in
      (
        d,
        s',
        rw
            (
              ltb-false n 10 large,
              append_assoc (decimal_rounds (suc f) (n / 10)) ((b'0' + n % 10) ∷ []) s,
            )
            e,
        digit,
      )
]

read_digits-end : (n c : ℕ) (s : List ℕ) → is_digit c ≡ false → read_digits n (c ∷ s) ≡ (n, c ∷ s)
unfolding read_digits
read_digits-end n c s ends = rw ends refl

-- A number that a character follows which is no digit.
scan_digits-decimal :
    (sign : ℕ → ℕ) (n c : ℕ) (s : List ℕ)
    → is_digit c ≡ false
    → scan_digits sign (decimal n ++ c ∷ s) ≡ got (sign n) (c ∷ s)
unfolding decimal scan_digits
scan_digits-decimal sign n c s ends =
    let (d, s', e, digit) = first_digit n n (c ∷ s) in
    let whole : read_digits 0 (d ∷ s') ≡ (n, c ∷ s) =
      ap (read_digits 0) (sym e)
      ∙ read_digits-rounds (suc n) n (c ∷ s) (omega arith)
      ∙ read_digits-end n c s ends in
    rw (e, digit, whole) refl

-- An `int` in digits, with its sign.
unfoldable pub int_text : ℕ → List ℕ
unfolding decimal
int_text n = if negative n then b'-' ∷ decimal (2 ^ 32 - n) else decimal n

decimal-first :
    (n d c : ℕ) (s s' : List ℕ)
    → decimal_rounds (suc n) n ++ c ∷ s ≡ d ∷ s'
    → decimal n ++ c ∷ s ≡ d ∷ s'
unfolding decimal
decimal-first n d c s s' e = e

scan_number-int_text :
    (n c : ℕ) (s : List ℕ)
    → n < 2 ^ 32
    → is_digit c ≡ false
    → scan_number (skip_space (int_text n ++ c ∷ s)) ≡ got n (c ∷ s)
unfolding int_text scan_number skip_space
scan_number-int_text n c s lt ends = elim (lt_cases n (2 ^ 31)) [
  | inr below_zero ↦
      let sign : negate (2 ^ 32 - n) ≡ n = omega arith in
      rw (leb-true (2 ^ 31) n below_zero)
        (scan_digits-decimal negate (2 ^ 32 - n) c s ends ∙ ap (λ w. got w (c ∷ s)) sign)
  | inl from_zero ↦
      let (d, s', e, digit) = first_digit n n (c ∷ s) in
      let same : n % 2 ^ 32 ≡ n = omega arith in
      let starts : decimal n ++ c ∷ s ≡ d ∷ s' = decimal-first n d c s s' e in
      let space : is_space d ≡ false = ground arith in
      let minus : (d == b'-') ≡ false = ground arith in
      let plus : (d == b'+') ≡ false = ground arith in
      rw (leb-false (2 ^ 31) n from_zero, starts, space, minus, plus)
        (ap (scan_digits (λ k. k % 2 ^ 32)) (sym starts)
          ∙ scan_digits-decimal (λ k. k % 2 ^ 32) n c s ends
          ∙ ap (λ w. got w (c ∷ s)) same)
]

-- `%d` and `%u` read an `int` back, behind a space or the end of a line.
pub scan_int-int_text :
    (n c : ℕ) (s : List ℕ)
    → n < 2 ^ 32
    → is_digit c ≡ false
    → (scan_int (int_text n ++ c ∷ s) ≡ got n (c ∷ s))
      × (scan_int (b' ' ∷ (int_text n ++ c ∷ s)) ≡ got n (c ∷ s))
      × (scan_int (10 ∷ (int_text n ++ c ∷ s)) ≡ got n (c ∷ s))
unfolding scan_int int_text scan_number skip_space
scan_int-int_text n c s lt ends =
    let read = scan_number-int_text n c s lt ends in (read, read, read)
