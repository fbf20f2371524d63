-- ===== src/Driver/Scan.antt =====
-- The conversions of the C library's `fscanf` that mdriver.c uses, on the bytes that are left of a
-- file. A number is taken modulo 2^32, as the pattern of an `int` or an `unsigned`.
pub mod Decimal
pub mod Length
use malloc_for_c.Prelude.{
  ℕ, suc, ◌+◌, ◌-◌, ◌*◌, ◌%◌, ◌^◌, Bool, ◌&&◌, ◌||◌, List, [], ◌∷◌, leb, ◌==◌, if◌then◌else◌,
}

-- What a conversion comes to: the end of the file, a text that does not fit, or a value; and the
-- bytes that are left.
pub data Scanned (A : Type 0) : Type 0 where
  eof : Scanned A
  mismatch : List ℕ → Scanned A
  got : A → List ℕ → Scanned A

abbrev pub is_space : ℕ → Bool
is_space c = c == b' ' || (leb 9 c && leb c 13)

abbrev pub is_digit : ℕ → Bool
is_digit c = leb b'0' c && leb c b'9'

unfoldable pub skip_space : List ℕ → List ℕ
skip_space [] = []
skip_space (c ∷ s) = if is_space c then skip_space s else c ∷ s

-- The number that the digits spell behind `n`.
unfoldable pub read_digits : ℕ → List ℕ → ℕ × List ℕ
read_digits n [] = (n, [])
read_digits n (c ∷ s) = if is_digit c then read_digits (n * 10 + (c - b'0')) s else (n, c ∷ s)

abbrev pub negate : ℕ → ℕ
negate n = (2 ^ 32 - n % 2 ^ 32) % 2 ^ 32

unfoldable pub scan_digits : (ℕ → ℕ) → List ℕ → Scanned ℕ
scan_digits sign [] = mismatch []
scan_digits sign (c ∷ s) =
    if is_digit c
    then (let (n, rest) = read_digits 0 (c ∷ s) in got (sign n) rest)
    else mismatch (c ∷ s)

-- The text behind the white space, for `%d` and `%u`.
unfoldable pub scan_number : List ℕ → Scanned ℕ
unfolding scan_digits
scan_number [] = eof
scan_number (c ∷ s) =
    if c == b'-'
    then scan_digits negate s
    else if c == b'+'
    then scan_digits (λ n. n % 2 ^ 32) s
    else scan_digits (λ n. n % 2 ^ 32) (c ∷ s)

unfoldable pub scan_int : List ℕ → Scanned ℕ
unfolding skip_space scan_number
scan_int s = scan_number (skip_space s)

-- The rest behind a word.
unfoldable pub skip_word : List ℕ → List ℕ
skip_word [] = []
skip_word (c ∷ s) = if is_space c then c ∷ s else skip_word s

unfoldable pub first_of_word : List ℕ → Scanned ℕ
unfolding skip_word
first_of_word [] = eof
first_of_word (c ∷ s) = got c (skip_word s)

-- `%s`, of which mdriver.c uses the first character.
unfoldable pub scan_word : List ℕ → Scanned ℕ
unfolding skip_space first_of_word
scan_word s = first_of_word (skip_space s)

-- A character of the format that is not a conversion.
unfoldable pub skip_literal : ℕ → List ℕ → List ℕ
skip_literal literal [] = []
skip_literal literal (c ∷ s) = if c == literal then s else c ∷ s
