-- ===== src/Memory/Words.antt =====
-- A word that was written is read back, and a write changes no other byte.
use native.Mathlib.Nat.{pow-suc}
use malloc_for_c.Prelude.{
  ℕ, zero, suc, ◌+◌, ◌-◌, ◌/◌, ◌%◌, ◌^◌, ◌≤◌, ◌<◌, ◌≡◌, refl, ap, ◌∙◌, ◌⊎◌, arith,
}
use malloc_for_c.Memory.{Mem, byte_of, read_bytes, word, put}

pub put-byte_off : (m : Mem) (a v q : ℕ) → (q < a) ⊎ (a + 8 ≤ q) → put m a v q ≡ m q
unfolding put
put-byte_off m a v q h = ground arith

put-byte_in : (m : Mem) (a v i : ℕ) → i < 8 → put m a v (a + i) ≡ byte_of v i
unfolding put
put-byte_in m a v i h = let e : a + i - a ≡ i = omega arith in ground (arith, ap (byte_of v) e)

read_bytes-same :
    (n : ℕ) (m m' : Mem) (a : ℕ)
    → ((q : ℕ) → a ≤ q → q < a + n → m' q ≡ m q)
    → read_bytes n m' a ≡ read_bytes n m a
unfolding read_bytes
read_bytes-same zero m m' a h = refl
read_bytes-same (suc n) m m' a h = omega (
  arith,
  h a (omega arith) (omega arith),
  read_bytes-same n m m' (a + 1) (λ q lo hi. h q (omega arith) (omega arith)),
)

-- A word is the same where its eight bytes are.
pub word-same :
    (m m' : Mem) (a : ℕ) → ((q : ℕ) → a ≤ q → q < a + 8 → m' q ≡ m q) → word m' a ≡ word m a
unfolding word
word-same m m' a h = read_bytes-same 8 m m' a h

-- Bytes that spell out a number are read as that number.
read_bytes_lem :
    (n : ℕ) (m : Mem) (a v : ℕ)
    → ((i : ℕ) → i < n → m (a + i) ≡ byte_of v i)
    → v < 256 ^ n
    → read_bytes n m a ≡ v
unfolding read_bytes byte_of
read_bytes_lem zero m a v h lt = omega arith
read_bytes_lem (suc n) m a v h lt =
    let lo : m a ≡ v % 256 = ap m (omega arith) ∙ h 0 (omega arith) in
    let hi : read_bytes n m (a + 1) ≡ v / 256 =
      read_bytes_lem n m (a + 1) (v / 256) (λ i p. ap m (omega arith) ∙ h (suc i) (omega arith))
        (omega (arith, pow-suc 256 n)) in
    omega arith

pub word-put_self : (m : Mem) (a v : ℕ) → v < 2 ^ 64 → word (put m a v) a ≡ v
unfolding word
word-put_self m a v lt =
    read_bytes_lem 8 (put m a v) a v (λ i p. put-byte_in m a v i p) (omega arith)

pub word-put_off : (m : Mem) (a v b : ℕ) → (b + 8 ≤ a) ⊎ (a + 8 ≤ b) → word (put m a v) b ≡ word m b
word-put_off m a v b h = word-same m (put m a v) b (λ q lo hi. put-byte_off m a v q (omega arith))
