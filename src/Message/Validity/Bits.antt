-- ===== src/Message/Validity/Bits.antt =====
-- Single bits of words.
use adbc_driver_quack.Base.{
  ℕ, zero, suc, ◌-◌, ◌/◌, ◌%◌, ◌^◌, ◌≤◌, ◌<◌, bit_and, bit_or, ◌≡◌, refl, ap, ◌∙◌, ◌==◌, arith,
  if◌then◌else◌, ltb,
}
use adbc_driver_quack.Base.Bits.{bit_and-halves, bit_or-halves}
use native.Mathlib.Nat.{pow-suc, div-div-eq-div-mul, mul_comm}
use Prim.Native.Nat.{min, max}

-- Bit `k` of a word.
unfoldable pub bit_at : ℕ → ℕ → ℕ
bit_at w k = w / 2 ^ k % 2

pub bit_at-zero : (w : ℕ) → bit_at w 0 ≡ w % 2
unfolding bit_at
bit_at-zero w = omega arith

pub bit_at-lt-two : (w k : ℕ) → bit_at w k < 2
unfolding bit_at
bit_at-lt-two w k = omega arith

pub bit_at-suc : (w k : ℕ) → bit_at w (suc k) ≡ bit_at (w / 2) k
unfolding bit_at
bit_at-suc w k =
    ap (λ n. n % 2) (rw (pow-suc 2 k, mul_comm (2 ^ k) 2, div-div-eq-div-mul w 2 (2 ^ k)))

pub bit_at-bit_and : (a b k : ℕ) → bit_at (bit_and a b) k ≡ min (bit_at a k) (bit_at b k)
bit_at-bit_and a b zero =
    rw (bit_at-zero (bit_and a b), bit_at-zero a, bit_at-zero b) (omega (arith, bit_and-halves a b))
bit_at-bit_and a b (suc k) =
    let half : bit_and a b / 2 ≡ bit_and (a / 2) (b / 2) = omega (arith, bit_and-halves a b) in
    rw (bit_at-suc (bit_and a b) k, bit_at-suc a k, bit_at-suc b k, half)
      (bit_at-bit_and (a / 2) (b / 2) k)

pub bit_at-bit_or : (a b k : ℕ) → bit_at (bit_or a b) k ≡ max (bit_at a k) (bit_at b k)
bit_at-bit_or a b zero =
    rw (bit_at-zero (bit_or a b), bit_at-zero a, bit_at-zero b) (omega (arith, bit_or-halves a b))
bit_at-bit_or a b (suc k) =
    let half : bit_or a b / 2 ≡ bit_or (a / 2) (b / 2) = omega (arith, bit_or-halves a b) in
    rw (bit_at-suc (bit_or a b) k, bit_at-suc a k, bit_at-suc b k, half)
      (bit_at-bit_or (a / 2) (b / 2) k)

pub one-le-pow_two : (k : ℕ) → 1 ≤ 2 ^ k
one-le-pow_two zero = omega arith
one-le-pow_two (suc k) = omega (arith, pow-suc 2 k, one-le-pow_two k)

-- The bits of zero, of a power of two, of a number of ones, and of ones without one bit.
bit_at-none : (j : ℕ) → bit_at 0 j ≡ 0
bit_at-none zero = bit_at-zero 0
bit_at-none (suc j) = rw (bit_at-suc 0 j) (bit_at-none j)

pub bit_at-power : (k j : ℕ) → bit_at (2 ^ k) j ≡ (if j == k then 1 else 0)
bit_at-power zero zero = rw (bit_at-zero 1) refl
bit_at-power zero (suc j) = rw (bit_at-suc 1 j) (bit_at-none j ∙ ground arith)
bit_at-power (suc k) zero = rw (bit_at-zero (2 ^ suc k)) (ground (arith, pow-suc 2 k))
bit_at-power (suc k) (suc j) =
    let half : 2 ^ suc k / 2 ≡ 2 ^ k = omega (arith, pow-suc 2 k) in
    rw (bit_at-suc (2 ^ suc k) j, half) (bit_at-power k j ∙ ground arith)

pub bit_at-ones : (k j : ℕ) → bit_at (2 ^ k - 1) j ≡ (if ltb j k then 1 else 0)
bit_at-ones zero j = bit_at-none j ∙ ground arith
bit_at-ones (suc k) zero =
    let odd : (2 ^ suc k - 1) % 2 ≡ 1 = omega (arith, pow-suc 2 k, one-le-pow_two k) in
    rw (bit_at-zero (2 ^ suc k - 1), odd) (ground arith)
bit_at-ones (suc k) (suc j) =
    let half : (2 ^ suc k - 1) / 2 ≡ 2 ^ k - 1 = omega (arith, pow-suc 2 k) in
    rw (bit_at-suc (2 ^ suc k - 1) j, half) (bit_at-ones k j ∙ ground arith)

pub bit_at-without :
    (n k j : ℕ) → k < n → j < n → bit_at (2 ^ n - 1 - 2 ^ k) j ≡ (if j == k then 0 else 1)
bit_at-without zero k j hk hj = absurd (omega arith)
bit_at-without (suc n) zero zero hk hj =
    rw (bit_at-zero (2 ^ suc n - 1 - 1)) (ground (arith, pow-suc 2 n, one-le-pow_two n))
bit_at-without (suc n) zero (suc j) hk hj =
    let half : (2 ^ suc n - 1 - 1) / 2 ≡ 2 ^ n - 1 = omega (arith, pow-suc 2 n) in
    rw (bit_at-suc (2 ^ suc n - 1 - 1) j, half) (bit_at-ones n j ∙ ground arith)
bit_at-without (suc n) (suc k) zero hk hj =
    rw (bit_at-zero (2 ^ suc n - 1 - 2 ^ suc k))
      (ground (arith, pow-suc 2 n, pow-suc 2 k, power_lt k n))
  where
    power_lt : (a b : ℕ) → a < b → 2 ^ a < 2 ^ b
    power_lt a zero h = absurd (omega arith)
    power_lt zero (suc b) h = omega (arith, pow-suc 2 b, one-le-pow_two b)
    power_lt (suc a) (suc b) h = omega (arith, pow-suc 2 a, pow-suc 2 b, power_lt a b)
bit_at-without (suc n) (suc k) (suc j) hk hj =
    let half : (2 ^ suc n - 1 - 2 ^ suc k) / 2 ≡ 2 ^ n - 1 - 2 ^ k =
      omega (arith, pow-suc 2 n, pow-suc 2 k) in
    rw (bit_at-suc (2 ^ suc n - 1 - 2 ^ suc k) j, half)
      (bit_at-without n k j (omega arith) (omega arith) ∙ ground arith)
