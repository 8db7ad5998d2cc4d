-- ===== src/Base/Bits.antt =====
-- The machine's `&` and `|` in plain arithmetic: a low mask, and the union of disjoint fields.
use Prim.Native.Nat.{
  ℕ, zero, suc, ◌+◌, ◌-◌, ◌*◌, ◌/◌, ◌%◌, ◌^◌, ◌≤◌, ◌<◌, min, max, bit_and, bit_or, digits, bitwise,
  bit_and-bitwise, bit_or-bitwise,
}
use mathlib.Core.Path.{◌≡◌, refl, ap}
use native.Mathlib.Nat.{pow-suc, one-le-pow, mul-one, div-one, div-div-eq-div-mul, mul_comm}
use native.Mathlib.Omega.{arith}

-- Two supplies of fuel that cover the first operand give the same digits.
module _ (tail : ℕ → ℕ) (join : ℕ → ℕ → ℕ) where
  same_digits : (k l x y : ℕ) → (x ≤ k) × (x ≤ l) → digits tail join k x y ≡ digits tail join l x y
  same_digits zero zero zero y h = refl
  same_digits zero l (suc x) y h = absurd (omega arith)
  same_digits (suc k) zero (suc x) y h = absurd (omega arith)
  same_digits zero (suc l) zero y h = refl
  same_digits (suc k) zero zero y h = refl
  same_digits (suc k) (suc l) zero y h = refl
  same_digits (suc k) (suc l) (suc x) y h =
      let half = same_digits k l (suc x / 2) (y / 2) (omega arith, omega arith) in rw half refl

  lowest_digit :
      (x y : ℕ)
      → bitwise tail join (suc x) y
        ≡ join (suc x % 2) (y % 2) + 2 * bitwise tail join (suc x / 2) (y / 2)
  lowest_digit x y =
      let half = same_digits x (suc x / 2) (suc x / 2) (y / 2) (omega arith, omega arith) in
      omega (arith, half)

-- The lowest bit of a union and of an intersection, and the bits above it.
pub bit_or-halves : (x y : ℕ) → bit_or x y ≡ max (x % 2) (y % 2) + 2 * bit_or (x / 2) (y / 2)
bit_or-halves zero y = simp bit_or-bitwise (omega arith)
bit_or-halves (suc x) y = simp bit_or-bitwise (lowest_digit (λ w. w) max x y)

pub bit_and-halves : (x y : ℕ) → bit_and x y ≡ min (x % 2) (y % 2) + 2 * bit_and (x / 2) (y / 2)
bit_and-halves zero y = simp bit_and-bitwise (omega arith)
bit_and-halves (suc x) y = simp bit_and-bitwise (lowest_digit (λ w. 0) min x y)

pub zero-bit_or : (b : ℕ) → bit_or 0 b ≡ b
zero-bit_or b = simp bit_or-bitwise (omega arith)

bit_and-zero_below : (n a : ℕ) → a < n → bit_and a 0 ≡ 0
bit_and-zero_below zero a h = absurd (omega arith)
bit_and-zero_below (suc n) zero h = refl
bit_and-zero_below (suc n) (suc a) h =
    let half = bit_and-zero_below n (suc a / 2) (omega arith) in
    omega (arith, half, bit_and-halves (suc a) 0)

pub bit_and-zero : (a : ℕ) → bit_and a 0 ≡ 0
bit_and-zero a = bit_and-zero_below (suc a) a (omega arith)

double_shift : (x s : ℕ) → x * 2 ^ suc s ≡ 2 * (x * 2 ^ s)
double_shift x s = omega (arith, ap (λ (t : ℕ). x * t) (pow-suc 2 s))

-- `a | x << s` is a sum when `a` lies below bit `s`.
pub bit_or_disjoint : (s a x : ℕ) → a < 2 ^ s → bit_or a (x * 2 ^ s) ≡ a + x * 2 ^ s
bit_or_disjoint zero a x h = ground (arith, zero-bit_or x)
bit_or_disjoint (suc s) a x h = ground (
  arith,
  bit_or-halves a (x * 2 ^ suc s),
  double_shift x s,
  pow-suc 2 s,
  bit_or_disjoint s (a / 2) x (omega (arith, pow-suc 2 s)),
)

-- `a & (2 ^ k - 1)` is the remainder by `2 ^ k`.
bit_and_split : (k q r : ℕ) → r < 2 ^ k → bit_and (q * 2 ^ k + r) (2 ^ k - 1) ≡ r
bit_and_split zero q r h = rw bit_and-zero (omega arith)
bit_and_split (suc k) q r h = ground (
  arith,
  bit_and-halves (q * 2 ^ suc k + r) (2 ^ suc k - 1),
  double_shift q k,
  pow-suc 2 k,
  bit_and_split k q (r / 2) (omega (arith, pow-suc 2 k)),
)

pub bit_and_mask : (k a : ℕ) → bit_and a (2 ^ k - 1) ≡ a % 2 ^ k
bit_and_mask k a = ground (arith, one-le-pow k 2, bit_and_split k (a / 2 ^ k) (a % 2 ^ k))

half_power : (b k : ℕ) → b / 2 ^ suc k ≡ b / 2 / 2 ^ k
half_power b k = rw (pow-suc 2 k, mul_comm (2 ^ k) 2, div-div-eq-div-mul b 2 (2 ^ k))

-- A mask that is shifted up by `k` bits.
bit_and_shifted : (k b m : ℕ) → bit_and b (m * 2 ^ k) ≡ bit_and (b / 2 ^ k) m * 2 ^ k
bit_and_shifted zero b m = rw (mul-one, div-one) (omega arith)
bit_and_shifted (suc k) b m = ground (
  arith,
  bit_and-halves b (m * 2 ^ suc k),
  half_power b k,
  double_shift m k,
  double_shift (bit_and (b / 2 ^ suc k) m) k,
  bit_and_shifted k (b / 2) m,
)

-- `b & 2 ^ k` keeps one bit.
pub bit_and_bit : (k b : ℕ) → bit_and b (2 ^ k) ≡ b / 2 ^ k % 2 * 2 ^ k
bit_and_bit k b = ground (arith, bit_and_shifted k b 1, bit_and_mask 1 (b / 2 ^ k))

-- A mask that clears the seven low bits of a uint64.
pub bit_and_high : (v : ℕ) → v < 2 ^ 64 → bit_and v (2 ^ 64 - 1 - 0x7F) ≡ v / 128 * 128
bit_and_high v h =
    let shifted : bit_and v (2 ^ 64 - 1 - 0x7F) ≡ bit_and (v / 128) (2 ^ 57 - 1) * 128 =
      bit_and_shifted 7 v (2 ^ 57 - 1) in
    let masked : bit_and (v / 128) (2 ^ 57 - 1) ≡ v / 128 % 2 ^ 57 = bit_and_mask 57 (v / 128) in
    omega arith

bit_or-zero_below : (n a : ℕ) → a < n → bit_or a 0 ≡ a
bit_or-zero_below zero a h = absurd (omega arith)
bit_or-zero_below (suc n) zero h = refl
bit_or-zero_below (suc n) (suc a) h =
    let half = bit_or-zero_below n (suc a / 2) (omega arith) in
    omega (arith, half, bit_or-halves (suc a) 0)

-- `x << s | a` is a sum when `a` lies below bit `s`.
pub bit_or_above : (s a x : ℕ) → a < 2 ^ s → bit_or (x * 2 ^ s) a ≡ x * 2 ^ s + a
bit_or_above zero a x h = ground (arith, bit_or-zero_below (suc x) x (omega arith))
bit_or_above (suc s) a x h = ground (
  arith,
  bit_or-halves (x * 2 ^ suc s) a,
  bit_or_above s (a / 2) x,
  double_shift x s,
  pow-suc 2 s,
)

-- `a` is masked by ones from bit 0 to bit `s` and any bits above.
pub bit_and_ones : (s a u : ℕ) → a < 2 ^ s → bit_and (suc u * 2 ^ s - 1) a ≡ a
bit_and_ones zero a u h = ground (arith, bit_and-zero u)
bit_and_ones (suc s) a u h =
    let half : (suc u * 2 ^ suc s - 1) / 2 ≡ suc u * 2 ^ s - 1 =
      omega (arith, double_shift (suc u) s) in
    let odd : (suc u * 2 ^ suc s - 1) % 2 ≡ 1 =
      omega (arith, double_shift (suc u) s, one-le-pow s 2 (omega arith)) in
    ground (
      arith,
      bit_and-halves (suc u * 2 ^ suc s - 1) a,
      half,
      odd,
      bit_and_ones s (a / 2) u,
      pow-suc 2 s,
    )
