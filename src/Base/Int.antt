-- ===== src/Base/Int.antt =====
-- Signed integers over the native numbers, and the words that stand for them.
use Prim.Native.Nat.{ℕ, zero, suc, ◌+◌, ◌-◌, ◌*◌, ◌/◌, ◌%◌, ◌^◌, ◌<◌, bit_and, bit_or}
use mathlib.Core.Path.{◌≡◌}
use native.Mathlib.Omega.{arith}
use adbc_driver_quack.Base.Tests.{ltb, leb, if◌then◌else◌}

-- `negsuc n` is -(n + 1).
pub data ℤ : Type 0 where
  pos : ℕ → ℤ
  negsuc : ℕ → ℤ

-- `-n`
abbrev pub neg : ℕ → ℤ
neg zero = pos 0
neg (suc n) = negsuc n

-- The integer of a 64-bit pattern, and the pattern of an integer modulo `m`.
abbrev pub signed : ℕ → ℤ
signed p = if ltb p (2 ^ 63) then pos p else negsuc (2 ^ 64 - 1 - p)

unfoldable pub wrap : ℕ → ℤ → ℕ
wrap m (pos n) = n % m
wrap m (negsuc n) = m - 1 - n % m

-- `z * k`, `z + k`
unfoldable pub mul_nat : ℤ → ℕ → ℤ
mul_nat (pos n) k = pos (n * k)
mul_nat (negsuc n) k = neg (suc n * k)

unfoldable pub add_nat : ℤ → ℕ → ℤ
add_nat (pos n) k = pos (n + k)
add_nat (negsuc n) k = if leb k n then negsuc (n - k) else pos (k - n - 1)

-- The quotient that rounds to zero, and the one that rounds down with its remainder.
unfoldable pub quo_nat : ℤ → ℕ → ℤ
quo_nat (pos n) d = pos (n / d)
quo_nat (negsuc n) d = neg (suc n / d)

unfoldable pub floor_nat : ℤ → ℕ → ℤ
floor_nat (pos n) d = pos (n / d)
floor_nat (negsuc n) d = negsuc (n / d)

unfoldable pub floor_mod : ℤ → ℕ → ℕ
floor_mod (pos n) d = n % d
floor_mod (negsuc n) d = d - 1 - n % d

-- `&` and `|` with a number, in two's complement: `-(n + 1)` has the bits that `n` has not.
unfoldable pub and_nat : ℤ → ℕ → ℕ
and_nat (pos n) m = bit_and n m
and_nat (negsuc n) m = m - bit_and n m

unfoldable pub or_nat : ℤ → ℕ → ℤ
or_nat (pos n) m = pos (bit_or n m)
or_nat (negsuc n) m = negsuc (n - bit_and n m)

-- `z >> k`
unfoldable pub shift_right : ℤ → ℕ → ℤ
unfolding floor_nat
shift_right z k = floor_nat z (2 ^ k)

pub wrap-signed : (p : ℕ) → p < 2 ^ 64 → wrap (2 ^ 64) (signed p) ≡ p
unfolding wrap
wrap-signed p h = ground arith
