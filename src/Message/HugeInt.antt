-- ===== src/Message/HugeInt.antt =====
-- internal/codec/hugeint.go: 128-bit integers in two words. A `big.Int` is an integer.
pub mod RoundTrip
use adbc_driver_quack.Base.{ℕ, ◌-◌, ◌/◌, ◌^◌, bit_and}
use adbc_driver_quack.Base.Int.{ℤ, pos, signed, wrap, mul_nat, or_nat}
use adbc_driver_quack.Message.Types.{HugeIntParts}

-- `HugeIntFromSigned`. `Mod` of math/big is never negative; the upper half is the pattern of an
-- int64, in either branch.
unfoldable pub huge_int_from_signed : ℤ → HugeIntParts
huge_int_from_signed value =
    let normalized = wrap (2 ^ 128) value in
    record { upper = normalized / 2 ^ 64; lower = bit_and normalized (2 ^ 64 - 1) }

-- `SignedBigInt`
unfoldable pub signed_big_int : HugeIntParts → ℤ
signed_big_int p = or_nat (mul_nat (signed p.upper) (2 ^ 64)) p.lower

-- `UnsignedBigInt`
unfoldable pub unsigned_big_int : HugeIntParts → ℤ
unsigned_big_int p = or_nat (mul_nat (pos p.upper) (2 ^ 64)) p.lower
