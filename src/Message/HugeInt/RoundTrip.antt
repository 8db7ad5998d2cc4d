-- ===== src/Message/HugeInt/RoundTrip.antt =====
-- internal/codec/hugeint.go: what the two halves of a HUGEINT promise together.
use adbc_driver_quack.Base.{
  ℕ, suc, ◌+◌, ◌-◌, ◌*◌, ◌/◌, ◌%◌, ◌^◌, ◌<◌, ◌≡◌, refl, ap, ◌∙◌, ltb, arith, if◌then◌else◌,
  Bool-cases, inl, inr,
}
use adbc_driver_quack.Base.Bits.{bit_or_above, bit_and_ones, bit_and_mask}
use adbc_driver_quack.Base.Int.{ℤ, pos, negsuc, neg, wrap, mul_nat, or_nat}
use adbc_driver_quack.Message.HugeInt.{huge_int_from_signed, signed_big_int}
use adbc_driver_quack.Message.Types.{HugeIntParts}

-- The value of a number of 128 bits in two's complement.
abbrev pub InInt128 : ℤ → Type 0
InInt128 (pos n) = n < 2 ^ 127
InInt128 (negsuc n) = n < 2 ^ 127

-- The upper word above the lower one.
join_pos : (u l : ℕ) → l < 2 ^ 64 → or_nat (pos (u * 2 ^ 64)) l ≡ pos (u * 2 ^ 64 + l)
unfolding or_nat
join_pos u l h = rw (bit_or_above 64 l u h) refl

join_neg :
    (u l : ℕ) → l < 2 ^ 64 → or_nat (neg (suc u * 2 ^ 64)) l ≡ negsuc (suc u * 2 ^ 64 - 1 - l)
unfolding or_nat
join_neg u l h =
    let shifted : neg (suc u * 2 ^ 64) ≡ negsuc (suc u * 2 ^ 64 - 1) = ground arith in
    rw (shifted, or_nat, bit_and_ones 64 l u h) refl

-- The two halves as one number in two's complement.
signed_halves :
    (u l : ℕ)
    → u < 2 ^ 64
    → l < 2 ^ 64
    → signed_big_int (record { upper = u; lower = l })
      ≡ (if ltb u (2 ^ 63) then pos (u * 2 ^ 64 + l) else negsuc (2 ^ 128 - 1 - (u * 2 ^ 64 + l)))
unfolding signed_big_int mul_nat
signed_halves u l hu h = elim (Bool-cases (ltb u (2 ^ 63))) [
  | inl low ↦ rw low (join_pos u l h)
  | inr high ↦ rw high (join_neg (2 ^ 64 - 1 - u) l h ∙ ap negsuc (omega arith))
]

-- The halves of a number of 128 bits.
halves_of : ℕ → HugeIntParts
halves_of n = record { upper = n / 2 ^ 64; lower = n % 2 ^ 64 }

from_signed-halves : (z : ℤ) → huge_int_from_signed z ≡ halves_of (wrap (2 ^ 128) z)
unfolding huge_int_from_signed halves_of
from_signed-halves z = rw (bit_and_mask 64 (wrap (2 ^ 128) z)) refl

-- Every integer of 128 bits, negative ones and the two ends included, is read from the halves that
-- `HugeIntFromSigned` makes of it.
pub signed_big_int-huge_int_from_signed :
    (z : ℤ) → InInt128 z → signed_big_int (huge_int_from_signed z) ≡ z
unfolding wrap halves_of
signed_big_int-huge_int_from_signed z h =
    rw (from_signed-halves z) (signed_halves _ _ (below z) (omega arith) ∙ whole z h)
  where
    below : (z : ℤ) → wrap (2 ^ 128) z / 2 ^ 64 < 2 ^ 64
    below (pos n) = omega arith
    below (negsuc n) = omega arith

    whole :
        (z : ℤ)
        → InInt128 z
        → (if ltb (wrap (2 ^ 128) z / 2 ^ 64) (2 ^ 63)
            then pos (wrap (2 ^ 128) z / 2 ^ 64 * 2 ^ 64 + wrap (2 ^ 128) z % 2 ^ 64)
            else negsuc
                (2 ^ 128 - 1 - (wrap (2 ^ 128) z / 2 ^ 64 * 2 ^ 64 + wrap (2 ^ 128) z % 2 ^ 64)))
          ≡ z
    whole (pos n) h = ground arith
    whole (negsuc n) h = ground arith

-- The other way round: every pair of words is made again of the integer that it stands for.
pub huge_int_from_signed-signed_big_int :
    (u l : ℕ)
    → u < 2 ^ 64
    → l < 2 ^ 64
    → huge_int_from_signed (signed_big_int (record { upper = u; lower = l }))
      ≡ record { upper = u; lower = l }
unfolding wrap halves_of
huge_int_from_signed-signed_big_int u l hu h =
    rw
      (
        from_signed-halves (signed_big_int (record { upper = u; lower = l })),
        signed_halves u l hu h,
      )
      (ground arith)
