-- ===== src/Message/Vector/Decimals.antt =====
-- internal/message/vector_codec.go and vector_encoder.go: decimals on their way to the wire and back.
use adbc_driver_quack.Base.{ℕ, zero, suc, ◌+◌, ◌*◌, ◌/◌, ◌<◌, ◌≡◌, ap, sym, ◌∙◌, some, List, arith}
use adbc_driver_quack.Base.Int.{ℤ, pos, negsuc, neg, mul_nat, quo_nat}
use adbc_driver_quack.Message.Vector.Stored.{decimal_unscaled}
use adbc_driver_quack.Message.Vector.Types.{Host, rat}
use adbc_driver_quack.Message.Vector.Values.{decimal_factor, decimal_from_unscaled}
use native.Mathlib.Nat.{mul-div_cancel, one-le-pow}
use adbc_driver_quack.QuackType.Types.{logical_type, decimal}

-- The fraction that `SetFrac(v, d)` makes, in lowest terms or not, has the value `v / d`, and its
-- denominator is positive.
pub record Fractions (host : Host) : Type 0 where
  pub value :
      (v : ℤ) (d : ℕ)
      → 0 < d
      → mul_nat (host.rat_num (host.rat_set_frac v d)) d
        ≡ mul_nat v (host.rat_denom (host.rat_set_frac v d))
  pub positive : (v : ℤ) (d : ℕ) → 0 < d → 0 < host.rat_denom (host.rat_set_frac v d)

pub quo_nat-mul_nat : (z : ℤ) (d : ℕ) → 0 < d → quo_nat (mul_nat z d) d ≡ z
unfolding quo_nat mul_nat
quo_nat-mul_nat (pos n) (suc d) h = ap pos (mul-div_cancel n h)
quo_nat-mul_nat (negsuc n) (suc d) h =
    ap (λ m. quo_nat (neg m) (suc d)) larger
    ∙ ap (λ m. neg (m / suc d)) (sym larger)
    ∙ ap neg (mul-div_cancel (suc n) h)
  where
    larger : suc n * suc d ≡ suc (n * suc d + d)
    larger = omega arith
quo_nat-mul_nat z zero h = absurd (omega arith)

-- `10 ^ scale`, or 1 where the scale does not fit an int64.
decimal_factor-positive : (scale : ℕ) → 0 < decimal_factor scale
decimal_factor-positive scale = ground (arith, one-le-pow scale 10 ten)
  where
    ten : 0 < 10
    ten = omega arith

-- The unscaled integer of a DECIMAL, whatever its sign, its size and the scale are, is stored again
-- from the fraction that the decoder makes of it. Fractions must satisfy `Fractions`.
pub decimal_unscaled-decimal_from_unscaled :
    (host : Host) (id width scale : ℕ) (alias : List ℕ) (v : ℤ)
    → Fractions host
    → decimal_unscaled host
        (logical_type id (decimal width scale alias))
        (rat (decimal_from_unscaled host (logical_type id (decimal width scale alias)) v))
      ≡ some v
unfolding decimal_unscaled decimal_from_unscaled
decimal_unscaled-decimal_from_unscaled host id width scale alias v laws = ap some (
    ap (λ z. quo_nat z (host.rat_denom (host.rat_set_frac v (decimal_factor scale))))
      (laws.value v (decimal_factor scale) (decimal_factor-positive scale))
    ∙ quo_nat-mul_nat v _ (laws.positive v (decimal_factor scale) (decimal_factor-positive scale)))
