-- ===== src/Message/Vector/Clock.antt =====
-- internal/message/vector_codec.go and vector_encoder.go: dates and times on their way to the wire
-- and back.
use adbc_driver_quack.Base.{
  ℕ, ◌+◌, ◌-◌, ◌/◌, ◌^◌, ◌≤◌, ◌<◌, ◌≡◌, ◌≢◌, ap, sym, ◌∙◌, some, arith, ◌⊎◌, inl, inr,
}
use adbc_driver_quack.Base.Int.{ℤ, pos, negsuc, signed, wrap, wrap-signed, mul_nat, add_nat}
use adbc_driver_quack.Message.Vector.Times.{
  unix, unix_milli, unix_micro, unix_nanos, epoch_add_days, epoch_add_micros, epoch_add_nanos,
  in_units, sub_epoch, duration_since_midnight,
}
use adbc_driver_quack.Message.Vector.Types.{Host, time}
use adbc_driver_quack.Message.Vector.Values.{decode_int64_logical_value}
use adbc_driver_quack.Message.Vector.Stored.{
  encode_int64_logical_value_for_write, date_to_epoch_days,
}
use adbc_driver_quack.QuackType.Ids.{decimal_id, time_id, time_ns_id}
use adbc_driver_quack.QuackType.Physical.{id_of}
use adbc_driver_quack.QuackType.Types.{LogicalType}

in_units-unix : (p : ℕ) → p < 2 ^ 64 → in_units 1 (10 ^ 9) (unix (signed p)) ≡ p
unfolding unix wrap add_nat mul_nat
in_units-unix p h = ground arith

in_units-unix_milli : (p : ℕ) → p < 2 ^ 64 → in_units (10 ^ 3) (10 ^ 6) (unix_milli (signed p)) ≡ p
unfolding unix_milli wrap add_nat mul_nat
in_units-unix_milli p h = ground arith

in_units-unix_micro : (p : ℕ) → p < 2 ^ 64 → in_units (10 ^ 6) (10 ^ 3) (unix_micro (signed p)) ≡ p
unfolding unix_micro wrap add_nat mul_nat
in_units-unix_micro p h = ground arith

in_units-unix_nanos : (p : ℕ) → p < 2 ^ 64 → in_units (10 ^ 9) 1 (unix_nanos (signed p)) ≡ p
unfolding unix_nanos wrap add_nat mul_nat
in_units-unix_nanos p h = ground arith

micros_of_day :
    (p : ℕ) → p < 86_400_000_000 → duration_since_midnight (epoch_add_micros p) / 1_000 ≡ p
unfolding duration_since_midnight epoch_add_micros
micros_of_day p h = ground arith

nanos_of_day : (p : ℕ) → p < 86_400_000_000_000 → duration_since_midnight (epoch_add_nanos p) ≡ p
unfolding duration_since_midnight epoch_add_nanos
nanos_of_day p h = ground arith

-- A time of the day fits its type's day.
abbrev pub IsOfDay : ℕ → ℕ → Type 0
IsOfDay id value =
    (id ≡ time_id → value < 86_400_000_000) × (id ≡ time_ns_id → value < 86_400_000_000_000)

-- What the encoder stores of a decoded int64 of any logical type but DECIMAL is that int64 again:
-- of every timestamp in seconds, milliseconds, microseconds or nanoseconds, before or after 1970 and
-- up to the ends of the int64, and of a TIME or TIME_NS within its day.
pub encode_int64-decode_int64 :
    (host : Host) (t : LogicalType) (value : ℕ)
    → value < 2 ^ 64
    → id_of t ≢ decimal_id
    → IsOfDay (id_of t) value
    → encode_int64_logical_value_for_write host t (decode_int64_logical_value host t value)
      ≡ some value
unfolding encode_int64_logical_value_for_write decode_int64_logical_value
encode_int64-decode_int64 host t value h not_decimal day = ground (
  arith,
  in_units-unix value,
  in_units-unix_milli value,
  in_units-unix_micro value,
  in_units-unix_nanos value,
  micros_of_day value,
  nanos_of_day value,
)

abbrev nanos_per_hour : ℕ
nanos_per_hour = 3_600_000_000_000

abbrev pub magnitude : ℤ → ℕ
magnitude (pos n) = n
magnitude (negsuc n) = n + 1

-- The float of an integer.
abbrev pub float_of : Host → ℤ → ℕ
float_of host z = host.int64_to_float (wrap (2 ^ 64) z)

-- IEEE arithmetic on whole numbers up to 2 ^ 53: the hours of a duration of whole hours, an exact
-- quotient, and the way back to an int64.
pub record ExactFloats (host : Host) : Type 0 where
  pub hours_exact :
      (z : ℤ) → magnitude z ≤ 2_562_047 → host.hours (mul_nat z nanos_per_hour) ≡ float_of host z
  pub quo_exact :
      (z : ℤ) (d : ℕ)
      → 0 < d
      → magnitude (mul_nat z d) ≤ 2 ^ 53
      → host.float_quo (float_of host (mul_nat z d)) (host.int64_to_float d) ≡ float_of host z
  pub int64_exact :
      (z : ℤ) → magnitude z ≤ 2 ^ 53 → host.float_to_int64 (float_of host z) ≡ wrap (2 ^ 64) z

-- A date within 106751 days of 1970, before or after, is written as its number of days: its duration
-- is one of whole hours, a 24th of which is the number again. The float arithmetic is exact on whole
-- numbers up to 2 ^ 53.
pub date_to_epoch_days-epoch_add_days :
    (host : Host) (days : ℕ)
    → ExactFloats host
    → (days ≤ 106_751) ⊎ (2 ^ 64 - 106_751 ≤ days)
    → days < 2 ^ 64
    → date_to_epoch_days host (time (epoch_add_days (signed days))) ≡ days
unfolding date_to_epoch_days epoch_add_days mul_nat add_nat
date_to_epoch_days-epoch_add_days host days exact near h =
    ap (λ z. host.float_to_int64 (host.float_quo (host.hours z) (host.int64_to_float 24)))
      (within near)
    ∙ ap (λ f. host.float_to_int64 (host.float_quo f (host.int64_to_float 24)))
        (exact.hours_exact (mul_nat (signed days) 24) (few_hours near))
    ∙ ap host.float_to_int64 (exact.quo_exact (signed days) 24 (omega arith) (small near))
    ∙ exact.int64_exact (signed days) (few_days near)
    ∙ wrap-signed days h
  where
    within :
        (days ≤ 106_751) ⊎ (2 ^ 64 - 106_751 ≤ days)
        → sub_epoch (epoch_add_days (signed days))
          ≡ mul_nat (mul_nat (signed days) 24) nanos_per_hour
    within (inl low) = ground arith
    within (inr high) = ground arith

    few_hours :
        (days ≤ 106_751) ⊎ (2 ^ 64 - 106_751 ≤ days)
        → magnitude (mul_nat (signed days) 24) ≤ 2_562_047
    few_hours (inl low) = ground arith
    few_hours (inr high) = ground arith

    small :
        (days ≤ 106_751) ⊎ (2 ^ 64 - 106_751 ≤ days) → magnitude (mul_nat (signed days) 24) ≤ 2 ^ 53
    small (inl low) = ground arith
    small (inr high) = ground arith

    few_days : (days ≤ 106_751) ⊎ (2 ^ 64 - 106_751 ≤ days) → magnitude (signed days) ≤ 2 ^ 53
    few_days (inl low) = ground arith
    few_days (inr high) = ground arith

-- Every date from day 106752 on is written as the same number, whatever the float arithmetic gives:
-- a duration goes no further.
pub date_to_epoch_days_saturates :
    (host : Host) (m n : ℕ)
    → 106_752 ≤ m
    → 106_752 ≤ n
    → date_to_epoch_days host (time (epoch_add_days (pos m)))
      ≡ date_to_epoch_days host (time (epoch_add_days (pos n)))
unfolding date_to_epoch_days epoch_add_days sub_epoch mul_nat add_nat
date_to_epoch_days_saturates host m n hm hn =
    ap (λ z. host.float_to_int64 (host.float_quo (host.hours z) (host.int64_to_float 24)))
      (far m hm ∙ sym (far n hn))
  where
    far : (k : ℕ) → 106_752 ≤ k → sub_epoch (epoch_add_days (pos k)) ≡ pos (2 ^ 63 - 1)
    far k h = ground arith
