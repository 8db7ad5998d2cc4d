-- ===== src/Message/Vector/Times.antt =====
-- What vector_codec.go and vector_encoder.go use of package time, and the functions on times of
-- vector_encoder.go. Times are in UTC, so `t.UTC()` is `t`.
use adbc_driver_quack.Base.{ℕ, ◌+◌, ◌-◌, ◌*◌, ◌/◌, ◌%◌, ◌^◌, ltb, if◌then◌else◌}
use adbc_driver_quack.Base.Int.{
  ℤ, pos, negsuc, signed, wrap, mul_nat, add_nat, floor_nat, floor_mod,
}
use adbc_driver_quack.Message.Vector.Types.{Time}

-- `time.Unix(0, n)` for an integer `n`, which need not be an int64.
unfoldable pub unix_nanos : ℤ → Time
unfolding floor_nat floor_mod
unix_nanos n = record { sec = floor_nat n (10 ^ 9); nsec = floor_mod n (10 ^ 9) }

-- `time.Unix(value, 0)`, `time.UnixMilli`, `time.UnixMicro`, and `time.Unix(value/1_000_000_000,
-- value%1_000_000_000)`
unfoldable pub unix : ℤ → Time
unix value = record { sec = value; nsec = 0 }

unfoldable pub unix_milli : ℤ → Time
unfolding floor_nat floor_mod
unix_milli value = record {
  sec = floor_nat value (10 ^ 3);
  nsec = floor_mod value (10 ^ 3) * 10 ^ 6;
}

unfoldable pub unix_micro : ℤ → Time
unfolding floor_nat floor_mod
unix_micro value = record {
  sec = floor_nat value (10 ^ 6);
  nsec = floor_mod value (10 ^ 6) * 10 ^ 3;
}

-- `time.Date(1970, time.January, 1, …).AddDate(0, 0, n)`
unfoldable pub epoch_add_days : ℤ → Time
unfolding mul_nat
epoch_add_days n = record { sec = mul_nat n 86_400; nsec = 0 }

-- `time.Date(1970, time.January, 1, …).Add(time.Duration(value) * time.Microsecond)` and
-- `….Add(time.Duration(value))`; the product wraps.
unfoldable pub epoch_add_micros : ℕ → Time
unfolding unix_nanos
epoch_add_micros value = unix_nanos (signed (value * 10 ^ 3 % 2 ^ 64))

unfoldable pub epoch_add_nanos : ℕ → Time
unfolding unix_nanos
epoch_add_nanos value = unix_nanos (signed value)

-- `t.Unix()`, `t.UnixMilli()`, `t.UnixMicro()`, `t.UnixNano()`, whose results wrap
abbrev pub in_units : ℕ → ℕ → Time → ℕ
in_units per_second nanos t = wrap (2 ^ 64) (add_nat (mul_nat t.sec per_second) (t.nsec / nanos))

-- `t.Sub(epoch)`: nanoseconds, as near as a duration comes to them.
abbrev pub clamp : ℤ → ℤ
clamp (pos n) = if ltb n (2 ^ 63) then pos n else pos (2 ^ 63 - 1)
clamp (negsuc n) = if ltb n (2 ^ 63) then negsuc n else negsuc (2 ^ 63 - 1)

unfoldable pub sub_epoch : Time → ℤ
unfolding add_nat mul_nat
sub_epoch t = clamp (add_nat (mul_nat t.sec (10 ^ 9)) t.nsec)

-- `durationSinceMidnight`: the hour, the minute, the second and the nanosecond of the day.
unfoldable pub duration_since_midnight : Time → ℕ
unfolding floor_mod
duration_since_midnight t =
    let s = floor_mod t.sec 86_400 in
    s / 3_600 * (3_600 * 10 ^ 9) + s % 3_600 / 60 * (60 * 10 ^ 9) + s % 60 * 10 ^ 9 + t.nsec
