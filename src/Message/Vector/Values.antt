-- ===== src/Message/Vector/Values.antt =====
-- internal/message/vector_codec.go: single values.
use adbc_driver_quack.Base.{
  ℕ, zero, suc, ◌+◌, ◌-◌, ◌/◌, ◌%◌, ◌^◌, Bool, true, false, not, ◌||◌, Option, none, some, List, [],
  ◌∷◌, ◌++◌, get_elem?, ltb, ◌==◌, if◌then◌else◌,
}
use adbc_driver_quack.Base.Int.{ℤ, signed}
use adbc_driver_quack.Codec.Reader.{R, pure, ◌>>=◌, read_le}
use adbc_driver_quack.Message.HugeInt.{signed_big_int, unsigned_big_int}
use adbc_driver_quack.Message.Vector.Times.{
  unix, unix_milli, unix_micro, unix_nanos, epoch_add_days, epoch_add_micros, epoch_add_nanos,
}
use adbc_driver_quack.Message.Vector.Types.{
  Host, Object, nil, bool, int, int8, int16, int32, int64, uint8, uint16, uint32, uint64, float32,
  float64, text, blob, time, rat, big_int, interval,
}
use adbc_driver_quack.QuackType.Ids.{
  bit_id, blob_id, date_id, decimal_id, enum_id, geometry_id, hugeint_id, interval_id, time_id,
  time_ns_id, time_tz_id, timestamp_id, timestamp_ms_id, timestamp_ns_id, timestamp_sec_id,
  timestamp_tz_id, uhugeint_id, uuid_id,
}
use adbc_driver_quack.QuackType.Physical.{PhysicalType, get_enum_values, id_of, info_of}
use adbc_driver_quack.QuackType.Types.{LogicalType, ExtraTypeInfo, decimal}

-- `intW(v)` of a value of `w` bits: the sign is copied into the bits up to `W`.
abbrev pub sign_extend : ℕ → ℕ → ℕ → ℕ
sign_extend w target v = if ltb v (2 ^ (w - 1)) then v else v + (2 ^ target - 2 ^ w)

-- `needsObjectMaterialization`; the last tests first.
abbrev pub is_wide : PhysicalType → Bool
is_wide PhysicalType.interval = true
is_wide PhysicalType.int128 = true
is_wide PhysicalType.uint128 = true
is_wide _ = false

unfoldable pub needs_object_materialization : LogicalType → PhysicalType → Bool
needs_object_materialization t physical =
    let id = id_of t in
    id == decimal_id
    || id == date_id
    || id == time_id
    || id == time_ns_id
    || id == time_tz_id
    || id == timestamp_id
    || id == timestamp_sec_id
    || id == timestamp_ms_id
    || id == timestamp_ns_id
    || id == timestamp_tz_id
    || id == uuid_id
    || id == interval_id
    || id == hugeint_id
    || id == uhugeint_id
    || id == enum_id
    || is_wide physical

-- The digits of `uuidFromHugeIntParts`: `%x` of `k` big-endian bytes.
unfoldable pub uuid_digit : ℕ → ℕ
uuid_digit d = if ltb d 10 then b'0' + d else b'a' + (d - 10)

unfoldable pub hex_digits : ℕ → ℕ → List ℕ
hex_digits zero v = []
hex_digits (suc k) v = uuid_digit (v / 16 ^ k % 16) ∷ hex_digits k v

-- `uuidFromHugeIntParts`; `x ^ 1<<63` adds the bit or takes it away.
unfoldable pub uuid_from_huge_int_parts : ℕ → ℕ → List ℕ
uuid_from_huge_int_parts upper lower =
    let display = (upper + 2 ^ 63) % 2 ^ 64 in
    hex_digits 8 (display / 2 ^ 32)
    ++ (b'-'
        ∷ (hex_digits 4 (display / 2 ^ 16)
            ++ (b'-'
                ∷ (hex_digits 4 display
                    ++ (b'-' ∷ (hex_digits 4 (lower / 2 ^ 48) ++ (b'-' ∷ hex_digits 12 lower)))))))

-- `new(big.Int).Exp(10, scale, nil)`, which is 1 for a negative scale.
abbrev pub decimal_factor : ℕ → ℕ
decimal_factor scale = if ltb scale (2 ^ 63) then 10 ^ scale else 1

module _ (host : Host) where
  open host use {Rat, rat_set_int, rat_set_frac, widen, float_to_int64, int64_to_float}

  -- `decimalFromUnscaled`
  abbrev pub scaled_down : ExtraTypeInfo → ℤ → Rat
  scaled_down (decimal width scale alias) value = rat_set_frac value (decimal_factor scale)
  scaled_down _ value = rat_set_int value

  unfoldable pub decimal_from_unscaled : LogicalType → ℤ → Rat
  decimal_from_unscaled t value = scaled_down (info_of t) value

  -- `decodeEnumOrInt` of an index that is not negative, `decodeEnumOrInt64`
  unfoldable pub enum_value : LogicalType → ℕ → Object Rat
  unfolding get_enum_values
  enum_value t idx = elim (get_enum_values (info_of t)) [
    | none ↦ int idx
    | some values ↦ elim (get_elem? values idx) [ none ↦ int idx | some s ↦ text s ]
  ]

  unfoldable pub decode_enum_or_int : LogicalType → ℕ → Object Rat
  unfolding enum_value
  decode_enum_or_int t idx = if not (id_of t == enum_id) then int32 idx else enum_value t idx

  unfoldable pub decode_enum_or_int64 : LogicalType → ℕ → Object Rat
  unfolding decode_enum_or_int
  decode_enum_or_int64 t idx =
      if not (id_of t == enum_id)
      then int64 idx
      else if ltb 0x7FFF_FFFF idx
      then int64 idx
      else decode_enum_or_int t idx

  -- `decodeInt64LogicalValue`
  unfoldable pub decode_int64_logical_value : LogicalType → ℕ → Object Rat
  unfolding decimal_from_unscaled
  decode_int64_logical_value t value =
      let id = id_of t in
      if id == time_id
      then time (epoch_add_micros value)
      else if id == time_ns_id
      then time (epoch_add_nanos value)
      else if id == time_tz_id
      then int64 value
      else if id == timestamp_sec_id
      then time (unix (signed value))
      else if id == timestamp_ms_id
      then time (unix_milli (signed value))
      else if id == timestamp_id
      then time (unix_micro (signed value))
      else if id == timestamp_ns_id
      then time (unix_nanos (signed value))
      else if id == timestamp_tz_id
      then time (unix_micro (signed value))
      else if id == decimal_id
      then rat (decimal_from_unscaled t (signed value))
      else int64 value

  -- `decodeStringLikeValue`
  unfoldable pub decode_string_like_value : LogicalType → List ℕ → Object Rat
  decode_string_like_value t raw =
      let id = id_of t in
      if id == blob_id || id == geometry_id || id == bit_id then blob raw else text raw

  -- `decodeFixedValue`
  unfoldable pub decode_fixed_value : LogicalType → PhysicalType → R (Object Rat)
  unfolding decode_enum_or_int decode_enum_or_int64 decode_int64_logical_value decimal_from_unscaled
      uuid_from_huge_int_parts signed_big_int unsigned_big_int epoch_add_days
  decode_fixed_value t PhysicalType.bool = do v ← read_le 1; pure (bool (not (v == 0)))
  decode_fixed_value t PhysicalType.int8 = do v ← read_le 1; pure (int32 (sign_extend 8 32 v))
  decode_fixed_value t PhysicalType.uint8 = do v ← read_le 1; pure (decode_enum_or_int t v)
  decode_fixed_value t PhysicalType.int16 = do
    v ← read_le 2
    pure (
        if id_of t == decimal_id
        then rat (decimal_from_unscaled t (signed (sign_extend 16 64 v)))
        else int32 (sign_extend 16 32 v))
  decode_fixed_value t PhysicalType.uint16 = do v ← read_le 2; pure (decode_enum_or_int t v)
  decode_fixed_value t PhysicalType.int32 = do
    v ← read_le 4
    pure (
        if id_of t == date_id
        then time (epoch_add_days (signed (sign_extend 32 64 v)))
        else if id_of t == decimal_id
        then rat (decimal_from_unscaled t (signed (sign_extend 32 64 v)))
        else int32 v)
  decode_fixed_value t PhysicalType.uint32 = do v ← read_le 4; pure (decode_enum_or_int64 t v)
  decode_fixed_value t PhysicalType.int64 = do v ← read_le 8; pure (decode_int64_logical_value t v)
  decode_fixed_value t PhysicalType.uint64 = do v ← read_le 8; pure (uint64 v)
  decode_fixed_value t PhysicalType.float = do v ← read_le 4; pure (float32 v)
  decode_fixed_value t PhysicalType.double = do v ← read_le 8; pure (float64 v)
  decode_fixed_value t PhysicalType.int128 = do
    lower ← read_le 8
    upper ← read_le 8
    pure (
        if id_of t == uuid_id
        then text (uuid_from_huge_int_parts upper lower)
        else if id_of t == decimal_id
        then rat
            (decimal_from_unscaled t (signed_big_int (record { upper = upper; lower = lower })))
        else big_int (signed_big_int (record { upper = upper; lower = lower })))
  decode_fixed_value t PhysicalType.uint128 = do
    lower ← read_le 8
    upper ← read_le 8
    pure (big_int (unsigned_big_int (record { upper = upper; lower = lower })))
  decode_fixed_value t PhysicalType.interval = do
    months ← read_le 4
    days ← read_le 4
    micros ← read_le 8
    pure (interval (record { months = months; days = days; micros = micros }))
  decode_fixed_value t _ = pure nil

  -- `toInt64Ok`; none for its false. The result is the pattern of an int64.
  unfoldable pub to_int64_ok : Object Rat → Option ℕ
  to_int64_ok (int v) = some v
  to_int64_ok (int8 v) = some (sign_extend 8 64 v)
  to_int64_ok (int16 v) = some (sign_extend 16 64 v)
  to_int64_ok (int32 v) = some (sign_extend 32 64 v)
  to_int64_ok (int64 v) = some v
  to_int64_ok (uint8 v) = some v
  to_int64_ok (uint16 v) = some v
  to_int64_ok (uint32 v) = some v
  to_int64_ok (uint64 v) = some v
  to_int64_ok (float32 v) = some (float_to_int64 (widen v))
  to_int64_ok (float64 v) = some (float_to_int64 v)
  to_int64_ok _ = none

  -- `toInt64`
  unfoldable pub to_int64 : Object Rat → ℕ
  unfolding to_int64_ok
  to_int64 v = elim (to_int64_ok v) [ none ↦ 0 | some n ↦ n ]

  -- `toBool`
  unfoldable pub to_bool : Object Rat → Bool
  unfolding to_int64_ok
  to_bool (bool b) = b
  to_bool v = elim (to_int64_ok v) [ none ↦ false | some n ↦ not (n == 0) ]

  -- `toFloat64Ok`, and `toFloat64` with 0 for its false
  unfoldable pub to_float64_ok : Object Rat → Option ℕ
  unfolding to_int64_ok
  to_float64_ok (float32 v) = some (widen v)
  to_float64_ok (float64 v) = some v
  to_float64_ok v = elim (to_int64_ok v) [ none ↦ none | some n ↦ some (int64_to_float n) ]

  unfoldable pub to_float64 : Object Rat → ℕ
  unfolding to_float64_ok
  to_float64 v = elim (to_float64_ok v) [ none ↦ 0 | some f ↦ f ]
