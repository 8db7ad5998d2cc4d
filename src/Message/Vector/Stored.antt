-- ===== src/Message/Vector/Stored.antt =====
-- internal/message/vector_encoder.go: single values on their way to the wire. `none` and a writer
-- with the error `panicked` stand for a Go panic.
use adbc_driver_quack.Base.{
  ℕ, ◌+◌, ◌-◌, ◌*◌, ◌/◌, ◌%◌, ◌^◌, not, ◌&&◌, ◌||◌, Option, none, some, List, [], ◌∷◌, length, take,
  drop, same_string, is_empty, leb, ◌==◌, if◌then◌else◌,
}
use adbc_driver_quack.Base.Int.{ℤ, pos, signed, wrap, mul_nat, quo_nat, and_nat, shift_right}
use adbc_driver_quack.Codec.Fault.{panicked}
use adbc_driver_quack.Codec.Writer.{Writer, write_le}
use adbc_driver_quack.Message.HugeInt.{huge_int_from_signed}
use adbc_driver_quack.Message.Types.{HugeIntParts}
use adbc_driver_quack.Message.Decode.{zero_huge_int}
use adbc_driver_quack.Message.Vector.Times.{in_units, sub_epoch, duration_since_midnight}
use adbc_driver_quack.Message.Vector.Types.{
  Host, Object, nil, text, blob, time, rat, big_int, interval, IntervalValue, Time,
}
use adbc_driver_quack.Message.Vector.Values.{
  to_int64_ok, to_int64, to_bool, to_float64_ok, to_float64, decimal_factor,
}
use adbc_driver_quack.QuackType.Ids.{
  date_id, decimal_id, enum_id, time_id, time_ns_id, timestamp_id, timestamp_ms_id, timestamp_ns_id,
  timestamp_sec_id, timestamp_tz_id, uuid_id,
}
use adbc_driver_quack.QuackType.Physical.{PhysicalType, get_enum_values, id_of, info_of}
use adbc_driver_quack.QuackType.Types.{LogicalType, ExtraTypeInfo, decimal}

-- A Go panic while something is written.
unfoldable pub write_panic : Writer → Writer
write_panic w = record w { err = some (record { cause = panicked; offset = length w.buf }) }

-- `for i, v := range values { if v == s { return i } }`
unfoldable pub index_of : List ℕ → List (List ℕ) → ℕ → Option ℕ
index_of s [] i = none
index_of s (v ∷ values) i =
    let rest = index_of s values (i + 1) in if same_string v s then some i else rest

-- A digit, and the digits, that `SetString(s, 16)` accepts.
unfoldable pub hex_value : ℕ → Option ℕ
hex_value c =
    if leb b'0' c && leb c b'9'
    then some (c - b'0')
    else if leb b'a' c && leb c b'f'
    then some (c - b'a' + 10)
    else if leb b'A' c && leb c b'F'
    then some (c - b'A' + 10)
    else none

unfoldable pub hex_number : ℕ → List ℕ → Option ℕ
hex_number acc [] = some acc
hex_number acc (c ∷ s) = elim (hex_value c) [ none ↦ none | some d ↦ hex_number (acc * 16 + d) s ]

-- `SetString(s, 16)` and `Uint64()` on what the dashes leave, which has no minus sign.
unfoldable pub set_string_16 : List ℕ → Option ℕ
unfolding hex_number
set_string_16 [] = none
set_string_16 (c ∷ s) =
    if c == b'+' then (if is_empty s then none else hex_number 0 s) else hex_number 0 (c ∷ s)

unfoldable pub without_dashes : List ℕ → List ℕ
without_dashes [] = []
without_dashes (c ∷ s) = let rest = without_dashes s in if c == b'-' then rest else c ∷ rest

-- `uuidToHugeIntParts` of a string
unfoldable pub uuid_parts : List ℕ → HugeIntParts
uuid_parts s =
    let hex = without_dashes s in
    if not (length s == 36) || not (length hex == 32)
    then zero_huge_int
    else elim (set_string_16 (take 16 hex)) [
      | none ↦ zero_huge_int
      | some display ↦ elim (set_string_16 (drop 16 hex)) [
        | none ↦ zero_huge_int
        | some lower ↦ record { upper = (display + 2 ^ 63) % 2 ^ 64; lower = lower }
      ]
    ]

module _ (host : Host) where
  open host use {
    Rat, rat_num, rat_denom, rat_set_float64, parse_float, narrow, hours, float_quo, float_to_int64,
    int64_to_float, sprint,
  }

  unfoldable pub uuid_to_huge_int_parts : Object Rat → HugeIntParts
  unfolding uuid_parts
  uuid_to_huge_int_parts (text s) = uuid_parts s
  uuid_to_huge_int_parts _ = zero_huge_int

  -- `dateToEpochDays`
  unfoldable pub date_to_epoch_days : Object Rat → ℕ
  unfolding sub_epoch to_int64
  date_to_epoch_days (time t) = float_to_int64 (float_quo (hours (sub_epoch t)) (int64_to_float 24))
  date_to_epoch_days value = to_int64 host value

  -- `Quo` of a fraction that is multiplied by the factor
  unfoldable pub unscaled : ℕ → Rat → ℤ
  unfolding quo_nat mul_nat
  unscaled factor q = quo_nat (mul_nat (rat_num q) factor) (rat_denom q)

  -- The switch of `decimalUnscaled`.
  unfoldable pub unscaled_value : ℕ → Object Rat → ℤ
  unfolding unscaled mul_nat to_int64_ok to_float64_ok
  unscaled_value factor (rat q) = unscaled factor q
  unscaled_value factor (big_int v) = mul_nat v factor
  unscaled_value factor (text s) = elim (parse_float s) [
    | none ↦ pos 0
    | some q ↦ unscaled factor q
  ]
  unscaled_value factor value = elim (to_int64_ok host value) [
    | some n ↦ mul_nat (signed n) factor
    | none ↦ elim (to_float64_ok host value) [
      | none ↦ pos 0
      | some f ↦ elim (rat_set_float64 f) [ none ↦ pos 0 | some q ↦ unscaled factor q ]
    ]
  ]

  -- `decimalUnscaled`
  abbrev pub scaled_up : ExtraTypeInfo → Object Rat → Option ℤ
  scaled_up (decimal width scale alias) value = some (unscaled_value (decimal_factor scale) value)
  scaled_up _ value = none

  unfoldable pub decimal_unscaled : LogicalType → Object Rat → Option ℤ
  unfolding unscaled_value
  decimal_unscaled t value = scaled_up (info_of t) value

  -- `encodeEnumOrInt` with the default 0
  unfoldable pub encode_enum_or_int : LogicalType → Object Rat → Option ℕ
  unfolding index_of to_int64 get_enum_values
  encode_enum_or_int t nil = some 0
  encode_enum_or_int t value =
      if id_of t == enum_id
      then elim (get_enum_values (info_of t)) [
        | none ↦ none
        | some values ↦ index_of (sprint value) values 0
      ]
      else some (to_int64 host value)

  -- `encodeInt64LogicalValueForWrite`: of a time, where its type has a case for times.
  unfoldable pub time_for_write : ℕ → Time → ℕ
  time_for_write id t =
      if id == time_id
      then duration_since_midnight t / 1_000
      else if id == time_ns_id
      then duration_since_midnight t
      else if id == timestamp_sec_id
      then in_units 1 (10 ^ 9) t
      else if id == timestamp_ms_id
      then in_units (10 ^ 3) (10 ^ 6) t
      else if id == timestamp_id || id == timestamp_tz_id
      then in_units (10 ^ 6) (10 ^ 3) t
      else if id == timestamp_ns_id
      then in_units (10 ^ 9) 1 t
      else to_int64 host (time t)

  abbrev pub stored : LogicalType → Object Rat → ℕ
  stored t (time m) = time_for_write (id_of t) m
  stored t v = to_int64 host v

  unfoldable pub encode_int64_logical_value_for_write : LogicalType → Object Rat → Option ℕ
  unfolding time_for_write to_int64 decimal_unscaled
  encode_int64_logical_value_for_write t nil = some 0
  encode_int64_logical_value_for_write t value =
      if id_of t == decimal_id
      then elim (decimal_unscaled t value) [ none ↦ none | some z ↦ some (wrap (2 ^ 64) z) ]
      else some (stored t value)

  -- A word of `k` bytes of a value, or the panic.
  unfoldable pub write_word : ℕ → Option ℕ → Writer → Writer
  unfolding write_panic
  write_word k none = write_panic
  write_word k (some v) = write_le k (v % 256 ^ k)

  unfoldable pub write_parts : HugeIntParts → Writer → Writer
  write_parts p w = write_le 8 p.upper (write_le 8 p.lower w)

  -- `value.(*big.Int)`, and `big.NewInt(toInt64(value))` where it is none
  abbrev pub big_int_of : Object Rat → ℤ
  big_int_of (big_int z) = z
  big_int_of v = signed (to_int64 host v)

  -- `HugeIntFromSigned` of the value of an INT128; none for a panic
  unfoldable pub huge_int_of : LogicalType → Object Rat → Option HugeIntParts
  unfolding uuid_to_huge_int_parts decimal_unscaled huge_int_from_signed to_int64
  huge_int_of t nil = some zero_huge_int
  huge_int_of t value =
      if id_of t == uuid_id
      then some (uuid_to_huge_int_parts value)
      else if id_of t == decimal_id
      then elim (decimal_unscaled t value) [ none ↦ none | some z ↦ some (huge_int_from_signed z) ]
      else some (huge_int_from_signed (big_int_of value))

  -- The words of an UINT128.
  unfoldable pub write_unsigned : ℤ → Writer → Writer
  unfolding and_nat shift_right
  write_unsigned z w =
      write_le 8 (and_nat (shift_right z 64) (2 ^ 64 - 1)) (write_le 8 (and_nat z (2 ^ 64 - 1)) w)

  abbrev pub interval_of : Object Rat → IntervalValue
  interval_of (interval v) = v
  interval_of _ = record { months = 0; days = 0; micros = 0 }

  -- `int64` of what `decimalUnscaled` gives, or else of `otherwise`
  unfoldable pub decimal_or : LogicalType → Object Rat → ℕ → Option ℕ
  unfolding decimal_unscaled
  decimal_or t value otherwise =
      if id_of t == decimal_id
      then elim (decimal_unscaled t value) [ none ↦ none | some z ↦ some (wrap (2 ^ 64) z) ]
      else some otherwise

  -- `encodeFixedValueForWrite`
  unfoldable pub encode_fixed_value_for_write :
      LogicalType → PhysicalType → Object Rat → Writer → Writer
  encode_fixed_value_for_write t PhysicalType.bool value =
      write_le 1 (if to_bool host value then 1 else 0)
  encode_fixed_value_for_write t PhysicalType.int8 value = write_word 1 (some (to_int64 host value))
  encode_fixed_value_for_write t PhysicalType.uint8 value =
      write_word 1 (encode_enum_or_int t value)
  encode_fixed_value_for_write t PhysicalType.int16 value =
      write_word 2 (decimal_or t value (to_int64 host value))
  encode_fixed_value_for_write t PhysicalType.uint16 value =
      write_word 2 (encode_enum_or_int t value)
  encode_fixed_value_for_write t PhysicalType.int32 value = write_word 4 (
      if id_of t == date_id
      then some (date_to_epoch_days value)
      else decimal_or t value (to_int64 host value))
  encode_fixed_value_for_write t PhysicalType.uint32 value =
      write_word 4 (encode_enum_or_int t value)
  encode_fixed_value_for_write t PhysicalType.int64 value =
      write_word 8 (encode_int64_logical_value_for_write t value)
  encode_fixed_value_for_write t PhysicalType.uint64 value = write_le 8 (to_int64 host value)
  encode_fixed_value_for_write t PhysicalType.float value =
      write_le 4 (narrow (to_float64 host value))
  encode_fixed_value_for_write t PhysicalType.double value = write_le 8 (to_float64 host value)
  encode_fixed_value_for_write t PhysicalType.int128 value = elim (huge_int_of t value) [
    | none ↦ write_panic
    | some parts ↦ write_parts parts
  ]
  encode_fixed_value_for_write t PhysicalType.uint128 value = write_unsigned (big_int_of value)
  encode_fixed_value_for_write t PhysicalType.interval value = λ w.
      let v = interval_of value in write_le 8 v.micros (write_le 4 v.days (write_le 4 v.months w))
  encode_fixed_value_for_write t _ value = λ w. w

  -- `encodeStringLikeValueForWrite`
  unfoldable pub encode_string_like_value_for_write : Object Rat → List ℕ
  encode_string_like_value_for_write nil = []
  encode_string_like_value_for_write (blob b) = b
  encode_string_like_value_for_write value = sprint value
