-- ===== src/QuackType/Physical.antt =====
-- internal/quacktype/logical_type_id.go and logical_type.go: the storage of a type, and the parts of
-- a type that vectors need. A width of 0 stands nowhere: `byte_width` is none where Go panics.
use adbc_driver_quack.Base.{
  ℕ, ◌^◌, Bool, true, false, ◌||◌, Option, none, some, List, [], length, leb, ◌==◌, if◌then◌else◌,
}
use adbc_driver_quack.QuackType.Ids.{
  aggregate_state_id, array_id, bigint_id, bignum_id, bit_id, blob_id, boolean_id, char_id, date_id,
  decimal_id, double_id, enum_id, float_id, geometry_id, hugeint_id, integer_id, interval_id,
  list_id, map_id, pointer_id, smallint_id, sql_null_id, struct_id, time_id, time_ns_id, time_tz_id,
  timestamp_id, timestamp_ms_id, timestamp_ns_id, timestamp_sec_id, timestamp_tz_id, tinyint_id,
  type_id, ubigint_id, uhugeint_id, uinteger_id, union_id, usmallint_id, utinyint_id, uuid_id,
  validity_id, varchar_id, variant_id,
}
use adbc_driver_quack.QuackType.Types.{
  LogicalType, ExtraTypeInfo, logical_type, decimal, list_info, struct_info, enum_info, array,
  children_to_list, zero_type,
}

-- `PhysicalType`
pub data PhysicalType : Type 0 where
  invalid : PhysicalType
  bool : PhysicalType
  uint8 : PhysicalType
  int8 : PhysicalType
  uint16 : PhysicalType
  int16 : PhysicalType
  uint32 : PhysicalType
  int32 : PhysicalType
  uint64 : PhysicalType
  int64 : PhysicalType
  float : PhysicalType
  double : PhysicalType
  interval : PhysicalType
  list : PhysicalType
  struct : PhysicalType
  array_storage : PhysicalType
  varchar : PhysicalType
  uint128 : PhysicalType
  int128 : PhysicalType
  bit : PhysicalType

-- `IsConstantSize`
unfoldable pub is_constant_size : PhysicalType → Bool
is_constant_size invalid = false
is_constant_size list = false
is_constant_size struct = false
is_constant_size array_storage = false
is_constant_size varchar = false
is_constant_size bit = false
is_constant_size _ = true

-- `ByteWidth`
unfoldable pub byte_width : PhysicalType → Option ℕ
byte_width bool = some 1
byte_width uint8 = some 1
byte_width int8 = some 1
byte_width uint16 = some 2
byte_width int16 = some 2
byte_width uint32 = some 4
byte_width int32 = some 4
byte_width float = some 4
byte_width uint64 = some 8
byte_width int64 = some 8
byte_width double = some 8
byte_width interval = some 16
byte_width uint128 = some 16
byte_width int128 = some 16
byte_width _ = none

-- `getDecimalPhysicalType`; a width is an int, whose pattern is negative from 2 ^ 63 on.
unfoldable pub get_decimal_physical_type : ExtraTypeInfo → PhysicalType
get_decimal_physical_type (decimal width scale alias) =
    if leb width 4 || leb (2 ^ 63) width
    then int16
    else if leb width 9
    then int32
    else if leb width 18
    then int64
    else if leb width 38
    then int128
    else invalid
get_decimal_physical_type _ = invalid

-- `GetEnumValues`, none for its error
unfoldable pub get_enum_values : ExtraTypeInfo → Option (List (List ℕ))
get_enum_values (enum_info values alias) = some values
get_enum_values _ = none

-- `getEnumPhysicalType`
unfoldable pub get_enum_physical_type : ExtraTypeInfo → PhysicalType
unfolding get_enum_values
get_enum_physical_type info = elim (get_enum_values info) [
  | none ↦ invalid
  | some values ↦
      if leb (length values) 0xFF
      then uint8
      else if leb (length values) 0xFFFF
      then uint16
      else uint32
]

-- `GetPhysicalType`
unfoldable pub get_physical_type : LogicalType → PhysicalType
unfolding get_decimal_physical_type get_enum_physical_type
get_physical_type (logical_type id info) =
    if id == boolean_id
    then bool
    else if id == tinyint_id
    then int8
    else if id == utinyint_id
    then uint8
    else if id == smallint_id
    then int16
    else if id == usmallint_id
    then uint16
    else if id == sql_null_id || id == date_id || id == integer_id
    then int32
    else if id == uinteger_id
    then uint32
    else if id == bigint_id
        || id == time_id
        || id == time_ns_id
        || id == timestamp_id
        || id == timestamp_sec_id
        || id == timestamp_ns_id
        || id == timestamp_ms_id
        || id == time_tz_id
        || id == timestamp_tz_id
    then int64
    else if id == ubigint_id
    then uint64
    else if id == uhugeint_id
    then uint128
    else if id == hugeint_id || id == uuid_id
    then int128
    else if id == float_id
    then float
    else if id == double_id
    then double
    else if id == decimal_id
    then get_decimal_physical_type info
    else if id == bignum_id
        || id == varchar_id
        || id == char_id
        || id == blob_id
        || id == bit_id
        || id == type_id
        || id == aggregate_state_id
        || id == geometry_id
    then varchar
    else if id == interval_id
    then interval
    else if id == union_id || id == variant_id || id == struct_id
    then struct
    else if id == list_id || id == map_id
    then list
    else if id == array_id
    then array_storage
    else if id == pointer_id
    then uint64
    else if id == validity_id
    then bit
    else if id == enum_id
    then get_enum_physical_type info
    else invalid

-- `GetChildType`, with the zero type for its error
unfoldable pub get_child_type : LogicalType → LogicalType
get_child_type (logical_type id (list_info t a)) = t
get_child_type (logical_type id (array t n a)) = t
get_child_type _ = zero_type

-- `GetStructChildren`, with nil for its error
unfoldable pub get_struct_children : LogicalType → List (List ℕ × LogicalType)
get_struct_children (logical_type id (struct_info children a)) = children_to_list children
get_struct_children _ = []

-- `GetArraySize`, with 0 for its error
unfoldable pub get_array_size : LogicalType → ℕ
get_array_size (logical_type id (array t n a)) = n
get_array_size _ = 0

-- `t.ID`, `t.TypeInfo`
abbrev pub id_of : LogicalType → ℕ
id_of (logical_type id info) = id

abbrev pub info_of : LogicalType → ExtraTypeInfo
info_of (logical_type id info) = info
