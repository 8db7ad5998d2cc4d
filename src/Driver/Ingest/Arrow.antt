-- ===== src/Driver/Ingest/Arrow.antt =====
-- driver/quack/bulk_ingest.go: the Arrow types and arrays that it tells apart, which the Arrow library
-- declares, and their counterparts in SQL and on the wire.
use adbc_driver_quack.Base.{
  ℕ, suc, Bool, true, false, Option, none, some, List, [], ◌∷◌, ◌++◌, map, if◌then◌else◌, is_empty,
  is_some, not,
}
use adbc_driver_quack.Base.Int.{ℤ}
use adbc_driver_quack.Base.Text.{bytes}
use adbc_driver_quack.Driver.Params.{sprint_int64}
use adbc_driver_quack.QuackType.Ids
use adbc_driver_quack.QuackType.Types.{LogicalType, logical_type, nil_info, decimal}

-- The arrays with a fixed width that the driver reads: `*array.Boolean` to `*array.Float64`.
pub data Primitive : Type 0 where
  boolean : Primitive
  int8 : Primitive
  int16 : Primitive
  int32 : Primitive
  int64 : Primitive
  uint8 : Primitive
  uint16 : Primitive
  uint32 : Primitive
  uint64 : Primitive
  float32 : Primitive
  float64 : Primitive

-- `arrow.DataType` by its `ID()`; a timestamp has a time zone, a decimal a precision and a scale, as
-- 64-bit patterns. Every other type is `other_type`, with its id.
pub data ArrowType : Type 0 where
  primitive : Primitive → ArrowType
  string_type : ArrowType
  large_string_type : ArrowType
  binary_type : ArrowType
  large_binary_type : ArrowType
  date32_type : ArrowType
  timestamp_type : List ℕ → ArrowType
  decimal128_type : ℕ → ℕ → ArrowType
  other_type : ℕ → ArrowType

-- `arrow.Field` and `arrow.Schema`
pub record Field : Type 0 where
  pub name : List ℕ
  pub type : ArrowType
  pub nullable : Bool

-- `arrow.Array`: the values of its rows, none for a null. A primitive value is its bit pattern, a
-- decimal its unscaled integer; of an array of another Go type only the nulls are read.
pub data ArrowArray : Type 0 where
  primitives : Primitive → List (Option ℕ) → ArrowArray
  strings : List (Option (List ℕ)) → ArrowArray
  binaries : List (Option (List ℕ)) → ArrowArray
  decimals : List (Option ℤ) → ArrowArray
  other_array : List Bool → ArrowArray

-- `arrow.Record`: each column has `NumRows` values.
pub record ArrowRecord : Type 0 where
  pub fields : List Field
  pub columns : List ArrowArray
  pub num_rows : ℕ

-- `duckDBTypeForArrow`
unfoldable pub primitive_name : Primitive → List ℕ
primitive_name boolean = bytes "BOOLEAN"
primitive_name int8 = bytes "TINYINT"
primitive_name int16 = bytes "SMALLINT"
primitive_name int32 = bytes "INTEGER"
primitive_name int64 = bytes "BIGINT"
primitive_name uint8 = bytes "UTINYINT"
primitive_name uint16 = bytes "USMALLINT"
primitive_name uint32 = bytes "UINTEGER"
primitive_name uint64 = bytes "UBIGINT"
primitive_name float32 = bytes "FLOAT"
primitive_name float64 = bytes "DOUBLE"

unfoldable pub duckdb_type_for_arrow : ArrowType → Option (List ℕ)
unfolding primitive_name
duckdb_type_for_arrow (primitive p) = some (primitive_name p)
duckdb_type_for_arrow string_type = some (bytes "VARCHAR")
duckdb_type_for_arrow large_string_type = some (bytes "VARCHAR")
duckdb_type_for_arrow binary_type = some (bytes "BLOB")
duckdb_type_for_arrow large_binary_type = some (bytes "BLOB")
duckdb_type_for_arrow date32_type = some (bytes "DATE")
duckdb_type_for_arrow (timestamp_type zone) =
    some (if not (is_empty zone) then bytes "TIMESTAMP WITH TIME ZONE" else bytes "TIMESTAMP")
duckdb_type_for_arrow (decimal128_type precision scale) = some (
    bytes "DECIMAL("
    ++ (sprint_int64 precision ++ (bytes ", " ++ (sprint_int64 scale ++ bytes ")"))))
duckdb_type_for_arrow (other_type id) = none

-- `logicalTypeForArrow`
unfoldable pub primitive_id : Primitive → ℕ
primitive_id boolean = Ids.boolean_id
primitive_id int8 = Ids.tinyint_id
primitive_id int16 = Ids.smallint_id
primitive_id int32 = Ids.integer_id
primitive_id int64 = Ids.bigint_id
primitive_id uint8 = Ids.utinyint_id
primitive_id uint16 = Ids.usmallint_id
primitive_id uint32 = Ids.uinteger_id
primitive_id uint64 = Ids.ubigint_id
primitive_id float32 = Ids.float_id
primitive_id float64 = Ids.double_id

unfoldable pub logical_type_for_arrow : ArrowType → Option LogicalType
unfolding primitive_id
logical_type_for_arrow (primitive p) = some (logical_type (primitive_id p) nil_info)
logical_type_for_arrow string_type = some (logical_type Ids.varchar_id nil_info)
logical_type_for_arrow large_string_type = some (logical_type Ids.varchar_id nil_info)
logical_type_for_arrow binary_type = some (logical_type Ids.blob_id nil_info)
logical_type_for_arrow large_binary_type = some (logical_type Ids.blob_id nil_info)
logical_type_for_arrow date32_type = some (logical_type Ids.date_id nil_info)
logical_type_for_arrow (timestamp_type zone) =
    some (
      logical_type (if not (is_empty zone) then Ids.timestamp_tz_id else Ids.timestamp_id) nil_info)
logical_type_for_arrow (decimal128_type precision scale) =
    some (logical_type Ids.decimal_id (decimal precision scale []))
logical_type_for_arrow (other_type id) = none

-- `IsNull` of the rows, and `NullN`
unfoldable pub null_flags : ArrowArray → List Bool
null_flags (primitives p vs) = map (λ v. not (is_some v)) vs
null_flags (strings vs) = map (λ v. not (is_some v)) vs
null_flags (binaries vs) = map (λ v. not (is_some v)) vs
null_flags (decimals vs) = map (λ v. not (is_some v)) vs
null_flags (other_array flags) = flags

unfoldable pub count_nulls : List Bool → ℕ
count_nulls [] = 0
count_nulls (true ∷ flags) = suc (count_nulls flags)
count_nulls (false ∷ flags) = count_nulls flags
