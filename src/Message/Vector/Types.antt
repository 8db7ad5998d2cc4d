-- ===== src/Message/Vector/Types.antt =====
-- internal/message/vectors.go: columns of values. A word is its bit pattern, a string its byte_vec; an
-- index that is out of range is `none`, where Go panics.
use adbc_driver_quack.Base.{
  ℕ, ◌==◌, Bool, true, false, not, Option, none, some, List, length, get_elem?,
}
use adbc_driver_quack.Base.Int.{ℤ}
use adbc_driver_quack.Message.Validity.{validity_is_null}
use adbc_driver_quack.QuackType.Types.{LogicalType}

-- `time.Time`, in UTC: the seconds since 1970 and the nanoseconds in the second.
pub record Time : Type 0 where
  pub sec : ℤ
  pub nsec : ℕ

-- `IntervalValue`
pub record IntervalValue : Type 0 where
  pub months : ℕ
  pub days : ℕ
  pub micros : ℕ

mutual
  -- `interface{}`: nil, and the types that decoding and ingestion put in one. `Q` is `*big.Rat`.
  pub data Object (Q : Type 0) : Type 0 where
    nil : Object Q
    bool : Bool → Object Q
    int : ℕ → Object Q
    int8 : ℕ → Object Q
    int16 : ℕ → Object Q
    int32 : ℕ → Object Q
    int64 : ℕ → Object Q
    uint8 : ℕ → Object Q
    uint16 : ℕ → Object Q
    uint32 : ℕ → Object Q
    uint64 : ℕ → Object Q
    float32 : ℕ → Object Q
    float64 : ℕ → Object Q
    text : List ℕ → Object Q
    blob : List ℕ → Object Q
    time : Time → Object Q
    rat : Q → Object Q
    big_int : ℤ → Object Q
    interval : IntervalValue → Object Q
    row : RowMap Q → Object Q
    slice : Objects Q → Object Q

  -- `[]interface{}`
  pub data Objects (Q : Type 0) : Type 0 where
    no_objects : Objects Q
    object_then : Object Q → Objects Q → Objects Q

  -- `map[string]interface{}` by its assignments, the last one first; a later one hides an earlier.
  pub data RowMap (Q : Type 0) : Type 0 where
    no_fields : RowMap Q
    assign : List ℕ → Object Q → RowMap Q → RowMap Q

-- What the vectors use of the machine and of the standard library where no definition of it stands
-- here: `make`, float_vec by their bits, `big.Rat`, and formatting.
pub record Host : Type 1 where
  pub Rat : Type 0
  -- Whether `make` gives a slice: the size of an element, and the length.
  pub can_make : ℕ → ℕ → Bool
  -- `SetInt` and `SetFrac`; `Num` and `Denom`; `SetFloat64`, nil where a float is not finite
  pub rat_set_int : ℤ → Rat
  pub rat_set_frac : ℤ → ℕ → Rat
  pub rat_num : Rat → ℤ
  pub rat_denom : Rat → ℕ
  pub rat_set_float64 : ℕ → Option Rat
  -- `big.ParseFloat(v, 10, 256, big.ToNearestEven)` and `Float.Rat` behind it; none for its error
  pub parse_float : List ℕ → Option Rat
  -- Conversions: `float64(f)`, `float32(d)`, `int64(d)`, `float64(n)`
  pub widen : ℕ → ℕ
  pub narrow : ℕ → ℕ
  pub float_to_int64 : ℕ → ℕ
  pub int64_to_float : ℕ → ℕ
  -- `d.Hours()` of a duration in nanoseconds, and `f / g`
  pub hours : ℤ → ℕ
  pub float_quo : ℕ → ℕ → ℕ
  -- `fmt.Sprintf("%v", v)`
  pub sprint : Object Rat → List ℕ

-- Which of the typed vectors: `BoolVec`, `ByteVec`, `ShortVec`, `IntVec`, `LongVec`, `FloatVec`,
-- `DoubleVec`.
pub data Kind : Type 0 where
  bool_vec : Kind
  byte_vec : Kind
  short_vec : Kind
  int_vec : Kind
  long_vec : Kind
  float_vec : Kind
  double_vec : Kind

-- `DecodedVector`; a bool of a `BoolVec` is 0 or 1, a nil interface is `none` of an Option.
pub data DecodedVector (Q : Type 0) : Type 0 where
  typed_vec : Kind → LogicalType → List ℕ → Option (List ℕ) → DecodedVector Q
  object_vec : LogicalType → List (Object Q) → DecodedVector Q

-- `DataChunk`
pub record DataChunk (Q : Type 0) : Type 0 where
  pub row_count : ℕ
  pub types : List LogicalType
  pub columns : List (Option (DecodedVector Q))

module _ {Q : Type 0} where
  abbrev pub is_nil_object : Object Q → Bool
  is_nil_object nil = true
  is_nil_object _ = false

  -- `v.Values[row]` in an interface
  abbrev pub boxed : Kind → ℕ → Object Q
  boxed bool_vec v = bool (not (v == 0))
  boxed byte_vec v = int8 v
  boxed short_vec v = int16 v
  boxed int_vec v = int32 v
  boxed long_vec v = int64 v
  boxed float_vec v = float32 v
  boxed double_vec v = float64 v

  -- `Size`
  unfoldable pub size : DecodedVector Q → ℕ
  size (typed_vec kind t values validity) = length values
  size (object_vec t values) = length values

  -- `IsNull`
  unfoldable pub is_null : DecodedVector Q → ℕ → Option Bool
  is_null (typed_vec kind t values validity) i = validity_is_null validity i
  is_null (object_vec t values) i = elim (get_elem? values i) [
    | none ↦ none
    | some v ↦ some (is_nil_object v)
  ]

  -- `GetObject`
  unfoldable pub get_object : DecodedVector Q → ℕ → Option (Object Q)
  get_object (typed_vec kind t values validity) i = elim (validity_is_null validity i) [
    | none ↦ none
    | some true ↦ some nil
    | some false ↦ elim (get_elem? values i) [ none ↦ none | some v ↦ some (boxed kind v) ]
  ]
  get_object (object_vec t values) i = get_elem? values i
