-- ===== src/Message/Vector/Rows.antt =====
-- internal/message/vector_codec.go and vector_encoder.go: the words of a typed column.
use adbc_driver_quack.Base.{ℕ, ◌%◌, ◌^◌, ◌<◌, ◌≡◌, refl, Bool, true, false, some, ◌==◌, arith}
use adbc_driver_quack.Codec.Writer.{Writer, write_le}
use adbc_driver_quack.Message.Vector.Stored.{
  encode_fixed_value_for_write, encode_enum_or_int, decimal_or, write_word,
  encode_int64_logical_value_for_write,
}
use adbc_driver_quack.Message.Vector.Types.{
  Host, Object, nil, Kind, bool_vec, byte_vec, short_vec, int_vec, long_vec, float_vec, double_vec,
  boxed,
}
use adbc_driver_quack.Message.Vector.Values.{
  needs_object_materialization, to_bool, to_int64, to_float64,
}
use adbc_driver_quack.QuackType.Ids.{decimal_id, date_id, enum_id}
use adbc_driver_quack.QuackType.Physical.{PhysicalType, id_of}
use adbc_driver_quack.QuackType.Types.{LogicalType}

-- The storage of the typed vectors: the vector, the bytes of a value on the wire and in memory.
abbrev pub kind_of : PhysicalType → Kind
kind_of PhysicalType.bool = bool_vec
kind_of PhysicalType.int8 = byte_vec
kind_of PhysicalType.uint8 = short_vec
kind_of PhysicalType.int16 = short_vec
kind_of PhysicalType.uint16 = int_vec
kind_of PhysicalType.int32 = int_vec
kind_of PhysicalType.float = float_vec
kind_of PhysicalType.double = double_vec
kind_of _ = long_vec

abbrev pub width_of : PhysicalType → ℕ
width_of PhysicalType.bool = 1
width_of PhysicalType.int8 = 1
width_of PhysicalType.uint8 = 1
width_of PhysicalType.int16 = 2
width_of PhysicalType.uint16 = 2
width_of PhysicalType.int32 = 4
width_of PhysicalType.uint32 = 4
width_of PhysicalType.float = 4
width_of _ = 8

-- A value of a typed vector: it fits its storage, and a float is none that a conversion changes.
abbrev pub IsValue : Host → PhysicalType → ℕ → Type 0
IsValue host PhysicalType.bool v = v < 2
IsValue host PhysicalType.int8 v = v < 2 ^ 8
IsValue host PhysicalType.uint8 v = v < 2 ^ 8
IsValue host PhysicalType.int16 v = v < 2 ^ 16
IsValue host PhysicalType.uint16 v = v < 2 ^ 16
IsValue host PhysicalType.int32 v = v < 2 ^ 32
IsValue host PhysicalType.uint32 v = v < 2 ^ 32
IsValue host PhysicalType.int64 v = v < 2 ^ 64
IsValue host PhysicalType.uint64 v = v < 2 ^ 64
IsValue host PhysicalType.float v = (v < 2 ^ 32) × (host.narrow (host.widen v) ≡ v)
IsValue host PhysicalType.double v = v < 2 ^ 64
IsValue host _ v = ⊥

-- Float zero is zero in both precisions.
abbrev pub NarrowsZero : Host → Type 0
NarrowsZero host = host.narrow 0 ≡ 0

-- The object of a row of a typed vector.
abbrev pub cell : {Q : Type 0} → Kind → Bool → ℕ → Object Q
cell kind true v = boxed kind v
cell kind false v = nil

module _ (host : Host) (t : LogicalType) where
  -- None of the logical types that are stored otherwise.
  pub record IsPlain : Type 0 where
    pub decimal : (id_of t == decimal_id) ≡ false
    pub date : (id_of t == date_id) ≡ false
    pub enum : (id_of t == enum_id) ≡ false

  pub plain_ids : (p : PhysicalType) → needs_object_materialization t p ≡ false → IsPlain
  unfolding needs_object_materialization
  plain_ids p h = record { decimal = ground arith; date = ground arith; enum = ground arith }

  module _ (plain : IsPlain) (w : Writer) where
    Encodes : PhysicalType → Type 0
    Encodes p =
        (valid : Bool) (v : ℕ)
        → (valid ≡ false → v ≡ 0)
        → IsValue host p v
        → encode_fixed_value_for_write host t p (cell (kind_of p) valid v) w
          ≡ write_le (width_of p) v w

    write_bool_row : Encodes PhysicalType.bool
    unfolding Encodes encode_fixed_value_for_write to_bool
    write_bool_row true v z h = ground arith
    write_bool_row false v z h = rw (z refl)

    enum_or_int :
        (k : Kind) (valid : Bool) (v : ℕ)
        → encode_enum_or_int host t (cell k valid v) ≡ some (to_int64 host (cell k valid v))
    unfolding encode_enum_or_int
    enum_or_int bool_vec true v = ground (arith, plain.enum)
    enum_or_int byte_vec true v = ground (arith, plain.enum)
    enum_or_int short_vec true v = ground (arith, plain.enum)
    enum_or_int int_vec true v = ground (arith, plain.enum)
    enum_or_int long_vec true v = ground (arith, plain.enum)
    enum_or_int float_vec true v = ground (arith, plain.enum)
    enum_or_int double_vec true v = ground (arith, plain.enum)
    enum_or_int k false v = refl

    decimal_or_int : (o : Object host.Rat) (n : ℕ) → decimal_or host t o n ≡ some n
    unfolding decimal_or
    decimal_or_int o n = rw (plain.decimal)

    -- The low bytes of a row as an int64.
    KeepsWord : Kind → ℕ → ℕ → Type 0
    KeepsWord k bound m =
        (valid : Bool) (v : ℕ)
        → (valid ≡ false → v ≡ 0)
        → v < bound
        → to_int64 host (cell k valid v) % m ≡ v

    low_byte : KeepsWord byte_vec (2 ^ 8) (256 ^ 1)
    unfolding KeepsWord to_int64
    low_byte true v z h = ground arith
    low_byte false v z h = rw (z refl)

    low_short : KeepsWord short_vec (2 ^ 16) (256 ^ 2)
    unfolding KeepsWord to_int64
    low_short true v z h = ground arith
    low_short false v z h = rw (z refl)

    low_byte_of_short : KeepsWord short_vec (2 ^ 8) (256 ^ 1)
    unfolding KeepsWord to_int64
    low_byte_of_short true v z h = ground arith
    low_byte_of_short false v z h = rw (z refl)

    low_int : KeepsWord int_vec (2 ^ 32) (256 ^ 4)
    unfolding KeepsWord to_int64
    low_int true v z h = ground arith
    low_int false v z h = rw (z refl)

    low_short_of_int : KeepsWord int_vec (2 ^ 16) (256 ^ 2)
    unfolding KeepsWord to_int64
    low_short_of_int true v z h = ground arith
    low_short_of_int false v z h = rw (z refl)

    low_int_of_long : KeepsWord long_vec (2 ^ 32) (256 ^ 4)
    unfolding KeepsWord to_int64
    low_int_of_long true v z h = ground arith
    low_int_of_long false v z h = rw (z refl)

    long_value :
        (valid : Bool) (v : ℕ) → (valid ≡ false → v ≡ 0) → to_int64 host (cell long_vec valid v) ≡ v
    unfolding to_int64
    long_value true v z = refl
    long_value false v z = rw (z refl)

    int64_value :
        (valid : Bool) (v : ℕ)
        → (valid ≡ false → v ≡ 0)
        → encode_int64_logical_value_for_write host t (cell long_vec valid v) ≡ some v
    unfolding encode_int64_logical_value_for_write
    int64_value true v z = rw (plain.decimal)
    int64_value false v z = rw (z refl)

    write_int8_row : Encodes PhysicalType.int8
    unfolding Encodes KeepsWord encode_fixed_value_for_write write_word
    write_int8_row valid v z h = rw (low_byte valid v z h)

    write_uint8_row : Encodes PhysicalType.uint8
    unfolding Encodes KeepsWord encode_fixed_value_for_write write_word
    write_uint8_row valid v z h = rw (enum_or_int short_vec valid v, low_byte_of_short valid v z h)

    write_int16_row : Encodes PhysicalType.int16
    unfolding Encodes KeepsWord encode_fixed_value_for_write write_word
    write_int16_row valid v z h = rw (
      decimal_or_int (cell short_vec valid v) (to_int64 host (cell short_vec valid v)),
      low_short valid v z h,
    )

    write_uint16_row : Encodes PhysicalType.uint16
    unfolding Encodes KeepsWord encode_fixed_value_for_write write_word
    write_uint16_row valid v z h = rw (enum_or_int int_vec valid v, low_short_of_int valid v z h)

    write_int32_row : Encodes PhysicalType.int32
    unfolding Encodes KeepsWord encode_fixed_value_for_write write_word
    write_int32_row valid v z h = rw (
      plain.date,
      decimal_or_int (cell int_vec valid v) (to_int64 host (cell int_vec valid v)),
      low_int valid v z h,
    )

    write_uint32_row : Encodes PhysicalType.uint32
    unfolding Encodes KeepsWord encode_fixed_value_for_write write_word
    write_uint32_row valid v z h = rw (enum_or_int long_vec valid v, low_int_of_long valid v z h)

    write_int64_row : Encodes PhysicalType.int64
    unfolding Encodes encode_fixed_value_for_write write_word
    write_int64_row valid v z h =
        let small : v % 256 ^ 8 ≡ v = omega arith in rw (int64_value valid v z, small)

    write_uint64_row : Encodes PhysicalType.uint64
    unfolding Encodes encode_fixed_value_for_write
    write_uint64_row valid v z h = rw (long_value valid v z)

    write_float_row : NarrowsZero host → Encodes PhysicalType.float
    unfolding Encodes encode_fixed_value_for_write to_float64
    write_float_row narrows true v z (h, same) = rw same
    write_float_row narrows false v z h = rw (z refl, narrows)

    write_double_row : Encodes PhysicalType.double
    unfolding Encodes encode_fixed_value_for_write to_float64
    write_double_row true v z h = refl
    write_double_row false v z h = rw (z refl)

    -- A row of a typed column is written as the bytes of its word, a null one as zero.
    pub write_row :
        (p : PhysicalType) (valid : Bool) (v : ℕ)
        → NarrowsZero host
        → (valid ≡ false → v ≡ 0)
        → IsValue host p v
        → encode_fixed_value_for_write host t p (cell (kind_of p) valid v) w
          ≡ write_le (width_of p) v w
    unfolding Encodes
    write_row PhysicalType.bool valid v narrows z h = write_bool_row valid v z h
    write_row PhysicalType.int8 valid v narrows z h = write_int8_row valid v z h
    write_row PhysicalType.uint8 valid v narrows z h = write_uint8_row valid v z h
    write_row PhysicalType.int16 valid v narrows z h = write_int16_row valid v z h
    write_row PhysicalType.uint16 valid v narrows z h = write_uint16_row valid v z h
    write_row PhysicalType.int32 valid v narrows z h = write_int32_row valid v z h
    write_row PhysicalType.uint32 valid v narrows z h = write_uint32_row valid v z h
    write_row PhysicalType.int64 valid v narrows z h = write_int64_row valid v z h
    write_row PhysicalType.uint64 valid v narrows z h = write_uint64_row valid v z h
    write_row PhysicalType.float valid v narrows z h = write_float_row narrows valid v z h
    write_row PhysicalType.double valid v narrows z h = write_double_row valid v z h
    write_row PhysicalType.invalid valid v narrows z h = absurd h
    write_row PhysicalType.interval valid v narrows z h = absurd h
    write_row PhysicalType.list valid v narrows z h = absurd h
    write_row PhysicalType.struct valid v narrows z h = absurd h
    write_row PhysicalType.array_storage valid v narrows z h = absurd h
    write_row PhysicalType.varchar valid v narrows z h = absurd h
    write_row PhysicalType.uint128 valid v narrows z h = absurd h
    write_row PhysicalType.int128 valid v narrows z h = absurd h
    write_row PhysicalType.bit valid v narrows z h = absurd h
