-- ===== src/Tests/Vectors.antt =====
-- Bitmaps, 128-bit integers, dates and times, and columns at concrete inputs.
use adbc_driver_quack.Base.{
  ◌≤◌, ap, ◌∙◌, ℕ, zero, suc, ◌+◌, ◌-◌, ◌*◌, ◌%◌, ◌^◌, ◌<◌, ◌≡◌, ◌≢◌, refl, Bool, true, false, none,
  some, List, [], ◌∷◌, ◌++◌, length, get_elem?, ltb, ◌==◌, if◌then◌else◌, arith, inr,
}
use adbc_driver_quack.Base.Int.{ℤ, pos, negsuc, signed, mul_nat, quo_nat, wrap}
use adbc_driver_quack.Codec.Reads.{Fits}
use adbc_driver_quack.Codec.Writer.{
  new_binary_writer, write_object, write_field, write_uleb128, write_list, write_bool, write_string,
}
use adbc_driver_quack.Codec.RoundTrip.{written, RoundTrips}
use adbc_driver_quack.Message.HugeInt.{huge_int_from_signed, signed_big_int}
use adbc_driver_quack.Message.HugeInt.RoundTrip.{
  signed_big_int-huge_int_from_signed, huge_int_from_signed-signed_big_int,
}
use adbc_driver_quack.Message.Validity.{
  validity_is_null, validity_word_count, validity_all_valid, validity_set_null, validity_set_valid,
  validity_from_bytes, validity_to_bytes,
}
use adbc_driver_quack.Message.Validity.Rows.{
  Represents, validity_all_valid-Represents, validity_set_null-Represents,
  validity_set_valid-Represents,
}
use adbc_driver_quack.Message.Validity.Wire.{validity_from_bytes-validity_to_bytes}
use adbc_driver_quack.Message.Vector.Chunk.{
  IsChunk, decode_data_chunk_wrapper-encode_data_chunk_wrapper,
}
use adbc_driver_quack.Message.Vector.Clock.{
  encode_int64-decode_int64, date_to_epoch_days-epoch_add_days, date_to_epoch_days_saturates,
  ExactFloats, magnitude, float_of,
}
use adbc_driver_quack.Message.Vector.Column.{IsTyped}
use adbc_driver_quack.Message.Vector.Decode.{decode_data_chunk_wrapper}
use adbc_driver_quack.Message.Vector.Decimals.{
  Fractions, quo_nat-mul_nat, decimal_unscaled-decimal_from_unscaled,
}
use adbc_driver_quack.Message.Vector.Uuids.{uuid_to_huge_int_parts-uuid_from_huge_int_parts}
use adbc_driver_quack.Message.Vector.Dictionary.{project_vector-rows}
use adbc_driver_quack.Message.Vector.Encode.{
  encode_data_chunk_wrapper, encode_vector, value_of_row, write_values, write_validity,
}
use adbc_driver_quack.Message.Vector.Enums.{encode_enum_or_int-decode_enum_or_int}
use adbc_driver_quack.QuackType.Ids.{enum_id}
use adbc_driver_quack.Message.Vector.Sequence.{element, sequence_vector-rows}
use adbc_driver_quack.Message.Vector.Shapes.{index, project_vector, sequence_vector}
use adbc_driver_quack.Message.Vector.Stored.{
  encode_int64_logical_value_for_write, date_to_epoch_days, encode_fixed_value_for_write,
  decimal_or, decimal_unscaled, uuid_to_huge_int_parts, write_word, encode_enum_or_int,
}
use adbc_driver_quack.Message.Vector.Times.{epoch_add_days}
use adbc_driver_quack.Message.Vector.Types.{
  Host, Object, text, time, rat, DecodedVector, typed_vec, DataChunk, int_vec, size, is_null,
  get_object,
}
use adbc_driver_quack.Message.Vector.Values.{
  decode_int64_logical_value, decode_enum_or_int, decimal_from_unscaled, uuid_from_huge_int_parts,
  needs_object_materialization, to_int64,
}
use adbc_driver_quack.QuackType.Physical.{get_physical_type, byte_width}
use adbc_driver_quack.QuackType.Encode.{encode_logical_type, encode_info_field}
use adbc_driver_quack.QuackType.Wire.{IsEncodable, IsEncodableInfo}
use adbc_driver_quack.QuackType.Types.{LogicalType, logical_type, decimal, enum_info, nil_info}

-- A machine: fractions are pairs, and floats convert to themselves.
abbrev printed : Object (ℤ × ℕ) → List ℕ
printed (text s) = s
printed _ = []

abbrev machine : Host
machine = record {
  Rat = ℤ × ℕ;
  can_make = λ bytes_each n. ltb n (2 ^ 40);
  rat_set_int = λ z. (z, 1);
  rat_set_frac = λ z d. (z, d);
  rat_num = λ q. q.0;
  rat_denom = λ q. q.1;
  rat_set_float64 = λ f. none;
  parse_float = λ s. none;
  widen = λ v. v;
  narrow = λ v. v;
  float_to_int64 = λ v. v;
  int64_to_float = λ v. v;
  hours = λ d. wrap (2 ^ 64) (quo_nat d 3_600_000_000_000);
  float_quo = λ f g. wrap (2 ^ 64) (quo_nat (signed f) g);
  sprint = printed;
}

machine_hours :
    (z : ℤ)
    → magnitude z ≤ 2_562_047
    → machine.hours (mul_nat z 3_600_000_000_000) ≡ float_of machine z
unfolding mul_nat quo_nat wrap
machine_hours (pos n) h = ground arith
machine_hours (negsuc n) h = ground arith

signed-wrap_small : (z : ℤ) → magnitude z ≤ 2 ^ 53 → signed (wrap (2 ^ 64) z) ≡ z
unfolding wrap
signed-wrap_small (pos n) h = ground arith
signed-wrap_small (negsuc n) h = ground arith

machine_quo :
    (z : ℤ) (d : ℕ)
    → 0 < d
    → magnitude (mul_nat z d) ≤ 2 ^ 53
    → machine.float_quo (float_of machine (mul_nat z d)) (machine.int64_to_float d)
      ≡ float_of machine z
machine_quo z d lt h =
    ap (λ y. wrap (2 ^ 64) (quo_nat y d)) (signed-wrap_small (mul_nat z d) h)
    ∙ ap (wrap (2 ^ 64)) (quo_nat-mul_nat z d lt)

machine_floats : ExactFloats machine
machine_floats = record {
  hours_exact = machine_hours;
  quo_exact = machine_quo;
  int64_exact = λ z h. refl;
}

validity_set_null-Represents_example :
    (words' : List ℕ) × (validity_set_null (validity_all_valid 70) 66 ≡ some words')
    × Represents words' 70 (λ j. if j == 66 then false else true)
validity_set_null-Represents_example =
    validity_set_null-Represents (validity_all_valid 70) 70 66 (λ j. true) (omega arith)
      (validity_all_valid-Represents 70 (omega arith))

validity_set_valid-Represents_example :
    (words' : List ℕ) × (validity_set_valid (validity_all_valid 70) 69 ≡ some words')
    × Represents words' 70 (λ j. if j == 69 then true else true)
validity_set_valid-Represents_example =
    validity_set_valid-Represents (validity_all_valid 70) 70 69 (λ j. true) (omega arith)
      (validity_all_valid-Represents 70 (omega arith))

validity_all_valid-Represents_example : Represents (validity_all_valid 70) 70 (λ j. true)
validity_all_valid-Represents_example = validity_all_valid-Represents 70 (omega arith)

validity_from_bytes-validity_to_bytes_example :
    (bytes : List ℕ) × (validity_to_bytes (some (5 ∷ ((2 ^ 64 - 1) ∷ []))) 70 ≡ some bytes)
    × (validity_from_bytes bytes 70 ≡ 5 ∷ ((2 ^ 64 - 1) ∷ []))
    × (length bytes ≡ 8 * validity_word_count 70)
unfolding validity_word_count
validity_from_bytes-validity_to_bytes_example =
    validity_from_bytes-validity_to_bytes (5 ∷ ((2 ^ 64 - 1) ∷ [])) 70 refl (omega arith)

signed_big_int-huge_int_from_signed_example :
    signed_big_int (huge_int_from_signed (negsuc (2 ^ 127 - 1))) ≡ negsuc (2 ^ 127 - 1)
signed_big_int-huge_int_from_signed_example =
    signed_big_int-huge_int_from_signed (negsuc (2 ^ 127 - 1)) (omega arith)

huge_int_from_signed-signed_big_int_example :
    huge_int_from_signed (signed_big_int (record { upper = 2 ^ 63; lower = 7 }))
    ≡ record { upper = 2 ^ 63; lower = 7 }
huge_int_from_signed-signed_big_int_example =
    huge_int_from_signed-signed_big_int (2 ^ 63) 7 (omega arith) (omega arith)

uuid_to_huge_int_parts-uuid_from_huge_int_parts_example :
    uuid_to_huge_int_parts machine (text (uuid_from_huge_int_parts (2 ^ 63 + 17) 4294967299))
    ≡ record { upper = 2 ^ 63 + 17; lower = 4294967299 }
uuid_to_huge_int_parts-uuid_from_huge_int_parts_example =
    uuid_to_huge_int_parts-uuid_from_huge_int_parts machine (2 ^ 63 + 17) 4294967299 (omega arith)
      (omega arith)

machine_fractions : Fractions machine
machine_fractions = record { value = λ v d h. refl; positive = λ v d h. h }

-- -12.345 as a DECIMAL(9, 3)
decimal_unscaled-decimal_from_unscaled_example :
    decimal_unscaled machine
      (logical_type 21 (decimal 9 3 []))
      (rat (decimal_from_unscaled machine (logical_type 21 (decimal 9 3 [])) (negsuc 12344)))
    ≡ some (negsuc 12344)
decimal_unscaled-decimal_from_unscaled_example =
    decimal_unscaled-decimal_from_unscaled machine 21 9 3 [] (negsuc 12344) machine_fractions

-- "a", "bc", "a"
abbrev names : List (List ℕ)
names = (97 ∷ []) ∷ ((98 ∷ (99 ∷ [])) ∷ ((97 ∷ []) ∷ []))

second_is_new : (j : ℕ) → j < 1 → get_elem? names j ≢ some (98 ∷ (99 ∷ []))
second_is_new zero h = ground arith
second_is_new (suc j) h = absurd (omega arith)

encode_enum_or_int-decode_enum_or_int_example :
    encode_enum_or_int machine
      (logical_type enum_id (enum_info names []))
      (decode_enum_or_int machine (logical_type enum_id (enum_info names [])) 1)
    ≡ some 1
encode_enum_or_int-decode_enum_or_int_example =
    encode_enum_or_int-decode_enum_or_int machine names [] 1 (98 ∷ (99 ∷ [])) (λ t. refl) refl
      second_is_new

abbrev timestamp : LogicalType
timestamp = logical_type 19 nil_info

-- A microsecond before 1970.
encode_int64-decode_int64_example :
    encode_int64_logical_value_for_write machine timestamp
      (decode_int64_logical_value machine timestamp (2 ^ 64 - 1))
    ≡ some (2 ^ 64 - 1)
encode_int64-decode_int64_example =
    encode_int64-decode_int64 machine timestamp (2 ^ 64 - 1) (omega arith) (omega arith)
      (λ e. absurd (omega arith), λ e. absurd (omega arith))

date_to_epoch_days-epoch_add_days_example :
    date_to_epoch_days machine (time (epoch_add_days (signed (2 ^ 64 - 1)))) ≡ 2 ^ 64 - 1
date_to_epoch_days-epoch_add_days_example =
    date_to_epoch_days-epoch_add_days machine (2 ^ 64 - 1) machine_floats (inr (omega arith))
      (omega arith)

-- The first days of 2263 and of 2300.
date_to_epoch_days_saturates_example :
    date_to_epoch_days machine (time (epoch_add_days (pos 107_016)))
    ≡ date_to_epoch_days machine (time (epoch_add_days (pos 120_530)))
date_to_epoch_days_saturates_example =
    date_to_epoch_days_saturates machine 107_016 120_530 (omega arith) (omega arith)

abbrev integer : LogicalType
integer = logical_type 13 nil_info

project_vector-rows_example :
    (v : DecodedVector machine.Rat) × (project_vector machine integer
        (some (typed_vec int_vec integer (7 ∷ (0 ∷ (9 ∷ []))) (some (5 ∷ []))))
        (2 ∷ (1 ∷ (2 ∷ [])))
      ≡ some v)
    × (size v ≡ 3)
    × ((i idx : ℕ)
        → get_elem? (2 ∷ (1 ∷ (2 ∷ []))) i ≡ some idx
        → get_object v i
          ≡ get_object {Q = machine.Rat}
              (typed_vec int_vec integer (7 ∷ (0 ∷ (9 ∷ []))) (some (5 ∷ [])))
              (index idx))
unfolding validity_is_null
project_vector-rows_example =
    project_vector-rows machine integer integer int_vec (7 ∷ (0 ∷ (9 ∷ []))) (some (5 ∷ []))
      (2 ∷ (1 ∷ (2 ∷ []))) (omega arith)
      (
        (false, refl, λ e. (9, refl)),
        ((true, refl, λ e. absurd (cc)), ((false, refl, λ e. (9, refl)), tt)),
      )

sequence_vector-rows_example :
    (v : DecodedVector machine.Rat) × (sequence_vector machine integer 3 10 (2 ^ 64 - 1) ≡ some v)
    × (size v ≡ 3)
    × ((i : ℕ)
        → i < 3
        → get_object v i ≡ some (element machine integer ((10 + i * (2 ^ 64 - 1)) % 2 ^ 64)))
sequence_vector-rows_example =
    sequence_vector-rows machine integer 3 10 (2 ^ 64 - 1) (omega arith) (λ b. refl)

-- Two rows of an INTEGER column, the second null.
abbrev small_chunk : DataChunk machine.Rat
small_chunk = record {
  row_count = 2;
  types = integer ∷ [];
  columns = some (typed_vec int_vec integer (7 ∷ (0 ∷ [])) (some (1 ∷ []))) ∷ [];
}

small_column : IsTyped machine integer (7 ∷ (0 ∷ [])) (some (1 ∷ []))
unfolding get_physical_type byte_width needs_object_materialization validity_is_null
    validity_word_count
small_column = record {
  constant = refl;
  plain = refl;
  not_geometry = refl;
  stored = omega arith;
  bitmap = (refl, omega arith);
  null_rows = null_rows;
  short = omega arith;
  room = λ b. refl;
}
  where
    null_rows :
        (i v : ℕ)
        → get_elem? (7 ∷ (0 ∷ [])) i ≡ some v
        → (null : Bool) × (validity_is_null (some (1 ∷ [])) i ≡ some null) × (null ≡ true → v ≡ 0)
    null_rows zero v h = (false, refl, λ e. absurd (cc))
    null_rows (suc zero) v h = (true, refl, λ e. ground arith)
    null_rows (suc (suc i)) v h = cc

small_chunk-IsChunk : IsChunk machine small_chunk
unfolding get_physical_type IsEncodable IsEncodableInfo
small_chunk-IsChunk = record {
  row_count = omega arith;
  short = omega arith;
  types = omega arith;
  columns = (
    record {
      values = 7 ∷ (0 ∷ []);
      validity = some (1 ∷ []);
      shape = refl;
      typed = small_column;
      rows = refl;
    },
    tt,
  );
}

small_chunk-length :
    length (written (encode_data_chunk_wrapper machine small_chunk) ++ (9 ∷ [])) ≡ 48
unfolding encode_data_chunk_wrapper new_binary_writer encode_logical_type get_physical_type
    byte_width encode_fixed_value_for_write validity_is_null validity_word_count value_of_row
    get_object is_null to_int64 decimal_or write_word encode_vector validity_to_bytes write_object
    write_field write_uleb128 write_list write_bool write_string write_values encode_enum_or_int
    write_validity encode_info_field
small_chunk-length = refl

small_chunk-Fits : Fits 0 (written (encode_data_chunk_wrapper machine small_chunk) ++ (9 ∷ []))
small_chunk-Fits = omega (arith, small_chunk-length)

decode_data_chunk_wrapper-encode_data_chunk_wrapper_example :
    RoundTrips
      (encode_data_chunk_wrapper machine small_chunk)
      (decode_data_chunk_wrapper machine)
      small_chunk
      (9 ∷ [])
decode_data_chunk_wrapper-encode_data_chunk_wrapper_example =
    decode_data_chunk_wrapper-encode_data_chunk_wrapper machine small_chunk (9 ∷ []) refl
      small_chunk-IsChunk small_chunk-Fits
