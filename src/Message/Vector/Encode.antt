-- ===== src/Message/Vector/Encode.antt =====
-- internal/message/vector_encoder.go: vectors and data chunks on their way to the wire.
use adbc_driver_quack.Base.{
  ℕ, zero, suc, ◌+◌, Bool, true, false, not, ◌&&◌, ◌||◌, Option, none, some, List, [], ◌∷◌, length,
  get_elem?, ◌==◌, if◌then◌else◌, is_some,
}
use adbc_driver_quack.Codec.Writer.{
  Writer, new_binary_writer, write_object, write_field, write_bool, write_uleb128, write_string,
  write_list,
}
use adbc_driver_quack.Message.Types.{ChunkCodec}
use adbc_driver_quack.Message.Validity.{validity_all_valid, validity_set_null, validity_to_bytes}
use adbc_driver_quack.Message.Vector.Decode.{zero_chunk, decode_data_chunk_wrapper}
use adbc_driver_quack.Message.Vector.Stored.{
  write_panic, encode_fixed_value_for_write, encode_string_like_value_for_write,
}
use adbc_driver_quack.Message.Vector.Types.{
  Host, Object, nil, DecodedVector, typed_vec, object_vec, DataChunk, is_nil_object, size, is_null,
  get_object,
}
use adbc_driver_quack.QuackType.Encode.{encode_logical_type}
use adbc_driver_quack.QuackType.Physical.{PhysicalType, byte_width, get_physical_type}
use adbc_driver_quack.QuackType.Types.{LogicalType}

-- The loop of `extractValidity` over the rows of an `ObjectVec` from row `i` on.
unfoldable pub null_rows :
    {Q : Type 0} → ℕ → ℕ → List (Object Q) → Option (List ℕ) → Option (Option (List ℕ))
null_rows count i [] validity = some validity
null_rows count i (v ∷ values) validity =
    if is_nil_object v
    then elim (validity_set_null
        (elim validity [ none ↦ validity_all_valid count | some words ↦ words ]) i) [
          | none ↦ none
          | some words ↦ null_rows count (i + 1) values (some words)
        ]
    else null_rows count (i + 1) values validity

-- `extractValidity`
unfoldable pub extract_validity : {Q : Type 0} → DecodedVector Q → ℕ → Option (Option (List ℕ))
unfolding null_rows
extract_validity (typed_vec kind t values validity) count = some validity
extract_validity (object_vec t values) count = null_rows count 0 values none

abbrev pub is_varchar : PhysicalType → Bool
is_varchar PhysicalType.varchar = true
is_varchar _ = false

-- What an index out of range, a panic, does to a write.
unfoldable pub with_value {ℓ} : {A : Type ℓ} → Option A → (A → Writer → Writer) → Writer → Writer
unfolding write_panic
with_value none f = write_panic
with_value (some a) f = f a

-- The bitmap in field 101, where there is one.
unfoldable pub write_validity : Option (List ℕ) → ℕ → Writer → Writer
unfolding with_value validity_to_bytes
write_validity none count w = w
write_validity (some words) count w =
    with_value (validity_to_bytes (some words) count)
      (λ bytes. write_field 101 (write_string bytes)) w

module _ (host : Host) where
  open host use {Rat}

  -- The value of a row, nil where it is null.
  unfoldable pub value_of_row : DecodedVector Rat → ℕ → Option (Object Rat)
  unfolding is_null get_object
  value_of_row vec i = elim (is_null vec i) [
    | none ↦ none
    | some true ↦ some nil
    | some false ↦ get_object vec i
  ]

  -- The loop of `encodeFixedBytes`: `left` rows from row `i` on.
  unfoldable pub write_rows :
      LogicalType → PhysicalType → DecodedVector Rat → ℕ → ℕ → Writer → Writer
  unfolding with_value
  write_rows t physical vec zero i w = w
  write_rows t physical vec (suc left) i w =
      write_rows t physical vec left (i + 1)
        (with_value (value_of_row vec i) (λ v. encode_fixed_value_for_write host t physical v) w)

  -- `encodeFixedBytes`, with the writer that it fills
  unfoldable pub encode_fixed_bytes : LogicalType → PhysicalType → DecodedVector Rat → Writer
  unfolding write_rows size
  encode_fixed_bytes t physical vec = write_rows t physical vec (size vec) 0 new_binary_writer

  -- The strings of the rows, `left` of them from row `i` on.
  unfoldable pub write_strings : DecodedVector Rat → ℕ → ℕ → Writer → Writer
  unfolding with_value get_object encode_string_like_value_for_write
  write_strings vec zero i w = w
  write_strings vec (suc left) i w = write_strings vec left (i + 1) (
      with_value (get_object vec i) (λ v. write_string (encode_string_like_value_for_write host v))
        w)

  -- The values of a vector in field 102; a nested one panics.
  unfoldable pub write_values : LogicalType → DecodedVector Rat → Writer → Writer
  unfolding encode_fixed_bytes write_strings write_panic size
  write_values t vec w = elim (byte_width (get_physical_type t)) [
    | some width ↦
        let buf = encode_fixed_bytes t (get_physical_type t) vec in
        if is_some buf.err then write_panic w else write_field 102 (write_string buf.buf) w
    | none ↦
        if is_varchar (get_physical_type t)
        then write_field 102 (λ o. write_strings vec (size vec) 0 (write_uleb128 (size vec) o)) w
        else write_panic w
  ]

  -- `encodeFlatVectorBody`
  unfoldable pub encode_flat_vector_body : LogicalType → DecodedVector Rat → Writer → Writer
  unfolding with_value extract_validity write_values size
  encode_flat_vector_body t vec = with_value (extract_validity vec (size vec)) λ validity w.
      write_values t vec
        (write_validity validity (size vec) (write_field 100 (write_bool (is_some validity)) w))

  -- `EncodeVector`; on a nil column `Size` panics.
  unfoldable pub encode_vector : LogicalType → Option (DecodedVector Rat) → Writer → Writer
  unfolding encode_flat_vector_body write_panic
  encode_vector t none = write_panic
  encode_vector t (some vec) = write_object (encode_flat_vector_body t vec)

  -- The guards of `EncodeDataChunk`: each column has as many rows as the chunk says.
  unfoldable pub has_rows : ℕ → Option (DecodedVector Rat) → Bool
  unfolding size
  has_rows count none = false
  has_rows count (some vec) = size vec == count

  unfoldable pub all_have_rows : ℕ → List (Option (DecodedVector Rat)) → Bool
  unfolding has_rows
  all_have_rows count [] = true
  all_have_rows count (c ∷ columns) = has_rows count c && all_have_rows count columns

  -- `chunk.Types[i]`
  unfoldable pub encode_column : List LogicalType → ℕ → Option (DecodedVector Rat) → Writer → Writer
  unfolding with_value
  encode_column types i column = with_value (get_elem? types i) (λ t. encode_vector t column)

  -- `EncodeDataChunk`
  unfoldable pub encode_data_chunk : DataChunk Rat → Writer → Writer
  unfolding all_have_rows encode_column write_panic
  encode_data_chunk chunk =
      if not (length chunk.types == length chunk.columns)
        || not (all_have_rows chunk.row_count chunk.columns)
      then write_panic
      else write_object λ w.
        write_field 102 (λ o. write_list chunk.columns (encode_column chunk.types) o)
          (write_field 101 (λ o. write_list chunk.types (λ i. encode_logical_type) o)
            (write_field 100 (write_uleb128 chunk.row_count) w))

  -- `EncodeDataChunkWrapper`
  unfoldable pub encode_data_chunk_wrapper : DataChunk Rat → Writer → Writer
  unfolding encode_data_chunk
  encode_data_chunk_wrapper chunk = write_object (write_field 300 (encode_data_chunk chunk))

  -- The codec of data chunks that the codec of messages uses.
  abbrev pub chunk_codec : ChunkCodec (DataChunk Rat)
  chunk_codec = record {
    encode_data_chunk_wrapper = encode_data_chunk_wrapper;
    decode_data_chunk_wrapper = decode_data_chunk_wrapper host;
    empty_chunk = zero_chunk host;
  }
