-- ===== src/Message/Vector/Decode.antt =====
-- internal/message/vector_codec.go: the decoder of vectors and data chunks.
use adbc_driver_quack.Base.{
  ℕ, zero, suc, ◌+◌, not, Option, none, some, List, [], length, get_elem?, ltb, ◌==◌, if◌then◌else◌,
}
use adbc_driver_quack.Codec.Fault.{out_of_fuel}
use adbc_driver_quack.Codec.Reader.{
  R, pure, ◌>>=◌, ◌>>◌, fail, read_object, read_required_field, read_optional_field,
  read_uleb128_int, read_sleb128, read_list,
}
use adbc_driver_quack.Message.Vector.Flat.{
  Vector, or_panic, refuse, min_one, read_selection_vector, decode_flat_vector,
}
use adbc_driver_quack.Message.Vector.Shapes.{broadcast_value, project_vector, sequence_vector}
use adbc_driver_quack.Message.Vector.Types.{Host, Object, nil, DataChunk, size, get_object}
use adbc_driver_quack.QuackType.Decode.{decode_logical_type, assert_eof_if}
use adbc_driver_quack.QuackType.Types.{LogicalType}

module _ (host : Host) where
  open host use {Rat}

  -- `if single != nil && single.Size() > 0 { value = single.GetObject(0) }`
  unfoldable pub first_value : Vector host → Option (Object Rat)
  unfolding size get_object
  first_value none = some nil
  first_value (some v) = if ltb 0 (size v) then get_object v 0 else some nil

  -- The cases of `decodeVectorBody`, with itself and `DecodeVector` as arguments.
  module _ (body vector : LogicalType → ℕ → R (Vector host)) where
    unfoldable pub decode_constant : LogicalType → ℕ → R (Vector host)
    unfolding first_value or_panic broadcast_value
    decode_constant t count = do
      single ← body t (min_one count)
      or_panic none (elim (first_value single) [
        | none ↦ none
        | some value ↦ elim (broadcast_value host t value count) [
          | none ↦ none
          | some v ↦ some (some v)
        ]
      ])

    unfoldable pub decode_dictionary : LogicalType → ℕ → R (Vector host)
    unfolding read_selection_vector or_panic project_vector
    decode_dictionary t count = do
      selection ← read_required_field [] 91 (read_selection_vector count)
      dict_count ← read_required_field 0 92 read_uleb128_int
      dict ← body t dict_count
      or_panic none
          (elim (project_vector host t dict selection) [ none ↦ none | some v ↦ some (some v) ])

    unfoldable pub decode_sequence : LogicalType → ℕ → R (Vector host)
    unfolding or_panic sequence_vector
    decode_sequence t count = do
      start ← read_required_field 0 91 read_sleb128
      incr ← read_required_field 0 92 read_sleb128
      or_panic none
          (elim (sequence_vector host t count start incr) [ none ↦ none | some v ↦ some (some v) ])

    -- `decodeVectorBody`; an FSST vector is refused as one of an unknown kind is.
    unfoldable pub decode_body_step : LogicalType → ℕ → R (Vector host)
    unfolding decode_flat_vector decode_constant decode_dictionary decode_sequence refuse
    decode_body_step t count = do
      vector_type ← read_optional_field 90 read_uleb128_int 0
      if vector_type == 0
          then decode_flat_vector host vector t count
          else if vector_type == 2
          then decode_constant t count
          else if vector_type == 3
          then decode_dictionary t count
          else if vector_type == 4
          then decode_sequence t count
          else refuse host

  -- `decodeVectorBody` with a bound on its nesting; one that runs out is an error of the model.
  unfoldable pub decode_body_fuel : ℕ → LogicalType → ℕ → R (Vector host)
  decode_body_fuel zero t count r = elim r.err [
    | some e ↦ (none, r)
    | none ↦ (none, fail out_of_fuel r.offset r)
  ]
  decode_body_fuel (suc fuel) t count r =
      decode_body_step (λ u n r'. decode_body_fuel fuel u n r')
        (λ u n. read_object none (λ r'. decode_body_fuel fuel u n r')) t count r

  -- `DecodeVector`. Each level takes bytes, so there are no more levels than bytes.
  unfoldable pub decode_vector : LogicalType → ℕ → R (Vector host)
  unfolding decode_body_fuel
  decode_vector t count r = read_object none (decode_body_fuel (length r.rest + 1) t count) r

  -- `DataChunk{}`
  abbrev pub zero_chunk : DataChunk Rat
  zero_chunk = record { row_count = 0; types = []; columns = [] }

  -- A column of type `types[i]`; one more than there are types is refused.
  unfoldable pub column_of : Option LogicalType → ℕ → R (Vector host)
  column_of none row_count = refuse host
  column_of (some t) row_count = decode_vector t row_count

  unfoldable pub decode_column : List LogicalType → ℕ → ℕ → R (Vector host)
  unfolding column_of
  decode_column types row_count i = column_of (get_elem? types i) row_count

  -- `DecodeDataChunk`
  unfoldable pub decode_data_chunk : R (DataChunk Rat)
  unfolding decode_column
  decode_data_chunk = read_object zero_chunk do
    row_count ← read_required_field 0 100 read_uleb128_int
    types ← read_required_field [] 101 (read_list (λ i. decode_logical_type))
    columns ← read_required_field [] 102 (read_list (decode_column types row_count))
    assert_eof_if (not (length columns == length types))
    pure (record { row_count = row_count; types = types; columns = columns })

  -- `DecodeDataChunkWrapper`
  unfoldable pub decode_data_chunk_wrapper : R (DataChunk Rat)
  unfolding decode_data_chunk
  decode_data_chunk_wrapper =
      read_object zero_chunk (read_required_field zero_chunk 300 decode_data_chunk)
