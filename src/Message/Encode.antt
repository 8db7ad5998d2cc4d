-- ===== src/Message/Encode.antt =====
-- internal/message/message_codec.go, the encoder.
use adbc_driver_quack.Base.{
  ℕ, Bool, true, not, none, some, List, ◌==◌, if◌then◌else◌, is_empty, ◌⊎◌, inl, inr,
}
use adbc_driver_quack.Codec.Fault.{Error, optional_index_invalid}
use adbc_driver_quack.Codec.Writer.{
  Writer, new_binary_writer, write_object, write_field, write_bool, write_uleb128, write_sleb128,
  write_string, write_list,
}
use adbc_driver_quack.Message.Types.{
  MessageHeader, HugeIntParts, QuackMessage, connection_request, connection_response,
  prepare_request, prepare_response, fetch_request, fetch_response, append_request,
  success_response, disconnect_message, error_response, header, message_type_of, ChunkCodec,
}
use adbc_driver_quack.QuackType.Encode.{encode_logical_type}

-- `WriteHugeInt`
unfoldable pub write_huge_int : HugeIntParts → Writer → Writer
write_huge_int p w = write_uleb128 p.lower (write_sleb128 p.upper w)

-- A field that is written under a condition.
abbrev pub write_field_if : Bool → ℕ → (Writer → Writer) → Writer → Writer
write_field_if b id body w = if b then write_field id body w else w

-- `writeOptionalString`
unfoldable pub write_optional_message_string : ℕ → List ℕ → Writer → Writer
write_optional_message_string id value =
    write_field_if (not (is_empty value)) id (write_string value)

-- `writeOptionalIndexNonZero`
unfoldable pub write_optional_index_non_zero : ℕ → ℕ → Writer → Writer
write_optional_index_non_zero id value = write_field_if (not (value == 0)) id (write_uleb128 value)

-- `HasClientQueryID`
unfoldable pub has_client_query_id : MessageHeader → Bool
has_client_query_id h = not (h.client_query_id == optional_index_invalid)

-- `encodeHeader`
unfoldable pub encode_header : MessageHeader → ℕ → Writer → Writer
unfolding has_client_query_id
encode_header h mt =
    let query_id =
      if not (has_client_query_id h) then optional_index_invalid else h.client_query_id in
    write_object λ w. write_field 3 (write_uleb128 query_id) (
      write_field_if (not (is_empty h.connection_id)) 2 (write_string h.connection_id)
        (write_field 1 (write_uleb128 mt) w))

module _ {D : Type 0} (chunks : ChunkCodec D) where
  -- A presence flag and a chunk.
  unfoldable pub write_chunk : D → Writer → Writer
  write_chunk c w = chunks.encode_data_chunk_wrapper c (write_bool true w)

  -- `writeChunkPointerList`
  unfoldable pub write_chunk_pointer_list : List D → Writer → Writer
  unfolding write_chunk
  write_chunk_pointer_list cs = write_list cs (λ i. write_chunk)

  -- `encodeBody`
  unfoldable pub encode_body : QuackMessage D → Writer → Writer
  unfolding write_optional_message_string write_optional_index_non_zero write_huge_int
      write_chunk_pointer_list
  encode_body (connection_request h auth version platform min max) = write_object λ w.
      write_optional_index_non_zero 5 max (
        write_optional_index_non_zero 4 min (
          write_optional_message_string 3 platform
            (write_optional_message_string 2 version (write_optional_message_string 1 auth w))))
  encode_body (connection_response h version platform quack has) = write_object λ w.
      write_field_if has 3 (write_uleb128 quack)
        (write_optional_message_string 2 platform (write_optional_message_string 1 version w))
  encode_body (prepare_request h sql) = write_object (write_optional_message_string 1 sql)
  encode_body (prepare_response h types names more results uuid) = write_object λ w.
      write_field 5 (write_huge_int uuid) (
        write_field_if (not (is_empty results)) 4 (write_chunk_pointer_list results) (
          write_field_if more 3 (write_bool true) (
            write_field_if (not (is_empty names)) 2 (write_list names (λ i. write_string)) (
              write_field_if (not (is_empty types)) 1 (write_list types (λ i. encode_logical_type))
                w))))
  encode_body (fetch_request h uuid) = write_object (write_field 1 (write_huge_int uuid))
  encode_body (fetch_response h results batch has) = write_object λ w.
      write_field 2 (write_uleb128 (if not has then optional_index_invalid else batch))
        (write_field_if (not (is_empty results)) 1 (write_chunk_pointer_list results) w)
  encode_body (append_request h schema table chunk) = write_object λ w.
      write_field 3 (write_chunk chunk) (
        write_field_if (not (is_empty table)) 2 (write_string table)
          (write_optional_message_string 1 schema w))
  encode_body (success_response h) = write_object (λ w. w)
  encode_body (disconnect_message h) = write_object (λ w. w)
  encode_body (error_response h message) = write_object (write_optional_message_string 1 message)

  -- `EncodeMessage`
  unfoldable pub encode_message : QuackMessage D → Error ⊎ List ℕ
  unfolding encode_header encode_body
  encode_message m =
      let w = encode_body m (encode_header (header m) (message_type_of m) new_binary_writer) in
      elim w.err [ some e ↦ inl e | none ↦ inr w.buf ]
