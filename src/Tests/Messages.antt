-- ===== src/Tests/Messages.antt =====
-- internal/message at a concrete message, with numbers for data chunks.
use adbc_driver_quack.Base.{ℕ, ◌^◌, ◌<◌, ◌≡◌, true, some, [], ◌∷◌, length, inr, arith}
use adbc_driver_quack.Codec.Fault.{optional_index_invalid}
use adbc_driver_quack.Codec.Leb.{uleb}
use adbc_driver_quack.Codec.Leb.Unsigned.{read_uleb128-Reads}
use adbc_driver_quack.Codec.Reader.{read_uleb128}
use adbc_driver_quack.Codec.Writer.{
  write_object, write_field, write_field_id, write_bool, write_string, write_list, write_uleb128,
  write_sleb128, write_bytes, unless_failed,
}
use adbc_driver_quack.QuackType.Encode.{encode_logical_type, encode_info_field}
use adbc_driver_quack.Codec.Writes.{Writes-uleb128}
use adbc_driver_quack.Message.Decode.{decode_message}
use adbc_driver_quack.Message.Encodable.{ChunkLaws, IsMessage}
use adbc_driver_quack.Message.Encode.{encode_message, encode_body, write_chunk}
use adbc_driver_quack.Message.Theorems.{encoded, decode_message-encode_message}
use adbc_driver_quack.Message.Types.{
  QuackMessage, header, message_type_of, prepare_response, ChunkCodec,
}
use adbc_driver_quack.QuackType.Types.{logical_type, nil_info}
use adbc_driver_quack.QuackType.Wire.{IsEncodable}

abbrev number_chunks : ChunkCodec ℕ
number_chunks = record {
  encode_data_chunk_wrapper = write_uleb128;
  decode_data_chunk_wrapper = read_uleb128;
  empty_chunk = 0;
}

abbrev number_laws : ChunkLaws number_chunks
number_laws = record {
  IsChunk = λ c. c < 2 ^ 64;
  wire = uleb;
  writes = Writes-uleb128;
  reads = read_uleb128-Reads;
}

abbrev response : QuackMessage ℕ
response =
    prepare_response
      (record { type = 4; connection_id = 99 ∷ []; client_query_id = optional_index_invalid })
      (logical_type 10 nil_info ∷ []) ((120 ∷ []) ∷ []) true (3 ∷ (400 ∷ []))
      (record { upper = 2 ^ 63; lower = 5 })

response-IsMessage : IsMessage number_laws response
unfolding IsEncodable header message_type_of
response-IsMessage = ground arith

response_fits : length (encoded number_chunks response) < 2 ^ 63
unfolding encoded encode_body write_object write_field write_field_id write_bool write_string
    write_list write_uleb128 write_sleb128 encode_info_field encode_logical_type write_bytes
    unless_failed write_chunk
response_fits = omega arith

decode_message-encode_message_example :
    (encode_message number_chunks response ≡ inr (encoded number_chunks response))
    × (decode_message number_chunks (encoded number_chunks response) ≡ inr (some response))
decode_message-encode_message_example =
    decode_message-encode_message number_chunks number_laws response response-IsMessage
      response_fits
