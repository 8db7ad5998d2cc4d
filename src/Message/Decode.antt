-- ===== src/Message/Decode.antt =====
-- internal/message/message_codec.go, the decoder.
use adbc_driver_quack.Base.{
  ℕ, Bool, true, false, not, Option, none, some, List, [], ◌==◌, if◌then◌else◌, ◌⊎◌, inl, inr,
}
use adbc_driver_quack.Codec.Fault.{Error, optional_index_invalid}
use adbc_driver_quack.Codec.Reader.{
  R, pure, ◌>>=◌, new_binary_reader, assert_eof, peek_field_id, read_field_id, read_object,
  read_required_field, read_optional_field, read_bool, read_uleb128, read_uleb128_int, read_sleb128,
  read_string, read_list, unless_failed,
}
use adbc_driver_quack.Message.Types.{
  MessageHeader, HugeIntParts, QuackMessage, connection_request, connection_response,
  prepare_request, prepare_response, fetch_request, fetch_response, append_request,
  success_response, disconnect_message, error_response, ChunkCodec,
}
use adbc_driver_quack.QuackType.Decode.{decode_logical_type}

-- `HugeIntParts{}`
abbrev pub zero_huge_int : HugeIntParts
zero_huge_int = record { upper = 0; lower = 0 }

-- `ReadHugeInt`
unfoldable pub read_huge_int : R HugeIntParts
read_huge_int = do
  upper ← read_sleb128
  unless_failed zero_huge_int do
    lower ← read_uleb128
    unless_failed zero_huge_int (pure (record { upper = upper; lower = lower }))

-- `MessageHeader{}`
abbrev pub zero_header : MessageHeader
zero_header = record { type = 0; connection_id = []; client_query_id = 0 }

-- `decodeHeader`
unfoldable pub decode_header : R MessageHeader
decode_header = read_object zero_header do
  type ← read_required_field 0 1 read_uleb128_int
  connection_id ← read_optional_field 2 read_string []
  client_query_id ← read_required_field 0 3 read_uleb128
  pure (record { type = type; connection_id = connection_id; client_query_id = client_query_id })

-- The version in a `ConnectionResponse`: `if obj.PeekFieldID() == 3 { … }`.
unfoldable pub read_quack_version : R (ℕ × Bool)
read_quack_version = do
  id ← peek_field_id
  if id == 3 then (read_field_id >>= λ _. read_uleb128 >>= λ v. pure (v, true)) else pure (0, false)

module _ {D : Type 0} (chunks : ChunkCodec D) where
  abbrev pub Body : Type 0
  Body = R (Option (QuackMessage D))

  -- A presence flag and, if it is set, a chunk.
  unfoldable pub read_chunk : R D
  read_chunk = do
    present ← read_bool
    if not present then pure chunks.empty_chunk else chunks.decode_data_chunk_wrapper

  -- `readChunkPointerList`
  unfoldable pub read_chunk_pointer_list : R (List D)
  unfolding read_chunk
  read_chunk_pointer_list = read_list (λ i. read_chunk)

  -- The cases of `decodeBody`; a body that fails is nil.
  unfoldable pub decode_connection_request : MessageHeader → Body
  decode_connection_request h = read_object none do
    auth ← read_optional_field 1 read_string []
    version ← read_optional_field 2 read_string []
    platform ← read_optional_field 3 read_string []
    min ← read_optional_field 4 read_uleb128 0
    max ← read_optional_field 5 read_uleb128 0
    pure (some (connection_request h auth version platform min max))

  unfoldable pub decode_connection_response : MessageHeader → Body
  unfolding read_quack_version
  decode_connection_response h = read_object none do
    version ← read_optional_field 1 read_string []
    platform ← read_optional_field 2 read_string []
    quack ← read_quack_version
    pure (some (connection_response h version platform quack.0 quack.1))

  unfoldable pub decode_prepare_request : MessageHeader → Body
  decode_prepare_request h =
      read_object none
        do sql ← read_optional_field 1 read_string []; pure (some (prepare_request h sql))

  unfoldable pub decode_prepare_response : MessageHeader → Body
  unfolding read_chunk_pointer_list read_huge_int
  decode_prepare_response h = read_object none do
    types ← read_optional_field 1 (read_list (λ i. decode_logical_type)) []
    names ← read_optional_field 2 (read_list (λ i. read_string)) []
    more ← read_optional_field 3 read_bool false
    results ← read_optional_field 4 read_chunk_pointer_list []
    uuid ← read_required_field zero_huge_int 5 read_huge_int
    pure (some (prepare_response h types names more results uuid))

  unfoldable pub decode_fetch_request : MessageHeader → Body
  unfolding read_huge_int
  decode_fetch_request h = read_object none do
    uuid ← read_required_field zero_huge_int 1 read_huge_int
    pure (some (fetch_request h uuid))

  unfoldable pub decode_fetch_response : MessageHeader → Body
  unfolding read_chunk_pointer_list
  decode_fetch_response h = read_object none do
    results ← read_optional_field 1 read_chunk_pointer_list []
    batch ← read_required_field 0 2 read_uleb128
    pure (
        some (
          if not (batch == optional_index_invalid)
          then fetch_response h results batch true
          else fetch_response h results 0 false))

  unfoldable pub decode_append_request : MessageHeader → Body
  unfolding read_chunk
  decode_append_request h = read_object none do
    schema ← read_optional_field 1 read_string []
    table ← read_optional_field 2 read_string []
    chunk ← read_optional_field 3 read_chunk chunks.empty_chunk
    pure (some (append_request h schema table chunk))

  unfoldable pub decode_error_response : MessageHeader → Body
  decode_error_response h =
      read_object none
        do message ← read_optional_field 1 read_string []; pure (some (error_response h message))

  -- The switch of `decodeBody` on a type; one that no case names gives nil and reads nothing.
  unfoldable pub decode_case : ℕ → MessageHeader → Body
  unfolding decode_connection_request decode_connection_response decode_prepare_request
      decode_prepare_response decode_fetch_request decode_fetch_response decode_append_request
      decode_error_response
  decode_case type h =
      if type == 1
      then decode_connection_request h
      else if type == 2
      then decode_connection_response h
      else if type == 3
      then decode_prepare_request h
      else if type == 4
      then decode_prepare_response h
      else if type == 7
      then decode_fetch_request h
      else if type == 8
      then decode_fetch_response h
      else if type == 9
      then decode_append_request h
      else if type == 10
      then read_object none (pure (some (success_response h)))
      else if type == 11
      then read_object none (pure (some (disconnect_message h)))
      else if type == 100
      then decode_error_response h
      else pure none

  -- `decodeBody`
  unfoldable pub decode_body : MessageHeader → Body
  unfolding decode_case
  decode_body h = decode_case h.type h

  -- `DecodeMessage`
  unfoldable pub decode_message : List ℕ → Error ⊎ Option (QuackMessage D)
  unfolding decode_header decode_body
  decode_message bytes =
      let (h, r) = decode_header (new_binary_reader bytes) in
      elim r.err [
        | some e ↦ inl e
        | none ↦
            let (m, r') = decode_body h r in
            elim r'.err [
              | some e ↦ inl e
              | none ↦ elim (assert_eof r').err [ some e ↦ inl e | none ↦ inr m ]
            ]
      ]
