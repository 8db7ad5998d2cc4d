-- ===== src/Message/Types.antt =====
-- internal/message/messages.go and internal/codec/constants.go: the messages. An int64 is its
-- 64-bit pattern, a string its bytes; data chunks are of a type `D`.
use adbc_driver_quack.Base.{ℕ, Bool, List}
use adbc_driver_quack.Codec.Reader.{R}
use adbc_driver_quack.Codec.Writer.{Writer}
use adbc_driver_quack.QuackType.Types.{LogicalType}

-- `MessageHeader`
pub record MessageHeader : Type 0 where
  pub type : ℕ
  pub connection_id : List ℕ
  pub client_query_id : ℕ

-- `HugeIntParts`
pub record HugeIntParts : Type 0 where
  pub upper : ℕ
  pub lower : ℕ

-- `QuackMessage`, a constructor for each struct with its fields in order.
pub data QuackMessage (D : Type 0) : Type 0 where
  connection_request : MessageHeader → List ℕ → List ℕ → List ℕ → ℕ → ℕ → QuackMessage D
  connection_response : MessageHeader → List ℕ → List ℕ → ℕ → Bool → QuackMessage D
  prepare_request : MessageHeader → List ℕ → QuackMessage D
  prepare_response :
      MessageHeader
      → List LogicalType
      → List (List ℕ)
      → Bool
      → List D
      → HugeIntParts
      → QuackMessage D
  fetch_request : MessageHeader → HugeIntParts → QuackMessage D
  fetch_response : MessageHeader → List D → ℕ → Bool → QuackMessage D
  append_request : MessageHeader → List ℕ → List ℕ → D → QuackMessage D
  success_response : MessageHeader → QuackMessage D
  disconnect_message : MessageHeader → QuackMessage D
  error_response : MessageHeader → List ℕ → QuackMessage D

-- `Header()`
unfoldable pub header : {D : Type 0} → QuackMessage D → MessageHeader
header (connection_request h auth version platform min max) = h
header (connection_response h version platform quack has) = h
header (prepare_request h sql) = h
header (prepare_response h types names more results uuid) = h
header (fetch_request h uuid) = h
header (fetch_response h results batch has) = h
header (append_request h schema table chunk) = h
header (success_response h) = h
header (disconnect_message h) = h
header (error_response h message) = h

-- `messageTypeOf` and the `MessageType` constants
unfoldable pub message_type_of : {D : Type 0} → QuackMessage D → ℕ
message_type_of (connection_request h auth version platform min max) = 1
message_type_of (connection_response h version platform quack has) = 2
message_type_of (prepare_request h sql) = 3
message_type_of (prepare_response h types names more results uuid) = 4
message_type_of (fetch_request h uuid) = 7
message_type_of (fetch_response h results batch has) = 8
message_type_of (append_request h schema table chunk) = 9
message_type_of (success_response h) = 10
message_type_of (disconnect_message h) = 11
message_type_of (error_response h message) = 100

-- What the codec of messages uses of the codec of data chunks: `EncodeDataChunkWrapper`,
-- `DecodeDataChunkWrapper` and the zero value.
pub record ChunkCodec (D : Type 0) : Type 0 where
  pub encode_data_chunk_wrapper : D → Writer → Writer
  pub decode_data_chunk_wrapper : R D
  pub empty_chunk : D
