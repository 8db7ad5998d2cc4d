-- ===== src/Message/Encodable.antt =====
-- internal/message: the messages that the wire carries, and the codec of data chunks that they use.
use adbc_driver_quack.Base.{ℕ, ◌^◌, ◌<◌, ◌≡◌, ◌≢◌, Bool, true, false, List, All}
use adbc_driver_quack.Codec.Fault.{optional_index_invalid}
use adbc_driver_quack.Codec.Reads.{Reads}
use adbc_driver_quack.Codec.Writes.{Writes}
use adbc_driver_quack.Message.Types.{
  MessageHeader, HugeIntParts, QuackMessage, connection_request, connection_response,
  prepare_request, prepare_response, fetch_request, fetch_response, append_request,
  success_response, disconnect_message, error_response, header, message_type_of, ChunkCodec,
}
use adbc_driver_quack.QuackType.Wire.{Short, IsEncodable}

-- What the codec of messages relies on: a chunk that can be encoded is written as its bytes, and
-- these read back as the chunk.
pub record ChunkLaws {D : Type 0} (chunks : ChunkCodec D) : Type 1 where
  pub IsChunk : D → Type 0
  pub wire : D → List ℕ
  pub writes : (c : D) → IsChunk c → Writes (chunks.encode_data_chunk_wrapper c) (wire c)
  pub reads : (c : D) → IsChunk c → Reads chunks.decode_data_chunk_wrapper (wire c) c

abbrev pub IsUint64 : ℕ → Type 0
IsUint64 v = v < 2 ^ 64

abbrev pub IsHeader : ℕ → MessageHeader → Type 0
IsHeader mt h = (h.type ≡ mt) × Short h.connection_id × IsUint64 h.client_query_id

abbrev pub IsHugeInt : HugeIntParts → Type 0
IsHugeInt p = IsUint64 p.upper × IsUint64 p.lower

-- A number with a flag: one that is not there is zero.
abbrev pub IsOptional : Bool → ℕ → Type 0
IsOptional true v = IsUint64 v
IsOptional false v = v ≡ 0

-- A batch index with its flag.
abbrev pub IsBatch : Bool → ℕ → Type 0
IsBatch true v = IsUint64 v × (v ≢ optional_index_invalid)
IsBatch false v = v ≡ 0

module _ {D : Type 0} {chunks : ChunkCodec D} (laws : ChunkLaws chunks) where
  abbrev pub AreChunks : List D → Type 0
  AreChunks cs = Short cs × All laws.IsChunk cs

  abbrev pub IsBody : QuackMessage D → Type 0
  IsBody (connection_request h auth version platform min max) =
      Short auth × Short version × Short platform × IsUint64 min × IsUint64 max
  IsBody (connection_response h version platform quack has) =
      Short version × Short platform × IsOptional has quack
  IsBody (prepare_request h sql) = Short sql
  IsBody (prepare_response h types names more results uuid) =
      (Short types × All IsEncodable types)
      × (Short names × All Short names)
      × AreChunks results
      × IsHugeInt uuid
  IsBody (fetch_request h uuid) = IsHugeInt uuid
  IsBody (fetch_response h results batch has) = AreChunks results × IsBatch has batch
  IsBody (append_request h schema table chunk) = Short schema × Short table × laws.IsChunk chunk
  IsBody (success_response h) = Unit {0}
  IsBody (disconnect_message h) = Unit {0}
  IsBody (error_response h message) = Short message

  -- A message whose header has the type of its struct and whose parts fit.
  abbrev pub IsMessage : QuackMessage D → Type 0
  IsMessage m = IsHeader (message_type_of m) (header m) × IsBody m
