-- ===== src/Message/RoundTrip.antt =====
-- internal/message/message_codec.go: every message reads back.
use adbc_driver_quack.Base.{
  ℕ, ◌≡◌, ◌≢◌, Bool, true, false, not, none, some, List, [], arith, is_empty, ◌==◌,
}
use adbc_driver_quack.Codec.Fault.{optional_index_invalid}
use adbc_driver_quack.Codec.Coded.{
  Coded, Coded-uleb128, Coded-string, Fields-then, Fields-pure, Fields-required, Fields-optional,
  Coded-object,
}
use adbc_driver_quack.Codec.Reader.{pure, read_object}
use adbc_driver_quack.Codec.Writer.{write_object}
use adbc_driver_quack.Message.Decode.{
  zero_huge_int, Body, decode_connection_request, decode_connection_response,
  decode_prepare_request, decode_prepare_response, decode_fetch_request, decode_fetch_response,
  decode_append_request, decode_error_response, decode_body, decode_case,
}
use adbc_driver_quack.Message.Encodable.{ChunkLaws, IsHugeInt, IsBody, IsMessage}
use adbc_driver_quack.Message.Encode.{encode_body}
use adbc_driver_quack.Message.Fields.{
  Coded-huge_int, empty_is_nil, Fields-string, Fields-index, Fields-flag, Fields-types,
  Fields-names, Coded-chunk, Fields-quack_version, Fields-chunks,
}
use adbc_driver_quack.Message.Types.{
  MessageHeader, HugeIntParts, QuackMessage, header, message_type_of, ChunkCodec,
  connection_request, connection_response, prepare_request, prepare_response, fetch_request,
  fetch_response, append_request, success_response, disconnect_message, error_response,
}
use adbc_driver_quack.QuackType.Types.{LogicalType}
use adbc_driver_quack.QuackType.Wire.{Short}

module _ {D : Type 0} {chunks : ChunkCodec D} (laws : ChunkLaws chunks) where
  abbrev BodyCoded : (MessageHeader → Body chunks) → QuackMessage D → Type 0
  BodyCoded decode m = Coded (encode_body chunks m) (decode (header m)) (some m)

  connection_request-Coded :
      (h : MessageHeader) (auth version platform : List ℕ) (min max : ℕ)
      → IsBody laws (connection_request h auth version platform min max)
      → BodyCoded
          (decode_connection_request chunks)
          (connection_request h auth version platform min max)
  unfolding encode_body decode_connection_request header
  connection_request-Coded h auth version platform min max (ha, hv, hp, hmin, hmax) =
      Coded-object none 0 5 (omega arith) (
        Fields-then 0 1 5 _ (Fields-string 0 1 auth (omega arith) (omega arith) ha) (
          Fields-then 1 2 5 _ (Fields-string 1 2 version (omega arith) (omega arith) hv) (
            Fields-then 2 3 5 _ (Fields-string 2 3 platform (omega arith) (omega arith) hp) (
              Fields-then 3 4 5 _ (Fields-index 3 4 min (omega arith) (omega arith) hmin) (
                Fields-then 4 5 5 _ (Fields-index 4 5 max (omega arith) (omega arith) hmax)
                  (Fields-pure 5 (some (connection_request h auth version platform min max))))))))

  connection_response-Coded :
      (h : MessageHeader) (version platform : List ℕ) (quack : ℕ) (has : Bool)
      → IsBody laws (connection_response h version platform quack has)
      → BodyCoded
          (decode_connection_response chunks)
          (connection_response h version platform quack has)
  unfolding encode_body decode_connection_response header
  connection_response-Coded h version platform quack has (hv, hp, hq) =
      Coded-object none 0 3 (omega arith) (
        Fields-then 0 1 3 _ (Fields-string 0 1 version (omega arith) (omega arith) hv) (
          Fields-then 1 2 3 _ (Fields-string 1 2 platform (omega arith) (omega arith) hp) (
            Fields-then 2 3 3 _ (Fields-quack_version has quack hq)
              (Fields-pure 3 (some (connection_response h version platform quack has))))))

  prepare_request-Coded :
      (h : MessageHeader) (sql : List ℕ)
      → Short sql
      → BodyCoded (decode_prepare_request chunks) (prepare_request h sql)
  unfolding encode_body decode_prepare_request header
  prepare_request-Coded h sql hs = Coded-object none 0 1 (omega arith) (
      Fields-then 0 1 1 _ (Fields-string 0 1 sql (omega arith) (omega arith) hs)
        (Fields-pure 1 (some (prepare_request h sql))))

  error_response-Coded :
      (h : MessageHeader) (message : List ℕ)
      → Short message
      → BodyCoded (decode_error_response chunks) (error_response h message)
  unfolding encode_body decode_error_response header
  error_response-Coded h message hs = Coded-object none 0 1 (omega arith) (
      Fields-then 0 1 1 _ (Fields-string 0 1 message (omega arith) (omega arith) hs)
        (Fields-pure 1 (some (error_response h message))))

  prepare_response-Coded :
      (h : MessageHeader) (types : List LogicalType) (names : List (List ℕ)) (more : Bool)
      (results : List D) (uuid : HugeIntParts)
      → IsBody laws (prepare_response h types names more results uuid)
      → BodyCoded
          (decode_prepare_response chunks)
          (prepare_response h types names more results uuid)
  unfolding encode_body decode_prepare_response header
  prepare_response-Coded h types names more results uuid ((lt, ht), (ln, hn), hr, hu) =
      Coded-object none 0 5 (omega arith) (
        Fields-then 0 1 5 _ (Fields-types types lt ht) (
          Fields-then 1 2 5 _ (Fields-names names ln hn) (
            Fields-then 2 3 5 _ (Fields-flag 2 3 more (omega arith) (omega arith)) (
              Fields-then 3 4 5 _ (Fields-chunks laws 3 4 results (omega arith) (omega arith) hr) (
                Fields-then 4 5 5 _
                  (Fields-required 4 5 zero_huge_int (omega arith) (omega arith)
                    (Coded-huge_int uuid hu))
                  (Fields-pure 5 (some (prepare_response h types names more results uuid))))))))

  fetch_request-Coded :
      (h : MessageHeader) (uuid : HugeIntParts)
      → IsHugeInt uuid
      → BodyCoded (decode_fetch_request chunks) (fetch_request h uuid)
  unfolding encode_body decode_fetch_request header
  fetch_request-Coded h uuid hu = Coded-object none 0 1 (omega arith) (
      Fields-then 0 1 1 _
        (Fields-required 0 1 zero_huge_int (omega arith) (omega arith) (Coded-huge_int uuid hu))
        (Fields-pure 1 (some (fetch_request h uuid))))

  fetch_response-Coded :
      (h : MessageHeader) (results : List D) (batch : ℕ) (has : Bool)
      → IsBody laws (fetch_response h results batch has)
      → BodyCoded (decode_fetch_response chunks) (fetch_response h results batch has)
  unfolding encode_body decode_fetch_response header
  fetch_response-Coded h results batch true (hr, (hb, ne)) = Coded-object none 0 2 (omega arith) (
      Fields-then 0 1 2 _ (Fields-chunks laws 0 1 results (omega arith) (omega arith) hr) (
        Fields-then 1 2 2 _ {g = λ w. w}
          (Fields-required 1 2 0 (omega arith) (omega arith) (Coded-uleb128 batch hb))
          (rw (differs batch ne) (Fields-pure 2 (some (fetch_response h results batch true))))))
    where
      differs : (b : ℕ) → b ≢ optional_index_invalid → (b == optional_index_invalid) ≡ false
      differs b ne = ground arith
  fetch_response-Coded h results batch false (hr, hb) = rw hb (
      Coded-object none 0 2 (omega arith) (
        Fields-then 0 1 2 _ (Fields-chunks laws 0 1 results (omega arith) (omega arith) hr) (
          Fields-then 1 2 2 _
            (Fields-required 1 2 0 (omega arith) (omega arith)
              (Coded-uleb128 optional_index_invalid (omega arith)))
            (Fields-pure 2 (some (fetch_response h results 0 false))))))

  append_request-Coded :
      (h : MessageHeader) (schema table : List ℕ) (chunk : D)
      → IsBody laws (append_request h schema table chunk)
      → BodyCoded (decode_append_request chunks) (append_request h schema table chunk)
  unfolding encode_body decode_append_request header
  append_request-Coded h schema table chunk (hs, ht, hc) = Coded-object none 0 3 (omega arith) (
      Fields-then 0 1 3 _ (Fields-string 0 1 schema (omega arith) (omega arith) hs) (
        Fields-then 1 2 3 _
          (Fields-optional 1 2 (not (is_empty table)) [] (omega arith) (omega arith)
            (empty_is_nil table) (Coded-string table ht))
          (Fields-then 2 3 3 _
            (Fields-optional 2 3 true chunks.empty_chunk (omega arith) (omega arith) (λ e. cc)
              (Coded-chunk laws chunk hc))
            (Fields-pure 3 (some (append_request h schema table chunk))))))

  empty-Coded :
      (m : QuackMessage D)
      → Coded (λ w. write_object (λ w'. w') w) (read_object none (pure (some m))) (some m)
  empty-Coded m = Coded-object none 0 0 (omega arith) (Fields-pure 0 (some m))

  dispatch :
      (h : MessageHeader) {t k : ℕ}
      → t ≡ k
      → (m : QuackMessage D) → Coded (encode_body chunks m) (decode_case chunks k h) (some m)
      → Coded (encode_body chunks m) (decode_case chunks t h) (some m)
  dispatch h e m x = rw e x

  -- The body of every message reads back.
  pub body-Coded : (m : QuackMessage D) → IsMessage laws m → BodyCoded (decode_body chunks) m
  unfolding decode_body decode_case header message_type_of
  body-Coded (connection_request h auth version platform min max) ((ht, _, _), hb) =
      dispatch h ht _ (connection_request-Coded h auth version platform min max hb)
  body-Coded (connection_response h version platform quack has) ((ht, _, _), hb) =
      dispatch h ht _ (connection_response-Coded h version platform quack has hb)
  body-Coded (prepare_request h sql) ((ht, _, _), hb) =
      dispatch h ht _ (prepare_request-Coded h sql hb)
  body-Coded (prepare_response h types names more results uuid) ((ht, _, _), hb) =
      dispatch h ht _ (prepare_response-Coded h types names more results uuid hb)
  body-Coded (fetch_request h uuid) ((ht, _, _), hb) =
      dispatch h ht _ (fetch_request-Coded h uuid hb)
  body-Coded (fetch_response h results batch has) ((ht, _, _), hb) =
      dispatch h ht _ (fetch_response-Coded h results batch has hb)
  body-Coded (append_request h schema table chunk) ((ht, _, _), hb) =
      dispatch h ht _ (append_request-Coded h schema table chunk hb)
  body-Coded (success_response h) ((ht, _, _), hb) =
      unfold encode_body in dispatch h ht _ (empty-Coded (success_response h))
  body-Coded (disconnect_message h) ((ht, _, _), hb) =
      unfold encode_body in dispatch h ht _ (empty-Coded (disconnect_message h))
  body-Coded (error_response h message) ((ht, _, _), hb) =
      dispatch h ht _ (error_response-Coded h message hb)
