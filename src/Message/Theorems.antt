-- ===== src/Message/Theorems.antt =====
-- internal/message/message_codec.go: what `EncodeMessage` and `DecodeMessage` promise together.
use adbc_driver_quack.Base.{
  ℕ, ◌+◌, ◌^◌, ◌<◌, ◌≡◌, ap, some, Option, List, [], ◌++◌, length, inr, arith, append-nil,
  length-append,
}
use adbc_driver_quack.Codec.Coded.{Coded}
use adbc_driver_quack.Codec.Reader.{new_binary_reader, assert_eof}
use adbc_driver_quack.Codec.Reads.{at}
use adbc_driver_quack.Codec.Writer.{Writer, new_binary_writer}
use adbc_driver_quack.Codec.Writes.{Writes-new, Writes-then}
use adbc_driver_quack.Message.Decode.{decode_header, decode_body, decode_message}
use adbc_driver_quack.Message.Encodable.{ChunkLaws, IsMessage}
use adbc_driver_quack.Message.Encode.{encode_header, encode_body, encode_message}
use adbc_driver_quack.Message.Fields.{Coded-header}
use adbc_driver_quack.Message.RoundTrip.{body-Coded}
use adbc_driver_quack.Message.Types.{
  MessageHeader, QuackMessage, header, message_type_of, ChunkCodec,
}

message_type_of-int : {D : Type 0} (m : QuackMessage D) → message_type_of m < 2 ^ 63
unfolding message_type_of
message_type_of-int m = ground arith

module _ {D : Type 0} (chunks : ChunkCodec D) where
  -- The bytes of a message.
  unfoldable pub encoded : QuackMessage D → List ℕ
  unfolding encode_header encode_body header message_type_of new_binary_writer
  encoded m =
      (encode_body chunks m (encode_header (header m) (message_type_of m) new_binary_writer)).buf

  decode_message-run :
      (bytes cs : List ℕ) (n k : ℕ) (h : MessageHeader) (m : Option (QuackMessage D))
      → decode_header (at 0 bytes) ≡ (h, at n cs)
      → decode_body chunks h (at n cs) ≡ (m, at k [])
      → decode_message chunks bytes ≡ inr m
  unfolding decode_message new_binary_reader assert_eof
  decode_message-run bytes cs n k h m e e' = ground (arith, e, e')

  -- A header and a body with nothing behind them.
  decode_message-Coded :
      {f g : Writer → Writer} (h : MessageHeader) (m : Option (QuackMessage D)) (bytes : List ℕ)
      (hc : Coded f decode_header h) (bc : Coded g (decode_body chunks h) m)
      → bytes ≡ hc.bytes ++ bc.bytes
      → length bytes < 2 ^ 63
      → decode_message chunks bytes ≡ inr m
  decode_message-Coded h m bytes hc bc e fits =
      let fits' : length (hc.bytes ++ bc.bytes) < 2 ^ 63 = rw e at fits in
      rw e (
        decode_message-run _ _ _ _ h m (hc.reads.run 0 bc.bytes (omega (arith, fits'))) (
          rw append-nil at (
            bc.reads.run (0 + length hc.bytes) [] (
              omega
                (arith, fits', length-append hc.bytes bc.bytes, ap length (append-nil bc.bytes))))))

  module _ (laws : ChunkLaws chunks) where
    -- A message whose header has the type of its struct and whose strings, lists and numbers fit
    -- their Go types is encoded without an error, and `DecodeMessage` of these bytes returns the same
    -- message with every field, for all ten kinds. A number that a flag says is absent is zero; a batch
    -- index that is there is not 2 ^ 64 - 1, which the wire has for an absent one; the types of a
    -- prepare response can be encoded, and so can the chunks, in the sense of the laws of the codec of
    -- data chunks. The bytes are fewer than 2 ^ 63.
    pub decode_message-encode_message :
        (m : QuackMessage D)
        → IsMessage laws m
        → length (encoded m) < 2 ^ 63
        → (encode_message chunks m ≡ inr (encoded m))
          × (decode_message chunks (encoded m) ≡ inr (some m))
    unfolding encode_message encoded
    decode_message-encode_message m h fits =
        let hc = Coded-header (message_type_of m) (header m) (message_type_of-int m) h.0 in
        let bc = body-Coded laws m h in
        let w = Writes-new (Writes-then hc.writes bc.writes) in
        (
          ground (arith, w),
          decode_message-Coded (header m) (some m) _ hc bc (ap (λ w'. w'.buf) w) fits,
        )
