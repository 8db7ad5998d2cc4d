-- ===== src/Message/Fields.antt =====
-- internal/message/message_codec.go: the fields of messages read back.
use adbc_driver_quack.Base.{
  ℕ, ◌^◌, ◌<◌, ◌≡◌, refl, Bool, true, false, not, List, [], ◌∷◌, ◌++◌, All, arith, is_empty, ◌==◌,
  if◌then◌else◌,
}
use adbc_driver_quack.Codec.Fault.{optional_index_invalid}
use adbc_driver_quack.Codec.Coded.{
  Coded, Fields, Coded-uleb128, Coded-uleb128_int, Coded-sleb128, Coded-string, Coded-bool,
  Coded-then, Fields-then, Coded-pure, Fields-pure, Fields-required, Fields-optional, Coded-object,
  Coded-list,
}
use adbc_driver_quack.Codec.Optional.{Leads-nil, Leads-field}
use adbc_driver_quack.Codec.Reader.{
  R, pure, ◌>>=◌, unless_failed, read_string, read_optional_field, read_bool, read_uleb128,
  read_list, read_field_id,
}
use adbc_driver_quack.Codec.Reads.{
  Reads, Reads-unless_failed, peek_field_id-at, read_le-Reads, Reads-map, Reads-bind,
  read_bool-Reads,
}
use adbc_driver_quack.Codec.Writer.{
  Writer, le_bytes, write_bool, write_uleb128, write_string, write_list,
}
use adbc_driver_quack.Codec.Writes.{
  Writes-skip, Writes-field, Writes-then, Writes-bool, Writes-uleb128, Writes,
}
use adbc_driver_quack.Message.Decode.{
  zero_huge_int, read_huge_int, zero_header, decode_header, read_quack_version, read_chunk,
  read_chunk_pointer_list,
}
use adbc_driver_quack.Message.Encodable.{
  ChunkLaws, IsUint64, IsHeader, IsHugeInt, IsOptional, AreChunks,
}
use adbc_driver_quack.Message.Encode.{
  write_huge_int, write_field_if, write_optional_message_string, write_optional_index_non_zero,
  has_client_query_id, encode_header, write_chunk, write_chunk_pointer_list,
}
use adbc_driver_quack.Message.Types.{MessageHeader, HugeIntParts, ChunkCodec}
use adbc_driver_quack.QuackType.Decode.{decode_logical_type}
use adbc_driver_quack.QuackType.Encode.{encode_logical_type}
use adbc_driver_quack.QuackType.Theorems.{decode_logical_type-Reads}
use adbc_driver_quack.QuackType.Types.{LogicalType}
use adbc_driver_quack.QuackType.Wire.{Short, IsEncodable, type_bytes, string_bytes}
use adbc_driver_quack.QuackType.Written.{encode_logical_type-Writes}
use adbc_driver_quack.Codec.Writes.{Writes-string}
use adbc_driver_quack.Codec.Leb.Unsigned.{read_string-Reads, read_uleb128-Reads}
use adbc_driver_quack.Codec.Leb.{uleb}

pub Coded-unless_failed {ℓ} :
    {A : Type ℓ} (z : A) {f : Writer → Writer} {p : R A} {a : A}
    → Coded f p a
    → Coded f (unless_failed z p) a
Coded-unless_failed z x = record {
  bytes = x.bytes;
  writes = x.writes;
  reads = Reads-unless_failed z x.reads;
}

pub empty_is_nil {ℓ} : {A : Type ℓ} (xs : List A) → not (is_empty xs) ≡ false → xs ≡ []
empty_is_nil [] h = refl
empty_is_nil (x ∷ xs) h = cc

pub Coded-huge_int : (p : HugeIntParts) → IsHugeInt p → Coded (write_huge_int p) read_huge_int p
unfolding write_huge_int read_huge_int
Coded-huge_int p (hu, hl) = Coded-then _ (Coded-sleb128 p.upper hu) (
    Coded-unless_failed zero_huge_int
      (Coded-then _ (Coded-uleb128 p.lower hl) (Coded-unless_failed zero_huge_int (Coded-pure p))))

pub Fields-string :
    (n id : ℕ) (s : List ℕ)
    → n < id
    → id < 2 ^ 16
    → Short s
    → Fields n id (write_optional_message_string id s) (read_optional_field id read_string []) s
unfolding write_optional_message_string
Fields-string n id s h k short =
    Fields-optional n id (not (is_empty s)) [] h k (empty_is_nil s) (Coded-string s short)

pub Fields-index :
    (n id v : ℕ)
    → n < id
    → id < 2 ^ 16
    → IsUint64 v
    → Fields n id (write_optional_index_non_zero id v) (read_optional_field id read_uleb128 0) v
unfolding write_optional_index_non_zero
Fields-index n id v h k b =
    Fields-optional n id (not (v == 0)) 0 h k (λ e. ground arith) (Coded-uleb128 v b)

pub Fields-flag :
    (n id : ℕ) (b : Bool)
    → n < id
    → id < 2 ^ 16
    → Fields n id (write_field_if b id (write_bool true)) (read_optional_field id read_bool false) b
Fields-flag n id true h k = Fields-optional n id true false h k (λ e. cc) (Coded-bool true)
Fields-flag n id false h k = Fields-optional n id false false h k (λ e. refl) (Coded-bool false)

pub Fields-types :
    (ts : List LogicalType)
    → Short ts
    → All IsEncodable ts
    → Fields 0 1
        (write_field_if (not (is_empty ts)) 1 (write_list ts (λ i. encode_logical_type)))
        (read_optional_field 1 (read_list (λ i. decode_logical_type)) [])
        ts
Fields-types ts h hs =
    Fields-optional 0 1 (not (is_empty ts)) [] (omega arith) (omega arith) (empty_is_nil ts) (
      Coded-list IsEncodable type_bytes encode_logical_type decode_logical_type ts
        encode_logical_type-Writes decode_logical_type-Reads h hs)

pub Fields-names :
    (ss : List (List ℕ))
    → Short ss
    → All Short ss
    → Fields 1 2
        (write_field_if (not (is_empty ss)) 2 (write_list ss (λ i. write_string)))
        (read_optional_field 2 (read_list (λ i. read_string)) [])
        ss
Fields-names ss h hs =
    Fields-optional 1 2 (not (is_empty ss)) [] (omega arith) (omega arith) (empty_is_nil ss) (
      Coded-list Short string_bytes write_string read_string ss
        (λ s k. Writes-string s (omega arith)) read_string-Reads h hs)

query_id_same :
    (q : ℕ) → (if not (not (q == optional_index_invalid)) then optional_index_invalid else q) ≡ q
query_id_same q = ground arith

pub Coded-header :
    (mt : ℕ) (h : MessageHeader)
    → mt < 2 ^ 63
    → IsHeader mt h
    → Coded (encode_header h mt) decode_header h
unfolding encode_header decode_header has_client_query_id
Coded-header mt h small (ht, hc, hq) =
    rw (query_id_same h.client_query_id, ← ht)
      (Coded-object zero_header 0 3 (omega arith) (
        Fields-then 0 1 3 _
          (Fields-required 0 1 0 (omega arith) (omega arith)
            (Coded-uleb128_int h.type (rw ht small)))
          (Fields-then 1 2 3 _
            (Fields-optional 1 2 (not (is_empty h.connection_id)) [] (omega arith) (omega arith)
              (empty_is_nil h.connection_id) (Coded-string h.connection_id hc))
            (Fields-then 2 3 3 _
              (Fields-required 2 3 0 (omega arith) (omega arith)
                (Coded-uleb128 h.client_query_id hq))
              (Fields-pure 3 h)))))

version_field :
    (v : ℕ)
    → IsUint64 v
    → Reads {A = ℕ × Bool}
        (read_field_id >>= λ x. read_uleb128 >>= λ n. pure (n, true))
        (le_bytes 2 3 ++ uleb v)
        (v, true)
unfolding read_field_id
version_field v h =
    Reads-bind _ (read_le-Reads 2 3 (omega arith))
      (Reads-map (λ n. (n, true)) (read_uleb128-Reads v h))

-- The version of a `ConnectionResponse`.
pub Fields-quack_version :
    (has : Bool) (v : ℕ)
    → IsOptional has v
    → Fields 2 3 (write_field_if has 3 (write_uleb128 v)) read_quack_version (v, has)
unfolding read_quack_version ◌>>=◌ pure
Fields-quack_version true v h = record {
  bytes = le_bytes 2 3 ++ uleb v;
  writes = Writes-field 3 (Writes-uleb128 v h);
  reads = record {
    run = λ off rest s fits.
        rw (peek_field_id-at 3 off (uleb v ++ rest) (omega arith) fits)
          ((version_field v h).run off rest fits);
  };
  leads = Leads-field 2 3 3 (uleb v) (omega arith) (omega arith);
}
Fields-quack_version false v h = record {
  bytes = [];
  writes = Writes-skip;
  reads = record {
    run = λ off rest s fits. rw s.shape (
        rw (peek_field_id-at s.id off s.tail s.bound (rw s.shape at fits))
          (ground (arith, s.above)));
  };
  leads = Leads-nil 2 3 (omega arith);
}

module _ {D : Type 0} {chunks : ChunkCodec D} (laws : ChunkLaws chunks) where
  pub Coded-chunk : (c : D) → laws.IsChunk c → Coded (write_chunk chunks c) (read_chunk chunks) c
  unfolding write_chunk read_chunk
  Coded-chunk c h =
      Coded-then _ (Coded-bool true)
        (record { bytes = laws.wire c; writes = laws.writes c h; reads = laws.reads c h })

  pub Fields-chunks :
      (n id : ℕ) (cs : List D)
      → n < id
      → id < 2 ^ 16
      → AreChunks laws cs
      → Fields n id
          (write_field_if (not (is_empty cs)) id (write_chunk_pointer_list chunks cs))
          (read_optional_field id (read_chunk_pointer_list chunks) [])
          cs
  unfolding write_chunk_pointer_list read_chunk_pointer_list write_chunk read_chunk
  Fields-chunks n id cs h k (short, all) =
      Fields-optional n id (not (is_empty cs)) [] h k (empty_is_nil cs) (
        Coded-list laws.IsChunk wire (write_chunk chunks) (read_chunk chunks) cs writes reads short
          all)
    where
      wire : D → List ℕ
      wire c = (1 ∷ []) ++ laws.wire c

      writes : (c : D) → laws.IsChunk c → Writes (write_chunk chunks c) (wire c)
      writes c h = Writes-then (Writes-bool true) (laws.writes c h)

      reads : (c : D) → laws.IsChunk c → Reads (read_chunk chunks) (wire c) c
      reads c h = Reads-bind _ (read_bool-Reads true) (laws.reads c h)
