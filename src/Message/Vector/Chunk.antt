-- ===== src/Message/Vector/Chunk.antt =====
-- internal/message/vector_codec.go and vector_encoder.go: a data chunk of typed columns reads back.
use adbc_driver_quack.Base.{
  ℕ, suc, ◌+◌, ◌^◌, ◌<◌, ◌≡◌, refl, ap, sym, ◌∙◌, true, not, Option, some, List, [], ◌∷◌, ◌++◌,
  append_assoc, append-nil, length, get_elem?, ◌==◌, arith, All,
}
use adbc_driver_quack.Codec.Coded.{
  Coded, Coded-uleb128_int, Coded-list, Fields-then, Fields-required, Coded-object,
}
use adbc_driver_quack.Codec.Leb.Unsigned.{read_uleb128_int-Reads}
use adbc_driver_quack.Codec.Lists.{Writes-unless_failed}
use adbc_driver_quack.Codec.Reader.{pure, ◌>>=◌, ◌>>◌, list_loop, read_list}
use adbc_driver_quack.Codec.Reads.{at, Fits, Reads-bind, Reads-unless_failed, pure-Reads}
use adbc_driver_quack.Codec.Writer.{write_items, write_list}
use adbc_driver_quack.Codec.Writes.{Writes-new, Writes-skip, Writes-then, Writes-uleb128}
use adbc_driver_quack.Codec.RoundTrip.{written, RoundTrips, round_trip}
use adbc_driver_quack.Message.Encodable.{ChunkLaws}
use adbc_driver_quack.Message.Vector.Column.{IsTyped}
use adbc_driver_quack.Message.Vector.Decode.{
  decode_vector, decode_column, decode_data_chunk, decode_data_chunk_wrapper, zero_chunk,
}
use adbc_driver_quack.Message.Vector.Encode.{
  with_value, encode_vector, encode_column, has_rows, all_have_rows, encode_data_chunk,
  encode_data_chunk_wrapper, chunk_codec,
}
use adbc_driver_quack.Message.Vector.RoundTrip.{vector-Coded, Fields-nothing}
use adbc_driver_quack.Message.Vector.Rows.{kind_of, NarrowsZero}
use adbc_driver_quack.Message.Vector.Types.{Host, DecodedVector, typed_vec, DataChunk, size}
use adbc_driver_quack.QuackType.Decode.{decode_logical_type, assert_eof_if}
use adbc_driver_quack.QuackType.Encode.{encode_logical_type}
use adbc_driver_quack.QuackType.Physical.{get_physical_type}
use adbc_driver_quack.QuackType.Theorems.{decode_logical_type-Reads}
use adbc_driver_quack.QuackType.Types.{LogicalType}
use adbc_driver_quack.QuackType.Wire.{IsEncodable, type_bytes, Short}
use adbc_driver_quack.QuackType.Written.{encode_logical_type-Writes}

-- A column of `count` rows and of type `t`.
pub record IsColumn (host : Host) (count : ℕ) (t : LogicalType)
    (c : Option (DecodedVector host.Rat)) : Type 0 where
  pub values : List ℕ
  pub validity : Option (List ℕ)
  pub shape : c ≡ some (typed_vec (kind_of (get_physical_type t)) t values validity)
  pub typed : IsTyped host t values validity
  pub rows : length values ≡ count

-- The columns of a chunk, each of its type.
abbrev pub Columns :
    (host : Host) → ℕ → List LogicalType → List (Option (DecodedVector host.Rat)) → Type 0
Columns host count [] [] = Unit {0}
Columns host count [] (c ∷ cs) = ⊥
Columns host count (t ∷ ts) [] = ⊥
Columns host count (t ∷ ts) (c ∷ cs) = IsColumn host count t c × Columns host count ts cs

module _ (host : Host) (narrows : NarrowsZero host) where
  column-Coded :
      (count : ℕ) (t : LogicalType) (c : Option (DecodedVector host.Rat))
      → IsColumn host count t c
      → Coded (encode_vector host t c) (decode_vector host t count) c
  column-Coded count t c col =
      rw (col.shape, ← col.rows) (vector-Coded host narrows t col.values col.validity col.typed)

  has_rows-column :
      (count : ℕ) (t : LogicalType) (c : Option (DecodedVector host.Rat))
      → IsColumn host count t c
      → has_rows host count c ≡ true
  unfolding has_rows size
  has_rows-column count t c col = rw (col.shape) (ground (arith, col.rows))

  all_have_rows-Columns :
      (count : ℕ) (ts : List LogicalType) (cs : List (Option (DecodedVector host.Rat)))
      → Columns host count ts cs
      → (all_have_rows host count cs ≡ true) × (length ts ≡ length cs)
  unfolding all_have_rows
  all_have_rows-Columns count [] [] h = (refl, refl)
  all_have_rows-Columns count [] (c ∷ cs) h = absurd h
  all_have_rows-Columns count (t ∷ ts) [] h = absurd h
  all_have_rows-Columns count (t ∷ ts) (c ∷ cs) (hc, h) =
      let (all, same) = all_have_rows-Columns count ts cs h in
      (rw (has_rows-column count t c hc) all, ap suc same)

  column_at-Coded :
      (types : List LogicalType) (count i : ℕ) (t : LogicalType)
      (c : Option (DecodedVector host.Rat))
      → get_elem? types i ≡ some t
      → IsColumn host count t c
      → Coded (encode_column host types i c) (decode_column host types count i) c
  unfolding with_value encode_column decode_column
  column_at-Coded types count i t c at_i col = rw at_i (column-Coded count t c col)

  -- The columns from index `i` on, whose types `ts` stand from there on.
  Columns-Coded :
      (types : List LogicalType) (count i : ℕ) (ts : List LogicalType)
      (cs out : List (Option (DecodedVector host.Rat)))
      → ((j : ℕ) → get_elem? types (i + j) ≡ get_elem? ts j)
      → Columns host count ts cs
      → Coded
          (write_items (encode_column host types) i cs)
          (list_loop (decode_column host types count) (length cs) i out)
          (out ++ cs)
  unfolding write_items list_loop
  Columns-Coded types count i [] [] out look h = record {
    bytes = [];
    writes = Writes-skip;
    reads = rw (append-nil out) (pure-Reads out);
  }
  Columns-Coded types count i [] (c ∷ cs) out look h = absurd h
  Columns-Coded types count i (t ∷ ts) [] out look h = absurd h
  Columns-Coded types count i (t ∷ ts) (c ∷ cs) out look (hc, h) =
      let here : get_elem? types i ≡ some t = ap (get_elem? types) (omega arith) ∙ look 0 in
      let one = column_at-Coded types count i t c here hc in
      let rest =
        Columns-Coded types count (i + 1) ts cs (out ++ (c ∷ []))
          (λ j. ap (get_elem? types) (omega arith) ∙ look (suc j)) h in
      record {
        bytes = one.bytes ++ rest.bytes;
        writes = Writes-then one.writes (Writes-unless_failed rest.writes);
        reads =
            Reads-bind _ one.reads
              (Reads-unless_failed [] (rw (append_assoc out (c ∷ []) cs) at rest.reads));
      }

  -- The list of the columns, behind its length.
  Coded-Columns :
      (types : List LogicalType) (count : ℕ) (cs : List (Option (DecodedVector host.Rat)))
      → length cs < 2 ^ 63
      → Columns host count types cs
      → Coded
          (write_list cs (encode_column host types))
          (read_list (decode_column host types count))
          cs
  unfolding write_list read_list
  Coded-Columns types count cs short h =
      let items =
        Columns-Coded types count 0 types cs [] (λ j. ap (get_elem? types) (omega arith)) h in
      record {
        bytes = _;
        writes = Writes-then (Writes-uleb128 (length cs) (omega arith)) items.writes;
        reads =
            Reads-bind _ (read_uleb128_int-Reads (length cs) short)
              (Reads-unless_failed [] items.reads);
      }

-- A chunk of typed columns: each type can be encoded, and each column has the rows of the chunk.
pub record IsChunk (host : Host) (chunk : DataChunk host.Rat) : Type 0 where
  pub row_count : chunk.row_count < 2 ^ 63
  pub short : Short chunk.types
  pub types : All IsEncodable chunk.types
  pub columns : Columns host chunk.row_count chunk.types chunk.columns

module _ (host : Host) (narrows : NarrowsZero host) (chunk : DataChunk host.Rat)
    (h : IsChunk host chunk) where
  same_length : length chunk.types ≡ length chunk.columns
  same_length =
      (all_have_rows-Columns host narrows chunk.row_count chunk.types chunk.columns h.columns).1

  as_many : (length chunk.types == length chunk.columns) ≡ true
  as_many = ground (arith, same_length)

  all_rows : all_have_rows host chunk.row_count chunk.columns ≡ true
  all_rows =
      (all_have_rows-Columns host narrows chunk.row_count chunk.types chunk.columns h.columns).0

  accepted :
      (off : ℕ) (rest : List ℕ)
      → (assert_eof_if (not (length chunk.columns == length chunk.types)) >> pure chunk)
          (at off rest)
        ≡ (chunk, at (off + 0) rest)
  unfolding assert_eof_if ◌>>=◌ pure
  accepted off rest = ground (arith, same_length)

  data_chunk-Coded : Coded (encode_data_chunk host chunk) (decode_data_chunk host) chunk
  unfolding encode_data_chunk decode_data_chunk
  data_chunk-Coded =
      rw (as_many, all_rows)
        (Coded-object (zero_chunk host) 0 102 (omega arith) (
          Fields-then 0 100 102 _
            (Fields-required 0 100 0 (omega arith) (omega arith)
              (Coded-uleb128_int chunk.row_count h.row_count))
            (Fields-then 100 101 102 _
              (Fields-required 100 101 [] (omega arith) (omega arith) (
                Coded-list IsEncodable type_bytes encode_logical_type decode_logical_type
                  chunk.types encode_logical_type-Writes decode_logical_type-Reads h.short h.types))
              (Fields-then 101 102 102 _
                (Fields-required 101 102 [] (omega arith) (omega arith) (
                  Coded-Columns host narrows chunk.types chunk.row_count chunk.columns
                    (rw (← same_length) (h.short)) h.columns))
                (Fields-nothing 102 102 _ chunk (omega arith)
                  (record { run = λ off rest fits. accepted off rest }))))))

  pub wrapper-Coded :
      Coded (encode_data_chunk_wrapper host chunk) (decode_data_chunk_wrapper host) chunk
  unfolding encode_data_chunk_wrapper decode_data_chunk_wrapper
  wrapper-Coded =
      Coded-object (zero_chunk host) 0 300 (omega arith)
        (Fields-required 0 300 (zero_chunk host) (omega arith) (omega arith) data_chunk-Coded)

-- What the codec of messages relies on holds of the codec of data chunks.
pub chunk_laws : (host : Host) → NarrowsZero host → ChunkLaws (chunk_codec host)
chunk_laws host narrows = record {
  IsChunk = IsChunk host;
  wire = λ c. written (encode_data_chunk_wrapper host c);
  writes = λ c h. rw (← same_bytes c h) ((wrapper-Coded host narrows c h).writes);
  reads = λ c h. rw (← same_bytes c h) ((wrapper-Coded host narrows c h).reads);
}
  where
    same_bytes :
        (c : DataChunk host.Rat) (h : IsChunk host c)
        → (wrapper-Coded host narrows c h).bytes ≡ written (encode_data_chunk_wrapper host c)
    same_bytes c h = sym (ap (λ w. w.buf) (Writes-new ((wrapper-Coded host narrows c h).writes)))

-- A data chunk of typed columns that `EncodeDataChunkWrapper` writes into a new writer is what
-- `DecodeDataChunkWrapper` returns in front of these bytes, whatever follows them: the same row
-- count, types, values and null bitmaps, no error, and exactly these bytes taken. Its types can be
-- encoded, and each column has the rows of the chunk, is of an integer, Boolean or float type, with
-- every value in its range and every null row zero; float zero is zero in both precisions. The input
-- is shorter than 2 ^ 63, and the fuel of the model is enough.
pub decode_data_chunk_wrapper-encode_data_chunk_wrapper :
    (host : Host) (chunk : DataChunk host.Rat) (rest : List ℕ)
    → NarrowsZero host
    → IsChunk host chunk
    → Fits 0 (written (encode_data_chunk_wrapper host chunk) ++ rest)
    → RoundTrips (encode_data_chunk_wrapper host chunk) (decode_data_chunk_wrapper host) chunk rest
decode_data_chunk_wrapper-encode_data_chunk_wrapper host chunk rest narrows h =
    round_trip ((wrapper-Coded host narrows chunk h).writes)
      ((wrapper-Coded host narrows chunk h).reads) rest
