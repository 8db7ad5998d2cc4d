-- ===== src/QuackType/Theorems.antt =====
-- internal/quacktype/codec.go: what the encoder and the decoder of types promise together.
use adbc_driver_quack.Base.{
  ℕ, ◌+◌, ◌≡◌, ap, sym, ◌∙◌, some, List, [], ◌∷◌, ◌++◌, length, arith, All, ◌≢◌,
}
use adbc_driver_quack.Codec.Fault.{trailing_bytes}
use adbc_driver_quack.Codec.Reader.{new_binary_reader, ◌>>=◌, pure, read_string, assert_eof}
use adbc_driver_quack.Codec.Reads.{Reads, at, Fits, Reads-required_field}
use adbc_driver_quack.Codec.Leb.{uleb}
use adbc_driver_quack.Codec.Leb.Unsigned.{read_uleb128_int-Reads, read_string-Reads}
use adbc_driver_quack.Codec.Lists.{concat_map, Reads-list}
use adbc_driver_quack.Codec.RoundTrip.{written, RoundTrips, round_trip}
use adbc_driver_quack.QuackType.Types.{LogicalType}
use adbc_driver_quack.QuackType.Encode.{encode_logical_type}
use adbc_driver_quack.QuackType.Decode.{decode_logical_type, decode_enum, assert_eof_if}
use adbc_driver_quack.QuackType.Wire.{type_bytes, IsEncodable, Short, IsInt, field, string_bytes}
use adbc_driver_quack.QuackType.Written.{encode_logical_type-Writes}
use adbc_driver_quack.QuackType.RoundTrip.{type-Reads}
use adbc_driver_quack.QuackType.Fields.{lengths}

-- The fuel that the decoder takes from its input is enough.
pub decode_logical_type-Reads :
    (t : LogicalType) → IsEncodable t → Reads decode_logical_type (type_bytes t) t
unfolding decode_logical_type
decode_logical_type-Reads t h = record {
  run = λ off rest fits.
      (type-Reads t h (length (type_bytes t ++ rest) + 1) (omega lengths)).run off rest fits;
}

-- An encodable type that `EncodeLogicalType` writes into a new writer is what `DecodeLogicalType`
-- returns in front of these bytes, whatever follows them: at any depth of nesting, with every extra
-- info, alias and optional name. It takes exactly these bytes and reports no error, and the fuel of
-- the model, one more than the bytes of the input, is enough. The input is shorter than 2 ^ 63.
pub decode_logical_type-encode_logical_type :
    (t : LogicalType) (rest : List ℕ)
    → IsEncodable t
    → Fits 0 (written (encode_logical_type t) ++ rest)
    → RoundTrips (encode_logical_type t) decode_logical_type t rest
decode_logical_type-encode_logical_type t rest h =
    round_trip (encode_logical_type-Writes t h) (decode_logical_type-Reads t h) rest

-- The encodings of types are a prefix code: where the bytes of two encodable types begin the same
-- input, the types are equal and so is what follows them. The input is shorter than 2 ^ 63.
pub encode_logical_type_prefix_free :
    (t t' : LogicalType) (rest rest' : List ℕ)
    → IsEncodable t
    → IsEncodable t'
    → Fits 0 (written (encode_logical_type t) ++ rest)
    → written (encode_logical_type t) ++ rest ≡ written (encode_logical_type t') ++ rest'
    → (t ≡ t') × (rest ≡ rest')
encode_logical_type_prefix_free t t' rest rest' h h' fits e =
    let one = decode_logical_type-encode_logical_type t rest h fits in
    let other = decode_logical_type-encode_logical_type t' rest' h' (rw (← e) fits) in
    let same = sym one ∙ (ap (λ bs. decode_logical_type (new_binary_reader bs)) e ∙ other) in
    (ap (λ p. p.0) same, ap (λ p. p.1.rest) same)

-- An `EnumTypeInfo` whose count differs from the number of its values is refused where any byte
-- follows, as the end marker of its object does: the decoder's forced end-of-input check leaves the
-- error `trailing_bytes` at the offset behind the values. The count and the values are shorter than
-- 2 ^ 63, and so is the input.
pub decode_enum_wrong_count :
    (count : ℕ) (vs : List (List ℕ)) (alias : List ℕ) (off b : ℕ) (rest : List ℕ)
    → IsInt count
    → Short vs
    → All Short vs
    → count ≢ length vs
    → Fits off (
        field 200 (uleb count)
        ++ (field 201 (uleb (length vs) ++ concat_map string_bytes vs) ++ (b ∷ rest)))
    → (decode_enum alias (
        at off (
          field 200 (uleb count)
          ++ (field 201 (uleb (length vs) ++ concat_map string_bytes vs) ++ (b ∷ rest))))).1.err
      ≡ some (record {
        cause = trailing_bytes (length rest + 1);
        offset =
            off
            + length (field 200 (uleb count))
            + length (field 201 (uleb (length vs) ++ concat_map string_bytes vs));
      })
unfolding decode_enum ◌>>=◌ assert_eof_if assert_eof pure
decode_enum_wrong_count count vs alias off b rest hc hl hs ne fits =
    let tail = field 201 (uleb (length vs) ++ concat_map string_bytes vs) in
    rw
      (
        (Reads-required_field 0 200 (omega arith) (read_uleb128_int-Reads count hc)).run off
            (tail ++ (b ∷ rest)) fits,
        (Reads-required_field [] 201 (omega arith) (
              Reads-list Short string_bytes (λ i. read_string) (λ i. read_string-Reads) vs hl
                hs)).run
            (off + length (field 200 (uleb count))) (b ∷ rest) (grind lengths),
      )
      (ground arith)
