-- ===== src/QuackType/Written.antt =====
-- The encoder writes the wire format.
use adbc_driver_quack.Base.{ℕ, ◌%◌, ◌^◌, none, some, List, length, arith, true}
use adbc_driver_quack.Codec.Lists.{Writes-list, Writes-unless_failed}
use adbc_driver_quack.Codec.Writer.{write_string}
use adbc_driver_quack.Codec.Writes.{
  Writes, Writes-then, Writes-skip, Writes-field, Writes-object, Writes-uleb128, Writes-string,
  Writes-bool,
}
use adbc_driver_quack.QuackType.Types.{
  LogicalType, ExtraTypeInfo, ChildTypes, LogicalTypes, logical_type, nil_info, generic, decimal,
  string_info, list_info, struct_info, enum_info, aggregate_state, array, any, template,
  integer_literal, geo, unbound, no_children, child, no_types, type_then, to_list, children_to_list,
}
use adbc_driver_quack.QuackType.Encode.{
  encode_info_field, encode_crs, encode_logical_type, encode_payload, encode_child_types,
  encode_types,
}
use adbc_driver_quack.QuackType.Wire.{
  info_field_bytes, type_bytes, payload_bytes, children_bytes, types_bytes, string_bytes, Short,
  IsEncodable, IsEncodableInfo, IsEncodableChildren, IsEncodableTypes, Writes-optional_string,
  Writes-info, optional_string, object,
}
use adbc_driver_quack.Codec.Writer.{Writer}

Writes-info_field :
    (info : ExtraTypeInfo) {f : Writer → Writer} {bs : List ℕ}
    → IsEncodableInfo info
    → Writes f bs
    → Writes (encode_info_field info f) (info_field_bytes info bs)
unfolding encode_info_field
Writes-info_field nil_info h hf = Writes-skip
Writes-info_field info h hf =
    Writes-field 101 (Writes-then (Writes-bool true) (Writes-info info h hf))

Writes-crs : (c : List ℕ) → Short c → Writes (encode_crs c) (object (optional_string 100 c))
unfolding encode_crs
Writes-crs c h = Writes-object (Writes-optional_string 100 c h)

mutual
  unfolding encode_logical_type type_bytes IsEncodable

  Writes-type : (t : LogicalType) → IsEncodable t → Writes (encode_logical_type t) (type_bytes t)
  Writes-type (logical_type id info) (hid, h) = Writes-object (
      Writes-then (Writes-field 100 (Writes-uleb128 id (omega arith)))
        (Writes-info_field info h (Writes-payload info h)))

  Writes-payload :
      (info : ExtraTypeInfo)
      → IsEncodableInfo info
      → Writes (encode_payload info) (payload_bytes info)
  Writes-payload nil_info h = Writes-skip
  Writes-payload (generic k a) h = Writes-skip
  Writes-payload (decimal w s a) h =
      Writes-then (Writes-field 200 (Writes-uleb128 w (omega arith)))
        (Writes-field 201 (Writes-uleb128 s (omega arith)))
  Writes-payload (string_info c a) h = Writes-field 200 (Writes-string c (omega arith))
  Writes-payload (list_info t a) h = Writes-field 200 (Writes-type t h.0)
  Writes-payload (struct_info ts a) h = Writes-field 200 (
      Writes-then (Writes-uleb128 (length (children_to_list ts)) (omega arith))
        (Writes-children ts h.0))
  Writes-payload (enum_info vs a) h =
      Writes-then (Writes-field 200 (Writes-uleb128 (length vs) (omega arith))) (
        Writes-field 201 (
          Writes-list Short string_bytes (λ i s. write_string s)
            (λ i s k. Writes-string s (omega arith)) vs (omega arith) h.1))
  Writes-payload (aggregate_state f t ts a) h =
      Writes-then
        (Writes-then (Writes-field 200 (Writes-string f (omega arith)))
          (Writes-field 201 (Writes-type t h.1)))
        (Writes-field 202
          (Writes-then (Writes-uleb128 (length (to_list ts)) (omega arith)) (Writes-types ts h.2)))
  Writes-payload (array t n a) h =
      Writes-then (Writes-field 200 (Writes-type t h.0))
        (Writes-field 201 (Writes-uleb128 n (omega arith)))
  Writes-payload (any t none a) h = absurd h
  Writes-payload (any t (some n) a) h =
      Writes-then (Writes-field 200 (Writes-type t h.0))
        (Writes-field 201 (Writes-uleb128 (n % 2 ^ 64) (omega arith)))
  Writes-payload (template n a) h = Writes-field 200 (Writes-string n (omega arith))
  Writes-payload (integer_literal a) h = Writes-skip
  Writes-payload (geo c a) h = Writes-field 200 (Writes-crs c h.0)
  Writes-payload (unbound n c s a) h =
      Writes-then
        (Writes-then (Writes-optional_string 200 n h.0) (Writes-optional_string 201 c h.1))
        (Writes-optional_string 202 s h.2)

  Writes-children :
      (cs : ChildTypes)
      → IsEncodableChildren cs
      → Writes (encode_child_types cs) (children_bytes cs)
  Writes-children no_children h = Writes-skip
  Writes-children (child n t cs) h =
      Writes-then
        (Writes-object (
          Writes-then (Writes-field 0 (Writes-string n (omega arith)))
            (Writes-field 1 (Writes-type t h.1))))
        (Writes-unless_failed (Writes-children cs h.2))

  Writes-types :
      (ts : LogicalTypes) → IsEncodableTypes ts → Writes (encode_types ts) (types_bytes ts)
  Writes-types no_types h = Writes-skip
  Writes-types (type_then t ts) h =
      Writes-then (Writes-type t h.0) (Writes-unless_failed (Writes-types ts h.1))

-- The encoder appends the wire format of an encodable type to what the writer holds.
pub encode_logical_type-Writes :
    (t : LogicalType) → IsEncodable t → Writes (encode_logical_type t) (type_bytes t)
encode_logical_type-Writes = Writes-type
