-- ===== src/QuackType/Encode.antt =====
-- internal/quacktype/codec.go, the encoder. `uint64(v)` of an int is its pattern.
use adbc_driver_quack.Base.{
  ℕ, ◌%◌, ◌^◌, Option, none, some, List, length, if◌then◌else◌, is_empty, true,
}
use adbc_driver_quack.Codec.Writer
use adbc_driver_quack.Codec.Writer.{
  Writer, write_object, write_field, write_bool, write_uleb128, write_string, write_list,
}
use adbc_driver_quack.QuackType.Types.{
  LogicalType, ExtraTypeInfo, ChildTypes, LogicalTypes, logical_type, nil_info, generic, decimal,
  string_info, list_info, struct_info, enum_info, aggregate_state, array, any, template,
  integer_literal, geo, unbound, no_children, child, no_types, type_then, is_nil, kind, get_alias,
  to_list, children_to_list,
}

-- `if s != "" { obj.WriteField(id, … WriteString(s)) }`
unfoldable pub write_optional_string : ℕ → List ℕ → Writer → Writer
write_optional_string id s w = if is_empty s then w else write_field id (write_string s) w

-- `EncodeExtraTypeInfo` around the payload that its type switch writes.
unfoldable pub encode_info_with : ExtraTypeInfo → (Writer → Writer) → Writer → Writer
unfolding write_optional_string
encode_info_with info payload = write_object λ obj.
    payload
      (write_optional_string 101 (get_alias info) (write_field 100 (write_uleb128 (kind info)) obj))

-- `if t.TypeInfo != nil` of `EncodeLogicalType`
unfoldable pub encode_info_field : ExtraTypeInfo → (Writer → Writer) → Writer → Writer
unfolding encode_info_with
encode_info_field info payload obj =
    if is_nil info
    then obj
    else write_field 101 (λ o. encode_info_with info payload (write_bool true o)) obj

-- `encodeCRS`
unfoldable pub encode_crs : List ℕ → Writer → Writer
unfolding write_optional_string
encode_crs definition = write_object (write_optional_string 100 definition)

-- `score := uint64(0)`, then `v.CastScore.Uint64()`, the low 64 bits
abbrev pub cast_score_uint64 : Option ℕ → ℕ
cast_score_uint64 none = 0
cast_score_uint64 (some n) = n % 2 ^ 64

unfoldable mutual
  -- `EncodeLogicalType`
  pub encode_logical_type : LogicalType → Writer → Writer
  encode_logical_type (logical_type id info) = write_object λ obj.
      encode_info_field info (λ o. encode_payload info o) (write_field 100 (write_uleb128 id) obj)

  -- The type switch of `EncodeExtraTypeInfo`.
  pub encode_payload : ExtraTypeInfo → Writer → Writer
  encode_payload nil_info obj = obj
  encode_payload (generic k a) obj = obj
  encode_payload (decimal w s a) obj =
      write_field 201 (write_uleb128 s) (write_field 200 (write_uleb128 w) obj)
  encode_payload (string_info c a) obj = write_field 200 (write_string c) obj
  encode_payload (list_info t a) obj = write_field 200 (λ o. encode_logical_type t o) obj
  encode_payload (struct_info ts a) obj =
      write_field 200 (λ o. encode_child_types ts (write_uleb128 (length (children_to_list ts)) o))
        obj
  encode_payload (enum_info vs a) obj =
      write_field 201 (write_list vs (λ i s. write_string s))
        (write_field 200 (write_uleb128 (length vs)) obj)
  encode_payload (aggregate_state f t ts a) obj =
      write_field 202 (λ o. encode_types ts (write_uleb128 (length (to_list ts)) o))
        (write_field 201 (λ o. encode_logical_type t o) (write_field 200 (write_string f) obj))
  encode_payload (array t n a) obj =
      write_field 201 (write_uleb128 n) (write_field 200 (λ o. encode_logical_type t o) obj)
  encode_payload (any t s a) obj =
      write_field 201 (write_uleb128 (cast_score_uint64 s))
        (write_field 200 (λ o. encode_logical_type t o) obj)
  encode_payload (template n a) obj = write_field 200 (write_string n) obj
  encode_payload (integer_literal a) obj = obj
  encode_payload (geo c a) obj = write_field 200 (encode_crs c) obj
  encode_payload (unbound n c s a) obj =
      write_optional_string 202 s (write_optional_string 201 c (write_optional_string 200 n obj))

  -- The loop of `WriteList` in `encodeChildTypes`.
  pub encode_child_types : ChildTypes → Writer → Writer
  encode_child_types no_children w = w
  encode_child_types (child n t cs) w =
      Writer.unless_failed (λ w'. encode_child_types cs w')
        (write_object
          (λ pair.
            write_field 1 (λ o. encode_logical_type t o) (write_field 0 (write_string n) pair))
          w)

  -- The loop of `WriteList` in the `AggregateStateTypeInfo` case.
  pub encode_types : LogicalTypes → Writer → Writer
  encode_types no_types w = w
  encode_types (type_then t ts) w =
      Writer.unless_failed (λ w'. encode_types ts w') (encode_logical_type t w)

-- `EncodeExtraTypeInfo`
unfoldable pub encode_extra_type_info : ExtraTypeInfo → Writer → Writer
unfolding encode_info_with encode_payload
encode_extra_type_info info = encode_info_with info (encode_payload info)
