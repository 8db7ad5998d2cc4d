-- ===== src/QuackType/Decode.antt =====
-- internal/quacktype/codec.go, the decoder.
use adbc_driver_quack.Base.{
  ℕ, zero, suc, ◌+◌, none, some, List, [], length, if◌then◌else◌, ◌==◌, ◌||◌, Bool, not,
}
use adbc_driver_quack.Codec.Fault.{out_of_fuel}
use adbc_driver_quack.Codec.Reader.{
  R, pure, ◌>>=◌, ◌>>◌, fail, assert_eof, read_object, read_required_field, read_optional_field,
  read_uleb128_big_int, read_uleb128_int, read_string, read_list, read_nullable,
}
use adbc_driver_quack.QuackType.Types.{
  LogicalType, ExtraTypeInfo, ChildTypes, logical_type, nil_info, generic, decimal, string_info,
  list_info, struct_info, enum_info, aggregate_state, array, any, template, integer_literal, geo,
  unbound, zero_type, no_children, of_list, children_of_list,
}

-- `decodeCRS`
unfoldable pub decode_crs : R (List ℕ)
decode_crs = read_object [] (read_optional_field 100 read_string [])

-- `rr.AssertEOF() // force an error path`, when a test says so
unfoldable pub assert_eof_if : Bool → R (Unit {0})
assert_eof_if b r = (tt, if b then assert_eof r else r)

-- The reader of field 103: a presence flag and, if it is set, nothing.
unfoldable pub skip_extension : R (Unit {0})
skip_extension = read_nullable {A = Unit {0}} tt (pure tt) >>= λ _. pure tt

-- Cases of the switch that read several fields.
unfoldable pub decode_enum : List ℕ → R ExtraTypeInfo
unfolding assert_eof_if
decode_enum alias = do
  values_count ← read_required_field 0 200 read_uleb128_int
  values ← read_required_field [] 201 (read_list (λ i. read_string))
  assert_eof_if (not (length values == values_count))
  pure (enum_info values alias)

unfoldable pub decode_unbound : List ℕ → R ExtraTypeInfo
decode_unbound alias = do
  name ← read_optional_field 200 read_string []
  catalog ← read_optional_field 201 read_string []
  schema ← read_optional_field 202 read_string []
  pure (unbound name catalog schema alias)

unfoldable pub decode_decimal : List ℕ → R ExtraTypeInfo
decode_decimal alias = do
  width ← read_optional_field 200 read_uleb128_int 0
  scale ← read_optional_field 201 read_uleb128_int 0
  pure (decimal width scale alias)

-- What follows takes `DecodeLogicalType` as an argument; `decode_logical_type` closes the loop.
module _ (decode : R LogicalType) where
  -- One element of `decodeChildTypes`.
  unfoldable pub decode_child : R (List ℕ × LogicalType)
  decode_child =
      read_object ([], zero_type)
        do
          name ← read_required_field [] 0 read_string
          t ← read_required_field zero_type 1 decode
          pure (name, t)

  unfoldable pub decode_child_types : R ChildTypes
  unfolding decode_child
  decode_child_types = read_list (λ i. decode_child) >>= λ cs. pure (children_of_list cs)

  unfoldable pub decode_aggregate_state : List ℕ → R ExtraTypeInfo
  decode_aggregate_state alias = do
    fn ← read_required_field [] 200 read_string
    ret ← read_required_field zero_type 201 decode
    args ← read_required_field [] 202 (read_list (λ i. decode))
    pure (aggregate_state fn ret (of_list args) alias)

  unfoldable pub decode_array : List ℕ → R ExtraTypeInfo
  decode_array alias = do
    t ← read_required_field zero_type 200 decode
    size ← read_required_field 0 201 read_uleb128_int
    pure (array t size alias)

  unfoldable pub decode_any : List ℕ → R ExtraTypeInfo
  decode_any alias = do
    target ← read_required_field zero_type 200 decode
    score ← read_required_field none 201 read_uleb128_big_int
    pure (any target score alias)

  -- The switch of `DecodeExtraTypeInfo`.
  unfoldable pub decode_payload : ℕ → List ℕ → R ExtraTypeInfo
  unfolding decode_enum decode_aggregate_state decode_unbound decode_child_types decode_crs
      decode_decimal decode_array decode_any
  decode_payload kind alias =
      if kind == 0 || kind == 1
      then pure (generic kind alias)
      else if kind == 2
      then decode_decimal alias
      else if kind == 3
      then (read_optional_field 200 read_string [] >>= λ c. pure (string_info c alias))
      else if kind == 4
      then (read_required_field zero_type 200 decode >>= λ t. pure (list_info t alias))
      else if kind == 5
      then (read_optional_field 200 decode_child_types no_children >>= λ cs.
          pure (struct_info cs alias))
      else if kind == 6
      then decode_enum alias
      else if kind == 8
      then decode_aggregate_state alias
      else if kind == 9
      then decode_array alias
      else if kind == 10
      then decode_any alias
      else if kind == 11
      then pure (integer_literal alias)
      else if kind == 12
      then (read_optional_field 200 read_string [] >>= λ n. pure (template n alias))
      else if kind == 13
      then (read_optional_field 200 decode_crs [] >>= λ c. pure (geo c alias))
      else if kind == 7
      then decode_unbound alias
      else pure (generic kind alias)

  -- `DecodeExtraTypeInfo`
  unfoldable pub decode_extra_type_info : R ExtraTypeInfo
  unfolding decode_payload skip_extension
  decode_extra_type_info = read_object nil_info do
    kind ← read_required_field 0 100 read_uleb128_int
    alias ← read_optional_field 101 read_string []
    read_optional_field 103 skip_extension tt
    decode_payload kind alias

  -- The body of `DecodeLogicalType`.
  unfoldable pub decode_type_body : R LogicalType
  unfolding decode_extra_type_info
  decode_type_body = read_object zero_type do
    id ← read_required_field 0 100 read_uleb128_int
    info ←
        read_optional_field 101 (read_nullable nil_info decode_extra_type_info >>= λ p. pure p.0)
          nil_info
    pure (logical_type id info)

-- The nesting of types is bounded by fuel; one that runs out is an error of the model.
unfoldable pub decode_type_fuel : ℕ → R LogicalType
decode_type_fuel zero r = elim r.err [
  | some e ↦ (zero_type, r)
  | none ↦ (zero_type, fail out_of_fuel r.offset r)
]
decode_type_fuel (suc fuel) r = decode_type_body (λ r'. decode_type_fuel fuel r') r

-- `DecodeLogicalType`. Each level takes bytes, so there are no more levels than bytes.
unfoldable pub decode_logical_type : R LogicalType
unfolding decode_type_fuel
decode_logical_type r = decode_type_fuel (length r.rest + 1) r
