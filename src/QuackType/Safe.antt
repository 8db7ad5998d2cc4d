-- ===== src/QuackType/Safe.antt =====
-- internal/quacktype/codec.go: decoding ends on every input, with the fuel that it has.
use adbc_driver_quack.Base.{
  ℕ, zero, suc, ◌+◌, ◌<◌, ◌≤◌, ◌≡◌, ◌^◌, ap, Bool, none, some, List, [], length, ◌==◌, ◌||◌, arith,
}
use adbc_driver_quack.Codec.Fault.{out_of_fuel}
use adbc_driver_quack.Codec.Reader.{R, Reader, fail, assert_eof}
use adbc_driver_quack.Codec.Safe.{
  if-Safe, if_reader-Within, Within, healthy, failed, Safe, bind-Eats, moved, pure-Safe, bind-Safe,
}
use adbc_driver_quack.Codec.Safe.Fields.{
  assert_eof-Within, read_required_field-Safe, read_required_field-Eats, read_optional_field-Safe,
  read_object-Safe,
}
use adbc_driver_quack.Codec.Safe.Values.{
  read_uleb128_int-Safe, read_uleb128_big_int-Safe, read_string-Safe, read_list-Safe,
  read_nullable-Safe,
}
use adbc_driver_quack.QuackType.Decode.{
  decode_crs, assert_eof_if, skip_extension, decode_enum, decode_unbound, decode_decimal,
  decode_child, decode_child_types, decode_aggregate_state, decode_array, decode_any,
  decode_payload, decode_extra_type_info, decode_type_body, decode_type_fuel, decode_logical_type,
}
use adbc_driver_quack.QuackType.Types.{
  LogicalType, logical_type, generic, string_info, list_info, struct_info, integer_literal,
  template, geo, zero_type, nil_info, no_children,
}

ruleset safe_reads = (
  bind-Safe, pure-Safe, read_required_field-Safe, read_optional_field-Safe, read_object-Safe,
  read_uleb128_int-Safe, read_uleb128_big_int-Safe, read_string-Safe, read_list-Safe,
  read_nullable-Safe,
)

module _ {m : ℕ} where
  decode_unbound-Safe : (alias : List ℕ) → Safe m (decode_unbound alias)
  unfolding decode_unbound
  decode_unbound-Safe alias = search safe_reads

  decode_decimal-Safe : (alias : List ℕ) → Safe m (decode_decimal alias)
  unfolding decode_decimal
  decode_decimal-Safe alias = search safe_reads

  assert_eof_if-Safe : (b : Bool) → Safe m (assert_eof_if b)
  unfolding assert_eof_if
  assert_eof_if-Safe b = record {
    keeps = λ n r le w. if_reader-Within n b (assert_eof r) r (assert_eof-Within n r w) w;
  }

  decode_enum-Safe : (alias : List ℕ) → Safe m (decode_enum alias)
  unfolding decode_enum
  decode_enum-Safe alias = search (safe_reads, assert_eof_if-Safe)

  decode_crs-Safe : Safe m decode_crs
  unfolding decode_crs
  decode_crs-Safe = search safe_reads

  skip_extension-Safe : Safe m skip_extension
  unfolding skip_extension
  skip_extension-Safe = search safe_reads

  module _ {decode : R LogicalType} (safe : Safe m decode) where
    decode_child-Safe : Safe m (decode_child decode)
    unfolding decode_child
    decode_child-Safe =
        read_object-Safe ([], zero_type)
          (bind-Safe (read_required_field-Safe [] 0 read_string-Safe)
            λ name. bind-Safe (read_required_field-Safe zero_type 1 safe) λ t. pure-Safe (name, t))

    decode_child_types-Safe : Safe m (decode_child_types decode)
    unfolding decode_child_types
    decode_child_types-Safe = search (safe_reads, decode_child-Safe)

    decode_aggregate_state-Safe : (alias : List ℕ) → Safe m (decode_aggregate_state decode alias)
    unfolding decode_aggregate_state
    decode_aggregate_state-Safe alias =
        bind-Safe (read_required_field-Safe [] 200 read_string-Safe) λ fn.
          bind-Safe (read_required_field-Safe zero_type 201 safe) λ ret.
            bind-Safe (read_required_field-Safe [] 202 (read_list-Safe (λ i. safe)))
              λ args. pure-Safe _

    decode_array-Safe : (alias : List ℕ) → Safe m (decode_array decode alias)
    unfolding decode_array
    decode_array-Safe alias =
        bind-Safe (read_required_field-Safe zero_type 200 safe)
          λ t. bind-Safe (read_required_field-Safe 0 201 read_uleb128_int-Safe) λ size. pure-Safe _

    decode_any-Safe : (alias : List ℕ) → Safe m (decode_any decode alias)
    unfolding decode_any
    decode_any-Safe alias = bind-Safe (read_required_field-Safe zero_type 200 safe) λ target.
        bind-Safe (read_required_field-Safe none 201 read_uleb128_big_int-Safe) λ score. pure-Safe _

    decode_payload-Safe : (kind : ℕ) (alias : List ℕ) → Safe m (decode_payload decode kind alias)
    unfolding decode_payload
    decode_payload-Safe kind alias =
        if-Safe (kind == 0 || kind == 1) (pure-Safe (generic kind alias)) (
          if-Safe (kind == 2) (decode_decimal-Safe alias) (
            if-Safe (kind == 3)
              (bind-Safe (read_optional_field-Safe 200 [] read_string-Safe)
                (λ c. pure-Safe (string_info c alias)))
              (if-Safe (kind == 4)
                (bind-Safe (read_required_field-Safe zero_type 200 safe)
                  (λ t. pure-Safe (list_info t alias)))
                (if-Safe (kind == 5)
                  (bind-Safe (read_optional_field-Safe 200 no_children decode_child_types-Safe)
                    (λ cs. pure-Safe (struct_info cs alias)))
                  (if-Safe (kind == 6) (decode_enum-Safe alias) (
                    if-Safe (kind == 8) (decode_aggregate_state-Safe alias) (
                      if-Safe (kind == 9) (decode_array-Safe alias) (
                        if-Safe (kind == 10) (decode_any-Safe alias) (
                          if-Safe (kind == 11) (pure-Safe (integer_literal alias)) (
                            if-Safe (kind == 12)
                              (bind-Safe (read_optional_field-Safe 200 [] read_string-Safe)
                                (λ n. pure-Safe (template n alias)))
                              (if-Safe (kind == 13)
                                (bind-Safe (read_optional_field-Safe 200 [] decode_crs-Safe)
                                  (λ c. pure-Safe (geo c alias)))
                                (if-Safe (kind == 7) (decode_unbound-Safe alias)
                                  (pure-Safe (generic kind alias))))))))))))))

    decode_extra_type_info-Safe : Safe m (decode_extra_type_info decode)
    unfolding decode_extra_type_info
    decode_extra_type_info-Safe = read_object-Safe nil_info (
        bind-Safe (read_required_field-Safe 0 100 read_uleb128_int-Safe) λ kind.
          bind-Safe (read_optional_field-Safe 101 [] read_string-Safe) λ alias.
            bind-Safe (read_optional_field-Safe 103 tt skip_extension-Safe)
              λ _. decode_payload-Safe kind alias)

    -- The field of the id takes a byte at least.
    decode_type_body-Safe : Safe (suc m) (decode_type_body decode)
    unfolding decode_type_body
    decode_type_body-Safe = read_object-Safe zero_type (
        bind-Eats (read_required_field-Eats 0 100 read_uleb128_int-Safe) λ id.
          bind-Safe
            (read_optional_field-Safe 101 nil_info (
              bind-Safe (read_nullable-Safe nil_info decode_extra_type_info-Safe)
                λ p. pure-Safe p.0))
            λ info. pure-Safe (logical_type id info))

-- A level of nesting takes its fuel and a byte.
decode_type_fuel-Safe : (fuel : ℕ) → Safe fuel (decode_type_fuel fuel)
unfolding decode_type_fuel
decode_type_fuel-Safe zero = record { keeps = λ n r le w. failed_already n r le w }
  where
    failed_already : (n : ℕ) (r : Reader) → n ≤ 0 → Within n r → Within n (decode_type_fuel 0 r).1
    failed_already n r le (healthy e lt fits) = absurd (omega arith)
    failed_already n r le (failed e h c) =
        moved
          (ap
            (λ o. elim o as (λ _. LogicalType × Reader) [
              | some e' ↦ (zero_type, r)
              | none ↦ (zero_type, fail out_of_fuel r.offset r)
            ])
            h)
          (failed e h c)
decode_type_fuel-Safe (suc fuel) = record {
  keeps = λ n r le w. (decode_type_body-Safe (decode_type_fuel-Safe fuel)).keeps n r le w;
}

-- The recursion of `DecodeLogicalType` ends on every input: from a reader with no error, in an input that
-- is at least 16 bytes shorter than the largest `int`, it leaves a reader with no error that has no more
-- bytes left than before, or one that failed, with an error of the source or where `ReadBytes` panics
-- (`panicked`: a length prefix near 2 ^ 63 passes its test). The fuel of the model, one more than the
-- bytes that are left, never runs out, whatever the bytes are and however deep they nest. What
-- `ReadList` allocates for a length prefix, which may panic too, is not in the model.
pub decode_logical_type-Within :
    (r : Reader)
    → r.err ≡ none
    → r.offset + length r.rest + 16 < 2 ^ 63
    → Within (length r.rest + 1) (decode_logical_type r).1
unfolding decode_logical_type
decode_logical_type-Within r h fits =
    (decode_type_fuel-Safe (length r.rest + 1)).keeps (length r.rest + 1) r (omega arith)
      (healthy h (omega arith) fits)
