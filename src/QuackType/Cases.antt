-- ===== src/QuackType/Cases.antt =====
-- The decoder on the parts of the wire format, given that it reads the types inside.
use adbc_driver_quack.Base.{
  ℕ, ◌%◌, ◌^◌, ◌<◌, ◌≡◌, refl, none, some, List, [], ◌++◌, append_assoc, length, arith, false, ◌⊎◌,
  All, ap,
}
use adbc_driver_quack.Codec.Lists.{Reads-list, concat_map}
use adbc_driver_quack.Codec.Leb.{uleb}
use adbc_driver_quack.Codec.Leb.Unsigned.{read_uleb128_int-Reads, read_string-Reads}
use adbc_driver_quack.Codec.Reader.{R, pure, ◌>>=◌, read_optional_field, read_nullable}
use adbc_driver_quack.Codec.Reads.{
  Reads, Reads-bind, Reads-cast, Reads-map, Reads-required_field, Reads-object, Reads-nullable,
}
use adbc_driver_quack.Codec.Optional.{
  ReadsBefore, Leads, Leads-nil, Leads-field, Leads-append, Leads-optional, Leads-weaken,
  Reads-optional_field, Absent-optional_field, Reads→Before, Before-map, Before-bind, Before-then,
  Before-object,
}
use adbc_driver_quack.QuackType.Types.{
  LogicalType, ExtraTypeInfo, ChildTypes, LogicalTypes, logical_type, nil_info, generic, decimal,
  aggregate_state, array, any, integer_literal, unbound, no_children, child, no_types, type_then,
  to_list, children_to_list, of_list, children_of_list, zero_type, kind, get_alias, is_nil,
}
use adbc_driver_quack.QuackType.Decode.{
  skip_extension, decode_child, decode_child_types, decode_aggregate_state, decode_array,
  decode_any, decode_payload, decode_extra_type_info, decode_type_body,
}
use adbc_driver_quack.QuackType.Wire.{
  info_field_bytes, info_bytes, type_bytes, payload_bytes, children_bytes, types_bytes,
  string_bytes, Short, IsInt, optional_string, object, field,
}
use adbc_driver_quack.QuackType.Fields.{Optional-string, big_int-Reads}

-- The slices as lists, and back.
children_of_list-to_list : (cs : ChildTypes) → children_of_list (children_to_list cs) ≡ cs
children_of_list-to_list no_children = refl
children_of_list-to_list (child n t cs) = ap (child n t) (children_of_list-to_list cs)

of_list-to_list : (ts : LogicalTypes) → of_list (to_list ts) ≡ ts
of_list-to_list no_types = refl
of_list-to_list (type_then t ts) = ap (type_then t) (of_list-to_list ts)

abbrev child_bytes : List ℕ × LogicalType → List ℕ
child_bytes c = object (field 0 (string_bytes c.0) ++ field 1 (type_bytes c.1))

children_bytes-concat_map :
    (cs : ChildTypes) → children_bytes cs ≡ concat_map child_bytes (children_to_list cs)
unfolding type_bytes
children_bytes-concat_map no_children = refl
children_bytes-concat_map (child n t cs) = rw (children_bytes-concat_map cs)

types_bytes-concat_map : (ts : LogicalTypes) → types_bytes ts ≡ concat_map type_bytes (to_list ts)
unfolding type_bytes
types_bytes-concat_map no_types = refl
types_bytes-concat_map (type_then t ts) = rw (types_bytes-concat_map ts)

-- Every payload begins with a field id from 200 on, if it is not empty.
Leads-payload : (info : ExtraTypeInfo) → Leads 103 202 (payload_bytes info)
unfolding type_bytes
Leads-payload nil_info = Leads-nil 103 202 (omega arith)
Leads-payload (generic k a) = Leads-nil 103 202 (omega arith)
Leads-payload (integer_literal a) = Leads-nil 103 202 (omega arith)
Leads-payload (unbound n c s a) =
    Leads-append 103 202 201 _ _
      (Leads-append 103 201 200 _ _
        (Leads-optional 103 200 200 n (string_bytes n) (omega arith) (omega arith) (omega arith))
        (Leads-optional 200 201 201 c (string_bytes c) (omega arith) (omega arith) (omega arith)))
      (Leads-optional 201 202 202 s (string_bytes s) (omega arith) (omega arith) (omega arith))
Leads-payload (decimal w s a) = Leads-field 103 202 200 _ (omega arith) (omega arith)
Leads-payload (aggregate_state f t ts a) = Leads-field 103 202 200 _ (omega arith) (omega arith)
Leads-payload _ = Leads-field 103 202 200 _ (omega arith) (omega arith)

module _ (decode : R LogicalType) where
  abbrev pub ReadsType : LogicalType → Type 0
  ReadsType t = Reads decode (type_bytes t) t

  abbrev pub ReadsChild : List ℕ × LogicalType → Type 0
  ReadsChild c = Short c.0 × ReadsType c.1

  child-Reads :
      (c : List ℕ × LogicalType) → ReadsChild c → Reads (decode_child decode) (child_bytes c) c
  unfolding decode_child
  child-Reads c (h, ht) =
      Reads-object ([], zero_type)
        (Reads-bind _ (Reads-required_field [] 0 (omega arith) (read_string-Reads c.0 h))
          (Reads-map (λ t. (c.0, t)) (Reads-required_field zero_type 1 (omega arith) ht)))

  pub children-Reads :
      (cs : ChildTypes)
      → Short (children_to_list cs)
      → All ReadsChild (children_to_list cs)
      → Reads
          (decode_child_types decode)
          (uleb (length (children_to_list cs)) ++ children_bytes cs)
          cs
  unfolding decode_child_types
  children-Reads cs h hs = rw (children_bytes-concat_map cs) (
      Reads-cast (children_of_list-to_list cs) (
        Reads-map children_of_list (
          Reads-list ReadsChild child_bytes (λ i. decode_child decode) (λ i c k. child-Reads c k)
            (children_to_list cs) h hs)))

  pub aggregate_state-Reads :
      (f : List ℕ) (t : LogicalType) (ts : LogicalTypes) (a : List ℕ)
      → Short f
      → ReadsType t
      → Short (to_list ts)
      → All ReadsType (to_list ts)
      → Reads
          (decode_aggregate_state decode a)
          (payload_bytes (aggregate_state f t ts a))
          (aggregate_state f t ts a)
  unfolding decode_aggregate_state type_bytes
  aggregate_state-Reads f t ts a hf ht h hs =
      rw
        (append_assoc (field 200 (string_bytes f)) (field 201 (type_bytes t))
          (field 202 (uleb (length (to_list ts)) ++ types_bytes ts)))
        (Reads-bind _ (Reads-required_field [] 200 (omega arith) (read_string-Reads f hf)) (
          Reads-bind _ (Reads-required_field zero_type 201 (omega arith) ht) (
            rw (types_bytes-concat_map ts) (
              Reads-cast (ap (λ x. aggregate_state f t x a) (of_list-to_list ts)) (
                Reads-map (λ xs. aggregate_state f t (of_list xs) a)
                  (Reads-required_field [] 202 (omega arith) (
                    Reads-list ReadsType type_bytes (λ i. decode) (λ i x k. k) (to_list ts) h
                      hs)))))))

  pub array-Reads :
      (t : LogicalType) (n : ℕ) (a : List ℕ)
      → ReadsType t
      → IsInt n
      → Reads (decode_array decode a) (payload_bytes (array t n a)) (array t n a)
  unfolding decode_array type_bytes
  array-Reads t n a ht hn = Reads-bind _ (Reads-required_field zero_type 200 (omega arith) ht) (
      Reads-map (λ x. array t x a)
        (Reads-required_field 0 201 (omega arith) (read_uleb128_int-Reads n hn)))

  pub any-Reads :
      (t : LogicalType) (n : ℕ) (a : List ℕ)
      → ReadsType t
      → n < 2 ^ 64
      → Reads (decode_any decode a) (payload_bytes (any t (some n) a)) (any t (some n) a)
  unfolding decode_any type_bytes
  any-Reads t n a ht hn =
      let same : n % 2 ^ 64 ≡ n = omega arith in
      rw same (
        Reads-bind _ (Reads-required_field zero_type 200 (omega arith) ht) (
          Reads-map (λ x. any t x a)
            (Reads-required_field none 201 (omega arith) (big_int-Reads n hn))))

  -- A kind that no other struct has.
  pub generic_kind :
      (k : ℕ) (a : List ℕ) → ((k < 2) ⊎ (13 < k)) → decode_payload decode k a ≡ pure (generic k a)
  unfolding decode_payload
  generic_kind k a h = ground arith

  -- The object of a type's extra info, around a payload that reads back.
  pub info-Reads :
      (info : ExtraTypeInfo)
      → IsInt (kind info)
      → Short (get_alias info)
      → ReadsBefore 202
          (decode_payload decode (kind info) (get_alias info))
          (payload_bytes info)
          info
      → Reads (decode_extra_type_info decode) (info_bytes info (payload_bytes info)) info
  unfolding decode_extra_type_info
  info-Reads info hk ha hp =
      let lead = Leads-payload info in
      let alias = get_alias info in
      Before-object nil_info 202
        {bs = (field 100 (uleb (kind info)) ++ optional_string 101 alias) ++ payload_bytes info}
        (omega arith)
        (rw
          (append_assoc (field 100 (uleb (kind info))) (optional_string 101 alias)
            (payload_bytes info))
          (Before-bind 202 _
            (Reads-required_field 0 100 (omega arith) (read_uleb128_int-Reads (kind info) hk))
            (Before-then 101 202 _ (Leads-weaken 101 103 202 (omega arith) lead)
              (Optional-string 101 alias (omega arith) ha)
              (Before-then 103 202 _ lead
                (Absent-optional_field 103 103 skip_extension tt (omega arith)) hp))))

  -- The object of a type, around its extra info.
  pub body-Reads :
      (id : ℕ) (info : ExtraTypeInfo)
      → IsInt id
      → ((is_nil info ≡ false)
          → Reads (decode_extra_type_info decode) (info_bytes info (payload_bytes info)) info)
      → Reads (decode_type_body decode) (type_bytes (logical_type id info)) (logical_type id info)
  unfolding decode_type_body type_bytes
  body-Reads id info hid hi = Before-object zero_type 101 (omega arith) (
      Before-bind 101 _ (Reads-required_field 0 100 (omega arith) (read_uleb128_int-Reads id hid))
        (Before-map (logical_type id) (extra info hi)))
    where
      extra :
          (i : ExtraTypeInfo)
          → ((is_nil i ≡ false)
              → Reads (decode_extra_type_info decode) (info_bytes i (payload_bytes i)) i)
          → ReadsBefore 101
              (read_optional_field 101
                (read_nullable nil_info (decode_extra_type_info decode) >>= λ p. pure p.0)
                nil_info)
              (info_field_bytes i (payload_bytes i))
              i
      extra nil_info h = Absent-optional_field 101 101 _ nil_info (omega arith)
      extra i h =
          Reads→Before 101
            (Reads-optional_field 101 nil_info (omega arith) (Reads-nullable nil_info (h refl)))
