-- ===== src/QuackType/RoundTrip.antt =====
-- The decoder reads back every encodable type, at any depth.
use adbc_driver_quack.Base.{
  ℕ, zero, suc, ◌<◌, ◌≤◌, ◌≡◌, none, some, List, [], length, arith, false, All,
}
use adbc_driver_quack.Codec.Leb.Unsigned.{read_string-Reads}
use adbc_driver_quack.Codec.Reader.{R}
use adbc_driver_quack.Codec.Reads.{Reads, Reads-required_field, Reads-map, pure-Reads}
use adbc_driver_quack.Codec.Optional.{ReadsBefore, Reads-optional_field, Reads→Before}
use adbc_driver_quack.QuackType.Types.{
  LogicalType, ExtraTypeInfo, ChildTypes, LogicalTypes, logical_type, nil_info, generic, decimal,
  string_info, list_info, struct_info, enum_info, aggregate_state, array, any, template,
  integer_literal, geo, unbound, no_children, child, no_types, type_then, to_list, children_to_list,
  zero_type, kind, get_alias, is_nil,
}
use adbc_driver_quack.QuackType.Decode.{decode_payload, decode_type_fuel}
use adbc_driver_quack.QuackType.Wire.{
  type_bytes, payload_bytes, children_bytes, types_bytes, IsEncodable, IsEncodableInfo,
  info_field_bytes, IsEncodableChildren, IsEncodableTypes, kind-alias,
}
use adbc_driver_quack.QuackType.Cases.{
  ReadsType, ReadsChild, children-Reads, aggregate_state-Reads, array-Reads, any-Reads,
  generic_kind, info-Reads, body-Reads,
}
use adbc_driver_quack.QuackType.Fields.{
  lengths, decode_crs-Reads, decode_unbound-Before, decode_decimal-Reads, decode_enum-Reads,
}

-- A type is longer than the payload inside.
field_longer :
    (info : ExtraTypeInfo) (p : List ℕ)
    → is_nil info ≡ false
    → length p ≤ length (info_field_bytes info p)
field_longer nil_info p h = cc
field_longer info p h = grind lengths

payload_shorter :
    (id : ℕ) (info : ExtraTypeInfo)
    → is_nil info ≡ false
    → length (payload_bytes info) < length (type_bytes (logical_type id info))
unfolding type_bytes
payload_shorter id info h = grind (lengths, field_longer info (payload_bytes info) h)

abbrev with_fuel : ℕ → R LogicalType
with_fuel f r = decode_type_fuel f r

mutual
  unfolding type_bytes IsEncodable decode_payload decode_type_fuel

  pub type-Reads :
      (t : LogicalType)
      → IsEncodable t
      → (f : ℕ) → length (type_bytes t) < f
      → Reads (decode_type_fuel f) (type_bytes t) t
  type-Reads (logical_type id info) h zero lt = absurd (omega arith)
  type-Reads (logical_type id info) (hid, h) (suc f) lt = body-Reads (with_fuel f) id info hid λ e.
      info-Reads (with_fuel f) info (kind-alias info h).0 (kind-alias info h).1
        (payload-Reads info h e f (omega (arith, payload_shorter id info e)))

  payload-Reads :
      (info : ExtraTypeInfo)
      → IsEncodableInfo info
      → is_nil info ≡ false
      → (f : ℕ) → length (payload_bytes info) < f
      → ReadsBefore 202
          (decode_payload (with_fuel f) (kind info) (get_alias info))
          (payload_bytes info)
          info
  payload-Reads nil_info h e f lt = cc
  payload-Reads (generic k a) (hk, hg, ha) e f lt =
      rw (generic_kind (with_fuel f) k a hg) (Reads→Before 202 (pure-Reads (generic k a)))
  payload-Reads (decimal w s a) (hw, hs, ha) e f lt =
      Reads→Before 202 (decode_decimal-Reads w s a hw hs)
  payload-Reads (string_info c a) (hc, ha) e f lt = Reads→Before 202 (
      Reads-map (λ x. string_info x a)
        (Reads-optional_field 200 [] (omega arith) (read_string-Reads c hc)))
  payload-Reads (list_info t a) (ht, ha) e f lt = Reads→Before 202 (
      Reads-map (λ x. list_info x a)
        (Reads-required_field zero_type 200 (omega arith) (type-Reads t ht f (grind lengths))))
  payload-Reads (struct_info ts a) (ht, hs, ha) e f lt = Reads→Before 202 (
      Reads-map (λ x. struct_info x a)
        (Reads-optional_field 200 no_children (omega arith)
          (children-Reads (with_fuel f) ts hs (children-All ts ht f (grind lengths)))))
  payload-Reads (enum_info vs a) (h, hs, ha) e f lt = Reads→Before 202 (decode_enum-Reads vs a h hs)
  payload-Reads (aggregate_state g t ts a) (hg, ht, hts, hs, ha) e f lt = Reads→Before 202 (
      aggregate_state-Reads (with_fuel f) g t ts a hg (type-Reads t ht f (grind lengths)) hs
        (types-All ts hts f (grind lengths)))
  payload-Reads (array t n a) (ht, hn, ha) e f lt =
      Reads→Before 202 (array-Reads (with_fuel f) t n a (type-Reads t ht f (grind lengths)) hn)
  payload-Reads (any t none a) h e f lt = absurd h
  payload-Reads (any t (some n) a) (ht, hn, ha) e f lt =
      Reads→Before 202 (any-Reads (with_fuel f) t n a (type-Reads t ht f (grind lengths)) hn)
  payload-Reads (template n a) (hn, ha) e f lt = Reads→Before 202 (
      Reads-map (λ x. template x a)
        (Reads-optional_field 200 [] (omega arith) (read_string-Reads n hn)))
  payload-Reads (integer_literal a) h e f lt = Reads→Before 202 (pure-Reads (integer_literal a))
  payload-Reads (geo c a) (hc, ha) e f lt =
      Reads→Before 202 (
        Reads-map (λ x. geo x a)
          (Reads-optional_field 200 [] (omega arith) (decode_crs-Reads c hc)))
  payload-Reads (unbound n c s a) (hn, hc, hs, ha) e f lt = decode_unbound-Before n c s a hn hc hs

  children-All :
      (cs : ChildTypes)
      → IsEncodableChildren cs
      → (f : ℕ) → length (children_bytes cs) < f
      → All (ReadsChild (with_fuel f)) (children_to_list cs)
  children-All no_children h f lt = tt
  children-All (child n t cs) (hn, ht, h) f lt =
      ((hn, type-Reads t ht f (grind lengths)), children-All cs h f (grind lengths))

  types-All :
      (ts : LogicalTypes)
      → IsEncodableTypes ts
      → (f : ℕ) → length (types_bytes ts) < f
      → All (ReadsType (with_fuel f)) (to_list ts)
  types-All no_types h f lt = tt
  types-All (type_then t ts) (ht, h) f lt =
      (type-Reads t ht f (grind lengths), types-All ts h f (grind lengths))
