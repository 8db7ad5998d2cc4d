-- ===== src/QuackType/Wire.antt =====
-- The wire format of types as a function of its own, and the types that it can carry.
use adbc_driver_quack.Base.{ℕ, ◌^◌, ◌<◌, none, some, List, [], ◌∷◌, ◌++◌, length, All, ◌⊎◌, arith}
use adbc_driver_quack.Codec.Fault.{field_end}
use adbc_driver_quack.Codec.Leb.{uleb}
use adbc_driver_quack.Codec.Lists.{concat_map}
use adbc_driver_quack.Codec.Optional.{optional_bytes}
use adbc_driver_quack.Codec.Writer.{Writer, le_bytes}
use adbc_driver_quack.Codec.Writes.{
  Writes, Writes-then, Writes-skip, Writes-field, Writes-object, Writes-uleb128, Writes-string,
}
use adbc_driver_quack.QuackType.Types.{
  LogicalType, ExtraTypeInfo, ChildTypes, LogicalTypes, logical_type, nil_info, generic, decimal,
  string_info, list_info, struct_info, enum_info, aggregate_state, array, any, template,
  integer_literal, geo, unbound, no_children, child, no_types, type_then, kind, get_alias, to_list,
  children_to_list,
}
use adbc_driver_quack.QuackType.Encode.{write_optional_string, encode_info_with, cast_score_uint64}

abbrev pub string_bytes : List ℕ → List ℕ
string_bytes s = uleb (length s) ++ s

abbrev pub field : ℕ → List ℕ → List ℕ
field id body = le_bytes 2 id ++ body

abbrev pub object : List ℕ → List ℕ
object body = body ++ le_bytes 2 field_end

abbrev pub optional_string : ℕ → List ℕ → List ℕ
optional_string id s = optional_bytes id s (string_bytes s)

-- An object with its kind, its alias if it has one, and its payload.
abbrev pub info_bytes : ExtraTypeInfo → List ℕ → List ℕ
info_bytes info payload =
    object ((field 100 (uleb (kind info)) ++ optional_string 101 (get_alias info)) ++ payload)

abbrev pub info_field_bytes : ExtraTypeInfo → List ℕ → List ℕ
info_field_bytes nil_info payload = []
info_field_bytes info payload = field 101 ((1 ∷ []) ++ info_bytes info payload)

unfoldable mutual
  pub type_bytes : LogicalType → List ℕ
  type_bytes (logical_type id info) =
      object (field 100 (uleb id) ++ info_field_bytes info (payload_bytes info))

  pub payload_bytes : ExtraTypeInfo → List ℕ
  payload_bytes nil_info = []
  payload_bytes (generic k a) = []
  payload_bytes (decimal w s a) = field 200 (uleb w) ++ field 201 (uleb s)
  payload_bytes (string_info c a) = field 200 (string_bytes c)
  payload_bytes (list_info t a) = field 200 (type_bytes t)
  payload_bytes (struct_info ts a) =
      field 200 (uleb (length (children_to_list ts)) ++ children_bytes ts)
  payload_bytes (enum_info vs a) =
      field 200 (uleb (length vs)) ++ field 201 (uleb (length vs) ++ concat_map string_bytes vs)
  payload_bytes (aggregate_state f t ts a) =
      (field 200 (string_bytes f) ++ field 201 (type_bytes t))
      ++ field 202 (uleb (length (to_list ts)) ++ types_bytes ts)
  payload_bytes (array t n a) = field 200 (type_bytes t) ++ field 201 (uleb n)
  payload_bytes (any t s a) = field 200 (type_bytes t) ++ field 201 (uleb (cast_score_uint64 s))
  payload_bytes (template n a) = field 200 (string_bytes n)
  payload_bytes (integer_literal a) = []
  payload_bytes (geo c a) = field 200 (object (optional_string 100 c))
  payload_bytes (unbound n c s a) =
      (optional_string 200 n ++ optional_string 201 c) ++ optional_string 202 s

  pub children_bytes : ChildTypes → List ℕ
  children_bytes no_children = []
  children_bytes (child n t cs) =
      object (field 0 (string_bytes n) ++ field 1 (type_bytes t)) ++ children_bytes cs

  pub types_bytes : LogicalTypes → List ℕ
  types_bytes no_types = []
  types_bytes (type_then t ts) = type_bytes t ++ types_bytes ts

-- A Go string or slice is shorter than 2 ^ 63, and an `int` that is not negative is below it.
abbrev pub IsInt : ℕ → Type 0
IsInt n = n < 2 ^ 63

abbrev pub Short {ℓ} : {A : Type ℓ} → List A → Type 0
Short xs = length xs < 2 ^ 63

-- What the wire can carry: no negative ints, kinds of `GenericTypeInfo` that no other struct has,
-- cast scores of 64 bits.
unfoldable mutual
  pub IsEncodable : LogicalType → Type 0
  IsEncodable (logical_type id info) = IsInt id × IsEncodableInfo info

  pub IsEncodableInfo : ExtraTypeInfo → Type 0
  IsEncodableInfo nil_info = Unit {0}
  IsEncodableInfo (generic k a) = IsInt k × ((k < 2) ⊎ (13 < k)) × Short a
  IsEncodableInfo (decimal w s a) = IsInt w × IsInt s × Short a
  IsEncodableInfo (string_info c a) = Short c × Short a
  IsEncodableInfo (list_info t a) = IsEncodable t × Short a
  IsEncodableInfo (struct_info ts a) =
      IsEncodableChildren ts × Short (children_to_list ts) × Short a
  IsEncodableInfo (enum_info vs a) = Short vs × All Short vs × Short a
  IsEncodableInfo (aggregate_state f t ts a) =
      Short f × IsEncodable t × IsEncodableTypes ts × Short (to_list ts) × Short a
  IsEncodableInfo (array t n a) = IsEncodable t × IsInt n × Short a
  IsEncodableInfo (any t none a) = ⊥
  IsEncodableInfo (any t (some n) a) = IsEncodable t × (n < 2 ^ 64) × Short a
  IsEncodableInfo (template n a) = Short n × Short a
  IsEncodableInfo (integer_literal a) = Short a
  IsEncodableInfo (geo c a) = Short c × Short a
  IsEncodableInfo (unbound n c s a) = Short n × Short c × Short s × Short a

  pub IsEncodableChildren : ChildTypes → Type 0
  IsEncodableChildren no_children = Unit {0}
  IsEncodableChildren (child n t cs) = Short n × IsEncodable t × IsEncodableChildren cs

  pub IsEncodableTypes : LogicalTypes → Type 0
  IsEncodableTypes no_types = Unit {0}
  IsEncodableTypes (type_then t ts) = IsEncodable t × IsEncodableTypes ts

pub Writes-optional_string :
    (id : ℕ) (s : List ℕ) → Short s → Writes (write_optional_string id s) (optional_string id s)
unfolding write_optional_string
Writes-optional_string id [] h = Writes-skip
Writes-optional_string id (c ∷ s) h = Writes-field id (Writes-string (c ∷ s) (omega arith))

pub kind-alias :
    (info : ExtraTypeInfo) → IsEncodableInfo info → IsInt (kind info) × Short (get_alias info)
unfolding IsEncodableInfo
kind-alias nil_info h = omega arith
kind-alias (generic k a) h = omega arith
kind-alias (any t none a) h = absurd h
kind-alias (any t (some n) a) h = omega arith
kind-alias _ h = ground arith

pub Writes-info :
    (info : ExtraTypeInfo) {f : Writer → Writer} {bs : List ℕ}
    → IsEncodableInfo info
    → Writes f bs
    → Writes (encode_info_with info f) (info_bytes info bs)
unfolding encode_info_with
Writes-info info h hf =
    let (k, a) = kind-alias info h in
    Writes-object (
      Writes-then
        (Writes-then (Writes-field 100 (Writes-uleb128 (kind info) (omega arith)))
          (Writes-optional_string 101 (get_alias info) a))
        hf)
