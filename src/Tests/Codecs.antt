-- ===== src/Tests/Codecs.antt =====
-- internal/codec and internal/quacktype at concrete inputs.
use adbc_driver_quack.Base.{
  ℕ, ◌+◌, ◌-◌, ◌^◌, ◌≤◌, ap, ◌≡◌, refl, none, some, List, [], ◌∷◌, ◌++◌, length, All, arith,
}
use adbc_driver_quack.Codec.Fault.{trailing_bytes}
use adbc_driver_quack.Codec.Leb.{uleb}
use adbc_driver_quack.Codec.Lists.{concat_map}
use adbc_driver_quack.Codec.Safe.{Within}
use adbc_driver_quack.QuackType.Safe.{decode_logical_type-Within}
use adbc_driver_quack.Codec.Reader.{Reader, read_uleb128, read_sleb128, read_list, read_string}
use adbc_driver_quack.Codec.Reads.{Fits, at}
use adbc_driver_quack.Codec.RoundTrip.{
  written, RoundTrips, IsFewest, read_uleb128-write_uleb128, read_sleb128-write_sleb128,
  read_list-write_list, write_uleb128-IsFewest,
}
use adbc_driver_quack.Codec.Writer.{
  write_uleb128, write_sleb128, write_string, write_list, new_binary_writer,
}
use adbc_driver_quack.QuackType.Decode.{decode_logical_type, decode_enum}
use adbc_driver_quack.QuackType.Encode.{encode_logical_type}
use adbc_driver_quack.QuackType.Theorems.{
  decode_logical_type-encode_logical_type, encode_logical_type_prefix_free, decode_enum_wrong_count,
}
use adbc_driver_quack.QuackType.Types.{
  LogicalType, logical_type, list_info, decimal, struct_info, child, no_children,
}
use adbc_driver_quack.Codec.Writes.{Writes-new}
use adbc_driver_quack.QuackType.Written.{encode_logical_type-Writes}
use adbc_driver_quack.QuackType.Wire.{type_bytes, IsEncodable, Short, field, string_bytes}

abbrev bytes_left : List ℕ
bytes_left = 7 ∷ (200 ∷ [])

uleb-Fits : Fits 0 (written (write_uleb128 300) ++ bytes_left)
unfolding write_uleb128 new_binary_writer
uleb-Fits = omega arith

read_uleb128-write_uleb128_example : RoundTrips (write_uleb128 300) read_uleb128 300 bytes_left
read_uleb128-write_uleb128_example =
    read_uleb128-write_uleb128 300 bytes_left (omega arith) uleb-Fits

-- The pattern of - 2.
abbrev minus_two : ℕ
minus_two = 2 ^ 64 - 2

sleb-Fits : Fits 0 (written (write_sleb128 minus_two) ++ bytes_left)
unfolding write_sleb128 new_binary_writer
sleb-Fits = omega arith

read_sleb128-write_sleb128_example :
    RoundTrips (write_sleb128 minus_two) read_sleb128 minus_two bytes_left
read_sleb128-write_sleb128_example =
    read_sleb128-write_sleb128 minus_two bytes_left (omega arith) sleb-Fits

abbrev two_strings : List (List ℕ)
two_strings = (104 ∷ (105 ∷ [])) ∷ ([] ∷ [])

list-Fits : Fits 0 (written (write_list two_strings (λ i. write_string)) ++ bytes_left)
unfolding write_list write_string new_binary_writer
list-Fits = omega arith

two_strings-Short : All Short two_strings
two_strings-Short = (omega arith, (omega arith, tt))

read_list-write_list_example :
    RoundTrips
      (write_list two_strings (λ i. write_string))
      (read_list (λ i. read_string))
      two_strings
      bytes_left
read_list-write_list_example =
    read_list-write_list two_strings bytes_left (omega arith) two_strings-Short list-Fits

write_uleb128-IsFewest_example :
    (1 ≤ length (written (write_uleb128 300)))
    × (length (written (write_uleb128 300)) ≤ 10)
    × IsFewest (length (written (write_uleb128 300))) 300
write_uleb128-IsFewest_example = write_uleb128-IsFewest 300 (omega arith)

-- A list of structs with a decimal in them, with an alias.
abbrev nested : LogicalType
nested = logical_type 101 (
    list_info
      (logical_type 100
        (struct_info (child (97 ∷ []) (logical_type 21 (decimal 10 2 [])) no_children) []))
      (116 ∷ []))

nested-IsEncodable : IsEncodable nested
unfolding IsEncodable
nested-IsEncodable = ground arith

nested-Fits : Fits 0 (written (encode_logical_type nested) ++ bytes_left)
unfolding uleb
nested-Fits =
    rw (ap (λ w. w.buf) (Writes-new (encode_logical_type-Writes nested nested-IsEncodable)))
      (unfold type_bytes in omega arith)

decode_logical_type-encode_logical_type_example :
    RoundTrips (encode_logical_type nested) decode_logical_type nested bytes_left
decode_logical_type-encode_logical_type_example =
    decode_logical_type-encode_logical_type nested bytes_left nested-IsEncodable nested-Fits

encode_logical_type_prefix_free_example : (nested ≡ nested) × (bytes_left ≡ bytes_left)
encode_logical_type_prefix_free_example =
    encode_logical_type_prefix_free nested nested bytes_left bytes_left nested-IsEncodable
      nested-IsEncodable nested-Fits refl

-- Three values announced and two there.
abbrev wrong_enum : List ℕ
wrong_enum =
    field 200 (uleb 3)
    ++ (field 201 (uleb (length two_strings) ++ concat_map string_bytes two_strings)
        ++ (255 ∷ (255 ∷ [])))

wrong_enum-Fits : Fits 0 wrong_enum
unfolding uleb
wrong_enum-Fits = omega arith

decode_enum_wrong_count_example :
    (decode_enum [] (at 0 wrong_enum)).1.err
    ≡ some (record {
      cause = trailing_bytes 2;
      offset =
          0
          + length (field 200 (uleb 3))
          + length (field 201 (uleb (length two_strings) ++ concat_map string_bytes two_strings));
    })
decode_enum_wrong_count_example =
    decode_enum_wrong_count 3 two_strings [] 0 255 (255 ∷ []) (omega arith) (omega arith)
      two_strings-Short (omega arith) wrong_enum-Fits

-- Bytes that are no type: a field of another number.
abbrev strange : Reader
strange = record { offset = 0; rest = 1 ∷ (2 ∷ (3 ∷ [])); err = none }

decode_logical_type-Within_example :
    Within (length strange.rest + 1) (decode_logical_type strange).1
decode_logical_type-Within_example = decode_logical_type-Within strange refl (omega arith)
