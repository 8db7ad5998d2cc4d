-- ===== src/Message/Vector/Enums.antt =====
-- internal/message/vector_codec.go and vector_encoder.go: enum values on their way to the wire and back.
use adbc_driver_quack.Base.{
  ℕ, zero, suc, ◌+◌, ◌<◌, ◌≡◌, ◌≢◌, refl, ap, ◌∙◌, some, List, [], ◌∷◌, get_elem?, same_string_self,
  same_string_only, arith,
}
use adbc_driver_quack.Message.Vector.Stored.{index_of, encode_enum_or_int}
use adbc_driver_quack.Message.Vector.Types.{Host, text}
use adbc_driver_quack.Message.Vector.Values.{decode_enum_or_int, enum_value}
use adbc_driver_quack.QuackType.Ids.{enum_id}
use adbc_driver_quack.QuackType.Physical.{get_enum_values}
use adbc_driver_quack.QuackType.Types.{logical_type, enum_info}

index_of-get_elem? :
    (s : List ℕ) (values : List (List ℕ)) (i idx : ℕ)
    → get_elem? values idx ≡ some s
    → ((j : ℕ) → j < idx → get_elem? values j ≢ some s)
    → index_of s values i ≡ some (i + idx)
unfolding index_of
index_of-get_elem? s [] i idx found first = ground arith
index_of-get_elem? s (v ∷ values) i zero found first = ground (arith, same_string_self s)
index_of-get_elem? s (v ∷ values) i (suc idx) found first = ground (
  arith,
  first 0,
  same_string_only v s,
  index_of-get_elem? s values (i + 1) idx found (λ j h. first (suc j) (omega arith)),
)

decode_enum_or_int_text :
    (host : Host) (values : List (List ℕ)) (alias : List ℕ) (idx : ℕ) (s : List ℕ)
    → get_elem? values idx ≡ some s
    → decode_enum_or_int host (logical_type enum_id (enum_info values alias)) idx ≡ text s
unfolding decode_enum_or_int enum_value get_enum_values
decode_enum_or_int_text host values alias idx s found =
    rw (found, decode_enum_or_int, enum_value) refl

encode_enum_or_int_text :
    (host : Host) (values : List (List ℕ)) (alias s : List ℕ)
    → host.sprint (text s) ≡ s
    → encode_enum_or_int host (logical_type enum_id (enum_info values alias)) (text s)
      ≡ index_of s values 0
unfolding encode_enum_or_int get_enum_values
encode_enum_or_int_text host values alias s printed = ap (λ t. index_of t values 0) printed

-- An index that stands for the first place of its string in the values of an ENUM is written again
-- from the string that it is decoded to. `Sprintf("%v", …)` must give a string as it is.
pub encode_enum_or_int-decode_enum_or_int :
    (host : Host) (values : List (List ℕ)) (alias : List ℕ) (idx : ℕ) (s : List ℕ)
    → ((t : List ℕ) → host.sprint (text t) ≡ t)
    → get_elem? values idx ≡ some s
    → ((j : ℕ) → j < idx → get_elem? values j ≢ some s)
    → encode_enum_or_int host
        (logical_type enum_id (enum_info values alias))
        (decode_enum_or_int host (logical_type enum_id (enum_info values alias)) idx)
      ≡ some idx
encode_enum_or_int-decode_enum_or_int host values alias idx s printed found first =
    ap (encode_enum_or_int host (logical_type enum_id (enum_info values alias)))
      (decode_enum_or_int_text host values alias idx s found)
    ∙ encode_enum_or_int_text host values alias s (printed s)
    ∙ index_of-get_elem? s values 0 idx found first
    ∙ ap some (omega arith)
