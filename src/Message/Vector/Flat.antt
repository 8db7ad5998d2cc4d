-- ===== src/Message/Vector/Flat.antt =====
-- internal/message/vector_codec.go: the decoder of flat vectors.
use adbc_driver_quack.Base.{
  ℕ, zero, suc, ◌+◌, ◌-◌, ◌*◌, ◌%◌, ◌^◌, Bool, true, false, not, ◌&&◌, Option, none, some, List, [],
  ◌∷◌, ◌++◌, map, length, get_elem?, replicate, ltb, ◌==◌, if◌then◌else◌,
}
use adbc_driver_quack.Codec.Fault.{panicked}
use adbc_driver_quack.Codec.Reader.{
  R, pure, ◌>>=◌, ◌>>◌, fail, new_binary_reader, at_eof, assert_eof, peek_field_id, read_le,
  read_object, read_required_field, read_bool, read_uleb128_int, read_string, read_list,
}
use adbc_driver_quack.Message.Validity.{
  validity_is_valid, validity_wire_byte_count, validity_from_bytes,
}
use adbc_driver_quack.Message.Vector.Shapes.{made}
use adbc_driver_quack.Message.Vector.Types.{
  Host, Object, nil, row, slice, Objects, no_objects, object_then, RowMap, no_fields, assign,
  DecodedVector, typed_vec, object_vec, Kind, bool_vec, byte_vec, short_vec, int_vec, long_vec,
  float_vec, double_vec, get_object,
}
use adbc_driver_quack.Message.Vector.Values.{
  needs_object_materialization, decode_fixed_value, decode_string_like_value,
}
use adbc_driver_quack.QuackType.Ids.{geometry_id}
use adbc_driver_quack.QuackType.Physical.{
  PhysicalType, byte_width, get_physical_type, get_child_type, get_struct_children, get_array_size,
  id_of,
}
use adbc_driver_quack.QuackType.Types.{LogicalType}

-- A Go panic ends the run, whatever error the reader holds.
unfoldable pub or_panic {ℓ} : {A : Type ℓ} → A → Option A → R A
or_panic zero_value (some a) r = (a, r)
or_panic zero_value none r = (zero_value, fail panicked r.offset r)

-- `r.AssertEOF(); return nil`, when a test says so
unfoldable pub refuse_if {ℓ} : {A : Type ℓ} → Bool → A → A → R A
refuse_if b zero_value a r = if b then (zero_value, assert_eof r) else (a, r)

-- A loop of `count` reads.
unfoldable pub fixed_loop {ℓ} : {A : Type ℓ} → R A → ℕ → R (List A)
fixed_loop read zero = pure []
fixed_loop read (suc n) = do v ← read; vs ← fixed_loop read n; pure (v ∷ vs)

-- `minOne`
abbrev pub min_one : ℕ → ℕ
min_one c = if ltb 0 c && ltb c (2 ^ 63) then 1 else 0

-- `readValidityMask`; the bitmap is nil where its bytes do not fit.
unfoldable pub read_validity_mask : ℕ → R (Option (List ℕ))
unfolding refuse_if validity_wire_byte_count validity_from_bytes
read_validity_mask count = do
  bytes ← read_string
  refuse_if (not (length bytes == validity_wire_byte_count count)) none
      (some (validity_from_bytes bytes count))

-- `readSelectionVector`: the patterns of int32 values.
unfoldable pub read_selection_vector : ℕ → R (List ℕ)
unfolding refuse_if fixed_loop
read_selection_vector count = do
  bytes ← read_string
  refuse_if (not (length bytes == count * 4 % 2 ^ 64)) []
      (fixed_loop (read_le 4) count (new_binary_reader bytes)).0

-- `listEntry`, its offset and its length; `readListEntries`
unfoldable pub read_list_entry : R (ℕ × ℕ)
read_list_entry =
    read_object (0, 0)
      do
        offset ← read_required_field 0 100 read_uleb128_int
        length ← read_required_field 0 101 read_uleb128_int
        pure (offset, length)

unfoldable pub read_list_entries : ℕ → R (List (ℕ × ℕ))
unfolding read_list_entry refuse_if
read_list_entries count = do
  entries ← read_list (λ i. read_list_entry)
  refuse_if (not (length entries == count)) [] entries

-- The validity of a flat vector, behind its flag.
unfoldable pub read_validity : ℕ → R (Option (List ℕ))
unfolding read_validity_mask
read_validity count = do
  has_validity ← read_required_field false 100 read_bool
  if has_validity then read_required_field none 101 (read_validity_mask count) else pure none

-- The version that a geometry may carry.
unfoldable pub skip_geometry_version : LogicalType → R (Unit {0})
skip_geometry_version t r =
    if id_of t == geometry_id && not (at_eof r)
    then (let (id, r') = peek_field_id r in
        if id == 99
        then (read_required_field 0 99 read_uleb128_int >>= λ _. pure tt) r'
        else (tt, r'))
    else (tt, r)

module _ (host : Host) where
  open host use {Rat, can_make}

  abbrev pub Vector : Type 0
  Vector = Option (DecodedVector Rat)

  -- Values from row `i` on, those of null rows nil.
  unfoldable pub masked : Option (List ℕ) → ℕ → List (Object Rat) → Option (List (Object Rat))
  unfolding validity_is_valid
  masked validity i [] = some []
  masked validity i (v ∷ vs) = elim (validity_is_valid validity i) [
    | none ↦ none
    | some valid ↦ elim (masked validity (i + 1) vs) [
      | none ↦ none
      | some ws ↦ some ((if valid then v else nil) ∷ ws)
    ]
  ]

  unfoldable pub masked_vec : LogicalType → Option (List ℕ) → List (Object Rat) → Option Vector
  unfolding masked
  masked_vec t validity values = elim (masked validity 0 values) [
    | none ↦ none
    | some vs ↦ some (some (object_vec t vs))
  ]

  -- One case of the last switch of `decodeFixedFlatVector`.
  unfoldable pub decode_typed :
      Kind → ℕ → LogicalType → R ℕ → List ℕ → ℕ → Option (List ℕ) → Option Vector
  unfolding fixed_loop made
  decode_typed kind bytes_each t read bytes count validity =
      made host bytes_each count
        (some (typed_vec kind t (fixed_loop read count (new_binary_reader bytes)).0 validity))

  -- `rr.ReadFixedUint8() != 0`
  unfoldable pub read_flag : R ℕ
  read_flag = do v ← read_le 1; pure (if v == 0 then 0 else 1)

  unfoldable pub decode_primitives :
      LogicalType → PhysicalType → List ℕ → ℕ → Option (List ℕ) → Option Vector
  unfolding decode_typed read_flag
  decode_primitives t PhysicalType.bool bs = decode_typed bool_vec 1 t read_flag bs
  decode_primitives t PhysicalType.int8 bs = decode_typed byte_vec 1 t (read_le 1) bs
  decode_primitives t PhysicalType.uint8 bs = decode_typed short_vec 2 t (read_le 1) bs
  decode_primitives t PhysicalType.int16 bs = decode_typed short_vec 2 t (read_le 2) bs
  decode_primitives t PhysicalType.uint16 bs = decode_typed int_vec 4 t (read_le 2) bs
  decode_primitives t PhysicalType.int32 bs = decode_typed int_vec 4 t (read_le 4) bs
  decode_primitives t PhysicalType.uint32 bs = decode_typed long_vec 8 t (read_le 4) bs
  decode_primitives t PhysicalType.int64 bs = decode_typed long_vec 8 t (read_le 8) bs
  decode_primitives t PhysicalType.uint64 bs = decode_typed long_vec 8 t (read_le 8) bs
  decode_primitives t PhysicalType.float bs = decode_typed float_vec 4 t (read_le 4) bs
  decode_primitives t PhysicalType.double bs = decode_typed double_vec 8 t (read_le 8) bs
  decode_primitives t _ bs =
      λ count validity. made host 16 count (some (object_vec t (replicate count nil)))

  -- `decodeFixedFlatVector`
  unfoldable pub decode_fixed_flat_vector :
      LogicalType → PhysicalType → List ℕ → ℕ → Option (List ℕ) → Option Vector
  unfolding masked_vec fixed_loop decode_primitives
  decode_fixed_flat_vector t physical bytes count validity =
      if needs_object_materialization t physical
      then elim (can_make 16 count) [
        | false ↦ none
        | true ↦
            masked_vec t validity
              (fixed_loop (decode_fixed_value host t physical) count (new_binary_reader bytes)).0
      ]
      else decode_primitives t physical bytes count validity

  -- `vec.GetObject(row)` on a vector that may be a nil interface
  unfoldable pub object_of : Vector → ℕ → Option (Object Rat)
  unfolding get_object
  object_of none i = none
  object_of (some v) i = get_object v i

  -- `count` rows from row `i` on: nil where the row is null, or else what `value` makes of it.
  unfoldable pub rows :
      (ℕ → Option (Object Rat)) → Option (List ℕ) → ℕ → ℕ → Option (List (Object Rat))
  unfolding validity_is_valid
  rows value validity zero i = some []
  rows value validity (suc n) i =
      let rest = rows value validity n (i + 1) in
      elim (validity_is_valid validity i) [
        | none ↦ none
        | some valid ↦ elim (if valid then value i else some nil) [
          | none ↦ none
          | some v ↦ elim rest [ none ↦ none | some vs ↦ some (v ∷ vs) ]
        ]
      ]

  -- The fields of a row of a struct, in the order of the children; `acc` has those before.
  unfoldable pub row_map :
      List (List ℕ × LogicalType) → List Vector → ℕ → RowMap Rat → Option (RowMap Rat)
  unfolding get_object
  row_map [] vecs i acc = some acc
  row_map (c ∷ children) [] i acc = some acc
  row_map (c ∷ children) (none ∷ vecs) i acc = row_map children vecs i acc
  row_map ((name, t) ∷ children) (some vec ∷ vecs) i acc = elim (get_object vec i) [
    | none ↦ none
    | some v ↦ row_map children vecs i (assign name v acc)
  ]

  -- `slice[k] = childVec.GetObject(off + k)` for `n` indices from `i` on
  unfoldable pub slice_from : Vector → ℕ → ℕ → Option (Objects Rat)
  unfolding object_of
  slice_from vec zero i = some no_objects
  slice_from vec (suc n) i =
      let rest = slice_from vec n ((i + 1) % 2 ^ 64) in
      elim (object_of vec i) [
        | none ↦ none
        | some v ↦ elim rest [ none ↦ none | some vs ↦ some (object_then v vs) ]
      ]

  unfoldable pub slice_of : Vector → ℕ → ℕ → Option (Object Rat)
  unfolding slice_from
  slice_of vec offset n = elim (can_make 16 n) [
    | false ↦ none
    | true ↦ elim (slice_from vec n offset) [ none ↦ none | some vs ↦ some (slice vs) ]
  ]

  -- The rows of `count` objects as a vector.
  unfoldable pub rows_vec :
      LogicalType → Option (List ℕ) → ℕ → ℕ → (ℕ → Option (Object Rat)) → R Vector
  unfolding rows or_panic
  rows_vec t validity count n value = or_panic none (elim (can_make 16 count) [
    | false ↦ none
    | true ↦ elim (rows value validity n 0) [
      | none ↦ none
      | some vs ↦ some (some (object_vec t (vs ++ replicate (count - n) nil)))
    ]
  ])

  -- What a list entry of a row stands for.
  unfoldable pub entry_slice : Vector → List (ℕ × ℕ) → ℕ → Option (Object Rat)
  unfolding slice_of
  entry_slice vec entries i = elim (get_elem? entries i) [
    | none ↦ none
    | some (offset, n) ↦ slice_of vec offset n
  ]

  -- `r.AssertEOF(); return nil`
  unfoldable pub refuse : R Vector
  refuse r = (none, assert_eof r)

  -- The cases of `decodeFlatVector`, with `DecodeVector` as an argument.
  module _ (vector : LogicalType → ℕ → R Vector) where
    unfoldable pub decode_constant_size : LogicalType → ℕ → ℕ → Option (List ℕ) → R Vector
    unfolding decode_fixed_flat_vector refuse or_panic
    decode_constant_size t count width validity = do
      bytes ← read_required_field [] 102 read_string
      if not (length bytes == width * count % 2 ^ 64)
          then refuse
          else or_panic none (decode_fixed_flat_vector t (get_physical_type t) bytes count validity)

    unfoldable pub decode_varchar_vec : LogicalType → Option (List ℕ) → R Vector
    unfolding masked_vec or_panic
    decode_varchar_vec t validity = do
      raw ← read_required_field [] 102 (read_list (λ i. read_string))
      or_panic none (masked_vec t validity (map (decode_string_like_value host t) raw))

    unfoldable pub decode_struct_vec : LogicalType → ℕ → Option (List ℕ) → R Vector
    unfolding rows_vec row_map refuse
    decode_struct_vec t count validity = do
      let children = get_struct_children t
      vecs ← read_required_field [] 103 (
          read_list
            (λ i. elim (get_elem? children i) [ none ↦ refuse | some c ↦ vector c.1 count ]))
      rows_vec t validity count count
          (λ i. elim (row_map children vecs i no_fields) [ none ↦ none | some m ↦ some (row m) ])

    unfoldable pub decode_list_vec : LogicalType → ℕ → Option (List ℕ) → R Vector
    unfolding rows_vec entry_slice read_list_entries
    decode_list_vec t count validity = do
      list_size ← read_required_field 0 104 read_uleb128_int
      entries ← read_required_field [] 105 (read_list_entries count)
      vec ← read_required_field none 106 (vector (get_child_type t) list_size)
      rows_vec t validity count (length entries) (entry_slice vec entries)

    unfoldable pub decode_array_vec : LogicalType → ℕ → Option (List ℕ) → R Vector
    unfolding rows_vec slice_of refuse
    decode_array_vec t count validity = do
      arr_size ← read_required_field 0 103 read_uleb128_int
      if not (arr_size == get_array_size t)
          then refuse
          else (read_required_field none 104 (vector (get_child_type t) (arr_size * count % 2 ^ 64))
              >>= λ vec.
                  rows_vec t validity count count
                    (λ i. slice_of vec (i * arr_size % 2 ^ 64) arr_size))

    -- The switch of `decodeFlatVector` on a physical type without a constant size.
    unfoldable pub decode_variable : PhysicalType → LogicalType → ℕ → Option (List ℕ) → R Vector
    unfolding decode_varchar_vec decode_struct_vec decode_list_vec decode_array_vec refuse
    decode_variable PhysicalType.varchar t count = decode_varchar_vec t
    decode_variable PhysicalType.struct t count = decode_struct_vec t count
    decode_variable PhysicalType.list t count = decode_list_vec t count
    decode_variable PhysicalType.array_storage t count = decode_array_vec t count
    decode_variable _ t count = λ validity. refuse

    -- `decodeFlatVector`
    unfoldable pub decode_flat_vector : LogicalType → ℕ → R Vector
    unfolding skip_geometry_version read_validity decode_constant_size decode_variable
    decode_flat_vector t count = do
      skip_geometry_version t
      validity ← read_validity count
      elim (byte_width (get_physical_type t)) [
        | some width ↦ decode_constant_size t count width validity
        | none ↦ decode_variable (get_physical_type t) t count validity
      ]
