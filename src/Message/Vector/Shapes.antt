-- ===== src/Message/Vector/Shapes.antt =====
-- internal/message/vector_codec.go: vectors that are computed from a value, from a dictionary or
-- from a sequence. `none` where Go panics.
use adbc_driver_quack.Base.{
  ℕ, zero, suc, ◌+◌, ◌%◌, ◌^◌, true, false, not, ◌||◌, Option, none, some, List, [], ◌∷◌, length,
  get_elem?, replicate, ◌==◌, if◌then◌else◌,
}
use adbc_driver_quack.Message.Validity.{
  validity_is_null, validity_all_valid, validity_set_null, validity_word_count,
}
use adbc_driver_quack.Message.Vector.Types.{
  Host, Object, nil, DecodedVector, typed_vec, object_vec, Kind, bool_vec, byte_vec, short_vec,
  int_vec, long_vec, float_vec, double_vec, get_object, is_nil_object,
}
use adbc_driver_quack.Message.Vector.Values.{
  needs_object_materialization, decode_int64_logical_value, to_bool, to_int64, to_float64,
  sign_extend,
}
use adbc_driver_quack.QuackType.Ids.{integer_id, bigint_id}
use adbc_driver_quack.QuackType.Physical.{PhysicalType, is_constant_size, get_physical_type, id_of}
use adbc_driver_quack.QuackType.Types.{LogicalType}

-- `int(idx)` of an int32
abbrev pub index : ℕ → ℕ
index idx = sign_extend 32 64 idx

-- `if validity == nil { validity = ValidityAllValid(count) }`
abbrev pub or_all_valid : ℕ → Option (List ℕ) → List ℕ
or_all_valid count none = validity_all_valid count
or_all_valid count (some words) = words

-- The loop of `projectVector` over a typed vector from row `i` on.
unfoldable pub project_loop :
    List ℕ → Option (List ℕ) → ℕ → ℕ → List ℕ → Option (List ℕ) → Option (List ℕ × Option (List ℕ))
project_loop values nulls count i [] validity = some ([], validity)
project_loop values nulls count i (idx ∷ selection) validity =
    elim (validity_is_null nulls (index idx)) [
      | none ↦ none
      | some true ↦ elim (validity_set_null (or_all_valid count validity) i) [
        | none ↦ none
        | some words ↦ elim (project_loop values nulls count (i + 1) selection (some words)) [
          | none ↦ none
          | some (arr, validity') ↦ some (0 ∷ arr, validity')
        ]
      ]
      | some false ↦ elim (get_elem? values (index idx)) [
        | none ↦ none
        | some v ↦ elim (project_loop values nulls count (i + 1) selection validity) [
          | none ↦ none
          | some (arr, validity') ↦ some (v ∷ arr, validity')
        ]
      ]
    ]

-- The loops of `sequenceVector`: `f(v)`, then `v += incr`.
unfoldable pub sequence_loop {ℓ} : {A : Type ℓ} → (ℕ → A) → ℕ → ℕ → ℕ → List A
sequence_loop f zero v incr = []
sequence_loop f (suc n) v incr = f v ∷ sequence_loop f n ((v + incr) % 2 ^ 64) incr

module _ (host : Host) where
  open host use {Rat, can_make, narrow}

  abbrev Vector : Type 0
  Vector = Option (DecodedVector Rat)

  -- A slice of `n` elements of `bytes_each` byte_vec, or the panic of `make`.
  unfoldable pub made {ℓ} : {A : Type ℓ} → ℕ → ℕ → A → Option A
  made bytes_each n result = if can_make bytes_each n then some result else none

  -- The vectors of `count` equal values, one for each physical type.
  unfoldable pub filled : LogicalType → Kind → ℕ → ℕ → ℕ → Option (List ℕ) → Vector
  unfolding made
  filled t kind bytes_each count v validity =
      made bytes_each count (typed_vec kind t (replicate count v) validity)

  unfoldable pub filled_objects : LogicalType → ℕ → Object Rat → Vector
  unfolding made
  filled_objects t count value = made 16 count (object_vec t (replicate count value))

  -- `zeroFilledPrimitiveVector`
  unfoldable pub zero_filled_primitive_vector :
      LogicalType → PhysicalType → ℕ → Option (List ℕ) → Vector
  unfolding filled filled_objects
  zero_filled_primitive_vector t PhysicalType.bool count validity =
      filled t bool_vec 1 count 0 validity
  zero_filled_primitive_vector t PhysicalType.int8 count validity =
      filled t byte_vec 1 count 0 validity
  zero_filled_primitive_vector t PhysicalType.uint8 count validity =
      filled t short_vec 2 count 0 validity
  zero_filled_primitive_vector t PhysicalType.int16 count validity =
      filled t short_vec 2 count 0 validity
  zero_filled_primitive_vector t PhysicalType.uint16 count validity =
      filled t int_vec 4 count 0 validity
  zero_filled_primitive_vector t PhysicalType.int32 count validity =
      filled t int_vec 4 count 0 validity
  zero_filled_primitive_vector t PhysicalType.uint32 count validity =
      filled t long_vec 8 count 0 validity
  zero_filled_primitive_vector t PhysicalType.int64 count validity =
      filled t long_vec 8 count 0 validity
  zero_filled_primitive_vector t PhysicalType.uint64 count validity =
      filled t long_vec 8 count 0 validity
  zero_filled_primitive_vector t PhysicalType.float count validity =
      filled t float_vec 4 count 0 validity
  zero_filled_primitive_vector t PhysicalType.double count validity =
      filled t double_vec 8 count 0 validity
  zero_filled_primitive_vector t _ count validity = filled_objects t count nil

  -- The last switch of `broadcastValue`.
  unfoldable pub broadcast_primitive : LogicalType → PhysicalType → Object Rat → ℕ → Vector
  unfolding filled filled_objects to_bool to_int64 to_float64
  broadcast_primitive t PhysicalType.bool value count =
      filled t bool_vec 1 count (if to_bool host value then 1 else 0) none
  broadcast_primitive t PhysicalType.int8 value count =
      filled t byte_vec 1 count (to_int64 host value % 2 ^ 8) none
  broadcast_primitive t PhysicalType.uint8 value count =
      filled t short_vec 2 count (to_int64 host value % 2 ^ 16) none
  broadcast_primitive t PhysicalType.int16 value count =
      filled t short_vec 2 count (to_int64 host value % 2 ^ 16) none
  broadcast_primitive t PhysicalType.uint16 value count =
      filled t int_vec 4 count (to_int64 host value % 2 ^ 32) none
  broadcast_primitive t PhysicalType.int32 value count =
      filled t int_vec 4 count (to_int64 host value % 2 ^ 32) none
  broadcast_primitive t PhysicalType.uint32 value count =
      filled t long_vec 8 count (to_int64 host value) none
  broadcast_primitive t PhysicalType.int64 value count =
      filled t long_vec 8 count (to_int64 host value) none
  broadcast_primitive t PhysicalType.uint64 value count =
      filled t long_vec 8 count (to_int64 host value) none
  broadcast_primitive t PhysicalType.float value count =
      filled t float_vec 4 count (narrow (to_float64 host value)) none
  broadcast_primitive t PhysicalType.double value count =
      filled t double_vec 8 count (to_float64 host value) none
  broadcast_primitive t _ value count = filled_objects t count value

  -- `broadcastValue`
  unfoldable pub broadcast_value : LogicalType → Object Rat → ℕ → Vector
  unfolding filled_objects zero_filled_primitive_vector broadcast_primitive made validity_word_count
  broadcast_value t value count =
      let physical = get_physical_type t in
      if needs_object_materialization t physical || not (is_constant_size physical)
      then filled_objects t count value
      else if is_nil_object value
      then elim (can_make 8 (validity_word_count count)) [
        | false ↦ none
        | true ↦
            zero_filled_primitive_vector t physical count
              (some (replicate (validity_word_count count) 0))
      ]
      else broadcast_primitive t physical value count

  -- The loop of `projectVector` over any other vector, a nil one included.
  unfoldable pub project_objects : Vector → List ℕ → Option (List (Object Rat))
  unfolding get_object
  project_objects dict [] = some []
  project_objects none (idx ∷ selection) = none
  project_objects (some d) (idx ∷ selection) = elim (get_object d (index idx)) [
    | none ↦ none
    | some v ↦ elim (project_objects (some d) selection) [ none ↦ none | some vs ↦ some (v ∷ vs) ]
  ]

  -- `projectVector`; the slices that it makes are no longer than the selection, which exists.
  unfoldable pub project_vector : LogicalType → Vector → List ℕ → Vector
  unfolding project_loop project_objects
  project_vector t (some (typed_vec kind u values nulls)) selection =
      elim (project_loop values nulls (length selection) 0 selection none) [
        | none ↦ none
        | some (arr, validity) ↦ some (typed_vec kind t arr validity)
      ]
  project_vector t dict selection = elim (project_objects dict selection) [
    | none ↦ none
    | some values ↦ some (object_vec t values)
  ]

  -- `sequenceVector`
  unfoldable pub sequence_vector : LogicalType → ℕ → ℕ → ℕ → Vector
  unfolding sequence_loop made
  sequence_vector t count start incr =
      if id_of t == integer_id
      then made 4 count
          (typed_vec int_vec t (sequence_loop (λ v. v % 2 ^ 32) count start incr) none)
      else if id_of t == bigint_id
      then made 8 count (typed_vec long_vec t (sequence_loop (λ v. v) count start incr) none)
      else made 16 count
          (object_vec t (sequence_loop (λ v. decode_int64_logical_value host t v) count start incr))
