-- ===== src/Driver/Ingest/Chunk.antt =====
-- driver/quack/bulk_ingest.go: the data chunk of a record.
use adbc_driver_quack.Base.{
  ℕ, zero, suc, ◌+◌, Bool, true, false, Option, none, some, List, [], ◌∷◌, map, ◌⊎◌, inl, inr, ◌==◌,
  if◌then◌else◌,
}
use adbc_driver_quack.Driver.Ingest.Arrow.{
  Primitive, boolean, int8, int16, int32, int64, uint8, uint16, uint32, uint64, float32, float64,
  Field, ArrowArray, primitives, strings, binaries, decimals, other_array, ArrowRecord,
  logical_type_for_arrow, null_flags, count_nulls,
}
use adbc_driver_quack.Message.Validity.{validity_all_valid, validity_set_null}
use adbc_driver_quack.Message.Vector.Types.{
  Kind, bool_vec, byte_vec, short_vec, int_vec, long_vec, float_vec, double_vec, Object, nil, text,
  blob, big_int, DecodedVector, typed_vec, object_vec, DataChunk,
}
use adbc_driver_quack.QuackType.Types.{LogicalType}

-- The loop of `buildValidity` from row `i` on; none is the panic of an index out of range.
unfoldable pub set_nulls : ℕ → List Bool → List ℕ → Option (List ℕ)
set_nulls i [] validity = some validity
set_nulls i (true ∷ flags) validity = elim (validity_set_null validity i) [
  | none ↦ none
  | some validity' ↦ set_nulls (i + 1) flags validity'
]
set_nulls i (false ∷ flags) validity = set_nulls (i + 1) flags validity

-- The rows from 0 to `n` of an array; none is the panic of an index out of range.
unfoldable pub first_rows : {A : Type 0} → ℕ → List A → Option (List A)
first_rows zero xs = some []
first_rows (suc n) [] = none
first_rows (suc n) (x ∷ xs) = elim (first_rows n xs) [ none ↦ none | some ys ↦ some (x ∷ ys) ]

-- `buildValidity`
unfoldable pub build_validity : ArrowArray → ℕ → Option (Option (List ℕ))
unfolding set_nulls first_rows
build_validity col row_count =
    let flags = null_flags col in
    if count_nulls flags == 0 then some none else elim (first_rows row_count flags) [
      | none ↦ none
      | some rows ↦ elim (set_nulls 0 rows (validity_all_valid row_count)) [
        | none ↦ none
        | some validity ↦ some (some validity)
      ]
    ]

-- The vector for an array: an unsigned array goes to the next wider signed vector, and uint64 to int64,
-- by conversions that keep the bits.
unfoldable pub vector_kind : Primitive → Kind
vector_kind boolean = bool_vec
vector_kind int8 = byte_vec
vector_kind int16 = short_vec
vector_kind int32 = int_vec
vector_kind int64 = long_vec
vector_kind uint8 = short_vec
vector_kind uint16 = int_vec
vector_kind uint32 = long_vec
vector_kind uint64 = long_vec
vector_kind float32 = float_vec
vector_kind float64 = double_vec

-- `if !arr.IsNull(i) { vs[i] = arr.Value(i) }` on the zeros of `make`
unfoldable pub word_or_zero : Option ℕ → ℕ
word_or_zero none = 0
word_or_zero (some v) = v

unfoldable pub object_or_nil : {A Q : Type 0} → (A → Object Q) → Option A → Object Q
object_or_nil f none = nil
object_or_nil f (some v) = f v

-- What conversion reports, one constructor for each text, and a panic.
pub data ChunkError : Type 0 where
  unsupported_arrow_type : List ℕ → ChunkError
  unsupported_array : List ℕ → ChunkError
  row_panic : ChunkError

module _ {Q : Type 0} where
  -- What is made of the rows of an array.
  abbrev pub made_of :
      {A : Type 0} → (List A → DecodedVector Q) → Option (List A) → ChunkError ⊎ DecodedVector Q
  made_of f none = inl row_panic
  made_of f (some rows) = inr (f rows)

  -- The switch of `decodedVectorForArrow`, behind `buildValidity`, with the name of the column for its
  -- error.
  unfoldable pub vector_of :
      List ℕ → LogicalType → ArrowArray → ℕ → Option (List ℕ) → ChunkError ⊎ DecodedVector Q
  unfolding vector_kind word_or_zero object_or_nil first_rows
  vector_of name t (primitives p vs) row_count validity =
      made_of (λ rows. typed_vec (vector_kind p) t (map word_or_zero rows) validity)
        (first_rows row_count vs)
  vector_of name t (strings vs) row_count validity =
      made_of (λ rows. object_vec t (map (object_or_nil text) rows)) (first_rows row_count vs)
  vector_of name t (binaries vs) row_count validity =
      made_of (λ rows. object_vec t (map (object_or_nil blob) rows)) (first_rows row_count vs)
  vector_of name t (decimals vs) row_count validity =
      made_of (λ rows. object_vec t (map (object_or_nil big_int) rows)) (first_rows row_count vs)
  vector_of name t (other_array flags) row_count validity = inl (unsupported_array name)

  -- `decodedVectorForArrow`
  unfoldable pub decoded_vector_for_arrow :
      List ℕ → LogicalType → ArrowArray → ℕ → ChunkError ⊎ DecodedVector Q
  unfolding build_validity vector_of
  decoded_vector_for_arrow name t col row_count = elim (build_validity col row_count) [
    | none ↦ inl row_panic
    | some validity ↦ vector_of name t col row_count validity
  ]

  -- The loop of `chunkFromRecord` over the fields and their columns.
  unfoldable pub columns_from :
      ℕ
      → List Field
      → List ArrowArray
      → ChunkError ⊎ (List LogicalType × List (Option (DecodedVector Q)))
  columns_from row_count [] cols = inr ([], [])
  columns_from row_count (f ∷ fields) [] = inl row_panic
  columns_from row_count (f ∷ fields) (col ∷ cols) =
      let rest = columns_from row_count fields cols in
      elim (logical_type_for_arrow f.type) [
        | none ↦ inl (unsupported_arrow_type f.name)
        | some t ↦ elim (decoded_vector_for_arrow f.name t col row_count) [
          | inl e ↦ inl e
          | inr v ↦ elim rest [ inl e ↦ inl e | inr (types, vs) ↦ inr (t ∷ types, some v ∷ vs) ]
        ]
      ]

  -- `chunkFromRecord`
  unfoldable pub chunk_from_record : ArrowRecord → ChunkError ⊎ DataChunk Q
  unfolding columns_from
  chunk_from_record rec = elim (columns_from rec.num_rows rec.fields rec.columns) [
    | inl e ↦ inl e
    | inr (types, vs) ↦ inr (record { row_count = rec.num_rows; types = types; columns = vs })
  ]
