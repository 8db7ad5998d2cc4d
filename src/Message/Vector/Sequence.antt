-- ===== src/Message/Vector/Sequence.antt =====
-- internal/message/vector_codec.go: the rows of a sequence vector, and of a constant one.
use adbc_driver_quack.Base.{
  ℕ, zero, suc, ◌+◌, ◌*◌, ◌%◌, ◌^◌, ◌<◌, ◌≡◌, refl, ap, ◌∙◌, true, none, some, length, get_elem?,
  ◌==◌, if◌then◌else◌, arith, Bool-cases, inl, inr,
}
use adbc_driver_quack.Message.Validity.{validity_is_null}
use adbc_driver_quack.Message.Vector.Shapes.{sequence_loop, sequence_vector}
use adbc_driver_quack.Message.Vector.Types.{
  Host, Object, int32, int64, DecodedVector, typed_vec, object_vec, size, get_object, Kind, int_vec,
  long_vec, boxed,
}
use adbc_driver_quack.Message.Vector.Values.{decode_int64_logical_value}
use adbc_driver_quack.QuackType.Ids.{integer_id, bigint_id}
use adbc_driver_quack.QuackType.Physical.{id_of}
use adbc_driver_quack.QuackType.Types.{LogicalType}

module _ {ℓ} {A : Type ℓ} (f : ℕ → A) (incr : ℕ) where
  length-sequence_loop : (n v : ℕ) → length (sequence_loop f n v incr) ≡ n
  unfolding sequence_loop
  length-sequence_loop zero v = refl
  length-sequence_loop (suc n) v = ap suc (length-sequence_loop n ((v + incr) % 2 ^ 64))

  get_elem?-sequence_loop :
      (n v i : ℕ)
      → i < n
      → v < 2 ^ 64
      → get_elem? (sequence_loop f n v incr) i ≡ some (f ((v + i * incr) % 2 ^ 64))
  unfolding sequence_loop
  get_elem?-sequence_loop zero v i h hv = absurd (omega arith)
  get_elem?-sequence_loop (suc n) v zero h hv = ap (λ x. some (f x)) (omega arith)
  get_elem?-sequence_loop (suc n) v (suc i) h hv =
      get_elem?-sequence_loop n ((v + incr) % 2 ^ 64) i (omega arith) (omega arith)
      ∙ ap (λ x. some (f x)) (omega arith)

-- What a row of a sequence holds: an int32 or an int64, or the value of another logical type.
abbrev pub element : (host : Host) → LogicalType → ℕ → Object host.Rat
element host t v =
    if id_of t == integer_id
    then int32 (v % 2 ^ 32)
    else if id_of t == bigint_id
    then int64 v
    else decode_int64_logical_value host t v

-- The vector is the rows that a list holds, none of them null.
abbrev Holds : {Q : Type 0} → DecodedVector Q → ℕ → (ℕ → Object Q) → Type 0
Holds v count row = (size v ≡ count) × ((i : ℕ) → i < count → get_object v i ≡ some (row i))

module _ {Q : Type 0} (t : LogicalType) (count start incr : ℕ) (h : start < 2 ^ 64) where
  typed_rows :
      (kind : Kind) (f : ℕ → ℕ)
      → Holds {Q = Q}
          (typed_vec kind t (sequence_loop f count start incr) none)
          count
          (λ i. boxed kind (f ((start + i * incr) % 2 ^ 64)))
  unfolding size get_object validity_is_null
  typed_rows kind f = (
    length-sequence_loop f incr count start,
    λ i below. rw (get_elem?-sequence_loop f incr count start i below h, get_object) refl,
  )

  object_rows :
      (f : ℕ → Object Q)
      → Holds
          (object_vec t (sequence_loop f count start incr))
          count
          (λ i. f ((start + i * incr) % 2 ^ 64))
  unfolding size get_object
  object_rows f = (
    length-sequence_loop f incr count start,
    λ i below. get_elem?-sequence_loop f incr count start i below h,
  )

-- A sequence vector has `count` rows, and row `i` holds `start + i * incr` in the arithmetic of
-- int64, as an int32, an int64 or the value of its logical type; it has no null row. `make` gives
-- slices of `count` elements.
pub sequence_vector-rows :
    (host : Host) (t : LogicalType) (count start incr : ℕ)
    → start < 2 ^ 64
    → ((bytes_each : ℕ) → host.can_make bytes_each count ≡ true)
    → (v : DecodedVector host.Rat) × (sequence_vector host t count start incr ≡ some v)
      × (size v ≡ count)
      × ((i : ℕ) → i < count → get_object v i ≡ some (element host t ((start + i * incr) % 2 ^ 64)))
unfolding sequence_vector
sequence_vector-rows host t count start incr h room = elim (Bool-cases (id_of t == integer_id)) [
  | inl integer ↦
      let (l, rows) = typed_rows {Q = host.Rat} t count start incr h int_vec (λ v. v % 2 ^ 32) in
      rw (integer) (_, ground (arith, room 4), l, rows)
  | inr other ↦ elim (Bool-cases (id_of t == bigint_id)) [
    | inl bigint ↦
        let (l, rows) = typed_rows {Q = host.Rat} t count start incr h long_vec (λ v. v) in
        rw (other, bigint) (_, ground (arith, room 8), l, rows)
    | inr rest ↦
        let (l, rows) =
          object_rows t count start incr h (λ v. decode_int64_logical_value host t v) in
        rw (other, rest) (_, ground (arith, room 16), l, rows)
  ]
]
