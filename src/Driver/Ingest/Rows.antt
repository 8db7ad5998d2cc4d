-- ===== src/Driver/Ingest/Rows.antt =====
-- driver/quack/bulk_ingest.go: the rows of a converted column.
use adbc_driver_quack.Base.{
  ℕ, zero, suc, ◌+◌, ◌^◌, ◌≤◌, ◌<◌, ◌≡◌, refl, ap, sym, ◌∙◌, Bool, true, false, Bool-cases, not,
  Option, none, some, is_some, List, [], ◌∷◌, map, length, get_elem?, inl, inr, ◌==◌, if◌then◌else◌,
  arith,
}
use adbc_driver_quack.Driver.Ingest.Arrow.{
  Primitive, boolean, int8, int16, int32, int64, uint8, uint16, uint32, uint64, float32, float64,
  ArrowArray, primitives, strings, binaries, decimals, other_array, null_flags, count_nulls,
}
use adbc_driver_quack.Driver.Ingest.Chunk.{
  first_rows, set_nulls, build_validity, vector_kind, word_or_zero, object_or_nil, vector_of,
  decoded_vector_for_arrow,
}
use adbc_driver_quack.Message.Validity.{validity_all_valid, validity_is_null, validity_is_valid}
use adbc_driver_quack.Message.Validity.Rows.{
  Represents, validity_set_null-Represents, validity_all_valid-Represents,
}
use adbc_driver_quack.Message.Vector.Types.{
  Object, bool, nil, int8 as go_int8, int16 as go_int16, int32 as go_int32, int64 as go_int64,
  float32 as go_float32, float64 as go_float64, text, blob, big_int, boxed, DecodedVector,
  typed_vec, object_vec, get_object,
}
use adbc_driver_quack.QuackType.Types.{LogicalType}

-- The view of a bitmap after rows from `i` on were set null by their flags.
marked : ℕ → List Bool → (ℕ → Bool) → ℕ → Bool
marked i [] f = f
marked i (true ∷ flags) f = marked (i + 1) flags (λ j. if j == i then false else f j)
marked i (false ∷ flags) f = marked (i + 1) flags f

marked_before :
    (i : ℕ) (flags : List Bool) (f : ℕ → Bool) (j : ℕ) → j < i → marked i flags f j ≡ f j
unfolding marked
marked_before i [] f j h = refl
marked_before i (true ∷ flags) f j h =
    marked_before (i + 1) flags (λ j'. if j' == i then false else f j') j (omega arith)
    ∙ ground arith
marked_before i (false ∷ flags) f j h = marked_before (i + 1) flags f j (omega arith)

shift : (i k : ℕ) → i + suc k ≡ i + 1 + k
shift i k = omega arith

marked_at :
    (i k : ℕ) (flags : List Bool) (f : ℕ → Bool) (b : Bool)
    → get_elem? flags k ≡ some b
    → marked i flags f (i + k) ≡ (if b then false else f (i + k))
unfolding marked
marked_at i k [] f b h = absurd (ground (arith, h))
marked_at i zero (true ∷ flags) f b h =
    marked_before (i + 1) flags (λ j. if j == i then false else f j) (i + 0) (omega arith)
    ∙ ground (arith, h)
marked_at i zero (false ∷ flags) f b h =
    marked_before (i + 1) flags f (i + 0) (omega arith) ∙ ground (arith, h)
marked_at i (suc k) (true ∷ flags) f b h =
    ap (marked (i + 1) flags (λ j. if j == i then false else f j)) (shift i k)
    ∙ marked_at (i + 1) k flags (λ j. if j == i then false else f j) b h
    ∙ ground (arith, ap f (shift i k))
marked_at i (suc k) (false ∷ flags) f b h =
    ap (marked (i + 1) flags f) (shift i k)
    ∙ marked_at (i + 1) k flags f b h
    ∙ ground (arith, ap f (shift i k))

set_nulls-Represents :
    (count i : ℕ) (flags : List Bool) (words : List ℕ) (f : ℕ → Bool)
    → i + length flags ≤ count
    → Represents words count f
    → (words' : List ℕ) × (set_nulls i flags words ≡ some words')
      × Represents words' count (marked i flags f)
unfolding set_nulls marked
set_nulls-Represents count i [] words f h rep = (words, refl, rep)
set_nulls-Represents count i (true ∷ flags) words f h rep =
    let (w1, e1, rep1) = validity_set_null-Represents words count i f (omega arith) rep in
    let (w2, e2, rep2) =
      set_nulls-Represents count (i + 1) flags w1 (λ j. if j == i then false else f j) (omega arith)
        rep1 in
    (w2, rw (e1, set_nulls) e2, rep2)
set_nulls-Represents count i (false ∷ flags) words f h rep =
    set_nulls-Represents count (i + 1) flags words f (omega arith) rep

no_nulls :
    (flags : List Bool) (k : ℕ) (b : Bool)
    → count_nulls flags == 0 ≡ true
    → get_elem? flags k ≡ some b
    → b ≡ false
unfolding count_nulls
no_nulls [] k b none_null h = absurd (ground (arith, h))
no_nulls (true ∷ flags) k b none_null h = absurd (ground (arith, none_null))
no_nulls (false ∷ flags) zero b none_null h = ground (arith, h)
no_nulls (false ∷ flags) (suc k) b none_null h = no_nulls flags k b none_null h

null_of :
    (col : ArrowArray) (count : ℕ) (words : List ℕ)
    → Represents words count (marked 0 (null_flags col) (λ j. true))
    → (k : ℕ) (b : Bool) → get_elem? (null_flags col) k ≡ some b
    → k < count
    → validity_is_null (some words) k ≡ some b
unfolding validity_is_null
null_of col count words rep k b at lt =
    ap (λ v. elim v as (λ _. Option Bool) [ none ↦ none | some v' ↦ some (not v') ])
      (rep.row_of k lt)
    ∙ ap (λ j. some (not (marked 0 (null_flags col) (λ j'. true) j))) (omega arith)
    ∙ ap (λ v. some (not v)) (marked_at 0 k (null_flags col) (λ j. true) b at)
    ∙ ground arith

first_rows-all : {A : Type 0} (n : ℕ) (xs : List A) → length xs ≡ n → first_rows n xs ≡ some xs
unfolding first_rows
first_rows-all zero [] h = refl
first_rows-all zero (x ∷ xs) h = absurd (omega (arith, h))
first_rows-all (suc n) [] h = absurd (omega (arith, h))
first_rows-all (suc n) (x ∷ xs) h = rw (first_rows-all n xs (omega (arith, h)), first_rows) refl

-- The bitmap of a column says of each row whether it is null.
build_validity-null :
    (col : ArrowArray) (count : ℕ)
    → count < 2 ^ 63
    → length (null_flags col) ≡ count
    → (validity : Option (List ℕ)) × (build_validity col count ≡ some validity)
      × ((k : ℕ) (b : Bool)
          → get_elem? (null_flags col) k ≡ some b
          → k < count
          → validity_is_null validity k ≡ some b)
unfolding build_validity validity_is_null validity_is_valid
build_validity-null col count h size = elim (Bool-cases (count_nulls (null_flags col) == 0)) [
  | inl all ↦ rw all (none, refl, λ k b at lt. ap some (sym (no_nulls (null_flags col) k b all at)))
  | inr some_null ↦
      let (words, e, rep) =
        set_nulls-Represents count 0 (null_flags col) (validity_all_valid count) (λ j. true)
          (omega arith) (validity_all_valid-Represents count h) in
      (
        some words,
        rw (some_null, first_rows-all count (null_flags col) size, e) refl,
        λ k b at lt. null_of col count words rep k b at lt,
      )
]

-- What a vector gives for a row of an array, in Go's types, whatever vector it is in: nil for a null; a
-- number of the array's type, where an unsigned one is a signed one of the next wider type with the
-- same value. A number is its bit pattern; a uint64 is an int64 of the same bits.
unfoldable pub arrow_number : {Q : Type 0} → Primitive → ℕ → Object Q
arrow_number boolean w = bool (not (w == 0))
arrow_number int8 w = go_int8 w
arrow_number int16 w = go_int16 w
arrow_number int32 w = go_int32 w
arrow_number int64 w = go_int64 w
arrow_number uint8 w = go_int16 w
arrow_number uint16 w = go_int32 w
arrow_number uint32 w = go_int64 w
arrow_number uint64 w = go_int64 w
arrow_number float32 w = go_float32 w
arrow_number float64 w = go_float64 w

abbrev row_of : {A Q : Type 0} → (A → Object Q) → List (Option A) → ℕ → Option (Object Q)
row_of f vs j = elim (get_elem? vs j) [
  | none ↦ none
  | some none ↦ some nil
  | some (some v) ↦ some (f v)
]

unfoldable pub object_at : {Q : Type 0} → ArrowArray → ℕ → Option (Object Q)
unfolding arrow_number
object_at (primitives p vs) j = row_of (arrow_number p) vs j
object_at (strings vs) j = row_of text vs j
object_at (binaries vs) j = row_of blob vs j
object_at (decimals vs) j = row_of big_int vs j
object_at (other_array flags) j = none

arrow_number-boxed :
    {Q : Type 0} (p : Primitive) (w : ℕ) → boxed {Q = Q} (vector_kind p) w ≡ arrow_number p w
unfolding vector_kind arrow_number
arrow_number-boxed boolean w = refl
arrow_number-boxed int8 w = refl
arrow_number-boxed int16 w = refl
arrow_number-boxed int32 w = refl
arrow_number-boxed int64 w = refl
arrow_number-boxed uint8 w = refl
arrow_number-boxed uint16 w = refl
arrow_number-boxed uint32 w = refl
arrow_number-boxed uint64 w = refl
arrow_number-boxed float32 w = refl
arrow_number-boxed float64 w = refl

-- An array of one of the Go types that the switch of `decodedVectorForArrow` names.
abbrev pub is_read : ArrowArray → Bool
is_read (other_array flags) = false
is_read _ = true

get_elem?-map :
    {A B : Type 0} (f : A → B) (xs : List A) (j : ℕ) (x : A)
    → get_elem? xs j ≡ some x
    → get_elem? (map f xs) j ≡ some (f x)
get_elem?-map f [] j x h = absurd (ground (arith, h))
get_elem?-map f (y ∷ xs) zero x h = ground (arith, h)
get_elem?-map f (y ∷ xs) (suc j) x h = get_elem?-map f xs j x h

length-map : {A B : Type 0} (f : A → B) (xs : List A) → length (map f xs) ≡ length xs
length-map f [] = refl
length-map f (x ∷ xs) = ap suc (length-map f xs)

get_elem?-below :
    {A : Type 0} (xs : List A) (j : ℕ) → j < length xs → (x : A) × (get_elem? xs j ≡ some x)
get_elem?-below [] j h = absurd (omega arith)
get_elem?-below (x ∷ xs) zero h = (x, refl)
get_elem?-below (x ∷ xs) (suc j) h = get_elem?-below xs j (omega arith)

-- The nulls of an array are as many as its rows.
whole :
    {A : Type 0} {count : ℕ} (vs : List (Option A))
    → length (map (λ (v : Option A). not (is_some v)) vs) ≡ count
    → length vs ≡ count
whole vs h = omega (arith, length-map (λ v. not (is_some v)) vs)

module _ {Q : Type 0} (name : List ℕ) (t : LogicalType) where
  primitive_row :
      (p : Primitive) (vs : List (Option ℕ)) (validity : Option (List ℕ)) (j : ℕ)
      → ((b : Bool)
          → get_elem? (null_flags (primitives p vs)) j ≡ some b
          → validity_is_null validity j ≡ some b)
      → (w : Option ℕ) → get_elem? vs j ≡ some w
      → get_object (typed_vec (vector_kind p) t (map word_or_zero vs) validity) j
        ≡ row_of {Q = Q} (arrow_number p) vs j
  unfolding get_object null_flags object_or_nil word_or_zero
  primitive_row p vs validity j marks none at =
      ground (arith, at, marks true (get_elem?-map (λ v. not (is_some v)) vs j none at))
  primitive_row p vs validity j marks (some w) at = ground (
    arith,
    at,
    marks false (get_elem?-map (λ v. not (is_some v)) vs j (some w) at),
    get_elem?-map word_or_zero vs j (some w) at,
    arrow_number-boxed {Q = Q} p w,
  )

  object_row :
      {A : Type 0} (f : A → Object Q) (vs : List (Option A)) (count j : ℕ)
      → length (map (λ (v : Option A). not (is_some v)) vs) ≡ count
      → j < count
      → get_object (object_vec t (map (object_or_nil f) vs)) j ≡ row_of f vs j
  unfolding get_object object_or_nil
  object_row f vs count j size lt =
      let (w, at) = get_elem?-below vs j (omega (arith, length-map (λ v. not (is_some v)) vs)) in
      get_elem?-map (object_or_nil f) vs j w at ∙ one w at
    where
      one : (w : Option _) → get_elem? vs j ≡ some w → some (object_or_nil f w) ≡ row_of f vs j
      one none at = ground (arith, at)
      one (some v) at = ground (arith, at)

  -- Every array of a kind that the driver reads, of fewer than 2 ^ 63 rows, becomes a vector, without a
  -- panic, whose rows are those of the array: nil for a null, a string, its bytes, or a number with the
  -- bits of the array's, a uint8, uint16 or uint32 as the next wider signed type. A uint64 is read as an
  -- int64, so that one from 2 ^ 63 on is a negative number.
  pub decoded_vector_for_arrow-rows :
      (col : ArrowArray) (count j : ℕ)
      → is_read col ≡ true
      → length (null_flags col) ≡ count
      → count < 2 ^ 63
      → j < count
      → (v : DecodedVector Q) × (decoded_vector_for_arrow name t col count ≡ inr v)
        × (get_object v j ≡ object_at col j)
  unfolding decoded_vector_for_arrow object_at vector_of null_flags
  decoded_vector_for_arrow-rows (primitives p vs) count j read size fits lt =
      let (validity, e, marks) = build_validity-null (primitives p vs) count fits size in
      let (w, at) =
        get_elem?-below vs j (omega (arith, length-map (λ (v : Option ℕ). not (is_some v)) vs)) in
      (
        typed_vec (vector_kind p) t (map word_or_zero vs) validity,
        rw (e, decoded_vector_for_arrow, first_rows-all count vs (whole vs size)) refl,
        primitive_row p vs validity j (λ b at'. marks j b at' lt) w at,
      )
  decoded_vector_for_arrow-rows (strings vs) count j read size fits lt =
      let (validity, e, marks) = build_validity-null (strings vs) count fits size in
      (
        object_vec t (map (object_or_nil text) vs),
        rw (e, decoded_vector_for_arrow, first_rows-all count vs (whole vs size)) refl,
        object_row text vs count j size lt,
      )
  decoded_vector_for_arrow-rows (binaries vs) count j read size fits lt =
      let (validity, e, marks) = build_validity-null (binaries vs) count fits size in
      (
        object_vec t (map (object_or_nil blob) vs),
        rw (e, decoded_vector_for_arrow, first_rows-all count vs (whole vs size)) refl,
        object_row blob vs count j size lt,
      )
  decoded_vector_for_arrow-rows (decimals vs) count j read size fits lt =
      let (validity, e, marks) = build_validity-null (decimals vs) count fits size in
      (
        object_vec t (map (object_or_nil big_int) vs),
        rw (e, decoded_vector_for_arrow, first_rows-all count vs (whole vs size)) refl,
        object_row big_int vs count j size lt,
      )
  decoded_vector_for_arrow-rows (other_array flags) count j read size fits lt =
      absurd (ground (arith, read))
