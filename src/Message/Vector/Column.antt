-- ===== src/Message/Vector/Column.antt =====
-- internal/message/vector_codec.go and vector_encoder.go: a typed column on the wire.
use adbc_driver_quack.Base.{
  ℕ, zero, suc, ◌+◌, ◌*◌, ◌^◌, ◌≤◌, ◌<◌, ◌≡◌, refl, ap, ◌∙◌, Bool, true, false, not, Option, none,
  some, List, [], ◌∷◌, append-nil, length, length-append, get_elem?, ◌==◌, if◌then◌else◌, arith,
  All,
}
use adbc_driver_quack.Codec.Leb.Unsigned.{mul_le}
use adbc_driver_quack.Codec.Lists.{concat_map}
use adbc_driver_quack.Codec.Reader.{R, read_le, new_binary_reader}
use adbc_driver_quack.Codec.Reads.{
  Reads, length-le_bytes, read_le-Reads, Reads-bind, Reads-cast, Reads-map, pure-Reads,
}
use adbc_driver_quack.Codec.Writer.{write_le, le_bytes}
use adbc_driver_quack.Codec.Writes.{Writes, Writes-new, Writes-then, Writes-skip}
use adbc_driver_quack.Message.Validity.{validity_is_null, validity_word_count}
use adbc_driver_quack.Message.Vector.Encode.{
  with_value, value_of_row, write_rows, encode_fixed_bytes,
}
use adbc_driver_quack.Message.Vector.Flat.{
  fixed_loop, read_flag, decode_typed, decode_primitives, decode_fixed_flat_vector,
}
use adbc_driver_quack.Message.Vector.Rows.{
  kind_of, width_of, IsValue, NarrowsZero, cell, plain_ids, write_row,
}
use adbc_driver_quack.Message.Vector.Shapes.{made}
use adbc_driver_quack.Message.Vector.Stored.{encode_fixed_value_for_write}
use adbc_driver_quack.Message.Vector.Types.{
  Host, Object, DecodedVector, typed_vec, Kind, bool_vec, byte_vec, short_vec, int_vec, long_vec,
  float_vec, double_vec, size, is_null, get_object,
}
use adbc_driver_quack.Message.Vector.Values.{needs_object_materialization}
use adbc_driver_quack.QuackType.Ids.{geometry_id}
use adbc_driver_quack.QuackType.Physical.{PhysicalType, get_physical_type, byte_width, id_of}
use adbc_driver_quack.QuackType.Types.{LogicalType}
use native.Mathlib.Nat.{zero-add}

-- A bitmap, if there is one, has the words that its rows need.
abbrev pub IsBitmap : Option (List ℕ) → ℕ → Type 0
IsBitmap none count = Unit {0}
IsBitmap (some words) count =
    (length words ≡ validity_word_count count) × All (λ w. w < 2 ^ 64) words

-- A typed vector as the decoder makes them: of a type that typed vectors store, each value in its
-- range, each null row zero, and of a length that the machine can hold.
pub record IsTyped (host : Host) (t : LogicalType) (values : List ℕ) (validity : Option (List ℕ))
    : Type 0 where
  pub constant : byte_width (get_physical_type t) ≡ some (width_of (get_physical_type t))
  pub plain : needs_object_materialization t (get_physical_type t) ≡ false
  pub not_geometry : (id_of t == geometry_id) ≡ false
  pub stored : All (IsValue host (get_physical_type t)) values
  pub bitmap : IsBitmap validity (length values)
  pub null_rows :
      (i v : ℕ)
      → get_elem? values i ≡ some v
      → (null : Bool) × (validity_is_null validity i ≡ some null) × (null ≡ true → v ≡ 0)
  pub short : length values < 2 ^ 59
  pub room : (bytes_each : ℕ) → host.can_make bytes_each (length values) ≡ true

-- The words of a column, one after the other.
unfoldable pub column_bytes : ℕ → List ℕ → List ℕ
column_bytes k values = concat_map (le_bytes k) values

pub length-column_bytes :
    (k : ℕ) (values : List ℕ) → length (column_bytes k values) ≡ k * length values
unfolding column_bytes
length-column_bytes k [] = omega arith
length-column_bytes k (v ∷ values) = omega (
  arith,
  length-append (le_bytes k v) (concat_map (le_bytes k) values),
  length-le_bytes k v,
  length-column_bytes k values,
)

-- A read of each word.
fixed_loop-Reads :
    (k : ℕ) (read : R ℕ) (ok : ℕ → Type 0) (values : List ℕ)
    → ((v : ℕ) → ok v → Reads read (le_bytes k v) v)
    → All ok values
    → Reads (fixed_loop read (length values)) (column_bytes k values) values
unfolding fixed_loop column_bytes
fixed_loop-Reads k read ok [] reads h = pure-Reads []
fixed_loop-Reads k read ok (v ∷ values) reads (hv, h) =
    Reads-bind _ (reads v hv) (Reads-map (λ vs. v ∷ vs) (fixed_loop-Reads k read ok values reads h))

words_back :
    (k : ℕ) (read : R ℕ) (ok : ℕ → Type 0) (values : List ℕ)
    → ((v : ℕ) → ok v → Reads read (le_bytes k v) v)
    → All ok values
    → k * length values < 2 ^ 63
    → (fixed_loop read (length values) (new_binary_reader (column_bytes k values))).0 ≡ values
unfolding new_binary_reader
words_back k read ok values reads h short = rw append-nil at (
    ap (λ p. p.0)
      ((fixed_loop-Reads k read ok values reads h).run 0 []
        (omega (arith, length-column_bytes k values, length-append (column_bytes k values) []))))

-- The rows of a column are written as their words.
module _ (host : Host) (t : LogicalType) (p : PhysicalType) (vec : DecodedVector host.Rat)
    (k : ℕ) where
  write_rows-Writes :
      (i : ℕ) (values : List ℕ)
      → ((j v : ℕ)
          → get_elem? values j ≡ some v
          → (o : Object host.Rat) × (value_of_row host vec (i + j) ≡ some o)
            × Writes (encode_fixed_value_for_write host t p o) (le_bytes k v))
      → Writes (write_rows host t p vec (length values) i) (column_bytes k values)
  unfolding write_rows column_bytes with_value
  write_rows-Writes i [] rows = Writes-skip
  write_rows-Writes i (v ∷ values) rows =
      let (o, at_row, writes) = rows 0 v refl in
      let here : value_of_row host vec i ≡ some o =
        ap (value_of_row host vec) (omega arith) ∙ at_row in
      rw (here, write_rows)
        (Writes-then writes (
          write_rows-Writes (i + 1) values (λ j u h.
            let (o', at_row', writes') = rows (suc j) u h in
            (o', ap (value_of_row host vec) (omega arith) ∙ at_row', writes'))))

-- A row of a typed vector, read by the encoder.
typed_row :
    (host : Host) (t : LogicalType) (kind : Kind) (values : List ℕ) (validity : Option (List ℕ))
    (i v : ℕ) (null : Bool)
    → get_elem? values i ≡ some v
    → validity_is_null validity i ≡ some null
    → value_of_row host (typed_vec kind t values validity) i ≡ some (cell kind (not null) v)
unfolding value_of_row is_null get_object
typed_row host t kind values validity i v true here null = ground (arith, null)
typed_row host t kind values validity i v false here null = ground (arith, null, here)

read_flag-Reads : (host : Host) (v : ℕ) → v < 2 → Reads (read_flag host) (le_bytes 1 v) v
unfolding read_flag
read_flag-Reads host v h =
    Reads-cast (ground arith)
      (Reads-map (λ b. if b == 0 then 0 else 1) (read_le-Reads 1 v (omega arith)))

-- The decoder of words gives the vector whose words they are.
module _ (host : Host) (t : LogicalType) (values : List ℕ) (validity : Option (List ℕ))
    (short : length values < 2 ^ 59)
    (room : (bytes_each : ℕ) → host.can_make bytes_each (length values) ≡ true) where
  decode_typed-column :
      (kind : Kind) (bytes_each k : ℕ) (read : R ℕ) (ok : ℕ → Type 0)
      → ((v : ℕ) → ok v → Reads read (le_bytes k v) v)
      → All ok values
      → k ≤ 8
      → decode_typed host kind bytes_each t read (column_bytes k values) (length values) validity
        ≡ some (some (typed_vec kind t values validity))
  unfolding decode_typed made
  decode_typed-column kind bytes_each k read ok reads h small = ground (
    arith,
    room bytes_each,
    words_back k read ok values reads h (grind (arith, mul_le k 8 (length values) small)),
  )

  pub decode_primitives-column :
      (p : PhysicalType)
      → byte_width p ≡ some (width_of p)
      → All (IsValue host p) values
      → decode_primitives host t p (column_bytes (width_of p) values) (length values) validity
        ≡ some (some (typed_vec (kind_of p) t values validity))
  unfolding decode_primitives byte_width
  decode_primitives-column PhysicalType.bool c h =
      decode_typed-column bool_vec 1 1 (read_flag host) _ (λ v. read_flag-Reads host v) h
        (omega arith)
  decode_primitives-column PhysicalType.int8 c h =
      decode_typed-column byte_vec 1 1 (read_le 1) _ (λ v. read_le-Reads 1 v) h (omega arith)
  decode_primitives-column PhysicalType.uint8 c h =
      decode_typed-column short_vec 2 1 (read_le 1) _ (λ v. read_le-Reads 1 v) h (omega arith)
  decode_primitives-column PhysicalType.int16 c h =
      decode_typed-column short_vec 2 2 (read_le 2) _ (λ v. read_le-Reads 2 v) h (omega arith)
  decode_primitives-column PhysicalType.uint16 c h =
      decode_typed-column int_vec 4 2 (read_le 2) _ (λ v. read_le-Reads 2 v) h (omega arith)
  decode_primitives-column PhysicalType.int32 c h =
      decode_typed-column int_vec 4 4 (read_le 4) _ (λ v. read_le-Reads 4 v) h (omega arith)
  decode_primitives-column PhysicalType.uint32 c h =
      decode_typed-column long_vec 8 4 (read_le 4) _ (λ v. read_le-Reads 4 v) h (omega arith)
  decode_primitives-column PhysicalType.int64 c h =
      decode_typed-column long_vec 8 8 (read_le 8) _ (λ v. read_le-Reads 8 v) h (omega arith)
  decode_primitives-column PhysicalType.uint64 c h =
      decode_typed-column long_vec 8 8 (read_le 8) _ (λ v. read_le-Reads 8 v) h (omega arith)
  decode_primitives-column PhysicalType.float c h =
      decode_typed-column float_vec 4 4 (read_le 4) (IsValue host PhysicalType.float)
        (λ v ok. read_le-Reads 4 v ok.0) h (omega arith)
  decode_primitives-column PhysicalType.double c h =
      decode_typed-column double_vec 8 8 (read_le 8) _ (λ v. read_le-Reads 8 v) h (omega arith)
  decode_primitives-column PhysicalType.invalid c h = cc
  decode_primitives-column PhysicalType.interval c h = ground arith
  decode_primitives-column PhysicalType.list c h = cc
  decode_primitives-column PhysicalType.struct c h = cc
  decode_primitives-column PhysicalType.array_storage c h = cc
  decode_primitives-column PhysicalType.varchar c h = cc
  decode_primitives-column PhysicalType.uint128 c h = ground arith
  decode_primitives-column PhysicalType.int128 c h = ground arith
  decode_primitives-column PhysicalType.bit c h = cc

module _ (host : Host) (narrows : NarrowsZero host) (t : LogicalType) (values : List ℕ)
    (validity : Option (List ℕ)) (col : IsTyped host t values validity) where
  abbrev p : PhysicalType
  p = get_physical_type t

  abbrev vec : DecodedVector host.Rat
  vec = typed_vec (kind_of p) t values validity

  value_at : (ok : ℕ → Type 0) (vs : List ℕ) (i v : ℕ) → All ok vs → get_elem? vs i ≡ some v → ok v
  value_at ok [] i v all h = cc
  value_at ok (u ∷ vs) zero v (hu, all) h = let e : u ≡ v = cc in rw (← e) hu
  value_at ok (u ∷ vs) (suc i) v (hu, all) h = value_at ok vs i v all h

  row-Writes :
      (i v : ℕ)
      → get_elem? values i ≡ some v
      → (o : Object host.Rat) × (value_of_row host vec (0 + i) ≡ some o)
        × Writes (encode_fixed_value_for_write host t p o) (le_bytes (width_of p) v)
  unfolding write_le
  row-Writes i v h =
      let (null, is_null, z) = col.null_rows i v h in
      let row : value_of_row host vec (0 + i) ≡ some (cell (kind_of p) (not null) v) =
        rw (zero-add i) (typed_row host t (kind_of p) values validity i v null h is_null) in
      (
        cell (kind_of p) (not null) v,
        row,
        record {
          run = λ w.
              write_row host t (plain_ids host t p col.plain) w p (not null) v narrows
                (λ e. z (ground arith)) (value_at (IsValue host p) values i v col.stored h);
        },
      )

  -- `encodeFixedBytes` writes the words of the column.
  pub encode_fixed_bytes-column :
      encode_fixed_bytes host t p vec
      ≡ record { buf = column_bytes (width_of p) values; err = none }
  unfolding encode_fixed_bytes size
  encode_fixed_bytes-column =
      Writes-new (write_rows-Writes host t p vec (width_of p) 0 values row-Writes)

  pub decode_fixed-column :
      decode_fixed_flat_vector host t p (column_bytes (width_of p) values) (length values) validity
      ≡ some (some vec)
  unfolding decode_fixed_flat_vector
  decode_fixed-column =
      rw (col.plain) (
        decode_primitives-column host t values validity col.short col.room p col.constant
          col.stored)
