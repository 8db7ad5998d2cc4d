-- ===== src/Message/Vector/RoundTrip.antt =====
-- internal/message/vector_codec.go and vector_encoder.go: a typed column reads back.
use adbc_driver_quack.Base.{
  ℕ, zero, suc, ◌+◌, ◌*◌, ◌%◌, ◌^◌, ◌≤◌, ◌<◌, ◌≡◌, refl, ap, sym, ◌∙◌, true, false, not, Option,
  none, some, List, [], ◌++◌, length, ◌==◌, if◌then◌else◌, arith, is_some,
}
use adbc_driver_quack.Codec.Coded.{
  Coded, Fields, Coded-bool, Coded-string, Fields-then, Fields-required, Fields-optional,
  Coded-object, Coded-uleb128_int,
}
use adbc_driver_quack.Codec.Leb.Unsigned.{mul_le, read_string-Reads}
use adbc_driver_quack.Codec.Optional.{Leads-nil, Reads→Before}
use adbc_driver_quack.Codec.Reader.{R, pure, read_object}
use adbc_driver_quack.Codec.Reads.{Reads, at, Reads-end, pure-Reads}
use adbc_driver_quack.Codec.Writer.{Writer, write_field, write_bool, write_string}
use adbc_driver_quack.Codec.Writes.{Writes, Writes-new, Writes-skip, Writes-string}
use adbc_driver_quack.Message.Validity.{
  validity_word_count, validity_wire_byte_count, validity_to_bytes, validity_from_bytes,
}
use adbc_driver_quack.Message.Validity.Wire.{validity_from_bytes-validity_to_bytes}
use adbc_driver_quack.Message.Vector.Column.{
  IsBitmap, IsTyped, column_bytes, length-column_bytes, encode_fixed_bytes-column,
  decode_fixed-column,
}
use adbc_driver_quack.Message.Vector.Decode.{decode_body_step, decode_body_fuel, decode_vector}
use adbc_driver_quack.Message.Vector.Encode.{
  with_value, extract_validity, write_validity, write_values, encode_flat_vector_body,
  encode_vector,
}
use adbc_driver_quack.Message.Vector.Flat.{
  Vector, refuse_if, or_panic, refuse, read_validity_mask, read_validity, skip_geometry_version,
  decode_constant_size, decode_flat_vector, decode_fixed_flat_vector,
}
use adbc_driver_quack.Message.Vector.Rows.{kind_of, width_of, NarrowsZero}
use adbc_driver_quack.Message.Vector.Types.{Host, DecodedVector, typed_vec, size}
use adbc_driver_quack.QuackType.Physical.{PhysicalType, get_physical_type}
use adbc_driver_quack.QuackType.Types.{LogicalType}

-- A read that takes nothing, between fields.
pub Fields-nothing {ℓ} :
    {A : Type ℓ} (n m : ℕ) (p : R A) (a : A) → n ≤ m → Reads p [] a → Fields n m (λ w. w) p a
Fields-nothing n m p a h r = record {
  bytes = [];
  writes = Writes-skip;
  reads = Reads→Before m r;
  leads = Leads-nil n m h;
}

small_count : (count : ℕ) → count < 2 ^ 59 → validity_word_count count < 2 ^ 58
unfolding validity_word_count
small_count count h = ground arith

width-le : (p : PhysicalType) → width_of p ≤ 8
width-le p = ground arith

-- A write appends the same bytes each time.
Writes-unique : {f : Writer → Writer} {bs cs : List ℕ} → Writes f bs → Writes f cs → bs ≡ cs
Writes-unique h k = ap (λ w. w.buf) (sym (Writes-new h) ∙ Writes-new k)

-- Writers that write the same.
Fields-written {ℓ} :
    {A : Type ℓ} {n m : ℕ} {f g : Writer → Writer} {p : R A} {a : A}
    → ((w : Writer) → f w ≡ g w)
    → Fields n m g p a
    → Fields n m f p a
Fields-written e h = record {
  bytes = h.bytes;
  writes = record { run = λ w. e w ∙ h.writes.run w };
  reads = h.reads;
  leads = h.leads;
}

-- A bitmap as the bytes of field 101.
Coded-mask :
    (words : List ℕ) (count : ℕ)
    → count < 2 ^ 59
    → IsBitmap (some words) count
    → (bytes : List ℕ) × (validity_to_bytes (some words) count ≡ some bytes)
      × Coded (write_string bytes) (read_validity_mask count) (some words)
unfolding read_validity_mask refuse_if validity_wire_byte_count
Coded-mask words count h (l, all) =
    let (bytes, to, back, len) = validity_from_bytes-validity_to_bytes words count l all in
    (
      bytes,
      to,
      record {
        bytes = _;
        writes = Writes-string bytes (omega (arith, short bytes len));
        reads = Reads-end _ (read_string-Reads bytes (short bytes len)) (accepted bytes back len);
      },
    )
  where
    short : (bytes : List ℕ) → length bytes ≡ 8 * validity_word_count count → length bytes < 2 ^ 63
    short bytes len = omega (arith, len, small_count count h)

    accepted :
        (bytes : List ℕ)
        → validity_from_bytes bytes count ≡ words
        → length bytes ≡ 8 * validity_word_count count
        → Reads
            (refuse_if
              (not (length bytes == validity_wire_byte_count count))
              none
              (some (validity_from_bytes bytes count)))
            []
            (some words)
    accepted bytes back len = record {
      run = λ off rest fits. ground (arith, back, len, small_count count h);
    }

Fields-validity :
    (validity : Option (List ℕ)) (count : ℕ)
    → count < 2 ^ 59
    → IsBitmap validity count
    → Fields 90 101
        (λ w. write_validity validity count (write_field 100 (write_bool (is_some validity)) w))
        (read_validity count)
        validity
unfolding write_validity read_validity with_value
Fields-validity none count h b =
    Fields-then 90 100 101 _
      (Fields-required 90 100 false (omega arith) (omega arith) (Coded-bool false))
      (Fields-nothing 100 101 (pure none) none (omega arith) (pure-Reads none))
Fields-validity (some words) count h b =
    let (bytes, to, mask) = Coded-mask words count h b in
    rw to (
      Fields-then 90 100 101 _
        (Fields-required 90 100 false (omega arith) (omega arith) (Coded-bool true))
        (Fields-required 100 101 none (omega arith) (omega arith) mask))

module _ (host : Host) (narrows : NarrowsZero host) (t : LogicalType) (values : List ℕ)
    (validity : Option (List ℕ)) (col : IsTyped host t values validity) where
  abbrev count : ℕ
  count = length values

  abbrev width : ℕ
  width = width_of (get_physical_type t)

  abbrev vec : DecodedVector host.Rat
  vec = typed_vec (kind_of (get_physical_type t)) t values validity

  abbrev bytes : List ℕ
  bytes = column_bytes width values

  short_bytes : length bytes < 2 ^ 62
  short_bytes = omega (
    arith,
    col.short,
    length-column_bytes width values,
    mul_le width 8 count (width-le (get_physical_type t)),
  )

  write_values-column :
      (w : Writer) → write_values host t vec w ≡ write_field 102 (write_string bytes) w
  unfolding write_values
  write_values-column w =
      ground (arith, col.constant, encode_fixed_bytes-column host narrows t values validity col)

  -- Nested vectors are decoded by `vector`, which nothing calls here.
  module _ (body vector : LogicalType → ℕ → R (Vector host)) where
    accept_bytes :
        (off : ℕ) (rest : List ℕ)
        → (if not (length bytes == width * count % 2 ^ 64)
              then refuse host
              else or_panic none
                  (decode_fixed_flat_vector host t (get_physical_type t) bytes count validity))
            (at off rest)
          ≡ (some vec, at (off + 0) rest)
    unfolding or_panic
    accept_bytes off rest = ground (
      arith,
      short_bytes,
      length-column_bytes width values,
      decode_fixed-column host narrows t values validity col,
    )

    Fields-values :
        Fields 101 102
          (write_values host t vec)
          (decode_constant_size host vector t count width validity)
          (some vec)
    unfolding decode_constant_size
    Fields-values = Fields-written write_values-column (
        Fields-then 101 102 102 _
          (Fields-required 101 102 [] (omega arith) (omega arith)
            (Coded-string bytes (omega (arith, short_bytes))))
          (Fields-nothing 102 102 _ (some vec) (omega arith)
            (record { run = λ off rest fits. accept_bytes off rest })))

    no_version :
        (off : ℕ) (rest : List ℕ) → skip_geometry_version t (at off rest) ≡ (tt, at (off + 0) rest)
    unfolding skip_geometry_version
    no_version off rest = ground (arith, col.not_geometry)

    Fields-flat :
        Fields 90 102
          (encode_flat_vector_body host t vec)
          (decode_flat_vector host vector t count)
          (some vec)
    unfolding decode_flat_vector encode_flat_vector_body extract_validity with_value size
    Fields-flat =
        Fields-then 90 90 102 _
          (Fields-nothing 90 90 (skip_geometry_version t) tt (omega arith)
            (record { run = λ off rest fits. no_version off rest }))
          (Fields-then 90 101 102 _ {g = write_values host t vec}
            (Fields-validity validity count col.short col.bitmap) (rw (col.constant) Fields-values))

    -- `decodeVectorBody` on the body that `encodeFlatVectorBody` writes.
    Fields-body :
        Fields 0 102
          (encode_flat_vector_body host t vec)
          (decode_body_step host body vector t count)
          (some vec)
    unfolding decode_body_step
    Fields-body =
        Fields-then 0 90 102 _
          (Fields-optional 0 90 false 0 (omega arith) (omega arith) (λ e. refl)
            (Coded-uleb128_int 0 (omega arith)))
          Fields-flat

  -- The fuel is enough, since a flat vector of words has no vector in it.
  body_fuel :
      (fuel : ℕ)
      → 0 < fuel
      → Coded
          (encode_vector host t (some vec))
          (read_object none (decode_body_fuel host fuel t count))
          (some vec)
  unfolding decode_body_fuel encode_vector
  body_fuel zero h = absurd (omega arith)
  body_fuel (suc fuel) h = Coded-object none 0 102 (omega arith) (Fields-body _ _)

  -- `DecodeVector` reads what `EncodeVector` writes.
  pub vector-Coded : Coded (encode_vector host t (some vec)) (decode_vector host t count) (some vec)
  unfolding decode_vector
  vector-Coded = record {
    bytes = base.bytes;
    writes = base.writes;
    reads = record {
      run = λ off rest.
          let more = body_fuel (length (base.bytes ++ rest) + 1) (omega arith) in
          (rw (Writes-unique more.writes base.writes) at more.reads).run off rest;
    };
  }
    where
      base :
          Coded
            (encode_vector host t (some vec))
            (read_object none (decode_body_fuel host 1 t count))
            (some vec)
      base = body_fuel 1 (omega arith)
