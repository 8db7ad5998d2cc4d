-- ===== src/Codec/Reads.antt =====
-- Runs of the reader that succeed: what a read does in front of the bytes that it expects.
use adbc_driver_quack.Base.{
  ℕ, zero, suc, ◌+◌, ◌/◌, ◌^◌, ◌≤◌, ◌<◌, ◌≡◌, refl, ap, ◌∙◌, Bool, true, false, none, List, [], ◌∷◌,
  ◌++◌, append_assoc, append-nil, length, length-append, drop, take-append, drop-append,
  if◌then◌else◌, arith, ==_refl,
}
use adbc_driver_quack.Codec.Fault.{field_end}
use adbc_driver_quack.Codec.Reader.{
  Reader, R, pure, ◌>>=◌, unless_failed, ensure, le_value, read_le, read_field_id, peek_field_id,
  read_end_object, read_object, read_required_field, read_byte, read_bytes, read_bool,
  read_nullable,
}
use adbc_driver_quack.Codec.Writer.{le_bytes}
use native.Mathlib.Nat.{pow-suc, add_assoc}

-- A reader with no error at an offset, in front of the bytes that are left.
abbrev pub at : ℕ → List ℕ → Reader
at off bs = record { offset = off; rest = bs; err = none }

-- The whole input is a Go slice: its length is an `int`.
abbrev pub Fits : ℕ → List ℕ → Type 0
Fits off bs = off + length bs < 2 ^ 63

-- In front of `bs`, whatever follows, `p` takes `bs` and returns `v`.
pub record Reads {ℓ} {A : Type ℓ} (p : R A) (bs : List ℕ) (v : A) : Type ℓ where
  pub run :
      (off : ℕ) (rest : List ℕ)
      → Fits off (bs ++ rest)
      → p (at off (bs ++ rest)) ≡ (v, at (off + length bs) rest)

pub ensure-Fits :
    (n off : ℕ) (bs : List ℕ)
    → n ≤ length bs
    → Fits off bs
    → ensure n (at off bs) ≡ (true, at off bs)
unfolding ensure
ensure-Fits n off bs h fits = ground arith

pub read_le-at :
    (k off : ℕ) (bs : List ℕ)
    → k ≤ length bs
    → Fits off bs
    → read_le k (at off bs) ≡ (le_value k bs, at (off + k) (drop k bs))
unfolding read_le ◌>>=◌
read_le-at k off bs h fits = rw (ensure-Fits k off bs h fits)

pub length-le_bytes : (k v : ℕ) → length (le_bytes k v) ≡ k
length-le_bytes zero v = refl
length-le_bytes (suc k) v = ap suc (length-le_bytes k (v / 256))

pub le_value-le_bytes :
    (k v : ℕ) (rest : List ℕ) → v < 256 ^ k → le_value k (le_bytes k v ++ rest) ≡ v
le_value-le_bytes zero v rest h = omega arith
le_value-le_bytes (suc k) v rest h =
    ground (arith, pow-suc 256 k, le_value-le_bytes k (v / 256) rest (omega (arith, pow-suc 256 k)))

pub drop-le_bytes : (k v : ℕ) (rest : List ℕ) → drop k (le_bytes k v ++ rest) ≡ rest
drop-le_bytes zero v rest = refl
drop-le_bytes (suc k) v rest = drop-le_bytes k (v / 256) rest

pub read_le-Reads : (k v : ℕ) → v < 256 ^ k → Reads (read_le k) (le_bytes k v) v
read_le-Reads k v h = record {
  run = λ off rest fits.
      read_le-at k off (le_bytes k v ++ rest)
        (omega (arith, length-append (le_bytes k v) rest, length-le_bytes k v)) fits
      ∙ rw (le_value-le_bytes k v rest h, drop-le_bytes k v rest, length-le_bytes k v);
}

pub read_end_object-at :
    (off : ℕ) (rest : List ℕ)
    → Fits off (le_bytes 2 field_end ++ rest)
    → read_end_object (at off (le_bytes 2 field_end ++ rest)) ≡ at (off + 2) rest
unfolding read_end_object read_field_id
read_end_object-at off rest fits =
    ground (arith, (read_le-Reads 2 field_end (omega arith)).run off rest fits)

pub peek_field_id-at :
    (id off : ℕ) (rest : List ℕ)
    → id < 2 ^ 16
    → Fits off (le_bytes 2 id ++ rest)
    → peek_field_id (at off (le_bytes 2 id ++ rest)) ≡ (id, at off (le_bytes 2 id ++ rest))
unfolding peek_field_id ◌>>=◌
peek_field_id-at id off rest h fits =
    rw (ensure-Fits 2 off (le_bytes 2 id ++ rest) (omega arith) fits, le_value-le_bytes 2 id rest h)

pub read_byte-Reads : (b : ℕ) → Reads read_byte (b ∷ []) b
unfolding read_byte
read_byte-Reads b = record {
  run = λ off rest fits. read_le-at 1 off (b ∷ rest) (omega arith) fits ∙ ground arith;
}

pub read_bool-Reads : (b : Bool) → Reads read_bool (if b then 1 ∷ [] else 0 ∷ []) b
unfolding read_bool ◌>>=◌ unless_failed
read_bool-Reads true = record { run = λ off rest fits. rw ((read_byte-Reads 1).run off rest fits) }
read_bool-Reads false = record { run = λ off rest fits. rw ((read_byte-Reads 0).run off rest fits) }

pub read_bytes-Reads : (s : List ℕ) → Reads (read_bytes (length s)) s s
unfolding read_bytes
read_bytes-Reads s = record {
  run = λ off rest fits. ground (
    arith,
    ensure-Fits (length s) off (s ++ rest) (omega (arith, length-append s rest)) fits,
    length-append s rest,
    take-append s rest,
    drop-append s rest,
  );
}

-- Two reads in a row, on one run.
pub bind_at {ℓ κ} :
    {A : Type ℓ} {B : Type κ} (p : R A) (k : A → R B) (off : ℕ) (front back rest : List ℕ) {a : A}
    {b : B}
    → (Fits off (front ++ (back ++ rest))
        → p (at off (front ++ (back ++ rest))) ≡ (a, at (off + length front) (back ++ rest)))
    → (Fits (off + length front) (back ++ rest)
        → k a (at (off + length front) (back ++ rest))
          ≡ (b, at (off + length front + length back) rest))
    → Fits off ((front ++ back) ++ rest)
    → (p >>= k) (at off ((front ++ back) ++ rest)) ≡ (b, at (off + length (front ++ back)) rest)
unfolding ◌>>=◌
bind_at p k off front back rest hp hk fits =
    let fits' = rw (append_assoc front back rest) at fits in
    rw
      (
        append_assoc front back rest,
        length-append front back,
        ← add_assoc off (length front) (length back),
      )
      (rw (hp fits') (hk (omega (arith, fits', length-append front (back ++ rest)))))

module _ {ℓ} {A : Type ℓ} where
  pub pure-Reads : (a : A) → Reads (pure a) [] a
  unfolding pure
  pure-Reads a = record { run = λ off rest fits. ground arith }

  -- One read after another.
  pub Reads-bind {κ} :
      {B : Type κ} (k : A → R B) {p : R A} {front back : List ℕ} {a : A} {b : B}
      → Reads p front a
      → Reads (k a) back b
      → Reads (p >>= k) (front ++ back) b
  Reads-bind k {p} {front} {back} hp hk = record {
    run = λ off rest.
        bind_at p k off front back rest (hp.run off (back ++ rest))
          (hk.run (off + length front) rest);
  }

  pub Reads-cast : {p : R A} {bs : List ℕ} {a b : A} → a ≡ b → Reads p bs a → Reads p bs b
  Reads-cast e h = record { run = λ off rest fits. rw (← e) (h.run off rest fits) }

  -- A read, and a function of its value that takes nothing more.
  pub Reads-end {κ} :
      {B : Type κ} (k : A → R B) {p : R A} {front : List ℕ} {a : A} {b : B}
      → Reads p front a
      → Reads (k a) [] b
      → Reads (p >>= k) front b
  Reads-end k {front} hp hk = rw append-nil at (Reads-bind k hp hk)

  -- A read and a pure function of its value.
  pub Reads-map {κ} :
      {B : Type κ} {p : R A} {front : List ℕ} {a : A} (f : A → B)
      → Reads p front a
      → Reads (p >>= λ x. pure (f x)) front (f a)
  unfolding ◌>>=◌ pure
  Reads-map f hp = record { run = λ off rest fits. rw (hp.run off rest fits) }

module _ {ℓ} {A : Type ℓ} where
  pub Reads-unless_failed :
      (z : A) {p : R A} {bs : List ℕ} {a : A} → Reads p bs a → Reads (unless_failed z p) bs a
  unfolding unless_failed
  Reads-unless_failed z hp = record { run = λ off rest fits. hp.run off rest fits }

  -- A field id and the body of the field.
  pub Reads-required_field :
      (z : A) (id : ℕ) {p : R A} {bs : List ℕ} {a : A}
      → id < 2 ^ 16
      → Reads p bs a
      → Reads (read_required_field z id p) (le_bytes 2 id ++ bs) a
  unfolding read_required_field read_field_id
  Reads-required_field z id h hp = Reads-bind _ (read_le-Reads 2 id h) (
      Reads-unless_failed z
        (record { run = λ off rest fits. rw (==_refl id) (hp.run off rest fits) }))

  pub end_marker :
      (z a : A) → Reads (λ r. unless_failed z (pure a) (read_end_object r)) (le_bytes 2 field_end) a
  unfolding unless_failed pure
  end_marker z a = record {
    run = λ off rest fits. let e = read_end_object-at off rest fits in rw (e, unless_failed) (rw e);
  }

  -- A body and the end marker.
  pub Reads-object :
      (z : A) {p : R A} {bs : List ℕ} {a : A}
      → Reads p bs a
      → Reads (read_object z p) (bs ++ le_bytes 2 field_end) a
  unfolding read_object
  Reads-object z {a} hp = Reads-bind _ hp (Reads-unless_failed z (end_marker z a))

  -- A presence flag and the value behind it.
  pub Reads-nullable :
      (z : A) {p : R A} {bs : List ℕ} {a : A}
      → Reads p bs a
      → Reads (read_nullable z p >>= λ q. pure q.0) ((1 ∷ []) ++ bs) a
  unfolding read_nullable ◌>>=◌ pure
  Reads-nullable z {p} {bs} hp = record {
    run = λ off rest fits.
        let flag = (read_bool-Reads true).run off (bs ++ rest) fits in
        let value = hp.run (off + 1) rest (omega (arith, fits)) in
        rw flag (rw value (ground arith));
  }
