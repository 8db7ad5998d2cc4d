-- ===== src/Codec/Optional.antt =====
-- Optional fields: a read that depends on the field id which follows what it takes.
use adbc_driver_quack.Base.{
  ℕ, ◌+◌, ◌^◌, ◌≤◌, ◌<◌, ◌≡◌, refl, List, [], ◌∷◌, ◌++◌, append_assoc, length, ◌==◌, if◌then◌else◌,
  arith, ==_refl,
}
use adbc_driver_quack.Codec.Fault.{field_end}
use adbc_driver_quack.Codec.Reader.{R, pure, ◌>>=◌, read_field_id, read_object, read_optional_field}
use adbc_driver_quack.Codec.Writer.{le_bytes}
use adbc_driver_quack.Codec.Reads.{
  at, Fits, Reads, bind_at, peek_field_id-at, read_le-Reads, end_marker, Reads-unless_failed,
}

-- The bytes begin with a field id above `n`.
pub record StartsAbove (n : ℕ) (bs : List ℕ) : Type 0 where
  pub id : ℕ
  pub tail : List ℕ
  pub shape : bs ≡ le_bytes 2 id ++ tail
  pub above : n < id
  pub bound : id < 2 ^ 16

-- In front of `bs` and a field id above `n`, `p` takes `bs` and returns `v`.
pub record ReadsBefore {ℓ} {A : Type ℓ} (n : ℕ) (p : R A) (bs : List ℕ) (v : A) : Type ℓ where
  pub run :
      (off : ℕ) (rest : List ℕ)
      → StartsAbove n rest
      → Fits off (bs ++ rest)
      → p (at off (bs ++ rest)) ≡ (v, at (off + length bs) rest)

-- `bs` in front of a field id above `m` begins with one above `n`.
pub record Leads (n m : ℕ) (bs : List ℕ) : Type 0 where
  pub go : (rest : List ℕ) → StartsAbove m rest → StartsAbove n (bs ++ rest)

pub Leads-nil : (n m : ℕ) → n ≤ m → Leads n m []
Leads-nil n m h = record {
  go = λ rest s. record {
    id = s.id;
    tail = s.tail;
    shape = s.shape;
    above = omega arith;
    bound = s.bound;
  };
}

pub Leads-field :
    (n m id : ℕ) (bs : List ℕ) → n < id → id < 2 ^ 16 → Leads n m (le_bytes 2 id ++ bs)
Leads-field n m id bs h b = record {
  go = λ rest s. record { id = id; tail = bs ++ rest; shape = refl; above = h; bound = b };
}

pub Leads-append :
    (n m : ℕ) (k : ℕ) (front back : List ℕ)
    → Leads n k front
    → Leads k m back
    → Leads n m (front ++ back)
Leads-append n m k front back f b = record {
  go = λ rest s. rw (append_assoc front back rest) (f.go (back ++ rest) (b.go rest s));
}

pub Leads-weaken : (n k m : ℕ) {bs : List ℕ} → n ≤ k → Leads k m bs → Leads n m bs
Leads-weaken n k m h l = record {
  go = λ rest s.
      let t = l.go rest s in
      record {
        id = t.id;
        tail = t.tail;
        shape = t.shape;
        above = omega (arith, t.above);
        bound = t.bound;
      };
}

-- A field that is written unless its string is empty.
abbrev pub optional_bytes : ℕ → List ℕ → List ℕ → List ℕ
optional_bytes id [] body = []
optional_bytes id (c ∷ s) body = le_bytes 2 id ++ body

pub Leads-optional :
    (n m id : ℕ) (s body : List ℕ)
    → n < id
    → n ≤ m
    → id < 2 ^ 16
    → Leads n m (optional_bytes id s body)
Leads-optional n m id [] body h k b = Leads-nil n m k
Leads-optional n m id (c ∷ s) body h k b = Leads-field n m id body h b

module _ {ℓ} {A : Type ℓ} where
  optional_at :
      (id actual off : ℕ) (p : R A) (default : A) (tl : List ℕ)
      → actual < 2 ^ 16
      → Fits off (le_bytes 2 actual ++ tl)
      → read_optional_field id p default (at off (le_bytes 2 actual ++ tl)) ≡ (
          if actual == id then p (at (off + 2) tl) else (default, at off (le_bytes 2 actual ++ tl)))
  unfolding read_optional_field read_field_id
  optional_at id actual off p default tl h fits =
      let e = peek_field_id-at actual off tl h fits in
      let f = (read_le-Reads 2 actual h).run off tl fits in rw (e, f) (ground arith)

  -- An optional field that is there.
  pub Reads-optional_field :
      (id : ℕ) (default : A) {p : R A} {bs : List ℕ} {a : A}
      → id < 2 ^ 16
      → Reads p bs a
      → Reads (read_optional_field id p default) (le_bytes 2 id ++ bs) a
  Reads-optional_field id default {p} {bs} h hp = record {
    run = λ off rest fits.
        rw (optional_at id id off p default (bs ++ rest) h fits, ==_refl id)
          (rw (hp.run (off + 2) rest (omega arith)) (ground arith));
  }

  -- One that is not.
  pub Absent-optional_field :
      (id n : ℕ) (p : R A) (default : A)
      → id ≤ n
      → ReadsBefore n (read_optional_field id p default) [] default
  Absent-optional_field id n p default h = record {
    run = λ off rest s fits.
        rw s.shape (
          rw (optional_at id s.id off p default s.tail s.bound (rw s.shape at fits))
            (ground arith));
  }

module _ {ℓ} {A : Type ℓ} where
  pub Reads→Before : (n : ℕ) {p : R A} {bs : List ℕ} {a : A} → Reads p bs a → ReadsBefore n p bs a
  Reads→Before n h = record { run = λ off rest s fits. h.run off rest fits }

  -- A field that is written unless its string is empty, and read with the default `""`.
  pub Optional-field :
      (id : ℕ) (s body : List ℕ) (p : R A) (default a : A)
      → id < 2 ^ 16
      → (s ≡ [] → a ≡ default)
      → Reads p body a
      → ReadsBefore id (read_optional_field id p default) (optional_bytes id s body) a
  Optional-field id [] body p default a h z hp =
      rw (z refl) (Absent-optional_field id id p default (omega arith))
  Optional-field id (c ∷ s) body p default a h z hp =
      Reads→Before id (Reads-optional_field id default h hp)

  pub Before-map {κ} :
      {B : Type κ} {n : ℕ} {p : R A} {front : List ℕ} {a : A} (f : A → B)
      → ReadsBefore n p front a
      → ReadsBefore n (p >>= λ x. pure (f x)) front (f a)
  unfolding ◌>>=◌ pure
  Before-map f hp = record { run = λ off rest s fits. rw (hp.run off rest s fits) }

  pub Before-weaken :
      {n : ℕ} (m : ℕ) {p : R A} {bs : List ℕ} {a : A}
      → n ≤ m
      → ReadsBefore n p bs a
      → ReadsBefore m p bs a
  Before-weaken m h hp = record {
    run = λ off rest s fits.
        hp.run off rest
          (record {
            id = s.id;
            tail = s.tail;
            shape = s.shape;
            above = omega arith;
            bound = s.bound;
          })
          fits;
  }

module _ {ℓ κ} {A : Type ℓ} {B : Type κ} where
  -- A read that does not look ahead, and one that does.
  pub Before-bind :
      (m : ℕ) (k : A → R B) {p : R A} {front back : List ℕ} {a : A} {b : B}
      → Reads p front a
      → ReadsBefore m (k a) back b
      → ReadsBefore m (p >>= k) (front ++ back) b
  Before-bind m k {p} {front} {back} hp hk = record {
    run = λ off rest s.
        bind_at p k off front back rest (hp.run off (back ++ rest))
          (hk.run (off + length front) rest s);
  }

  -- A read that looks ahead, in front of what leads on to a later field.
  pub Before-then :
      (n m : ℕ) (k : A → R B) {p : R A} {front back : List ℕ} {a : A} {b : B}
      → Leads n m back
      → ReadsBefore n p front a
      → ReadsBefore m (k a) back b
      → ReadsBefore m (p >>= k) (front ++ back) b
  Before-then n m k {p} {front} {back} l hp hk = record {
    run = λ off rest s.
        bind_at p k off front back rest (hp.run off (back ++ rest) (l.go rest s))
          (hk.run (off + length front) rest s);
  }

module _ {ℓ} {A : Type ℓ} where
  -- The end marker follows: the body of an object.
  pub Before-object :
      (z : A) (n : ℕ) {p : R A} {bs : List ℕ} {a : A}
      → n < field_end
      → ReadsBefore n p bs a
      → Reads (read_object z p) (bs ++ le_bytes 2 field_end) a
  unfolding read_object
  Before-object z n {p} {bs} {a} h hp = record {
    run = λ off rest.
        bind_at p _ off bs (le_bytes 2 field_end) rest
          (hp.run off (le_bytes 2 field_end ++ rest) (marker rest))
          ((Reads-unless_failed z (end_marker z a)).run (off + length bs) rest);
  }
    where
      marker : (rest : List ℕ) → StartsAbove n (le_bytes 2 field_end ++ rest)
      marker rest = record {
        id = field_end;
        tail = rest;
        shape = refl;
        above = h;
        bound = omega arith;
      }
