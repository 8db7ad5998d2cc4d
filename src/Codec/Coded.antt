-- ===== src/Codec/Coded.antt =====
-- A writer and a reader of the same value, with the bytes between them left open.
use adbc_driver_quack.Base.{
  ℕ, ◌^◌, ◌<◌, ◌≡◌, refl, Bool, true, false, List, [], ◌++◌, length, All, arith, if◌then◌else◌,
}
use adbc_driver_quack.Codec.Fault.{field_end}
use adbc_driver_quack.Codec.Reader.{
  R, ◌>>=◌, pure, read_object, read_required_field, read_optional_field, read_bool, read_uleb128,
  read_uleb128_int, read_sleb128, read_string, read_list,
}
use adbc_driver_quack.Codec.Writer.{
  Writer, write_object, write_field, write_bool, write_uleb128, write_sleb128, write_string,
  write_list,
}
use adbc_driver_quack.Codec.Leb.Unsigned.{
  read_uleb128-Reads, read_uleb128_int-Reads, read_string-Reads,
}
use adbc_driver_quack.Codec.Leb.Signed.{read_sleb128-Reads}
use adbc_driver_quack.Codec.Lists.{Writes-list, Reads-list}
use adbc_driver_quack.Codec.Optional.{
  ReadsBefore, Leads, Leads-nil, Leads-field, Leads-append, Reads→Before, Before-then,
  Before-object, Reads-optional_field, Absent-optional_field,
}
use adbc_driver_quack.Codec.Reads.{
  Reads, pure-Reads, Reads-bind, Reads-required_field, read_bool-Reads,
}
use adbc_driver_quack.Codec.Writes.{
  Writes, Writes-then, Writes-skip, Writes-field, Writes-object, Writes-bool, Writes-uleb128,
  Writes-sleb128, Writes-string,
}

-- What `f` writes, `p` reads as `a`.
pub record Coded {ℓ} {A : Type ℓ} (f : Writer → Writer) (p : R A) (a : A) : Type ℓ where
  pub bytes : List ℕ
  pub writes : Writes f bytes
  pub reads : Reads p bytes a

-- The same for fields of an object with ids above `n` and up to `m`, some of them left out: what
-- follows starts with an id above `m`.
pub record Fields {ℓ} {A : Type ℓ} (n m : ℕ) (f : Writer → Writer) (p : R A) (a : A) : Type ℓ where
  pub bytes : List ℕ
  pub writes : Writes f bytes
  pub reads : ReadsBefore m p bytes a
  pub leads : Leads n m bytes

pub Coded-uleb128 : (v : ℕ) → v < 2 ^ 64 → Coded (write_uleb128 v) read_uleb128 v
Coded-uleb128 v h = record {
  bytes = _;
  writes = Writes-uleb128 v h;
  reads = read_uleb128-Reads v h;
}

pub Coded-uleb128_int : (v : ℕ) → v < 2 ^ 63 → Coded (write_uleb128 v) read_uleb128_int v
Coded-uleb128_int v h = record {
  bytes = _;
  writes = Writes-uleb128 v (omega arith);
  reads = read_uleb128_int-Reads v h;
}

pub Coded-sleb128 : (v : ℕ) → v < 2 ^ 64 → Coded (write_sleb128 v) read_sleb128 v
Coded-sleb128 v h = record {
  bytes = _;
  writes = Writes-sleb128 v h;
  reads = read_sleb128-Reads v h;
}

pub Coded-string : (s : List ℕ) → length s < 2 ^ 63 → Coded (write_string s) read_string s
Coded-string s h = record {
  bytes = _;
  writes = Writes-string s (omega arith);
  reads = read_string-Reads s h;
}

pub Coded-bool : (b : Bool) → Coded (write_bool b) read_bool b
Coded-bool b = record { bytes = _; writes = Writes-bool b; reads = read_bool-Reads b }

module _ {ℓ κ} {A : Type ℓ} {B : Type κ} where
  pub Coded-then :
      (c : A → R B) {f g : Writer → Writer} {p : R A} {a : A} {b : B}
      → Coded f p a
      → Coded g (c a) b
      → Coded (λ w. g (f w)) (p >>= c) b
  Coded-then c x y = record {
    bytes = x.bytes ++ y.bytes;
    writes = Writes-then x.writes y.writes;
    reads = Reads-bind c x.reads y.reads;
  }

  pub Fields-then :
      (n k m : ℕ) (c : A → R B) {f g : Writer → Writer} {p : R A} {a : A} {b : B}
      → Fields n k f p a
      → Fields k m g (c a) b
      → Fields n m (λ w. g (f w)) (p >>= c) b
  Fields-then n k m c x y = record {
    bytes = x.bytes ++ y.bytes;
    writes = Writes-then x.writes y.writes;
    reads = Before-then k m c y.leads x.reads y.reads;
    leads = Leads-append n m k x.bytes y.bytes x.leads y.leads;
  }

module _ {ℓ} {A : Type ℓ} where
  pub Coded-pure : (a : A) → Coded (λ w. w) (pure a) a
  Coded-pure a = record { bytes = []; writes = Writes-skip; reads = pure-Reads a }

  pub Fields-pure : (n : ℕ) (a : A) → Fields n n (λ w. w) (pure a) a
  Fields-pure n a = record {
    bytes = [];
    writes = Writes-skip;
    reads = Reads→Before n (pure-Reads a);
    leads = Leads-nil n n (omega arith);
  }

  pub Fields-required :
      (n id : ℕ) (z : A) {f : Writer → Writer} {p : R A} {a : A}
      → n < id
      → id < 2 ^ 16
      → Coded f p a
      → Fields n id (write_field id f) (read_required_field z id p) a
  Fields-required n id z h k x = record {
    bytes = _;
    writes = Writes-field id x.writes;
    reads = Reads→Before id (Reads-required_field z id k x.reads);
    leads = Leads-field n id id x.bytes h k;
  }

  -- A field that is written under a condition, and has its default where it is not.
  pub Fields-optional :
      (n id : ℕ) (present : Bool) (default : A) {f : Writer → Writer} {p : R A} {a : A}
      → n < id
      → id < 2 ^ 16
      → (present ≡ false → a ≡ default)
      → Coded f p a
      → Fields n id
          (λ w. if present then write_field id f w else w)
          (read_optional_field id p default)
          a
  Fields-optional n id true default h k z x = record {
    bytes = _;
    writes = Writes-field id x.writes;
    reads = Reads→Before id (Reads-optional_field id default k x.reads);
    leads = Leads-field n id id x.bytes h k;
  }
  Fields-optional n id false default {p} h k z x = record {
    bytes = [];
    writes = Writes-skip;
    reads = rw (z refl) (Absent-optional_field id id p default (omega arith));
    leads = Leads-nil n id (omega arith);
  }

  pub Coded-object :
      (z : A) (n m : ℕ) {f : Writer → Writer} {p : R A} {a : A}
      → m < field_end
      → Fields n m f p a
      → Coded (write_object f) (read_object z p) a
  Coded-object z n m h x = record {
    bytes = _;
    writes = Writes-object x.writes;
    reads = Before-object z m h x.reads;
  }

-- The elements of a list, each with the bytes that `wire` names.
pub Coded-list {ℓ κ} :
    {A : Type ℓ} (P : A → Type κ) (wire : A → List ℕ) (write_item : A → Writer → Writer)
    (read : R A) (xs : List A)
    → ((x : A) → P x → Writes (write_item x) (wire x))
    → ((x : A) → P x → Reads read (wire x) x)
    → length xs < 2 ^ 63
    → All P xs
    → Coded (write_list xs (λ i. write_item)) (read_list (λ i. read)) xs
Coded-list P wire write_item read xs w r h ps = record {
  bytes = _;
  writes = Writes-list P wire (λ i. write_item) (λ i. w) xs (omega arith) ps;
  reads = Reads-list P wire (λ i. read) (λ i. r) xs h ps;
}
