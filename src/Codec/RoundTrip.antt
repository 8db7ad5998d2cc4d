-- ===== src/Codec/RoundTrip.antt =====
-- What the writer of internal/codec writes, its reader reads back.
use adbc_driver_quack.Base.{
  ℕ, zero, suc, ◌/◌, ◌^◌, ◌≤◌, ◌<◌, ◌≡◌, ap, ◌∙◌, List, ◌++◌, length, All, Bool-cases, inl, inr,
  ltb, arith,
}
use adbc_driver_quack.Codec.Reader.{
  R, new_binary_reader, read_uleb128, read_sleb128, read_string, read_list,
}
use adbc_driver_quack.Codec.Writer.{
  Writer, new_binary_writer, write_uleb128, write_sleb128, write_string, write_list,
}
use adbc_driver_quack.Codec.Leb.{uleb, groups, length-groups}
use adbc_driver_quack.Codec.Leb.Unsigned.{read_uleb128-Reads, read_string-Reads}
use adbc_driver_quack.Codec.Leb.Signed.{read_sleb128-Reads}
use adbc_driver_quack.Codec.Reads.{Reads, at, Fits}
use adbc_driver_quack.Codec.Writes.{
  Writes, Writes-new, Writes-uleb128, Writes-sleb128, Writes-string,
}
use adbc_driver_quack.Codec.Lists.{Writes-list, Reads-list}
use native.Mathlib.Nat.{pow-suc}

-- The bytes that an operation puts into a new writer.
abbrev pub written : (Writer → Writer) → List ℕ
written f = (f new_binary_writer).buf

-- `p` in front of what `f` wrote returns `v` and takes exactly that.
abbrev pub RoundTrips {ℓ} : {A : Type ℓ} → (Writer → Writer) → R A → A → List ℕ → Type ℓ
RoundTrips f p v rest =
    p (new_binary_reader (written f ++ rest)) ≡ (v, at (length (written f)) rest)

pub round_trip {ℓ} :
    {A : Type ℓ} {f : Writer → Writer} {p : R A} {bs : List ℕ} {v : A}
    → Writes f bs
    → Reads p bs v
    → (rest : List ℕ) → Fits 0 (written f ++ rest)
    → RoundTrips f p v rest
unfolding new_binary_reader
round_trip {f} {p} {bs} {v} w r rest fits = go (written f) (ap (λ x. x.buf) (Writes-new w)) fits
  where
    go :
        (cs : List ℕ)
        → cs ≡ bs
        → Fits 0 (cs ++ rest)
        → p (at 0 (cs ++ rest)) ≡ (v, at (length cs) rest)
    go cs e h = rw e (r.run 0 rest (rw (← e) h) ∙ ap (λ n. (v, at n rest)) (omega arith))

-- A uint64 that `WriteULEB128` writes into a new writer is what `ReadULEB128` returns in front of
-- these bytes, whatever follows them; it takes exactly these bytes and reports no error. The input
-- is shorter than 2 ^ 63.
pub read_uleb128-write_uleb128 :
    (v : ℕ) (rest : List ℕ)
    → v < 2 ^ 64
    → Fits 0 (written (write_uleb128 v) ++ rest)
    → RoundTrips (write_uleb128 v) read_uleb128 v rest
read_uleb128-write_uleb128 v rest h = round_trip (Writes-uleb128 v h) (read_uleb128-Reads v h) rest

-- The 64-bit pattern of an int64 that `WriteSLEB128` writes into a new writer is what
-- `ReadSLEB128` returns in front of these bytes, whatever follows them; it takes exactly these
-- bytes and reports no error. The input is shorter than 2 ^ 63.
pub read_sleb128-write_sleb128 :
    (v : ℕ) (rest : List ℕ)
    → v < 2 ^ 64
    → Fits 0 (written (write_sleb128 v) ++ rest)
    → RoundTrips (write_sleb128 v) read_sleb128 v rest
read_sleb128-write_sleb128 v rest h = round_trip (Writes-sleb128 v h) (read_sleb128-Reads v h) rest

-- A list of strings that `WriteList` writes with `WriteString` is what `ReadList` returns with
-- `ReadString`, and exactly these bytes are taken, for a list and strings shorter than 2 ^ 63 in
-- an input shorter than that.
pub read_list-write_list :
    (ss : List (List ℕ)) (rest : List ℕ)
    → length ss < 2 ^ 63
    → All (λ s. length s < 2 ^ 63) ss
    → Fits 0 (written (write_list ss (λ i. write_string)) ++ rest)
    → RoundTrips (write_list ss (λ i. write_string)) (read_list (λ i. read_string)) ss rest
read_list-write_list ss rest h hs =
    round_trip
      (Writes-list (λ s. length s < 2 ^ 63) (λ s. uleb (length s) ++ s) (λ i. write_string)
        (λ i s k. Writes-string s (omega arith)) ss (omega arith) hs)
      (Reads-list (λ s. length s < 2 ^ 63) (λ s. uleb (length s) ++ s) (λ i. read_string)
        (λ i. read_string-Reads) ss h hs)
      rest

-- The groups of `v` are the fewest that hold it.
abbrev pub IsFewest : ℕ → ℕ → Type 0
IsFewest len v = (v < 128 ^ len) × ((n : ℕ) → 1 ≤ n → v < 128 ^ n → len ≤ n)

IsFewest-one : (v : ℕ) → v < 128 → IsFewest 1 v
IsFewest-one v h = (omega arith, λ n k l. k)

IsFewest-more : (len v : ℕ) → 128 ≤ v → IsFewest len (v / 128) → IsFewest (suc len) v
IsFewest-more len v h (b, least) = (omega (arith, pow-suc 128 len), more)
  where
    more : (n : ℕ) → 1 ≤ n → v < 128 ^ n → suc len ≤ n
    more zero k l = omega arith
    more (suc zero) k l = omega arith
    more (suc (suc n)) k l =
        omega (arith, least (suc n) (omega arith) (omega (arith, pow-suc 128 (suc n))))

groups-IsFewest : (k v : ℕ) → v < 128 ^ suc k → IsFewest (length (groups k v)) v
unfolding groups
groups-IsFewest zero v h = IsFewest-one v (omega arith)
groups-IsFewest (suc k) v h = elim (Bool-cases (ltb v 128)) [
  | inl l ↦ rw l (IsFewest-one v (ground arith))
  | inr g ↦ rw g (
      IsFewest-more (length (groups k (v / 128))) v (ground arith)
        (groups-IsFewest k (v / 128) (omega (arith, pow-suc 128 (suc k)))))
]

-- `WriteULEB128` appends at least one and at most ten bytes for a uint64, and no fewer groups of
-- seven bits can hold it: where n is the number of the bytes, the value is below 128 ^ n, and n is
-- the least such number from 1 on.
pub write_uleb128-IsFewest :
    (v : ℕ)
    → v < 2 ^ 64
    → (1 ≤ length (written (write_uleb128 v)))
      × (length (written (write_uleb128 v)) ≤ 10)
      × IsFewest (length (written (write_uleb128 v))) v
write_uleb128-IsFewest v h = rw (ap (λ w. w.buf) (Writes-new (Writes-uleb128 v h))) (
    unfold uleb in
    (
      (length-groups 9 v).0,
      omega (arith, (length-groups 9 v).1),
      groups-IsFewest 9 v (omega arith),
    ))
