-- ===== src/Codec/Leb/Unsigned.antt =====
-- `ReadULEB128` on what `WriteULEB128` appends.
use adbc_driver_quack.Base.{
  ℕ, zero, suc, ◌+◌, ◌*◌, ◌/◌, ◌%◌, ◌^◌, ◌≤◌, ◌<◌, bit_and, bit_or, ◌≡◌, ap, List, [], ◌∷◌, ◌++◌,
  length, ltb, ◌==◌, if◌then◌else◌, arith, ◌∙◌, Bool-cases, inl, inr,
}
use adbc_driver_quack.Base.Bits.{bit_or_disjoint}
use adbc_driver_quack.Codec.Reader.{
  uleb128_loop, read_uleb128, read_uleb128_int, read_string, ◌>>=◌, unless_failed,
}
use adbc_driver_quack.Codec.Reads.{
  at, Fits, Reads, read_byte-Reads, Reads-bind, Reads-unless_failed, read_bytes-Reads,
}
use adbc_driver_quack.Codec.Leb.{groups, uleb, low_group, top_bit}
use native.Mathlib.Nat.{div-add-mod}
use native.Mathlib.Numerals.{towards_suc}

pub mul_le : (a b c : ℕ) → a ≤ b → a * c ≤ b * c
mul_le a b c h = grind arith

-- `result |= uint64(b&0x7F) << shift`, a sum while the result fits 64 bits.
pub add_group :
    (acc b s : ℕ)
    → acc < 2 ^ s
    → acc + b % 128 * 2 ^ s < 2 ^ 64
    → bit_or acc (bit_and b 0x7F * 2 ^ s % 2 ^ 64) ≡ acc + b % 128 * 2 ^ s
add_group acc b s h fits = rw (low_group b) (
    let small : b % 128 * 2 ^ s % 2 ^ 64 ≡ b % 128 * 2 ^ s = omega arith in
    rw small (bit_or_disjoint s acc (b % 128) h))

pub shift_seven : (i : ℕ) → 2 ^ (i + 7) ≡ 128 * 2 ^ i
shift_seven i = simp towards_suc (omega arith)

pub group_below : (acc g s : ℕ) → acc < 2 ^ s → g < 128 → acc + g * 2 ^ s < 2 ^ (s + 7)
group_below acc g s h hg = omega (arith, shift_seven s, mul_le g 127 (2 ^ s) (omega arith))

pub uleb128_loop_step :
    (n acc s off b : ℕ) (tl : List ℕ)
    → Fits off (b ∷ tl)
    → acc < 2 ^ s
    → acc + b % 128 * 2 ^ s < 2 ^ 64
    → uleb128_loop (suc n) acc s (at off (b ∷ tl)) ≡ (
        if bit_and b 0x80 == 0
        then (acc + b % 128 * 2 ^ s, at (off + 1) tl)
        else uleb128_loop n (acc + b % 128 * 2 ^ s) (s + 7) (at (off + 1) tl))
unfolding uleb128_loop unless_failed
uleb128_loop_step n acc s off b tl fits h small =
    ground (arith, (read_byte-Reads b).run off tl fits, add_group acc b s h small)

-- The lowest seven bits of `v` and those above them, at bit `i`.
pub split_group : (v i : ℕ) → v % 128 * 2 ^ i + v / 128 * 2 ^ (i + 7) ≡ v * 2 ^ i
split_group v i =
    let whole = ap (λ (n : ℕ). n * 2 ^ i) (div-add-mod v 128) in
    let high = ap (λ (p : ℕ). v / 128 * p) (shift_seven i) in omega (arith, whole, high)

-- A byte with the top bit set: the loop goes on.
inner_byte :
    (n acc s off g : ℕ) (tl : List ℕ)
    → g < 128
    → Fits off ((g + 128) ∷ tl)
    → acc < 2 ^ s
    → acc + g * 2 ^ s < 2 ^ 64
    → uleb128_loop (suc n) acc s (at off ((g + 128) ∷ tl))
      ≡ uleb128_loop n (acc + g * 2 ^ s) (s + 7) (at (off + 1) tl)
inner_byte n acc s off g tl hg fits h small =
    let low : (g + 128) % 128 ≡ g = omega arith in
    uleb128_loop_step n acc s off (g + 128) tl fits h (rw low small)
    ∙ rw low (ground (arith, top_bit (g + 128)))

last_byte :
    (n acc s off g : ℕ) (tl : List ℕ)
    → g < 128
    → Fits off (g ∷ tl)
    → acc < 2 ^ s
    → acc + g * 2 ^ s < 2 ^ 64
    → uleb128_loop (suc n) acc s (at off (g ∷ tl)) ≡ (acc + g * 2 ^ s, at (off + 1) tl)
last_byte n acc s off g tl hg fits h small =
    let low : g % 128 ≡ g = omega arith in
    uleb128_loop_step n acc s off g tl fits h (rw low small) ∙ rw low (ground (arith, top_bit g))

uleb128_loop-groups :
    (k v acc s off : ℕ) (rest : List ℕ)
    → v < 128 ^ suc k
    → acc < 2 ^ s
    → acc + v * 2 ^ s < 2 ^ 64
    → Fits off (groups k v ++ rest)
    → uleb128_loop (suc k) acc s (at off (groups k v ++ rest))
      ≡ (acc + v * 2 ^ s, at (off + length (groups k v)) rest)
unfolding groups
uleb128_loop-groups zero v acc s off rest hv h small fits =
    last_byte 0 acc s off v rest (omega arith) fits h small
uleb128_loop-groups (suc k) v acc s off rest hv h small fits = elim (Bool-cases (ltb v 128)) [
  | inl last ↦ rw last (last_byte (suc k) acc s off v rest (ground arith) (rw last at fits) h small)
  | inr more ↦
      let low : v % 128 < 128 = omega arith in
      let split = split_group v s in
      let fits' : Fits off ((v % 128 + 128) ∷ (groups k (v / 128) ++ rest)) = rw more at fits in
      let acc' = acc + v % 128 * 2 ^ s in
      let below : acc' < 2 ^ (s + 7) = group_below acc (v % 128) s h low in
      rw more (
        inner_byte (suc k) acc s off (v % 128) (groups k (v / 128) ++ rest) low fits' h
          (omega arith)
        ∙ (uleb128_loop-groups k (v / 128) acc' (s + 7) (off + 1) rest (omega arith) below
              (omega arith) (omega arith)
            ∙ ground arith))
]

-- The encoding of a uint64 reads back.
pub read_uleb128-Reads : (v : ℕ) → v < 2 ^ 64 → Reads read_uleb128 (uleb v) v
unfolding read_uleb128 uleb
read_uleb128-Reads v h = record {
  run = λ off rest fits.
      uleb128_loop-groups 9 v 0 0 off rest (omega arith) (omega arith) (omega arith) fits
      ∙ ground arith;
}

pub read_uleb128_int-Reads : (v : ℕ) → v < 2 ^ 63 → Reads read_uleb128_int (uleb v) v
unfolding read_uleb128_int ◌>>=◌ unless_failed
read_uleb128_int-Reads v h = record {
  run = λ off rest fits. rw ((read_uleb128-Reads v (omega arith)).run off rest fits) (ground arith);
}

-- A string in front of its length.
pub read_string-Reads :
    (s : List ℕ) → length s < 2 ^ 63 → Reads read_string (uleb (length s) ++ s) s
unfolding read_string
read_string-Reads s h =
    Reads-bind _ (read_uleb128_int-Reads (length s) h) (Reads-unless_failed [] (read_bytes-Reads s))
