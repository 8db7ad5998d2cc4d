-- ===== src/Codec/Leb/Signed.antt =====
-- `ReadSLEB128` on what `WriteSLEB128` appends. An int64 is its pattern.
use adbc_driver_quack.Base.{
  ℕ, zero, suc, ◌+◌, ◌-◌, ◌*◌, ◌%◌, ◌^◌, ◌≤◌, ◌<◌, ◌≡◌, refl, ap, List, ◌∷◌, ◌++◌, length, ltb,
  arith, ◌∙◌, Bool-cases, inl, inr, true,
}
use adbc_driver_quack.Codec.Reader.{sleb128_loop, read_sleb128}
use adbc_driver_quack.Codec.Reads.{at, Fits, Reads}
use adbc_driver_quack.Codec.Writer.{shift_right_seven}
use adbc_driver_quack.Codec.Leb.{signed_groups, sleb, is_last, Within, Within-shift}
use adbc_driver_quack.Codec.Leb.Unsigned.{shift_seven, group_below, mul_le, split_group}
use native.Mathlib.Nat.{pow-suc, one-le-pow, mul_comm}
use adbc_driver_quack.Codec.Leb.SignedRounds.{last_positive, last_full, last_negative, inner_byte}

-- With `k` rounds to come the shift is `s`: the bits below and above make 63.
record At (k s : ℕ) : Type 0 where
  shift : s + 7 * k ≡ 63
  product : 128 ^ k * 2 ^ s ≡ 2 ^ 63

At-suc : (k s : ℕ) → At (suc k) s → At k (s + 7)
At-suc k s a = record {
  shift = omega (arith, a.shift);
  product = omega (
    arith,
    a.product,
    ap (λ (t : ℕ). t * 2 ^ s) (pow-suc 128 k),
    ap (λ (t : ℕ). 128 ^ k * t) (shift_seven s),
  );
}

At-le : (k s : ℕ) → At k s → 128 ^ k ≤ 2 ^ 63
At-le k s a = omega (
  arith,
  a.product,
  mul_le 1 (2 ^ s) (128 ^ k) (one-le-pow s 2 (omega arith)),
  mul_comm (2 ^ s) (128 ^ k),
)

At-bound : (k s : ℕ) → At k s → 2 ^ s ≤ 2 ^ 63
At-bound k s a =
    omega (arith, a.product, mul_le 1 (128 ^ k) (2 ^ s) (one-le-pow k 128 (omega arith)))

sub-one-mul : (a p : ℕ) → 1 ≤ a → (a - 1) * p + p ≡ a * p
sub-one-mul zero p h = absurd (omega arith)
sub-one-mul (suc a) p h = let e : suc a - 1 ≡ a = omega arith in rw e (omega arith)

-- All ones above the last group, and how far up they reach.
fill : (k s : ℕ) → At (suc k) s → (2 * 128 ^ k - 1) * 2 ^ (s + 7) + 2 ^ (s + 7) ≡ 2 ^ 64
fill k s a = omega (
  arith,
  (At-suc k s a).product,
  sub-one-mul (2 * 128 ^ k) (2 ^ (s + 7)) (omega (arith, one-le-pow k 128 (omega arith))),
)

-- The last group of a number that is not negative, and of a negative one.
signed_positive :
    (k v acc s off : ℕ) (tl : List ℕ)
    → At k s
    → v < 64
    → Within (128 ^ k) v
    → acc < 2 ^ s
    → Fits off ((v % 128) ∷ tl)
    → sleb128_loop (suc k) acc s (at off ((v % 128) ∷ tl))
      ≡ ((acc + v * 2 ^ s) % 2 ^ 64, at (off + 1) tl)
signed_positive k v acc s off tl a hv (inl w) h fits =
    let low : v % 128 ≡ v = omega arith in
    let small : acc + v * 2 ^ s < 2 ^ 64 =
      omega (arith, a.product, mul_le (v + 1) (128 ^ k) (2 ^ s) (omega arith)) in
    rw low (last_positive k acc s off v tl hv fits h small ∙ ground arith)
signed_positive k v acc s off tl a hv (inr w) h fits = absurd (omega (arith, At-le k s a))

filled :
    (k s acc g v : ℕ)
    → At (suc k) s
    → acc < 2 ^ s
    → v ≡ 2 ^ 64 - 128 + g
    → g < 128
    → acc + g * 2 ^ s + (2 ^ 64 - 2 ^ (s + 7)) ≡ (acc + v * 2 ^ s) % 2 ^ 64
filled k s acc g v a h shape hg = omega (
  arith,
  fill k s a,
  shift_seven s,
  mul_le g 127 (2 ^ s) (omega arith),
  ap (λ (t : ℕ). t * 2 ^ s) shape,
)

signed_negative :
    (k v acc s off : ℕ) (tl : List ℕ)
    → At k s
    → 2 ^ 64 - 64 ≤ v
    → v < 2 ^ 64
    → Within (128 ^ k) v
    → acc < 2 ^ s
    → Fits off ((v % 128) ∷ tl)
    → sleb128_loop (suc k) acc s (at off ((v % 128) ∷ tl))
      ≡ ((acc + v * 2 ^ s) % 2 ^ 64, at (off + 1) tl)
signed_negative zero v acc s off tl a lo hi w h fits =
    let group : v % 128 ≡ 127 = ground arith in
    let full : v ≡ 2 ^ 64 - 1 = ground arith in
    let top : s ≡ 63 = omega (arith, a.shift) in
    rw (group, full, top) (last_full 0 acc off tl fits (rw top at h) ∙ ground arith)
signed_negative (suc k) v acc s off tl a lo hi w h fits =
    let g : ℕ = v % 128 in
    let shape : v ≡ 2 ^ 64 - 128 + g = omega arith in
    last_negative (suc k) acc s off g (2 * 128 ^ k - 1) tl (omega arith) (omega arith)
      (omega (arith, a.shift)) (fill k s a) fits h
    ∙ ground (arith, filled k s acc g v a h shape (omega arith))

signed_last :
    (k v acc s off : ℕ) (tl : List ℕ)
    → At k s
    → is_last v ≡ true
    → v < 2 ^ 64
    → Within (128 ^ k) v
    → acc < 2 ^ s
    → Fits off ((v % 128) ∷ tl)
    → sleb128_loop (suc k) acc s (at off ((v % 128) ∷ tl))
      ≡ ((acc + v * 2 ^ s) % 2 ^ 64, at (off + 1) tl)
signed_last k v acc s off tl a last hi w h fits = elim (Bool-cases (ltb v 64)) [
  | inl low ↦ signed_positive k v acc s off tl a (ground arith) w h fits
  | inr high ↦ signed_negative k v acc s off tl a (ground arith) hi w h fits
]

-- What a shift by seven with a copied sign leaves, put back in its place.
put_back :
    (k s acc v : ℕ)
    → At (suc k) s
    → (acc + v % 128 * 2 ^ s + shift_right_seven v * 2 ^ (s + 7)) % 2 ^ 64
      ≡ (acc + v * 2 ^ s) % 2 ^ 64
put_back k s acc v a = elim (Bool-cases (ltb v (2 ^ 63))) [
  | inl e ↦ rw e (omega (arith, split_group v s))
  | inr e ↦ rw e (omega (arith, split_group v s, shift_seven s))
]

sleb128_loop-signed_groups :
    (k v acc s off : ℕ) (rest : List ℕ)
    → At k s
    → v < 2 ^ 64
    → Within (128 ^ k) v
    → acc < 2 ^ s
    → Fits off (signed_groups k v ++ rest)
    → sleb128_loop (suc k) acc s (at off (signed_groups k v ++ rest))
      ≡ ((acc + v * 2 ^ s) % 2 ^ 64, at (off + length (signed_groups k v)) rest)
unfolding signed_groups
sleb128_loop-signed_groups zero v acc s off rest a hv w h fits =
    signed_last zero v acc s off rest a (ground arith) hv w h fits
sleb128_loop-signed_groups (suc k) v acc s off rest a hv w h fits = elim (Bool-cases (is_last v)) [
  | inl last ↦ rw last (signed_last (suc k) v acc s off rest a last hv w h (rw last at fits))
  | inr more ↦
      let low : v % 128 < 128 = omega arith in
      let v' = shift_right_seven v in
      let pow : 128 ^ suc k ≡ 128 * 128 ^ k = omega (arith, pow-suc 128 k) in
      let below = group_below acc (v % 128) s h low in
      let q : 128 ^ k ≤ 2 ^ 56 = omega (arith, At-le (suc k) s a, pow-suc 128 k) in
      let w' : Within (128 ^ k) v' = Within-shift (128 ^ k) v q hv (rw pow at w) in
      let fits' : Fits off ((v % 128 + 128) ∷ (signed_groups k v' ++ rest)) = rw more at fits in
      let acc' = acc + v % 128 * 2 ^ s in
      rw more (
        inner_byte (suc k) acc s off (v % 128) (signed_groups k v' ++ rest) low fits' h
          (omega (arith, At-bound k (s + 7) (At-suc k s a)))
        ∙ (sleb128_loop-signed_groups k v' acc' (s + 7) (off + 1) rest (At-suc k s a) (ground arith)
              w' below (omega (arith, fits'))
            ∙ ground (arith, put_back k s acc v a)))
]

-- The encoding of an int64 reads back.
pub read_sleb128-Reads : (v : ℕ) → v < 2 ^ 64 → Reads read_sleb128 (sleb v) v
unfolding read_sleb128 sleb
read_sleb128-Reads v h = record {
  run = λ off rest fits.
      sleb128_loop-signed_groups 9 v 0 0 off rest (record { shift = refl; product = refl }) h
        (ground arith) (omega arith) fits
      ∙ ground arith;
}
