-- ===== src/Codec/Leb/SignedRounds.antt =====
-- One round of the loop of `ReadSLEB128`. An int64 is its pattern.
use adbc_driver_quack.Base.{
  ℕ, suc, ◌+◌, ◌-◌, ◌*◌, ◌%◌, ◌^◌, ◌≤◌, ◌<◌, bit_and, bit_or, ◌≡◌, List, ◌∷◌, ltb, ◌==◌,
  if◌then◌else◌, arith, ◌∙◌, ◌&&◌, not,
}
use adbc_driver_quack.Base.Bits.{bit_or_disjoint}
use adbc_driver_quack.Codec.Reader.{sleb128_loop, unless_failed}
use adbc_driver_quack.Codec.Reads.{at, Fits, read_byte-Reads}
use adbc_driver_quack.Codec.Leb.{top_bit, sign_bit}
use adbc_driver_quack.Codec.Leb.Unsigned.{add_group, group_below}
use native.Mathlib.Nat.{one-le-pow}

sleb128_loop_step :
    (n acc s off b : ℕ) (tl : List ℕ)
    → Fits off (b ∷ tl)
    → acc < 2 ^ s
    → acc + b % 128 * 2 ^ s < 2 ^ 64
    → sleb128_loop (suc n) acc s (at off (b ∷ tl)) ≡ (
        if bit_and b 0x80 == 0
        then if ltb (s + 7) 64 && not (bit_and b 0x40 == 0)
          then (
            bit_or (acc + b % 128 * 2 ^ s) ((2 ^ 64 - 1) * 2 ^ (s + 7) % 2 ^ 64),
            at (off + 1) tl,
          )
          else (acc + b % 128 * 2 ^ s, at (off + 1) tl)
        else sleb128_loop n (acc + b % 128 * 2 ^ s) (s + 7) (at (off + 1) tl))
unfolding sleb128_loop unless_failed
sleb128_loop_step n acc s off b tl fits h small =
    ground (arith, (read_byte-Reads b).run off tl fits, add_group acc b s h small)

-- A last byte with the sign bit clear, one whose sign fills the bits above, and one at bit 63.
pub last_positive :
    (n acc s off g : ℕ) (tl : List ℕ)
    → g < 64
    → Fits off (g ∷ tl)
    → acc < 2 ^ s
    → acc + g * 2 ^ s < 2 ^ 64
    → sleb128_loop (suc n) acc s (at off (g ∷ tl)) ≡ (acc + g * 2 ^ s, at (off + 1) tl)
last_positive n acc s off g tl hg fits h small =
    let low : g % 128 ≡ g = omega arith in
    sleb128_loop_step n acc s off g tl fits h (rw low small)
    ∙ rw low (ground (arith, top_bit g, sign_bit g))

pub last_full :
    (n acc off : ℕ) (tl : List ℕ)
    → Fits off (127 ∷ tl)
    → acc < 2 ^ 63
    → sleb128_loop (suc n) acc 63 (at off (127 ∷ tl)) ≡ (acc + 2 ^ 63, at (off + 1) tl)
unfolding sleb128_loop unless_failed
last_full n acc off tl fits h =
    ground (arith, (read_byte-Reads 127).run off tl fits, bit_or_disjoint 63 acc 1 h)

-- `result |= ^uint64(0) << shift` for a result below bit `shift`.
extend_sign :
    (a s r : ℕ)
    → a < 2 ^ s
    → r * 2 ^ s + 2 ^ s ≡ 2 ^ 64
    → bit_or a ((2 ^ 64 - 1) * 2 ^ s % 2 ^ 64) ≡ a + (2 ^ 64 - 2 ^ s)
extend_sign a s r h e =
    let p : (2 ^ 64 - 1) * 2 ^ s % 2 ^ 64 ≡ r * 2 ^ s = omega (arith, one-le-pow s 2) in
    rw p (omega (arith, bit_or_disjoint s a r h))

pub last_negative :
    (n acc s off g r : ℕ) (tl : List ℕ)
    → 64 ≤ g
    → g < 128
    → s < 57
    → r * 2 ^ (s + 7) + 2 ^ (s + 7) ≡ 2 ^ 64
    → Fits off (g ∷ tl)
    → acc < 2 ^ s
    → sleb128_loop (suc n) acc s (at off (g ∷ tl))
      ≡ (acc + g * 2 ^ s + (2 ^ 64 - 2 ^ (s + 7)), at (off + 1) tl)
last_negative n acc s off g r tl lo hi hs e fits h =
    let low : g % 128 ≡ g = omega arith in
    let below = group_below acc g s h hi in
    sleb128_loop_step n acc s off g tl fits h (rw low (omega arith))
    ∙ rw low
        (ground (arith, top_bit g, sign_bit g, extend_sign (acc + g * 2 ^ s) (s + 7) r below e))

pub inner_byte :
    (n acc s off g : ℕ) (tl : List ℕ)
    → g < 128
    → Fits off ((g + 128) ∷ tl)
    → acc < 2 ^ s
    → acc + g * 2 ^ s < 2 ^ 64
    → sleb128_loop (suc n) acc s (at off ((g + 128) ∷ tl))
      ≡ sleb128_loop n (acc + g * 2 ^ s) (s + 7) (at (off + 1) tl)
inner_byte n acc s off g tl hg fits h small =
    let low : (g + 128) % 128 ≡ g = omega arith in
    sleb128_loop_step n acc s off (g + 128) tl fits h (rw low small)
    ∙ rw low (ground (arith, top_bit (g + 128)))
