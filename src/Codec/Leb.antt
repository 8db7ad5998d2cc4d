-- ===== src/Codec/Leb.antt =====
-- The groups that `WriteULEB128` and `WriteSLEB128` append, in plain arithmetic.
pub mod Unsigned
pub mod SignedRounds
pub mod Signed
use adbc_driver_quack.Base.{
  ℕ, zero, suc, ◌+◌, ◌-◌, ◌*◌, ◌/◌, ◌%◌, ◌^◌, ◌≤◌, ◌<◌, bit_and, bit_or, ◌≡◌, some, List, [], ◌∷◌,
  length, ltb, leb, Bool, ◌||◌, ◌⊎◌, if◌then◌else◌, arith,
}
use adbc_driver_quack.Base.Bits.{bit_and_mask, bit_and_bit, bit_and_high, bit_or_disjoint}
use adbc_driver_quack.Codec.Writer.{uleb128_groups, sleb128_groups, shift_right_seven}
use native.Mathlib.Nat.{pow-suc}

-- The groups of seven bits of `v`, the lowest first, for `v` below 128 ^ (k + 1).
unfoldable pub groups : ℕ → ℕ → List ℕ
groups zero v = v ∷ []
groups (suc k) v =
    let rest = groups k (v / 128) in if ltb v 128 then v ∷ [] else (v % 128 + 128) ∷ rest

-- The encoding of a uint64.
unfoldable pub uleb : ℕ → List ℕ
unfolding groups
uleb v = groups 9 v

pub low_group : (v : ℕ) → bit_and v 0x7F ≡ v % 128
low_group v = bit_and_mask 7 v

pub top_bit : (b : ℕ) → bit_and b 0x80 ≡ b / 128 % 2 * 128
top_bit b = bit_and_bit 7 b

pub sign_bit : (b : ℕ) → bit_and b 0x40 ≡ b / 64 % 2 * 64
sign_bit b = bit_and_bit 6 b

pub set_top_bit : (x : ℕ) → x < 128 → bit_or x 0x80 ≡ x + 128
set_top_bit x h = bit_or_disjoint 7 x 1 h

pub uleb128_groups_lem :
    (k v : ℕ) → v < 2 ^ 64 → v < 128 ^ suc k → uleb128_groups (suc k) v ≡ some (groups k v)
unfolding uleb128_groups groups
uleb128_groups_lem zero v h b = ground (arith, bit_and_high v, low_group v)
uleb128_groups_lem (suc k) v h b = ground (
  arith,
  bit_and_high v,
  low_group v,
  set_top_bit (v % 128),
  uleb128_groups_lem k (v / 128) (omega arith) (omega arith),
)

pub length-groups : (k v : ℕ) → (1 ≤ length (groups k v)) × (length (groups k v) ≤ k + 1)
unfolding groups
length-groups zero v = omega arith
length-groups (suc k) v = ground (arith, length-groups k (v / 128))

-- Whether an int64 has a single group left: all of it that is not in the group is its sign.
abbrev pub is_last : ℕ → Bool
is_last v = ltb v 64 || leb (2 ^ 64 - 64) v

-- The groups of the int64 with the pattern `v`.
unfoldable pub signed_groups : ℕ → ℕ → List ℕ
signed_groups zero v = (v % 128) ∷ []
signed_groups (suc k) v =
    let rest = signed_groups k (shift_right_seven v) in
    if is_last v then (v % 128) ∷ [] else (v % 128 + 128) ∷ rest

unfoldable pub sleb : ℕ → List ℕ
unfolding signed_groups
sleb v = signed_groups 9 v

-- The pattern `v` stands for an integer from `- q` up to `q - 1`.
abbrev pub Within : ℕ → ℕ → Type 0
Within q v = (v < q) ⊎ (2 ^ 64 ≤ v + q)

pub Within-shift :
    (q v : ℕ) → q ≤ 2 ^ 56 → v < 2 ^ 64 → Within (128 * q) v → Within q (shift_right_seven v)
Within-shift q v hq h w = ground arith

pub sleb128_groups_lem :
    (k v : ℕ)
    → v < 2 ^ 64
    → 128 ^ k ≤ 2 ^ 63
    → Within (128 ^ k) v
    → sleb128_groups (suc k) v ≡ some (signed_groups k v)
unfolding sleb128_groups signed_groups
sleb128_groups_lem zero v h hk w = ground (arith, low_group v, sign_bit (v % 128))
sleb128_groups_lem (suc k) v h hk w = ground (
  arith,
  pow-suc 128 k,
  low_group v,
  sign_bit (v % 128),
  set_top_bit (v % 128),
  Within-shift (128 ^ k) v,
  sleb128_groups_lem k (shift_right_seven v) (ground arith),
)
