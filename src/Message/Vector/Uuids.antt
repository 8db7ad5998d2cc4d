-- ===== src/Message/Vector/Uuids.antt =====
-- internal/message/vector_codec.go and vector_encoder.go: UUIDs on their way to the wire and back.
use adbc_driver_quack.Base.{
  ℕ, zero, suc, ◌+◌, ◌*◌, ◌/◌, ◌%◌, ◌^◌, ◌≤◌, ◌<◌, ◌≡◌, refl, ap, sym, ◌∙◌, some, false, List, [],
  ◌∷◌, ◌++◌, length, take, drop, ◌==◌, arith,
}
use adbc_driver_quack.Message.Vector.Values.{uuid_digit, hex_digits, uuid_from_huge_int_parts}
use adbc_driver_quack.Message.Vector.Stored.{
  hex_value, hex_number, set_string_16, without_dashes, uuid_parts, uuid_to_huge_int_parts,
}
use adbc_driver_quack.Message.Vector.Types.{Host, text}
use native.Mathlib.Nat.{
  pow-suc, one-le-pow, mul-add-mod_self_right, mod-eq_of_lt, mod-lt, div-add-mod', mul-le-mul_right,
}

hex_value-uuid_digit : (d : ℕ) → d < 16 → hex_value (uuid_digit d) ≡ some d
unfolding hex_value uuid_digit
hex_value-uuid_digit d h = ground arith

uuid_digit_not_dash : (d : ℕ) → d < 16 → uuid_digit d == 45 ≡ false
unfolding uuid_digit
uuid_digit_not_dash d h = ground arith

uuid_digit_not_plus : (d : ℕ) → d < 16 → uuid_digit d == 43 ≡ false
unfolding uuid_digit
uuid_digit_not_plus d h = ground arith

without_dashes-hex_digits :
    (k v : ℕ) (rest : List ℕ)
    → without_dashes (hex_digits k v ++ rest) ≡ hex_digits k v ++ without_dashes rest
unfolding hex_digits without_dashes
without_dashes-hex_digits zero v rest = refl
without_dashes-hex_digits (suc k) v rest =
    rw (uuid_digit_not_dash (v / 16 ^ k % 16) (omega arith), without_dashes)
      (ap (λ s. uuid_digit (v / 16 ^ k % 16) ∷ s) (without_dashes-hex_digits k v rest))

-- The remainder modulo one digit more.
mod_next_digit : (p v : ℕ) → 0 < p → v % (p * 16) ≡ v / p % 16 * p + v % p
mod_next_digit p v h =
    ap (λ n. n % (p * 16)) whole
    ∙ mul-add-mod_self_right (v / p / 16) (p * 16) (v / p % 16 * p + v % p)
    ∙ mod-eq_of_lt small
  where
    digits : v / p ≡ v / p / 16 * 16 + v / p % 16
    digits = omega arith

    low : v / p % 16 ≤ 15
    low = omega arith

    whole : v ≡ v / p / 16 * (p * 16) + (v / p % 16 * p + v % p)
    whole = sym (div-add-mod' v p) ∙ ap (λ w. w * p + v % p) digits ∙ omega arith

    small : v / p % 16 * p + v % p < p * 16
    small = omega (arith, mul-le-mul_right p low, mod-lt v h)

without_dashes_of_hex_digits : (k v : ℕ) → without_dashes (hex_digits k v) ≡ hex_digits k v
unfolding hex_digits without_dashes
without_dashes_of_hex_digits zero v = refl
without_dashes_of_hex_digits (suc k) v =
    rw (uuid_digit_not_dash (v / 16 ^ k % 16) (omega arith), without_dashes)
      (ap (λ s. uuid_digit (v / 16 ^ k % 16) ∷ s) (without_dashes_of_hex_digits k v))

next_digit :
    (acc v k : ℕ)
    → (acc * 16 + v / 16 ^ k % 16) * 16 ^ k + v % 16 ^ k ≡ acc * 16 ^ suc k + v % 16 ^ suc k
next_digit acc v k =
    rw (pow-suc 16 k) (rw (mod_next_digit (16 ^ k) v (one-le-pow k 16 sixteen)) (omega arith))
  where
    sixteen : 0 < 16
    sixteen = omega arith

hex_number-hex_digits :
    (k v acc : ℕ) (rest : List ℕ)
    → hex_number acc (hex_digits k v ++ rest) ≡ hex_number (acc * 16 ^ k + v % 16 ^ k) rest
unfolding hex_digits hex_number
hex_number-hex_digits zero v acc rest = ap (λ n. hex_number n rest) (omega arith)
hex_number-hex_digits (suc k) v acc rest =
    rw (hex_value-uuid_digit (v / 16 ^ k % 16) (omega arith), hex_number)
      (rw (hex_number-hex_digits k v (acc * 16 + v / 16 ^ k % 16) rest)
        (ap (λ n. hex_number n rest) (next_digit acc v k)))

set_string_16-hex_digits :
    (k v : ℕ) (rest : List ℕ)
    → set_string_16 (hex_digits (suc k) v ++ rest) ≡ hex_number 0 (hex_digits (suc k) v ++ rest)
unfolding set_string_16 hex_digits
set_string_16-hex_digits k v rest =
    rw (uuid_digit_not_plus (v / 16 ^ k % 16) (omega arith), set_string_16) refl

-- The upper half of a UUID, in its three groups, and the lower half, in its two.
upper_digits :
    (d : ℕ)
    → d < 2 ^ 64
    → set_string_16 (hex_digits 8 (d / 2 ^ 32) ++ (hex_digits 4 (d / 2 ^ 16) ++ hex_digits 4 d))
      ≡ some d
unfolding hex_digits hex_number
upper_digits d h =
    set_string_16-hex_digits 7 (d / 2 ^ 32) (hex_digits 4 (d / 2 ^ 16) ++ hex_digits 4 d)
    ∙ hex_number-hex_digits 8 (d / 2 ^ 32) 0 (hex_digits 4 (d / 2 ^ 16) ++ hex_digits 4 d)
    ∙ hex_number-hex_digits 4 (d / 2 ^ 16) (0 * 16 ^ 8 + d / 2 ^ 32 % 16 ^ 8) (hex_digits 4 d)
    ∙ hex_number-hex_digits 4 d ((0 * 16 ^ 8 + d / 2 ^ 32 % 16 ^ 8) * 16 ^ 4 + d / 2 ^ 16 % 16 ^ 4)
        []
    ∙ ap some (omega arith)

lower_digits :
    (l : ℕ) → l < 2 ^ 64 → set_string_16 (hex_digits 4 (l / 2 ^ 48) ++ hex_digits 12 l) ≡ some l
unfolding hex_digits hex_number
lower_digits l h =
    set_string_16-hex_digits 3 (l / 2 ^ 48) (hex_digits 12 l)
    ∙ hex_number-hex_digits 4 (l / 2 ^ 48) 0 (hex_digits 12 l)
    ∙ hex_number-hex_digits 12 l (0 * 16 ^ 4 + l / 2 ^ 48 % 16 ^ 4) []
    ∙ ap some (omega arith)

dashes_dropped :
    (a b c d e : ℕ)
    → without_dashes (
        hex_digits 8 a
        ++ (45
            ∷ (hex_digits 4 b
                ++ (45 ∷ (hex_digits 4 c ++ (45 ∷ (hex_digits 4 d ++ (45 ∷ hex_digits 12 e))))))))
      ≡ hex_digits 8 a
        ++ (hex_digits 4 b ++ (hex_digits 4 c ++ (hex_digits 4 d ++ hex_digits 12 e)))
unfolding without_dashes
dashes_dropped a b c d e =
    rw (without_dashes-hex_digits 8 a _, without_dashes)
      (rw (without_dashes-hex_digits 4 b _, without_dashes)
        (rw (without_dashes-hex_digits 4 c _, without_dashes)
          (rw (without_dashes-hex_digits 4 d _, without_dashes)
            (rw (without_dashes_of_hex_digits 12 e)))))

uuid_parts_of :
    (s hex : List ℕ) (display lower : ℕ)
    → without_dashes s ≡ hex
    → length s ≡ 36
    → length hex ≡ 32
    → set_string_16 (take 16 hex) ≡ some display
    → set_string_16 (drop 16 hex) ≡ some lower
    → uuid_parts s ≡ record { upper = (display + 2 ^ 63) % 2 ^ 64; lower = lower }
unfolding uuid_parts
uuid_parts_of s hex display lower dashless long short hd hl =
    rw (dashless, uuid_parts) (rw long (rw short (rw hd (rw (dashless, uuid_parts) (rw hl refl)))))

uuid_parts-uuid_from_huge_int_parts :
    (upper lower : ℕ)
    → upper < 2 ^ 64
    → lower < 2 ^ 64
    → uuid_parts (uuid_from_huge_int_parts upper lower) ≡ record { upper = upper; lower = lower }
unfolding uuid_from_huge_int_parts hex_digits
uuid_parts-uuid_from_huge_int_parts upper lower hu hl =
    uuid_parts_of _
      (hex_digits 8 (((upper + 2 ^ 63) % 2 ^ 64) / 2 ^ 32)
        ++ (hex_digits 4 (((upper + 2 ^ 63) % 2 ^ 64) / 2 ^ 16)
            ++ (hex_digits 4 ((upper + 2 ^ 63) % 2 ^ 64)
                ++ (hex_digits 4 (lower / 2 ^ 48) ++ hex_digits 12 lower))))
      ((upper + 2 ^ 63) % 2 ^ 64) lower
      (dashes_dropped (((upper + 2 ^ 63) % 2 ^ 64) / 2 ^ 32) (((upper + 2 ^ 63) % 2 ^ 64) / 2 ^ 16)
        ((upper + 2 ^ 63) % 2 ^ 64) (lower / 2 ^ 48) lower)
      refl refl (upper_digits ((upper + 2 ^ 63) % 2 ^ 64) (omega arith)) (lower_digits lower hl)
    ∙ ap (λ u. record { upper = u; lower = lower }) (omega arith)

-- The two words of a UUID are written again from the text with dashes that the decoder makes of them.
pub uuid_to_huge_int_parts-uuid_from_huge_int_parts :
    (host : Host) (upper lower : ℕ)
    → upper < 2 ^ 64
    → lower < 2 ^ 64
    → uuid_to_huge_int_parts host (text (uuid_from_huge_int_parts upper lower))
      ≡ record { upper = upper; lower = lower }
unfolding uuid_to_huge_int_parts
uuid_to_huge_int_parts-uuid_from_huge_int_parts host upper lower hu hl =
    uuid_parts-uuid_from_huge_int_parts upper lower hu hl
