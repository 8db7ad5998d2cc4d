-- ===== src/Message/Validity/Wire.antt =====
-- internal/message/validity.go: the bytes of a bitmap.
use adbc_driver_quack.Base.{
  ℕ, zero, suc, ◌+◌, ◌*◌, ◌/◌, ◌%◌, ◌^◌, ◌≤◌, ◌<◌, ◌≡◌, refl, ap, ◌∙◌, some, List, [], ◌∷◌, ◌++◌,
  length, All, arith,
}
use adbc_driver_quack.Base.Bits.{bit_or_disjoint}
use adbc_driver_quack.Codec.Writer.{le_bytes}
use adbc_driver_quack.Message.Validity.{
  validity_word_count, word_of_bytes, words_of_bytes, bytes_of_words, validity_from_bytes,
  validity_to_bytes,
}
use native.Mathlib.Nat.{pow-suc}
use native.Mathlib.Numerals.{towards_suc}

power_step : (s : ℕ) → 2 ^ (s + 8) ≡ 256 * 2 ^ s
power_step s = simp towards_suc (omega arith)

split : (w : ℕ) → w ≡ w % 256 + w / 256 * 256
split w = omega arith

-- The bytes of `w` from bit `s` on, below which `v` stands.
word_of_bytes-le_bytes :
    (k s v w : ℕ) (rest : List ℕ)
    → v < 2 ^ s
    → w * 2 ^ s < 2 ^ 64
    → w < 256 ^ k
    → word_of_bytes k s v (le_bytes k w ++ rest) ≡ v + w * 2 ^ s
unfolding word_of_bytes
word_of_bytes-le_bytes zero s v w rest hv hw small =
    let e : w ≡ 0 = omega arith in rw e (omega arith)
word_of_bytes-le_bytes (suc k) s v w rest hv hw small =
    let parts : w * 2 ^ s ≡ w % 256 * 2 ^ s + w / 256 * (256 * 2 ^ s) =
      omega (arith, ap (λ (t : ℕ). t * 2 ^ s) (split w)) in
    let low : w % 256 * 2 ^ s % 2 ^ 64 ≡ w % 256 * 2 ^ s = omega arith in
    let bits : w % 256 * 2 ^ s ≤ 255 * 2 ^ s = grind arith in
    rw (low, bit_or_disjoint s v (w % 256) hv)
      (word_of_bytes-le_bytes k (s + 8) (v + w % 256 * 2 ^ s) (w / 256) rest
          (omega (arith, power_step s)) (rw (power_step s) (omega arith))
          (omega (arith, pow-suc 256 k))
        ∙ rw (power_step s) (omega arith))

words_of_bytes-bytes_of_words :
    (words : List ℕ)
    → All (λ w. w < 2 ^ 64) words
    → (bytes : List ℕ) × (bytes_of_words words (length words) ≡ some bytes)
      × (words_of_bytes (length words) bytes ≡ words)
      × (length bytes ≡ 8 * length words)
unfolding bytes_of_words words_of_bytes
words_of_bytes-bytes_of_words [] h = ([], refl, refl, refl)
words_of_bytes-bytes_of_words (w ∷ words) (lt, h) =
    let (bytes, e, back, l) = words_of_bytes-bytes_of_words words h in
    (
      le_bytes 8 w ++ bytes,
      rw e,
      rw (word_of_bytes-le_bytes 8 0 0 w bytes (omega arith) (omega arith) (omega arith), back)
          (ap (λ v. v ∷ words) (omega arith)),
      omega arith,
    )

-- A bitmap with as many words as `ValidityWordCount` asks for, each below 2 ^ 64, is written as
-- eight bytes for each word, with no index out of range, and `ValidityFromBytes` gives the words
-- again.
pub validity_from_bytes-validity_to_bytes :
    (words : List ℕ) (count : ℕ)
    → length words ≡ validity_word_count count
    → All (λ w. w < 2 ^ 64) words
    → (bytes : List ℕ) × (validity_to_bytes (some words) count ≡ some bytes)
      × (validity_from_bytes bytes count ≡ words)
      × (length bytes ≡ 8 * validity_word_count count)
unfolding validity_from_bytes validity_to_bytes
validity_from_bytes-validity_to_bytes words count l h =
    rw l at (words_of_bytes-bytes_of_words words h)
