-- ===== src/Message/Validity.antt =====
-- internal/message/validity.go: a bit for each row, packed into words of 64 bits. A nil bitmap is
-- `none`; where an index is out of range Go panics, and the model returns `none`.
pub mod Bits
pub mod Rows
pub mod Wire
use adbc_driver_quack.Base.{
  ℕ, zero, suc, ◌+◌, ◌-◌, ◌*◌, ◌/◌, ◌%◌, ◌^◌, bit_and, bit_or, Bool, true, false, not, Option, none,
  some, List, [], ◌∷◌, ◌++◌, length, get_elem?, replicate, ltb, ◌==◌, ◌&&◌, if◌then◌else◌,
}
use adbc_driver_quack.Codec.Writer.{le_bytes}

-- `xs[i] = f(xs[i])`
unfoldable pub update {ℓ} : {A : Type ℓ} → (A → A) → List A → ℕ → Option (List A)
update f [] i = none
update f (x ∷ xs) zero = some (f x ∷ xs)
update f (x ∷ xs) (suc i) = elim (update f xs i) [ none ↦ none | some ys ↦ some (x ∷ ys) ]

-- `ValidityWordCount`: the sum may wrap to a negative int, and the shift copies its sign.
unfoldable pub validity_word_count : ℕ → ℕ
validity_word_count count =
    let sum = (count + 63) % 2 ^ 64 in
    if ltb sum (2 ^ 63) then sum / 64 else sum / 64 + (2 ^ 64 - 2 ^ 58)

-- `ValidityWireByteCount`
unfoldable pub validity_wire_byte_count : ℕ → ℕ
unfolding validity_word_count
validity_wire_byte_count count = validity_word_count count * 8 % 2 ^ 64

-- `ValidityIsValid`
unfoldable pub validity_is_valid : Option (List ℕ) → ℕ → Option Bool
validity_is_valid none row = some true
validity_is_valid (some words) row = elim (get_elem? words (row / 64)) [
  | none ↦ none
  | some w ↦ some (not (bit_and w (2 ^ (row % 64)) == 0))
]

-- `ValidityIsNull`
unfoldable pub validity_is_null : Option (List ℕ) → ℕ → Option Bool
unfolding validity_is_valid
validity_is_null validity row = elim (validity_is_valid validity row) [
  | none ↦ none
  | some b ↦ some (not b)
]

-- The inner loop of `ValidityFromBytes`: at most `k` bytes, the next one shifted by `shift`.
unfoldable pub word_of_bytes : ℕ → ℕ → ℕ → List ℕ → ℕ
word_of_bytes zero shift v bytes = v
word_of_bytes (suc k) shift v [] = v
word_of_bytes (suc k) shift v (b ∷ bytes) =
    word_of_bytes k (shift + 8) (bit_or v (b * 2 ^ shift % 2 ^ 64)) bytes

abbrev pub drop_eight : List ℕ → List ℕ
drop_eight (a ∷ (b ∷ (c ∷ (d ∷ (e ∷ (f ∷ (g ∷ (h ∷ bytes)))))))) = bytes
drop_eight _ = []

-- The outer loop, with the words left.
unfoldable pub words_of_bytes : ℕ → List ℕ → List ℕ
words_of_bytes zero bytes = []
words_of_bytes (suc n) bytes = word_of_bytes 8 0 0 bytes ∷ words_of_bytes n (drop_eight bytes)

-- `ValidityFromBytes`
unfoldable pub validity_from_bytes : List ℕ → ℕ → List ℕ
unfolding words_of_bytes validity_word_count
validity_from_bytes bytes count = words_of_bytes (validity_word_count count) bytes

-- The loop of `ValidityToBytes` over the words, each in the next eight bytes of `out`.
unfoldable pub bytes_of_words : List ℕ → ℕ → Option (List ℕ)
bytes_of_words [] room = some (replicate (room * 8) 0)
bytes_of_words (w ∷ words) zero = none
bytes_of_words (w ∷ words) (suc room) = elim (bytes_of_words words room) [
  | none ↦ none
  | some bytes ↦ some (le_bytes 8 w ++ bytes)
]

-- The loop for a nil bitmap: the bits of the rows from `i` on.
unfoldable pub set_rows : ℕ → ℕ → List ℕ → Option (List ℕ)
unfolding update
set_rows zero i out = some out
set_rows (suc left) i out = elim (update (λ b. bit_or b (2 ^ (i % 8))) out (i / 8)) [
  | none ↦ none
  | some out' ↦ set_rows left (i + 1) out'
]

-- `ValidityToBytes`
unfoldable pub validity_to_bytes : Option (List ℕ) → ℕ → Option (List ℕ)
unfolding set_rows bytes_of_words validity_wire_byte_count
validity_to_bytes none count = set_rows count 0 (replicate (validity_wire_byte_count count) 0)
validity_to_bytes (some words) count = bytes_of_words words (validity_word_count count)

-- `ValidityAllValid`: the full words, the one that is cut off, and no more.
unfoldable pub validity_all_valid : ℕ → List ℕ
unfolding validity_word_count
validity_all_valid count =
    let full = count / 64 in
    let rem = count % 64 in
    if ltb 0 rem && ltb full (validity_word_count count)
    then replicate full (2 ^ 64 - 1) ++ ((2 ^ rem - 1) ∷ [])
    else replicate full (2 ^ 64 - 1)

-- `ValiditySetValid`
unfoldable pub validity_set_valid : List ℕ → ℕ → Option (List ℕ)
unfolding update
validity_set_valid words row = update (λ w. bit_or w (2 ^ (row % 64))) words (row / 64)

-- `ValiditySetNull`
unfoldable pub validity_set_null : List ℕ → ℕ → Option (List ℕ)
unfolding update
validity_set_null words row = update (λ w. bit_and w (2 ^ 64 - 1 - 2 ^ (row % 64))) words (row / 64)
