-- ===== src/Message/Validity/Rows.antt =====
-- internal/message/validity.go: a bitmap against the rows that it stands for.
use adbc_driver_quack.Base.{
  ℕ, zero, suc, ◌-◌, ◌/◌, ◌%◌, ◌^◌, ◌<◌, bit_and, bit_or, ◌≡◌, ◌≢◌, refl, ap, ◌∙◌, Bool, true,
  false, not, some, List, [], ◌∷◌, ◌++◌, append-nil, length, Bool-cases, Option-cases, inl, inr,
  get_elem?, replicate, ltb, ◌==◌, ◌&&◌, if◌then◌else◌, arith,
}
use adbc_driver_quack.Base.Bits.{bit_and_bit}
use adbc_driver_quack.Message.Validity.{
  update, validity_word_count, validity_is_valid, validity_all_valid, validity_set_valid,
  validity_set_null,
}
use adbc_driver_quack.Message.Validity.Bits.{
  bit_at, bit_at-bit_and, bit_at-bit_or, bit_at-power, bit_at-ones, bit_at-without, bit_at-lt-two,
  one-le-pow_two,
}

-- A bitmap of `count` rows that says of each row what `f` says.
pub record Represents (words : List ℕ) (count : ℕ) (f : ℕ → Bool) : Type 0 where
  pub row_of : (j : ℕ) → j < count → validity_is_valid (some words) j ≡ some (f j)

module _ {ℓ} {A : Type ℓ} (f : A → A) where
  pub get_elem?-update :
      (xs : List A) (i : ℕ) {x : A}
      → get_elem? xs i ≡ some x
      → (ys : List A) × (update f xs i ≡ some ys)
        × (get_elem? ys i ≡ some (f x))
        × ((j : ℕ) → j ≢ i → get_elem? ys j ≡ get_elem? xs j)
        × (length ys ≡ length xs)
  unfolding update
  get_elem?-update [] i h = cc
  get_elem?-update (x ∷ xs) zero h = (f x ∷ xs, refl, cc, other, refl)
    where
      other : (j : ℕ) → j ≢ 0 → get_elem? (f x ∷ xs) j ≡ get_elem? (x ∷ xs) j
      other zero n = absurd (n refl)
      other (suc j) n = refl
  get_elem?-update (x ∷ xs) (suc i) h =
      let (ys, e, hit, miss, l) = get_elem?-update xs i h in
      (x ∷ ys, rw e, hit, other ys miss, ap suc l)
    where
      other :
          (ys : List A)
          → ((j : ℕ) → j ≢ i → get_elem? ys j ≡ get_elem? xs j)
          → (j : ℕ) → j ≢ suc i
          → get_elem? (x ∷ ys) j ≡ get_elem? (x ∷ xs) j
      other ys miss zero n = refl
      other ys miss (suc j) n = miss j (λ e. n (ap suc e))

bit_test : (w k : ℕ) → not (bit_and w (2 ^ k) == 0) ≡ (bit_at w k == 1)
unfolding bit_at
bit_test w k = rw (bit_and_bit k w) (ground (arith, one-le-pow_two k))

validity_is_valid-word :
    (words : List ℕ) (j : ℕ) {w : ℕ}
    → get_elem? words (j / 64) ≡ some w
    → validity_is_valid (some words) j ≡ some (bit_at w (j % 64) == 1)
unfolding validity_is_valid
validity_is_valid-word words j {w} h = rw (h, validity_is_valid) (ap some (bit_test w (j % 64)))

-- The word of a row that has a value.
word_of_row :
    (words : List ℕ) (j : ℕ) {b : Bool}
    → validity_is_valid (some words) j ≡ some b
    → (w : ℕ) × (get_elem? words (j / 64) ≡ some w) × ((bit_at w (j % 64) == 1) ≡ b)
unfolding validity_is_valid
word_of_row words j h = elim (Option-cases (get_elem? words (j / 64))) [
  | inl e ↦ ground (arith, e)
  | inr (w, e) ↦ (w, e, ground (arith, bit_test w (j % 64)))
]

-- One word of a bitmap is changed, and so is one bit of it.
module _ (change : ℕ → ℕ) (row : ℕ) (value : Bool)
    (changed : (w k : ℕ)
      → k < 64
      → (bit_at (change w) k == 1) ≡ (if k == row % 64 then value else (bit_at w k == 1))) where
  update-Represents :
      (words : List ℕ) (count : ℕ) (f : ℕ → Bool)
      → row < count
      → Represents words count f
      → (words' : List ℕ) × (update change words (row / 64) ≡ some words')
        × Represents words' count (λ j. if j == row then value else f j)
  update-Represents words count f lt h =
      let (w, at_row, _) = word_of_row words row (h.row_of row lt) in
      let (words', e, hit, miss, l) = get_elem?-update change words (row / 64) at_row in
      (words', e, record { row_of = row_of words' w at_row hit miss })
    where
      same_word :
          (words : List ℕ) (w v : ℕ) {i j : ℕ}
          → j ≡ i
          → get_elem? words i ≡ some w
          → get_elem? words j ≡ some v
          → v ≡ w
      same_word words w v e at_i at_j = ground (arith, ap (get_elem? words) e)

      chosen :
          (w j : ℕ)
          → j / 64 ≡ row / 64
          → (bit_at w (j % 64) == 1) ≡ f j
          → (if j % 64 == row % 64 then value else (bit_at w (j % 64) == 1))
            ≡ (if j == row then value else f j)
      chosen w j e bit = ground arith

      row_of :
          (words' : List ℕ) (w : ℕ)
          → get_elem? words (row / 64) ≡ some w
          → get_elem? words' (row / 64) ≡ some (change w)
          → ((i : ℕ) → i ≢ row / 64 → get_elem? words' i ≡ get_elem? words i)
          → (j : ℕ) → j < count
          → validity_is_valid (some words') j ≡ some (if j == row then value else f j)
      row_of words' w at_row hit miss j below =
          let (v, at_j, bit) = word_of_row words j (h.row_of j below) in
          elim (Bool-cases (j / 64 == row / 64)) [
            | inl same ↦
                let e : j / 64 ≡ row / 64 = ground arith in
                validity_is_valid-word words' j {w = change w} (ap (get_elem? words') e ∙ hit)
                ∙ ap some (
                    changed w (j % 64) (omega arith)
                    ∙ chosen w j e (rw (same_word words w v e at_row at_j) at bit))
            | inr apart ↦
                let n : j / 64 ≢ row / 64 = ground arith in
                validity_is_valid-word words' j {w = v} (miss (j / 64) n ∙ at_j)
                ∙ ap some (bit ∙ ground (arith, n))
          ]

-- A row is set to null and no other row changes: `ValiditySetNull` runs on a bitmap that has the
-- row, and its result stands for the rows as they were but for this one.
pub validity_set_null-Represents :
    (words : List ℕ) (count row : ℕ) (f : ℕ → Bool)
    → row < count
    → Represents words count f
    → (words' : List ℕ) × (validity_set_null words row ≡ some words')
      × Represents words' count (λ j. if j == row then false else f j)
unfolding validity_set_null
validity_set_null-Represents words count row f lt h =
    update-Represents (λ w. bit_and w (2 ^ 64 - 1 - 2 ^ (row % 64))) row false
      (λ w k below. cleared w k below) words count f lt h
  where
    cleared :
        (w k : ℕ)
        → k < 64
        → (bit_at (bit_and w (2 ^ 64 - 1 - 2 ^ (row % 64))) k == 1)
          ≡ (if k == row % 64 then false else (bit_at w k == 1))
    cleared w k below =
        rw
          (
            bit_at-bit_and w (2 ^ 64 - 1 - 2 ^ (row % 64)) k,
            bit_at-without 64 (row % 64) k (omega arith) below,
          )
          (ground (arith, bit_at-lt-two w k))

-- A row is set to valid and no other row changes: `ValiditySetValid` runs on a bitmap that has the
-- row, and its result stands for the rows as they were but for this one.
pub validity_set_valid-Represents :
    (words : List ℕ) (count row : ℕ) (f : ℕ → Bool)
    → row < count
    → Represents words count f
    → (words' : List ℕ) × (validity_set_valid words row ≡ some words')
      × Represents words' count (λ j. if j == row then true else f j)
unfolding validity_set_valid
validity_set_valid-Represents words count row f lt h =
    update-Represents (λ w. bit_or w (2 ^ (row % 64))) row true (λ w k below. set w k) words count f
      lt h
  where
    set :
        (w k : ℕ)
        → (bit_at (bit_or w (2 ^ (row % 64))) k == 1)
          ≡ (if k == row % 64 then true else (bit_at w k == 1))
    set w k =
        rw (bit_at-bit_or w (2 ^ (row % 64)) k, bit_at-power (row % 64) k)
          (ground (arith, bit_at-lt-two w k))

get_elem?-replicate :
    (n v i : ℕ) → i < n → (rest : List ℕ) → get_elem? (replicate n v ++ rest) i ≡ some v
get_elem?-replicate zero v i h rest = absurd (omega arith)
get_elem?-replicate (suc n) v zero h rest = refl
get_elem?-replicate (suc n) v (suc i) h rest = get_elem?-replicate n v i (omega arith) rest

get_elem?-last : (n v w : ℕ) → get_elem? (replicate n v ++ (w ∷ [])) n ≡ some w
get_elem?-last zero v w = refl
get_elem?-last (suc n) v w = get_elem?-last n v w

-- The bitmap that `ValidityAllValid` makes says of each of its rows that it is valid, those in a word
-- that is cut off included. The number of rows is an int.
pub validity_all_valid-Represents :
    (count : ℕ) → count < 2 ^ 63 → Represents (validity_all_valid count) count (λ j. true)
unfolding validity_all_valid validity_word_count
validity_all_valid-Represents count h = record { row_of = row_of }
  where
    full :
        (j n : ℕ) (rest : List ℕ)
        → j / 64 < n
        → validity_is_valid (some (replicate n (2 ^ 64 - 1) ++ rest)) j ≡ some true
    full j n rest below =
        validity_is_valid-word _ j (get_elem?-replicate n (2 ^ 64 - 1) (j / 64) below rest)
        ∙ rw (bit_at-ones 64 (j % 64)) (ground arith)

    cut :
        (j n k : ℕ)
        → j / 64 ≡ n
        → j % 64 < k
        → validity_is_valid (some (replicate n (2 ^ 64 - 1) ++ ((2 ^ k - 1) ∷ []))) j ≡ some true
    cut j n k e below =
        validity_is_valid-word _ j {w = 2 ^ k - 1}
          (rw e (get_elem?-last n (2 ^ 64 - 1) (2 ^ k - 1)))
        ∙ rw (bit_at-ones k (j % 64)) (ground arith)

    whole :
        (j : ℕ)
        → j / 64 < count / 64
        → validity_is_valid (some (replicate (count / 64) (2 ^ 64 - 1))) j ≡ some true
    whole j below = rw append-nil at (full j (count / 64) [] below)

    some_word :
        (j : ℕ)
        → j < count
        → (ltb 0 (count % 64) && ltb (count / 64) (validity_word_count count)) ≡ true
        → validity_is_valid
            (some (replicate (count / 64) (2 ^ 64 - 1) ++ ((2 ^ (count % 64) - 1) ∷ [])))
            j
          ≡ some true
    some_word j below more = elim (Bool-cases (j / 64 == count / 64)) [
      | inl last ↦ cut j (count / 64) (count % 64) (ground arith) (ground arith)
      | inr before ↦ full j (count / 64) _ (ground arith)
    ]

    row_of : (j : ℕ) → j < count → validity_is_valid (some (validity_all_valid count)) j ≡ some true
    row_of j below =
        elim (Bool-cases (ltb 0 (count % 64) && ltb (count / 64) (validity_word_count count))) [
          | inl more ↦ rw more (some_word j below more)
          | inr no_more ↦ rw no_more (whole j (ground arith))
        ]
