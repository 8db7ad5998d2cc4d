-- ===== src/Message/Vector/Dictionary.antt =====
-- internal/message/vector_codec.go: the rows of a dictionary vector.
use adbc_driver_quack.Base.{
  ℕ, zero, suc, ◌+◌, ◌^◌, ◌≤◌, ◌<◌, ◌≡◌, refl, ap, sym, ◌∙◌, Bool, true, false, not, Option, none,
  some, List, [], ◌∷◌, length, get_elem?, All, ◌==◌, if◌then◌else◌, arith, Bool-cases, inl, inr,
}
use adbc_driver_quack.Message.Validity.{validity_is_null, validity_set_null}
use adbc_driver_quack.Message.Validity.Rows.{
  Represents, validity_set_null-Represents, validity_all_valid-Represents,
}
use adbc_driver_quack.Message.Vector.Shapes.{index, or_all_valid, project_loop, project_vector}
use adbc_driver_quack.Message.Vector.Types.{Host, DecodedVector, typed_vec, Kind, size, get_object}
use adbc_driver_quack.QuackType.Types.{LogicalType}
use native.Mathlib.Nat.{zero-add}

-- A bitmap, or nil for all rows valid, that says of each of `count` rows what `f` says.
abbrev Marks : Option (List ℕ) → ℕ → (ℕ → Bool) → Type 0
Marks none count f = (j : ℕ) → j < count → f j ≡ true
Marks (some words) count f = Represents words count f

Marks-null :
    (validity : Option (List ℕ)) (count : ℕ) (f : ℕ → Bool) (j : ℕ)
    → j < count
    → Marks validity count f
    → validity_is_null validity j ≡ some (not (f j))
unfolding validity_is_null
Marks-null none count f j below h = rw (h j below) refl
Marks-null (some words) count f j below h = ground (arith, h.row_of j below)

Marks-or_all_valid :
    (validity : Option (List ℕ)) (count : ℕ) (f : ℕ → Bool)
    → count < 2 ^ 63
    → Marks validity count f
    → Represents (or_all_valid count validity) count f
Marks-or_all_valid none count f h all = record {
  row_of = λ j below.
      (validity_all_valid-Represents count h).row_of j below ∙ ap some (sym (all j below));
}
Marks-or_all_valid (some words) count f h marks = marks

get_elem?-lt : (xs : List ℕ) (i : ℕ) {x : ℕ} → get_elem? xs i ≡ some x → i < length xs
get_elem?-lt [] i h = cc
get_elem?-lt (y ∷ xs) zero h = omega arith
get_elem?-lt (y ∷ xs) (suc i) h = omega (arith, get_elem?-lt xs i h)

shift : (i k : ℕ) → i + suc k ≡ i + 1 + k
shift i k = omega arith

-- An entry of the dictionary that a row can select: null, or with a value.
abbrev pub IsEntry : List ℕ → Option (List ℕ) → ℕ → Type 0
IsEntry values nulls idx =
    (null : Bool) × (validity_is_null nulls (index idx) ≡ some null)
    × (null ≡ false → (v : ℕ) × (get_elem? values (index idx) ≡ some v))

module _ (values : List ℕ) (nulls : Option (List ℕ)) (count : ℕ) (fits : count < 2 ^ 63) where
  -- The result of the loop from row `i` on, and the marks that it leaves.
  record Projected (i : ℕ) (selection : List ℕ) (validity : Option (List ℕ)) (f : ℕ → Bool)
      : Type 0 where
    arr : List ℕ
    validity' : Option (List ℕ)
    marks : ℕ → Bool
    run : project_loop values nulls count i selection validity ≡ some (arr, validity')
    is_marked : Marks validity' count marks
    before : (j : ℕ) → j < i → marks j ≡ f j
    null_row :
        (k idx : ℕ)
        → get_elem? selection k ≡ some idx
        → validity_is_null nulls (index idx) ≡ some (not (marks (i + k)))
    value_row :
        (k idx : ℕ)
        → get_elem? selection k ≡ some idx
        → marks (i + k) ≡ true
        → get_elem? arr k ≡ get_elem? values (index idx)
    as_long : length arr ≡ length selection

  project_null :
      (i idx : ℕ) (selection : List ℕ) (validity : Option (List ℕ)) {words : List ℕ} (f : ℕ → Bool)
      → validity_is_null nulls (index idx) ≡ some true
      → validity_set_null (or_all_valid count validity) i ≡ some words
      → Projected (i + 1) selection (some words) (λ j. if j == i then false else f j)
      → Projected i (idx ∷ selection) validity f
  unfolding project_loop
  project_null i idx selection validity f null set p = record {
    arr = 0 ∷ p.arr;
    validity' = p.validity';
    marks = p.marks;
    run = ground (arith, p.run, null, set);
    is_marked = p.is_marked;
    before = λ j h. p.before j (omega arith) ∙ ground arith;
    null_row = null_row;
    value_row = value_row;
    as_long = ap suc p.as_long;
  }
    where
      here : p.marks (i + 0) ≡ false
      here = ap p.marks (omega arith) ∙ (p.before i (omega arith) ∙ ground arith)

      null_row :
          (k j : ℕ)
          → get_elem? (idx ∷ selection) k ≡ some j
          → validity_is_null nulls (index j) ≡ some (not (p.marks (i + k)))
      null_row zero j h = let e : idx ≡ j = cc in rw (← e, here) null
      null_row (suc k) j h = rw (shift i k) (p.null_row k j h)

      value_row :
          (k j : ℕ)
          → get_elem? (idx ∷ selection) k ≡ some j
          → p.marks (i + k) ≡ true
          → get_elem? (0 ∷ p.arr) k ≡ get_elem? values (index j)
      value_row zero j h marked = cc (here)
      value_row (suc k) j h marked = p.value_row k j h (rw (← shift i k) marked)

  project_value :
      (i idx v : ℕ) (selection : List ℕ) (validity : Option (List ℕ)) (f : ℕ → Bool)
      → validity_is_null nulls (index idx) ≡ some false
      → get_elem? values (index idx) ≡ some v
      → f i ≡ true
      → Projected (i + 1) selection validity f
      → Projected i (idx ∷ selection) validity f
  unfolding project_loop
  project_value i idx v selection validity f null at valid p = record {
    arr = v ∷ p.arr;
    validity' = p.validity';
    marks = p.marks;
    run = ground (arith, p.run, null, at);
    is_marked = p.is_marked;
    before = λ j h. p.before j (omega arith);
    null_row = null_row;
    value_row = value_row;
    as_long = ap suc p.as_long;
  }
    where
      here : p.marks (i + 0) ≡ true
      here = ap p.marks (omega arith) ∙ (p.before i (omega arith) ∙ valid)

      null_row :
          (k j : ℕ)
          → get_elem? (idx ∷ selection) k ≡ some j
          → validity_is_null nulls (index j) ≡ some (not (p.marks (i + k)))
      null_row zero j h = let e : idx ≡ j = cc in rw (← e, here) null
      null_row (suc k) j h = rw (shift i k) (p.null_row k j h)

      value_row :
          (k j : ℕ)
          → get_elem? (idx ∷ selection) k ≡ some j
          → p.marks (i + k) ≡ true
          → get_elem? (v ∷ p.arr) k ≡ get_elem? values (index j)
      value_row zero j h marked = let e : idx ≡ j = cc in rw (← e) (sym at)
      value_row (suc k) j h marked = p.value_row k j h (rw (← shift i k) marked)

  projected :
      (i : ℕ) (selection : List ℕ) (validity : Option (List ℕ)) (f : ℕ → Bool)
      → i + length selection ≤ count
      → Marks validity count f
      → ((j : ℕ) → i ≤ j → f j ≡ true)
      → All (IsEntry values nulls) selection
      → Projected i selection validity f
  unfolding project_loop
  projected i [] validity f h marks valid entries = record {
    arr = [];
    validity' = validity;
    marks = f;
    run = refl;
    is_marked = marks;
    before = λ j below. refl;
    null_row = λ k idx none_left. cc;
    value_row = λ k idx none_left marked. cc;
    as_long = refl;
  }
  projected i (idx ∷ selection) validity f h marks valid ((true, null, _), entries) =
      let (words, set, marks') =
        validity_set_null-Represents (or_all_valid count validity) count i f (omega arith)
          (Marks-or_all_valid validity count f fits marks) in
      project_null i idx selection validity f null set (
        projected (i + 1) selection (some words) (λ j. if j == i then false else f j) (omega arith)
          marks' (λ j le. ground (arith, valid j (omega arith))) entries)
  projected i (idx ∷ selection) validity f h marks valid ((false, null, at), entries) =
      let (v, e) = at refl in
      project_value i idx v selection validity f null e (valid i (omega arith)) (
        projected (i + 1) selection validity f (omega arith) marks (λ j le. valid j (omega arith))
          entries)

rows-Projected :
    (host : Host) (t u : LogicalType) (kind : Kind) (values : List ℕ) (nulls : Option (List ℕ))
    (selection : List ℕ) (fits : length selection < 2 ^ 63)
    → Projected values nulls (length selection) fits 0 selection none (λ j. true)
    → (v : DecodedVector host.Rat) × (project_vector host t
          (some (typed_vec kind u values nulls))
          selection
        ≡ some v)
      × (size v ≡ length selection)
      × ((i idx : ℕ)
          → get_elem? selection i ≡ some idx
          → get_object v i ≡ get_object {Q = host.Rat} (typed_vec kind u values nulls) (index idx))
unfolding project_vector size get_object
rows-Projected host t u kind values nulls selection fits p =
    (typed_vec kind t p.arr p.validity', ground (arith, p.run), p.as_long, row_of)
  where
    row_of :
        (i idx : ℕ)
        → get_elem? selection i ≡ some idx
        → get_object {Q = host.Rat} (typed_vec kind t p.arr p.validity') i
          ≡ get_object {Q = host.Rat} (typed_vec kind u values nulls) (index idx)
    row_of i idx at =
        let null = rw (zero-add i) at (p.null_row i idx at) in
        let null' =
          Marks-null p.validity' (length selection) p.marks i (get_elem?-lt selection i at)
            p.is_marked in
        elim (Bool-cases (p.marks i)) [
          | inl valid ↦
              rw (get_object, null, null', valid, p.value_row i idx at (rw (zero-add i) valid)) refl
          | inr null_row ↦ rw (get_object, null, null', null_row) refl
        ]

-- A dictionary vector with a typed dictionary has a row for each index of the selection, and row `i`
-- is row `selection[i]` of the dictionary, null where that is null: `projectVector` runs where each
-- index selects an entry of the dictionary, with a bitmap or without, and the bitmap that it makes
-- on the way, if any, marks just the null rows.
pub project_vector-rows :
    (host : Host) (t u : LogicalType) (kind : Kind) (values : List ℕ) (nulls : Option (List ℕ))
    (selection : List ℕ)
    → length selection < 2 ^ 63
    → All (IsEntry values nulls) selection
    → (v : DecodedVector host.Rat) × (project_vector host t
          (some (typed_vec kind u values nulls))
          selection
        ≡ some v)
      × (size v ≡ length selection)
      × ((i idx : ℕ)
          → get_elem? selection i ≡ some idx
          → get_object v i ≡ get_object {Q = host.Rat} (typed_vec kind u values nulls) (index idx))
project_vector-rows host t u kind values nulls selection fits entries =
    rows-Projected host t u kind values nulls selection fits (
      projected values nulls (length selection) fits 0 selection none (λ j. true) (omega arith)
        (λ j below. refl) (λ j le. refl) entries)
