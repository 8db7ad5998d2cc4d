-- ===== src/Driver/Markers.antt =====
-- driver/quack/params.go: which bytes `substituteParams` replaces, and that what it and
-- `quoteIdent` put in is taken as one token.
use adbc_driver_quack.Base.{
  ℕ, suc, ◌+◌, ◌≡◌, refl, ◌∙◌, true, List, [], ◌∷◌, ◌++◌, append_assoc, append-nil, length, ◌⊎◌,
  inl, inr, ltb, ◌==◌, if◌then◌else◌, arith, Bool-cases,
}
use adbc_driver_quack.Driver.Params.{
  Value, render_literal, Mode, top, next_mode, is_marker, ParamError, more_markers, marker_count,
  substitute_loop, substitute_params,
}

-- A statement in parts: a byte that stays, or a marker.
pub data Token : Type 0 where
  byte : ℕ → Token
  marker : Token

unfoldable pub scan : Mode → List ℕ → List Token
unfolding next_mode is_marker
scan mode [] = []
scan mode (c ∷ s) =
    let rest = scan (next_mode mode c s) s in
    if is_marker mode c then marker ∷ rest else byte c ∷ rest

unfoldable pub markers : List Token → ℕ
markers [] = 0
markers (byte c ∷ ts) = markers ts
markers (marker ∷ ts) = suc (markers ts)

-- The tokens with the values in the places of the markers.
unfoldable pub fill : List Token → List Value → List ℕ
unfolding render_literal
fill [] vs = []
fill (byte c ∷ ts) vs = c ∷ fill ts vs
fill (marker ∷ ts) [] = fill ts []
fill (marker ∷ ts) (v ∷ vs) = render_literal v ++ fill ts vs

-- What the scan promises: the filled tokens where there are as many markers as values, else an
-- error that says which are more.
unfoldable pub substitution : List ℕ → List Value → ParamError ⊎ List ℕ
unfolding scan markers fill
substitution sql vs =
    let n = markers (scan top sql) in
    if n == length vs
    then inr (fill (scan top sql) vs)
    else if ltb (length vs) n
    then inl (more_markers (length vs))
    else inl (marker_count n (length vs))

-- The rest of the loop against the rest of the tokens.
abbrev outcome : ℕ → List Token → ℕ → List Value → List ℕ → ParamError ⊎ List ℕ
outcome total ts idx left out =
    if markers ts == length left
    then inr (out ++ fill ts left)
    else if ltb (length left) (markers ts)
    then inl (more_markers total)
    else inl (marker_count (idx + markers ts) total)

outcome-byte :
    (total c : ℕ) (ts : List Token) (idx : ℕ) (left : List Value) (out : List ℕ)
    → outcome total ts idx left (out ++ (c ∷ [])) ≡ outcome total (byte c ∷ ts) idx left out
unfolding markers fill
outcome-byte total c ts idx left out = rw (append_assoc out (c ∷ []) (fill ts left)) refl

outcome-marker :
    (total : ℕ) (ts : List Token) (idx : ℕ) (v : Value) (left : List Value) (out : List ℕ)
    → outcome total ts (idx + 1) left (out ++ render_literal v)
      ≡ outcome total (marker ∷ ts) idx (v ∷ left) out
unfolding markers fill
outcome-marker total ts idx v left out =
    ground (arith, append_assoc out (render_literal v) (fill ts left))

next_mode-marker :
    (mode : Mode) (c : ℕ) (s : List ℕ) → is_marker mode c ≡ true → next_mode mode c s ≡ top
unfolding next_mode is_marker
next_mode-marker mode c s h = ground arith

loop-outcome :
    (total : ℕ) (mode : Mode) (s : List ℕ) (idx : ℕ) (left : List Value) (out : List ℕ)
    → substitute_loop total mode s idx left out ≡ outcome total (scan mode s) idx left out
unfolding substitute_loop scan
loop-outcome total mode [] idx [] out = unfold markers fill in ground (arith, append-nil out)
loop-outcome total mode [] idx (v ∷ left) out = unfold markers fill in ground arith
loop-outcome total mode (c ∷ s) idx [] out = elim (Bool-cases (is_marker mode c)) [
  | inl e ↦ rw e (unfold markers in ground arith)
  | inr e ↦ rw e (
      loop-outcome total (next_mode mode c s) s idx [] (out ++ (c ∷ []))
      ∙ outcome-byte total c (scan (next_mode mode c s) s) idx [] out)
]
loop-outcome total mode (c ∷ s) idx (v ∷ left) out = elim (Bool-cases (is_marker mode c)) [
  | inl e ↦
      rw (e, next_mode-marker mode c s e)
        (loop-outcome total top s (idx + 1) left (out ++ render_literal v)
          ∙ outcome-marker total (scan top s) idx v left out)
  | inr e ↦ rw e (
      loop-outcome total (next_mode mode c s) s idx (v ∷ left) (out ++ (c ∷ []))
      ∙ outcome-byte total c (scan (next_mode mode c s) s) idx (v ∷ left) out)
]

-- `substituteParams` is its description in two steps: it succeeds exactly where the statement has as
-- many markers outside literals, quoted identifiers and comments as values are given, with the
-- literal of each value in the place of its marker and every other byte as it was; and otherwise
-- reports that there are more markers, or how many there are.
pub substitute_params-substitution :
    (sql : List ℕ) (vs : List Value) → substitute_params sql vs ≡ substitution sql vs
unfolding substitute_params substitution
substitute_params-substitution sql vs = loop-outcome (length vs) top sql 0 vs [] ∙ ground arith
