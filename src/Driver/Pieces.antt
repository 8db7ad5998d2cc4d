-- ===== src/Driver/Pieces.antt =====
-- driver/quack/params.go: statements as pieces of SQL, and what `substituteParams` makes of them.
use adbc_driver_quack.Base.{
  ℕ, suc, ◌≡◌, ◌≢◌, refl, ap, ◌∙◌, Bool-cases, false, List, [], ◌∷◌, ◌++◌, append_assoc, map, All,
  length, ◌⊎◌, inl, inr, ltb, ◌==◌, if◌then◌else◌, arith,
}
use adbc_driver_quack.Driver.Markers.{
  Token, byte, marker, scan, markers, fill, substitution, substitute_params-substitution,
}
use adbc_driver_quack.Driver.Params.{
  Value, render_literal, top, line_comment, block_comment, next_is, next_mode, is_marker,
  ParamError, more_markers, marker_count, substitute_params, quote_string, quote_ident,
}
use adbc_driver_quack.Driver.Quoting.{scan-quote}

-- A piece of a statement: a byte that stands for itself, a string, a quoted identifier, a comment up to
-- the end of its line, a comment in brackets, and a parameter marker.
pub data Piece : Type 0 where
  plain : ℕ → Piece
  literal : List ℕ → Piece
  identifier : List ℕ → Piece
  line_note : List ℕ → Piece
  block_note : List ℕ → Piece
  parameter : Piece

unfoldable pub text_of : Piece → List ℕ
text_of (plain c) = c ∷ []
text_of (literal s) = quote_string s
text_of (identifier s) = quote_ident s
text_of (line_note s) = 45 ∷ (45 ∷ (s ++ (10 ∷ [])))
text_of (block_note s) = 47 ∷ (42 ∷ (s ++ (42 ∷ (47 ∷ []))))
text_of parameter = 63 ∷ []

unfoldable pub written : List Piece → List ℕ
unfolding text_of
written [] = []
written (p ∷ ps) = text_of p ++ written ps

-- No star in front of a slash.
abbrev pub Open : List ℕ → Type 0
Open [] = Unit {0}
Open (c ∷ s) = (c ≡ 42 → next_is 47 s ≡ false) × Open s

-- A piece that is read as such in front of some text: a plain byte is no quote and no question mark, and
-- begins no comment; a comment does not end early, where a slash right behind its opening ends one.
abbrev pub IsPiece : Piece → List ℕ → Type 0
IsPiece (plain c) rest =
    (c ≢ 39)
    × (c ≢ 34)
    × (c ≢ 63)
    × (c ≡ 45 → next_is 45 rest ≡ false)
    × (c ≡ 47 → next_is 42 rest ≡ false)
IsPiece (line_note s) rest = All (λ c. c ≢ 10) s
IsPiece (block_note s) rest = Open (42 ∷ s)
IsPiece _ rest = Unit {0}

abbrev pub IsStatement : List Piece → Type 0
IsStatement [] = Unit {0}
IsStatement (p ∷ ps) = IsPiece p (written ps) × IsStatement ps

unfoldable pub parameters : List Piece → ℕ
parameters [] = 0
parameters (parameter ∷ ps) = suc (parameters ps)
parameters (_ ∷ ps) = parameters ps

-- The statement with the literals of the values for its parameters, in order.
unfoldable pub filled : List Piece → List Value → List ℕ
unfolding text_of
filled [] vs = []
filled (parameter ∷ ps) [] = filled ps []
filled (parameter ∷ ps) (v ∷ vs) = render_literal v ++ filled ps vs
filled (p ∷ ps) vs = text_of p ++ filled ps vs

-- What is promised for a statement and some values.
unfoldable pub expected : List Piece → List Value → ParamError ⊎ List ℕ
unfolding parameters filled
expected ps vs =
    if parameters ps == length vs
    then inr (filled ps vs)
    else if ltb (length vs) (parameters ps)
    then inl (more_markers (length vs))
    else inl (marker_count (parameters ps) (length vs))

-- The pieces as tokens of the scan.
tokens_of : Piece → List Token
tokens_of parameter = marker ∷ []
tokens_of p = map byte (text_of p)

tokens : List Piece → List Token
tokens [] = []
tokens (p ∷ ps) = tokens_of p ++ tokens ps

scan-line :
    (s rest : List ℕ)
    → All (λ c. c ≢ 10) s
    → scan line_comment (s ++ (10 ∷ rest)) ≡ map byte (s ++ (10 ∷ [])) ++ scan top rest
unfolding scan next_mode is_marker
scan-line [] rest h = refl
scan-line (c ∷ s) rest (first, h) = ground (arith, first, scan-line s rest h)

next_is-append : (s rest : List ℕ) → next_is 47 (s ++ (42 ∷ rest)) ≡ next_is 47 s
next_is-append [] rest = refl
next_is-append (c ∷ s) rest = refl

scan-block :
    (s rest : List ℕ)
    → Open s
    → scan block_comment (s ++ (42 ∷ (47 ∷ rest)))
      ≡ map byte (s ++ (42 ∷ (47 ∷ []))) ++ scan top rest
unfolding scan next_mode is_marker
scan-block [] rest h = refl
scan-block (c ∷ s) rest (first, h) = elim (Bool-cases (c == 42)) [
  | inl e ↦
      ground
        (arith, e, first (ground (arith, e)), next_is-append s (47 ∷ rest), scan-block s rest h)
  | inr e ↦ ground (arith, e, scan-block s rest h)
]

scan-piece :
    (p : Piece) (rest : List ℕ)
    → IsPiece p rest
    → scan top (text_of p ++ rest) ≡ tokens_of p ++ scan top rest
unfolding text_of tokens_of scan next_mode is_marker
scan-piece (plain c) rest (a, b, d, e, f) = ground (arith, a, b, d, e, f)
scan-piece (literal s) rest h = (scan-quote s rest).0
scan-piece (identifier s) rest h = (scan-quote s rest).1
scan-piece (line_note s) rest h =
    ap (λ u. byte 45 ∷ (byte 45 ∷ scan line_comment u)) (append_assoc s (10 ∷ []) rest)
    ∙ ap (λ ts. byte 45 ∷ (byte 45 ∷ ts)) (scan-line s rest h)
scan-piece (block_note s) rest h =
    ap (λ u. byte 47 ∷ scan block_comment (42 ∷ u)) (append_assoc s (42 ∷ (47 ∷ [])) rest)
    ∙ ap (λ ts. byte 47 ∷ ts) (scan-block (42 ∷ s) rest h)
scan-piece parameter rest h = refl

scan-written : (ps : List Piece) → IsStatement ps → scan top (written ps) ≡ tokens ps
unfolding written tokens scan
scan-written [] h = refl
scan-written (p ∷ ps) (first, h) =
    scan-piece p (written ps) first ∙ ap (λ ts. tokens_of p ++ ts) (scan-written ps h)

markers-bytes : (s : List ℕ) (ts : List Token) → markers (map byte s ++ ts) ≡ markers ts
unfolding markers
markers-bytes [] ts = refl
markers-bytes (c ∷ s) ts = markers-bytes s ts

fill-bytes :
    (s : List ℕ) (ts : List Token) (vs : List Value) → fill (map byte s ++ ts) vs ≡ s ++ fill ts vs
unfolding fill
fill-bytes [] ts vs = refl
fill-bytes (c ∷ s) ts vs = ap (λ u. c ∷ u) (fill-bytes s ts vs)

markers-tokens : (ps : List Piece) → markers (tokens ps) ≡ parameters ps
unfolding tokens tokens_of markers parameters
markers-tokens [] = refl
markers-tokens (parameter ∷ ps) = ap suc (markers-tokens ps)
markers-tokens (plain c ∷ ps) = markers-bytes (text_of (plain c)) (tokens ps) ∙ markers-tokens ps
markers-tokens (literal s ∷ ps) =
    markers-bytes (text_of (literal s)) (tokens ps) ∙ markers-tokens ps
markers-tokens (identifier s ∷ ps) =
    markers-bytes (text_of (identifier s)) (tokens ps) ∙ markers-tokens ps
markers-tokens (line_note s ∷ ps) =
    markers-bytes (text_of (line_note s)) (tokens ps) ∙ markers-tokens ps
markers-tokens (block_note s ∷ ps) =
    markers-bytes (text_of (block_note s)) (tokens ps) ∙ markers-tokens ps

-- A piece that is no parameter.
fill-kept :
    (p : Piece) (ps : List Piece) (vs : List Value)
    → fill (tokens ps) vs ≡ filled ps vs
    → fill (map byte (text_of p) ++ tokens ps) vs ≡ text_of p ++ filled ps vs
fill-kept p ps vs h = fill-bytes (text_of p) (tokens ps) vs ∙ ap (λ u. text_of p ++ u) h

fill-tokens : (ps : List Piece) (vs : List Value) → fill (tokens ps) vs ≡ filled ps vs
unfolding tokens tokens_of fill filled
fill-tokens [] vs = refl
fill-tokens (parameter ∷ ps) [] = fill-tokens ps []
fill-tokens (parameter ∷ ps) (v ∷ vs) = ap (λ u. render_literal v ++ u) (fill-tokens ps vs)
fill-tokens (plain c ∷ ps) vs = fill-kept (plain c) ps vs (fill-tokens ps vs)
fill-tokens (literal s ∷ ps) vs = fill-kept (literal s) ps vs (fill-tokens ps vs)
fill-tokens (identifier s ∷ ps) vs = fill-kept (identifier s) ps vs (fill-tokens ps vs)
fill-tokens (line_note s ∷ ps) vs = fill-kept (line_note s) ps vs (fill-tokens ps vs)
fill-tokens (block_note s ∷ ps) vs = fill-kept (block_note s) ps vs (fill-tokens ps vs)

-- For a statement written of pieces, `substituteParams` succeeds exactly where it has as many parameters
-- as values are given, with the literal of each value in the place of its parameter and every other
-- piece as it was: no question mark in a string, a quoted identifier or a comment counts. Otherwise it
-- reports that there are more parameters, or how many there are. A plain byte begins no quote, comment
-- or parameter; a comment in brackets has no star with a slash behind it and does not begin with a
-- slash, and a comment of a line ends with the line.
pub substitute_params-written :
    (ps : List Piece) (vs : List Value)
    → IsStatement ps
    → substitute_params (written ps) vs ≡ expected ps vs
unfolding substitution expected
substitute_params-written ps vs h =
    let scanned = scan-written ps h in
    substitute_params-substitution (written ps) vs
    ∙ ground (
      arith,
      ap markers scanned ∙ markers-tokens ps,
      ap (λ ts. fill ts vs) scanned ∙ fill-tokens ps vs,
    )
