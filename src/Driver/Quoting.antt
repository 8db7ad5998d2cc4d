-- ===== src/Driver/Quoting.antt =====
-- driver/quack/params.go and bulk_ingest.go: what a quoted string or identifier is to a reader of
-- SQL, and to the scan for parameter markers.
use adbc_driver_quack.Base.{
  ℕ, ◌≡◌, refl, ap, sym, ◌∙◌, false, Option, none, some, List, [], ◌∷◌, ◌++◌, append_assoc, map,
  ◌==◌, if◌then◌else◌, arith, Bool-cases, inl, inr,
}
use adbc_driver_quack.Driver.Markers.{Token, byte, scan}
use adbc_driver_quack.Driver.Params.{
  double, quote, double_quote, quote_string, quote_ident, top, in_str, in_ident, next_is, next_mode,
  is_marker,
}

abbrev prepend : ℕ → Option (List ℕ × List ℕ) → Option (List ℕ × List ℕ)
prepend c none = none
prepend c (some (s, rest)) = some (c ∷ s, rest)

-- What SQL reads behind an opening quote `q`: the bytes up to the next quote that is not doubled,
-- and what follows it.
unfoldable pub read_quoted : ℕ → List ℕ → Option (List ℕ × List ℕ)
read_quoted q [] = none
read_quoted q (c ∷ []) = if c == q then some ([], []) else none
read_quoted q (c ∷ (d ∷ s)) =
    let behind = read_quoted q s in
    let more = read_quoted q (d ∷ s) in
    if c == q then (if d == q then prepend q behind else some ([], d ∷ s)) else prepend c more

read_quoted-cons :
    (q c : ℕ) (s : List ℕ) → (c == q) ≡ false → read_quoted q (c ∷ s) ≡ prepend c (read_quoted q s)
unfolding read_quoted
read_quoted-cons q c [] h = ground arith
read_quoted-cons q c (d ∷ s) h = rw h refl

read_quoted-end :
    (q : ℕ) (rest : List ℕ) → next_is q rest ≡ false → read_quoted q (q ∷ rest) ≡ some ([], rest)
unfolding read_quoted
read_quoted-end q [] h = ground arith
read_quoted-end q (d ∷ s) h = ground arith

read_quoted-pair : (q : ℕ) (s : List ℕ) → read_quoted q (q ∷ (q ∷ s)) ≡ prepend q (read_quoted q s)
unfolding read_quoted
read_quoted-pair q s = ground arith

read_quoted-double :
    (q : ℕ) (s rest : List ℕ)
    → next_is q rest ≡ false
    → read_quoted q (double q s ++ (q ∷ rest)) ≡ some (s, rest)
unfolding double
read_quoted-double q [] rest h = read_quoted-end q rest h
read_quoted-double q (c ∷ s) rest h = elim (Bool-cases (c == q)) [
  | inl e ↦ rw e (
      read_quoted-pair q (double q s ++ (q ∷ rest))
      ∙ (ap (prepend q) (read_quoted-double q s rest h)
          ∙ ap (λ x. some (x ∷ s, rest)) (ground (arith, e))))
  | inr e ↦ rw e (
      read_quoted-cons q c (double q s ++ (q ∷ rest)) e
      ∙ ap (prepend c) (read_quoted-double q s rest h))
]

-- A token that begins with `q`.
unfoldable pub read_token : ℕ → List ℕ → Option (List ℕ × List ℕ)
unfolding read_quoted
read_token q [] = none
read_token q (c ∷ s) = let content = read_quoted q s in if c == q then content else none

-- SQL reads `quoteIdent` of a name as an identifier and the literal of a string as a string of
-- exactly its bytes, whatever they are, quotes included, and goes on with what follows, unless that
-- begins with a quote.
pub read_token-quote :
    (s rest : List ℕ)
    → next_is double_quote rest ≡ false
    → next_is quote rest ≡ false
    → (read_token double_quote (quote_ident s ++ rest) ≡ some (s, rest))
      × (read_token quote (quote_string s ++ rest) ≡ some (s, rest))
unfolding quote_ident quote_string read_token
read_token-quote s rest h h' = (
  rw (append_assoc (double double_quote s) (double_quote ∷ []) rest)
      (read_quoted-double double_quote s rest h),
  rw (append_assoc (double quote s) (quote ∷ []) rest) (read_quoted-double quote s rest h'),
)

map-snoc :
    (xs : List ℕ) (q : ℕ) (ts : List Token)
    → map byte (xs ++ (q ∷ [])) ++ ts ≡ map byte xs ++ (byte q ∷ ts)
map-snoc [] q ts = refl
map-snoc (x ∷ xs) q ts = ap (λ us. byte x ∷ us) (map-snoc xs q ts)

scan-in_str :
    (s rest : List ℕ)
    → scan in_str (double quote s ++ rest) ≡ map byte (double quote s) ++ scan in_str rest
unfolding scan double next_mode is_marker
scan-in_str [] rest = refl
scan-in_str (c ∷ s) rest = ground (arith, scan-in_str s rest)

scan-in_ident :
    (s rest : List ℕ)
    → scan in_ident (double double_quote s ++ rest)
      ≡ map byte (double double_quote s) ++ scan in_ident rest
unfolding scan double next_mode is_marker
scan-in_ident [] rest = refl
scan-in_ident (c ∷ s) rest = ground (arith, scan-in_ident s rest)

-- The scan of `substituteParams` passes over a quoted string or identifier without taking any byte of
-- it for a marker, whatever it contains, and is outside literals and comments again behind it.
pub scan-quote :
    (s rest : List ℕ)
    → (scan top (quote_string s ++ rest) ≡ map byte (quote_string s) ++ scan top rest)
      × (scan top (quote_ident s ++ rest) ≡ map byte (quote_ident s) ++ scan top rest)
unfolding scan next_mode is_marker quote_string quote_ident
scan-quote s rest = (
  ap (λ ts. byte quote ∷ ts)
      (ap (scan in_str) (append_assoc (double quote s) (quote ∷ []) rest)
        ∙ (scan-in_str s (quote ∷ rest) ∙ sym (map-snoc (double quote s) quote (scan top rest)))),
  ap (λ ts. byte double_quote ∷ ts)
      (ap (scan in_ident) (append_assoc (double double_quote s) (double_quote ∷ []) rest)
        ∙ (scan-in_ident s (double_quote ∷ rest)
            ∙ sym (map-snoc (double double_quote s) double_quote (scan top rest)))),
)
