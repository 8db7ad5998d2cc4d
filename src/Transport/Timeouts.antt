-- ===== src/Transport/Timeouts.antt =====
-- internal/transport/uri.go: what `parseTimeout` makes of a number of seconds.
use adbc_driver_quack.Base.{
  ℕ, ◌-◌, ◌*◌, ◌^◌, ◌≤◌, ◌≡◌, refl, some, List, [], ◌∷◌, ◌⊎◌, inl, inr, ◌==◌, leb, if◌then◌else◌,
  is_empty, false, arith,
}
use adbc_driver_quack.Base.Int.{ℤ, pos, negsuc, wrap, mul_nat}
use adbc_driver_quack.Base.Text.{parse_int}
use adbc_driver_quack.Transport.Options.{raw_timeout, duration_of, seconds, parse_timeout}
use adbc_driver_quack.Transport.Types.{Library, Params, UriError, not_positive}

-- `n` seconds in an int64 of nanoseconds.
abbrev pub in_nanoseconds : ℕ → ℤ
in_nanoseconds n =
    if leb n 9_223_372_036
    then pos (n * 10 ^ 9)
    else if leb n 18_446_744_073
    then negsuc (2 ^ 64 - 1 - n * 10 ^ 9)
    else pos (n * 10 ^ 9 - 2 ^ 64)

seconds_lem : (n : ℕ) → n ≤ 27_670_116_110 → seconds (pos n) ≡ in_nanoseconds n
unfolding seconds wrap mul_nat
seconds_lem n h = ground arith

raw_not_empty : (raw : List ℕ) (z : ℤ) → parse_int raw ≡ some z → is_empty raw ≡ false
unfolding parse_int
raw_not_empty [] z h = ground arith
raw_not_empty (c ∷ s) z h = refl

-- What an option that is a number of seconds gives.
abbrev pub seconds_outcome : ℕ → List ℕ → List ℕ → UriError ⊎ ℤ
seconds_outcome n key raw =
    if n == 0
    then inl (not_positive key raw)
    else if leb n 9_223_372_036
    then inr (pos (n * 10 ^ 9))
    else if leb n 18_446_744_073
    then inl (not_positive key raw)
    else inr (pos (n * 10 ^ 9 - 2 ^ 64))

-- A timeout option that is a number of seconds up to 9223372036 gives exactly that many, and 0 is
-- refused. The conversion to nanoseconds wraps: a number from there on up to 18446744073 is refused as
-- not positive, and one beyond, up to 27670116110, is accepted as a timeout of 2 ^ 64 nanoseconds less.
pub parse_timeout_seconds :
    (library : Library) (params : Params) (jdbc_key adbc_key : List ℕ) (default : ℤ) (n : ℕ)
    → parse_int (raw_timeout params jdbc_key adbc_key) ≡ some (pos n)
    → n ≤ 27_670_116_110
    → parse_timeout library params jdbc_key adbc_key default
      ≡ seconds_outcome n jdbc_key (raw_timeout params jdbc_key adbc_key)
unfolding parse_timeout duration_of
parse_timeout_seconds library params jdbc_key adbc_key default n e h =
    ground (arith, seconds_lem n h, raw_not_empty (raw_timeout params jdbc_key adbc_key) (pos n) e)
