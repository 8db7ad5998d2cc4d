-- ===== src/Transport/Types.antt =====
-- internal/transport/uri.go: the addresses of servers, their errors, and Go's string maps. Strings are
-- their bytes; a Go map is a list of keys and values in the order in which a `range` over it runs.
-- net/url and `time.ParseDuration` are functions of a record, and so are the environment and the files
-- of the machine.
use adbc_driver_quack.Base.{
  ◌≡◌, refl, ℕ, Bool, true, false, Option, none, some, List, [], ◌∷◌, ◌⊎◌, inl, inr, if◌then◌else◌,
  same_string,
}
use adbc_driver_quack.Base.Int.{ℤ}

-- A string map: `m[key]`, with the empty string for a key that is not there, `m[key] = value` and
-- `delete(m, key)`.
abbrev pub Params : Type 0
Params = List (List ℕ × List ℕ)

unfoldable pub find : List ℕ → Params → Option (List ℕ)
find key [] = none
find key ((k, v) ∷ m) = if same_string k key then some v else find key m

unfoldable pub lookup : Params → List ℕ → List ℕ
unfolding find
lookup m key = elim (find key m) [ none ↦ [] | some v ↦ v ]

unfoldable pub insert : List ℕ → List ℕ → Params → Params
insert key value [] = (key, value) ∷ []
insert key value ((k, v) ∷ m) =
    if same_string k key then (key, value) ∷ m else (k, v) ∷ insert key value m

unfoldable pub delete : List ℕ → Params → Params
delete key [] = []
delete key ((k, v) ∷ m) = if same_string k key then m else (k, v) ∷ delete key m

-- What a `url.URL` says: `Hostname()`, `Port()`, `Path` and `Query()`.
pub record Url : Type 0 where
  pub hostname : List ℕ
  pub port : List ℕ
  pub path : List ℕ
  pub query : List (List ℕ × List (List ℕ))

-- Durations are in nanoseconds.
pub record Library : Type 0 where
  pub parse_url : List ℕ → Option Url
  pub parse_duration : List ℕ → Option ℤ

-- `os.Getenv` and `os.ReadFile`
pub record Machine : Type 0 where
  pub getenv : List ℕ → List ℕ
  pub read_file : List ℕ → Option (List ℕ)

-- `QuackURI`
pub record QuackUri : Type 0 where
  pub host : List ℕ
  pub port : ℤ
  pub database : List ℕ
  pub tls : Bool
  pub token : List ℕ
  pub connect_timeout : ℤ
  pub request_timeout : ℤ
  pub params : Params
  pub extra_headers : Params

-- The errors of this package, one constructor for each text.
pub data UriError : Type 0 where
  not_quack_url : UriError
  malformed_url : UriError
  invalid_url : UriError
  no_host : UriError
  invalid_port : UriError
  only_adbc_option : List ℕ → UriError
  invalid_header_name : List ℕ → UriError
  header_value : List ℕ → UriError
  reserved_header : List ℕ → UriError
  token_env_empty : List ℕ → UriError
  token_file_unread : List ℕ → UriError
  token_file_empty : List ℕ → UriError
  no_duration : List ℕ → List ℕ → UriError
  not_positive : List ℕ → List ℕ → UriError

-- A result, or an error that ends the function.
infixl 5 ◌>>=◌ ◌>>◌
abbrev pub ◌>>=◌ : {A B : Type 0} → UriError ⊎ A → (A → UriError ⊎ B) → UriError ⊎ B
inl e >>= f = inl e
inr a >>= f = f a

abbrev pub ◌>>◌ : {B : Type 0} → UriError ⊎ Unit {0} → UriError ⊎ B → UriError ⊎ B
m >> k = m >>= λ _. k

-- `return …, err` where the test holds.
abbrev pub fail_if : Bool → UriError → UriError ⊎ Unit {0}
fail_if true e = inl e
fail_if false e = inr tt

abbrev pub or_fail : {A : Type 0} → Option A → UriError → UriError ⊎ A
or_fail none e = inl e
or_fail (some a) e = inr a

-- The steps of a function that succeeds have succeeded.
pub bind-inr :
    {A B : Type 0} (r : UriError ⊎ A) (f : A → UriError ⊎ B) {b : B}
    → (r >>= f) ≡ inr b
    → (a : A) × (r ≡ inr a) × (f a ≡ inr b)
bind-inr (inl e) f h = cc
bind-inr (inr a) f h = (a, refl, h)
