-- ===== src/Transport/Options.antt =====
-- internal/transport/uri.go: the options of an address: token, headers, timeouts.
use adbc_driver_quack.Base.{
  ℕ, ◌*◌, ◌^◌, Bool, false, ◌||◌, not, Option, none, some, List, [], ◌∷◌, ◌⊎◌, inl, inr, drop,
  length, ◌==◌, if◌then◌else◌, is_empty, is_some, same_string,
}
use adbc_driver_quack.Base.Int.{ℤ, pos, negsuc, signed, wrap, mul_nat}
use adbc_driver_quack.Base.Text.{bytes, has_prefix, contains_any, trim_space, to_lower, parse_int}
use adbc_driver_quack.Transport.Types.{
  Params, find, lookup, insert, delete, Library, Machine, UriError, ◌>>=◌, ◌>>◌, fail_if,
  only_adbc_option, invalid_header_name, header_value, reserved_header, token_env_empty,
  token_file_unread, token_file_empty, no_duration, not_positive,
}

-- `HTTPHeaderPrefix`
abbrev pub http_header_prefix : List ℕ
http_header_prefix = bytes "adbc.quack.http.header."

-- `DefaultConnectTimeout` and `DefaultRequestTimeout`
abbrev pub default_connect_timeout : ℤ
default_connect_timeout = pos (10 * 10 ^ 9)

abbrev pub default_request_timeout : ℤ
default_request_timeout = pos (60 * 10 ^ 9)

-- `parseBool`
unfoldable pub parse_bool : List ℕ → Bool
unfolding to_lower trim_space
parse_bool s =
    let word = to_lower (trim_space s) in
    same_string word (bytes "true")
    || same_string word (bytes "1")
    || same_string word (bytes "yes")
    || same_string word (bytes "on")

-- `firstNonEmpty`
unfoldable pub first_non_empty : List (List ℕ) → List ℕ
first_non_empty [] = []
first_non_empty (v ∷ vs) = if is_empty v then first_non_empty vs else v

-- `validateHeader`
unfoldable pub validate_header : List ℕ → List ℕ → UriError ⊎ Unit {0}
unfolding contains_any to_lower
validate_header name value = do
  fail_if (is_empty name || contains_any name (32 ∷ (9 ∷ (13 ∷ (10 ∷ (58 ∷ []))))))
      (invalid_header_name name)
  fail_if (contains_any value (13 ∷ (10 ∷ []))) (header_value name)
  let word = to_lower name
  fail_if
      (same_string word (bytes "content-type")
        || same_string word (bytes "accept")
        || same_string word (bytes "content-length")
        || same_string word (bytes "host"))
      (reserved_header name)

-- `resolveToken`
unfoldable pub resolve_token : Machine → Params → UriError ⊎ List ℕ
resolve_token machine params =
    let token = first_non_empty (
      lookup params (bytes "token")
      ∷ (lookup params (bytes "password") ∷ (lookup params (bytes "adbc.quack.token") ∷ []))) in
    let env =
      first_non_empty
        (lookup params (bytes "tokenEnv") ∷ (lookup params (bytes "adbc.quack.token_env") ∷ [])) in
    let file =
      first_non_empty (
        lookup params (bytes "tokenFile") ∷ (lookup params (bytes "adbc.quack.token_file") ∷ [])) in
    if not (is_empty token)
    then inr token
    else if not (is_empty env)
    then (let value = trim_space (machine.getenv env) in
        if is_empty value then inl (token_env_empty env) else inr value)
    else if not (is_empty file)
    then (elim (machine.read_file file) [
      | none ↦ inl (token_file_unread file)
      | some raw ↦
          let value = trim_space raw in
          if is_empty value then inl (token_file_empty file) else inr value
    ])
    else inr []

-- `d <= 0`
abbrev is_positive : ℤ → Bool
is_positive (pos n) = not (n == 0)
is_positive (negsuc n) = false

-- `time.Duration(secs) * time.Second`, in int64
unfoldable pub seconds : ℤ → ℤ
unfolding wrap mul_nat
seconds n = signed (wrap (2 ^ 64) (mul_nat n (10 ^ 9)))

-- Plain digits are seconds, anything else is a Go duration.
unfoldable pub duration_of : Library → List ℕ → Option ℤ
unfolding seconds parse_int
duration_of library raw = elim (parse_int raw) [
  | some n ↦ some (seconds n)
  | none ↦ library.parse_duration raw
]

-- What `parseTimeout` reads.
unfoldable pub raw_timeout : Params → List ℕ → List ℕ → List ℕ
unfolding lookup first_non_empty trim_space
raw_timeout params jdbc_key adbc_key =
    trim_space (first_non_empty (lookup params jdbc_key ∷ (lookup params adbc_key ∷ [])))

-- `parseTimeout`
unfoldable pub parse_timeout : Library → Params → List ℕ → List ℕ → ℤ → UriError ⊎ ℤ
unfolding duration_of raw_timeout
parse_timeout library params jdbc_key adbc_key default =
    let raw = raw_timeout params jdbc_key adbc_key in
    if is_empty raw then inr default else elim (duration_of library raw) [
      | none ↦ inl (no_duration jdbc_key raw)
      | some d' ↦ if is_positive d' then inr d' else inl (not_positive jdbc_key raw)
    ]

-- `for key, vals := range parsed.Query()`
unfoldable pub query_params : List (List ℕ × List (List ℕ)) → Params → Params
unfolding insert
query_params [] params = params
query_params ((key, []) ∷ query) params = query_params query params
query_params ((key, v ∷ vs) ∷ query) params = query_params query (insert key v params)

-- The keys that a URL must not have, in the order of the loop.
abbrev pub local_keys : List (List ℕ)
local_keys =
    bytes "tokenEnv"
    ∷ (bytes "tokenFile" ∷ (bytes "adbc.quack.token_env" ∷ (bytes "adbc.quack.token_file" ∷ [])))

unfoldable pub refuse_keys : List (List ℕ) → Params → UriError ⊎ Unit {0}
refuse_keys [] params = inr tt
refuse_keys (key ∷ keys) params =
    if is_some (find key params) then inl (only_adbc_option key) else refuse_keys keys params

-- `for key := range q.Params`
unfoldable pub refuse_headers : Params → UriError ⊎ Unit {0}
unfolding has_prefix
refuse_headers [] = inr tt
refuse_headers ((key, v) ∷ params) =
    if has_prefix key http_header_prefix then inl (only_adbc_option key) else refuse_headers params

-- `strings.TrimSpace(k[len(HTTPHeaderPrefix):])`
unfoldable pub header_name : List ℕ → List ℕ
unfolding trim_space
header_name k = trim_space (drop (length http_header_prefix) k)

-- The branches of a round of `for k, v := range opts`, on `q.Params` and `q.ExtraHeaders`, where nil is
-- empty.
unfoldable pub take_header : List ℕ → List ℕ → Params × Params → UriError ⊎ (Params × Params)
take_header name v (params, headers) =
    validate_header name v
    >> inr (params, if is_empty v then delete name headers else insert name v headers)

unfoldable pub take_param : List ℕ → List ℕ → Params × Params → Params × Params
take_param k v (params, headers) = (if is_empty v then params else insert k v params, headers)

unfoldable pub take_option : List ℕ → List ℕ → Params × Params → UriError ⊎ (Params × Params)
take_option k v q =
    if has_prefix k http_header_prefix
    then take_header (header_name k) v q
    else inr (take_param k v q)

unfoldable pub take_options : Params → Params × Params → UriError ⊎ (Params × Params)
take_options [] q = inr q
take_options ((k, v) ∷ opts) q = take_option k v q >>= λ q'. take_options opts q'
