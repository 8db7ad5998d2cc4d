-- ===== src/Transport/Privacy.antt =====
-- internal/transport/uri.go: what an address makes the driver read and send.
use adbc_driver_quack.Base.{
  ◌≡◌, refl, ◌∙◌, false, Bool-cases, Result-cases, Option-cases, none, some, List, [], ◌∷◌, All,
  inl, inr, if◌then◌else◌, same_string, same_string_self, same_string_only, ℕ, arith,
}
use adbc_driver_quack.Base.Int.{ℤ}
use adbc_driver_quack.Base.Text.{bytes}
use adbc_driver_quack.Transport.Options.{
  refuse_keys, refuse_headers, local_keys, take_option, take_header, take_param, header_name,
  take_options, resolve_token, first_non_empty, query_params,
}
use adbc_driver_quack.Transport.Types.{
  bind-inr, Params, find, lookup, insert, Url, Library, Machine, ◌>>=◌,
}
use adbc_driver_quack.Transport.Uri.{finish, read_url, read_options, parse_uri}

find-insert :
    (j k v : List ℕ) (m : Params)
    → find j (insert k v m) ≡ (if same_string k j then some v else find j m)
unfolding find insert
find-insert j k v [] = refl
find-insert j k v ((i, w) ∷ m) = elim (Bool-cases (same_string i k)) [
  | inl same ↦ rw (same_string_only i k same) (rw (same_string_self k) (ground arith))
  | inr other ↦ rw other (
      ground (
        arith,
        find-insert j k v m,
        same_string_only i j,
        same_string_only k j,
        same_string_self i,
      ))
]

-- None of the keys that `ParseURI` refuses in a URL.
abbrev pub Local : Params → Type 0
Local params = All (λ key. find key params ≡ none) local_keys

refuse_keys-none :
    (keys : List (List ℕ)) (params : Params)
    → refuse_keys keys params ≡ inr tt
    → All (λ key. find key params ≡ none) keys
unfolding refuse_keys
refuse_keys-none [] params h = tt
refuse_keys-none (key ∷ keys) params h =
    (ground (arith, h, Option-cases (find key params)), refuse_keys-none keys params (ground arith))

take_header-find :
    (key name v : List ℕ) (q q' : Params × Params)
    → take_header name v q ≡ inr q'
    → find key q'.0 ≡ find key q.0
unfolding take_header
take_header-find key name v (params, headers) q' h = ground arith

take_param-find :
    (key k v : List ℕ) (q : Params × Params)
    → same_string k key ≡ false
    → find key (take_param k v q).0 ≡ find key q.0
unfolding take_param
take_param-find key k v (params, headers) other = ground (arith, find-insert key k v params)

take_option-find :
    (key k v : List ℕ) (q q' : Params × Params)
    → same_string k key ≡ false
    → take_option k v q ≡ inr q'
    → find key q'.0 ≡ find key q.0
unfolding take_option
take_option-find key k v q q' other h =
    ground (arith, take_header-find key (header_name k) v q q', take_param-find key k v q other)

find-other :
    (key k v : List ℕ) (m : Params)
    → find key ((k, v) ∷ m) ≡ none
    → (same_string k key ≡ false) × (find key m ≡ none)
unfolding find
find-other key k v m h = ground arith

take_options-find :
    (key : List ℕ) (opts : Params) (q q' : Params × Params)
    → find key opts ≡ none
    → take_options opts q ≡ inr q'
    → find key q'.0 ≡ find key q.0
unfolding take_options find
take_options-find key [] q q' absent h = ground arith
take_options-find key ((k, v) ∷ opts) q q' absent h = elim (Result-cases (take_option k v q)) [
  | inl (e, eq) ↦ ground (arith, h, eq)
  | inr (q1, eq) ↦
      let (other, rest) = find-other key k v opts absent in
      take_options-find key opts q1 q' rest (ground (arith, h, eq))
      ∙ take_option-find key k v q q1 other eq
]

lookup-none : (key : List ℕ) (params : Params) → find key params ≡ none → lookup params key ≡ []
unfolding lookup
lookup-none key params h = rw (h, lookup) refl

-- With no option that names a variable or a file, the token is an option or empty.
resolve_token_ignores :
    (m m' : Machine) (params : Params)
    → Local params
    → resolve_token m params ≡ resolve_token m' params
unfolding resolve_token first_non_empty
resolve_token_ignores m m' params (a, (b, (c, (d, _)))) = ground (
  arith,
  lookup-none (bytes "tokenEnv") params a,
  lookup-none (bytes "tokenFile") params b,
  lookup-none (bytes "adbc.quack.token_env") params c,
  lookup-none (bytes "adbc.quack.token_file") params d,
)

finish_ignores :
    (library : Library) (m m' : Machine) (parsed : Url) (port : ℤ) (params headers : Params)
    → Local params
    → finish library m parsed port params headers ≡ finish library m' parsed port params headers
unfolding finish
finish_ignores library m m' parsed port params headers absent =
    rw (resolve_token_ignores m m' params absent) refl

take_options-Local :
    (opts : Params) (q q' : Params × Params)
    → Local opts
    → Local q.0
    → take_options opts q ≡ inr q'
    → Local q'.0
take_options-Local opts q q' (a, (b, (c, (d, _)))) (a', (b', (c', (d', _)))) h =
    (keep _ a a', (keep _ b b', (keep _ c c', (keep _ d d', tt))))
  where
    keep : (key : List ℕ) → find key opts ≡ none → find key q.0 ≡ none → find key q'.0 ≡ none
    keep key absent before = take_options-find key opts q q' absent h ∙ before

read_options-Local :
    (params opts : Params) (q : Params × Params)
    → Local opts
    → read_options params opts ≡ inr q
    → Local q.0
unfolding read_options
read_options-Local params opts q absent h =
    let (_, refused, h1) = bind-inr (refuse_keys local_keys params) _ h in
    let (_, _, h2) = bind-inr (refuse_headers params) _ h1 in
    take_options-Local opts (params, []) q absent (refuse_keys-none local_keys params refused) h2

-- Unless an option names an environment variable or a file, no URL makes `ParseURI` read one: its
-- result, an error included, is the same whatever the variables and the files of the machine hold.
pub parse_uri_ignores_machine :
    (library : Library) (m m' : Machine) (raw : List ℕ) (opts : Params)
    → Local opts
    → parse_uri library m raw opts ≡ parse_uri library m' raw opts
unfolding parse_uri
parse_uri_ignores_machine library m m' raw opts absent =
    elim (Result-cases (read_url library raw)) [
      | inl (e, h) ↦ rw (h, parse_uri) refl
      | inr ((parsed, port), h) ↦
          rw (h, parse_uri)
            (elim (Result-cases (read_options (query_params parsed.query []) opts)) [
              | inl (e, h') ↦ rw (h', ◌>>=◌) refl
              | inr ((params, headers), h') ↦
                  rw (h', ◌>>=◌)
                    (finish_ignores library m m' parsed port params headers
                      (read_options-Local _ opts _ absent h'))
            ])
    ]
