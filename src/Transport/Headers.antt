-- ===== src/Transport/Headers.antt =====
-- internal/transport/uri.go: the headers that an address adds to every request.
use adbc_driver_quack.Base.{
  ◌≡◌, ◌≢◌, ap, true, false, Bool, ◌||◌, refl, Bool-cases, List, [], ◌∷◌, All, ◌⊎◌, inl, inr,
  same_string, same_string_apart, is_empty, ℕ, arith,
}
use mathlib.Core.Path.{subst}
use adbc_driver_quack.Base.Int.{ℤ}
use adbc_driver_quack.Transport.Options.{
  refuse_keys, refuse_headers, local_keys, query_params, take_option, take_header, take_param,
  header_name, take_options, resolve_token, http_header_prefix, validate_header,
}
use adbc_driver_quack.Base.Text.{bytes, has_prefix, to_lower, contains_any, contains_byte}
use adbc_driver_quack.Transport.Types.{
  bind-inr, fail_if, UriError, invalid_header_name, header_value, reserved_header, ◌>>◌, Params,
  insert, delete, Url, Library, Machine, QuackUri,
}
use adbc_driver_quack.Transport.Uri.{
  finish, read_connect_timeout, read_request_timeout, read_url, read_options, parse_uri,
}

-- No byte of a string is one of some bytes.
abbrev pub Free : List ℕ → List ℕ → Type 0
Free s [] = Unit {0}
Free s (d ∷ ds) = All (λ c. c ≢ d) s × Free s ds

-- A header that does not break a request: a name, without a space, a tab, a line break or a colon, that
-- is none of the protocol's own in any case, and a value, without a line break.
abbrev pub Sendable : List ℕ × List ℕ → Type 0
Sendable (name, v) =
    (name ≢ [])
    × Free name (b' ' ∷ (9 ∷ (13 ∷ (10 ∷ (b':' ∷ [])))))
    × (to_lower name ≢ bytes "content-type")
    × (to_lower name ≢ bytes "accept")
    × (to_lower name ≢ bytes "content-length")
    × (to_lower name ≢ bytes "host")
    × (v ≢ [])
    × Free v (13 ∷ (10 ∷ []))

contains_any-other :
    (s chars : List ℕ) (d : ℕ)
    → contains_any s chars ≡ false
    → contains_byte chars d ≡ true
    → All (λ c. c ≢ d) s
unfolding contains_any
contains_any-other [] chars d h at = tt
contains_any-other (c ∷ s) chars d h at = (
  λ e. ground (arith, h, at, ap (contains_byte chars) e),
  contains_any-other s chars d (ground (arith, h)) at,
)

contains_any-Free :
    (s chars ds : List ℕ)
    → contains_any s chars ≡ false
    → All (λ d. contains_byte chars d ≡ true) ds
    → Free s ds
contains_any-Free s chars [] h tt = tt
contains_any-Free s chars (d ∷ ds) h (at, rest) =
    (contains_any-other s chars d h at, contains_any-Free s chars ds h rest)

passed :
    (b : Bool) (e : UriError) (k : UriError ⊎ Unit {0})
    → (fail_if b e >> k) ≡ inr tt
    → (b ≡ false) × (k ≡ inr tt)
passed true e k h = absurd (ground (arith, h))
passed false e k h = (refl, h)

passed_last : (b : Bool) (e : UriError) → fail_if b e ≡ inr tt → b ≡ false
passed_last true e h = absurd (ground (arith, h))
passed_last false e h = refl

both_false : (a b : Bool) → (a || b) ≡ false → (a ≡ false) × (b ≡ false)
both_false a b h = ground (arith, h)

tests_lem :
    (a b c d e f g : Bool) (x y z : UriError)
    → (fail_if (a || b) x >> (fail_if c y >> fail_if (d || e || f || g) z)) ≡ inr tt
    → (a ≡ false)
      × (b ≡ false)
      × (c ≡ false)
      × (d ≡ false)
      × (e ≡ false)
      × (f ≡ false)
      × (g ≡ false)
tests_lem a b c d e f g x y z h =
    let (t1, h1) = passed (a || b) x (fail_if c y >> fail_if (d || e || f || g) z) h in
    let (t2, h2) = passed c y (fail_if (d || e || f || g) z) h1 in
    let (ha, hb) = both_false a b t1 in
    let (t3, hg) = both_false (d || e || f) g (passed_last (d || e || f || g) z h2) in
    let (t4, hf) = both_false (d || e) f t3 in
    let (hd, he) = both_false d e t4 in (ha, hb, t2, hd, he, hf, hg)

-- What `validateHeader` accepts, test by test.
validate_header-tests :
    (name v : List ℕ)
    → validate_header name v ≡ inr tt
    → (is_empty name ≡ false)
      × (contains_any name (32 ∷ (9 ∷ (13 ∷ (10 ∷ (58 ∷ []))))) ≡ false)
      × (contains_any v (13 ∷ (10 ∷ [])) ≡ false)
      × (same_string (to_lower name) (bytes "content-type") ≡ false)
      × (same_string (to_lower name) (bytes "accept") ≡ false)
      × (same_string (to_lower name) (bytes "content-length") ≡ false)
      × (same_string (to_lower name) (bytes "host") ≡ false)
unfolding validate_header
validate_header-tests name v h =
    tests_lem (is_empty name) (contains_any name (32 ∷ (9 ∷ (13 ∷ (10 ∷ (58 ∷ []))))))
      (contains_any v (13 ∷ (10 ∷ []))) (same_string (to_lower name) (bytes "content-type"))
      (same_string (to_lower name) (bytes "accept"))
      (same_string (to_lower name) (bytes "content-length"))
      (same_string (to_lower name) (bytes "host")) (invalid_header_name name) (header_value name)
      (reserved_header name) h

validate_header-Sendable :
    (name v : List ℕ) → validate_header name v ≡ inr tt → is_empty v ≡ false → Sendable (name, v)
unfolding contains_byte
validate_header-Sendable name v h full =
    let (a, b, c, d, e, f, g) = validate_header-tests name v h in
    (
      λ e'. ground (arith, a, ap is_empty e'),
      contains_any-Free name _ (32 ∷ (9 ∷ (13 ∷ (10 ∷ (58 ∷ []))))) b
          (refl, (refl, (refl, (refl, (refl, tt))))),
      same_string_apart _ _ d,
      same_string_apart _ _ e,
      same_string_apart _ _ f,
      same_string_apart _ _ g,
      λ e'. ground (arith, full, ap is_empty e'),
      contains_any-Free v _ (13 ∷ (10 ∷ [])) c (refl, (refl, tt)),
    )

insert-All :
    (name v : List ℕ) (m : Params)
    → Sendable (name, v)
    → All Sendable m
    → All Sendable (insert name v m)
unfolding insert
insert-All name v [] ok all = (ok, tt)
insert-All name v ((k, w) ∷ m) ok (first, all) = elim (Bool-cases (same_string k name)) [
  | inl same ↦ rw same (ok, all)
  | inr other ↦ rw other (first, insert-All name v m ok all)
]

delete-All : (name : List ℕ) (m : Params) → All Sendable m → All Sendable (delete name m)
unfolding delete
delete-All name [] all = tt
delete-All name ((k, w) ∷ m) (first, all) = elim (Bool-cases (same_string k name)) [
  | inl same ↦ rw same all
  | inr other ↦ rw other (first, delete-All name m all)
]

inr_eq : {A B : Type 0} {a b : B} → ◌≡◌ {A = A ⊎ B} (inr a) (inr b) → a ≡ b
inr_eq h = cc

take_header-All :
    (name v : List ℕ) (q q' : Params × Params)
    → All Sendable q.1
    → take_header name v q ≡ inr q'
    → All Sendable q'.1
unfolding take_header
take_header-All name v (params, headers) q' all h =
    let (_, accepted, h1) = bind-inr (validate_header name v) _ h in
    subst (λ (r : Params × Params). All Sendable r.1) (inr_eq h1)
      (elim (Bool-cases (is_empty v)) [
        | inl empty ↦ rw empty (delete-All name headers all)
        | inr full ↦
            rw full (insert-All name v headers (validate_header-Sendable name v accepted full) all)
      ])

take_option-All :
    (k v : List ℕ) (q q' : Params × Params)
    → All Sendable q.1
    → take_option k v q ≡ inr q'
    → All Sendable q'.1
unfolding take_option take_param
take_option-All k v (params, headers) q' all h =
    elim (Bool-cases (has_prefix k http_header_prefix)) [
      | inl header ↦
          take_header-All (header_name k) v (params, headers) q' all (ground (arith, h, header))
      | inr other ↦
          let same : take_param k v (params, headers) ≡ q' = ground (arith, h, other) in
          subst (λ (r : Params × Params). All Sendable r.1) same all
    ]

take_options-All :
    (opts : Params) (q q' : Params × Params)
    → All Sendable q.1
    → take_options opts q ≡ inr q'
    → All Sendable q'.1
unfolding take_options
take_options-All [] q q' all h = subst (λ (r : Params × Params). All Sendable r.1) (inr_eq h) all
take_options-All ((k, v) ∷ opts) q q' all h =
    let (q1, taken, h1) = bind-inr (take_option k v q) _ h in
    take_options-All opts q1 q' (take_option-All k v q q1 all taken) h1

read_options-All :
    (params opts : Params) (q : Params × Params)
    → read_options params opts ≡ inr q
    → All Sendable q.1
unfolding read_options
read_options-All params opts q h =
    let (_, _, h1) = bind-inr (refuse_keys local_keys params) _ h in
    let (_, _, h2) = bind-inr (refuse_headers params) _ h1 in
    take_options-All opts (params, []) q tt h2

finish-headers :
    (library : Library) (m : Machine) (parsed : Url) (port : ℤ) (params headers : Params)
    (u : QuackUri)
    → finish library m parsed port params headers ≡ inr u
    → headers ≡ u.extra_headers
unfolding finish
finish-headers library m parsed port params headers u h =
    let (_, _, h1) = bind-inr (resolve_token m params) _ h in
    let (_, _, h2) = bind-inr (read_connect_timeout library params) _ h1 in
    let (_, _, h3) = bind-inr (read_request_timeout library params) _ h2 in
    ap (λ (r : QuackUri). r.extra_headers) (inr_eq h3)

-- Every header that an accepted address adds to requests has a name without a space, a tab, a line
-- break or a colon, which is none of the protocol's own (content-type, accept, content-length, host) in
-- lower or upper case, and a value that is not empty and has no line break.
pub parse_uri-Sendable :
    (library : Library) (m : Machine) (raw : List ℕ) (opts : Params) (u : QuackUri)
    → parse_uri library m raw opts ≡ inr u
    → All Sendable u.extra_headers
unfolding parse_uri
parse_uri-Sendable library m raw opts u h =
    let ((parsed, port), _, h1) = bind-inr (read_url library raw) _ h in
    let ((params, headers), read, h2) =
      bind-inr (read_options (query_params parsed.query []) opts) _ h1 in
    subst (λ hs. All Sendable hs) (finish-headers library m parsed port params headers u h2)
      (read_options-All (query_params parsed.query []) opts (params, headers) read)
