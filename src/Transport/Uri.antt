-- ===== src/Transport/Uri.antt =====
-- internal/transport/uri.go: `ParseURI`, and the addresses that requests go to.
use adbc_driver_quack.Base.{
  ℕ, Bool, ◌&&◌, ◌||◌, not, List, [], ◌∷◌, ◌++◌, ◌⊎◌, inl, inr, drop, length, if◌then◌else◌,
  is_empty,
}
use adbc_driver_quack.Base.Int.{ℤ, pos}
use adbc_driver_quack.Base.Text.{bytes, has_prefix, trim_byte, contains, parse_int}
use adbc_driver_quack.Transport.Types.{
  Params, lookup, Url, Library, Machine, QuackUri, UriError, ◌>>=◌, ◌>>◌, fail_if, or_fail,
  not_quack_url, malformed_url, invalid_url, no_host, invalid_port,
}
use adbc_driver_quack.Transport.Options.{
  default_connect_timeout, default_request_timeout, parse_bool, resolve_token, parse_timeout,
  query_params, local_keys, refuse_keys, refuse_headers, take_options,
}

-- `URLScheme`
abbrev pub url_scheme : List ℕ
url_scheme = bytes "quack://"

abbrev jdbc : List ℕ
jdbc = bytes "jdbc:"

-- `codec.DefaultQuackPort`
abbrev pub default_quack_port : ℤ
default_quack_port = pos 9494

-- The port of the URL.
unfoldable pub port_of : List ℕ → UriError ⊎ ℤ
unfolding parse_int
port_of p = if is_empty p then inr default_quack_port else or_fail (parse_int p) invalid_port

-- The two timeouts of `ParseURI`
unfoldable pub read_connect_timeout : Library → Params → UriError ⊎ ℤ
read_connect_timeout library params =
    parse_timeout library params (bytes "connectTimeout")
      (bytes "adbc.quack.rpc.timeout_seconds.connect") default_connect_timeout

unfoldable pub read_request_timeout : Library → Params → UriError ⊎ ℤ
read_request_timeout library params =
    parse_timeout library params (bytes "requestTimeout")
      (bytes "adbc.quack.rpc.timeout_seconds.request") default_request_timeout

-- `ParseURI` behind its reading of the URL, from `q.TLS` on
unfoldable pub finish : Library → Machine → Url → ℤ → Params → Params → UriError ⊎ QuackUri
finish library machine parsed port params headers = do
  token ← resolve_token machine params
  connect ← read_connect_timeout library params
  request ← read_request_timeout library params
  inr (record {
    host = parsed.hostname;
    port = port;
    database = trim_byte b'/' parsed.path;
    tls =
        parse_bool (lookup params (bytes "tls"))
        || parse_bool (lookup params (bytes "useEncryption"))
        || parse_bool (lookup params (bytes "adbc.quack.tls"));
    token = token;
    connect_timeout = connect;
    request_timeout = request;
    params = params;
    extra_headers = headers;
  })

-- `AcceptsURL`
unfoldable pub accepts_url : List ℕ → Bool
unfolding has_prefix
accepts_url s = has_prefix s url_scheme || has_prefix s (jdbc ++ url_scheme)

-- The URL of the parser for `http://`.
unfoldable pub http_form : List ℕ → UriError ⊎ List ℕ
unfolding accepts_url
http_form raw =
    let stripped = if has_prefix raw jdbc then drop (length jdbc) raw else raw in
    if not (accepts_url raw)
    then inl not_quack_url
    else if not (has_prefix stripped url_scheme)
    then inl malformed_url
    else inr (bytes "http://" ++ drop (length url_scheme) stripped)

-- The first part of `ParseURI`: the URL and its port.
unfoldable pub read_url : Library → List ℕ → UriError ⊎ (Url × ℤ)
read_url library raw = do
  http ← http_form raw
  parsed ← or_fail (library.parse_url http) invalid_url
  fail_if (is_empty parsed.hostname) no_host
  port ← port_of parsed.port
  inr (parsed, port)

-- The second part: `q.Params` of the URL, which may not have some keys, and the options.
unfoldable pub read_options : Params → Params → UriError ⊎ (Params × Params)
read_options params opts =
    refuse_keys local_keys params >> (refuse_headers params >> take_options opts (params, []))

-- `ParseURI`
unfoldable pub parse_uri : Library → Machine → List ℕ → Params → UriError ⊎ QuackUri
parse_uri library machine raw opts = do
  (parsed, port) ← read_url library raw
  (params, headers) ← read_options (query_params parsed.query []) opts
  finish library machine parsed port params headers

-- The digits of `%d`
abbrev pub PrintInt : Type 0
PrintInt = ℤ → List ℕ

-- `HTTPURL`, with the port by `%d`
unfoldable pub http_url : PrintInt → QuackUri → List ℕ
unfolding contains has_prefix
http_url print u =
    let host =
      if contains u.host (58 ∷ []) && not (has_prefix u.host (91 ∷ []))
      then 91 ∷ (u.host ++ (93 ∷ []))
      else u.host in
    (if u.tls then bytes "https" else bytes "http")
    ++ (bytes "://" ++ (host ++ (58 ∷ (print u.port ++ bytes "/quack"))))

-- `QuackURI.QuackURI`
unfoldable pub quack_uri : PrintInt → QuackUri → List ℕ
quack_uri print u = bytes "quack:" ++ (u.host ++ (58 ∷ print u.port))
