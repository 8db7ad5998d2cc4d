-- ===== src/Tests/Addresses.antt =====
-- internal/transport/uri.go at concrete addresses.
use adbc_driver_quack.Base.{◌*◌, ◌^◌, ◌≡◌, refl, some, none, [], ◌∷◌, inr, All, true, arith}
use adbc_driver_quack.Base.Int.{pos}
use adbc_driver_quack.Base.Text.{
  bytes, parse_int, contains_any, contains_byte, has_prefix, space_length, space_length_back,
  to_lower, trim_byte, trim_front, trim_space,
}
use adbc_driver_quack.Transport.Headers.{Sendable, parse_uri-Sendable}
use adbc_driver_quack.Transport.Options.{
  parse_timeout, raw_timeout, refuse_keys, query_params, refuse_headers, take_options, take_option,
  take_header, take_param, validate_header, header_name, resolve_token, first_non_empty, parse_bool,
}
use adbc_driver_quack.Transport.Privacy.{Local, parse_uri_ignores_machine}
use adbc_driver_quack.Transport.Timeouts.{parse_timeout_seconds, seconds_outcome}
use adbc_driver_quack.Transport.Types.{
  Params, find, lookup, insert, Url, Library, Machine, QuackUri,
}
use adbc_driver_quack.Transport.Uri.{
  parse_uri, read_url, http_form, port_of, read_options, finish, accepts_url, read_connect_timeout,
  read_request_timeout,
}

-- A parser that reads `quack://db/main?tls=1` out of any text.
abbrev db_url : Url
db_url = record {
  hostname = bytes "db";
  port = [];
  path = bytes "/main";
  query = (bytes "tls", bytes "1" ∷ []) ∷ [];
}

abbrev library : Library
library = record { parse_url = λ s. some db_url; parse_duration = λ s. none }

abbrev bare : Machine
bare = record { getenv = λ s. []; read_file = λ s. none }

abbrev secret : Machine
secret = record { getenv = λ s. bytes "secret"; read_file = λ s. some (bytes "secret") }

abbrev with_header : Params
with_header = (bytes "adbc.quack.http.header.X-Key", bytes "v") ∷ []

no-Local : Local with_header
unfolding find
no-Local = (refl, (refl, (refl, (refl, tt))))

parse_uri_ignores_machine_example :
    parse_uri library bare (bytes "quack://db/main?tls=1") with_header
    ≡ parse_uri library secret (bytes "quack://db/main?tls=1") with_header
parse_uri_ignores_machine_example =
    parse_uri_ignores_machine library bare secret (bytes "quack://db/main?tls=1") with_header
      no-Local

abbrev db_uri : QuackUri
db_uri = record {
  host = bytes "db";
  port = pos 9494;
  database = bytes "main";
  tls = true;
  token = [];
  connect_timeout = pos (10 * 10 ^ 9);
  request_timeout = pos (60 * 10 ^ 9);
  params = (bytes "tls", bytes "1") ∷ [];
  extra_headers = (bytes "X-Key", bytes "v") ∷ [];
}

parses : parse_uri library bare (bytes "quack://db/main?tls=1") with_header ≡ inr db_uri
unfolding parse_uri read_url http_form port_of read_options refuse_keys find query_params
    refuse_headers take_options take_option take_header take_param validate_header header_name
    finish resolve_token first_non_empty lookup insert contains_any contains_byte has_prefix
    space_length space_length_back to_lower trim_byte trim_front trim_space parse_bool parse_timeout
    raw_timeout accepts_url read_connect_timeout read_request_timeout
parses = refl

parse_uri-Sendable_example : All Sendable db_uri.extra_headers
parse_uri-Sendable_example =
    parse_uri-Sendable library bare (bytes "quack://db/main?tls=1") with_header db_uri parses

abbrev long_timeout : Params
long_timeout = (bytes "connectTimeout", bytes "18446744074") ∷ []

is_number :
    parse_int (raw_timeout long_timeout (bytes "connectTimeout") (bytes "other"))
    ≡ some (pos 18446744074)
unfolding parse_int raw_timeout
is_number = refl

parse_timeout_seconds_example :
    parse_timeout library long_timeout (bytes "connectTimeout") (bytes "other") (pos 5)
    ≡ seconds_outcome 18446744074
        (bytes "connectTimeout")
        (raw_timeout long_timeout (bytes "connectTimeout") (bytes "other"))
parse_timeout_seconds_example =
    parse_timeout_seconds library long_timeout (bytes "connectTimeout") (bytes "other") (pos 5)
      18446744074 is_number (omega arith)
