-- ===== src/Client/Setup.antt =====
-- Making and configuring a client: `HaiClient::new` and the `with_` methods of
-- rust/haiai/src/client.rs, the settings that a process takes from its environment, and the URLs that
-- a client makes. The URL parser and the provider are parameters; durations are in nanoseconds.
pub mod Usable
use haiai.Prelude.{
  ℕ, ◌*◌, Bool, true, false, ◌&&◌, ◌||◌, ◌==◌, not, Option, none, some, List, [], ◌∷◌, ◌++◌, ltb,
  is_empty, map, if◌then◌else◌,
}
use haiai.Text.{
  Text, lit, len, trim, trim_end_matches, text_eq, starts_with, strip_prefix, split_once,
}
use haiai.Error.{
  http, HaiError, display, config_invalid, validation, signed_event_verification, Result, ok, err,
  ok_or, ◌>>=◌, ◌>>◌, map_err, Foreign, done, fault, lift,
}
use haiai.Json.{Value, get, get_str, as_array, as_str, and_then, or_else, option_filter, unwrap_or}
use haiai.Client.Retry.{client_max_retries}
use haiai.Client.Origin.{Url, is_none}
use haiai.Client.Live.{Scope, shared, process_local}
use haiai.Remote.{filter_map}
use haiai.Links.{default_base_url}

-- `std::env::var`
pub data Variable : Type 0 where
  set : Text → Variable
  not_present not_unicode : Variable

abbrev pub default_request_auth_audience : Text
default_request_auth_audience = lit "hai.ai"

unfoldable pub validate_request_auth_audience : Text → Result (Unit {0})
validate_request_auth_audience audience =
    if is_empty (trim audience) || ltb 256 (len audience)
    then err (
        validation (lit "request_auth_audience")
          (lit "a nonempty deployment-pinned request audience of at most 256 bytes is required"))
    else ok tt

abbrev checked_audience : Text → Result Text
checked_audience audience =
    map_err (λ error. config_invalid (lit "invalid HAI_REQUEST_AUTH_AUDIENCE: " ++ display error))
      (validate_request_auth_audience audience)
    >> ok audience

-- Of what HAI_REQUEST_AUTH_AUDIENCE is
unfoldable pub request_auth_audience_from_env : Variable → Result Text
request_auth_audience_from_env (set value) = checked_audience value
request_auth_audience_from_env not_present = checked_audience default_request_auth_audience
request_auth_audience_from_env not_unicode =
    err (config_invalid (lit "HAI_REQUEST_AUTH_AUDIENCE must be valid UTF-8"))

-- The first of the variables with a value that is not blank.
unfoldable pub first_set : (Text → Variable) → List Text → Option Text
first_set var [] = none
first_set var (name ∷ names) =
    let rest = first_set var names in
    elim (var name) [
      | set value ↦ if is_empty (trim value) then rest else some (trim value)
      | not_present ↦ rest
      | not_unicode ↦ rest
    ]

unfoldable pub base_url_from_env_opt : (Text → Variable) → Option Text
base_url_from_env_opt var = first_set var (lit "HAI_URL" ∷ lit "HAI_API_URL" ∷ [])

unfoldable pub base_url_from_env : (Text → Variable) → Text
base_url_from_env var = unwrap_or default_base_url (base_url_from_env_opt var)

pub record HaiClientOptions : Type 0 where
  pub base_url : Text
  pub timeout : ℕ
  pub max_retries : ℕ
  pub client_identifier : Option Text
  pub request_auth_audience : Text

-- The fields that the methods below read or set.
pub record HaiClient : Type 0 where
  pub base_url : Text
  pub expected_context : Option (Text × Text)
  pub audience : Text
  pub request_timeout : ℕ
  pub server_key_refresh_interval : ℕ
  pub max_retries : ℕ
  pub shared_event_replay_store : Option Scope

abbrev pub default_server_key_refresh : ℕ
default_server_key_refresh = 5 * 60 * 1000000000

abbrev bad_base_url : Text → HaiError
bad_base_url = validation (lit "base_url")

-- `matches!(parsed.scheme(), "http" | "https")`
abbrev is_http : Text → Bool
is_http scheme = text_eq scheme (lit "http") || text_eq scheme (lit "https")

abbrev is_some {ℓ} : {A : Type ℓ} → Option A → Bool
is_some o = not (is_none o)

unfoldable pub validate_base_url : (Text → Foreign Url) → Text → Text → Result (Unit {0})
validate_base_url parse base_url trimmed =
    lift (parse trimmed)
      (λ error. bad_base_url (lit "base_url must be an absolute http(s) URL: " ++ error))
    >>= λ parsed.
        if not (is_http parsed.scheme) || is_none parsed.host
        then err (
            bad_base_url
              (lit "base_url must be an absolute http:// or https:// URL, got: " ++ base_url))
        else if not (is_empty parsed.username)
            || is_some parsed.password
            || is_some parsed.query
            || is_some parsed.fragment
        then err (bad_base_url (lit "base_url must not contain userinfo, a query, or a fragment"))
        else ok tt

-- `HaiClient::new`; the transports that it builds, which may fail, are those of Origin and Auth.
unfoldable pub new_client :
    (Text → Foreign Url) → Foreign (Unit {0}) → HaiClientOptions → Result HaiClient
new_client parse transports options =
    let trimmed = trim_end_matches b'/' options.base_url in
    validate_request_auth_audience options.request_auth_audience
    >> (validate_base_url parse options.base_url trimmed
        >> (lift transports http
            >> ok (record {
              base_url = trimmed;
              expected_context = none;
              audience = options.request_auth_audience;
              request_timeout = options.timeout;
              server_key_refresh_interval = default_server_key_refresh;
              max_retries = client_max_retries options.max_retries;
              shared_event_replay_store = none;
            })))

unfoldable pub with_expected_event_context : Text → Text → HaiClient → Result HaiClient
with_expected_event_context tenant response_audience client =
    if is_empty tenant
      || ltb 256 (len tenant)
      || is_empty response_audience
      || text_eq response_audience (lit "public")
      || ltb 256 (len response_audience)
    then err (
        validation (lit "expected_event_context")
          (lit "explicit nonempty tenant and private response audience are required"))
    else ok (record client { expected_context = some (tenant, response_audience) })

unfoldable pub expected_event_context : HaiClient → Result (Text × Text)
expected_event_context client =
    ok_or
      (validation (lit "expected_event_context") (
        lit
          "configure expected_event_tenant and response_audience before live events or job responses"))
      client.expected_context

unfoldable pub with_shared_event_replay_store : Scope → HaiClient → Result HaiClient
with_shared_event_replay_store shared client =
    ok (record client { shared_event_replay_store = some shared })
with_shared_event_replay_store process_local client =
    err (signed_event_verification (lit "live event replay backend must have shared scope"))

unfoldable pub with_server_key_refresh_interval : ℕ → HaiClient → Result HaiClient
with_server_key_refresh_interval interval client =
    if interval == 0 || ltb default_server_key_refresh interval
    then err (
        validation (lit "server_key_refresh_interval")
          (lit "server key refresh interval must be between 1ns and 300 seconds"))
    else ok (record client { server_key_refresh_interval = interval })

unfoldable pub normalize_path : Text → Text
normalize_path path = if starts_with (lit "/") path then path else lit "/" ++ path

-- `HaiClient::url`
unfoldable pub client_url : HaiClient → Text → Text
client_url client path = client.base_url ++ normalize_path path

unfoldable pub build_ws_url : Text → Text → Text
build_ws_url base_url path =
    let base = trim_end_matches b'/' base_url in
    let ws_base = unwrap_or base (
      or_else (and_then (strip_prefix (lit "https://") base) (λ rest. some (lit "wss://" ++ rest)))
        (and_then (strip_prefix (lit "http://") base) (λ rest. some (lit "ws://" ++ rest)))) in
    ws_base ++ normalize_path path

-- The key of the options, or a new identifier
unfoldable pub send_idempotency_key : Text → Option Text → Text
send_idempotency_key new_v4 idempotency_key =
    unwrap_or new_v4 (option_filter (λ key. not (is_empty (trim key))) idempotency_key)

unfoldable pub email_to_slug : Text → Text
email_to_slug email = elim (split_once b'@' email) [ none ↦ email | some (slug, domain) ↦ slug ]

pub record TranscriptMessage : Type 0 where
  pub role : Text
  pub content : Text
  pub timestamp : Text
  pub annotations : List Text

unfoldable pub transcript_entry : Value → TranscriptMessage
transcript_entry entry = record {
  role = unwrap_or [] (get_str (lit "role") entry);
  content = unwrap_or [] (get_str (lit "content") entry);
  timestamp = unwrap_or [] (get_str (lit "timestamp") entry);
  annotations =
      filter_map as_str (unwrap_or [] (and_then (get (lit "annotations") entry) as_array));
}

unfoldable pub parse_transcript : Value → List TranscriptMessage
parse_transcript document =
    map transcript_entry (unwrap_or [] (and_then (get (lit "transcript") document) as_array))

unfoldable pub value_string : Value → List Text → Text
value_string value [] = []
value_string value (key ∷ keys) = unwrap_or (value_string value keys) (get_str key value)
