-- ===== src/Tests/Client.antt =====
-- Parsing, keys, origins, retries and reconnection of rust/haiai/src/client.rs.
use haiai.Prelude.{
  ℕ, ◌≡◌, ◌↔◌, ◌+◌, ◌≤◌, ◌*◌, ◌^◌, min, ◌≢◌, refl, Bool, true, false, none, some, List, [], ◌∷◌,
  ◌++◌, length, All, map, ltb, if◌then◌else◌, checked_add, saturating_add, arith,
}
use haiai.Text.{Text, lit, join, split_once, text_eq, strip_prefix, len, trim, starts_with}
use haiai.Text.Utf8.{Bytes, as_bytes, from_utf8}
use haiai.Error.{message, Result, ok, err}
use haiai.Json.{
  Value, null, bool, str, arr, obj, end, field, nil, cons, get, get_str, as_str, as_bool, as_array,
  and_then,
}
use haiai.Client.Sse.{default, push_chunk, take_line, take_text, pop_cr, max_stream_event_bytes}
use haiai.Client.Sse.Chunks.{push_chunks, flatten, push_chunks-flatten}
use haiai.Client.Sse.Framing.{frame, IsLine, push_chunk-frame}
use haiai.Client.Sse.Bounds.{IsBounded, Small, push_chunk-IsBounded}
use haiai.Client.Keys.{
  KeyMap, lookup, parse_server_public_keys, signer_id_of, public_key_of, add_key, is_active,
}
use haiai.Client.Keys.Trust.{Complete, Vouched, parse_server_public_keys_sound}
use haiai.Client.Origin.{
  domain, Url, follow, urls_have_same_origin, parsed_url, same_origin_redirect_policy,
  max_redirects, validate_live_event_key_origin,
}
use haiai.Client.Origin.Redirects.{Followed, begin, hop, IsSameOrigin, Followed-IsSameOrigin}
use haiai.Client.Origin.Secure.{IsSecure, validate_live_event_key_origin_iff}
use haiai.Client.Retry.{client_max_retries, request_with_retry}
use haiai.Client.Retry.Attempts.{IsRun, request_with_retry-IsRun}
use haiai.Client.Reconnect.{
  Event, refused, connected, finished, running, listen, reconnect_delay,
  on_benchmark_job_with_reconnect, read_events,
}
use haiai.Client.Reconnect.Limits.{
  delays_from, reconnect_delay_bounds, listen_refused, Drops, listen_dropped,
}
use haiai.Client.Reconnect.Jobs.{jobs_in, all_jobs, IsServed, listen_jobs}

abbrev wire : Bytes
wire = as_bytes (lit "data: x") ++ (b'\n' ∷ b'\n' ∷ [])

-- An event of two lines, with carriage returns.
abbrev two_lines : List Text
two_lines = lit "a" ∷ lit "b" ∷ []

one_event : push_chunk default wire ≡ ok (default, lit "x" ∷ [])
unfolding push_chunk checked_add split_once take_line from_utf8 pop_cr take_text strip_prefix
    saturating_add len join lit as_bytes
one_event = refl

no_line : split_once b'\n' [] ≡ none
unfolding split_once
no_line = refl

two_wires_fit : 0 + length (flatten (wire ∷ wire ∷ [])) ≤ max_stream_event_bytes
unfolding lit as_bytes
two_wires_fit = omega arith

push_chunks-flatten_example :
    push_chunks default (wire ∷ wire ∷ []) ≡ push_chunk default (flatten (wire ∷ wire ∷ []))
push_chunks-flatten_example = push_chunks-flatten (wire ∷ wire ∷ []) default no_line two_wires_fit

two_lines-IsLine : All IsLine two_lines
unfolding lit
two_lines-IsLine = ground arith

frame_fits : length (frame true two_lines) ≤ max_stream_event_bytes
unfolding lit as_bytes
frame_fits = omega arith

push_chunk-frame_example :
    push_chunk default (frame true two_lines) ≡ ok (default, join (b'\n' ∷ []) two_lines ∷ [])
push_chunk-frame_example =
    push_chunk-frame true (lit "a") (lit "b" ∷ []) two_lines-IsLine frame_fits

default-IsBounded : IsBounded default
default-IsBounded = record { buffered = omega arith; counted = refl; limited = omega arith }

push_chunk-IsBounded_example : IsBounded default × Small (lit "x" ∷ [])
push_chunk-IsBounded_example = push_chunk-IsBounded default wire default-IsBounded one_event

-- A key document with an active and a retired key.
abbrev key_entry : Text → Text → Bool → Value
key_entry id key active = obj (
    field (lit "signer_id") (str id)
      (field (lit "public_key") (str key) (field (lit "is_active") (bool active) end)))

abbrev key_document : Value
key_document = obj (
    field (lit "keys")
      (arr (
        cons (key_entry (lit "hai") (lit "k1") true)
          (cons (key_entry (lit "old") (lit "k0") false) nil)))
      end)

abbrev one_key : KeyMap
one_key = (lit "hai", as_bytes (lit "k1")) ∷ []

accepted : parse_server_public_keys key_document ≡ ok one_key
unfolding parse_server_public_keys signer_id_of public_key_of add_key lookup get_str get as_str
    as_bool as_array is_active trim starts_with text_eq lit as_bytes
accepted = refl

parse_server_public_keys_sound_example :
    (entries : List Value) × (and_then (get (lit "keys") key_document) as_array ≡ some entries)
    × (one_key ≢ [])
    × Complete one_key entries
    × ((id : Text) (key : Bytes) → lookup id one_key ≡ some key → Vouched id key entries)
parse_server_public_keys_sound_example =
    parse_server_public_keys_sound key_document {trusted = one_key} accepted

abbrev site : Url
site = record {
  scheme = lit "https";
  host = some (domain (lit "hai.ai"));
  port_or_known_default = some 443;
  username = [];
  password = none;
  query = none;
  fragment = none;
}

stays : same_origin_redirect_policy (site ∷ []) site ≡ follow
unfolding same_origin_redirect_policy urls_have_same_origin text_eq lit
stays = refl

followed : Followed site ([] ++ site ∷ [])
followed = hop {us = []} site begin stays

Followed-IsSameOrigin_example :
    All (IsSameOrigin site) ([] ++ site ∷ []) × (length ([] ++ site ∷ []) ≤ max_redirects)
Followed-IsSameOrigin_example = Followed-IsSameOrigin site {us = [] ++ site ∷ []} followed

validate_live_event_key_origin_iff_example :
    (validate_live_event_key_origin (λ t. parsed_url site) (lit "https://hai.ai") ≡ ok tt)
    ↔ ((u : Url) × (parsed_url site ≡ parsed_url u) × IsSecure u)
validate_live_event_key_origin_iff_example =
    validate_live_event_key_origin_iff (λ t. parsed_url site) (lit "https://hai.ai")

-- Two calls that are answered with 503, and then 200.
abbrev answers : ℕ → Result ℕ
answers call = if ltb call 2 then ok 503 else ok 200

request_with_retry-IsRun_example :
    IsRun
      (λ s. s)
      answers
      0
      (client_max_retries 5)
      (request_with_retry (λ s. s) answers (client_max_retries 5))
request_with_retry-IsRun_example = request_with_retry-IsRun (λ s. s) answers 5

reconnect_delay_bounds_example :
    (reconnect_delay 3 ≡ 100 * 2 ^ min 3 10) × (reconnect_delay 3 ≤ 102400)
reconnect_delay_bounds_example = reconnect_delay_bounds 3

abbrev handler : Value → Result (Unit {0})
handler v = ok tt

listen_refused_example :
    on_benchmark_job_with_reconnect handler 2 (
      map refused (message (lit "a") ∷ message (lit "b") ∷ [])
      ++ (refused (message (lit "c")) ∷ []))
    ≡ record { outcome = finished (err (message (lit "c"))); jobs = []; delays = delays_from 0 2 }
listen_refused_example =
    listen_refused handler 2 (message (lit "a") ∷ message (lit "b") ∷ []) (message (lit "c")) []
      refl

abbrev job : Event
job = record { event_type = lit "benchmark_job"; event_data = null }

abbrev disconnect : Event
disconnect = record { event_type = lit "disconnect"; event_data = null }

drops : All (Drops handler 10) (connected (ok job ∷ []) ∷ connected [] ∷ [])
unfolding read_events text_eq lit
drops = (refl, (refl, tt))

listen_dropped_example :
    ((listen handler 10 0 (connected (ok job ∷ []) ∷ connected [] ∷ [])).outcome ≡ running 1)
    × ((listen handler 10 0 (connected (ok job ∷ []) ∷ connected [] ∷ [])).delays
        ≡ map (λ d. 100) (connected (ok job ∷ []) ∷ connected [] ∷ []))
listen_dropped_example =
    listen_dropped handler 10 (connected (ok job ∷ [])) (connected [] ∷ []) 0 (omega arith) drops

served : All (IsServed handler) (job ∷ [])
unfolding text_eq lit
served = ((refl, λ e. refl), tt)

listen_jobs_example :
    ((listen handler 10 0 (
        map (λ es. connected (map ok es)) ((job ∷ []) ∷ [])
        ++ (connected (map ok (job ∷ []) ++ (ok disconnect ∷ [])) ∷ []))).outcome
      ≡ finished (ok tt))
    × ((listen handler 10 0 (
          map (λ es. connected (map ok es)) ((job ∷ []) ∷ [])
          ++ (connected (map ok (job ∷ []) ++ (ok disconnect ∷ [])) ∷ []))).jobs
        ≡ all_jobs ((job ∷ []) ∷ []) ++ jobs_in (job ∷ []))
listen_jobs_example =
    listen_jobs handler 10 0 ((job ∷ []) ∷ []) (job ∷ []) disconnect [] [] (omega arith)
      (served, tt) served refl
