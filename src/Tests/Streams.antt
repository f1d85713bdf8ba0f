-- ===== src/Tests/Streams.antt =====
-- The live stream tasks of rust/haiai/src/client.rs at a small instance of the `jacs` crate.
use haiai.Prelude.{
  ◌||◌, if◌then◌else◌, ◌≡◌, ◌⊎◌, refl, Bool, true, false, none, some, List, [], ◌∷◌, ◌++◌,
}
use haiai.Text.{Text, lit, text_eq}
use haiai.Text.Utf8.{Bytes, as_bytes}
use haiai.Error.{ok, done, fault, Foreign}
use haiai.Json.{get_str, get, as_str, Value, null, str, obj, end, field}
use haiai.Client.Sse.{default}
use haiai.Client.Keys.{KeyMap, lookup}
use haiai.Client.Live.{
  stream, no_cause, private_event, VerifiedEvent, Jacs, LiveEventContext, HaiEvent,
  verify_live_transport_event, verify_signature, expected_causation, check_payload, trusted_issuer,
  causation_eq,
}
use haiai.Client.Live.Genuine.{
  IsGenuine, verify_live_transport_event-IsGenuine, PassedContext, consumption_after_context,
}
use haiai.Client.Feed.{Feed}
use haiai.Client.Feed.Released.{Emits, IsQuietAfterError}
use haiai.Client.Streams.{SseInput, WsInput, SseStream, sse_run, WsStream, ws_run}
use haiai.Client.Streams.Tasks.{latest_keys}
use haiai.Client.Streams.Provenance.{
  next_sse_keys, next_ws_keys, sse_run-provenance, ws_run-provenance, sse_run-quiet, ws_run-quiet,
}

abbrev envelope : Value
envelope = obj (field (lit "jacsSignature") (obj (field (lit "agentID") (str (lit "hai")) end)) end)

abbrev payload : Value
payload = obj (field (lit "type") (str (lit "heartbeat")) end)

abbrev document : VerifiedEvent
document = record {
  document_id = lit "d1";
  signer_id = lit "hai";
  timestamp = lit "t";
  algorithm = lit "ed25519";
}

-- The replay store: the one document there is, unless it was seen.
unfoldable was_seen : Text → List Text → Bool
was_seen id [] = false
was_seen id (d ∷ seen) = text_eq d id || was_seen id seen

unfoldable consume : List Text → Foreign VerifiedEvent × List Text
consume seen =
    if was_seen (lit "d1") seen
    then (fault (lit "replayed"), seen)
    else (done document, lit "d1" ∷ seen)

-- Every envelope is a heartbeat that was made for the connection.
abbrev toy : Jacs
toy = record {
  Seen = List Text;
  check_document_size = λ raw. done tt;
  parse_strict_json = λ raw. done envelope;
  require_response_context = λ e x. done (private_event (lit "heartbeat") no_cause payload);
  payload_replay_window_seconds = 300;
  verify_signed_event_with_replay_store = λ e keys window seen. consume seen;
  verify_signed_event_json_with_trusted_keys = λ raw keys seen. consume seen;
  hash_string = λ raw. raw;
  normalize_agent_id = λ id. id;
  request_auth_nonce = λ header. done header;
}

abbrev trusted : KeyMap
trusted = (lit "hai", as_bytes (lit "key")) ∷ []

abbrev context : LiveEventContext
context = record { tenant = lit "hai"; audience = lit "agent"; transport = stream (lit "n") }

abbrev feed : Feed toy
feed = record { keys = trusted; seen = []; sent = []; is_open = true }

abbrev sse : SseStream toy none context
sse = record { feed = feed; parser = default }

abbrev ws : WsStream toy none context
ws = record { feed = feed; heartbeat_pongs = []; ping_pongs = [] }

-- One event on the wire.
abbrev wire : Bytes
wire = as_bytes (lit "data: x") ++ (b'\n' ∷ b'\n' ∷ [])

abbrev released : HaiEvent
released = record {
  event_type = lit "heartbeat";
  event_data = payload;
  id = some (lit "d1");
  raw = lit "x";
  verification = record {
    status = lit "verified";
    signer_id = lit "hai";
    timestamp = lit "t";
    algorithm = lit "ed25519";
    document_id = lit "d1";
    event_sha256 = lit "x";
    replay_status = lit "consumed";
  };
}

heartbeat_verified :
    verify_live_transport_event toy trusted none context (lit "x") [] ≡ (ok released, lit "d1" ∷ [])
unfolding consume was_seen verify_live_transport_event lit verify_signature expected_causation
    check_payload trusted_issuer lookup get_str get as_str text_eq causation_eq
heartbeat_verified = refl

verify_live_transport_event-IsGenuine_example :
    IsGenuine toy trusted none context (lit "x") [] released (lit "d1" ∷ [])
verify_live_transport_event-IsGenuine_example =
    verify_live_transport_event-IsGenuine toy trusted none context (lit "x") [] {event = released}
      {seen' = lit "d1" ∷ []} heartbeat_verified

consumption_after_context_example :
    ((verify_live_transport_event toy trusted none context (lit "x") []).1 ≡ [])
    ⊎ PassedContext toy trusted none context (lit "x")
consumption_after_context_example = consumption_after_context toy trusted none context (lit "x") []

abbrev read : SseInput
read = SseInput.chunk_read wire 1

abbrev text : WsInput
text = WsInput.text_read (lit "x") null true

sse_run-provenance_example :
    Emits toy none context
      (latest_keys next_sse_keys trusted (read ∷ []))
      (sse_run toy none context sse (read ∷ [])).feed
      (sse_run toy none context sse ((read ∷ []) ++ read ∷ [])).feed
sse_run-provenance_example = sse_run-provenance toy none context sse (read ∷ []) read

ws_run-provenance_example :
    Emits toy none context
      (latest_keys next_ws_keys trusted (text ∷ []))
      (ws_run toy none context ws (text ∷ [])).feed
      (ws_run toy none context ws ((text ∷ []) ++ text ∷ [])).feed
ws_run-provenance_example = ws_run-provenance toy none context ws (text ∷ []) text

sse_run-quiet_example :
    IsQuietAfterError
      (sse_run toy none context sse (read ∷ [])).feed.is_open
      (sse_run toy none context sse (read ∷ [])).feed.sent
sse_run-quiet_example = sse_run-quiet toy none context sse (read ∷ []) refl

ws_run-quiet_example :
    IsQuietAfterError
      (ws_run toy none context ws (text ∷ [])).feed.is_open
      (ws_run toy none context ws (text ∷ [])).feed.sent
ws_run-quiet_example = ws_run-quiet toy none context ws (text ∷ []) refl
