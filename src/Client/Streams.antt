-- ===== src/Client/Streams.antt =====
-- The tasks of `connect_sse` and `connect_ws` (rust/haiai/src/client.rs) as step functions: each
-- input is what one round of `tokio::select!` got, the order of inputs being the environment's.
pub mod Tasks
pub mod Provenance
pub mod Replay
use haiai.Prelude.{
  ℕ, Bool, true, false, Option, none, some, List, [], ◌∷◌, ◌++◌, ltb, if◌then◌else◌,
}
use haiai.Text.{Text, lit, len, text_eq}
use haiai.Text.Utf8.{Bytes}
use haiai.Error.{HaiError, message, signed_event_verification, Result, ok, err}
use haiai.Json.{Value, str, obj, end, field, get, unwrap_or}
use haiai.Client.Sse.{SseParser, default, push_chunk, max_stream_event_bytes}
use haiai.Client.Keys.{KeyMap}
use haiai.Client.Live.{Jacs, Scope, LiveEventContext, HaiEvent}
use haiai.Client.Feed.{Feed, fail, send, refresh, forward, verified, release_all}

pub data SseInput : Type 0 where
  -- the shutdown signal, and the end of the byte stream
  shutdown : SseInput
  ended : SseInput
  -- the refresh timer, with what the fetch gave and whether the channel takes an error
  key_refresh : Result Value → Bool → SseInput
  -- a chunk, with the number of items that the channel still takes
  chunk_read : Bytes → ℕ → SseInput
  read_failed : Text → Bool → SseInput

pub data WsInput : Type 0 where
  shutdown : WsInput
  ended : WsInput
  key_refresh : Result Value → Bool → WsInput
  -- a text message, the current time for a pong, and whether the channel takes an item
  text_read : Text → Value → Bool → WsInput
  -- a ping with its payload, and whether the pong could be sent
  ping : Bytes → Bool → WsInput
  closed : WsInput
  -- binary, pong and raw frames
  ignored : WsInput
  read_failed : Text → Bool → WsInput

pub event_too_large : HaiError
event_too_large =
    signed_event_verification (lit "WebSocket event exceeds the maximum signed-event size")

-- The loop of a task; one that has returned reads nothing more.
unfoldable pub run_task : {S I : Type 0} → (S → Bool) → (S → I → S) → S → List I → S
run_task is_open round s [] = s
run_task is_open round s (input ∷ inputs) =
    run_task is_open round (if is_open s then round s input else s) inputs

module _ (jacs : Jacs) (store : Option Scope) (expected : LiveEventContext) where
  pub record SseStream : Type 0 where
    pub feed : Feed jacs
    pub parser : SseParser

  abbrev stop_sse : SseStream → SseStream
  stop_sse s = record s { feed = record s.feed { is_open = false } }

  abbrev with_room : ℕ → Bool
  with_room room = ltb 0 room

  -- The branch of a chunk: parse it, then verify and send its events.
  unfoldable pub take_chunk : Bytes → ℕ → SseStream → SseStream
  take_chunk chunk room s = elim (push_chunk s.parser chunk) [
    | err e ↦ record s { feed = fail jacs (with_room room) e s.feed }
    | ok (parser, raw_events) ↦ record {
      feed = release_all jacs store expected room raw_events s.feed;
      parser = parser;
    }
  ]

  unfoldable pub sse_round : SseStream → SseInput → SseStream
  unfolding take_chunk
  sse_round s shutdown = stop_sse s
  sse_round s ended = stop_sse s
  sse_round s (key_refresh fetched accepted) = record s {
    feed = refresh jacs fetched accepted s.feed;
  }
  sse_round s (chunk_read chunk room) = take_chunk chunk room s
  sse_round s (read_failed e accepted) = record s {
    feed = fail jacs accepted (message (lit "SSE stream read failed: " ++ e)) s.feed;
  }

  unfoldable pub sse_run : SseStream → List SseInput → SseStream
  sse_run = run_task (λ s. s.feed.is_open) sse_round

  pub record WsStream : Type 0 where
    pub feed : Feed jacs
    -- what was written to the socket: pongs to heartbeats, and pongs to pings
    pub heartbeat_pongs : List Value
    pub ping_pongs : List Bytes

  abbrev stop_ws : WsStream → WsStream
  stop_ws s = record s { feed = record s.feed { is_open = false } }

  unfoldable pub pong_value : HaiEvent → Value → Value
  pong_value event now = obj (
      field (lit "type") (str (lit "pong"))
        (field (lit "timestamp") (unwrap_or now (get (lit "timestamp") event.event_data)) end))

  -- A heartbeat is answered before it is sent on.
  unfoldable pub answer_heartbeat : HaiEvent → Value → WsStream → WsStream
  answer_heartbeat event now s =
      if text_eq event.event_type (lit "heartbeat")
      then record s { heartbeat_pongs = s.heartbeat_pongs ++ pong_value event now ∷ [] }
      else s

  unfoldable pub answer : Result HaiEvent → Value → WsStream → WsStream
  answer (ok event) now s = answer_heartbeat event now s
  answer (err e) now s = s

  unfoldable pub take_message : Text → Value → Bool → WsStream → WsStream
  unfolding answer answer_heartbeat
  take_message text now accepted s =
      if ltb max_stream_event_bytes (len text)
      then record s { feed = fail jacs accepted event_too_large s.feed }
      else (let (result, seen') = verified jacs store expected text s.feed in
          let f : Feed jacs = record s.feed { seen = seen' } in
          record (answer result now s) { feed = forward jacs store expected accepted result f })

  unfoldable pub ws_round : WsStream → WsInput → WsStream
  unfolding take_message
  ws_round s shutdown = stop_ws s
  ws_round s ended = stop_ws s
  ws_round s closed = stop_ws s
  ws_round s ignored = s
  ws_round s (key_refresh fetched accepted) = record s {
    feed = refresh jacs fetched accepted s.feed;
  }
  ws_round s (text_read text now accepted) = take_message text now accepted s
  ws_round s (ping payload sent) =
      if sent then record s { ping_pongs = s.ping_pongs ++ payload ∷ [] } else stop_ws s
  ws_round s (read_failed e accepted) = record s {
    feed = fail jacs accepted (message (lit "WebSocket stream read failed: " ++ e)) s.feed;
  }

  unfoldable pub ws_run : WsStream → List WsInput → WsStream
  ws_run = run_task (λ s. s.feed.is_open) ws_round
