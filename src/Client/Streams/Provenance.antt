-- ===== src/Client/Streams/Provenance.antt =====
-- Where the events of a live stream come from.
use haiai.Prelude.{
  ℕ, ◌≡◌, refl, Bool, true, false, Option, List, [], ◌∷◌, ◌++◌, ltb, arith, if_elim, inl, inr,
}
use haiai.Text.{Text, len}
use haiai.Text.Utf8.{Bytes}
use haiai.Error.{Result, ok, err, Result-cases}
use haiai.Json.{Value}
use haiai.Client.Sse.{push_chunk, max_stream_event_bytes}
use haiai.Client.Keys.{KeyMap, refresh_server_public_keys}
use haiai.Client.Live.{Jacs, Scope, LiveEventContext}
use haiai.Client.Feed.{Feed, fail, refresh}
use haiai.Client.Feed.Released.{
  IsQuietAfterError, Emits, Emits-none, Emits-from, fail-Emits, refresh-Emits, release_all-Emits,
  forward-Emits, forward-keys, verified-IsReleased,
}
use haiai.Client.Streams.Tasks.{latest_keys, run-provenance, run-quiet}
use haiai.Client.Streams.{
  SseInput, WsInput, SseStream, take_chunk, sse_round, sse_run, WsStream, take_message, ws_round,
  ws_run, event_too_large,
}

-- The key set behind a refresh: its own, if it is accepted.
abbrev latest : KeyMap → Result KeyMap → KeyMap
latest keys (ok replacement) = replacement
latest keys (err e) = keys

abbrev pub next_sse_keys : KeyMap → SseInput → KeyMap
next_sse_keys keys (SseInput.key_refresh fetched accepted) =
    latest keys (refresh_server_public_keys fetched)
next_sse_keys keys _ = keys

abbrev pub next_ws_keys : KeyMap → WsInput → KeyMap
next_ws_keys keys (WsInput.key_refresh fetched accepted) =
    latest keys (refresh_server_public_keys fetched)
next_ws_keys keys _ = keys

module _ (jacs : Jacs) (store : Option Scope) (expected : LiveEventContext) where
  abbrev SseState : Type 0
  SseState = SseStream jacs store expected

  abbrev WsState : Type 0
  WsState = WsStream jacs store expected

  refresh-keys :
      (fetched : Result Value) (accepted : Bool) (f : Feed jacs)
      → (refresh jacs fetched accepted f).is_open ≡ true
      → (refresh jacs fetched accepted f).keys ≡ latest f.keys (refresh_server_public_keys fetched)
  unfolding refresh
  refresh-keys fetched accepted f h = ground arith

  take_chunk-Emits :
      (chunk : Bytes) (room : ℕ) (s : SseState)
      → Emits jacs store expected s.feed.keys s.feed
          (take_chunk jacs store expected chunk room s).feed
        × ((take_chunk jacs store expected chunk room s).feed.keys ≡ s.feed.keys)
  unfolding take_chunk
  take_chunk-Emits chunk room s = elim (Result-cases (push_chunk s.parser chunk)) [
    | inl ((parser, raws), e) ↦
        rw (e, take_chunk) (release_all-Emits jacs store expected raws room s.feed)
    | inr (fault, e) ↦
        rw (e, take_chunk)
          (
            fail-Emits jacs store expected s.feed.keys (ltb 0 room) fault s.feed,
            unfold fail in refl,
          )
  ]

  -- One round emits what the keys of its start vouch for.
  sse_round-Emits :
      (s : SseState) (input : SseInput)
      → Emits jacs store expected s.feed.keys s.feed (sse_round jacs store expected s input).feed
  unfolding sse_round
  sse_round-Emits s SseInput.shutdown = Emits-none jacs store expected _ _ _ refl
  sse_round-Emits s SseInput.ended = Emits-none jacs store expected _ _ _ refl
  sse_round-Emits s (SseInput.key_refresh fetched accepted) =
      refresh-Emits jacs store expected _ fetched accepted s.feed
  sse_round-Emits s (SseInput.chunk_read chunk room) = (take_chunk-Emits chunk room s).0
  sse_round-Emits s (SseInput.read_failed e accepted) =
      fail-Emits jacs store expected _ accepted _ s.feed

  sse_round-keys :
      (s : SseState) (input : SseInput)
      → (sse_round jacs store expected s input).feed.is_open ≡ true
      → (sse_round jacs store expected s input).feed.keys ≡ next_sse_keys s.feed.keys input
  unfolding sse_round fail
  sse_round-keys s SseInput.shutdown h = refl
  sse_round-keys s SseInput.ended h = refl
  sse_round-keys s (SseInput.key_refresh fetched accepted) h =
      refresh-keys fetched accepted s.feed h
  sse_round-keys s (SseInput.chunk_read chunk room) h = (take_chunk-Emits chunk room s).1
  sse_round-keys s (SseInput.read_failed e accepted) h = refl

  take_message-Emits :
      (text : Text) (now : Value) (accepted : Bool) (s : WsState)
      → Emits jacs store expected s.feed.keys s.feed
          (take_message jacs store expected text now accepted s).feed
        × ((take_message jacs store expected text now accepted s).feed.keys ≡ s.feed.keys)
  unfolding take_message fail
  take_message-Emits text now accepted s =
      if_elim
        (λ (t : WsState).
          Emits jacs store expected s.feed.keys s.feed t.feed × (t.feed.keys ≡ s.feed.keys))
        (ltb max_stream_event_bytes (len text)) _ _
        (λ large. (fail-Emits jacs store expected _ accepted event_too_large s.feed, refl))
        (λ fits. (
          Emits-from jacs store expected s.feed.keys s.feed _ _ refl (
              forward-Emits jacs store expected s.feed.keys accepted _ _
                (verified-IsReleased jacs store expected text s.feed)),
          forward-keys jacs store expected accepted _ _,
        ))

  ws_round-Emits :
      (s : WsState) (input : WsInput)
      → Emits jacs store expected s.feed.keys s.feed (ws_round jacs store expected s input).feed
  unfolding ws_round
  ws_round-Emits s (WsInput.key_refresh fetched accepted) =
      refresh-Emits jacs store expected _ fetched accepted s.feed
  ws_round-Emits s (WsInput.text_read text now accepted) =
      (take_message-Emits text now accepted s).0
  ws_round-Emits s (WsInput.read_failed e accepted) =
      fail-Emits jacs store expected _ accepted _ s.feed
  ws_round-Emits s (WsInput.ping payload true) = Emits-none jacs store expected _ _ _ refl
  ws_round-Emits s (WsInput.ping payload false) = Emits-none jacs store expected _ _ _ refl
  ws_round-Emits s _ = Emits-none jacs store expected _ _ _ refl

  ws_round-keys :
      (s : WsState) (input : WsInput)
      → (ws_round jacs store expected s input).feed.is_open ≡ true
      → (ws_round jacs store expected s input).feed.keys ≡ next_ws_keys s.feed.keys input
  unfolding ws_round fail
  ws_round-keys s (WsInput.key_refresh fetched accepted) h = refresh-keys fetched accepted s.feed h
  ws_round-keys s (WsInput.text_read text now accepted) h =
      (take_message-Emits text now accepted s).1
  ws_round-keys s (WsInput.ping payload true) h = refl
  ws_round-keys s (WsInput.ping payload false) h = refl
  ws_round-keys s _ h = refl

  -- Whatever an SSE task has read before, the items that one more input puts into the channel are
  -- errors and genuine events, each verified under the key set of the last accepted refresh before
  -- that input (or the first key set), never under keys that a refresh has replaced; an error is
  -- the last item and leaves the task ended.
  pub sse_run-provenance :
      (s : SseState) (before : List SseInput) (input : SseInput)
      → Emits jacs store expected
          (latest_keys next_sse_keys s.feed.keys before)
          (sse_run jacs store expected s before).feed
          (sse_run jacs store expected s (before ++ input ∷ [])).feed
  unfolding sse_run
  sse_run-provenance =
      run-provenance jacs store expected (λ s. s.feed) (sse_round jacs store expected) next_sse_keys
        sse_round-Emits sse_round-keys

  -- Whatever a WebSocket task has read before, the items that one more input puts into the channel
  -- are errors and genuine events, each verified under the key set of the last accepted refresh
  -- before that input (or the first key set), never under keys that a refresh has replaced; an error
  -- is the last item and leaves the task ended.
  pub ws_run-provenance :
      (s : WsState) (before : List WsInput) (input : WsInput)
      → Emits jacs store expected
          (latest_keys next_ws_keys s.feed.keys before)
          (ws_run jacs store expected s before).feed
          (ws_run jacs store expected s (before ++ input ∷ [])).feed
  unfolding ws_run
  ws_run-provenance =
      run-provenance jacs store expected (λ s. s.feed) (ws_round jacs store expected) next_ws_keys
        ws_round-Emits ws_round-keys

  -- A task that starts with an empty channel has sent events, and behind them at most one error, and
  -- an error only if it has ended: nothing follows an error.
  pub sse_run-quiet :
      (s : SseState) (inputs : List SseInput)
      → s.feed.sent ≡ []
      → IsQuietAfterError
          (sse_run jacs store expected s inputs).feed.is_open
          (sse_run jacs store expected s inputs).feed.sent
  unfolding sse_run
  sse_run-quiet s inputs e =
      run-quiet jacs store expected (λ s. s.feed) (sse_round jacs store expected) next_sse_keys
        sse_round-Emits sse_round-keys inputs s (rw e tt)

  -- A WebSocket task that starts with an empty channel has sent events, and behind them at most one
  -- error, and an error only if it has ended: nothing follows an error.
  pub ws_run-quiet :
      (s : WsState) (inputs : List WsInput)
      → s.feed.sent ≡ []
      → IsQuietAfterError
          (ws_run jacs store expected s inputs).feed.is_open
          (ws_run jacs store expected s inputs).feed.sent
  unfolding ws_run
  ws_run-quiet s inputs e =
      run-quiet jacs store expected (λ s. s.feed) (ws_round jacs store expected) next_ws_keys
        ws_round-Emits ws_round-keys inputs s (rw e tt)
