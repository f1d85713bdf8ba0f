-- ===== src/Client/Feed.antt =====
-- What the tasks of `connect_sse` and `connect_ws` (rust/haiai/src/client.rs) share: the trusted
-- keys, the replay state, and the channel to the consumer.
pub mod Released
pub mod Replay
use haiai.Prelude.{ℕ, zero, suc, Bool, true, false, Option, List, [], ◌∷◌, ◌++◌, if◌then◌else◌}
use haiai.Text.{Text}
use haiai.Error.{HaiError, Result, ok, err}
use haiai.Json.{Value}
use haiai.Client.Keys.{KeyMap, refresh_server_public_keys}
use haiai.Client.Live.{Jacs, Scope, LiveEventContext, HaiEvent, verify_live_transport_event}

module _ (jacs : Jacs) where
  open jacs use {Seen}

  -- `sent` is what the channel took, oldest first; `is_open` says that the task runs.
  pub record Feed : Type 0 where
    pub keys : KeyMap
    pub seen : Seen
    pub sent : List (Result HaiEvent)
    pub is_open : Bool

  -- `let _ = send_stream_result(…, Err(error)); return;`, where the channel may refuse
  unfoldable pub fail : Bool → HaiError → Feed → Feed
  fail accepted e f = record f {
    sent = if accepted then f.sent ++ err e ∷ [] else f.sent;
    is_open = false;
  }

  -- `if !send_stream_result(…, Ok(event)) { return; }`
  unfoldable pub send : Bool → HaiEvent → Feed → Feed
  send accepted event f =
      if accepted then record f { sent = f.sent ++ ok event ∷ [] } else record f { is_open = false }

  -- The branch of the key refresh timer: the snapshot is replaced whole, or the task ends.
  unfoldable pub refresh : Result Value → Bool → Feed → Feed
  unfolding fail
  refresh fetched accepted f = elim (refresh_server_public_keys fetched) [
    | ok replacement ↦ record f { keys = replacement }
    | err e ↦ fail accepted e f
  ]

  module _ (store : Option Scope) (expected : LiveEventContext) where
    -- Send the event of a verification, or end with its error.
    unfoldable pub forward : Bool → Result HaiEvent → Feed → Feed
    unfolding fail send
    forward accepted (ok event) f = send accepted event f
    forward accepted (err e) f = fail accepted e f

    unfoldable pub verified : Text → Feed → Result HaiEvent × Seen
    verified raw f = verify_live_transport_event jacs f.keys store expected raw f.seen

    -- One raw event: verify it under the current snapshot, and send it or end.
    unfoldable pub release : Bool → Text → Feed → Feed
    unfolding forward verified
    release accepted raw f =
        let (result, seen') = verified raw f in forward accepted result (record f { seen = seen' })

    -- `for raw_event in raw_events`; the channel takes `room` items before it refuses.
    unfoldable pub release_all : ℕ → List Text → Feed → Feed
    release_all room [] f = f
    release_all zero (raw ∷ raws) f = release false raw f
    release_all (suc room) (raw ∷ raws) f =
        let next = release true raw f in
        let rest = release_all room raws next in if next.is_open then rest else next
