-- ===== src/Client/Reconnect.antt =====
-- `on_benchmark_job_with_reconnect` of rust/haiai/src/client.rs. The loop is the same for SSE and
-- WebSocket, so `connect` stands for either. The world is the list of outcomes that the calls of
-- `connect` get: where the list ends, the listener is still running.
pub mod Limits
pub mod Jobs
use haiai.Prelude.{
  ℕ, zero, suc, ◌+◌, ◌*◌, ◌%◌, ◌^◌, min, Bool, true, false, List, [], ◌∷◌, ◌++◌, leb, if◌then◌else◌,
}
use haiai.Text.{Text, lit, text_eq, decimal}
use haiai.Error.{HaiError, message, Result, ok, err}
use haiai.Json.{Value}

-- The fields of `HaiEvent` that the listener reads.
pub record Event : Type 0 where
  pub event_type : Text
  pub event_data : Value

-- An outcome of `connect`: an error, or a connection with the items of its event channel.
pub data Connection : Type 0 where
  refused : HaiError → Connection
  connected : List (Result Event) → Connection

-- How reading one connection ends.
pub data SessionEnd : Type 0 where
  dropped : SessionEnd
  disconnected : SessionEnd
  failed : HaiError → SessionEnd

-- A session with the data of the jobs that were given to the handler.
pub record Session : Type 0 where
  pub ending : SessionEnd
  pub jobs : List Value

-- What the listener has done: its result, if it has returned, the reconnect count, the jobs handled
-- and the delays slept, in milliseconds.
pub data Outcome : Type 0 where
  finished : Result (Unit {0}) → Outcome
  running : ℕ → Outcome

pub record Listener : Type 0 where
  pub outcome : Outcome
  pub jobs : List Value
  pub delays : List ℕ

abbrev pub default_max_reconnect_attempts : ℕ
default_max_reconnect_attempts = 10

-- `100 * (1u64 << reconnect_count.min(10))`
unfoldable pub reconnect_delay : ℕ → ℕ
reconnect_delay reconnect_count = 100 * 2 ^ min reconnect_count 10 % 2 ^ 64

abbrev end_session : SessionEnd → Session
end_session ending = record { ending = ending; jobs = [] }

abbrev with_job : Value → Session → Session
with_job job s = record s { jobs = job ∷ s.jobs }

module _ (handler : Value → Result (Unit {0})) where
  -- `while let Some(event) = conn.next_event().await?`
  unfoldable pub read_events : List (Result Event) → Session
  read_events [] = end_session dropped
  read_events (err e ∷ items) = end_session (failed e)
  read_events (ok event ∷ items) =
      let rest = read_events items in
      if text_eq event.event_type (lit "benchmark_job")
      then (elim (handler event.event_data) [
        | ok done ↦ with_job event.event_data rest
        | err e ↦ with_job event.event_data (end_session (failed e))
      ])
      else if text_eq event.event_type (lit "disconnect")
      then end_session disconnected
      else rest

  module _ (max_reconnect_attempts : ℕ) where
    abbrev pub exceeded : HaiError
    exceeded = message (
        lit "on_benchmark_job: max reconnect attempts ("
        ++ (decimal max_reconnect_attempts ++ lit ") exceeded"))

    abbrev pub finish : Result (Unit {0}) → List Value → Listener
    finish result jobs = record { outcome = finished result; jobs = jobs; delays = [] }

    -- Give up with the error, or sleep and go on.
    unfoldable pub retry_or : ℕ → HaiError → Listener → Listener
    retry_or reconnect_count e rest =
        if leb max_reconnect_attempts reconnect_count
        then finish (err e) []
        else record rest { delays = reconnect_delay reconnect_count ∷ rest.delays }

    -- What follows a connection that was read to its end.
    unfoldable pub after_session : SessionEnd → Listener → Listener
    after_session dropped rest = rest
    after_session disconnected rest = finish (ok tt) []
    after_session (failed e) rest = finish (err e) []

    -- The loop, from a reconnect count; a connection that succeeds resets it to 0.
    unfoldable pub listen : ℕ → List Connection → Listener
    unfolding read_events retry_or after_session
    listen reconnect_count [] = record { outcome = running reconnect_count; jobs = []; delays = [] }
    listen reconnect_count (refused e ∷ world) =
        let rest = listen (reconnect_count + 1) world in retry_or reconnect_count e rest
    listen reconnect_count (connected items ∷ world) =
        let rest = listen 1 world in
        let session = read_events items in
        let last = after_session session.ending (retry_or 0 exceeded rest) in
        record last { jobs = session.jobs ++ last.jobs }

  -- `on_benchmark_job_with_reconnect`
  unfoldable pub on_benchmark_job_with_reconnect : ℕ → List Connection → Listener
  unfolding listen
  on_benchmark_job_with_reconnect max_reconnect_attempts = listen max_reconnect_attempts 0

  -- `on_benchmark_job`
  unfoldable pub on_benchmark_job : List Connection → Listener
  unfolding on_benchmark_job_with_reconnect
  on_benchmark_job = on_benchmark_job_with_reconnect default_max_reconnect_attempts
