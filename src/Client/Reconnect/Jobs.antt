-- ===== src/Client/Reconnect/Jobs.antt =====
-- Which jobs the handler gets.
use haiai.Prelude.{
  ℕ, ◌<◌, ◌≡◌, refl, true, false, List, [], ◌∷◌, ◌++◌, map, append-nil, append_assoc, arith,
  if◌then◌else◌, All,
}
use haiai.Text.{lit, text_eq, text_eq_refl}
use haiai.Error.{Result, ok}
use haiai.Json.{Value}
use haiai.Client.Reconnect.{
  Event, Connection, connected, dropped, disconnected, finished, Listener, read_events, retry_or,
  after_session, listen,
}

-- The jobs among some events, in order.
abbrev pub jobs_in : List Event → List Value
jobs_in [] = []
jobs_in (event ∷ events) =
    if text_eq event.event_type (lit "benchmark_job")
    then event.event_data ∷ jobs_in events
    else jobs_in events

abbrev pub all_jobs : List (List Event) → List Value
all_jobs [] = []
all_jobs (events ∷ sessions) = jobs_in events ++ all_jobs sessions

abbrev pub IsDisconnect : Event → Type 0
IsDisconnect event = event.event_type ≡ lit "disconnect"

module _ (handler : Value → Result (Unit {0})) where
  -- No disconnect among the events, and the handler accepts each job.
  abbrev pub IsServed : Event → Type 0
  IsServed event =
      (text_eq event.event_type (lit "disconnect") ≡ false)
      × (text_eq event.event_type (lit "benchmark_job") ≡ true → handler event.event_data ≡ ok tt)

  abbrev deliver : List Event → List (Result Event)
  deliver events = map ok events

  read_events-dropped :
      (events : List Event)
      → All IsServed events
      → read_events handler (map ok events) ≡ record { ending = dropped; jobs = jobs_in events }
  unfolding read_events
  read_events-dropped [] h = refl
  read_events-dropped (event ∷ events) (h, hs) = ground (arith, h, read_events-dropped events hs)

  job_is_no_disconnect : text_eq (lit "disconnect") (lit "benchmark_job") ≡ false
  unfolding text_eq lit
  job_is_no_disconnect = refl

  read_events-disconnected :
      (events : List Event) (last : Event) (more : List (Result Event))
      → All IsServed events
      → IsDisconnect last
      → read_events handler (map ok events ++ (ok last ∷ more))
        ≡ record { ending = disconnected; jobs = jobs_in events }
  unfolding read_events
  read_events-disconnected [] last more h e =
      rw (e, read_events) (rw (job_is_no_disconnect, text_eq_refl (lit "disconnect")))
  read_events-disconnected (event ∷ events) last more (h, hs) e =
      ground (arith, h, read_events-disconnected events last more hs e)

  -- If at least one reconnection is allowed and the handler accepts each job, then over sessions that
  -- are dropped, and a last one that the server ends by a disconnect, the handler gets every job of
  -- every session exactly once and in order, and the listener returns `Ok` at the disconnect, with
  -- nothing read behind it and no further connection made.
  pub listen_jobs :
      (attempts count : ℕ) (sessions : List (List Event)) (events : List Event) (last : Event)
      (more : List (Result Event)) (world : List Connection)
      → 0 < attempts
      → All (All IsServed) sessions
      → All IsServed events
      → IsDisconnect last
      → let r : Listener = listen handler attempts count (
          map (λ es. connected (map ok es)) sessions
          ++ (connected (map ok events ++ (ok last ∷ more)) ∷ world)) in
        (r.outcome ≡ finished (ok tt)) × (r.jobs ≡ all_jobs sessions ++ jobs_in events)
  unfolding listen after_session retry_or
  listen_jobs attempts count [] events last more world room hs h e =
      ground (arith, read_events-disconnected events last more h e, append-nil (jobs_in events))
  listen_jobs attempts count (s ∷ sessions) events last more world room (k, hs) h e = ground (
    arith,
    read_events-dropped s k,
    listen_jobs attempts 1 sessions events last more world room hs h e,
    append_assoc (jobs_in s) (all_jobs sessions) (jobs_in events),
  )
