-- ===== src/Client/Reconnect/Limits.antt =====
-- When the listener gives up, and how long it waits.
use haiai.Prelude.{
  ℕ, zero, suc, ◌+◌, ◌*◌, ◌≤◌, ◌<◌, ◌^◌, min, ◌≡◌, refl, ◌∙◌, true, List, [], ◌∷◌, ◌++◌, map, arith,
  leb, All, length, every_number, every_number_sound,
}
use haiai.Error.{HaiError, Result, err}
use haiai.Json.{Value}
use haiai.Client.Reconnect.{
  Connection, refused, connected, dropped, finished, running, reconnect_delay, read_events,
  retry_or, after_session, listen, on_benchmark_job_with_reconnect,
}

-- The delays behind `n` failures in a row, the first at reconnect count `i`.
abbrev pub delays_from : ℕ → ℕ → List ℕ
delays_from i zero = []
delays_from i (suc n) = reconnect_delay i ∷ delays_from (i + 1) n

small_powers : every_number (λ k. leb (2 ^ k) 1024) 11 ≡ true
unfolding every_number
small_powers = refl

-- Each delay doubles the one before it up to a cap: no wrap-around, and at most 102.4 seconds.
pub reconnect_delay_bounds :
    (n : ℕ) → (reconnect_delay n ≡ 100 * 2 ^ min n 10) × (reconnect_delay n ≤ 102400)
unfolding reconnect_delay
reconnect_delay_bounds n = ground (
  arith,
  every_number_sound (λ k. leb (2 ^ k) 1024) 11 {number = min n 10} (omega arith) small_powers,
)

module _ (handler : Value → Result (Unit {0})) (attempts : ℕ) where
  refused_from :
      (es : List HaiError) (e : HaiError) (world : List Connection) (count : ℕ)
      → count + length es ≡ attempts
      → listen handler attempts count (map refused es ++ (refused e ∷ world))
        ≡ record { outcome = finished (err e); jobs = []; delays = delays_from count (length es) }
  unfolding listen retry_or
  refused_from [] e world count h = ground arith
  refused_from (f ∷ es) e world count h =
      ground (arith, refused_from es e world (count + 1) (omega (arith, h)))

  -- Refused connections in a row: the listener sleeps after each of the first ones, and gives up at
  -- the one beyond the limit, with its error, whatever would have followed.
  pub listen_refused :
      (es : List HaiError) (e : HaiError) (world : List Connection)
      → length es ≡ attempts
      → on_benchmark_job_with_reconnect handler attempts (map refused es ++ (refused e ∷ world))
        ≡ record { outcome = finished (err e); jobs = []; delays = delays_from 0 attempts }
  unfolding on_benchmark_job_with_reconnect
  listen_refused es e world h = refused_from es e world 0 (omega (arith, h)) ∙ rw h

  abbrev pub Drops : Connection → Type 0
  Drops (refused e) = ⊥
  Drops (connected items) = (read_events handler items).ending ≡ dropped

  -- A server that accepts every connection and drops it is never given up on, unless the limit is 0:
  -- behind any number of such connections the listener is still running with its count at 1, and
  -- has slept 100 ms after each, with no backoff.
  pub listen_dropped :
      (c : Connection) (world : List Connection) (count : ℕ)
      → 0 < attempts
      → All Drops (c ∷ world)
      → ((listen handler attempts count (c ∷ world)).outcome ≡ running 1)
        × ((listen handler attempts count (c ∷ world)).delays ≡ map (λ d. 100) (c ∷ world))
  unfolding listen after_session retry_or reconnect_delay
  listen_dropped (refused e) world count h drops = absurd drops.0
  listen_dropped (connected items) [] count h drops = ground arith
  listen_dropped (connected items) (d ∷ world) count h drops =
      ground (arith, listen_dropped d world 1 h drops.1)
