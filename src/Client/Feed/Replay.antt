-- ===== src/Client/Feed/Replay.antt =====
-- The replay state of a live stream, from one verification to the next.
use haiai.Prelude.{
  ℕ, zero, suc, ◌≡◌, refl, sym, ap, ◌∙◌, subst, ◌⊎◌, inl, inr, Bool, true, false, Option, List, [],
  ◌∷◌, ◌++◌, append-nil, if_elim,
}
use haiai.Text.{Text}
use haiai.Error.{HaiError, Result, ok, err, Result-cases}
use haiai.Json.{Value}
use haiai.Client.Keys.{KeyMap, refresh_server_public_keys}
use haiai.Client.Live.{Scope, Jacs, LiveEventContext, HaiEvent, verify_live_transport_event}
use haiai.Client.Live.Genuine.{verify_live_transport_event-IsGenuine}
use haiai.Client.Feed.{Feed, fail, send, refresh, forward, verified, release, release_all}

-- The events among some items.
abbrev events : List (Result HaiEvent) → List HaiEvent
events [] = []
events (ok event ∷ items) = event ∷ events items
events (err e ∷ items) = events items

events-append : (xs ys : List (Result HaiEvent)) → events (xs ++ ys) ≡ events xs ++ events ys
events-append [] ys = refl
events-append (ok event ∷ xs) ys = ap (λ l. event ∷ l) (events-append xs ys)
events-append (err e ∷ xs) ys = events-append xs ys

module _ (jacs : Jacs) (store : Option Scope) (expected : LiveEventContext) where
  -- The events were released by one verification each, and each verification had the replay state
  -- that the one before it left.
  abbrev IsChain : jacs.Seen → List HaiEvent → jacs.Seen → Type 0
  IsChain seen [] seen' = seen ≡ seen'
  IsChain seen (event ∷ more) seen' =
      (keys : KeyMap) × (mid : jacs.Seen) × (verify_live_transport_event jacs keys store expected
          event.raw seen
        ≡ (ok event, mid))
      × IsChain mid more seen'

  -- The events that were sent are a chain of verifications from `seen` to the replay state of the
  -- feed, or to the state in which one last verification was made, whose event was not sent, and with
  -- which the task has ended.
  abbrev pub IsThreaded : jacs.Seen → Feed jacs → Type 0
  IsThreaded seen f =
      (mid : jacs.Seen) × IsChain seen (events f.sent) mid
      × ((f.seen ≡ mid)
          ⊎ ((f.is_open ≡ false)
              × (keys : KeyMap) × (raw : Text) × (f.seen
                  ≡ (verify_live_transport_event jacs keys store expected raw mid).1)))

  -- The chain reaches the replay state of the feed.
  abbrev pub IsSteady : jacs.Seen → Feed jacs → Type 0
  IsSteady seen f = IsChain seen (events f.sent) f.seen

  IsThreaded-steady : (seen : jacs.Seen) (f : Feed jacs) → IsSteady seen f → IsThreaded seen f
  IsThreaded-steady seen f h = (f.seen, h, inl refl)

  pub IsThreaded-open :
      (seen : jacs.Seen) (f : Feed jacs) → f.is_open ≡ true → IsThreaded seen f → IsSteady seen f
  IsThreaded-open seen f going (mid, chain, end) = elim end [
    | inl e ↦ subst (λ s. IsChain seen (events f.sent) s) (sym e) chain
    | inr (closed, keys, raw, e) ↦ cc (going, closed)
  ]

  IsChain-concat :
      (seen : jacs.Seen) (sent : List HaiEvent) (event : HaiEvent) (keys : KeyMap)
      (mid seen' : jacs.Seen)
      → IsChain seen sent mid
      → verify_live_transport_event jacs keys store expected event.raw mid ≡ (ok event, seen')
      → IsChain seen (sent ++ event ∷ []) seen'
  IsChain-concat seen [] event keys mid seen' h e = (
    keys,
    seen',
    ap (λ s. verify_live_transport_event jacs keys store expected event.raw s) h ∙ e,
    refl,
  )
  IsChain-concat seen (first ∷ sent) event keys mid seen' (k, next, v, h) e =
      (k, next, v, IsChain-concat next sent event keys mid seen' h e)

  pub fail-IsThreaded :
      (seen : jacs.Seen) (accepted : Bool) (e : HaiError) (f : Feed jacs)
      → IsSteady seen f
      → IsThreaded seen (fail jacs accepted e f)
  unfolding fail
  fail-IsThreaded seen false e f h = (f.seen, h, inl refl)
  fail-IsThreaded seen true e f h =
      (f.seen, rw (events-append f.sent (err e ∷ []), append-nil (events f.sent)) h, inl refl)

  -- What comes out of a verification in the replay state of the feed is sent, or ends the task.
  pub forward-IsThreaded :
      (seen : jacs.Seen) (accepted : Bool) (raw : Text) (f : Feed jacs) (result : Result HaiEvent)
      (seen' : jacs.Seen)
      → verify_live_transport_event jacs f.keys store expected raw f.seen ≡ (result, seen')
      → IsSteady seen f
      → IsThreaded seen (forward jacs store expected accepted result (record f { seen = seen' }))
  unfolding forward send fail
  forward-IsThreaded seen false raw f (err e) seen' v h =
      (f.seen, h, inr (refl, f.keys, raw, sym (ap (λ p. p.1) v)))
  forward-IsThreaded seen true raw f (err e) seen' v h = (
    f.seen,
    rw (events-append f.sent (err e ∷ []), append-nil (events f.sent)) h,
    inr (refl, f.keys, raw, sym (ap (λ p. p.1) v)),
  )
  forward-IsThreaded seen false raw f (ok event) seen' v h =
      (f.seen, h, inr (refl, f.keys, raw, sym (ap (λ p. p.1) v)))
  forward-IsThreaded seen true raw f (ok event) seen' v h =
      let g =
        verify_live_transport_event-IsGenuine jacs f.keys store expected raw f.seen {event = event}
          {seen' = seen'} v in
      let own : verify_live_transport_event jacs f.keys store expected event.raw f.seen
          ≡ (ok event, seen') =
        ap (λ t. verify_live_transport_event jacs f.keys store expected t f.seen) g.raw_is ∙ v in
      (
        seen',
        rw (events-append f.sent (ok event ∷ []))
            (IsChain-concat seen (events f.sent) event f.keys f.seen seen' h own),
        inl refl,
      )

  release-IsThreaded :
      (seen : jacs.Seen) (accepted : Bool) (raw : Text) (f : Feed jacs)
      → IsSteady seen f
      → IsThreaded seen (release jacs store expected accepted raw f)
  unfolding release verified
  release-IsThreaded seen accepted raw f = forward-IsThreaded seen accepted raw f _ _ refl

  pub release_all-IsThreaded :
      (seen : jacs.Seen) (raws : List Text) (room : ℕ) (f : Feed jacs)
      → IsSteady seen f
      → IsThreaded seen (release_all jacs store expected room raws f)
  unfolding release_all
  release_all-IsThreaded seen [] room f h = IsThreaded-steady seen f h
  release_all-IsThreaded seen (raw ∷ raws) zero f h = release-IsThreaded seen false raw f h
  release_all-IsThreaded seen (raw ∷ raws) (suc room) f h =
      let next = release jacs store expected true raw f in
      let kept = release-IsThreaded seen true raw f h in
      if_elim (IsThreaded seen) next.is_open (release_all jacs store expected room raws next) next
        (λ going. release_all-IsThreaded seen raws room next (IsThreaded-open seen next going kept))
        (λ ended. kept)

  pub refresh-IsThreaded :
      (seen : jacs.Seen) (fetched : Result Value) (accepted : Bool) (f : Feed jacs)
      → IsSteady seen f
      → IsThreaded seen (refresh jacs fetched accepted f)
  unfolding refresh
  refresh-IsThreaded seen fetched accepted f h =
      elim (Result-cases (refresh_server_public_keys fetched)) [
        | inl (replacement, e) ↦ rw (e, refresh) (f.seen, h, inl refl)
        | inr (why, e) ↦ rw (e, refresh) (fail-IsThreaded seen accepted why f h)
      ]
