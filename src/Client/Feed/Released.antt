-- ===== src/Client/Feed/Released.antt =====
-- What the feed's operations put into the channel.
use haiai.Prelude.{
  ℕ, zero, suc, ◌≡◌, refl, sym, ap, ◌∙◌, inl, inr, Bool, true, false, Option, List, [], ◌∷◌, ◌++◌,
  append-nil, append_assoc, if_elim, subst, All, All-append,
}
use haiai.Text.{Text}
use haiai.Error.{HaiError, Result, ok, err, Result-cases}
use haiai.Json.{Value}
use haiai.Client.Keys.{KeyMap, refresh_server_public_keys}
use haiai.Client.Live.{Jacs, Scope, LiveEventContext, HaiEvent, verify_live_transport_event}
use haiai.Client.Live.Genuine.{IsGenuine, verify_live_transport_event-IsGenuine}
use haiai.Client.Feed.{Feed, fail, send, refresh, forward, verified, release, release_all}

-- Events, and then at most one error, which only a task that has ended leaves.
abbrev pub IsQuietAfterError : Bool → List (Result HaiEvent) → Type 0
IsQuietAfterError is_open [] = Unit
IsQuietAfterError is_open (ok event ∷ items) = IsQuietAfterError is_open items
IsQuietAfterError is_open (err e ∷ items) = (items ≡ []) × (is_open ≡ false)

pub quiet-append :
    (b : Bool) (xs ys : List (Result HaiEvent))
    → IsQuietAfterError true xs
    → IsQuietAfterError b ys
    → IsQuietAfterError b (xs ++ ys)
quiet-append b [] ys h k = k
quiet-append b (ok event ∷ xs) ys h k = quiet-append b xs ys h k
quiet-append b (err e ∷ xs) ys h k = cc (h.1)

module _ (jacs : Jacs) (store : Option Scope) (expected : LiveEventContext) where
  -- An item that a key set vouches for: an error, or a genuine event.
  abbrev pub IsReleased : KeyMap → Result HaiEvent → Type 0
  IsReleased keys (err e) = Unit
  IsReleased keys (ok event) =
      (raw : Text) × (seen : jacs.Seen) × (seen' : jacs.Seen) × IsGenuine jacs keys store expected
        raw seen event seen'

  -- From `f` to `g` the channel took `new`, all of it released under `keys`.
  pub record Emits (keys : KeyMap) (f g : Feed jacs) : Type 0 where
    pub new : List (Result HaiEvent)
    pub sent_is : g.sent ≡ f.sent ++ new
    pub released : All (IsReleased keys) new
    pub quiet : IsQuietAfterError g.is_open new

  pub Emits-none : (keys : KeyMap) (f g : Feed jacs) → g.sent ≡ f.sent → Emits keys f g
  Emits-none keys f g e = record {
    new = [];
    sent_is = e ∙ sym (append-nil f.sent);
    released = tt;
    quiet = tt;
  }

  pub Emits-from :
      (keys : KeyMap) (f f' g : Feed jacs) → f'.sent ≡ f.sent → Emits keys f' g → Emits keys f g
  Emits-from keys f f' g e emits = record {
    new = emits.new;
    sent_is = emits.sent_is ∙ ap (λ l. l ++ emits.new) e;
    released = emits.released;
    quiet = emits.quiet;
  }

  pub fail-Emits :
      (keys : KeyMap) (accepted : Bool) (e : HaiError) (f : Feed jacs)
      → Emits keys f (fail jacs accepted e f)
  unfolding fail
  fail-Emits keys true e f = record {
    new = err e ∷ [];
    sent_is = refl;
    released = (tt, tt);
    quiet = (refl, refl);
  }
  fail-Emits keys false e f = Emits-none keys f _ refl

  send-Emits :
      (keys : KeyMap) (accepted : Bool) (event : HaiEvent) (f : Feed jacs)
      → IsReleased keys (ok event)
      → Emits keys f (send jacs accepted event f)
  unfolding send
  send-Emits keys true event f h = record {
    new = ok event ∷ [];
    sent_is = refl;
    released = (h, tt);
    quiet = tt;
  }
  send-Emits keys false event f h = Emits-none keys f _ refl

  pub forward-Emits :
      (keys : KeyMap) (accepted : Bool) (result : Result HaiEvent) (f : Feed jacs)
      → IsReleased keys result
      → Emits keys f (forward jacs store expected accepted result f)
  unfolding forward
  forward-Emits keys accepted (ok event) f h = send-Emits keys accepted event f h
  forward-Emits keys accepted (err e) f h = fail-Emits keys accepted e f

  pub verified-IsReleased :
      (raw : Text) (f : Feed jacs) → IsReleased f.keys (verified jacs store expected raw f).0
  unfolding verified
  verified-IsReleased raw f =
      go (verify_live_transport_event jacs f.keys store expected raw f.seen) refl
    where
      go :
          (r : Result HaiEvent × jacs.Seen)
          → verify_live_transport_event jacs f.keys store expected raw f.seen ≡ r
          → IsReleased f.keys r.0
      go (ok event, seen') e = (
        raw,
        f.seen,
        seen',
        verify_live_transport_event-IsGenuine jacs f.keys store expected raw f.seen e,
      )
      go (err fault, seen') e = tt

  pub release-Emits :
      (accepted : Bool) (raw : Text) (f : Feed jacs)
      → Emits f.keys f (release jacs store expected accepted raw f)
  unfolding release
  release-Emits accepted raw f =
      Emits-from f.keys f _ _ refl (forward-Emits f.keys accepted _ _ (verified-IsReleased raw f))

  pub forward-keys :
      (accepted : Bool) (result : Result HaiEvent) (f : Feed jacs)
      → (forward jacs store expected accepted result f).keys ≡ f.keys
  unfolding forward
  forward-keys true (ok event) f = refl
  forward-keys false (ok event) f = refl
  forward-keys accepted (err e) f = refl

  pub release-keys :
      (accepted : Bool) (raw : Text) (f : Feed jacs)
      → (release jacs store expected accepted raw f).keys ≡ f.keys
  unfolding release
  release-keys accepted raw f = forward-keys accepted _ _

  Emits-trans :
      (keys : KeyMap) (f g h : Feed jacs)
      → g.is_open ≡ true
      → Emits keys f g
      → Emits keys g h
      → Emits keys f h
  Emits-trans keys f g h is_open first later = record {
    new = first.new ++ later.new;
    sent_is =
        later.sent_is
        ∙ ap (λ l. l ++ later.new) first.sent_is
        ∙ append_assoc f.sent first.new later.new;
    released = All-append _ first.new later.new first.released later.released;
    quiet = quiet-append h.is_open first.new later.new (rw is_open at first.quiet) later.quiet;
  }

  pub release_all-Emits :
      (raws : List Text) (room : ℕ) (f : Feed jacs)
      → Emits f.keys f (release_all jacs store expected room raws f)
        × ((release_all jacs store expected room raws f).keys ≡ f.keys)
  unfolding release_all
  release_all-Emits [] room f = (Emits-none f.keys f f refl, refl)
  release_all-Emits (raw ∷ raws) zero f = (release-Emits false raw f, release-keys false raw f)
  release_all-Emits (raw ∷ raws) (suc room) f =
      let next = release jacs store expected true raw f in
      let kept = release-keys true raw f in
      if_elim (λ g. Emits f.keys f g × (g.keys ≡ f.keys)) next.is_open
        (release_all jacs store expected room raws next) next
        (λ going.
          let (later, same) = release_all-Emits raws room next in
          (
            Emits-trans f.keys f next _ going (release-Emits true raw f) (
                subst (λ k. Emits k next (release_all jacs store expected room raws next)) kept
                  later),
            same ∙ kept,
          ))
        (λ ended. (release-Emits true raw f, kept))

  pub refresh-Emits :
      (keys : KeyMap) (fetched : Result Value) (accepted : Bool) (f : Feed jacs)
      → Emits keys f (refresh jacs fetched accepted f)
  unfolding refresh
  refresh-Emits keys fetched accepted f = elim (Result-cases (refresh_server_public_keys fetched)) [
    | inl (replacement, e) ↦ rw (e, refresh) (Emits-none keys f _ refl)
    | inr (fault, e) ↦ rw (e, refresh) (fail-Emits keys accepted fault f)
  ]
