-- ===== src/Client/Streams/Tasks.antt =====
-- What holds of every task over a feed: where its events come from, and what follows an error.
use haiai.Prelude.{
  ◌≡◌, refl, ap, ◌∙◌, subst, true, false, Option, List, [], ◌∷◌, ◌++◌, if◌then◌else◌, if_elim,
  Bool-cases, inl, inr,
}
use haiai.Client.Keys.{KeyMap}
use haiai.Client.Live.{Jacs, Scope, LiveEventContext}
use haiai.Client.Feed.{Feed}
use haiai.Client.Feed.Released.{IsQuietAfterError, quiet-append, Emits, Emits-none}
use haiai.Client.Streams.{run_task}

-- The key set behind many inputs, from that behind one.
abbrev pub latest_keys : {I : Type 0} → (KeyMap → I → KeyMap) → KeyMap → List I → KeyMap
latest_keys next keys [] = keys
latest_keys next keys (input ∷ inputs) = latest_keys next (next keys input) inputs

module _ (jacs : Jacs) (store : Option Scope) (expected : LiveEventContext) where
  -- A task over a feed, whose rounds emit what the keys of their start vouch for, and replace the
  -- keys only by a refresh.
  module _ {S I : Type 0} (feed : S → Feed jacs) (round : S → I → S) (next : KeyMap → I → KeyMap)
      (round-Emits : (s : S) (input : I)
        → Emits jacs store expected (feed s).keys (feed s) (feed (round s input)))
      (round-keys : (s : S) (input : I)
        → (feed (round s input)).is_open ≡ true
        → (feed (round s input)).keys ≡ next (feed s).keys input) where
    abbrev pub run : S → List I → S
    run = run_task (λ s. (feed s).is_open) round

    abbrev advance : S → I → S
    advance s input = if (feed s).is_open then round s input else s

    run-append : (s : S) (xs ys : List I) → run s (xs ++ ys) ≡ run (run s xs) ys
    unfolding run_task
    run-append s [] ys = refl
    run-append s (x ∷ xs) ys = run-append (advance s x) xs ys

    run-closed : (s : S) (inputs : List I) → (feed s).is_open ≡ false → run s inputs ≡ s
    unfolding run_task
    run-closed s [] h = refl
    run-closed s (input ∷ inputs) h = rw h (run-closed s inputs h)

    run-keys :
        (inputs : List I) (s : S)
        → (feed (run s inputs)).is_open ≡ true
        → (feed (run s inputs)).keys ≡ latest_keys next (feed s).keys inputs
    unfolding run_task
    run-keys [] s h = refl
    run-keys (input ∷ inputs) s h = elim (Bool-cases (feed s).is_open) [
      | inr ended ↦ absurd (cc (ended, h, run-closed s (input ∷ inputs) ended))
      | inl going ↦
          let e : advance s input ≡ round s input = rw going in
          let h' = rw e at h in
          elim (Bool-cases (feed (round s input)).is_open) [
            | inr ended ↦ absurd (cc (ended, h', run-closed (round s input) inputs ended))
            | inl on ↦
                ap (λ t. (feed (run t inputs)).keys) e
                ∙ run-keys inputs (round s input) h'
                ∙ ap (λ k. latest_keys next k inputs) (round-keys s input on)
          ]
    ]

    advance-Emits :
        (keys : KeyMap) (s : S) (input : I)
        → ((feed s).is_open ≡ true → (feed s).keys ≡ keys)
        → Emits jacs store expected keys (feed s) (feed (advance s input))
    advance-Emits keys s input h =
        if_elim (λ t. Emits jacs store expected keys (feed s) (feed t)) (feed s).is_open
          (round s input) s
          (λ is_open.
            subst (λ k. Emits jacs store expected k (feed s) (feed (round s input))) (h is_open)
              (round-Emits s input))
          (λ ended. Emits-none jacs store expected keys _ _ refl)

    pub run-provenance :
        (s : S) (before : List I) (input : I)
        → Emits jacs store expected
            (latest_keys next (feed s).keys before)
            (feed (run s before))
            (feed (run s (before ++ input ∷ [])))
    unfolding run_task
    run-provenance s before input = rw (run-append s before (input ∷ [])) (
        advance-Emits (latest_keys next (feed s).keys before) (run s before) input
          (run-keys before s))

    advance-quiet :
        (s : S) (input : I)
        → IsQuietAfterError (feed s).is_open (feed s).sent
        → IsQuietAfterError (feed (advance s input)).is_open (feed (advance s input)).sent
    advance-quiet s input h =
        if_elim (λ t. IsQuietAfterError (feed t).is_open (feed t).sent) (feed s).is_open
          (round s input) s
          (λ going.
            let e = round-Emits s input in
            rw e.sent_is (
              quiet-append (feed (round s input)).is_open (feed s).sent e.new (rw going at h)
                e.quiet))
          (λ ended. h)

    pub run-quiet :
        (inputs : List I) (s : S)
        → IsQuietAfterError (feed s).is_open (feed s).sent
        → IsQuietAfterError (feed (run s inputs)).is_open (feed (run s inputs)).sent
    unfolding run_task
    run-quiet [] s h = h
    run-quiet (input ∷ inputs) s h = run-quiet inputs (advance s input) (advance-quiet s input h)
