-- ===== src/Client/Live/Genuine.antt =====
-- What is true of an event that was released, and of one that was not.
use haiai.Prelude.{◌≡◌, refl, ap, ◌∙◌, ◌⊎◌, inl, inr, true, Option, some, arith, Option-cases}
use haiai.Text.{Text, lit, text_eq_iff}
use haiai.Text.Utf8.{Bytes}
use haiai.Error.{ok, Result-cases, done, Foreign-cases}
use haiai.Json.{Value, get, get_str, and_then}
use haiai.Client.Keys.{KeyMap, lookup}
use haiai.Client.Live.{
  EventCausation, job, no_cause, ResponseData, private_event, other_data, VerifiedEvent, Scope,
  Jacs, LiveEventContext, HaiEvent, expectation_for, trusted_issuer, causation_eq,
  expected_causation, check_payload, verify_signature, verify_data, open_envelope,
  verify_live_transport_event,
}

causation_eq-eq : (a b : EventCausation) → causation_eq a b ≡ true → a ≡ b
unfolding causation_eq
causation_eq-eq (job a) (job b) h = ap job ((text_eq_iff a b).0 h)
causation_eq-eq no_cause no_cause h = refl
causation_eq-eq _ _ h = cc

-- The signer that an envelope names is one of the trusted keys.
abbrev IsIssuer : KeyMap → Value → Text → Type 0
IsIssuer keys envelope issuer =
    (and_then (get (lit "jacsSignature") envelope) (λ s. get_str (lit "agentID") s) ≡ some issuer)
    × ((key : Bytes) × (lookup issuer keys ≡ some key))

trusted_issuer-IsIssuer :
    (keys : KeyMap) (envelope : Value) {issuer : Text}
    → trusted_issuer keys envelope ≡ some issuer
    → IsIssuer keys envelope issuer
unfolding trusted_issuer
trusted_issuer-IsIssuer keys envelope {issuer} h =
    elim (Option-cases
      (and_then (get (lit "jacsSignature") envelope) (λ s. get_str (lit "agentID") s))) [
        | inl e ↦ ground (arith, e, h)
        | inr (name, e) ↦ elim (Option-cases (lookup name keys)) [
          | inl f ↦ ground (arith, e, f, h)
          | inr (key, f) ↦
              let same : name ≡ issuer = ground (arith, e, f, h) in
              (e ∙ ap some same, (key, rw (← same) f))
        ]
      ]

check_payload-ok :
    (event_type : Text) (causation : EventCausation) (payload : Value)
    → check_payload event_type causation payload ≡ ok tt
    → (get_str (lit "type") payload ≡ some event_type)
      × (expected_causation event_type payload ≡ some causation)
unfolding check_payload
check_payload-ok event_type causation payload h =
    elim (Option-cases (get_str (lit "type") payload)) [
      | inl e ↦ ground (arith, e, h)
      | inr (t, e) ↦ elim (Option-cases (expected_causation event_type payload)) [
        | inl f ↦ ground (arith, e, f, h)
        | inr (c, f) ↦ (
          ground (arith, e, f, h, text_eq_iff t event_type),
          ground (arith, e, f, h, causation_eq-eq causation c),
        )
      ]
    ]

module _ (jacs : Jacs) (keys : KeyMap) (store : Option Scope) (expected : LiveEventContext) where
  open jacs use {Seen, check_document_size, parse_strict_json, require_response_context}

  -- An event that passed every check: its text is small and strict JSON, its issuer is trusted, it
  -- was made for this deployment, agent and connection, its payload agrees with the signed type and
  -- causation, and its signature was verified in replay state `seen`, which became `seen'`.
  pub record IsGenuine (raw : Text) (seen : Seen) (event : HaiEvent) (seen' : Seen) : Type 0 where
    pub envelope : Value
    pub issuer : Text
    pub causation : EventCausation
    pub verified : VerifiedEvent
    pub small : check_document_size raw ≡ done tt
    pub parsed : parse_strict_json raw ≡ done envelope
    pub trusted : IsIssuer keys envelope issuer
    pub addressed :
        require_response_context envelope (expectation_for expected issuer)
        ≡ done (private_event event.event_type causation event.event_data)
    pub typed : get_str (lit "type") event.event_data ≡ some event.event_type
    pub caused : expected_causation event.event_type event.event_data ≡ some causation
    pub signed :
        verify_signature jacs keys store expected raw envelope seen ≡ (done verified, seen')
    pub id_is : event.id ≡ some verified.document_id
    pub raw_is : event.raw ≡ raw

  open_envelope-ok :
      (raw : Text) {envelope : Value} {issuer : Text}
      → open_envelope jacs keys store expected raw ≡ ok (envelope, issuer)
      → (check_document_size raw ≡ done tt)
        × (parse_strict_json raw ≡ done envelope)
        × IsIssuer keys envelope issuer
  unfolding open_envelope
  open_envelope-ok raw {envelope} {issuer} h = elim (Foreign-cases (check_document_size raw)) [
    | inr (t, e) ↦ ground (arith, e, h)
    | inl (small, e) ↦ elim (Foreign-cases (parse_strict_json raw)) [
      | inr (t, f) ↦ ground (arith, e, f, h)
      | inl (found, f) ↦ elim (Option-cases (trusted_issuer keys found)) [
        | inl g ↦ ground (arith, e, f, g, h)
        | inr (name, g) ↦
            let same_envelope : found ≡ envelope = ground (arith, e, f, g, h) in
            let same_issuer : name ≡ issuer = ground (arith, e, f, g, h) in
            (
              e,
              f ∙ ap done same_envelope,
              trusted_issuer-IsIssuer keys envelope (rw (same_envelope, same_issuer) at g),
            )
      ]
    ]
  ]

  -- What `verify_data` has checked of an event that it releases.
  record IsChecked (raw : Text) (envelope : Value) (context : ResponseData) (seen : Seen)
      (event : HaiEvent) (seen' : Seen) : Type 0 where
    causation : EventCausation
    verified : VerifiedEvent
    private : context ≡ private_event event.event_type causation event.event_data
    checked : check_payload event.event_type causation event.event_data ≡ ok tt
    signed : verify_signature jacs keys store expected raw envelope seen ≡ (done verified, seen')
    id_is : event.id ≡ some verified.document_id
    raw_is : event.raw ≡ raw

  verify_data-IsChecked :
      (raw : Text) (envelope : Value) (context : ResponseData) (seen : Seen) {event : HaiEvent}
      {seen' : Seen}
      → verify_data jacs keys store expected raw envelope context seen ≡ (ok event, seen')
      → IsChecked raw envelope context seen event seen'
  unfolding verify_data
  verify_data-IsChecked raw envelope other_data seen h = ground (arith, h)
  verify_data-IsChecked raw envelope (private_event event_type causation payload) seen {event}
        {seen'} h =
      elim (Result-cases (check_payload event_type causation payload)) [
        | inr (fail, e) ↦ ground (arith, e, h)
        | inl (passed, e) ↦
            let sig = verify_signature jacs keys store expected raw envelope seen in
            elim (Foreign-cases sig.0) [
              | inr (t, f) ↦ ground (arith, e, f, h)
              | inl (v, f) ↦
                  let same_type : event_type ≡ event.event_type = ground (arith, e, f, h) in
                  let same_data : payload ≡ event.event_data = ground (arith, e, f, h) in
                  record {
                    causation = causation;
                    verified = v;
                    private = cc (same_type, same_data);
                    checked = rw (← same_type, ← same_data) e;
                    signed = ground (arith, e, f, h);
                    id_is = ground (arith, e, f, h);
                    raw_is = ground (arith, e, f, h);
                  }
            ]
      ]

  -- An event that is released passed every check on its text: it is small and strict JSON, its issuer
  -- has a trusted key, its context is this deployment, agent and connection, its payload agrees with
  -- the signed type and causation, and its signature was verified; it keeps the text and the verified
  -- identifier.
  pub verify_live_transport_event-IsGenuine :
      (raw : Text) (seen : Seen) {event : HaiEvent} {seen' : Seen}
      → verify_live_transport_event jacs keys store expected raw seen ≡ (ok event, seen')
      → IsGenuine raw seen event seen'
  unfolding verify_live_transport_event
  verify_live_transport_event-IsGenuine raw seen {event} {seen'} h =
      elim (Result-cases (open_envelope jacs keys store expected raw)) [
        | inr (fail, e) ↦ ground (arith, e, h)
        | inl ((envelope, issuer), e) ↦
            elim (Foreign-cases
              (require_response_context envelope (expectation_for expected issuer))) [
                | inr (t, f) ↦ ground (arith, e, f, h)
                | inl (context, f) ↦
                    let (small, parsed, trusted) = open_envelope-ok raw e in
                    let c =
                      verify_data-IsChecked raw envelope context seen {event = event}
                        (ground (arith, e, f, h)) in
                    let (typed, caused) =
                      check_payload-ok event.event_type c.causation event.event_data c.checked in
                    record {
                      envelope = envelope;
                      issuer = issuer;
                      causation = c.causation;
                      verified = c.verified;
                      small = small;
                      parsed = parsed;
                      trusted = trusted;
                      addressed = f ∙ ap done c.private;
                      typed = typed;
                      caused = caused;
                      signed = c.signed;
                      id_is = c.id_is;
                      raw_is = c.raw_is;
                    }
              ]
      ]

  -- A text that passed all the checks in front of the signature: it is small and strict JSON, its
  -- issuer is trusted, it was made for this deployment, agent and connection, and its payload agrees
  -- with its type and causation.
  pub record PassedContext (raw : Text) : Type 0 where
    pub envelope : Value
    pub issuer : Text
    pub event_type : Text
    pub causation : EventCausation
    pub payload : Value
    pub small : check_document_size raw ≡ done tt
    pub parsed : parse_strict_json raw ≡ done envelope
    pub trusted : IsIssuer keys envelope issuer
    pub addressed :
        require_response_context envelope (expectation_for expected issuer)
        ≡ done (private_event event_type causation payload)
    pub checked : check_payload event_type causation payload ≡ ok tt

  verify_data-seen :
      (raw : Text) (envelope : Value) (context : ResponseData) (seen : Seen)
      → ((verify_data jacs keys store expected raw envelope context seen).1 ≡ seen)
        ⊎ ((event_type : Text) × (causation : EventCausation) × (payload : Value) × (context
              ≡ private_event event_type causation payload)
            × (check_payload event_type causation payload ≡ ok tt))
  unfolding verify_data
  verify_data-seen raw envelope other_data seen = inl refl
  verify_data-seen raw envelope (private_event event_type causation payload) seen =
      elim (Result-cases (check_payload event_type causation payload)) [
        | inr (fail, e) ↦ inl (ground (arith, e))
        | inl (passed, e) ↦ inr (event_type, causation, payload, refl, e)
      ]

  -- A text leaves the replay state as it was, or it passed all the checks in front of the signature:
  -- it is small and strict JSON, its issuer has a trusted key, its context is this deployment, agent
  -- and connection, and its payload agrees with the signed type and causation.
  pub consumption_after_context :
      (raw : Text) (seen : Seen)
      → ((verify_live_transport_event jacs keys store expected raw seen).1 ≡ seen)
        ⊎ PassedContext raw
  unfolding verify_live_transport_event
  consumption_after_context raw seen =
      elim (Result-cases (open_envelope jacs keys store expected raw)) [
        | inr (fail, e) ↦ inl (ground (arith, e))
        | inl ((envelope, issuer), e) ↦
            elim (Foreign-cases
              (require_response_context envelope (expectation_for expected issuer))) [
                | inr (t, f) ↦ inl (ground (arith, e, f))
                | inl (context, f) ↦ elim (verify_data-seen raw envelope context seen) [
                  | inl still ↦ inl (ground (arith, e, f, still))
                  | inr (event_type, causation, payload, same, checked) ↦
                      let (small, parsed, trusted) = open_envelope-ok raw e in
                      inr (record {
                        small = small;
                        parsed = parsed;
                        envelope = envelope;
                        issuer = issuer;
                        event_type = event_type;
                        causation = causation;
                        payload = payload;
                        trusted = trusted;
                        addressed = f ∙ ap done same;
                        checked = checked;
                      })
                ]
              ]
      ]
