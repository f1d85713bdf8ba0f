-- ===== src/Client/Live.antt =====
-- `verify_live_transport_event` of rust/haiai/src/client.rs. What the `jacs` crate does is the
-- parameter `jacs`; the state of its replay stores is `Seen`, passed along.
pub mod Genuine
use haiai.Prelude.{
  ℕ, ◌+◌, Bool, true, false, ◌&&◌, not, Option, none, some, List, [], ◌∷◌, ◌++◌, is_empty,
  if◌then◌else◌,
}
use haiai.Text.{Text, lit, text_eq}
use haiai.Error.{
  HaiError, provider, signed_event_verification, Result, ok, err, ok_or, Foreign, done, fault,
}
use haiai.Json.{Value, get, as_str, get_str, and_then, option_filter}
use haiai.Client.Keys.{KeyMap, lookup}

pub data EventTransport : Type 0 where
  channel : Text → EventTransport
  stream : Text → EventTransport

pub data EventCausation : Type 0 where
  job : Text → EventCausation
  no_cause : EventCausation

-- `ResponseData`: the private event with the fields that are read, or any other variant.
pub data ResponseData : Type 0 where
  private_event : Text → EventCausation → Value → ResponseData
  other_data : ResponseData

-- `ResponseExpectation::PrivateEvent`; `causation` is always `None`.
pub record Expectation : Type 0 where
  pub issuer : Text
  pub tenant : Text
  pub audience : Text
  pub transport : EventTransport
  pub contract : Text
  pub contract_version : Text
  pub allowed_event_types : List Text

-- What `jacs::protocol` returns of a verified event.
pub record VerifiedEvent : Type 0 where
  pub document_id : Text
  pub signer_id : Text
  pub timestamp : Text
  pub algorithm : Text

pub data Scope : Type 0 where
  shared : Scope
  process_local : Scope

pub record Jacs : Type 1 where
  pub Seen : Type 0
  pub check_document_size : Text → Foreign (Unit {0})
  pub parse_strict_json : Text → Foreign Value
  pub require_response_context : Value → Expectation → Foreign ResponseData
  pub payload_replay_window_seconds : ℕ
  -- with the application's store, and with the store that is installed globally
  pub verify_signed_event_with_replay_store :
      Value → KeyMap → ℕ → Seen → Foreign VerifiedEvent × Seen
  pub verify_signed_event_json_with_trusted_keys :
      Text → KeyMap → Seen → Foreign VerifiedEvent × Seen
  pub hash_string : Text → Text
  pub normalize_agent_id : Text → Text
  -- the nonce of `inspect_unverified_request_auth_header`
  pub request_auth_nonce : Text → Foreign Text

pub record LiveEventContext : Type 0 where
  pub tenant : Text
  pub audience : Text
  pub transport : EventTransport

-- `SignedEventVerification`
pub record Verification : Type 0 where
  pub status : Text
  pub signer_id : Text
  pub timestamp : Text
  pub algorithm : Text
  pub document_id : Text
  pub event_sha256 : Text
  pub replay_status : Text

pub record HaiEvent : Type 0 where
  pub event_type : Text
  pub event_data : Value
  pub id : Option Text
  pub raw : Text
  pub verification : Verification

abbrev pub failure : Text → HaiError
failure = signed_event_verification

pub allowed_event_types : List Text
allowed_event_types =
    lit "benchmark_job" ∷ lit "heartbeat" ∷ lit "disconnect" ∷ lit "connected" ∷ []

unfoldable pub expectation_for : LiveEventContext → Text → Expectation
expectation_for expected issuer = record {
  issuer = issuer;
  tenant = expected.tenant;
  audience = expected.audience;
  transport = expected.transport;
  contract = lit "hai.agent-event";
  contract_version = lit "2";
  allowed_event_types = allowed_event_types;
}

abbrev is_trusted : KeyMap → Text → Bool
is_trusted keys issuer = elim (lookup issuer keys) [ none ↦ false | some key ↦ true ]

-- The signer that the envelope names, if the key set has it.
unfoldable pub trusted_issuer : KeyMap → Value → Option Text
trusted_issuer keys envelope =
    option_filter (is_trusted keys)
      (and_then (get (lit "jacsSignature") envelope) λ signature. get_str (lit "agentID") signature)

unfoldable pub causation_eq : EventCausation → EventCausation → Bool
causation_eq (job a) (job b) = text_eq a b
causation_eq no_cause no_cause = true
causation_eq _ _ = false

-- The causation that a payload of this type must have.
unfoldable pub expected_causation : Text → Value → Option EventCausation
expected_causation event_type payload =
    if text_eq event_type (lit "benchmark_job")
    then (elim (option_filter (λ s. not (is_empty s)) (get_str (lit "job_id") payload)) [
      | none ↦ none
      | some id ↦ some (job id)
    ])
    else some no_cause

-- The checks between the context and the signature: the payload's type, and its job.
unfoldable pub check_payload : Text → EventCausation → Value → Result (Unit {0})
check_payload event_type causation payload =
    if not (elim (get_str (lit "type") payload) [ none ↦ false | some t ↦ text_eq t event_type ])
    then err (failure (lit "signed event type differs from its payload type"))
    else (elim (expected_causation event_type payload) [
      | none ↦ err (failure (lit "benchmark event job_id is missing"))
      | some expected ↦
          if causation_eq causation expected
          then ok tt
          else err (failure (lit "signed event causation differs from its payload job"))
    ])

module _ (jacs : Jacs) where
  open jacs use {
    Seen, check_document_size, parse_strict_json, require_response_context,
    payload_replay_window_seconds, verify_signed_event_with_replay_store,
    verify_signed_event_json_with_trusted_keys, hash_string, normalize_agent_id, request_auth_nonce,
  }

  -- `LiveEventContext::for_connection`
  unfoldable pub for_connection : Text → Text → Text → Bool → Result LiveEventContext
  for_connection tenant audience auth websocket = elim (request_auth_nonce auth) [
    | fault t ↦ err (provider t)
    | done nonce ↦
        let name = lit "jacs-auth-nonce:" ++ nonce in
        ok (record {
          tenant = tenant;
          audience = normalize_agent_id audience;
          transport = if websocket then channel name else stream name;
        })
  ]

  module _ (keys : KeyMap) (store : Option Scope) (expected : LiveEventContext) where
    -- The signature check, which consumes the event in a replay store.
    unfoldable pub verify_signature : Text → Value → Seen → Foreign VerifiedEvent × Seen
    verify_signature raw envelope seen = elim store [
      | some shared ↦
          verify_signed_event_with_replay_store envelope keys payload_replay_window_seconds seen
      | some process_local ↦ (fault (lit "live event replay backend must have shared scope"), seen)
      | none ↦ verify_signed_event_json_with_trusted_keys raw keys seen
    ]

    abbrev release : Text → Text → Value → VerifiedEvent → HaiEvent
    release raw event_type payload verified = record {
      event_type = event_type;
      event_data = payload;
      id = some verified.document_id;
      raw = raw;
      verification = record {
        status = lit "verified";
        signer_id = verified.signer_id;
        timestamp = verified.timestamp;
        algorithm = verified.algorithm;
        document_id = verified.document_id;
        event_sha256 = hash_string raw;
        replay_status = lit "consumed";
      };
    }

    -- Behind the context: the payload's checks, then the signature.
    unfoldable pub verify_data : Text → Value → ResponseData → Seen → Result HaiEvent × Seen
    verify_data raw envelope other_data seen =
        (err (failure (lit "private agent event context required")), seen)
    verify_data raw envelope (private_event event_type causation payload) seen =
        elim (check_payload event_type causation payload) [
          | err e ↦ (err e, seen)
          | ok passed ↦
              let (verified, seen') = verify_signature raw envelope seen in
              (
                elim verified [
                  | fault t ↦ err (failure t)
                  | done v ↦ ok (release raw event_type payload v)
                ],
                seen',
              )
        ]

    -- The checks before the context: size, strict JSON, a trusted issuer.
    unfoldable pub open_envelope : Text → Result (Value × Text)
    open_envelope raw = elim (check_document_size raw) [
      | fault t ↦ err (failure t)
      | done small ↦ elim (parse_strict_json raw) [
        | fault t ↦ err (failure (lit "signed event is not strict JSON: " ++ t))
        | done envelope ↦ elim (trusted_issuer keys envelope) [
          | none ↦ err (failure (lit "event signer is not in the trusted active server key set"))
          | some issuer ↦ ok (envelope, issuer)
        ]
      ]
    ]

    unfoldable pub verify_live_transport_event : Text → Seen → Result HaiEvent × Seen
    unfolding open_envelope verify_data
    verify_live_transport_event raw seen = elim (open_envelope raw) [
      | err e ↦ (err e, seen)
      | ok (envelope, issuer) ↦
          elim (require_response_context envelope (expectation_for expected issuer)) [
            | fault t ↦ (err (failure t), seen)
            | done context ↦ verify_data raw envelope context seen
          ]
    ]
