-- ===== src/A2a/Artifacts.antt =====
-- Artifacts and agent cards of rust/haiai/src/a2a.rs that are signed, verified and sent. The requests
-- of the client (`submit_response` and `send_email`) are parameters.
use haiai.Prelude.{ℕ, false, Option, none, some, List, [], ◌∷◌, ◌++◌, map, length}
use haiai.Text.{Text, lit}
use haiai.Error.{HaiError, json, message, display, Result, ok, err, ◌>>=◌, Foreign, lift}
use haiai.Json.{Value, obj, str, get, as_bool, get_str, and_then, unwrap_or}
use haiai.Email.{SendEmailOptions}
use haiai.A2a.{
  A2aTrustPolicy, A2aWrappedArtifact, A2aArtifactVerificationResult, A2aTrustAssessment, Trusted,
  assess_card, trust_card, chain_entry, A2aChainOfCustody,
}

-- The provider, JSON, the requests of the client, and the clock and the new identifiers, by the number
-- of the draw: each artifact takes a fresh time and a fresh identifier.
pub record Outside : Type 0 where
  pub from_str : Text → Foreign Value
  pub to_string : Value → Foreign Text
  pub artifact_from_str : Text → Foreign A2aWrappedArtifact
  pub artifact_from_value : Value → Foreign A2aWrappedArtifact
  pub artifact_to_string : A2aWrappedArtifact → Foreign Text
  pub artifact_to_value : A2aWrappedArtifact → Foreign Value
  pub format_rfc3339_now : ℕ → Result Text
  pub new_v4 : ℕ → Text
  pub jacs_id : Text
  pub canonical_json : Value → Result Text
  pub sign_message : Text → Result Text
  pub verify_a2a_artifact : Text → Result Text
  pub submit_response : Text → Text → A2aWrappedArtifact → A2aWrappedArtifact → Result (Unit {0})
  pub to_string_pretty : A2aWrappedArtifact → Foreign Text
  pub send_email : SendEmailOptions → Result (Unit {0})

-- The first of the keys that the event has, as it is found.
unfoldable pub first_present : Value → List Text → Option (Text × Value)
first_present event [] = none
first_present event (key ∷ keys) =
    let rest = first_present event keys in
    elim (get key event) [ none ↦ rest | some value ↦ some (key, value) ]

abbrev wrong_kind : Text → HaiError
wrong_kind key = message (key ++ lit " must be a JSON object or string")

module _ (outside : Outside) where
  -- A value of the event as JSON text.
  unfoldable pub card_text : Text → Value → Result (Option Text)
  card_text key (str raw) = ok (some raw)
  card_text key (obj fields) = lift (outside.to_string (obj fields)) json >>= λ text. ok (some text)
  card_text key _ = err (wrong_kind key)

  unfoldable pub extract_remote_agent_card_json : Value → Result (Option Text)
  extract_remote_agent_card_json event =
      elim (first_present event (lit "remoteAgentCard" ∷ lit "agentCard" ∷ [])) [
        | none ↦ ok none
        | some (key, card) ↦ card_text key card
      ]

  unfoldable pub task_of : Text → Value → Result (Option A2aWrappedArtifact)
  task_of key (str raw) = lift (outside.artifact_from_str raw) json >>= λ task. ok (some task)
  task_of key (obj fields) =
      lift (outside.artifact_from_value (obj fields)) json >>= λ task. ok (some task)
  task_of key _ = err (wrong_kind key)

  unfoldable pub extract_inbound_a2a_task : Value → Result (Option A2aWrappedArtifact)
  extract_inbound_a2a_task event =
      elim (first_present event (lit "a2aTask" ∷ lit "a2a_task" ∷ [])) [
        | none ↦ ok none
        | some (key, task) ↦ task_of key task
      ]

  unfoldable pub assess_remote_agent : Trusted → A2aTrustPolicy → Text → Result A2aTrustAssessment
  assess_remote_agent trusted policy agent_card_json =
      lift (outside.from_str agent_card_json) json >>= λ card. ok (assess_card trusted policy card)

  unfoldable pub trust_a2a_agent : Text → Trusted → Result (Text × Trusted)
  trust_a2a_agent agent_card_json trusted =
      lift (outside.from_str agent_card_json) json >>= λ card. trust_card card trusted

  -- `create_chain_of_custody`; the time is blank when it cannot be formatted.
  unfoldable pub create_chain_of_custody : List A2aWrappedArtifact → A2aChainOfCustody
  create_chain_of_custody artifacts = record {
    chain_of_custody = map chain_entry artifacts;
    created = elim (outside.format_rfc3339_now 0) [ ok now ↦ now | err e ↦ [] ];
    total_artifacts = length artifacts;
  }

  abbrev signer_of : A2aWrappedArtifact → Text
  signer_of wrapped = elim wrapped.jacs_signature [ none ↦ [] | some s ↦ s.agent_id ]

  unfoldable pub verification_result : A2aWrappedArtifact → Value → A2aArtifactVerificationResult
  verification_result wrapped jacs_result = record {
    valid = unwrap_or false (and_then (get (lit "valid") jacs_result) as_bool);
    signer_id = unwrap_or (signer_of wrapped) (get_str (lit "signerId") jacs_result);
    artifact_type = unwrap_or wrapped.jacs_type (get_str (lit "artifactType") jacs_result);
    timestamp = unwrap_or wrapped.jacs_version_date (get_str (lit "timestamp") jacs_result);
    original_artifact = unwrap_or wrapped.a2a_artifact (get (lit "originalArtifact") jacs_result);
    error = get_str (lit "error") jacs_result;
  }

  unfoldable pub verify_artifact : A2aWrappedArtifact → Result A2aArtifactVerificationResult
  verify_artifact wrapped = lift (outside.artifact_to_string wrapped) json >>= λ wrapped_json.
      elim (outside.verify_a2a_artifact wrapped_json) [
        | ok result_json ↦ lift (outside.from_str result_json) json >>= λ jacs_result.
            ok (verification_result wrapped jacs_result)
        | err e ↦ ok (record {
          valid = false;
          signer_id = signer_of wrapped;
          artifact_type = wrapped.jacs_type;
          timestamp = wrapped.jacs_version_date;
          original_artifact = wrapped.a2a_artifact;
          error = some (lit "verification failed: " ++ display e);
        })
      ]

  -- `draw` is the number of the draw of its time and identifier.
  unfoldable pub sign_artifact : ℕ → Value → Text → List Value → Result A2aWrappedArtifact
  sign_artifact draw artifact artifact_type parent_signatures =
      outside.format_rfc3339_now draw >>= λ now.
      let wrapped : A2aWrappedArtifact = record {
        jacs_id = outside.new_v4 draw;
        jacs_version = lit "1.0.0";
        jacs_type = lit "a2a-" ++ artifact_type;
        jacs_level = lit "artifact";
        jacs_version_date = now;
        a2a_artifact = artifact;
        jacs_parent_signatures = parent_signatures;
        jacs_signature = none;
      } in
      lift (outside.artifact_to_value wrapped) json >>= λ value.
      outside.canonical_json value >>= λ canonical. outside.sign_message canonical >>= λ signature.
      ok (record wrapped {
        jacs_signature =
            some (record { agent_id = outside.jacs_id; date = now; signature = signature });
      })

  unfoldable pub send_signed_artifact_email : Text → Text → A2aWrappedArtifact → Result (Unit {0})
  send_signed_artifact_email to subject artifact =
      lift (outside.to_string_pretty artifact) json >>= λ pretty. outside.send_email (record {
        to = to;
        subject = subject;
        body = lit "Signed A2A artifact:\n\n" ++ pretty;
        cc = [];
        bcc = [];
        in_reply_to = none;
        attachments = [];
        labels = [];
      })
