-- ===== src/A2a/Jobs.antt =====
-- Mediated benchmark jobs: `on_mediated_benchmark_job` of rust/haiai/src/a2a.rs.
use haiai.Prelude.{
  ℕ, ◌+◌, Bool, ◌&&◌, ltb, ◌==◌, Option, none, some, List, [], ◌∷◌, ◌++◌, if◌then◌else◌,
}
use haiai.Text.{Text, lit}
use haiai.Error.{json, message, Result, ok, err, ok_or, ◌>>=◌, ◌>>◌, lift}
use haiai.Json.{Value, obj, str, null, end, field, get, get_str, unwrap_or}
use haiai.A2a.{A2aTrustPolicy, A2aWrappedArtifact, Trusted, value_string_opt}
use haiai.A2a.Artifacts.{
  Outside, extract_remote_agent_card_json, extract_inbound_a2a_task, assess_remote_agent,
  verify_artifact, sign_artifact, send_signed_artifact_email,
}

pub record A2aMediatedJobOptions : Type 0 where
  pub notify_email : Option Text
  pub email_subject : Option Text
  pub verify_inbound_artifact : Bool
  pub enforce_trust_policy : Bool
  pub max_reconnect_attempts : ℕ

-- What a job has caused, in order.
pub data Effect : Type 0 where
  handled : A2aWrappedArtifact → Effect
  submitted : Text → Text → Effect
  mailed : Text → Effect

module _ (outside : Outside) where
  module _ (trusted : Trusted) (policy : A2aTrustPolicy) (options : A2aMediatedJobOptions) where
    unfoldable pub check_trust : Value → Result (Unit {0})
    check_trust event =
        if options.enforce_trust_policy
        then (extract_remote_agent_card_json outside event >>= λ found.
            ok_or (message (lit "remote agent card required when trust enforcement is enabled"))
              found
            >>= λ card_json. assess_remote_agent outside trusted policy card_json >>= λ trust.
                if trust.allowed
                then ok tt
                else err (message (lit "trust policy rejected remote agent: " ++ trust.reason)))
        else ok tt

    unfoldable pub check_inbound : Value → Result (Unit {0})
    check_inbound event =
        if options.verify_inbound_artifact
        then (extract_inbound_a2a_task outside event >>= λ found.
            ok_or (message (lit "inbound a2a task required when signature verification is enabled"))
              found
            >>= λ inbound. verify_artifact outside inbound >>= λ verify.
                if verify.valid
                then ok tt
                else err (
                    message (
                      lit "inbound a2a task signature invalid: "
                      ++ unwrap_or (lit "unknown verification failure") verify.error)))
        else ok tt

    unfoldable pub job_id_of : Value → Result Text
    job_id_of event =
        ok_or (message (lit "benchmark job event missing jobId"))
          (value_string_opt event (lit "jobId" ∷ lit "job_id" ∷ []))

    abbrev task_payload : Value → Text → Value
    task_payload event job_id = obj (
        field (lit "type") (unwrap_or (str (lit "benchmark_job")) (get (lit "type") event)) (
          field (lit "jobId") (str job_id) (
            field (lit "scenarioId") (unwrap_or null (get (lit "scenarioId") event))
              (field (lit "config") (unwrap_or null (get (lit "config") event)) end))))

    -- The checks, and the task that is handed to the handler. A job draws a time and an identifier
    -- twice: first for its task, then for its result.
    unfoldable pub admit : Value → Result (Text × A2aWrappedArtifact)
    admit event = job_id_of event >>= λ job_id.
        check_trust event
        >> (check_inbound event
            >> (sign_artifact outside 0 (task_payload event job_id) (lit "task") [] >>= λ task.
                ok (job_id, task)))

    -- The artifact of a result, and its message.
    unfoldable pub wrap_result :
        (Value → Text) → A2aWrappedArtifact → Value → Result (A2aWrappedArtifact × Text)
    wrap_result print task payload = lift (outside.artifact_to_value task) json >>= λ parent.
        sign_artifact outside 1 payload (lit "task-result") (parent ∷ []) >>= λ result.
        ok (result, unwrap_or (print payload) (get_str (lit "message") payload))

    -- The e-mail about a result, when one is wanted.
    unfoldable pub notify : Text → A2aWrappedArtifact → List Effect × Result (Unit {0})
    notify job_id result = elim options.notify_email [
      | none ↦ ([], ok tt)
      | some email ↦ (
        mailed email ∷ [],
        send_signed_artifact_email outside email
            (unwrap_or (lit "A2A mediated result for job " ++ job_id) options.email_subject) result,
      )
    ]

    -- What follows the handler's answer.
    unfoldable pub deliver :
        (Value → Text) → Text → A2aWrappedArtifact → Value → List Effect × Result (Unit {0})
    deliver print job_id task payload = elim (wrap_result print task payload) [
      | err e ↦ ([], err e)
      | ok (result, text) ↦ elim (outside.submit_response job_id text task result) [
        | err e ↦ (submitted job_id text ∷ [], err e)
        | ok sent ↦
            let (effects, ended) = notify job_id result in (submitted job_id text ∷ effects, ended)
      ]
    ]

    -- The handler of `on_mediated_benchmark_job`, with the caller's handler.
    unfoldable pub mediate :
        (Value → Text)
        → (A2aWrappedArtifact → Result Value)
        → Value
        → List Effect × Result (Unit {0})
    mediate print handler event = elim (admit event) [
      | err e ↦ ([], err e)
      | ok (job_id, task) ↦ elim (handler task) [
        | err e ↦ (handled task ∷ [], err e)
        | ok payload ↦
            let (effects, ended) = deliver print job_id task payload in
            (handled task ∷ effects, ended)
      ]
    ]

  -- The loop of `on_mediated_benchmark_job` over the sessions, each with its count of jobs and its
  -- end; the number of sessions it has used, and its result.
  unfoldable pub run_sessions :
      ℕ → ℕ → List (ℕ × Result (Unit {0})) → Option (ℕ × Result (Unit {0}))
  run_sessions max_attempts attempts [] = none
  run_sessions max_attempts attempts ((jobs, ended) ∷ sessions) =
      let again = run_sessions max_attempts (attempts + 1) sessions in
      elim ended [
        | ok closed ↦
            if jobs == 0 && ltb attempts max_attempts then again else some (attempts + 1, ok tt)
        | err e ↦ if ltb attempts max_attempts then again else some (attempts + 1, err e)
      ]
