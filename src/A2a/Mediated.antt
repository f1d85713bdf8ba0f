-- ===== src/A2a/Mediated.antt =====
-- What has been checked of a job before the handler of rust/haiai/src/a2a.rs sees it.
use haiai.Prelude.{
  ◌≡◌, refl, ap, ◌∙◌, ◌⊎◌, inl, inr, true, some, List, [], ◌∷◌, arith, Option-cases,
}
use haiai.Text.{Text, lit}
use haiai.Error.{HaiError, Result, ok, err, Result-cases, done, Foreign-cases}
use haiai.Json.{Value}
use haiai.A2a.{
  A2aTrustPolicy, A2aWrappedArtifact, A2aArtifactVerificationResult, Trusted, value_string_opt,
  assess_card,
}
use haiai.A2a.Artifacts.{
  Outside, extract_remote_agent_card_json, extract_inbound_a2a_task, assess_remote_agent,
  verify_artifact,
}
use haiai.A2a.Jobs.{
  A2aMediatedJobOptions, Effect, handled, check_trust, check_inbound, job_id_of, admit, deliver,
  mediate,
}

module _ (outside : Outside) (trusted : Trusted) (policy : A2aTrustPolicy)
    (options : A2aMediatedJobOptions) where
  -- The event's card is allowed by the policy.
  pub record IsAllowed (event : Value) : Type 0 where
    pub text : Text
    pub card : Value
    pub found : extract_remote_agent_card_json outside event ≡ ok (some text)
    pub parsed : outside.from_str text ≡ done card
    pub allowed : (assess_card trusted policy card).allowed ≡ true

  -- The event's inbound task was verified.
  pub record IsSignedTask (event : Value) : Type 0 where
    pub inbound : A2aWrappedArtifact
    pub result : A2aArtifactVerificationResult
    pub found : extract_inbound_a2a_task outside event ≡ ok (some inbound)
    pub checked : verify_artifact outside inbound ≡ ok result
    pub valid : result.valid ≡ true

  pub record IsAdmitted (event : Value) : Type 0 where
    pub job_id : Text
    pub has_id : value_string_opt event (lit "jobId" ∷ lit "job_id" ∷ []) ≡ some job_id
    pub trust : options.enforce_trust_policy ≡ true → IsAllowed event
    pub inbound : options.verify_inbound_artifact ≡ true → IsSignedTask event

  check_trust-IsAllowed :
      (event : Value)
      → check_trust outside trusted policy options event ≡ ok tt
      → options.enforce_trust_policy ≡ true
      → IsAllowed event
  unfolding check_trust assess_remote_agent
  check_trust-IsAllowed event h on =
      elim (Result-cases (extract_remote_agent_card_json outside event)) [
        | inr (e, a) ↦ ground (arith, on, a, h)
        | inl (found, a) ↦ elim (Option-cases found) [
          | inl b ↦ ground (arith, on, a, b, h)
          | inr (text, b) ↦ elim (Foreign-cases (outside.from_str text)) [
            | inr (t, c) ↦ ground (arith, on, a, b, c, h)
            | inl (card, c) ↦ record {
              text = text;
              card = card;
              found = a ∙ ap ok b;
              parsed = c;
              allowed = ground (arith, on, a, b, c, h);
            }
          ]
        ]
      ]

  check_inbound-IsSignedTask :
      (event : Value)
      → check_inbound outside trusted policy options event ≡ ok tt
      → options.verify_inbound_artifact ≡ true
      → IsSignedTask event
  unfolding check_inbound
  check_inbound-IsSignedTask event h on =
      elim (Result-cases (extract_inbound_a2a_task outside event)) [
        | inr (e, a) ↦ ground (arith, on, a, h)
        | inl (found, a) ↦ elim (Option-cases found) [
          | inl b ↦ ground (arith, on, a, b, h)
          | inr (inbound, b) ↦ elim (Result-cases (verify_artifact outside inbound)) [
            | inr (t, c) ↦ ground (arith, on, a, b, c, h)
            | inl (result, c) ↦ record {
              inbound = inbound;
              result = result;
              found = a ∙ ap ok b;
              checked = c;
              valid = ground (arith, on, a, b, c, h);
            }
          ]
        ]
      ]

  admit-IsAdmitted :
      (event : Value) {admitted : Text × A2aWrappedArtifact}
      → admit outside trusted policy options event ≡ ok admitted
      → IsAdmitted event
  unfolding admit job_id_of
  admit-IsAdmitted event h =
      elim (Option-cases (value_string_opt event (lit "jobId" ∷ lit "job_id" ∷ []))) [
        | inl a ↦ ground (arith, a, h)
        | inr (job_id, a) ↦ elim (Result-cases (check_trust outside trusted policy options event)) [
          | inr (e, b) ↦ ground (arith, a, b, h)
          | inl (passed, b) ↦
              elim (Result-cases (check_inbound outside trusted policy options event)) [
                | inr (e, c) ↦ ground (arith, a, b, c, h)
                | inl (passed', c) ↦ record {
                  job_id = job_id;
                  has_id = a;
                  trust = check_trust-IsAllowed event b;
                  inbound = check_inbound-IsSignedTask event c;
                }
              ]
        ]
      ]

  -- A job either causes nothing and ends with an error, or was admitted, and then the first thing that
  -- it causes is that the handler gets the task that was signed for it: it names a job; when trust is
  -- enforced, its agent card is allowed by the policy; and when inbound tasks are to be verified, it
  -- has one that the provider found valid.
  pub mediate-IsAdmitted :
      (print : Value → Text) (handler : A2aWrappedArtifact → Result Value) (event : Value)
      → ((e : HaiError) × (mediate outside trusted policy options print handler event
            ≡ ([], err e)))
        ⊎ (IsAdmitted event
            × (job_id : Text) × (task : A2aWrappedArtifact) × (rest : List Effect) × (admit outside
                  trusted policy options event
                ≡ ok (job_id, task))
            × ((mediate outside trusted policy options print handler event).0
                ≡ handled task ∷ rest))
  unfolding mediate
  mediate-IsAdmitted print handler event =
      elim (Result-cases (admit outside trusted policy options event)) [
        | inr (e, a) ↦ inl (e, rw (mediate, a) refl)
        | inl ((job_id, task), a) ↦ elim (Result-cases (handler task)) [
          | inr (e, b) ↦
              inr (admit-IsAdmitted event a, job_id, task, [], a, rw (mediate, a, b) refl)
          | inl (payload, b) ↦ inr (
            admit-IsAdmitted event a,
            job_id,
            task,
            (deliver outside trusted policy options print job_id task payload).0,
            a,
            rw (mediate, a, b) refl,
          )
        ]
      ]
