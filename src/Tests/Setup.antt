-- ===== src/Tests/Setup.antt =====
-- Clients that are configured, bodies that are read, and agents that are trusted.
use haiai.Prelude.{
  ◌≤◌, ◌<◌, ◌≡◌, ◌↔◌, refl, ◌⊎◌, true, false, none, some, List, [], ◌∷◌, any, length, usize_limit,
  arith, if◌then◌else◌, ◌==◌,
}
use haiai.Text.{
  Text, lit, len, len_utf8, text_eq, trim, trim_start_by, trim_end_by, trim_end_matches,
  is_whitespace,
}
use haiai.Error.{HaiError, Result, ok, err, Foreign, done}
use haiai.Json.{Value, obj, str, bool, end, field, null, get, get_str, as_str}
use haiai.Client.Origin.{Url, domain}
use haiai.Client.Setup.{
  HaiClientOptions, HaiClient, default_server_key_refresh, default_request_auth_audience,
  validate_request_auth_audience, validate_base_url, new_client, with_expected_event_context,
}
use haiai.Client.Setup.Usable.{Configured, IsUsable, built, with_context, Configured-IsUsable}
use haiai.Client.Body.{Response, announces_more, read_response_body_limited}
use haiai.Client.Body.Limited.{Delivers, read_response_body_limited_iff}
use haiai.A2a.{
  strict, A2aWrappedArtifact, extract_card_agent_id, agent_id_of, assess_card, trust_card,
  insert_card,
}
use haiai.A2a.Artifacts.{Outside}
use haiai.A2a.Jobs.{A2aMediatedJobOptions, Effect, handled, admit, mediate}
use haiai.A2a.Mediated.{IsAdmitted, mediate-IsAdmitted}
use haiai.A2a.Trust.{Trusts, no_card, one_more, claims, assess_card-strict}

abbrev site : Url
site = record {
  scheme = lit "https";
  host = some (domain (lit "hai.ai"));
  port_or_known_default = some 443;
  username = [];
  password = none;
  query = none;
  fragment = none;
}

abbrev parse : Text → Foreign Url
parse text = done site

abbrev options : HaiClientOptions
options = record {
  base_url = lit "https://hai.ai/";
  timeout = 30;
  max_retries = 0;
  client_identifier = none;
  request_auth_audience = default_request_auth_audience;
}

abbrev plain_client : HaiClient
plain_client = record {
  base_url = lit "https://hai.ai";
  expected_context = none;
  audience = lit "hai.ai";
  request_timeout = 30;
  server_key_refresh_interval = default_server_key_refresh;
  max_retries = 1;
  shared_event_replay_store = none;
}

plain_client_built : new_client parse (done tt) options ≡ ok plain_client
unfolding new_client validate_request_auth_audience validate_base_url trim trim_start_by trim_end_by
    is_whitespace trim_end_matches len len_utf8 text_eq lit
plain_client_built = refl

abbrev pinned_client : HaiClient
pinned_client = record plain_client { expected_context = some (lit "tenant", lit "me") }

pinned : with_expected_event_context (lit "tenant") (lit "me") plain_client ≡ ok pinned_client
unfolding with_expected_event_context len len_utf8 text_eq lit
pinned = refl

pinned_client-Configured : Configured parse (done tt) pinned_client
pinned_client-Configured =
    with_context (lit "tenant") (lit "me") plain_client (built options plain_client_built) pinned

Configured-IsUsable_example : IsUsable parse (done tt) pinned_client
Configured-IsUsable_example =
    Configured-IsUsable parse (done tt) pinned_client pinned_client-Configured

abbrev in_chunks : Response
in_chunks = record {
  status = 200;
  content_length = none;
  chunks = done (lit "ab") ∷ done (lit "cd") ∷ [];
}

four_is_usize : 4 < usize_limit
four_is_usize = omega arith

read_response_body_limited_iff_example :
    (read_response_body_limited in_chunks 4 (lit "body") ≡ ok (lit "abcd")) ↔ (
      (announces_more 4 in_chunks.content_length ≡ false)
      × Delivers in_chunks.chunks (lit "abcd")
      × (length (lit "abcd") ≤ 4))
read_response_body_limited_iff_example =
    read_response_body_limited_iff 4 (lit "body") four_is_usize in_chunks (lit "abcd")

abbrev card : Value
card = obj (field (lit "metadata") (obj (field (lit "jacsId") (str (lit "a")) end)) end)

card_trusted : trust_card card [] ≡ ok (lit "a", (lit "a", card) ∷ [])
unfolding trust_card extract_card_agent_id insert_card get get_str as_str text_eq lit
card_trusted = refl

card-Trusts : Trusts (card ∷ []) ((lit "a", card) ∷ [])
card-Trusts = one_more card no_card card_trusted

assess_card-strict_example :
    (assess_card ((lit "a", card) ∷ []) strict card).allowed
    ≡ any (claims (agent_id_of card)) (card ∷ [])
assess_card-strict_example = assess_card-strict card card-Trusts

abbrev artifact : A2aWrappedArtifact
artifact = record {
  jacs_id = lit "x";
  jacs_version = lit "1.0.0";
  jacs_type = lit "a2a-task";
  jacs_level = lit "artifact";
  jacs_version_date = lit "now";
  a2a_artifact = null;
  jacs_parent_signatures = [];
  jacs_signature = none;
}

abbrev event : Value
event = obj (
    field (lit "jobId") (str (lit "j"))
      (field (lit "agentCard") card (field (lit "a2aTask") (str (lit "task")) end)))

abbrev outside : Outside
outside = record {
  from_str = λ text.
      if text_eq text (lit "card")
      then done card
      else done (obj (field (lit "valid") (bool true) end));
  to_string = λ value. done (lit "card");
  artifact_from_str = λ text. done artifact;
  artifact_from_value = λ value. done artifact;
  artifact_to_string = λ a. done (lit "artifact");
  artifact_to_value = λ a. done null;
  format_rfc3339_now = λ draw. ok (lit "now");
  new_v4 = λ draw. if draw == 0 then lit "x" else lit "y";
  jacs_id = lit "me";
  canonical_json = λ value. ok (lit "canonical");
  sign_message = λ text. ok (lit "signature");
  verify_a2a_artifact = λ text. ok (lit "result");
  submit_response = λ job text task result. ok tt;
  to_string_pretty = λ a. done (lit "artifact");
  send_email = λ email. ok tt;
}

abbrev guarded : A2aMediatedJobOptions
guarded = record {
  notify_email = none;
  email_subject = none;
  verify_inbound_artifact = true;
  enforce_trust_policy = true;
  max_reconnect_attempts = 0;
}

abbrev print_value : Value → Text
print_value value = lit "{}"

abbrev answer_job : A2aWrappedArtifact → Result Value
answer_job task = ok null

mediate-IsAdmitted_example :
    ((e : HaiError) × (mediate outside
          ((lit "a", card) ∷ [])
          strict
          guarded
          print_value
          answer_job
          event
        ≡ ([], err e)))
    ⊎ (IsAdmitted outside ((lit "a", card) ∷ []) strict guarded event
        × (job_id : Text) × (task : A2aWrappedArtifact) × (rest : List Effect) × (admit outside
              ((lit "a", card) ∷ [])
              strict
              guarded
              event
            ≡ ok (job_id, task))
        × ((mediate outside ((lit "a", card) ∷ []) strict guarded print_value answer_job event).0
            ≡ handled task ∷ rest))
mediate-IsAdmitted_example =
    mediate-IsAdmitted outside ((lit "a", card) ∷ []) strict guarded print_value answer_job event
