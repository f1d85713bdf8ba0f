-- ===== src/Tests/Verify.antt =====
-- Verification of an email that was forwarded by an agent of the "pro" tier.
use haiai.Prelude.{ℕ, Bool, not, ◌≡◌, refl, true, false, none, some, List, [], ◌∷◌, if◌then◌else◌}
use haiai.Text.{
  Text, lit, text_eq, starts_with, trim_end_matches, join, decimal, is_whitespace, trim,
  trim_end_by, trim_start_by, contains, lines, rsplit_once, split, split_once, strip_prefix,
  without_suffix,
}
use haiai.Text.Utf8.{Bytes}
use haiai.Error.{Foreign, done, fault}
use haiai.Json.{Value, obj, str, arr, end, field, nil, cons, get, get_str, as_array, as_str}
use haiai.Email.Verify.{
  verify_email, verify_steps, read_envelope, bind_identity, check_status, check_signature,
  check_dns, compare_content, failure,
}
use haiai.Email.Verify.Chain.{
  failed, find_parent, parent_verified, read_parent, registry_vouches, signed_by, signer_field,
  upgrade, upgrade_all, verifies, verify_parent_chain_entries,
}
use haiai.Email.Verify.Keys.{
  create_verification_agent, Outside, KeyRegistryResponse, FieldStatus, FieldResult, ChainEntry,
  fetch_public_key_from_registry, algorithms_match, extract_public_key_bytes, pem_lines,
  answer_texts, bare_address, dns_txt_record_matches_expected_hash,
  dns_txt_records_verify_public_key, ed25519_oid, extract_domain, fetch_dns_txt_records,
  parts_match, records_match, verify_dns_public_key,
}
use haiai.Email.Verify.Sound.{IsVerified, verify_email-IsVerified}

abbrev envelope_of : Text → Text → Value
envelope_of agent from = obj (
    field (lit "jacsSignature")
      (obj
        (field (lit "agentID") (str agent) (field (lit "signingAlgorithm") (str (lit "ring")) end)))
      (field (lit "content") (str from) end))

abbrev read_bytes : Bytes → Foreign Value
read_bytes bytes =
    if text_eq bytes (lit "child")
    then done (envelope_of (lit "c") (lit "c@hai.ai"))
    else if text_eq bytes (lit "parent")
    then done (envelope_of (lit "p") (lit "p@x.org"))
    else fault (lit "not JSON")

abbrev registry_answer : Text → Value
registry_answer email = str email

abbrev answer : Text → Foreign (ℕ × Foreign Value)
answer url =
    if starts_with (lit "https://dns.google/resolve?name=_v1.agent.jacs.hai.ai&") url
    then done (
      200,
      done (
          obj (
            field (lit "Answer")
              (arr (
                cons (obj (field (lit "data") (str (lit "\"v=hai; jacs_public_key_hash=h\"")) end))
                  nil))
              end)),
    )
    else if text_eq url (lit "https://hai.ai/api/agents/keys/c@hai.ai")
    then done (200, done (str (lit "c")))
    else if text_eq url (lit "https://hai.ai/api/agents/keys/p@x.org")
    then done (200, done (str (lit "p")))
    else done (404, done (str []))

abbrev registered : Value → Foreign KeyRegistryResponse
registered (str agent) = done (record {
  email = if text_eq agent (lit "c") then lit "c@hai.ai" else lit "p@x.org";
  jacs_id = agent;
  public_key = lit "-----BEGIN PUBLIC KEY-----\n0123456789abcdef\n-----END PUBLIC KEY-----\n";
  algorithm = lit "ring";
  reputation_tier = if text_eq agent (lit "c") then lit "pro" else lit "free";
  registered_at = [];
  agent_status = some (lit "active");
  benchmarks_completed = none;
})
registered _ = fault (lit "not a registry response")

abbrev text_of : Value → Foreign Text
text_of (str s) = done s
text_of _ = fault (lit "no text")

abbrev subject : FieldResult
subject = record {
  field = lit "subject";
  status = FieldStatus.pass;
  original_hash = none;
  current_hash = none;
  original_value = none;
  current_value = none;
}

abbrev entry : Text → Bool → ChainEntry
entry id valid = record { signer = id; jacs_id = id; valid = valid; forwarded = not valid }

abbrev pub world : Outside
world = record {
  Trusted = Unit;
  Parts = List Bytes;
  from_slice = read_bytes;
  from_utf8 = λ b. some b;
  decode = λ t. done t;
  percent_encode = λ t. t;
  http_get = answer;
  registry_from = registered;
  payload_from = text_of;
  get_jacs_attachment = λ raw. done raw;
  tempdir = done (lit "/tmp");
  canonicalize = λ path. done path;
  create_with_params = λ data_dir key_dir config. done tt;
  verify_email_document = λ raw key. done (tt, lit "parent" ∷ []);
  verify_email_content =
      λ trusted parts. (subject ∷ [], entry (lit "c") true ∷ entry (lit "p") false ∷ []);
  jacs_attachments = λ parts. parts;
  verify_with_key = λ json key. done (text_eq key (lit "0123456789abcdef"));
  normalize_algorithm = λ a. a;
  hash_public_key = λ pem. lit "h";
}

accepted : (verify_email world (lit "child") (lit "https://hai.ai/")).valid ≡ true
unfolding create_verification_agent verify_email verify_steps read_envelope bind_identity
    check_status check_signature check_dns compare_content failure fetch_public_key_from_registry
    algorithms_match extract_public_key_bytes pem_lines answer_texts bare_address
    dns_txt_record_matches_expected_hash dns_txt_records_verify_public_key ed25519_oid
    extract_domain fetch_dns_txt_records parts_match records_match verify_dns_public_key failed
    find_parent parent_verified read_parent registry_vouches signed_by signer_field upgrade
    upgrade_all verifies verify_parent_chain_entries lit text_eq starts_with trim_end_matches join
    decimal is_whitespace trim trim_end_by trim_start_by contains lines rsplit_once split split_once
    strip_prefix without_suffix get get_str as_array as_str
accepted = refl

verify_email-IsVerified_example :
    IsVerified world
      (lit "child")
      (trim_end_matches b'/' (lit "https://hai.ai/"))
      (verify_email world (lit "child") (lit "https://hai.ai/"))
verify_email-IsVerified_example =
    verify_email-IsVerified world (lit "child") (lit "https://hai.ai/") accepted
