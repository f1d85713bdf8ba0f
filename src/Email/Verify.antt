-- ===== src/Email/Verify.antt =====
-- `verify_email` of rust/haiai/src/email.rs. The `jacs` crate, JSON, base64 and HTTP are the
-- parameter `outside`; a registry or a resolver answers each URL in one way during a verification.
pub mod Keys
pub mod Chain
pub mod Parents
pub mod Steps
pub mod Sound
use haiai.Prelude.{
  ℕ, zero, suc, Bool, true, false, ◌&&◌, ◌||◌, not, Option, none, some, List, [], ◌∷◌, ◌++◌, all,
  any, if◌then◌else◌,
}
use haiai.Text.{Text, lit, text_eq, trim_end_matches}
use haiai.Text.Utf8.{Bytes}
use haiai.Error.{HaiError, display, Result, ok, err, Foreign, done, fault}
use haiai.Json.{Value, get, as_str, get_str, and_then, unwrap_or}
use haiai.Email.Verify.Keys.{
  create_verification_agent, ChainEntry, FieldResult, Outside, KeyRegistryResponse,
  fetch_public_key_from_registry, verify_dns_public_key, extract_public_key_bytes, extract_domain,
  algorithms_match,
}
use haiai.Email.Verify.Chain.{failed, signer_field, verify_parent_chain_entries}

-- `EmailVerificationResultV2`
pub record VerificationResult : Type 0 where
  pub valid : Bool
  pub jacs_id : Text
  pub algorithm : Text
  pub reputation_tier : Text
  pub dns_verified : Option Bool
  pub field_results : List FieldResult
  pub chain : List ChainEntry
  pub error : Option Text
  pub agent_status : Option Text
  pub benchmarks_completed : List Text

-- `EmailVerificationResultV2::err`
unfoldable pub failure : Text → Text → Text → VerificationResult
failure jacs_id reputation_tier error = record {
  valid = false;
  jacs_id = jacs_id;
  algorithm = [];
  reputation_tier = reputation_tier;
  dns_verified = none;
  field_results = [];
  chain = [];
  error = some error;
  agent_status = none;
  benchmarks_completed = [];
}

-- A step of the verification: it goes on with a value, or returns a result.
pub data Step {ℓ} (A : Type ℓ) : Type ℓ where
  next : A → Step A
  stop : VerificationResult → Step A

infixl 5 ◌>>=◌
abbrev pub ◌>>=◌ {ℓ κ} : {A : Type ℓ} {B : Type κ} → Step A → (A → Step B) → Step B
(stop result) >>= more = stop result
(next a) >>= more = more a

abbrev pub result_of : Step VerificationResult → VerificationResult
result_of (next result) = result
result_of (stop result) = result

-- A `match` that returns the error of its `Err` case.
abbrev pub or_stop : {A : Type 0} → Text → Text → Text → Foreign A → Step A
or_stop id tier what (done a) = next a
or_stop id tier what (fault e) = stop (failure id tier (what ++ e))

abbrev pub or_stop_hai : {A : Type 0} → Text → Text → Text → Result A → Step A
or_stop_hai id tier what (ok a) = next a
or_stop_hai id tier what (err e) = stop (failure id tier (what ++ display e))

abbrev pub stop_if : Bool → VerificationResult → Step (Unit {0})
stop_if test result = if test then stop result else next tt

-- What steps 1 and 2 read of the attached envelope.
pub record Envelope : Type 0 where
  pub jacs_id : Text
  pub from_email : Text
  pub sig_algorithm : Text

abbrev or_missing : Text → Option Value → Step Value
or_missing id (some v) = next v
or_missing id none = stop (failure id [] (lit "JACS document missing 'content' field"))

abbrev pub needs_dns : Text → Bool
needs_dns tier = text_eq tier (lit "pro") || text_eq tier (lit "enterprise")

module _ (outside : Outside) where
  open outside use {Trusted, Parts}

  unfoldable pub read_envelope : Bytes → Step Envelope
  read_envelope raw_email = do
    jacs_bytes ←
        or_stop [] [] (lit "No JACS signature found: ") (outside.get_jacs_attachment raw_email)
    jacs_value ←
        or_stop [] [] (lit "Invalid JACS signature document: ") (outside.from_slice jacs_bytes)
    let id = unwrap_or [] (signer_field (lit "agentID") jacs_value)
    content ← or_missing id (get (lit "content") jacs_value)
    from_email ←
        or_stop id [] (lit "Invalid email payload in JACS document: ")
          (outside.payload_from content)
    next (record {
      jacs_id = id;
      from_email = from_email;
      sig_algorithm = unwrap_or [] (signer_field (lit "signingAlgorithm") jacs_value);
    })

  -- Steps 4a to 4c.
  unfoldable pub bind_identity : Envelope → KeyRegistryResponse → Step (Unit {0})
  bind_identity e registry = do
    same_id ← stop_if (not (text_eq e.jacs_id registry.jacs_id)) (
        failure e.jacs_id registry.reputation_tier (
          lit "Identity mismatch: document issuer '"
          ++ (e.jacs_id
              ++ (lit "' does not match registry jacs_id '" ++ (registry.jacs_id ++ lit "'")))))
    same_email ← stop_if (not (text_eq e.from_email registry.email)) (
        failure e.jacs_id registry.reputation_tier (
          lit "Identity mismatch: From '"
          ++ (e.from_email
              ++ (lit "' does not match registry email '" ++ (registry.email ++ lit "'")))))
    stop_if (not (algorithms_match outside e.sig_algorithm registry.algorithm)) (
        failure e.jacs_id registry.reputation_tier (
          lit "Algorithm mismatch: signature uses '"
          ++ (e.sig_algorithm ++ (lit "' but registry has '" ++ (registry.algorithm ++ lit "'")))))

  abbrev benchmarks : KeyRegistryResponse → List Text
  benchmarks registry = unwrap_or [] registry.benchmarks_completed

  -- Step 4d: an agent whose status is known to be other than active is refused.
  unfoldable pub check_status : Envelope → KeyRegistryResponse → Step (Unit {0})
  check_status e registry = elim registry.agent_status [
    | none ↦ next tt
    | some status ↦
        stop_if (not (text_eq status (lit "active")))
          (record (failure e.jacs_id registry.reputation_tier (
            lit "Agent status is '"
            ++ (status ++ lit "' -- only active agents can send verified email"))) {
              agent_status = some status;
              benchmarks_completed = benchmarks registry;
            })
  ]

  -- Steps 5 and 6: the key, the verifying agent, and the signature.
  unfoldable pub check_signature : Bytes → Envelope → KeyRegistryResponse → Step (Trusted × Parts)
  check_signature raw_email e registry = do
    raw_pub_key ←
        or_stop_hai e.jacs_id registry.reputation_tier (lit "Failed to parse public key: ")
          (extract_public_key_bytes outside registry.public_key)
    agent ←
        or_stop_hai e.jacs_id registry.reputation_tier (lit "Failed to create verification agent: ")
          (create_verification_agent outside)
    or_stop e.jacs_id registry.reputation_tier (lit "JACS signature verification failed: ")
        (outside.verify_email_document raw_email raw_pub_key)

  -- Step 7.
  unfoldable pub check_dns : Envelope → KeyRegistryResponse → Step (Option Bool)
  check_dns e registry =
      let refuse = failure e.jacs_id registry.reputation_tier in
      if needs_dns registry.reputation_tier
      then (or_stop_hai e.jacs_id registry.reputation_tier (lit "DNS verification failed: ")
            (verify_dns_public_key outside (extract_domain e.from_email) registry.public_key)
          >>= λ verified.
              stop_if (not verified)
                (refuse (lit "DNS public key hash does not match registry key"))
              >>= λ passed. next (some true))
      else next none

  -- Steps 8 and 9.
  unfoldable pub compare_content :
      Text → Envelope → KeyRegistryResponse → Option Bool → Trusted → Parts → VerificationResult
  compare_content hai_url e registry dns_verified trusted parts =
      let (field_results, entries) = outside.verify_email_content trusted parts in
      let chain =
        verify_parent_chain_entries outside hai_url (outside.jacs_attachments parts) entries in
      record {
        valid = not (any failed field_results) && all (λ entry. entry.valid) chain;
        jacs_id = e.jacs_id;
        algorithm = e.sig_algorithm;
        reputation_tier = registry.reputation_tier;
        dns_verified = dns_verified;
        field_results = field_results;
        chain = chain;
        error = none;
        agent_status = registry.agent_status;
        benchmarks_completed = benchmarks registry;
      }

  unfoldable pub verify_steps : Bytes → Text → Step VerificationResult
  verify_steps raw_email hai_url = do
    e ← read_envelope raw_email
    registry ←
        or_stop_hai e.jacs_id [] (lit "Registry lookup failed: ")
          (fetch_public_key_from_registry outside hai_url e.from_email)
    bound ← bind_identity e registry
    active ← check_status e registry
    signed ← check_signature raw_email e registry
    dns_verified ← check_dns e registry
    next (compare_content hai_url e registry dns_verified signed.0 signed.1)

  unfoldable pub verify_email : Bytes → Text → VerificationResult
  verify_email raw_email hai_url =
      result_of (verify_steps raw_email (trim_end_matches b'/' hai_url))
