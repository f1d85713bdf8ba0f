-- ===== src/A2a.antt =====
-- rust/haiai/src/a2a.rs: trust in remote agents, wrapped artifacts, and mediated benchmark jobs. JSON,
-- the provider's signing and verifying, the clock, identifiers and the server are the parameter
-- `outside`.
pub mod Artifacts
pub mod Cards
pub mod Published
pub mod Jobs
pub mod Trust
pub mod Mediated
use haiai.Prelude.{
  ℕ, Bool, true, false, ◌&&◌, not, Option, none, some, List, [], ◌∷◌, ◌++◌, any, map, length,
  is_empty, if◌then◌else◌,
}
use haiai.Text.{Text, lit, text_eq}
use haiai.Error.{
  HaiError, json, message, display, Result, ok, err, ok_or, ◌>>=◌, ◌>>◌, Foreign, done, fault, lift,
}
use haiai.Json.{
  Value, Fields, obj, str, null, end, field, get, as_str, as_bool, as_array, get_str, and_then,
  or_else, unwrap_or,
}

pub data A2aTrustPolicy : Type 0 where
  open_to_all verified strict : A2aTrustPolicy

pub record A2aArtifactSignature : Type 0 where
  pub agent_id : Text
  pub date : Text
  pub signature : Text

pub record A2aWrappedArtifact : Type 0 where
  pub jacs_id : Text
  pub jacs_version : Text
  pub jacs_type : Text
  pub jacs_level : Text
  pub jacs_version_date : Text
  pub a2a_artifact : Value
  pub jacs_parent_signatures : List Value
  pub jacs_signature : Option A2aArtifactSignature

pub record A2aArtifactVerificationResult : Type 0 where
  pub valid : Bool
  pub signer_id : Text
  pub artifact_type : Text
  pub timestamp : Text
  pub original_artifact : Value
  pub error : Option Text

pub record A2aTrustAssessment : Type 0 where
  pub allowed : Bool
  pub trust_level : Text
  pub jacs_registered : Bool
  pub in_trust_store : Bool
  pub reason : Text

pub record A2aChainEntry : Type 0 where
  pub artifact_id : Text
  pub artifact_type : Text
  pub timestamp : Text
  pub agent_id : Text
  pub signature_present : Bool

pub record A2aChainOfCustody : Type 0 where
  pub chain_of_custody : List A2aChainEntry
  pub created : Text
  pub total_artifacts : ℕ

abbrev as_object : Value → Option Value
as_object (obj fields) = some (obj fields)
as_object _ = none

abbrev declares : Value → Bool
declares ext = elim (get_str (lit "uri") ext) [
  | none ↦ false
  | some uri ↦ text_eq uri (lit "urn:jacs:provenance-v1")
]

unfoldable pub has_jacs_extension : Value → Bool
has_jacs_extension card = any declares (
    unwrap_or [] (
      and_then
        (and_then (and_then (get (lit "capabilities") card) as_object) (get (lit "extensions")))
        as_array))

unfoldable pub extract_card_agent_id : Value → Option Text
extract_card_agent_id card =
    and_then (and_then (get (lit "metadata") card) as_object) (get_str (lit "jacsId"))

-- The first of the paths with a string that is not empty.
unfoldable pub value_string_opt : Value → List Text → Option Text
value_string_opt value [] = none
value_string_opt value (path ∷ paths) =
    let rest = value_string_opt value paths in
    elim (get_str path value) [
      | none ↦ rest
      | some found ↦ if is_empty found then rest else some found
    ]

-- The trusted cards by their agents' identifiers.
abbrev pub Trusted : Type 0
Trusted = List (Text × Value)

unfoldable pub is_trusted_a2a_agent : Trusted → Text → Bool
is_trusted_a2a_agent trusted agent_id = any (λ entry. text_eq entry.0 agent_id) trusted

unfoldable pub agent_id_of : Value → Text
agent_id_of card = unwrap_or [] (extract_card_agent_id card)

unfoldable pub assess_card : Trusted → A2aTrustPolicy → Value → A2aTrustAssessment
assess_card trusted policy card =
    let jacs_registered = has_jacs_extension card in
    let in_trust_store = is_trusted_a2a_agent trusted (agent_id_of card) in
    let trust_level =
      if in_trust_store
      then lit "explicitly_trusted"
      else if jacs_registered
      then lit "jacs_verified"
      else lit "untrusted" in
    let result : Bool → Text → A2aTrustAssessment = λ allowed reason. record {
      allowed = allowed;
      trust_level = trust_level;
      jacs_registered = jacs_registered;
      in_trust_store = in_trust_store;
      reason = reason;
    } in
    elim policy [
      | open_to_all ↦ result true (lit "open policy: all agents accepted")
      | verified ↦ result jacs_registered (
          if jacs_registered
          then lit "verified policy: card declares JACS extension"
          else lit "verified policy: card missing JACS extension")
      | strict ↦ result in_trust_store (
          if in_trust_store
          then lit "strict policy: agent is in local trust store"
          else lit "strict policy: agent is not in local trust store")
    ]

-- `HashMap::insert`
unfoldable pub insert_card : Text → Value → Trusted → Trusted
insert_card id card [] = (id, card) ∷ []
insert_card id card ((other, old) ∷ trusted) =
    let rest = insert_card id card trusted in
    if text_eq other id then (id, card) ∷ trusted else (other, old) ∷ rest

unfoldable pub trust_card : Value → Trusted → Result (Text × Trusted)
trust_card card trusted =
    ok_or (message (lit "cannot trust card without metadata.jacsId")) (extract_card_agent_id card)
    >>= λ agent_id. ok (agent_id, insert_card agent_id card trusted)

unfoldable pub chain_entry : A2aWrappedArtifact → A2aChainEntry
chain_entry artifact = record {
  artifact_id = artifact.jacs_id;
  artifact_type = artifact.jacs_type;
  timestamp = artifact.jacs_version_date;
  agent_id = elim artifact.jacs_signature [ none ↦ [] | some s ↦ s.agent_id ];
  signature_present = elim artifact.jacs_signature [
    | none ↦ false
    | some s ↦ not (is_empty s.signature)
  ];
}
