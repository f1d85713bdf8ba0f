-- ===== src/A2a/Cards.antt =====
-- Agent cards of rust/haiai/src/a2a.rs: a card made of an agent's data, and the documents and the
-- registration made of a card. JSON, the serialisation of a card and `str::to_lowercase` are parameters.
use haiai.Prelude.{
  ℕ, zero, suc, Bool, false, ◌&&◌, ◌||◌, not, leb, ◌==◌, Option, none, some, List, [], ◌∷◌, ◌++◌,
  length, is_empty, if◌then◌else◌,
}
use haiai.Text.{Text, lit, trim, text_eq, strip_prefix}
use haiai.Json.{
  Value, Fields, obj, str, end, field, get, as_array, get_str, and_then, or_else, option_filter,
  unwrap_or,
}
use haiai.Remote.{filter_map}
use haiai.A2a.{value_string_opt}

pub record A2aAgentInterface : Type 0 where
  pub url : Text
  pub protocol_binding : Text
  pub protocol_version : Option Text
  pub tenant : Option Text

pub record A2aAgentExtension : Type 0 where
  pub uri : Text
  pub description : Option Text
  pub required : Bool

pub record A2aAgentCapabilities : Type 0 where
  pub streaming : Option Bool
  pub push_notifications : Option Bool
  pub extended_agent_card : Option Bool
  pub extensions : List A2aAgentExtension

pub record A2aAgentSkill : Type 0 where
  pub id : Text
  pub name : Text
  pub description : Text
  pub tags : List Text
  pub examples : List Text
  pub input_modes : List Text
  pub output_modes : List Text

-- The metadata is a JSON object.
pub record A2aAgentCard : Type 0 where
  pub name : Text
  pub description : Text
  pub version : Text
  pub protocol_versions : List Text
  pub supported_interfaces : List A2aAgentInterface
  pub default_input_modes : List Text
  pub default_output_modes : List Text
  pub capabilities : A2aAgentCapabilities
  pub skills : List A2aAgentSkill
  pub metadata : Fields

abbrev pub a2a_protocol_version_04 : Text
a2a_protocol_version_04 = lit "0.4.0"

abbrev pub a2a_protocol_version_10 : Text
a2a_protocol_version_10 = lit "1.0"

abbrev is_ascii_alphanumeric : ℕ → Bool
is_ascii_alphanumeric c =
    (leb b'0' c && leb c b'9') || (leb b'A' c && leb c b'Z') || (leb b'a' c && leb c b'z')

-- White space and underscores become dashes; what is then neither a letter, a digit nor a dash is
-- dropped.
unfoldable pub slug_chars : Text → Text
slug_chars [] = []
slug_chars (c ∷ s) =
    let rest = slug_chars s in
    let d = if c == b' ' || c == b'_' then b'-' else c in
    if is_ascii_alphanumeric d || d == b'-' then d ∷ rest else rest

unfoldable pub slugify : (Text → Text) → Text → Text
slugify to_lowercase input =
    let out = slug_chars (to_lowercase (trim input)) in if is_empty out then lit "skill" else out

abbrev verify_skill : A2aAgentSkill
verify_skill = record {
  id = lit "verify-signature";
  name = lit "verify_signature";
  description = lit "Verify JACS document signatures";
  tags = lit "jacs" ∷ lit "verification" ∷ lit "cryptography" ∷ [];
  examples = [];
  input_modes = [];
  output_modes = [];
}

unfoldable pub service_skill : (Text → Text) → Value → Option A2aAgentSkill
service_skill to_lowercase (obj fields) =
    let entry = obj fields in
    let name =
      unwrap_or (lit "service")
        (or_else (get_str (lit "name") entry) (get_str (lit "serviceDescription") entry)) in
    some (record {
      id = slugify to_lowercase name;
      name = name;
      description = unwrap_or (lit "No description") (get_str (lit "serviceDescription") entry);
      tags = lit "jacs" ∷ slugify to_lowercase name ∷ [];
      examples = [];
      input_modes = [];
      output_modes = [];
    })
service_skill to_lowercase _ = none

abbrev or_verify_skill : List A2aAgentSkill → List A2aAgentSkill
or_verify_skill [] = verify_skill ∷ []
or_verify_skill (skill ∷ skills) = skill ∷ skills

unfoldable pub convert_services_to_skills : (Text → Text) → Option Value → List A2aAgentSkill
convert_services_to_skills to_lowercase services = elim (and_then services as_array) [
  | none ↦ verify_skill ∷ []
  | some entries ↦ or_verify_skill (filter_map (service_skill to_lowercase) entries)
]

-- `if_empty_then`
unfoldable pub if_empty_then : Text → Text → Text
if_empty_then fallback text = if is_empty (trim text) then fallback else text

-- `value_string` of one path, or the fallback
unfoldable pub value_or : Text → Text → Value → Text
value_or path fallback value =
    if_empty_then fallback (unwrap_or [] (value_string_opt value (path ∷ [])))

-- `trim_start_matches("https://")`; each round drops characters.
unfoldable pub drop_scheme : ℕ → Text → Text
drop_scheme zero s = s
drop_scheme (suc fuel) s = elim (strip_prefix (lit "https://") s) [
  | none ↦ s
  | some rest ↦ drop_scheme fuel rest
]

unfoldable pub card_url : Text → Value → Text
card_url agent_id agent_data = elim (value_string_opt agent_data (lit "jacsAgentDomain" ∷ [])) [
  | none ↦ lit "https://agent-" ++ (agent_id ++ lit ".example.com")
  | some domain ↦
      lit "https://" ++ (drop_scheme (length domain) domain ++ (lit "/agent/" ++ agent_id))
]

-- Of the provider's identifier
unfoldable pub export_agent_card : (Text → Text) → Text → Value → A2aAgentCard
export_agent_card to_lowercase jacs_id agent_data =
    let agent_id = value_or (lit "jacsId") jacs_id agent_data in
    let name = value_or (lit "jacsName") jacs_id agent_data in
    let version = value_or (lit "jacsVersion") (lit "1.0.0") agent_data in
    let profile = value_or (lit "a2aProfile") a2a_protocol_version_04 agent_data in
    record {
      name = name;
      description = value_or (lit "jacsDescription") (lit "HAIAI agent " ++ name) agent_data;
      version = version;
      protocol_versions =
          if text_eq profile a2a_protocol_version_04 then a2a_protocol_version_04 ∷ [] else [];
      supported_interfaces =
          record {
            url = card_url agent_id agent_data;
            protocol_binding = lit "jsonrpc";
            protocol_version =
                if text_eq profile a2a_protocol_version_10
                then some a2a_protocol_version_10
                else none;
            tenant = none;
          }
          ∷ [];
      default_input_modes = lit "text/plain" ∷ lit "application/json" ∷ [];
      default_output_modes = lit "text/plain" ∷ lit "application/json" ∷ [];
      capabilities = record {
        streaming = none;
        push_notifications = none;
        extended_agent_card = none;
        extensions =
            record {
              uri = lit "urn:jacs:provenance-v1";
              description = some (lit "JACS cryptographic document signing and verification");
              required = false;
            }
            ∷ [];
      };
      skills = convert_services_to_skills to_lowercase (get (lit "jacsServices") agent_data);
      metadata =
          field (lit "jacsId") (str agent_id)
            (field (lit "jacsVersion") (str version) (field (lit "a2aProfile") (str profile) end));
    }

abbrev not_blank : Text → Bool
not_blank text = not (is_empty (trim text))

-- `iter().find_map(f)`
abbrev find_map : {A B : Type 0} → (A → Option B) → List A → Option B
find_map f [] = none
find_map f (x ∷ xs) = or_else (f x) (find_map f xs)

unfoldable pub resolve_card_profile : A2aAgentCard → Text
resolve_card_profile card = unwrap_or a2a_protocol_version_04 (
    or_else (get_str (lit "a2aProfile") (obj card.metadata)) (
      or_else
        (find_map (λ version. if not_blank version then some version else none)
          card.protocol_versions)
        (option_filter not_blank
          (find_map (λ interface. interface.protocol_version) card.supported_interfaces))))
