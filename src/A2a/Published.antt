-- ===== src/A2a/Published.antt =====
-- What rust/haiai/src/a2a.rs publishes of an agent card: the well-known documents, and the agent's JSON
-- that it registers with the card in it.
use haiai.Prelude.{
  Bool, true, false, ◌&&◌, not, Option, none, some, List, length, is_empty, if◌then◌else◌,
}
use haiai.Text.{Text, lit, trim, text_eq, decimal}
use haiai.Error.{json, message, Result, ok, err, ◌>>=◌, Foreign, lift}
use haiai.Json.{Value, Fields, obj, str, num, arr, bool, end, field, nil, cons, get}
use haiai.A2a.Cards.{
  A2aAgentCard, A2aAgentSkill, A2aAgentCapabilities, resolve_card_profile, value_or,
}

-- `Map::insert`
unfoldable pub set_field : Text → Value → Fields → Fields
set_field name value end = field name value end
set_field name value (field other old fields) =
    let rest = set_field name value fields in
    if text_eq other name then field name value fields else field other old rest

-- `Map::remove`, of the rest
unfoldable pub remove_field : Text → Fields → Fields
remove_field name end = end
remove_field name (field other old fields) =
    let rest = remove_field name fields in
    if text_eq other name then fields else field other old rest

abbrev has : Text → Fields → Bool
has name fields = elim (get name (obj fields)) [ none ↦ false | some value ↦ true ]

-- JSON, and what `serde` makes of a card and of its parts.
pub record Serde : Type 0 where
  pub from_str : Text → Foreign Value
  pub to_string : Value → Foreign Text
  pub card_to_value : A2aAgentCard → Foreign Value
  pub skills_to_value : List A2aAgentSkill → Foreign Value
  pub capabilities_to_value : A2aAgentCapabilities → Foreign Value

abbrev fields_or_none : Option Value → Fields
fields_or_none (some (obj fields)) = fields
fields_or_none _ = end

abbrev require_object : Value → Result Fields
require_object (obj fields) = ok fields
require_object _ = err (message (lit "agent_json must be a JSON object"))

-- `insert` when it is wanted, of a value that may fail to serialise
abbrev set_if : Bool → Text → Foreign Value → Fields → Result Fields
set_if wanted name value fields =
    if wanted then (lift value json >>= λ v. ok (set_field name v fields)) else ok fields

module _ (serde : Serde) where
  unfoldable pub with_card_metadata : A2aAgentCard → Fields → Fields
  unfolding set_field remove_field
  with_card_metadata card fields =
      let metadata = fields_or_none (get (lit "metadata") (obj fields)) in
      let profiled = set_field (lit "a2aProfile") (str (resolve_card_profile card)) metadata in
      let counted =
        set_field (lit "a2aSkillsCount") (num (decimal (length card.skills))) profiled in
      set_field (lit "metadata") (obj counted) (remove_field (lit "metadata") fields)

  unfoldable pub merge_agent_json_with_card : Text → A2aAgentCard → Result Text
  merge_agent_json_with_card agent_json card =
      if is_empty (trim agent_json)
      then err (message (lit "agent_json is required"))
      else (lift (serde.from_str agent_json) json >>= λ agent_doc.
          require_object agent_doc >>= λ agent.
          lift (serde.card_to_value card) json >>= λ card_value.
          let carded = set_field (lit "a2aAgentCard") card_value agent in
          set_if (not (has (lit "skills") carded) && not (is_empty card.skills)) (lit "skills")
            (serde.skills_to_value card.skills) carded
          >>= λ skilled.
              set_if (not (has (lit "capabilities") skilled)) (lit "capabilities")
                (serde.capabilities_to_value card.capabilities) skilled
              >>= λ capable. lift (serde.to_string (obj (with_card_metadata card capable))) json)

  abbrev with_jws : Text → Value → Value
  with_jws jws_signature (obj fields) =
      if is_empty jws_signature
      then obj fields
      else obj (
          set_field (lit "signatures")
            (arr (cons (obj (field (lit "jws") (str jws_signature) end)) nil)) fields)
  with_jws jws_signature value = value

  -- Of the provider's identifier
  unfoldable pub generate_well_known_documents :
      Text → A2aAgentCard → Text → Text → Value → Result Value
  generate_well_known_documents jacs_id agent_card jws_signature public_key_b64 agent_data =
      lift (serde.card_to_value agent_card) json >>= λ card_value.
      let agent_id = value_or (lit "jacsId") jacs_id agent_data in
      let agent_version = value_or (lit "jacsVersion") (lit "1.0.0") agent_data in
      let profile = value_or (lit "a2aProfile") (resolve_card_profile agent_card) agent_data in
      let key = obj (
        field (lit "kty") (str (lit "OKP")) (
          field (lit "crv") (str (lit "Ed25519")) (
            field (lit "kid") (str agent_id) (
              field (lit "use") (str (lit "sig")) (
                field (lit "alg") (str (lit "EdDSA"))
                  (field (lit "x") (str public_key_b64) end)))))) in
      let endpoints = obj (
        field (lit "verify") (str (lit "/jacs/verify")) (
          field (lit "sign") (str (lit "/jacs/sign"))
            (field (lit "agent") (str (lit "/jacs/agent")) end))) in
      let agent = obj (
        field (lit "jacsVersion") (str (lit "1.0")) (
          field (lit "agentId") (str agent_id) (
            field (lit "agentVersion") (str agent_version) (
              field (lit "capabilities")
                (obj
                  (field (lit "signing") (bool true) (field (lit "verification") (bool true) end)))
                (field (lit "endpoints") endpoints end))))) in
      let extension = obj (
        field (lit "uri") (str (lit "urn:jacs:provenance-v1")) (
          field (lit "name") (str (lit "JACS Document Provenance")) (
            field (lit "version") (str (lit "1.0"))
              (field (lit "a2aProtocolVersion") (str profile) end)))) in
      ok (
        obj (
          field (lit "/.well-known/agent-card.json") (with_jws jws_signature card_value) (
            field (lit "/.well-known/jwks.json") (obj (field (lit "keys") (arr (cons key nil)) end))
              (field (lit "/.well-known/jacs-agent.json") agent
                (field (lit "/.well-known/jacs-extension.json") extension end)))))
