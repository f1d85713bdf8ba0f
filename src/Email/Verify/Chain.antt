-- ===== src/Email/Verify/Chain.antt =====
-- The forwarding chain: `verify_parent_chain_entries` of rust/haiai/src/email.rs.
use haiai.Prelude.{Bool, true, false, ◌&&◌, Option, none, some, List, [], ◌∷◌, if◌then◌else◌}
use haiai.Text.{Text, lit, text_eq}
use haiai.Text.Utf8.{Bytes}
use haiai.Error.{ok, err, Foreign, done, fault}
use haiai.Json.{Value, get, get_str, and_then, unwrap_or}
use haiai.Email.Verify.Keys.{
  Outside, ChainEntry, FieldStatus, FieldResult, fetch_public_key_from_registry,
  extract_public_key_bytes, algorithms_match,
}

-- `r.status == FieldStatus::Fail`
unfoldable pub failed : FieldResult → Bool
failed r = elim r.status [ FieldStatus.fail ↦ true | _ ↦ false ]

-- A field of `jacsSignature`.
unfoldable pub signer_field : Text → Value → Option Text
signer_field name value = and_then (get (lit "jacsSignature") value) λ sig. get_str name sig

-- What is read of a parent's envelope.
pub record Parent : Type 0 where
  pub issuer : Text
  pub email : Text
  pub algorithm : Text

abbrev to_option : {A : Type 0} → Foreign A → Option A
to_option (done a) = some a
to_option (fault e) = none

module _ (outside : Outside) where
  -- Whether an attachment is an envelope of this signer.
  unfoldable pub signed_by : Text → Bytes → Bool
  signed_by jacs_id content =
      elim (and_then (to_option (outside.from_slice content)) λ v. signer_field (lit "agentID") v) [
        | none ↦ false
        | some id ↦ text_eq id jacs_id
      ]

  -- `parts.jacs_attachments.iter().find(…)`
  unfoldable pub find_parent : Text → List Bytes → Option Bytes
  find_parent jacs_id [] = none
  find_parent jacs_id (content ∷ more) =
      let rest = find_parent jacs_id more in
      if signed_by jacs_id content then some content else rest

  unfoldable pub read_parent : Bytes → Option Parent
  read_parent bytes = and_then (to_option (outside.from_slice bytes)) λ value.
      and_then (get (lit "content") value) λ content.
        and_then (to_option (outside.payload_from content)) λ email. some (record {
          issuer = unwrap_or [] (signer_field (lit "agentID") value);
          email = email;
          algorithm = unwrap_or [] (signer_field (lit "signingAlgorithm") value);
        })

  -- `is_ok_and(|r| r.valid)`
  unfoldable pub verifies : Bytes → Bytes → Bool
  verifies bytes key = elim (outside.from_utf8 bytes) [
    | none ↦ false
    | some json ↦ elim (outside.verify_with_key json key) [ done valid ↦ valid | fault e ↦ false ]
  ]

  -- Whether the registry vouches for a parent's envelope.
  unfoldable pub registry_vouches : Text → Bytes → Parent → Bool
  registry_vouches hai_url bytes parent =
      elim (fetch_public_key_from_registry outside hai_url parent.email) [
        | err e ↦ false
        | ok registry ↦
            if text_eq parent.issuer registry.jacs_id
              && algorithms_match outside parent.algorithm registry.algorithm
            then (elim (extract_public_key_bytes outside registry.public_key) [
              | err e ↦ false
              | ok key ↦ verifies bytes key
            ])
            else false
      ]

  unfoldable pub parent_verified : Text → List Bytes → Text → Bool
  parent_verified hai_url attachments jacs_id = elim (find_parent jacs_id attachments) [
    | none ↦ false
    | some bytes ↦ elim (read_parent bytes) [
      | none ↦ false
      | some parent ↦ registry_vouches hai_url bytes parent
    ]
  ]

  -- The body of the loop: an entry is set valid, or stays as it is.
  unfoldable pub upgrade : Text → List Bytes → ChainEntry → ChainEntry
  upgrade hai_url attachments entry =
      if entry.valid
      then entry
      else if parent_verified hai_url attachments entry.jacs_id
      then record entry { valid = true }
      else entry

  unfoldable pub upgrade_all : Text → List Bytes → List ChainEntry → List ChainEntry
  upgrade_all hai_url attachments [] = []
  upgrade_all hai_url attachments (entry ∷ entries) =
      upgrade hai_url attachments entry ∷ upgrade_all hai_url attachments entries

  -- The first entry is the current signer.
  unfoldable pub verify_parent_chain_entries : Text → List Bytes → List ChainEntry → List ChainEntry
  unfolding upgrade_all
  verify_parent_chain_entries hai_url attachments [] = []
  verify_parent_chain_entries hai_url attachments (first ∷ entries) =
      first ∷ upgrade_all hai_url attachments entries
