-- ===== src/Email/Verify/Parents.antt =====
-- What is true of a chain entry that `verify_parent_chain_entries` of rust/haiai/src/email.rs leaves
-- valid.
use haiai.Prelude.{
  ◌≡◌, ap, ◌⊎◌, inl, inr, true, some, List, [], ◌∷◌, ◌++◌, all, arith, All, Option-cases,
  Bool-cases,
}
use haiai.Text.{Text, lit, text_eq_iff}
use haiai.Text.Utf8.{Bytes}
use haiai.Error.{ok, Result-cases, done, Foreign-cases}
use haiai.Json.{Value, get, unwrap_or}
use haiai.Email.Verify.Keys.{
  ChainEntry, Outside, KeyRegistryResponse, fetch_public_key_from_registry,
  extract_public_key_bytes, algorithms_match,
}
use haiai.Email.Verify.Chain.{
  signer_field, signed_by, find_parent, Parent, read_parent, verifies, registry_vouches,
  parent_verified, upgrade, upgrade_all, verify_parent_chain_entries,
}

module _ (outside : Outside) (hai_url : Text) (attachments : List Bytes) where
  -- One of the attachments is an envelope signed by this agent, and its signature was verified with
  -- the key that the registry has for the agent.
  pub record IsVouched (jacs_id : Text) : Type 0 where
    pub before : List Bytes
    pub bytes : Bytes
    pub after : List Bytes
    pub value : Value
    pub parent : Parent
    pub registry : KeyRegistryResponse
    pub key : Bytes
    pub json : Text
    pub attached : attachments ≡ before ++ (bytes ∷ after)
    pub parsed : outside.from_slice bytes ≡ done value
    pub signer : signer_field (lit "agentID") value ≡ some jacs_id
    pub read : read_parent outside bytes ≡ some parent
    pub looked_up : fetch_public_key_from_registry outside hai_url parent.email ≡ ok registry
    pub same_id : registry.jacs_id ≡ jacs_id
    pub same_algorithm : algorithms_match outside parent.algorithm registry.algorithm ≡ true
    pub key_read : extract_public_key_bytes outside registry.public_key ≡ ok key
    pub text : outside.from_utf8 bytes ≡ some json
    pub verified : outside.verify_with_key json key ≡ done true

  signed_by-signer :
      (jacs_id : Text) (bytes : Bytes)
      → signed_by outside jacs_id bytes ≡ true
      → (value : Value) × (outside.from_slice bytes ≡ done value)
        × (signer_field (lit "agentID") value ≡ some jacs_id)
  unfolding signed_by
  signed_by-signer jacs_id bytes h = elim (Foreign-cases (outside.from_slice bytes)) [
    | inr (t, a) ↦ ground (arith, a, h)
    | inl (value, a) ↦ elim (Option-cases (signer_field (lit "agentID") value)) [
      | inl b ↦ ground (arith, a, b, h)
      | inr (id, b) ↦ (value, a, ground (arith, a, b, h, text_eq_iff id jacs_id))
    ]
  ]

  find_parent-found :
      (jacs_id : Text) (contents : List Bytes) {bytes : Bytes}
      → find_parent outside jacs_id contents ≡ some bytes
      → (signed_by outside jacs_id bytes ≡ true)
        × (before : List Bytes) × (after : List Bytes) × (contents ≡ before ++ (bytes ∷ after))
  unfolding find_parent
  find_parent-found jacs_id [] h = cc
  find_parent-found jacs_id (content ∷ more) {bytes} h =
      elim (Bool-cases (signed_by outside jacs_id content)) [
        | inl a ↦
            let same : content ≡ bytes = ground (arith, a, h) in
            (rw (← same) a, [], more, ap (λ c. c ∷ more) same)
        | inr a ↦
            let found = find_parent-found jacs_id more {bytes = bytes} (ground (arith, a, h)) in
            (found.0, content ∷ found.1, found.2, ap (λ rest. content ∷ rest) found.3)
      ]

  verifies-verified :
      (bytes key : Bytes)
      → verifies outside bytes key ≡ true
      → (json : Text) × (outside.from_utf8 bytes ≡ some json)
        × (outside.verify_with_key json key ≡ done true)
  unfolding verifies
  verifies-verified bytes key h = elim (Option-cases (outside.from_utf8 bytes)) [
    | inl a ↦ ground (arith, a, h)
    | inr (json, a) ↦ elim (Foreign-cases (outside.verify_with_key json key)) [
      | inr (t, b) ↦ ground (arith, a, b, h)
      | inl (valid, b) ↦ (json, a, ground (arith, a, b, h))
    ]
  ]

  read_parent-issuer :
      (bytes : Bytes) {value : Value} {parent : Parent}
      → outside.from_slice bytes ≡ done value
      → read_parent outside bytes ≡ some parent
      → parent.issuer ≡ unwrap_or [] (signer_field (lit "agentID") value)
  unfolding read_parent
  read_parent-issuer bytes {value} a h = elim (Option-cases (get (lit "content") value)) [
    | inl b ↦ ground (arith, a, b, h)
    | inr (content, b) ↦ elim (Foreign-cases (outside.payload_from content)) [
      | inr (t, c) ↦ ground (arith, a, b, c, h)
      | inl (email, c) ↦ ground (arith, a, b, c, h)
    ]
  ]

  parent_verified-IsVouched :
      (jacs_id : Text)
      → parent_verified outside hai_url attachments jacs_id ≡ true
      → IsVouched jacs_id
  unfolding parent_verified registry_vouches
  parent_verified-IsVouched jacs_id h =
      elim (Option-cases (find_parent outside jacs_id attachments)) [
        | inl a ↦ ground (arith, a, h)
        | inr (bytes, a) ↦ elim (Option-cases (read_parent outside bytes)) [
          | inl b ↦ ground (arith, a, b, h)
          | inr (parent, b) ↦
              elim (Result-cases (fetch_public_key_from_registry outside hai_url parent.email)) [
                | inr (t, c) ↦ ground (arith, a, b, c, h)
                | inl (registry, c) ↦
                    elim (Result-cases (extract_public_key_bytes outside registry.public_key)) [
                      | inr (t, d) ↦ ground (arith, a, b, c, d, h)
                      | inl (key, d) ↦
                          let (signed, before, after, attached) =
                            find_parent-found jacs_id attachments a in
                          let (value, parsed, signer) = signed_by-signer jacs_id bytes signed in
                          let verified =
                            verifies-verified bytes key (ground (arith, a, b, c, d, h)) in
                          let issuer = read_parent-issuer bytes parsed b in
                          record {
                            before = before;
                            bytes = bytes;
                            after = after;
                            value = value;
                            parent = parent;
                            registry = registry;
                            key = key;
                            json = verified.0;
                            attached = attached;
                            parsed = parsed;
                            signer = signer;
                            read = b;
                            looked_up = c;
                            same_id = ground (
                              arith,
                              a,
                              b,
                              c,
                              d,
                              h,
                              text_eq_iff parent.issuer registry.jacs_id,
                              issuer,
                              signer,
                            );
                            same_algorithm = ground (arith, a, b, c, d, h);
                            key_read = d;
                            text = verified.1;
                            verified = verified.2;
                          }
                    ]
              ]
        ]
      ]

  -- jacs calls the entry valid, or the registry vouches for its signer.
  abbrev pub IsTrusted : ChainEntry → Type 0
  IsTrusted entry = (entry.valid ≡ true) ⊎ IsVouched entry.jacs_id

  -- jacs calls the current signer valid, and each entry behind it is trusted.
  abbrev pub IsTrustedChain : List ChainEntry → Type 0
  IsTrustedChain [] = Unit
  IsTrustedChain (first ∷ entries) = (first.valid ≡ true) × All IsTrusted entries

  upgrade-IsTrusted :
      (entry : ChainEntry)
      → (upgrade outside hai_url attachments entry).valid ≡ true
      → IsTrusted entry
  unfolding upgrade
  upgrade-IsTrusted entry h = elim (Bool-cases entry.valid) [
    | inl a ↦ inl a
    | inr a ↦ elim (Bool-cases (parent_verified outside hai_url attachments entry.jacs_id)) [
      | inl b ↦ inr (parent_verified-IsVouched entry.jacs_id b)
      | inr b ↦ ground (arith, a, b, h)
    ]
  ]

  upgrade_all-IsTrusted :
      (entries : List ChainEntry)
      → all (λ entry. entry.valid) (upgrade_all outside hai_url attachments entries) ≡ true
      → All IsTrusted entries
  unfolding upgrade_all
  upgrade_all-IsTrusted [] h = tt
  upgrade_all-IsTrusted (entry ∷ entries) h = (
    upgrade-IsTrusted entry (ground (arith, h)),
    upgrade_all-IsTrusted entries (ground (arith, h)),
  )

  -- When every entry of the chain comes out valid, jacs calls the current signer valid, and each
  -- entry behind it is one that jacs calls valid or one of whose signer an attached envelope verifies
  -- with the key that the registry has for that signer.
  pub verify_parent_chain_entries-IsTrustedChain :
      (entries : List ChainEntry)
      → all (λ entry. entry.valid) (verify_parent_chain_entries outside hai_url attachments entries)
        ≡ true
      → IsTrustedChain entries
  unfolding verify_parent_chain_entries
  verify_parent_chain_entries-IsTrustedChain [] h = tt
  verify_parent_chain_entries-IsTrustedChain (first ∷ entries) h =
      (ground (arith, h), upgrade_all-IsTrusted entries (ground (arith, h)))
