-- ===== src/Email/Verify/Steps.antt =====
-- Each step of `verify_email`: it goes on with what it has checked, or stops with a result that is
-- not valid.
use haiai.Prelude.{
  ◌≡◌, refl, ◌⊎◌, inl, inr, Bool, true, false, Option, none, some, [], Option-cases, Bool-cases,
}
use haiai.Text.{Text, lit, text_eq, text_eq_iff}
use haiai.Text.Utf8.{Bytes}
use haiai.Error.{ok, Result-cases, done, Foreign-cases}
use haiai.Json.{Value, get, unwrap_or}
use haiai.Email.Verify.{
  VerificationResult, failure, Step, next, stop, Envelope, read_envelope, bind_identity,
  check_status, check_signature, check_dns, needs_dns,
}
use haiai.Email.Verify.Keys.{
  create_verification_agent, Outside, KeyRegistryResponse, verify_dns_public_key,
  extract_public_key_bytes, extract_domain, algorithms_match,
}
use haiai.Email.Verify.Chain.{signer_field}

-- A step goes on with a value of which `P` holds, or stops with a result that is not valid.
abbrev pub Outcome {ℓ} : {A : Type ℓ} → Step A → (A → Type ℓ) → Type ℓ
Outcome {A = A} m P =
    ((a : A) × (m ≡ next a) × P a) ⊎ ((r : VerificationResult) × (m ≡ stop r) × (r.valid ≡ false))

-- What the attached envelope is, and whom it names.
pub record IsEnvelope (outside : Outside) (raw_email : Bytes) (e : Envelope) : Type 0 where
  pub bytes : Bytes
  pub value : Value
  pub content : Value
  pub attached : outside.get_jacs_attachment raw_email ≡ done bytes
  pub parsed : outside.from_slice bytes ≡ done value
  pub has_content : get (lit "content") value ≡ some content
  pub sender : outside.payload_from content ≡ done e.from_email
  pub issuer : unwrap_or [] (signer_field (lit "agentID") value) ≡ e.jacs_id
  pub algorithm : unwrap_or [] (signer_field (lit "signingAlgorithm") value) ≡ e.sig_algorithm

-- The envelope names the agent, the address and the algorithm that the registry has.
pub record IsBound (outside : Outside) (e : Envelope) (registry : KeyRegistryResponse)
    : Type 0 where
  pub same_id : e.jacs_id ≡ registry.jacs_id
  pub same_email : e.from_email ≡ registry.email
  pub same_algorithm : algorithms_match outside e.sig_algorithm registry.algorithm ≡ true

module _ (outside : Outside) where
  open outside use {Trusted, Parts}

  pub read_envelope-Outcome :
      (raw_email : Bytes) → Outcome (read_envelope outside raw_email) (IsEnvelope outside raw_email)
  unfolding read_envelope failure
  read_envelope-Outcome raw_email = elim (Foreign-cases (outside.get_jacs_attachment raw_email)) [
    | inr (t, a) ↦ rw a (inr (_, refl, refl))
    | inl (bytes, a) ↦ elim (Foreign-cases (outside.from_slice bytes)) [
      | inr (t, b) ↦ rw (a, b) (inr (_, refl, refl))
      | inl (value, b) ↦ elim (Option-cases (get (lit "content") value)) [
        | inl c ↦ rw (a, b, c) (inr (_, refl, refl))
        | inr (content, c) ↦ elim (Foreign-cases (outside.payload_from content)) [
          | inr (t, d) ↦ rw (a, b, c, d) (inr (_, refl, refl))
          | inl (from_email, d) ↦ inl (
            record {
              jacs_id = unwrap_or [] (signer_field (lit "agentID") value);
              from_email = from_email;
              sig_algorithm = unwrap_or [] (signer_field (lit "signingAlgorithm") value);
            },
            rw (a, b, c, d) refl,
            record {
              bytes = bytes;
              value = value;
              content = content;
              attached = a;
              parsed = b;
              has_content = c;
              sender = d;
              issuer = refl;
              algorithm = refl;
            },
          )
        ]
      ]
    ]
  ]

  pub bind_identity-Outcome :
      (e : Envelope) (registry : KeyRegistryResponse)
      → Outcome (bind_identity outside e registry) (λ passed. IsBound outside e registry)
  unfolding bind_identity failure
  bind_identity-Outcome e registry = elim (Bool-cases (text_eq e.jacs_id registry.jacs_id)) [
    | inr a ↦ rw a (inr (_, refl, refl))
    | inl a ↦ elim (Bool-cases (text_eq e.from_email registry.email)) [
      | inr b ↦ rw (a, b) (inr (_, refl, refl))
      | inl b ↦ elim (Bool-cases (algorithms_match outside e.sig_algorithm registry.algorithm)) [
        | inr c ↦ rw (a, b, c) (inr (_, refl, refl))
        | inl c ↦ inl (
          tt,
          rw (a, b, c) refl,
          record {
            same_id = (text_eq_iff _ _).0 a;
            same_email = (text_eq_iff _ _).0 b;
            same_algorithm = c;
          },
        )
      ]
    ]
  ]

  -- What the registry says of the agent's status, when it says it, is "active".
  abbrev pub IsActive : KeyRegistryResponse → Type 0
  IsActive registry = (status : Text) → registry.agent_status ≡ some status → status ≡ lit "active"

  pub check_status-Outcome :
      (e : Envelope) (registry : KeyRegistryResponse)
      → Outcome (check_status outside e registry) (λ passed. IsActive registry)
  unfolding check_status failure
  check_status-Outcome e registry = elim (Option-cases registry.agent_status) [
    | inl a ↦ inl (tt, rw a refl, λ status h. cc (a, h))
    | inr (status, a) ↦ elim (Bool-cases (text_eq status (lit "active"))) [
      | inl b ↦ inl (tt, rw (a, b) refl, λ other h. cc (a, h, (text_eq_iff _ _).0 b))
      | inr b ↦ rw (a, b) (inr (_, refl, refl))
    ]
  ]

  -- The signature of the message was verified with the key that the registry has.
  pub record IsSigned (raw_email : Bytes) (registry : KeyRegistryResponse)
      (signed : Trusted × Parts) : Type 0 where
    pub key : Bytes
    pub key_read : extract_public_key_bytes outside registry.public_key ≡ ok key
    pub verified : outside.verify_email_document raw_email key ≡ done signed

  pub check_signature-Outcome :
      (raw_email : Bytes) (e : Envelope) (registry : KeyRegistryResponse)
      → Outcome (check_signature outside raw_email e registry) (IsSigned raw_email registry)
  unfolding check_signature failure
  check_signature-Outcome raw_email e registry =
      elim (Result-cases (extract_public_key_bytes outside registry.public_key)) [
        | inr (t, a) ↦ rw a (inr (_, refl, refl))
        | inl (key, a) ↦ elim (Result-cases (create_verification_agent outside)) [
          | inr (t, b) ↦ rw (a, b) (inr (_, refl, refl))
          | inl (agent, b) ↦ elim (Foreign-cases (outside.verify_email_document raw_email key)) [
            | inr (t, c) ↦ rw (a, b, c) (inr (_, refl, refl))
            | inl (signed, c) ↦
                inl (signed, rw (a, b, c) refl, record { key = key; key_read = a; verified = c })
          ]
        ]
      ]

  -- For the tiers that need it, the DNS records of the sender's domain vouch for the key.
  abbrev pub IsDnsChecked : Envelope → KeyRegistryResponse → Option Bool → Type 0
  IsDnsChecked e registry dns_verified =
      ((needs_dns registry.reputation_tier ≡ true)
        × (verify_dns_public_key outside (extract_domain e.from_email) registry.public_key
            ≡ ok true)
        × (dns_verified ≡ some true))
      ⊎ ((needs_dns registry.reputation_tier ≡ false) × (dns_verified ≡ none))

  pub check_dns-Outcome :
      (e : Envelope) (registry : KeyRegistryResponse)
      → Outcome (check_dns outside e registry) (IsDnsChecked e registry)
  unfolding check_dns failure
  check_dns-Outcome e registry = elim (Bool-cases (needs_dns registry.reputation_tier)) [
    | inr t ↦ inl (none, rw t refl, inr (t, refl))
    | inl t ↦
        elim (Result-cases
          (verify_dns_public_key outside (extract_domain e.from_email) registry.public_key)) [
            | inr (fail, a) ↦ rw (t, a) (inr (_, refl, refl))
            | inl (false, a) ↦ rw (t, a) (inr (_, refl, refl))
            | inl (true, a) ↦ inl (some true, rw (t, a) refl, inl (t, a, refl))
          ]
  ]
