-- ===== src/Email/Verify/Sound.antt =====
-- What is true of an email that `verify_email` calls valid.
use haiai.Prelude.{◌≡◌, refl, sym, subst, inl, inr, Bool, true, false, Option, none, any, arith}
use haiai.Text.{Text, trim_end_matches}
use haiai.Text.Utf8.{Bytes}
use haiai.Error.{ok, Result-cases}
use haiai.Email.Verify.{
  VerificationResult, failure, result_of, Step, Envelope, compare_content, verify_steps,
  verify_email,
}
use haiai.Email.Verify.Keys.{Outside, KeyRegistryResponse, fetch_public_key_from_registry}
use haiai.Email.Verify.Parents.{IsTrustedChain, verify_parent_chain_entries-IsTrustedChain}
use haiai.Email.Verify.Chain.{failed}
use haiai.Email.Verify.Steps.{
  Outcome, IsEnvelope, IsBound, IsActive, IsSigned, IsDnsChecked, read_envelope-Outcome,
  bind_identity-Outcome, check_status-Outcome, check_signature-Outcome, check_dns-Outcome,
}

module _ (outside : Outside) where
  open outside use {Trusted, Parts}

  -- What was checked of an email that is called valid.
  pub record IsVerified (raw_email : Bytes) (hai_url : Text) (result : VerificationResult)
      : Type 0 where
    pub envelope : Envelope
    pub registry : KeyRegistryResponse
    pub trusted : Trusted
    pub parts : Parts
    pub read : IsEnvelope outside raw_email envelope
    pub looked_up : fetch_public_key_from_registry outside hai_url envelope.from_email ≡ ok registry
    pub bound : IsBound outside envelope registry
    pub active : IsActive outside registry
    pub signed : IsSigned outside raw_email registry (trusted, parts)
    pub dns_checked : IsDnsChecked outside envelope registry result.dns_verified
    pub compared : (outside.verify_email_content trusted parts).0 ≡ result.field_results
    pub intact : any failed result.field_results ≡ false
    pub forwarded :
        IsTrustedChain outside hai_url
          (outside.jacs_attachments parts)
          (outside.verify_email_content trusted parts).1
    pub names_signer : result.jacs_id ≡ registry.jacs_id
    pub no_error : result.error ≡ none

  -- The checks in front of the comparison of the content.
  record IsAccepted (raw_email : Bytes) (hai_url : Text) (result : VerificationResult)
      : Type 0 where
    envelope : Envelope
    registry : KeyRegistryResponse
    trusted : Trusted
    parts : Parts
    dns_verified : Option Bool
    read : IsEnvelope outside raw_email envelope
    looked_up : fetch_public_key_from_registry outside hai_url envelope.from_email ≡ ok registry
    bound : IsBound outside envelope registry
    active : IsActive outside registry
    signed : IsSigned outside raw_email registry (trusted, parts)
    dns_checked : IsDnsChecked outside envelope registry dns_verified
    result_is :
        compare_content outside hai_url envelope registry dns_verified trusted parts ≡ result

  verify_steps-Outcome :
      (raw_email : Bytes) (hai_url : Text)
      → Outcome (verify_steps outside raw_email hai_url) (IsAccepted raw_email hai_url)
  unfolding verify_steps failure
  verify_steps-Outcome raw_email hai_url = elim (read_envelope-Outcome outside raw_email) [
    | inr (r, a, bad) ↦ inr (r, rw a refl, bad)
    | inl (e, a, read) ↦
        elim (Result-cases (fetch_public_key_from_registry outside hai_url e.from_email)) [
          | inr (fail, b) ↦ rw (a, b) (inr (_, refl, refl))
          | inl (registry, b) ↦ elim (bind_identity-Outcome outside e registry) [
            | inr (r, c, bad) ↦ inr (r, rw (a, b, c) refl, bad)
            | inl (passed, c, bound) ↦ elim (check_status-Outcome outside e registry) [
              | inr (r, d, bad) ↦ inr (r, rw (a, b, c, d) refl, bad)
              | inl (allowed, d, active) ↦
                  elim (check_signature-Outcome outside raw_email e registry) [
                    | inr (r, f, bad) ↦ inr (r, rw (a, b, c, d, f) refl, bad)
                    | inl ((trusted, parts), f, signed) ↦
                        elim (check_dns-Outcome outside e registry) [
                          | inr (r, g, bad) ↦ inr (r, rw (a, b, c, d, f, g) refl, bad)
                          | inl (dns_verified, g, dns_checked) ↦ inl (
                            compare_content outside hai_url e registry dns_verified trusted parts,
                            rw (a, b, c, d, f, g) refl,
                            record {
                              envelope = e;
                              registry = registry;
                              trusted = trusted;
                              parts = parts;
                              dns_verified = dns_verified;
                              read = read;
                              looked_up = b;
                              bound = bound;
                              active = active;
                              signed = signed;
                              dns_checked = dns_checked;
                              result_is = refl;
                            },
                          )
                        ]
                  ]
            ]
          ]
        ]
  ]

  IsAccepted-IsVerified :
      (raw_email : Bytes) (hai_url : Text) (r : VerificationResult)
      → IsAccepted raw_email hai_url r
      → r.valid ≡ true
      → IsVerified raw_email hai_url r
  unfolding compare_content
  IsAccepted-IsVerified raw_email hai_url r a h =
      subst (λ q. q.valid ≡ true → IsVerified raw_email hai_url q) a.result_is
        (λ valid.
          let entries = (outside.verify_email_content a.trusted a.parts).1 in
          record {
            envelope = a.envelope;
            registry = a.registry;
            trusted = a.trusted;
            parts = a.parts;
            read = a.read;
            looked_up = a.looked_up;
            bound = a.bound;
            active = a.active;
            signed = a.signed;
            dns_checked = a.dns_checked;
            compared = refl;
            intact = ground (arith, valid);
            forwarded =
                verify_parent_chain_entries-IsTrustedChain outside hai_url
                  (outside.jacs_attachments a.parts) entries (ground (arith, valid));
            names_signer = a.bound.same_id;
            no_error = refl;
          })
        h

  result_of-IsVerified :
      (raw_email : Bytes) (hai_url : Text) (m : Step VerificationResult)
      → Outcome m (IsAccepted raw_email hai_url)
      → (result_of m).valid ≡ true
      → IsVerified raw_email hai_url (result_of m)
  result_of-IsVerified raw_email hai_url m (inl (r, a, accepted)) =
      subst (λ q. (result_of q).valid ≡ true → IsVerified raw_email hai_url (result_of q)) (sym a)
        (IsAccepted-IsVerified raw_email hai_url r accepted)
  result_of-IsVerified raw_email hai_url m (inr (r, a, bad)) = λ h. ground (arith, a, bad, h)

  -- An email that is called valid has an attached envelope whose agent, address and algorithm are
  -- those that the registry has for the address; the registry does not call the agent anything but
  -- active; the signature was verified with the key of the registry, and for the tiers that need it
  -- the DNS records of the sender's domain have the hash of that key; no field of the message failed;
  -- and each entry of the forwarding chain behind the signer is one that jacs calls valid or whose
  -- signer an attached envelope verifies with that signer's registered key.
  pub verify_email-IsVerified :
      (raw_email : Bytes) (hai_url : Text)
      → (verify_email outside raw_email hai_url).valid ≡ true
      → IsVerified raw_email
          (trim_end_matches b'/' hai_url)
          (verify_email outside raw_email hai_url)
  unfolding verify_email
  verify_email-IsVerified raw_email hai_url =
      let url = trim_end_matches b'/' hai_url in
      result_of-IsVerified raw_email url (verify_steps outside raw_email url)
        (verify_steps-Outcome raw_email url)
