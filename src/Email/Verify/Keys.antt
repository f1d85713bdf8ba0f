-- ===== src/Email/Verify/Keys.antt =====
-- The signer's key in rust/haiai/src/email.rs: the registry, the DNS records and the PEM block.
use haiai.Prelude.{
  ℕ, ◌-◌, Bool, false, ◌&&◌, not, Option, none, some, List, [], ◌∷◌, ◌++◌, ltb, leb, ◌==◌, length,
  drop, is_empty, if◌then◌else◌,
}
use haiai.Text.{
  Text, lit, text_eq, decimal, trim, trim_end_matches, trim_start_by, split, strip_prefix,
  starts_with, contains, split_once, rsplit_once, join, lines,
}
use haiai.Text.Utf8.{Bytes}
use haiai.Error.{provider, Result, ok, err, ◌>>=◌, Foreign, lift}
use haiai.Json.{Value, get, get_str, as_array, and_then, unwrap_or}

pub record KeyRegistryResponse : Type 0 where
  pub email : Text
  pub jacs_id : Text
  pub public_key : Text
  pub algorithm : Text
  pub reputation_tier : Text
  pub registered_at : Text
  pub agent_status : Option Text
  pub benchmarks_completed : Option (List Text)

pub data FieldStatus : Type 0 where
  pass modified fail unverifiable : FieldStatus

-- The hashes and values of a field are passed through.
pub record FieldResult : Type 0 where
  pub field : Text
  pub status : FieldStatus
  pub original_hash : Option Text
  pub current_hash : Option Text
  pub original_value : Option Text
  pub current_value : Option Text

pub record ChainEntry : Type 0 where
  pub signer : Text
  pub jacs_id : Text
  pub valid : Bool
  pub forwarded : Bool

-- What other crates and other machines do. `Trusted` and `Parts` are the verified document and the
-- parsed message of the `jacs` crate; a payload is read for its `From` header only.
pub record Outside : Type 1 where
  pub Trusted : Type 0
  pub Parts : Type 0
  pub from_slice : Bytes → Foreign Value
  pub from_utf8 : Bytes → Option Text
  pub decode : Text → Foreign Bytes
  pub percent_encode : Text → Text
  -- the status, and the body as JSON or the error of reading it
  pub http_get : Text → Foreign (ℕ × Foreign Value)
  pub registry_from : Value → Foreign KeyRegistryResponse
  pub payload_from : Value → Foreign Text
  pub get_jacs_attachment : Bytes → Foreign Bytes
  -- a temporary directory, its canonical path, and an agent of the `jacs` crate with its data, key and
  -- configuration paths, whose own keys take no part in the verification
  pub tempdir : Foreign Text
  pub canonicalize : Text → Foreign Text
  pub create_with_params : Text → Text → Text → Foreign (Unit {0})
  pub verify_email_document : Bytes → Bytes → Foreign (Trusted × Parts)
  pub verify_email_content : Trusted → Parts → List FieldResult × List ChainEntry
  pub jacs_attachments : Parts → List Bytes
  pub verify_with_key : Text → Bytes → Foreign Bool
  pub normalize_algorithm : Text → Text
  pub hash_public_key : Text → Text

-- `Name <user@domain>` or a bare address: what stands between the last `<` and the next `>`.
unfoldable pub bare_address : Text → Text
bare_address email = unwrap_or email (
    and_then (rsplit_once b'<' email)
      λ (before, after). and_then (split_once b'>' after) λ (inner, rest). some inner)

unfoldable pub extract_domain : Text → Text
unfolding bare_address
extract_domain email =
    let clean = bare_address email in
    unwrap_or clean (and_then (rsplit_once b'@' clean) λ (local, domain). some domain)

-- Whether a TXT record has a key hash, and if so, whether it is the expected one.
unfoldable pub parts_match : Text → List Text → Option Bool
parts_match expected_hash [] = none
parts_match expected_hash (part ∷ parts) =
    elim (strip_prefix (lit "jacs_public_key_hash=") (trim part)) [
      | some hash_value ↦ some (text_eq (trim hash_value) expected_hash)
      | none ↦ parts_match expected_hash parts
    ]

unfoldable pub dns_txt_record_matches_expected_hash : Text → Text → Option Bool
unfolding parts_match
dns_txt_record_matches_expected_hash record_text expected_hash =
    parts_match expected_hash (split b';' record_text)

-- The first record that has a hash decides.
unfoldable pub records_match : Text → List Text → Bool
unfolding dns_txt_record_matches_expected_hash
records_match expected_hash [] = false
records_match expected_hash (r ∷ records) =
    elim (dns_txt_record_matches_expected_hash r expected_hash) [
      | some matches ↦ matches
      | none ↦ records_match expected_hash records
    ]

abbrev is_success : ℕ → Bool
is_success status = leb 200 status && leb status 299

-- The data of the answers, without outer quotes.
unfoldable pub answer_texts : List Value → List Text
answer_texts [] = []
answer_texts (answer ∷ answers) =
    let rest = answer_texts answers in
    elim (get_str (lit "data") answer) [
      | none ↦ rest
      | some text ↦ trim_end_matches b'"' (trim_start_by (λ c. c == b'"') text) ∷ rest
    ]

unfoldable pub ed25519_oid : Bytes
ed25519_oid = 0x06 ∷ 0x03 ∷ 0x2b ∷ 0x65 ∷ 0x70 ∷ []

-- Lines that are not PEM markers.
unfoldable pub pem_lines : List Text → List Text
pem_lines [] = []
pem_lines (l ∷ ls) =
    let rest = pem_lines ls in if starts_with (lit "-----") l then rest else l ∷ rest

module _ (outside : Outside) where
  unfoldable pub algorithms_match : Text → Text → Bool
  algorithms_match a b = text_eq (outside.normalize_algorithm a) (outside.normalize_algorithm b)

  unfoldable pub create_verification_agent : Result (Unit {0})
  create_verification_agent =
      lift outside.tempdir
        (λ e. provider (lit "Failed to create temp directory for verification agent: " ++ e))
      >>= λ tmp.
          lift (outside.canonicalize tmp)
            (λ e. provider (lit "Failed to canonicalize verification agent temp directory: " ++ e))
          >>= λ tmp_path.
              lift
                (outside.create_with_params (tmp_path ++ lit "/jacs_data")
                  (tmp_path ++ lit "/jacs_keys") (tmp_path ++ lit "/jacs.config.json"))
                (λ e. provider (lit "Failed to create verification agent: " ++ e))

  unfoldable pub dns_txt_records_verify_public_key : List Text → Text → Bool
  unfolding records_match
  dns_txt_records_verify_public_key records public_key_pem =
      records_match (outside.hash_public_key public_key_pem) records

  unfoldable pub fetch_dns_txt_records : Text → Result (List Text)
  fetch_dns_txt_records name = do
    (status, body) ←
        lift
          (outside.http_get (
            lit "https://dns.google/resolve?name="
            ++ (outside.percent_encode name ++ lit "&type=TXT")))
          (λ e. provider (lit "DNS lookup failed: " ++ e))
    if not (is_success status)
        then err (provider (lit "DNS lookup returned HTTP " ++ decimal status))
        else (lift body (λ e. provider (lit "Failed to parse DNS response: " ++ e)) >>= λ value.
            ok (answer_texts (unwrap_or [] (and_then (get (lit "Answer") value) as_array))))

  unfoldable pub verify_dns_public_key : Text → Text → Result Bool
  verify_dns_public_key domain public_key_pem = do
    records ← fetch_dns_txt_records (lit "_v1.agent.jacs." ++ domain)
    ok (dns_txt_records_verify_public_key records public_key_pem)

  unfoldable pub fetch_public_key_from_registry : Text → Text → Result KeyRegistryResponse
  fetch_public_key_from_registry hai_url email = do
    (status, body) ←
        lift
          (outside.http_get (hai_url ++ (lit "/api/agents/keys/" ++ outside.percent_encode email)))
          (λ e. provider (lit "Failed to fetch public key: " ++ e))
    if not (is_success status)
        then err (provider (lit "Registry returned HTTP " ++ decimal status))
        else (lift body (λ e. provider (lit "Failed to parse registry response: " ++ e))
            >>= λ value.
                lift (outside.registry_from value)
                  (λ e. provider (lit "Failed to parse registry response: " ++ e))
                >>= λ registry.
                    if is_empty registry.public_key
                    then err (provider (lit "No public key found in registry"))
                    else ok registry)

  -- The DER bytes, or the last 32 of an Ed25519 key.
  unfoldable pub extract_public_key_bytes : Text → Result Bytes
  extract_public_key_bytes pem = do
    der_bytes ←
        lift (outside.decode (join [] (pem_lines (lines pem))))
          (λ e. provider (lit "Invalid PEM encoding: " ++ e))
    if ltb (length der_bytes) 12
        then err (provider (lit "Public key DER too short"))
        else if contains ed25519_oid der_bytes
        then (if ltb (length der_bytes) 32
            then err (provider (lit "Ed25519 DER too short for 32-byte key"))
            else ok (drop (length der_bytes - 32) der_bytes))
        else ok der_bytes
