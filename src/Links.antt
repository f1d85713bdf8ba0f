-- ===== src/Links.antt =====
-- rust/haiai/src/verify.rs and rust/haiai/src/key_format.rs: verify links and PEM text. The encoding
-- of a payload and the identifier of a document are the `jacs` crate's, base64 the `base64` crate's.
pub mod Fits
pub mod Pem
use haiai.Prelude.{
  ℕ, zero, suc, Bool, true, false, Option, none, some, List, [], ◌∷◌, ◌++◌, ltb, take, drop, length,
  ◌==◌, ◌&&◌, if◌then◌else◌,
}
use haiai.Text.{Text, lit, len, trim, trim_end_matches, contains, replace_char}
use haiai.Text.Utf8.{Bytes}
use haiai.Error.{
  HaiError, verify_url_too_long, missing_hosted_document_id, Result, ok, err, ◌>>=◌, map_err,
}
use haiai.Json.{unwrap_or}

abbrev pub default_base_url : Text
default_base_url = lit "https://hai.ai"

abbrev pub max_verify_url_len : ℕ
max_verify_url_len = 2048

abbrev pub max_verify_document_bytes : ℕ
max_verify_document_bytes = 1515

unfoldable pub generate_verify_link : (Text → Text) → Text → Option Text → Result Text
generate_verify_link encode_verify_payload document base_url =
    let base = trim_end_matches b'/' (unwrap_or default_base_url base_url) in
    let full_url = base ++ (lit "/jacs/verify?s=" ++ encode_verify_payload document) in
    if ltb max_verify_url_len (len full_url)
    then err (verify_url_too_long max_verify_url_len)
    else ok full_url

unfoldable pub generate_verify_link_hosted : (Text → Result Text) → Text → Option Text → Result Text
generate_verify_link_hosted extract_document_id document base_url =
    let base = trim_end_matches b'/' (unwrap_or default_base_url base_url) in
    map_err (λ e. missing_hosted_document_id) (extract_document_id document) >>= λ doc_id.
    ok (base ++ (lit "/verify/" ++ doc_id))

-- `chunks(64)`, each on a line of its own; the fuel is the length of the text.
unfoldable pub chunk_lines : ℕ → Text → Text
chunk_lines fuel [] = []
chunk_lines zero (c ∷ s) = []
chunk_lines (suc fuel) (c ∷ s) = take 64 (c ∷ s) ++ (b'\n' ∷ chunk_lines fuel (drop 64 (c ∷ s)))

unfoldable pub armor_key_data : (Bytes → Text) → Bytes → Text → Text
armor_key_data encode raw block_type =
    let encoded = encode raw in
    lit "-----BEGIN "
    ++ (block_type
        ++ (lit "-----\n"
            ++ (chunk_lines (length encoded) encoded
                ++ (lit "-----END " ++ (block_type ++ lit "-----\n")))))

-- `replace("\r\n", "\n")`
unfoldable pub replace_crlf : Text → Text
replace_crlf [] = []
replace_crlf (c ∷ []) = c ∷ []
replace_crlf (c ∷ (d ∷ s)) =
    let rest = replace_crlf s in
    let kept = replace_crlf (d ∷ s) in if c == b'\r' && d == b'\n' then b'\n' ∷ rest else c ∷ kept

unfoldable pub ends_with_newline : Text → Bool
ends_with_newline [] = false
ends_with_newline (c ∷ []) = c == b'\n'
ends_with_newline (c ∷ (d ∷ s)) = ends_with_newline (d ∷ s)

-- The text of a key that is PEM, with one kind of line break and one at its end.
unfoldable pub normal_pem : Text → Text
normal_pem trimmed =
    let normalized = replace_char b'\r' (b'\n' ∷ []) (replace_crlf trimmed) in
    if ends_with_newline normalized then normalized else normalized ++ (b'\n' ∷ [])

unfoldable pub normalize_public_key_pem : (Bytes → Option Text) → (Bytes → Text) → Bytes → Text
normalize_public_key_pem from_utf8 encode raw = elim (from_utf8 raw) [
  | none ↦ armor_key_data encode raw (lit "PUBLIC KEY")
  | some text ↦
      let trimmed = trim text in
      if contains (lit "BEGIN PUBLIC KEY") trimmed
      then normal_pem trimmed
      else armor_key_data encode raw (lit "PUBLIC KEY")
]
