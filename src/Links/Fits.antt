-- ===== src/Links/Fits.antt =====
-- Which documents have a verify link: `generate_verify_link` of rust/haiai/src/verify.rs.
use haiai.Prelude.{
  Bool, if◌then◌else◌, ◌+◌, ◌*◌, ◌/◌, ◌≤◌, ◌<◌, ◌≡◌, refl, ap, ◌∙◌, true, false, none, ltb, arith,
  ◌++◌,
}
use haiai.Text.{Text, lit, len, len_utf8, len-append, trim_end_matches, trim_end_by}
use haiai.Error.{verify_url_too_long, ok, err}
use haiai.Links.{generate_verify_link, default_base_url, max_verify_url_len}

default_base_url-trimmed : trim_end_matches b'/' default_base_url ≡ default_base_url
unfolding trim_end_matches trim_end_by lit
default_base_url-trimmed = refl

default_prefix-len : len (default_base_url ++ lit "/jacs/verify?s=") ≡ 29
unfolding len len_utf8 lit
default_prefix-len = refl

-- The link of a payload, with the default base URL.
abbrev default_link : Text → Text
default_link payload = trim_end_matches b'/' default_base_url ++ (lit "/jacs/verify?s=" ++ payload)

default_link-len : (payload : Text) → len (default_link payload) ≡ 29 + len payload
default_link-len payload =
    let base = default_base_url in
    let path = lit "/jacs/verify?s=" in
    ap (λ b. len (b ++ (path ++ payload))) default_base_url-trimmed
    ∙ len-append base (path ++ payload)
    ∙ ap (λ n. len base + n) (len-append path payload)
    ∙ omega (arith, len-append base path, default_prefix-len)

generate_verify_link-default :
    (encode : Text → Text) (document : Text) (over : Bool)
    → ltb max_verify_url_len (len (default_link (encode document))) ≡ over
    → generate_verify_link encode document none ≡ (
        if over
        then err (verify_url_too_long max_verify_url_len)
        else ok (default_link (encode document)))
unfolding generate_verify_link
generate_verify_link-default encode document over h = rw (generate_verify_link, h) refl

-- With the default base URL and an encoding of the length of unpadded base64, the link of a document
-- is made if the document has at most 1514 bytes, and is then at most 2048 bytes long; a longer one
-- is refused as too long.
pub generate_verify_link-fits :
    (encode_verify_payload : Text → Text) (document : Text)
    → len (encode_verify_payload document) ≡ (4 * len document + 2) / 3
    → ((len document ≤ 1514)
        → (url : Text) × (generate_verify_link encode_verify_payload document none ≡ ok url)
          × (len url ≤ max_verify_url_len))
      × ((1514 < len document)
          → generate_verify_link encode_verify_payload document none
            ≡ err (verify_url_too_long max_verify_url_len))
generate_verify_link-fits encode document h =
    let size = default_link-len (encode document) in
    (
      (λ fits. (
        default_link (encode document),
        generate_verify_link-default encode document false (ground (arith, size, h, fits)),
        ground (arith, size, h, fits),
      )),
      (λ over. generate_verify_link-default encode document true (ground (arith, size, h, over))),
    )
