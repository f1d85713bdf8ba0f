-- ===== src/Email/Inline.antt =====
-- rust/haiai/src/email_inline.rs: the hidden envelope, and the HTML and text bodies. SHA-256 in hex
-- and JSON are parameters; the embedding of a header in the logo is the `jacs` crate's.
pub mod Body
use haiai.Prelude.{ℕ, Bool, true, List, [], ◌∷◌, ◌++◌, leb, ◌*◌, if◌then◌else◌}
use haiai.Text.{Text, lit, len, replace_char}
use haiai.Text.Utf8.{Bytes, as_bytes}
use haiai.Error.{HaiError, json, validation, Result, ok, err, ◌>>=◌, Foreign, lift}
use haiai.Json.{Value, Fields, obj, str, field, end}

abbrev hidden_envelope_max_bytes : ℕ
hidden_envelope_max_bytes = 8 * 1024

pub record HtmlInlineJacsEnvelope : Type 0 where
  pub hidden_envelope : Text
  pub compact_header : Text
  pub hidden_envelope_size_bytes : ℕ

unfoldable pub validate_hidden_jacs_envelope_size : Text → Result ℕ
validate_hidden_jacs_envelope_size hidden_jacs_envelope =
    let size_bytes = len hidden_jacs_envelope in
    if leb hidden_envelope_max_bytes size_bytes
    then err (validation (lit "hidden_jacs_envelope") (lit "hidden_jacs_envelope_too_large"))
    else ok size_bytes

module _ (sha256_hex : Bytes → Text) (from_str : Text → Foreign Value)
    (to_string : Value → Foreign Text) where
  unfoldable pub build_hidden_jacs_envelope : Text → Result HtmlInlineJacsEnvelope
  build_hidden_jacs_envelope signed_jacs_envelope =
      let compact_header = lit "sha256:" ++ sha256_hex (as_bytes signed_jacs_envelope) in
      lift (from_str signed_jacs_envelope) json >>= λ jacs_envelope.
      lift
        (to_string (
          obj (
            field (lit "compactHeader") (str compact_header)
              (field (lit "jacsEnvelope") jacs_envelope end))))
        json
      >>= λ hidden_envelope. validate_hidden_jacs_envelope_size hidden_envelope >>= λ size_bytes.
          ok (record {
            hidden_envelope = hidden_envelope;
            compact_header = compact_header;
            hidden_envelope_size_bytes = size_bytes;
          })

unfoldable pub escape_html_text : Text → Text
escape_html_text value =
    replace_char b'>' (lit "&gt;")
      (replace_char b'<' (lit "&lt;") (replace_char b'&' (lit "&amp;") value))

unfoldable pub escape_html_attr : Text → Text
unfolding escape_html_text
escape_html_attr value =
    replace_char b'\'' (lit "&#39;") (replace_char b'"' (lit "&quot;") (escape_html_text value))

unfoldable pub html_body : Text → Text
html_body plain_text = replace_char b'\n' (lit "<br>") (escape_html_text plain_text)

unfoldable pub logo_html : Text → Bool → Text
logo_html escaped_verify_url wrap_logo_link =
    if wrap_logo_link
    then lit "<a data-hai-logo-verify-link=\"v1\" href=\""
      ++ (escaped_verify_url
          ++ lit "\"><img src=\"cid:hai-jacs-logo@hai.ai\" alt=\"HAI verification logo\"></a>")
    else lit "<img src=\"cid:hai-jacs-logo@hai.ai\" alt=\"HAI verification logo\">"

-- What stands behind the message in the document.
unfoldable pub after_message : Text → Text → Bool → Text
after_message escaped_verify_url hidden_jacs_envelope wrap_logo_link =
    logo_html escaped_verify_url wrap_logo_link
    ++ (lit "<script type=\"application/jacs+json\" data-hai-jacs-envelope=\"v1\">"
        ++ (hidden_jacs_envelope
            ++ (lit "</script>"
                ++ (lit
                      "<footer data-hai-verify-footer=\"v1\">This email is sent from an AI agent. Verify at "
                    ++ (lit "<a data-hai-verify-link=\"v1\" href=\""
                        ++ (escaped_verify_url
                            ++ (lit "\">"
                                ++ (escaped_verify_url
                                    ++ (lit "</a></footer>" ++ lit "</body></html>")))))))))

unfoldable pub render_html_inline_email_body_with_logo_link : Text → Text → Text → Bool → Text
unfolding after_message
render_html_inline_email_body_with_logo_link plain_text verify_url hidden_jacs_envelope
      wrap_logo_link =
    lit "<html data-hai-template-version=\"v1\"><body>"
    ++ (lit "<main data-hai-message-body=\"v1\">"
        ++ (html_body plain_text
            ++ (lit "</main>"
                ++ after_message (escape_html_attr verify_url) hidden_jacs_envelope
                    wrap_logo_link)))

unfoldable pub render_html_inline_email_body : Text → Text → Text → Text
render_html_inline_email_body plain_text verify_url hidden_jacs_envelope =
    render_html_inline_email_body_with_logo_link plain_text verify_url hidden_jacs_envelope true

-- The footer template has the link once, at its end.
unfoldable pub render_text_inline_email_body : Text → Text → Text
render_text_inline_email_body plain_text verify_url =
    plain_text
    ++ (lit "\n\n" ++ (lit "This email is sent from an AI agent. Verify at " ++ verify_url))
