-- ===== src/Tests/Email.antt =====
-- Validation and MIME construction of an email.
use haiai.Prelude.{◌≡◌, refl, false, none, some, [], ◌∷◌, ◌++◌, map}
use haiai.Text.{
  lit, len, trim, contains, contains_char, starts_with, strip_prefix, rsplit_once, split_once,
  is_whitespace, is_control, Lacks,
}
use haiai.Text.Utf8.{Bytes, as_bytes}
use haiai.Error.{ok, done}
use haiai.Email.{Base64, EmailAttachment, SendEmailOptions, effective_data}
use haiai.Email.Validation.{
  validate_send_email, validate_email_address, validate_parts, validate_no_crlf, reject_if,
  validate_no_reserved_inline_email_markers, validate_header, validate_reply_to,
  validate_attachments, validate_attachment, validate_filename,
  validate_text_body_has_no_html_tokens,
}
use haiai.Email.Validation.Accepts.{IsSendable, validate_send_email-IsSendable}
use haiai.Email.Mime.{
  build_rfc5322_email, Rfc5322HeaderValues, build_html_inline_rfc5322_email_with_headers,
  sanitize_header,
}
use haiai.Email.Mime.Reader.{headers_read, header_bytes}
use haiai.Email.Mime.Expected.{headers_for, plain_content, multipart_content}
use haiai.Email.Mime.Headers.{
  build_rfc5322_email-headers, build_html_inline_rfc5322_email_with_headers-headers,
}

abbrev plain : Base64
plain = record { encode = λ bytes. bytes; decode = λ text. some text }

abbrev image : EmailAttachment
image = record {
  filename = lit "a.png";
  content_type = lit "image/png";
  content = lit "xyz";
  data_base64 = none;
}

abbrev letter : SendEmailOptions
letter = record {
  to = lit "a@hai.ai";
  subject = lit "s";
  body = lit "b";
  cc = lit "c@hai.ai" ∷ [];
  bcc = [];
  in_reply_to = some (lit "r");
  attachments = image ∷ [];
  labels = lit "l" ∷ [];
}

-- A subject that tries to add a header, and no attachment.
abbrev injection : SendEmailOptions
injection = record letter {
  subject = lit "s" ++ (b'\r' ∷ b'\n' ∷ lit "Bcc: x@y.z");
  attachments = [];
}

dropped_breaks : sanitize_header (lit "s" ++ (b'\r' ∷ b'\n' ∷ lit "Bcc: x")) ≡ lit "sBcc: x"
unfolding sanitize_header lit
dropped_breaks = refl

letter_accepted : validate_send_email plain (λ t. false) letter ≡ ok tt
unfolding validate_send_email validate_email_address validate_parts validate_no_crlf reject_if
    validate_no_reserved_inline_email_markers validate_header validate_reply_to validate_attachments
    validate_attachment validate_filename validate_text_body_has_no_html_tokens effective_data
    contains contains_char starts_with strip_prefix rsplit_once trim is_whitespace is_control len
    lit
letter_accepted = refl

validate_send_email-IsSendable_example : IsSendable plain (λ t. false) letter
validate_send_email-IsSendable_example =
    validate_send_email-IsSendable plain (λ t. false) letter letter_accepted

-- The reader at a message with both line endings, and a body that looks like a header.
read_small :
    headers_read (as_bytes (lit "A: b\r\nC:d\n\nE: f"))
    ≡ map header_bytes ((lit "A", lit "b") ∷ (lit "C", lit "d") ∷ [])
unfolding lit as_bytes headers_read split_once
read_small = refl

abbrev values : Rfc5322HeaderValues
values = record { date = lit "d"; message_id = lit "<m>" }

no_breaks : Lacks b'\n' (lit "d") × Lacks b'\n' (lit "<m>")
unfolding lit
no_breaks = ((refl, tt), (refl, (refl, (refl, tt))))

build_rfc5322_email-headers_example :
    (email : Bytes) × (build_rfc5322_email plain
        (done (lit "d"))
        (lit "<m>")
        (lit "d")
        injection
        (lit "me")
      ≡ ok email)
    × (headers_read email
        ≡ map header_bytes (
            headers_for injection
              (lit "me")
              (lit "d")
              (lit "<" ++ (lit "<m>" ++ lit "@hai.ai>"))
              plain_content))
build_rfc5322_email-headers_example =
    build_rfc5322_email-headers plain (lit "d") (lit "<m>") (lit "d") injection (lit "me")
      no_breaks.0 no_breaks.1 no_breaks.0

build_html_inline_rfc5322_email_with_headers-headers_example :
    (email : Bytes) × (build_html_inline_rfc5322_email_with_headers plain
        (lit "d")
        (lit "d")
        (lit "d")
        letter
        (lit "me")
        (lit "<b>")
        none
        values
      ≡ ok email)
    × (headers_read email
        ≡ map header_bytes (
            headers_for letter
              (lit "me")
              (lit "d")
              (lit "<m>")
              (multipart_content (lit "mixed") (lit "hai-mixed-" ++ lit "d"))))
build_html_inline_rfc5322_email_with_headers-headers_example =
    build_html_inline_rfc5322_email_with_headers-headers plain (lit "d") (lit "d") (lit "d") letter
      (lit "me") (lit "<b>") none values no_breaks.0 no_breaks.1 no_breaks.0 no_breaks.0
