-- ===== src/Email/Validation.antt =====
-- rust/haiai/src/validation.rs, with the reserved markers of rust/haiai/src/email_inline.rs. Whether
-- the tokenizer of `html5ever` finds a start tag is the parameter `has_start_tag`.
pub mod Accepts
use haiai.Prelude.{
  ℕ, ◌*◌, Bool, true, false, ◌&&◌, ◌||◌, not, Option, none, some, List, [], ◌∷◌, ◌++◌, ltb, length,
  any, is_empty, if◌then◌else◌,
}
use haiai.Text.{
  Text, lit, len, trim, decimal, is_whitespace, is_control, contains_char, contains, rsplit_once,
}
use haiai.Error.{HaiError, validation, Result, ok, err, ◌>>=◌, ◌>>◌, ok_or, for_each}
use haiai.Email.{Base64, EmailAttachment, effective_data, SendEmailOptions}

abbrev pub max_attachment_size : ℕ
max_attachment_size = 10 * 1024 * 1024

abbrev pub max_attachment_count : ℕ
max_attachment_count = 5

-- An error if the test holds.
unfoldable pub reject_if : Bool → Text → Text → Result (Unit {0})
reject_if test field text = if test then err (validation field text) else ok tt

unfoldable pub validate_no_crlf : Text → Text → Result (Unit {0})
validate_no_crlf field_name value =
    reject_if (contains_char b'\r' value || contains_char b'\n' value) field_name
      (lit "Invalid characters in '" ++ (field_name ++ lit "': must not contain CR or LF"))

abbrev pub hai_reserved_inline_email_markers : List Text
hai_reserved_inline_email_markers =
    lit "data-hai-jacs-envelope"
    ∷ lit "data-hai-verify-link"
    ∷ lit "data-hai-logo-verify-link"
    ∷ lit "data-hai-verify-footer"
    ∷ lit "hai-jacs-logo@hai.ai"
    ∷ lit "<script type=\"application/jacs+json\""
    ∷ []

unfoldable pub validate_no_reserved_inline_email_markers : Text → Text → Result (Unit {0})
validate_no_reserved_inline_email_markers field_name value =
    reject_if (any (λ marker. contains marker value) hai_reserved_inline_email_markers) field_name
      (lit "reserved_marker_in_user_input")

unfoldable pub invalid_address : Text → Text → Text
invalid_address address why = lit "Invalid email address: '" ++ (address ++ (lit "' " ++ why))

-- The checks behind the split at the last `@`.
unfoldable pub validate_parts : Text → Text → Text × Text → Result (Unit {0})
unfolding invalid_address
validate_parts address trimmed (local, domain) =
    reject_if (is_empty local) (lit "to") (invalid_address address (lit "(empty local part)"))
    >> reject_if (ltb 64 (len local)) (lit "to")
        (invalid_address address (lit "(local part too long)"))
    >> reject_if (is_empty domain || not (contains_char b'.' domain)) (lit "to")
        (invalid_address address (lit "(invalid domain)"))
    >> reject_if (any (λ c. is_whitespace c || is_control c) trimmed) (lit "to")
        (invalid_address address (lit "(contains whitespace or control characters)"))

unfoldable pub validate_email_address : Text → Result (Unit {0})
unfolding validate_parts
validate_email_address address =
    let trimmed = trim address in
    reject_if (is_empty trimmed) (lit "to") (lit "Invalid email address: empty string")
    >> validate_no_crlf (lit "to") trimmed
    >> (ok_or (validation (lit "to") (invalid_address address (lit "(missing @)")))
          (rsplit_once b'@' trimmed)
        >>= validate_parts address trimmed)

unfoldable pub validate_filename : Text → Result (Unit {0})
validate_filename filename =
    reject_if
      (contains (lit "..") filename || contains_char b'/' filename || contains_char b'\\' filename)
      (lit "filename")
      (lit "Invalid filename '"
        ++ (filename ++ lit "': must not contain path traversal characters"))
    >> validate_no_crlf (lit "filename") filename
    >> validate_no_reserved_inline_email_markers (lit "filename") filename

module _ (base64 : Base64) (has_start_tag : Text → Bool) where
  unfoldable pub validate_attachment : EmailAttachment → Result (Unit {0})
  validate_attachment att =
      let size = length (effective_data base64 att) in
      reject_if (ltb max_attachment_size size) (lit "attachments") (
        lit "Attachment '"
        ++ (att.filename
            ++ (lit "' too large: "
                ++ (decimal size
                    ++ (lit " bytes (maximum "
                        ++ (decimal max_attachment_size ++ lit " bytes)"))))))
      >> validate_filename att.filename
      >> validate_no_crlf (lit "attachment_content_type") att.content_type
      >> validate_no_reserved_inline_email_markers (lit "attachment_content_type") att.content_type

  unfoldable pub validate_attachments : List EmailAttachment → Result (Unit {0})
  validate_attachments attachments =
      reject_if (ltb max_attachment_count (length attachments)) (lit "attachments") (
        lit "Too many attachments: "
        ++ (decimal (length attachments)
            ++ (lit " (maximum " ++ (decimal max_attachment_count ++ lit ")"))))
      >> for_each validate_attachment attachments

  unfoldable pub validate_text_body_has_no_html_tokens : Text → Text → Result (Unit {0})
  validate_text_body_has_no_html_tokens field_name value =
      reject_if (has_start_tag value) field_name (lit "html_in_text_body")

  -- A header value, a body, a reply-to or a label: no CR or LF, and no marker.
  unfoldable pub validate_header : Text → Text → Result (Unit {0})
  validate_header field_name value =
      validate_no_crlf field_name value
      >> validate_no_reserved_inline_email_markers field_name value

  unfoldable pub validate_reply_to : Option Text → Result (Unit {0})
  validate_reply_to none = ok tt
  validate_reply_to (some reply_to) = validate_header (lit "in_reply_to") reply_to

  unfoldable pub validate_send_email : SendEmailOptions → Result (Unit {0})
  validate_send_email options =
      validate_email_address options.to
      >> for_each validate_email_address options.cc
      >> for_each validate_email_address options.bcc
      >> validate_header (lit "subject") options.subject
      >> validate_no_reserved_inline_email_markers (lit "body") options.body
      >> validate_text_body_has_no_html_tokens (lit "body") options.body
      >> validate_reply_to options.in_reply_to
      >> for_each (validate_header (lit "label")) options.labels
      >> validate_attachments options.attachments
