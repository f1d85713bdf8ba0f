-- ===== src/Email/Mime.antt =====
-- rust/haiai/src/mime.rs. The date and the identifiers that the source draws (`time`, `uuid`) are
-- arguments; base64 is a parameter.
pub mod Reader
pub mod Expected
pub mod Groups
pub mod Headers
use haiai.Prelude.{
  ℕ, zero, suc, Bool, true, false, ◌||◌, Option, none, some, List, [], ◌∷◌, ◌++◌, map, ◌==◌, take,
  drop, length, is_empty, if◌then◌else◌,
}
use haiai.Text.{Text, lit, join}
use haiai.Text.Utf8.{Bytes, as_bytes, from_utf8}
use haiai.Error.{HaiError, message, Result, ok, err, Foreign, lift, ◌>>=◌}
use haiai.Json.{unwrap_or}
use haiai.Email.{Base64, EmailAttachment, effective_data, SendEmailOptions}

unfoldable pub sanitize_header : Text → Text
sanitize_header [] = []
sanitize_header (c ∷ value) =
    let rest = sanitize_header value in
    if c == b'\r' || c == b'\n' || c == b'"' then rest else c ∷ rest

-- The text that is pushed for a line.
unfoldable pub line : Text → Text
line s = s ++ (b'\r' ∷ b'\n' ∷ [])

unfoldable pub concat : List Text → Text
concat [] = []
concat (t ∷ ts) = t ++ concat ts

unfoldable pub recipients_header : Text → List Text → Text
recipients_header name addresses =
    if is_empty addresses
    then []
    else line (name ++ join (lit ", ") (map sanitize_header addresses))

unfoldable pub reply_headers : Option Text → Text
reply_headers none = []
reply_headers (some reply_to) =
    line (lit "In-Reply-To: " ++ sanitize_header reply_to)
    ++ line (lit "References: " ++ sanitize_header reply_to)

pub record Rfc5322HeaderValues : Type 0 where
  pub date : Text
  pub message_id : Text

unfoldable pub generate_rfc5322_header_values : Foreign Text → Text → Result Rfc5322HeaderValues
generate_rfc5322_header_values date uuid =
    lift date (λ e. message (lit "failed to format date: " ++ e)) >>= λ date_str.
    ok (record { date = date_str; message_id = lit "<" ++ (uuid ++ lit "@hai.ai>") })

-- The headers down to `MIME-Version`.
unfoldable pub leading_headers : SendEmailOptions → Text → Rfc5322HeaderValues → List Text
leading_headers opts from_email headers =
    line (lit "From: <" ++ (sanitize_header from_email ++ lit ">"))
    ∷ line (lit "To: " ++ sanitize_header opts.to)
    ∷ recipients_header (lit "Cc: ") opts.cc
    ∷ recipients_header (lit "Bcc: ") opts.bcc
    ∷ line (lit "Subject: " ++ sanitize_header opts.subject)
    ∷ line (lit "Date: " ++ headers.date)
    ∷ line (lit "Message-ID: " ++ headers.message_id)
    ∷ reply_headers opts.in_reply_to
    ∷ line (lit "MIME-Version: 1.0")
    ∷ []

unfoldable pub push_standard_headers : SendEmailOptions → Text → Text → Rfc5322HeaderValues → Text
push_standard_headers opts from_email content_type_header headers =
    concat (leading_headers opts from_email headers) ++ (content_type_header ++ line [])

-- `chunks(n)`, on fuel that the length exceeds by none
unfoldable pub chunks : ℕ → ℕ → Bytes → List Bytes
chunks zero n bytes = []
chunks (suc fuel) n [] = []
chunks (suc fuel) n (b ∷ bytes) = take n (b ∷ bytes) ∷ chunks fuel n (drop n (b ∷ bytes))

-- A part's content type, transfer encoding, and the empty line.
unfoldable pub part_headers : Text → Text
part_headers content_type =
    line (lit "Content-Type: " ++ (content_type ++ lit "; charset=utf-8"))
    ++ (line (lit "Content-Transfer-Encoding: 8bit") ++ line [])

unfoldable pub boundary_type : Text → Text → Text
boundary_type kind boundary =
    lit "Content-Type: multipart/" ++ (kind ++ (lit "; boundary=\"" ++ (boundary ++ lit "\"")))

unfoldable pub opening : Text → Text
opening boundary = line (lit "--" ++ boundary)

unfoldable pub closing : Text → Text
closing boundary = line (lit "--" ++ (boundary ++ lit "--"))

module _ (base64 : Base64) where
  unfoldable pub push_base64_body : Bytes → Text
  push_base64_body bytes =
      let b64 = as_bytes (base64.encode bytes) in
      concat (map (λ chunk. line (unwrap_or [] (from_utf8 chunk))) (chunks (length b64) 76 b64))

  unfoldable pub push_attachment_part : Text → EmailAttachment → Text
  push_attachment_part boundary att =
      let safe_filename = sanitize_header att.filename in
      concat (
        opening boundary
        ∷ line (
            lit "Content-Type: "
            ++ (sanitize_header att.content_type
                ++ (lit "; name=\"" ++ (safe_filename ++ lit "\""))))
        ∷ line (lit "Content-Disposition: attachment; filename=\"" ++ (safe_filename ++ lit "\""))
        ∷ line (lit "Content-Transfer-Encoding: base64")
        ∷ line []
        ∷ push_base64_body (effective_data base64 att)
        ∷ [])

  -- The message, with both identifiers drawn: for the message, and for the boundary.
  unfoldable pub build_rfc5322_email :
      Foreign Text → Text → Text → SendEmailOptions → Text → Result Bytes
  build_rfc5322_email date message_uuid boundary_uuid opts from_email =
      generate_rfc5322_header_values date message_uuid >>= λ headers.
      let boundary = lit "hai-boundary-" ++ boundary_uuid in
      ok (
        as_bytes (
          if is_empty opts.attachments
          then concat (leading_headers opts from_email headers)
            ++ (part_headers (lit "text/plain") ++ line opts.body)
          else concat (leading_headers opts from_email headers)
            ++ (line (boundary_type (lit "mixed") boundary)
                ++ (line []
                    ++ (opening boundary
                        ++ (part_headers (lit "text/plain")
                            ++ (line opts.body
                                ++ (concat (map (push_attachment_part boundary) opts.attachments)
                                    ++ closing boundary))))))))

  -- The logo, `HAI_JACS_LOGO_FILENAME` and the other constants written out.
  unfoldable pub push_logo_part : Text → Bytes → Text
  push_logo_part boundary logo_png = concat (
      opening boundary
      ∷ line (lit "Content-Type: image/png; name=\"hai-jacs-logo.png\"")
      ∷ line (lit "Content-ID: <hai-jacs-logo@hai.ai>")
      ∷ line (lit "Content-Disposition: inline; filename=\"hai-jacs-logo.png\"")
      ∷ line (lit "Content-Transfer-Encoding: base64")
      ∷ line []
      ∷ push_base64_body logo_png
      ∷ closing boundary
      ∷ [])

  unfoldable pub html_alternative : Text → Option Bytes → Text → Text → Text
  html_alternative html_body none boundary related_uuid =
      opening boundary ++ (part_headers (lit "text/html") ++ line html_body)
  html_alternative html_body (some logo_png) boundary related_uuid =
      let related_boundary = lit "hai-related-" ++ related_uuid in
      concat (
        opening boundary
        ∷ line (boundary_type (lit "related") related_boundary ++ lit "; type=\"text/html\"")
        ∷ line []
        ∷ opening related_boundary
        ∷ part_headers (lit "text/html")
        ∷ line html_body
        ∷ push_logo_part related_boundary logo_png
        ∷ [])

  unfoldable pub push_html_inline_alternative_body :
      SendEmailOptions → Text → Option Bytes → Text → Text → Text
  push_html_inline_alternative_body opts html_body signed_logo_png boundary related_uuid =
      opening boundary
      ++ (part_headers (lit "text/plain")
          ++ (line opts.body
              ++ (html_alternative html_body signed_logo_png boundary related_uuid
                  ++ closing boundary)))

  -- The three identifiers are those of the alternative, mixed and related boundaries.
  unfoldable pub build_html_inline_rfc5322_email_with_headers :
      Text
      → Text
      → Text
      → SendEmailOptions
      → Text
      → Text
      → Option Bytes
      → Rfc5322HeaderValues
      → Result Bytes
  build_html_inline_rfc5322_email_with_headers alternative_uuid mixed_uuid related_uuid opts
        from_email html_body signed_logo_png headers =
      let alternative_boundary = lit "hai-alt-" ++ alternative_uuid in
      let mixed_boundary = lit "hai-mixed-" ++ mixed_uuid in
      let alternative_type = line (boundary_type (lit "alternative") alternative_boundary) in
      let body =
        push_html_inline_alternative_body opts html_body signed_logo_png alternative_boundary
          related_uuid in
      ok (
        as_bytes (
          if is_empty opts.attachments
          then push_standard_headers opts from_email alternative_type headers ++ body
          else push_standard_headers opts from_email
              (line (boundary_type (lit "mixed") mixed_boundary)) headers
            ++ (opening mixed_boundary
                ++ (alternative_type
                    ++ (line []
                        ++ (body
                            ++ (concat (map (push_attachment_part mixed_boundary) opts.attachments)
                                ++ closing mixed_boundary)))))))

  unfoldable pub build_html_inline_rfc5322_email :
      Foreign Text
      → Text
      → Text
      → Text
      → Text
      → SendEmailOptions
      → Text
      → Text
      → Option Bytes
      → Result Bytes
  build_html_inline_rfc5322_email date message_uuid alternative_uuid mixed_uuid related_uuid opts
        from_email html_body signed_logo_png =
      generate_rfc5322_header_values date message_uuid >>= λ headers.
      build_html_inline_rfc5322_email_with_headers alternative_uuid mixed_uuid related_uuid opts
        from_email html_body signed_logo_png headers
