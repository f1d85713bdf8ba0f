-- ===== src/Email/Mime/Headers.antt =====
-- The header block of a message has the headers that the options call for.
use haiai.Prelude.{
  Bool-cases, inl, inr, ◌≡◌, refl, ap, ◌∙◌, Option, [], ◌++◌, append_assoc, map, is_empty,
  if◌then◌else◌, All-append,
}
use haiai.Text.{Text, lit, Lacks, contains_char, contains_char-Lacks}
use haiai.Text.Utf8.{Bytes, as_bytes}
use haiai.Error.{ok, done}
use haiai.Email.{Base64, SendEmailOptions}
use haiai.Email.Mime.{
  line, concat, Rfc5322HeaderValues, generate_rfc5322_header_values, leading_headers,
  push_standard_headers, part_headers, boundary_type, build_rfc5322_email,
  build_html_inline_rfc5322_email_with_headers,
}
use haiai.Email.Mime.Reader.{headers_read, header_bytes, headers_read-block}
use haiai.Email.Mime.Expected.{headers_for, plain_content, multipart_content}
use haiai.Email.Mime.Groups.{IsLine, expected, block-Reads, boundary-Reads, plain-Reads}

plain-headers :
    (opts : SendEmailOptions) (from_email : Text) (headers : Rfc5322HeaderValues)
    → IsLine headers
    → headers_read (
        as_bytes (
          concat (leading_headers opts from_email headers)
          ++ (part_headers (lit "text/plain") ++ line opts.body)))
      ≡ map header_bytes (expected opts from_email headers plain_content)
unfolding part_headers
plain-headers opts from_email headers h =
    ap (λ t. headers_read (as_bytes t)) (simp append_assoc)
    ∙ headers_read-block _ (line opts.body) (expected opts from_email headers plain_content)
        (block-Reads opts from_email headers _ plain_content h plain-Reads)

mixed-headers :
    (opts : SendEmailOptions) (from_email : Text) (headers : Rfc5322HeaderValues)
    (kind boundary content : Text)
    → IsLine headers
    → Lacks b'\n' kind
    → Lacks b'\n' boundary
    → headers_read (
        as_bytes (
          concat (leading_headers opts from_email headers)
          ++ (line (boundary_type kind boundary) ++ (line [] ++ content))))
      ≡ map header_bytes (expected opts from_email headers (multipart_content kind boundary))
mixed-headers opts from_email headers kind boundary content h k l =
    let parts = multipart_content kind boundary in
    ap (λ t. headers_read (as_bytes t)) (simp append_assoc)
    ∙ headers_read-block _ content (expected opts from_email headers parts)
        (block-Reads opts from_email headers _ parts h (boundary-Reads kind boundary k l))

standard-headers :
    (opts : SendEmailOptions) (from_email : Text) (headers : Rfc5322HeaderValues)
    (kind boundary content : Text)
    → IsLine headers
    → Lacks b'\n' kind
    → Lacks b'\n' boundary
    → headers_read (
        as_bytes (
          push_standard_headers opts from_email (line (boundary_type kind boundary)) headers
          ++ content))
      ≡ map header_bytes (expected opts from_email headers (multipart_content kind boundary))
unfolding push_standard_headers
standard-headers opts from_email headers kind boundary content h k l =
    ap (λ t. headers_read (as_bytes t)) (simp append_assoc)
    ∙ mixed-headers opts from_email headers kind boundary content h k l

module _ (base64 : Base64) where
  -- If the date and the identifiers hold no LF, a message is built, and a reader that ends a line at
  -- every LF finds in its header block the headers that the options call for, each with its name and
  -- its value, in their order, and no others. The value of a text of the caller is that text without
  -- CR, LF and double quotes: no such text adds, drops, changes or ends another header.
  pub build_rfc5322_email-headers :
      (date message_uuid boundary_uuid : Text) (opts : SendEmailOptions) (from_email : Text)
      → Lacks b'\n' date
      → Lacks b'\n' message_uuid
      → Lacks b'\n' boundary_uuid
      → let content =
          if is_empty opts.attachments
          then plain_content
          else multipart_content (lit "mixed") (lit "hai-boundary-" ++ boundary_uuid) in
        let message_id = lit "<" ++ (message_uuid ++ lit "@hai.ai>") in
        (email : Bytes) × (build_rfc5322_email base64
            (done date)
            message_uuid
            boundary_uuid
            opts
            from_email
          ≡ ok email)
        × (headers_read email
            ≡ map header_bytes (headers_for opts from_email date message_id content))
  unfolding contains_char build_rfc5322_email generate_rfc5322_header_values lit
  build_rfc5322_email-headers date message_uuid boundary_uuid opts from_email d m b =
      let headers : Rfc5322HeaderValues = record {
        date = date;
        message_id = lit "<" ++ (message_uuid ++ lit "@hai.ai>");
      } in
      let is_line : IsLine headers = (
        d,
        (refl, All-append _ message_uuid _ m (contains_char-Lacks b'\n' (lit "@hai.ai>") refl)),
      ) in
      let boundary = lit "hai-boundary-" ++ boundary_uuid in
      (
        _,
        refl,
        elim (Bool-cases (is_empty opts.attachments)) [
          | inl e ↦ rw e (plain-headers opts from_email headers is_line)
          | inr e ↦ rw e (
              mixed-headers opts from_email headers (lit "mixed") boundary _ is_line
                (refl, (refl, (refl, (refl, (refl, tt)))))
                (All-append _ (lit "hai-boundary-") boundary_uuid
                  (contains_char-Lacks b'\n' (lit "hai-boundary-") refl) b))
        ],
      )

  -- If the date, the message identifier and the boundary identifiers hold no LF, a message with an
  -- HTML part is built, and a reader that ends a line at every LF finds in its header block the headers
  -- that the options call for in a multipart message, each with its name and its value, in their
  -- order, and no others. The value of a text of the caller is that text without CR, LF and double
  -- quotes.
  pub build_html_inline_rfc5322_email_with_headers-headers :
      (alternative_uuid mixed_uuid related_uuid : Text) (opts : SendEmailOptions)
      (from_email html_body : Text) (signed_logo_png : Option Bytes) (headers : Rfc5322HeaderValues)
      → Lacks b'\n' headers.date
      → Lacks b'\n' headers.message_id
      → Lacks b'\n' alternative_uuid
      → Lacks b'\n' mixed_uuid
      → let content =
          if is_empty opts.attachments
          then multipart_content (lit "alternative") (lit "hai-alt-" ++ alternative_uuid)
          else multipart_content (lit "mixed") (lit "hai-mixed-" ++ mixed_uuid) in
        (email : Bytes) × (build_html_inline_rfc5322_email_with_headers base64 alternative_uuid
            mixed_uuid related_uuid opts from_email html_body signed_logo_png headers
          ≡ ok email)
        × (headers_read email
            ≡ map header_bytes
                (headers_for opts from_email headers.date headers.message_id content))
  unfolding contains_char build_html_inline_rfc5322_email_with_headers lit
  build_html_inline_rfc5322_email_with_headers-headers alternative_uuid mixed_uuid related_uuid opts
        from_email html_body signed_logo_png headers d m a x =
      (
        _,
        refl,
        elim (Bool-cases (is_empty opts.attachments)) [
          | inl e ↦ rw e (
              standard-headers opts from_email headers (lit "alternative")
                (lit "hai-alt-" ++ alternative_uuid) _ (d, m)
                (contains_char-Lacks b'\n' (lit "alternative") refl)
                (All-append _ (lit "hai-alt-") alternative_uuid
                  (contains_char-Lacks b'\n' (lit "hai-alt-") refl) a))
          | inr e ↦ rw e (
              standard-headers opts from_email headers (lit "mixed")
                (lit "hai-mixed-" ++ mixed_uuid) _ (d, m)
                (contains_char-Lacks b'\n' (lit "mixed") refl)
                (All-append _ (lit "hai-mixed-") mixed_uuid
                  (contains_char-Lacks b'\n' (lit "hai-mixed-") refl) x))
        ],
      )
