-- ===== src/Email/Mime/Groups.antt =====
-- Each group of header lines that rust/haiai/src/mime.rs writes is read as the headers expected of it.
use haiai.Prelude.{
  subst, fun_ext, ◌≡◌, refl, ap, ◌∙◌, false, Option, none, some, List, [], ◌∷◌, ◌++◌, append_assoc,
  map, arith, All-append,
}
use haiai.Text.{Text, lit, join, Lacks, contains_char, contains_char-Lacks}
use haiai.Text.Utf8.{as_bytes}
use haiai.Email.{SendEmailOptions}
use haiai.Email.Mime.{
  sanitize_header, line, concat, recipients_header, reply_headers, Rfc5322HeaderValues,
  leading_headers, boundary_type,
}
use haiai.Email.Mime.Reader.{headers_read, Reads, Reads-nil, Reads-append, Reads-line}
use haiai.Email.Mime.Expected.{
  cleaned, flatten, reply_values, recipients_value, leading_values, headers_with, headers_for,
  plain_content, multipart_content,
}

sanitize_header-eq : (s : Text) → sanitize_header s ≡ cleaned s
unfolding sanitize_header cleaned contains_char
sanitize_header-eq [] = refl
sanitize_header-eq (c ∷ s) = ground (arith, sanitize_header-eq s)

sanitize_header-Lacks : (s : Text) → Lacks b'\n' (sanitize_header s)
unfolding sanitize_header
sanitize_header-Lacks [] = tt
sanitize_header-Lacks (c ∷ s) = ground (arith, sanitize_header-Lacks s)

sanitized-Lacks : (ts : List Text) → Lacks b'\n' (join (lit ", ") (map sanitize_header ts))
unfolding join lit
sanitized-Lacks [] = tt
sanitized-Lacks (t ∷ []) = sanitize_header-Lacks t
sanitized-Lacks (t ∷ (u ∷ us)) =
    All-append _ (sanitize_header t) _ (sanitize_header-Lacks t)
      (refl, (refl, sanitized-Lacks (u ∷ us)))

recipients-Reads :
    (name : Text) (ts : List Text)
    → contains_char b'\n' name ≡ false
    → contains_char b':' name ≡ false
    → Reads (recipients_header (name ++ lit ": ") ts) (recipients_value sanitize_header name ts)
unfolding recipients_header lit
recipients-Reads name [] h k rest = Reads-nil rest
recipients-Reads name (t ∷ ts) h k rest =
    let value = join (lit ", ") (map sanitize_header (t ∷ ts)) in
    ap (λ l. headers_read (as_bytes (line l) ++ rest)) (append_assoc name (lit ": ") _)
    ∙ Reads-line name value h k (sanitized-Lacks (t ∷ ts)) rest

reply-Reads : (r : Option Text) → Reads (reply_headers r) (reply_values sanitize_header r)
unfolding reply_headers lit contains_char
reply-Reads none = Reads-nil
reply-Reads (some r) =
    let value = sanitize_header r in
    Reads-append (line (lit "In-Reply-To: " ++ value)) (line (lit "References: " ++ value))
      ((lit "In-Reply-To", value) ∷ []) ((lit "References", value) ∷ [])
      (Reads-line (lit "In-Reply-To") value refl refl (sanitize_header-Lacks r))
      (Reads-line (lit "References") value refl refl (sanitize_header-Lacks r))

-- Each text is read as the headers beside it.
abbrev AllRead : List Text → List (List (Text × Text)) → Type 0
AllRead [] [] = Unit
AllRead (t ∷ ts) (headers ∷ more) = Reads t headers × AllRead ts more
AllRead _ _ = ⊥

Reads-concat :
    (ts : List Text) (hs : List (List (Text × Text)))
    → AllRead ts hs
    → Reads (concat ts) (flatten hs)
unfolding concat
Reads-concat [] [] h = Reads-nil
Reads-concat (t ∷ ts) (headers ∷ more) (h, hs) =
    Reads-append t (concat ts) headers (flatten more) h (Reads-concat ts more hs)
Reads-concat [] (headers ∷ more) h = absurd h
Reads-concat (t ∷ ts) [] h = absurd h

-- A date and an identifier without a line feed.
abbrev pub IsLine : Rfc5322HeaderValues → Type 0
IsLine headers = Lacks b'\n' headers.date × Lacks b'\n' headers.message_id

-- The headers of a message with the given content.
abbrev pub expected :
    SendEmailOptions → Text → Rfc5322HeaderValues → List (Text × Text) → List (Text × Text)
expected opts from_email headers content =
    headers_for opts from_email headers.date headers.message_id content

leading-AllRead :
    (opts : SendEmailOptions) (from_email : Text) (headers : Rfc5322HeaderValues)
    → IsLine headers
    → AllRead
        (leading_headers opts from_email headers)
        (leading_values sanitize_header opts from_email headers.date headers.message_id)
unfolding leading_headers lit contains_char
leading-AllRead opts from_email headers (date, id) = (
  Reads-line (lit "From") (lit "<" ++ (sanitize_header from_email ++ lit ">")) refl refl (
    refl,
    All-append _ (sanitize_header from_email) (lit ">") (sanitize_header-Lacks from_email)
        (refl, tt),
  ),
  (
    Reads-line (lit "To") (sanitize_header opts.to) refl refl (sanitize_header-Lacks opts.to),
    (
      recipients-Reads (lit "Cc") opts.cc refl refl,
      (
        recipients-Reads (lit "Bcc") opts.bcc refl refl,
        (
          Reads-line (lit "Subject") (sanitize_header opts.subject) refl refl
              (sanitize_header-Lacks opts.subject),
          (
            Reads-line (lit "Date") headers.date refl refl date,
            (
              Reads-line (lit "Message-ID") headers.message_id refl refl id,
              (
                reply-Reads opts.in_reply_to,
                (
                  Reads-line (lit "MIME-Version") (lit "1.0") refl refl (refl, (refl, (refl, tt))),
                  tt,
                ),
              ),
            ),
          ),
        ),
      ),
    ),
  ),
)

-- What is read as the headers of the content completes the leading ones to those that are expected.
pub block-Reads :
    (opts : SendEmailOptions) (from_email : Text) (headers : Rfc5322HeaderValues) (t : Text)
    (content : List (Text × Text))
    → IsLine headers
    → Reads t content
    → Reads
        (concat (leading_headers opts from_email headers) ++ t)
        (expected opts from_email headers content)
unfolding headers_for
block-Reads opts from_email headers t content h k =
    let values = λ (clean : Text → Text).
      leading_values clean opts from_email headers.date headers.message_id in
    subst
      (λ clean.
        Reads (concat (leading_headers opts from_email headers) ++ t)
          (headers_with clean opts from_email headers.date headers.message_id content))
      (fun_ext sanitize_header-eq)
      (Reads-append (concat (leading_headers opts from_email headers)) t
        (flatten (values sanitize_header)) content
        (Reads-concat (leading_headers opts from_email headers) (values sanitize_header)
          (leading-AllRead opts from_email headers h))
        k)

pub boundary-Reads :
    (kind boundary : Text)
    → Lacks b'\n' kind
    → Lacks b'\n' boundary
    → Reads (line (boundary_type kind boundary)) (multipart_content kind boundary)
unfolding boundary_type lit contains_char
boundary-Reads kind boundary h k =
    Reads-line (lit "Content-Type")
      (lit "multipart/" ++ (kind ++ (lit "; boundary=\"" ++ (boundary ++ lit "\"")))) refl refl
      (All-append _ (lit "multipart/") _ (contains_char-Lacks b'\n' (lit "multipart/") refl) (
        All-append _ kind _ h (
          All-append _ (lit "; boundary=\"") _
            (contains_char-Lacks b'\n' (lit "; boundary=\"") refl)
            (All-append _ boundary (lit "\"") k (refl, tt)))))

-- The two headers of a simple message.
pub plain-Reads :
    Reads
      (line (lit "Content-Type: " ++ (lit "text/plain" ++ lit "; charset=utf-8"))
        ++ line (lit "Content-Transfer-Encoding: 8bit"))
      plain_content
unfolding lit contains_char
plain-Reads =
    Reads-append _ _ ((lit "Content-Type", lit "text/plain; charset=utf-8") ∷ [])
      ((lit "Content-Transfer-Encoding", lit "8bit") ∷ [])
      (Reads-line (lit "Content-Type") (lit "text/plain; charset=utf-8") refl refl
        (contains_char-Lacks b'\n' (lit "text/plain; charset=utf-8") refl))
      (Reads-line (lit "Content-Transfer-Encoding") (lit "8bit") refl refl
        (contains_char-Lacks b'\n' (lit "8bit") refl))
