-- ===== src/Email/Mime/Expected.antt =====
-- The headers that a message should have, stated apart from how rust/haiai/src/mime.rs writes them.
use haiai.Prelude.{not, Option, none, some, List, [], ◌∷◌, ◌++◌, map, is_empty, if◌then◌else◌}
use haiai.Text.{Text, lit, join, contains_char}
use haiai.Email.{SendEmailOptions}

-- A text without its CR, LF and double quotes.
unfoldable pub cleaned : Text → Text
cleaned [] = []
cleaned (c ∷ s) =
    let rest = cleaned s in if contains_char c (b'\r' ∷ b'\n' ∷ b'"' ∷ []) then rest else c ∷ rest

abbrev pub flatten : List (List (Text × Text)) → List (Text × Text)
flatten [] = []
flatten (headers ∷ more) = headers ++ flatten more

abbrev pub reply_values : (Text → Text) → Option Text → List (Text × Text)
reply_values clean none = []
reply_values clean (some r) = (lit "In-Reply-To", clean r) ∷ (lit "References", clean r) ∷ []

abbrev pub recipients_value : (Text → Text) → Text → List Text → List (Text × Text)
recipients_value clean name addresses =
    if not (is_empty addresses) then (name, join (lit ", ") (map clean addresses)) ∷ [] else []

-- The headers down to `MIME-Version`, group by group, for a way to clean the texts of the caller.
abbrev pub leading_values :
    (Text → Text) → SendEmailOptions → Text → Text → Text → List (List (Text × Text))
leading_values clean opts from_email date message_id =
    ((lit "From", lit "<" ++ (clean from_email ++ lit ">")) ∷ [])
    ∷ ((lit "To", clean opts.to) ∷ [])
    ∷ recipients_value clean (lit "Cc") opts.cc
    ∷ recipients_value clean (lit "Bcc") opts.bcc
    ∷ ((lit "Subject", clean opts.subject) ∷ [])
    ∷ ((lit "Date", date) ∷ [])
    ∷ ((lit "Message-ID", message_id) ∷ [])
    ∷ reply_values clean opts.in_reply_to
    ∷ ((lit "MIME-Version", lit "1.0") ∷ [])
    ∷ []

abbrev pub headers_with :
    (Text → Text) → SendEmailOptions → Text → Text → Text → List (Text × Text) → List (Text × Text)
headers_with clean opts from_email date message_id content =
    flatten (leading_values clean opts from_email date message_id) ++ content

-- The headers that the options call for, with the cleaned texts as values, and behind them those of
-- the content.
unfoldable pub headers_for :
    SendEmailOptions → Text → Text → Text → List (Text × Text) → List (Text × Text)
headers_for = headers_with cleaned

-- The headers of the content: of a plain message, and of one with parts.
abbrev pub plain_content : List (Text × Text)
plain_content =
    (lit "Content-Type", lit "text/plain; charset=utf-8")
    ∷ (lit "Content-Transfer-Encoding", lit "8bit")
    ∷ []

abbrev pub multipart_content : Text → Text → List (Text × Text)
multipart_content kind boundary =
    (
      lit "Content-Type",
      lit "multipart/" ++ (kind ++ (lit "; boundary=\"" ++ (boundary ++ lit "\""))),
    )
    ∷ []
