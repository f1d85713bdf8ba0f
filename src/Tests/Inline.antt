-- ===== src/Tests/Inline.antt =====
-- HTML bodies, and requests that are signed.
use haiai.Prelude.{ℕ, suc, ◌≡◌, ◌≤◌, refl, ◌⊎◌, true, some, [], ◌∷◌, ◌++◌, length, arith}
use haiai.Text.{Text, lit}
use haiai.Error.{HaiError, ok, err, Foreign, done, fault}
use haiai.Email.Inline.{escape_html_attr, render_html_inline_email_body_with_logo_link}
use haiai.Email.Inline.Body.{
  IsInert, read_text, read_message, read_message-render_html_inline_email_body,
  escape_html_attr-IsInert_and_read,
}
use haiai.Client.Auth.{Request, RequestClient, RequestBuilder, Sent, bytes, raw, send}
use haiai.Client.Auth.Signed.{IsBuilt, send-IsSigned}

abbrev body : Text
body = lit "1 < 2 & \n</main>"

body_is_short : suc (length body) ≤ 40
unfolding lit
body_is_short = omega arith

read_message-render_html_inline_email_body_example :
    read_message 40
      (render_html_inline_email_body_with_logo_link body (lit "https://hai.ai") (lit "{}") true)
    ≡ some body
read_message-render_html_inline_email_body_example =
    read_message-render_html_inline_email_body 40 body (lit "https://hai.ai") (lit "{}") true
      body_is_short

abbrev link : Text
link = lit "https://hai.ai/\"onload='x'"

link_is_short : suc (length link) ≤ 40
unfolding lit
link_is_short = omega arith

escape_html_attr-IsInert_and_read_example :
    IsInert (escape_html_attr link) × (read_text 40 (escape_html_attr link) ≡ link)
escape_html_attr-IsInert_and_read_example = escape_html_attr-IsInert_and_read 40 link link_is_short

abbrev client : RequestClient
client = record {
  Response = ℕ;
  audience = lit "hai.ai";
  build_request_auth_header = λ method url bytes audience. ok (lit "JACS " ++ url);
  header_value = λ text. done text;
}

abbrev builder : RequestBuilder
builder = record {
  inner = done (record {
    method = lit "POST";
    url = lit "https://hai.ai/api";
    headers = (lit "authorization", lit "old") ∷ [];
    body = some (bytes (lit "{}"));
  });
  authenticated = true;
}

abbrev transport : Sent → Foreign ℕ
transport (raw request) = fault (lit "not reached")
transport (Sent.authenticated request) = done 200

send-IsSigned_example :
    ((e : HaiError) × (send client transport builder ≡ ([], err e)))
    ⊎ ((request : Request) × ((send client transport builder).0 ≡ Sent.authenticated request ∷ [])
        × IsBuilt client builder request)
send-IsSigned_example = send-IsSigned client transport builder refl
