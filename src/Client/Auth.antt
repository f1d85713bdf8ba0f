-- ===== src/Client/Auth.antt =====
-- rust/haiai/src/request_auth.rs: requests that are signed over their final bytes. A request as
-- `reqwest` builds it, the provider's signing and the two transports are parameters.
pub mod Signed
use haiai.Prelude.{
  ℕ, ◌*◌, ◌<◌, Bool, true, false, Option, none, some, List, [], ◌∷◌, length, ltb, if◌then◌else◌,
}
use haiai.Text.{Text, lit, text_eq}
use haiai.Text.Utf8.{Bytes}
use haiai.Error.{
  HaiError, provider, validation, http, Result, ok, err, ok_or, ◌>>=◌, Foreign, done, fault, lift,
}

-- A body is bytes in memory, or a stream.
pub data Body : Type 0 where
  bytes : Bytes → Body
  stream : Body

pub record Request : Type 0 where
  pub method : Text
  pub url : Text
  pub headers : List (Text × Text)
  pub body : Option Body

abbrev pub max_request_body_bytes : ℕ
max_request_body_bytes = 10 * 1024 * 1024

abbrev pub authorization : Text
authorization = lit "authorization"

-- The headers of the other names.
unfoldable pub without : Text → List (Text × Text) → List (Text × Text)
without name [] = []
without name ((n, v) ∷ headers) =
    let rest = without name headers in if text_eq n name then rest else (n, v) ∷ rest

-- `HeaderMap::insert`: the value of a name, in place of all others.
unfoldable pub insert : Text → Text → List (Text × Text) → List (Text × Text)
insert name value headers = (name, value) ∷ without name headers

-- The client's provider and audience, `HeaderValue::from_str`, and the two transports: the plain
-- one follows redirects, the authenticated one does not.
pub record RequestClient : Type 1 where
  pub Response : Type 0
  pub audience : Text
  pub build_request_auth_header : Text → Text → Bytes → Text → Result Text
  pub header_value : Text → Foreign Text

-- A request that was sent, and the transport that sent it.
pub data Sent : Type 0 where
  raw authenticated : Request → Sent

pub record RequestBuilder : Type 0 where
  pub inner : Foreign Request
  pub authenticated : Bool

abbrev pub body_bytes : Option Body → Result Bytes
body_bytes none = ok []
body_bytes (some (bytes b)) = ok b
body_bytes (some stream) = err (
    validation (lit "body")
      (lit "request-auth-v2 requires bounded entity bytes, not a streaming body"))

-- `RequestBuilder::authenticated`
unfoldable pub authenticate : RequestBuilder → RequestBuilder
authenticate builder = record builder { authenticated = true }

module _ (client : RequestClient) where
  open client use {Response}

  unfoldable pub auth_header : Text → Text → Bytes → Result Text
  auth_header method url body =
      if ltb max_request_body_bytes (length body)
      then err (validation (lit "body") (lit "request-auth-v2 body exceeds 10 MiB"))
      else client.build_request_auth_header method url body client.audience

  unfoldable pub build : RequestBuilder → Result Request
  build builder = do
    request ← lift builder.inner http
    if builder.authenticated
        then (body_bytes request.body >>= λ bytes.
            auth_header request.method request.url bytes >>= λ header.
            lift (client.header_value header) provider >>= λ value.
            ok (record request { headers = insert authorization value request.headers }))
        else ok request

  -- What is sent, and the response; the transports answer what is sent.
  unfoldable pub send_without_redirects :
      (Sent → Foreign Response) → RequestBuilder → List Sent × Result Response
  send_without_redirects transport builder = elim (build builder) [
    | err e ↦ ([], err e)
    | ok request ↦ let sent = Sent.authenticated request in (sent ∷ [], lift (transport sent) http)
  ]

  unfoldable pub send : (Sent → Foreign Response) → RequestBuilder → List Sent × Result Response
  send transport builder = elim (build builder) [
    | err e ↦ ([], err e)
    | ok request ↦
        let sent = if builder.authenticated then Sent.authenticated request else raw request in
        (sent ∷ [], lift (transport sent) http)
  ]
