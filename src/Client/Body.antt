-- ===== src/Client/Body.antt =====
-- Bodies of responses in rust/haiai/src/client.rs, read up to a limit, and the errors made of them.
pub mod Limited
use haiai.Prelude.{
  ℕ, ◌+◌, ◌*◌, ◌^◌, Bool, true, false, ◌&&◌, Option, none, some, List, [], ◌∷◌, ◌++◌, ltb, leb,
  length, is_empty, checked_add, if◌then◌else◌,
}
use haiai.Text.{Text, lit, decimal}
use haiai.Text.Utf8.{Bytes}
use haiai.Error.{
  HaiError, http, api, signed_event_verification, Result, ok, err, ◌>>=◌, Foreign, done, fault,
  lift,
}
use haiai.Json.{Value, get_str, and_then, or_else, unwrap_or}

-- A response: its status, the announced length, and the chunks of its body or the errors of reading
-- them.
pub record Response : Type 0 where
  pub status : ℕ
  pub content_length : Option ℕ
  pub chunks : List (Foreign Bytes)

abbrev pub over_limit : ℕ → Text → HaiError
over_limit max_bytes context =
    signed_event_verification
      (context ++ (lit " exceeds the " ++ (decimal max_bytes ++ lit " byte limit")))

-- Whether a chunk still fits behind the bytes that were read.
unfoldable pub next_length : ℕ → Text → Bytes → Bytes → Result ℕ
next_length max_bytes context body chunk = elim (checked_add (length body) (length chunk)) [
  | none ↦ err (signed_event_verification (context ++ lit " size overflow"))
  | some next ↦ if ltb max_bytes next then err (over_limit max_bytes context) else ok next
]

-- The loop over the chunks, with the bytes that were read.
unfoldable pub read_chunks : ℕ → Text → Bytes → List (Foreign Bytes) → Result Bytes
read_chunks max_bytes context body [] = ok body
read_chunks max_bytes context body (fault e ∷ chunks) = err (http e)
read_chunks max_bytes context body (done chunk ∷ chunks) =
    let rest = read_chunks max_bytes context (body ++ chunk) chunks in
    next_length max_bytes context body chunk >>= λ next. rest

abbrev pub announces_more : ℕ → Option ℕ → Bool
announces_more max_bytes none = false
announces_more max_bytes (some announced) = ltb max_bytes announced

unfoldable pub read_response_body_limited : Response → ℕ → Text → Result Bytes
read_response_body_limited response max_bytes context =
    let body = read_chunks max_bytes context [] response.chunks in
    if announces_more max_bytes response.content_length
    then err (over_limit max_bytes context)
    else body

abbrev pub max_server_keys_bytes : ℕ
max_server_keys_bytes = 1024 * 1024

abbrev pub max_error_response_bytes : ℕ
max_error_response_bytes = 64 * 1024

abbrev is_success : ℕ → Bool
is_success status = leb 200 status && leb status 299

abbrev body_or_empty : Result Bytes → Bytes
body_or_empty (ok body) = body
body_or_empty (err e) = []

module _ (from_utf8_lossy : Bytes → Text) (from_str : Text → Option Value) where
  unfoldable pub error_message : ℕ → Text → Text
  error_message status body =
      unwrap_or
        (if is_empty body then lit "request failed with status " ++ decimal status else body)
        (and_then (from_str body)
          (λ value. or_else (get_str (lit "error") value) (get_str (lit "message") value)))

  unfoldable pub response_error : Response → HaiError
  response_error response =
      let read =
        read_response_body_limited response max_error_response_bytes
          (lit "HAI API error response") in
      api response.status (error_message response.status (from_utf8_lossy (body_or_empty read)))

  -- `fetch_server_keys_with_client`, of what the request was answered with
  unfoldable pub fetch_server_keys : (Bytes → Foreign Value) → Foreign Response → Result Value
  fetch_server_keys parse_strict_json answer = lift answer http >>= λ response.
      if is_success response.status
      then (read_response_body_limited response max_server_keys_bytes
            (lit "HAI server key response")
          >>= λ body. lift (parse_strict_json body) (λ error.
            signed_event_verification
              (lit "HAI server key response is not strict JSON: " ++ error)))
      else err (response_error response)
