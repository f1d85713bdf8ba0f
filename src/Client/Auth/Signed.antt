-- ===== src/Client/Auth/Signed.antt =====
-- What an authenticated request of rust/haiai/src/request_auth.rs carries when it is sent.
use haiai.Prelude.{
  ◌≡◌, ◌≤◌, refl, sym, ap, ◌∙◌, if◌then◌else◌, ◌⊎◌, inl, inr, true, false, List, [], ◌∷◌, length,
  ltb, arith, All, Bool-cases,
}
use haiai.Text.{Text, text_eq, text_eq_iff}
use haiai.Text.Utf8.{Bytes}
use haiai.Error.{HaiError, ok, err, Foreign, done, Result-cases, Foreign-cases}
use haiai.Client.Auth.{
  Request, RequestClient, RequestBuilder, Sent, authorization, max_request_body_bytes, body_bytes,
  without, insert, auth_header, build, send,
}

-- No header has the name.
abbrev HasNo : Text → List (Text × Text) → Type 0
HasNo name = All (λ header. text_eq header.0 name ≡ false)

without-HasNo : (name : Text) (headers : List (Text × Text)) → HasNo name (without name headers)
unfolding without
without-HasNo name [] = tt
without-HasNo name ((n, v) ∷ headers) = elim (Bool-cases (text_eq n name)) [
  | inl e ↦ rw e (without-HasNo name headers)
  | inr e ↦ rw e (e, without-HasNo name headers)
]

-- The values that headers have for a name, in their order.
abbrev values : Text → List (Text × Text) → List Text
values name [] = []
values name ((n, v) ∷ headers) =
    let rest = values name headers in if text_eq n name then v ∷ rest else rest

values-without :
    (name other : Text) (headers : List (Text × Text))
    → text_eq other name ≡ false
    → values other (without name headers) ≡ values other headers
unfolding without
values-without name other [] h = refl
values-without name other ((n, v) ∷ headers) h =
    let rest = values-without name other headers h in
    elim (Bool-cases (text_eq n name)) [
      | inr e ↦ ground (arith, e, rest)
      | inl e ↦ elim (Bool-cases (text_eq n other)) [
        | inr f ↦ ground (arith, e, f, rest)
        | inl f ↦
            let same : text_eq other name ≡ true =
              ap (λ t. text_eq t name) (sym ((text_eq_iff n other).0 f)) ∙ e in
            cc (h, same)
      ]
    ]

module _ (client : RequestClient) where
  open client use {Response}

  -- The headers of a request are one authorization header, the provider's signature over the method,
  -- the URL and the body bytes that the request has, which are in memory and at most 10 MiB, and for
  -- every other name the values that it has in `plain`.
  pub record IsSigned (plain request : Request) : Type 0 where
    pub bytes : Bytes
    pub header : Text
    pub value : Text
    pub others : List (Text × Text)
    pub bounded : body_bytes request.body ≡ ok bytes
    pub small : length bytes ≤ max_request_body_bytes
    pub signed :
        client.build_request_auth_header request.method request.url bytes client.audience
        ≡ ok header
    pub encoded : client.header_value header ≡ done value
    pub headers_are : request.headers ≡ (authorization, value) ∷ others
    pub only_one : HasNo authorization others
    pub kept :
        (name : Text)
        → text_eq name authorization ≡ false
        → values name others ≡ values name plain.headers

  auth_header-ok :
      (method url : Text) (bytes : Bytes) {header : Text}
      → auth_header client method url bytes ≡ ok header
      → (length bytes ≤ max_request_body_bytes)
        × (client.build_request_auth_header method url bytes client.audience ≡ ok header)
  unfolding auth_header
  auth_header-ok method url bytes h =
      elim (Bool-cases (ltb max_request_body_bytes (length bytes))) [
        | inl e ↦ ground (arith, e, h)
        | inr e ↦ (ground (arith, e), ground (arith, e, h))
      ]

  -- What `build` makes of an authenticated builder: a signed request that differs from the built one
  -- in its authorization header only, or an error.
  abbrev pub IsBuilt : RequestBuilder → Request → Type 0
  IsBuilt builder request =
      (plain : Request) × (builder.inner ≡ done plain)
      × IsSigned plain request
      × (request.method ≡ plain.method)
      × (request.url ≡ plain.url)
      × (request.body ≡ plain.body)

  build-IsBuilt :
      (builder : RequestBuilder)
      → builder.authenticated ≡ true
      → ((e : HaiError) × (build client builder ≡ err e))
        ⊎ ((request : Request) × (build client builder ≡ ok request) × IsBuilt builder request)
  unfolding build insert
  build-IsBuilt builder auth = elim (Foreign-cases builder.inner) [
    | inr (t, a) ↦ rw a (inl (_, refl))
    | inl (plain, a) ↦ elim (Result-cases (body_bytes plain.body)) [
      | inr (t, b) ↦ inl (t, rw (a, auth, b) refl)
      | inl (bytes, b) ↦ elim (Result-cases (auth_header client plain.method plain.url bytes)) [
        | inr (t, c) ↦ inl (t, rw (a, auth, b, c) refl)
        | inl (header, c) ↦ elim (Foreign-cases (client.header_value header)) [
          | inr (t, d) ↦ rw (a, auth, b, c, d) (inl (_, refl))
          | inl (value, d) ↦
              let (small, signed) = auth_header-ok plain.method plain.url bytes c in
              inr (
                record plain { headers = insert authorization value plain.headers },
                rw (a, auth, b, c, d) refl,
                (
                  plain,
                  a,
                  record {
                    bytes = bytes;
                    header = header;
                    value = value;
                    others = without authorization plain.headers;
                    bounded = b;
                    small = small;
                    signed = signed;
                    encoded = d;
                    headers_are = refl;
                    only_one = without-HasNo authorization plain.headers;
                    kept = λ name. values-without authorization name plain.headers;
                  },
                  refl,
                  refl,
                  refl,
                ),
              )
        ]
      ]
    ]
  ]

  -- An authenticated builder either sends nothing and returns an error, or sends one request, over
  -- the transport that follows no redirect. That request has the method, URL and body of the built
  -- one, for every other header name the values that the built one has, and one authorization header:
  -- the provider's signature over its method, URL and body bytes, of at most 10 MiB.
  pub send-IsSigned :
      (transport : Sent → Foreign Response) (builder : RequestBuilder)
      → builder.authenticated ≡ true
      → ((e : HaiError) × (send client transport builder ≡ ([], err e)))
        ⊎ ((request : Request) × ((send client transport builder).0
              ≡ Sent.authenticated request ∷ [])
            × IsBuilt builder request)
  unfolding send
  send-IsSigned transport builder auth = elim (build-IsBuilt builder auth) [
    | inl (e, a) ↦ inl (e, rw (send, a) refl)
    | inr (request, a, built) ↦ inr (request, rw (send, a, auth) refl, built)
  ]
