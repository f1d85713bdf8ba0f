-- ===== src/Client/Setup/Usable.antt =====
-- What holds of every client that rust/haiai/src/client.rs makes and configures.
use haiai.Prelude.{
  ℕ, ◌≤◌, ◌≡◌, refl, ap, sym, subst, ◌∙◌, ◌⊎◌, inl, inr, true, false, ◌||◌, Option, none, some,
  is_empty, arith,
}
use haiai.Text.{Text, lit, len, trim, text_eq, trim_end_matches}
use haiai.Error.{ok, Result-cases, Foreign, done, Foreign-cases}
use haiai.Client.Origin.{Url, is_none}
use haiai.Client.Live.{Scope, shared, process_local}
use haiai.Client.Setup.{
  HaiClientOptions, HaiClient, default_server_key_refresh, validate_request_auth_audience,
  validate_base_url, new_client, with_expected_event_context, with_shared_event_replay_store,
  with_server_key_refresh_interval,
}

module _ (parse : Text → Foreign Url) (transports : Foreign (Unit {0})) where
  -- A client is made by `new`, and configured by the `with_` methods.
  pub data Configured : HaiClient → Type 0 where
    built :
        (options : HaiClientOptions) {client : HaiClient}
        → new_client parse transports options ≡ ok client
        → Configured client
    with_context :
        (tenant response_audience : Text) (client : HaiClient) {client' : HaiClient}
        → Configured client
        → with_expected_event_context tenant response_audience client ≡ ok client'
        → Configured client'
    with_store :
        (scope : Scope) (client : HaiClient) {client' : HaiClient}
        → Configured client
        → with_shared_event_replay_store scope client ≡ ok client'
        → Configured client'
    with_refresh :
        (interval : ℕ) (client : HaiClient) {client' : HaiClient}
        → Configured client
        → with_server_key_refresh_interval interval client ≡ ok client'
        → Configured client'

  -- A base URL that requests can be made under.
  pub record IsBase (base_url : Text) : Type 0 where
    pub url : Url
    pub parsed : parse base_url ≡ done url
    pub is_web : (text_eq url.scheme (lit "http") || text_eq url.scheme (lit "https")) ≡ true
    pub has_host : is_none url.host ≡ false
    pub no_user : is_empty url.username ≡ true
    pub no_password : is_none url.password ≡ true
    pub no_query : is_none url.query ≡ true
    pub no_fragment : is_none url.fragment ≡ true

  -- The tenant and the private audience of a client, when they are pinned.
  abbrev pub IsContext : Option (Text × Text) → Type 0
  IsContext none = Unit
  IsContext (some (tenant, audience)) =
      (is_empty tenant ≡ false)
      × (len tenant ≤ 256)
      × (is_empty audience ≡ false)
      × (text_eq audience (lit "public") ≡ false)
      × (len audience ≤ 256)

  abbrev pub IsShared : Option Scope → Type 0
  IsShared store = (store ≡ none) ⊎ (store ≡ some shared)

  pub record IsUsable (client : HaiClient) : Type 0 where
    pub base : IsBase client.base_url
    pub audience_is_set : is_empty (trim client.audience) ≡ false
    pub audience_is_short : len client.audience ≤ 256
    pub tries : 1 ≤ client.max_retries
    pub context : IsContext client.expected_context
    pub store : IsShared client.shared_event_replay_store
    pub refreshes : 1 ≤ client.server_key_refresh_interval
    pub refreshes_soon : client.server_key_refresh_interval ≤ default_server_key_refresh

  validate_base_url-IsBase :
      (base_url trimmed : Text) → validate_base_url parse base_url trimmed ≡ ok tt → IsBase trimmed
  unfolding validate_base_url
  validate_base_url-IsBase base_url trimmed h = elim (Foreign-cases (parse trimmed)) [
    | inr (t, a) ↦ ground (arith, a, h)
    | inl (url, a) ↦ record {
      url = url;
      parsed = a;
      is_web = ground (arith, a, h);
      has_host = ground (arith, a, h);
      no_user = ground (arith, a, h);
      no_password = ground (arith, a, h);
      no_query = ground (arith, a, h);
      no_fragment = ground (arith, a, h);
    }
  ]

  validate_request_auth_audience-ok :
      (audience : Text)
      → validate_request_auth_audience audience ≡ ok tt
      → (is_empty (trim audience) ≡ false) × (len audience ≤ 256)
  unfolding validate_request_auth_audience
  validate_request_auth_audience-ok audience h = ground (arith, h)

  new_client-IsUsable :
      (options : HaiClientOptions) {client : HaiClient}
      → new_client parse transports options ≡ ok client
      → IsUsable client
  unfolding new_client
  new_client-IsUsable options {client} h =
      let trimmed = trim_end_matches b'/' options.base_url in
      let audience = options.request_auth_audience in
      elim (Result-cases (validate_request_auth_audience audience)) [
        | inr (e, a) ↦ ground (arith, a, h)
        | inl (passed, a) ↦ elim (Result-cases (validate_base_url parse options.base_url trimmed)) [
          | inr (e, b) ↦ ground (arith, a, b, h)
          | inl (passed', b) ↦ elim (Foreign-cases transports) [
            | inr (t, c) ↦ ground (arith, a, b, c, h)
            | inl (made, c) ↦
                let (is_set, is_short) = validate_request_auth_audience-ok audience a in
                let same_base : client.base_url ≡ trimmed = ground (arith, a, b, c, h) in
                let same_audience : client.audience ≡ audience = ground (arith, a, b, c, h) in
                let no_context : client.expected_context ≡ none = ground (arith, a, b, c, h) in
                record {
                  base =
                      subst IsBase (sym same_base)
                        (validate_base_url-IsBase options.base_url trimmed b);
                  audience_is_set = ap (λ t. is_empty (trim t)) same_audience ∙ is_set;
                  audience_is_short = rw same_audience is_short;
                  tries = ground (arith, a, b, c, h);
                  context = subst IsContext (sym no_context) tt;
                  store = inl (ground (arith, a, b, c, h));
                  refreshes = ground (arith, a, b, c, h);
                  refreshes_soon = ground (arith, a, b, c, h);
                }
          ]
        ]
      ]

  with_context-IsUsable :
      (tenant response_audience : Text) (client : HaiClient) {client' : HaiClient}
      → IsUsable client
      → with_expected_event_context tenant response_audience client ≡ ok client'
      → IsUsable client'
  unfolding with_expected_event_context
  with_context-IsUsable tenant audience client {client'} usable h =
      let same : client' ≡ record client { expected_context = some (tenant, audience) } =
        ground (arith, h) in
      subst IsUsable (sym same) (record {
        base = usable.base;
        audience_is_set = usable.audience_is_set;
        audience_is_short = usable.audience_is_short;
        tries = usable.tries;
        context = (
          ground (arith, h),
          ground (arith, h),
          ground (arith, h),
          ground (arith, h),
          ground (arith, h),
        );
        store = usable.store;
        refreshes = usable.refreshes;
        refreshes_soon = usable.refreshes_soon;
      })

  with_store-IsUsable :
      (scope : Scope) (client : HaiClient) {client' : HaiClient}
      → IsUsable client
      → with_shared_event_replay_store scope client ≡ ok client'
      → IsUsable client'
  unfolding with_shared_event_replay_store
  with_store-IsUsable shared client {client'} usable h =
      let same : client' ≡ record client { shared_event_replay_store = some shared } =
        ground (arith, h) in
      subst IsUsable (sym same) (record {
        base = usable.base;
        audience_is_set = usable.audience_is_set;
        audience_is_short = usable.audience_is_short;
        tries = usable.tries;
        context = usable.context;
        store = inr refl;
        refreshes = usable.refreshes;
        refreshes_soon = usable.refreshes_soon;
      })
  with_store-IsUsable process_local client usable h = ground (arith, h)

  with_refresh-IsUsable :
      (interval : ℕ) (client : HaiClient) {client' : HaiClient}
      → IsUsable client
      → with_server_key_refresh_interval interval client ≡ ok client'
      → IsUsable client'
  unfolding with_server_key_refresh_interval
  with_refresh-IsUsable interval client {client'} usable h =
      let same : client' ≡ record client { server_key_refresh_interval = interval } =
        ground (arith, h) in
      subst IsUsable (sym same) (record {
        base = usable.base;
        audience_is_set = usable.audience_is_set;
        audience_is_short = usable.audience_is_short;
        tries = usable.tries;
        context = usable.context;
        store = usable.store;
        refreshes = ground (arith, h);
        refreshes_soon = ground (arith, h);
      })

  -- However a client was made and configured: its base URL parses as an HTTP or HTTPS URL with a host
  -- and without userinfo, query and fragment; its audience is not blank and at most 256 bytes; it
  -- tries at least once; its event context, if it has one, has a tenant and an audience that is not
  -- "public"; its replay store, if it has one, is shared; and its keys are refreshed within 5 minutes.
  pub Configured-IsUsable : (client : HaiClient) → Configured client → IsUsable client
  Configured-IsUsable _ (built options h) = new_client-IsUsable options h
  Configured-IsUsable _ (with_context tenant audience client before h) =
      with_context-IsUsable tenant audience client (Configured-IsUsable client before) h
  Configured-IsUsable _ (with_store scope client before h) =
      with_store-IsUsable scope client (Configured-IsUsable client before) h
  Configured-IsUsable _ (with_refresh interval client before h) =
      with_refresh-IsUsable interval client (Configured-IsUsable client before) h
