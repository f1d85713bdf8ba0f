-- ===== src/Config/Storage.antt =====
-- What the resolvers of rust/haiai/src/config.rs agree on.
use haiai.Prelude.{
  ◌∙◌, ◌≡◌, refl, ap, sym, ◌⊎◌, inl, inr, Bool, true, false, Option, none, some, [], ◌∷◌, is_empty,
  arith, Bool-cases, Option-cases,
}
use haiai.Text.{
  trim, trim_end_by, trim_start_by, is_whitespace, eq_ignore_ascii_case, Text, lit, text_eq,
  text_eq_iff,
}
use haiai.Error.{ok, done, Foreign-cases}
use haiai.Json.{Value, get, as_bool, and_then}
use haiai.Config.{
  Machine, non_empty, AgentConfig, get_string, storage_keys, config_data, resolve_config_path,
  resolve_storage_backend_label, resolve_storage_backend, redacted_display, resolve_remote,
  load_config, read_config,
}

-- The label "fs" is accepted as it is.
fs-accepted : resolve_storage_backend_label (lit "fs") ≡ ok (lit "fs")
unfolding resolve_storage_backend_label text_eq lit
fs-accepted = refl

-- The backend that is resolved is the check of the label that the redacted summary shows: both read
-- the flag, the variable and the file in the same order, and the summary shows the label unchecked.
pub resolve_storage_backend-redacted_display :
    (machine : Machine) (explicit config_path : Option Text)
    → resolve_storage_backend machine explicit config_path
      ≡ resolve_storage_backend_label (redacted_display machine explicit config_path).backend
unfolding resolve_storage_backend redacted_display
resolve_storage_backend-redacted_display machine (some label) config_path = refl
resolve_storage_backend-redacted_display machine none config_path =
    let from_file =
      and_then (config_data machine config_path) (λ document. get_string document storage_keys) in
    elim (Option-cases (non_empty (machine.var (lit "JACS_DEFAULT_STORAGE")))) [
      | inr (label, a) ↦ rw (resolve_storage_backend, redacted_display, a) refl
      | inl a ↦ elim (Option-cases from_file) [
        | inl b ↦ rw (resolve_storage_backend, redacted_display, a, b) (sym fs-accepted)
        | inr (label, b) ↦ rw (resolve_storage_backend, redacted_display, a, b) refl
      ]
    ]

-- The labels that are accepted, with what each stands for.
resolve_storage_backend_label-cases :
    (label : Text) {backend : Text}
    → resolve_storage_backend_label label ≡ ok backend
    → ((label ≡ lit "fs") × (backend ≡ lit "fs"))
      ⊎ (((label ≡ lit "rusqlite") × (backend ≡ lit "rusqlite"))
          ⊎ (((label ≡ lit "sqlite") × (backend ≡ lit "rusqlite"))
              ⊎ ((label ≡ lit "remote") × (backend ≡ lit "remote"))))
unfolding resolve_storage_backend_label
resolve_storage_backend_label-cases label h = elim (Bool-cases (text_eq label (lit "fs"))) [
  | inl a ↦ inl ((text_eq_iff _ _).0 a, ground (arith, a, h))
  | inr a ↦ elim (Bool-cases (text_eq label (lit "rusqlite"))) [
    | inl b ↦ inr (inl ((text_eq_iff _ _).0 b, ground (arith, a, b, h)))
    | inr b ↦ elim (Bool-cases (text_eq label (lit "sqlite"))) [
      | inl c ↦ inr (inr (inl ((text_eq_iff _ _).0 c, ground (arith, a, b, c, h))))
      | inr c ↦ elim (Bool-cases (text_eq label (lit "remote"))) [
        | inl d ↦ inr (inr (inr ((text_eq_iff _ _).0 d, ground (arith, a, b, c, d, h))))
        | inr d ↦ ground (arith, a, b, c, d, h)
      ]
    ]
  ]
]

abbrev names_remote : Text → Bool
names_remote label = eq_ignore_ascii_case (trim label) (lit "remote")

names_remote-label :
    (label : Text) {backend : Text}
    → resolve_storage_backend_label label ≡ ok backend
    → names_remote label ≡ text_eq backend (lit "remote")
unfolding trim trim_end_by trim_start_by is_whitespace eq_ignore_ascii_case text_eq lit
names_remote-label label h = elim (resolve_storage_backend_label-cases label h) [
  | inl (a, b) ↦ rw (a, b) refl
  | inr (inl (a, b)) ↦ rw (a, b) refl
  | inr (inr (inl (a, b))) ↦ rw (a, b) refl
  | inr (inr (inr (a, b))) ↦ rw (a, b) refl
]

-- A storage variable with a label that is accepted: without a flag, a remote variable and a remote
-- setting in the file, the SDK is in remote mode exactly if the backend is "remote".
pub resolve_remote-resolve_storage_backend :
    (machine : Machine) (config_path : Option Text) {label backend : Text}
    → machine.var (lit "JACS_DEFAULT_STORAGE") ≡ some label
    → is_empty label ≡ false
    → machine.var (lit "JACS_REMOTE") ≡ none
    → and_then
        (config_data machine config_path)
        (λ document. and_then (get (lit "remote") document) as_bool)
      ≡ none
    → resolve_storage_backend machine none config_path ≡ ok backend
    → resolve_remote machine none config_path ≡ text_eq backend (lit "remote")
unfolding resolve_remote resolve_storage_backend
resolve_remote-resolve_storage_backend machine config_path {label} {backend} a b c d h =
    let accepted : resolve_storage_backend_label label ≡ ok backend =
      rw (resolve_storage_backend, a, b) at h in
    let same = names_remote-label label accepted in
    elim (Bool-cases (names_remote label)) [
      | inl e ↦ rw (resolve_remote, a, c, d, e) (sym e ∙ same)
      | inr e ↦ rw (resolve_remote, a, c, d, e) (sym e ∙ same)
    ]

-- What a configuration that is loaded was read from.
pub record IsLoaded (machine : Machine) (path : Option Text) (config : AgentConfig) : Type 0 where
  pub raw : Text
  pub document : Value
  pub id : Text
  pub found : machine.is_file config.source_path ≡ true
  pub read : machine.read_to_string config.source_path ≡ done raw
  pub parsed : machine.from_str raw ≡ done document
  pub names_agent :
      get_string document (lit "jacsAgentName" ∷ lit "agent_name" ∷ [])
      ≡ some config.jacs_agent_name
  pub has_id : config.jacs_id ≡ some id
  pub names_id : get_string document (lit "jacsId" ∷ lit "jacs_id" ∷ []) ≡ some id
  pub from_path : config.source_path ≡ resolve_config_path machine path

-- A configuration that is loaded is that of the resolved file, which was found, read and parsed, and
-- which names the agent and its identifier.
pub load_config-IsLoaded :
    (machine : Machine) (path : Option Text) {config : AgentConfig}
    → load_config machine path ≡ ok config
    → IsLoaded machine path config
unfolding load_config read_config
load_config-IsLoaded machine path {config} h =
    let source_path = resolve_config_path machine path in
    elim (Bool-cases (machine.is_file source_path)) [
      | inr a ↦ ground (arith, a, h)
      | inl a ↦ elim (Foreign-cases (machine.read_to_string source_path)) [
        | inr (t, b) ↦ ground (arith, a, b, h)
        | inl (raw, b) ↦ elim (Foreign-cases (machine.from_str raw)) [
          | inr (t, c) ↦ ground (arith, a, b, c, h)
          | inl (document, c) ↦
              elim (Option-cases
                (get_string document (lit "jacsAgentName" ∷ lit "agent_name" ∷ []))) [
                  | inl d ↦ ground (arith, a, b, c, d, h)
                  | inr (name, d) ↦
                      elim (Option-cases
                        (get_string document (lit "jacsId" ∷ lit "jacs_id" ∷ []))) [
                          | inl e ↦ ground (arith, a, b, c, d, e, h)
                          | inr (id, e) ↦
                              let same : config.source_path ≡ source_path =
                                ground (arith, a, b, c, d, e, h) in
                              record {
                                raw = raw;
                                document = document;
                                id = id;
                                found = ap machine.is_file same ∙ a;
                                read = ap machine.read_to_string same ∙ b;
                                parsed = c;
                                names_agent = ground (arith, a, b, c, d, e, h);
                                has_id = ground (arith, a, b, c, d, e, h);
                                names_id = e;
                                from_path = same;
                              }
                        ]
                ]
        ]
      ]
    ]
