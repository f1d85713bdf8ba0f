-- ===== src/Config.antt =====
-- rust/haiai/src/config.rs: `jacs.config.json` and the settings that are resolved from it. The
-- environment, the files, paths, JSON and the `jacs` crate's configuration are parameters.
pub mod Storage
use haiai.Prelude.{
  ℕ, Bool, true, false, ◌&&◌, ◌||◌, not, Option, none, some, List, [], ◌∷◌, ◌++◌, is_empty, map,
  if◌then◌else◌,
}
use haiai.Text.{Text, lit, trim, text_eq, eq_ignore_ascii_case}
use haiai.Error.{
  HaiError, config_not_found, config_invalid, json, Result, ok, err, ok_or, ◌>>=◌, ◌>>◌, Foreign,
  done, fault, lift,
}
use haiai.Json.{Value, get, as_bool, get_str, and_then, or_else, unwrap_or}

pub record AgentConfig : Type 0 where
  pub jacs_agent_name : Text
  pub jacs_agent_version : Text
  pub jacs_key_dir : Text
  pub jacs_id : Option Text
  pub jacs_private_key_path : Option Text
  pub source_path : Text
  pub agent_email : Option Text

-- The machine: variables, files, and the `Path` and `str` operations of the standard library.
pub record Machine : Type 0 where
  pub var : Text → Option Text
  pub is_file : Text → Bool
  pub read_to_string : Text → Foreign Text
  pub from_str : Text → Foreign Value
  pub parent : Text → Text
  pub is_absolute : Text → Bool
  pub join_path : Text → Text → Text
  pub to_lowercase : Text → Text
  -- `effective_log_level` of the file's text read as the configuration of the `jacs` crate
  pub log_level : Text → Option Text

-- The first of the keys that has a string.
unfoldable pub get_string : Value → List Text → Option Text
get_string document [] = none
get_string document (key ∷ keys) = or_else (get_str key document) (get_string document keys)

unfoldable pub resolve_storage_backend_label : Text → Result Text
resolve_storage_backend_label label =
    if text_eq label (lit "fs")
    then ok (lit "fs")
    else if text_eq label (lit "rusqlite") || text_eq label (lit "sqlite")
    then ok (lit "rusqlite")
    else if text_eq label (lit "remote")
    then ok (lit "remote")
    else err (
        config_invalid (
          lit "Unsupported storage backend '"
          ++ (label ++ lit "'. Valid routed labels: fs, rusqlite, sqlite, remote")))

pub record StorageConfigSummary : Type 0 where
  pub backend : Text
  pub source : Text
  pub remote : Bool

-- `Display` of the summary
unfoldable pub display_summary : StorageConfigSummary → Text
display_summary s =
    lit "backend="
    ++ (s.backend
        ++ (lit " (from "
            ++ (s.source ++ (lit "), remote=" ++ (if s.remote then lit "true" else lit "false")))))

abbrev pub storage_keys : List Text
storage_keys = lit "jacs_default_storage" ∷ lit "default_storage" ∷ lit "defaultStorage" ∷ []

unfoldable pub resolve_private_key_candidates : (Text → Text → Text) → AgentConfig → List Text
resolve_private_key_candidates join_path config =
    let explicit : List Text = elim config.jacs_private_key_path [
      | none ↦ []
      | some path ↦ path ∷ []
    ] in
    explicit
    ++ (join_path config.jacs_key_dir (lit "agent_private_key.pem")
        ∷ join_path config.jacs_key_dir (config.jacs_agent_name ++ lit ".private.pem")
        ∷ join_path config.jacs_key_dir (lit "private_key.pem")
        ∷ [])

abbrev pub non_empty : Option Text → Option Text
non_empty none = none
non_empty (some text) = if is_empty text then none else some text

abbrev to_option : {A : Type 0} → Foreign A → Option A
to_option (done a) = some a
to_option (fault e) = none

module _ (machine : Machine) where
  unfoldable pub resolve_config_path : Option Text → Text
  resolve_config_path (some path) = path
  resolve_config_path none =
      unwrap_or (lit "./jacs.config.json") (non_empty (machine.var (lit "JACS_CONFIG_PATH")))

  -- The configuration file's text, when there is one that can be read.
  unfoldable pub config_text : Option Text → Option Text
  config_text config_path =
      let path = resolve_config_path config_path in
      if machine.is_file path then to_option (machine.read_to_string path) else none

  unfoldable pub config_data : Option Text → Option Value
  config_data config_path =
      and_then (config_text config_path) λ text. to_option (machine.from_str text)

  abbrev anchor : Text → Text → Text
  anchor config_dir path =
      if machine.is_absolute path then path else machine.join_path config_dir path

  -- The settings of the file at `source_path`.
  unfoldable pub read_config : Text → Value → Result AgentConfig
  unfolding get_string
  read_config source_path document =
      let config_dir = machine.parent source_path in
      ok_or (config_invalid (lit "jacsAgentName (or agent_name) is required but missing"))
        (get_string document (lit "jacsAgentName" ∷ lit "agent_name" ∷ []))
      >>= λ jacs_agent_name.
          ok_or (config_invalid (lit "jacsId (or jacs_id) is required but missing"))
            (get_string document (lit "jacsId" ∷ lit "jacs_id" ∷ []))
          >>= λ jacs_id. ok (record {
            jacs_agent_name = jacs_agent_name;
            jacs_agent_version =
                unwrap_or (lit "1.0.0")
                  (get_string document (lit "jacsAgentVersion" ∷ lit "agent_version" ∷ []));
            jacs_key_dir =
                anchor config_dir (
                  unwrap_or (lit ".")
                    (get_string document (lit "jacsKeyDir" ∷ lit "key_dir" ∷ [])));
            jacs_id = some jacs_id;
            jacs_private_key_path =
                and_then
                  (get_string document (lit "jacsPrivateKeyPath" ∷ lit "private_key_path" ∷ []))
                  (λ path. some (anchor config_dir path));
            source_path = source_path;
            agent_email = get_string document (lit "agent_email" ∷ lit "agentEmail" ∷ []);
          })

  unfoldable pub load_config : Option Text → Result AgentConfig
  load_config path =
      let source_path = resolve_config_path path in
      if not (machine.is_file source_path)
      then err (config_not_found source_path)
      else (lift (machine.read_to_string source_path)
            (λ e. config_invalid (lit "failed to read " ++ (source_path ++ (lit ": " ++ e))))
          >>= λ raw.
              lift (machine.from_str raw) json >>= λ document. read_config source_path document)

  unfoldable pub resolve_storage_backend : Option Text → Option Text → Result Text
  resolve_storage_backend (some label) config_path = resolve_storage_backend_label label
  resolve_storage_backend none config_path =
      elim (non_empty (machine.var (lit "JACS_DEFAULT_STORAGE"))) [
        | some label ↦ resolve_storage_backend_label label
        | none ↦
            elim (and_then (config_data config_path)
              (λ document. get_string document storage_keys)) [
                | some label ↦ resolve_storage_backend_label label
                | none ↦ ok (lit "fs")
              ]
      ]

  abbrev truth : Text → Option Bool
  truth val =
      if text_eq val (lit "true") || text_eq val (lit "1") || text_eq val (lit "yes")
      then some true
      else if text_eq val (lit "false") || text_eq val (lit "0") || text_eq val (lit "no")
      then some false
      else none

  unfoldable pub resolve_remote : Option Bool → Option Text → Bool
  resolve_remote (some r) config_path = r
  resolve_remote none config_path =
      let from_env =
        and_then (machine.var (lit "JACS_REMOTE"))
          (λ val. truth (machine.to_lowercase (trim val))) in
      let from_file =
        and_then (config_data config_path)
          (λ document. and_then (get (lit "remote") document) as_bool) in
      let from_storage =
        and_then (machine.var (lit "JACS_DEFAULT_STORAGE"))
          (λ label. if eq_ignore_ascii_case (trim label) (lit "remote") then some true else none) in
      unwrap_or false (or_else from_env (or_else from_file from_storage))

  unfoldable pub redacted_display : Option Text → Option Text → StorageConfigSummary
  redacted_display explicit config_path =
      let remote = resolve_remote none config_path in
      elim explicit [
        | some label ↦ record { backend = label; source = lit "--storage flag"; remote = remote }
        | none ↦ elim (non_empty (machine.var (lit "JACS_DEFAULT_STORAGE"))) [
          | some label ↦ record {
            backend = label;
            source = lit "JACS_DEFAULT_STORAGE env var";
            remote = remote;
          }
          | none ↦
              elim (and_then (config_data config_path)
                (λ document. get_string document storage_keys)) [
                  | some label ↦ record {
                    backend = label;
                    source = lit "config file";
                    remote = remote;
                  }
                  | none ↦ record { backend = lit "fs"; source = lit "default"; remote = remote }
                ]
        ]
      ]

  abbrev default_log_filter : Text
  default_log_filter = lit "info,rmcp=warn"

  unfoldable pub resolve_log_filter : Option Text → Text
  resolve_log_filter config_path =
      let from_env =
        and_then (machine.var (lit "RUST_LOG"))
          (λ filter. if is_empty (trim filter) then none else some filter) in
      let from_file = and_then (and_then (config_text config_path) machine.log_level) (λ effective.
        let level = trim effective in
        if not (is_empty level) && not (text_eq level (lit "info"))
        then some (level ++ lit ",rmcp=warn")
        else none) in
      unwrap_or default_log_filter (or_else from_env from_file)
