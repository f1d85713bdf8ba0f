-- ===== src/Tests/Settings.antt =====
-- Configurations, verify links and keys.
use haiai.Prelude.{
  zero, suc, ◌≤◌, ◌<◌, ℕ, ◌+◌, ◌*◌, ◌/◌, ◌≡◌, refl, false, Option, none, some, [], ◌∷◌, ◌++◌,
  is_empty, length, arith, if◌then◌else◌,
}
use haiai.Text.{
  contains_char, contains_char-Lacks, Text, lit, text_eq, len, len_utf8, contains, starts_with,
  strip_prefix,
}
use haiai.Text.Utf8.{Bytes}
use haiai.Error.{verify_url_too_long, ok, err, done}
use haiai.Json.{Value, obj, str, end, field, get, get_str, as_str, as_bool, and_then}
use haiai.Config.{
  Machine, AgentConfig, get_string, config_text, config_data, resolve_config_path, read_config,
  load_config, resolve_storage_backend_label, resolve_storage_backend, resolve_remote,
  redacted_display,
}
use haiai.Config.Storage.{
  IsLoaded, resolve_storage_backend-redacted_display, resolve_remote-resolve_storage_backend,
  load_config-IsLoaded,
}
use haiai.Links.{generate_verify_link, max_verify_url_len, normalize_public_key_pem}
use haiai.Links.Fits.{generate_verify_link-fits}
use haiai.Links.Pem.{IsPayload, extract_public_key_bytes-normalize_public_key_pem}
use haiai.Email.Verify.Keys.{extract_public_key_bytes, ed25519_oid}
use haiai.Tests.Verify.{world}

abbrev settings : Value
settings = obj (
    field (lit "agent_name") (str (lit "bot")) (
      field (lit "jacsId") (str (lit "id"))
        (field (lit "default_storage") (str (lit "sqlite")) end)))

abbrev machine : Option Text → Machine
machine storage = record {
  var = λ name. if text_eq name (lit "JACS_DEFAULT_STORAGE") then storage else none;
  is_file = λ path. text_eq path (lit "./jacs.config.json");
  read_to_string = λ path. done (lit "settings");
  from_str = λ text. done settings;
  parent = λ path. lit ".";
  is_absolute = starts_with (lit "/");
  join_path = λ dir path. dir ++ (lit "/" ++ path);
  to_lowercase = λ text. text;
  log_level = λ text. none;
}

resolve_storage_backend-redacted_display_example :
    resolve_storage_backend (machine none) none none
    ≡ resolve_storage_backend_label (redacted_display (machine none) none none).backend
resolve_storage_backend-redacted_display_example =
    resolve_storage_backend-redacted_display (machine none) none none

from_file : resolve_storage_backend (machine none) none none ≡ ok (lit "rusqlite")
unfolding resolve_storage_backend resolve_storage_backend_label config_data config_text
    resolve_config_path get_string get_str get as_str text_eq lit
from_file = refl

remote_variable :
    resolve_storage_backend (machine (some (lit "remote"))) none none ≡ ok (lit "remote")
unfolding resolve_storage_backend resolve_storage_backend_label text_eq lit
remote_variable = refl

storage_is_set :
    (machine (some (lit "remote"))).var (lit "JACS_DEFAULT_STORAGE") ≡ some (lit "remote")
unfolding text_eq lit
storage_is_set = refl

remote_is_unset : (machine (some (lit "remote"))).var (lit "JACS_REMOTE") ≡ none
unfolding text_eq lit
remote_is_unset = refl

label_is_not_empty : is_empty (lit "remote") ≡ false
unfolding lit
label_is_not_empty = refl

no_remote_setting :
    and_then
      (config_data (machine (some (lit "remote"))) none)
      (λ document. and_then (get (lit "remote") document) as_bool)
    ≡ none
unfolding config_data config_text resolve_config_path get text_eq lit
no_remote_setting = refl

resolve_remote-resolve_storage_backend_example :
    resolve_remote (machine (some (lit "remote"))) none none ≡ text_eq (lit "remote") (lit "remote")
resolve_remote-resolve_storage_backend_example =
    resolve_remote-resolve_storage_backend (machine (some (lit "remote"))) none storage_is_set
      label_is_not_empty remote_is_unset no_remote_setting remote_variable

abbrev loaded : AgentConfig
loaded = record {
  jacs_agent_name = lit "bot";
  jacs_agent_version = lit "1.0.0";
  jacs_key_dir = lit "./.";
  jacs_id = some (lit "id");
  jacs_private_key_path = none;
  source_path = lit "./jacs.config.json";
  agent_email = none;
}

settings_loaded : load_config (machine none) none ≡ ok loaded
unfolding load_config read_config resolve_config_path get_string get_str get as_str starts_with
    strip_prefix text_eq lit
settings_loaded = refl

load_config-IsLoaded_example : IsLoaded (machine none) none loaded
load_config-IsLoaded_example = load_config-IsLoaded (machine none) none settings_loaded

abbrev fill : ℕ → Text
fill zero = []
fill (suc n) = b'A' ∷ fill n

-- A payload of the length of unpadded base64.
abbrev filled : Text → Text
filled document = fill ((4 * len document + 2) / 3)

filled-len : len (filled (lit "{}")) ≡ (4 * len (lit "{}") + 2) / 3
unfolding len len_utf8 lit
filled-len = refl

generate_verify_link-fits_example :
    ((len (lit "{}") ≤ 1514)
      → (url : Text) × (generate_verify_link filled (lit "{}") none ≡ ok url)
        × (len url ≤ max_verify_url_len))
    × ((1514 < len (lit "{}"))
        → generate_verify_link filled (lit "{}") none
          ≡ err (verify_url_too_long max_verify_url_len))
generate_verify_link-fits_example = generate_verify_link-fits filled (lit "{}") filled-len

-- A key that is its own payload.
abbrev raw_key : Bytes
raw_key = lit "0123456789abcdef"

abbrev no_text : Bytes → Option Text
no_text raw = none

raw_key-has_no_oid : contains ed25519_oid raw_key ≡ false
unfolding contains starts_with strip_prefix ed25519_oid lit
raw_key-has_no_oid = refl

raw_key-IsPayload : IsPayload raw_key
unfolding contains_char lit
raw_key-IsPayload = (
  contains_char-Lacks b'\n' raw_key refl,
  contains_char-Lacks b'\r' raw_key refl,
  contains_char-Lacks b'-' raw_key refl,
)

raw_key-is_long : 12 ≤ length raw_key
unfolding lit
raw_key-is_long = omega arith

extract_public_key_bytes-normalize_public_key_pem_example :
    extract_public_key_bytes world (normalize_public_key_pem no_text (λ raw. raw) raw_key)
    ≡ ok raw_key
extract_public_key_bytes-normalize_public_key_pem_example =
    extract_public_key_bytes-normalize_public_key_pem world no_text (λ raw. raw) raw_key
      (λ text e. cc) raw_key-IsPayload refl raw_key-is_long raw_key-has_no_oid
