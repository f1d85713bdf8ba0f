-- ===== src/Client/Keys.antt =====
-- The trusted server keys of rust/haiai/src/client.rs: `parse_server_public_keys`. A `HashMap` is an
-- association list that is only looked up by key.
pub mod Trust
use haiai.Prelude.{
  ℕ, Bool, true, false, ◌&&◌, not, Option, none, some, List, [], ◌∷◌, ◌++◌, is_empty, if◌then◌else◌,
}
use haiai.Text.{Text, lit, text_eq, trim, starts_with}
use haiai.Text.Utf8.{Bytes, as_bytes}
use haiai.Error.{HaiError, signed_event_verification, display, Result, ok, err, ◌>>=◌, ok_or}
use haiai.Json.{Value, get, as_array, as_bool, get_str, and_then, or_else, option_filter}

abbrev pub KeyMap : Type 0
KeyMap = List (Text × Bytes)

unfoldable pub lookup : Text → KeyMap → Option Bytes
lookup id [] = none
lookup id ((j, key) ∷ trusted) = if text_eq j id then some key else lookup id trusted

abbrev pub trimmed : Option Text → Option Text
trimmed none = none
trimmed (some s) = option_filter (λ t. not (is_empty t)) (some (trim s))

-- `entry.get("is_active").and_then(Value::as_bool) != Some(true)` is its negation.
unfoldable pub is_active : Value → Bool
is_active entry = elim (and_then (get (lit "is_active") entry) as_bool) [
  | none ↦ false
  | some b ↦ b
]

-- The fallback: a `key_id` of the form `<jacs_id>:<version>`.
unfoldable pub versioned_key_id : Text → Text → Option Text
versioned_key_id jacs_id key_id =
    if not (is_empty (trim jacs_id)) && starts_with (trim jacs_id ++ lit ":") (trim key_id)
    then some (trim key_id)
    else none

unfoldable pub signer_id_of : Value → Option Text
signer_id_of entry = or_else (trimmed (get_str (lit "signer_id") entry)) (
    and_then (get_str (lit "jacs_id") entry)
      λ jacs_id. and_then (get_str (lit "key_id") entry) λ key_id. versioned_key_id jacs_id key_id)

unfoldable pub public_key_of : Value → Option Text
public_key_of entry = trimmed (get_str (lit "public_key") entry)

pub missing_signer_id : HaiError
missing_signer_id =
    signed_event_verification
      (lit "HAI server key response contains an active key without an exact signer_id")

pub missing_public_key : Text → HaiError
missing_public_key id =
    signed_event_verification (lit "HAI server key response has no public key for " ++ id)

pub conflicting_keys : Text → HaiError
conflicting_keys id =
    signed_event_verification
      (lit "HAI server key response contains conflicting active keys for " ++ id)

pub missing_keys_array : HaiError
missing_keys_array =
    signed_event_verification (lit "HAI server key response is missing a keys array")

pub no_usable_key : HaiError
no_usable_key =
    signed_event_verification (lit "HAI server key response contains no usable active signing key")

-- `if let Some(previous) = trusted.get(&signer_id) { … } else { trusted.insert(…) }`
unfoldable pub add_key : KeyMap → Text → Bytes → Result KeyMap
unfolding lookup
add_key trusted id key = elim (lookup id trusted) [
  | some previous ↦ if text_eq previous key then ok trusted else err (conflicting_keys id)
  | none ↦ ok ((id, key) ∷ trusted)
]

-- The body of the loop.
unfoldable pub add_entry : KeyMap → Value → Result KeyMap
unfolding is_active
add_entry trusted entry = if not (is_active entry) then ok trusted else do
  id ← ok_or missing_signer_id (signer_id_of entry)
  key ← ok_or (missing_public_key id) (public_key_of entry)
  add_key trusted id (as_bytes key)

unfoldable pub add_entries : KeyMap → List Value → Result KeyMap
unfolding add_entry
add_entries trusted [] = ok trusted
add_entries trusted (entry ∷ entries) = add_entry trusted entry >>= λ more. add_entries more entries

unfoldable pub require_some_key : KeyMap → Result KeyMap
require_some_key trusted = if is_empty trusted then err no_usable_key else ok trusted

unfoldable pub parse_server_public_keys : Value → Result KeyMap
unfolding add_entries require_some_key
parse_server_public_keys document = do
  entries ← ok_or missing_keys_array (and_then (get (lit "keys") document) as_array)
  trusted ← add_entries [] entries
  require_some_key trusted

-- `refresh_server_public_keys`, from what fetching the document gave.
unfoldable pub refresh_server_public_keys : Result Value → Result KeyMap
refresh_server_public_keys (err e) =
    err (signed_event_verification (lit "HAI server key refresh failed: " ++ display e))
refresh_server_public_keys (ok document) = parse_server_public_keys document
