-- ===== src/Remote.antt =====
-- rust/haiai/src/jacs_remote.rs: record keys, responses, and the keys, summaries and hits of a page.
-- `percent_encoding`, the JSON parser and printer and floating point numbers are parameters.
pub mod Pages
use haiai.Prelude.{
  ℕ, ◌&&◌, Bool, true, false, Option, none, some, List, [], ◌∷◌, ◌++◌, leb, length, take, drop,
  is_empty, if◌then◌else◌,
}
use haiai.Text.{Text, lit, split_once, starts_with, text_eq}
use haiai.Text.Utf8.{Bytes}
use haiai.Error.{HaiError, api, provider, json, Result, ok, err, Foreign, done, fault, lift, ◌>>=◌}
use haiai.Json.{Value, null, get, as_str, as_array, get_str, and_then, or_else, unwrap_or}

unfoldable pub url : Text → Text → Text
url base_url path =
    if starts_with (lit "/") path then base_url ++ path else base_url ++ (lit "/" ++ path)

-- `id` or `id:version`
unfoldable pub split_key : Text → Text × Option Text
split_key key = elim (split_once b':' key) [
  | none ↦ (key, none)
  | some (id, version) ↦ if is_empty version then (key, none) else (id, some version)
]

-- `format!("{}:{}", id, version)`
unfoldable pub join_key : Text → Text → Text
join_key id version = id ++ (lit ":" ++ version)

unfoldable pub map_status_error : (Text → Option Value) → ℕ → Text → HaiError
map_status_error from_str status body = api status (
    if leb 500 status && leb status 599
    then lit "server error: " ++ body
    else unwrap_or body (and_then (from_str body) (get_str (lit "error"))))

-- The status, and the body or the error of reading it.
unfoldable pub parse_response : (Text → Foreign Value) → ℕ → Foreign Text → Result Value
unfolding map_status_error
parse_response from_str status body =
    lift body (λ e. provider (lit "network error reading body: " ++ e)) >>= λ text.
    if leb 200 status && leb status 299
    then (if is_empty text then ok null else lift (from_str text) json)
    else err
        (map_status_error (λ t. elim (from_str t) [ done v ↦ some v | fault e ↦ none ]) status text)

-- `iter().filter_map(f)`
unfoldable pub filter_map : {A B : Type 0} → (A → Option B) → List A → List B
filter_map f [] = []
filter_map f (x ∷ xs) = let rest = filter_map f xs in elim (f x) [ none ↦ rest | some y ↦ y ∷ rest ]

-- The first of two names that an item has, as a string.
unfoldable pub either_str : Text → Text → Value → Option Text
either_str name other item = and_then (or_else (get name item) (get other item)) as_str

unfoldable pub items_of : Value → List Value
items_of resp = unwrap_or [] (and_then (get (lit "items") resp) as_array)

-- The identifier and the version of an item that has both.
unfoldable pub item_key : Value → Option (Text × Text)
unfolding either_str
item_key item = and_then (either_str (lit "jacs_id") (lit "id") item) λ id.
    and_then (either_str (lit "jacs_version") (lit "version") item) λ version. some (id, version)

unfoldable pub extract_keys_from_list : Value → List Text
unfolding item_key items_of filter_map
extract_keys_from_list resp =
    filter_map (λ item. and_then (item_key item) λ (id, version). some (join_key id version))
      (items_of resp)

pub record DocSummary : Type 0 where
  pub id : Text
  pub version : Text
  pub key : Text
  pub jacs_type : Text
  pub logical_name : Option Text
  pub content_type : Text
  pub created_at : Text

-- `logical_name_from_metadata` is an argument here; Documents has that of rust/haiai/src/jacs.rs.
unfoldable pub extract_summaries_from_list : (Value → Option Text) → Value → List DocSummary
unfolding item_key items_of filter_map
extract_summaries_from_list logical_name_from_metadata resp =
    filter_map
      (λ item. and_then (item_key item) λ (id, version). some (record {
        id = id;
        version = version;
        key = join_key id version;
        jacs_type = unwrap_or (lit "unknown") (either_str (lit "jacs_type") (lit "jacsType") item);
        logical_name = logical_name_from_metadata item;
        content_type =
            unwrap_or (lit "application/json")
              (either_str (lit "content_type") (lit "contentType") item);
        created_at = unwrap_or [] (either_str (lit "created_at") (lit "jacsVersionDate") item);
      }))
      (items_of resp)

module _ (F64 : Type 0) (zero_f64 : F64) (as_f64 : Value → Option F64)
    (to_string : Value → Foreign Text) where
  pub record DocSearchHit : Type 0 where
    pub key : Text
    pub json : Text
    pub score : F64
    pub matched_fields : List Text

  unfoldable pub extract_hits : Value → List DocSearchHit
  unfolding item_key items_of filter_map
  extract_hits resp =
      filter_map
        (λ item. and_then (item_key item) λ (id, version). some (record {
          key = join_key id version;
          json = elim (to_string item) [ done t ↦ t | fault e ↦ [] ];
          score = unwrap_or zero_f64 (and_then (get (lit "ts_rank") item) as_f64);
          matched_fields = [];
        }))
        (items_of resp)

-- The magic numbers of the three formats.
unfoldable pub detect_image_content_type : Bytes → Result Text
detect_image_content_type bytes =
    if starts_with (0x89 ∷ b'P' ∷ b'N' ∷ b'G' ∷ b'\r' ∷ b'\n' ∷ 0x1a ∷ b'\n' ∷ []) bytes
    then ok (lit "image/png")
    else if starts_with (0xff ∷ 0xd8 ∷ 0xff ∷ []) bytes
    then ok (lit "image/jpeg")
    else if leb 12 (length bytes)
        && text_eq (take 4 bytes) (lit "RIFF")
        && text_eq (take 4 (drop 8 bytes)) (lit "WEBP")
    then ok (lit "image/webp")
    else err (provider (lit "unknown image format"))
