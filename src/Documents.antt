-- ===== src/Documents.antt =====
-- Editable documents in rust/haiai/src/jacs.rs: `save_document` over a provider, whose other
-- operations and state are a parameter, as are JSON, UTF-8 and the footers of the `jacs` crate.
pub mod Editing
pub mod Save
use haiai.Prelude.{
  ℕ, Bool, true, false, ◌||◌, ◌==◌, not, Option, none, some, List, [], ◌∷◌, ◌++◌, is_empty, map,
  if◌then◌else◌,
}
use haiai.Text.{Text, lit, trim, text_eq, contains, contains_char, to_ascii_lowercase}
use haiai.Text.Utf8.{Bytes}
use haiai.Error.{
  HaiError, api, provider, message, display, Result, ok, err, ok_or, ◌>>=◌, ◌>>◌, Foreign, done,
  fault, lift,
}
use haiai.Json.{Value, get, as_str, get_str, and_then, or_else, option_filter, unwrap_or}
use haiai.Remote.{DocSummary, join_key}

pub data SaveIntent : Type 0 where
  create update upsert : SaveIntent

pub record SaveDocumentRequest : Type 0 where
  pub doc_id : Option Text
  pub jacs_type : Text
  pub logical_name : Option Text
  pub content_type : Text
  pub plaintext : Bytes
  pub expected_previous_version : Option Text
  pub singleton : Bool
  pub intent : SaveIntent

pub record SignedDocument : Type 0 where
  pub key : Text
  pub json : Text

pub record ExistingEditableDocument : Type 0 where
  pub summary : DocSummary
  pub signed_bytes : Bytes

-- `value.pointer` for a path of object keys
unfoldable pub pointer : List Text → Value → Option Value
pointer [] value = some value
pointer (name ∷ names) value = and_then (get name value) (pointer names)

abbrev name_pointers : List (List Text)
name_pointers =
    (lit "logicalName" ∷ [])
    ∷ (lit "logical_name" ∷ [])
    ∷ (lit "fileName" ∷ [])
    ∷ (lit "filename" ∷ [])
    ∷ (lit "jacsLogicalName" ∷ [])
    ∷ (lit "content" ∷ lit "logicalName" ∷ [])
    ∷ (lit "content" ∷ lit "logical_name" ∷ [])
    ∷ (lit "content" ∷ lit "fileName" ∷ [])
    ∷ (lit "content" ∷ lit "filename" ∷ [])
    ∷ []

-- The first of the pointers with a name that is not blank.
unfoldable pub first_name : List (List Text) → Value → Option Text
unfolding pointer
first_name [] value = none
first_name (path ∷ paths) value =
    or_else
      (option_filter (λ name. not (is_empty name))
        (and_then (and_then (pointer path value) as_str) (λ name. some (trim name))))
      (first_name paths value)

unfoldable pub logical_name_from_metadata : Value → Option Text
logical_name_from_metadata = first_name name_pointers

unfoldable pub summary_matches_logical_name : DocSummary → Text → Bool
summary_matches_logical_name summary logical_name = elim summary.logical_name [
  | none ↦ false
  | some name ↦ text_eq name logical_name
]

abbrev says_not_found : Text → Bool
says_not_found text =
    let lower = to_ascii_lowercase text in
    contains (lit "not found") lower || contains (lit "no document") lower

unfoldable pub is_document_not_found_error : HaiError → Bool
is_document_not_found_error (api status text) = status == 404
is_document_not_found_error (provider text) = says_not_found text
is_document_not_found_error (message text) = says_not_found text
is_document_not_found_error _ = false

-- How a signed document is read.
pub record Reading : Type 0 where
  pub from_utf8 : Bytes → Foreign Text
  pub from_utf8_lossy : Bytes → Text
  pub from_str : Text → Foreign Value
  pub jacs_inline_metadata : Text → Option Value

module _ (reading : Reading) where
  unfoldable pub metadata_of : Text → Option Value
  metadata_of text = elim (reading.from_str text) [
    | done value ↦ some value
    | fault e ↦ reading.jacs_inline_metadata text
  ]

  unfoldable pub summary_from_metadata :
      Option Text → Option Text → Text → Text → Value → Option DocSummary
  summary_from_metadata fallback_id fallback_key fallback_content_type text value =
      let id = unwrap_or [] (or_else (get_str (lit "jacsId") value) fallback_id) in
      let version = unwrap_or [] (get_str (lit "jacsVersion") value) in
      if is_empty id || is_empty version
      then none
      else some (record {
        id = id;
        version = version;
        key =
            unwrap_or (join_key id version)
              (option_filter (λ key. contains_char b':' key) fallback_key);
        jacs_type = unwrap_or (lit "unknown") (get_str (lit "jacsType") value);
        logical_name = logical_name_from_metadata value;
        content_type =
            if contains (lit "-----BEGIN JACS SIGNATURE-----") text
            then fallback_content_type
            else lit "application/json";
        created_at = unwrap_or [] (get_str (lit "jacsVersionDate") value);
      })

  unfoldable pub summary_from_document_bytes :
      Option Text → Option Text → Text → Bytes → Result (Option DocSummary)
  summary_from_document_bytes fallback_id fallback_key fallback_content_type bytes =
      lift (reading.from_utf8 bytes)
        (λ e. provider (lit "save_document: existing signed document is not UTF-8 text: " ++ e))
      >>= λ text. ok (
          and_then (metadata_of text)
            (summary_from_metadata fallback_id fallback_key fallback_content_type text))
