-- ===== src/Documents/Editing.antt =====
-- `save_document` and `get_typed_latest_document` of rust/haiai/src/jacs.rs. The operations of the
-- provider read and change its state.
use haiai.Prelude.{ℕ, Option, none, some, List, [], ◌∷◌, ◌++◌, not, if◌then◌else◌}
use haiai.Text.{Text, lit, text_eq}
use haiai.Text.Utf8.{Bytes}
use haiai.Error.{provider, display, Result, ok, err, ◌>>=◌, ◌>>◌}
use haiai.Json.{get_str, and_then, unwrap_or}
use haiai.Remote.{DocSummary}
use haiai.Documents.{
  create, update, upsert, SaveDocumentRequest, SignedDocument, ExistingEditableDocument, Reading,
  is_document_not_found_error, summary_from_document_bytes, metadata_of,
}

-- The operations of `JacsDocumentProvider` that are called here: only the last one changes the state.
pub record Provider : Type 1 where
  pub State : Type 0
  pub reading : Reading
  pub get_record_bytes : State → Text → Result Bytes
  pub find_document : State → Text → Option Text → ℕ → Result (List DocSummary)
  pub query_by_type : State → Text → ℕ → ℕ → Result (List Text)
  pub list_documents : State → Option Text → Result (List Text)
  pub get_document : State → Text → Result Text
  pub sign_text_document_create : State → Text → Text → Text → Bytes → Result Bytes
  pub sign_text_document_update : State → Bytes → Bytes → Text → Result Bytes
  pub store_signed_text : State → Bytes → Text → Result Text × State

module _ (p : Provider) where
  open p use {State}

  unfoldable pub existing_by_id :
      State → SaveDocumentRequest → Text → Result (Option ExistingEditableDocument)
  existing_by_id store request doc_id = elim (p.get_record_bytes store doc_id) [
    | ok signed_bytes ↦
        summary_from_document_bytes p.reading (some doc_id) none request.content_type signed_bytes
        >>= λ found. ok (
            and_then found
              (λ summary. some (record { summary = summary; signed_bytes = signed_bytes })))
    | err e ↦
        if is_document_not_found_error e
        then ok none
        else err (
            provider (
              lit "save_document: failed to resolve existing doc_id '"
              ++ (doc_id ++ (lit "': " ++ display e))))
  ]

  -- The document of the first summary that was found.
  unfoldable pub existing_of : State → List DocSummary → Result (Option ExistingEditableDocument)
  existing_of store [] = ok none
  existing_of store (summary ∷ summaries) = p.get_record_bytes store summary.key >>= λ signed_bytes.
      ok (some (record { summary = summary; signed_bytes = signed_bytes }))

  unfoldable pub resolve_existing :
      State → SaveDocumentRequest → Result (Option ExistingEditableDocument)
  resolve_existing store request = elim request.doc_id [
    | some doc_id ↦ existing_by_id store request doc_id
    | none ↦
        if request.singleton
        then (p.find_document store request.jacs_type none 1 >>= existing_of store)
        else elim request.logical_name [
          | some name ↦ p.find_document store request.jacs_type (some name) 1 >>= existing_of store
          | none ↦ ok none
        ]
  ]

  unfoldable pub enforce_intent :
      SaveDocumentRequest → Option ExistingEditableDocument → Result (Unit {0})
  enforce_intent request existing = elim request.intent [
    | upsert ↦ ok tt
    | update ↦ elim existing [
      | some doc ↦ ok tt
      | none ↦ err (
          provider
            (lit "cannot update: no existing '" ++ (request.jacs_type ++ lit "' document found")))
    ]
    | create ↦ elim existing [
      | none ↦ ok tt
      | some doc ↦
          if request.singleton
          then err (
              provider (
                lit "duplicate singleton: a '"
                ++ (request.jacs_type ++ lit "' document already exists for this owner")))
          else err
              (provider (lit "document already exists with id '" ++ (doc.summary.id ++ lit "'")))
    ]
  ]

  unfoldable pub check_version : Option Text → Option ExistingEditableDocument → Result (Unit {0})
  check_version none existing = ok tt
  check_version (some expected) none = ok tt
  check_version (some expected) (some doc) =
      if not (text_eq doc.summary.version expected)
      then err (
          provider (
            lit "stale version: expected '"
            ++ (expected ++ (lit "' but latest is '" ++ (doc.summary.version ++ lit "'")))))
      else ok tt

  unfoldable pub sign_document :
      State → SaveDocumentRequest → Option ExistingEditableDocument → Result Bytes
  sign_document store request (some doc) =
      p.sign_text_document_update store doc.signed_bytes request.plaintext doc.summary.version
  sign_document store request none =
      p.sign_text_document_create store request.jacs_type (unwrap_or [] request.logical_name)
        request.content_type request.plaintext

  -- Steps 1 to 4: the bytes to store.
  unfoldable pub prepare : State → SaveDocumentRequest → Result Bytes
  prepare store request = resolve_existing store request >>= λ existing.
      enforce_intent request existing
      >> (check_version request.expected_previous_version existing
          >> sign_document store request existing)

  unfoldable pub save_document : State → SaveDocumentRequest → Result SignedDocument × State
  save_document store request = elim (prepare store request) [
    | err e ↦ (err e, store)
    | ok signed_bytes ↦
        let (stored, store') = p.store_signed_text store signed_bytes request.content_type in
        (
          stored
              >>= (λ key. ok (record { key = key; json = p.reading.from_utf8_lossy signed_bytes })),
          store',
        )
  ]

  unfoldable pub doc_type : Text → Option Text
  doc_type doc = and_then (metadata_of p.reading doc) (get_str (lit "jacsType"))

  -- The first of the listed documents of a type.
  unfoldable pub first_of_type : State → Text → List Text → Result (Option Text)
  first_of_type store jacs_type [] = ok none
  first_of_type store jacs_type (key ∷ keys) =
      let rest = first_of_type store jacs_type keys in
      p.get_document store key >>= λ doc. elim (doc_type doc) [
        | none ↦ rest
        | some found ↦ if text_eq found jacs_type then ok (some doc) else rest
      ]

  abbrev latest_of : State → Text → List Text → Result (Option Text)
  latest_of store jacs_type [] = p.list_documents store none >>= first_of_type store jacs_type
  latest_of store jacs_type (key ∷ keys) = p.get_document store key >>= λ doc. ok (some doc)

  unfoldable pub get_typed_latest_document : State → Text → Result (Option Text)
  get_typed_latest_document store jacs_type =
      p.query_by_type store jacs_type 1 0 >>= latest_of store jacs_type
