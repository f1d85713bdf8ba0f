-- ===== src/Tests/Documents.antt =====
-- Documents that are saved.
use haiai.Prelude.{◌≡◌, refl, true, false, Option, none, some, List, [], ◌∷◌, ◌++◌}
use haiai.Text.{lit, text_eq}
use haiai.Text.Utf8.{Bytes}
use haiai.Error.{HaiError, api, Result, ok, err, done, fault}
use haiai.Remote.{DocSummary}
use haiai.Documents.{create, upsert, SaveDocumentRequest, SignedDocument}
use haiai.Documents.Editing.{
  Provider, resolve_existing, existing_of, enforce_intent, check_version, sign_document, prepare,
  save_document,
}
use haiai.Documents.Save.{IsSaved, stale, save_document-IsSaved, save_document-refused}

-- A store that keeps the last document, of version "1".
abbrev stored_summary : DocSummary
stored_summary = record {
  id = lit "d";
  version = lit "1";
  key = lit "d:1";
  jacs_type = lit "soul";
  logical_name = none;
  content_type = lit "text/markdown";
  created_at = [];
}

abbrev find_in : Option Bytes → Result (List DocSummary)
find_in none = ok []
find_in (some bytes) = ok (stored_summary ∷ [])

abbrev read_in : Option Bytes → Result Bytes
read_in none = err (api 404 [])
read_in (some bytes) = ok bytes

abbrev memory : Provider
memory = record {
  State = Option Bytes;
  reading = record {
    from_utf8 = λ b. done b;
    from_utf8_lossy = λ b. b;
    from_str = λ t. fault (lit "not JSON");
    jacs_inline_metadata = λ t. none;
  };
  get_record_bytes = λ store key. read_in store;
  find_document = λ store jacs_type name limit. find_in store;
  query_by_type = λ store jacs_type limit offset. ok [];
  list_documents = λ store jacs_type. ok [];
  get_document = λ store key. err (api 404 []);
  sign_text_document_create = λ store jacs_type name content_type text. ok (text ++ lit " v1");
  sign_text_document_update = λ store old text version. ok (text ++ lit " v2");
  store_signed_text = λ store bytes content_type. (ok (lit "d:1"), some bytes);
}

abbrev soul : SaveDocumentRequest
soul = record {
  doc_id = none;
  jacs_type = lit "soul";
  logical_name = none;
  content_type = lit "text/markdown";
  plaintext = lit "I";
  expected_previous_version = none;
  singleton = true;
  intent = create;
}

abbrev saved_soul : SignedDocument
saved_soul = record { key = lit "d:1"; json = lit "I v1" }

soul_saved : save_document memory none soul ≡ (ok saved_soul, some (lit "I v1"))
unfolding save_document prepare resolve_existing existing_of enforce_intent check_version
    sign_document lit
soul_saved = refl

save_document-IsSaved_example : IsSaved memory none soul saved_soul (some (lit "I v1"))
save_document-IsSaved_example = save_document-IsSaved memory none soul soul_saved

abbrev late : SaveDocumentRequest
late = record soul { intent = upsert; expected_previous_version = some (lit "2") }

late_resolved :
    resolve_existing memory (some (lit "x")) late
    ≡ ok (some (record { summary = stored_summary; signed_bytes = lit "x" }))
unfolding resolve_existing existing_of
late_resolved = refl

not_the_version : text_eq (lit "1") (lit "2") ≡ false
unfolding text_eq lit
not_the_version = refl

save_document-refused_example :
    (e : HaiError) × (save_document memory (some (lit "x")) late ≡ (err e, some (lit "x")))
save_document-refused_example = save_document-refused memory (some (lit "x")) late late_resolved (
    stale (record { summary = stored_summary; signed_bytes = lit "x" }) (lit "2") refl
      not_the_version)
