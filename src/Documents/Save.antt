-- ===== src/Documents/Save.antt =====
-- What `save_document` of rust/haiai/src/jacs.rs has checked when it stores, and what it refuses.
use haiai.Prelude.{
  ◌≡◌, refl, ap, ◌∙◌, inl, inr, true, false, Option, none, some, [], arith, Bool-cases,
}
use haiai.Text.{Text, text_eq, text_eq_iff}
use haiai.Text.Utf8.{Bytes}
use haiai.Error.{HaiError, Result, ok, err, Result-cases, ◌>>◌}
use haiai.Json.{unwrap_or}
use haiai.Documents.{create, update, SaveDocumentRequest, SignedDocument, ExistingEditableDocument}
use haiai.Documents.Editing.{
  Provider, resolve_existing, enforce_intent, check_version, sign_document, prepare, save_document,
}

module _ (p : Provider) where
  open p use {State}

  -- The document was signed as the next version of the existing one, or as a new one.
  abbrev SignedFrom : State → SaveDocumentRequest → Option ExistingEditableDocument → Bytes → Type 0
  SignedFrom store request (some doc) bytes =
      p.sign_text_document_update store doc.signed_bytes request.plaintext doc.summary.version
      ≡ ok bytes
  SignedFrom store request none bytes =
      p.sign_text_document_create store request.jacs_type (unwrap_or [] request.logical_name)
        request.content_type request.plaintext
      ≡ ok bytes

  -- What was checked of a document that was saved in one state and led to another.
  pub record IsSaved (store : State) (request : SaveDocumentRequest) (saved : SignedDocument)
      (store' : State) : Type 0 where
    pub existing : Option ExistingEditableDocument
    pub signed_bytes : Bytes
    pub resolved : resolve_existing p store request ≡ ok existing
    pub create_is_new : request.intent ≡ create → existing ≡ none
    pub update_has_target :
        request.intent ≡ update → (doc : ExistingEditableDocument) × (existing ≡ some doc)
    pub not_stale :
        (expected : Text) (doc : ExistingEditableDocument)
        → request.expected_previous_version ≡ some expected
        → existing ≡ some doc
        → doc.summary.version ≡ expected
    pub signed : SignedFrom store request existing signed_bytes
    pub stored :
        p.store_signed_text store signed_bytes request.content_type ≡ (ok saved.key, store')

  enforce_intent-create :
      (request : SaveDocumentRequest) (existing : Option ExistingEditableDocument)
      → enforce_intent p request existing ≡ ok tt
      → request.intent ≡ create
      → existing ≡ none
  unfolding enforce_intent
  enforce_intent-create request none h e = refl
  enforce_intent-create request (some doc) h e = ground (arith, h, e)

  enforce_intent-update :
      (request : SaveDocumentRequest) (existing : Option ExistingEditableDocument)
      → enforce_intent p request existing ≡ ok tt
      → request.intent ≡ update
      → (doc : ExistingEditableDocument) × (existing ≡ some doc)
  unfolding enforce_intent
  enforce_intent-update request none h e = ground (arith, h, e)
  enforce_intent-update request (some doc) h e = (doc, refl)

  check_version-ok :
      (expected_version : Option Text) (existing : Option ExistingEditableDocument)
      → check_version p expected_version existing ≡ ok tt
      → (expected : Text) (doc : ExistingEditableDocument) → expected_version ≡ some expected
      → existing ≡ some doc
      → doc.summary.version ≡ expected
  unfolding check_version
  check_version-ok (some v) (some d) h expected doc e f =
      let same : text_eq d.summary.version v ≡ true = ground (arith, h) in
      cc (e, f, (text_eq_iff _ _).0 same)
  check_version-ok none _ h expected doc e f = cc
  check_version-ok _ none h expected doc e f = cc

  sign_document-SignedFrom :
      (store : State) (request : SaveDocumentRequest) (existing : Option ExistingEditableDocument)
      {bytes : Bytes}
      → sign_document p store request existing ≡ ok bytes
      → SignedFrom store request existing bytes
  unfolding sign_document
  sign_document-SignedFrom store request (some doc) h = h
  sign_document-SignedFrom store request none h = h

  -- A document that is saved was saved as the request wants it: a create found no document, an update
  -- found one, a document that was found has the expected version, the plaintext was signed as the
  -- next version of the document that was found or else as a new one, and what was stored is what
  -- was signed.
  pub save_document-IsSaved :
      (store : State) (request : SaveDocumentRequest) {saved : SignedDocument} {store' : State}
      → save_document p store request ≡ (ok saved, store')
      → IsSaved store request saved store'
  unfolding save_document prepare
  save_document-IsSaved store request {saved} {store'} h =
      elim (Result-cases (resolve_existing p store request)) [
        | inr (e, a) ↦ ground (arith, a, h)
        | inl (existing, a) ↦ elim (Result-cases (enforce_intent p request existing)) [
          | inr (e, b) ↦ ground (arith, a, b, h)
          | inl (allowed, b) ↦
              elim (Result-cases (check_version p request.expected_previous_version existing)) [
                | inr (e, c) ↦ ground (arith, a, b, c, h)
                | inl (current, c) ↦ elim (Result-cases (sign_document p store request existing)) [
                  | inr (e, d) ↦ ground (arith, a, b, c, d, h)
                  | inl (bytes, d) ↦
                      elim (Result-cases (p.store_signed_text store bytes request.content_type).0) [
                        | inr (e, f) ↦ ground (arith, a, b, c, d, f, h)
                        | inl (key, f) ↦ record {
                          existing = existing;
                          signed_bytes = bytes;
                          resolved = a;
                          create_is_new = enforce_intent-create request existing b;
                          update_has_target = enforce_intent-update request existing b;
                          not_stale = check_version-ok request.expected_previous_version existing c;
                          signed = sign_document-SignedFrom store request existing d;
                          stored = ground (arith, a, b, c, d, f, h);
                        }
                      ]
                ]
              ]
        ]
      ]

  -- What a request wants is not what was found.
  pub data IsRefused (request : SaveDocumentRequest)
      : Option ExistingEditableDocument → Type 0 where
    exists :
        (doc : ExistingEditableDocument) → request.intent ≡ create → IsRefused request (some doc)
    missing : request.intent ≡ update → IsRefused request none
    stale :
        (doc : ExistingEditableDocument) (expected : Text)
        → request.expected_previous_version ≡ some expected
        → text_eq doc.summary.version expected ≡ false
        → IsRefused request (some doc)

  stale_fails :
      (request : SaveDocumentRequest) (doc : ExistingEditableDocument) {expected : Text}
      → request.expected_previous_version ≡ some expected
      → text_eq doc.summary.version expected ≡ false
      → (e : HaiError) × (check_version p request.expected_previous_version (some doc) ≡ err e)
  unfolding check_version
  stale_fails request doc a b = rw (a, check_version, b) (_, refl)

  checks_refuse :
      (request : SaveDocumentRequest) (existing : Option ExistingEditableDocument)
      (rest : Result Bytes)
      → IsRefused request existing
      → (e : HaiError) × ((enforce_intent p request existing
            >> (check_version p request.expected_previous_version existing >> rest))
          ≡ err e)
  unfolding enforce_intent check_version
  checks_refuse request (some doc) rest (exists _ a) = elim (Bool-cases request.singleton) [
    | inl b ↦ rw (a, b) (_, refl)
    | inr b ↦ rw (a, b) (_, refl)
  ]
  checks_refuse request none rest (missing a) = rw a (_, refl)
  checks_refuse request (some doc) rest (stale _ expected a b) =
      let allow = enforce_intent p request (some doc) in
      let check = check_version p request.expected_previous_version (some doc) in
      let (late, f) = stale_fails request doc a b in
      elim (Result-cases allow) [
        | inr (e, c) ↦ (e, ap (λ q. q >> (check >> rest)) c)
        | inl (allowed, c) ↦ (late, ap (λ q. q >> (check >> rest)) c ∙ ap (λ q. q >> rest) f)
      ]

  -- A create that finds a document, an update that finds none, and a save whose expected version is
  -- not that of the document that was found return an error, and nothing is stored.
  pub save_document-refused :
      (store : State) (request : SaveDocumentRequest) {existing : Option ExistingEditableDocument}
      → resolve_existing p store request ≡ ok existing
      → IsRefused request existing
      → (e : HaiError) × (save_document p store request ≡ (err e, store))
  unfolding save_document prepare
  save_document-refused store request {existing} found refused =
      let (e, a) =
        checks_refuse request existing (sign_document p store request existing) refused in
      (e, rw (save_document, prepare, found, a) refl)
