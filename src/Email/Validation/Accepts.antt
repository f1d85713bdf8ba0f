-- ===== src/Email/Validation/Accepts.antt =====
-- What an email that validation accepts looks like, described without the checks.
use mathlib.Core.Option.{some-injective}
use haiai.Prelude.{
  subst, ℕ, ◌≤◌, ◌≡◌, ◌≢◌, refl, ap, inl, inr, Bool, true, false, Option, none, some, List, [], ◌∷◌,
  ◌++◌, arith, ◌==◌, ==_iff, length, any, All, Bool-cases,
}
use haiai.Text.{
  Text, lit, len, trim, is_whitespace, is_control, contains_char, contains, starts_with,
  strip_prefix-append, rsplit_once-eq-some, Lacks, contains_char-Lacks,
}
use haiai.Error.{HaiError, Result, ok, ◌>>=◌, ok_or, for_each, >>-eq-ok}
use haiai.Email.{Base64, EmailAttachment, effective_data, SendEmailOptions}
use haiai.Email.Validation.{
  max_attachment_size, max_attachment_count, reject_if, validate_no_crlf,
  hai_reserved_inline_email_markers, validate_no_reserved_inline_email_markers, validate_parts,
  validate_email_address, validate_filename, validate_attachment, validate_attachments,
  validate_text_body_has_no_html_tokens, validate_header, validate_reply_to, validate_send_email,
}

-- Somewhere in `s` stands `p`.
abbrev pub Occurs : Text → Text → Type 0
Occurs p s = (a : Text) × (b : Text) × (s ≡ a ++ (p ++ b))

abbrev pub IsOneLine : Text → Type 0
IsOneLine s = Lacks b'\r' s × Lacks b'\n' s

abbrev pub IsUnmarked : Text → Type 0
IsUnmarked s = All (λ marker. ¬ Occurs marker s) hai_reserved_inline_email_markers

abbrev pub IsHeader : Text → Type 0
IsHeader s = IsOneLine s × IsUnmarked s

-- An address, but for the white space around it.
pub record IsAddress (address : Text) : Type 0 where
  pub local : Text
  pub domain : Text
  pub split : trim address ≡ local ++ (b'@' ∷ domain)
  pub last_at : Lacks b'@' domain
  pub local_given : local ≢ []
  pub local_fits : len local ≤ 64
  pub dotted : Occurs (b'.' ∷ []) domain
  pub printable : All (λ c. (is_whitespace c ≡ false) × (is_control c ≡ false)) (trim address)

abbrev pub IsFilename : Text → Type 0
IsFilename s = (¬ Occurs (lit "..") s) × Lacks b'/' s × Lacks b'\\' s × IsHeader s

module _ (base64 : Base64) (has_start_tag : Text → Bool) where
  abbrev pub IsAttachment : EmailAttachment → Type 0
  IsAttachment att =
      (length (effective_data base64 att) ≤ max_attachment_size)
      × IsFilename att.filename
      × IsHeader att.content_type

  pub record IsSendable (options : SendEmailOptions) : Type 0 where
    pub to : IsAddress options.to
    pub cc : All IsAddress options.cc
    pub bcc : All IsAddress options.bcc
    pub subject : IsHeader options.subject
    pub body_unmarked : IsUnmarked options.body
    pub body_plain : has_start_tag options.body ≡ false
    pub in_reply_to : (reply_to : Text) → options.in_reply_to ≡ some reply_to → IsHeader reply_to
    pub labels : All IsHeader options.labels
    pub few : length options.attachments ≤ max_attachment_count
    pub attachments : All IsAttachment options.attachments

reject_if-ok : (test : Bool) (field text : Text) → reject_if test field text ≡ ok tt → test ≡ false
unfolding reject_if
reject_if-ok true field text h = cc
reject_if-ok false field text h = refl

for_each-ok {κ} :
    {A : Type 0} (P : A → Type κ) (f : A → Result (Unit {0}))
    → ((x : A) → f x ≡ ok tt → P x)
    → (xs : List A) → for_each f xs ≡ ok tt
    → All P xs
for_each-ok P f each [] h = tt
for_each-ok P f each (x ∷ xs) h =
    let (first, later) = >>-eq-ok (f x) (for_each f xs) h in
    (each x first, for_each-ok P f each xs later)

any-false {κ} :
    {A : Type 0} (P : A → Type κ) (p : A → Bool)
    → ((x : A) → p x ≡ false → P x)
    → (xs : List A) → any p xs ≡ false
    → All P xs
any-false P p each [] h = tt
any-false P p each (x ∷ xs) h =
    (each x (ground (arith, h)), any-false P p each xs (ground (arith, h)))

contains_head : (p s : Text) → starts_with p s ≡ true → contains p s ≡ true
unfolding contains
contains_head p [] h = h
contains_head p (c ∷ s) h = ground (arith, h)

-- What stands somewhere is found.
contains-Occurs : (p a b : Text) → contains p (a ++ (p ++ b)) ≡ true
unfolding contains starts_with
contains-Occurs p [] b = contains_head p (p ++ b) (rw (strip_prefix-append p b, starts_with) refl)
contains-Occurs p (c ∷ a) b = ground (arith, contains-Occurs p a b)

not-contains-Occurs : (p s : Text) → contains p s ≡ false → ¬ Occurs p s
not-contains-Occurs p s h (a, b, e) = cc (contains-Occurs p a b)

contains_char-Occurs : (c : ℕ) (s : Text) → contains_char c s ≡ true → Occurs (c ∷ []) s
unfolding contains_char
contains_char-Occurs c [] h = cc
contains_char-Occurs c (d ∷ s) h = elim (Bool-cases (d == c)) [
  | inl e ↦ ([], s, ap (λ x. x ∷ s) ((==_iff d c).0 e))
  | inr e ↦
      let (a, b, same) = contains_char-Occurs c s (ground (arith, e, h)) in
      (d ∷ a, b, ap (λ t. d ∷ t) same)
]

validate_no_crlf-ok : (field s : Text) → validate_no_crlf field s ≡ ok tt → IsOneLine s
unfolding validate_no_crlf
validate_no_crlf-ok field s h =
    let none_found = reject_if-ok _ _ _ h in
    (
      contains_char-Lacks b'\r' s (ground (arith, none_found)),
      contains_char-Lacks b'\n' s (ground (arith, none_found)),
    )

validate_markers-ok :
    (field s : Text) → validate_no_reserved_inline_email_markers field s ≡ ok tt → IsUnmarked s
unfolding validate_no_reserved_inline_email_markers
validate_markers-ok field s h =
    any-false _ _ (λ marker. not-contains-Occurs marker s) hai_reserved_inline_email_markers
      (reject_if-ok _ _ _ h)

ok_or-ok {ℓ} :
    {A : Type ℓ} (e : HaiError) (o : Option A) (f : A → Result (Unit {0}))
    → (ok_or e o >>= f) ≡ ok tt
    → (a : A) × (o ≡ some a) × (f a ≡ ok tt)
ok_or-ok e none f h = cc
ok_or-ok e (some a) f h = (a, refl, h)

validate_parts-ok :
    (address local domain : Text)
    → validate_parts address (trim address) (local, domain) ≡ ok tt
    → (trim address ≡ local ++ (b'@' ∷ domain)) × Lacks b'@' domain
    → IsAddress address
unfolding validate_parts
validate_parts-ok address local domain h (split, last_at) =
    let (h₃, printable) = >>-eq-ok _ _ h in
    let (h₂, dotted) = >>-eq-ok _ _ h₃ in
    let (given, fits) = >>-eq-ok _ _ h₂ in
    let given' = reject_if-ok _ _ _ given in
    let fits' = reject_if-ok _ _ _ fits in
    let dotted' = reject_if-ok _ _ _ dotted in
    record {
      local = local;
      domain = domain;
      split = split;
      last_at = last_at;
      local_given = λ e. ground (arith, e, given');
      local_fits = ground (arith, fits');
      dotted = contains_char-Occurs b'.' domain (ground (arith, dotted'));
      printable =
          any-false _ _ (λ c e. ground (arith, e)) (trim address) (reject_if-ok _ _ _ printable);
    }

validate_email_address-ok :
    (address : Text) → validate_email_address address ≡ ok tt → IsAddress address
unfolding validate_email_address
validate_email_address-ok address h =
    let ((local, domain), e, parts) = ok_or-ok _ _ _ (>>-eq-ok _ _ h).1 in
    validate_parts-ok address local domain parts (rsplit_once-eq-some b'@' (trim address) e)

validate_header-ok :
    (base64 : Base64) (has_start_tag : Text → Bool) (field s : Text)
    → validate_header base64 has_start_tag field s ≡ ok tt
    → IsHeader s
unfolding validate_header
validate_header-ok base64 has_start_tag field s h =
    let (line, unmarked) = >>-eq-ok _ _ h in
    (validate_no_crlf-ok field s line, validate_markers-ok field s unmarked)

validate_filename-ok : (s : Text) → validate_filename s ≡ ok tt → IsFilename s
unfolding validate_filename
validate_filename-ok s h =
    let (h', unmarked) = >>-eq-ok _ _ h in
    let (paths, line) = >>-eq-ok _ _ h' in
    let paths' = reject_if-ok _ _ _ paths in
    (
      not-contains-Occurs (lit "..") s (ground (arith, paths')),
      contains_char-Lacks b'/' s (ground (arith, paths')),
      contains_char-Lacks b'\\' s (ground (arith, paths')),
      (validate_no_crlf-ok _ s line, validate_markers-ok _ s unmarked),
    )

module _ (base64 : Base64) (has_start_tag : Text → Bool) where
  validate_attachment-ok :
      (att : EmailAttachment)
      → validate_attachment base64 has_start_tag att ≡ ok tt
      → IsAttachment base64 has_start_tag att
  unfolding validate_attachment
  validate_attachment-ok att h =
      let (h₃, unmarked) = >>-eq-ok _ _ h in
      let (h₂, line) = >>-eq-ok _ _ h₃ in
      let (small, name) = >>-eq-ok _ _ h₂ in
      let small' = reject_if-ok _ _ _ small in
      (
        ground (arith, small'),
        validate_filename-ok att.filename name,
        (
          validate_no_crlf-ok _ att.content_type line,
          validate_markers-ok _ att.content_type unmarked,
        ),
      )

  validate_reply_to-ok :
      (r : Option Text)
      → validate_reply_to base64 has_start_tag r ≡ ok tt
      → (reply_to : Text) → r ≡ some reply_to
      → IsHeader reply_to
  unfolding validate_reply_to
  validate_reply_to-ok none h reply_to e = cc
  validate_reply_to-ok (some r) h reply_to e =
      subst IsHeader (some-injective r reply_to e) (validate_header-ok base64 has_start_tag _ r h)

  -- An email that `validate_send_email` accepts has addresses that are well-formed once the white
  -- space around them is trimmed, which may hold CR and LF; and it has no CR, LF or reserved marker in a subject, reply-to, label, filename or content type, no marker and no start tag in the
  -- body, at most 5 attachments of at most 10 MB each, and no filename with a path in it.
  pub validate_send_email-IsSendable :
      (options : SendEmailOptions)
      → validate_send_email base64 has_start_tag options ≡ ok tt
      → IsSendable base64 has_start_tag options
  unfolding validate_send_email validate_text_body_has_no_html_tokens validate_attachments
  validate_send_email-IsSendable options h =
      let (h₈, attached) = >>-eq-ok _ _ h in
      let (h₇, labels) = >>-eq-ok _ _ h₈ in
      let (h₆, reply) = >>-eq-ok _ _ h₇ in
      let (h₅, plain) = >>-eq-ok _ _ h₆ in
      let (h₄, unmarked) = >>-eq-ok _ _ h₅ in
      let (h₃, subject) = >>-eq-ok _ _ h₄ in
      let (h₂, bcc) = >>-eq-ok _ _ h₃ in
      let (to, cc_list) = >>-eq-ok _ _ h₂ in
      let (few, each) = >>-eq-ok _ _ attached in
      let few' = reject_if-ok _ _ _ few in
      record {
        to = validate_email_address-ok options.to to;
        cc = for_each-ok _ _ validate_email_address-ok options.cc cc_list;
        bcc = for_each-ok _ _ validate_email_address-ok options.bcc bcc;
        subject = validate_header-ok base64 has_start_tag _ options.subject subject;
        body_unmarked = validate_markers-ok _ options.body unmarked;
        body_plain = reject_if-ok _ _ _ plain;
        in_reply_to = validate_reply_to-ok options.in_reply_to reply;
        labels =
            for_each-ok _ _ (λ l. validate_header-ok base64 has_start_tag _ l) options.labels
              labels;
        few = ground (arith, few');
        attachments = for_each-ok _ _ validate_attachment-ok options.attachments each;
      }
