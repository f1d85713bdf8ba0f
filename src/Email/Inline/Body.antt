-- ===== src/Email/Inline/Body.antt =====
-- The HTML body of rust/haiai/src/email_inline.rs, read back by a reader of HTML text.
use haiai.Prelude.{
  append-nil, All-append, ℕ, zero, suc, ◌≤◌, ◌≡◌, refl, ap, sym, ◌∙◌, inl, inr, Bool, false, Option,
  none, some, [], ◌∷◌, ◌++◌, append_assoc, arith, ◌==◌, length, Bool-cases, if◌then◌else◌,
}
use haiai.Text.{
  Text, lit, contains_char, contains_char-Lacks, replace_char, strip_prefix, strip_prefix-append,
  Lacks,
}
use haiai.Json.{or_else, and_then}
use haiai.Email.Inline.{
  escape_html_text, escape_html_attr, html_body, after_message,
  render_html_inline_email_body_with_logo_link,
}

-- A reference or a line break, at the start of a text, and what stands behind it.
abbrev reference : Text → ℕ → Text → Option (ℕ × Text)
reference name c s = and_then (strip_prefix name s) λ rest. some (c, rest)

abbrev references : Text → Option (ℕ × Text)
references s = or_else (reference (lit "&amp;") b'&' s) (
    or_else (reference (lit "&lt;") b'<' s) (
      or_else (reference (lit "&gt;") b'>' s) (
        or_else (reference (lit "&quot;") b'"' s)
          (or_else (reference (lit "&#39;") b'\'' s) (reference (lit "<br>") b'\n' s)))))

-- One character of HTML text; a tag other than a line break ends the text.
unfoldable pub read_char : Text → Option (ℕ × Text)
unfolding strip_prefix lit
read_char [] = none
read_char (c ∷ s) = or_else (references (c ∷ s)) (if c == b'<' then none else some (c, s))

-- The text up to the next tag.
unfoldable pub read_text : ℕ → Text → Text
read_text zero s = []
read_text (suc fuel) s = elim (read_char s) [ none ↦ [] | some (c, rest) ↦ c ∷ read_text fuel rest ]

pub replace_char-append :
    (c : ℕ) (to s t : Text)
    → replace_char c to (s ++ t) ≡ replace_char c to s ++ replace_char c to t
unfolding replace_char
replace_char-append c to [] t = refl
replace_char-append c to (d ∷ s) t =
    ap (λ q. (if d == c then to else d ∷ []) ++ q) (replace_char-append c to s t)
    ∙ sym (append_assoc (if d == c then to else d ∷ []) _ _)

escape_html_text-append :
    (s t : Text) → escape_html_text (s ++ t) ≡ escape_html_text s ++ escape_html_text t
unfolding escape_html_text
escape_html_text-append s t =
    rw (replace_char-append, replace_char-append, replace_char-append) refl

html_body-nil : html_body [] ≡ []
unfolding html_body escape_html_text replace_char
html_body-nil = refl

html_body-append : (s t : Text) → html_body (s ++ t) ≡ html_body s ++ html_body t
unfolding html_body
html_body-append s t = rw (escape_html_text-append, replace_char-append) refl

-- A character that is rendered is read back.
read_char-html_body :
    (c : ℕ) (rest : Text) → read_char (html_body (c ∷ []) ++ rest) ≡ some (c, rest)
unfolding read_char html_body escape_html_text replace_char strip_prefix lit
read_char-html_body c rest = elim (Bool-cases (c == b'&')) [
  | inl e ↦ ground (arith, e)
  | inr e ↦ elim (Bool-cases (c == b'<')) [
    | inl f ↦ ground (arith, e, f)
    | inr f ↦ elim (Bool-cases (c == b'>')) [
      | inl g ↦ ground (arith, e, f, g)
      | inr g ↦ elim (Bool-cases (c == b'\n')) [
        | inl h ↦ ground (arith, e, f, g, h)
        | inr h ↦ ground (arith, e, f, g, h)
      ]
    ]
  ]
]

-- A tag that is not a line break ends the text.
read_char-tag : (rest : Text) → read_char (lit "</main>" ++ rest) ≡ none
unfolding read_char strip_prefix lit
read_char-tag rest = refl

read_text-end : (fuel : ℕ) (s : Text) → read_char s ≡ none → read_text (suc fuel) s ≡ []
unfolding read_text
read_text-end fuel s e = rw (read_text, e) refl

read_text-more :
    (fuel : ℕ) (s : Text) {c : ℕ} {rest : Text}
    → read_char s ≡ some (c, rest)
    → read_text (suc fuel) s ≡ c ∷ read_text fuel rest
unfolding read_text
read_text-more fuel s e = rw (read_text, e) refl

-- A rendering of texts, character by character, that `read_char` undoes.
module _ (render : Text → Text) (render-nil : render [] ≡ [])
    (render-append : (s t : Text) → render (s ++ t) ≡ render s ++ render t)
    (render-read : (c : ℕ) (rest : Text)
      → read_char (render (c ∷ []) ++ rest) ≡ some (c, rest)) where
  read_text-render :
      (fuel : ℕ) (s rest : Text)
      → suc (length s) ≤ fuel
      → read_char rest ≡ none
      → read_text fuel (render s ++ rest) ≡ s
  read_text-render zero s rest enough ended = ground (arith, enough)
  read_text-render (suc fuel) [] rest enough ended =
      ap (λ q. read_text (suc fuel) (q ++ rest)) render-nil ∙ read_text-end fuel rest ended
  read_text-render (suc fuel) (c ∷ s) rest enough ended =
      let split : render (c ∷ s) ++ rest ≡ render (c ∷ []) ++ (render s ++ rest) =
        ap (λ q. q ++ rest) (render-append (c ∷ []) s)
        ∙ append_assoc (render (c ∷ [])) (render s) rest in
      ap (read_text (suc fuel)) split
      ∙ read_text-more fuel _ (render-read c (render s ++ rest))
      ∙ ap (λ q. c ∷ q) (read_text-render fuel s rest (ground (arith, enough)) ended)

-- What stands in front of the message.
abbrev before_message : Text
before_message =
    lit "<html data-hai-template-version=\"v1\"><body>" ++ lit "<main data-hai-message-body=\"v1\">"

-- The message of a document, read as HTML text up to the next tag.
unfoldable pub read_message : ℕ → Text → Option Text
read_message fuel document =
    and_then (strip_prefix before_message document) λ message. some (read_text fuel message)

-- The plain text is read back from the HTML document, whatever the text, the link and the envelope
-- are, by a reader that decodes references and line breaks up to the next tag and has fuel for more
-- than the characters of the text.
pub read_message-render_html_inline_email_body :
    (fuel : ℕ) (plain_text verify_url hidden_jacs_envelope : Text) (wrap_logo_link : Bool)
    → suc (length plain_text) ≤ fuel
    → read_message fuel (
        render_html_inline_email_body_with_logo_link plain_text verify_url hidden_jacs_envelope
          wrap_logo_link)
      ≡ some plain_text
unfolding read_message render_html_inline_email_body_with_logo_link
read_message-render_html_inline_email_body fuel plain_text verify_url envelope wrap enough =
    let rest = after_message (escape_html_attr verify_url) envelope wrap in
    let message = html_body plain_text ++ (lit "</main>" ++ rest) in
    rw
      (
        ← append_assoc (lit "<html data-hai-template-version=\"v1\"><body>")
            (lit "<main data-hai-message-body=\"v1\">") message,
        strip_prefix-append before_message message,
      )
      (ap some (
        read_text-render html_body html_body-nil html_body-append read_char-html_body fuel
          plain_text (lit "</main>" ++ rest) enough (read_char-tag rest)))

escape_html_attr-append :
    (s t : Text) → escape_html_attr (s ++ t) ≡ escape_html_attr s ++ escape_html_attr t
unfolding escape_html_attr
escape_html_attr-append s t =
    rw (escape_html_text-append, replace_char-append, replace_char-append) refl

read_char-escape_html_attr :
    (c : ℕ) (rest : Text) → read_char (escape_html_attr (c ∷ []) ++ rest) ≡ some (c, rest)
unfolding read_char escape_html_attr escape_html_text replace_char strip_prefix lit
read_char-escape_html_attr c rest = elim (Bool-cases (c == b'&')) [
  | inl e ↦ ground (arith, e)
  | inr e ↦ elim (Bool-cases (c == b'<')) [
    | inl f ↦ ground (arith, e, f)
    | inr f ↦ elim (Bool-cases (c == b'>')) [
      | inl g ↦ ground (arith, e, f, g)
      | inr g ↦ elim (Bool-cases (c == b'"')) [
        | inl h ↦ ground (arith, e, f, g, h)
        | inr h ↦ elim (Bool-cases (c == b'\'')) [
          | inl k ↦ ground (arith, e, f, g, h, k)
          | inr k ↦ ground (arith, e, f, g, h, k)
        ]
      ]
    ]
  ]
]

replace_char-Lacks : (c : ℕ) (to s : Text) → Lacks c to → Lacks c (replace_char c to s)
unfolding replace_char
replace_char-Lacks c to [] h = tt
replace_char-Lacks c to (d ∷ s) h =
    All-append _ _ _ (elim (Bool-cases (d == c)) [ inl e ↦ rw e h | inr e ↦ rw e (e, tt) ])
      (replace_char-Lacks c to s h)

replace_char-Lacks_other :
    (c d : ℕ) (to s : Text) → Lacks d to → Lacks d s → Lacks d (replace_char c to s)
unfolding replace_char
replace_char-Lacks_other c d to [] h k = tt
replace_char-Lacks_other c d to (e ∷ s) h k =
    All-append _ _ _ (elim (Bool-cases (e == c)) [ inl f ↦ rw f h | inr f ↦ rw f (k.0, tt) ])
      (replace_char-Lacks_other c d to s h k.1)

-- Text that can stand inside a quoted attribute.
abbrev pub IsInert : Text → Type 0
IsInert s = Lacks b'<' s × Lacks b'>' s × Lacks b'"' s × Lacks b'\'' s

escape_html_attr-nil : escape_html_attr [] ≡ []
unfolding escape_html_attr escape_html_text replace_char
escape_html_attr-nil = refl

escape_html_attr-IsInert : (s : Text) → IsInert (escape_html_attr s)
unfolding escape_html_attr escape_html_text lit contains_char
escape_html_attr-IsInert s =
    let quot = lit "&quot;" in
    let apos = lit "&#39;" in
    let keep : (c : ℕ) (t : Text)
        → contains_char c quot ≡ false
        → contains_char c apos ≡ false
        → Lacks c t
        → Lacks c (replace_char b'\'' apos (replace_char b'"' quot t)) =
      λ c t no_quot no_apos h.
        replace_char-Lacks_other b'\'' c apos _ (contains_char-Lacks c apos no_apos)
          (replace_char-Lacks_other b'"' c quot t (contains_char-Lacks c quot no_quot) h) in
    (
      keep b'<' _ refl refl (
          replace_char-Lacks_other b'>' b'<' (lit "&gt;") _
            (contains_char-Lacks b'<' (lit "&gt;") refl)
            (replace_char-Lacks b'<' (lit "&lt;") _ (contains_char-Lacks b'<' (lit "&lt;") refl))),
      keep b'>' _ refl refl
          (replace_char-Lacks b'>' (lit "&gt;") _ (contains_char-Lacks b'>' (lit "&gt;") refl)),
      replace_char-Lacks_other b'\'' b'"' apos _ (contains_char-Lacks b'"' apos refl)
          (replace_char-Lacks b'"' quot _ (contains_char-Lacks b'"' quot refl)),
      replace_char-Lacks b'\'' apos _ (contains_char-Lacks b'\'' apos refl),
    )

-- A link that is escaped for an attribute has no angle bracket and no quote in it, and a reader of
-- HTML text with fuel for more than its characters reads it back.
pub escape_html_attr-IsInert_and_read :
    (fuel : ℕ) (value : Text)
    → suc (length value) ≤ fuel
    → IsInert (escape_html_attr value) × (read_text fuel (escape_html_attr value) ≡ value)
unfolding read_char
escape_html_attr-IsInert_and_read fuel value enough = (
  escape_html_attr-IsInert value,
  ap (read_text fuel) (sym (append-nil (escape_html_attr value)))
      ∙ read_text-render escape_html_attr escape_html_attr-nil escape_html_attr-append
          read_char-escape_html_attr fuel value [] enough refl,
)
