-- ===== src/Email.antt =====
-- Email: the options of an outgoing message in rust/haiai/src/types.rs, and what base64 does, a
-- parameter.
pub mod Validation
pub mod Inline
pub mod Mime
pub mod Verify
use haiai.Prelude.{
  Bool, not, true, false, Option, none, some, List, [], ◌∷◌, is_empty, if◌then◌else◌,
}
use haiai.Text.{Text}
use haiai.Text.Utf8.{Bytes}

-- The standard alphabet of the `base64` crate.
pub record Base64 : Type 0 where
  pub encode : Bytes → Text
  pub decode : Text → Option Bytes

pub record EmailAttachment : Type 0 where
  pub filename : Text
  pub content_type : Text
  pub content : Bytes
  pub data_base64 : Option Text

decoded : Base64 → Option Text → Bytes
decoded base64 none = []
decoded base64 (some b64) = elim (base64.decode b64) [ none ↦ [] | some bytes ↦ bytes ]

unfoldable pub effective_data : Base64 → EmailAttachment → Bytes
unfolding decoded
effective_data base64 att =
    if not (is_empty att.content) then att.content else decoded base64 att.data_base64

-- `SendEmailOptions`; `append_footer` and `idempotency_key` are not read here.
pub record SendEmailOptions : Type 0 where
  pub to : Text
  pub subject : Text
  pub body : Text
  pub cc : List Text
  pub bcc : List Text
  pub in_reply_to : Option Text
  pub attachments : List EmailAttachment
  pub labels : List Text
