-- ===== src/Error.antt =====
-- rust/haiai/src/error.rs: `HaiError` and `Result`. A foreign error (`reqwest`, `serde_json`) is
-- carried as the text that it displays.
use haiai.Prelude.{
  ℕ, ◌≡◌, refl, ◌⊎◌, inl, inr, Option, none, some, List, [], ◌∷◌, ◌++◌, Bool, true, false,
}
use haiai.Text.{Text, lit, decimal}

pub data HaiError : Type 0 where
  config_not_found : Text → HaiError
  config_invalid : Text → HaiError
  missing_jacs_id : HaiError
  provider : Text → HaiError
  http : Text → HaiError
  json : Text → HaiError
  api : ℕ → Text → HaiError
  verify_url_too_long : ℕ → HaiError
  missing_hosted_document_id : HaiError
  validation : Text → Text → HaiError
  signed_event_verification : Text → HaiError
  backend_unsupported : Text → Text → HaiError
  message : Text → HaiError

-- `Display` of `HaiError`
unfoldable pub display : HaiError → Text
display (config_not_found path) = lit "JACS config not found at " ++ path
display (config_invalid text) = lit "invalid JACS config: " ++ text
display missing_jacs_id = lit "jacsId is required for authenticated operations"
display (provider text) = lit "JACS provider error: " ++ text
display (http text) = lit "http request failed: " ++ text
display (json text) = lit "json error: " ++ text
display (api status text) = lit "HAI API error (" ++ (decimal status ++ (lit "): " ++ text))
display (verify_url_too_long max_len) =
    lit "verify URL would exceed max length (" ++ (decimal max_len ++ lit ")")
display missing_hosted_document_id =
    lit "verify link hosted mode requires jacsDocumentId, document_id, or id"
display (validation field text) = lit "validation error on '" ++ (field ++ (lit "': " ++ text))
display (signed_event_verification text) = lit "signed event verification failed: " ++ text
display (backend_unsupported method detail) =
    lit "backend does not support method '" ++ (method ++ (lit "': " ++ detail))
display (message text) = text

pub data Result {ℓ} (A : Type ℓ) : Type ℓ where
  ok : A → Result A
  err : HaiError → Result A

-- The operator `?` on a value that the rest of the body reads.
infixl 5 ◌>>=◌
abbrev pub ◌>>=◌ {ℓ κ} :
    {Value : Type ℓ} {Next : Type κ} → Result Value → (Value → Result Next) → Result Next
(err failure) >>= rest = err failure
(ok value) >>= rest = rest value

-- `ok_or_else`
abbrev pub ok_or {ℓ} : {A : Type ℓ} → HaiError → Option A → Result A
ok_or e none = err e
ok_or e (some a) = ok a

-- The operator `?` on a check, which has no value.
infixl 5 ◌>>◌
abbrev pub ◌>>◌ {ℓ} : {Next : Type ℓ} → Result (Unit {0}) → Result Next → Result Next
(err failure) >> rest = err failure
(ok passed) >> rest = rest

-- `map_err`
abbrev pub map_err {ℓ} : {A : Type ℓ} → (HaiError → HaiError) → Result A → Result A
map_err f (ok a) = ok a
map_err f (err e) = err (f e)

-- A loop whose body may return early with an error.
abbrev pub for_each {ℓ} : {A : Type ℓ} → (A → Result (Unit {0})) → List A → Result (Unit {0})
for_each f [] = ok tt
for_each f (x ∷ xs) = f x >> for_each f xs

abbrev pub is_ok {ℓ} : {A : Type ℓ} → Result A → Bool
is_ok (ok a) = true
is_ok (err e) = false

pub Result-cases {ℓ} :
    {A : Type ℓ} (r : Result A) → ((a : A) × (r ≡ ok a)) ⊎ ((e : HaiError) × (r ≡ err e))
Result-cases (ok a) = inl (a, refl)
Result-cases (err e) = inr (e, refl)

-- What a body that succeeds has read, and that it succeeded on it.
pub >>=-eq-ok {ℓ κ} :
    {Value : Type ℓ} {Next : Type κ} (first : Result Value) (rest : Value → Result Next)
    {final : Next}
    → (first >>= rest) ≡ ok final
    → (value : Value) × (first ≡ ok value) × (rest value ≡ ok final)
>>=-eq-ok (err failure) rest ended = cc
>>=-eq-ok (ok value) rest ended = (value, refl, ended)

-- A sequence succeeds exactly when both of its parts do.
pub >>-eq-ok {ℓ} :
    {B : Type ℓ} (m : Result (Unit {0})) (k : Result B) {b : B}
    → (m >> k) ≡ ok b
    → (m ≡ ok tt) × (k ≡ ok b)
>>-eq-ok (ok a) k h = (refl, h)
>>-eq-ok (err e) k h = cc

-- A `Result` of another crate: a value, or the text of its error.
pub data Foreign {ℓ} (A : Type ℓ) : Type ℓ where
  done : A → Foreign A
  fault : Text → Foreign A

-- `map_err` of such a result
abbrev pub lift {ℓ} : {A : Type ℓ} → Foreign A → (Text → HaiError) → Result A
lift (done a) wrap = ok a
lift (fault t) wrap = err (wrap t)

pub Foreign-cases {ℓ} :
    {A : Type ℓ} (f : Foreign A) → ((a : A) × (f ≡ done a)) ⊎ ((t : Text) × (f ≡ fault t))
Foreign-cases (done a) = inl (a, refl)
Foreign-cases (fault t) = inr (t, refl)
