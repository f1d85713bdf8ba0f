-- ===== src/Client/Origin.antt =====
-- Origins in rust/haiai/src/client.rs: the redirect policy, the origin that live event keys may
-- come from, and the base URL of a client. A parsed `url::Url` is the record of the parts that the
-- sources read; the parser itself is a parameter.
pub mod Redirects
pub mod Secure
use haiai.Prelude.{
  ℕ, ◌+◌, ◌*◌, ◌/◌, ◌^◌, Bool, true, false, ◌&&◌, ◌||◌, not, Option, none, some, List, [], ◌∷◌,
  ◌++◌, is_empty, length, ltb, leb, ◌==◌, map, if◌then◌else◌,
}
use haiai.Text.{Text, lit, text_eq, eq_ignore_ascii_case}
use haiai.Error.{HaiError, signed_event_verification, Result, ok, err}

-- `url::Host`; an address is the number that its bits are.
pub data Host : Type 0 where
  domain : Text → Host
  ipv4 : ℕ → Host
  ipv6 : ℕ → Host

pub record Url : Type 0 where
  pub scheme : Text
  pub host : Option Host
  pub port_or_known_default : Option ℕ
  pub username : Text
  pub password : Option Text
  pub query : Option Text
  pub fragment : Option Text

unfoldable pub host_eq : Host → Host → Bool
host_eq (domain a) (domain b) = text_eq a b
host_eq (ipv4 a) (ipv4 b) = a == b
host_eq (ipv6 a) (ipv6 b) = a == b
host_eq _ _ = false

unfoldable pub option_eq {ℓ} : {A : Type ℓ} → (A → A → Bool) → Option A → Option A → Bool
option_eq eq none none = true
option_eq eq (some a) (some b) = eq a b
option_eq eq _ _ = false

abbrev pub is_none {ℓ} : {A : Type ℓ} → Option A → Bool
is_none none = true
is_none (some a) = false

unfoldable pub urls_have_same_origin : Url → Url → Bool
unfolding option_eq host_eq
urls_have_same_origin previous next =
    text_eq previous.scheme next.scheme
    && option_eq host_eq previous.host next.host
    && option_eq ◌==◌ previous.port_or_known_default next.port_or_known_default
    && is_empty next.username
    && is_none next.password

abbrev pub max_redirects : ℕ
max_redirects = 10

-- What the policy does with an attempt.
pub data RedirectAction : Type 0 where
  follow : RedirectAction
  error : Text → RedirectAction

abbrev pub last_of : Url → List Url → Url
last_of u [] = u
last_of u (v ∷ vs) = last_of v vs

-- `same_origin_redirect_policy`, from `attempt.previous()` and `attempt.url()`
unfoldable pub same_origin_redirect_policy : List Url → Url → RedirectAction
same_origin_redirect_policy [] next = error (lit "redirect policy received no originating URL")
same_origin_redirect_policy (u ∷ us) next =
    if ltb max_redirects (length (u ∷ us))
    then error (lit "too many redirects")
    else if urls_have_same_origin (last_of u us) next
    then follow
    else error (lit "cross-origin or scheme-changing redirect rejected")

-- `is_loopback`: 127.0.0.0/8 and ::1
unfoldable pub host_is_loopback : Option Host → Bool
unfolding eq_ignore_ascii_case
host_is_loopback none = false
host_is_loopback (some (domain host)) = eq_ignore_ascii_case host (lit "localhost")
host_is_loopback (some (ipv4 address)) = address / 2 ^ 24 == 127
host_is_loopback (some (ipv6 address)) = address == 1

-- The check of a parsed origin in `validate_live_event_key_origin`.
unfoldable pub origin_is_allowed : Url → Bool
unfolding host_is_loopback
origin_is_allowed parsed =
    text_eq parsed.scheme (lit "https")
    || (text_eq parsed.scheme (lit "http") && host_is_loopback parsed.host)

-- `url::Url::parse`: a URL, or the text of its error.
pub data Parsed : Type 0 where
  parsed_url : Url → Parsed
  parse_error : Text → Parsed

module _ (parse : Text → Parsed) where
  unfoldable pub validate_live_event_key_origin : Text → Result (Unit {0})
  validate_live_event_key_origin base_url = elim (parse base_url) [
    | parse_error e ↦ err (signed_event_verification (lit "invalid HAI key origin: " ++ e))
    | parsed_url parsed ↦
        if origin_is_allowed parsed
        then ok tt
        else err (
            signed_event_verification
              (lit "live event signing keys require HTTPS (HTTP is allowed only on loopback)"))
  ]
