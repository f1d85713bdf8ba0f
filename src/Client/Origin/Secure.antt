-- ===== src/Client/Origin/Secure.antt =====
-- Which origins may serve live event keys.
use haiai.Prelude.{
  ℕ, ◌/◌, ◌^◌, ◌≡◌, ◌↔◌, ◌⊎◌, refl, true, Option, none, some, inl, inr, Bool-cases, arith,
}
use haiai.Text.{Text, lit, text_eq, text_eq_iff, text_eq_refl, eq_ignore_ascii_case}
use haiai.Error.{ok}
use haiai.Client.Origin.{
  Host, domain, ipv4, ipv6, Url, host_is_loopback, origin_is_allowed, Parsed, parsed_url,
  parse_error, validate_live_event_key_origin,
}

-- A host name of this machine.
pub data IsLoopback : Option Host → Type 0 where
  localhost :
      (name : Text)
      → eq_ignore_ascii_case name (lit "localhost") ≡ true
      → IsLoopback (some (domain name))
  net_127 : (address : ℕ) → address / 2 ^ 24 ≡ 127 → IsLoopback (some (ipv4 address))
  one : (address : ℕ) → address ≡ 1 → IsLoopback (some (ipv6 address))

-- HTTPS, or plain HTTP to this machine.
abbrev pub IsSecure : Url → Type 0
IsSecure u = (u.scheme ≡ lit "https") ⊎ ((u.scheme ≡ lit "http") × IsLoopback u.host)

IsLoopback-of : (host : Option Host) → host_is_loopback host ≡ true → IsLoopback host
unfolding host_is_loopback
IsLoopback-of (some (domain name)) h = localhost name h
IsLoopback-of (some (ipv4 address)) h = net_127 address (ground arith)
IsLoopback-of (some (ipv6 address)) h = one address (ground arith)
IsLoopback-of none h = cc

host_is_loopback-of : {host : Option Host} → IsLoopback host → host_is_loopback host ≡ true
unfolding host_is_loopback
host_is_loopback-of (localhost name h) = h
host_is_loopback-of (net_127 address h) = ground arith
host_is_loopback-of (one address h) = ground arith

IsSecure-of : (u : Url) → origin_is_allowed u ≡ true → IsSecure u
unfolding origin_is_allowed
IsSecure-of u h = elim (Bool-cases (text_eq u.scheme (lit "https"))) [
  | inl https ↦ inl ((text_eq_iff u.scheme (lit "https")).0 https)
  | inr plain ↦ inr (
    (text_eq_iff u.scheme (lit "http")).0 (ground (arith, plain, h)),
    IsLoopback-of u.host (ground (arith, plain, h)),
  )
]

origin_is_allowed-of : (u : Url) → IsSecure u → origin_is_allowed u ≡ true
unfolding origin_is_allowed
origin_is_allowed-of u (inl https) = rw (https, text_eq_refl (lit "https"))
origin_is_allowed-of u (inr (http, here)) =
    ground (arith, (text_eq_iff u.scheme (lit "http")).1 http, host_is_loopback-of here)

Parsed-cases : (p : Parsed) → ((u : Url) × (p ≡ parsed_url u)) ⊎ ((t : Text) × (p ≡ parse_error t))
Parsed-cases (parsed_url u) = inl (u, refl)
Parsed-cases (parse_error t) = inr (t, refl)

-- The origin of a base URL is accepted exactly if the URL parses and is HTTPS or plain HTTP to a
-- loopback host.
pub validate_live_event_key_origin_iff :
    (parse : Text → Parsed) (base_url : Text)
    → (validate_live_event_key_origin parse base_url ≡ ok tt)
      ↔ ((u : Url) × (parse base_url ≡ parsed_url u) × IsSecure u)
unfolding validate_live_event_key_origin
validate_live_event_key_origin_iff parse base_url = (
  λ h. elim (Parsed-cases (parse base_url)) [
    | inl (u, e) ↦ (u, e, IsSecure-of u (ground (arith, e, h)))
    | inr (t, e) ↦ ground (arith, e, h)
  ],
  λ (u, e, secure). rw (e, validate_live_event_key_origin) (rw (origin_is_allowed-of u secure)),
)
