-- ===== src/Client/Origin/Redirects.antt =====
-- Following redirects never leaves the origin.
use haiai.Prelude.{
  ℕ, ◌+◌, ◌≤◌, ◌≡◌, refl, sym, ap, ◌∙◌, true, Option, none, some, List, [], ◌∷◌, ◌++◌, length,
  length-append, ◌==◌, arith, All, All-append,
}
use haiai.Text.{text_eq_iff}
use haiai.Client.Origin.{
  Host, domain, ipv4, ipv6, Url, host_eq, option_eq, urls_have_same_origin, max_redirects, follow,
  last_of, same_origin_redirect_policy,
}

-- A chain of requests: the first URL, then the URLs that the policy let the client follow.
pub data Followed (start : Url) : List Url → Type 0 where
  begin : Followed start []
  hop :
      {us : List Url} (next : Url)
      → Followed start us
      → same_origin_redirect_policy (start ∷ us) next ≡ follow
      → Followed start (us ++ next ∷ [])

-- The same scheme, host and port as the first URL, and no credentials.
pub record IsSameOrigin (start u : Url) : Type 0 where
  pub scheme : u.scheme ≡ start.scheme
  pub host : u.host ≡ start.host
  pub port : u.port_or_known_default ≡ start.port_or_known_default
  pub no_username : u.username ≡ []
  pub no_password : u.password ≡ none

host_eq-eq : (a b : Host) → host_eq a b ≡ true → b ≡ a
unfolding host_eq
host_eq-eq (domain a) (domain b) h = ap domain (sym ((text_eq_iff a b).0 h))
host_eq-eq (ipv4 a) (ipv4 b) h = ground arith
host_eq-eq (ipv6 a) (ipv6 b) h = ground arith
host_eq-eq _ _ h = cc

option_host-eq : (a b : Option Host) → option_eq host_eq a b ≡ true → b ≡ a
unfolding option_eq
option_host-eq (some a) (some b) h = ap some (host_eq-eq a b h)
option_host-eq none none h = refl
option_host-eq _ _ h = cc

option_port-eq : (a b : Option ℕ) → option_eq ◌==◌ a b ≡ true → b ≡ a
unfolding option_eq
option_port-eq (some a) (some b) h = ground arith
option_port-eq none none h = refl
option_port-eq _ _ h = cc

urls_have_same_origin-IsSameOrigin :
    (a b : Url) → urls_have_same_origin a b ≡ true → IsSameOrigin a b
unfolding urls_have_same_origin
urls_have_same_origin-IsSameOrigin a b h = record {
  scheme = sym ((text_eq_iff a.scheme b.scheme).0 (ground arith));
  host = option_host-eq a.host b.host (ground arith);
  port = option_port-eq a.port_or_known_default b.port_or_known_default (ground arith);
  no_username = ground arith;
  no_password = ground arith;
}

-- The origin alone, which the first URL has too.
record SharesOrigin (start u : Url) : Type 0 where
  scheme : u.scheme ≡ start.scheme
  host : u.host ≡ start.host
  port : u.port_or_known_default ≡ start.port_or_known_default

last_of-SharesOrigin :
    (start u : Url) (us : List Url)
    → SharesOrigin start u
    → All (IsSameOrigin start) us
    → SharesOrigin start (last_of u us)
last_of-SharesOrigin start u [] h k = h
last_of-SharesOrigin start u (v ∷ vs) h (k, ks) =
    last_of-SharesOrigin start v vs (record { scheme = k.scheme; host = k.host; port = k.port }) ks

step-IsSameOrigin :
    (start : Url) (us : List Url) (next : Url)
    → All (IsSameOrigin start) us
    → same_origin_redirect_policy (start ∷ us) next ≡ follow
    → IsSameOrigin start next × (length us + 1 ≤ max_redirects)
unfolding same_origin_redirect_policy
step-IsSameOrigin start us next k h =
    let last =
      last_of-SharesOrigin start start us (record { scheme = refl; host = refl; port = refl }) k in
    let same = urls_have_same_origin-IsSameOrigin (last_of start us) next (ground arith) in
    (
      record {
        scheme = same.scheme ∙ last.scheme;
        host = same.host ∙ last.host;
        port = same.port ∙ last.port;
        no_username = same.no_username;
        no_password = same.no_password;
      },
      ground arith,
    )

-- Whatever a server answers, each URL that the client is let follow has the scheme, the host and
-- the port of the first request's URL and carries no credentials, and there are at most ten.
pub Followed-IsSameOrigin :
    (start : Url) {us : List Url}
    → Followed start us
    → All (IsSameOrigin start) us × (length us ≤ max_redirects)
Followed-IsSameOrigin start begin = (tt, omega arith)
Followed-IsSameOrigin start (hop {us} next f allowed) =
    let (same, few) = Followed-IsSameOrigin start f in
    let (next_same, room) = step-IsSameOrigin start us next same allowed in
    (
      All-append _ us (next ∷ []) same (next_same, tt),
      omega (arith, room, length-append us (next ∷ [])),
    )
