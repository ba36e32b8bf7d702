-- ===== src/Config/File/Services.antt =====
-- What `parse_service` and `parse_upstream` of pingoo/config/config_file.rs accept.
use pingoo.Prelude.{
  ℕ, ◌≡◌, ◌≢◌, ◌≤◌, ◌<◌, ◌⊎◌, String, [], ◌∷◌, Option, none, some, Bool, true, ok, is_some, ap,
  str_is_empty, arith, string_eq, ◌==◌, Option-cases, inl, inr, refl, count, if◌then◌else◌,
}
use pingoo.Net.{IpAddr, localhost}
use pingoo.Config.{ServiceConfig, UpstreamConfig, ip_address, domain, StaticSiteServiceConfig}
use pingoo.Config.File.{
  ServiceConfigFile, Parsers, parse_service, parse_upstream, upstream_from, Url, is_ascii,
}

-- exactly one kind, the kind of the file, and no route on a TCP proxy
pub record IsService (Expr : Type 0) (name : String) (s : ServiceConfigFile)
    (c : ServiceConfig Expr) : Type 0 where
  pub named : c.name ≡ name
  pub one_kind :
      count (λ (b : Bool). b) (is_some c.http_proxy ∷ is_some c.tcp_proxy ∷ is_some c.static ∷ [])
      ≡ 1
  pub http_kept : is_some c.http_proxy ≡ is_some s.http_proxy
  pub tcp_kept : is_some c.tcp_proxy ≡ is_some s.tcp_proxy
  pub static_kept : is_some c.static ≡ is_some s.static
  pub route_kept : is_some c.route ≡ is_some s.route
  pub static_status :
      (st : StaticSiteServiceConfig)
      → c.static ≡ some st
      → (100 ≤ st.not_found.status_code) × (st.not_found.status_code < 1000)
  pub tcp_unrouted : (c.tcp_proxy ≡ none) ⊎ (c.route ≡ none)

-- the host, whether TLS is used, and the port of an upstream
abbrev pub endpoint : UpstreamConfig → String × Bool × ℕ
endpoint (ip_address u) = (u.hostname, u.tls, u.socket_address.port)
endpoint (domain hostname tls port) = (hostname, tls, port)

-- the address that an upstream is fixed to, if it needs no name resolution
abbrev pub fixed_ip : UpstreamConfig → Option IpAddr
fixed_ip (ip_address u) = some u.socket_address.ip
fixed_ip (domain _ _ _) = none

abbrev pub expected_ip : {Expr : Type 0} → Parsers Expr → String → Option IpAddr
expected_ip parsers hostname =
    if hostname == "localhost" then some localhost else parsers.parse_ip hostname

module _ (Expr : Type 0) (parsers : Parsers Expr) where
  -- What `parse_service` accepts has the kind, the route and the name of the file's definition,
  -- exactly one of the three kinds, a status code from 100 to 999 for a static site's missing files,
  -- and no route if it is a TCP proxy.
  pub parse_service-IsService :
      (name : String) (s : ServiceConfigFile) (c : ServiceConfig Expr)
      → parse_service parsers name s ≡ ok c
      → IsService Expr name s c
  unfolding parse_service
  parse_service-IsService name s c h = record {
    named = ground arith;
    one_kind = ground arith;
    http_kept = ground arith;
    tcp_kept = ground arith;
    static_kept = ground arith;
    route_kept = ground arith;
    static_status = λ st e. ground arith;
    tcp_unrouted = ground arith;
  }

  -- a checked host: the last part of the statement below
  abbrev pub IsChecked : Url → String → UpstreamConfig → Type 0
  IsChecked url host u =
      (host ≢ "")
      × (is_ascii host ≡ true)
      × ((endpoint u).0 ≡ host)
      × ((endpoint u).1 ≡ (url.scheme == "https"))
      × (some (endpoint u).2 ≡ (
          if is_some url.port
          then url.port
          else if url.scheme == "http"
          then some 80
          else some 443))
      × (fixed_ip u ≡ expected_ip parsers host)

  upstream_from-eq-ok :
      (s host : String) (url : Url) (u : UpstreamConfig)
      → upstream_from parsers s url host ≡ ok u
      → IsChecked url host u
  unfolding upstream_from
  upstream_from-eq-ok s host url u h = (
    λ q. ground (arith, ap str_is_empty q),
    ground arith,
    ground arith,
    ground arith,
    ground arith,
    ground arith,
  )

  -- What `parse_upstream` accepts is the host of a URL that the `url` crate parses, not empty and
  -- ASCII, with TLS exactly under "https" and the URL's port or else the scheme's; and it has a
  -- fixed address exactly where the host is "localhost" or parses as one.
  pub parse_upstream-eq-ok :
      (s : String) (u : UpstreamConfig)
      → parse_upstream parsers s ≡ ok u
      → (url : Url) × (host : String) × (parsers.parse_url s ≡ some url)
        × (url.host_str ≡ some host)
        × IsChecked url host u
  unfolding parse_upstream
  parse_upstream-eq-ok s u h = elim (Option-cases (parsers.parse_url s)) [
    | inl e ↦ absurd (ground arith)
    | inr (url, e) ↦ elim (Option-cases url.host_str) [
      | inl f ↦ absurd ((upstream_from-eq-ok s "" url u (ground arith)).0 refl)
      | inr (host, f) ↦ (url, host, e, f, upstream_from-eq-ok s host url u (ground arith))
    ]
  ]
