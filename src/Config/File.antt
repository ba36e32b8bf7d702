-- ===== src/Config/File.antt =====
-- pingoo/config/config_file.rs: the configuration file, and the conversion of its parts.
-- The parsers of the crates `http` (Uri), `url` (Url), `std::net` and of the expression language are
-- parameters.
pub mod Services
use pingoo.Prelude.{
  ℕ, ◌<◌, ◌≤◌, ◌≡◌, ◌&&◌, ◌||◌, String, List, [], ◌∷◌, Option, none, some, Bool, true, false, not,
  HashMap, Result, ok, err, ◌>>=◌, ensure, ok_or, collect, transpose, is_some, is_none, unwrap_or,
  eqb, leb, ltb, ◌==◌, string_eq, str_is_empty, any_char, path_push, count, if◌then◌else◌,
}
use pingoo.Net.{IpAddr, SocketAddr, Upstream, localhost}
use pingoo.RateLimiter.{RateLimit}
use pingoo.Config.{
  ListenerProtocol, tcp, tcp_and_tls, http, https, ServiceConfig, UpstreamConfig, ip_address,
  domain, StaticSiteServiceConfig, StaticSiteServiceNotFound, TlsConfig, ServiceDiscoveryConfig,
  ListConfig, ChildProcess, ConfigError, invalid_protocol, listener_parse, listener_protocol,
  listener_authority, listener_port, listener_ip, service_kind, service_status, service_tcp_route,
  service_route, upstream_url, upstream_host, upstream_ascii, upstream_protocol, upstream_port,
  protocol_from_str, protocol_to_str,
}

-- `rules::Action`
pub data Action : Type 0 where
  block captcha limit : Action

pub record ListenerAddressConfigFile : Type 0 where
  pub socket_address : SocketAddr
  pub protocol : ListenerProtocol

pub record ListenerConfigFile : Type 0 where
  pub address : ListenerAddressConfigFile
  pub services : Option (List String)

pub record ServiceConfigFileStaticNotFound : Type 0 where
  pub file : Option String
  pub status : ℕ

pub record ServiceConfigFileStatic : Type 0 where
  pub root : String
  pub not_found : ServiceConfigFileStaticNotFound

pub record ServiceConfigFile : Type 0 where
  pub route : Option String
  pub http_proxy : Option (List String)
  pub static : Option ServiceConfigFileStatic
  pub tcp_proxy : Option (List String)

pub record RuleConfigFile : Type 0 where
  pub expression : Option String
  pub actions : List Action
  pub limit : Option RateLimit

pub record ConfigFile : Type 0 where
  pub listeners : HashMap String ListenerConfigFile
  pub services : HashMap String ServiceConfigFile
  pub rules : HashMap String RuleConfigFile
  pub tls : Option TlsConfig
  pub service_discovery : Option ServiceDiscoveryConfig
  pub lists : Option (HashMap String ListConfig)
  pub child_process : Option ChildProcess

abbrev pub default_static_not_found : ServiceConfigFileStaticNotFound
default_static_not_found = record { file = none; status = 404 }

-- what `http::Uri` tells of an address
pub record Authority : Type 0 where
  pub host : String
  pub port_u16 : Option ℕ

pub record Uri : Type 0 where
  pub scheme_str : Option String
  pub path : String
  pub authority : Option Authority

-- what `url::Url` tells of an upstream; `port` is none where it is the scheme's default
pub record Url : Type 0 where
  pub host_str : Option String
  pub scheme : String
  pub port : Option ℕ

-- `StatusCode::from_u16`
abbrev pub status_from_u16 : ℕ → Option ℕ
status_from_u16 n = if leb 100 n && ltb n 1000 then some n else none

pub record Parsers (Expr : Type 0) : Type 0 where
  pub parse_uri : String → Option Uri
  pub parse_url : String → Option Url
  pub parse_ip : String → Option IpAddr
  pub compile_expression : String → Option Expr

abbrev pub is_ascii : String → Bool
is_ascii s = not (any_char (λ c. leb 128 c) s)

abbrev pub default_port : Option ℕ → ListenerProtocol → Option ℕ
default_port (some port) _ = some port
default_port none http = some 80
default_port none https = some 443
default_port none _ = none

abbrev pub map_some {ℓ κ} : {A : Type ℓ} {B : Type κ} → (A → B) → Option A → Option B
map_some f none = none
map_some f (some a) = some (f a)

module _ {Expr : Type 0} (parsers : Parsers Expr) where
  open parsers use {parse_uri, parse_url, parse_ip, compile_expression}

  -- The test of the path builds an error and drops it, so it is not part of the result.
  unfoldable pub parse_listener_address : String → Result ListenerAddressConfigFile ConfigError
  unfolding protocol_from_str protocol_to_str
  parse_listener_address address = do
    uri ← ok_or (parse_uri address) (listener_parse address)
    protocol ←
        ok_or (protocol_from_str (unwrap_or uri.scheme_str (protocol_to_str http)))
          (listener_protocol address)
    authority ← ok_or uri.authority (listener_authority address)
    port ← ok_or (default_port authority.port_u16 protocol) (listener_port address)
    ip ← ok_or (parse_ip authority.host) (listener_ip address)
    ok (record { socket_address = record { ip = ip; port = port }; protocol = protocol })

  abbrev upstream_default_port : String → Option ℕ → Option ℕ
  upstream_default_port protocol (some port) = some port
  upstream_default_port protocol none =
      if protocol == "http" then some 80 else if protocol == "https" then some 443 else none

  abbrev resolve_upstream : String → Bool → ℕ → UpstreamConfig
  resolve_upstream hostname tls port =
      if hostname == "localhost"
      then ip_address (record {
        socket_address = record { ip = localhost; port = port };
        hostname = hostname;
        tls = tls;
      })
      else elim (parse_ip hostname) [
        | some ip ↦ ip_address (record {
          socket_address = record { ip = ip; port = port };
          hostname = hostname;
          tls = tls;
        })
        | none ↦ domain hostname tls port
      ]

  -- the checks of `parse_upstream` behind the parsed URL and its host
  unfoldable pub upstream_from : String → Url → String → Result UpstreamConfig ConfigError
  upstream_from upstream url hostname =
      ensure (not (str_is_empty hostname)) (upstream_host upstream) (
        ensure (is_ascii hostname) (upstream_ascii upstream) (
          ensure (url.scheme == "tcp" || url.scheme == "http" || url.scheme == "https")
            (upstream_protocol upstream)
            (do
              port ← ok_or (upstream_default_port url.scheme url.port) (upstream_port upstream)
              ok (resolve_upstream hostname (url.scheme == "https") port))))

  unfoldable pub parse_upstream : String → Result UpstreamConfig ConfigError
  parse_upstream upstream = do
    url ← ok_or (parse_url upstream) (upstream_url upstream)
    upstream_from upstream url (unwrap_or url.host_str "")

  abbrev parse_static :
      String → ServiceConfigFileStatic → Result StaticSiteServiceConfig ConfigError
  parse_static name s = do
    status ← ok_or (status_from_u16 s.not_found.status) (service_status name)
    ok (record {
      root = s.root;
      not_found = record {
        file = map_some (path_push s.root) s.not_found.file;
        status_code = status;
      };
    })

  unfoldable pub parse_service :
      String → ServiceConfigFile → Result (ServiceConfig Expr) ConfigError
  parse_service name service =
      ensure
        (eqb
          (count (λ (b : Bool). b)
            (is_some service.http_proxy ∷ is_some service.tcp_proxy ∷ is_some service.static ∷ []))
          1)
        (service_kind name)
        (do
          static ← transpose (parse_static name) service.static
          http_proxy ← transpose (collect parse_upstream) service.http_proxy
          ensure (not (is_some service.tcp_proxy && is_some service.route)) (service_tcp_route name)
              (do
                tcp_proxy ← transpose (collect parse_upstream) service.tcp_proxy
                route ←
                    transpose (λ r. ok_or (compile_expression r) (service_route name)) service.route
                ok (record {
                  name = name;
                  route = route;
                  http_proxy = http_proxy;
                  static = static;
                  tcp_proxy = tcp_proxy;
                })))
