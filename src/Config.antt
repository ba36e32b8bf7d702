-- ===== src/Config.antt =====
-- pingoo/config/config.rs: the validated configuration. `Expr` is the type of compiled expressions,
-- `bel::Program`, of the crate that evaluates rules and routes.
pub mod Duplicates
pub mod File
pub mod Listeners
pub mod Load
pub mod Small
mod Tests
use pingoo.Prelude.{◌≡◌, if◌then◌else◌, ◌==◌, string_eq, arith, refl}
use pingoo.Prelude.{ℕ, String, List, [], ◌∷◌, Option, none, some, Bool, true, false, HashMap}
use pingoo.Net.{IpAddr, SocketAddr, Upstream}

pub data ListenerProtocol : Type 0 where
  tcp tcp_and_tls http https : ListenerProtocol

pub record ListenerConfig : Type 0 where
  pub name : String
  pub address : SocketAddr
  pub protocol : ListenerProtocol
  pub services : List String

pub data UpstreamConfig : Type 0 where
  ip_address : Upstream → UpstreamConfig
  domain : (hostname : String) (tls : Bool) (port : ℕ) → UpstreamConfig

pub record StaticSiteServiceNotFound : Type 0 where
  pub file : Option String
  pub status_code : ℕ

pub record StaticSiteServiceConfig : Type 0 where
  pub root : String
  pub not_found : StaticSiteServiceNotFound

pub record ServiceConfig (Expr : Type 0) : Type 0 where
  pub name : String
  pub route : Option Expr
  pub http_proxy : Option (List UpstreamConfig)
  pub static : Option StaticSiteServiceConfig
  pub tcp_proxy : Option (List UpstreamConfig)

pub record TlsAcmeConfig : Type 0 where
  pub directory_url : String
  pub domains : List String

pub record TlsConfig : Type 0 where
  pub acme : Option TlsAcmeConfig

abbrev pub default_tls_config : TlsConfig
default_tls_config = record { acme = none }

pub record ServiceDiscoveryDockerConfig : Type 0 where
  pub socket : String

pub record ServiceDiscoveryConfig : Type 0 where
  pub docker : ServiceDiscoveryDockerConfig

-- `::docker::DEFAULT_DOCKER_SOCKET`
abbrev pub default_docker_socket : String
default_docker_socket = "/var/run/docker.sock"

abbrev pub default_service_discovery_config : ServiceDiscoveryConfig
default_service_discovery_config = record { docker = record { socket = default_docker_socket } }

pub data ListType : Type 0 where
  string int ip : ListType

pub record ListConfig : Type 0 where
  pub type : ListType
  pub file : String

pub record ChildProcess : Type 0 where
  pub command : List String

-- One constructor for each message of `Error::Config` that these files build, with its arguments.
pub data ConfigError : Type 0 where
  invalid_protocol : String → ConfigError
  listener_parse listener_protocol listener_authority listener_port listener_ip :
      String → ConfigError
  service_kind service_status service_tcp_route service_route : String → ConfigError
  upstream_url upstream_host upstream_ascii upstream_protocol upstream_port : String → ConfigError
  same_port : String → String → ConfigError
  no_service tcp_services : String → ConfigError
  unknown_service duplicate_service : String → String → ConfigError
  duplicate_rule : String → ConfigError
  rules_folder rules_read rules_parse rule_expression : String → ConfigError
  config_read config_parse : ConfigError
  acme_duplicate acme_wildcard acme_invalid : String → ConfigError

unfoldable pub protocol_from_str : String → Option ListenerProtocol
protocol_from_str s =
    if s == "http"
    then some http
    else if s == "https"
    then some https
    else if s == "tcp"
    then some tcp
    else if s == "tcp+tls"
    then some tcp_and_tls
    else none

unfoldable pub protocol_to_str : ListenerProtocol → String
protocol_to_str http = "http"
protocol_to_str https = "https"
protocol_to_str tcp = "tcp"
protocol_to_str tcp_and_tls = "tcp+tls"

protocol_from_str-to_str : (p : ListenerProtocol) → protocol_from_str (protocol_to_str p) ≡ some p
unfolding protocol_from_str protocol_to_str
protocol_from_str-to_str tcp = refl
protocol_from_str-to_str tcp_and_tls = refl
protocol_from_str-to_str http = refl
protocol_from_str-to_str https = refl

-- A protocol that is printed is read back, and whatever text is read as a protocol is what that
-- protocol prints as.
pub protocol_round_trip :
    (p : ListenerProtocol) (s : String)
    → (protocol_from_str (protocol_to_str p) ≡ some p)
      × (protocol_from_str s ≡ some p → protocol_to_str p ≡ s)
unfolding protocol_from_str protocol_to_str
protocol_round_trip p s = (
  protocol_from_str-to_str p,
  λ h. ground (
    arith,
    string_eq.same_iff s "http",
    string_eq.same_iff s "https",
    string_eq.same_iff s "tcp",
    string_eq.same_iff s "tcp+tls",
  ),
)
