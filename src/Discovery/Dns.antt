-- ===== src/Discovery/Dns.antt =====
-- pingoo/service_discovery/dns.rs: the addresses of the host names among the upstreams. The resolver is
-- a parameter, `none` where it fails; the set that drops duplicates keeps the order of last occurrences.
use pingoo.Prelude.{
  ℕ, String, List, [], ◌∷◌, ◌++◌, map, Option, none, some, Bool, ◌&&◌, HashMap, insert, string_eq,
  if◌then◌else◌, unwrap_or, contains,
}
use pingoo.Net.{IpAddr, SocketAddr, Upstream, localhost, is_ipv6, is_loopback, socket_eq}
use pingoo.Config.{ServiceConfig, UpstreamConfig, ip_address, domain}
use pingoo.ServiceRegistry.{Upstreams}

pub record UpstreamHost : Type 0 where
  pub hostname : String
  pub tls : Bool
  pub port : ℕ

unfoldable pub hosts_among : List UpstreamConfig → List UpstreamHost
hosts_among [] = []
hosts_among (ip_address u ∷ us) = hosts_among us
hosts_among (domain hostname tls port ∷ us) =
    record { hostname = hostname; tls = tls; port = port } ∷ hosts_among us

module _ {Expr : Type 0} where
  unfoldable pub hosts_of : ServiceConfig Expr → List UpstreamHost
  hosts_of s = elim s.http_proxy [
    | some upstreams ↦ hosts_among upstreams
    | none ↦ elim s.tcp_proxy [ some upstreams ↦ hosts_among upstreams | none ↦ [] ]
  ]

  unfoldable pub collect_hosts :
      HashMap String (List UpstreamHost)
      → List (ServiceConfig Expr)
      → HashMap String (List UpstreamHost)
  collect_hosts m [] = m
  collect_hosts m (s ∷ services) = collect_hosts (insert m s.name (hosts_of s)) services

  unfoldable pub get_upstream_hosts : List (ServiceConfig Expr) → HashMap String (List UpstreamHost)
  get_upstream_hosts services = collect_hosts [] services

-- "the loopback IPv6 address can cause problems"
unfoldable pub address_of : ℕ → IpAddr → SocketAddr
address_of port ip =
    if is_ipv6 ip && is_loopback ip
    then record { ip = localhost; port = port }
    else record { ip = ip; port = port }

unfoldable pub dedup : List SocketAddr → List SocketAddr
dedup [] = []
dedup (a ∷ rest) = let others = dedup rest in if contains others a then others else a ∷ others

module _ (lookup_ip : String → Option (List IpAddr)) where
  unfoldable pub host_upstreams : UpstreamHost → List Upstream
  host_upstreams host =
      map
        (λ (a : SocketAddr). record {
          socket_address = a;
          hostname = host.hostname;
          tls = host.tls;
        })
        (dedup (map (address_of host.port) (unwrap_or (lookup_ip host.hostname) [])))

  unfoldable pub service_upstreams : List UpstreamHost → List Upstream
  service_upstreams [] = []
  service_upstreams (host ∷ hosts) = host_upstreams host ++ service_upstreams hosts

  unfoldable pub discover_from : Upstreams → HashMap String (List UpstreamHost) → Upstreams
  discover_from found [] = found
  discover_from found ((name, hosts) ∷ services) =
      discover_from (insert found name (service_upstreams hosts)) services

  unfoldable pub discover : HashMap String (List UpstreamHost) → Upstreams
  discover hosts = discover_from [] hosts
