-- ===== src/Discovery/Tests.antt =====
-- Two containers of one service, and a host with two addresses.
use pingoo.Prelude.{
  String, List, [], ◌∷◌, Option, none, some, false, ◌≡◌, ◌↔◌, refl, get, insert, entry_extend,
  NoDup, In, ◌==◌, string_eq, if◌then◌else◌,
}
use pingoo.Net.{IpAddr, Upstream, v6, ipv4}
use pingoo.Discovery.Docker.{
  Container, discover, discover_from, note, push_upstream, kind_of, port_of, bridge_address,
}
use pingoo.Discovery.Dns.{UpstreamHost, host_upstreams, address_of, dedup}
use pingoo.Discovery.Found.{AreUpstreams, entry_for, get-discover_docker}
use pingoo.Discovery.Hosts.{IsUpstreamAt, upstream_at, host_upstreams_iff}

abbrev parse_ip : String → Option IpAddr
parse_ip s = if s == "172.17.0.2" then some (ipv4 172 17 0 2) else none

abbrev usable : Container
usable = record {
  id = some "c1";
  labels = some (("pingoo.service", "api") ∷ ("pingoo.port", "8080") ∷ []);
  ports = some (80 ∷ []);
  networks = some (some (("bridge", some "172.17.0.2") ∷ []));
}

-- its port is no number of 16 bits
abbrev unusable : Container
unusable = record usable {
  id = some "c2";
  labels = some (("pingoo.service", "api") ∷ ("pingoo.port", "80800") ∷ []);
}

get-discover_docker_example :
    (us : List Upstream) × (AreUpstreams parse_ip "api" (usable ∷ unusable ∷ []) us
      × (get (discover parse_ip ("c1" ∷ []) (some (usable ∷ unusable ∷ []))).1 "api"
          ≡ entry_for parse_ip us))
get-discover_docker_example =
    get-discover_docker parse_ip ("c1" ∷ []) (usable ∷ unusable ∷ []) "api"

finds :
    get (discover parse_ip [] (some (usable ∷ unusable ∷ []))).1 "api"
    ≡ some (
        record {
          socket_address = record { ip = ipv4 172 17 0 2; port = 8080 };
          hostname = "c1";
          tls = false;
        }
        ∷ [])
unfolding discover discover_from note push_upstream kind_of port_of bridge_address get insert
    entry_extend
finds = refl

-- the container that works again is forgotten, the other one is noted
noted : (discover parse_ip ("c1" ∷ []) (some (usable ∷ unusable ∷ []))).0 ≡ "c2" ∷ []
unfolding discover discover_from note push_upstream kind_of port_of bridge_address get
noted = refl

abbrev host : UpstreamHost
host = record { hostname = "localhost"; tls = false; port = 8000 }

abbrev lookup_ip : String → Option (List IpAddr)
lookup_ip name = some (ipv4 127 0 0 1 ∷ v6 1 ∷ [])

host_upstreams_iff_example :
    ((u : Upstream)
      → In u (host_upstreams lookup_ip host) ↔ (
          (found : List IpAddr) × ((ip : IpAddr) × ((lookup_ip "localhost" ≡ some found)
              × In ip found
              × IsUpstreamAt lookup_ip host ip u))))
    × NoDup (host_upstreams lookup_ip host)
host_upstreams_iff_example = host_upstreams_iff lookup_ip host

-- both addresses of localhost are one upstream
once :
    host_upstreams lookup_ip host
    ≡ upstream_at lookup_ip host (record { ip = ipv4 127 0 0 1; port = 8000 }) ∷ []
unfolding host_upstreams dedup address_of
once = refl
