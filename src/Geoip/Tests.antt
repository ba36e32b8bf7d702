-- ===== src/Geoip/Tests.antt =====
-- Look-ups in a database with one address, and a country code.
use pingoo.Prelude.{[], ◌∷◌, ◌≡◌, get, arith, ◌==◌, if◌then◌else◌}
use pingoo.Net.{IpAddr, ip_eq, ipv4}
use pingoo.HttpListener.{GeoipRecord}
use pingoo.Geoip.{CountryCode, Mmdb, record_found, record_missing, lookup}
use pingoo.Geoip.Lookup.{IsCoherent, answer, lookup-IsCoherent}

abbrev france : GeoipRecord
france = record { asn = 64500; country = "FR" }

abbrev mmdb : IpAddr → Mmdb
mmdb ip = if ip == ipv4 192 0 2 1 then record_found france else record_missing

cache-IsCoherent : IsCoherent mmdb ((ipv4 192 0 2 1, france) ∷ [])
unfolding get
cache-IsCoherent ip r h =
    ground (arith, ip_eq.same_iff (ipv4 192 0 2 1) ip, ip_eq.same_iff ip (ipv4 192 0 2 1))

lookup-IsCoherent_example :
    IsCoherent mmdb (lookup mmdb ((ipv4 192 0 2 1, france) ∷ []) (ipv4 192 0 2 1)).0
    × ((lookup mmdb ((ipv4 192 0 2 1, france) ∷ []) (ipv4 192 0 2 1)).1
        ≡ answer mmdb (ipv4 192 0 2 1))
lookup-IsCoherent_example =
    lookup-IsCoherent mmdb ((ipv4 192 0 2 1, france) ∷ []) (ipv4 192 0 2 1) cache-IsCoherent

abbrev fr : CountryCode
fr = record { first = "F"; second = "R" }
