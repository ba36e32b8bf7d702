-- ===== src/Geoip.antt =====
-- pingoo/geoip.rs: country codes and the look-up of an address, with its cache. The database is a
-- parameter; the expiry of the cache is not modelled.
pub mod Lookup
pub mod Load
mod Tests
use pingoo.Prelude.{
  ℕ, String, List, Option, none, some, Bool, true, false, not, ◌&&◌, ◌||◌, leb, Result, ok, err,
  HashMap, get, insert, if◌then◌else◌,
}
use Prim.Native.Char.{Char, code}
use pingoo.Net.{IpAddr, ip_eq, is_loopback, is_multicast}
use pingoo.HttpListener.{GeoipRecord}

pub data Error : Type 0 where
  address_not_found : IpAddr → Error
  unspecified : String → Error
  invalid_country_code : String → Error

-- two letters, a byte each
pub record CountryCode : Type 0 where
  pub first : Char
  pub second : Char

abbrev pub is_letter : Char → Bool
is_letter c = leb b'A' (code c) && leb (code c) b'Z'

unfoldable pub country_to_str : CountryCode → String
country_to_str c = String.◌∷◌ c.first (String.◌∷◌ c.second "")

unfoldable pub country_from_str : String → Result CountryCode Error
country_from_str (String.◌∷◌ c (String.◌∷◌ d String.[])) =
    if is_letter c && is_letter d
    then ok (record { first = c; second = d })
    else err (invalid_country_code (String.◌∷◌ c (String.◌∷◌ d "")))
country_from_str s = err (invalid_country_code s)

-- what the database answers
pub data Mmdb : Type 0 where
  record_found : GeoipRecord → Mmdb
  record_missing : Mmdb
  lookup_failed : String → Mmdb

abbrev pub Cache : Type 0
Cache = HashMap IpAddr GeoipRecord

module _ (mmdb : IpAddr → Mmdb) where
  unfoldable pub lookup_uncached : Cache → IpAddr → Cache × Result GeoipRecord Error
  lookup_uncached cache ip = elim (mmdb ip) [
    | record_found r ↦ (insert cache ip r, ok r)
    | record_missing ↦ (cache, err (address_not_found ip))
    | lookup_failed e ↦ (cache, err (unspecified e))
  ]

  unfoldable pub lookup : Cache → IpAddr → Cache × Result GeoipRecord Error
  lookup cache ip =
      if is_loopback ip || is_multicast ip
      then (cache, err (address_not_found ip))
      else elim (get cache ip) [ some r ↦ (cache, ok r) | none ↦ lookup_uncached cache ip ]
