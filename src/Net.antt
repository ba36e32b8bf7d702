-- ===== src/Net.antt =====
-- The addresses of `std::net`: an address is a 32-bit or a 128-bit number.
use pingoo.Prelude.{
  String, not, string_eq, ◌==◌, ℕ, ◌≡◌, ◌↔◌, Bool, true, false, ◌&&◌, ◌*◌, ◌+◌, ◌/◌, ◌^◌, eqb, Eq,
  arith,
}

pub data IpAddr : Type 0 where
  v4 v6 : ℕ → IpAddr

abbrev pub ip_beq : IpAddr → IpAddr → Bool
ip_beq (v4 a) (v4 b) = eqb a b
ip_beq (v6 a) (v6 b) = eqb a b
ip_beq _ _ = false

pub ip_beq_iff : (a b : IpAddr) → (ip_beq a b ≡ true) ↔ (a ≡ b)
ip_beq_iff a b = ground arith

instance abbrev pub ip_eq : Eq IpAddr
ip_eq = record { same = ip_beq; same_iff = ip_beq_iff }

pub record SocketAddr : Type 0 where
  pub ip : IpAddr
  pub port : ℕ

abbrev pub socket_beq : SocketAddr → SocketAddr → Bool
socket_beq a b = ip_beq a.ip b.ip && eqb a.port b.port

pub socket_beq_iff : (a b : SocketAddr) → (socket_beq a b ≡ true) ↔ (a ≡ b)
socket_beq_iff a b = ground arith

instance abbrev pub socket_eq : Eq SocketAddr
socket_eq = record { same = socket_beq; same_iff = socket_beq_iff }

-- `Ipv4Addr::new(a, b, c, d)`
abbrev pub ipv4 : ℕ → ℕ → ℕ → ℕ → IpAddr
ipv4 a b c d = v4 (((a * 256 + b) * 256 + c) * 256 + d)

abbrev pub localhost : IpAddr
localhost = ipv4 127 0 0 1

-- 127.0.0.0/8 and ::1
abbrev pub is_loopback : IpAddr → Bool
is_loopback (v4 a) = eqb (a / 2 ^ 24) 127
is_loopback (v6 a) = eqb a 1

-- 224.0.0.0/4 and ff00::/8
abbrev pub is_multicast : IpAddr → Bool
is_multicast (v4 a) = eqb (a / 2 ^ 28) 14
is_multicast (v6 a) = eqb (a / 2 ^ 120) 255

abbrev pub is_ipv6 : IpAddr → Bool
is_ipv6 (v4 a) = false
is_ipv6 (v6 a) = true

-- `Upstream` of pingoo/service_discovery/service_registry.rs, with its derived `PartialEq`
pub record Upstream : Type 0 where
  pub socket_address : SocketAddr
  pub hostname : String
  pub tls : Bool

abbrev pub bool_beq : Bool → Bool → Bool
bool_beq true b = b
bool_beq false b = not b

abbrev pub upstream_beq : Upstream → Upstream → Bool
upstream_beq a b =
    socket_beq a.socket_address b.socket_address && a.hostname == b.hostname && bool_beq a.tls b.tls

pub upstream_beq_iff : (a b : Upstream) → (upstream_beq a b ≡ true) ↔ (a ≡ b)
upstream_beq_iff a b = ground (arith, string_eq.same_iff a.hostname b.hostname)

instance abbrev pub upstream_eq : Eq Upstream
upstream_eq = record { same = upstream_beq; same_iff = upstream_beq_iff }
