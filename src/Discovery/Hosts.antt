-- ===== src/Discovery/Hosts.antt =====
-- What the discoverer of pingoo/service_discovery/dns.rs finds for a host.
use pingoo.Prelude.{
  String, List, [], ◌∷◌, map, Option, some, ◌≡◌, ◌≢◌, ◌↔◌, ◌⊎◌, inl, inr, refl, subst, sym, ap, ◌∙◌,
  arith, unwrap_or, contains, contains_iff, In, Bool-cases, NoDup, Option-cases, eqb,
}
use pingoo.Net.{IpAddr, v4, v6, ipv4, SocketAddr, Upstream, socket_eq}
use pingoo.Discovery.Dns.{UpstreamHost, address_of, dedup, host_upstreams}

contains-dedup : (xs : List SocketAddr) (a : SocketAddr) → contains (dedup xs) a ≡ contains xs a
unfolding dedup
contains-dedup [] a = refl
contains-dedup (x ∷ xs) a =
    let here : x ≡ a → contains (dedup xs) x ≡ contains (dedup xs) a =
      λ e. ap (λ b. contains (dedup xs) b) e in
    ground (arith, contains-dedup xs a, contains-dedup xs x, socket_eq.same_iff x a, here)

NoDup-dedup : (xs : List SocketAddr) → NoDup (dedup xs)
unfolding dedup
NoDup-dedup [] = tt
NoDup-dedup (x ∷ xs) = elim (Bool-cases (contains (dedup xs) x)) [
  | inl e ↦ ground (arith, NoDup-dedup xs)
  | inr e ↦ ground (arith, NoDup-dedup xs, contains_iff (dedup xs) x)
]

In-dedup : (xs : List SocketAddr) (a : SocketAddr) → In a (dedup xs) ↔ In a xs
In-dedup xs a = ground (arith, contains-dedup xs a, contains_iff (dedup xs) a, contains_iff xs a)

module _ {A B : Type 0} (f : A → B) where
  In-map : (xs : List A) (b : B) → In b (map f xs) → (a : A) × (In a xs × (f a ≡ b))
  In-map [] b h = absurd h
  In-map (x ∷ xs) b (inl e) = (x, (inl refl, e))
  In-map (x ∷ xs) b (inr i) = let (a, (j, e)) = In-map xs b i in (a, (inr j, e))

  map-In : (xs : List A) (a : A) → In a xs → In (f a) (map f xs)
  map-In [] a h = absurd h
  map-In (x ∷ xs) a (inl e) = inl (ap f e)
  map-In (x ∷ xs) a (inr i) = inr (map-In xs a i)

module _ (lookup_ip : String → Option (List IpAddr)) (host : UpstreamHost) where
  abbrev ips : List IpAddr
  ips = unwrap_or (lookup_ip host.hostname) []

  -- what an address of the host is as an upstream
  abbrev pub upstream_at : SocketAddr → Upstream
  upstream_at a = record { socket_address = a; hostname = host.hostname; tls = host.tls }

  -- The upstream is at the host's port and this address, or at 127.0.0.1 where it is ::1, under the
  -- host's name and TLS setting.
  pub record IsUpstreamAt (ip : IpAddr) (u : Upstream) : Type 0 where
    pub address :
        ((ip ≡ v6 1) × (u.socket_address.ip ≡ ipv4 127 0 0 1))
        ⊎ ((ip ≢ v6 1) × (u.socket_address.ip ≡ ip))
    pub port : u.socket_address.port ≡ host.port
    pub hostname : u.hostname ≡ host.hostname
    pub tls : u.tls ≡ host.tls

  address_of-IsUpstreamAt : (ip : IpAddr) → IsUpstreamAt ip (upstream_at (address_of host.port ip))
  unfolding address_of
  address_of-IsUpstreamAt (v4 a) = record {
    address = inr (λ e. ground (arith, e), refl);
    port = refl;
    hostname = refl;
    tls = refl;
  }
  address_of-IsUpstreamAt (v6 a) = elim (Bool-cases (eqb a 1)) [
    | inl e ↦ rw e (record {
      address = inl (ground (arith, e), refl);
      port = refl;
      hostname = refl;
      tls = refl;
    })
    | inr e ↦ rw e (record {
      address = inr (λ f. ground (arith, e, f), refl);
      port = refl;
      hostname = refl;
      tls = refl;
    })
  ]

  IsUpstreamAt-unique :
      (ip : IpAddr) (u w : Upstream) → IsUpstreamAt ip u → IsUpstreamAt ip w → u ≡ w
  IsUpstreamAt-unique ip u w h k =
      let same : u.socket_address.ip ≡ w.socket_address.ip = elim h.address [
        | inl (e, f) ↦ elim k.address [ inl (e', f') ↦ f ∙ sym f' | inr (n, f') ↦ absurd (n e) ]
        | inr (n, f) ↦ elim k.address [ inl (e', f') ↦ absurd (n e') | inr (n', f') ↦ f ∙ sym f' ]
      ] in
      ground (arith, same, h.port, k.port, h.hostname, k.hostname, h.tls, k.tls)

  NoDup-map : (xs : List SocketAddr) → NoDup xs → NoDup (map upstream_at xs)
  NoDup-map [] h = tt
  NoDup-map (x ∷ xs) h = (
    (λ i.
        let (a, (j, e)) = In-map upstream_at xs (upstream_at x) i in
        h.0 (subst (λ b. In b xs) (ap (λ (u : Upstream). u.socket_address) e) j)),
    NoDup-map xs h.1,
  )

  NoDup-host_upstreams : NoDup (host_upstreams lookup_ip host)
  unfolding host_upstreams
  NoDup-host_upstreams =
      NoDup-map (dedup (map (address_of host.port) ips))
        (NoDup-dedup (map (address_of host.port) ips))

  In-host_upstreams :
      (u : Upstream)
      → In u (host_upstreams lookup_ip host)
      → (ip : IpAddr) × (In ip ips × IsUpstreamAt ip u)
  unfolding host_upstreams
  In-host_upstreams u h =
      let addresses = map (address_of host.port) ips in
      let (a, (i, e)) = In-map upstream_at (dedup addresses) u h in
      let (ip, (j, e')) = In-map (address_of host.port) ips a ((In-dedup addresses a).0 i) in
      (ip, (j, subst (IsUpstreamAt ip) (ap upstream_at e' ∙ e) (address_of-IsUpstreamAt ip)))

  host_upstreams-In :
      (u : Upstream) (ip : IpAddr)
      → In ip ips
      → IsUpstreamAt ip u
      → In u (host_upstreams lookup_ip host)
  unfolding host_upstreams
  host_upstreams-In u ip j h =
      let addresses = map (address_of host.port) ips in
      let a = address_of host.port ip in
      subst (λ x. In x (map upstream_at (dedup addresses)))
        (IsUpstreamAt-unique ip (upstream_at a) u (address_of-IsUpstreamAt ip) h)
        (map-In upstream_at (dedup addresses) a
          ((In-dedup addresses a).1 (map-In (address_of host.port) ips ip j)))

  -- DNS finds for a host exactly one upstream for each address that its name has, at that address or, for
  -- ::1, at 127.0.0.1, at the port configured and under the host's name and TLS setting, none of them
  -- twice; a failed look-up finds nothing.
  pub host_upstreams_iff :
      ((u : Upstream)
        → In u (host_upstreams lookup_ip host) ↔ (
            (found : List IpAddr) × ((ip : IpAddr) × ((lookup_ip host.hostname ≡ some found)
                × In ip found
                × IsUpstreamAt ip u))))
      × NoDup (host_upstreams lookup_ip host)
  host_upstreams_iff = (
    λ u. elim (Option-cases (lookup_ip host.hostname)) [
      | inl e ↦ (
        λ h.
            let (ip, (i, at)) = In-host_upstreams u h in
            absurd (subst (λ o. In ip (unwrap_or o [])) e i),
        λ (found, (ip, (f, i, at))). absurd (ground (arith, e, f)),
      )
      | inr (found, e) ↦ (
        λ h.
            let (ip, (i, at)) = In-host_upstreams u h in
            (found, (ip, (e, subst (λ o. In ip (unwrap_or o [])) e i, at))),
        λ (found', (ip, (f, i, at))).
            host_upstreams-In u ip (subst (λ o. In ip (unwrap_or o [])) (sym f) i) at,
      )
    ],
    NoDup-host_upstreams,
  )
