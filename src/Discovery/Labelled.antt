-- ===== src/Discovery/Labelled.antt =====
-- Which containers pingoo/service_discovery/docker.rs takes for upstreams of a service.
use pingoo.Prelude.{
  ℕ, String, List, [], ◌∷◌, Option, none, some, false, ◌≡◌, ◌↔◌, ◌⊎◌, inl, inr, refl, ap, arith,
  HashMap, get, unwrap_or, string_eq, Option-cases,
}
use pingoo.Net.{IpAddr, Upstream}
use pingoo.Discovery.Docker.{Container, upstream_for, kind_of, parse_u16, port_of, bridge_address}

-- The port of the label "pingoo.port", or, without that label, the first exposed one.
abbrev pub IsPort : HashMap String String → Option (List ℕ) → ℕ → Type 0
IsPort labels ports port =
    ((text : String) × ((get labels "pingoo.port" ≡ some text) × (parse_u16 text ≡ some port)))
    ⊎ ((get labels "pingoo.port" ≡ none) × ((others : List ℕ) × (ports ≡ some (port ∷ others))))

-- The container's address in the network "bridge", empty where Docker gives none.
abbrev pub IsBridgeAddress : Option (Option (HashMap String (Option String))) → String → Type 0
IsBridgeAddress networks text =
    (map : HashMap String (Option String)) × ((address : Option String) × ((networks
          ≡ some (some map))
        × (get map "bridge" ≡ some address)
        × (text ≡ unwrap_or address "")))

module _ (parse_ip : String → Option IpAddr) where
  -- The container has the service in its label "pingoo.service", and the upstream is its port at its
  -- address in the network "bridge", with the container's id for the host name and without TLS.
  pub record IsUpstreamOf (c : Container) (service : String) (u : Upstream) : Type 0 where
    pub labels : HashMap String String
    pub labelled : c.labels ≡ some labels
    pub of_service : get labels "pingoo.service" ≡ some service
    pub port : IsPort labels c.ports u.socket_address.port
    pub text : String
    pub address : IsBridgeAddress c.networks text
    pub parsed : parse_ip text ≡ some u.socket_address.ip
    pub hostname : u.hostname ≡ unwrap_or c.id ""
    pub tls : u.tls ≡ false

exposed :
    (ports : Option (List ℕ)) {port : ℕ}
    → (elim ports [ none ↦ none | some list ↦ elim list [ [] ↦ none | port ∷ others ↦ some port ] ]
        ≡ some port)
    → (others : List ℕ) × (ports ≡ some (port ∷ others))
exposed none h = absurd (ground (arith, h))
exposed (some []) h = absurd (ground (arith, h))
exposed (some (p ∷ others)) h = (others, ground (arith, h))

-- what a map of networks has under a name
abbrev network : String → Option (Option (HashMap String (Option String))) → Option (Option String)
network name none = none
network name (some none) = none
network name (some (some map)) = get map name

port_of-eq-some_iff :
    (labels : HashMap String String) (ports : Option (List ℕ)) (port : ℕ)
    → (port_of labels ports ≡ some port) ↔ IsPort labels ports port
unfolding port_of
port_of-eq-some_iff labels ports port = elim (Option-cases (get labels "pingoo.port")) [
  | inr (text, e) ↦ ground (arith, e)
  | inl e ↦ (
    λ h. inr (e, exposed ports (ground (arith, e, h))),
    λ p. elim p [
      | inl (text, (f, g)) ↦ absurd (ground (arith, e, f))
      | inr (f, (others, g)) ↦ ground (arith, e, g)
    ],
  )
]

bridge_address-eq-some_iff :
    (networks : Option (Option (HashMap String (Option String)))) (text : String)
    → (bridge_address networks ≡ some text) ↔ IsBridgeAddress networks text
unfolding bridge_address get
bridge_address-eq-some_iff none text =
    (λ h. absurd (ground (arith, h)), λ (m, (a, (e, f, g))). absurd (ground (arith, e)))
bridge_address-eq-some_iff (some none) text =
    (λ h. absurd (ground (arith, h)), λ (m, (a, (e, f, g))). absurd (ground (arith, e)))
bridge_address-eq-some_iff (some (some map)) text = elim (Option-cases (get map "bridge")) [
  | inl e ↦ (
    λ h. absurd (ground (arith, e, h)),
    λ (m, (a, (e', f, g))). absurd (ground (arith, e, f, ap (network "bridge") e')),
  )
  | inr (address, e) ↦ (
    λ h. (map, (address, (refl, e, ground (arith, e, h)))),
    λ (m, (a, (e', f, g))). ground (arith, e, f, g, ap (network "bridge") e'),
  )
]

module _ (parse_ip : String → Option IpAddr) (c : Container) (service : String) (u : Upstream) where
  pub kind_of-IsUpstreamOf :
      kind_of parse_ip c ≡ upstream_for service u → IsUpstreamOf parse_ip c service u
  unfolding kind_of get
  kind_of-IsUpstreamOf h = elim (Option-cases c.labels) [
    | inl e ↦ absurd (ground (arith, e, h))
    | inr (labels, e) ↦ elim (Option-cases (get labels "pingoo.service")) [
      | inl e1 ↦ absurd (ground (arith, e, e1, h))
      | inr (name, e1) ↦ elim (Option-cases (port_of labels c.ports)) [
        | inl e2 ↦ absurd (ground (arith, e, e1, e2, h))
        | inr (port, e2) ↦ elim (Option-cases (bridge_address c.networks)) [
          | inl e3 ↦ absurd (ground (arith, e, e1, e2, e3, h))
          | inr (text, e3) ↦ elim (Option-cases (parse_ip text)) [
            | inl e4 ↦ absurd (ground (arith, e, e1, e2, e3, e4, h))
            | inr (ip, e4) ↦
                let same : upstream_for name (record {
                  socket_address = record { ip = ip; port = port };
                  hostname = unwrap_or c.id "";
                  tls = false;
                })
                    ≡ upstream_for service u =
                  ground (arith, e, e1, e2, e3, e4, h) in
                record {
                  labels = labels;
                  labelled = e;
                  of_service = ground (arith, e1, same);
                  port =
                      (port_of-eq-some_iff labels c.ports u.socket_address.port).0
                        (ground (arith, e2, same));
                  text = text;
                  address = (bridge_address-eq-some_iff c.networks text).0 e3;
                  parsed = ground (arith, e4, same);
                  hostname = ground (arith, same);
                  tls = ground (arith, same);
                }
          ]
        ]
      ]
    ]
  ]

  pub IsUpstreamOf-kind_of :
      IsUpstreamOf parse_ip c service u → kind_of parse_ip c ≡ upstream_for service u
  unfolding kind_of
  IsUpstreamOf-kind_of i =
      let e2 = (port_of-eq-some_iff i.labels c.ports u.socket_address.port).1 i.port in
      let e3 = (bridge_address-eq-some_iff c.networks i.text).1 i.address in
      ground (arith, i.labelled, i.of_service, e2, e3, i.parsed, i.hostname, i.tls)
