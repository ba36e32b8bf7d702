-- ===== src/Discovery/Found.antt =====
-- What the discoverers of pingoo/service_discovery/ find.
use pingoo.Prelude.{
  String, List, [], ◌∷◌, ◌++◌, Option, none, some, ◌≡◌, ◌⊎◌, inl, inr, refl, sym, ap, ◌∙◌, arith,
  get, get-entry_extend, string_eq, ◌==◌, if◌then◌else◌, unwrap_or, Bool-cases,
}
use pingoo.Net.{IpAddr, Upstream, socket_eq}
use pingoo.ServiceRegistry.{Upstreams}
use pingoo.Discovery.Docker.{
  Container, Kind, unlabelled, invalid, upstream_for, kind_of, note, push_upstream, discover_from,
  discover,
}
use pingoo.Discovery.Labelled.{IsUpstreamOf, kind_of-IsUpstreamOf, IsUpstreamOf-kind_of}

abbrev pub kind_upstreams : Kind → String → List Upstream
kind_upstreams (upstream_for name u) s = if name == s then u ∷ [] else []
kind_upstreams _ s = []

module _ (parse_ip : String → Option IpAddr) where
  -- The upstreams that containers are for a service, in the order of the containers.
  abbrev pub upstreams_for : String → List Container → List Upstream
  upstreams_for s [] = []
  upstreams_for s (c ∷ containers) =
      kind_upstreams (kind_of parse_ip c) s ++ upstreams_for s containers

  abbrev pub merged : Option (List Upstream) → List Upstream → Option (List Upstream)
  merged o [] = o
  merged o (u ∷ us) = some (unwrap_or o [] ++ (u ∷ us))

  get-push_upstream :
      (found : Upstreams) (k : Kind) (s : String)
      → get (push_upstream parse_ip found k) s ≡ merged (get found s) (kind_upstreams k s)
  unfolding push_upstream
  get-push_upstream found (upstream_for name u) s =
      ground (arith, get-entry_extend found name (u ∷ []) s, string_eq.same_iff name s)
  get-push_upstream found unlabelled s = refl
  get-push_upstream found invalid s = refl

  append_nil : (xs : List Upstream) → (xs ++ []) ≡ xs
  append_nil [] = refl
  append_nil (x ∷ xs) = ap (λ ys. x ∷ ys) (append_nil xs)

  append_assoc : (xs ys zs : List Upstream) → ((xs ++ ys) ++ zs) ≡ (xs ++ (ys ++ zs))
  append_assoc [] ys zs = refl
  append_assoc (x ∷ xs) ys zs = ap (λ ws. x ∷ ws) (append_assoc xs ys zs)

  merged-append :
      (o : Option (List Upstream)) (xs ys : List Upstream)
      → merged (merged o xs) ys ≡ merged o (xs ++ ys)
  merged-append o [] ys = refl
  merged-append o (x ∷ xs) [] = ap (λ zs. some (unwrap_or o [] ++ (x ∷ zs))) (sym (append_nil xs))
  merged-append o (x ∷ xs) (y ∷ ys) =
      ap (λ zs. some zs) (append_assoc (unwrap_or o []) (x ∷ xs) (y ∷ ys))

  get-discover_from :
      (warned : List String) (found : Upstreams) (cs : List Container) (s : String)
      → get (discover_from parse_ip warned found cs).1 s ≡ merged (get found s) (upstreams_for s cs)
  unfolding discover_from
  get-discover_from warned found [] s = refl
  get-discover_from warned found (c ∷ cs) s =
      get-discover_from (note parse_ip warned c) (push_upstream parse_ip found (kind_of parse_ip c))
        cs s
      ∙ ap (λ o. merged o (upstreams_for s cs)) (get-push_upstream found (kind_of parse_ip c) s)
      ∙ merged-append (get found s) (kind_upstreams (kind_of parse_ip c) s) (upstreams_for s cs)

  -- The upstreams of a service are those of the containers that have one for it, in order.
  abbrev pub AreUpstreams : String → List Container → List Upstream → Type 0
  AreUpstreams s [] us = us ≡ []
  AreUpstreams s (c ∷ containers) us =
      ((u : Upstream) × ((others : List Upstream) × ((us ≡ u ∷ others)
            × IsUpstreamOf parse_ip c s u
            × AreUpstreams s containers others)))
      ⊎ (((u : Upstream) → ¬ (IsUpstreamOf parse_ip c s u)) × AreUpstreams s containers us)

  -- what the map has for a service with these upstreams
  abbrev pub entry_for : List Upstream → Option (List Upstream)
  entry_for [] = none
  entry_for (u ∷ us) = some (u ∷ us)

  merged-entry_for : (us : List Upstream) → merged none us ≡ entry_for us
  merged-entry_for [] = refl
  merged-entry_for (u ∷ us) = refl

  kind_upstreams-AreUpstreams :
      (k : Kind) (s : String) (c : Container) (cs : List Container) (us : List Upstream)
      → kind_of parse_ip c ≡ k
      → AreUpstreams s cs us
      → AreUpstreams s (c ∷ cs) (kind_upstreams k s ++ us)
  kind_upstreams-AreUpstreams unlabelled s c cs us e h =
      inr (λ u i. ground (arith, e, IsUpstreamOf-kind_of parse_ip c s u i), h)
  kind_upstreams-AreUpstreams invalid s c cs us e h =
      inr (λ u i. ground (arith, e, IsUpstreamOf-kind_of parse_ip c s u i), h)
  kind_upstreams-AreUpstreams (upstream_for name u) s c cs us e h = elim (Bool-cases (name == s)) [
    | inl same ↦
        let to_s = (string_eq.same_iff name s).0 same in
        rw same (
          inl (
            u,
            (
              us,
              (refl, kind_of-IsUpstreamOf parse_ip c s u (e ∙ ap (λ n. upstream_for n u) to_s), h),
            ),
          ))
    | inr differs ↦ rw differs (
        inr (
          λ u' i. ground (
            arith,
            e,
            differs,
            IsUpstreamOf-kind_of parse_ip c s u' i,
            string_eq.same_iff name s,
          ),
          h,
        ))
  ]

  upstreams_for-AreUpstreams :
      (s : String) (cs : List Container) → AreUpstreams s cs (upstreams_for s cs)
  upstreams_for-AreUpstreams s [] = refl
  upstreams_for-AreUpstreams s (c ∷ cs) =
      kind_upstreams-AreUpstreams (kind_of parse_ip c) s c cs (upstreams_for s cs) refl
        (upstreams_for-AreUpstreams s cs)

  -- Docker's discoverer finds for a service one upstream for each container that has the service in its
  -- label "pingoo.service", a port of 16 bits in "pingoo.port" or, without that label, an exposed port,
  -- and an address in the network "bridge", in the order of the containers: that port and address, with
  -- the container's id for the host name and without TLS. Where there is none, the service has no
  -- entry. Whether a container was warned about does not matter.
  pub get-discover_docker :
      (warned : List String) (cs : List Container) (s : String)
      → (us : List Upstream) × (AreUpstreams s cs us
          × (get (discover parse_ip warned (some cs)).1 s ≡ entry_for us))
  unfolding discover get
  get-discover_docker warned cs s = (
    upstreams_for s cs,
    (
      upstreams_for-AreUpstreams s cs,
      get-discover_from warned [] cs s ∙ merged-entry_for (upstreams_for s cs),
    ),
  )
