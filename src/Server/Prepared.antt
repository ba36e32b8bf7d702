-- ===== src/Server/Prepared.antt =====
-- When the loading of the parts in `Server::run` of pingoo/server.rs panics.
use pingoo.Prelude.{
  Option, true, false, Bool-cases, Result-cases, Option-cases, ◌≡◌, ◌↔◌, ◌⊎◌, inl, inr, refl, arith,
  ok, err,
}
use pingoo.Disk.{Disk}
use pingoo.Config.Load.{Config}
use pingoo.Services.New.{new_http_services, SomeProxy, new_http_services-eq-none_iff}
use pingoo.Server.Run.{Parts, panic, load_all, new_service_registry}

module _ {Expr Registry Geoip Captcha Lists Tls Socket E : Type 0}
    (parts : Parts Expr Registry Geoip Captcha Lists Tls Socket E) where
  -- The DNS resolver is built, and all that is loaded before the HTTP services loads.
  pub record IsPrepared (disk : Disk) (config : Config Expr) : Type 0 where
    pub resolver : parts.resolver_builds ≡ true
    pub registry : Registry
    pub registered : parts.new_registry disk config.service_discovery config.services ≡ ok registry
    pub database : Option Geoip
    pub geoip : parts.load_geoip disk ≡ ok database
    pub captcha_disk : Disk
    pub manager : Captcha
    pub captcha : parts.new_captcha disk ≡ ok (captcha_disk, manager)
    pub items : Lists
    pub lists : parts.load_lists captcha_disk config.lists ≡ ok items

  -- No DNS resolver can be built, or all loads up to the HTTP services, one of which is a proxy, and
  -- there are no root certificates.
  abbrev pub StartPanics : Disk → Config Expr → Type 0
  StartPanics disk config =
      (parts.resolver_builds ≡ false)
      ⊎ (IsPrepared disk config × (parts.native_roots ≡ false) × SomeProxy config.services)

  StartPanics-load_all :
      (disk : Disk) (config : Config Expr)
      → StartPanics disk config
      → load_all parts disk config ≡ err panic
  unfolding load_all new_service_registry
  StartPanics-load_all disk config (inl e) = rw e refl
  StartPanics-load_all disk config (inr (p, roots, proxy)) =
      let built =
        (new_http_services-eq-none_iff parts.native_roots config.services).1 (roots, proxy) in
      rw p.resolver (rw p.registered (rw p.geoip (rw p.captcha (rw p.lists (rw built refl)))))

  load_all-StartPanics :
      (disk : Disk) (config : Config Expr)
      → load_all parts disk config ≡ err panic
      → StartPanics disk config
  unfolding load_all new_service_registry
  load_all-StartPanics disk config h = elim (Bool-cases parts.resolver_builds) [
    | inr e ↦ inl e
    | inl e ↦
        elim (Result-cases (parts.new_registry disk config.service_discovery config.services)) [
          | inr (x, f) ↦ absurd (ground (arith, e, f, h))
          | inl (registry, e0) ↦ elim (Result-cases (parts.load_geoip disk)) [
            | inr (x, f) ↦ absurd (ground (arith, e, e0, f, h))
            | inl (database, e1) ↦ elim (Result-cases (parts.new_captcha disk)) [
              | inr (x, f) ↦ absurd (ground (arith, e, e0, e1, f, h))
              | inl ((disk1, manager), e2) ↦
                  elim (Result-cases (parts.load_lists disk1 config.lists)) [
                    | inr (x, f) ↦ absurd (ground (arith, e, e0, e1, e2, f, h))
                    | inl (items, e3) ↦
                        let prepared : IsPrepared disk config = record {
                          resolver = e;
                          registry = registry;
                          registered = e0;
                          database = database;
                          geoip = e1;
                          captcha_disk = disk1;
                          manager = manager;
                          captcha = e2;
                          items = items;
                          lists = e3;
                        } in
                        elim (Option-cases (new_http_services parts.native_roots config.services)) [
                          | inl e4 ↦
                              let (roots, proxy) =
                                (new_http_services-eq-none_iff parts.native_roots config.services).0
                                  e4 in
                              inr (prepared, roots, proxy)
                          | inr (hs, e4) ↦ elim (Result-cases (parts.new_tls disk1 config.tls)) [
                            | inr (x, f) ↦ absurd (ground (arith, e, e0, e1, e2, e3, e4, f, h))
                            | inl ((disk2, tls), f) ↦
                                absurd (ground (arith, e, e0, e1, e2, e3, e4, f, h))
                          ]
                        ]
                  ]
            ]
          ]
        ]
  ]

  pub load_all-eq-panic_iff :
      (disk : Disk) (config : Config Expr)
      → (load_all parts disk config ≡ err panic) ↔ StartPanics disk config
  load_all-eq-panic_iff disk config =
      (load_all-StartPanics disk config, StartPanics-load_all disk config)
