-- ===== src/Server/Serves.antt =====
-- When `Server::run` of pingoo/server.rs serves, and with what.
use pingoo.Prelude.{
  String, List, [], ◌∷◌, ◌++◌, Option, none, some, true, Bool-cases, Result, err, ok-injective,
  bind-eq-ok, Option-cases, Result-cases, ◌≡◌, ◌↔◌, inl, inr, refl, subst, sym, ap, ◌∙◌, arith, ok,
}
use mathlib.Core.List.{append_assoc, append-nil}
use pingoo.Disk.{Disk}
use pingoo.Config.{ListenerConfig}
use pingoo.Config.Load.{Config}
use pingoo.Server.{tcp_services, http_services, services_for}
use pingoo.Server.Start.{IsServable, served_services, services_for-eq-some_iff}
use pingoo.Services.New.{AllNew, new_http_services, new_http_services-eq-some_iff}
use pingoo.Server.Run.{
  stopped, panic, Stop, stop, expect, new_service_registry, Parts, Started, serving, start,
  load_all, serve, run, AllShared,
}

module _ {Expr Registry Geoip Captcha Lists Tls Socket E : Type 0}
    (parts : Parts Expr Registry Geoip Captcha Lists Tls Socket E) where
  open parts use {bind}

  module _ (tcps https' : List String) where
    -- The listener is bound to the socket, and made with its services, which are of its kind.
    abbrev pub IsStarted : ListenerConfig → Started Socket → Type 0
    IsStarted l s =
        (s.listener ≡ l)
        × (IsServable tcps https' l.protocol l.services)
        × (s.services ≡ served_services l.protocol l.services)
        × (bind l ≡ ok s.socket)

    abbrev pub AllStarted : List ListenerConfig → List (Started Socket) → Type 0
    AllStarted [] [] = Unit
    AllStarted (l ∷ ls) (s ∷ ss) = IsStarted l s × AllStarted ls ss
    AllStarted _ _ = ⊥

    start-AllStarted :
        (shared shared' : AllShared parts) (pre ss : List (Started Socket))
        (ls : List ListenerConfig)
        → start parts tcps https' shared pre ls ≡ serving shared' ss
        → (shared ≡ shared')
          × ((rest : List (Started Socket)) × ((ss ≡ pre ++ rest) × AllStarted ls rest))
    unfolding start
    start-AllStarted shared shared' pre ss [] h =
        (ground (arith, h), ([], (ground (arith, h, append-nil pre), tt)))
    start-AllStarted shared shared' pre ss (l ∷ ls) h =
        elim (Option-cases (services_for tcps https' l.protocol l.services)) [
          | inl e ↦ absurd (ground (arith, e, h))
          | inr (names, e) ↦ elim (Result-cases (bind l)) [
            | inr (x, f) ↦ absurd (ground (arith, e, f, h))
            | inl (socket, f) ↦
                let here : Started Socket = record {
                  listener = l;
                  services = names;
                  socket = socket;
                } in
                let (same, (rest, (eq, all))) =
                  start-AllStarted shared shared' (pre ++ (here ∷ [])) ss ls
                    (ground (arith, e, f, h)) in
                let (servable, served) =
                  (services_for-eq-some_iff tcps https' l.protocol l.services names).0 e in
                let joined = eq ∙ append_assoc pre (here ∷ []) rest in
                (same, (here ∷ rest, (joined, ((refl, servable, served, f), all))))
          ]
        ]

    AllStarted-start :
        (shared : AllShared parts) (pre ss : List (Started Socket)) (ls : List ListenerConfig)
        → AllStarted ls ss
        → start parts tcps https' shared pre ls ≡ serving shared (pre ++ ss)
    unfolding start
    AllStarted-start shared pre [] [] h = ap (serving shared) (sym (append-nil pre))
    AllStarted-start shared pre (s ∷ ss) (l ∷ ls) ((same, servable, served, bound), all) =
        let e =
          (services_for-eq-some_iff tcps https' l.protocol l.services s.services).1
            (servable, served) in
        let here : Started Socket = record {
          listener = l;
          services = s.services;
          socket = s.socket;
        } in
        let first : here ≡ s = ground (arith, same) in
        let next = AllStarted-start shared (pre ++ (here ∷ [])) ss ls all in
        let step : start parts tcps https' shared pre (l ∷ ls)
            ≡ start parts tcps https' shared (pre ++ (here ∷ [])) ls =
          ground (arith, e, bound) in
        step
        ∙ next
        ∙ ap (serving shared) (append_assoc pre (here ∷ []) ss)
        ∙ ap (λ x. serving shared (pre ++ x ∷ ss)) first
    AllStarted-start shared pre [] (l ∷ ls) h = absurd h
    AllStarted-start shared pre (s ∷ ss) [] h = absurd h

  -- Every part loads, in order, on the disk that those before it leave.
  pub record IsLoaded (disk : Disk) (config : Config Expr) (shared : AllShared parts) : Type 0 where
    pub resolver : parts.resolver_builds ≡ true
    pub registry :
        parts.new_registry disk config.service_discovery config.services ≡ ok shared.registry
    pub geoip : parts.load_geoip disk ≡ ok shared.geoip
    pub captcha_disk : Disk
    pub captcha : parts.new_captcha disk ≡ ok (captcha_disk, shared.captcha)
    pub lists : parts.load_lists captcha_disk config.lists ≡ ok shared.lists
    pub http : AllNew parts.native_roots config.services shared.http
    pub tls_disk : Disk
    pub tls : parts.new_tls captcha_disk config.tls ≡ ok (tls_disk, shared.tls)

  stop-eq-ok : {A : Type 0} (r : Result A E) {a : A} → stop r ≡ ok a → r ≡ ok a
  stop-eq-ok (ok a) e = ground (arith, e)
  stop-eq-ok (err x) e = absurd (ground (arith, e))

  expect-eq-ok :
      {A : Type 0} (o : Option A) {a : A}
      → ◌≡◌ {A = Result A (Stop E)} (expect o) (ok a)
      → o ≡ some a
  expect-eq-ok (some a) e = ground (arith, e)
  expect-eq-ok none e = absurd (ground (arith, e))

  new_service_registry-eq-ok :
      (disk : Disk) (config : Config Expr) {r : Registry}
      → new_service_registry parts disk config ≡ ok r
      → (parts.resolver_builds ≡ true)
        × (parts.new_registry disk config.service_discovery config.services ≡ ok r)
  unfolding new_service_registry
  new_service_registry-eq-ok disk config e = elim (Bool-cases parts.resolver_builds) [
    | inr f ↦ absurd (ground (arith, f, e))
    | inl f ↦ (
      f,
      stop-eq-ok (parts.new_registry disk config.service_discovery config.services)
          (ground (arith, f, e)),
    )
  ]

  load_all-IsLoaded :
      (disk : Disk) (config : Config Expr) (shared : AllShared parts)
      → load_all parts disk config ≡ ok shared
      → IsLoaded disk config shared
  unfolding load_all new_service_registry
  load_all-IsLoaded disk config shared h =
      let (registry, e0, h0) = bind-eq-ok (new_service_registry parts disk config) _ h in
      let (geoip, e1, h1) = bind-eq-ok (stop (parts.load_geoip disk)) _ h0 in
      let ((disk1, captcha), e2, h2) = bind-eq-ok (stop (parts.new_captcha disk)) _ h1 in
      let (lists, e3, h3) = bind-eq-ok (stop (parts.load_lists disk1 config.lists)) _ h2 in
      let (http, e4, h4) =
        bind-eq-ok (expect (new_http_services parts.native_roots config.services)) _ h3 in
      let ((disk2, tls), e5, h5) = bind-eq-ok (stop (parts.new_tls disk1 config.tls)) _ h4 in
      let (resolver, loads) = new_service_registry-eq-ok disk config e0 in
      let same = ok-injective (Stop E) h5 in
      record {
        resolver = resolver;
        registry = loads ∙ ap (λ (x : AllShared parts). ok x.registry) same;
        geoip =
            stop-eq-ok (parts.load_geoip disk) e1 ∙ ap (λ (x : AllShared parts). ok x.geoip) same;
        captcha_disk = disk1;
        captcha =
            stop-eq-ok (parts.new_captcha disk) e2
            ∙ ap (λ (x : AllShared parts). ok (disk1, x.captcha)) same;
        lists =
            stop-eq-ok (parts.load_lists disk1 config.lists) e3
            ∙ ap (λ (x : AllShared parts). ok x.lists) same;
        http =
            subst (AllNew parts.native_roots config.services)
              (ap (λ (x : AllShared parts). x.http) same)
              ((new_http_services-eq-some_iff parts.native_roots config.services http).0
                (expect-eq-ok (new_http_services parts.native_roots config.services) e4));
        tls_disk = disk2;
        tls =
            stop-eq-ok (parts.new_tls disk1 config.tls) e5
            ∙ ap (λ (x : AllShared parts). ok (disk2, x.tls)) same;
      }

  IsLoaded-load_all :
      (disk : Disk) (config : Config Expr) (shared : AllShared parts)
      → IsLoaded disk config shared
      → load_all parts disk config ≡ ok shared
  unfolding load_all new_service_registry
  IsLoaded-load_all disk config shared l =
      let built =
        (new_http_services-eq-some_iff parts.native_roots config.services shared.http).1 l.http in
      rw l.resolver
        (rw l.registry (rw l.geoip (rw l.captcha (rw l.lists (rw built (rw l.tls refl))))))

  -- The server serves just if the DNS resolver can be built, every part loads, in order, root
  -- certificates are there if some HTTP service is a proxy, each listener has the services of its kind
  -- that it names, and each listener's socket is bound; it then has the HTTP services of the
  -- configuration, and serves all configured listeners, in their order, each with its services.
  pub run-eq-serving_iff :
      (disk : Disk) (config : Config Expr) (shared : AllShared parts) (ss : List (Started Socket))
      → (run parts disk config ≡ serving shared ss) ↔ (
          IsLoaded disk config shared
          × AllStarted
              (tcp_services config.services)
              (http_services config.services)
              config.listeners
              ss)
  unfolding run
  run-eq-serving_iff disk config shared ss =
      let tcps = tcp_services config.services in
      let https' = http_services config.services in
      (
        λ h. elim (Result-cases (load_all parts disk config)) [
          | inr (stopped e, f) ↦ absurd (ground (arith, ap (serve parts config) (sym f) ∙ h))
          | inr (panic, f) ↦ absurd (ground (arith, ap (serve parts config) (sym f) ∙ h))
          | inl (loaded, f) ↦
              let (same, (rest, (eq, all))) =
                start-AllStarted tcps https' loaded shared [] ss config.listeners
                  (ap (serve parts config) (sym f) ∙ h) in
              (
                load_all-IsLoaded disk config shared (f ∙ ap ok same),
                subst (AllStarted tcps https' config.listeners) (sym eq) all,
              )
        ],
        λ (l, all).
            ap (serve parts config) (IsLoaded-load_all disk config shared l)
            ∙ AllStarted-start tcps https' shared [] ss config.listeners all,
      )
