-- ===== src/Server/Defaults.antt =====
-- A configuration whose listeners leave their services to the default, and the start of the server with
-- it: pingoo/config/config.rs and pingoo/server.rs.
use pingoo.Prelude.{
  String, List, [], ◌∷◌, ◌++◌, All-In_self, map, none, Bool, Bool-cases, Result-cases, ◌≡◌, ◌≢◌,
  ◌↔◌, inl, inr, refl, sym, ap, ◌∙◌, subst, arith, ok, ok-injective, All, In, HashMap, filter,
  string_eq, unwrap_or,
}
use mathlib.Core.Path.{ap₂}
use pingoo.Disk.{Disk}
use pingoo.Config.{
  ServiceConfig, ListenerConfig, ListenerProtocol, tcp, tcp_and_tls, http, https, ConfigError,
}
use pingoo.Config.File.{ConfigFile, ListenerConfigFile, Parsers}
use pingoo.Config.Listeners.Valid.{IsServed}
use pingoo.Config.Load.{
  Config, RuleDir, values, load_and_validate, service_names, is_http_service, is_tcp_service,
  new_listener, default_services_for_listener,
}
use pingoo.Config.Load.Named.{Named, load_services-Named}
use pingoo.Config.Load.Loaded.{load_and_validate-IsLoaded}
use pingoo.Server.{names_of, tcp_services, http_services}
use pingoo.Server.Start.{IsServable, AllServable, HeadIn, served_services, services_for-eq-some_iff}
use pingoo.Server.Prepared.{StartPanics, load_all-eq-panic_iff}
use pingoo.Server.Run.{
  stopped, panic, Parts, Started, panicked, start, serve, load_all, run, AllShared,
}

HeadIn-same : (xs : List String) → xs ≢ [] → HeadIn xs xs
HeadIn-same [] h = h refl
HeadIn-same (x ∷ xs) h = inl refl

module _ {Expr : Type 0} where
  names_of-values :
      (p : ServiceConfig Expr → Bool) (services : HashMap String (ServiceConfig Expr))
      → Named services
      → names_of (filter p (values services)) ≡ service_names p services
  unfolding service_names
  names_of-values p [] h = refl
  names_of-values p ((name, s) ∷ services) (here, rest) = elim (Bool-cases (p s)) [
    | inl e ↦ rw e (ap₂ ◌∷◌ here (names_of-values p services rest))
    | inr e ↦ rw e (names_of-values p services rest)
  ]

  -- The default services of a listener, at least one, can be served.
  default-IsServable :
      (services : HashMap String (ServiceConfig Expr)) (protocol : ListenerProtocol)
      → Named services
      → default_services_for_listener services protocol ≢ []
      → IsServable
          (tcp_services (values services))
          (http_services (values services))
          protocol
          (default_services_for_listener services protocol)
  unfolding tcp_services http_services
  default-IsServable services http named h =
      subst (λ known. All (λ s. In s known) (service_names is_http_service services))
        (sym (names_of-values is_http_service services named))
        (All-In_self (service_names is_http_service services))
  default-IsServable services https named h =
      subst (λ known. All (λ s. In s known) (service_names is_http_service services))
        (sym (names_of-values is_http_service services named))
        (All-In_self (service_names is_http_service services))
  default-IsServable services tcp named h =
      subst (λ known. HeadIn known (service_names is_tcp_service services))
        (sym (names_of-values is_tcp_service services named))
        (HeadIn-same (service_names is_tcp_service services) h)
  default-IsServable services tcp_and_tls named h =
      subst (λ known. HeadIn known (service_names is_tcp_service services))
        (sym (names_of-values is_tcp_service services named))
        (HeadIn-same (service_names is_tcp_service services) h)

  module _ {Registry Geoip Captcha Lists Tls Socket E : Type 0}
      (parts : Parts Expr Registry Geoip Captcha Lists Tls Socket E) where
    start-ne-panicked :
        (tcps https' : List String) (shared : AllShared parts) (started : List (Started Socket))
        (ls : List ListenerConfig)
        → AllServable tcps https' ls
        → start parts tcps https' shared started ls ≢ panicked
    unfolding start
    start-ne-panicked tcps https' shared started [] h e = ground (arith, e)
    start-ne-panicked tcps https' shared started (l ∷ ls) (here, rest) e =
        let names = served_services l.protocol l.services in
        let given =
          (services_for-eq-some_iff tcps https' l.protocol l.services names).1 (here, refl) in
        elim (Result-cases (parts.bind l)) [
          | inr (x, f) ↦ absurd (ground (arith, given, f, e))
          | inl (socket, f) ↦
              start-ne-panicked tcps https' shared
                (started ++ (record { listener = l; services = names; socket = socket } ∷ [])) ls
                rest (ground (arith, given, f, e))
        ]

    run-eq-panicked_from :
        (config : Config Expr) (disk : Disk)
        → AllServable
            (tcp_services config.services)
            (http_services config.services)
            config.listeners
        → (run parts disk config ≡ panicked) ↔ StartPanics parts disk config
    unfolding run
    run-eq-panicked_from config disk h =
        let (to, from) = load_all-eq-panic_iff parts disk config in
        (
          λ e. elim (Result-cases (load_all parts disk config)) [
            | inr (stopped x, f) ↦ absurd (ground (arith, ap (serve parts config) (sym f) ∙ e))
            | inr (panic, f) ↦ to f
            | inl (shared, f) ↦ absurd (
                start-ne-panicked (tcp_services config.services) (http_services config.services)
                  shared [] config.listeners h (ap (serve parts config) (sym f) ∙ e))
          ],
          λ p. ap (serve parts config) (from p),
        )

    module _ (parsers : Parsers Expr) where
      listeners-AllServable :
          (services : HashMap String (ServiceConfig Expr))
          (files : HashMap String ListenerConfigFile)
          → Named services
          → All (λ (l : String × ListenerConfigFile). l.1.services ≡ none) files
          → All (IsServed services) (map (new_listener services) files)
          → AllServable
              (tcp_services (values services))
              (http_services (values services))
              (map (new_listener services) files)
      unfolding new_listener
      listeners-AllServable services [] named h served = tt
      listeners-AllServable services ((name, l) ∷ files) named (default, rest) (here, served) =
          let d = default_services_for_listener services l.address.protocol in
          let eq : unwrap_or l.services d ≡ d = ap (λ o. unwrap_or o d) default in
          let servable =
            subst
              (IsServable (tcp_services (values services)) (http_services (values services))
                l.address.protocol)
              (sym eq)
              (default-IsServable services l.address.protocol named
                (λ e. here.some_service (eq ∙ e))) in
          (servable, listeners-AllServable services files named rest served)

      -- With a configuration in which no listener names its services and that passes the checks, the
      -- start of the server panics just if the DNS resolver or the client of a proxy cannot be built.
      pub run-eq-panicked_iff :
          (file : ConfigFile) (dir : RuleDir) (config : Config Expr) (disk : Disk)
          → All (λ (l : String × ListenerConfigFile). l.1.services ≡ none) file.listeners
          → load_and_validate parsers (ok file) dir ≡ ok config
          → (run parts disk config ≡ panicked) ↔ StartPanics parts disk config
      run-eq-panicked_iff file dir config disk default h =
          let loaded = load_and_validate-IsLoaded parsers (ok file) dir config h in
          let same = ok-injective ConfigError loaded.read in
          let named =
            load_services-Named parsers loaded.file.services loaded.services loaded.parsed in
          let unnamed =
            subst
              (λ (f : ConfigFile).
                All (λ (l : String × ListenerConfigFile). l.1.services ≡ none) f.listeners)
              same default in
          let served = subst (All (IsServed loaded.services)) loaded.listed loaded.served in
          let servable =
            listeners-AllServable loaded.services loaded.file.listeners named unnamed served in
          run-eq-panicked_from config disk (
            subst (λ ss. AllServable (tcp_services ss) (http_services ss) config.listeners)
              (sym loaded.kept)
              (subst
                (AllServable (tcp_services (values loaded.services))
                  (http_services (values loaded.services)))
                (sym loaded.listed) servable))
