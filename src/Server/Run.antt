-- ===== src/Server/Run.antt =====
-- `Server::run` of pingoo/server.rs: what the server loads, in order, and its listeners. The background
-- tasks that it starts are the work of other files, and the `listen` of a listener that is bound is too.
use pingoo.Prelude.{
  String, List, [], ◌∷◌, ◌++◌, Option, none, some, HashMap, Result, ok, err, ◌>>=◌, Bool,
  if◌then◌else◌,
}
use pingoo.Disk.{Disk}
use pingoo.Config.{ServiceConfig, ServiceDiscoveryConfig, ListConfig, ListenerConfig, TlsConfig}
use pingoo.Config.Load.{Config}
use pingoo.Services.New.{HttpService, new_http_services}
use pingoo.Server.{tcp_services, http_services, services_for}

-- why the loading of the parts stops
pub data Stop (E : Type 0) : Type 0 where
  stopped : E → Stop E
  panic : Stop E

abbrev pub stop : {A E : Type 0} → Result A E → Result A (Stop E)
stop (ok a) = ok a
stop (err e) = err (stopped e)

-- `expect`
abbrev pub expect : {A E : Type 0} → Option A → Result A (Stop E)
expect (some a) = ok a
expect none = err panic

-- What the server asks of its parts. A part that writes files gives the disk that it leaves. The
-- system's settings may give a DNS resolver and root certificates, or not; `new_registry` is what
-- follows the resolver.
pub record Parts (Expr Registry Geoip Captcha Lists Tls Socket E : Type 0) : Type 0 where
  pub resolver_builds : Bool
  pub native_roots : Bool
  pub new_registry : Disk → ServiceDiscoveryConfig → List (ServiceConfig Expr) → Result Registry E
  pub load_geoip : Disk → Result (Option Geoip) E
  pub new_captcha : Disk → Result (Disk × Captcha) E
  pub load_lists : Disk → HashMap String ListConfig → Result Lists E
  pub new_tls : Disk → TlsConfig → Result (Disk × Tls) E
  pub bind : ListenerConfig → Result Socket E

-- A listener that is bound and listens, with the services that it was made with.
pub record Started (Socket : Type 0) : Type 0 where
  pub listener : ListenerConfig
  pub services : List String
  pub socket : Socket

-- What the requests of all listeners share, the HTTP services among it.
pub record Shared (Expr Registry Geoip Captcha Lists Tls : Type 0) : Type 0 where
  pub registry : Registry
  pub geoip : Option Geoip
  pub captcha : Captcha
  pub lists : Lists
  pub http : List (HttpService Expr)
  pub tls : Tls

-- How far `run` comes: an error or a panic ends the listeners that were started before it.
pub data Outcome (S Socket E : Type 0) : Type 0 where
  failed : E → Outcome S Socket E
  panicked : Outcome S Socket E
  serving : S → List (Started Socket) → Outcome S Socket E

module _ {Expr Registry Geoip Captcha Lists Tls Socket E : Type 0}
    (parts : Parts Expr Registry Geoip Captcha Lists Tls Socket E) where
  open parts use {
    resolver_builds, native_roots, new_registry, load_geoip, new_captcha, load_lists, new_tls, bind,
  }

  abbrev pub AllShared : Type 0
  AllShared = Shared Expr Registry Geoip Captcha Lists Tls

  abbrev pub Ran : Type 0
  Ran = Outcome AllShared Socket E

  -- the loop over the listeners, behind those that are started
  unfoldable pub start :
      List String → List String → AllShared → List (Started Socket) → List ListenerConfig → Ran
  start tcps https' shared started [] = serving shared started
  start tcps https' shared started (l ∷ ls) =
      elim (services_for tcps https' l.protocol l.services) [
        | none ↦ panicked
        | some services ↦ elim (bind l) [
          | err e ↦ failed e
          | ok socket ↦
              start tcps https' shared
                (started ++ (record { listener = l; services = services; socket = socket } ∷ [])) ls
        ]
      ]

  -- `ServiceRegistry::new`, where the resolver is built first
  unfoldable pub new_service_registry : Disk → Config Expr → Result Registry (Stop E)
  new_service_registry disk config =
      if resolver_builds
      then stop (new_registry disk config.service_discovery config.services)
      else err panic

  -- everything before the listeners
  unfoldable pub load_all : Disk → Config Expr → Result AllShared (Stop E)
  unfolding new_service_registry new_http_services
  load_all disk config = do
    registry ← new_service_registry disk config
    geoip ← stop (load_geoip disk)
    (disk', captcha) ← stop (new_captcha disk)
    lists ← stop (load_lists disk' config.lists)
    http ← expect (new_http_services native_roots config.services)
    (disk'', tls) ← stop (new_tls disk' config.tls)
    ok (record {
      registry = registry;
      geoip = geoip;
      captcha = captcha;
      lists = lists;
      http = http;
      tls = tls;
    })

  abbrev pub serve : Config Expr → Result AllShared (Stop E) → Ran
  serve config (err (stopped e)) = failed e
  serve config (err panic) = panicked
  serve config (ok shared) =
      start (tcp_services config.services) (http_services config.services) shared []
        config.listeners

  unfoldable pub run : Disk → Config Expr → Ran
  unfolding load_all start
  run disk config = serve config (load_all disk config)
