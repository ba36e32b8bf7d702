-- ===== src/Server/Tests.antt =====
-- The start of small servers.
use pingoo.Prelude.{
  insert, collect, Bool, true, String, List, if◌then◌else◌, eqb, err, false, [], ◌∷◌, none, some,
  ◌≡◌, ◌↔◌, inl, refl, ok, contains_key, string_eq,
}
use pingoo.Net.{ipv4}
use pingoo.Config.{ServiceConfig, ListenerConfig, tcp, http}
use pingoo.Config.Listeners.{
  validate_listeners_config, check_from, check_listener, check_ports, check_known,
}
use pingoo.Config.Duplicates.{find_duplicate, find_duplicate2, find_duplicate_from}
use pingoo.Server.{tcp_services, http_services, services_for}
use pingoo.Server.Run.{
  Parts, Started, failed, panicked, serving, start, load_all, new_service_registry, run, AllShared,
}
use pingoo.Services.New.{http_proxy_service, new_http_service, new_http_services}
use pingoo.Server.Serves.{IsLoaded, AllStarted, run-eq-serving_iff}
use pingoo.Server.Main.{main, main_panicked}
use pingoo.Server.Panics.{main-eq-panicked_iff}
use pingoo.Config.File.{ConfigFile, parse_service, parse_upstream, upstream_from}
use pingoo.Config.Small.{web, loaded, parsers, file}
use pingoo.Config.Load.{
  entries, Config, load_and_validate, load_rules, load_rules_from, extend, load_services,
  new_listener, service_names, check_acme, check_domains,
}
use pingoo.Disk.{Disk}

abbrev db : ServiceConfig String
db = record { name = "db"; route = none; http_proxy = none; static = none; tcp_proxy = some [] }

abbrev port_of_db : ListenerConfig
port_of_db = record {
  name = "pg";
  address = record { ip = ipv4 0 0 0 0; port = 5432 };
  protocol = tcp;
  services = "db" ∷ [];
}

-- an HTTP listener for the TCP service
abbrev mixed_up : ListenerConfig
mixed_up = record {
  name = "web";
  address = record { ip = ipv4 0 0 0 0; port = 80 };
  protocol = http;
  services = "db" ∷ [];
}

-- parts that load, and bind one port
abbrev parts : Parts String String String String String String String String
parts = record {
  resolver_builds = true;
  native_roots = true;
  new_registry = λ disk config services. ok "registry";
  load_geoip = λ disk. ok none;
  new_captcha = λ disk. ok (disk, "captcha");
  load_lists = λ disk lists. ok "lists";
  new_tls = λ disk config. ok (disk, "tls");
  bind = λ l. if eqb l.address.port 443 then ok "socket" else err "in use";
}

abbrev shared : AllShared parts
shared = record {
  registry = "registry";
  geoip = none;
  captcha = "captcha";
  lists = "lists";
  http = http_proxy_service "api" (some "true") ∷ [];
  tls = "tls";
}

abbrev disk : Disk
disk = record { files = []; fails = λ path. false }

abbrev started : List (Started String)
started = record { listener = web; services = "api" ∷ []; socket = "socket" } ∷ []

run-eq-serving_iff_example : (run parts disk loaded ≡ serving shared started) ↔ (
    IsLoaded parts disk loaded shared
    × AllStarted parts
        (tcp_services loaded.services)
        (http_services loaded.services)
        loaded.listeners
        started)
run-eq-serving_iff_example = run-eq-serving_iff parts disk loaded shared started

serves : run parts disk loaded ≡ serving shared started
unfolding run start load_all new_service_registry new_http_services new_http_service tcp_services
    http_services services_for
serves = refl

-- a host without root certificates
rootless_panics : run (record parts { native_roots = false }) disk loaded ≡ panicked
unfolding run load_all new_service_registry new_http_services new_http_service
rootless_panics = refl

-- a second listener that cannot be bound ends the server
in_use : start parts ("db" ∷ []) ("api" ∷ []) shared [] (web ∷ port_of_db ∷ []) ≡ failed "in use"
unfolding start services_for
in_use = refl

-- a child process without a command
abbrev childless : ConfigFile
childless = record file { child_process = some (record { command = [] }) }

abbrev childless_config : Config String
childless_config = record loaded { child_process = some (record { command = [] }) }

abbrev spawns : String → List String → Bool
spawns program arguments = true

childless_loads : load_and_validate parsers (ok childless) (entries []) ≡ ok childless_config
unfolding load_and_validate load_rules load_rules_from extend insert load_services parse_service
    parse_upstream upstream_from collect new_listener service_names validate_listeners_config
    check_from check_listener check_ports check_known contains_key find_duplicate find_duplicate2
    find_duplicate_from check_acme check_domains
childless_loads = refl

childless_panics :
    main parts parsers true true spawns (ok childless) (entries []) disk ≡ main_panicked
childless_panics =
    (main-eq-panicked_iff parts parsers spawns childless (entries []) disk (refl, tt)).1
      (childless_config, (childless_loads, inl (record { command = [] }, (refl, refl))))

kinds : (tcp_services (db ∷ []) ≡ "db" ∷ []) × (http_services (db ∷ []) ≡ [])
unfolding tcp_services http_services
kinds = (refl, refl)

-- the configuration is valid, and the start panics
accepted : validate_listeners_config (mixed_up ∷ []) (("db", db) ∷ []) ≡ ok tt
unfolding validate_listeners_config check_from check_listener check_ports check_known contains_key
    find_duplicate find_duplicate_from
accepted = refl

panics : start parts ("db" ∷ []) [] shared [] (mixed_up ∷ []) ≡ panicked
unfolding start services_for
panics = refl
