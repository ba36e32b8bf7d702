-- ===== src/Config/Small.antt =====
-- A small configuration file with its configuration, and parsers for it, for tests.
use pingoo.Prelude.{
  String, ◌≡◌, [], ◌∷◌, none, some, true, HashMap, ok, insert, contains_key, collect, ◌==◌,
  if◌then◌else◌, refl, string_eq,
}
use pingoo.Net.{ipv4}
use pingoo.Config.{default_service_discovery_config, https, ListenerConfig, ServiceConfig, domain}
use pingoo.Config.Duplicates.{find_duplicate, find_duplicate2}
use pingoo.Config.File.{
  Parsers, block, ConfigFile, ServiceConfigFile, parse_service, parse_upstream, upstream_from,
}
use pingoo.Config.Listeners.{
  check_ports, check_known, check_listener, check_from, validate_listeners_config,
}
use pingoo.Config.Load.{
  Config, entries, extend, load_rules, load_rules_from, load_services, new_listener, service_names,
  check_acme, check_domains, load_and_validate,
}

-- stands for parsers that know one text each; an expression is its source
abbrev pub parsers : Parsers String
parsers = record {
  parse_uri = λ s. some (record {
    scheme_str = some "https";
    path = "/";
    authority = some (record { host = "0.0.0.0"; port_u16 = none });
  });
  parse_url = λ s. some (record { host_str = some "api.internal"; scheme = "https"; port = none });
  parse_ip = λ s. if s == "0.0.0.0" then some (ipv4 0 0 0 0) else none;
  compile_expression = λ s. some s;
}

abbrev pub api : ServiceConfigFile
api = record {
  route = some "true";
  http_proxy = some ("https://api.internal" ∷ []);
  static = none;
  tcp_proxy = none;
}

abbrev pub api_config : ServiceConfig String
api_config = record {
  name = "api";
  route = some "true";
  http_proxy = some (domain "api.internal" true 443 ∷ []);
  static = none;
  tcp_proxy = none;
}

abbrev pub services : HashMap String (ServiceConfig String)
services = ("api", api_config) ∷ []

abbrev pub web : ListenerConfig
web = record {
  name = "web";
  address = record { ip = ipv4 0 0 0 0; port = 443 };
  protocol = https;
  services = "api" ∷ [];
}

abbrev pub file : ConfigFile
file = record {
  listeners =
      (
        "web",
        record {
          address = record { socket_address = web.address; protocol = https };
          services = none;
        },
      )
      ∷ [];
  services = ("api", api) ∷ [];
  rules = ("deny", record { expression = some "false"; actions = block ∷ []; limit = none }) ∷ [];
  tls = some (record {
    acme = some (record { directory_url = " https://acme.test/ "; domains = "a.test" ∷ [] });
  });
  service_discovery = none;
  lists = none;
  child_process = none;
}

abbrev pub loaded : Config String
loaded = record {
  listeners = web ∷ [];
  services = api_config ∷ [];
  rules =
      record { name = "deny"; expression = some "false"; actions = block ∷ []; limiter_tx = none }
      ∷ [];
  tls = record {
    acme = some (record { directory_url = "https://acme.test"; domains = "a.test" ∷ [] });
  };
  service_discovery = default_service_discovery_config;
  lists = [];
  child_process = none;
  limiter_workers = [];
}

pub load_test : load_and_validate parsers (ok file) (entries []) ≡ ok loaded
unfolding load_and_validate load_rules load_rules_from extend insert load_services parse_service
    parse_upstream upstream_from collect new_listener service_names validate_listeners_config
    check_from check_listener check_ports check_known contains_key find_duplicate find_duplicate2
    check_acme check_domains
load_test = refl
