-- ===== src/Config/Tests.antt =====
-- The configuration's theorems at a small file, and runs of the parsers.
use pingoo.Prelude.{◌≡◌, ◌↔◌, [], ◌∷◌, map, true, ok, err, collect, NoDup, All, refl, string_eq}
use pingoo.Net.{ipv4}
use pingoo.Config.{https, domain, same_port}
use pingoo.Config.File.{parse_listener_address, parse_service, parse_upstream, upstream_from}
use pingoo.Config.Listeners.{check_ports, check_listener, check_from, validate_listeners_config}
use pingoo.Config.Listeners.Valid.{port_of, IsServed, validate_listeners_config_iff}
use pingoo.Config.Small.{parsers, api, api_config, services, web}

parse_upstream_test :
    parse_upstream parsers "https://api.internal" ≡ ok (domain "api.internal" true 443)
unfolding parse_upstream upstream_from
parse_upstream_test = refl

parse_service_test : parse_service parsers "api" api ≡ ok api_config
unfolding parse_service parse_upstream upstream_from collect
parse_service_test = refl

parse_listener_test :
    parse_listener_address parsers "https://0.0.0.0"
    ≡ ok (record { socket_address = record { ip = ipv4 0 0 0 0; port = 443 }; protocol = https })
unfolding parse_listener_address
parse_listener_test = refl

validate_listeners_config_iff_example :
    (validate_listeners_config (web ∷ web ∷ []) services ≡ ok tt)
    ↔ (NoDup (map port_of (web ∷ web ∷ [])) × All (IsServed services) (web ∷ web ∷ []))
validate_listeners_config_iff_example = validate_listeners_config_iff services (web ∷ web ∷ [])

same_port_test : validate_listeners_config (web ∷ web ∷ []) services ≡ err (same_port "web" "web")
unfolding validate_listeners_config check_from check_listener check_ports
same_port_test = refl
