-- ===== src/Server.antt =====
-- pingoo/server.rs: which services a listener gets when the server starts. In the look-ups a
-- service stands for its name; the `expect`s and `unwrap`s that fail are `none`.
pub mod Start
pub mod Run
pub mod Prepared
pub mod Serves
pub mod Defaults
pub mod Parts
pub mod Main
pub mod Panics
mod Tests
use pingoo.Prelude.{
  String, List, [], ◌∷◌, map, filter, Option, none, some, Bool, true, false, ◌||◌, contains,
  string_eq, if◌then◌else◌, is_some,
}
use pingoo.Config.{ServiceConfig, ListenerConfig, ListenerProtocol, tcp, tcp_and_tls, http, https}

module _ {Expr : Type 0} where
  abbrev pub names_of : List (ServiceConfig Expr) → List String
  names_of services = map (λ (s : ServiceConfig Expr). s.name) services

  -- the keys of the maps `tcp_services` and `http_services`
  unfoldable pub tcp_services : List (ServiceConfig Expr) → List String
  tcp_services services =
      names_of (filter (λ (s : ServiceConfig Expr). is_some s.tcp_proxy) services)

  unfoldable pub http_services : List (ServiceConfig Expr) → List String
  http_services services =
      names_of
        (filter (λ (s : ServiceConfig Expr). is_some s.http_proxy || is_some s.static) services)

abbrev pub get_service : List String → String → Option String
get_service known name = if contains known name then some name else none

-- `services[0]`, then its look-up
abbrev pub first_service : List String → List String → Option (List String)
first_service known [] = none
first_service known (s ∷ ss) = elim (get_service known s) [ none ↦ none | some x ↦ some (x ∷ []) ]

abbrev pub all_services : List String → List String → Option (List String)
all_services known [] = some []
all_services known (s ∷ ss) = elim (get_service known s) [
  | none ↦ none
  | some x ↦ elim (all_services known ss) [ none ↦ none | some xs ↦ some (x ∷ xs) ]
]

-- the services that the listener is made with
unfoldable pub services_for :
    List String → List String → ListenerProtocol → List String → Option (List String)
services_for tcps https' tcp names = first_service tcps names
services_for tcps https' tcp_and_tls names = first_service tcps names
services_for tcps https' http names = all_services https' names
services_for tcps https' https names = all_services https' names
