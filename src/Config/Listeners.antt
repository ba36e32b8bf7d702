-- ===== src/Config/Listeners.antt =====
-- `validate_listeners_config` of pingoo/config/config.rs.
pub mod Valid
use pingoo.Prelude.{
  ℕ, suc, ◌&&◌, ◌||◌, String, List, [], ◌∷◌, Option, none, some, Bool, true, false, not, HashMap,
  Result, ok, err, ◌>>=◌, ensure, contains_key, eqb, ltb, is_empty, length, string_eq,
  if◌then◌else◌,
}
use pingoo.Config.{
  ListenerProtocol, tcp, tcp_and_tls, http, https, ListenerConfig, ServiceConfig, ConfigError,
  same_port, no_service, tcp_services, unknown_service, duplicate_service,
}
use pingoo.Config.Duplicates.{find_duplicate}

abbrev pub Checked : Type 0
Checked = Result (Unit {0}) ConfigError

abbrev pub is_tcp : ListenerProtocol → Bool
is_tcp tcp = true
is_tcp tcp_and_tls = true
is_tcp _ = false

-- the inner loop over `(j, other_listener)`
unfoldable pub check_ports : ℕ → ListenerConfig → ℕ → List ListenerConfig → Checked
check_ports i listener j [] = ok tt
check_ports i listener j (other ∷ others) =
    let rest = check_ports i listener (suc j) others in
    if eqb i j
    then rest
    else if eqb listener.address.port other.address.port
    then err (same_port listener.name other.name)
    else rest

module _ {Expr : Type 0} where
  unfoldable pub check_known : HashMap String (ServiceConfig Expr) → String → List String → Checked
  check_known services name [] = ok tt
  check_known services name (s ∷ ss) =
      let rest = check_known services name ss in
      if contains_key services s then rest else err (unknown_service name s)

  unfoldable pub check_listener :
      HashMap String (ServiceConfig Expr) → List ListenerConfig → ℕ → ListenerConfig → Checked
  check_listener services listeners i listener = check_ports i listener 0 listeners >>= λ _.
      ensure (not (is_empty listener.services)) (no_service listener.name) (
        ensure (not (is_tcp listener.protocol && ltb 1 (length listener.services)))
          (tcp_services listener.name)
          (check_known services listener.name listener.services >>= λ _.
            elim (find_duplicate listener.services) [
              | some duplicate ↦ err (duplicate_service listener.name duplicate)
              | none ↦ ok tt
            ]))

  -- the outer loop over `(i, listener)`
  unfoldable pub check_from :
      HashMap String (ServiceConfig Expr) → List ListenerConfig → ℕ → List ListenerConfig → Checked
  check_from services listeners i [] = ok tt
  check_from services listeners i (l ∷ ls) =
      check_listener services listeners i l >>= λ _. check_from services listeners (suc i) ls

  unfoldable pub validate_listeners_config :
      List ListenerConfig → HashMap String (ServiceConfig Expr) → Checked
  validate_listeners_config listeners services = check_from services listeners 0 listeners
