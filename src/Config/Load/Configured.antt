-- ===== src/Config/Load/Configured.antt =====
-- What `load_and_validate` of pingoo/config/config.rs makes of the file's services and listeners.
use pingoo.Prelude.{
  String, List, [], ◌∷◌, map, Option, none, some, Bool, is_some, ◌||◌, ◌≡◌, ◌↔◌, Result, ok, All,
  In, NoDup, HashMap, keys,
}
use pingoo.Config.{
  ListenerConfig, ListenerProtocol, tcp, tcp_and_tls, http, https, ServiceConfig, ConfigError,
  TlsAcmeConfig,
}
use pingoo.Config.File.{ConfigFile, ListenerConfigFile}
use pingoo.Config.Listeners.Valid.{port_of, IsServed}
use pingoo.Config.Load.{Config, values}
use pingoo.Config.Load.Named.{Named}
use pingoo.Config.Load.Sources.{names, IsNamed, IsFrom}
use pingoo.Config.Load.Loaded.{IsAcme}

module _ {Expr : Type 0} where
  -- The service can stand behind a listener of the protocol: it is a TCP proxy, or else an HTTP proxy or
  -- a static site.
  abbrev pub is_for : ListenerProtocol → ServiceConfig Expr → Bool
  is_for tcp s = is_some s.tcp_proxy
  is_for tcp_and_tls s = is_some s.tcp_proxy
  is_for http s = is_some s.http_proxy || is_some s.static
  is_for https s = is_some s.http_proxy || is_some s.static

  -- The listener's services are those that the file names, or, where it names none, all services of the
  -- configuration that can stand behind it.
  abbrev pub AreServices :
      List (ServiceConfig Expr) → ListenerProtocol → Option (List String) → List String → Type 0
  AreServices services protocol none chosen =
      (name : String) → In name chosen ↔ IsNamed (is_for protocol) services name
  AreServices services protocol (some named) chosen = chosen ≡ named

  pub record IsListener (services : List (ServiceConfig Expr)) (name : String)
      (f : ListenerConfigFile) (l : ListenerConfig) : Type 0 where
    pub named : l.name ≡ name
    pub address : l.address ≡ f.address.socket_address
    pub protocol : l.protocol ≡ f.address.protocol
    pub chosen : AreServices services f.address.protocol f.services l.services

  -- The listeners are those of the file, in order.
  abbrev pub AreListeners :
      List (ServiceConfig Expr) → HashMap String ListenerConfigFile → List ListenerConfig → Type 0
  AreListeners services [] [] = Unit
  AreListeners services ((name, f) ∷ fs) (l ∷ ls) =
      IsListener services name f l × AreListeners services fs ls
  AreListeners services _ _ = ⊥

  pub record IsConfigured (config_file : Result ConfigFile ConfigError) (c : Config Expr)
      : Type 0 where
    pub file : ConfigFile
    pub read : config_file ≡ ok file
    pub sources : All (λ (s : ServiceConfig Expr). IsFrom file.services (s.name, s)) c.services
    pub distinct : NoDup (names c.services)
    pub complete : (name : String) → In name (names c.services) ↔ In name (keys file.services)
    pub listeners : AreListeners c.services file.listeners c.listeners
    pub ports : NoDup (map port_of c.listeners)
    pub services : HashMap String (ServiceConfig Expr)
    pub kept : c.services ≡ values services
    pub served : All (IsServed services) c.listeners
    pub acme : (a : TlsAcmeConfig) → c.tls.acme ≡ some a → IsAcme a
