-- ===== src/Server/Parts.antt =====
-- The parts that `Server::run` of pingoo/server.rs is made of, filled with those of the other files.
use pingoo.Prelude.{String, List, Option, Bool, HashMap, Result, ok, err, ◌>>=◌}
use pingoo.Disk.{Disk}
use pingoo.Config.{ServiceConfig, ServiceDiscoveryConfig}
use pingoo.ServiceRegistry.{ServiceRegistry}
use pingoo.ServiceRegistry
use pingoo.DockerClient.{Client}
use pingoo.Discovery.Dns.{UpstreamHost}
use pingoo.Discovery.Dns
use pingoo.Discovery.Socket.{SocketError}
use pingoo.Discovery.Socket
use pingoo.Geoip.Load.{Database, LoadError}
use pingoo.Geoip.Load
use pingoo.Jwt.Key.{Crypto}
use pingoo.Jwt.Token.{Codec}
use pingoo.Captcha.{CaptchaCookieJwtClaims, CaptchaVerifiedCookieJwtClaims}
use pingoo.Captcha.Manager.{CaptchaManager}
use pingoo.Captcha.File.{KeyFile, StartError}
use pingoo.Captcha.File
use pingoo.Lists.{Items}
use pingoo.Lists
use pingoo.Certificates.{Crates}
use pingoo.Acme.Registration
use pingoo.Tls.Start.{Folder, StartedTls, TlsError}
use pingoo.Tls.Start
use pingoo.Listeners.{System, ListeningError, bind_tcp_socket}
use pingoo.Server.Run.{Parts}

-- `Error`, by the part that it comes from
pub data RunError : Type 0 where
  docker_error : SocketError → RunError
  geoip_error : LoadError → RunError
  captcha_error : StartError → RunError
  lists_error : Lists.Error → RunError
  tls_error : TlsError → RunError
  listening_error : ListeningError → RunError

abbrev pub raised : {A E : Type 0} → (E → RunError) → Result A E → Result A RunError
raised f (ok a) = ok a
raised f (err e) = err (f e)

-- the registry with the hosts of its DNS discoverer and its client of Docker
abbrev pub Registry : Type 0 → Type 0
Registry Sender = ServiceRegistry × HashMap String (List UpstreamHost) × Option (Client Sender)

-- What the parts take from elsewhere.
pub record Outside (Reader Int Network Der PrivateKey Account Bound : Type 0) (crypto : Crypto)
    : Type 1 where
  pub resolver_builds : Bool
  pub native_roots : Bool
  pub database : Database Reader
  pub captcha_codec : Codec CaptchaCookieJwtClaims
  pub verified_codec : Codec CaptchaVerifiedCookieJwtClaims
  pub key_file : KeyFile crypto
  pub new_uuid : String
  pub parse_int : String → Result Int String
  pub parse_network : String → Result Network String
  pub read_records : Disk → String → Result (List (Result (List String) String)) String
  pub crates : Crates Der PrivateKey
  pub client : Registration.Client Account
  pub folder : Folder
  pub system : System Bound

module _ {Expr Sender Reader Int Network Der PrivateKey Account Bound : Type 0} {crypto : Crypto}
    (outside : Outside Reader Int Network Der PrivateKey Account Bound crypto) where
  open outside use {
    resolver_builds, native_roots, database, captcha_codec, verified_codec, key_file, new_uuid,
    parse_int, parse_network, read_records, crates, client, folder, system,
  }

  unfoldable pub new_registry :
      Disk → ServiceDiscoveryConfig → List (ServiceConfig Expr) → Result (Registry Sender) RunError
  new_registry disk config services = raised docker_error (Socket.new disk config) >>= λ docker.
      ok (ServiceRegistry.new services, Dns.get_upstream_hosts services, docker)

  unfoldable pub parts :
      Parts Expr
        (Registry Sender)
        Reader
        (CaptchaManager crypto captcha_codec verified_codec)
        (HashMap String (Items Int Network))
        (StartedTls Account)
        Bound
        RunError
  parts = record {
    resolver_builds = resolver_builds;
    native_roots = native_roots;
    new_registry = new_registry;
    load_geoip = λ disk. raised geoip_error (Load.load database disk);
    new_captcha = λ disk.
        raised captcha_error (File.new crypto captcha_codec verified_codec key_file disk new_uuid);
    load_lists = λ disk configs.
        raised lists_error (Lists.load_lists parse_int parse_network (read_records disk) configs);
    new_tls = λ disk config. raised tls_error (Start.new crates client folder disk config);
    bind = λ l. raised listening_error (bind_tcp_socket system l.address l.name);
  }
