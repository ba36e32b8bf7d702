-- ===== src/Lib.antt =====
-- Pingoo is a reverse proxy: listeners take connections, an HTTP request passes the rules and the
-- captcha and goes to the first service that matches, and a service serves files or hands the request
-- to an upstream that static configuration, DNS or Docker has found.
--
-- Module, then the code it models:
--   Prelude          Rust's Option, Result, HashMap, str and Vec as far as the code calls them
--   Net, Http        std::net addresses; pingoo/services/http_utils.rs
--   Config           pingoo/config/: config.rs (types, load_and_validate, load_rules,
--                    validate_listeners_config) and config_file.rs (Config.File: parse_*)
--   Rules            pingoo/rules.rs: Rule::match_request, rules/rules.rs (Rules.Compile)
--   RateLimiter      pingoo/rate_limiter.rs: the buckets, rotate, can_resume, the worker's loop
--   HttpListener     pingoo/listeners/http_listener.rs: the handler of serve_http_requests
--   Listeners, Async pingoo/listeners/: mod.rs, https_listener.rs, tcp_listener.rs, tcp_tls_listener.rs
--   Captcha          pingoo/captcha.rs (Captcha.File: its keys on disk)
--   CryptoUtils      pingoo/crypto_utils.rs
--   Jwt              jwt/: jwt.rs (Token), key.rs and jwk.rs (Key, Jwk)
--   ServiceRegistry  pingoo/service_discovery/service_registry.rs
--   Discovery        pingoo/service_discovery/docker.rs and dns.rs
--   Services         pingoo/services/: http_proxy_service.rs, tcp_proxy_service.rs,
--                    http_static_site_service.rs; http_utils.rs: new_http_service (Services.New)
--   Tls, Acme        pingoo/tls/tls_manager.rs, pingoo/tls/acme.rs
--   Certificates     pingoo/tls/certificate.rs, Disk: the files that are read and written
--   DockerClient     docker/src/: client.rs, containers.rs, model.rs
--   Lists, Geoip     pingoo/lists.rs, pingoo/geoip.rs
--   Server           pingoo/server.rs and main.rs: Server.Run is run over an interface of its
--                    parts, which Server.Parts fills with those of the other modules
-- Each component's children named Tests hold runs of its code and uses of its theorems. The other
-- children hold proofs, named for what they prove.
--
-- How the parts meet: Server.Run loads the parts, which keep files on one Disk, and starts the
-- listeners. Config.Load gives the Rule that Rules and HttpListener use and the ServiceConfig that
-- ServiceRegistry, Discovery and Server use. HttpListener sends probes over a channel, which is a
-- function on a state of the caller's, and turns what comes back into an answer by
-- RateLimiter.limit_http_request. Captcha.Manager signs and verifies by Jwt.Token.
-- Services.HttpProxy takes the RequestContext that HttpListener makes and the upstreams of
-- ServiceRegistry.
--
-- State: the limiter, the registry, the caches and the noted containers are values that an operation
-- takes and returns, one after the other as their lock or task orders them; a concurrent change between
-- two operations is a step between them. Each look at the clock is an argument of its own. Errors are
-- values of Prelude.Results.Result, with a constructor for each message; a panic is `none` or an error
-- that says so.
--
-- Numbers: counters of 16 bits saturate as written. Times and durations count nanoseconds in the natural
-- numbers, without the overflow that Instant and DateTime panic on; a JWT's numeric dates are integers.
-- Texts are sequences of code points, and their lengths are those of ASCII texts, where a code point is
-- one byte.
--
-- Loops are by recursion on the list they go over. The one loop without a list, the retries of
-- Services.TcpProxy, has fuel for `max 1 retries` rounds, and its theorem shows that this is enough.
--
-- Parameters, since their code is outside the repository: the evaluator of expressions (bel), the
-- ACME client, JSON (serde_json), base64, the signatures and hashes of aws_lc_rs, the GeoIP database,
-- cookies, the DNS resolver and whether it and the client's root certificates can be set up, hyper, rustls and rcgen, sockets, the system's errors on files, wildcard
-- patterns, the parsers of URLs and addresses. What a theorem needs of one is a hypothesis of it.
--
-- Not modelled: the timers of tls/acme.rs and how the tasks of its domains interleave; the signal
-- handlers of main.rs, what is logged and serde's derived code; the expiry of the caches of GeoIP and of
-- noted containers; the test server pong/ and the captcha's page captcha/.
pub mod Acme
pub mod Async
pub mod Captcha
pub mod Certificates
pub mod Config
pub mod CryptoUtils
pub mod Discovery
pub mod Disk
pub mod DockerClient
pub mod Geoip
pub mod Http
pub mod HttpListener
pub mod Jwt
pub mod Listeners
pub mod Lists
pub mod Net
pub mod Prelude
pub mod RateLimiter
pub mod Rules
pub mod Server
pub mod ServiceRegistry
pub mod Services
pub mod Tls
