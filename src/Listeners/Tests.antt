-- ===== src/Listeners/Tests.antt =====
-- A client that is quick, one that sends nothing and one that asks for an ACME challenge.
use pingoo.Prelude.{
  ℕ, ◌+◌, ◌++◌, String, [], ◌∷◌, List, Option, none, some, true, false, ◌≡◌, ◌↔◌, ◌≢◌, refl, arith,
  Result, ok, eqb, if◌then◌else◌,
}
use pingoo.Async.{Future, ready, never}
use pingoo.Net.{localhost}
use pingoo.Acme.Challenge.{CertResolver, ServerConfig, is_tls_alpn_challenge, tls_alpn_acme}
use pingoo.Listeners.{
  TlsIo, Pick, accept_failed, accepted, shutdown_signal, accept_tls_connection, listen_tcp_and_tls,
  listen_https, System, bind_tcp_socket, listen_tcp,
}
use pingoo.Listeners.Accept.{IsAccepted, accept_tls_connection-eq-stream_iff}
use mathlib.Core.List.{Perm}
use pingoo.Listeners.Delivered.{by_time, delivered, streams_of}
use pingoo.Listeners.Served.{served, listeners-refine-served}
use pingoo.Listeners.Taken.{AllTaken}
use pingoo.Listeners.Delay.{listen-accepted_at}
use pingoo.Listeners.Stall.{IsLastAt, silent, listen_https-stalls}

-- a handshake is known by its hello's protocols, a stream by its number
abbrev io : TlsIo (List String) ℕ String
io = record {
  client_hello = λ protocols. record { server_name = some "example.com"; alpn = some protocols };
  into_stream = λ protocols config. ready 3 (ok 7);
  shutdown = λ stream. ready 1 tt;
}

abbrev Client : Type 0
Client = Future (Result (List String) (Unit {0}))

abbrev config : ServerConfig String
config = record { only_tls13 = true; cert_resolver = CertResolver.tls_manager; alpn_protocols = [] }

abbrev accept_tls : Client → Future (Result (Option ℕ) (Unit {0}))
accept_tls = accept_tls_connection io (λ hello. config) config

abbrev quick : Client
quick = ready 2 (ok ("h2" ∷ []))

abbrev acme : Client
acme = ready 2 (ok (tls_alpn_acme ∷ []))

accept_tls_connection-eq-stream_iff_example :
    (accept_tls quick ≡ ready 5 (ok (some 7))) ↔ IsAccepted io (λ hello. config) config quick 5 7
accept_tls_connection-eq-stream_iff_example =
    accept_tls_connection-eq-stream_iff io (λ hello. config) config quick 5 7

takes : accept_tls quick ≡ ready 5 (ok (some 7))
unfolding accept_tls_connection is_tls_alpn_challenge
takes = refl

no_service : accept_tls acme ≡ ready 6 (ok none)
unfolding accept_tls_connection is_tls_alpn_challenge
no_service = refl

abbrev picks : List (Pick Client)
picks =
    accepted 1 quick
    ∷ accept_failed 2
    ∷ accepted 3 never
    ∷ shutdown_signal 4
    ∷ accepted 5 quick
    ∷ []

quick_ends : accept_tls quick ≢ never
unfolding accept_tls_connection is_tls_alpn_challenge
quick_ends h = ground arith

silent_ends : accept_tls never ≢ never
unfolding accept_tls_connection
silent_ends h = ground arith

listeners-refine-served_example :
    Perm (delivered (listen_tcp_and_tls accept_tls 0 picks).tasks) (served accept_tls picks)
    × (delivered (listen_https accept_tls 1 picks).tasks ≡ served accept_tls picks)
listeners-refine-served_example =
    listeners-refine-served accept_tls 0 1 picks picks (quick_ends, (silent_ends, (quick_ends, tt)))

-- a quick client behind a slow one overtakes it
abbrev race : List (Pick ℕ)
race = accepted 0 9 ∷ accepted 0 1 ∷ []

abbrev after_itself : ℕ → Future (Result (Option ℕ) (Unit {0}))
after_itself n = ready n (ok (some n))

overtaken : delivered (listen_tcp_and_tls after_itself 0 race).tasks ≡ 1 ∷ 9 ∷ []
unfolding listen_tcp_and_tls by_time
overtaken = refl

in_order : delivered (listen_https after_itself 0 race).tasks ≡ 9 ∷ 1 ∷ []
unfolding listen_https by_time
in_order = refl

seven : served accept_tls picks ≡ 7 ∷ []
unfolding accept_tls_connection is_tls_alpn_challenge
seven = refl

quick_asks_nothing : is_tls_alpn_challenge (io.client_hello ("h2" ∷ [])) ≡ false
unfolding is_tls_alpn_challenge
quick_asks_nothing = refl

listen-accepted_at_example :
    AllTaken accept_tls 0 0 0 picks (listen_tcp_and_tls accept_tls 0 picks).tasks
    × AllTaken accept_tls 20_000_000_000 1 0 picks (listen_https accept_tls 1 picks).tasks
listen-accepted_at_example =
    listen-accepted_at io (λ hello. config) config 0 1 picks picks
      (quick_asks_nothing, (tt, (quick_asks_nothing, tt)))

listen_https-stalls_example :
    IsLastAt io
      (λ hello. config)
      config
      20_000_000_000
      (listen_https accept_tls 0
        (silent io (λ hello. config) config 0 2 ++ (accepted 0 quick ∷ [])))
    × IsLastAt io
        (λ hello. config)
        config
        0
        (listen_tcp_and_tls accept_tls 0
          (silent io (λ hello. config) config 0 2 ++ (accepted 0 quick ∷ [])))
listen_https-stalls_example = listen_https-stalls io (λ hello. config) config 2 0 quick

abbrev system : System ℕ
system = record {
  new = λ v6. some (if v6 then 6 else 4);
  call = λ call socket. some socket;
  bind = λ address socket. if eqb address.port 80 then none else some socket;
  listen = λ backlog socket. some (socket + backlog);
}

binds : bind_tcp_socket system (record { ip = localhost; port = 443 }) "tls" ≡ ok 2052
unfolding bind_tcp_socket
binds = refl

abbrev five : ℕ
five = 5

serves_until_shutdown :
    streams_of (listen_tcp 0 (accepted 1 five ∷ shutdown_signal 2 ∷ [])).tasks ≡ 5 ∷ []
unfolding listen_tcp
serves_until_shutdown = refl
