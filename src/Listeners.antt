-- ===== src/Listeners.antt =====
-- pingoo/listeners/mod.rs and the accept loops of its listeners: which connections are accepted, when,
-- and which streams come to the services. Time counts nanoseconds. A connection is what its client does
-- in the handshakes, which rustls reads; the sockets of the system are a parameter.
pub mod Accept
pub mod Delivered
pub mod InTime
pub mod Served
pub mod Taken
pub mod Delay
pub mod Stall
mod Tests
use pingoo.Prelude.{
  ℕ, ◌+◌, ◌*◌, String, List, [], ◌∷◌, ◌++◌, Option, none, some, Bool, true, false, if◌then◌else◌,
  Result, ok, err, ◌>>=◌, max,
}
use pingoo.Net.{SocketAddr, is_ipv6}
use pingoo.Async.{Future, ready, never, and_then, timeout, delayed}
use pingoo.Acme.Challenge.{ClientHello, is_tls_alpn_challenge, ServerConfig}

abbrev pub secs : ℕ → ℕ
secs n = n * 1_000_000_000

abbrev pub graceful_shutdown_timeout : ℕ
graceful_shutdown_timeout = secs 20

abbrev pub tls_handshake_timeout : ℕ
tls_handshake_timeout = secs 10

-- `Error::Listening`, with the call that failed
pub data SocketCall : Type 0 where
  socket_new set_nonblocking set_reuse_port set_reuse_address socket_bind socket_listen
        std_set_nonblocking from_std :
      SocketCall

pub record ListeningError : Type 0 where
  pub listener : String
  pub address : SocketAddr
  pub call : SocketCall

-- what the system answers to each call on the socket being made
pub record System (Socket : Type 0) : Type 0 where
  pub new : Bool → Option Socket
  pub call : SocketCall → Socket → Option Socket
  pub bind : SocketAddr → Socket → Option Socket
  pub listen : ℕ → Socket → Option Socket

module _ {Socket : Type 0} (system : System Socket) where
  abbrev pub listening :
      String → SocketAddr → SocketCall → Option Socket → Result Socket ListeningError
  listening listener address call none =
      err (record { listener = listener; address = address; call = call })
  listening listener address call (some socket) = ok socket

  unfoldable pub bind_tcp_socket : SocketAddr → String → Result Socket ListeningError
  bind_tcp_socket address listener_name =
      let check = listening listener_name address in
      check socket_new (system.new (is_ipv6 address.ip)) >>= λ s1.
      check set_nonblocking (system.call set_nonblocking s1) >>= λ s2.
      check set_reuse_port (system.call set_reuse_port s2) >>= λ s3.
      check set_reuse_address (system.call set_reuse_address s3) >>= λ s4.
      check socket_bind (system.bind address s4) >>= λ s5.
      check socket_listen (system.listen 2048 s5) >>= λ s6.
      check std_set_nonblocking (system.call std_set_nonblocking s6) >>= λ s7.
      check from_std (system.call from_std s7)

-- The two halves of a handshake of `tokio_rustls`, and the end of a stream.
pub record TlsIo (Handshake Stream Key : Type 0) : Type 0 where
  pub client_hello : Handshake → ClientHello
  pub into_stream : Handshake → ServerConfig Key → Future (Result Stream (Unit {0}))
  pub shutdown : Stream → Future (Unit {0})

module _ {Handshake Stream Key : Type 0} (io : TlsIo Handshake Stream Key)
    (alpn_01_config : ClientHello → ServerConfig Key) (tls_server_config : ServerConfig Key) where
  open io use {client_hello, into_stream, shutdown}

  abbrev pub Accepted : Type 0
  Accepted = Result (Option Stream) (Unit {0})

  -- the end of an ACME connection
  abbrev pub after_acme_stream : Option (Result Stream (Unit {0})) → Future Accepted
  after_acme_stream (some (ok stream)) = and_then (shutdown stream) (λ _. ready 0 (ok none))
  after_acme_stream (some (err e)) = ready 0 (err tt)
  after_acme_stream none = ready 0 (err tt)

  abbrev pub after_stream : Option (Result Stream (Unit {0})) → Future Accepted
  after_stream (some (ok stream)) = ready 0 (ok (some stream))
  after_stream (some (err e)) = ready 0 (err tt)
  after_stream none = ready 0 (err tt)

  abbrev pub after_hello : Option (Result Handshake (Unit {0})) → Future Accepted
  after_hello (some (ok handshake)) =
      if is_tls_alpn_challenge (client_hello handshake)
      then and_then
          (timeout tls_handshake_timeout
            (into_stream handshake (alpn_01_config (client_hello handshake))))
          after_acme_stream
      else and_then (timeout tls_handshake_timeout (into_stream handshake tls_server_config))
          after_stream
  after_hello (some (err e)) = ready 0 (err tt)
  after_hello none = ready 0 (err tt)

  unfoldable pub accept_tls_connection : Future (Result Handshake (Unit {0})) → Future Accepted
  accept_tls_connection tcp_stream = and_then (timeout tls_handshake_timeout tcp_stream) after_hello

-- What a pass of an accept loop takes, with the time at which it is there: an error of `accept`, a
-- connection or the signal to shut down.
pub data Pick (Connection : Type 0) : Type 0 where
  accept_failed : ℕ → Pick Connection
  accepted : ℕ → Connection → Pick Connection
  shutdown_signal : ℕ → Pick Connection

-- A connection taken from the socket, and the stream that a service gets for it.
pub record Task (Stream : Type 0) : Type 0 where
  pub accepted_at : ℕ
  pub served : Option (ℕ × Stream)

-- `accepting` until the loop ends or waits for ever
pub record Loop (Stream : Type 0) : Type 0 where
  pub clock : ℕ
  pub accepting : Bool
  pub tasks : List (Task Stream)

abbrev pub start : {Stream : Type 0} → ℕ → Loop Stream
start now = record { clock = now; accepting = true; tasks = [] }

module _ {Connection Stream : Type 0} (handle : ℕ → Connection → Loop Stream → Loop Stream) where
  abbrev pub pass : Loop Stream → Pick Connection → Loop Stream
  pass l (accept_failed at) = record l { clock = max l.clock at }
  pass l (accepted at c) = handle (max l.clock at) c l
  pass l (shutdown_signal at) = record l { clock = max l.clock at; accepting = false }

  unfoldable pub run : Loop Stream → List (Pick Connection) → Loop Stream
  run l [] = l
  run l (p ∷ ps) = run (if l.accepting then pass l p else l) ps

abbrev pub add_task : {Stream : Type 0} → ℕ → Task Stream → Loop Stream → Loop Stream
add_task clock task l = record { clock = clock; accepting = true; tasks = l.tasks ++ (task ∷ []) }

-- TcpListener: the service gets the connection itself, in a task of its own.
unfoldable pub listen_tcp : {Stream : Type 0} → ℕ → List (Pick Stream) → Loop Stream
unfolding run
listen_tcp now =
    run (λ now stream. add_task now (record { accepted_at = now; served = some (now, stream) }))
      (start now)

-- HttpListener: `serve_http_requests` gets the connection, in a task of its own.
unfoldable pub listen_http : {Stream : Type 0} → ℕ → List (Pick Stream) → Loop Stream
unfolding run
listen_http now =
    run (λ now stream. add_task now (record { accepted_at = now; served = some (now, stream) }))
      (start now)

module _ {Connection Stream : Type 0}
    (accept_tls : Connection → Future (Result (Option Stream) (Unit {0}))) where
  -- the stream for the service when the accept that began at `now` has ended
  abbrev pub stream_of : ℕ → Future (Result (Option Stream) (Unit {0})) → Option (ℕ × Stream)
  stream_of now (ready t (ok (some stream))) = some (now + t, stream)
  stream_of now (ready t (ok none)) = none
  stream_of now (ready t (err e)) = none
  stream_of now never = none

  -- TcpAndTlsListener: the task of a connection does its handshake.
  abbrev pub spawn_accept : ℕ → Connection → Loop Stream → Loop Stream
  spawn_accept now c =
      add_task now (record { accepted_at = now; served = stream_of now (accept_tls c) })

  unfoldable pub listen_tcp_and_tls : ℕ → List (Pick Connection) → Loop Stream
  unfolding run
  listen_tcp_and_tls now = run spawn_accept (start now)

  -- HttpsListener: the handshake is awaited where the task's argument is made, in the loop itself.
  abbrev pub after_accept :
      ℕ → Loop Stream → Future (Result (Option Stream) (Unit {0})) → Loop Stream
  after_accept now l (ready t r) =
      add_task (now + t) (record { accepted_at = now; served = stream_of now (ready t r) }) l
  after_accept now l never = record {
    clock = now;
    accepting = false;
    tasks = l.tasks ++ (record { accepted_at = now; served = none } ∷ []);
  }

  abbrev pub await_accept : ℕ → Connection → Loop Stream → Loop Stream
  await_accept now c l = after_accept now l (accept_tls c)

  unfoldable pub listen_https : ℕ → List (Pick Connection) → Loop Stream
  unfolding run
  listen_https now = run await_accept (start now)

-- the end of `listen`: the tasks end, or the time for them
unfoldable pub end_of_listen : ℕ → Future (Unit {0}) → Future (Option (Unit {0}))
end_of_listen clock join_all = delayed clock (timeout graceful_shutdown_timeout join_all)

-- for HttpListener, the connections end instead of the tasks
unfoldable pub end_of_listen_http : ℕ → Future (Unit {0}) → Future (Option (Unit {0}))
end_of_listen_http clock shutdown = delayed clock (timeout graceful_shutdown_timeout shutdown)
