-- ===== src/Listeners/Delay.antt =====
-- How long a connection waits for the accept loops of pingoo/listeners/.
use pingoo.Prelude.{ℕ, ◌+◌, ◌*◌, ◌≤◌, List, [], ◌∷◌, ◌++◌, Option, true, ◌≡◌, refl, arith, Result}
use pingoo.Async.{Future, ready, never}
use pingoo.Acme.Challenge.{ClientHello, ServerConfig}
use pingoo.Listeners.{
  Pick, accept_failed, accepted, shutdown_signal, Loop, spawn_accept, await_accept, after_accept,
  stream_of, listen_tcp_and_tls, listen_https, TlsIo, accept_tls_connection, tls_handshake_timeout,
}
use pingoo.Listeners.Accept.{NoChallenge, EndsWithin, accept_tls_connection-EndsWithin}
use pingoo.Listeners.Taken.{AllTaken, Returns, AllReturn, start-AllTaken}

module _ {Connection Stream : Type 0}
    (accept_tls : Connection → Future (Result (Option Stream) (Unit {0}))) (bound : ℕ) where
  after_accept-noted :
      (f : Future (Result (Option Stream) (Unit {0})))
      → EndsWithin bound f
      → (now : ℕ) (l : Loop Stream)
      → ((after_accept accept_tls now l f).accepting ≡ true)
        × (now ≤ (after_accept accept_tls now l f).clock)
        × ((after_accept accept_tls now l f).clock ≤ now + bound)
        × ((after_accept accept_tls now l f).tasks
            ≡ l.tasks ++ (record { accepted_at = now; served = stream_of accept_tls now f } ∷ []))
  after_accept-noted (ready t r) h now l = (refl, omega arith, omega arith, refl)
  after_accept-noted never h now l = absurd h

  after_accept-Returns :
      (c : Connection)
      → EndsWithin bound (accept_tls c)
      → (now : ℕ) (l : Loop Stream) → Returns accept_tls bound (await_accept accept_tls) c now l
  after_accept-Returns c h now l =
      let (going, early, late, noted) = after_accept-noted (accept_tls c) h now l in
      record {
        going = going;
        early = early;
        late = late;
        task = _;
        noted = noted;
        at_now = refl;
        served = refl;
      }

module _ {Connection Stream : Type 0}
    (accept_tls : Connection → Future (Result (Option Stream) (Unit {0}))) where
  AllReturn-spawn :
      (ps : List (Pick Connection)) → AllReturn accept_tls 0 (spawn_accept accept_tls) ps
  AllReturn-spawn [] = tt
  AllReturn-spawn (accept_failed at ∷ ps) = AllReturn-spawn ps
  AllReturn-spawn (accepted at c ∷ ps) = (
    λ now l. record {
      going = refl;
      early = omega arith;
      late = omega arith;
      task = _;
      noted = refl;
      at_now = refl;
      served = refl;
    },
    AllReturn-spawn ps,
  )
  AllReturn-spawn (shutdown_signal at ∷ ps) = AllReturn-spawn ps

module _ {Handshake Stream Key : Type 0} (io : TlsIo Handshake Stream Key)
    (alpn_01_config : ClientHello → ServerConfig Key) (tls_server_config : ServerConfig Key) where
  -- what the client does until its hello
  abbrev Client : Type 0
  Client = Future (Result Handshake (Unit {0}))

  abbrev accept_tls : Client → Future (Result (Option Stream) (Unit {0}))
  accept_tls = accept_tls_connection io alpn_01_config tls_server_config

  -- None of the clients asks for an ACME challenge.
  abbrev pub NoChallenges : List (Pick Client) → Type 0
  NoChallenges [] = Unit
  NoChallenges (accept_failed at ∷ ps) = NoChallenges ps
  NoChallenges (accepted at c ∷ ps) =
      NoChallenge io alpn_01_config tls_server_config c × NoChallenges ps
  NoChallenges (shutdown_signal at ∷ ps) = NoChallenges ps

  AllReturn-await :
      (ps : List (Pick Client))
      → NoChallenges ps
      → AllReturn accept_tls (2 * tls_handshake_timeout) (await_accept accept_tls) ps
  AllReturn-await [] h = tt
  AllReturn-await (accept_failed at ∷ ps) h = AllReturn-await ps h
  AllReturn-await (accepted at c ∷ ps) h = (
    after_accept-Returns accept_tls (2 * tls_handshake_timeout) c
        (accept_tls_connection-EndsWithin io alpn_01_config tls_server_config c h.0),
    AllReturn-await ps h.1,
  )
  AllReturn-await (shutdown_signal at ∷ ps) h = AllReturn-await ps h

  -- The TCP and TLS listener takes every connection up to the shutdown, in order, each when it is there
  -- and the events before it have come, and so does the HTTPS listener, where no client asks for an ACME
  -- challenge, with a delay of at most twenty seconds for each connection before it; each connection is
  -- one task, whose service gets the stream of the accept that begins then, if that gives one.
  pub listen-accepted_at :
      (now now' : ℕ) (ps ps' : List (Pick Client))
      → NoChallenges ps'
      → AllTaken accept_tls 0 now 0 ps (listen_tcp_and_tls accept_tls now ps).tasks
        × AllTaken accept_tls 20_000_000_000 now' 0 ps' (listen_https accept_tls now' ps').tasks
  unfolding listen_tcp_and_tls listen_https
  listen-accepted_at now now' ps ps' h = (
    start-AllTaken accept_tls 0 (spawn_accept accept_tls) now ps (AllReturn-spawn accept_tls ps),
    start-AllTaken accept_tls 20_000_000_000 (await_accept accept_tls) now' ps'
        (AllReturn-await ps' h),
  )
