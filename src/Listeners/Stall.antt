-- ===== src/Listeners/Stall.antt =====
-- What clients that send nothing do to the accept loops of pingoo/listeners/.
use pingoo.Prelude.{
  ℕ, zero, suc, ◌+◌, ◌*◌, ◌≤◌, List, [], ◌∷◌, ◌++◌, Option, true, ◌≡◌, refl, sym, subst, arith,
  if◌then◌else◌, Result, max,
}
use pingoo.Async.{Future, ready, never}
use pingoo.Acme.Challenge.{ClientHello, ServerConfig}
use pingoo.Listeners.{
  Pick, accepted, Task, Loop, start, pass, run, spawn_accept, await_accept, after_accept,
  listen_tcp_and_tls, listen_https, TlsIo, accept_tls_connection, tls_handshake_timeout,
}

module _ {Handshake Stream Key : Type 0} (io : TlsIo Handshake Stream Key)
    (alpn_01_config : ClientHello → ServerConfig Key) (tls_server_config : ServerConfig Key) where
  -- what the client does until its hello
  abbrev Client : Type 0
  Client = Future (Result Handshake (Unit {0}))

  abbrev accept_tls : Client → Future (Result (Option Stream) (Unit {0}))
  accept_tls = accept_tls_connection io alpn_01_config tls_server_config

  -- connections that are there at `at` and send nothing
  abbrev pub silent : ℕ → ℕ → List (Pick Client)
  silent at zero = []
  silent at (suc n) = accepted at never ∷ silent at n

  module _ (handle : ℕ → Client → Loop Stream → Loop Stream) where
    run-append :
        (l : Loop Stream) (ps qs : List (Pick Client))
        → run handle l (ps ++ qs) ≡ run handle (run handle l ps) qs
    unfolding run
    run-append l [] qs = refl
    run-append l (p ∷ ps) qs = run-append (if l.accepting then pass handle l p else l) ps qs

  await_silent :
      (n now : ℕ) (l : Loop Stream)
      → l.accepting ≡ true
      → now ≤ l.clock
      → ((run (await_accept accept_tls) l (silent now n)).clock
          ≡ l.clock + n * tls_handshake_timeout)
        × ((run (await_accept accept_tls) l (silent now n)).accepting ≡ true)
  unfolding run accept_tls_connection
  await_silent zero now l a h = (omega arith, a)
  await_silent (suc n) now l a h =
      let l' = pass (await_accept accept_tls) l (accepted now never) in
      let (clock, going) = await_silent n now l' refl (omega arith) in
      subst
        (λ b.
          ((run (await_accept accept_tls) (if b then l' else l) (silent now n)).clock
            ≡ l.clock + suc n * tls_handshake_timeout)
          × ((run (await_accept accept_tls) (if b then l' else l) (silent now n)).accepting ≡ true))
        (sym a) (omega (arith, clock, h), going)

  spawn_silent :
      (n now : ℕ) (l : Loop Stream)
      → l.accepting ≡ true
      → l.clock ≡ now
      → ((run (spawn_accept accept_tls) l (silent now n)).clock ≡ now)
        × ((run (spawn_accept accept_tls) l (silent now n)).accepting ≡ true)
  unfolding run
  spawn_silent zero now l a h = (h, a)
  spawn_silent (suc n) now l a h =
      let l' = pass (spawn_accept accept_tls) l (accepted now never) in
      subst
        (λ b.
          ((run (spawn_accept accept_tls) (if b then l' else l) (silent now n)).clock ≡ now)
          × ((run (spawn_accept accept_tls) (if b then l' else l) (silent now n)).accepting ≡ true))
        (sym a) (spawn_silent n now l' refl (omega (arith, h)))

  -- the last connection, taken at this time
  abbrev pub IsLastAt : ℕ → Loop Stream → Type 0
  IsLastAt time l =
      (before : List (Task Stream)) × ((task : Task Stream) × ((l.tasks ≡ before ++ (task ∷ []))
          × (task.accepted_at ≡ time)))

  after_accept_noted :
      (f : Future (Result (Option Stream) (Unit {0}))) (now : ℕ) (l : Loop Stream)
      → IsLastAt now (after_accept accept_tls now l f)
  after_accept_noted (ready t r) now l = (l.tasks, (_, (refl, refl)))
  after_accept_noted never now l = (l.tasks, (_, (refl, refl)))

  last_pass :
      (handle : ℕ → Client → Loop Stream → Loop Stream) (c : Client) (now time : ℕ)
      (ps : List (Pick Client))
      → ((at : ℕ) (l : Loop Stream) → IsLastAt at (handle at c l))
      → (run handle (start now) ps).accepting ≡ true
      → (run handle (start now) ps).clock ≡ time
      → now ≤ time
      → IsLastAt time (run handle (start now) (ps ++ (accepted now c ∷ [])))
  unfolding run
  last_pass handle c now time ps noted going clock later =
      let l = run handle (start now) ps in
      let at_time : max l.clock now ≡ time = omega (arith, clock, later) in
      let passed =
        subst (λ k. IsLastAt k (handle (max l.clock now) c l)) at_time
          (noted (max l.clock now) l) in
      let taken : IsLastAt time (run handle l (accepted now c ∷ [])) =
        subst (λ b. IsLastAt time (if b then handle (max l.clock now) c l else l)) (sym going)
          passed in
      subst (IsLastAt time) (sym (run-append handle (start now) ps (accepted now c ∷ []))) taken

  -- Behind connections that send nothing, the HTTPS listener takes the next one ten seconds later for
  -- each of them, where all are there at the start, and the TCP and TLS listener takes it at once.
  pub listen_https-stalls :
      (n now : ℕ) (c : Client)
      → IsLastAt
          (now + n * tls_handshake_timeout)
          (listen_https accept_tls now (silent now n ++ (accepted now c ∷ [])))
        × IsLastAt now (listen_tcp_and_tls accept_tls now (silent now n ++ (accepted now c ∷ [])))
  unfolding listen_https listen_tcp_and_tls
  listen_https-stalls n now c =
      let (clock, going) = await_silent n now (start now) refl (omega arith) in
      let (clock', going') = spawn_silent n now (start now) refl refl in
      (
        last_pass (await_accept accept_tls) c now (now + n * tls_handshake_timeout) (silent now n)
            (λ at l. after_accept_noted (accept_tls c) at l) going clock (omega arith),
        last_pass (spawn_accept accept_tls) c now now (silent now n)
            (λ at l. (l.tasks, (_, (refl, refl)))) going' clock' (omega arith),
      )
