-- ===== src/Listeners/Served.antt =====
-- The streams that the services get from the accept loops of pingoo/listeners/.
use pingoo.Prelude.{
  ℕ, List, [], ◌∷◌, ◌++◌, Option, none, some, true, false, ◌≡◌, refl, sym, ap, ◌∙◌, arith,
  if◌then◌else◌, Result, ok, err, ◌≢◌, max, subst,
}
use mathlib.Core.List.{append-nil, append_assoc, Perm}
use pingoo.Async.{Future, ready, never}
use pingoo.Listeners.Delivered.{
  arrivals, streams, streams_of, delivered, delivered-Perm, by_time-Ascending,
}
use pingoo.Listeners.InTime.{run-InTime}
use pingoo.Listeners.{
  Pick, accept_failed, accepted, shutdown_signal, Task, Loop, start, pass, run, stream_of,
  spawn_accept, await_accept, after_accept, listen_tcp_and_tls, listen_https,
}

streams_of-append :
    {Stream : Type 0} (xs ys : List (Task Stream))
    → streams_of (xs ++ ys) ≡ streams_of xs ++ streams_of ys
streams_of-append [] ys = refl
streams_of-append (x ∷ xs) ys = ground (arith, streams_of-append xs ys)

module _ {Connection Stream : Type 0} (handle : ℕ → Connection → Loop Stream → Loop Stream) where
  pub run_stopped :
      (l : Loop Stream) (ps : List (Pick Connection)) → l.accepting ≡ false → run handle l ps ≡ l
  unfolding run
  run_stopped l [] h = refl
  run_stopped l (p ∷ ps) h =
      ap (λ b. run handle (if b then pass handle l p else l) ps) h ∙ run_stopped l ps h

module _ {Connection Stream : Type 0}
    (accept_tls : Connection → Future (Result (Option Stream) (Unit {0}))) where
  abbrev pub accepted_stream : Future (Result (Option Stream) (Unit {0})) → List Stream
  accepted_stream (ready t (ok (some stream))) = stream ∷ []
  accepted_stream (ready t (ok none)) = []
  accepted_stream (ready t (err e)) = []
  accepted_stream never = []

  -- The streams of the connections before the shutdown, whatever the time.
  abbrev pub served : List (Pick Connection) → List Stream
  served [] = []
  served (accept_failed at ∷ ps) = served ps
  served (accepted at c ∷ ps) = accepted_stream (accept_tls c) ++ served ps
  served (shutdown_signal at ∷ ps) = []

  -- What a loop needs of the handling of a connection to serve its stream and go on.
  abbrev Handles : (ℕ → Connection → Loop Stream → Loop Stream) → Connection → Type 0
  Handles handle c =
      (now : ℕ) (l : Loop Stream)
      → ((handle now c l).accepting ≡ true)
        × (streams_of (handle now c l).tasks ≡ streams_of l.tasks ++ accepted_stream (accept_tls c))

  abbrev AllHandled : (ℕ → Connection → Loop Stream → Loop Stream) → List (Pick Connection) → Type 0
  AllHandled handle [] = Unit
  AllHandled handle (accept_failed at ∷ ps) = AllHandled handle ps
  AllHandled handle (accepted at c ∷ ps) = Handles handle c × AllHandled handle ps
  AllHandled handle (shutdown_signal at ∷ ps) = AllHandled handle ps

  module _ (handle : ℕ → Connection → Loop Stream → Loop Stream) where
    streams_of-run :
        (l : Loop Stream) (ps : List (Pick Connection))
        → l.accepting ≡ true
        → AllHandled handle ps
        → streams_of (run handle l ps).tasks ≡ streams_of l.tasks ++ served ps
    unfolding run
    streams_of-run l [] a h = sym (append-nil (streams_of l.tasks))
    streams_of-run l (accept_failed at ∷ ps) a h =
        ap
          (λ b.
            streams_of (run handle (if b then pass handle l (accept_failed at) else l) ps).tasks)
          a
        ∙ streams_of-run (pass handle l (accept_failed at)) ps a h
    streams_of-run l (accepted at c ∷ ps) a h =
        let (going, here) = h.0 (max l.clock at) l in
        ap (λ b. streams_of (run handle (if b then pass handle l (accepted at c) else l) ps).tasks)
          a
        ∙ streams_of-run (pass handle l (accepted at c)) ps going h.1
        ∙ ap (λ xs. xs ++ served ps) here
        ∙ append_assoc (streams_of l.tasks) (accepted_stream (accept_tls c)) (served ps)
    streams_of-run l (shutdown_signal at ∷ ps) a h =
        let stopped = pass handle l (shutdown_signal at) in
        ap (λ b. streams_of (run handle (if b then stopped else l) ps).tasks) a
        ∙ ap (λ (m : Loop Stream). streams_of m.tasks) (run_stopped handle stopped ps refl)
        ∙ sym (append-nil (streams_of l.tasks))

  -- No accept waits for ever.
  abbrev pub AllEnd : List (Pick Connection) → Type 0
  AllEnd [] = Unit
  AllEnd (accept_failed at ∷ ps) = AllEnd ps
  AllEnd (accepted at c ∷ ps) = (accept_tls c ≢ never) × AllEnd ps
  AllEnd (shutdown_signal at ∷ ps) = AllEnd ps

  one_stream :
      (accept : Future (Result (Option Stream) (Unit {0}))) (now : ℕ)
      → streams_of (record { accepted_at = now; served = stream_of accept_tls now accept } ∷ [])
        ≡ accepted_stream accept
  one_stream (ready t (ok (some stream))) now = refl
  one_stream (ready t (ok none)) now = refl
  one_stream (ready t (err e)) now = refl
  one_stream never now = refl

  spawn_accept-Handles : (c : Connection) → Handles (spawn_accept accept_tls) c
  spawn_accept-Handles c now l = (
    refl,
    streams_of-append l.tasks _
        ∙ ap (λ xs. streams_of l.tasks ++ xs) (one_stream (accept_tls c) now),
  )

  after_accept-Handles :
      (accept : Future (Result (Option Stream) (Unit {0}))) (now : ℕ) (l : Loop Stream)
      → accept ≢ never
      → ((after_accept accept_tls now l accept).accepting ≡ true)
        × (streams_of (after_accept accept_tls now l accept).tasks
            ≡ streams_of l.tasks ++ accepted_stream accept)
  after_accept-Handles never now l h = absurd (h refl)
  after_accept-Handles (ready t r) now l h = (
    refl,
    streams_of-append l.tasks _ ∙ ap (λ xs. streams_of l.tasks ++ xs) (one_stream (ready t r) now),
  )

  AllHandled-spawn : (ps : List (Pick Connection)) → AllHandled (spawn_accept accept_tls) ps
  AllHandled-spawn [] = tt
  AllHandled-spawn (accept_failed at ∷ ps) = AllHandled-spawn ps
  AllHandled-spawn (accepted at c ∷ ps) = (spawn_accept-Handles c, AllHandled-spawn ps)
  AllHandled-spawn (shutdown_signal at ∷ ps) = AllHandled-spawn ps

  AllHandled-await :
      (ps : List (Pick Connection)) → AllEnd ps → AllHandled (await_accept accept_tls) ps
  AllHandled-await [] h = tt
  AllHandled-await (accept_failed at ∷ ps) h = AllHandled-await ps h
  AllHandled-await (accepted at c ∷ ps) h =
      (λ now l. after_accept-Handles (accept_tls c) now l h.0, AllHandled-await ps h.1)
  AllHandled-await (shutdown_signal at ∷ ps) h = AllHandled-await ps h

  -- Whenever they start and whatever comes to each, the TCP and TLS listener and the HTTPS listener, the
  -- latter where no accept waits for ever, hand their services the streams of the accepts that give
  -- one, each once, of the connections up to the shutdown, and no other ones: the TCP and TLS listener
  -- in any order, the one in which the accepts end, the HTTPS listener in the order of the connections.
  pub listeners-refine-served :
      (now now' : ℕ) (ps ps' : List (Pick Connection))
      → AllEnd ps'
      → Perm (delivered (listen_tcp_and_tls accept_tls now ps).tasks) (served ps)
        × (delivered (listen_https accept_tls now' ps').tasks ≡ served ps')
  unfolding listen_tcp_and_tls listen_https
  listeners-refine-served now now' ps ps' h =
      let tcp = run (spawn_accept accept_tls) (start now) ps in
      let https = run (await_accept accept_tls) (start now') ps' in
      (
        subst (Perm (delivered tcp.tasks))
            (streams_of-run (spawn_accept accept_tls) (start now) ps refl (AllHandled-spawn ps))
            (delivered-Perm tcp.tasks),
        ap (λ xs. streams xs)
              (by_time-Ascending (arrivals https.tasks)
                (run-InTime accept_tls (start now') ps' (tt, tt)).0)
            ∙ streams_of-run (await_accept accept_tls) (start now') ps' refl
                (AllHandled-await ps' h),
      )
