-- ===== src/Listeners/InTime.antt =====
-- The streams of the HTTPS listener of pingoo/listeners/ come to its service in the order in which it
-- accepts their connections.
use pingoo.Prelude.{
  ℕ, ◌+◌, ◌≤◌, List, [], ◌∷◌, ◌++◌, Option, none, some, Bool, true, false, ◌≡◌, sym, ◌∙◌, arith,
  if◌then◌else◌, Result, ok, err, max, Bool-cases, inl, inr, subst,
}
use mathlib.Core.List.{append-nil}
use pingoo.Async.{Future, ready, never}
use pingoo.Listeners.Delivered.{
  arrivals, Ascending, AllBefore, AllBefore-later, AllBefore-append, Ascending-append,
  arrivals-append,
}
use pingoo.Listeners.{
  Pick, accept_failed, accepted, shutdown_signal, Task, Loop, pass, run, await_accept, after_accept,
}

module _ {Connection Stream : Type 0}
    (accept_tls : Connection → Future (Result (Option Stream) (Unit {0}))) where
  -- the streams come in the order of their times, none after the loop's clock
  abbrev pub InTime : Loop Stream → Type 0
  InTime l = Ascending (arrivals l.tasks) × AllBefore l.clock (arrivals l.tasks)

  -- nothing comes of a task without a stream
  InTime-later :
      (l : Loop Stream) (clock at : ℕ) (going : Bool)
      → l.clock ≤ clock
      → InTime l
      → InTime (record {
        clock = clock;
        accepting = going;
        tasks = l.tasks ++ (record { accepted_at = at; served = none } ∷ []);
      })
  InTime-later l clock at going h (up, before) =
      let same : arrivals (l.tasks ++ (record { accepted_at = at; served = none } ∷ []))
          ≡ arrivals l.tasks =
        arrivals-append l.tasks _ ∙ append-nil (arrivals l.tasks) in
      subst (λ xs. Ascending xs × AllBefore clock xs) (sym same)
        (up, AllBefore-later l.clock clock (arrivals l.tasks) h before)

  after_accept-InTime :
      (accept : Future (Result (Option Stream) (Unit {0}))) (now : ℕ) (l : Loop Stream)
      → l.clock ≤ now
      → InTime l
      → InTime (after_accept accept_tls now l accept)
  after_accept-InTime never now l h i = InTime-later l now now false h i
  after_accept-InTime (ready t (err e)) now l h i =
      InTime-later l (now + t) now true (omega arith) i
  after_accept-InTime (ready t (ok none)) now l h i =
      InTime-later l (now + t) now true (omega arith) i
  after_accept-InTime (ready t (ok (some stream))) now l h (up, before) =
      let task : Task Stream = record { accepted_at = now; served = some (now + t, stream) } in
      let earlier = AllBefore-later l.clock (now + t) (arrivals l.tasks) (omega arith) before in
      subst (λ xs. Ascending xs × AllBefore (now + t) xs)
        (sym (arrivals-append l.tasks (task ∷ [])))
        (
          Ascending-append (now + t) (arrivals l.tasks) (now + t, stream) up earlier (omega arith),
          AllBefore-append (now + t) (arrivals l.tasks) (now + t, stream) earlier (omega arith),
        )

  pass-InTime :
      (l : Loop Stream) (p : Pick Connection)
      → InTime l
      → InTime (pass (await_accept accept_tls) l p)
  pass-InTime l (accept_failed at) (up, before) =
      (up, AllBefore-later l.clock (max l.clock at) (arrivals l.tasks) (omega arith) before)
  pass-InTime l (accepted at c) i =
      after_accept-InTime (accept_tls c) (max l.clock at) l (omega arith) i
  pass-InTime l (shutdown_signal at) (up, before) =
      (up, AllBefore-later l.clock (max l.clock at) (arrivals l.tasks) (omega arith) before)

  pub run-InTime :
      (l : Loop Stream) (ps : List (Pick Connection))
      → InTime l
      → InTime (run (await_accept accept_tls) l ps)
  unfolding run
  run-InTime l [] i = i
  run-InTime l (p ∷ ps) i =
      run-InTime (if l.accepting then pass (await_accept accept_tls) l p else l) ps
        (elim (Bool-cases l.accepting) [
          | inl e ↦
              subst (λ b. InTime (if b then pass (await_accept accept_tls) l p else l)) (sym e)
                (pass-InTime l p i)
          | inr e ↦
              subst (λ b. InTime (if b then pass (await_accept accept_tls) l p else l)) (sym e) i
        ])
