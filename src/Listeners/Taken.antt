-- ===== src/Listeners/Taken.antt =====
-- Which connections the accept loops of pingoo/listeners/ take, and when.
use pingoo.Prelude.{
  ℕ, suc, ◌+◌, ◌*◌, ◌≤◌, List, [], ◌∷◌, ◌++◌, Option, none, some, ok, err, true, ◌≡◌, refl, sym, ap,
  ◌∙◌, subst, arith, if◌then◌else◌, Result, max,
}
use native.Mathlib.Nat.{suc-mul}
use mathlib.Core.List.{append-nil, append_assoc}
use pingoo.Async.{Future, ready, never}
use pingoo.Listeners.{
  Pick, accept_failed, accepted, shutdown_signal, Task, Loop, start, pass, run, stream_of,
}
use pingoo.Listeners.Served.{run_stopped}

-- The service gets the accept's stream when the accept that began at `now` has ended, or nothing.
abbrev pub Gives :
    {Stream : Type 0}
    → ℕ
    → Future (Result (Option Stream) (Unit {0}))
    → Option (ℕ × Stream)
    → Type 0
Gives now (ready t (ok (some stream))) served = served ≡ some (now + t, stream)
Gives now (ready t (ok none)) served = served ≡ none
Gives now (ready t (err e)) served = served ≡ none
Gives now never served = served ≡ none

module _ {Connection Stream : Type 0}
    (accept_tls : Connection → Future (Result (Option Stream) (Unit {0}))) (bound : ℕ) where
  stream_of-Gives :
      (now : ℕ) (f : Future (Result (Option Stream) (Unit {0})))
      → Gives now f (stream_of accept_tls now f)
  stream_of-Gives now (ready t (ok (some stream))) = refl
  stream_of-Gives now (ready t (ok none)) = refl
  stream_of-Gives now (ready t (err e)) = refl
  stream_of-Gives now never = refl

  -- Each connection up to the shutdown is taken, in order, by one task, and no other one is: not before
  -- it is there, and at most `bound` for each of the `n` connections before it after the latest event up
  -- to it, `now` at least. The service gets the stream of the connection's accept, begun at that time.
  abbrev pub AllTaken : ℕ → ℕ → List (Pick Connection) → List (Task Stream) → Type 0
  AllTaken now n [] tasks = tasks ≡ []
  AllTaken now n (accept_failed at ∷ ps) tasks = AllTaken (max now at) n ps tasks
  AllTaken now n (accepted at c ∷ ps) [] = ⊥
  AllTaken now n (accepted at c ∷ ps) (task ∷ tasks) =
      (at ≤ task.accepted_at)
      × (task.accepted_at ≤ max now at + n * bound)
      × Gives task.accepted_at (accept_tls c) task.served
      × AllTaken (max now at) (suc n) ps tasks
  AllTaken now n (shutdown_signal at ∷ ps) tasks = tasks ≡ []

  -- A loop that comes back from a connection after the bound at most and goes on, with a task for it.
  pub record Returns (handle : ℕ → Connection → Loop Stream → Loop Stream) (c : Connection)
      (now : ℕ) (l : Loop Stream) : Type 0 where
    pub going : (handle now c l).accepting ≡ true
    pub early : now ≤ (handle now c l).clock
    pub late : (handle now c l).clock ≤ now + bound
    pub task : Task Stream
    pub noted : (handle now c l).tasks ≡ l.tasks ++ (task ∷ [])
    pub at_now : task.accepted_at ≡ now
    pub served : task.served ≡ stream_of accept_tls now (accept_tls c)

  module _ (handle : ℕ → Connection → Loop Stream → Loop Stream) where
    abbrev pub AllReturn : List (Pick Connection) → Type 0
    AllReturn [] = Unit
    AllReturn (accept_failed at ∷ ps) = AllReturn ps
    AllReturn (accepted at c ∷ ps) =
        ((now : ℕ) (l : Loop Stream) → Returns handle c now l) × AllReturn ps
    AllReturn (shutdown_signal at ∷ ps) = AllReturn ps

    -- the tasks that a run adds
    abbrev Adds : ℕ → ℕ → Loop Stream → List (Pick Connection) → Loop Stream → Type 0
    Adds now n l ps end =
        (rest : List (Task Stream)) × ((end.tasks ≡ l.tasks ++ rest) × AllTaken now n ps rest)

    pub run-AllTaken :
        (now n : ℕ) (l : Loop Stream) (ps : List (Pick Connection))
        → AllReturn ps
        → l.accepting ≡ true
        → now ≤ l.clock
        → l.clock ≤ now + n * bound
        → Adds now n l ps (run handle l ps)
    unfolding run
    run-AllTaken now n l [] r a early late = ([], (sym (append-nil l.tasks), refl))
    run-AllTaken now n l (accept_failed at ∷ ps) r a early late =
        let l' = pass handle l (accept_failed at) in
        let (rest, (eq, taken)) =
          run-AllTaken (max now at) n l' ps r a (omega arith) (omega arith) in
        subst (λ b. Adds now n l (accept_failed at ∷ ps) (run handle (if b then l' else l) ps))
          (sym a) (rest, (eq, taken))
    run-AllTaken now n l (accepted at c ∷ ps) r a early late =
        let now' = max l.clock at in
        let l' = handle now' c l in
        let here = r.0 now' l in
        let count : suc n * bound ≡ n * bound + bound = suc-mul n bound in
        let (rest, (eq, taken)) =
          run-AllTaken (max now at) (suc n) l' ps r.1 here.going (omega (arith, here.early))
            (omega (arith, here.late, count)) in
        subst (λ b. Adds now n l (accepted at c ∷ ps) (run handle (if b then l' else l) ps)) (sym a)
          (
            here.task ∷ rest,
            (
              eq ∙ ap (λ ts. ts ++ rest) here.noted ∙ append_assoc l.tasks (here.task ∷ []) rest,
              (
                omega (arith, here.at_now),
                omega (arith, here.at_now),
                subst (λ time. Gives time (accept_tls c) here.task.served) (sym here.at_now)
                    (subst (Gives now' (accept_tls c)) (sym here.served)
                      (stream_of-Gives now' (accept_tls c))),
                taken,
              ),
            ),
          )
    run-AllTaken now n l (shutdown_signal at ∷ ps) r a early late =
        let stopped = pass handle l (shutdown_signal at) in
        subst
          (λ b. Adds now n l (shutdown_signal at ∷ ps) (run handle (if b then stopped else l) ps))
          (sym a)
          (
            [],
            (
              ap (λ (m : Loop Stream). m.tasks) (run_stopped handle stopped ps refl)
                  ∙ sym (append-nil l.tasks),
              refl,
            ),
          )

    pub start-AllTaken :
        (now : ℕ) (ps : List (Pick Connection))
        → AllReturn ps
        → AllTaken now 0 ps (run handle (start now) ps).tasks
    start-AllTaken now ps r =
        let (rest, (eq, taken)) =
          run-AllTaken now 0 (start now) ps r refl (omega arith) (omega arith) in
        subst (AllTaken now 0 ps) (sym eq) taken
