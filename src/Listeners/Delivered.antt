-- ===== src/Listeners/Delivered.antt =====
-- The streams in the order in which the services get them: the tasks of pingoo/listeners/ run at the
-- same time, so this is the order of the times at which the handshakes end.
use pingoo.Prelude.{
  ℕ, ◌≤◌, List, [], ◌∷◌, ◌++◌, map, none, some, Bool-cases, if◌then◌else◌, leb, ◌≡◌, refl, ap, ◌∙◌,
  arith, All, inl, inr,
}
use mathlib.Core.List.{Perm}
use mathlib.Core.List.Perm
use pingoo.Listeners.{Task}

module _ {Stream : Type 0} where
  -- the streams that the tasks have for a service, with their times, in the order of the tasks
  abbrev pub arrivals : List (Task Stream) → List (ℕ × Stream)
  arrivals [] = []
  arrivals (task ∷ tasks) = elim task.served [ none ↦ arrivals tasks | some x ↦ x ∷ arrivals tasks ]

  unfoldable pub in_place : ℕ × Stream → List (ℕ × Stream) → List (ℕ × Stream)
  in_place x [] = x ∷ []
  in_place x (y ∷ ys) = let rest = in_place x ys in if leb x.0 y.0 then x ∷ y ∷ ys else y ∷ rest

  unfoldable pub by_time : List (ℕ × Stream) → List (ℕ × Stream)
  unfolding in_place
  by_time [] = []
  by_time (x ∷ xs) = in_place x (by_time xs)

  abbrev pub streams : List (ℕ × Stream) → List Stream
  streams xs = map (λ (x : ℕ × Stream). x.1) xs

  -- in the order of the tasks
  abbrev pub streams_of : List (Task Stream) → List Stream
  streams_of tasks = streams (arrivals tasks)

  -- in the order of the times
  abbrev pub delivered : List (Task Stream) → List Stream
  delivered tasks = streams (by_time (arrivals tasks))

  in_place-Perm :
      (x : ℕ × Stream) (ys : List (ℕ × Stream)) → Perm (streams (in_place x ys)) (x.1 ∷ streams ys)
  unfolding in_place
  in_place-Perm x [] = Perm.refl (x.1 ∷ [])
  in_place-Perm x (y ∷ ys) = elim (Bool-cases (leb x.0 y.0)) [
    | inl e ↦ rw e (Perm.refl (x.1 ∷ y.1 ∷ streams ys))
    | inr e ↦
        rw e (Perm.trans (Perm.cons y.1 (in_place-Perm x ys)) (Perm.swap x.1 y.1 (streams ys)))
  ]

  by_time-Perm : (xs : List (ℕ × Stream)) → Perm (streams (by_time xs)) (streams xs)
  unfolding by_time
  by_time-Perm [] = Perm.refl []
  by_time-Perm (x ∷ xs) =
      Perm.trans (in_place-Perm x (by_time xs)) (Perm.cons x.1 (by_time-Perm xs))

  pub delivered-Perm : (tasks : List (Task Stream)) → Perm (delivered tasks) (streams_of tasks)
  delivered-Perm tasks = by_time-Perm (arrivals tasks)

  -- The times do not go back.
  abbrev pub Ascending : List (ℕ × Stream) → Type 0
  Ascending [] = Unit
  Ascending (x ∷ xs) = All (λ (y : ℕ × Stream). x.0 ≤ y.0) xs × Ascending xs

  pub by_time-Ascending : (xs : List (ℕ × Stream)) → Ascending xs → by_time xs ≡ xs
  unfolding by_time in_place
  by_time-Ascending [] h = refl
  by_time-Ascending (x ∷ []) h = refl
  by_time-Ascending (x ∷ y ∷ ys) (here, rest) =
      ap (in_place x) (by_time-Ascending (y ∷ ys) rest) ∙ ground (arith, here.0)

  -- The times are at most `m`.
  abbrev pub AllBefore : ℕ → List (ℕ × Stream) → Type 0
  AllBefore m xs = All (λ (x : ℕ × Stream). x.0 ≤ m) xs

  pub AllBefore-later : (m k : ℕ) (xs : List (ℕ × Stream)) → m ≤ k → AllBefore m xs → AllBefore k xs
  AllBefore-later m k [] h b = tt
  AllBefore-later m k (x ∷ xs) h b = (omega (arith, b.0), AllBefore-later m k xs h b.1)

  pub AllBefore-append :
      (m : ℕ) (xs : List (ℕ × Stream)) (y : ℕ × Stream)
      → AllBefore m xs
      → y.0 ≤ m
      → AllBefore m (xs ++ (y ∷ []))
  AllBefore-append m [] y b h = (h, tt)
  AllBefore-append m (x ∷ xs) y b h = (b.0, AllBefore-append m xs y b.1 h)

  All_from-append :
      (t : ℕ) (xs : List (ℕ × Stream)) (y : ℕ × Stream)
      → All (λ (x : ℕ × Stream). t ≤ x.0) xs
      → t ≤ y.0
      → All (λ (x : ℕ × Stream). t ≤ x.0) (xs ++ (y ∷ []))
  All_from-append t [] y b h = (h, tt)
  All_from-append t (x ∷ xs) y b h = (b.0, All_from-append t xs y b.1 h)

  pub Ascending-append :
      (m : ℕ) (xs : List (ℕ × Stream)) (y : ℕ × Stream)
      → Ascending xs
      → AllBefore m xs
      → m ≤ y.0
      → Ascending (xs ++ (y ∷ []))
  Ascending-append m [] y a b h = (tt, tt)
  Ascending-append m (x ∷ xs) y a b h =
      (All_from-append x.0 xs y a.0 (omega (arith, b.0)), Ascending-append m xs y a.1 b.1 h)

  pub arrivals-append :
      (xs ys : List (Task Stream)) → arrivals (xs ++ ys) ≡ arrivals xs ++ arrivals ys
  arrivals-append [] ys = refl
  arrivals-append (x ∷ xs) ys = ground (arith, arrivals-append xs ys)
