-- ===== src/RateLimiter/Tests.antt =====
-- The limiter's theorems at concrete states, and runs of it.
use pingoo.Prelude.{
  ℕ, ◌≤◌, ◌≡◌, refl, true, ok, err, List, [], ◌∷◌, count, get, insert, arith, inl, inr, false,
}
use pingoo.Net.{IpAddr, ip_eq, ipv4}
use pingoo.RateLimiter.{
  get_approx, RateLimiter, Probe, new, rotate, can_resume, run_worker, hit, decide, from_secs,
}
use pingoo.RateLimiter.Bounds.{IsValid, can_resume-IsValid, new-IsValid}
use pingoo.RateLimiter.Rounds.{answers, new_round, ask, advance, tally}
use pingoo.RateLimiter.Refine.{run_worker-refines}
use pingoo.RateLimiter.Window.{passes, count-run_worker-le}
use pingoo.RateLimiter.Rotation.{estimate, can_resume_after_blue}

-- a map that allocates exactly what it is asked for
abbrev exact : ℕ → ℕ
exact c = c

exact-ge : (c : ℕ) → c ≤ exact c
exact-ge c = omega arith

abbrev one : IpAddr
one = ipv4 1 1 1 1

abbrev two : IpAddr
two = ipv4 2 2 2 2

-- 42 requests of one client in the green window, which began at 100 s; blue is older
abbrev green_state : RateLimiter
green_state = record {
  limit = 50;
  sampling_period = from_secs 60;
  bucket_green = record {
    starts_at = from_secs 100;
    inner = (one, record { sum = 42 }) ∷ [];
    capacity = 1;
  };
  bucket_blue = record { starts_at = from_secs 40; inner = []; capacity = 1 };
}

-- the next window is the blue one, and the client has used up its limit there
abbrev blue_state : RateLimiter
blue_state = record {
  limit = 50;
  sampling_period = from_secs 60;
  bucket_green = record {
    starts_at = from_secs 100;
    inner = (one, record { sum = 42 }) ∷ [];
    capacity = 1;
  };
  bucket_blue = record {
    starts_at = from_secs 160;
    inner = (one, record { sum = 50 }) ∷ [];
    capacity = 1;
  };
}

start-IsValid : IsValid 1 (new exact 50 (from_secs 60) 1 5 0)
start-IsValid = new-IsValid exact-ge 50 (from_secs 60) 5 0 (omega arith)

blue_state-IsValid : IsValid 1 blue_state
unfolding get
blue_state-IsValid = record {
  limit = omega arith;
  green = record { fits = omega arith; room = omega arith; sums = λ ip. ground arith };
  blue = record { fits = omega arith; room = omega arith; sums = λ ip. ground arith };
  order = inr refl;
}

can_resume-IsValid_example :
    IsValid 1 (can_resume exact blue_state two (from_secs 161) (from_secs 161)).0
can_resume-IsValid_example =
    can_resume-IsValid exact-ge blue_state two (from_secs 161) (from_secs 161) blue_state-IsValid

abbrev probe : IpAddr → ℕ → Probe
probe ip t = record { ip = ip; now = from_secs t; later = from_secs t }

abbrev burst : List Probe
burst = probe one 101 ∷ probe two 102 ∷ probe one 110 ∷ []

count-run_worker-le_example : count (passes one) (run_worker exact green_state burst) ≤ 8
unfolding get
count-run_worker-le_example =
    count-run_worker-le exact green_state one burst (omega arith) (omega arith)

burst_answers :
    run_worker exact green_state burst ≡ (one, ok true) ∷ (two, err tt) ∷ (one, ok true) ∷ []
unfolding run_worker can_resume rotate hit decide get insert
burst_answers = refl

-- "42 requests during the entire previous minute", 15 seconds into the next one
abbrev t_15 : ℕ
t_15 = from_secs 175

estimate_32 : estimate (can_resume exact green_state one t_15 t_15).0 one t_15 ≡ 32
unfolding can_resume rotate hit decide get insert
estimate_32 = refl

-- 50 requests were let through in the window that ends at 220 s, and one more is at 220 s
can_resume_after_blue_example :
    (can_resume exact blue_state one (from_secs 220) (from_secs 220)).1 ≡ ok true
can_resume_after_blue_example =
    can_resume_after_blue exact blue_state one (from_secs 220) (from_secs 220) exact-ge
      (omega arith) (omega arith) blue_state-IsValid (omega arith) (omega arith)

-- three requests in the first window, two in the second, and one after the round
abbrev whole_round : List Probe
whole_round =
    probe one 101
    ∷ probe one 110
    ∷ probe two 120
    ∷ probe one 165
    ∷ probe one 166
    ∷ probe one 300
    ∷ []

run_worker-refines_example :
    run_worker exact (new exact 2 (from_secs 60) 2 (from_secs 100) 0) whole_round
    ≡ answers 2 (from_secs 60) (new_round (from_secs 100)) whole_round
run_worker-refines_example =
    run_worker-refines exact 2 (from_secs 60) 2 (from_secs 100) 0 (one ∷ two ∷ []) whole_round
      (λ c. omega arith) (omega arith)
      (inl refl, (inl refl, (inr (inl refl), (inl refl, (inl refl, (inl refl, tt))))))

whole_round-answers :
    answers 2 (from_secs 60) (new_round (from_secs 100)) whole_round
    ≡ (one, ok true)
      ∷ (one, ok true)
      ∷ (two, ok true)
      ∷ (one, ok true)
      ∷ (one, ok false)
      ∷ (one, ok true)
      ∷ []
unfolding answers ask advance tally get_approx
whole_round-answers = refl
