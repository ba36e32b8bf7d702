-- ===== src/RateLimiter/Refine.antt =====
-- The two buckets of pingoo/rate_limiter.rs answer as the rounds do, if there is room for the clients.
use pingoo.Prelude.{
  ℕ, ◌+◌, ◌-◌, ◌≤◌, List, [], ◌∷◌, Option, none, some, true, false, ◌≡◌, inl, inr, refl, ap, ◌∙◌,
  arith, length, get, if◌then◌else◌, leb, eqb, In, Bool-cases, ok, All,
}
use pingoo.Net.{IpAddr, ip_eq}
use pingoo.RateLimiter.{
  RateLimiter, hit, new_bucket, new, rotate, decide, can_resume, run_worker, Probe, sum_of, u16_max,
  curr_bucket, prev_bucket, create_prev_window, is_green_bucket_current, get_approx,
}
use pingoo.RateLimiter.Rounds.{
  Counts, zeroes, count_one, Round, new_round, advance, tally, ask, answers,
}
use mathlib.Core.Path.{ap₂}
use native.Mathlib.Nat.{zero-mul, zero-div}
use pingoo.RateLimiter.Room.{Holds, hit-IsCounted}
use pingoo.RateLimiter.Simulates.{Simulates, new_bucket-Holds, rotate-Simulates}

module _ (limit period : ℕ) (clients : List IpAddr) where
  get_approx_zero : (needle p : ℕ) → get_approx 0 needle p ≡ 0
  unfolding get_approx
  get_approx_zero needle p = elim (Bool-cases (leb p needle)) [
    | inl e ↦ rw e
    | inr e ↦ rw e (rw (zero-mul, zero-div))
  ]

  -- one request, counted
  counted :
      (r : RateLimiter) (start later : ℕ) (first : Counts) (second : Option Counts) (ip : IpAddr)
      → Simulates limit period clients r (record { start = start; first = first; second = second })
      → In ip clients
      → ((decide r ip later (hit (curr_bucket r) ip)).1
          ≡ ok
              (tally limit period
                (record { start = start; first = first; second = second })
                ip
                later).1)
        × Simulates limit period clients
            (decide r ip later (hit (curr_bucket r) ip)).0
            (tally limit period
              (record { start = start; first = first; second = second })
              ip
              later).0
  unfolding decide tally
  counted r start later first none ip s i =
      let h = hit-IsCounted clients r.bucket_green first ip s.first_is i in
      let green : is_green_bucket_current r ≡ true = ground arith in
      let prev : sum_of (get (prev_bucket r).inner ip) ≡ 0 = rw green (s.second_is.1.sums ip) in
      let weighted : get_approx (sum_of (get (prev_bucket r).inner ip)) (later - h.after.starts_at)
            r.sampling_period
          ≡ 0 =
        ap (λ n. get_approx n (later - h.after.starts_at) r.sampling_period) prev
        ∙ get_approx_zero (later - h.after.starts_at) r.sampling_period in
      let kept : Simulates limit period clients (record r { bucket_green = h.after })
          (record { start = start; first = count_one first ip; second = none }) =
        record {
          limit_is = s.limit_is;
          period_is = s.period_is;
          start_is = h.start ∙ s.start_is;
          first_is = h.holds;
          second_is = s.second_is;
          room = omega (arith, s.room, h.capacity);
        } in
      rw (green, h.hit_is) (ground (arith, weighted, s.limit_is), rw green kept)
  counted r start later first (some second) ip s i =
      let h = hit-IsCounted clients r.bucket_blue second ip s.second_is.2 i in
      let blue : is_green_bucket_current r ≡ false = ground arith in
      let prev : sum_of (get (prev_bucket r).inner ip) ≡ first ip = rw blue (s.first_is.sums ip) in
      let weighted : get_approx (sum_of (get (prev_bucket r).inner ip)) (later - h.after.starts_at)
            r.sampling_period
          ≡ get_approx (first ip) (later - (start + period)) period =
        ap (λ n. get_approx n (later - h.after.starts_at) r.sampling_period) prev
        ∙ ap (λ n. get_approx (first ip) (later - n) r.sampling_period) (h.start ∙ s.second_is.1)
        ∙ ap (get_approx (first ip) (later - (start + period))) s.period_is in
      let kept : Simulates limit period clients (record r { bucket_blue = h.after })
          (record { start = start; first = first; second = some (count_one second ip) }) =
        record {
          limit_is = s.limit_is;
          period_is = s.period_is;
          start_is = s.start_is;
          first_is = s.first_is;
          second_is = (s.second_is.0, h.start ∙ s.second_is.1, h.holds);
          room = s.room;
        } in
      rw (blue, h.hit_is) (ground (arith, weighted, s.limit_is), rw blue kept)

  module _ (alloc : ℕ → ℕ) (alloc_ge : (c : ℕ) → c ≤ alloc c) where
    asked :
        (r : RateLimiter) (w : Round) (p : Probe)
        → Simulates limit period clients r w
        → In p.ip clients
        → ((can_resume alloc r p.ip p.now p.later).1 ≡ ok (ask limit period w p).1)
          × Simulates limit period clients
              (can_resume alloc r p.ip p.now p.later).0
              (ask limit period w p).0
    unfolding can_resume ask
    asked r w p s i =
        let rotated =
          rotate-Simulates limit period clients alloc alloc_ge r w.start p.now w.first w.second s in
        let w' = advance limit period w p.now in
        let served =
          counted (rotate alloc r p.now) w'.start p.later w'.first w'.second p.ip rotated i in
        elim (Bool-cases (eqb limit 0)) [
          | inl e ↦ rw (ap (λ n. eqb n 0) s.limit_is ∙ e, e) (refl, s)
          | inr e ↦ rw (ap (λ n. eqb n 0) s.limit_is ∙ e, e) served
        ]

    run_worker-answers :
        (r : RateLimiter) (w : Round) (ps : List Probe)
        → Simulates limit period clients r w
        → All (λ (p : Probe). In p.ip clients) ps
        → run_worker alloc r ps ≡ answers limit period w ps
    unfolding run_worker answers
    run_worker-answers r w [] s h = refl
    run_worker-answers r w (p ∷ ps) s h =
        let (answer, next) = asked r w p s h.0 in
        ap₂ ◌∷◌ (ap (λ a. (p.ip, a)) answer) (
          run_worker-answers (can_resume alloc r p.ip p.now p.later).0 (ask limit period w p).0 ps
            next h.1)

-- A limit that is the largest `u16` is one less.
abbrev pub capped : ℕ → ℕ
capped limit = if eqb limit u16_max then limit - 1 else limit

-- Where a map gets at least the capacity that is asked for, a new limiter with room for all clients
-- answers every sequence of their requests as the rounds do, with a limit of the largest `u16` as one
-- less: no client is refused for want of room, a window counts each client's requests up to the
-- largest `u16`, the second window of a round adds its share of the first, and a request after the
-- round begins a new one with nothing counted.
pub run_worker-refines :
    (alloc : ℕ → ℕ) (limit period capacity now elapsed : ℕ) (clients : List IpAddr)
    (ps : List Probe)
    → ((c : ℕ) → c ≤ alloc c)
    → length clients ≤ capacity
    → All (λ (p : Probe). In p.ip clients) ps
    → run_worker alloc (new alloc limit period capacity now elapsed) ps
      ≡ answers (capped limit) period (new_round now) ps
unfolding new
run_worker-refines alloc limit period capacity now elapsed clients ps alloc_ge fits known =
    let cap = capped limit in
    let empty : (t : ℕ) → Holds clients (new_bucket alloc t capacity) zeroes =
      λ t. new_bucket-Holds cap period clients alloc alloc_ge t capacity fits in
    run_worker-answers cap period clients alloc alloc_ge
      (new alloc limit period capacity now elapsed) (new_round now) ps
      (record {
        limit_is = refl;
        period_is = refl;
        start_is = unfold new_bucket in refl;
        first_is = empty now;
        second_is = (
          unfold new_bucket in unfold create_prev_window in ground arith,
          empty (create_prev_window now elapsed period),
        );
        room = unfold new_bucket in omega (arith, fits, alloc_ge capacity);
      })
      known
