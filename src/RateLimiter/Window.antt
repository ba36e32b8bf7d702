-- ===== src/RateLimiter/Window.antt =====
-- Within one window a client gets at most `limit` requests through.
use pingoo.Prelude.{
  ℕ, ◌+◌, ◌-◌, ◌≤◌, ◌<◌, ◌≡◌, ◌≢◌, Option, some, none, get, arith, ◌==◌, ==_refl, ==_ne, ==_sound,
  ==_false, Bool-cases, Bool, false, ◌&&◌, eqb, ok, err, refl, List, [], ◌∷◌, if◌then◌else◌, count,
  All, inl, inr,
}
use pingoo.Net.{IpAddr, ip_eq}
use pingoo.RateLimiter.{
  RateLimiterBucket, RateLimiter, hit, rotate, decide, can_resume, sum_of, u16_max, Answer, Probe,
  run_worker, curr_bucket, set_curr_bucket,
}
use pingoo.RateLimiter.Bounds.{hit_start, hit_self, hit_other}

abbrev pub curr_sum : RateLimiter → IpAddr → ℕ
curr_sum r ip = sum_of (get (curr_bucket r).inner ip)

-- what the client may still send in the current window
abbrev pub budget : RateLimiter → IpAddr → ℕ
budget r ip = r.limit - curr_sum r ip

abbrev pub is_pass : Answer → Bool
is_pass (ok b) = b
is_pass (err _) = false

abbrev pub passes : IpAddr → IpAddr × Answer → Bool
passes ip (j, a) = j == ip && is_pass a

abbrev pub cost : IpAddr → IpAddr → Answer → ℕ
cost ip j a = if passes ip (j, a) then 1 else 0

-- The current window is not over at this time.
abbrev pub InWindow : RateLimiter → ℕ → Type 0
InWindow r now = now < (curr_bucket r).starts_at + r.sampling_period

curr_bucket-set_curr_bucket :
    (r : RateLimiter) (b : RateLimiterBucket)
    → b.starts_at ≡ (curr_bucket r).starts_at
    → curr_bucket (set_curr_bucket r b) ≡ b
curr_bucket-set_curr_bucket r b e = ground arith

pub record SameWindow (r s : RateLimiter) : Type 0 where
  pub limit : s.limit ≡ r.limit
  pub period : s.sampling_period ≡ r.sampling_period
  pub start : (curr_bucket s).starts_at ≡ (curr_bucket r).starts_at

set_curr_bucket-SameWindow :
    (r : RateLimiter) (b : RateLimiterBucket)
    → b.starts_at ≡ (curr_bucket r).starts_at
    → SameWindow r (set_curr_bucket r b)
set_curr_bucket-SameWindow r b e = ground arith

-- one counted request costs the client what it lets through
module _ (r : RateLimiter) (ip : IpAddr) (later : ℕ) (b : RateLimiterBucket) (n : ℕ)
    (small : r.limit < u16_max) where
  budget-decide_self :
      hit (curr_bucket r) ip ≡ some (b, n)
      → cost ip ip (decide r ip later (some (b, n))).1 + (r.limit - sum_of (get b.inner ip))
        ≤ budget r ip
  unfolding decide
  budget-decide_self e = ground (arith, ==_refl ip, hit_self (curr_bucket r) b ip ip e)

  budget-decide_other :
      (j : IpAddr)
      → j ≢ ip
      → hit (curr_bucket r) j ≡ some (b, n)
      → cost ip j (decide r j later (some (b, n))).1 + (r.limit - sum_of (get b.inner ip))
        ≤ budget r ip
  unfolding decide
  budget-decide_other j d e = ground (arith, ==_ne j ip d, hit_other (curr_bucket r) b j ip e d)

  budget-decide :
      (j : IpAddr)
      → hit (curr_bucket r) j ≡ some (b, n)
      → cost ip j (decide r j later (some (b, n))).1 + (r.limit - sum_of (get b.inner ip))
        ≤ budget r ip
  budget-decide j e = elim (Bool-cases (j == ip)) [
    | inl same ↦ let q = ==_sound j ip same in rw q (budget-decide_self (rw q at e))
    | inr other ↦ budget-decide_other j (==_false j ip other) e
  ]

module _ (r : RateLimiter) (ip j : IpAddr) (later : ℕ) (small : r.limit < u16_max) where
  decide_step :
      (o : Option (RateLimiterBucket × ℕ))
      → hit (curr_bucket r) j ≡ o
      → SameWindow r (decide r j later o).0
        × (cost ip j (decide r j later o).1 + budget (decide r j later o).0 ip ≤ budget r ip)
  unfolding decide
  decide_step none e = (record { limit = refl; period = refl; start = refl }, ground arith)
  decide_step (some (b, n)) e =
      let st = hit_start (curr_bucket r) b j j e in
      let same = set_curr_bucket-SameWindow r b st in
      (
        same,
        rw (curr_bucket-set_curr_bucket r b st, same.limit)
            (budget-decide r ip later b n small j e),
      )

InWindow-SameWindow :
    (r s : RateLimiter)
    → SameWindow r s
    → (ps : List Probe) → All (λ p. InWindow r p.now) ps
    → All (λ p. InWindow s p.now) ps
InWindow-SameWindow r s e [] h = tt
InWindow-SameWindow r s e (p ∷ ps) (h, hs) =
    (omega (arith, e.start, e.period), InWindow-SameWindow r s e ps hs)

module _ (alloc : ℕ → ℕ) where
  rotate-InWindow : (r : RateLimiter) (now : ℕ) → InWindow r now → rotate alloc r now ≡ r
  unfolding rotate
  rotate-InWindow r now h = ground arith

  -- One request in the window keeps the window and spends what it lets through.
  can_resume_step :
      (r : RateLimiter) (ip j : IpAddr) (now later : ℕ)
      → r.limit < u16_max
      → InWindow r now
      → SameWindow r (can_resume alloc r j now later).0
        × (cost ip j (can_resume alloc r j now later).1
              + budget (can_resume alloc r j now later).0 ip
            ≤ budget r ip)
  unfolding can_resume
  can_resume_step r ip j now later small h = elim (Bool-cases (eqb r.limit 0)) [
    | inl z ↦ rw z (record { limit = refl; period = refl; start = refl }, ground arith)
    | inr z ↦
        rw z (
          rw (rotate-InWindow r now h)
            (decide_step r ip j later small (hit (curr_bucket r) j) refl))
  ]

  -- In a window that no probe outlasts, a client gets at most the limit through, less what it was
  -- already counted for in the window: whatever the other clients send, whatever the previous
  -- window held, and whatever is refused.
  pub count-run_worker-le :
      (r : RateLimiter) (ip : IpAddr) (probes : List Probe)
      → r.limit < u16_max
      → All (λ p. InWindow r p.now) probes
      → count (passes ip) (run_worker alloc r probes) ≤ r.limit - curr_sum r ip
  unfolding run_worker
  count-run_worker-le r ip [] small h = omega arith
  count-run_worker-le r ip (p ∷ ps) small (h, hs) =
      let r' = (can_resume alloc r p.ip p.now p.later).0 in
      let (same, spend) = can_resume_step r ip p.ip p.now p.later small h in
      let rest =
        count-run_worker-le r' ip ps (rw same.limit small) (InWindow-SameWindow r r' same ps hs) in
      ground arith
