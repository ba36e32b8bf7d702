-- ===== src/RateLimiter/Rotation.antt =====
-- How `can_resume` of pingoo/rate_limiter.rs starts new windows, and who is refused.
use pingoo.Prelude.{
  ℕ, ◌+◌, ◌-◌, ◌*◌, ◌≤◌, ◌<◌, ◌≡◌, ◌≢◌, ◌↔◌, length, get, arith, Bool-cases, true, leb, eqb, Option,
  some, none, Option-cases, Bool, ok, err, inl, inr,
}
use pingoo.Net.{IpAddr, ip_eq}
use pingoo.RateLimiter.{
  RateLimiterBucket, RateLimiter, hit, rotate, decide, increment, can_resume, sum_of, get_approx,
  curr_bucket, prev_bucket,
}
use pingoo.RateLimiter.Bounds.{IsValid, hit_self, hit_start}
use pingoo.RateLimiter.Window.{curr_sum}

abbrev pub prev_sum : RateLimiter → IpAddr → ℕ
prev_sum r ip = sum_of (get (prev_bucket r).inner ip)

-- The green window is current, and blue is not yet in use or holds an older window.
abbrev pub GreenIsCurrent : RateLimiter → Type 0
GreenIsCurrent r = r.bucket_blue.starts_at ≤ r.bucket_green.starts_at

decide-eq-err_iff :
    (r : RateLimiter) (ip : IpAddr) (later : ℕ) (o : Option (RateLimiterBucket × ℕ))
    → ((decide r ip later o).1 ≡ err tt) ↔ (o ≡ none)
unfolding decide
decide-eq-err_iff r ip later none = ground arith
decide-eq-err_iff r ip later (some (b, n)) = ground arith

hit-eq-none_iff :
    (b : RateLimiterBucket) (ip : IpAddr)
    → (hit b ip ≡ none) ↔ ((get b.inner ip ≡ none) × (b.capacity ≡ length b.inner))
unfolding hit
hit-eq-none_iff b ip = elim (Option-cases (get b.inner ip)) [
  | inl e ↦ ground arith
  | inr (c, e) ↦ ground arith
]

abbrev pub estimate : RateLimiter → IpAddr → ℕ → ℕ
estimate r ip later =
    get_approx (prev_sum r ip) (later - (curr_bucket r).starts_at) r.sampling_period + curr_sum r ip

decide-eq-estimate :
    (r : RateLimiter) (ip : IpAddr) (later limit : ℕ) {b : Bool}
    → r.limit ≡ limit
    → (decide r ip later (hit (curr_bucket r) ip)).1 ≡ ok b
    → b ≡ leb (estimate (decide r ip later (hit (curr_bucket r) ip)).0 ip later) limit
unfolding decide
decide-eq-estimate r ip later limit l h = elim (Option-cases (hit (curr_bucket r) ip)) [
  | inl e ↦ ground arith
  | inr ((b', n), e) ↦
      ground (arith, hit_self (curr_bucket r) b' ip ip e, hit_start (curr_bucket r) b' ip ip e)
]

module _ (alloc : ℕ → ℕ) where
  -- After the green window the counts of it become those of the previous window, as meant.
  pub rotate_green :
      (r : RateLimiter) (now : ℕ) (ip : IpAddr)
      → GreenIsCurrent r
      → 0 < r.sampling_period
      → r.bucket_green.starts_at + r.sampling_period ≤ now
      → now < r.bucket_green.starts_at + 2 * r.sampling_period
      → (prev_sum (rotate alloc r now) ip ≡ curr_sum r ip)
        × (curr_sum (rotate alloc r now) ip ≡ 0)
        × ((curr_bucket (rotate alloc r now)).starts_at
            ≡ (curr_bucket r).starts_at + r.sampling_period)
  unfolding rotate get
  rotate_green r now ip g p a b = ground arith

  -- After the blue window every count is dropped, also those of the window that just ended, however
  -- short ago that was: the client starts afresh with an empty previous window.
  pub rotate_blue_forgets :
      {conf : ℕ} (r : RateLimiter) (now : ℕ) (ip : IpAddr)
      → IsValid conf r
      → ¬ (GreenIsCurrent r)
      → (curr_bucket r).starts_at + r.sampling_period ≤ now
      → (prev_sum (rotate alloc r now) ip ≡ 0)
        × (curr_sum (rotate alloc r now) ip ≡ 0)
        × ((curr_bucket (rotate alloc r now)).starts_at ≡ now)
  unfolding rotate get
  rotate_blue_forgets r now ip v g a = ground arith

  rotate_limit : (r : RateLimiter) (now : ℕ) → (rotate alloc r now).limit ≡ r.limit
  unfolding rotate
  rotate_limit r now = ground arith

  -- A request is refused for want of room exactly when requests are allowed at all, the client has
  -- no counter in the window that is current now, and the map of that window is full.
  pub can_resume-eq-err_iff :
      (r : RateLimiter) (ip : IpAddr) (now later : ℕ)
      → ((can_resume alloc r ip now later).1 ≡ err tt) ↔ (
          (r.limit ≢ 0)
          × (get (curr_bucket (rotate alloc r now)).inner ip ≡ none)
          × ((curr_bucket (rotate alloc r now)).capacity
              ≡ length (curr_bucket (rotate alloc r now)).inner))
  unfolding can_resume
  can_resume-eq-err_iff r ip now later = elim (Bool-cases (eqb r.limit 0)) [
    | inl z ↦ rw z (ground arith)
    | inr z ↦
        let r' = rotate alloc r now in
        let b = curr_bucket r' in
        rw z (ground (arith, decide-eq-err_iff r' ip later (hit b ip), hit-eq-none_iff b ip))
  ]

  -- Every other answer is the sliding-window estimate of the new state held against the limit: the
  -- previous window's count, weighted by how much of it the last period still covers, plus the
  -- count of the current window with this request in it.
  pub can_resume-eq-estimate :
      (r : RateLimiter) (ip : IpAddr) (now later : ℕ) {b : Bool}
      → r.limit ≢ 0
      → (can_resume alloc r ip now later).1 ≡ ok b
      → b ≡ leb (estimate (can_resume alloc r ip now later).0 ip later) r.limit
  unfolding can_resume
  can_resume-eq-estimate r ip now later h e = elim (Bool-cases (eqb r.limit 0)) [
    | inl z ↦ absurd (h (ground arith))
    | inr z ↦
        rw z (
          decide-eq-estimate (rotate alloc r now) ip later r.limit (rotate_limit r now) (rw z at e))
  ]

  -- After a blue window the next request of any client is let through, whatever it has sent in the
  -- window that just ended, if the limiter is well formed, lets requests through at all and was
  -- configured with room for a client.
  pub can_resume_after_blue :
      {conf : ℕ} (r : RateLimiter) (ip : IpAddr) (now later : ℕ)
      → ((c : ℕ) → c ≤ alloc c)
      → 0 < conf
      → 0 < r.limit
      → IsValid conf r
      → ¬ (GreenIsCurrent r)
      → (curr_bucket r).starts_at + r.sampling_period ≤ now
      → (can_resume alloc r ip now later).1 ≡ ok true
  unfolding can_resume rotate decide hit get increment get_approx
  can_resume_after_blue r ip now later big c l v g a =
      ground (arith, big r.bucket_green.capacity, v.green.room)
