-- ===== src/RateLimiter.antt =====
-- pingoo/rate_limiter.rs: a limiter of requests per client over two alternating windows.
-- Instants and durations count nanoseconds. `Instant::now()` is an argument at each place that
-- reads the clock, and `alloc c` is the capacity that `HashMap::with_capacity(c)` really gets.
pub mod Bounds
pub mod Window
pub mod Rotation
pub mod Rounds
pub mod Room
pub mod Refine
pub mod Simulates
mod Tests
use pingoo.Prelude.{
  ℕ, ◌+◌, ◌-◌, ◌*◌, ◌/◌, List, [], ◌∷◌, Bool, true, false, not, ◌&&◌, Option, none, some, ltb, leb,
  eqb, if◌then◌else◌, length, HashMap, get, insert, Result, ok, err,
}
use pingoo.Net.{IpAddr, ip_eq}
use pingoo.Http.{
  Response, new_internal_error_response_500, new_service_unavailable_error_503,
  new_too_many_requests_response_429,
}

abbrev pub u16_max : ℕ
u16_max = 65535

abbrev pub nanos_per_sec : ℕ
nanos_per_sec = 1_000_000_000

abbrev pub from_secs : ℕ → ℕ
from_secs s = s * nanos_per_sec

abbrev pub as_secs : ℕ → ℕ
as_secs d = d / nanos_per_sec

-- `rules::RateLimit`
pub record RateLimit : Type 0 where
  pub max : ℕ
  pub window : ℕ
  pub capacity : ℕ

pub record Counter : Type 0 where
  pub sum : ℕ

pub record RateLimiterBucket : Type 0 where
  pub starts_at : ℕ
  pub inner : HashMap IpAddr Counter
  pub capacity : ℕ

pub record RateLimiter : Type 0 where
  pub limit : ℕ
  pub sampling_period : ℕ
  pub bucket_green : RateLimiterBucket
  pub bucket_blue : RateLimiterBucket

abbrev pub new_counter : Counter
new_counter = record { sum = 0 }

-- `saturating_add(1)` on a `u16`
unfoldable pub increment : Counter → Counter
increment c = record { sum = if ltb c.sum u16_max then c.sum + 1 else u16_max }

unfoldable pub get_approx : ℕ → ℕ → ℕ → ℕ
get_approx prev_counter window_needle sampling_period =
    if leb sampling_period window_needle
    then 0
    else prev_counter * (as_secs sampling_period - as_secs window_needle) / as_secs sampling_period

-- `elapsed` is what `instant.elapsed()` returns
unfoldable pub create_prev_window : ℕ → ℕ → ℕ → ℕ
create_prev_window instant elapsed sampling_period =
    if ltb elapsed sampling_period then instant else instant - sampling_period

unfoldable pub is_within_curr_bucket_window : RateLimiter → ℕ → ℕ → Bool
is_within_curr_bucket_window r now curr_starts_at = ltb now (curr_starts_at + r.sampling_period)

unfoldable pub is_outside_next_monothonic_window : RateLimiter → ℕ → ℕ → Bool
is_outside_next_monothonic_window r now curr_starts_at =
    leb (curr_starts_at + 2 * r.sampling_period) now

abbrev pub is_green_bucket_current : RateLimiter → Bool
is_green_bucket_current r = leb r.bucket_blue.starts_at r.bucket_green.starts_at

abbrev pub curr_bucket : RateLimiter → RateLimiterBucket
curr_bucket r = if is_green_bucket_current r then r.bucket_green else r.bucket_blue

abbrev pub prev_bucket : RateLimiter → RateLimiterBucket
prev_bucket r = if is_green_bucket_current r then r.bucket_blue else r.bucket_green

-- write back the bucket that `curr_bucket` borrows
abbrev pub set_curr_bucket : RateLimiter → RateLimiterBucket → RateLimiter
set_curr_bucket r b =
    if is_green_bucket_current r
    then record r { bucket_green = b }
    else record r { bucket_blue = b }

-- the sum of a client in a bucket
abbrev pub sum_of : Option Counter → ℕ
sum_of none = 0
sum_of (some c) = c.sum

-- `type Response = Result<bool, ()>`
abbrev pub Answer : Type 0
Answer = Result Bool (Unit {0})

-- count one request in the current bucket; `none` when the bucket has no room for a new client
unfoldable pub hit : RateLimiterBucket → IpAddr → Option (RateLimiterBucket × ℕ)
unfolding increment
hit b ip = elim (get b.inner ip) [
  | some counter ↦
      let c = increment counter in some (record b { inner = insert b.inner ip c }, c.sum)
  | none ↦
      if eqb b.capacity (length b.inner)
      then none
      else let c = increment new_counter in some (record b { inner = insert b.inner ip c }, c.sum)
]

-- the last part of `can_resume`; `later` is the clock as `elapsed()` reads it
unfoldable pub decide :
    RateLimiter → IpAddr → ℕ → Option (RateLimiterBucket × ℕ) → RateLimiter × Answer
unfolding get_approx
decide r ip later none = (r, err tt)
decide r ip later (some (curr, curr_sum)) =
    let prev_sum = sum_of (get (prev_bucket r).inner ip) in
    let approx = get_approx prev_sum (later - curr.starts_at) r.sampling_period in
    (set_curr_bucket r curr, ok (leb (approx + curr_sum) r.limit))

-- A probe as the worker receives it, with the clock at its two readings.
pub record Probe : Type 0 where
  pub ip : IpAddr
  pub now : ℕ
  pub later : ℕ

module _ (alloc : ℕ → ℕ) where
  unfoldable pub new_bucket : ℕ → ℕ → RateLimiterBucket
  new_bucket starts_at capacity = record {
    starts_at = starts_at;
    inner = [];
    capacity = alloc capacity;
  }

  unfoldable pub new : ℕ → ℕ → ℕ → ℕ → ℕ → RateLimiter
  unfolding new_bucket create_prev_window
  new limit sampling_period capacity now elapsed = record {
    limit = if eqb limit u16_max then limit - 1 else limit;
    sampling_period = sampling_period;
    bucket_green = new_bucket now capacity;
    bucket_blue = new_bucket (create_prev_window now elapsed sampling_period) capacity;
  }

  -- the first part of `can_resume`: start new windows
  unfoldable pub rotate : RateLimiter → ℕ → RateLimiter
  unfolding new_bucket is_within_curr_bucket_window is_outside_next_monothonic_window
  rotate r now =
      let capacity = r.bucket_green.capacity in
      if not (is_within_curr_bucket_window r now (curr_bucket r).starts_at)
        && ltb 0 r.sampling_period
      then (if is_outside_next_monothonic_window r now r.bucket_green.starts_at
          then record r {
            bucket_green = new_bucket now capacity;
            bucket_blue = new_bucket now capacity;
          }
          else if is_green_bucket_current r
          then record r {
            bucket_blue = new_bucket (r.bucket_green.starts_at + r.sampling_period) capacity;
          }
          else record r {
            bucket_green = new_bucket (r.bucket_blue.starts_at + r.sampling_period) capacity;
          })
      else r

  unfoldable pub can_resume : RateLimiter → IpAddr → ℕ → ℕ → RateLimiter × Answer
  can_resume r ip now later =
      if eqb r.limit 0
      then (r, ok false)
      else let r' = rotate r now in decide r' ip later (hit (curr_bucket r') ip)

  -- the loop of `get_rate_limit_handle`: every probe is answered in order
  unfoldable pub run_worker : RateLimiter → List Probe → List (IpAddr × Answer)
  run_worker r [] = []
  run_worker r (p ∷ ps) =
      let (r', response) = can_resume r p.ip p.now p.later in (p.ip, response) ∷ run_worker r' ps

  unfoldable pub new_from_config : RateLimit → ℕ → ℕ → RateLimiter
  unfolding new
  new_from_config cfg now elapsed = new cfg.max (from_secs cfg.window) cfg.capacity now elapsed

-- What `limit_http_request` meets: the worker's channel is closed, the worker drops the probe, or
-- it answers.
pub data Delivery : Type 0 where
  send_failed : Delivery
  no_answer : Delivery
  answered : Answer → Delivery

unfoldable pub limit_http_request : Delivery → Option Response
limit_http_request send_failed = some new_internal_error_response_500
limit_http_request no_answer = some new_internal_error_response_500
limit_http_request (answered (err _)) = some new_service_unavailable_error_503
limit_http_request (answered (ok true)) = none
limit_http_request (answered (ok false)) = some new_too_many_requests_response_429
