-- ===== src/RateLimiter/Bounds.antt =====
-- The limiter's well-formedness, and what its single steps do to the counters.
use pingoo.Prelude.{
  ℕ, ◌+◌, ◌≤◌, ◌<◌, ◌≡◌, ◌⊎◌, some, length, get, get-insert, size-insert_new, size-insert_old,
  arith, Option-cases, inl, inr, ◌≢◌, ==_refl, ==_ne, if◌then◌else◌, ltb, Bool-cases, eqb,
}
use pingoo.Net.{IpAddr, ip_eq}
use pingoo.RateLimiter.{
  RateLimiterBucket, RateLimiter, increment, hit, new_bucket, new, rotate, decide, can_resume,
  sum_of, u16_max, curr_bucket, create_prev_window, is_green_bucket_current, set_curr_bucket,
}

-- The counters are those of a `u16`, no counter is zero, and the map has not outgrown its capacity,
-- which is at least the configured one.
pub record IsBucket (conf : ℕ) (b : RateLimiterBucket) : Type 0 where
  pub fits : length b.inner ≤ b.capacity
  pub room : conf ≤ b.capacity
  pub sums : (ip : IpAddr) → sum_of (get b.inner ip) ≤ u16_max

-- Either the blue window does not start after the green one, or it is the green window's successor.
pub record IsValid (conf : ℕ) (r : RateLimiter) : Type 0 where
  pub limit : r.limit < u16_max
  pub green : IsBucket conf r.bucket_green
  pub blue : IsBucket conf r.bucket_blue
  pub order :
      (r.bucket_blue.starts_at ≤ r.bucket_green.starts_at)
      ⊎ (r.bucket_blue.starts_at ≡ r.bucket_green.starts_at + r.sampling_period)

module _ {alloc : ℕ → ℕ} {conf : ℕ} (alloc_ge : (c : ℕ) → c ≤ alloc c) where
  pub new_bucket-IsBucket : (t c : ℕ) → conf ≤ c → IsBucket conf (new_bucket alloc t c)
  unfolding new_bucket get
  new_bucket-IsBucket t c h = record {
    fits = omega arith;
    room = omega (arith, alloc_ge c);
    sums = λ ip. omega arith;
  }

module _ (b b' : RateLimiterBucket) (ip j : IpAddr) {n : ℕ} (e : hit b ip ≡ some (b', n)) where
  pub hit_sums : sum_of (get b.inner j) ≤ u16_max → sum_of (get b'.inner j) ≤ u16_max
  unfolding hit
  hit_sums k = elim (Option-cases (get b.inner ip)) [
    | inl q ↦ ground (arith, get-insert b.inner ip (increment (record { sum = 0 })) j)
    | inr (c, q) ↦ ground (arith, get-insert b.inner ip (increment c) j)
  ]

  pub hit_start : b'.starts_at ≡ b.starts_at
  unfolding hit
  hit_start = ground arith

  pub hit_fits :
      length b.inner ≤ b.capacity → (length b'.inner ≤ b'.capacity) × (b'.capacity ≡ b.capacity)
  unfolding hit
  hit_fits k = elim (Option-cases (get b.inner ip)) [
    | inl q ↦ ground (arith, size-insert_new b.inner ip (increment (record { sum = 0 })))
    | inr (c, q) ↦ ground (arith, size-insert_old b.inner ip (increment c) c)
  ]

  -- the client's own counter goes up by one, up to the largest `u16`
  pub hit_self :
      (n ≡ sum_of (get b'.inner ip))
      × (n ≡ (
          if ltb (sum_of (get b.inner ip)) u16_max then sum_of (get b.inner ip) + 1 else u16_max))
  unfolding hit increment
  hit_self = elim (Option-cases (get b.inner ip)) [
    | inl q ↦ ground (arith, get-insert b.inner ip (increment (record { sum = 0 })) ip, ==_refl ip)
    | inr (c, q) ↦ ground (arith, get-insert b.inner ip (increment c) ip, ==_refl ip)
  ]

  -- every other client's counter is unchanged
  pub hit_other : ip ≢ j → sum_of (get b'.inner j) ≡ sum_of (get b.inner j)
  unfolding hit
  hit_other k = elim (Option-cases (get b.inner ip)) [
    | inl q ↦ ground (arith, get-insert b.inner ip (increment (record { sum = 0 })) j, ==_ne ip j)
    | inr (c, q) ↦ ground (arith, get-insert b.inner ip (increment c) j, ==_ne ip j)
  ]

module _ {conf : ℕ} where
  pub hit-IsBucket :
      (b b' : RateLimiterBucket) (ip : IpAddr) {n : ℕ}
      → hit b ip ≡ some (b', n)
      → IsBucket conf b
      → IsBucket conf b'
  hit-IsBucket b b' ip e v = record {
    fits = (hit_fits b b' ip ip e v.fits).0;
    room = omega (arith, v.room, hit_fits b b' ip ip e v.fits);
    sums = λ j. hit_sums b b' ip j e (v.sums j);
  }

  pub set_curr_bucket-IsValid :
      (r : RateLimiter) (b' : RateLimiterBucket)
      → IsValid conf r
      → IsBucket conf b'
      → b'.starts_at ≡ (curr_bucket r).starts_at
      → IsValid conf (set_curr_bucket r b')
  set_curr_bucket-IsValid r b' v w e = elim (Bool-cases (is_green_bucket_current r)) [
    | inl g ↦ rw g (record { limit = v.limit; green = w; blue = v.blue; order = ground arith })
    | inr g ↦ rw g (record { limit = v.limit; green = v.green; blue = w; order = ground arith })
  ]

  curr_bucket-IsBucket : (r : RateLimiter) → IsValid conf r → IsBucket conf (curr_bucket r)
  curr_bucket-IsBucket r v = elim (Bool-cases (is_green_bucket_current r)) [
    | inl g ↦ rw g v.green
    | inr g ↦ rw g v.blue
  ]

  hit-IsValid :
      (r : RateLimiter) (ip : IpAddr) (later : ℕ)
      → IsValid conf r
      → IsValid conf (decide r ip later (hit (curr_bucket r) ip)).0
  unfolding decide
  hit-IsValid r ip later v = elim (Option-cases (hit (curr_bucket r) ip)) [
    | inl e ↦ rw e v
    | inr ((b', n), e) ↦ rw e (
        set_curr_bucket-IsValid r b' v
          (hit-IsBucket (curr_bucket r) b' ip e (curr_bucket-IsBucket r v))
          (hit_start (curr_bucket r) b' ip ip e))
  ]

module _ {alloc : ℕ → ℕ} {conf : ℕ} (alloc_ge : (c : ℕ) → c ≤ alloc c) where
  pub new-IsValid :
      (limit period now elapsed : ℕ)
      → limit ≤ u16_max
      → IsValid conf (new alloc limit period conf now elapsed)
  unfolding new get
  new-IsValid limit period now elapsed h = record {
    limit = ground arith;
    green = new_bucket-IsBucket alloc_ge now conf (omega arith);
    blue = new_bucket-IsBucket alloc_ge (create_prev_window now elapsed period) conf (omega arith);
    order = ground arith;
  }

  pub rotate-IsValid :
      (r : RateLimiter) (now : ℕ) → IsValid conf r → IsValid conf (rotate alloc r now)
  unfolding rotate get
  rotate-IsValid r now v = record {
    limit = ground arith;
    green = record {
      fits = ground arith;
      room = ground (arith, alloc_ge r.bucket_green.capacity);
      sums = λ ip. ground (arith, v.green.sums ip);
    };
    blue = record {
      fits = ground arith;
      room = ground (arith, alloc_ge r.bucket_green.capacity);
      sums = λ ip. ground (arith, v.blue.sums ip);
    };
    order = ground arith;
  }

  -- Every request keeps the limiter well formed: the limit below the saturated counter, the maps
  -- within their capacity, the counters within a `u16`, and the start of the blue window not after that
  -- of the green one, or one period after it.
  pub can_resume-IsValid :
      (r : RateLimiter) (ip : IpAddr) (now later : ℕ)
      → IsValid conf r
      → IsValid conf (can_resume alloc r ip now later).0
  unfolding can_resume
  can_resume-IsValid r ip now later v = elim (Bool-cases (eqb r.limit 0)) [
    | inl z ↦ rw z v
    | inr z ↦ rw z (hit-IsValid (rotate alloc r now) ip later (rotate-IsValid r now v))
  ]
