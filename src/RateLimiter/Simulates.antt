-- ===== src/RateLimiter/Simulates.antt =====
-- A state of pingoo/rate_limiter.rs that stands for a round, and that rotating its buckets advances the
-- round.
use pingoo.Prelude.{
  ℕ, ◌+◌, ◌*◌, ◌≤◌, ◌<◌, List, Option, none, some, false, ◌≡◌, ◌⊎◌, inl, inr, refl, arith, length,
  get, leb, eqb, Bool-cases,
}
use pingoo.Net.{IpAddr, ip_eq}
use pingoo.RateLimiter.{RateLimiter, new_bucket, rotate}
use pingoo.RateLimiter.Rounds.{Counts, zeroes, Round, new_round, advance}
use pingoo.RateLimiter.Room.{missing_empty, Holds}

module _ (limit period : ℕ) (clients : List IpAddr) where
  -- The second bucket is empty in the first window of a round, and holds the counts of the second.
  abbrev pub SecondIs : RateLimiter → ℕ → Option Counts → Type 0
  SecondIs r start none = (r.bucket_blue.starts_at ≤ start) × Holds clients r.bucket_blue zeroes
  SecondIs r start (some second) =
      (0 < period) × (r.bucket_blue.starts_at ≡ start + period) × Holds clients r.bucket_blue second

  pub record Simulates (r : RateLimiter) (w : Round) : Type 0 where
    pub limit_is : r.limit ≡ limit
    pub period_is : r.sampling_period ≡ period
    pub start_is : r.bucket_green.starts_at ≡ w.start
    pub first_is : Holds clients r.bucket_green w.first
    pub second_is : SecondIs r w.start w.second
    pub room : length clients ≤ r.bucket_green.capacity

  module _ (alloc : ℕ → ℕ) (alloc_ge : (c : ℕ) → c ≤ alloc c) where
    pub new_bucket-Holds :
        (t c : ℕ) → length clients ≤ c → Holds clients (new_bucket alloc t c) zeroes
    unfolding new_bucket get
    new_bucket-Holds t c h = record {
      sums = λ ip. refl;
      room = omega (arith, h, alloc_ge c, missing_empty clients);
    }

    rotated_anew :
        (r : RateLimiter) (w : Round) (now : ℕ)
        → Simulates r w
        → Simulates
            (record r {
              bucket_green = new_bucket alloc now r.bucket_green.capacity;
              bucket_blue = new_bucket alloc now r.bucket_green.capacity;
            })
            (new_round now)
    rotated_anew r w now s =
        let empty = new_bucket-Holds now r.bucket_green.capacity s.room in
        record {
          limit_is = s.limit_is;
          period_is = s.period_is;
          start_is = unfold new_bucket in refl;
          first_is = empty;
          second_is = (unfold new_bucket in omega arith, empty);
          room = unfold new_bucket in omega (arith, s.room, alloc_ge r.bucket_green.capacity);
        }

    rotated_on :
        (r : RateLimiter) (w : Round) (now : ℕ)
        → Simulates r w
        → 0 < period
        → Simulates
            (record r {
              bucket_blue =
                  new_bucket alloc
                    (r.bucket_green.starts_at + r.sampling_period)
                    r.bucket_green.capacity;
            })
            (record w { second = some zeroes })
    rotated_on r w now s p = record {
      limit_is = s.limit_is;
      period_is = s.period_is;
      start_is = s.start_is;
      first_is = s.first_is;
      second_is = (
        p,
        unfold new_bucket in omega (arith, s.start_is, s.period_is),
        new_bucket-Holds (r.bucket_green.starts_at + r.sampling_period) r.bucket_green.capacity
            s.room,
      );
      room = s.room;
    }

    rotate_anew :
        (r : RateLimiter) (now : ℕ)
        → (r.bucket_blue.starts_at ≤ r.bucket_green.starts_at)
          ⊎ (r.bucket_blue.starts_at ≡ r.bucket_green.starts_at + r.sampling_period)
        → 0 < r.sampling_period
        → r.bucket_green.starts_at + 2 * r.sampling_period ≤ now
        → rotate alloc r now ≡ record r {
          bucket_green = new_bucket alloc now r.bucket_green.capacity;
          bucket_blue = new_bucket alloc now r.bucket_green.capacity;
        }
    unfolding rotate
    rotate_anew r now o p h = ground arith

    rotate_on :
        (r : RateLimiter) (now : ℕ)
        → r.bucket_blue.starts_at ≤ r.bucket_green.starts_at
        → 0 < r.sampling_period
        → r.bucket_green.starts_at + r.sampling_period ≤ now
        → now < r.bucket_green.starts_at + 2 * r.sampling_period
        → rotate alloc r now ≡ record r {
          bucket_blue =
              new_bucket alloc
                (r.bucket_green.starts_at + r.sampling_period)
                r.bucket_green.capacity;
        }
    unfolding rotate
    rotate_on r now o p h k = ground arith

    rotate_not :
        (r : RateLimiter) (now : ℕ)
        → (r.sampling_period ≡ 0)
          ⊎ ((r.bucket_blue.starts_at ≤ r.bucket_green.starts_at)
              × (now < r.bucket_green.starts_at + r.sampling_period))
          ⊎ ((r.bucket_blue.starts_at ≡ r.bucket_green.starts_at + r.sampling_period)
              × (now < r.bucket_green.starts_at + 2 * r.sampling_period))
        → rotate alloc r now ≡ r
    unfolding rotate
    rotate_not r now h = ground arith

    pub rotate-Simulates :
        (r : RateLimiter) (start now : ℕ) (first : Counts) (second : Option Counts)
        → Simulates r (record { start = start; first = first; second = second })
        → Simulates
            (rotate alloc r now)
            (advance limit period (record { start = start; first = first; second = second }) now)
    unfolding advance
    rotate-Simulates r start now first none s = elim (Bool-cases (eqb period 0)) [
      | inl zero_period ↦ rw (zero_period, rotate_not r now (inl (ground (arith, s.period_is)))) s
      | inr positive ↦ elim (Bool-cases (leb (start + 2 * period) now)) [
        | inl past ↦
            rw
              (positive, past, rotate_anew r now (inl (ground arith)) (ground arith) (ground arith))
              (rotated_anew r (record { start = start; first = first; second = none }) now s)
        | inr within ↦ elim (Bool-cases (leb (start + period) now)) [
          | inl next ↦
              rw
                (
                  positive,
                  within,
                  next,
                  rotate_on r now (ground arith) (ground arith) (ground arith) (ground arith),
                )
                (rotated_on r (record { start = start; first = first; second = none }) now s
                  (ground arith))
          | inr same ↦
              rw (positive, within, same, rotate_not r now (inr (inl (ground arith, ground arith))))
                s
        ]
      ]
    ]
    rotate-Simulates r start now first (some second) s =
        let positive : eqb period 0 ≡ false = ground arith in
        elim (Bool-cases (leb (start + 2 * period) now)) [
          | inl past ↦
              rw
                (
                  positive,
                  past,
                  rotate_anew r now (inr (ground arith)) (ground arith) (ground arith),
                )
                (rotated_anew r (record { start = start; first = first; second = some second }) now
                  s)
          | inr within ↦
              rw (positive, within, rotate_not r now (inr (inr (ground arith, ground arith)))) s
        ]
