-- ===== src/RateLimiter/Room.antt =====
-- Buckets of pingoo/rate_limiter.rs that have room for every client, and their counts.
use pingoo.Prelude.{
  ℕ, ◌+◌, ◌≤◌, List, [], ◌∷◌, none, some, ◌≡◌, inl, inr, refl, sym, ap, arith, length, get, insert,
  get-insert, size-insert_new, size-insert_old, HashMap, if◌then◌else◌, In, Option-cases, is_some,
}
use pingoo.Net.{IpAddr, ip_eq}
use pingoo.RateLimiter.{Counter, RateLimiterBucket, increment, hit, sum_of}
use pingoo.RateLimiter.Rounds.{Counts, more, count_one}

-- the clients without a counter
abbrev pub missing : HashMap IpAddr Counter → List IpAddr → ℕ
missing m [] = 0
missing m (ip ∷ ips) = (if is_some (get m ip) then 0 else 1) + missing m ips

missing-insert-le :
    (m : HashMap IpAddr Counter) (ip : IpAddr) (c : Counter) (ips : List IpAddr)
    → missing (insert m ip c) ips ≤ missing m ips
missing-insert-le m ip c [] = omega arith
missing-insert-le m ip c (j ∷ ips) =
    ground (arith, missing-insert-le m ip c ips, get-insert m ip c j)

missing-insert-lt :
    (m : HashMap IpAddr Counter) (ip : IpAddr) (c : Counter) (ips : List IpAddr)
    → In ip ips
    → get m ip ≡ none
    → missing (insert m ip c) ips + 1 ≤ missing m ips
missing-insert-lt m ip c [] i h = absurd i
missing-insert-lt m ip c (j ∷ ips) (inl here) h = ground (
  arith,
  missing-insert-le m ip c ips,
  get-insert m ip c j,
  ip_eq.same_iff ip j,
  sym here,
  ap (get m) here,
)
missing-insert-lt m ip c (j ∷ ips) (inr there) h =
    ground (arith, missing-insert-lt m ip c ips there h, get-insert m ip c j)

module _ (clients : List IpAddr) where
  -- A bucket with these counts and room for a counter of each client.
  pub record Holds (b : RateLimiterBucket) (counts : Counts) : Type 0 where
    pub sums : (ip : IpAddr) → sum_of (get b.inner ip) ≡ counts ip
    pub room : length b.inner + missing b.inner clients ≤ b.capacity

  pub record IsCounted (b : RateLimiterBucket) (counts : Counts) (ip : IpAddr) : Type 0 where
    pub after : RateLimiterBucket
    pub hit_is : hit b ip ≡ some (after, more (counts ip))
    pub holds : Holds after (count_one counts ip)
    pub start : after.starts_at ≡ b.starts_at
    pub capacity : after.capacity ≡ b.capacity

  hit_old-IsCounted :
      (b : RateLimiterBucket) (counts : Counts) (ip : IpAddr) (c : Counter)
      → Holds b counts
      → get b.inner ip ≡ some c
      → IsCounted b counts ip
  unfolding hit increment
  hit_old-IsCounted b counts ip c h e = record {
    after = record b { inner = insert b.inner ip (increment c) };
    hit_is = ground (arith, h.sums ip, e);
    holds = record {
      sums = λ j. ground (arith, get-insert b.inner ip (increment c) j, h.sums j, h.sums ip, e);
      room = omega (
        arith,
        h.room,
        size-insert_old b.inner ip (increment c) c e,
        missing-insert-le b.inner ip (increment c) clients,
      );
    };
    start = refl;
    capacity = refl;
  }

  hit_new-IsCounted :
      (b : RateLimiterBucket) (counts : Counts) (ip : IpAddr)
      → Holds b counts
      → In ip clients
      → get b.inner ip ≡ none
      → IsCounted b counts ip
  unfolding hit increment
  hit_new-IsCounted b counts ip h i e =
      let one : Counter = record { sum = 1 } in
      let lt = missing-insert-lt b.inner ip one clients i e in
      record {
        after = record b { inner = insert b.inner ip one };
        hit_is = ground (arith, h.sums ip, e, lt, h.room);
        holds = record {
          sums = λ j. ground (arith, get-insert b.inner ip one j, h.sums j, h.sums ip, e);
          room = omega (arith, h.room, size-insert_new b.inner ip one e, lt);
        };
        start = refl;
        capacity = refl;
      }

  pub hit-IsCounted :
      (b : RateLimiterBucket) (counts : Counts) (ip : IpAddr)
      → Holds b counts
      → In ip clients
      → IsCounted b counts ip
  hit-IsCounted b counts ip h i = elim (Option-cases (get b.inner ip)) [
    | inl e ↦ hit_new-IsCounted b counts ip h i e
    | inr (c, e) ↦ hit_old-IsCounted b counts ip c h e
  ]

pub missing_empty : (ips : List IpAddr) → missing [] ips ≡ length ips
unfolding get
missing_empty [] = refl
missing_empty (ip ∷ ips) = omega (arith, missing_empty ips)
