-- ===== src/RateLimiter/Rounds.antt =====
-- What pingoo/rate_limiter.rs promises, without buckets and hash maps: requests are counted in rounds of
-- two windows, and in the second window those of the first still count in part.
use pingoo.Prelude.{
  ℕ, ◌+◌, ◌-◌, ◌*◌, List, [], ◌∷◌, Option, none, some, Bool, false, ltb, leb, eqb, if◌then◌else◌,
  ok, ◌==◌,
}
use pingoo.Net.{IpAddr, ip_eq}
use pingoo.RateLimiter.{Answer, Probe, get_approx, u16_max}

-- How often each client has asked.
abbrev pub Counts : Type 0
Counts = IpAddr → ℕ

abbrev pub zeroes : Counts
zeroes ip = 0

-- one more, up to the largest `u16`
abbrev pub more : ℕ → ℕ
more n = if ltb n u16_max then n + 1 else u16_max

abbrev pub count_one : Counts → IpAddr → Counts
count_one counts ip j = if ip == j then more (counts ip) else counts j

-- `second` is there in the second window of the round.
pub record Round : Type 0 where
  pub start : ℕ
  pub first : Counts
  pub second : Option Counts

abbrev pub new_round : ℕ → Round
new_round now = record { start = now; first = zeroes; second = none }

module _ (limit period : ℕ) where
  unfoldable pub advance : Round → ℕ → Round
  advance w now =
      if eqb period 0
      then w
      else if leb (w.start + 2 * period) now
      then new_round now
      else elim w.second [
        | none ↦ if leb (w.start + period) now then record w { second = some zeroes } else w
        | some second ↦ w
      ]

  unfoldable pub tally : Round → IpAddr → ℕ → Round × Bool
  unfolding get_approx
  tally w ip later = elim w.second [
    | none ↦ (record w { first = count_one w.first ip }, leb (more (w.first ip)) limit)
    | some second ↦ (
      record w { second = some (count_one second ip) },
      leb (get_approx (w.first ip) (later - (w.start + period)) period + more (second ip)) limit,
    )
  ]

  unfoldable pub ask : Round → Probe → Round × Bool
  ask w p = if eqb limit 0 then (w, false) else tally (advance w p.now) p.ip p.later

  unfoldable pub answers : Round → List Probe → List (IpAddr × Answer)
  answers w [] = []
  answers w (p ∷ ps) = let (w', b) = ask w p in (p.ip, ok b) ∷ answers w' ps
