-- ===== src/Services/TcpProxy.antt =====
-- pingoo/services/tcp_proxy_service.rs: the connection to an upstream, with retries. `operation n` is
-- what attempt `n` gives, counted from 1; the pauses between attempts are not modelled.
use pingoo.Prelude.{
  ℕ, zero, suc, ◌+◌, ◌-◌, ◌≤◌, ◌<◌, max, String, List, [], ◌∷◌, Option, none, some, ◌≡◌, ◌⊎◌, inl,
  inr, refl, ap, ◌∙◌, ltb, if◌then◌else◌, Result, ok, err, arith, Result-cases, Bool-cases,
}
use pingoo.Net.{SocketAddr, Upstream}

-- the errors that an attempt gives
pub data Error : Type 0 where
  no_upstream_available : Error
  connecting : SocketAddr → String → Error
  connecting_timeout : SocketAddr → Error

pub data Connect (Stream : Type 0) : Type 0 where
  connected : Stream → Connect Stream
  refused : String → Connect Stream
  timed_out : Connect Stream

-- one attempt: the upstreams as they are then, one that is picked, and three seconds to connect
unfoldable pub connect_once :
    {Stream : Type 0}
    → (Upstream → List Upstream → Upstream)
    → (SocketAddr → Connect Stream)
    → List Upstream
    → Result Stream Error
connect_once pick connect [] = err no_upstream_available
connect_once pick connect (u ∷ us) =
    let address = (pick u us).socket_address in
    elim (connect address) [
      | connected stream ↦ ok stream
      | refused e ↦ err (connecting address e)
      | timed_out ↦ err (connecting_timeout address)
    ]

module _ {T E : Type 0} (operation : ℕ → Result T E) (retries : ℕ) where
  -- one round of the loop, with the number of the attempt; `none` is the end of the fuel
  unfoldable pub retry_from : ℕ → ℕ → Option (ℕ × Result T E)
  retry_from zero attempt = none
  retry_from (suc fuel) attempt =
      let rest = retry_from fuel (suc attempt) in
      elim (operation attempt) [
        | ok val ↦ some (attempt, ok val)
        | err e ↦ if ltb attempt retries then rest else some (attempt, err e)
      ]

  -- The result with the number of attempts made. There are no more rounds than `max 1 retries`.
  unfoldable pub retry : Option (ℕ × Result T E)
  retry = retry_from (max 1 retries) 1

  -- Attempt `n` ends the loop that is at `attempt`, with `r`: all attempts before it have failed.
  abbrev pub EndsAt : ℕ → ℕ → Result T E → Type 0
  EndsAt attempt n r =
      (attempt ≤ n)
      × (operation n ≡ r)
      × ((k : ℕ) → attempt ≤ k → k < n → (e : E) × (operation k ≡ err e))
      × (((t : T) × (r ≡ ok t)) ⊎ (((e : E) × (r ≡ err e)) × (retries ≤ n)))

  retry_from-EndsAt :
      (fuel attempt : ℕ)
      → 1 ≤ fuel
      → retries ≤ (fuel + attempt) - 1
      → (n : ℕ) × ((r : Result T E) × ((retry_from fuel attempt ≡ some (n, r))
            × (n ≤ (fuel + attempt) - 1)
            × EndsAt attempt n r))
  unfolding retry_from
  retry_from-EndsAt zero attempt some_fuel enough = absurd (omega arith)
  retry_from-EndsAt (suc fuel) attempt some_fuel enough = elim (Result-cases (operation attempt)) [
    | inl (t, h) ↦ (
      attempt,
      (
        ok t,
        (
          ground arith,
          omega arith,
          (omega arith, h, (λ k low high. absurd (omega arith)), inl (t, refl)),
        ),
      ),
    )
    | inr (e, h) ↦ elim (Bool-cases (ltb attempt retries)) [
      | inl more ↦
          let (n, (r, (step, bound, (low, at, before, last)))) =
            retry_from-EndsAt fuel (suc attempt) (ground arith) (ground arith) in
          (
            n,
            (
              r,
              (
                ground arith,
                omega arith,
                (
                  omega arith,
                  at,
                  (λ k from to. elim (Bool-cases (ltb attempt k)) [
                    | inl later ↦ before k (ground arith) to
                    | inr now ↦ let here : k ≡ attempt = ground arith in (e, ap operation here ∙ h)
                  ]),
                  last,
                ),
              ),
            ),
          )
      | inr done ↦ (
        attempt,
        (
          err e,
          (
            ground arith,
            omega arith,
            (omega arith, h, (λ k low high. absurd (omega arith)), inr ((e, refl), ground arith)),
          ),
        ),
      )
    ]
  ]

  -- The loop ends within `max 1 retries` attempts with the result of the last one made; all attempts
  -- before it have failed, and it has succeeded or was the last that is allowed.
  pub retry-EndsAt :
      (n : ℕ) × ((r : Result T E) × ((retry ≡ some (n, r)) × (n ≤ max 1 retries) × EndsAt 1 n r))
  unfolding retry
  retry-EndsAt =
      let (n, (r, (run, bound, ends))) =
        retry_from-EndsAt (max 1 retries) 1 (omega arith) (omega arith) in
      (n, (r, (run, omega arith, ends)))
