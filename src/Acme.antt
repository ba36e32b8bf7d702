-- ===== src/Acme.antt =====
-- pingoo/tls/acme.rs: the order of a certificate from an ACME server, with the map of TLS-ALPN
-- challenges that the listeners answer from. The ACME client, a crate, is a parameter: what the server
-- answers may depend on the challenges that it finds when it connects back.
pub mod Order
pub mod Challenge
pub mod Registration
pub mod Kept
pub mod Renewal
pub mod Renewed
mod Tests
use pingoo.Prelude.{
  ℕ, String, List, Option, none, some, Bool, true, false, HashMap, get, insert, remove, string_eq,
  if◌then◌else◌, filter, Result, ok, err, ◌>>=◌, ensure, ok_or, ltb,
}

-- the statuses of RFC 8555
pub data AuthorizationStatus : Type 0 where
  pending_authorization : AuthorizationStatus
  valid_authorization : AuthorizationStatus
  invalid_authorization : AuthorizationStatus
  deactivated_authorization : AuthorizationStatus
  expired_authorization : AuthorizationStatus
  revoked_authorization : AuthorizationStatus

pub data OrderStatus : Type 0 where
  pending_order : OrderStatus
  ready_order : OrderStatus
  processing_order : OrderStatus
  valid_order : OrderStatus
  invalid_order : OrderStatus

pub data OrderError : Type 0 where
  placing_failed : OrderError
  no_authorization : OrderError
  authorization_failed : OrderError
  unexpected_authorization : AuthorizationStatus → OrderError
  no_challenge : OrderError
  ready_failed : OrderError
  polling_failed : OrderError
  unexpected_order : OrderStatus → OrderError
  finalizing_failed : OrderError
  chain_failed : OrderError

-- the key authorization of each domain's challenge
abbrev pub Challenges : Type 0
Challenges = HashMap String String

-- The calls of the client; `none` and `false` stand for its errors.
pub record Account (Order Authorization Challenge : Type 0) : Type 0 where
  pub new_order : String → Option Order
  pub next_authorization : Order → Option (Option Authorization)
  pub status : Authorization → AuthorizationStatus
  pub tls_alpn_01 : Authorization → Option Challenge
  pub key_authorization : Challenge → String
  pub set_ready : Challenges → Challenge → Bool
  pub poll_ready : Challenges → Order → Option OrderStatus
  pub finalize : Order → Option String
  pub poll_certificate : Order → Option String

-- `matches!(status, AuthorizationStatus::Pending | AuthorizationStatus::Valid)`
abbrev pub is_open : AuthorizationStatus → Bool
is_open pending_authorization = true
is_open valid_authorization = true
is_open invalid_authorization = false
is_open deactivated_authorization = false
is_open expired_authorization = false
is_open revoked_authorization = false

abbrev pub is_ready : OrderStatus → Bool
is_ready ready_order = true
is_ready pending_order = false
is_ready processing_order = false
is_ready valid_order = false
is_ready invalid_order = false

-- the domains without a certificate or with one that ends before `in_30_days`
unfoldable pub domains_to_order : HashMap String ℕ → ℕ → List String → List String
domains_to_order not_after in_30_days domains =
    filter (λ domain. elim (get not_after domain) [ some t ↦ ltb t in_30_days | none ↦ true ])
      domains

module _ {Order Authorization Challenge : Type 0}
    (account : Account Order Authorization Challenge) where
  -- up to the challenge
  unfoldable pub place_order : String → Result (Order × Challenge) OrderError
  place_order domain = ok_or (account.new_order domain) placing_failed >>= λ order.
      ok_or (account.next_authorization order) no_authorization >>= λ next.
      ok_or next authorization_failed >>= λ authorization.
      ensure (is_open (account.status authorization))
        (unexpected_authorization (account.status authorization))
        (ok_or (account.tls_alpn_01 authorization) no_challenge >>= λ challenge.
          ok (order, challenge))

  -- from the challenge on, which is in the map by now: the private key and the chain
  unfoldable pub complete_order :
      Challenges → Order → Challenge → Result (String × String) OrderError
  complete_order challenges order challenge =
      ensure (account.set_ready challenges challenge) ready_failed (
        ok_or (account.poll_ready challenges order) polling_failed >>= λ status.
        ensure (is_ready status) (unexpected_order status) (
          ok_or (account.finalize order) finalizing_failed >>= λ private_key.
          ok_or (account.poll_certificate order) chain_failed >>= λ chain. ok (private_key, chain)))

  abbrev pub after_completion :
      Challenges
      → String
      → Result (String × String) OrderError
      → Challenges × Result (String × String) OrderError
  after_completion challenges domain (err e) = (challenges, err e)
  after_completion challenges domain (ok pems) = (remove challenges domain, ok pems)

  abbrev pub after_placing :
      Challenges
      → String
      → Result (Order × Challenge) OrderError
      → Challenges × Result (String × String) OrderError
  after_placing challenges domain (err e) = (challenges, err e)
  after_placing challenges domain (ok (order, challenge)) =
      let known = insert challenges domain (account.key_authorization challenge) in
      after_completion known domain (complete_order known order challenge)

  unfoldable pub order_certificate :
      Challenges → String → Challenges × Result (String × String) OrderError
  order_certificate challenges domain = after_placing challenges domain (place_order domain)
