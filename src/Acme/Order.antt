-- ===== src/Acme/Order.antt =====
-- When `order_certificate` of pingoo/tls/acme.rs gets a certificate, and the challenges that it leaves.
use pingoo.Prelude.{
  String, Option, none, some, true, ◌≡◌, ◌↔◌, inl, inr, ap, ◌∙◌, subst, ensure, ok_or, ok_or-eq-ok,
  ensure-eq-ok, bind-eq-ok, ok-injective, ◌>>=◌, arith, get, insert, get-insert, get-remove,
  string_eq, ◌==◌, if◌then◌else◌, Result-cases, Result, ok, err,
}
use pingoo.Acme.{
  Account, OrderStatus, ready_order, OrderError, Challenges, is_open, is_ready, place_order,
  complete_order, order_certificate, placing_failed, no_authorization, authorization_failed,
  unexpected_authorization, no_challenge, ready_failed, polling_failed, unexpected_order,
  finalizing_failed, chain_failed,
}

is_ready_iff : (s : OrderStatus) → is_ready s ≡ true → s ≡ ready_order
is_ready_iff s h = ground arith

module _ {Order Authorization Challenge : Type 0}
    (account : Account Order Authorization Challenge) where
  -- The server offers a challenge in the open authorization of an order.
  pub record IsPlaced (domain : String) (order : Order) (challenge : Challenge) : Type 0 where
    pub authorization : Authorization
    pub placed : account.new_order domain ≡ some order
    pub next : account.next_authorization order ≡ some (some authorization)
    pub admitted : is_open (account.status authorization) ≡ true
    pub offered : account.tls_alpn_01 authorization ≡ some challenge

  -- The server accepts a challenge that it finds in the map and issues a certificate.
  pub record IsIssued (challenges : Challenges) (domain private_key chain : String) : Type 0 where
    pub order : Order
    pub challenge : Challenge
    pub is_placed : IsPlaced domain order challenge
    pub answered :
        account.set_ready (insert challenges domain (account.key_authorization challenge)) challenge
        ≡ true
    pub validated :
        account.poll_ready (insert challenges domain (account.key_authorization challenge)) order
        ≡ some ready_order
    pub finalized : account.finalize order ≡ some private_key
    pub issued : account.poll_certificate order ≡ some chain

  place_order-IsPlaced :
      (domain : String) (order : Order) (challenge : Challenge)
      → place_order account domain ≡ ok (order, challenge)
      → IsPlaced domain order challenge
  unfolding place_order
  place_order-IsPlaced domain order challenge h =
      let offer : Order → Authorization → Result (Order × Challenge) OrderError = λ o a.
        ensure (is_open (account.status a)) (unexpected_authorization (account.status a))
          (ok_or (account.tls_alpn_01 a) no_challenge >>= λ c. ok (o, c)) in
      let with_next : Order → Option Authorization → Result (Order × Challenge) OrderError =
        λ o n. ok_or n authorization_failed >>= offer o in
      let with_order : Order → Result (Order × Challenge) OrderError =
        λ o. ok_or (account.next_authorization o) no_authorization >>= with_next o in
      let (o, e1, r1) = bind-eq-ok (ok_or (account.new_order domain) placing_failed) with_order h in
      let (n, e2, r2) =
        bind-eq-ok (ok_or (account.next_authorization o) no_authorization) (with_next o) r1 in
      let (a, e3, r3) = bind-eq-ok (ok_or n authorization_failed) (offer o) r2 in
      let (opened, r4) =
        ensure-eq-ok (is_open (account.status a)) (unexpected_authorization (account.status a))
          r3 in
      let both : Challenge → Result (Order × Challenge) OrderError = λ c. ok (o, c) in
      let (c, e4, r5) = bind-eq-ok (ok_or (account.tls_alpn_01 a) no_challenge) both r4 in
      let same = ok-injective OrderError r5 in
      subst (λ (x : Order × Challenge). IsPlaced domain x.0 x.1) same
        (record {
          authorization = a;
          placed = ok_or-eq-ok (account.new_order domain) placing_failed e1;
          next =
              ok_or-eq-ok (account.next_authorization o) no_authorization e2
              ∙ ap some (ok_or-eq-ok n authorization_failed e3);
          admitted = opened;
          offered = ok_or-eq-ok (account.tls_alpn_01 a) no_challenge e4;
        })

  IsPlaced-place_order :
      (domain : String) (order : Order) (challenge : Challenge)
      → IsPlaced domain order challenge
      → place_order account domain ≡ ok (order, challenge)
  unfolding place_order
  IsPlaced-place_order domain order challenge p =
      ground (arith, p.placed, p.next, p.admitted, p.offered)

  complete_order-eq-ok :
      (known : Challenges) (order : Order) (challenge : Challenge) (private_key chain : String)
      → complete_order account known order challenge ≡ ok (private_key, chain)
      → (account.set_ready known challenge ≡ true)
        × (account.poll_ready known order ≡ some ready_order)
        × (account.finalize order ≡ some private_key)
        × (account.poll_certificate order ≡ some chain)
  unfolding complete_order
  complete_order-eq-ok known order challenge private_key chain h =
      let with_key : String → Result (String × String) OrderError =
        λ k. ok_or (account.poll_certificate order) chain_failed >>= λ c. ok (k, c) in
      let with_status : OrderStatus → Result (String × String) OrderError = λ s.
        ensure (is_ready s) (unexpected_order s)
          (ok_or (account.finalize order) finalizing_failed >>= with_key) in
      let (answered, r1) = ensure-eq-ok (account.set_ready known challenge) ready_failed h in
      let (s, e2, r2) =
        bind-eq-ok (ok_or (account.poll_ready known order) polling_failed) with_status r1 in
      let (is_ok, r3) = ensure-eq-ok (is_ready s) (unexpected_order s) r2 in
      let (k, e4, r4) = bind-eq-ok (ok_or (account.finalize order) finalizing_failed) with_key r3 in
      let both : String → Result (String × String) OrderError = λ c. ok (k, c) in
      let (c, e5, r5) = bind-eq-ok (ok_or (account.poll_certificate order) chain_failed) both r4 in
      let same = ok-injective OrderError r5 in
      (
        answered,
        ok_or-eq-ok (account.poll_ready known order) polling_failed e2
            ∙ ap some (is_ready_iff s is_ok),
        ok_or-eq-ok (account.finalize order) finalizing_failed e4
            ∙ ap (λ (x : String × String). some x.0) same,
        ok_or-eq-ok (account.poll_certificate order) chain_failed e5
            ∙ ap (λ (x : String × String). some x.1) same,
      )

  module _ (challenges : Challenges) (domain : String) where
    abbrev after : Challenges × Result (String × String) OrderError
    after = order_certificate account challenges domain

    order_certificate-IsIssued :
        (private_key chain : String)
        → after.1 ≡ ok (private_key, chain)
        → IsIssued challenges domain private_key chain
    unfolding order_certificate
    order_certificate-IsIssued private_key chain h =
        elim (Result-cases (place_order account domain)) [
          | inr (e, f) ↦ absurd (ground arith)
          | inl ((order, challenge), f) ↦
              let known = insert challenges domain (account.key_authorization challenge) in
              elim (Result-cases (complete_order account known order challenge)) [
                | inr (e, g) ↦ absurd (ground arith)
                | inl ((k, c), g) ↦
                    let g' : complete_order account known order challenge
                        ≡ ok (private_key, chain) =
                      ground arith in
                    let (answered, validated, finalized, issued) =
                      complete_order-eq-ok known order challenge private_key chain g' in
                    record {
                      order = order;
                      challenge = challenge;
                      is_placed = place_order-IsPlaced domain order challenge f;
                      answered = answered;
                      validated = validated;
                      finalized = finalized;
                      issued = issued;
                    }
              ]
        ]

    IsIssued-order_certificate :
        (private_key chain : String)
        → IsIssued challenges domain private_key chain
        → after.1 ≡ ok (private_key, chain)
    unfolding order_certificate complete_order
    IsIssued-order_certificate private_key chain i =
        let placed = IsPlaced-place_order domain i.order i.challenge i.is_placed in
        ground (arith, placed, i.answered, i.validated, i.finalized, i.issued)

    -- The key authorization that the order leaves under its domain: none after a certificate, the new
    -- one after an error behind the challenge, and what was there after an error before it.
    abbrev pub left : Option String
    left = elim after.1 [
      | ok pems ↦ none
      | err e ↦ elim (place_order account domain) [
        | err e' ↦ get challenges domain
        | ok (order, challenge) ↦ some (account.key_authorization challenge)
      ]
    ]

    get-order_certificate :
        (j : String) → get after.0 j ≡ (if domain == j then left else get challenges j)
    unfolding order_certificate
    get-order_certificate j = elim (Result-cases (place_order account domain)) [
      | inr (e, f) ↦ ground (arith, string_eq.same_iff domain j)
      | inl ((order, challenge), f) ↦
          let known = insert challenges domain (account.key_authorization challenge) in
          elim (Result-cases (complete_order account known order challenge)) [
            | inr (e, g) ↦
                ground (arith, get-insert challenges domain (account.key_authorization challenge) j)
            | inl (pems, g) ↦ ground (
              arith,
              get-insert challenges domain (account.key_authorization challenge) j,
              get-remove known domain j,
            )
          ]
    ]

    -- An order gives a private key and a certificate just if the server offers a challenge in the open
    -- authorization of an order, accepts it while it is in the map, and issues them; then no challenge
    -- is left for the domain, while an error behind the challenge leaves it there and one before it
    -- changes nothing; the other domains keep their challenges.
    pub order_certificate-IsIssued_iff :
        (private_key chain j : String)
        → ((after.1 ≡ ok (private_key, chain)) ↔ IsIssued challenges domain private_key chain)
          × (get after.0 j ≡ (if domain == j then left else get challenges j))
    order_certificate-IsIssued_iff private_key chain j = (
      (order_certificate-IsIssued private_key chain, IsIssued-order_certificate private_key chain),
      get-order_certificate j,
    )
