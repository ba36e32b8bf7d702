-- ===== src/Listeners/Accept.antt =====
-- When `accept_tls_connection` of pingoo/listeners/mod.rs hands a stream on, and how long it takes.
use pingoo.Prelude.{
  ℕ, ◌+◌, ◌*◌, ◌≤◌, Option, none, some, false, ◌≢◌, ◌≡◌, ◌↔◌, inl, inr, refl, sym, ap, ◌∙◌, arith,
  leb, if◌then◌else◌, Bool-cases, Result, ok, err,
}
use pingoo.Async.{Future, ready, never, delayed, and_then, timeout, delayed-eq-ready}
use pingoo.Acme.Challenge.{ClientHello, is_tls_alpn_challenge, ServerConfig}
use pingoo.Listeners.{
  TlsIo, tls_handshake_timeout, accept_tls_connection, after_hello, after_stream, after_acme_stream,
}

abbrev pub EndsWithin : {A : Type 0} → ℕ → Future A → Type 0
EndsWithin bound (ready t r) = t ≤ bound
EndsWithin bound never = ⊥

module _ {Handshake Stream Key : Type 0} (io : TlsIo Handshake Stream Key)
    (alpn_01_config : ClientHello → ServerConfig Key) (tls_server_config : ServerConfig Key) where
  -- A handshake that ends with a stream: its first part in `t1`, its second part in `t2`.
  pub record IsAccepted (tcp_stream : Future (Result Handshake (Unit {0}))) (t : ℕ)
      (stream : Stream) : Type 0 where
    pub handshake : Handshake
    pub t1 : ℕ
    pub t2 : ℕ
    pub started : tcp_stream ≡ ready t1 (ok handshake)
    pub start_in_time : t1 ≤ tls_handshake_timeout
    pub no_challenge : is_tls_alpn_challenge (io.client_hello handshake) ≡ false
    pub finished : io.into_stream handshake tls_server_config ≡ ready t2 (ok stream)
    pub end_in_time : t2 ≤ tls_handshake_timeout
    pub total : t ≡ t1 + t2

  IsAccepted-accept :
      (tcp_stream : Future (Result Handshake (Unit {0}))) (t : ℕ) (stream : Stream)
      → IsAccepted tcp_stream t stream
      → accept_tls_connection io alpn_01_config tls_server_config tcp_stream
        ≡ ready t (ok (some stream))
  unfolding accept_tls_connection
  IsAccepted-accept tcp_stream t stream a =
      ground (arith, a.started, a.start_in_time, a.no_challenge, a.finished, a.end_in_time, a.total)

  abbrev limit : ℕ
  limit = tls_handshake_timeout

  -- what is accepted after the second part
  finished_stream :
      (f : Future (Result Stream (Unit {0}))) (t : ℕ) (stream : Stream)
      → and_then (timeout limit f) (after_stream io alpn_01_config tls_server_config)
        ≡ ready t (ok (some stream))
      → (f ≡ ready t (ok stream)) × (t ≤ limit)
  finished_stream (ready u (ok s)) t stream h = ground arith
  finished_stream (ready u (err e)) t stream h = ground arith
  finished_stream never t stream h = ground arith

  abbrev closed : Unit {0} → Future (Result (Option Stream) (Unit {0}))
  closed _ = ready 0 (ok none)

  closed_stream :
      (f : Future (Unit {0})) (t u v : ℕ) (stream : Stream)
      → delayed u (delayed v (and_then f closed)) ≢ ready t (ok (some stream))
  closed_stream (ready w x) t u v stream h = ground arith
  closed_stream never t u v stream h = ground arith

  -- an ACME connection comes to no service
  acme_stream :
      (f : Future (Result Stream (Unit {0}))) (t u : ℕ) (stream : Stream)
      → delayed u
          (and_then (timeout limit f) (after_acme_stream io alpn_01_config tls_server_config))
        ≢ ready t (ok (some stream))
  acme_stream (ready v (ok s)) t u stream h = elim (Bool-cases (leb v limit)) [
    | inl e ↦ closed_stream (io.shutdown s) t u v stream (ground arith)
    | inr e ↦ ground arith
  ]
  acme_stream (ready v (err e)) t u stream h = ground arith
  acme_stream never t u stream h = ground arith

  accepted_hello :
      (handshake : Handshake) (u t : ℕ) (stream : Stream)
      → delayed u (after_hello io alpn_01_config tls_server_config (some (ok handshake)))
        ≡ ready t (ok (some stream))
      → (is_tls_alpn_challenge (io.client_hello handshake) ≡ false)
        × ((v : ℕ) × ((io.into_stream handshake tls_server_config ≡ ready v (ok stream))
              × (v ≤ limit)
              × (t ≡ u + v)))
  accepted_hello handshake u t stream h =
      let after = after_stream io alpn_01_config tls_server_config in
      let first =
        and_then
          (timeout limit (io.into_stream handshake (alpn_01_config (io.client_hello handshake))))
          (after_acme_stream io alpn_01_config tls_server_config) in
      elim (Bool-cases (is_tls_alpn_challenge (io.client_hello handshake))) [
        | inl e ↦ absurd (
            acme_stream (io.into_stream handshake (alpn_01_config (io.client_hello handshake))) t u
              stream (ground arith))
        | inr e ↦
            let second =
              and_then (timeout limit (io.into_stream handshake tls_server_config)) after in
            let same : delayed u second ≡ ready t (ok (some stream)) =
              ap (λ b. delayed u (if b then first else second)) (sym e) ∙ h in
            let (v, (ended, total)) = delayed-eq-ready u second same in
            let (made, in_time) =
              finished_stream (io.into_stream handshake tls_server_config) v stream ended in
            (e, (v, (made, in_time, total)))
      ]

  accept-IsAccepted :
      (tcp_stream : Future (Result Handshake (Unit {0}))) (t : ℕ) (stream : Stream)
      → accept_tls_connection io alpn_01_config tls_server_config tcp_stream
        ≡ ready t (ok (some stream))
      → IsAccepted tcp_stream t stream
  unfolding accept_tls_connection
  accept-IsAccepted never t stream h = absurd (ground arith)
  accept-IsAccepted (ready u (err e)) t stream h = absurd (ground arith)
  accept-IsAccepted (ready u (ok handshake)) t stream h = elim (Bool-cases (leb u limit)) [
    | inr late ↦ absurd (ground arith)
    | inl in_time ↦
        let (no_challenge, (v, (finished, end_in_time, total))) =
          accepted_hello handshake u t stream (ground arith) in
        record {
          handshake = handshake;
          t1 = u;
          t2 = v;
          started = refl;
          start_in_time = ground arith;
          no_challenge = no_challenge;
          finished = finished;
          end_in_time = end_in_time;
          total = total;
        }
  ]

  -- A connection gives a stream to a service after a time just if the client's hello comes within ten
  -- seconds and asks for no ACME challenge, and the handshake with the listener's configuration ends
  -- with that stream within ten seconds more; the time is that of the two parts. So an ACME connection
  -- comes to no service.
  pub accept_tls_connection-eq-stream_iff :
      (tcp_stream : Future (Result Handshake (Unit {0}))) (t : ℕ) (stream : Stream)
      → (accept_tls_connection io alpn_01_config tls_server_config tcp_stream
          ≡ ready t (ok (some stream)))
        ↔ IsAccepted tcp_stream t stream
  accept_tls_connection-eq-stream_iff tcp_stream t stream =
      (accept-IsAccepted tcp_stream t stream, IsAccepted-accept tcp_stream t stream)

  -- the hello, if there is one, asks for no challenge
  abbrev pub NoChallenge : Future (Result Handshake (Unit {0})) → Type 0
  NoChallenge (ready t (ok handshake)) = is_tls_alpn_challenge (io.client_hello handshake) ≡ false
  NoChallenge (ready t (err e)) = Unit
  NoChallenge never = Unit

  second-EndsWithin :
      (u : ℕ) (f : Future (Result Stream (Unit {0})))
      → u ≤ limit
      → EndsWithin (2 * limit) (
          delayed u (and_then (timeout limit f) (after_stream io alpn_01_config tls_server_config)))
  second-EndsWithin u (ready v (ok s)) h = elim (Bool-cases (leb v limit)) [
    | inl e ↦ rw e (ground arith)
    | inr e ↦ rw e (ground arith)
  ]
  second-EndsWithin u (ready v (err x)) h = elim (Bool-cases (leb v limit)) [
    | inl e ↦ rw e (ground arith)
    | inr e ↦ rw e (ground arith)
  ]
  second-EndsWithin u never h = ground arith

  pub accept_tls_connection-EndsWithin :
      (tcp_stream : Future (Result Handshake (Unit {0})))
      → NoChallenge tcp_stream
      → EndsWithin
          (2 * limit)
          (accept_tls_connection io alpn_01_config tls_server_config tcp_stream)
  unfolding accept_tls_connection
  accept_tls_connection-EndsWithin never h = ground arith
  accept_tls_connection-EndsWithin (ready u (err e)) h = elim (Bool-cases (leb u limit)) [
    | inl e ↦ rw e (ground arith)
    | inr e ↦ rw e (ground arith)
  ]
  accept_tls_connection-EndsWithin (ready u (ok handshake)) h = elim (Bool-cases (leb u limit)) [
    | inl e ↦
        rw (e, h) (second-EndsWithin u (io.into_stream handshake tls_server_config) (ground arith))
    | inr e ↦ rw e (ground arith)
  ]

  -- a client that sends nothing
  pub accept_silent :
      accept_tls_connection io alpn_01_config tls_server_config never ≡ ready limit (err tt)
  unfolding accept_tls_connection
  accept_silent = refl
