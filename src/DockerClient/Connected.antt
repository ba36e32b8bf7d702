-- ===== src/DockerClient/Connected.antt =====
-- A request of docker/src/client.rs finds a connection or says that it could not connect.
use pingoo.Prelude.{
  String, Option, none, some, Bool, ◌≡◌, ◌≢◌, ◌⊎◌, inl, inr, refl, sym, ap, subst, arith, is_some,
  if◌then◌else◌, Option-cases, Result, ok, err,
}
use pingoo.DockerClient.{
  Error, connecting_failed, handshake_failed, panicked, Request, Response, Hyper, Client, After,
  connect, after_connect, after_handshake, request_of, answer_of, after_send, send, prepared,
  connected, send_request,
}

module _ {World Stream Sender : Type 0} (hyper : Hyper World Stream Sender) {Query Answer : Type 0}
    (to_query : Query → Option String) (to_json : Query → Option String)
    (from_json : String → Option Answer) where
  abbrev NoPanic : After hyper Answer → Type 0
  NoPanic (w, c, r) = r ≢ err panicked

  request_of-ne-panicked :
      (path : String) (query body : Option Query)
      → request_of hyper to_query to_json from_json path query body ≢ err panicked
  unfolding request_of
  request_of-ne-panicked path query body h = ground arith

  answer_of-ne-panicked :
      (response : Response) → answer_of hyper to_query to_json from_json response ≢ err panicked
  unfolding answer_of
  answer_of-ne-panicked response h = ground arith

  sent-NoPanic :
      (c : Client Sender) (sent : World × Option Response)
      → NoPanic (after_send hyper to_query to_json from_json c sent)
  sent-NoPanic c (w, none) h = ground arith
  sent-NoPanic c (w, some response) h = answer_of-ne-panicked response h

  prepared-NoPanic :
      (w : World) (c : Client Sender) (sender : Sender) (request : Result Request Error)
      → c.socket ≡ some sender
      → request ≢ err panicked
      → NoPanic (prepared hyper to_query to_json from_json w c request)
  prepared-NoPanic w c sender (err e) has sound = λ h. sound (ground arith)
  prepared-NoPanic w c sender (ok request) has sound =
      subst (λ o. NoPanic (send hyper to_query to_json from_json w c o request)) (sym has)
        (sent-NoPanic c (hyper.send_request w sender request))

  -- Where connecting succeeds, the client has a connection, and else it is as it was.
  pub record Connects (c : Client Sender) (a : After hyper (Unit {0})) : Type 0 where
    pub outcome :
        ((a.2 ≡ ok tt) × ((sender : Sender) × (a.1.socket ≡ some sender)))
        ⊎ ((e : Error) × ((a.2 ≡ err e) × (e ≢ panicked) × (a.1 ≡ c)))

  handshake-Connects :
      (c : Client Sender) (made : World × Option Sender) → Connects c (after_handshake hyper c made)
  handshake-Connects c (w, none) = record {
    outcome = inr (handshake_failed, (refl, λ h. ground arith, refl));
  }
  handshake-Connects c (w, some sender) = record { outcome = inl (refl, (sender, refl)) }

  connected-Connects :
      (c : Client Sender) (made : World × Option Stream) → Connects c (after_connect hyper c made)
  connected-Connects c (w, none) = record {
    outcome = inr (connecting_failed, (refl, λ h. ground arith, refl));
  }
  connected-Connects c (w, some stream) = handshake-Connects c (hyper.handshake w stream)

  connect-Connects : (w : World) (c : Client Sender) → Connects c (connect hyper w c)
  unfolding connect
  connect-Connects w c = elim (Option-cases c.socket) [
    | inl e ↦
        subst
          (λ (b : Bool).
            Connects c
              (if b then (w, c, ok tt) else after_connect hyper c (hyper.connect w c.socket_path)))
          (sym (ap is_some e)) (connected-Connects c (hyper.connect w c.socket_path))
    | inr (sender, e) ↦
        subst
          (λ (b : Bool).
            Connects c
              (if b then (w, c, ok tt) else after_connect hyper c (hyper.connect w c.socket_path)))
          (sym (ap is_some e)) (record { outcome = inl (refl, (sender, e)) })
  ]

  ready-Connects :
      (w : World) (c : Client Sender)
      → Connects c (if is_some c.socket then (w, c, ok tt) else connect hyper w c)
  ready-Connects w c = elim (Option-cases c.socket) [
    | inl e ↦
        subst (λ (b : Bool). Connects c (if b then (w, c, ok tt) else connect hyper w c))
          (sym (ap is_some e)) (connect-Connects w c)
    | inr (sender, e) ↦
        subst (λ (b : Bool). Connects c (if b then (w, c, ok tt) else connect hyper w c))
          (sym (ap is_some e)) (record { outcome = inl (refl, (sender, e)) })
  ]

  connected-NoPanic :
      (c : Client Sender) (request : Result Request Error) (a : After hyper (Unit {0}))
      → request ≢ err panicked
      → Connects c a
      → NoPanic (connected hyper to_query to_json from_json request a)
  connected-NoPanic c request (w, c', err e) sound k = elim k.outcome [
    | inl (is_ok, _) ↦ absurd (ground arith)
    | inr (e', (is_e, ne, _)) ↦ λ h. ne (ground arith)
  ]
  connected-NoPanic c request (w, c', ok _) sound k = elim k.outcome [
    | inl (_, (sender, has)) ↦ prepared-NoPanic w c' sender request has sound
    | inr (e', (is_e, ne, _)) ↦ absurd (ground arith)
  ]

  -- No request panics: where it comes to the unwrapping of the connection there is one.
  pub send_request-ne-panicked :
      (w : World) (c : Client Sender) (path : String) (query body : Option Query)
      → (send_request hyper to_query to_json from_json w c path query body).2 ≢ err panicked
  unfolding send_request
  send_request-ne-panicked w c path query body =
      connected-NoPanic c (request_of hyper to_query to_json from_json path query body)
        (if is_some c.socket then (w, c, ok tt) else connect hyper w c)
        (request_of-ne-panicked path query body) (ready-Connects w c)
