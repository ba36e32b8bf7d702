-- ===== src/DockerClient/Closed.antt =====
-- What the client of docker/src/client.rs does once it has a connection.
use pingoo.Prelude.{
  String, List, [], ◌∷◌, Option, none, some, ◌≡◌, refl, sym, ap, subst, arith, is_some,
  if◌then◌else◌, Result, ok, err, All,
}
use pingoo.DockerClient.{
  Error, sending_failed, Request, Response, Hyper, Client, After, connect, request_of, after_send,
  send, prepared, connected, send_request,
}

module _ {World Stream Sender : Type 0} (hyper : Hyper World Stream Sender) {Query Answer : Type 0}
    (to_query : Query → Option String) (to_json : Query → Option String)
    (from_json : String → Option Answer) where
  -- one request: its path, query and body
  abbrev pub Call : Type 0
  Call = String × Option Query × Option Query

  abbrev pub call : World → Client Sender → Call → After hyper Answer
  call w c (path, query, body) = send_request hyper to_query to_json from_json w c path query body

  abbrev cons_answer :
      Result Answer Error
      → World × Client Sender × List (Result Answer Error)
      → World × Client Sender × List (Result Answer Error)
  cons_answer r (w, c, rs) = (w, c, r ∷ rs)

  -- one request after the other
  unfoldable pub run :
      World → Client Sender → List Call → World × Client Sender × List (Result Answer Error)
  run w c [] = (w, c, [])
  run w c (x ∷ xs) = let (w', c', r) = call w c x in cons_answer r (run w' c' xs)

  abbrev pub IsErr : Result Answer Error → Type 0
  IsErr r = (e : Error) × (r ≡ err e)

  -- a call of a client that is connected
  pub prepared-call :
      (w : World) (c : Client Sender) (sender : Sender) (x : Call)
      → c.socket ≡ some sender
      → call w c x
        ≡ prepared hyper to_query to_json from_json w c
            (request_of hyper to_query to_json from_json x.0 x.1 x.2)
  unfolding send_request
  prepared-call w c sender x h =
      ap
        (λ (o : Option Sender).
          connected hyper to_query to_json from_json
            (request_of hyper to_query to_json from_json x.0 x.1 x.2)
            (if is_some o then (w, c, ok tt) else connect hyper w c))
        h

  module _ (c : Client Sender) (sender : Sender) (has : c.socket ≡ some sender)
      (closed : (w : World) (request : Request)
        → (hyper.send_request w sender request).1 ≡ none) where
    abbrev Failed : World → After hyper Answer → Type 0
    Failed w (w', c', r) = (c' ≡ c) × IsErr r

    sent-Failed :
        (w : World) (sent : World × Option Response)
        → sent.1 ≡ none
        → Failed w (after_send hyper to_query to_json from_json c sent)
    sent-Failed w (w', none) h = (refl, (sending_failed, refl))
    sent-Failed w (w', some response) h = absurd (ground arith)

    prepared-Failed :
        (w : World) (request : Result Request Error)
        → Failed w (prepared hyper to_query to_json from_json w c request)
    prepared-Failed w (err e) = (refl, (e, refl))
    prepared-Failed w (ok request) =
        subst (λ o. Failed w (send hyper to_query to_json from_json w c o request)) (sym has)
          (sent-Failed w (hyper.send_request w sender request) (closed w request))

    call-Failed : (w : World) (x : Call) → Failed w (call w c x)
    call-Failed w x =
        subst (Failed w) (sym (prepared-call w c sender x has))
          (prepared-Failed w (request_of hyper to_query to_json from_json x.0 x.1 x.2))

    -- Once the connection that a client has is closed, every later request fails, and the client keeps
    -- the closed connection and opens no other.
    pub run-closed : (w : World) (xs : List Call) → ((run w c xs).1 ≡ c) × All IsErr (run w c xs).2
    unfolding run
    run-closed w [] = (refl, tt)
    run-closed w (x ∷ xs) =
        let (w', c', r) = call w c x in
        let (same, failed) = call-Failed w x in
        let (kept, rest) = run-closed w' xs in
        let (kept', rest') =
          subst (λ d. ((run w' d xs).1 ≡ c) × All IsErr (run w' d xs).2) (sym same) (kept, rest) in
        (kept', (failed, rest'))
